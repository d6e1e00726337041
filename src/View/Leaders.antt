-- ===== src/View/Leaders.antt =====
-- Who leads a view, and who is a member of it, of febft-pbft-consensus/src/bft/sync/view/mod.rs.
use febft.Base.{
  ℕ, zero, suc, ◌+◌, ◌-◌, ◌^◌, ◌/◌, ◌%◌, ◌<◌, ◌≡◌, refl, ap, ◌∙◌, true, false, some, List, [], ◌∷◌,
  ◌==◌, length, get_elem?, contains, ok, arith, ==_self,
}
use febft.Atlas.{Atlas, SystemParams, ParamsLaws, BytesLaws}
use febft.View.{
  ViewInfo, targets, targets_from, new, from_quorum, with_members, leader, push_leaders,
}
use febft.View.HashSpace.{one_responsible}
use native.Mathlib.Nat.{mod-lt, mod-eq_of_lt}

get_elem?-targets_from :
    (left i k : ℕ) → k < left → get_elem? (targets_from left i) k ≡ some (i + k)
get_elem?-targets_from zero i k h = elim h [ ]
get_elem?-targets_from (suc left) i zero h = ap some (omega arith)
get_elem?-targets_from (suc left) i (suc k) h =
    get_elem?-targets_from left (i + 1) k (omega arith) ∙ ap some (omega arith)

length-targets_from : (left i : ℕ) → length (targets_from left i) ≡ left
length-targets_from zero i = refl
length-targets_from (suc left) i = ap suc (length-targets_from left (i + 1))

get_elem?-total :
    (xs : List ℕ) (i : ℕ)
    → i < length xs
    → (x : ℕ) × (get_elem? xs i ≡ some x) × (contains xs x ≡ true)
get_elem?-total [] i h = elim h [ ]
get_elem?-total (x ∷ xs) zero h = (x, refl, ground (arith, ==_self x))
get_elem?-total (x ∷ xs) (suc i) h =
    let (y, e, c) = get_elem?-total xs i (omega arith) in (y, e, ground arith)

module _ (a : Atlas) (bytes : BytesLaws a) (size_bytes : ℕ) where
  -- The leader of a view of `n` members is that at `seq % n`, and is its leader set.
  abbrev pub LedBy : ℕ → List ℕ → ℕ → ViewInfo → Type 0
  LedBy seq members x v =
      (v.seq ≡ seq) × (v.quorum_members ≡ members) × (v.leader_set ≡ x ∷ []) × (leader v ≡ ok x)

  with_members-LedBy :
      (seq n : ℕ) (members : List ℕ) (params : SystemParams) (x : ℕ)
      → 0 < n
      → params.n ≡ n
      → get_elem? members (seq % n) ≡ some x
      → (v : ViewInfo) × (with_members a size_bytes seq n members params ≡ ok v)
        × LedBy seq members x v
        × (v.params ≡ params)
  unfolding with_members push_leaders leader
  with_members-LedBy seq n members params x pos e at =
      let (division, eq, _) =
        one_responsible a bytes 0 size_bytes (x ∷ []) (ground arith) (refl, tt) (omega arith) in
      let nonzero : (n == 0) ≡ false = ground arith in
      (
        record {
          seq = seq;
          quorum_members = members;
          leader_set = x ∷ [];
          leader_hash_space_division = division;
          params = params;
        },
        rw (nonzero, at, eq) refl,
        (refl, refl, refl, rw (e, nonzero, at) refl),
        refl,
      )

  -- `ViewInfo::new` is total on accepted parameters with fewer than 2^32 nodes: its members are the
  -- nodes from 0 to `n`, and the leadership goes round them, by the sequence number of the view
  -- modulo `n`.
  pub new_round_robin :
      (laws : ParamsLaws a) (seq n f : ℕ) (params : SystemParams)
      → 0 < n
      → n < 2 ^ 32
      → a.params_new n f ≡ some params
      → (v : ViewInfo) × (new a size_bytes seq n f ≡ ok v)
        × LedBy seq (targets n) (seq % n) v
        × (v.params ≡ params)
  unfolding new
  new_round_robin laws seq n f params pos small e =
      let whole : n % 2 ^ 32 ≡ n = mod-eq_of_lt small in
      let at : get_elem? (targets n) (seq % n) ≡ some (seq % n) =
        rw whole (get_elem?-targets_from n 0 (seq % n) (mod-lt seq pos) ∙ ap some (omega arith)) in
      rw e (with_members-LedBy seq n (targets n) params (seq % n) pos (laws.new_n n f params e) at)

  -- `ViewInfo::from_quorum` is total on a quorum of accepted size, and one of its members leads.
  pub from_quorum_member_leads :
      (laws : ParamsLaws a) (seq : ℕ) (members : List ℕ) (params : SystemParams)
      → 0 < length members
      → a.params_new (length members) ((length members - 1) / 3) ≡ some params
      → (x : ℕ) × (v : ViewInfo) × (from_quorum a size_bytes seq members ≡ ok v)
        × LedBy seq members x v
        × (contains members x ≡ true)
  unfolding from_quorum
  from_quorum_member_leads laws seq members params pos e =
      let (x, at, member) = get_elem?-total members (seq % length members) (mod-lt seq pos) in
      let nonzero : (length members == 0) ≡ false = ground arith in
      let (v, eq, led, _) =
        with_members-LedBy seq (length members) members params x pos (laws.new_n _ _ params e) at in
      (x, v, rw (nonzero, e) eq, led, member)
