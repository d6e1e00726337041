-- ===== src/View/HashSpace.antt =====
-- The division of the hash space among the leaders, of
-- febft-pbft-consensus/src/bft/sync/view/mod.rs.
use febft.Base.{
  ℕ, zero, suc, ◌+◌, ◌/◌, ◌≤◌, ◌<◌, ◌≡◌, ◌≢◌, refl, ap, ◌∙◌, false, Bool, none, some, List, [], ◌∷◌,
  ◌==◌, leb, if◌then◌else◌, length, contains, Distinct, lookup, insert, lookup-insert, ok, arith,
  ==_self,
}
use febft.Atlas.{Atlas, BytesLaws}
use febft.View.{
  Slice, last_hash, is_request_in_hash_space, divide_from, divide_hash_space, slices_for_leaders,
  calculate_hash_space_division,
}

module _ (a : Atlas) (laws : BytesLaws a) (rq : ℕ) where
  -- In how many slices the digest is.
  abbrev pub hits : List Slice → ℕ
  hits [] = 0
  hits (s ∷ ss) = (if is_request_in_hash_space a rq s then 1 else 0) + hits ss

  in_slice :
      (first last : ℕ)
      → is_request_in_hash_space a rq (a.to_bytes_be first, a.to_bytes_be last)
        ≡ (if leb first rq then leb rq last else false)
  unfolding is_request_in_hash_space
  in_slice first last = rw (laws.from_to first, laws.from_to last) (ground arith)

  hits_before :
      (left end increment start : ℕ)
      → rq < start
      → hits (divide_from a left end increment start) ≡ 0
  unfolding divide_from
  hits_before zero end increment start h = refl
  hits_before (suc zero) end increment start h = ground (arith, in_slice start end)
  hits_before (suc (suc left)) end increment start h = ground (
    arith,
    in_slice start (start + increment),
    hits_before (suc left) end increment (start + increment + 1),
  )

  hits_from :
      (left end increment start : ℕ)
      → start ≤ rq
      → rq ≤ end
      → hits (divide_from a (suc left) end increment start) ≡ 1
  unfolding divide_from
  hits_from zero end increment start h k = ground (arith, in_slice start end)
  hits_from (suc left) end increment start h k = ground (
    arith,
    in_slice start (start + increment),
    hits_before (suc left) end increment (start + increment + 1),
    hits_from left end increment (start + increment + 1),
  )

  length-divide_from :
      (left end increment start : ℕ) → length (divide_from a left end increment start) ≡ left
  unfolding divide_from
  length-divide_from zero end increment start = refl
  length-divide_from (suc zero) end increment start = refl
  length-divide_from (suc (suc left)) end increment start =
      ap suc (length-divide_from (suc left) end increment (start + increment + 1))

  -- The leader is responsible for the digest: it has a slice, and the digest is in it.
  abbrev pub is_responsible : List (ℕ × Slice) → ℕ → Bool
  is_responsible division leader = elim (lookup leader division) [
    | none ↦ false
    | some s ↦ is_request_in_hash_space a rq s
  ]

  abbrev pub responsible : List (ℕ × Slice) → List ℕ → ℕ
  responsible division [] = 0
  responsible division (l ∷ ls) =
      (if is_responsible division l then 1 else 0) + responsible division ls

  responsible-cons :
      (division : List (ℕ × Slice)) (l : ℕ) (ls : List ℕ) (s : Slice) (n : ℕ)
      → lookup l division ≡ some s
      → responsible division ls ≡ n
      → responsible division (l ∷ ls) ≡ (if is_request_in_hash_space a rq s then 1 else 0) + n
  responsible-cons division l ls s n own same = ground arith

  assigned :
      (leaders : List ℕ) (slices : List Slice) (acc : List (ℕ × Slice))
      → Distinct leaders
      → length slices ≡ length leaders
      → (division : List (ℕ × Slice)) × (slices_for_leaders a leaders slices acc ≡ ok division)
        × (responsible division leaders ≡ hits slices)
        × ((x : ℕ) → contains leaders x ≡ false → lookup x division ≡ lookup x acc)
  unfolding slices_for_leaders
  assigned [] [] acc d e = (acc, refl, refl, λ x h. refl)
  assigned [] (s ∷ ss) acc d e = absurd (omega arith)
  assigned (l ∷ ls) [] acc d e = absurd (omega arith)
  assigned (l ∷ ls) (s ∷ ss) acc d e =
      let (division, eq, same, kept) = assigned ls ss (insert l s acc) d.1 (omega arith) in
      let own : lookup l division ≡ some s =
        kept l d.0 ∙ (lookup-insert l l s acc ∙ rw (==_self l) refl) in
      (
        division,
        eq,
        responsible-cons division l ls s (hits ss) own same,
        λ x h. kept x (ground arith) ∙ (lookup-insert l x s acc ∙ ground arith),
      )

  -- Every digest lies in exactly one of the slices that the hash space is divided into.
  pub hits-divide_hash_space :
      (size_bytes count : ℕ)
      → count ≢ 0
      → rq ≤ last_hash size_bytes
      → (slices : List Slice) × (divide_hash_space a size_bytes count ≡ ok slices)
        × (length slices ≡ count)
        × (hits slices ≡ 1)
  unfolding divide_hash_space
  hits-divide_hash_space size_bytes zero h k = absurd (h refl)
  hits-divide_hash_space size_bytes (suc count) h k =
      let end = last_hash size_bytes in
      let nonzero : (suc count == 0) ≡ false = ground arith in
      (
        divide_from a (suc count) end (end / suc count) 0,
        rw nonzero refl,
        length-divide_from (suc count) end (end / suc count) 0,
        hits_from count end (end / suc count) 0 (omega arith) k,
      )

  -- The division of the hash space among different leaders, one at least, is total, and makes one
  -- of them responsible for each digest, and no two.
  pub one_responsible :
      (size_bytes : ℕ) (leaders : List ℕ)
      → leaders ≢ []
      → Distinct leaders
      → rq ≤ last_hash size_bytes
      → (division : List (ℕ × Slice)) × (calculate_hash_space_division a size_bytes leaders
          ≡ ok division)
        × (responsible division leaders ≡ 1)
  unfolding calculate_hash_space_division
  one_responsible size_bytes leaders ne d k =
      let (slices, eq, len, once) =
        hits-divide_hash_space size_bytes (length leaders) (ground arith) k in
      let (division, eq', same, _) = assigned leaders slices [] d len in
      (division, rw eq eq', same ∙ once)
