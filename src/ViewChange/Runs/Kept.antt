-- ===== src/ViewChange/Runs/Kept.antt =====
-- The counts of the synchronizer of febft-pbft-consensus/src/bft/sync/mod.rs over any calls.
use febft.Base.{
  some_eq, Result, ok, err, panic, subst, ℕ, suc, ◌≡◌, refl, ◌∙◌, ap, false, ◌||◌, Option, none,
  some, List, [], ◌∷◌, ◌==◌, ltb, length, contains, Distinct, Distinct-append, All, insert,
  if-cases, arith,
}
use febft.Atlas.{Atlas}
use febft.Sync.{SynchronizerAccessory, follower, replica}
use febft.ViewChange.Messages.{
  ViewChangeMessageKind, stop, stop_quorum_join, stop_data, sync, StoredMessage,
}
use febft.ViewChange.Queue.{ViewTbo}
use febft.ViewChange.Layers.{has_key, hold_stop_data}
use febft.ViewChange.Stopping.{process_init, vote_in, add_vote}
use febft.ViewChange.Runs.{Counted, CountedAt, keys}
use febft.ViewChange.Synchronizer.{ProtoPhase, Synchronizer, World, ◌>>=◌, unwrapped}

-- A chain that succeeds has gone through both of its calls.
pub >>=-eq-some {ℓ κ} :
    {A : Type ℓ} {B : Type κ} (m : Option A) (f : A → Option B) {b : B}
    → (m >>= f) ≡ some b
    → (x : A) × (m ≡ some x) × (f x ≡ some b)
>>=-eq-some (some x) f h = (x, refl, h)
>>=-eq-some none f h = cc

pub unwrapped-ok {ℓ} :
    {A : Type ℓ} {E : Type 0} (r : Result E A) {x : A} → unwrapped r ≡ some x → r ≡ ok x
unwrapped-ok (ok y) h = ap ok (some_eq h)
unwrapped-ok (err e) h = cc
unwrapped-ok panic h = cc

-- What holds of the world of a result.
pub at_result {ℓ} :
    {A : Type ℓ} (P : World → Type 0) (x y : World) (u v : A)
    → ◌≡◌ {A = Option (World × A)} (some (x, u)) (some (y, v))
    → P x
    → P y
at_result P x y u v e p = subst P (cc) p

pub result-Counted {ℓ} :
    {A : Type ℓ} (x y : World) (u v : A)
    → ◌≡◌ {A = Option (World × A)} (some (x, u)) (some (y, v))
    → Counted x.synchronizer
    → Counted y.synchronizer
result-Counted = at_result (λ w. Counted w.synchronizer)

pub pair-Counted {ℓ} :
    {A : Type ℓ} (r : World × A) (y : World) (v : A)
    → ◌≡◌ {A = Option (World × A)} (some r) (some (y, v))
    → Counted r.0.synchronizer
    → Counted y.synchronizer
pair-Counted (x, u) y v = result-Counted x y u v

-- The world after a call has its counts right.
abbrev pub Right {ℓ} : {A : Type ℓ} → World × A → Type 0
Right r = Counted r.0.synchronizer

pub has_key-contains {ℓ} :
    {A : Type ℓ} (xs : List (ℕ × A)) (k : ℕ) → has_key xs k ≡ contains (keys xs) k
has_key-contains [] k = refl
has_key-contains ((j, x) ∷ xs) k = ground (arith, has_key-contains xs k)

module _ {ℓ} {A : Type ℓ} (k : ℕ) (v : A) where
  pub contains-insert :
      (xs : List (ℕ × A)) (j : ℕ)
      → contains (keys (insert k v xs)) j ≡ (contains (keys xs) j || k == j)
  contains-insert [] j = ground arith
  contains-insert ((i, x) ∷ xs) j = ground (arith, contains-insert xs j)

  pub Distinct-insert : (xs : List (ℕ × A)) → Distinct (keys xs) → Distinct (keys (insert k v xs))
  Distinct-insert [] d = (refl, tt)
  Distinct-insert ((i, x) ∷ xs) d = ground (arith, contains-insert xs i, Distinct-insert xs d.1)

  pub length-insert :
      (xs : List (ℕ × A)) → has_key xs k ≡ false → length (insert k v xs) ≡ suc (length xs)
  length-insert [] h = refl
  length-insert ((i, x) ∷ xs) h = ground (arith, length-insert xs)

Distinct-vote_in : (voters : List ℕ) (voter : ℕ) → Distinct voters → Distinct (vote_in voters voter)
Distinct-vote_in voters voter d =
    if-cases Distinct (contains voters voter) (λ h. d) (λ h. Distinct-append voters voter d h)

abbrev pub Voters : List (ℕ × List ℕ) → Type 0
Voters votes = All (λ v. Distinct v.1) votes

pub add_vote-Voters :
    (votes : List (ℕ × List ℕ)) (node voter : ℕ) → Voters votes → Voters (add_vote votes node voter)
add_vote-Voters [] node voter d = ((refl, tt), tt)
add_vote-Voters ((k, voters) ∷ votes) node voter d =
    if-cases Voters (k == node) (λ h. (Distinct-vote_in voters voter d.0, d.1))
      (λ h.
        if-cases Voters (ltb node k) (λ h. ((refl, tt), d))
          (λ h. (d.0, add_vote-Voters votes node voter d.1)))

pub counted_at :
    (s : Synchronizer) (phase : ProtoPhase)
    → Counted s
    → s.phase ≡ phase
    → CountedAt phase s.stopped s.collects
counted_at s phase c e = subst (λ p. CountedAt p s.stopped s.collects) e c.counted

-- The phase and the other counted fields of a synchronizer decide.
pub same_counts :
    (s t : Synchronizer)
    → Counted s
    → t.phase ≡ s.phase
    → t.stopped ≡ s.stopped
    → t.collects ≡ s.collects
    → t.currently_adding ≡ s.currently_adding
    → t.accessory ≡ s.accessory
    → Counted t
same_counts s t c p st co ad ac = record {
  counted = rw (p, st, co) c.counted;
  stoppers = rw st c.stoppers;
  collectors = rw co c.collectors;
  voters = rw ad c.voters;
  is_replica = ac ∙ c.is_replica;
}

module _ (a : Atlas) (size_bytes : ℕ) (view_tbo : ViewTbo) where
  pub hold_stop_data-Counted :
      (w : World) (accessory : SynchronizerAccessory) (m : StoredMessage)
      → Counted w.synchronizer
      → Counted (hold_stop_data a view_tbo w accessory m).synchronizer
  hold_stop_data-Counted w follower m c = c
  hold_stop_data-Counted w replica m c = same_counts w.synchronizer _ c refl refl refl refl refl

  pub process_init-Right :
      (w : World) (kind : ViewChangeMessageKind) (m : StoredMessage)
      → Counted w.synchronizer
      → Right (process_init a size_bytes view_tbo w kind m)
  unfolding process_init
  process_init-Right w (stop rqs) m c = same_counts w.synchronizer _ c refl refl refl refl refl
  process_init-Right w (stop_quorum_join node) m c =
      same_counts w.synchronizer _ c refl refl refl refl refl
  process_init-Right w (stop_data collect) m c =
      hold_stop_data-Counted w w.synchronizer.accessory m c
  process_init-Right w (sync proposed collects) m c =
      same_counts w.synchronizer _ c refl refl refl refl refl
