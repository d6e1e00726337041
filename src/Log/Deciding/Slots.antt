-- ===== src/Log/Deciding/Slots.antt =====
-- The slots of the leaders in the log of an instance, of
-- febft-pbft-consensus/src/bft/log/deciding/mod.rs: the digest, the requests and the message of each.
use febft.Base.{
  ℕ, zero, suc, ◌≤◌, ◌≡◌, refl, sym, ap, true, false, Option, none, some, List, [], ◌∷◌, ◌++◌, ◌==◌,
  length, set, contains, replicate, Distinct, count_some, ok, arith, ◌⊎◌, inl, inr, Bool-cases,
  Option-cases,
}
use febft.Message.{
  Request, StoredConsensusMessage, ConsensusMessageKind, pre_prepare, prepare, commit, kind_of,
}
use febft.Log.Decisions.{position, digests}
use febft.Log.Install.{batch_of}
use febft.Log.Deciding.{DecidingLogError, collect_digests}
use febft.Log.Deciding.Collect.{unwrap_all, append_requests}

abbrev pub requests_in : ConsensusMessageKind → Option (List Request)
requests_in (pre_prepare rqs) = some rqs
requests_in (prepare d) = none
requests_in (commit d) = none

-- The digests and the requests that go with the messages.
abbrev pub slot_digests : List (Option StoredConsensusMessage) → List (Option ℕ)
slot_digests [] = []
slot_digests (none ∷ ms) = none ∷ slot_digests ms
slot_digests (some m ∷ ms) = some m.digest ∷ slot_digests ms

abbrev pub slot_requests : List (Option StoredConsensusMessage) → List (Option (List Request))
slot_requests [] = []
slot_requests (none ∷ ms) = none ∷ slot_requests ms
slot_requests (some m ∷ ms) = requests_in (kind_of m) ∷ slot_requests ms

-- The slot of `leader`: empty, or filled by a `PRE-PREPARE` of the leader, which is `received`.
abbrev pub Slot : List ℕ → ℕ → Option StoredConsensusMessage → Type 0
Slot received leader none = contains received leader ≡ false
Slot received leader (some m) =
    (contains received leader ≡ true)
    × (m.from ≡ leader)
    × ((rqs : List Request) × (kind_of m ≡ pre_prepare rqs))

-- One slot for each leader.
abbrev pub Slots : List ℕ → List ℕ → List (Option StoredConsensusMessage) → Type 0
Slots received [] [] = Unit
Slots received [] (m ∷ ms) = ⊥
Slots received (l ∷ ls) [] = ⊥
Slots received (l ∷ ls) (m ∷ ms) = Slot received l m × Slots received ls ms

pub Slots-empty : (ls : List ℕ) → Slots [] ls (replicate (length ls) none)
Slots-empty [] = tt
Slots-empty (l ∷ ls) = (refl, Slots-empty ls)

pub slot_digests-empty : (n : ℕ) → slot_digests (replicate n none) ≡ replicate n none
slot_digests-empty zero = refl
slot_digests-empty (suc n) = ap (◌∷◌ none) (slot_digests-empty n)

pub slot_requests-empty : (n : ℕ) → slot_requests (replicate n none) ≡ replicate n none
slot_requests-empty zero = refl
slot_requests-empty (suc n) = ap (◌∷◌ none) (slot_requests-empty n)

pub count_some-empty :
    (n : ℕ) → count_some (replicate {A = Option StoredConsensusMessage} n none) ≡ 0
count_some-empty zero = refl
count_some-empty (suc n) = count_some-empty n

module _ (m : StoredConsensusMessage) where
  pub slot_digests-set :
      (ms : List (Option StoredConsensusMessage)) (i : ℕ)
      → slot_digests (set ms i (some m)) ≡ set (slot_digests ms) i (some m.digest)
  slot_digests-set [] i = refl
  slot_digests-set (none ∷ ms) zero = refl
  slot_digests-set (some n ∷ ms) zero = refl
  slot_digests-set (none ∷ ms) (suc i) = ap (◌∷◌ none) (slot_digests-set ms i)
  slot_digests-set (some n ∷ ms) (suc i) = ap (◌∷◌ (some n.digest)) (slot_digests-set ms i)

  pub slot_requests-set :
      (ms : List (Option StoredConsensusMessage)) (i : ℕ) {rqs : List Request}
      → kind_of m ≡ pre_prepare rqs
      → slot_requests (set ms i (some m)) ≡ set (slot_requests ms) i (some rqs)
  slot_requests-set [] i k = refl
  slot_requests-set (none ∷ ms) zero k = ap (λ q. requests_in q ∷ slot_requests ms) k
  slot_requests-set (some n ∷ ms) zero k = ap (λ q. requests_in q ∷ slot_requests ms) k
  slot_requests-set (none ∷ ms) (suc i) k = ap (◌∷◌ none) (slot_requests-set ms i k)
  slot_requests-set (some n ∷ ms) (suc i) k =
      ap (◌∷◌ (requests_in (kind_of n))) (slot_requests-set ms i k)

pub length-slot_digests :
    (ms : List (Option StoredConsensusMessage)) → length (slot_digests ms) ≡ length ms
length-slot_digests [] = refl
length-slot_digests (none ∷ ms) = ap suc (length-slot_digests ms)
length-slot_digests (some m ∷ ms) = ap suc (length-slot_digests ms)

pub length-slot_requests :
    (ms : List (Option StoredConsensusMessage)) → length (slot_requests ms) ≡ length ms
length-slot_requests [] = refl
length-slot_requests (none ∷ ms) = ap suc (length-slot_requests ms)
length-slot_requests (some m ∷ ms) = ap suc (length-slot_requests ms)

-- A node that has no slot among the leaders changes none when it is received.
Slot-other :
    (received : List ℕ) (leader node : ℕ) (o : Option StoredConsensusMessage)
    → (node == leader) ≡ false
    → Slot received leader o
    → Slot (node ∷ received) leader o
Slot-other received leader node none h s = ground arith
Slot-other received leader node (some m) h s = (ground arith, s.1, s.2)

pub Slots-other :
    (received ls : List ℕ) (ms : List (Option StoredConsensusMessage)) (node : ℕ)
    → contains ls node ≡ false
    → Slots received ls ms
    → Slots (node ∷ received) ls ms
Slots-other received [] [] node h s = tt
Slots-other received [] (m ∷ ms) node h s = s
Slots-other received (l ∷ ls) [] node h s = s
Slots-other received (l ∷ ls) (m ∷ ms) node h s = (
  Slot-other received l node m (ground arith) s.0,
  Slots-other received ls ms node (ground arith) s.1,
)

pub position-none : (ls : List ℕ) (node : ℕ) → position ls node ≡ none → contains ls node ≡ false
position-none [] node h = refl
position-none (l ∷ ls) node h = ground (arith, position-none ls node)

position-∷ :
    (l : ℕ) (ls : List ℕ) (node : ℕ) {i : ℕ}
    → position (l ∷ ls) node ≡ some i
    → ((l ≡ node) × (i ≡ 0))
      ⊎ ((j : ℕ) × ((l == node) ≡ false) × (position ls node ≡ some j) × (i ≡ suc j))
position-∷ l ls node {i} h = elim (Bool-cases (l == node)) [
  | inl e ↦ inl (ground arith)
  | inr e ↦ elim (Option-cases (position ls node)) [
    | inl n ↦ ground arith
    | inr (j, p) ↦ inr (j, e, p, ground arith)
  ]
]

pub position-bound :
    (ls : List ℕ) (node : ℕ) {i : ℕ} → position ls node ≡ some i → suc i ≤ length ls
position-bound [] node h = cc
position-bound (l ∷ ls) node h = elim (position-∷ l ls node h) [
  | inl (e, z) ↦ ground arith
  | inr (j, e, p, z) ↦ ground (arith, position-bound ls node p)
]

pub length-Slots :
    (received ls : List ℕ) (ms : List (Option StoredConsensusMessage))
    → Slots received ls ms
    → length ms ≡ length ls
length-Slots received [] [] s = refl
length-Slots received [] (m ∷ ms) s = elim s [ ]
length-Slots received (l ∷ ls) [] s = elim s [ ]
length-Slots received (l ∷ ls) (m ∷ ms) s = ap suc (length-Slots received ls ms s.1)

-- The first batch of a leader fills the leader's slot, and no other.
pub Slots-fill :
    (received ls : List ℕ) (ms : List (Option StoredConsensusMessage)) (m : StoredConsensusMessage)
    {i : ℕ} {rqs : List Request}
    → Slots received ls ms
    → Distinct ls
    → contains received m.from ≡ false
    → position ls m.from ≡ some i
    → kind_of m ≡ pre_prepare rqs
    → Slots (m.from ∷ received) ls (set ms i (some m))
      × (count_some (set ms i (some m)) ≡ suc (count_some ms))
Slots-fill received [] ms m s d f p k = cc
Slots-fill received (l ∷ ls) [] m s d f p k = elim s [ ]
Slots-fill received (l ∷ ls) (none ∷ ms) m {i} {rqs} s d f p k = elim (position-∷ l ls m.from p) [
  | inl (e, z) ↦ rw z (
    ((ground arith, sym e, (rqs, k)), Slots-other received ls ms m.from (rw (← e) d.0) s.1),
    refl,
  )
  | inr (j, e, q, z) ↦
      let (rest, count) = Slots-fill received ls ms m s.1 d.1 f q k in
      rw z ((ground arith, rest), count)
]
Slots-fill received (l ∷ ls) (some n ∷ ms) m {i} {rqs} s d f p k = elim (position-∷ l ls m.from p) [
  | inl (e, z) ↦ ground arith
  | inr (j, e, q, z) ↦
      let (rest, count) = Slots-fill received ls ms m s.1 d.1 f q k in
      rw z (((ground arith, s.0.1, s.0.2), rest), ap suc count)
]

pub count_some-bound : (ms : List (Option StoredConsensusMessage)) → count_some ms ≤ length ms
count_some-bound [] = omega arith
count_some-bound (none ∷ ms) = omega (arith, count_some-bound ms)
count_some-bound (some m ∷ ms) = omega (arith, count_some-bound ms)

-- The messages of slots that are all filled, and what the log reads off them.
pub record Full (ms : List (Option StoredConsensusMessage)) : Type 0 where
  pub messages : List StoredConsensusMessage
  pub requests : List Request
  pub unwrap_messages : unwrap_all {E = DecidingLogError} ms ≡ ok messages
  pub unwrap_digests : unwrap_all {E = DecidingLogError} (slot_digests ms) ≡ ok (digests messages)
  pub collected : collect_digests (slot_digests ms) ≡ some (digests messages)
  pub appended : append_requests (slot_requests ms) ≡ ok requests
  pub batch : batch_of messages ≡ ok requests

pub Slots-Full :
    (received ls : List ℕ) (ms : List (Option StoredConsensusMessage))
    → Slots received ls ms
    → count_some ms ≡ length ms
    → Full ms
unfolding unwrap_all collect_digests append_requests batch_of
Slots-Full received [] [] s c = record {
  messages = [];
  requests = [];
  unwrap_messages = refl;
  unwrap_digests = refl;
  collected = refl;
  appended = refl;
  batch = refl;
}
Slots-Full received [] (m ∷ ms) s c = elim s [ ]
Slots-Full received (l ∷ ls) [] s c = elim s [ ]
Slots-Full received (l ∷ ls) (none ∷ ms) s c =
    let absurd : ⊥ = omega (arith, count_some-bound ms) in elim absurd [ ]
Slots-Full received (l ∷ ls) (some m ∷ ms) s c =
    let full = Slots-Full received ls ms s.1 (omega arith) in
    let (rqs, k) = s.0.2 in
    record {
      messages = m ∷ full.messages;
      requests = rqs ++ full.requests;
      unwrap_messages = rw full.unwrap_messages refl;
      unwrap_digests = rw full.unwrap_digests refl;
      collected = rw full.collected refl;
      appended = rw (k, full.appended) refl;
      batch = rw (k, full.batch) refl;
    }
