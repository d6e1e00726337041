-- ===== src/Log/Decisions/Parts.antt =====
-- `Proof::into_parts` and `Proof::init_from_messages` of
-- febft-pbft-consensus/src/bft/log/decisions/mod.rs: a proof and its parts.
use febft.Base.{
  ℕ, suc, ◌≡◌, refl, sym, ap, ◌∙◌, false, Option, none, some, List, [], ◌∷◌, ◌++◌, length, set,
  replicate, contains, Distinct, Distinct-middle, All, Result, ok, arith, ==_self, append-nil,
  append_assoc,
}
use febft.Message.{
  StoredConsensusMessage, ConsensusMessageKind, pre_prepare, prepare, commit, kind_of,
}
use febft.Log.Decisions.{
  Proof, ProofError, Sorted, position, digests, sort_one, sort_messages, all_slots, no_messages,
  init_from_messages, into_parts,
}
use febft.Log.Decisions.Order.{InOrder}

abbrev pub IsPrePrepare : ConsensusMessageKind → Type 0
IsPrePrepare (pre_prepare rqs) = Unit
IsPrePrepare (prepare d) = ⊥
IsPrePrepare (commit d) = ⊥

abbrev pub IsPrepare : ConsensusMessageKind → Type 0
IsPrepare (pre_prepare rqs) = ⊥
IsPrepare (prepare d) = Unit
IsPrepare (commit d) = ⊥

abbrev pub IsCommit : ConsensusMessageKind → Type 0
IsCommit (pre_prepare rqs) = ⊥
IsCommit (prepare d) = ⊥
IsCommit (commit d) = Unit

-- The three lists of a proof hold the messages of their kind.
pub record WellKinded (p : Proof) : Type 0 where
  pub pre_prepares : All (λ m. IsPrePrepare (kind_of m)) p.pre_prepares
  pub prepares : All (λ m. IsPrepare (kind_of m)) p.prepares
  pub commits : All (λ m. IsCommit (kind_of m)) p.commits

position-middle :
    (xs ys : List ℕ) (d : ℕ) → contains xs d ≡ false → position (xs ++ d ∷ ys) d ≡ some (length xs)
position-middle [] ys d h = rw (==_self d) refl
position-middle (x ∷ xs) ys d h = ground (arith, position-middle xs ys d)

set-middle {ℓ} :
    {A : Type ℓ} (xs ys : List A) (x y : A) → set (xs ++ x ∷ ys) (length xs) y ≡ xs ++ y ∷ ys
set-middle [] ys x y = refl
set-middle (z ∷ xs) ys x y = ap (◌∷◌ z) (set-middle xs ys x y)

abbrev somes : List StoredConsensusMessage → List (Option StoredConsensusMessage)
somes [] = []
somes (m ∷ ms) = some m ∷ somes ms

length-somes : (ms : List StoredConsensusMessage) → length (somes ms) ≡ length (digests ms)
length-somes [] = refl
length-somes (m ∷ ms) = ap suc (length-somes ms)

somes-append : (xs ys : List StoredConsensusMessage) → somes (xs ++ ys) ≡ somes xs ++ somes ys
somes-append [] ys = refl
somes-append (x ∷ xs) ys = ap (◌∷◌ (some x)) (somes-append xs ys)

digests-append :
    (xs ys : List StoredConsensusMessage) → digests (xs ++ ys) ≡ digests xs ++ digests ys
digests-append [] ys = refl
digests-append (x ∷ xs) ys = ap (◌∷◌ x.digest) (digests-append xs ys)

all_slots-somes : (ms : List StoredConsensusMessage) → all_slots (somes ms) ≡ ok ms
unfolding all_slots
all_slots-somes [] = refl
all_slots-somes (m ∷ ms) = rw (all_slots-somes ms) refl

sort_one_pre_prepare :
    (ordering : List ℕ) (kind : ConsensusMessageKind) (x : StoredConsensusMessage) (s : Sorted)
    (i : ℕ)
    → IsPrePrepare kind
    → position ordering x.digest ≡ some i
    → sort_one ordering kind x s ≡ ok (record s { slots = set s.slots i (some x) })
unfolding sort_one
sort_one_pre_prepare ordering (pre_prepare rqs) x s i k e = rw e refl
sort_one_pre_prepare ordering (prepare d) x s i k e = elim k [ ]
sort_one_pre_prepare ordering (commit d) x s i k e = elim k [ ]

sort_one_prepare :
    (ordering : List ℕ) (kind : ConsensusMessageKind) (x : StoredConsensusMessage) (s : Sorted)
    → IsPrepare kind
    → sort_one ordering kind x s ≡ ok (record s { prepares = s.prepares ++ x ∷ [] })
unfolding sort_one
sort_one_prepare ordering (prepare d) x s k = refl
sort_one_prepare ordering (pre_prepare d) x s k = elim k [ ]
sort_one_prepare ordering (commit d) x s k = elim k [ ]

sort_one_commit :
    (ordering : List ℕ) (kind : ConsensusMessageKind) (x : StoredConsensusMessage) (s : Sorted)
    → IsCommit kind
    → sort_one ordering kind x s ≡ ok (record s { commits = s.commits ++ x ∷ [] })
unfolding sort_one
sort_one_commit ordering (commit d) x s k = refl
sort_one_commit ordering (pre_prepare d) x s k = elim k [ ]
sort_one_commit ordering (prepare d) x s k = elim k [ ]

sort_prepares :
    (ordering : List ℕ) (ms rest : List StoredConsensusMessage) (s : Sorted)
    → All (λ m. IsPrepare (kind_of m)) ms
    → sort_messages ordering (ms ++ rest) s
      ≡ sort_messages ordering rest (record s { prepares = s.prepares ++ ms })
unfolding sort_messages
sort_prepares ordering [] rest s k = rw (append-nil s.prepares) refl
sort_prepares ordering (m ∷ ms) rest s k = rw (sort_one_prepare ordering (kind_of m) m s k.0) (
    sort_prepares ordering ms rest (record s { prepares = s.prepares ++ m ∷ [] }) k.1
    ∙ ap (λ ps. sort_messages ordering rest (record s { prepares = ps }))
        (append_assoc s.prepares (m ∷ []) ms))

sort_commits :
    (ordering : List ℕ) (ms : List StoredConsensusMessage) (s : Sorted)
    → All (λ m. IsCommit (kind_of m)) ms
    → sort_messages ordering ms s ≡ ok (record s { commits = s.commits ++ ms })
unfolding sort_messages
sort_commits ordering [] s k = rw (append-nil s.commits) refl
sort_commits ordering (m ∷ ms) s k = rw (sort_one_commit ordering (kind_of m) m s k.0) (
    sort_commits ordering ms (record s { commits = s.commits ++ m ∷ [] }) k.1
    ∙ ap (λ cs. ok (record s { commits = cs })) (append_assoc s.commits (m ∷ []) ms))

-- The messages `ms` fill the slots behind those of the messages `placed`.
sort_pre_prepares :
    (ordering : List ℕ) (placed ms rest : List StoredConsensusMessage)
    → All (λ m. IsPrePrepare (kind_of m)) ms
    → ordering ≡ digests placed ++ digests ms
    → Distinct ordering
    → sort_messages ordering
        (ms ++ rest)
        (record { slots = somes placed ++ replicate (length ms) none; prepares = []; commits = [] })
      ≡ sort_messages ordering rest
          (record { slots = somes (placed ++ ms); prepares = []; commits = [] })
unfolding sort_messages
sort_pre_prepares ordering placed [] rest k e d =
    rw (append-nil (somes placed), append-nil placed) refl
sort_pre_prepares ordering placed (m ∷ ms) rest k e d =
    rw (sort_one_pre_prepare ordering (kind_of m) m _ (length (somes placed)) k.0 at) (
      ap with_slots (
        set-middle (somes placed) (replicate (length ms) none) none (some m)
        ∙ (sym (append_assoc (somes placed) (some m ∷ []) (replicate (length ms) none))
            ∙ ap (λ os. os ++ replicate (length ms) none) (sym (somes-append placed (m ∷ [])))))
      ∙ (sort_pre_prepares ordering (placed ++ m ∷ []) ms rest k.1 moved d
          ∙ ap
              (λ xs.
                sort_messages ordering rest
                  (record { slots = somes xs; prepares = []; commits = [] }))
              (append_assoc placed (m ∷ []) ms)))
  where
    with_slots : List (Option StoredConsensusMessage) → Result ProofError Sorted
    with_slots os =
        sort_messages ordering (ms ++ rest) (record { slots = os; prepares = []; commits = [] })

    fresh : contains (digests placed) m.digest ≡ false
    fresh = Distinct-middle (digests placed) (digests ms) m.digest (rw e at d)

    at : position ordering m.digest ≡ some (length (somes placed))
    at = rw (e, length-somes placed) (position-middle (digests placed) (digests ms) m.digest fresh)

    moved : ordering ≡ digests (placed ++ m ∷ []) ++ digests ms
    moved =
        e
        ∙ (sym (append_assoc (digests placed) (m.digest ∷ []) (digests ms))
            ∙ ap (λ ds. ds ++ digests ms) (sym (digests-append placed (m ∷ []))))

length-digests : (ms : List StoredConsensusMessage) → length (digests ms) ≡ length ms
length-digests [] = refl
length-digests (m ∷ ms) = ap suc (length-digests ms)

sort_messages-into_parts :
    (p : Proof)
    → WellKinded p
    → InOrder p
    → Distinct p.metadata.pre_prepare_ordering
    → sort_messages p.metadata.pre_prepare_ordering (into_parts p).1 (no_messages p.metadata)
      ≡ ok (record { slots = somes p.pre_prepares; prepares = p.prepares; commits = p.commits })
unfolding into_parts
sort_messages-into_parts p k e d =
    ap
      (λ n.
        sort_messages ordering (p.pre_prepares ++ (p.prepares ++ p.commits))
          (record { slots = replicate n none; prepares = []; commits = [] }))
      (ap length (sym e) ∙ length-digests p.pre_prepares)
    ∙ (sort_pre_prepares ordering [] p.pre_prepares (p.prepares ++ p.commits) k.pre_prepares (sym e)
          d
        ∙ (sort_prepares ordering p.prepares p.commits
              (record { slots = somes p.pre_prepares; prepares = []; commits = [] }) k.prepares
            ∙ sort_commits ordering p.commits
                (record { slots = somes p.pre_prepares; prepares = p.prepares; commits = [] })
                k.commits))
  where
    ordering : List ℕ
    ordering = p.metadata.pre_prepare_ordering

-- A proof whose lists hold their kinds, and whose `PRE-PREPARE`s are in the order of its metadata,
-- which names none twice, comes back from the metadata and the list of messages of `into_parts`.
pub init_from_messages-into_parts :
    (p : Proof)
    → WellKinded p
    → InOrder p
    → Distinct p.metadata.pre_prepare_ordering
    → init_from_messages (into_parts p).0 (into_parts p).1 ≡ ok p
unfolding init_from_messages into_parts
init_from_messages-into_parts p k e d =
    rw (sort_messages-into_parts p k e d, all_slots-somes p.pre_prepares) refl
