-- ===== src/Log/Decisions.antt =====
-- febft-pbft-consensus/src/bft/log/decisions/mod.rs: proofs of decisions, and what a replica
-- tells of an instance that is not yet decided.
pub mod Order
pub mod Parts
use febft.Base.{
  ℕ, zero, suc, Bool, true, false, not, Option, none, some, List, [], ◌∷◌, ◌++◌, ◌==◌,
  if◌then◌else◌, length, get_elem?, set, replicate, Result, ok, err, panic, ◌>>=◌, ok_or,
}
use febft.Message.{
  StoredConsensusMessage, ConsensusMessageKind, pre_prepare, prepare, commit, kind_of,
}

pub record ProofMetadata : Type 0 where
  pub seq_no : ℕ
  pub batch_digest : ℕ
  pub pre_prepare_ordering : List ℕ
  pub contained_client_rqs : ℕ

pub record Proof : Type 0 where
  pub metadata : ProofMetadata
  pub pre_prepares : List StoredConsensusMessage
  pub prepares : List StoredConsensusMessage
  pub commits : List StoredConsensusMessage

pub record ViewDecisionPair : Type 0 where
  pub view : ℕ
  pub digest : ℕ

pub record IncompleteProof : Type 0 where
  pub in_exec : ℕ
  pub write_set : List ViewDecisionPair
  pub quorum_prepares : Option ViewDecisionPair

pub data ProofError : Type 0 where
  pre_prepare_not_contained_in_metadata pre_prepare_list_not_complete : ProofError
  wrong_pre_prepare_count : ℕ → ℕ → ProofError
  batch_digests_do_not_match : ProofError

-- `iter().position(|d| *d == digest)`
abbrev pub position : List ℕ → ℕ → Option ℕ
position [] digest = none
position (d ∷ ds) digest =
    if d == digest
    then some 0
    else elim (position ds digest) [ none ↦ none | some i ↦ some (suc i) ]

-- The digests of the headers.
abbrev pub digests : List StoredConsensusMessage → List ℕ
digests [] = []
digests (m ∷ ms) = m.digest ∷ digests ms

-- The three lists that `init_from_messages` fills.
pub record Sorted : Type 0 where
  pub slots : List (Option StoredConsensusMessage)
  pub prepares : List StoredConsensusMessage
  pub commits : List StoredConsensusMessage

sort_one :
    List ℕ → ConsensusMessageKind → StoredConsensusMessage → Sorted → Result ProofError Sorted
sort_one ordering (pre_prepare rqs) x s = do
  index ← ok_or (position ordering x.digest) pre_prepare_not_contained_in_metadata
  ok (record s { slots = set s.slots index (some x) })
sort_one ordering (prepare d) x s = ok (record s { prepares = s.prepares ++ x ∷ [] })
sort_one ordering (commit d) x s = ok (record s { commits = s.commits ++ x ∷ [] })

unfoldable pub sort_messages :
    List ℕ → List StoredConsensusMessage → Sorted → Result ProofError Sorted
unfolding sort_one
sort_messages ordering [] s = ok s
sort_messages ordering (x ∷ xs) s = do
  t ← sort_one ordering (kind_of x) x s
  sort_messages ordering xs t

unfoldable pub all_slots :
    List (Option StoredConsensusMessage) → Result ProofError (List StoredConsensusMessage)
all_slots [] = ok []
all_slots (slot ∷ slots) = do
  x ← ok_or slot pre_prepare_list_not_complete
  xs ← all_slots slots
  ok (x ∷ xs)

abbrev pub no_messages : ProofMetadata → Sorted
no_messages metadata = record {
  slots = replicate (length metadata.pre_prepare_ordering) none;
  prepares = [];
  commits = [];
}

unfoldable pub init_from_messages :
    ProofMetadata → List StoredConsensusMessage → Result ProofError Proof
init_from_messages metadata messages = do
  s ← sort_messages metadata.pre_prepare_ordering messages (no_messages metadata)
  pre_prepares ← all_slots s.slots
  ok (record {
    metadata = metadata;
    pre_prepares = pre_prepares;
    prepares = s.prepares;
    commits = s.commits;
  })

unfoldable pub check_pre_prepare_sizes : Proof → Result ProofError (Unit {0})
check_pre_prepare_sizes p =
    let expected = length p.metadata.pre_prepare_ordering in
    let got = length p.pre_prepares in
    if not (expected == got) then err (wrong_pre_prepare_count expected got) else ok tt

-- The loop over the indices; the sizes agree where it is called.
unfoldable pub same_order : List ℕ → List StoredConsensusMessage → Bool
same_order [] ms = true
same_order (d ∷ ds) [] = false
same_order (d ∷ ds) (m ∷ ms) =
    let rest = same_order ds ms in if not (d == m.digest) then false else rest

unfoldable pub are_pre_prepares_ordered : Proof → Result ProofError Bool
unfolding check_pre_prepare_sizes same_order
are_pre_prepares_ordered p = do
  _ ← check_pre_prepare_sizes p
  ok (same_order p.metadata.pre_prepare_ordering p.pre_prepares)

-- `Vec::swap_remove`: the last message takes the place of the one removed.
abbrev pub last_of : StoredConsensusMessage → List StoredConsensusMessage → StoredConsensusMessage
last_of m [] = m
last_of m (n ∷ ms) = last_of n ms

abbrev pub but_last :
    StoredConsensusMessage → List StoredConsensusMessage → List StoredConsensusMessage
but_last m [] = []
but_last m (n ∷ ms) = m ∷ but_last n ms

abbrev pub swap_remove : List StoredConsensusMessage → ℕ → List StoredConsensusMessage
swap_remove [] i = []
swap_remove (m ∷ []) zero = []
swap_remove (m ∷ n ∷ ms) zero = last_of n ms ∷ but_last n ms
swap_remove (m ∷ ms) (suc i) = m ∷ swap_remove ms i

-- The loop of `order_pre_prepares`: the messages left, those taken so far, and the result. A
-- digest that no message has ends it, with the messages taken so far lost.
unfoldable pub order_loop :
    List ℕ
    → List StoredConsensusMessage
    → List StoredConsensusMessage
    → List StoredConsensusMessage × Result ProofError (Unit {0})
order_loop [] left taken = (taken, ok tt)
order_loop (d ∷ ds) left taken = elim (position (digests left) d) [
  | none ↦ (left, err batch_digests_do_not_match)
  | some index ↦ elim (get_elem? left index) [
    | none ↦ (left, panic)
    | some m ↦ order_loop ds (swap_remove left index) (taken ++ m ∷ [])
  ]
]

unfoldable pub order_pre_prepares : Proof → Proof × Result ProofError (Unit {0})
order_pre_prepares p = elim (check_pre_prepare_sizes p) [
  | ok _ ↦
      let (ms, r) = order_loop p.metadata.pre_prepare_ordering p.pre_prepares [] in
      (record p { pre_prepares = ms }, r)
  | err e ↦ (p, err e)
  | panic ↦ (p, panic)
]

unfoldable pub into_parts : Proof → ProofMetadata × List StoredConsensusMessage
into_parts p = (p.metadata, p.pre_prepares ++ (p.prepares ++ p.commits))
