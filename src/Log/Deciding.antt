-- ===== src/Log/Deciding.antt =====
-- febft-pbft-consensus/src/bft/log/deciding/mod.rs: the log of the instance being decided.
-- Metrics and the time stamps of `batch_meta` are left out.
pub mod Collect
pub mod Votes
pub mod Slots
pub mod Complete
pub mod Told
pub mod Finish
pub mod Quorum
use febft.Base.{
  ℕ, ◌+◌, Bool, true, not, ◌&&◌, Option, none, some, List, [], ◌∷◌, ◌++◌, ◌==◌, ltb, leb,
  if◌then◌else◌, length, set, replicate, contains, lookup, Result, ok, err, panic,
}
use febft.Atlas.{Atlas}
use febft.Message.{
  ClientRqInfo, Request, StoredConsensusMessage, ConsensusMessageKind, pre_prepare, prepare, commit,
  kind_of,
}
use febft.View.{ViewInfo, Slice, is_request_in_hash_space}
use febft.Log.Decisions.{ProofMetadata, position}

pub data DecidingLogError : Type 0 where
  proposer_not_in_leader_set : ℕ → List ℕ → DecidingLogError
  pre_prepare_not_part_of_set : ℕ → List ℕ → DecidingLogError
  duplicate_vote_from_node : ℕ → DecidingLogError
  failed_to_calculate_digest : ℕ → DecidingLogError
  leader_not_in_leader_set : ℕ → DecidingLogError
  batch_contains_requests_not_in_leader_addr_space : ℕ → DecidingLogError
  failed_to_get_leaders_request_space : ℕ → DecidingLogError

pub record MessageLog : Type 0 where
  pub pre_prepare : List (Option StoredConsensusMessage)
  pub prepares : List StoredConsensusMessage
  pub commits : List StoredConsensusMessage

pub record FinishedMessageLog : Type 0 where
  pub pre_prepares : List StoredConsensusMessage
  pub prepares : List StoredConsensusMessage
  pub commits : List StoredConsensusMessage

pub record CompletedBatch : Type 0 where
  pub seq : ℕ
  pub digest : ℕ
  pub pre_prepare_ordering : List ℕ
  pub contained_messages : FinishedMessageLog
  pub client_request_info : List ClientRqInfo
  pub client_requests : List Request

-- The nodes that have voted, in each phase. Nothing reads its leader set, which stays empty.
pub record DuplicateReplicaEvaluator : Type 0 where
  pub received_pre_prepare_messages : List ℕ
  pub received_prepare_messages : List ℕ
  pub received_commit_messages : List ℕ

pub record WorkingDecisionLog : Type 0 where
  pub node_id : ℕ
  pub seq_no : ℕ
  pub duplicate_detection : DuplicateReplicaEvaluator
  pub batch_digest : Option ℕ
  pub pre_prepare_digests : List (Option ℕ)
  pub current_received_pre_prepares : ℕ
  pub current_batch_size : ℕ
  pub client_rqs : List ClientRqInfo
  pub leader_set : List ℕ
  pub request_space_slices : List (ℕ × Slice)
  pub message_log : MessageLog
  pub contained_requests : List (Option (List Request))

unfoldable pub with_leader_count : ℕ → MessageLog
with_leader_count leaders = record {
  pre_prepare = replicate leaders none;
  prepares = [];
  commits = [];
}

unfoldable pub new : ℕ → ℕ → ViewInfo → WorkingDecisionLog
unfolding with_leader_count
new node seq view =
    let leader_count = length view.leader_set in
    record {
      node_id = node;
      seq_no = seq;
      duplicate_detection = record {
        received_pre_prepare_messages = [];
        received_prepare_messages = [];
        received_commit_messages = [];
      };
      batch_digest = none;
      pre_prepare_digests = replicate leader_count none;
      current_received_pre_prepares = 0;
      current_batch_size = 0;
      client_rqs = [];
      leader_set = view.leader_set;
      request_space_slices = view.leader_hash_space_division;
      message_log = with_leader_count leader_count;
      contained_requests = replicate leader_count none;
    }

unfoldable pub update_current_view : WorkingDecisionLog → ViewInfo → WorkingDecisionLog
update_current_view l view = record l {
  leader_set = view.leader_set;
  request_space_slices = view.leader_hash_space_division;
}

-- `BTreeSet::insert`, which tells whether the node was new.
unfoldable pub insert_received : List ℕ → ℕ → List ℕ × Result DecidingLogError (Unit {0})
insert_received nodes node =
    if contains nodes node
    then (nodes, err (duplicate_vote_from_node node))
    else (node ∷ nodes, ok tt)

unfoldable pub insert_pre_prepare_received :
    DuplicateReplicaEvaluator → ℕ → DuplicateReplicaEvaluator × Result DecidingLogError (Unit {0})
unfolding insert_received
insert_pre_prepare_received d node =
    let (nodes, r) = insert_received d.received_pre_prepare_messages node in
    (record d { received_pre_prepare_messages = nodes }, r)

unfoldable pub insert_prepare_received :
    DuplicateReplicaEvaluator → ℕ → DuplicateReplicaEvaluator × Result DecidingLogError (Unit {0})
unfolding insert_received
insert_prepare_received d node =
    let (nodes, r) = insert_received d.received_prepare_messages node in
    (record d { received_prepare_messages = nodes }, r)

unfoldable pub insert_commit_received :
    DuplicateReplicaEvaluator → ℕ → DuplicateReplicaEvaluator × Result DecidingLogError (Unit {0})
unfolding insert_received
insert_commit_received d node =
    let (nodes, r) = insert_received d.received_commit_messages node in
    (record d { received_commit_messages = nodes }, r)

unfoldable pub pre_prepare_index_of : List ℕ → ℕ → Result DecidingLogError ℕ
pre_prepare_index_of leader_set proposer = elim (position leader_set proposer) [
  | none ↦ err (proposer_not_in_leader_set proposer leader_set)
  | some pos ↦ ok pos
]

-- The digests in order, with the hash of all of them, if none is missing.
unfoldable pub collect_digests : List (Option ℕ) → Option (List ℕ)
collect_digests [] = some []
collect_digests (none ∷ os) = none
collect_digests (some d ∷ os) = elim (collect_digests os) [ none ↦ none | some ds ↦ some (d ∷ ds) ]

module _ (a : Atlas) where
  unfoldable pub calculate_instance_digest : WorkingDecisionLog → Option (ℕ × List ℕ)
  unfolding collect_digests
  calculate_instance_digest l = elim (collect_digests l.pre_prepare_digests) [
    | none ↦ none
    | some ds ↦ some (a.hash ds, ds)
  ]

  unfoldable pub all_in_hash_space : List ClientRqInfo → Slice → Bool
  all_in_hash_space [] slice = true
  all_in_hash_space (rq ∷ rqs) slice =
      is_request_in_hash_space a rq.digest slice && all_in_hash_space rqs slice

  -- With the last batch, the digest of the instance.
  unfoldable pub complete_batch :
      WorkingDecisionLog → WorkingDecisionLog × Result DecidingLogError (Option ProofMetadata)
  unfolding calculate_instance_digest
  complete_batch l =
      if l.current_received_pre_prepares == length l.leader_set
      then elim (calculate_instance_digest l) [
        | none ↦ (l, err (failed_to_calculate_digest l.seq_no))
        | some (digest, ordering) ↦ (
          record l { batch_digest = some digest },
          ok (
              some (record {
                seq_no = l.seq_no;
                batch_digest = digest;
                pre_prepare_ordering = ordering;
                contained_client_rqs = l.current_batch_size;
              })),
        )
      ]
      else (l, ok none)

  -- Storing the batch `rqs` of the leader at `index`. An index out of range of the second or the
  -- third list panics.
  unfoldable pub store_batch :
      WorkingDecisionLog
      → ℕ
      → List Request
      → StoredConsensusMessage
      → List ClientRqInfo
      → WorkingDecisionLog × Result DecidingLogError (Option ProofMetadata)
  unfolding complete_batch
  store_batch l index rqs s_message batch_rq_digests =
      if ltb index (length l.contained_requests) && ltb index (length l.message_log.pre_prepare)
      then complete_batch (record l {
        pre_prepare_digests = set l.pre_prepare_digests index (some s_message.digest);
        contained_requests = set l.contained_requests index (some rqs);
        current_received_pre_prepares = l.current_received_pre_prepares + 1;
        current_batch_size = l.current_batch_size + length batch_rq_digests;
        client_rqs = l.client_rqs ++ batch_rq_digests;
        message_log = record l.message_log {
          pre_prepare = set l.message_log.pre_prepare index (some s_message);
        };
      })
      else (l, panic)

  unfoldable pub store_at :
      WorkingDecisionLog
      → ℕ
      → ConsensusMessageKind
      → StoredConsensusMessage
      → List ClientRqInfo
      → WorkingDecisionLog × Result DecidingLogError (Option ProofMetadata)
  unfolding store_batch
  store_at l index (pre_prepare rqs) s_message batch_rq_digests =
      store_batch l index rqs s_message batch_rq_digests
  store_at l index (prepare d) s_message batch_rq_digests = (l, panic)
  store_at l index (commit d) s_message batch_rq_digests = (l, panic)

  -- The batch is from the leader `from`, and within its slice.
  unfoldable pub accept_batch :
      WorkingDecisionLog
      → StoredConsensusMessage
      → List ClientRqInfo
      → WorkingDecisionLog × Result DecidingLogError (Option ProofMetadata)
  unfolding insert_pre_prepare_received pre_prepare_index_of store_at
  accept_batch l s_message batch_rq_digests =
      let (d, r) = insert_pre_prepare_received l.duplicate_detection s_message.from in
      let marked = record l { duplicate_detection = d } in
      elim r [
        | err e ↦ (marked, err e)
        | panic ↦ (marked, panic)
        | ok _ ↦ elim (pre_prepare_index_of l.leader_set s_message.from) [
          | err e ↦ (marked, err e)
          | panic ↦ (marked, panic)
          | ok index ↦
              if leb (length l.pre_prepare_digests) index
              then (marked, err (leader_not_in_leader_set s_message.from))
              else store_at marked index (kind_of s_message) s_message batch_rq_digests
        ]
      ]

  -- The code takes the digest of the message from its header, not from the argument it is given.
  unfoldable pub process_pre_prepare :
      WorkingDecisionLog
      → StoredConsensusMessage
      → List ClientRqInfo
      → WorkingDecisionLog × Result DecidingLogError (Option ProofMetadata)
  unfolding all_in_hash_space accept_batch
  process_pre_prepare l s_message batch_rq_digests =
      elim (lookup s_message.from l.request_space_slices) [
        | none ↦ (l, err (failed_to_get_leaders_request_space s_message.from))
        | some slice ↦
            if not (s_message.from == l.node_id) && not (all_in_hash_space batch_rq_digests slice)
            then (l, err (batch_contains_requests_not_in_leader_addr_space s_message.from))
            else accept_batch l s_message batch_rq_digests
      ]

process_kind :
    WorkingDecisionLog
    → ConsensusMessageKind
    → StoredConsensusMessage
    → WorkingDecisionLog × Result DecidingLogError (Unit {0})
unfolding insert_prepare_received insert_commit_received
process_kind l (pre_prepare rqs) s_message = (l, panic)
process_kind l (prepare d) s_message =
    let (dd, r) = insert_prepare_received l.duplicate_detection s_message.from in
    let marked = record l { duplicate_detection = dd } in
    elim r [
      | ok _ ↦ (
        record marked {
          message_log = record l.message_log {
            prepares = l.message_log.prepares ++ s_message ∷ [];
          };
        },
        ok tt,
      )
      | err e ↦ (marked, err e)
      | panic ↦ (marked, panic)
    ]
process_kind l (commit d) s_message =
    let (dd, r) = insert_commit_received l.duplicate_detection s_message.from in
    let marked = record l { duplicate_detection = dd } in
    elim r [
      | ok _ ↦ (
        record marked {
          message_log = record l.message_log { commits = l.message_log.commits ++ s_message ∷ [] };
        },
        ok tt,
      )
      | err e ↦ (marked, err e)
      | panic ↦ (marked, panic)
    ]

unfoldable pub process_message :
    WorkingDecisionLog
    → StoredConsensusMessage
    → WorkingDecisionLog × Result DecidingLogError (Unit {0})
unfolding process_kind
process_message l s_message = process_kind l (kind_of s_message) s_message
