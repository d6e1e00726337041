-- ===== src/Consensus/Decision.antt =====
-- febft-pbft-consensus/src/bft/consensus/decision/mod.rs: one instance of the consensus. Metrics
-- and log output are left out.
pub mod Process
pub mod Seq
pub mod Votes
pub mod Run
pub mod Ready
pub mod Progress
pub mod Agreement
use febft.Base.{
  ℕ, Bool, true, false, not, ◌&&◌, ◌||◌, Option, none, some, List, [], ◌∷◌, ◌++◌, if◌then◌else◌,
  Result, ok, err, panic,
}
use febft.Message.{
  StoredConsensusMessage, ConsensusMessageKind, pre_prepare, prepare, commit, kind_of,
}
use febft.View.{ViewInfo}
use febft.Log.Decisions.{ProofMetadata, IncompleteProof}
use febft.Log.Deciding.{DecidingLogError, WorkingDecisionLog, CompletedBatch}
use febft.Log.Deciding
use febft.Log.Deciding.Collect.{finish_processing_batch}
use febft.Log.Deciding.Collect
use febft.Consensus.Accessory.{ConsensusDecisionAccessory, replica, new_accessory}

pub data DecisionPhase : Type 0 where
  initialize : DecisionPhase
  pre_preparing : ℕ → DecisionPhase
  preparing : ℕ → DecisionPhase
  committing : ℕ → DecisionPhase
  decided : DecisionPhase

pub data DecisionPollStatus : Type 0 where
  try_propose recv : DecisionPollStatus
  next_message : StoredConsensusMessage → DecisionPollStatus
  decided : DecisionPollStatus

pub data DecisionStatus : Type 0 where
  voted_twice : ℕ → DecisionStatus
  message_ignored message_queued : DecisionStatus
  deciding : StoredConsensusMessage → DecisionStatus
  transitioned : Option ProofMetadata → StoredConsensusMessage → DecisionStatus
  decided : StoredConsensusMessage → DecisionStatus
  decided_ignored : DecisionStatus

pub data DecisionError : Type 0 where
  cannot_finalize_undecided_batch failed_to_finalize_batch : ℕ → DecisionError

pub record MessageQueue : Type 0 where
  pub get_queue : Bool
  pub pre_prepares : List StoredConsensusMessage
  pub prepares : List StoredConsensusMessage
  pub commits : List StoredConsensusMessage

pub record ConsensusDecision : Type 0 where
  pub node_id : ℕ
  pub seq : ℕ
  pub phase : DecisionPhase
  pub message_queue : MessageQueue
  pub working_log : WorkingDecisionLog
  pub accessory : ConsensusDecisionAccessory

unfoldable pub new_queue : MessageQueue
new_queue = record { get_queue = false; pre_prepares = []; prepares = []; commits = [] }

abbrev pub is_empty : List StoredConsensusMessage → Bool
is_empty [] = true
is_empty (m ∷ ms) = false

unfoldable pub from_messages :
    List StoredConsensusMessage
    → List StoredConsensusMessage
    → List StoredConsensusMessage
    → MessageQueue
from_messages pre_prepares prepares commits = record {
  get_queue = not (is_empty pre_prepares) || not (is_empty prepares) || not (is_empty commits);
  pre_prepares = pre_prepares;
  prepares = prepares;
  commits = commits;
}

unfoldable pub signal : MessageQueue → MessageQueue
signal q = record q { get_queue = true }

unfoldable pub is_signalled : MessageQueue → Bool
is_signalled q = q.get_queue

unfoldable pub queue_pre_prepare : MessageQueue → StoredConsensusMessage → MessageQueue
unfolding signal
queue_pre_prepare q m = signal (record q { pre_prepares = q.pre_prepares ++ m ∷ [] })

unfoldable pub queue_prepare : MessageQueue → StoredConsensusMessage → MessageQueue
unfolding signal
queue_prepare q m = signal (record q { prepares = q.prepares ++ m ∷ [] })

unfoldable pub queue_commit : MessageQueue → StoredConsensusMessage → MessageQueue
unfolding signal
queue_commit q m = signal (record q { commits = q.commits ++ m ∷ [] })

unfoldable pub init_with_msg_log : ℕ → ℕ → ViewInfo → MessageQueue → ConsensusDecision
unfolding Deciding.new new_accessory
init_with_msg_log node_id seq_no view message_queue = record {
  node_id = node_id;
  seq = seq_no;
  phase = initialize;
  message_queue = message_queue;
  working_log = Deciding.new node_id seq_no view;
  accessory = replica new_accessory;
}

unfoldable pub init_decision : ℕ → ℕ → ViewInfo → ConsensusDecision
unfolding init_with_msg_log new_queue
init_decision node_id seq_no view = init_with_msg_log node_id seq_no view new_queue

queue_kind : MessageQueue → ConsensusMessageKind → StoredConsensusMessage → MessageQueue
unfolding queue_pre_prepare queue_prepare queue_commit
queue_kind q (pre_prepare rqs) m = queue_pre_prepare q m
queue_kind q (prepare d) m = queue_prepare q m
queue_kind q (commit d) m = queue_commit q m

unfoldable pub queue : ConsensusDecision → StoredConsensusMessage → ConsensusDecision
unfolding queue_kind
queue d m = record d { message_queue = queue_kind d.message_queue (kind_of m) m }

-- The arms of `poll` for the three phases that take messages, where the queue is signalled: the
-- macro `extract_msg!`.
abbrev extract_pre_prepare :
    ConsensusDecision → List StoredConsensusMessage → ConsensusDecision × DecisionPollStatus
extract_pre_prepare d [] =
    (record d { message_queue = record d.message_queue { get_queue = false } }, recv)
extract_pre_prepare d (m ∷ ms) =
    (record d { message_queue = record d.message_queue { pre_prepares = ms } }, next_message m)

abbrev extract_prepare :
    ConsensusDecision → List StoredConsensusMessage → ConsensusDecision × DecisionPollStatus
extract_prepare d [] =
    (record d { message_queue = record d.message_queue { get_queue = false } }, recv)
extract_prepare d (m ∷ ms) =
    (record d { message_queue = record d.message_queue { prepares = ms } }, next_message m)

abbrev extract_commit :
    ConsensusDecision → List StoredConsensusMessage → ConsensusDecision × DecisionPollStatus
extract_commit d [] =
    (record d { message_queue = record d.message_queue { get_queue = false } }, recv)
extract_commit d (m ∷ ms) =
    (record d { message_queue = record d.message_queue { commits = ms } }, next_message m)

poll_phase : ConsensusDecision → DecisionPhase → ConsensusDecision × DecisionPollStatus
poll_phase d initialize = (record d { phase = pre_preparing 0 }, try_propose)
poll_phase d (pre_preparing n) =
    if d.message_queue.get_queue
    then extract_pre_prepare d d.message_queue.pre_prepares
    else (d, recv)
poll_phase d (preparing n) =
    if d.message_queue.get_queue then extract_prepare d d.message_queue.prepares else (d, recv)
poll_phase d (committing n) =
    if d.message_queue.get_queue then extract_commit d d.message_queue.commits else (d, recv)
poll_phase d decided = (d, decided)

unfoldable pub poll : ConsensusDecision → ConsensusDecision × DecisionPollStatus
unfolding poll_phase
poll d = poll_phase d d.phase

unfoldable pub skip_init_phase : ConsensusDecision → ConsensusDecision
skip_init_phase d = record d { phase = pre_preparing 0 }

unfoldable pub update_current_view : ConsensusDecision → ViewInfo → ConsensusDecision
unfolding Deciding.update_current_view
update_current_view d view = record d {
  working_log = Deciding.update_current_view d.working_log view;
}

unfoldable pub is_decided : DecisionPhase → Bool
is_decided decided = true
is_decided _ = false

unfoldable pub is_finalizeable : ConsensusDecision → Bool
unfolding is_decided
is_finalizeable d = is_decided d.phase

finalize_log :
    ℕ → Result DecidingLogError (Option CompletedBatch) → Result DecisionError CompletedBatch
finalize_log seq (ok none) = err (failed_to_finalize_batch seq)
finalize_log seq (ok (some batch)) = ok batch
finalize_log seq (err e) = panic
finalize_log seq panic = panic

unfoldable pub finalize : ConsensusDecision → Result DecisionError CompletedBatch
unfolding is_finalizeable finalize_log
finalize d =
    if is_finalizeable d
    then finalize_log d.seq (finish_processing_batch d.working_log)
    else err (cannot_finalize_undecided_batch d.seq)

unfoldable pub deciding_proof : ConsensusDecision → ℕ → Result DecidingLogError IncompleteProof
deciding_proof d f = Collect.deciding d.working_log f
