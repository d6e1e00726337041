-- ===== src/Consensus/Decision/Run.antt =====
-- The life of an instance within one view: any sequence of the calls that the consensus makes of
-- it, in any order, with the tasks of its accessory in between.
use febft.Base.{ℕ, ◌≡◌, refl, ◌∙◌, true, false, Bool, List, [], ◌∷◌, if◌then◌else◌, arith}
use febft.Atlas.{Atlas}
use febft.Message.{StoredConsensusMessage}
use febft.View.{ViewInfo}
use febft.Sync.{SynchronizerAccessory}
use febft.Consensus.Accessory.{Nonces, ConsensusDecisionAccessory, follower, replica, run_spawned}
use febft.Consensus.Decision.{
  ConsensusDecision, DecisionPollStatus, recv, MessageQueue, DecisionPhase, initialize,
  pre_preparing, preparing, committing, decided, init_with_msg_log, skip_init_phase, queue, poll,
  poll_phase, extract_pre_prepare, extract_prepare, extract_commit, is_decided,
}
use febft.Consensus.Decision.Seq.{process_message-seq}
use febft.Consensus.Decision.Process.{Env, process_message}
use febft.Consensus.Decision.Votes.{Holds}
use febft.Consensus.Decision.Votes.Kept.{process_message-Valid}

-- A call, with what it is given. `task` is a step of the thread pool.
pub data Event : Type 0 where
  receive : Nonces → StoredConsensusMessage → Event
  enqueue : StoredConsensusMessage → Event
  polled task : Event

run_task : ConsensusDecisionAccessory → ConsensusDecisionAccessory
run_task follower = follower
run_task (replica r) = replica (run_spawned r)

module _ (a : Atlas) (view : ViewInfo) (synchronizer : SynchronizerAccessory) where
  abbrev pub env_of : Nonces → Env
  env_of nonces = record { view = view; synchronizer = synchronizer; nonces = nonces }

  unfoldable pub step : ConsensusDecision → Event → ConsensusDecision
  unfolding run_task
  step d (receive nonces m) = (process_message a (env_of nonces) d m).0
  step d (enqueue m) = queue d m
  step d polled = (poll d).0
  step d task = record d { accessory = run_task d.accessory }

  unfoldable pub run : ConsensusDecision → List Event → ConsensusDecision
  run d [] = d
  run d (e ∷ es) = run (step d e) es

  -- An instance as the consensus makes it, with the messages that came early, and with or without
  -- the phase in which the proposer is told of it.
  abbrev pub start : ℕ → ℕ → MessageQueue → Bool → ConsensusDecision
  start node_id seq_no queue skip =
      let d = init_with_msg_log node_id seq_no view queue in if skip then skip_init_phase d else d

  abbrev pub Votes : ConsensusDecision → Type 0
  Votes d = Holds view.params.quorum d.seq view.seq d.working_log d.phase

  pub start-Votes :
      (node_id seq_no : ℕ) (q : MessageQueue) (skip : Bool) → Votes (start node_id seq_no q skip)
  unfolding init_with_msg_log skip_init_phase
  start-Votes node_id seq_no q true = record {
    prepares = refl;
    commits = refl;
    prepared = refl;
    committed = refl;
  }
  start-Votes node_id seq_no q false = record {
    prepares = refl;
    commits = refl;
    prepared = refl;
    committed = refl;
  }

  extract_pre_prepare-Votes :
      (d : ConsensusDecision) (ms : List StoredConsensusMessage)
      → Votes d
      → Votes (extract_pre_prepare d ms).0
  extract_pre_prepare-Votes d [] h = h
  extract_pre_prepare-Votes d (m ∷ ms) h = h

  extract_prepare-Votes :
      (d : ConsensusDecision) (ms : List StoredConsensusMessage)
      → Votes d
      → Votes (extract_prepare d ms).0
  extract_prepare-Votes d [] h = h
  extract_prepare-Votes d (m ∷ ms) h = h

  extract_commit-Votes :
      (d : ConsensusDecision) (ms : List StoredConsensusMessage)
      → Votes d
      → Votes (extract_commit d ms).0
  extract_commit-Votes d [] h = h
  extract_commit-Votes d (m ∷ ms) h = h

  if-Votes :
      (b : Bool) (x y : ConsensusDecision × DecisionPollStatus)
      → Votes x.0
      → Votes y.0
      → Votes (if b then x else y).0
  if-Votes true x y h k = h
  if-Votes false x y h k = k

  poll-Votes :
      (d : ConsensusDecision) (phase : DecisionPhase)
      → d.phase ≡ phase
      → Votes d
      → Votes (poll_phase d phase).0
  unfolding poll_phase
  poll-Votes d initialize e h = rw e at h
  poll-Votes d (pre_preparing n) e h =
      if-Votes d.message_queue.get_queue (extract_pre_prepare d d.message_queue.pre_prepares)
        (d, recv) (extract_pre_prepare-Votes d d.message_queue.pre_prepares h) h
  poll-Votes d (preparing n) e h =
      if-Votes d.message_queue.get_queue (extract_prepare d d.message_queue.prepares) (d, recv)
        (extract_prepare-Votes d d.message_queue.prepares h) h
  poll-Votes d (committing n) e h =
      if-Votes d.message_queue.get_queue (extract_commit d d.message_queue.commits) (d, recv)
        (extract_commit-Votes d d.message_queue.commits h) h
  poll-Votes d decided e h = h

  step-Votes : (d : ConsensusDecision) (e : Event) → Votes d → Votes (step d e)
  unfolding step queue poll
  step-Votes d (receive nonces m) h = process_message-Valid a (env_of nonces) d m h
  step-Votes d (enqueue m) h = h
  step-Votes d polled h = poll-Votes d d.phase refl h
  step-Votes d task h = h

  pub run-Votes : (d : ConsensusDecision) (es : List Event) → Votes d → Votes (run d es)
  unfolding run
  run-Votes d [] h = h
  run-Votes d (e ∷ es) h = run-Votes (step d e) es (step-Votes d e h)

  step-seq : (d : ConsensusDecision) (e : Event) → (step d e).seq ≡ d.seq
  unfolding step queue poll
  step-seq d (receive nonces m) = process_message-seq a (env_of nonces) d m
  step-seq d (enqueue m) = refl
  step-seq d polled = ground arith
  step-seq d task = refl

  pub run-seq : (d : ConsensusDecision) (es : List Event) → (run d es).seq ≡ d.seq
  unfolding run
  run-seq d [] = refl
  run-seq d (e ∷ es) = run-seq (step d e) es ∙ step-seq d e

  pub run_start-seq :
      (node_id seq_no : ℕ) (q : MessageQueue) (skip : Bool) (es : List Event)
      → (run (start node_id seq_no q skip) es).seq ≡ seq_no
  unfolding init_with_msg_log skip_init_phase
  run_start-seq node_id seq_no q true es = run-seq (start node_id seq_no q true) es
  run_start-seq node_id seq_no q false es = run-seq (start node_id seq_no q false) es

pub decided-Holds :
    (quorum seq view : ℕ) (d : ConsensusDecision) (phase : DecisionPhase)
    → is_decided phase ≡ true
    → Holds quorum seq view d.working_log phase
    → Holds quorum seq view d.working_log decided
unfolding is_decided
decided-Holds quorum seq view d initialize e h = cc
decided-Holds quorum seq view d (pre_preparing n) e h = cc
decided-Holds quorum seq view d (preparing n) e h = cc
decided-Holds quorum seq view d (committing n) e h = cc
decided-Holds quorum seq view d decided e h = h
