-- ===== src/Consensus/Decision/Seq.antt =====
-- The sequence number and the first phase of an instance, of
-- febft-pbft-consensus/src/bft/consensus/decision/mod.rs.
use febft.Base.{ℕ, ◌≡◌, refl, ap, Bool, true, false, List, [], ◌∷◌, if◌then◌else◌, arith}
use febft.Atlas.{Atlas}
use febft.Message.{StoredConsensusMessage}
use febft.Consensus.Decision.{
  ConsensusDecision, queue, DecisionPhase, initialize, pre_preparing, preparing, committing,
  decided, DecisionPollStatus, poll, poll_phase, extract_pre_prepare, extract_prepare,
  extract_commit,
}
use febft.Consensus.Decision.Process.{Env, process_message}

pub queue-seq : (d : ConsensusDecision) (m : StoredConsensusMessage) → (queue d m).seq ≡ d.seq
unfolding queue
queue-seq d m = refl

pub process_message-seq :
    (a : Atlas) (env : Env) (d : ConsensusDecision) (m : StoredConsensusMessage)
    → (process_message a env d m).0.seq ≡ d.seq
unfolding process_message
process_message-seq a env d m = ground arith

-- 1 in the first phase.
abbrev pub is_initialize : DecisionPhase → ℕ
is_initialize initialize = 1
is_initialize _ = 0

-- A poll that tells the proposer takes the instance out of its first phase; any other leaves it
-- in its phase.
abbrev pub Polled : ConsensusDecision → ConsensusDecision × DecisionPollStatus → Type 0
Polled d (e, DecisionPollStatus.try_propose) =
    (is_initialize d.phase ≡ 1) × (is_initialize e.phase ≡ 0)
Polled d (e, DecisionPollStatus.recv) = is_initialize e.phase ≡ is_initialize d.phase
Polled d (e, DecisionPollStatus.next_message m) = is_initialize e.phase ≡ is_initialize d.phase
Polled d (e, DecisionPollStatus.decided) = is_initialize e.phase ≡ is_initialize d.phase

extract_pre_prepare-Polled :
    (d : ConsensusDecision) (ms : List StoredConsensusMessage) → Polled d (extract_pre_prepare d ms)
extract_pre_prepare-Polled d [] = refl
extract_pre_prepare-Polled d (m ∷ ms) = refl

extract_prepare-Polled :
    (d : ConsensusDecision) (ms : List StoredConsensusMessage) → Polled d (extract_prepare d ms)
extract_prepare-Polled d [] = refl
extract_prepare-Polled d (m ∷ ms) = refl

extract_commit-Polled :
    (d : ConsensusDecision) (ms : List StoredConsensusMessage) → Polled d (extract_commit d ms)
extract_commit-Polled d [] = refl
extract_commit-Polled d (m ∷ ms) = refl

if-Polled :
    (d : ConsensusDecision) (b : Bool) (x : ConsensusDecision × DecisionPollStatus)
    → Polled d x
    → Polled d (if b then x else (d, DecisionPollStatus.recv))
if-Polled d true x h = h
if-Polled d false x h = refl

poll_phase-Polled :
    (d : ConsensusDecision) (phase : DecisionPhase)
    → d.phase ≡ phase
    → Polled d (poll_phase d phase)
unfolding poll_phase
poll_phase-Polled d initialize e = (ap is_initialize e, refl)
poll_phase-Polled d (pre_preparing n) e =
    if-Polled d d.message_queue.get_queue _
      (extract_pre_prepare-Polled d d.message_queue.pre_prepares)
poll_phase-Polled d (preparing n) e =
    if-Polled d d.message_queue.get_queue _ (extract_prepare-Polled d d.message_queue.prepares)
poll_phase-Polled d (committing n) e =
    if-Polled d d.message_queue.get_queue _ (extract_commit-Polled d d.message_queue.commits)
poll_phase-Polled d decided e = refl

pub poll-Polled : (d : ConsensusDecision) → Polled d (poll d)
unfolding poll
poll-Polled d = poll_phase-Polled d d.phase refl
