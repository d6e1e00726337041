-- ===== src/Consensus/Decision/Process.antt =====
-- `ConsensusDecision::process_message` of febft-pbft-consensus/src/bft/consensus/decision/mod.rs,
-- an arm of its match for each phase.
use febft.Base.{
  ℕ, ◌+◌, not, Option, none, some, List, [], ◌++◌, ◌==◌, if◌then◌else◌, length, contains, Result,
  ok, err, panic,
}
use febft.Atlas.{Atlas}
use febft.Message.{
  Request, StoredConsensusMessage, ConsensusMessageKind, pre_prepare, prepare, commit, kind_of,
  view_of, seq_of,
}
use febft.Node.{Action}
use febft.View.{ViewInfo}
use febft.Sync.{SynchronizerAccessory, request_batch_received}
use febft.Log.Decisions.{ProofMetadata}
use febft.Log.Deciding.{DecidingLogError, WorkingDecisionLog, process_pre_prepare}
use febft.Log.Deciding
use febft.Consensus.Accessory.{
  Nonces, handle_partial_pre_prepare, handle_pre_prepare_phase_completed,
  handle_preparing_no_quorum, handle_preparing_quorum, handle_committing_no_quorum,
  handle_committing_quorum,
}
use febft.Consensus.Decision.{
  DecisionPhase, initialize, pre_preparing, preparing, committing, decided, DecisionStatus,
  message_ignored, message_queued, deciding, transitioned, decided_ignored, ConsensusDecision,
  signal, queue, queue_prepare, queue_commit,
}

-- What the call reads of the synchronizer, and the random numbers that it may use.
pub record Env : Type 0 where
  pub view : ViewInfo
  pub synchronizer : SynchronizerAccessory
  pub nonces : Nonces

-- The instance after the call, what was asked of the network, and the result.
abbrev pub Outcome : Type 0
Outcome = ConsensusDecision × List Action × Result DecidingLogError DecisionStatus

module _ (a : Atlas) (env : Env) where
  -- All batches are here: broadcast the vote, and wait for those of the others.
  unfoldable pub complete_pre_prepare :
      ConsensusDecision → StoredConsensusMessage → List Action → Option ProofMetadata → Outcome
  unfolding handle_pre_prepare_phase_completed signal
  complete_pre_prepare d m actions none = (d, actions, panic)
  complete_pre_prepare d m actions (some metadata) =
      elim (handle_pre_prepare_phase_completed env.nonces d.working_log env.view d.accessory) [
        | ok (accessory, sent) ↦ (
          record d {
            phase = preparing 0;
            accessory = accessory;
            message_queue = signal d.message_queue;
          },
          actions ++ sent,
          ok (transitioned (some metadata) m),
        )
        | err e ↦ (d, actions, err e)
        | panic ↦ (d, actions, panic)
      ]

  unfoldable pub count_pre_prepare :
      ConsensusDecision → ℕ → StoredConsensusMessage → List Action → Option ProofMetadata → Outcome
  unfolding complete_pre_prepare handle_partial_pre_prepare
  count_pre_prepare d received m actions metadata =
      if received == length env.view.leader_set
      then complete_pre_prepare d m actions metadata
      else (
        record d {
          phase = pre_preparing received;
          accessory = (handle_partial_pre_prepare d.accessory).0;
        },
        actions,
        ok (deciding m),
      )

  -- The batch of a leader of this view and instance, the `received`-th.
  unfoldable pub accept_pre_prepare :
      ConsensusDecision → ℕ → List Request → StoredConsensusMessage → Outcome
  unfolding request_batch_received process_pre_prepare count_pre_prepare
  accept_pre_prepare d received rqs m =
      let (digests, actions) = request_batch_received env.synchronizer m.from rqs in
      let (log, r) = process_pre_prepare a d.working_log m digests in
      let d' = record d { working_log = log } in
      elim r [
        | ok metadata ↦ count_pre_prepare d' received m actions metadata
        | err e ↦ (d', actions, err e)
        | panic ↦ (d', actions, panic)
      ]

  unfoldable pub process_pre_preparing :
      ConsensusDecision → ℕ → ConsensusMessageKind → StoredConsensusMessage → Outcome
  unfolding accept_pre_prepare queue_prepare queue_commit
  process_pre_preparing d received (pre_prepare rqs) m =
      if not (view_of m == env.view.seq)
      then (d, [], ok message_ignored)
      else if not (contains env.view.leader_set m.from)
      then (d, [], ok message_ignored)
      else if not (seq_of m == d.seq)
      then (d, [], ok message_ignored)
      else accept_pre_prepare d (received + 1) rqs m
  process_pre_preparing d received (prepare digest) m =
      (record d { message_queue = queue_prepare d.message_queue m }, [], ok message_queued)
  process_pre_preparing d received (commit digest) m =
      (record d { message_queue = queue_commit d.message_queue m }, [], ok message_queued)

  -- The vote is logged, or refused; the `received`-th makes a quorum or does not.
  unfoldable pub count_prepare :
      ConsensusDecision
      → ℕ
      → StoredConsensusMessage
      → WorkingDecisionLog × Result DecidingLogError (Unit {0})
      → Outcome
  unfolding handle_preparing_quorum handle_preparing_no_quorum signal
  count_prepare d received m (log, err e) = (record d { working_log = log }, [], err e)
  count_prepare d received m (log, panic) = (record d { working_log = log }, [], panic)
  count_prepare d received m (log, ok _) =
      if received == env.view.params.quorum
      then elim (handle_preparing_quorum env.nonces log env.view d.accessory) [
        | ok (accessory, sent) ↦ (
          record d {
            phase = committing 0;
            working_log = log;
            accessory = accessory;
            message_queue = signal d.message_queue;
          },
          sent,
          ok (transitioned none m),
        )
        | err e ↦ (record d { working_log = log }, [], err e)
        | panic ↦ (record d { working_log = log }, [], panic)
      ]
      else (
        record d {
          phase = preparing received;
          working_log = log;
          accessory = (handle_preparing_no_quorum d.accessory).0;
        },
        [],
        ok (deciding m),
      )

  -- A `PREPARE` for the digest of this instance.
  unfoldable pub accept_prepare : ConsensusDecision → ℕ → StoredConsensusMessage → Outcome
  unfolding Deciding.process_message count_prepare
  accept_prepare d received m =
      count_prepare d received m (Deciding.process_message d.working_log m)

  unfoldable pub process_preparing :
      ConsensusDecision → ℕ → ConsensusMessageKind → StoredConsensusMessage → Outcome
  unfolding accept_prepare queue_commit
  process_preparing d received (pre_prepare rqs) m = (d, [], ok message_ignored)
  process_preparing d received (commit digest) m =
      (record d { message_queue = queue_commit d.message_queue m }, [], ok message_queued)
  process_preparing d received (prepare digest) m =
      if not (view_of m == env.view.seq)
      then (d, [], ok message_ignored)
      else if not (seq_of m == d.seq)
      then (d, [], ok message_ignored)
      else elim d.working_log.batch_digest [
        | none ↦ (d, [], panic)
        | some current ↦
            if not (digest == current)
            then (d, [], ok message_ignored)
            else accept_prepare d (received + 1) m
      ]

  unfoldable pub count_commit :
      ConsensusDecision
      → ℕ
      → StoredConsensusMessage
      → WorkingDecisionLog × Result DecidingLogError (Unit {0})
      → Outcome
  unfolding handle_committing_quorum handle_committing_no_quorum
  count_commit d received m (log, err e) = (record d { working_log = log }, [], err e)
  count_commit d received m (log, panic) = (record d { working_log = log }, [], panic)
  count_commit d received m (log, ok _) =
      if received == env.view.params.quorum
      then (
        record d {
          phase = decided;
          working_log = log;
          accessory = (handle_committing_quorum d.accessory).0;
        },
        [],
        ok (DecisionStatus.decided m),
      )
      else (
        record d {
          phase = committing received;
          working_log = log;
          accessory = (handle_committing_no_quorum d.accessory).0;
        },
        [],
        ok (deciding m),
      )

  -- A `COMMIT` for the digest of this instance.
  unfoldable pub accept_commit : ConsensusDecision → ℕ → StoredConsensusMessage → Outcome
  unfolding Deciding.process_message count_commit
  accept_commit d received m = count_commit d received m (Deciding.process_message d.working_log m)

  unfoldable pub process_committing :
      ConsensusDecision → ℕ → ConsensusMessageKind → StoredConsensusMessage → Outcome
  unfolding accept_commit
  process_committing d received (pre_prepare rqs) m = (d, [], ok message_ignored)
  process_committing d received (prepare digest) m = (d, [], ok message_ignored)
  process_committing d received (commit digest) m =
      if not (seq_of m == d.seq)
      then (d, [], ok message_ignored)
      else if not (view_of m == env.view.seq)
      then (d, [], ok message_ignored)
      else elim d.working_log.batch_digest [
        | none ↦ (d, [], panic)
        | some current ↦
            if not (digest == current)
            then (d, [], ok message_ignored)
            else accept_commit d (received + 1) m
      ]

  unfoldable pub process_phase :
      ConsensusDecision → DecisionPhase → StoredConsensusMessage → Outcome
  unfolding queue process_pre_preparing process_preparing process_committing
  process_phase d initialize m = (queue d m, [], ok message_queued)
  process_phase d (pre_preparing received) m = process_pre_preparing d received (kind_of m) m
  process_phase d (preparing received) m = process_preparing d received (kind_of m) m
  process_phase d (committing received) m = process_committing d received (kind_of m) m
  process_phase d decided m = (d, [], ok decided_ignored)

  unfoldable pub process_message : ConsensusDecision → StoredConsensusMessage → Outcome
  unfolding process_phase
  process_message d m = process_phase d d.phase m
