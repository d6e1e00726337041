-- ===== src/ViewChange/Finalize.antt =====
-- The end of a view change, of febft-pbft-consensus/src/bft/sync/mod.rs: `pre_finalize`, `finalize`,
-- the macro `finalize_view_change!` and `resume_view_change`.
pub mod NewView
use febft.Base.{
  ◌^◌, ℕ, zero, suc, ◌+◌, Bool, true, false, ◌&&◌, not, Option, none, some, List, [], ◌∷◌, ◌++◌,
  ◌==◌, if◌then◌else◌, ltb, map,
}
use febft.Atlas.{Atlas}
use febft.Message.{Request, ConsensusMessageKind, pre_prepare, prepare, commit}
use febft.Log.Decisions.{Proof}
use febft.Log.Decided.{last_execution}
use febft.Log.Install.{Log, FeDecision}
use febft.Node.{Action}
use febft.View.{ViewInfo}
use febft.Consensus.Accessory.{Nonces}
use febft.Consensus.Decision.Process.{Env}
use febft.Consensus.TboQueue.{Tbo}
use febft.Consensus.Instances.{ConsensusStatus}
use febft.Consensus.Instances.Install.{catch_up_to_quorum, finalize_view_change}
use febft.ViewChange.Messages.{FwdConsensusMessage, into_stored}
use febft.ViewChange.Queue.{ViewTbo}
use febft.ViewChange.Queue
use febft.ViewChange.Replica.{is_empty}
use febft.ViewChange.Synchronizer.{
  Sound, test, FinalizeState, FinalizeStatus, no_value, run_cst, ProtoPhase, init, syncing_state,
  SynchronizerStatus, running, new_view, new_view_joined_quorum, consensus_action, World, Outcome,
  ◌>>=◌, unwrapped, with_phase, with_tbo,
}

abbrev pub or_zero : Option ℕ → ℕ
or_zero none = 0
or_zero (some s) = s

abbrev pub proof_seq : Option Proof → ℕ
proof_seq none = 0
proof_seq (some p) = p.metadata.seq_no

abbrev pub proposed_requests : ConsensusMessageKind → Option (List Request)
proposed_requests (pre_prepare rqs) = some rqs
proposed_requests (prepare d) = none
proposed_requests (commit d) = none

-- `u32::from(last_execution) + 1`, which overflows at the last number.
abbrev pub next_execution : Log → Option ℕ
next_execution log =
    if or_zero (last_execution log.decided) + 1 == 2 ^ 32
    then none
    else some (or_zero (last_execution log.decided) + 1)

unfoldable pub pre_finalize : FinalizeState → Option Proof → Log → Option FinalizeStatus
pre_finalize state proof log = do
  next ← next_execution log
  if ltb next (proof_seq proof) then some (run_cst state) else do
    rqs ← proposed_requests state.proposed.consensus_msg.kind
    some (if is_empty rqs && not (test state.sound) then no_value else FinalizeStatus.commit state)

abbrev pub consensus_actions : World → List Action → World
consensus_actions w actions = record w { actions = w.actions ++ map consensus_action actions }

-- `NewViewJoinedQuorum` where a node was being added, which is over.
abbrev pub report_new_view :
    World → Option ℕ → ConsensusStatus → Option FeDecision → World × SynchronizerStatus
report_new_view w none status to_execute = (w, new_view status to_execute)
report_new_view w (some node) status to_execute = (
  record w {
    synchronizer = record w.synchronizer { currently_adding_node = none; currently_adding = [] };
  },
  new_view_joined_quorum status to_execute node,
)

module _ (a : Atlas) (tbo : Tbo) (view_tbo : ViewTbo) where
  abbrev pub install_last : World → ViewInfo → Option Proof → Outcome (Option FeDecision)
  install_last w view none = some (w, none)
  install_last w view (some proof) =
      let (c, log, actions, r) = catch_up_to_quorum a tbo w.consensus view proof w.log in
      do
        to_execute ← unwrapped r
        some (consensus_actions (record w { consensus = c; log = log }) actions, some to_execute)

  -- A proof that is one decision ahead is installed, and the quorum caught up to.
  unfoldable pub catch_up : World → ViewInfo → Option Proof → Outcome (Option FeDecision)
  catch_up w view last_proof = do
    next ← next_execution w.log
    if next == proof_seq last_proof then install_last w view last_proof else some (w, none)

  -- The consensus takes the `PRE-PREPARE` of the leader in the new view.
  unfoldable pub process_proposed :
      Nonces → World → ViewInfo → FwdConsensusMessage → Outcome ConsensusStatus
  process_proposed nonces w view proposed =
      let env : Env = record {
        view = view;
        synchronizer = w.synchronizer.accessory;
        nonces = nonces;
      } in
      let (c, actions, r) =
        finalize_view_change a tbo env w.consensus (into_stored proposed) view in
      do status ← unwrapped r; some (consensus_actions (record w { consensus = c }) actions, status)

  unfoldable pub finalize : Nonces → World → FinalizeState → Outcome SynchronizerStatus
  unfolding catch_up process_proposed
  finalize nonces w state = do
    (q, _) ← Queue.advance a view_tbo w.synchronizer.tbo
    let advanced = with_tbo w q
    (caught_up, to_execute) ← catch_up advanced q.view state.last_proof
    (done, status) ← process_proposed nonces caught_up q.view state.proposed
    some (
        report_new_view (with_phase done init) done.synchronizer.currently_adding_node status
          to_execute)

  abbrev pub end_with : Nonces → World → FinalizeStatus → Outcome SynchronizerStatus
  end_with nonces w no_value = some (w, running)
  end_with nonces w (run_cst state) = some (
    record w {
      synchronizer = record w.synchronizer { finalize_state = some state; phase = syncing_state };
    },
    SynchronizerStatus.run_cst,
  )
  end_with nonces w (FinalizeStatus.commit state) = finalize nonces w state

  -- `finalize_view_change!`
  unfoldable pub end_view_change :
      Nonces → World → FinalizeState → Option Proof → Outcome SynchronizerStatus
  unfolding pre_finalize finalize
  end_view_change nonces w state proof = do
    status ← pre_finalize state proof w.log
    end_with nonces w status

  -- `none` inside is the `None` of the code, where nothing waits for the state transfer.
  unfoldable pub resume_view_change : Nonces → World → Outcome (Option SynchronizerStatus)
  unfolding end_view_change
  resume_view_change nonces w = elim w.synchronizer.finalize_state [
    | none ↦ some (w, none)
    | some state ↦ do
      (after, status) ←
          end_view_change nonces
            (record w { synchronizer = record w.synchronizer { finalize_state = none } }) state none
      some (after, some status)
  ]
