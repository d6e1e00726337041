-- ===== src/Tests/Synced.antt =====
-- Two replicas that end a view change.
use febft.Base.{ℕ, ◌≡◌, refl, true, Option, none, some, List, [], ◌∷◌, arith}
use febft.Message.{
  ClientRqInfo, Request, ConsensusMessage, ConsensusMessageKind, pre_prepare, commit, prepare,
  StoredConsensusMessage,
}
use febft.View.{ViewInfo, leader}
use febft.Log.Decisions.{Proof}
use febft.Log.Install.{initialize_decided_log}
use febft.ViewChange.Messages.{FwdConsensusMessage, StoredMessage}
use febft.ViewChange.Queue.{ViewTbo, TboQueue, Queues, install_next_view}
use febft.ViewChange.Queue
use febft.ViewChange.Layers.{Layers}
use febft.ViewChange.Collects.{validate_signature}
use febft.ViewChange.Process.{process_message}
use febft.ViewChange.Finalize.{finalize, end_view_change}
use febft.ViewChange.Finalize.NewView.{InNewView, finalize-InNewView}
use febft.ViewChange.Syncing.{lead_sync}
use febft.ViewChange.Syncing.Repeats.{NextLaws, Agree, leader_message, announced, sync_repeats}
use febft.ViewChange.Synchronizer.{
  unbound, FinalizeState, ProtoPhase, init, stopping_data, syncing, SynchronizerStatus, World,
  new_replica,
}
use febft.Tests.Concrete.{atlas, seq_laws, tbo}
use febft.Tests.Instances.{led_by, three-Window, some_instances}
use febft.Tests.Replicas.{
  view, view_tbo, signatures, layers, start, header, or_idle, request, collected,
}

-- Node 2 leads the next view and has its collects; replica 0 waits for its `SYNC`.
abbrev next_view : ViewInfo
next_view = led_by 2 2

abbrev changing : ℕ → ProtoPhase → List (ℕ × StoredMessage) → World
changing node phase collects = record start {
  synchronizer = record (new_replica node view) {
    phase = phase;
    tbo = install_next_view (Queue.new view) next_view;
    collects = collects;
  };
}

abbrev leading : World
leading =
    changing 2 (stopping_data 3)
      ((0, collected none 0) ∷ (1, collected none 1) ∷ (2, collected none 2) ∷ [])

abbrev waiting : World
waiting = changing 0 syncing []

abbrev asked : Layers
asked = record layers { pending_rqs = some (request 11 ∷ []) }

abbrev led : World × SynchronizerStatus
led = or_idle (lead_sync atlas 1 signatures tbo view_tbo asked leading next_view 2)

leads : lead_sync atlas 1 signatures tbo view_tbo asked leading next_view 2 ≡ some led
unfolding lead_sync end_view_change febft.Log.Decided.last_execution initialize_decided_log
    febft.Consensus.Instances.Install.forge_propose febft.Message.new Queue.advance
    install_next_view Queue.new febft.Consensus.Instances.Install.finalize_view_change
    Queue.next_instance_queue febft.Consensus.Instances.new_replica febft.Consensus.Instances.place
    febft.Consensus.Instances.process_at febft.Consensus.Decision.Process.process_message
    febft.Consensus.Decision.skip_init_phase febft.Consensus.Decision.init_decision new_replica
    febft.View.is_request_in_hash_space
leads = refl

ends_change : led.0.synchronizer.phase ≡ init
unfolding lead_sync end_view_change febft.Log.Decided.last_execution initialize_decided_log
    febft.Consensus.Instances.Install.forge_propose febft.Message.new Queue.advance
    install_next_view Queue.new febft.Consensus.Instances.Install.finalize_view_change
    Queue.next_instance_queue febft.Consensus.Instances.new_replica febft.Consensus.Instances.place
    febft.Consensus.Instances.process_at febft.Consensus.Decision.Process.process_message
    febft.Consensus.Decision.skip_init_phase febft.Consensus.Decision.init_decision new_replica
    febft.View.is_request_in_hash_space
ends_change = refl

next_laws : NextLaws atlas
next_laws = record { next_number = λ s h. omega arith }

sync_repeats_example :
    (proposed : FwdConsensusMessage) × (s : FinalizeState) × (t : FinalizeState) × (proof : Option
      Proof)
    × (end_view_change atlas tbo view_tbo asked.nonces
          (announced atlas 1 signatures tbo view_tbo leading next_view proposed)
          s
          proof
        ≡ some led)
    × (process_message atlas 1 signatures tbo view_tbo layers waiting
          (leader_message atlas 1 signatures tbo view_tbo (header 2) next_view proposed leading)
        ≡ end_view_change atlas tbo view_tbo layers.nonces waiting t proof)
    × Agree s t
unfolding install_next_view Queue.new new_replica validate_signature leader
sync_repeats_example =
    sync_repeats atlas 1 signatures tbo view_tbo asked layers leading led.0 waiting next_view 2 60
      (request 11 ∷ []) led.1 next_laws (λ xs x. refl) (λ xs x. refl) refl
      (refl, (refl, (refl, tt))) refl refl refl refl leads

abbrev state : FinalizeState
state = record {
  curr_cid = 0;
  sound = unbound true;
  proposed = record {
    header = header 2;
    consensus_msg = record { seq = 6; view = 2; nonce = 5; kind = pre_prepare (request 11 ∷ []) };
  };
  last_proof = none;
}

abbrev finalized : World × SynchronizerStatus
finalized = or_idle (finalize atlas tbo view_tbo layers.nonces waiting state)

finalizes : finalize atlas tbo view_tbo layers.nonces waiting state ≡ some finalized
unfolding finalize Queue.advance install_next_view Queue.new febft.Log.Decided.last_execution
    initialize_decided_log febft.Consensus.Instances.Install.finalize_view_change
    Queue.next_instance_queue febft.Consensus.Instances.new_replica febft.Consensus.Instances.place
    febft.Consensus.Instances.process_at febft.Consensus.Decision.Process.process_message
    febft.Consensus.Decision.skip_init_phase febft.Consensus.Decision.init_decision new_replica
    febft.View.is_request_in_hash_space
finalizes = refl

finalize-InNewView_example : InNewView atlas tbo view_tbo seq_laws waiting finalized.0 next_view
unfolding install_next_view Queue.new febft.Consensus.Instances.new_replica
finalize-InNewView_example =
    finalize-InNewView atlas tbo view_tbo seq_laws layers.nonces waiting finalized.0 state
      finalized.1 next_view 0 0 refl refl refl three-Window some_instances finalizes
