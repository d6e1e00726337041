-- ===== src/ViewChange/Process.antt =====
-- `process_message` of febft-pbft-consensus/src/bft/sync/mod.rs, by its phases, `poll`, and the view that
-- a state transfer brings.
use febft.Base.{ℕ, true, false, none, some}
use febft.Atlas.{Atlas}
use febft.Consensus.TboQueue.{Tbo}
use febft.ViewChange.Messages.{PbftMessage, ViewChangeMessageKind, StoredMessage}
use febft.ViewChange.Queue.{ViewTbo}
use febft.ViewChange.Collects.{Signatures}
use febft.ViewChange.Synchronizer.{
  ProtoPhase, init, stopping, stopping2, view_stopping, view_stopping2, stopping_data, syncing,
  syncing_state, SynchronizerStatus, World, Outcome,
}
use febft.ViewChange.Layers.{Layers}
use febft.ViewChange.Stopping.{process_init, process_stopping, process_view_stopping}
use febft.ViewChange.Syncing.{process_stopping_data, process_syncing}

module _ (a : Atlas) (size_bytes : ℕ) (sig : Signatures) (tbo : Tbo) (view_tbo : ViewTbo) where
  abbrev pub process_phase :
      Layers
      → World
      → ProtoPhase
      → ℕ
      → ViewChangeMessageKind
      → StoredMessage
      → Outcome SynchronizerStatus
  process_phase layers w init view kind m = some (process_init a size_bytes view_tbo w kind m)
  process_phase layers w (stopping i) view kind m =
      process_stopping a size_bytes view_tbo layers w true i view kind m
  process_phase layers w (stopping2 i) view kind m =
      process_stopping a size_bytes view_tbo layers w false i view kind m
  process_phase layers w (view_stopping i) view kind m =
      process_view_stopping a size_bytes view_tbo layers w i view kind m
  process_phase layers w (view_stopping2 i) view kind m =
      process_view_stopping a size_bytes view_tbo layers w i view kind m
  process_phase layers w (stopping_data i) view kind m =
      process_stopping_data a size_bytes sig tbo view_tbo layers w w.synchronizer.accessory i view
        kind m
  process_phase layers w syncing view kind m =
      process_syncing a size_bytes sig tbo view_tbo layers w view kind m
  process_phase layers w syncing_state view kind m = none

  -- A message that is no view change message panics in every phase.
  unfoldable pub process_message : Layers → World → StoredMessage → Outcome SynchronizerStatus
  unfolding process_init process_stopping process_view_stopping process_stopping_data
      process_syncing
  process_message layers w m = elim m.message [
    | PbftMessage.consensus c ↦ none
    | PbftMessage.view_change view kind ↦ process_phase layers w w.synchronizer.phase view kind m
    | PbftMessage.observer_message o ↦ none
  ]
