-- ===== src/ViewChange/Messages.antt =====
-- The messages of the view change protocol and of observers, of
-- febft-pbft-consensus/src/bft/message/mod.rs, and what a `STOP-DATA` and a `SYNC` hold, of
-- febft-pbft-consensus/src/bft/log/decisions/mod.rs and febft-pbft-consensus/src/bft/sync/mod.rs.
use febft.Base.{ℕ, Bool, Option, none, some, List, [], ◌∷◌}
use febft.Message.{Request, ConsensusMessage, StoredConsensusMessage}
use febft.Log.Decisions.{Proof, IncompleteProof}
use febft.View.{ViewInfo}

-- The fields of a `Header` that are read.
pub record Header : Type 0 where
  pub from : ℕ
  pub digest : ℕ

pub record FwdConsensusMessage : Type 0 where
  pub header : Header
  pub consensus_msg : ConsensusMessage

pub record CollectData : Type 0 where
  pub incomplete_proof : IncompleteProof
  pub last_proof : Option Proof

pub data ObserveEventKind : Type 0 where
  checkpoint_start checkpoint_end ready prepare commit consensus executed : ℕ → ObserveEventKind
  normal_phase : ViewInfo → ℕ → ObserveEventKind
  view_change_phase collab_state_transfer : ObserveEventKind

pub data ObserverMessage : Type 0 where
  observer_register observer_unregister : ObserverMessage
  observer_register_response : Bool → ObserverMessage
  observed_value : ObserveEventKind → ObserverMessage

-- A `ViewChangeMessage` is given by its view and its kind, `LeaderCollects` by its fields. The
-- stored messages of the latter are a list of the block, `messages` reads it.
mutual
  pub data PbftMessage : Type 0 where
    consensus : ConsensusMessage → PbftMessage
    view_change : ℕ → ViewChangeMessageKind → PbftMessage
    observer_message : ObserverMessage → PbftMessage

  pub data ViewChangeMessageKind : Type 0 where
    stop : List Request → ViewChangeMessageKind
    stop_quorum_join : ℕ → ViewChangeMessageKind
    stop_data : CollectData → ViewChangeMessageKind
    sync : FwdConsensusMessage → StoredMessages → ViewChangeMessageKind

  pub data StoredMessages : Type 0 where
    nil : StoredMessages
    cons : Header → PbftMessage → StoredMessages → StoredMessages

-- `StoredMessage<PBFTMessage<O>>`
pub record StoredMessage : Type 0 where
  pub header : Header
  pub message : PbftMessage

unfoldable pub messages : StoredMessages → List StoredMessage
messages nil = []
messages (cons h m ms) = record { header = h; message = m } ∷ messages ms

unfoldable pub stored : List StoredMessage → StoredMessages
stored [] = nil
stored (m ∷ ms) = cons m.header m.message (stored ms)

-- `PBFTMessage::sequence_number`; `SeqNo::ZERO` is 0.
unfoldable pub sequence_number : PbftMessage → ℕ
sequence_number (PbftMessage.consensus m) = m.seq
sequence_number (view_change view kind) = view
sequence_number (observer_message m) = 0

-- `ViewChangeMessage::take_collects`
unfoldable pub take_collects :
    ViewChangeMessageKind → Option (FwdConsensusMessage × List StoredMessage)
unfolding messages
take_collects (stop rqs) = none
take_collects (stop_quorum_join node) = none
take_collects (stop_data collect) = none
take_collects (sync proposed collects) = some (proposed, messages collects)

abbrev pub into_stored : FwdConsensusMessage → StoredConsensusMessage
into_stored fwd = record {
  from = fwd.header.from;
  digest = fwd.header.digest;
  message = fwd.consensus_msg;
}
