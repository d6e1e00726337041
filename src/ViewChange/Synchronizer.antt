-- ===== src/ViewChange/Synchronizer.antt =====
-- `Synchronizer` of febft-pbft-consensus/src/bft/sync/mod.rs: its phases, its state, what it asks of
-- the layers below, and what it reports.
use febft.Base.{
  ℕ, Bool, true, false, Option, none, some, List, [], ◌∷◌, ◌++◌, Result, ok, err, panic,
}
use febft.Atlas.{Atlas}
use febft.Message.{Request, ClientRqInfo}
use febft.Node.{Action}
use febft.View.{ViewInfo, ViewError, from_quorum}
use febft.Log.Decisions.{Proof}
use febft.Log.Install.{Log, FeDecision}
use febft.Sync.{SynchronizerAccessory, follower, replica}
use febft.Consensus.Instances.{Consensus, ConsensusStatus}
use febft.ViewChange.Messages.{StoredMessage, PbftMessage, FwdConsensusMessage}
use febft.ViewChange.Queue.{TboQueue}
use febft.ViewChange.Queue

pub data Sound : Type 0 where
  unbound : Bool → Sound
  bound : ℕ → Sound

unfoldable pub value : Sound → Option ℕ
value (bound d) = some d
value (unbound b) = none

unfoldable pub test : Sound → Bool
test (unbound b) = b
test (bound d) = true

pub record FinalizeState : Type 0 where
  pub curr_cid : ℕ
  pub sound : Sound
  pub proposed : FwdConsensusMessage
  pub last_proof : Option Proof

pub data FinalizeStatus : Type 0 where
  no_value : FinalizeStatus
  run_cst commit : FinalizeState → FinalizeStatus

pub data ProtoPhase : Type 0 where
  init : ProtoPhase
  stopping stopping2 view_stopping view_stopping2 stopping_data : ℕ → ProtoPhase
  syncing syncing_state : ProtoPhase

pub data SynchronizerStatus : Type 0 where
  nil running run_cst : SynchronizerStatus
  new_view : ConsensusStatus → Option FeDecision → SynchronizerStatus
  new_view_joined_quorum : ConsensusStatus → Option FeDecision → ℕ → SynchronizerStatus
  requests_timed_out : (forwarded stopped : List ClientRqInfo) → SynchronizerStatus

pub data SynchronizerPollStatus : Type 0 where
  recv resume_view_change : SynchronizerPollStatus
  next_message : StoredMessage → SynchronizerPollStatus

pub data SyncReconfigurationResult : Type 0 where
  failed on_going_view_change already_part_of_quorum in_progress completed :
      SyncReconfigurationResult
  on_going_quorum_change : ℕ → SyncReconfigurationResult

-- A map is the list of its bindings; `collects` are kept under their senders.
pub record Synchronizer : Type 0 where
  pub node_id : ℕ
  pub phase : ProtoPhase
  pub tbo : TboQueue
  pub stopped : List (ℕ × List Request)
  pub currently_adding_node : Option ℕ
  pub currently_adding : List (ℕ × List ℕ)
  pub collects : List (ℕ × StoredMessage)
  pub finalize_state : Option FinalizeState
  pub entering_quorum : Bool
  pub accessory : SynchronizerAccessory

-- The calls of the network, of the timeouts and of the request pre-processor, in their order.
pub data SyncAction : Type 0 where
  -- what the consensus asks
  consensus_action : Action → SyncAction
  -- `node.broadcast_signed(message, targets)`
  broadcast_signed : PbftMessage → List ℕ → SyncAction
  -- `node.send_signed(message, target, true)`
  send_signed : PbftMessage → ℕ → SyncAction
  -- `node.forward_requests(message, targets)`
  forward_requests : List Request → List ℕ → SyncAction
  -- `pre_processor.process_stopped_requests(requests)`
  process_stopped_requests : List Request → SyncAction
  -- `timeouts.request_timeouts(..)`, `cancel_all_timeouts()` and `reset_all_timeouts()`
  request_timeouts : List ClientRqInfo → SyncAction
  cancel_all_timeouts reset_all_timeouts : SyncAction

-- What a call of the synchronizer may change: itself, the consensus and the log.
pub record World : Type 0 where
  pub synchronizer : Synchronizer
  pub consensus : Consensus
  pub log : Log
  pub actions : List SyncAction

-- `none` is a panic, after which the state is of no use.
abbrev pub Outcome : Type 0 → Type 0
Outcome A = Option (World × A)

infixl 5 ◌>>=◌
abbrev pub ◌>>=◌ {ℓ κ} : {A : Type ℓ} {B : Type κ} → Option A → (A → Option B) → Option B
none >>= f = none
some x >>= f = f x

-- A result whose error the caller unwraps.
abbrev pub unwrapped {ℓ} : {E : Type 0} {A : Type ℓ} → Result E A → Option A
unwrapped (ok x) = some x
unwrapped (err e) = none
unwrapped panic = none

abbrev pub act : World → SyncAction → World
act w action = record w { actions = w.actions ++ action ∷ [] }

abbrev pub with_phase : World → ProtoPhase → World
with_phase w phase = record w { synchronizer = record w.synchronizer { phase = phase } }

abbrev pub with_tbo : World → TboQueue → World
with_tbo w tbo = record w { synchronizer = record w.synchronizer { tbo = tbo } }

unfoldable pub new_synchronizer : ℕ → TboQueue → SynchronizerAccessory → Synchronizer
new_synchronizer node_id tbo accessory = record {
  node_id = node_id;
  phase = init;
  tbo = tbo;
  stopped = [];
  currently_adding_node = none;
  currently_adding = [];
  collects = [];
  finalize_state = none;
  entering_quorum = false;
  accessory = accessory;
}

unfoldable pub new_follower : ℕ → ViewInfo → Synchronizer
unfolding new_synchronizer
new_follower node_id view = new_synchronizer node_id (Queue.new view) follower

unfoldable pub new_replica : ℕ → ViewInfo → Synchronizer
unfolding new_synchronizer
new_replica node_id view = new_synchronizer node_id (Queue.new view) replica

-- The number of members less one overflows at 0, as it does in `from_quorum`.
unfoldable pub initialize_with_quorum : Atlas → ℕ → ℕ → ℕ → List ℕ → Result ViewError Synchronizer
unfolding new_replica
initialize_with_quorum a size_bytes node_id seq_no quorum_members =
    elim (from_quorum a size_bytes seq_no quorum_members) [
      | ok view ↦ ok (new_replica node_id view)
      | err e ↦ err e
      | panic ↦ panic
    ]
