-- ===== src/ViewChange/Poll.antt =====
-- `poll`, `received_view_from_state_transfer` and the calls that only a replica answers, of
-- febft-pbft-consensus/src/bft/sync/mod.rs.
use febft.Base.{ℕ, Bool, true, false, not, ◌&&◌, Option, none, some, List, ◌==◌, if◌then◌else◌}
use febft.Atlas.{Atlas}
use febft.Message.{Request, ClientRqInfo}
use febft.View.{ViewInfo, leader, previous_view}
use febft.Sync.{SynchronizerAccessory, follower, replica}
use febft.ViewChange.Messages.{
  PbftMessage, ViewChangeMessageKind, stop, stop_quorum_join, stop_data, sync, StoredMessage,
}
use febft.ViewChange.Queue.{
  ViewTbo, install_view, install_next_view, can_process_stop_data, can_process_sync,
}
use febft.ViewChange.Replica.{ModTimeout, replica_requests_timed_out, replica_forward_requests}
use febft.ViewChange.Replica
use febft.ViewChange.Synchronizer.{
  ProtoPhase, init, stopping, stopping2, view_stopping, view_stopping2, stopping_data, syncing,
  syncing_state, Synchronizer, SynchronizerPollStatus, recv, resume_view_change, next_message,
  SynchronizerStatus, nil, World, ◌>>=◌, unwrapped,
}

-- The phase that a popped `STOP` begins.
abbrev pub phase_of_kind : ViewChangeMessageKind → ProtoPhase
phase_of_kind (stop rqs) = stopping 0
phase_of_kind (stop_quorum_join node) = view_stopping 0
phase_of_kind (stop_data collect) = stopping 0
phase_of_kind (sync proposed collects) = stopping 0

-- `none` is the panic on a message that is no view change message.
abbrev pub begin_of : PbftMessage → Option ProtoPhase
begin_of (PbftMessage.consensus m) = none
begin_of (PbftMessage.view_change view kind) = some (phase_of_kind kind)
begin_of (PbftMessage.observer_message m) = none

abbrev pub no_more : Synchronizer → Synchronizer
no_more s = record s { tbo = record s.tbo { get_queue = false } }

-- `extract_msg!`, with the queue that is left already in place.
abbrev pub extracted : Synchronizer → Option StoredMessage → Synchronizer × SynchronizerPollStatus
extracted s none = (no_more s, recv)
extracted s (some m) = (s, next_message m)

abbrev pub extracted_first :
    Synchronizer → Option StoredMessage → Option (Synchronizer × SynchronizerPollStatus)
extracted_first s none = some (no_more s, recv)
extracted_first s (some m) = do
  phase ← begin_of m.message
  some (record s { phase = phase }, next_message m)

module _ (view_tbo : ViewTbo) where
  abbrev pub poll_stop : Synchronizer → Option (Synchronizer × SynchronizerPollStatus)
  poll_stop s =
      let (q, m) = view_tbo.pop s.tbo.stop in
      some (extracted (record s { tbo = record s.tbo { stop = q } }) m)

  unfoldable pub poll_phase :
      Synchronizer → ProtoPhase → Option (Synchronizer × SynchronizerPollStatus)
  poll_phase s init =
      let (q, m) = view_tbo.pop s.tbo.stop in
      extracted_first (record s { tbo = record s.tbo { stop = q } }) m
  poll_phase s (stopping i) = poll_stop s
  poll_phase s (stopping2 i) = poll_stop s
  poll_phase s (view_stopping i) = poll_stop s
  poll_phase s (view_stopping2 i) = poll_stop s
  poll_phase s (stopping_data i) =
      let (q, m) = view_tbo.pop s.tbo.stop_data in
      some (extracted (record s { tbo = record s.tbo { stop_data = q } }) m)
  poll_phase s syncing =
      let (q, m) = view_tbo.pop s.tbo.sync in
      some (extracted (record s { tbo = record s.tbo { sync = q } }) m)
  poll_phase s syncing_state = some (s, resume_view_change)

  unfoldable pub poll : Synchronizer → Option (Synchronizer × SynchronizerPollStatus)
  unfolding poll_phase
  poll s = if not s.tbo.get_queue then some (s, recv) else poll_phase s s.phase

module _ (a : Atlas) (size_bytes : ℕ) (view_tbo : ViewTbo) where
  -- `if !install_view(view) { phase = Init }`
  abbrev pub install_or_init : Synchronizer → ViewInfo → Option Synchronizer
  install_or_init s view = do
    (q, installed) ← install_view a view_tbo s.tbo view
    some (record s { tbo = q; phase = if installed then s.phase else init })

  -- The phase that the messages which wait call for, else the view is installed at once.
  unfoldable pub resume_in : Synchronizer → ViewInfo → Option (Synchronizer × Bool)
  resume_in s view = do
    next_leader ← unwrapped (leader view)
    if (next_leader == s.node_id) && can_process_stop_data s.tbo
        then some (record s { phase = stopping_data 0; tbo = install_next_view s.tbo view }, true)
        else if can_process_sync s.tbo
        then some (record s { phase = syncing; tbo = install_next_view s.tbo view }, true)
        else install_view a view_tbo s.tbo view >>= λ r. some (record s { tbo = r.0 }, false)

  abbrev pub after_previous :
      Synchronizer → ViewInfo → Option ViewInfo → Option (Synchronizer × Bool)
  after_previous s view none = install_or_init s view >>= λ t. some (t, false)
  after_previous s view (some previous) =
      (if not (s.tbo.view.seq == previous.seq) then install_or_init s previous else some s) >>= λ t.
      resume_in t view

  -- With the answer whether the view change has to go on.
  unfoldable pub received_view_from_state_transfer :
      Synchronizer → ViewInfo → Option (Synchronizer × Bool)
  unfolding resume_in
  received_view_from_state_transfer s view = do
    previous ← unwrapped (previous_view a size_bytes view)
    after_previous s view previous

abbrev pub watch_by : World → SynchronizerAccessory → List ClientRqInfo → World
watch_by w follower rqs = w
watch_by w replica rqs = Replica.watch_received_requests w rqs

unfoldable pub watch_received_requests : World → List ClientRqInfo → World
watch_received_requests w rqs = watch_by w w.synchronizer.accessory rqs

abbrev pub forward_by : World → SynchronizerAccessory → List Request → World
forward_by w follower timed_out = w
forward_by w replica timed_out = replica_forward_requests w timed_out

unfoldable pub forward_requests : World → List Request → World
forward_requests w timed_out = forward_by w w.synchronizer.accessory timed_out

abbrev pub time_out_by : SynchronizerAccessory → Synchronizer → List ModTimeout → SynchronizerStatus
time_out_by follower s timed_out = nil
time_out_by replica s timed_out = replica_requests_timed_out s timed_out

unfoldable pub client_requests_timed_out : Synchronizer → List ModTimeout → SynchronizerStatus
client_requests_timed_out s timed_out = time_out_by s.accessory s timed_out
