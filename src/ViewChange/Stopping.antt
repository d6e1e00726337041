-- ===== src/ViewChange/Stopping.antt =====
-- The phases of febft-pbft-consensus/src/bft/sync/mod.rs in which `STOP`s are counted: those that call
-- for a new leader, and those that let a node join.
use febft.Base.{
  ℕ, ◌+◌, Bool, true, false, not, Option, none, some, List, [], ◌∷◌, ◌++◌, ◌==◌, if◌then◌else◌, leb,
  ltb, length, contains, insert,
}
use febft.Atlas.{Atlas}
use febft.Message.{Request}
use febft.View
use febft.View.{ViewInfo, leader, next_view_with_new_node, peek}
use febft.Sync.{SynchronizerAccessory, follower, replica}
use febft.ViewChange.Messages.{
  ViewChangeMessageKind, stop, stop_quorum_join, stop_data, sync, StoredMessage,
}
use febft.ViewChange.Queue.{ViewTbo, install_next_view}
use febft.ViewChange.Replica.{handle_stopping_quorum}
use febft.ViewChange.Begin.{begin_view_change}
use febft.ViewChange.Synchronizer.{
  stopping, stopping2, view_stopping, view_stopping2, stopping_data, syncing, SynchronizerStatus,
  nil, running, World, Outcome, ◌>>=◌, unwrapped, with_phase, with_tbo,
}
use febft.ViewChange.Layers.{Layers, stop_status, has_key, hold_stop, hold_sync, hold_stop_data}

-- `entry(node).or_default().insert(voter)`; the keys of the map stand in their order.
abbrev pub vote_in : List ℕ → ℕ → List ℕ
vote_in voters voter = if contains voters voter then voters else voters ++ voter ∷ []

abbrev pub add_vote : List (ℕ × List ℕ) → ℕ → ℕ → List (ℕ × List ℕ)
add_vote [] node voter = (node, voter ∷ []) ∷ []
add_vote ((k, voters) ∷ votes) node voter =
    if k == node
    then (k, vote_in voters voter) ∷ votes
    else if ltb node k
    then (node, voter ∷ []) ∷ (k, voters) ∷ votes
    else (k, voters) ∷ add_vote votes node voter

-- The first of a stable sort by the number of votes, the most first.
abbrev pub most_voted : List (ℕ × List ℕ) → Option (ℕ × ℕ)
most_voted [] = none
most_voted ((k, voters) ∷ votes) = elim (most_voted votes) [
  | none ↦ some (k, length voters)
  | some (j, count) ↦ if ltb (length voters) count then some (j, count) else some (k, length voters)
]

module _ (a : Atlas) (size_bytes : ℕ) (view_tbo : ViewTbo) where
  unfoldable pub process_init :
      World → ViewChangeMessageKind → StoredMessage → World × SynchronizerStatus
  process_init w (stop rqs) m = (hold_stop a view_tbo w m, nil)
  process_init w (stop_quorum_join node) m = (hold_stop a view_tbo w m, nil)
  process_init w (stop_data collect) m =
      (hold_stop_data a view_tbo w w.synchronizer.accessory m, nil)
  process_init w (sync proposed collects) m = (hold_sync a view_tbo w m, nil)

  abbrev pub after_stops : Layers → World → SynchronizerAccessory → ViewInfo → Outcome (Unit {0})
  after_stops layers w follower previous_view = some (w, tt)
  after_stops layers w replica previous_view = handle_stopping_quorum layers.accepts w previous_view

  -- A quorum has stopped: the leader of the next view waits for `STOP-DATA`s, the others for `SYNC`.
  unfoldable pub leave_view : Layers → World → ViewInfo → ViewInfo → Outcome SynchronizerStatus
  leave_view layers w current_view next_view = do
    next_leader ← unwrapped (leader next_view)
    let installed = with_tbo w (install_next_view w.synchronizer.tbo next_view)
    (after, _) ← after_stops layers installed w.synchronizer.accessory current_view
    some (
      with_phase after
          (if next_leader == after.synchronizer.node_id then stopping_data 0 else syncing),
      running,
    )

  abbrev pub store_stop : World → ℕ → List Request → World
  store_stop w from rqs = record w {
    synchronizer = record w.synchronizer { stopped = insert from rqs w.synchronizer.stopped };
  }

  -- Before this node has sent its own `STOP`.
  unfoldable pub count_first_stop : World → ViewInfo → ℕ → World × SynchronizerStatus
  unfolding begin_view_change
  count_first_stop w current_view i =
      if ltb current_view.params.f i
      then (begin_view_change a w none, running)
      else (with_phase w (stopping i), nil)

  unfoldable pub count_stop : Layers → World → ViewInfo → ℕ → Outcome SynchronizerStatus
  unfolding leave_view
  count_stop layers w current_view i =
      if leb current_view.params.quorum i
      then unwrapped (View.next_view a size_bytes current_view) >>= leave_view layers w current_view
      else some (with_phase w (stopping2 i), running)

  abbrev pub accept_stop : Layers → World → Bool → ℕ → ℕ → List Request → Outcome SynchronizerStatus
  accept_stop layers w true i from rqs =
      some (count_first_stop (store_stop w from rqs) w.synchronizer.tbo.view i)
  accept_stop layers w false i from rqs =
      count_stop layers (store_stop w from rqs) w.synchronizer.tbo.view i

  -- `first` tells `Stopping` from `Stopping2`.
  unfoldable pub process_stopping :
      Layers
      → World
      → Bool
      → ℕ
      → ℕ
      → ViewChangeMessageKind
      → StoredMessage
      → Outcome SynchronizerStatus
  unfolding count_first_stop count_stop
  process_stopping layers w first i view (stop rqs) m =
      let current_view = w.synchronizer.tbo.view in
      if not (view == a.next current_view.seq)
      then some (hold_stop a view_tbo w m, stop_status i current_view)
      else if has_key w.synchronizer.stopped m.header.from
      then some (w, stop_status i current_view)
      else accept_stop layers w first (i + 1) m.header.from rqs
  process_stopping layers w first i view (stop_quorum_join node) m =
      let current_view = w.synchronizer.tbo.view in
      if not (view == a.next current_view.seq)
      then some (hold_stop a view_tbo w m, stop_status i current_view)
      else some (w, stop_status i current_view)
  process_stopping layers w first i view (stop_data collect) m = some (
    hold_stop_data a view_tbo w w.synchronizer.accessory m,
    stop_status i w.synchronizer.tbo.view,
  )
  process_stopping layers w first i view (sync proposed collects) m =
      some (hold_sync a view_tbo w m, stop_status i w.synchronizer.tbo.view)

  abbrev pub store_vote : World → ℕ → ℕ → ℕ → World
  store_vote w node voter received = record w {
    synchronizer = record w.synchronizer {
      currently_adding = add_vote w.synchronizer.currently_adding node voter;
      phase = view_stopping received;
    };
  }

  -- The most voted node joins, if a quorum voted for it; `none` is the `todo!` of the code.
  unfoldable pub elect_node :
      Layers → World → ViewInfo → ℕ → ℕ → Option (ℕ × ℕ) → Outcome SynchronizerStatus
  unfolding leave_view
  elect_node layers w current_view received node none = some (w, running)
  elect_node layers w current_view received node (some (node_to_add, count)) =
      if leb current_view.params.quorum count
      then unwrapped (next_view_with_new_node a size_bytes current_view node_to_add)
        >>= leave_view layers
            (record w {
              synchronizer = record w.synchronizer { currently_adding_node = some node };
            })
            current_view
      else if leb current_view.params.n received
      then none
      else some (w, running)

  unfoldable pub count_join_vote :
      Layers → World → ViewInfo → ℕ → ℕ → ℕ → Outcome SynchronizerStatus
  unfolding elect_node
  count_join_vote layers w current_view received node voter =
      let voted = store_vote w node voter received in
      if leb current_view.params.quorum received
      then elect_node layers voted current_view received node
          (most_voted voted.synchronizer.currently_adding)
      else some (with_phase voted (view_stopping2 received), running)

  unfoldable pub process_view_stopping :
      Layers → World → ℕ → ℕ → ViewChangeMessageKind → StoredMessage → Outcome SynchronizerStatus
  unfolding count_join_vote
  process_view_stopping layers w received view (stop rqs) m =
      let current_view = w.synchronizer.tbo.view in
      if not (view == a.next current_view.seq)
      then some (hold_stop a view_tbo w m, stop_status received current_view)
      else some (with_phase (hold_stop a view_tbo w m) (stopping 0), running)
  process_view_stopping layers w received view (stop_quorum_join node) m =
      let current_view = w.synchronizer.tbo.view in
      if not (view == a.next current_view.seq)
      then some (hold_stop a view_tbo w m, stop_status received current_view)
      else count_join_vote layers w current_view (received + 1) node m.header.from
  process_view_stopping layers w received view (stop_data collect) m = some (
    hold_stop_data a view_tbo w w.synchronizer.accessory m,
    stop_status received w.synchronizer.tbo.view,
  )
  process_view_stopping layers w received view (sync proposed collects) m =
      some (hold_sync a view_tbo w m, stop_status received w.synchronizer.tbo.view)
