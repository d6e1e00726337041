-- ===== src/ViewChange/Begin.antt =====
-- The start of a view change on this node, of febft-pbft-consensus/src/bft/sync/mod.rs:
-- `begin_view_change`, `begin_quorum_view_change`, and joining the quorum.
use febft.Base.{
  ℕ, ◌+◌, Bool, true, false, Option, none, some, List, [], ◌==◌, if◌then◌else◌, contains,
}
use febft.Atlas.{Atlas}
use febft.Message.{Request}
use febft.View.{ViewInfo, leader, next_view_with_new_node}
use febft.Sync.{SynchronizerAccessory, follower, replica}
use febft.ViewChange.Queue.{install_next_view}
use febft.ViewChange.Replica.{handle_begin_view_change, handle_begin_quorum_view_change}
use febft.ViewChange.Synchronizer.{
  ProtoPhase, init, stopping, stopping2, view_stopping, view_stopping2, stopping_data, syncing,
  syncing_state, SyncReconfigurationResult, on_going_view_change, already_part_of_quorum,
  in_progress, on_going_quorum_change, World, Outcome, ◌>>=◌, unwrapped, with_phase,
}

-- `clear`s of a view change that starts anew.
abbrev pub clear_stops : World → World
clear_stops w = record w {
  synchronizer = record w.synchronizer {
    stopped = [];
    collects = [];
    currently_adding_node = none;
    currently_adding = [];
  };
}

abbrev pub clear_all : World → World
clear_all w =
    let cleared = clear_stops w in
    record cleared { synchronizer = record cleared.synchronizer { entering_quorum = false } }

-- The phase of `begin_view_change`; `none` is the early return.
abbrev pub begin_phase : World → ProtoPhase → Option (List Request) → Option World
begin_phase w (stopping i) none = some (with_phase w (stopping2 (i + 1)))
begin_phase w (stopping i) (some rqs) = some (with_phase w (stopping2 i))
begin_phase w (view_stopping i) none = some (with_phase w (stopping 1))
begin_phase w (view_stopping2 i) none = some (with_phase w (stopping 1))
begin_phase w (view_stopping i) (some rqs) = some (with_phase w (stopping2 0))
begin_phase w (view_stopping2 i) (some rqs) = some (with_phase w (stopping2 0))
begin_phase w (stopping_data i) timed_out = none
begin_phase w syncing timed_out = none
begin_phase w (stopping2 i) timed_out = none
begin_phase w init timed_out = some (with_phase (clear_all w) (stopping2 0))
begin_phase w syncing_state timed_out = some (with_phase (clear_all w) (stopping2 0))

-- The phase of `begin_quorum_view_change`.
abbrev pub begin_quorum_phase : World → ProtoPhase → Option ℕ → Option World
begin_quorum_phase w (view_stopping i) none = some (with_phase w (view_stopping (i + 1)))
begin_quorum_phase w (view_stopping i) (some node) = some (with_phase w (view_stopping2 i))
begin_quorum_phase w (stopping_data i) join_cert = none
begin_quorum_phase w syncing join_cert = none
begin_quorum_phase w (view_stopping2 i) join_cert = none
begin_quorum_phase w init join_cert = some (with_phase (clear_stops w) (view_stopping2 0))
begin_quorum_phase w (stopping i) join_cert = some (with_phase (clear_stops w) (view_stopping2 0))
begin_quorum_phase w (stopping2 i) join_cert = some (with_phase (clear_stops w) (view_stopping2 0))
begin_quorum_phase w syncing_state join_cert = some (with_phase (clear_stops w) (view_stopping2 0))

-- Where `start_join_quorum` does not begin a view change; `none` is the phase in which it does.
abbrev pub on_going : ProtoPhase → Option ℕ → Option SyncReconfigurationResult
on_going init adding = none
on_going (stopping_data i) none = some on_going_view_change
on_going (stopping_data i) (some node) = some (on_going_quorum_change node)
on_going syncing_state none = some on_going_view_change
on_going syncing_state (some node) = some (on_going_quorum_change node)
on_going syncing none = some on_going_view_change
on_going syncing (some node) = some (on_going_quorum_change node)
on_going (view_stopping i) adding = some on_going_view_change
on_going (view_stopping2 i) adding = some on_going_view_change
on_going (stopping i) adding = some on_going_view_change
on_going (stopping2 i) adding = some on_going_view_change

-- `ReconfigurationAttemptResult` of atlas_core, as far as it is returned.
pub data ReconfigurationAttemptResult : Type 0 where
  already_part joining : ReconfigurationAttemptResult

abbrev pub is_member : ViewInfo → ℕ → Bool
is_member view node = contains view.quorum_members node

module _ (a : Atlas) where
  abbrev pub send_stop : World → SynchronizerAccessory → Option (List Request) → World
  send_stop w follower timed_out = w
  send_stop w replica timed_out = handle_begin_view_change a w timed_out

  unfoldable pub begin_view_change : World → Option (List Request) → World
  begin_view_change w timed_out = elim (begin_phase w w.synchronizer.phase timed_out) [
    | none ↦ w
    | some begun ↦ send_stop begun w.synchronizer.accessory timed_out
  ]

  abbrev pub send_join : World → SynchronizerAccessory → Option ℕ → World
  send_join w follower join_cert = w
  send_join w replica none = w
  send_join w replica (some node) = handle_begin_quorum_view_change a w node

  unfoldable pub begin_quorum_view_change : World → Option ℕ → World
  begin_quorum_view_change w join_cert =
      elim (begin_quorum_phase w w.synchronizer.phase join_cert) [
        | none ↦ w
        | some begun ↦ send_join begun w.synchronizer.accessory join_cert
      ]

  -- `none` is the panic on this node itself.
  unfoldable pub start_join_quorum : World → ℕ → Outcome SyncReconfigurationResult
  unfolding begin_quorum_view_change
  start_join_quorum w joining_node =
      let s = w.synchronizer in
      if is_member s.tbo.view joining_node
      then some (w, already_part_of_quorum)
      else elim (on_going s.phase s.currently_adding_node) [
        | some result ↦ some (w, result)
        | none ↦
            if joining_node == s.node_id
            then none
            else some (begin_quorum_view_change w (some joining_node), in_progress)
      ]

  abbrev pub in_next : Option ViewInfo → ℕ → Bool
  in_next none node = false
  in_next (some view) node = is_member view node

  -- The node acts as if the quorum had accepted it.
  abbrev pub enter_quorum : ℕ → World → Outcome ReconfigurationAttemptResult
  enter_quorum size_bytes w = do
    let s = w.synchronizer
    view ← unwrapped (next_view_with_new_node a size_bytes s.tbo.view s.node_id)
    next_leader ← unwrapped (leader view)
    some (
      record w {
        synchronizer = record s {
          entering_quorum = true;
          currently_adding_node = some s.node_id;
          tbo = install_next_view s.tbo view;
          phase = if next_leader == s.node_id then stopping_data 0 else syncing;
        };
      },
      joining,
    )

  unfoldable pub attempt_join_quorum : ℕ → World → Outcome ReconfigurationAttemptResult
  attempt_join_quorum size_bytes w =
      let s = w.synchronizer in
      if is_member s.tbo.view s.node_id
      then some (w, already_part)
      else if in_next s.tbo.next_view s.node_id
      then some (w, already_part)
      else enter_quorum size_bytes w
