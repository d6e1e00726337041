-- ===== src/ViewChange/Runs/Begun.antt =====
-- The counts of the synchronizer of febft-pbft-consensus/src/bft/sync/mod.rs where a timeout or a
-- joining node begins a view change.
use febft.Base.{
  some_eq, subst, ℕ, ◌≡◌, refl, sym, inl, inr, Bool, false, Option, none, some, List, [],
  Option-cases, arith,
}
use febft.Atlas.{Atlas}
use febft.Message.{Request}
use febft.Sync.{SynchronizerAccessory, follower, replica}
use febft.ViewChange.Replica.{handle_begin_view_change, handle_begin_quorum_view_change}
use febft.ViewChange.Begin.{
  begin_view_change, begin_quorum_view_change, start_join_quorum, begin_phase, begin_quorum_phase,
  clear_stops, send_stop, send_join,
}
use febft.ViewChange.Runs.{Counted, CountedAt}
use febft.ViewChange.Synchronizer.{
  ProtoPhase, init, stopping, stopping2, view_stopping, view_stopping2, stopping_data, syncing,
  syncing_state, SyncReconfigurationResult, World, with_phase,
}
use febft.ViewChange.Runs.Kept.{counted_at}

recount :
    (w : World) (phase : ProtoPhase)
    → Counted w.synchronizer
    → CountedAt phase w.synchronizer.stopped w.synchronizer.collects
    → Counted (with_phase w phase).synchronizer
recount w phase c k = record {
  counted = k;
  stoppers = c.stoppers;
  collectors = c.collectors;
  voters = c.voters;
  is_replica = c.is_replica;
}

cleared-Counted :
    (w : World) (phase : ProtoPhase) (entering : Bool)
    → Counted w.synchronizer
    → CountedAt phase [] []
    → Counted (record (clear_stops w).synchronizer { phase = phase; entering_quorum = entering })
cleared-Counted w phase entering c k = record {
  counted = k;
  stoppers = tt;
  collectors = tt;
  voters = tt;
  is_replica = c.is_replica;
}

pub world-Counted :
    (x y : World) → some x ≡ some y → Counted x.synchronizer → Counted y.synchronizer
world-Counted x y e c = subst (λ w. Counted w.synchronizer) (some_eq e) c

-- A view change that a timeout begins.
begun-Counted :
    (w begun : World) (phase : ProtoPhase) (rqs : List Request)
    → w.synchronizer.phase ≡ phase
    → Counted w.synchronizer
    → begin_phase w phase (some rqs) ≡ some begun
    → Counted begun.synchronizer
begun-Counted w begun (stopping i) rqs e c h =
    world-Counted _ begun h (recount w (stopping2 i) c (counted_at w.synchronizer (stopping i) c e))
begun-Counted w begun (view_stopping i) rqs e c h =
    world-Counted _ begun h (recount w (stopping2 0) c (omega arith))
begun-Counted w begun (view_stopping2 i) rqs e c h =
    world-Counted _ begun h (recount w (stopping2 0) c (omega arith))
begun-Counted w begun (stopping_data i) rqs e c h = cc
begun-Counted w begun syncing rqs e c h = cc
begun-Counted w begun (stopping2 i) rqs e c h = cc
begun-Counted w begun init rqs e c h =
    world-Counted _ begun h (cleared-Counted w (stopping2 0) false c (omega arith))
begun-Counted w begun syncing_state rqs e c h =
    world-Counted _ begun h (cleared-Counted w (stopping2 0) false c (omega arith))

-- A view change that a joining node begins.
begun_quorum-Counted :
    (w begun : World) (phase : ProtoPhase) (node : ℕ)
    → w.synchronizer.phase ≡ phase
    → Counted w.synchronizer
    → begin_quorum_phase w phase (some node) ≡ some begun
    → Counted begun.synchronizer
begun_quorum-Counted w begun (view_stopping i) node e c h =
    world-Counted _ begun h (recount w (view_stopping2 i) c tt)
begun_quorum-Counted w begun (stopping_data i) node e c h = cc
begun_quorum-Counted w begun syncing node e c h = cc
begun_quorum-Counted w begun (view_stopping2 i) node e c h = cc
begun_quorum-Counted w begun init node e c h =
    world-Counted _ begun h (cleared-Counted w (view_stopping2 0) _ c tt)
begun_quorum-Counted w begun (stopping i) node e c h =
    world-Counted _ begun h (cleared-Counted w (view_stopping2 0) _ c tt)
begun_quorum-Counted w begun (stopping2 i) node e c h =
    world-Counted _ begun h (cleared-Counted w (view_stopping2 0) _ c tt)
begun_quorum-Counted w begun syncing_state node e c h =
    world-Counted _ begun h (cleared-Counted w (view_stopping2 0) _ c tt)

send_stop-synchronizer :
    (a : Atlas) (w : World) (accessory : SynchronizerAccessory) (rqs : Option (List Request))
    → (send_stop a w accessory rqs).synchronizer ≡ w.synchronizer
unfolding handle_begin_view_change
send_stop-synchronizer a w follower rqs = refl
send_stop-synchronizer a w replica rqs = refl

send_join-synchronizer :
    (a : Atlas) (w : World) (accessory : SynchronizerAccessory) (join_cert : Option ℕ)
    → (send_join a w accessory join_cert).synchronizer ≡ w.synchronizer
unfolding handle_begin_quorum_view_change
send_join-synchronizer a w follower join_cert = refl
send_join-synchronizer a w replica none = refl
send_join-synchronizer a w replica (some node) = refl

pub begin_view_change-Counted :
    (a : Atlas) (w : World) (rqs : List Request)
    → Counted w.synchronizer
    → Counted (begin_view_change a w (some rqs)).synchronizer
unfolding begin_view_change
begin_view_change-Counted a w rqs c =
    elim (Option-cases (begin_phase w w.synchronizer.phase (some rqs))) [
      | inl returns ↦ rw (returns, begin_view_change) c
      | inr (begun, e) ↦
          rw (e, begin_view_change)
            (subst Counted
              (sym (send_stop-synchronizer a begun w.synchronizer.accessory (some rqs)))
              (begun-Counted w begun w.synchronizer.phase rqs refl c e))
    ]

begin_quorum_view_change-Counted :
    (a : Atlas) (w : World) (node : ℕ)
    → Counted w.synchronizer
    → Counted (begin_quorum_view_change a w (some node)).synchronizer
unfolding begin_quorum_view_change
begin_quorum_view_change-Counted a w node c =
    elim (Option-cases (begin_quorum_phase w w.synchronizer.phase (some node))) [
      | inl returns ↦ rw (returns, begin_quorum_view_change) c
      | inr (begun, e) ↦
          rw (e, begin_quorum_view_change)
            (subst Counted
              (sym (send_join-synchronizer a begun w.synchronizer.accessory (some node)))
              (begun_quorum-Counted w begun w.synchronizer.phase node refl c e))
    ]

pub start_join_quorum-Counted :
    (a : Atlas) (w w' : World) (node : ℕ) (r : SyncReconfigurationResult)
    → Counted w.synchronizer
    → start_join_quorum a w node ≡ some (w', r)
    → Counted w'.synchronizer
unfolding start_join_quorum
start_join_quorum-Counted a w w' node r c h =
    ground (arith, begin_quorum_view_change-Counted a w node)
