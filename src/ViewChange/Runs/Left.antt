-- ===== src/ViewChange/Runs/Left.antt =====
-- What the synchronizer of febft-pbft-consensus/src/bft/sync/mod.rs is left with where it leaves a view.
use febft.Base.{
  ℕ, ◌≡◌, refl, ap, ◌⊎◌, inl, inr, Bool, true, false, some, [], ◌==◌, if◌then◌else◌, Distinct,
  if-cases, arith,
}
use febft.Atlas.{Atlas}
use febft.View.{ViewInfo, leader}
use febft.Sync.{SynchronizerAccessory, follower, replica}
use febft.ViewChange.Queue.{ViewTbo, install_next_view}
use febft.ViewChange.Layers.{Layers}
use febft.ViewChange.Replica.{handle_stopping_quorum}
use febft.ViewChange.Stopping.{leave_view, after_stops}
use febft.ViewChange.Runs.{Counted, keys}
use febft.ViewChange.Synchronizer.{
  stopping_data, syncing, Synchronizer, SynchronizerStatus, running, World, unwrapped, with_phase,
  with_tbo,
}
use febft.ViewChange.Runs.Kept.{at_result, result-Counted, Voters, >>=-eq-some}

module _ (a : Atlas) (size_bytes : ℕ) (view_tbo : ViewTbo) (layers : Layers) where
  handle_stopping_quorum-drains :
      (w w' : World) (previous_view : ViewInfo)
      → handle_stopping_quorum layers.accepts w previous_view ≡ some (w', tt)
      → w'.synchronizer ≡ record w.synchronizer { stopped = [] }
  unfolding handle_stopping_quorum
  handle_stopping_quorum-drains w w' previous_view h = ground arith

  after_stops-drains :
      (w w' : World) (accessory : SynchronizerAccessory) (previous_view : ViewInfo)
      → accessory ≡ replica
      → after_stops a size_bytes view_tbo layers w accessory previous_view ≡ some (w', tt)
      → w'.synchronizer ≡ record w.synchronizer { stopped = [] }
  after_stops-drains w w' follower previous_view e h = cc
  after_stops-drains w w' replica previous_view e h =
      handle_stopping_quorum-drains w w' previous_view h

  -- Where a view is left, with what was stopped in it dropped.
  left-Counted :
      (s : Synchronizer) (b : Bool) (w : World)
      → w.synchronizer ≡ record s { stopped = [] }
      → Distinct (keys s.collects)
      → Voters s.currently_adding
      → s.accessory ≡ replica
      → Counted (with_phase w (if b then stopping_data 0 else syncing)).synchronizer
  left-Counted s true w e d v r =
      rw e (record {
        counted = omega arith;
        stoppers = tt;
        collectors = d;
        voters = v;
        is_replica = r;
      })
  left-Counted s false w e d v r =
      rw e (record { counted = tt; stoppers = tt; collectors = d; voters = v; is_replica = r })

  pub leave_view-Counted :
      (w w' : World) (current_view next_view : ViewInfo) (st : SynchronizerStatus)
      → Distinct (keys w.synchronizer.collects)
      → Voters w.synchronizer.currently_adding
      → w.synchronizer.accessory ≡ replica
      → leave_view a size_bytes view_tbo layers w current_view next_view ≡ some (w', st)
      → Counted w'.synchronizer
  unfolding leave_view
  leave_view-Counted w w' current_view next_view st d v r h =
      let (l, _, after_leader) = >>=-eq-some (unwrapped (leader next_view)) _ h in
      let before = with_tbo w (install_next_view w.synchronizer.tbo next_view) in
      let ((after, _), stops, last) =
        >>=-eq-some
          (after_stops a size_bytes view_tbo layers before w.synchronizer.accessory current_view) _
          after_leader in
      let kept =
        left-Counted before.synchronizer (l == after.synchronizer.node_id) after
          (after_stops-drains before after w.synchronizer.accessory current_view r stops) d v r in
      result-Counted _ w' running st last kept

  -- The view that is left for, the phase in which it is awaited, and the votes, which stay.
  pub leave_view-next :
      (w w' : World) (current_view next_view : ViewInfo) (st : SynchronizerStatus)
      → w.synchronizer.accessory ≡ replica
      → leave_view a size_bytes view_tbo layers w current_view next_view ≡ some (w', st)
      → (w'.synchronizer.tbo.next_view ≡ some next_view)
        × ((w'.synchronizer.phase ≡ stopping_data 0) ⊎ (w'.synchronizer.phase ≡ syncing))
        × (w'.synchronizer.currently_adding ≡ w.synchronizer.currently_adding)
  unfolding leave_view install_next_view
  leave_view-next w w' current_view next_view st r h =
      let (l, _, after_leader) = >>=-eq-some (unwrapped (leader next_view)) _ h in
      let before = with_tbo w (install_next_view w.synchronizer.tbo next_view) in
      let ((after, _), stops, last) =
        >>=-eq-some
          (after_stops a size_bytes view_tbo layers before w.synchronizer.accessory current_view) _
          after_leader in
      let drained = after_stops-drains before after w.synchronizer.accessory current_view r stops in
      at_result
        (λ x.
          (x.synchronizer.tbo.next_view ≡ some next_view)
          × ((x.synchronizer.phase ≡ stopping_data 0) ⊎ (x.synchronizer.phase ≡ syncing))
          × (x.synchronizer.currently_adding ≡ w.synchronizer.currently_adding))
        _ w' running st last
        (
          ap (λ (s : Synchronizer). s.tbo.next_view) drained,
          if-cases (λ p. (p ≡ stopping_data 0) ⊎ (p ≡ syncing)) (l == after.synchronizer.node_id)
              (λ _. inl refl) (λ _. inr refl),
          ap (λ (s : Synchronizer). s.currently_adding) drained,
        )
