-- ===== src/ViewChange/Runs/Invariant.antt =====
-- The counts of the synchronizer of febft-pbft-consensus/src/bft/sync/mod.rs after any calls.
use febft.Base.{ℕ, ◌≡◌, refl, true, false, none, some, List, [], ◌∷◌}
use febft.Atlas.{Atlas}
use febft.Consensus.TboQueue.{Tbo}
use febft.ViewChange.Messages.{PbftMessage, view_change, ViewChangeMessageKind, StoredMessage}
use febft.ViewChange.Queue
use febft.ViewChange.Queue.{ViewTbo, queue_stop, queue_stop_data, queue_sync}
use febft.ViewChange.Collects.{Signatures}
use febft.ViewChange.Layers.{Layers}
use febft.ViewChange.Begin.{start_join_quorum, attempt_join_quorum}
use febft.ViewChange.Stopping.{process_init}
use febft.ViewChange.Finalize.{resume_view_change}
use febft.ViewChange.Process.{process_message, process_phase}
use febft.ViewChange.Poll.{poll, received_view_from_state_transfer}
use febft.ViewChange.Runs.{Counted, Event, step, run, after_poll}
use febft.ViewChange.Synchronizer.{
  ProtoPhase, init, stopping, stopping2, view_stopping, view_stopping2, stopping_data, syncing,
  syncing_state, Synchronizer, SynchronizerStatus, SynchronizerPollStatus, recv, next_message,
  World,
}
use febft.ViewChange.Runs.Kept.{
  >>=-eq-some, counted_at, pair-Counted, same_counts, process_init-Right,
}
use febft.ViewChange.Runs.Begun.{
  begin_view_change-Counted, start_join_quorum-Counted, world-Counted,
}
use febft.ViewChange.Runs.Ends.{resume_view_change-Counted}
use febft.ViewChange.Runs.Stops.{process_stopping-Counted}
use febft.ViewChange.Runs.Votes.{process_view_stopping-Counted}
use febft.ViewChange.Runs.Collecting.{process_stopping_data-Counted, process_syncing-Counted}
use febft.ViewChange.Runs.Resumed.{received_view-Counted, attempt_join_quorum-Counted}
use febft.ViewChange.Runs.Polled.{Polled, poll-Polled}

module _ (a : Atlas) (size_bytes : ℕ) (sig : Signatures) (tbo : Tbo) (view_tbo : ViewTbo) where
  process_phase-Counted :
      (layers : Layers) (w w' : World) (phase : ProtoPhase) (view : ℕ)
      (kind : ViewChangeMessageKind) (m : StoredMessage) (st : SynchronizerStatus)
      → Counted w.synchronizer
      → w.synchronizer.phase ≡ phase
      → process_phase a size_bytes sig tbo view_tbo layers w phase view kind m ≡ some (w', st)
      → Counted w'.synchronizer
  process_phase-Counted layers w w' init view kind m st c e h =
      pair-Counted (process_init a size_bytes view_tbo w kind m) w' st h
        (process_init-Right a size_bytes view_tbo w kind m c)
  process_phase-Counted layers w w' (stopping i) view kind m st c e h =
      process_stopping-Counted a size_bytes view_tbo layers w w' true i view kind m st c
        (counted_at w.synchronizer (stopping i) c e) e h
  process_phase-Counted layers w w' (stopping2 i) view kind m st c e h =
      process_stopping-Counted a size_bytes view_tbo layers w w' false i view kind m st c
        (counted_at w.synchronizer (stopping2 i) c e) e h
  process_phase-Counted layers w w' (view_stopping i) view kind m st c e h =
      process_view_stopping-Counted a size_bytes view_tbo layers w w' i view kind m st c h
  process_phase-Counted layers w w' (view_stopping2 i) view kind m st c e h =
      process_view_stopping-Counted a size_bytes view_tbo layers w w' i view kind m st c h
  process_phase-Counted layers w w' (stopping_data i) view kind m st c e h =
      process_stopping_data-Counted a size_bytes sig tbo view_tbo layers w w'
        w.synchronizer.accessory i view kind m st c e h
  process_phase-Counted layers w w' syncing view kind m st c e h =
      process_syncing-Counted a size_bytes sig tbo view_tbo layers w w' view kind m st c h
  process_phase-Counted layers w w' syncing_state view kind m st c e h = cc

  process_kind-Counted :
      (layers : Layers) (w w' : World) (m : StoredMessage) (message : PbftMessage)
      (st : SynchronizerStatus)
      → m.message ≡ message
      → Counted w.synchronizer
      → process_message a size_bytes sig tbo view_tbo layers w m ≡ some (w', st)
      → Counted w'.synchronizer
  unfolding process_message
  process_kind-Counted layers w w' m (PbftMessage.consensus x) st e c h =
      let stuck : none ≡ some (w', st) = rw (e, process_message) at h in cc
  process_kind-Counted layers w w' m (PbftMessage.observer_message x) st e c h =
      let stuck : none ≡ some (w', st) = rw (e, process_message) at h in cc
  process_kind-Counted layers w w' m (view_change view kind) st e c h =
      process_phase-Counted layers w w' w.synchronizer.phase view kind m st c refl
        (rw (e, process_message) at h)

  -- A message of any phase keeps the counts.
  pub process_message-Counted :
      (layers : Layers) (w w' : World) (m : StoredMessage) (st : SynchronizerStatus)
      → Counted w.synchronizer
      → process_message a size_bytes sig tbo view_tbo layers w m ≡ some (w', st)
      → Counted w'.synchronizer
  process_message-Counted layers w w' m st c h =
      process_kind-Counted layers w w' m m.message st refl c h

  after_poll-Counted :
      (layers : Layers) (w w' : World) (s : Synchronizer) (status : SynchronizerPollStatus)
      → Polled (s, status)
      → after_poll a size_bytes sig tbo view_tbo layers (record w { synchronizer = s }) status
        ≡ some w'
      → Counted w'.synchronizer
  after_poll-Counted layers w w' s recv c h = world-Counted _ w' h c
  after_poll-Counted layers w w' s (next_message m) c h = world-Counted _ w' h c
  after_poll-Counted layers w w' s SynchronizerPollStatus.resume_view_change c h =
      let ((after, st), resumes, last) =
        >>=-eq-some
          (resume_view_change a tbo view_tbo layers.nonces (record w { synchronizer = s })) _ h in
      world-Counted after w' last (
        resume_view_change-Counted a tbo view_tbo layers.nonces (record w { synchronizer = s })
          after st c resumes)

  step-Counted :
      (w w' : World) (e : Event)
      → Counted w.synchronizer
      → step a size_bytes sig tbo view_tbo w e ≡ some w'
      → Counted w'.synchronizer
  unfolding step
  step-Counted w w' (Event.receive layers m) c h =
      let ((after, st), e, last) =
        >>=-eq-some (process_message a size_bytes sig tbo view_tbo layers w m) _ h in
      world-Counted after w' last (process_message-Counted layers w after m st c e)
  step-Counted w w' (Event.enqueue m) c h =
      let (q, e, last) = >>=-eq-some (Queue.queue a view_tbo w.synchronizer.tbo m) _ h in
      world-Counted _ w' last (same_counts w.synchronizer _ c refl refl refl refl refl)
  step-Counted w w' Event.signalled c h =
      world-Counted _ w' h (same_counts w.synchronizer _ c refl refl refl refl refl)
  step-Counted w w' (Event.polled layers) c h =
      let ((s, status), e, last) = >>=-eq-some (poll view_tbo w.synchronizer) _ h in
      after_poll-Counted layers w w' s status (poll-Polled view_tbo w.synchronizer (s, status) c e)
        last
  step-Counted w w' (Event.time_out rqs) c h =
      world-Counted _ w' h (begin_view_change-Counted a w rqs c)
  step-Counted w w' (Event.join_quorum node) c h =
      let ((after, r), e, last) = >>=-eq-some (start_join_quorum a w node) _ h in
      world-Counted after w' last (start_join_quorum-Counted a w after node r c e)
  step-Counted w w' (Event.state_transferred view) c h =
      let ((s, goes_on), e, last) =
        >>=-eq-some (received_view_from_state_transfer a size_bytes view_tbo w.synchronizer view) _
          h in
      world-Counted _ w' last
        (received_view-Counted a size_bytes view_tbo w.synchronizer s view goes_on c e)
  step-Counted w w' Event.attempt_join c h =
      let ((after, r), e, last) = >>=-eq-some (attempt_join_quorum a size_bytes w) _ h in
      world-Counted after w' last (attempt_join_quorum-Counted a size_bytes w after r c e)

  -- After any calls of the driver, in any order, the counts are right, if they are at the start:
  -- each `STOP` that counts is stored under a node of its own, and so is each `STOP-DATA`, no node
  -- has two votes for one node that joins, and a replica stays one.
  pub run-Counted :
      (w w' : World) (es : List Event)
      → Counted w.synchronizer
      → run a size_bytes sig tbo view_tbo w es ≡ some w'
      → Counted w'.synchronizer
  unfolding run
  run-Counted w w' [] c h = world-Counted w w' h c
  run-Counted w w' (e ∷ es) c h =
      let (v, steps, rest) = >>=-eq-some (step a size_bytes sig tbo view_tbo w e) _ h in
      run-Counted v w' es (step-Counted w v e c steps) rest
