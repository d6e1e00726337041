-- ===== src/ViewChange/Runs/Stops.antt =====
-- The counts of the synchronizer of febft-pbft-consensus/src/bft/sync/mod.rs while `STOP`s come in.
use febft.Base.{
  ◌≤◌, ℕ, suc, ◌≡◌, refl, inl, inr, Bool, true, false, not, some, List, ◌==◌, leb, length,
  Bool-cases, arith,
}
use native.Mathlib.Numerals.{add-one}
use febft.Atlas.{Atlas}
use febft.Message.{Request}
use febft.View
use febft.View.{ViewInfo, leader, next_view_with_new_node}
use febft.ViewChange.Messages.{
  ViewChangeMessageKind, stop, stop_quorum_join, stop_data, sync, StoredMessage,
}
use febft.ViewChange.Queue.{ViewTbo}
use febft.ViewChange.Layers.{Layers, has_key}
use febft.ViewChange.Replica.{handle_begin_view_change}
use febft.ViewChange.Begin.{begin_view_change}
use febft.ViewChange.Stopping.{
  process_stopping, count_first_stop, count_stop, accept_stop, store_stop,
}
use febft.ViewChange.Runs.{Counted}
use febft.ViewChange.Synchronizer.{
  ProtoPhase, stopping, stopping2, SynchronizerStatus, running, World, unwrapped,
}
use febft.ViewChange.Runs.Kept.{
  result-Counted, Right, Distinct-insert, length-insert, same_counts, hold_stop_data-Counted,
  >>=-eq-some,
}
use febft.ViewChange.Runs.Left.{leave_view-Counted}

module _ (a : Atlas) (size_bytes : ℕ) (view_tbo : ViewTbo) (layers : Layers) where
  -- The first `STOP`s, after one of them has been stored.
  count_first_stop-Counted :
      (w : World) (i : ℕ) (current_view : ViewInfo)
      → Counted (record w.synchronizer { phase = stopping (suc i) })
      → w.synchronizer.phase ≡ stopping i
      → Right (count_first_stop a size_bytes view_tbo w current_view (suc i))
  unfolding count_first_stop begin_view_change handle_begin_view_change
  count_first_stop-Counted w i current_view c e = ground arith

  count_stop-Counted :
      (w w' : World) (i : ℕ) (current_view : ViewInfo) (st : SynchronizerStatus)
      → Counted (record w.synchronizer { phase = stopping2 i })
      → count_stop a size_bytes view_tbo layers w current_view i ≡ some (w', st)
      → Counted w'.synchronizer
  unfolding count_stop
  count_stop-Counted w w' i current_view st c h =
      elim (Bool-cases (leb current_view.params.quorum i)) [
        | inl enough ↦
            let (next, _, left) =
              >>=-eq-some (unwrapped (View.next_view a size_bytes current_view)) _
                (rw (enough, count_stop) at h) in
            leave_view-Counted a size_bytes view_tbo layers w w' current_view next st c.collectors
              c.voters c.is_replica left
        | inr few ↦ result-Counted _ w' running st (rw (few, count_stop) at h) c
      ]

  abbrev phase_of : Bool → ℕ → ProtoPhase
  phase_of true i = stopping i
  phase_of false i = stopping2 i

  store_stop-Counted :
      (w : World) (first : Bool) (i from : ℕ) (rqs : List Request)
      → Counted w.synchronizer
      → i ≤ length w.synchronizer.stopped
      → has_key w.synchronizer.stopped from ≡ false
      → Counted (record (store_stop a size_bytes view_tbo w from rqs).synchronizer {
        phase = phase_of first (suc i);
      })
  store_stop-Counted w true i from rqs c l h = record {
    counted = omega (arith, length-insert from rqs w.synchronizer.stopped h, l);
    stoppers = Distinct-insert from rqs w.synchronizer.stopped c.stoppers;
    collectors = c.collectors;
    voters = c.voters;
    is_replica = c.is_replica;
  }
  store_stop-Counted w false i from rqs c l h = record {
    counted = omega (arith, length-insert from rqs w.synchronizer.stopped h, l);
    stoppers = Distinct-insert from rqs w.synchronizer.stopped c.stoppers;
    collectors = c.collectors;
    voters = c.voters;
    is_replica = c.is_replica;
  }

  accept_stop-Counted :
      (w w' : World) (first : Bool) (i from : ℕ) (rqs : List Request) (st : SynchronizerStatus)
      → Counted w.synchronizer
      → i ≤ length w.synchronizer.stopped
      → w.synchronizer.phase ≡ phase_of first i
      → has_key w.synchronizer.stopped from ≡ false
      → accept_stop a size_bytes view_tbo layers w first (suc i) from rqs ≡ some (w', st)
      → Counted w'.synchronizer
  accept_stop-Counted w w' true i from rqs st c l e h k =
      let stored = store_stop a size_bytes view_tbo w from rqs in
      let (x, u) = count_first_stop a size_bytes view_tbo stored w.synchronizer.tbo.view (suc i) in
      result-Counted x w' u st k (
        count_first_stop-Counted stored i w.synchronizer.tbo.view
          (store_stop-Counted w true i from rqs c l h) e)
  accept_stop-Counted w w' false i from rqs st c l e h k =
      count_stop-Counted (store_stop a size_bytes view_tbo w from rqs) w' (suc i)
        w.synchronizer.tbo.view st (store_stop-Counted w false i from rqs c l h) k

  pub process_stopping-Counted :
      (w w' : World) (first : Bool) (i view : ℕ) (kind : ViewChangeMessageKind) (m : StoredMessage)
      (st : SynchronizerStatus)
      → Counted w.synchronizer
      → i ≤ length w.synchronizer.stopped
      → w.synchronizer.phase ≡ phase_of first i
      → process_stopping a size_bytes view_tbo layers w first i view kind m ≡ some (w', st)
      → Counted w'.synchronizer
  unfolding process_stopping
  process_stopping-Counted w w' first i view (stop rqs) m st c l e h =
      elim (Bool-cases (not (view == a.next w.synchronizer.tbo.view.seq))) [
        | inl other ↦
            result-Counted _ w' _ st (rw (other, process_stopping) at h)
              (same_counts w.synchronizer _ c refl refl refl refl refl)
        | inr ours ↦ elim (Bool-cases (has_key w.synchronizer.stopped m.header.from)) [
          | inl twice ↦ result-Counted w w' _ st (rw (ours, twice, process_stopping) at h) c
          | inr once ↦
              accept_stop-Counted w w' first i m.header.from rqs st c l e once
                (rw (ours, once, process_stopping, add-one) at h)
        ]
      ]
  process_stopping-Counted w w' first i view (stop_quorum_join node) m st c l e h =
      elim (Bool-cases (not (view == a.next w.synchronizer.tbo.view.seq))) [
        | inl other ↦
            result-Counted _ w' _ st (rw (other, process_stopping) at h)
              (same_counts w.synchronizer _ c refl refl refl refl refl)
        | inr ours ↦ result-Counted w w' _ st (rw (ours, process_stopping) at h) c
      ]
  process_stopping-Counted w w' first i view (stop_data collect) m st c l e h =
      result-Counted _ w' _ st h
        (hold_stop_data-Counted a size_bytes view_tbo w w.synchronizer.accessory m c)
  process_stopping-Counted w w' first i view (sync proposed collects) m st c l e h =
      result-Counted _ w' _ st h (same_counts w.synchronizer _ c refl refl refl refl refl)
