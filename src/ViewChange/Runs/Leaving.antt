-- ===== src/ViewChange/Runs/Leaving.antt =====
-- When a replica of febft-pbft-consensus/src/bft/sync/mod.rs leaves its view.
use febft.Base.{
  ok, subst, ℕ, suc, ◌≤◌, ◌≡◌, refl, sym, ◌∙◌, ◌⊎◌, inl, inr, false, not, Option, some, List, ◌==◌,
  leb, length, contains, Distinct, not-==_false, Bool-cases, arith,
}
use native.Mathlib.Numerals.{add-one}
use febft.Atlas.{Atlas}
use febft.Message.{Request}
use febft.View
use febft.View.{ViewInfo, leader}
use febft.Sync.{SynchronizerAccessory, follower, replica}
use febft.Consensus.TboQueue.{Tbo}
use febft.ViewChange.Messages.{
  view_change, Header, ViewChangeMessageKind, stop, stop_quorum_join, stop_data, sync,
  StoredMessage,
}
use febft.ViewChange.Queue.{ViewTbo}
use febft.ViewChange.Collects.{Signatures}
use febft.ViewChange.Layers.{Layers, has_key, hold_stop, hold_sync, hold_stop_data}
use febft.ViewChange.Stopping.{process_stopping, count_stop, store_stop}
use febft.ViewChange.Process.{process_message, process_phase}
use febft.ViewChange.Runs.{Counted, keys, Event, run}
use febft.ViewChange.Synchronizer.{stopping2, SynchronizerStatus, running, World, unwrapped}
use febft.ViewChange.Runs.Kept.{>>=-eq-some, at_result, counted_at, unwrapped-ok, has_key-contains}
use febft.ViewChange.Runs.Left.{leave_view-next}
use febft.ViewChange.Runs.Invariant.{run-Counted}

-- It waits for more `STOP`s, or it leaves for the next view: the message is a `STOP` for that view of
-- a node that has none stored, with which the stored ones make a quorum.
abbrev pub StopQuorum : Atlas → ℕ → World → World → ℕ → ℕ → ViewChangeMessageKind → Type 0
StopQuorum a size_bytes w w' view from kind =
    ((j : ℕ) × (w'.synchronizer.phase ≡ stopping2 j))
    ⊎ ((next : ViewInfo) × (rqs : List Request) × (kind ≡ stop rqs)
        × (w.synchronizer.tbo.view.params.quorum ≤ suc (length w.synchronizer.stopped))
        × (contains (keys w.synchronizer.stopped) from ≡ false)
        × (view ≡ a.next w.synchronizer.tbo.view.seq)
        × (View.next_view a size_bytes w.synchronizer.tbo.view ≡ ok next)
        × (w'.synchronizer.tbo.next_view ≡ some next))

module _ (a : Atlas) (size_bytes : ℕ) (view_tbo : ViewTbo) (layers : Layers) where
  waits :
      (w x w' : World) (view from j : ℕ) {kind : ViewChangeMessageKind} (u st : SynchronizerStatus)
      → x.synchronizer.phase ≡ stopping2 j
      → ◌≡◌ {A = Option (World × SynchronizerStatus)} (some (x, u)) (some (w', st))
      → StopQuorum a size_bytes w w' view from kind
  waits w x w' view from j u st e h =
      inl (j, at_result (λ y. y.synchronizer.phase ≡ stopping2 j) x w' u st h e)

  counted_stop-StopQuorum :
      (w w' : World) (i view from : ℕ) (rqs : List Request) (st : SynchronizerStatus)
      → w.synchronizer.accessory ≡ replica
      → i ≤ length w.synchronizer.stopped
      → has_key w.synchronizer.stopped from ≡ false
      → view ≡ a.next w.synchronizer.tbo.view.seq
      → count_stop a size_bytes view_tbo layers
          (store_stop a size_bytes view_tbo w from rqs)
          w.synchronizer.tbo.view
          (suc i)
        ≡ some (w', st)
      → StopQuorum a size_bytes w w' view from (stop rqs)
  unfolding count_stop
  counted_stop-StopQuorum w w' i view from rqs st r l once same h =
      elim (Bool-cases (leb w.synchronizer.tbo.view.params.quorum (suc i))) [
        | inr few ↦ waits w _ w' view from (suc i) running st refl (rw (few, count_stop) at h)
        | inl enough ↦
            let (next, e, left) =
              >>=-eq-some (unwrapped (View.next_view a size_bytes w.synchronizer.tbo.view)) _
                (rw (enough, count_stop) at h) in
            inr (
              next,
              rqs,
              refl,
              ground arith,
              sym (has_key-contains w.synchronizer.stopped from) ∙ once,
              same,
              unwrapped-ok (View.next_view a size_bytes w.synchronizer.tbo.view) e,
              (leave_view-next a size_bytes view_tbo layers
                  (store_stop a size_bytes view_tbo w from rqs) w' w.synchronizer.tbo.view next st r
                  left).0,
            )
      ]

  process_stopping-StopQuorum :
      (w w' : World) (i view : ℕ) (kind : ViewChangeMessageKind) (m : StoredMessage)
      (st : SynchronizerStatus)
      → w.synchronizer.accessory ≡ replica
      → w.synchronizer.phase ≡ stopping2 i
      → i ≤ length w.synchronizer.stopped
      → process_stopping a size_bytes view_tbo layers w false i view kind m ≡ some (w', st)
      → StopQuorum a size_bytes w w' view m.header.from kind
  unfolding process_stopping
  process_stopping-StopQuorum w w' i view (stop rqs) m st r e l h =
      elim (Bool-cases (not (view == a.next w.synchronizer.tbo.view.seq))) [
        | inl other ↦
            waits w (hold_stop a view_tbo w m) w' view m.header.from i _ st e
              (rw (other, process_stopping) at h)
        | inr ours ↦ elim (Bool-cases (has_key w.synchronizer.stopped m.header.from)) [
          | inl twice ↦
              waits w w w' view m.header.from i _ st e (rw (ours, twice, process_stopping) at h)
          | inr once ↦
              counted_stop-StopQuorum w w' i view m.header.from rqs st r l once
                (not-==_false view (a.next w.synchronizer.tbo.view.seq) ours)
                (rw (ours, once, process_stopping, add-one) at h)
        ]
      ]
  process_stopping-StopQuorum w w' i view (stop_quorum_join node) m st r e l h =
      elim (Bool-cases (not (view == a.next w.synchronizer.tbo.view.seq))) [
        | inl other ↦
            waits w (hold_stop a view_tbo w m) w' view m.header.from i _ st e
              (rw (other, process_stopping) at h)
        | inr ours ↦ waits w w w' view m.header.from i _ st e (rw (ours, process_stopping) at h)
      ]
  process_stopping-StopQuorum w w' i view (stop_data collect) m st r e l h =
      waits w (hold_stop_data a view_tbo w w.synchronizer.accessory m) w' view m.header.from i _ st
        (held w.synchronizer.accessory) h
    where
      held :
          (accessory : SynchronizerAccessory)
          → (hold_stop_data a view_tbo w accessory m).synchronizer.phase ≡ stopping2 i
      held follower = e
      held replica = e
  process_stopping-StopQuorum w w' i view (sync proposed collects) m st r e l h =
      waits w (hold_sync a view_tbo w m) w' view m.header.from i _ st e h

module _ (a : Atlas) (size_bytes : ℕ) (sig : Signatures) (tbo : Tbo) (view_tbo : ViewTbo) where
  -- A replica that has sent its own `STOP`, after any calls of its driver from a state whose
  -- counts are right, leaves its view only on a `STOP` for the next view, of a node that has none
  -- stored, with which the `STOP`s that are stored, each of another node, make a quorum, and it
  -- leaves it for the next view; on any other message it goes on waiting.
  pub stop_quorum :
      (layers : Layers) (start w w' : World) (es : List Event) (view i : ℕ)
      (kind : ViewChangeMessageKind) (header : Header) (st : SynchronizerStatus)
      → Counted start.synchronizer
      → run a size_bytes sig tbo view_tbo start es ≡ some w
      → w.synchronizer.phase ≡ stopping2 i
      → process_message a size_bytes sig tbo view_tbo layers w
          (record { header = header; message = view_change view kind })
        ≡ some (w', st)
      → Distinct (keys w.synchronizer.stopped) × StopQuorum a size_bytes w w' view header.from kind
  unfolding process_message
  stop_quorum layers start w w' es view i kind header st c runs e h =
      let m : StoredMessage = record { header = header; message = view_change view kind } in
      let counts = run-Counted a size_bytes sig tbo view_tbo start w es c runs in
      (
        counts.stoppers,
        process_stopping-StopQuorum a size_bytes view_tbo layers w w' i view kind m st
            counts.is_replica e (counted_at w.synchronizer (stopping2 i) counts e)
            (subst
              (λ phase.
                process_phase a size_bytes sig tbo view_tbo layers w phase view kind m
                ≡ some (w', st))
              e h),
      )
