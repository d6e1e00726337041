-- ===== src/ViewChange/Runs/Votes.antt =====
-- The counts of the synchronizer of febft-pbft-consensus/src/bft/sync/mod.rs while votes to let a
-- node join come in.
use febft.Base.{arith, ℕ, ◌+◌, ◌≡◌, refl, inl, inr, not, Option, none, some, ◌==◌, leb, Bool-cases}
use febft.Atlas.{Atlas}
use febft.View.{ViewInfo, next_view_with_new_node}
use febft.ViewChange.Messages.{
  ViewChangeMessageKind, stop, stop_quorum_join, stop_data, sync, StoredMessage,
}
use febft.ViewChange.Queue.{ViewTbo}
use febft.ViewChange.Layers.{Layers, hold_stop}
use febft.ViewChange.Stopping.{
  process_view_stopping, elect_node, count_join_vote, most_voted, store_vote,
}
use febft.ViewChange.Runs.{Counted}
use febft.ViewChange.Synchronizer.{
  stopping, view_stopping2, SynchronizerStatus, running, World, unwrapped, with_phase,
}
use febft.ViewChange.Runs.Kept.{
  result-Counted, add_vote-Voters, same_counts, hold_stop_data-Counted, >>=-eq-some,
}
use febft.ViewChange.Runs.Left.{leave_view-Counted}

module _ (a : Atlas) (size_bytes : ℕ) (view_tbo : ViewTbo) (layers : Layers) where
  elect_node-Counted :
      (w w' : World) (current_view : ViewInfo) (received node : ℕ) (winner : Option (ℕ × ℕ))
      (st : SynchronizerStatus)
      → Counted w.synchronizer
      → elect_node a size_bytes view_tbo layers w current_view received node winner ≡ some (w', st)
      → Counted w'.synchronizer
  unfolding elect_node
  elect_node-Counted w w' current_view received node none st c h =
      result-Counted w w' running st h c
  elect_node-Counted w w' current_view received node (some (best, count)) st c h =
      elim (Bool-cases (leb current_view.params.quorum count)) [
        | inl enough ↦
            let (next, _, left) =
              >>=-eq-some (unwrapped (next_view_with_new_node a size_bytes current_view best)) _
                (rw (enough, elect_node) at h) in
            leave_view-Counted a size_bytes view_tbo layers
              (record w {
                synchronizer = record w.synchronizer { currently_adding_node = some node };
              })
              w' current_view next st c.collectors c.voters c.is_replica left
        | inr few ↦ elim (Bool-cases (leb current_view.params.n received)) [
          | inl full ↦ let none_some : none ≡ some (w', st) = rw (few, full, elect_node) at h in cc
          | inr waiting ↦ result-Counted w w' running st (rw (few, waiting, elect_node) at h) c
        ]
      ]

  -- A vote for a node that joins.
  count_join_vote-Counted :
      (w w' : World) (current_view : ViewInfo) (received node voter : ℕ) (st : SynchronizerStatus)
      → Counted w.synchronizer
      → count_join_vote a size_bytes view_tbo layers w current_view received node voter
        ≡ some (w', st)
      → Counted w'.synchronizer
  unfolding count_join_vote
  count_join_vote-Counted w w' current_view received node voter st c h =
      let voted = store_vote a size_bytes view_tbo w node voter received in
      let right : Counted voted.synchronizer = record {
        counted = tt;
        stoppers = c.stoppers;
        collectors = c.collectors;
        voters = add_vote-Voters w.synchronizer.currently_adding node voter c.voters;
        is_replica = c.is_replica;
      } in
      elim (Bool-cases (leb current_view.params.quorum received)) [
        | inl enough ↦
            elect_node-Counted voted w' current_view received node
              (most_voted voted.synchronizer.currently_adding) st right
              (rw (enough, count_join_vote) at h)
        | inr few ↦
            result-Counted (with_phase voted (view_stopping2 received)) w' running st
              (rw (few, count_join_vote) at h)
              (record {
                counted = tt;
                stoppers = right.stoppers;
                collectors = right.collectors;
                voters = right.voters;
                is_replica = right.is_replica;
              })
      ]

  pub process_view_stopping-Counted :
      (w w' : World) (received view : ℕ) (kind : ViewChangeMessageKind) (m : StoredMessage)
      (st : SynchronizerStatus)
      → Counted w.synchronizer
      → process_view_stopping a size_bytes view_tbo layers w received view kind m ≡ some (w', st)
      → Counted w'.synchronizer
  unfolding process_view_stopping
  process_view_stopping-Counted w w' received view (stop rqs) m st c h =
      elim (Bool-cases (not (view == a.next w.synchronizer.tbo.view.seq))) [
        | inl other ↦
            result-Counted _ w' _ st (rw (other, process_view_stopping) at h)
              (same_counts w.synchronizer _ c refl refl refl refl refl)
        | inr ours ↦
            result-Counted (with_phase (hold_stop a view_tbo w m) (stopping 0)) w' running st
              (rw (ours, process_view_stopping) at h)
              (record {
                counted = omega arith;
                stoppers = c.stoppers;
                collectors = c.collectors;
                voters = c.voters;
                is_replica = c.is_replica;
              })
      ]
  process_view_stopping-Counted w w' received view (stop_quorum_join node) m st c h =
      elim (Bool-cases (not (view == a.next w.synchronizer.tbo.view.seq))) [
        | inl other ↦
            result-Counted _ w' _ st (rw (other, process_view_stopping) at h)
              (same_counts w.synchronizer _ c refl refl refl refl refl)
        | inr ours ↦
            count_join_vote-Counted w w' w.synchronizer.tbo.view (received + 1) node m.header.from
              st c (rw (ours, process_view_stopping) at h)
      ]
  process_view_stopping-Counted w w' received view (stop_data collect) m st c h =
      result-Counted _ w' _ st h
        (hold_stop_data-Counted a size_bytes view_tbo w w.synchronizer.accessory m c)
  process_view_stopping-Counted w w' received view (sync proposed collects) m st c h =
      result-Counted _ w' _ st h (same_counts w.synchronizer _ c refl refl refl refl refl)
