-- ===== src/ViewChange/Runs/Collecting.antt =====
-- The counts of the synchronizer of febft-pbft-consensus/src/bft/sync/mod.rs while `STOP-DATA`s and
-- `SYNC`s come in.
use febft.Base.{
  ℕ, suc, ◌≡◌, refl, inl, inr, false, not, some, ◌==◌, ltb, Bool-cases, Option-cases, if-cases,
  arith,
}
use native.Mathlib.Numerals.{add-one}
use febft.Atlas.{Atlas}
use febft.View.{ViewInfo, leader, peek}
use febft.Sync.{SynchronizerAccessory, follower, replica}
use febft.Consensus.TboQueue.{Tbo}
use febft.ViewChange.Messages.{
  view_change, messages, stored, take_collects, ViewChangeMessageKind, stop, stop_quorum_join,
  stop_data, sync, StoredMessage,
}
use febft.ViewChange.Queue.{ViewTbo}
use febft.ViewChange.Collects.{Signatures, highest_proof, signed_collects}
use febft.ViewChange.Layers.{Layers, has_key}
use febft.ViewChange.Replica.{values}
use febft.ViewChange.Syncing.{
  process_stopping_data, process_stop_data, process_syncing, process_sync, count_stop_data,
  lead_sync, forged, finalize_state, number_after, next_after, without, other_stop_data,
  follow_sync, store_collect,
}
use febft.ViewChange.Runs.{Counted}
use febft.ViewChange.Synchronizer.{
  stopping_data, SynchronizerStatus, World, broadcast_signed, act, unwrapped,
}
use febft.ViewChange.Runs.Kept.{
  >>=-eq-some, result-Counted, counted_at, Distinct-insert, length-insert, same_counts,
  hold_stop_data-Counted,
}
use febft.ViewChange.Runs.Ends.{end_view_change-Counted}

module _ (a : Atlas) (size_bytes : ℕ) (sig : Signatures) (tbo : Tbo) (view_tbo : ViewTbo)
    (layers : Layers) where
  lead_sync-Counted :
      (w w' : World) (next_view : ViewInfo) (next_leader : ℕ) (st : SynchronizerStatus)
      → Counted w.synchronizer
      → lead_sync a size_bytes sig tbo view_tbo layers w next_view next_leader ≡ some (w', st)
      → Counted w'.synchronizer
  unfolding lead_sync
  lead_sync-Counted w w' next_view next_leader st c h =
      let collects = values w.synchronizer.collects in
      let (proof, _, h1) = >>=-eq-some (highest_proof sig a w.synchronizer.tbo.view collects) _ h in
      let (curr_cid, _, h2) = >>=-eq-some (number_after proof) _ h1 in
      elim (Option-cases layers.pending_rqs) [
        | inl nothing ↦ result-Counted w w' _ st (rw nothing at h2) c
        | inr (rqs, pending) ↦
            let (proposed, _, h3) =
              >>=-eq-some (forged a size_bytes sig tbo view_tbo layers w next_view next_leader rqs)
                _ (rw pending at h2) in
            let (state, _, ends) =
              >>=-eq-some
                (finalize_state a size_bytes sig tbo view_tbo layers next_view curr_cid proof
                  collects proposed)
                _ h3 in
            end_view_change-Counted a tbo view_tbo layers.nonces
              (act w (
                broadcast_signed (view_change next_view.seq (sync proposed (stored collects)))
                  (without w.synchronizer.node_id next_view.quorum_members)))
              w' state proof st c ends
      ]

  -- A `STOP-DATA` of a node that has sent none is stored.
  store_collect-Counted :
      (w : World) (i : ℕ) (m : StoredMessage)
      → Counted w.synchronizer
      → w.synchronizer.phase ≡ stopping_data i
      → has_key w.synchronizer.collects m.header.from ≡ false
      → Counted (store_collect a size_bytes sig tbo view_tbo w m).synchronizer
        × Counted (record (store_collect a size_bytes sig tbo view_tbo w m).synchronizer {
          phase = stopping_data (suc i);
        })
  store_collect-Counted w i m c e once =
      let here = counted_at w.synchronizer (stopping_data i) c e in
      let more = length-insert m.header.from m w.synchronizer.collects once in
      let distinct = Distinct-insert m.header.from m w.synchronizer.collects c.collectors in
      (
        record {
          counted = rw e (omega arith);
          stoppers = c.stoppers;
          collectors = distinct;
          voters = c.voters;
          is_replica = c.is_replica;
        },
        record {
          counted = omega arith;
          stoppers = c.stoppers;
          collectors = distinct;
          voters = c.voters;
          is_replica = c.is_replica;
        },
      )

  count_stop_data-Counted :
      (w w' : World) (next_view : ViewInfo) (next_leader i : ℕ) (m : StoredMessage)
      (st : SynchronizerStatus)
      → Counted w.synchronizer
      → w.synchronizer.phase ≡ stopping_data i
      → has_key w.synchronizer.collects m.header.from ≡ false
      → count_stop_data a size_bytes sig tbo view_tbo layers w next_view next_leader (suc i) m
        ≡ some (w', st)
      → Counted w'.synchronizer
  unfolding count_stop_data
  count_stop_data-Counted w w' next_view next_leader i m st c e once h =
      let (held, counted) = store_collect-Counted w i m c e once in
      elim (Bool-cases (ltb (suc i) next_view.params.quorum)) [
        | inl few ↦ result-Counted _ w' _ st (rw (few, count_stop_data) at h) counted
        | inr enough ↦
            lead_sync-Counted (store_collect a size_bytes sig tbo view_tbo w m) w' next_view
              next_leader st held (rw (enough, count_stop_data) at h)
      ]

  other_stop_data-Counted :
      (w w' : World) (next_view : ViewInfo) (view : ℕ) (m : StoredMessage) (st : SynchronizerStatus)
      → Counted w.synchronizer
      → other_stop_data a size_bytes sig tbo view_tbo w next_view view m ≡ some (w', st)
      → Counted w'.synchronizer
  other_stop_data-Counted w w' next_view view m st c h =
      let (peeked, _, h1) = >>=-eq-some (unwrapped (peek a size_bytes next_view view)) _ h in
      let (peeked_leader, _, h2) = >>=-eq-some (unwrapped (leader peeked)) _ h1 in
      result-Counted _ w' _ st h2 (
        if-cases (λ (x : World). Counted x.synchronizer) (peeked_leader == w.synchronizer.node_id)
          (λ ours. same_counts w.synchronizer _ c refl refl refl refl refl) (λ other. c))

  process_stop_data-Counted :
      (w w' : World) (next_view : ViewInfo) (i view : ℕ) (kind : ViewChangeMessageKind)
      (m : StoredMessage) (st : SynchronizerStatus)
      → Counted w.synchronizer
      → w.synchronizer.phase ≡ stopping_data i
      → process_stop_data a size_bytes sig tbo view_tbo layers w next_view i view kind m
        ≡ some (w', st)
      → Counted w'.synchronizer
  process_stop_data-Counted w w' next_view i view (stop rqs) m st c e h =
      result-Counted _ w' _ st h (same_counts w.synchronizer _ c refl refl refl refl refl)
  process_stop_data-Counted w w' next_view i view (stop_quorum_join node) m st c e h =
      result-Counted _ w' _ st h (same_counts w.synchronizer _ c refl refl refl refl refl)
  process_stop_data-Counted w w' next_view i view (sync proposed collects) m st c e h =
      result-Counted _ w' _ st h (same_counts w.synchronizer _ c refl refl refl refl refl)
  process_stop_data-Counted w w' next_view i view (stop_data collect) m st c e h =
      elim (Bool-cases (not (view == next_view.seq))) [
        | inl other ↦ other_stop_data-Counted w w' next_view view m st c (rw other at h)
        | inr ours ↦
            let (l, _, h1) = >>=-eq-some (unwrapped (leader next_view)) _ (rw ours at h) in
            elim (Bool-cases (not (l == w.synchronizer.node_id))) [
              | inl elsewhere ↦ result-Counted w w' _ st (rw elsewhere at h1) c
              | inr leading ↦ elim (Bool-cases (has_key w.synchronizer.collects m.header.from)) [
                | inl twice ↦ result-Counted w w' _ st (rw (leading, twice) at h1) c
                | inr once ↦
                    count_stop_data-Counted w w' next_view l i m st c e once
                      (rw (leading, once, add-one) at h1)
              ]
            ]
      ]

  pub process_stopping_data-Counted :
      (w w' : World) (accessory : SynchronizerAccessory) (i view : ℕ) (kind : ViewChangeMessageKind)
      (m : StoredMessage) (st : SynchronizerStatus)
      → Counted w.synchronizer
      → w.synchronizer.phase ≡ stopping_data i
      → process_stopping_data a size_bytes sig tbo view_tbo layers w accessory i view kind m
        ≡ some (w', st)
      → Counted w'.synchronizer
  unfolding process_stopping_data
  process_stopping_data-Counted w w' follower i view kind m st c e h = cc
  process_stopping_data-Counted w w' replica i view kind m st c e h =
      let (next_view, _, h1) = >>=-eq-some w.synchronizer.tbo.next_view _ h in
      process_stop_data-Counted w w' next_view i view kind m st c e h1

  process_sync-Counted :
      (w w' : World) (next_view : ViewInfo) (view : ℕ) (kind : ViewChangeMessageKind)
      (m : StoredMessage) (st : SynchronizerStatus)
      → Counted w.synchronizer
      → process_sync a size_bytes sig tbo view_tbo layers w next_view view kind m ≡ some (w', st)
      → Counted w'.synchronizer
  unfolding take_collects follow_sync
  process_sync-Counted w w' next_view view (stop rqs) m st c h =
      result-Counted _ w' _ st h (same_counts w.synchronizer _ c refl refl refl refl refl)
  process_sync-Counted w w' next_view view (stop_quorum_join node) m st c h =
      result-Counted _ w' _ st h (same_counts w.synchronizer _ c refl refl refl refl refl)
  process_sync-Counted w w' next_view view (stop_data collect) m st c h =
      result-Counted _ w' _ st h
        (hold_stop_data-Counted a size_bytes view_tbo w w.synchronizer.accessory m c)
  process_sync-Counted w w' next_view view (sync proposed collects) m st c h =
      elim (Bool-cases (not (view == next_view.seq))) [
        | inl other ↦
            result-Counted _ w' _ st (rw other at h)
              (same_counts w.synchronizer _ c refl refl refl refl refl)
        | inr ours ↦
            let (l, _, h1) = >>=-eq-some (unwrapped (leader next_view)) _ (rw ours at h) in
            elim (Bool-cases (not (m.header.from == l))) [
              | inl liar ↦ result-Counted w w' _ st (rw liar at h1) c
              | inr leading ↦
                  let signed = signed_collects sig (messages collects) in
                  let (proof, _, h2) =
                    >>=-eq-some (highest_proof sig a next_view signed) _ (rw leading at h1) in
                  let (state, _, ends) =
                    >>=-eq-some
                      (finalize_state a size_bytes sig tbo view_tbo layers next_view
                        (next_after a proof) proof signed proposed)
                      _ h2 in
                  end_view_change-Counted a tbo view_tbo layers.nonces w w' state proof st c ends
            ]
      ]

  pub process_syncing-Counted :
      (w w' : World) (view : ℕ) (kind : ViewChangeMessageKind) (m : StoredMessage)
      (st : SynchronizerStatus)
      → Counted w.synchronizer
      → process_syncing a size_bytes sig tbo view_tbo layers w view kind m ≡ some (w', st)
      → Counted w'.synchronizer
  unfolding process_syncing
  process_syncing-Counted w w' view kind m st c h =
      let (next_view, _, h1) = >>=-eq-some w.synchronizer.tbo.next_view _ h in
      process_sync-Counted w w' next_view view kind m st c h1
