-- ===== src/ViewChange/Syncing.antt =====
-- The phases of febft-pbft-consensus/src/bft/sync/mod.rs in which the leader of the next view collects
-- `STOP-DATA`s, and the others wait for its `SYNC`.
pub mod Repeats
use febft.Base.{
  ℕ, zero, suc, ◌+◌, ◌^◌, Bool, true, false, not, Option, none, some, List, [], ◌∷◌, ◌++◌, ◌==◌,
  if◌then◌else◌, leb, ltb, length, contains, lookup, insert,
}
use febft.Atlas.{Atlas}
use febft.Message.{Request, ConsensusMessage}
use febft.View
use febft.View.{ViewInfo, leader, next_view_with_new_node, peek}
use febft.Log.Decisions.{Proof}
use febft.Sync.{SynchronizerAccessory, follower, replica}
use febft.Consensus.Accessory.{Nonces}
use febft.Consensus.TboQueue.{Tbo}
use febft.Consensus.Instances.Install.{forge_propose}
use febft.ViewChange.Messages.{
  Header, FwdConsensusMessage, PbftMessage, view_change, ViewChangeMessageKind, stop,
  stop_quorum_join, stop_data, sync, StoredMessage, stored, take_collects,
}
use febft.ViewChange.Queue.{
  ViewTbo, TboQueue, install_next_view, queue_stop, queue_stop_data, queue_sync,
}
use febft.ViewChange.Sound.{sound}
use febft.ViewChange.Collects.{
  Signatures, collect_data, normalized_collects, highest_proof, signed_collects,
}
use febft.ViewChange.Replica.{values, handle_stopping_quorum}
use febft.ViewChange.Begin.{begin_view_change}
use febft.ViewChange.Finalize.{end_view_change}
use febft.ViewChange.Synchronizer.{
  ProtoPhase, init, stopping, stopping2, view_stopping, view_stopping2, stopping_data, syncing,
  syncing_state, Synchronizer, SynchronizerStatus, nil, running, FinalizeState, broadcast_signed,
  World, Outcome, ◌>>=◌, unwrapped, act, with_phase, with_tbo,
}
use febft.ViewChange.Layers.{Layers, has_key, hold_stop, hold_sync, hold_stop_data}

-- `SeqNo::from(u32::from(seq) + 1)`, which overflows at the last number.
abbrev pub number_after : Option Proof → Option ℕ
number_after none = some 0
number_after (some p) =
    if p.metadata.seq_no + 1 == 2 ^ 32 then none else some (p.metadata.seq_no + 1)

-- `proof.map(|p| p.sequence_number()).map(|seq| seq.next()).unwrap_or(SeqNo::ZERO)`
abbrev pub next_after : Atlas → Option Proof → ℕ
next_after a none = 0
next_after a (some p) = a.next p.metadata.seq_no

abbrev pub without : ℕ → List ℕ → List ℕ
without id [] = []
without id (x ∷ xs) = if x == id then without id xs else x ∷ without id xs

module _ (a : Atlas) (size_bytes : ℕ) (sig : Signatures) (tbo : Tbo) (view_tbo : ViewTbo) where
  -- The computation of the leader on the collects, and of the others on those it sends.
  abbrev pub finalize_state :
      Layers
      → ViewInfo
      → ℕ
      → Option Proof
      → List StoredMessage
      → FwdConsensusMessage
      → Option FinalizeState
  finalize_state layers next_view curr_cid proof collects proposed = do
    data_of ← collect_data collects
    some (record {
      curr_cid = curr_cid;
      sound = sound a layers.iteration next_view (normalized_collects curr_cid data_of);
      proposed = proposed;
      last_proof = proof;
    })

  -- The `PRE-PREPARE` that the leader of the next view makes of the pending requests, and signs.
  abbrev pub forged : Layers → World → ViewInfo → ℕ → List Request → Option FwdConsensusMessage
  forged layers w next_view next_leader rqs =
      let message = forge_propose w.consensus rqs next_view layers.nonce in
      do
        digest ← layers.serialize_digest message
        some (record {
          header = record { from = next_leader; digest = digest };
          consensus_msg = message;
        })

  unfoldable pub lead_sync : Layers → World → ViewInfo → ℕ → Outcome SynchronizerStatus
  unfolding highest_proof
  lead_sync layers w next_view next_leader =
      let collects = values w.synchronizer.collects in
      do
        proof ← highest_proof sig a w.synchronizer.tbo.view collects
        curr_cid ← number_after proof
        elim layers.pending_rqs [
          | none ↦ some (w, running)
          | some rqs ↦ do
            proposed ← forged layers w next_view next_leader rqs
            state ← finalize_state layers next_view curr_cid proof collects proposed
            end_view_change a tbo view_tbo layers.nonces
                (act w (
                  broadcast_signed (view_change next_view.seq (sync proposed (stored collects)))
                    (without w.synchronizer.node_id next_view.quorum_members)))
                state proof
        ]

  abbrev pub store_collect : World → StoredMessage → World
  store_collect w m = record w {
    synchronizer = record w.synchronizer {
      collects = insert m.header.from m w.synchronizer.collects;
    };
  }

  unfoldable pub count_stop_data :
      Layers → World → ViewInfo → ℕ → ℕ → StoredMessage → Outcome SynchronizerStatus
  unfolding lead_sync
  count_stop_data layers w next_view next_leader i m =
      if ltb i next_view.params.quorum
      then some (with_phase (store_collect w m) (stopping_data i), running)
      else lead_sync layers (store_collect w m) next_view next_leader

  -- A `STOP-DATA` of another view is kept by the node that leads that view.
  abbrev pub other_stop_data : World → ViewInfo → ℕ → StoredMessage → Outcome SynchronizerStatus
  other_stop_data w next_view view m = do
    peeked ← unwrapped (peek a size_bytes next_view view)
    peeked_leader ← unwrapped (leader peeked)
    some (
      if peeked_leader == w.synchronizer.node_id
          then with_tbo w (queue_stop_data a view_tbo w.synchronizer.tbo m)
          else w,
      running,
    )

  abbrev pub process_stop_data :
      Layers
      → World
      → ViewInfo
      → ℕ
      → ℕ
      → ViewChangeMessageKind
      → StoredMessage
      → Outcome SynchronizerStatus
  process_stop_data layers w next_view i view (stop rqs) m =
      some (hold_stop a view_tbo w m, running)
  process_stop_data layers w next_view i view (stop_quorum_join node) m =
      some (hold_stop a view_tbo w m, running)
  process_stop_data layers w next_view i view (stop_data collect) m =
      if not (view == next_view.seq) then other_stop_data w next_view view m else do
        next_leader ← unwrapped (leader next_view)
        if not (next_leader == w.synchronizer.node_id)
            then some (w, running)
            else if has_key w.synchronizer.collects m.header.from
            then some (w, running)
            else count_stop_data layers w next_view next_leader (i + 1) m
  process_stop_data layers w next_view i view (sync proposed collects) m =
      some (hold_sync a view_tbo w m, running)

  -- A follower is never in this phase.
  unfoldable pub process_stopping_data :
      Layers
      → World
      → SynchronizerAccessory
      → ℕ
      → ℕ
      → ViewChangeMessageKind
      → StoredMessage
      → Outcome SynchronizerStatus
  unfolding count_stop_data
  process_stopping_data layers w follower i view kind m = none
  process_stopping_data layers w replica i view kind m = do
    next_view ← w.synchronizer.tbo.next_view
    process_stop_data layers w next_view i view kind m

  unfoldable pub follow_sync :
      Layers
      → World
      → ViewInfo
      → FwdConsensusMessage × List StoredMessage
      → Outcome SynchronizerStatus
  unfolding highest_proof signed_collects
  follow_sync layers w next_view (proposed, collects) =
      let signed = signed_collects sig collects in
      do
        proof ← highest_proof sig a next_view signed
        state ← finalize_state layers next_view (next_after a proof) proof signed proposed
        end_view_change a tbo view_tbo layers.nonces w state proof

  abbrev pub process_sync :
      Layers
      → World
      → ViewInfo
      → ℕ
      → ViewChangeMessageKind
      → StoredMessage
      → Outcome SynchronizerStatus
  process_sync layers w next_view view (stop rqs) m = some (hold_stop a view_tbo w m, running)
  process_sync layers w next_view view (stop_quorum_join node) m =
      some (hold_stop a view_tbo w m, running)
  process_sync layers w next_view view (stop_data collect) m =
      some (hold_stop_data a view_tbo w w.synchronizer.accessory m, running)
  process_sync layers w next_view view (sync proposed collects) m =
      if not (view == next_view.seq) then some (hold_sync a view_tbo w m, running) else do
        next_leader ← unwrapped (leader next_view)
        if not (m.header.from == next_leader)
            then some (w, running)
            else take_collects (sync proposed collects) >>= follow_sync layers w next_view

  unfoldable pub process_syncing :
      Layers → World → ℕ → ViewChangeMessageKind → StoredMessage → Outcome SynchronizerStatus
  unfolding follow_sync take_collects
  process_syncing layers w view kind m = do
    next_view ← w.synchronizer.tbo.next_view
    process_sync layers w next_view view kind m
