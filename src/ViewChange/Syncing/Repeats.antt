-- ===== src/ViewChange/Syncing/Repeats.antt =====
-- The computation of the leader of the next view on the `STOP-DATA`s, of
-- febft-pbft-consensus/src/bft/sync/mod.rs, is repeated by the other replicas on its `SYNC`.
use febft.Base.{
  some_eq, subst, ℕ, ◌+◌, ◌^◌, ◌≡◌, refl, sym, ◌∙◌, ap, inl, inr, true, false, Option, none, some,
  List, [], ◌∷◌, ◌==◌, contains, All, Bool-cases, Option-cases, ==_self, ok,
}
use febft.Atlas.{Atlas}
use febft.Message.{Request}
use febft.View.{ViewInfo, leader}
use febft.Log.Decisions.{Proof}
use febft.Consensus.TboQueue.{Tbo}
use febft.ViewChange.Messages.{
  Header, FwdConsensusMessage, CollectData, view_change, ViewChangeMessageKind, sync, StoredMessage,
  messages, stored, take_collects,
}
use febft.ViewChange.Queue.{ViewTbo}
use febft.ViewChange.Sound.{sound}
use febft.ViewChange.Sound.Search.{sound_searches}
use febft.ViewChange.Collects.{
  Signatures, collect_data, normalized_collects, validate_signature, signed_collects, highest_of,
  highest_proof, last_proofs,
}
use febft.ViewChange.Layers.{Layers}
use febft.ViewChange.Replica.{values}
use febft.ViewChange.Syncing.{
  number_after, next_after, without, finalize_state, forged, lead_sync, follow_sync, process_sync,
  process_syncing,
}
use febft.ViewChange.Finalize.{end_view_change}
use febft.ViewChange.Process.{process_message, process_phase}
use febft.ViewChange.Runs.Kept.{>>=-eq-some}
use febft.ViewChange.Synchronizer.{
  test, syncing, FinalizeState, SynchronizerStatus, broadcast_signed, World, Outcome, ◌>>=◌, act,
}

-- What `SeqNo::next` documents: the following number, where there is one.
pub record NextLaws (a : Atlas) : Type 0 where
  pub next_number : (s : ℕ) → (s + 1 == 2 ^ 32) ≡ false → a.next s ≡ s + 1

messages-stored : (ms : List StoredMessage) → messages (stored ms) ≡ ms
unfolding messages stored
messages-stored [] = refl
messages-stored (m ∷ ms) = ap (λ r. m ∷ r) (messages-stored ms)

signed_collects-all :
    (sig : Signatures) (ms : List StoredMessage)
    → All (λ m. validate_signature sig m.header ≡ true) ms
    → signed_collects sig ms ≡ ms
unfolding signed_collects
signed_collects-all sig [] h = refl
signed_collects-all sig (m ∷ ms) h = rw h.0 (ap (λ r. m ∷ r) (signed_collects-all sig ms h.1))

module _ (sig : Signatures) (a : Atlas) (v v' : ViewInfo)
    (same : v.params.quorum ≡ v'.params.quorum) where
  highest_of-quorum : (ps : List Proof) → highest_of sig a v ps ≡ highest_of sig a v' ps
  unfolding highest_of
  highest_of-quorum [] = refl
  highest_of-quorum (p ∷ ps) = rw (same, highest_of-quorum ps) refl

  highest_proof-quorum :
      (ms : List StoredMessage) → highest_proof sig a v ms ≡ highest_proof sig a v' ms
  unfolding highest_proof
  highest_proof-quorum ms = elim (Option-cases (collect_data ms)) [
    | inl e ↦ rw e refl
    | inr (cs, e) ↦ rw e (ap some (highest_of-quorum (last_proofs cs)))
  ]

number_after-next :
    (a : Atlas) (proof : Option Proof) (cid : ℕ)
    → NextLaws a
    → number_after proof ≡ some cid
    → next_after a proof ≡ cid
number_after-next a none cid laws h = some_eq h
number_after-next a (some p) cid laws h = elim (Bool-cases (p.metadata.seq_no + 1 == 2 ^ 32)) [
  | inl last ↦ let stuck : none ≡ some cid = rw last at h in cc
  | inr more ↦ laws.next_number p.metadata.seq_no more ∙ some_eq (rw more at h)
]

abbrev pub Lawful : (List ℕ → List ℕ) → Type 0
Lawful iteration = (xs : List ℕ) (x : ℕ) → contains (iteration xs) x ≡ contains xs x

-- Whether a view change is sound does not hang on the order of iteration.
test-sound :
    (a : Atlas) (view : ViewInfo) (cs : List (Option CollectData)) (i j : List ℕ → List ℕ)
    → Lawful i
    → Lawful j
    → test (sound a i view cs) ≡ test (sound a j view cs)
unfolding test
test-sound a view cs i j li lj = elim (sound_searches a view cs i li) [
  | inl (x, ts, e, b) ↦ elim (sound_searches a view cs j lj) [
    | inl (y, us, f, c) ↦ rw (e, f) refl
    | inr (f, never) ↦ let clash : true ≡ false = sym b ∙ never ts x in cc
  ]
  | inr (e, never) ↦ elim (sound_searches a view cs j lj) [
    | inl (y, us, f, c) ↦ let clash : true ≡ false = sym c ∙ never us y in cc
    | inr (f, _) ↦ rw (e, f) refl
  ]
]

-- The states with which two replicas end a view change, but for the value that is bound.
pub record Agree (s t : FinalizeState) : Type 0 where
  pub same_cid : t.curr_cid ≡ s.curr_cid
  pub same_proposed : t.proposed ≡ s.proposed
  pub same_proof : t.last_proof ≡ s.last_proof
  pub same_test : test t.sound ≡ test s.sound

module _ (a : Atlas) (size_bytes : ℕ) (sig : Signatures) (tbo : Tbo) (view_tbo : ViewTbo) where
  abbrev pub leader_message : Header → ViewInfo → FwdConsensusMessage → World → StoredMessage
  leader_message header next_view proposed w = record {
    header = header;
    message = view_change next_view.seq (sync proposed (stored (values w.synchronizer.collects)));
  }

  abbrev pub announced : World → ViewInfo → FwdConsensusMessage → World
  announced w next_view proposed = act w (
      broadcast_signed
        (view_change next_view.seq (sync proposed (stored (values w.synchronizer.collects))))
        (without w.synchronizer.node_id next_view.quorum_members))

  abbrev made :
      Layers → ViewInfo → ℕ → Option Proof → FwdConsensusMessage → List CollectData → FinalizeState
  made layers next_view cid proof proposed cs = record {
    curr_cid = cid;
    sound = sound a layers.iteration next_view (normalized_collects cid cs);
    proposed = proposed;
    last_proof = proof;
  }

  -- The message of the leader is taken up by a replica that waits for it.
  follows :
      (layers : Layers) (v : World) (next_view : ViewInfo) (l digest : ℕ)
      (proposed : FwdConsensusMessage) (ms : List StoredMessage) (cs : List CollectData)
      (proof : Option Proof) (cid : ℕ)
      → v.synchronizer.phase ≡ syncing
      → v.synchronizer.tbo.next_view ≡ some next_view
      → leader next_view ≡ ok l
      → signed_collects sig ms ≡ ms
      → highest_proof sig a next_view ms ≡ some proof
      → next_after a proof ≡ cid
      → collect_data ms ≡ some cs
      → process_message a size_bytes sig tbo view_tbo layers v (record {
        header = record { from = l; digest = digest };
        message = view_change next_view.seq (sync proposed (stored ms));
      })
        ≡ end_view_change a tbo view_tbo layers.nonces v
            (made layers next_view cid proof proposed cs)
            proof
  unfolding process_message process_syncing follow_sync take_collects
  follows layers v next_view l digest proposed ms cs proof cid ph nv ld sg hp nx cd =
      subst
        (λ phase.
          process_phase a size_bytes sig tbo view_tbo layers v phase next_view.seq kind m ≡ ends)
        (sym ph)
        (subst
          (λ o.
            (o >>= λ n. process_sync a size_bytes sig tbo view_tbo layers v n next_view.seq kind m)
            ≡ ends)
          (sym nv)
          (rw (==_self next_view.seq, ld, ==_self l, messages-stored ms, sg, hp, nx, cd) refl))
    where
      kind : ViewChangeMessageKind
      kind = sync proposed (stored ms)

      m : StoredMessage
      m = record {
        header = record { from = l; digest = digest };
        message = view_change next_view.seq kind;
      }

      ends : Outcome SynchronizerStatus
      ends =
          end_view_change a tbo view_tbo layers.nonces v
            (made layers next_view cid proof proposed cs) proof

  -- Where the leader of the next view ends the collecting of `STOP-DATA`s with a `SYNC`, a replica
  -- that waits for it ends its view change with the same proof, instance and proposal, and finds
  -- the collects sound exactly if the leader does, whatever the orders in which the two iterate
  -- over hash sets: if the collects are validly signed and both views have quorums of one size,
  -- and the next sequence number is one more where it does not overflow.
  pub sync_repeats :
      (lead follow : Layers) (w w' v : World) (next_view : ViewInfo) (l digest : ℕ)
      (rqs : List Request) (st : SynchronizerStatus)
      → NextLaws a
      → Lawful lead.iteration
      → Lawful follow.iteration
      → w.synchronizer.tbo.view.params.quorum ≡ next_view.params.quorum
      → All (λ m. validate_signature sig m.header ≡ true) (values w.synchronizer.collects)
      → lead.pending_rqs ≡ some rqs
      → v.synchronizer.phase ≡ syncing
      → v.synchronizer.tbo.next_view ≡ some next_view
      → leader next_view ≡ ok l
      → lead_sync a size_bytes sig tbo view_tbo lead w next_view l ≡ some (w', st)
      → (proposed : FwdConsensusMessage) × (s : FinalizeState) × (t : FinalizeState)
        × (proof : Option Proof) × (end_view_change a tbo view_tbo lead.nonces
              (announced w next_view proposed)
              s
              proof
            ≡ some (w', st))
        × (process_message a size_bytes sig tbo view_tbo follow v
              (leader_message (record { from = l; digest = digest }) next_view proposed w)
            ≡ end_view_change a tbo view_tbo follow.nonces v t proof)
        × Agree s t
  unfolding lead_sync
  sync_repeats lead follow w w' v next_view l digest rqs st laws li lj quorum valid pending ph nv ld
        h =
      let ms = values w.synchronizer.collects in
      let (proof, hp, h1) = >>=-eq-some (highest_proof sig a w.synchronizer.tbo.view ms) _ h in
      let (cid, nx, h2) = >>=-eq-some (number_after proof) _ h1 in
      let (proposed, _, h3) =
        >>=-eq-some (forged a size_bytes sig tbo view_tbo lead w next_view l rqs) _
          (rw pending at h2) in
      let (s, made_by, ends) =
        >>=-eq-some
          (finalize_state a size_bytes sig tbo view_tbo lead next_view cid proof ms proposed) _
          h3 in
      let (cs, cd, is_made) = >>=-eq-some (collect_data ms) _ made_by in
      let is_s = some_eq is_made in
      (
        proposed,
        s,
        made follow next_view cid proof proposed cs,
        proof,
        ends,
        follows follow v next_view l digest proposed ms cs proof cid ph nv ld
            (signed_collects-all sig ms valid)
            (sym (highest_proof-quorum sig a w.synchronizer.tbo.view next_view quorum ms) ∙ hp)
            (number_after-next a proof cid laws nx) cd,
        record {
          same_cid = ap (λ (x : FinalizeState). x.curr_cid) is_s;
          same_proposed = ap (λ (x : FinalizeState). x.proposed) is_s;
          same_proof = ap (λ (x : FinalizeState). x.last_proof) is_s;
          same_test =
              test-sound a next_view (normalized_collects cid cs) follow.iteration lead.iteration lj
                li
              ∙ ap (λ (x : FinalizeState). test x.sound) is_s;
        },
      )
