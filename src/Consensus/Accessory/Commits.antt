-- ===== src/Consensus/Accessory/Commits.antt =====
-- The `COMMIT`s that a replica prepares and sends, of
-- febft-pbft-consensus/src/bft/consensus/accessory/replica/mod.rs.
use febft.Base.{
  ℕ, zero, suc, ◌≡◌, refl, true, ◌==◌, Bool-cases, inl, inr, some, List, [], ◌∷◌, length, All,
  insert, ok, arith,
}
use febft.Message.{ConsensusMessage, prepare, commit}
use febft.Message
use febft.Node.{Action, broadcast_signed, broadcast_serialized, acks_received, cancel_all_timeouts}
use febft.View.{ViewInfo, targets}
use febft.Log.Deciding.{WorkingDecisionLog}
use febft.Consensus.Accessory.{
  ReplicaAccessory, Nonces, new_accessory, run_spawned, run_first, take_speculative_commits,
  valid_spec_commits, for_each_peer, replica_pre_prepare_phase_completed, replica_preparing_quorum,
}

-- `COMMIT`s of one instance, view and digest, with the nodes that they are for.
abbrev pub CommitsFor : ℕ → ℕ → ℕ → List (ℕ × ConsensusMessage) → Type 0
CommitsFor seq view digest ms =
    All (λ p. (p.1.kind ≡ commit digest) × (p.1.seq ≡ seq) × (p.1.view ≡ view)) ms

-- One `COMMIT` to the members, or a serialized one for each of as many nodes as the view has.
abbrev pub SendsCommit : ViewInfo → ℕ → ℕ → Action → Type 0
SendsCommit view seq digest (broadcast_signed m nodes) =
    (m.kind ≡ commit digest) × (m.seq ≡ seq) × (m.view ≡ view.seq) × (nodes ≡ view.quorum_members)
SendsCommit view seq digest (broadcast_serialized ms) =
    CommitsFor seq view.seq digest ms × (length ms ≡ view.params.n)
SendsCommit view seq digest (acks_received infos node) = ⊥
SendsCommit view seq digest cancel_all_timeouts = ⊥

abbrev pub run_tasks : ℕ → ReplicaAccessory → ReplicaAccessory
run_tasks zero r = r
run_tasks (suc k) r = run_tasks k (run_spawned r)

module _ (seq view digest : ℕ) where
  record Prepared (r : ReplicaAccessory) : Type 0 where
    pub made : CommitsFor seq view digest r.speculative_commits
    pub spawned : CommitsFor seq view digest r.spawned

  for_each_peer-CommitsFor :
      (nonce : ℕ) (peers : List ℕ)
      → CommitsFor seq view digest
          (for_each_peer (Message.new seq view (commit digest) nonce) peers)
  unfolding Message.new
  for_each_peer-CommitsFor nonce [] = tt
  for_each_peer-CommitsFor nonce (peer ∷ peers) =
      ((refl, refl, refl), for_each_peer-CommitsFor nonce peers)

  insert-CommitsFor :
      (peer : ℕ) (m : ConsensusMessage) (ms : List (ℕ × ConsensusMessage))
      → (m.kind ≡ commit digest) × (m.seq ≡ seq) × (m.view ≡ view)
      → CommitsFor seq view digest ms
      → CommitsFor seq view digest (insert peer m ms)
  insert-CommitsFor peer m [] h k = (h, tt)
  insert-CommitsFor peer m (p ∷ ms) h k = elim (Bool-cases (p.0 == peer)) [
    | inl e ↦ rw e (h, k.1)
    | inr e ↦ rw e (k.0, insert-CommitsFor peer m ms h k.1)
  ]

  run_first-Prepared :
      (r : ReplicaAccessory) (ms : List (ℕ × ConsensusMessage))
      → CommitsFor seq view digest ms
      → Prepared r
      → Prepared (run_first r ms)
  unfolding run_first
  run_first-Prepared r [] h p = p
  run_first-Prepared r ((peer, m) ∷ ms) h p = record {
    made = insert-CommitsFor peer m r.speculative_commits h.0 p.made;
    spawned = h.1;
  }

  run_tasks-Prepared : (k : ℕ) (r : ReplicaAccessory) → Prepared r → Prepared (run_tasks k r)
  unfolding run_spawned
  run_tasks-Prepared zero r p = p
  run_tasks-Prepared (suc k) r p =
      run_tasks-Prepared k (run_spawned r) (run_first-Prepared r r.spawned p.spawned p)

module _ (nonces : Nonces) (log : WorkingDecisionLog) (view : ViewInfo) (digest : ℕ) where
  valid_length :
      (ms : List (ℕ × ConsensusMessage))
      → valid_spec_commits ms log.seq_no view ≡ true
      → length ms ≡ view.params.n
  unfolding valid_spec_commits
  valid_length ms h = ground arith

  sends :
      (r : ReplicaAccessory)
      → log.batch_digest ≡ some digest
      → Prepared log.seq_no view.seq digest r
      → (x : ReplicaAccessory) × (action : Action) × (replica_preparing_quorum nonces log view r
          ≡ ok (x, action ∷ []))
        × SendsCommit view log.seq_no digest action
        × (x.speculative_commits ≡ [])
  unfolding replica_preparing_quorum take_speculative_commits valid_spec_commits Message.new
  sends r e p = elim (Bool-cases (valid_spec_commits r.speculative_commits log.seq_no view)) [
    | inl valid ↦ (
      record r { speculative_commits = [] },
      broadcast_serialized r.speculative_commits,
      rw (e, valid, replica_preparing_quorum) refl,
      (p.made, valid_length r.speculative_commits valid),
      refl,
    )
    | inr invalid ↦ (
      record r { speculative_commits = [] },
      broadcast_signed (Message.new log.seq_no view.seq (commit digest) nonces.for_commit)
          view.quorum_members,
      rw (e, invalid, replica_preparing_quorum) refl,
      (refl, refl, refl, refl),
      refl,
    )
  ]

  -- Once all batches are in, a replica broadcasts one `PREPARE` for the digest of the instance to
  -- the members of the view. However many of the commits that it then prepares are made when the
  -- quorum of `PREPARE`s is reached, it sends one broadcast of `COMMIT`s for the digest, to the
  -- members or to as many nodes as the view has, and keeps none of those prepared.
  pub votes_sent :
      (k : ℕ)
      → log.batch_digest ≡ some digest
      → (r : ReplicaAccessory) × (m : ConsensusMessage) × (replica_pre_prepare_phase_completed
            nonces log view new_accessory
          ≡ ok (r, broadcast_signed m view.quorum_members ∷ []))
        × (m.kind ≡ prepare digest)
        × ((x : ReplicaAccessory) × (action : Action) × (replica_preparing_quorum nonces log view
                (run_tasks k r)
              ≡ ok (x, action ∷ []))
            × SendsCommit view log.seq_no digest action
            × (x.speculative_commits ≡ []))
  unfolding replica_pre_prepare_phase_completed new_accessory Message.new
  votes_sent k e = (
    completed,
    Message.new log.seq_no view.seq (prepare digest) nonces.for_prepare,
    rw (e, replica_pre_prepare_phase_completed) refl,
    refl,
    sends (run_tasks k completed) e (
        run_tasks-Prepared log.seq_no view.seq digest k completed (record {
          made = tt;
          spawned =
              for_each_peer-CommitsFor log.seq_no view.seq digest nonces.for_commit
                (targets view.params.n);
        })),
  )
    where
      completed : ReplicaAccessory
      completed = record {
        speculative_commits = [];
        spawned =
            for_each_peer (Message.new log.seq_no view.seq (commit digest) nonces.for_commit)
              (targets view.params.n);
      }
