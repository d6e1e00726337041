-- ===== src/Consensus/Decision/Progress.antt =====
-- Runs of `ConsensusDecision::process_message`, of
-- febft-pbft-consensus/src/bft/consensus/decision/mod.rs, on votes that match.
use febft.Base.{
  ℕ, ◌+◌, ◌<◌, ◌≡◌, refl, ◌∙◌, ap, true, false, ◌==◌, contains, some, List, [], ◌∷◌, length, All,
  ok, arith,
}
use febft.Atlas.{Atlas}
use febft.Message.{
  StoredConsensusMessage, ConsensusMessageKind, prepare, commit, kind_of, view_of, seq_of,
}
use febft.View.{ViewInfo}
use febft.Sync.{SynchronizerAccessory}
use febft.Log.Deciding.Votes.{log_prepare, log_commit, process_prepare_new, process_commit_new}
use febft.Consensus.Accessory.{Nonces}
use febft.Consensus.Accessory.Total.{preparing_quorum_total}
use febft.Consensus.Decision.{
  ConsensusDecision, DecisionPhase, preparing, committing, decided, is_finalizeable,
}
use febft.Consensus.Decision.Process.{
  Env, count_prepare, accept_prepare, process_preparing, count_commit, accept_commit,
  process_committing, process_phase, process_message,
}
use febft.Consensus.Decision.Run.{Event, receive, step, run, env_of}

-- Votes of one kind for an instance in a view.
abbrev pub VotesFor : ConsensusMessageKind → ℕ → ℕ → List StoredConsensusMessage → Type 0
VotesFor kind seq view ms = All (λ m. (kind_of m ≡ kind) × (seq_of m ≡ seq) × (view_of m ≡ view)) ms

-- Each from a node that is not among `nodes` and not the sender of an earlier one.
abbrev pub Fresh : List ℕ → List StoredConsensusMessage → Type 0
Fresh nodes [] = Unit
Fresh nodes (m ∷ ms) = (contains nodes m.from ≡ false) × Fresh (m.from ∷ nodes) ms

abbrev pub receives : Nonces → List StoredConsensusMessage → List Event
receives nonces [] = []
receives nonces (m ∷ ms) = receive nonces m ∷ receives nonces ms

abbrev pub prepare_nodes : ConsensusDecision → List ℕ
prepare_nodes d = d.working_log.duplicate_detection.received_prepare_messages

abbrev pub commit_nodes : ConsensusDecision → List ℕ
commit_nodes d = d.working_log.duplicate_detection.received_commit_messages

-- The instance `d` has the digest `x`, is of the number `seq` and is in `phase`.
pub record Standing (x seq : ℕ) (phase : DecisionPhase) (d : ConsensusDecision) : Type 0 where
  pub digest : d.working_log.batch_digest ≡ some x
  pub number : d.seq ≡ seq
  pub in_phase : d.phase ≡ phase

module _ (a : Atlas) (env : Env) where
  accepts_prepare :
      (d : ConsensusDecision) (n x seq : ℕ) (m : StoredConsensusMessage)
      → Standing x seq (preparing n) d
      → seq_of m ≡ seq
      → view_of m ≡ env.view.seq
      → process_preparing a env d n (prepare x) m ≡ accept_prepare a env d (n + 1) m
  unfolding process_preparing
  accepts_prepare d n x seq m s e v = ground (arith, s.number, s.digest)

  prepare_counted :
      (d : ConsensusDecision) (n x seq : ℕ) (m : StoredConsensusMessage)
      → Standing x seq (preparing n) d
      → (kind_of m ≡ prepare x) × (seq_of m ≡ seq) × (view_of m ≡ env.view.seq)
      → contains (prepare_nodes d) m.from ≡ false
      → process_message a env d m
        ≡ count_prepare a env d (n + 1) m (log_prepare d.working_log m, ok tt)
  unfolding process_message process_phase accept_prepare
  prepare_counted d n x seq m s v fresh =
      ap (λ p. process_phase a env d p m) s.in_phase
      ∙ (ap (λ k. process_preparing a env d n k m) v.0
          ∙ (accepts_prepare d n x seq m s v.1 v.2
              ∙ ap (count_prepare a env d (n + 1) m)
                  (process_prepare_new d.working_log m x v.0 fresh)))

  prepare_more :
      (d : ConsensusDecision) (received : ℕ) (x seq : ℕ) (m : StoredConsensusMessage)
      → d.working_log.batch_digest ≡ some x
      → d.seq ≡ seq
      → (received == env.view.params.quorum) ≡ false
      → let e = (count_prepare a env d received m (log_prepare d.working_log m, ok tt)).0 in
        Standing x seq (preparing received) e
        × (prepare_nodes e ≡ m.from ∷ prepare_nodes d)
        × (commit_nodes e ≡ commit_nodes d)
  unfolding count_prepare
  prepare_more d received x seq m g s q =
      rw (q, count_prepare) (record { digest = g; number = s; in_phase = refl }, refl, refl)

  prepare_last :
      (d : ConsensusDecision) (received : ℕ) (x seq : ℕ) (m : StoredConsensusMessage)
      → d.working_log.batch_digest ≡ some x
      → d.seq ≡ seq
      → (received == env.view.params.quorum) ≡ true
      → let e = (count_prepare a env d received m (log_prepare d.working_log m, ok tt)).0 in
        Standing x seq (committing 0) e × (commit_nodes e ≡ commit_nodes d)
  unfolding count_prepare
  prepare_last d received x seq m g s q =
      let (y, total) =
        preparing_quorum_total env.nonces (log_prepare d.working_log m) env.view x d.accessory g in
      rw (q, total, count_prepare) (record { digest = g; number = s; in_phase = refl }, refl)

  accepts_commit :
      (d : ConsensusDecision) (n x seq : ℕ) (m : StoredConsensusMessage)
      → Standing x seq (committing n) d
      → seq_of m ≡ seq
      → view_of m ≡ env.view.seq
      → process_committing a env d n (commit x) m ≡ accept_commit a env d (n + 1) m
  unfolding process_committing
  accepts_commit d n x seq m s e v = ground (arith, s.number, s.digest)

  commit_counted :
      (d : ConsensusDecision) (n x seq : ℕ) (m : StoredConsensusMessage)
      → Standing x seq (committing n) d
      → (kind_of m ≡ commit x) × (seq_of m ≡ seq) × (view_of m ≡ env.view.seq)
      → contains (commit_nodes d) m.from ≡ false
      → process_message a env d m
        ≡ count_commit a env d (n + 1) m (log_commit d.working_log m, ok tt)
  unfolding process_message process_phase accept_commit
  commit_counted d n x seq m s v fresh =
      ap (λ p. process_phase a env d p m) s.in_phase
      ∙ (ap (λ k. process_committing a env d n k m) v.0
          ∙ (accepts_commit d n x seq m s v.1 v.2
              ∙ ap (count_commit a env d (n + 1) m)
                  (process_commit_new d.working_log m x v.0 fresh)))

  commit_more :
      (d : ConsensusDecision) (received : ℕ) (x seq : ℕ) (m : StoredConsensusMessage)
      → d.working_log.batch_digest ≡ some x
      → d.seq ≡ seq
      → (received == env.view.params.quorum) ≡ false
      → let e = (count_commit a env d received m (log_commit d.working_log m, ok tt)).0 in
        Standing x seq (committing received) e × (commit_nodes e ≡ m.from ∷ commit_nodes d)
  unfolding count_commit
  commit_more d received x seq m g s q =
      rw (q, count_commit) (record { digest = g; number = s; in_phase = refl }, refl)

  commit_last :
      (d : ConsensusDecision) (received : ℕ) (x seq : ℕ) (m : StoredConsensusMessage)
      → d.working_log.batch_digest ≡ some x
      → d.seq ≡ seq
      → (received == env.view.params.quorum) ≡ true
      → Standing x seq decided
          (count_commit a env d received m (log_commit d.working_log m, ok tt)).0
  unfolding count_commit
  commit_last d received x seq m g s q =
      rw (q, count_commit) (record { digest = g; number = s; in_phase = refl })

module _ (a : Atlas) (view : ViewInfo) (synchronizer : SynchronizerAccessory)
    (nonces : Nonces) where
  abbrev env : Env
  env = env_of a view synchronizer nonces

  after_prepare : (d : ConsensusDecision) (n : ℕ) (m : StoredConsensusMessage) → ConsensusDecision
  after_prepare d n m = (count_prepare a env d (n + 1) m (log_prepare d.working_log m, ok tt)).0

  after_commit : (d : ConsensusDecision) (n : ℕ) (m : StoredConsensusMessage) → ConsensusDecision
  after_commit d n m = (count_commit a env d (n + 1) m (log_commit d.working_log m, ok tt)).0

  run_prepare :
      (d : ConsensusDecision) (n x seq : ℕ) (m : StoredConsensusMessage)
      (ms : List StoredConsensusMessage)
      → Standing x seq (preparing n) d
      → (kind_of m ≡ prepare x) × (seq_of m ≡ seq) × (view_of m ≡ view.seq)
      → contains (prepare_nodes d) m.from ≡ false
      → run a view synchronizer d (receives nonces (m ∷ ms))
        ≡ run a view synchronizer (after_prepare d n m) (receives nonces ms)
  unfolding run step after_prepare
  run_prepare d n x seq m ms s v f =
      ap (λ o. run a view synchronizer o.0 (receives nonces ms))
        (prepare_counted a env d n x seq m s v f)

  run_commit :
      (d : ConsensusDecision) (n x seq : ℕ) (m : StoredConsensusMessage)
      (ms : List StoredConsensusMessage)
      → Standing x seq (committing n) d
      → (kind_of m ≡ commit x) × (seq_of m ≡ seq) × (view_of m ≡ view.seq)
      → contains (commit_nodes d) m.from ≡ false
      → run a view synchronizer d (receives nonces (m ∷ ms))
        ≡ run a view synchronizer (after_commit d n m) (receives nonces ms)
  unfolding run step after_commit
  run_commit d n x seq m ms s v f =
      ap (λ o. run a view synchronizer o.0 (receives nonces ms))
        (commit_counted a env d n x seq m s v f)

  prepares_complete :
      (ms : List StoredConsensusMessage) (d : ConsensusDecision) (n x seq : ℕ)
      → Standing x seq (preparing n) d
      → VotesFor (prepare x) seq view.seq ms
      → Fresh (prepare_nodes d) ms
      → n + length ms ≡ view.params.quorum
      → 0 < length ms
      → Standing x seq (committing 0) (run a view synchronizer d (receives nonces ms))
        × (commit_nodes (run a view synchronizer d (receives nonces ms)) ≡ commit_nodes d)
  unfolding run after_prepare
  prepares_complete [] d n x seq s v f q h = let absurd : ⊥ = omega (arith, h) in elim absurd [ ]
  prepares_complete (m ∷ []) d n x seq s v f q h =
      rw (run_prepare d n x seq m [] s v.0 f.0)
        (prepare_last a env d (n + 1) x seq m s.digest s.number (ground (arith, q)))
  prepares_complete (m ∷ m' ∷ ms) d n x seq s v f q h =
      let (t, nodes, commits) =
        prepare_more a env d (n + 1) x seq m s.digest s.number (ground (arith, q)) in
      let (rest, same) =
        prepares_complete (m' ∷ ms) (after_prepare d n m) (n + 1) x seq t v.1 (rw nodes f.1)
          (omega (arith, q)) (omega arith) in
      rw (run_prepare d n x seq m (m' ∷ ms) s v.0 f.0) (rest, same ∙ commits)

  commits_complete :
      (ms : List StoredConsensusMessage) (d : ConsensusDecision) (n x seq : ℕ)
      → Standing x seq (committing n) d
      → VotesFor (commit x) seq view.seq ms
      → Fresh (commit_nodes d) ms
      → n + length ms ≡ view.params.quorum
      → 0 < length ms
      → Standing x seq decided (run a view synchronizer d (receives nonces ms))
  unfolding run after_commit
  commits_complete [] d n x seq s v f q h = let absurd : ⊥ = omega (arith, h) in elim absurd [ ]
  commits_complete (m ∷ []) d n x seq s v f q h =
      rw (run_commit d n x seq m [] s v.0 f.0)
        (commit_last a env d (n + 1) x seq m s.digest s.number (ground (arith, q)))
  commits_complete (m ∷ m' ∷ ms) d n x seq s v f q h =
      let (t, nodes) = commit_more a env d (n + 1) x seq m s.digest s.number (ground (arith, q)) in
      rw (run_commit d n x seq m (m' ∷ ms) s v.0 f.0) (
        commits_complete (m' ∷ ms) (after_commit d n m) (n + 1) x seq t v.1 (rw nodes f.1)
          (omega (arith, q)) (omega arith))

  -- From the phase in which it has all batches and no vote, an instance decides when it is given a
  -- quorum of `PREPARE`s and then a quorum of `COMMIT`s for it, its view and its digest, those of
  -- each phase from different nodes that have not voted in it. The quorum is at least one.
  pub quorum_decides :
      (prepares commits : List StoredConsensusMessage) (d : ConsensusDecision) (x seq : ℕ)
      → Standing x seq (preparing 0) d
      → VotesFor (prepare x) seq view.seq prepares
      → VotesFor (commit x) seq view.seq commits
      → Fresh (prepare_nodes d) prepares
      → Fresh (commit_nodes d) commits
      → length prepares ≡ view.params.quorum
      → length commits ≡ view.params.quorum
      → 0 < view.params.quorum
      → is_finalizeable (
          run a view synchronizer
            (run a view synchronizer d (receives nonces prepares))
            (receives nonces commits))
        ≡ true
  unfolding is_finalizeable
  quorum_decides prepares commits d x seq s vp vc fp fc qp qc h =
      let (first, nodes) =
        prepares_complete prepares d 0 x seq s vp fp (omega (arith, qp)) (omega (arith, qp, h)) in
      let done =
        commits_complete commits (run a view synchronizer d (receives nonces prepares)) 0 x seq
          first vc (rw nodes fc) (omega (arith, qc)) (omega (arith, qc, h)) in
      rw done.in_phase refl
