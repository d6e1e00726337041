-- ===== src/Consensus/Decision/Votes/Kept.antt =====
-- The votes that an instance has counted, and `ConsensusDecision::process_message`, of
-- febft-pbft-consensus/src/bft/consensus/decision/mod.rs.
use febft.Base.{
  ℕ, ◌+◌, ◌≡◌, refl, ◌∙◌, subst, inl, inr, not, Option, none, some, List, ◌==◌, length, contains,
  ok, arith, Bool-cases, not-==_false, ==_iff, ap, Result, Result-cases,
}
use febft.Atlas.{Atlas}
use febft.Message.{
  ClientRqInfo, Request, StoredConsensusMessage, ConsensusMessageKind, pre_prepare, prepare, commit,
  kind_of, view_of, seq_of,
}
use febft.Log.Decisions.{ProofMetadata}
use febft.Log.Deciding.{WorkingDecisionLog, DecidingLogError, process_pre_prepare}
use febft.Log.Deciding.Votes.{
  log_prepare, log_commit, process_prepare_new, process_prepare_again, process_commit_new,
  process_commit_again,
}
use febft.Consensus.Decision.{
  DecisionPhase, initialize, pre_preparing, preparing, committing, decided, ConsensusDecision,
}
use febft.Consensus.Decision.Process.{
  Env, process_message, accept_prepare, accept_commit, count_prepare, count_commit,
  count_pre_prepare, accept_pre_prepare, complete_pre_prepare, process_pre_preparing,
  process_preparing, process_committing, process_phase,
}
use febft.Node.{Action}
use febft.Sync.{request_batch_received}
use febft.Consensus.Accessory.{handle_pre_prepare_phase_completed}
use febft.Consensus.Accessory.Total.{preparing_quorum_total}
use febft.Consensus.Decision.Votes.{
  Tally-cons, no-Tally, process_pre_prepare-SameVotes, process_pre_prepare-digest, Prepared,
  Committed, NoVotes, Holds, Valid,
}

module _ (a : Atlas) (env : Env) where
  complete_pre_prepare-Valid :
      (d : ConsensusDecision) (k : ℕ) (m : StoredConsensusMessage) (actions : List Action)
      (metadata : Option ProofMetadata)
      → d.phase ≡ pre_preparing k
      → NoVotes d.working_log
      → ((md : ProofMetadata)
          → metadata ≡ some md
          → d.working_log.batch_digest ≡ some md.batch_digest)
      → Valid env (complete_pre_prepare a env d m actions metadata).0
  unfolding complete_pre_prepare
  complete_pre_prepare-Valid d k m actions none e v h = rw e v
  complete_pre_prepare-Valid d k m actions (some md) e v h =
      elim (Result-cases
        (handle_pre_prepare_phase_completed env.nonces d.working_log env.view d.accessory)) [
          | inl (x, q) ↦
              rw (q, complete_pre_prepare)
                (
                  md.batch_digest,
                  h md refl,
                  no-Tally _ _ _ _ _ v.prepared v.prepares,
                  no-Tally _ _ _ _ _ v.committed v.commits,
                )
          | inr (inl (x, q)) ↦ rw (q, complete_pre_prepare) (rw e v)
          | inr (inr q) ↦ rw (q, complete_pre_prepare) (rw e v)
        ]

  count_pre_prepare-Valid :
      (d : ConsensusDecision) (k received : ℕ) (m : StoredConsensusMessage) (actions : List Action)
      (metadata : Option ProofMetadata)
      → d.phase ≡ pre_preparing k
      → NoVotes d.working_log
      → ((md : ProofMetadata)
          → metadata ≡ some md
          → d.working_log.batch_digest ≡ some md.batch_digest)
      → Valid env (count_pre_prepare a env d received m actions metadata).0
  unfolding count_pre_prepare
  count_pre_prepare-Valid d k received m actions metadata e v h =
      elim (Bool-cases (received == length env.view.leader_set)) [
        | inl q ↦ rw q (complete_pre_prepare-Valid d k m actions metadata e v h)
        | inr q ↦ rw q v
      ]

  accept_pre_prepare-Valid :
      (d : ConsensusDecision) (k received : ℕ) (rqs : List Request) (m : StoredConsensusMessage)
      → d.phase ≡ pre_preparing k
      → NoVotes d.working_log
      → Valid env (accept_pre_prepare a env d received rqs m).0
  unfolding accept_pre_prepare
  accept_pre_prepare-Valid d k received rqs m e v = elim (Result-cases after.1) [
    | inl (x, q) ↦
        rw (q, accept_pre_prepare)
          (count_pre_prepare-Valid (record d { working_log = after.0 }) k received m _ x e still
            (λ md h. process_pre_prepare-digest a d.working_log m batch.0 md (q ∙ ap ok h)))
    | inr (inl (x, q)) ↦ rw (q, accept_pre_prepare) (rw e still)
    | inr (inr q) ↦ rw (q, accept_pre_prepare) (rw e still)
  ]
    where
      batch : List ClientRqInfo × List Action
      batch = request_batch_received env.synchronizer m.from rqs

      after : WorkingDecisionLog × Result DecidingLogError (Option ProofMetadata)
      after = process_pre_prepare a d.working_log m batch.0

      still : NoVotes after.0
      still = ground (arith, process_pre_prepare-SameVotes a d.working_log m batch.0)

  count_prepare-Valid :
      (d : ConsensusDecision) (n digest : ℕ) (m : StoredConsensusMessage) (log : WorkingDecisionLog)
      → log.batch_digest ≡ some digest
      → Prepared digest d.seq env.view.seq log n
      → Committed digest d.seq env.view.seq log 0
      → Valid env (count_prepare a env d n m (log, ok tt)).0
  unfolding count_prepare
  count_prepare-Valid d n digest m log g p c = elim (Bool-cases (n == env.view.params.quorum)) [
    | inr q ↦ rw q (digest, g, p, c)
    | inl q ↦
        let (x, h) = preparing_quorum_total env.nonces log env.view digest d.accessory g in
        let enough : n ≡ env.view.params.quorum = (==_iff n env.view.params.quorum).0 q in
        rw (q, h) (digest, g, subst (Prepared digest d.seq env.view.seq log) enough p, c)
  ]

  accept_prepare-Valid :
      (d : ConsensusDecision) (n digest : ℕ) (m : StoredConsensusMessage)
      → d.phase ≡ preparing n
      → d.working_log.batch_digest ≡ some digest
      → Prepared digest d.seq env.view.seq d.working_log n
      → Committed digest d.seq env.view.seq d.working_log 0
      → kind_of m ≡ prepare digest
      → seq_of m ≡ d.seq
      → view_of m ≡ env.view.seq
      → Valid env (accept_prepare a env d (n + 1) m).0
  unfolding accept_prepare
  accept_prepare-Valid d n digest m e g p c km sm vm =
      elim (Bool-cases
        (contains d.working_log.duplicate_detection.received_prepare_messages m.from)) [
          | inl old ↦
              rw (process_prepare_again d.working_log m digest km old) (rw e (digest, g, p, c))
          | inr new ↦ rw (process_prepare_new d.working_log m digest km new) (
              count_prepare-Valid d (n + 1) digest m (log_prepare d.working_log m) g
                (Tally-cons m p new km sm vm) c)
        ]

  count_commit-Valid :
      (d : ConsensusDecision) (n digest : ℕ) (m : StoredConsensusMessage) (log : WorkingDecisionLog)
      → log.batch_digest ≡ some digest
      → Prepared digest d.seq env.view.seq log env.view.params.quorum
      → Committed digest d.seq env.view.seq log n
      → Valid env (count_commit a env d n m (log, ok tt)).0
  unfolding count_commit
  count_commit-Valid d n digest m log g p c = elim (Bool-cases (n == env.view.params.quorum)) [
    | inr q ↦ rw q (digest, g, p, c)
    | inl q ↦
        let enough : n ≡ env.view.params.quorum = (==_iff n env.view.params.quorum).0 q in
        rw q (digest, g, p, subst (Committed digest d.seq env.view.seq log) enough c)
  ]

  accept_commit-Valid :
      (d : ConsensusDecision) (n digest : ℕ) (m : StoredConsensusMessage)
      → d.phase ≡ committing n
      → d.working_log.batch_digest ≡ some digest
      → Prepared digest d.seq env.view.seq d.working_log env.view.params.quorum
      → Committed digest d.seq env.view.seq d.working_log n
      → kind_of m ≡ commit digest
      → seq_of m ≡ d.seq
      → view_of m ≡ env.view.seq
      → Valid env (accept_commit a env d (n + 1) m).0
  unfolding accept_commit
  accept_commit-Valid d n digest m e g p c km sm vm =
      elim (Bool-cases
        (contains d.working_log.duplicate_detection.received_commit_messages m.from)) [
          | inl old ↦
              rw (process_commit_again d.working_log m digest km old) (rw e (digest, g, p, c))
          | inr new ↦ rw (process_commit_new d.working_log m digest km new) (
              count_commit-Valid d (n + 1) digest m (log_commit d.working_log m) g p
                (Tally-cons m c new km sm vm))
        ]

  process_pre_preparing-Valid :
      (d : ConsensusDecision) (n : ℕ) (kind : ConsensusMessageKind) (m : StoredConsensusMessage)
      → d.phase ≡ pre_preparing n
      → Valid env d
      → NoVotes d.working_log
      → Valid env (process_pre_preparing a env d n kind m).0
  unfolding process_pre_preparing
  process_pre_preparing-Valid d n (pre_prepare rqs) m e h v =
      elim (Bool-cases (not (view_of m == env.view.seq))) [
        | inl q ↦ rw q h
        | inr vm ↦ rw vm (elim (Bool-cases (not (contains env.view.leader_set m.from))) [
          | inl q ↦ rw q h
          | inr lm ↦ rw lm (elim (Bool-cases (not (seq_of m == d.seq))) [
            | inl q ↦ rw q h
            | inr sm ↦ rw sm (accept_pre_prepare-Valid d n (n + 1) rqs m e v)
          ])
        ])
      ]
  process_pre_preparing-Valid d n (prepare digest) m e h v = h
  process_pre_preparing-Valid d n (commit digest) m e h v = h

  process_preparing-Valid :
      (d : ConsensusDecision) (n : ℕ) (kind : ConsensusMessageKind) (m : StoredConsensusMessage)
      → kind_of m ≡ kind
      → d.phase ≡ preparing n
      → Valid env d
      → Holds env.view.params.quorum d.seq env.view.seq d.working_log (preparing n)
      → Valid env (process_preparing a env d n kind m).0
  unfolding process_preparing
  process_preparing-Valid d n (pre_prepare rqs) m k e h v = h
  process_preparing-Valid d n (commit digest) m k e h v = h
  process_preparing-Valid d n (prepare digest) m k e h (current, g, p, c) =
      elim (Bool-cases (not (view_of m == env.view.seq))) [
        | inl q ↦ rw q h
        | inr vm ↦ rw vm (elim (Bool-cases (not (seq_of m == d.seq))) [
          | inl q ↦ rw q h
          | inr sm ↦ rw sm (
              rw (g, process_preparing)
                (elim (Bool-cases (not (digest == current))) [
                  | inl q ↦ rw q h
                  | inr dm ↦ rw dm (
                      accept_prepare-Valid d n current m e g p c
                        (k ∙ ap prepare (not-==_false digest current dm))
                        (not-==_false (seq_of m) d.seq sm)
                        (not-==_false (view_of m) env.view.seq vm))
                ]))
        ])
      ]

  process_committing-Valid :
      (d : ConsensusDecision) (n : ℕ) (kind : ConsensusMessageKind) (m : StoredConsensusMessage)
      → kind_of m ≡ kind
      → d.phase ≡ committing n
      → Valid env d
      → Holds env.view.params.quorum d.seq env.view.seq d.working_log (committing n)
      → Valid env (process_committing a env d n kind m).0
  unfolding process_committing
  process_committing-Valid d n (pre_prepare rqs) m k e h v = h
  process_committing-Valid d n (prepare digest) m k e h v = h
  process_committing-Valid d n (commit digest) m k e h (current, g, p, c) =
      elim (Bool-cases (not (seq_of m == d.seq))) [
        | inl q ↦ rw q h
        | inr sm ↦ rw sm (elim (Bool-cases (not (view_of m == env.view.seq))) [
          | inl q ↦ rw q h
          | inr vm ↦ rw vm (
              rw (g, process_committing)
                (elim (Bool-cases (not (digest == current))) [
                  | inl q ↦ rw q h
                  | inr dm ↦ rw dm (
                      accept_commit-Valid d n current m e g p c
                        (k ∙ ap commit (not-==_false digest current dm))
                        (not-==_false (seq_of m) d.seq sm)
                        (not-==_false (view_of m) env.view.seq vm))
                ]))
        ])
      ]

  process_phase-Valid :
      (d : ConsensusDecision) (phase : DecisionPhase) (m : StoredConsensusMessage)
      → d.phase ≡ phase
      → Valid env d
      → Valid env (process_phase a env d phase m).0
  unfolding process_phase
  process_phase-Valid d initialize m e h = h
  process_phase-Valid d (pre_preparing n) m e h =
      process_pre_preparing-Valid d n (kind_of m) m e h (rw e at h)
  process_phase-Valid d (preparing n) m e h =
      process_preparing-Valid d n (kind_of m) m refl e h (rw e at h)
  process_phase-Valid d (committing n) m e h =
      process_committing-Valid d n (kind_of m) m refl e h (rw e at h)
  process_phase-Valid d decided m e h = h

  -- Whatever message an instance is given, the votes that it has counted stay valid for its phase:
  -- each from another node, for this instance, this view and the digest of its batch, as many as
  -- the phase says, and a quorum of them in each phase that is over.
  pub process_message-Valid :
      (d : ConsensusDecision) (m : StoredConsensusMessage)
      → Valid env d
      → Valid env (process_message a env d m).0
  unfolding process_message
  process_message-Valid d m h = process_phase-Valid d d.phase m refl h
