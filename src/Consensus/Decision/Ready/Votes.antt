-- ===== src/Consensus/Decision/Ready/Votes.antt =====
-- What an instance needs in its phase, and the counting of a vote, of
-- febft-pbft-consensus/src/bft/consensus/decision/mod.rs.
use febft.Base.{ℕ, ◌≡◌, Bool-cases, inl, inr, ◌==◌, contains, some, ok}
use febft.Atlas.{Atlas}
use febft.Message.{StoredConsensusMessage, prepare, commit, kind_of}
use febft.Log.Deciding.Votes.{
  log_prepare, log_commit, process_prepare_new, process_prepare_again, process_commit_new,
  process_commit_again,
}
use febft.Consensus.Accessory.Total.{preparing_quorum_total}
use febft.Consensus.Decision.{ConsensusDecision, preparing, committing}
use febft.Consensus.Decision.Process.{
  Env, count_prepare, accept_prepare, count_commit, accept_commit,
}
use febft.Consensus.Decision.Ready.{ReadyLog, Fine, ReadyLog-prepare, ReadyLog-commit}

module _ (a : Atlas) (env : Env) where
  count_prepare-Fine :
      (d : ConsensusDecision) (received x : ℕ) (m : StoredConsensusMessage)
      → ReadyLog a env d.working_log
      → d.working_log.batch_digest ≡ some x
      → Fine a env (count_prepare a env d received m (log_prepare d.working_log m, ok tt))
  unfolding count_prepare
  count_prepare-Fine d received x m r e = elim (Bool-cases (received == env.view.params.quorum)) [
    | inl all ↦
        let (y, total) =
          preparing_quorum_total env.nonces (log_prepare d.working_log m) env.view x d.accessory
            e in
        rw (all, total, count_prepare)
          (record { log = ReadyLog-prepare a env d.working_log m r; phase = (x, e) }, tt)
    | inr more ↦
        rw (more, count_prepare)
          (record { log = ReadyLog-prepare a env d.working_log m r; phase = (x, e) }, tt)
  ]

  pub accept_prepare-Fine :
      (d : ConsensusDecision) (n received x digest : ℕ) (m : StoredConsensusMessage)
      → ReadyLog a env d.working_log
      → d.phase ≡ preparing n
      → d.working_log.batch_digest ≡ some x
      → kind_of m ≡ prepare digest
      → Fine a env (accept_prepare a env d received m)
  unfolding accept_prepare count_prepare
  accept_prepare-Fine d n received x digest m r p e k =
      elim (Bool-cases
        (contains d.working_log.duplicate_detection.received_prepare_messages m.from)) [
          | inl old ↦
              rw (process_prepare_again d.working_log m digest k old)
                (record { log = r; phase = rw p (x, e) }, tt)
          | inr new ↦
              rw (process_prepare_new d.working_log m digest k new)
                (count_prepare-Fine d received x m r e)
        ]

  count_commit-Fine :
      (d : ConsensusDecision) (received x : ℕ) (m : StoredConsensusMessage)
      → ReadyLog a env d.working_log
      → d.working_log.batch_digest ≡ some x
      → Fine a env (count_commit a env d received m (log_commit d.working_log m, ok tt))
  unfolding count_commit
  count_commit-Fine d received x m r e = elim (Bool-cases (received == env.view.params.quorum)) [
    | inl all ↦
        rw (all, count_commit)
          (record { log = ReadyLog-commit a env d.working_log m r; phase = (x, e) }, tt)
    | inr more ↦
        rw (more, count_commit)
          (record { log = ReadyLog-commit a env d.working_log m r; phase = (x, e) }, tt)
  ]

  pub accept_commit-Fine :
      (d : ConsensusDecision) (n received x digest : ℕ) (m : StoredConsensusMessage)
      → ReadyLog a env d.working_log
      → d.phase ≡ committing n
      → d.working_log.batch_digest ≡ some x
      → kind_of m ≡ commit digest
      → Fine a env (accept_commit a env d received m)
  unfolding accept_commit count_commit
  accept_commit-Fine d n received x digest m r p e k =
      elim (Bool-cases
        (contains d.working_log.duplicate_detection.received_commit_messages m.from)) [
          | inl old ↦
              rw (process_commit_again d.working_log m digest k old)
                (record { log = r; phase = rw p (x, e) }, tt)
          | inr new ↦
              rw (process_commit_new d.working_log m digest k new)
                (count_commit-Fine d received x m r e)
        ]
