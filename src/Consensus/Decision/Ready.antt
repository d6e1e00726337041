-- ===== src/Consensus/Decision/Ready.antt =====
-- What an instance needs in its phase, of febft-pbft-consensus/src/bft/consensus/decision/mod.rs, and
-- the step that takes a batch.
pub mod Votes
pub mod Kept
pub mod Runs
use febft.Base.{
  ℕ, suc, ◌+◌, ◌≡◌, ◌≢◌, refl, sym, ◌∙◌, ap, subst, true, false, not, ◌&&◌, Bool-cases,
  Option-cases, Result-cases, ◌⊎◌, inl, inr, ◌==◌, contains, Option, none, some, List, [], ◌++◌,
  length, Result, ok, err, panic, arith, ==_iff,
}
use febft.Atlas.{Atlas}
use febft.Node.{Action}
use febft.Message.{
  ClientRqInfo, Request, StoredConsensusMessage, ConsensusMessageKind, pre_prepare, prepare, commit,
  kind_of, view_of, seq_of,
}
use febft.Sync.{request_batch_received}
use febft.Log.Decisions.{ProofMetadata}
use febft.Log.Deciding.{
  WorkingDecisionLog, DecidingLogError, failed_to_calculate_digest, process_pre_prepare,
}
use febft.Log.Deciding
use febft.Log.Deciding.Complete.{Whole, Aligned, Digested, Orderly}
use febft.Log.Deciding.Complete.Kept.{process_pre_prepare-Whole}
use febft.Log.Deciding.Told.{Told, After, process_pre_prepare-After}
use febft.Log.Deciding.Votes.{
  log_prepare, log_commit, process_prepare_new, process_prepare_again, process_commit_new,
  process_commit_again,
}
use febft.Consensus.Accessory.{ConsensusDecisionAccessory}
use febft.Consensus.Accessory.Total.{preparing_quorum_total, pre_prepare_phase_completed_total}
use febft.Consensus.Decision.{
  ConsensusDecision, DecisionPhase, initialize, pre_preparing, preparing, committing, decided,
  DecisionStatus, queue,
}
use febft.Consensus.Decision.Process.{
  Env, Outcome, complete_pre_prepare, count_pre_prepare, accept_pre_prepare, process_pre_preparing,
  count_prepare, accept_prepare, process_preparing, count_commit, accept_commit, process_committing,
  process_phase, process_message,
}

-- The batches are counted until all are here; from then on the digest is known.
abbrev pub PhaseReady : DecisionPhase → WorkingDecisionLog → Type 0
PhaseReady initialize l = l.current_received_pre_prepares ≡ 0
PhaseReady (pre_preparing n) l = l.current_received_pre_prepares ≡ n
PhaseReady (preparing n) l = (x : ℕ) × (l.batch_digest ≡ some x)
PhaseReady (committing n) l = (x : ℕ) × (l.batch_digest ≡ some x)
PhaseReady decided l = (x : ℕ) × (l.batch_digest ≡ some x)

-- What the log has of its own, and has in common with the view.
pub record ReadyLog (a : Atlas) (env : Env) (l : WorkingDecisionLog) : Type 0 where
  pub whole : Whole a l
  pub leaders : l.leader_set ≡ env.view.leader_set

pub record Ready (a : Atlas) (env : Env) (d : ConsensusDecision) : Type 0 where
  pub log : ReadyLog a env d.working_log
  pub phase : PhaseReady d.phase d.working_log

-- The instance after a call is ready, and the call did not panic.
abbrev pub Fine : Atlas → Env → Outcome → Type 0
Fine a env o = Ready a env o.0 × Orderly o.2

After-err :
    (l e : WorkingDecisionLog) (x : DecidingLogError)
    → Orderly {A = Option ProofMetadata} (err x)
    → After l e (err x)
    → (e.current_received_pre_prepares ≡ l.current_received_pre_prepares)
      × (e.leader_set ≡ l.leader_set)
      × (e.batch_digest ≡ l.batch_digest)
After-err l e (DecidingLogError.proposer_not_in_leader_set p q) h k = k
After-err l e (DecidingLogError.pre_prepare_not_part_of_set p q) h k = k
After-err l e (DecidingLogError.duplicate_vote_from_node p) h k = k
After-err l e (DecidingLogError.failed_to_calculate_digest p) h k = elim h [ ]
After-err l e (DecidingLogError.leader_not_in_leader_set p) h k = k
After-err l e (DecidingLogError.batch_contains_requests_not_in_leader_addr_space p) h k = k
After-err l e (DecidingLogError.failed_to_get_leaders_request_space p) h k = k

Orderly-err :
    (x : DecidingLogError)
    → Orderly {A = Option ProofMetadata} (err x)
    → Orderly {A = DecisionStatus} (err x)
Orderly-err (DecidingLogError.proposer_not_in_leader_set p q) h = tt
Orderly-err (DecidingLogError.pre_prepare_not_part_of_set p q) h = tt
Orderly-err (DecidingLogError.duplicate_vote_from_node p) h = tt
Orderly-err (DecidingLogError.failed_to_calculate_digest p) h = h
Orderly-err (DecidingLogError.leader_not_in_leader_set p) h = tt
Orderly-err (DecidingLogError.batch_contains_requests_not_in_leader_addr_space p) h = tt
Orderly-err (DecidingLogError.failed_to_get_leaders_request_space p) h = tt

module _ (a : Atlas) (env : Env) where
  Digested-prepare :
      (o : Option ℕ) (l : WorkingDecisionLog) (m : StoredConsensusMessage)
      → Digested a o l
      → Digested a o (log_prepare l m)
  Digested-prepare none l m h = h
  Digested-prepare (some x) l m h = h

  Digested-commit :
      (o : Option ℕ) (l : WorkingDecisionLog) (m : StoredConsensusMessage)
      → Digested a o l
      → Digested a o (log_commit l m)
  Digested-commit none l m h = h
  Digested-commit (some x) l m h = h

  pub ReadyLog-prepare :
      (l : WorkingDecisionLog) (m : StoredConsensusMessage)
      → ReadyLog a env l
      → ReadyLog a env (log_prepare l m)
  ReadyLog-prepare l m r = record {
    whole = record {
      aligned = record {
        distinct = r.whole.aligned.distinct;
        slots = r.whole.aligned.slots;
        digests = r.whole.aligned.digests;
        requests = r.whole.aligned.requests;
        counted = r.whole.aligned.counted;
      };
      digested = Digested-prepare l.batch_digest l m r.whole.digested;
    };
    leaders = r.leaders;
  }

  pub ReadyLog-commit :
      (l : WorkingDecisionLog) (m : StoredConsensusMessage)
      → ReadyLog a env l
      → ReadyLog a env (log_commit l m)
  ReadyLog-commit l m r = record {
    whole = record {
      aligned = record {
        distinct = r.whole.aligned.distinct;
        slots = r.whole.aligned.slots;
        digests = r.whole.aligned.digests;
        requests = r.whole.aligned.requests;
        counted = r.whole.aligned.counted;
      };
      digested = Digested-commit l.batch_digest l m r.whole.digested;
    };
    leaders = r.leaders;
  }

  complete_pre_prepare-Fine :
      (d : ConsensusDecision) (m : StoredConsensusMessage) (actions : List Action)
      (metadata : ProofMetadata)
      → ReadyLog a env d.working_log
      → d.working_log.batch_digest ≡ some metadata.batch_digest
      → Fine a env (complete_pre_prepare a env d m actions (some metadata))
  unfolding complete_pre_prepare
  complete_pre_prepare-Fine d m actions metadata r e =
      let (x, total) =
        pre_prepare_phase_completed_total env.nonces d.working_log env.view metadata.batch_digest
          d.accessory e in
      rw (total, complete_pre_prepare) (record { log = r; phase = (metadata.batch_digest, e) }, tt)

  count_pre_prepare-Fine :
      (d : ConsensusDecision) (received : ℕ) (m : StoredConsensusMessage) (actions : List Action)
      (o : Option ProofMetadata)
      → ReadyLog a env d.working_log
      → d.working_log.current_received_pre_prepares ≡ received
      → Told o d.working_log
      → Fine a env (count_pre_prepare a env d received m actions o)
  unfolding count_pre_prepare
  count_pre_prepare-Fine d received m actions none r c t =
      let more : (received == length env.view.leader_set) ≡ false =
        ground (arith, ap length r.leaders) in
      rw (more, count_pre_prepare) (record { log = r; phase = c }, tt)
  count_pre_prepare-Fine d received m actions (some metadata) r c t =
      let all : (received == length env.view.leader_set) ≡ true =
        ground (arith, ap length r.leaders) in
      rw (all, count_pre_prepare) (complete_pre_prepare-Fine d m actions metadata r t.1)

  pub accept_pre_prepare-Fine :
      (d : ConsensusDecision) (n : ℕ) (rqs : List Request) (m : StoredConsensusMessage)
      → ReadyLog a env d.working_log
      → d.phase ≡ pre_preparing n
      → d.working_log.current_received_pre_prepares ≡ n
      → kind_of m ≡ pre_prepare rqs
      → Fine a env (accept_pre_prepare a env d (n + 1) rqs m)
  unfolding accept_pre_prepare
  accept_pre_prepare-Fine d n rqs m r p c k =
      elim (Result-cases (process_pre_prepare a d.working_log m infos).1) [
        | inl (o, e) ↦
            let (counted, leaders, told) = rw e at after in
            rw (e, accept_pre_prepare)
              (count_pre_prepare-Fine (record d { working_log = log }) (n + 1) m _ o
                (record { whole = kept.0; leaders = leaders ∙ r.leaders })
                (counted ∙ ap (λ j. j + 1) c) told)
        | inr (inl (x, e)) ↦
            let orderly = rw e at kept.1 in
            let (same, leaders, digest) = After-err d.working_log log x orderly (rw e at after) in
            rw (e, accept_pre_prepare)
              (
                record {
                  log = record { whole = kept.0; leaders = leaders ∙ r.leaders };
                  phase = rw p (same ∙ c);
                },
                Orderly-err x orderly,
              )
        | inr (inr e) ↦ elim (rw e at kept.1) [ ]
      ]
    where
      infos : List ClientRqInfo
      infos = (request_batch_received env.synchronizer m.from rqs).0

      log : WorkingDecisionLog
      log = (process_pre_prepare a d.working_log m infos).0

      kept : Whole a log × Orderly (process_pre_prepare a d.working_log m infos).1
      kept = process_pre_prepare-Whole a d.working_log m infos r.whole k

      after : After d.working_log log (process_pre_prepare a d.working_log m infos).1
      after = process_pre_prepare-After a d.working_log m infos
