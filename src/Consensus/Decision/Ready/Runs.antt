-- ===== src/Consensus/Decision/Ready/Runs.antt =====
-- Sequences of calls of an instance, of febft-pbft-consensus/src/bft/consensus/decision/mod.rs: what
-- it needs along them, and `ConsensusDecision::finalize`.
use febft.Base.{
  if◌then◌else◌, ℕ, ◌<◌, ◌≡◌, refl, true, false, Bool, inl, inr, some, List, [], ◌∷◌, length, ok,
  Distinct,
}
use febft.Atlas.{Atlas}
use febft.Message.{StoredConsensusMessage}
use febft.View.{ViewInfo}
use febft.Sync.{SynchronizerAccessory}
use febft.Log.Deciding
use febft.Log.Deciding.{WorkingDecisionLog, CompletedBatch}
use febft.Log.Deciding.Complete.{Orderly, new-Whole}
use febft.Log.Deciding.Finish.{Finished, finish_processing_batch-total}
use febft.Consensus.Accessory.{Nonces}
use febft.Consensus.Decision.{
  DecisionPollStatus, recv, extract_pre_prepare, extract_prepare, extract_commit, ConsensusDecision,
  DecisionPhase, initialize, pre_preparing, preparing, committing, decided, queue, MessageQueue,
  is_finalizeable, finalize, finalize_log, poll, poll_phase, init_with_msg_log, skip_init_phase,
  is_decided,
}
use febft.Consensus.Decision.Process.{Env, process_message}
use febft.Consensus.Decision.Run.{Event, receive, enqueue, polled, task, step, run, start, env_of}
use febft.Consensus.Decision.Ready.{PhaseReady, Ready}
use febft.Consensus.Decision.Ready.Kept.{process_message-Fine}

module _ (a : Atlas) (view : ViewInfo) (synchronizer : SynchronizerAccessory) where
  -- Nonces do not matter for being ready.
  abbrev any_env : Env
  any_env = env_of a view synchronizer (record { for_prepare = 0; for_commit = 0 })

  to_env :
      (nonces : Nonces) (d : ConsensusDecision)
      → Ready a any_env d
      → Ready a (env_of a view synchronizer nonces) d
  to_env nonces d r = record {
    log = record { whole = r.log.whole; leaders = r.log.leaders };
    phase = r.phase;
  }

  from_env :
      (nonces : Nonces) (d : ConsensusDecision)
      → Ready a (env_of a view synchronizer nonces) d
      → Ready a any_env d
  from_env nonces d r = record {
    log = record { whole = r.log.whole; leaders = r.log.leaders };
    phase = r.phase;
  }

  start-Ready :
      (node_id seq_no : ℕ) (q : MessageQueue) (skip : Bool)
      → Distinct view.leader_set
      → 0 < length view.leader_set
      → Ready a any_env (start a view synchronizer node_id seq_no q skip)
  unfolding init_with_msg_log skip_init_phase Deciding.new
  start-Ready node_id seq_no q true d h = record {
    log = record { whole = new-Whole a node_id seq_no view d h; leaders = refl };
    phase = refl;
  }
  start-Ready node_id seq_no q false d h = record {
    log = record { whole = new-Whole a node_id seq_no view d h; leaders = refl };
    phase = refl;
  }

  if-Ready :
      (b : Bool) (x y : ConsensusDecision × DecisionPollStatus)
      → Ready a any_env x.0
      → Ready a any_env y.0
      → Ready a any_env (if b then x else y).0
  if-Ready true x y h k = h
  if-Ready false x y h k = k

  extract_pre_prepare-Ready :
      (d : ConsensusDecision) (ms : List StoredConsensusMessage)
      → Ready a any_env d
      → Ready a any_env (extract_pre_prepare d ms).0
  extract_pre_prepare-Ready d [] r = record { log = r.log; phase = r.phase }
  extract_pre_prepare-Ready d (m ∷ ms) r = record { log = r.log; phase = r.phase }

  extract_prepare-Ready :
      (d : ConsensusDecision) (ms : List StoredConsensusMessage)
      → Ready a any_env d
      → Ready a any_env (extract_prepare d ms).0
  extract_prepare-Ready d [] r = record { log = r.log; phase = r.phase }
  extract_prepare-Ready d (m ∷ ms) r = record { log = r.log; phase = r.phase }

  extract_commit-Ready :
      (d : ConsensusDecision) (ms : List StoredConsensusMessage)
      → Ready a any_env d
      → Ready a any_env (extract_commit d ms).0
  extract_commit-Ready d [] r = record { log = r.log; phase = r.phase }
  extract_commit-Ready d (m ∷ ms) r = record { log = r.log; phase = r.phase }

  poll-Ready :
      (d : ConsensusDecision) (phase : DecisionPhase)
      → d.phase ≡ phase
      → Ready a any_env d
      → Ready a any_env (poll_phase d phase).0
  unfolding poll_phase
  poll-Ready d initialize e r = record { log = r.log; phase = rw e at r.phase }
  poll-Ready d (pre_preparing n) e r =
      if-Ready d.message_queue.get_queue (extract_pre_prepare d d.message_queue.pre_prepares)
        (d, recv) (extract_pre_prepare-Ready d d.message_queue.pre_prepares r) r
  poll-Ready d (preparing n) e r =
      if-Ready d.message_queue.get_queue (extract_prepare d d.message_queue.prepares) (d, recv)
        (extract_prepare-Ready d d.message_queue.prepares r) r
  poll-Ready d (committing n) e r =
      if-Ready d.message_queue.get_queue (extract_commit d d.message_queue.commits) (d, recv)
        (extract_commit-Ready d d.message_queue.commits r) r
  poll-Ready d decided e r = r

  step-Ready :
      (d : ConsensusDecision) (e : Event)
      → Ready a any_env d
      → Ready a any_env (step a view synchronizer d e)
  unfolding step queue poll
  step-Ready d (receive nonces m) r =
      from_env nonces _
        (process_message-Fine a (env_of a view synchronizer nonces) d m (to_env nonces d r)).0
  step-Ready d (enqueue m) r = record { log = r.log; phase = r.phase }
  step-Ready d polled r = poll-Ready d d.phase refl r
  step-Ready d task r = record { log = r.log; phase = r.phase }

  run-Ready :
      (d : ConsensusDecision) (es : List Event)
      → Ready a any_env d
      → Ready a any_env (run a view synchronizer d es)
  unfolding run
  run-Ready d [] r = r
  run-Ready d (e ∷ es) r = run-Ready (step a view synchronizer d e) es (step-Ready d e r)

  -- After any calls in any order, in a view with different leaders, one at least, an instance
  -- takes any further message without a panic and without failing to compute its digest.
  pub message_never_panics :
      (node_id seq_no : ℕ) (q : MessageQueue) (skip : Bool) (es : List Event) (nonces : Nonces)
      (m : StoredConsensusMessage)
      → Distinct view.leader_set
      → 0 < length view.leader_set
      → Orderly
          (process_message a
            (env_of a view synchronizer nonces)
            (run a view synchronizer (start a view synchronizer node_id seq_no q skip) es)
            m).2
  message_never_panics node_id seq_no q skip es nonces m d h =
      let r =
        run-Ready (start a view synchronizer node_id seq_no q skip) es
          (start-Ready node_id seq_no q skip d h) in
      (process_message-Fine a (env_of a view synchronizer nonces) _ m (to_env nonces _ r)).1

  decided_digest :
      (phase : DecisionPhase) (l : WorkingDecisionLog)
      → is_decided phase ≡ true
      → PhaseReady phase l
      → (x : ℕ) × (l.batch_digest ≡ some x)
  unfolding is_decided
  decided_digest initialize l e h = cc
  decided_digest (pre_preparing n) l e h = cc
  decided_digest (preparing n) l e h = h
  decided_digest (committing n) l e h = h
  decided_digest decided l e h = h

  finalize-Finished :
      (d : ConsensusDecision)
      → is_finalizeable d ≡ true
      → Ready a any_env d
      → (b : CompletedBatch) × (finalize d ≡ ok b) × Finished a d.working_log b
  unfolding finalize is_finalizeable finalize_log
  finalize-Finished d e r = elim (finish_processing_batch-total a d.working_log r.log.whole) [
    | inl (n, f) ↦ let (x, some_digest) = decided_digest d.phase d.working_log e r.phase in cc
    | inr (b, f) ↦ (b, rw (e, f.finished, finalize) refl, f)
  ]

  -- After any calls in any order, in a view with different leaders, one at least, an instance that
  -- can be finalized is: its batch has its sequence number and its digest, and from its proof a
  -- replica reads the decision that `finalize_batch` reports, but for the list of the clients'
  -- request infos: that of the proof is of the requests of the batch, in their order.
  pub decided_finalizes :
      (node_id seq_no : ℕ) (q : MessageQueue) (skip : Bool) (es : List Event)
      → Distinct view.leader_set
      → 0 < length view.leader_set
      → is_finalizeable
          (run a view synchronizer (start a view synchronizer node_id seq_no q skip) es)
        ≡ true
      → (b : CompletedBatch) × (finalize
            (run a view synchronizer (start a view synchronizer node_id seq_no q skip) es)
          ≡ ok b)
        × Finished a
            (run a view synchronizer
              (start a view synchronizer node_id seq_no q skip)
              es).working_log
            b
  decided_finalizes node_id seq_no q skip es d h e = finalize-Finished _ e (
      run-Ready (start a view synchronizer node_id seq_no q skip) es
        (start-Ready node_id seq_no q skip d h))
