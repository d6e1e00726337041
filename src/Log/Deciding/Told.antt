-- ===== src/Log/Deciding/Told.antt =====
-- The result of `WorkingDecisionLog::process_pre_prepare`, of
-- febft-pbft-consensus/src/bft/log/deciding/mod.rs, against the log after the call.
use febft.Base.{
  set, ◌++◌, ℕ, ◌+◌, ◌≡◌, ◌≢◌, refl, ap, not, ◌&&◌, Bool-cases, Option-cases, inl, inr, ◌==◌, leb,
  ltb, contains, lookup, Option, none, some, List, length, Result, ok, err, panic, arith, ==_iff,
}
use febft.Atlas.{Atlas}
use febft.Message.{
  ClientRqInfo, Request, StoredConsensusMessage, ConsensusMessageKind, pre_prepare, prepare, commit,
  kind_of,
}
use febft.Log.Decisions.{ProofMetadata, position}
use febft.Log.Deciding.{
  WorkingDecisionLog, DecidingLogError, failed_to_calculate_digest, calculate_instance_digest,
  complete_batch, store_batch, store_at, insert_pre_prepare_received, insert_received,
  pre_prepare_index_of, accept_batch, process_pre_prepare, all_in_hash_space,
}

abbrev pub Told : Option ProofMetadata → WorkingDecisionLog → Type 0
Told none l = l.current_received_pre_prepares ≢ length l.leader_set
Told (some metadata) l =
    (l.current_received_pre_prepares ≡ length l.leader_set)
    × (l.batch_digest ≡ some metadata.batch_digest)

-- `l` before the call, and what the call gives, where it neither panics nor fails to compute the
-- digest.
abbrev pub After :
    WorkingDecisionLog
    → WorkingDecisionLog
    → Result DecidingLogError (Option ProofMetadata)
    → Type 0
After l e (ok o) =
    (e.current_received_pre_prepares ≡ l.current_received_pre_prepares + 1)
    × (e.leader_set ≡ l.leader_set)
    × Told o e
After l e (err (failed_to_calculate_digest seq)) = Unit
After l e (err x) =
    (e.current_received_pre_prepares ≡ l.current_received_pre_prepares)
    × (e.leader_set ≡ l.leader_set)
    × (e.batch_digest ≡ l.batch_digest)
After l e panic = Unit

-- The log with the batch `rqs` in the slot `i`.
abbrev stored :
    WorkingDecisionLog
    → ℕ
    → List Request
    → StoredConsensusMessage
    → List ClientRqInfo
    → WorkingDecisionLog
stored l i rqs m infos = record l {
  pre_prepare_digests = set l.pre_prepare_digests i (some m.digest);
  contained_requests = set l.contained_requests i (some rqs);
  current_received_pre_prepares = l.current_received_pre_prepares + 1;
  current_batch_size = l.current_batch_size + length infos;
  client_rqs = l.client_rqs ++ infos;
  message_log = record l.message_log { pre_prepare = set l.message_log.pre_prepare i (some m) };
}

abbrev marked : WorkingDecisionLog → StoredConsensusMessage → WorkingDecisionLog
marked l m = record l {
  duplicate_detection = (insert_pre_prepare_received l.duplicate_detection m.from).0;
}

module _ (a : Atlas) where
  complete_batch-After :
      (b l : WorkingDecisionLog)
      → l.current_received_pre_prepares ≡ b.current_received_pre_prepares + 1
      → l.leader_set ≡ b.leader_set
      → After b (complete_batch a l).0 (complete_batch a l).1
  unfolding complete_batch
  complete_batch-After b l c s =
      elim (Bool-cases (l.current_received_pre_prepares == length l.leader_set)) [
        | inr missing ↦ rw missing (c, s, ground arith)
        | inl full ↦ elim (Option-cases (calculate_instance_digest a l)) [
          | inl n ↦ rw (full, n) tt
          | inr (x, e) ↦
              rw (full, e)
                (
                  c,
                  s,
                  ((==_iff l.current_received_pre_prepares (length l.leader_set)).0 full, refl),
                )
        ]
      ]

  store_at-After :
      (b l : WorkingDecisionLog) (i : ℕ) (kind : ConsensusMessageKind) (m : StoredConsensusMessage)
      (infos : List ClientRqInfo)
      → l.current_received_pre_prepares ≡ b.current_received_pre_prepares
      → l.leader_set ≡ b.leader_set
      → After b (store_at a l i kind m infos).0 (store_at a l i kind m infos).1
  unfolding store_at store_batch
  store_at-After b l i (pre_prepare rqs) m infos c s =
      elim (Bool-cases
        (ltb i (length l.contained_requests) && ltb i (length l.message_log.pre_prepare))) [
          | inl e ↦
              rw (e, store_batch)
                (complete_batch-After b (stored l i rqs m infos) (ap (λ k. k + 1) c) s)
          | inr e ↦ rw (e, store_batch) tt
        ]
  store_at-After b l i (prepare d) m infos c s = tt
  store_at-After b l i (commit d) m infos c s = tt

  accept_batch-After :
      (l : WorkingDecisionLog) (m : StoredConsensusMessage) (infos : List ClientRqInfo)
      → After l (accept_batch a l m infos).0 (accept_batch a l m infos).1
  unfolding accept_batch insert_pre_prepare_received insert_received pre_prepare_index_of
  accept_batch-After l m infos =
      elim (Bool-cases (contains l.duplicate_detection.received_pre_prepare_messages m.from)) [
        | inl again ↦ rw (again, accept_batch) (refl, refl, refl)
        | inr fresh ↦ elim (Option-cases (position l.leader_set m.from)) [
          | inl no_leader ↦ rw (fresh, no_leader, accept_batch) (refl, refl, refl)
          | inr (i, p) ↦ elim (Bool-cases (leb (length l.pre_prepare_digests) i)) [
            | inl out ↦ rw (fresh, p, out, accept_batch) (refl, refl, refl)
            | inr inside ↦
                rw (fresh, p, inside, accept_batch)
                  (store_at-After l (marked l m) i (kind_of m) m infos refl refl)
          ]
        ]
      ]

  pub process_pre_prepare-After :
      (l : WorkingDecisionLog) (m : StoredConsensusMessage) (infos : List ClientRqInfo)
      → After l (process_pre_prepare a l m infos).0 (process_pre_prepare a l m infos).1
  unfolding process_pre_prepare
  process_pre_prepare-After l m infos = elim (Option-cases (lookup m.from l.request_space_slices)) [
    | inl no_slice ↦ rw (no_slice, process_pre_prepare) (refl, refl, refl)
    | inr (slice, e) ↦
        elim (Bool-cases (not (m.from == l.node_id) && not (all_in_hash_space a infos slice))) [
          | inl outside ↦ rw (e, outside, process_pre_prepare) (refl, refl, refl)
          | inr inside ↦ rw (e, inside, process_pre_prepare) (accept_batch-After l m infos)
        ]
  ]
