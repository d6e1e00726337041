-- ===== src/Log/Deciding/Collect.antt =====
-- febft-pbft-consensus/src/bft/log/deciding/mod.rs: what is read off the log of an instance, for a
-- view change (`deciding`) and once the instance is decided (`finish_processing_batch`).
use febft.Base.{
  ℕ, ◌+◌, ◌*◌, Option, none, some, List, [], ◌∷◌, ◌++◌, reverse, ◌==◌, if◌then◌else◌, Result, ok,
  panic, ◌>>=◌, unwrap,
}
use febft.Message.{
  Request, StoredConsensusMessage, ConsensusMessageKind, pre_prepare, prepare, commit, kind_of,
  view_of,
}
use febft.Log.Decisions.{ViewDecisionPair, IncompleteProof}
use febft.Log.Deciding.{
  DecidingLogError, MessageLog, FinishedMessageLog, CompletedBatch, WorkingDecisionLog,
}

-- `iter().map(|opt| opt.unwrap()).collect()`
unfoldable pub unwrap_all {ℓ} : {E : Type 0} {A : Type ℓ} → List (Option A) → Result E (List A)
unwrap_all [] = ok []
unwrap_all (o ∷ os) = do x ← unwrap o; xs ← unwrap_all os; ok (x ∷ xs)

unfoldable pub finalize : MessageLog → Result DecidingLogError FinishedMessageLog
finalize l = do
  pre_prepares ← unwrap_all l.pre_prepare
  ok (record { pre_prepares = pre_prepares; prepares = l.prepares; commits = l.commits })

-- The digest that a `PREPARE` votes for; another message is unreachable.
unfoldable pub prepare_digest : ConsensusMessageKind → Result DecidingLogError ℕ
prepare_digest (pre_prepare rqs) = panic
prepare_digest (prepare d) = ok d
prepare_digest (commit d) = panic

unfoldable pub pair_of : StoredConsensusMessage → Result DecidingLogError ViewDecisionPair
unfolding prepare_digest
pair_of m = do
  digest ← prepare_digest (kind_of m)
  ok (record { view = view_of m; digest = digest })

unfoldable pub write_set :
    List StoredConsensusMessage → Result DecidingLogError (List ViewDecisionPair)
write_set [] = ok []
write_set (m ∷ ms) = do pair ← pair_of m; rest ← write_set ms; ok (pair ∷ rest)

-- `last_view` is none, or the view `v` of the message before, newest first.
abbrev pub restart : Option ℕ → ℕ → ℕ → ℕ
restart none view count = count
restart (some v) view count = if view == v then count else 0

unfoldable pub quorum_prepares :
    ℕ
    → Option ℕ
    → ℕ
    → List StoredConsensusMessage
    → Result DecidingLogError (Option ViewDecisionPair)
quorum_prepares quorum last_view count [] = ok none
quorum_prepares quorum last_view count (m ∷ ms) =
    let seen = restart last_view (view_of m) count + 1 in
    let rest = quorum_prepares quorum (some (view_of m)) seen ms in
    let found : Result DecidingLogError (Option ViewDecisionPair) = do
      pair ← pair_of m
      ok (some pair)
    in if seen == quorum then found else rest

-- `f << 1` is `2 * f`.
unfoldable pub deciding : WorkingDecisionLog → ℕ → Result DecidingLogError IncompleteProof
deciding l f = do
  pairs ← write_set (reverse l.message_log.prepares)
  quorum ← quorum_prepares (2 * f) none 0 (reverse l.message_log.prepares)
  ok (record { in_exec = l.seq_no; write_set = pairs; quorum_prepares = quorum })

-- The requests of all batches, in the order of the leaders.
unfoldable pub append_requests :
    List (Option (List Request)) → Result DecidingLogError (List Request)
append_requests [] = ok []
append_requests (o ∷ os) = do rqs ← unwrap o; rest ← append_requests os; ok (rqs ++ rest)

unfoldable pub finish_processing_batch :
    WorkingDecisionLog → Result DecidingLogError (Option CompletedBatch)
unfolding finalize
finish_processing_batch l = elim l.batch_digest [
  | none ↦ ok none
  | some current_digest ↦ do
    ordering ← unwrap_all l.pre_prepare_digests
    requests ← append_requests l.contained_requests
    messages ← finalize l.message_log
    ok (
        some (record {
          seq = l.seq_no;
          digest = current_digest;
          pre_prepare_ordering = ordering;
          contained_messages = messages;
          client_request_info = l.client_rqs;
          client_requests = requests;
        }))
]
