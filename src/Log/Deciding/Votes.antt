-- ===== src/Log/Deciding/Votes.antt =====
-- `WorkingDecisionLog::process_message` of febft-pbft-consensus/src/bft/log/deciding/mod.rs: the
-- first vote of a node in a phase, and another.
use febft.Base.{ℕ, ◌≡◌, true, false, [], ◌∷◌, ◌++◌, contains, ok, err, arith}
use febft.Message.{StoredConsensusMessage, prepare, commit, kind_of}
use febft.Log.Deciding.{WorkingDecisionLog, duplicate_vote_from_node, process_message}

abbrev pub log_prepare : WorkingDecisionLog → StoredConsensusMessage → WorkingDecisionLog
log_prepare l m = record l {
  duplicate_detection = record l.duplicate_detection {
    received_prepare_messages = m.from ∷ l.duplicate_detection.received_prepare_messages;
  };
  message_log = record l.message_log { prepares = l.message_log.prepares ++ m ∷ [] };
}

abbrev pub log_commit : WorkingDecisionLog → StoredConsensusMessage → WorkingDecisionLog
log_commit l m = record l {
  duplicate_detection = record l.duplicate_detection {
    received_commit_messages = m.from ∷ l.duplicate_detection.received_commit_messages;
  };
  message_log = record l.message_log { commits = l.message_log.commits ++ m ∷ [] };
}

module _ (l : WorkingDecisionLog) (m : StoredConsensusMessage) (digest : ℕ) where
  pub process_prepare_new :
      kind_of m ≡ prepare digest
      → contains l.duplicate_detection.received_prepare_messages m.from ≡ false
      → process_message l m ≡ (log_prepare l m, ok tt)
  unfolding process_message
  process_prepare_new k new = ground arith

  pub process_prepare_again :
      kind_of m ≡ prepare digest
      → contains l.duplicate_detection.received_prepare_messages m.from ≡ true
      → process_message l m ≡ (l, err (duplicate_vote_from_node m.from))
  unfolding process_message
  process_prepare_again k old = ground arith

  pub process_commit_new :
      kind_of m ≡ commit digest
      → contains l.duplicate_detection.received_commit_messages m.from ≡ false
      → process_message l m ≡ (log_commit l m, ok tt)
  unfolding process_message
  process_commit_new k new = ground arith

  pub process_commit_again :
      kind_of m ≡ commit digest
      → contains l.duplicate_detection.received_commit_messages m.from ≡ true
      → process_message l m ≡ (l, err (duplicate_vote_from_node m.from))
  unfolding process_message
  process_commit_again k old = ground arith
