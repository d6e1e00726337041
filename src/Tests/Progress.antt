-- ===== src/Tests/Progress.antt =====
-- The votes of four replicas that take an instance to its decision.
use febft.Base.{ℕ, ◌≡◌, refl, true, false, List, [], ◌∷◌, arith}
use febft.Message.{StoredConsensusMessage, ConsensusMessageKind, pre_prepare, prepare, commit}
use febft.View.{ViewInfo}
use febft.Sync.{SynchronizerAccessory}
use febft.Consensus.Decision.{ConsensusDecision, MessageQueue, new_queue, is_finalizeable}
use febft.Consensus.Decision.Process.{process_message}
use febft.Consensus.Decision.Run.{
  Event, receive, polled, task, start, run, env_of, run-Votes, start-Votes,
}
use febft.Consensus.Decision.{finalize, preparing}
use febft.Consensus.Decision.Progress.{
  Standing, Fresh, prepare_nodes, commit_nodes, receives, quorum_decides,
}
use febft.Tests.Concrete.{atlas}
use febft.Base.{ok}
use febft.Message.{ConsensusMessage}
use febft.Node.{Action, broadcast_signed}
use febft.Consensus.Accessory.{
  ReplicaAccessory, new_accessory, replica_pre_prepare_phase_completed, replica_preparing_quorum,
}
use febft.Consensus.Accessory.Commits.{SendsCommit, run_tasks, votes_sent}
use febft.Tests.Decisions.{four, nonces, rqs, from}

-- All batches are in, and no vote is.
abbrev batched : ConsensusDecision
batched =
    run atlas four SynchronizerAccessory.replica
      (start atlas four SynchronizerAccessory.replica 0 6 new_queue false)
      (polled ∷ from 1 (pre_prepare rqs) ∷ [])

abbrev vote : ℕ → ConsensusMessageKind → StoredConsensusMessage
vote node kind = record {
  from = node;
  digest = 22;
  message = record { seq = 6; view = 1; nonce = 0; kind = kind };
}

abbrev prepares : List StoredConsensusMessage
prepares = vote 3 (prepare 21) ∷ vote 0 (prepare 21) ∷ vote 1 (prepare 21) ∷ []

abbrev commits : List StoredConsensusMessage
commits = vote 1 (commit 21) ∷ vote 2 (commit 21) ∷ vote 3 (commit 21) ∷ []

batched-Standing : Standing 21 6 (preparing 0) batched
unfolding run febft.Consensus.Decision.Run.step process_message febft.Consensus.Decision.poll
    febft.Consensus.Decision.init_with_msg_log febft.View.is_request_in_hash_space
batched-Standing = record { digest = refl; number = refl; in_phase = refl }

prepares-Fresh : Fresh (prepare_nodes batched) prepares
unfolding run febft.Consensus.Decision.Run.step process_message febft.Consensus.Decision.poll
    febft.Consensus.Decision.init_with_msg_log febft.View.is_request_in_hash_space
prepares-Fresh = (refl, (refl, (refl, tt)))

commits-Fresh : Fresh (commit_nodes batched) commits
unfolding run febft.Consensus.Decision.Run.step process_message febft.Consensus.Decision.poll
    febft.Consensus.Decision.init_with_msg_log febft.View.is_request_in_hash_space
commits-Fresh = (refl, (refl, (refl, tt)))

quorum_decides_example :
    is_finalizeable (
      run atlas four SynchronizerAccessory.replica
        (run atlas four SynchronizerAccessory.replica batched (receives nonces prepares))
        (receives nonces commits))
    ≡ true
quorum_decides_example =
    quorum_decides atlas four SynchronizerAccessory.replica nonces prepares commits batched 21 6
      batched-Standing ((refl, refl, refl), ((refl, refl, refl), ((refl, refl, refl), tt)))
      ((refl, refl, refl), ((refl, refl, refl), ((refl, refl, refl), tt))) prepares-Fresh
      commits-Fresh refl refl (omega arith)

votes_sent_example :
    (r : ReplicaAccessory) × (m : ConsensusMessage) × (replica_pre_prepare_phase_completed nonces
        batched.working_log four new_accessory
      ≡ ok (r, broadcast_signed m four.quorum_members ∷ []))
    × (m.kind ≡ prepare 21)
    × ((x : ReplicaAccessory) × (action : Action) × (replica_preparing_quorum nonces
            batched.working_log four
            (run_tasks 4 r)
          ≡ ok (x, action ∷ []))
        × SendsCommit four batched.working_log.seq_no 21 action
        × (x.speculative_commits ≡ []))
votes_sent_example = votes_sent nonces batched.working_log four 21 4 batched-Standing.digest
