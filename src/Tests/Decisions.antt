-- ===== src/Tests/Decisions.antt =====
-- An instance of four replicas that decides, at two of them.
use febft.Base.{ok, ℕ, ◌≡◌, refl, true, false, List, [], ◌∷◌, arith}
use febft.Base.Pigeonhole.{Subset}
use febft.Message.{
  Request, StoredConsensusMessage, ConsensusMessageKind, pre_prepare, prepare, commit,
}
use febft.View.{ViewInfo}
use febft.Sync.{SynchronizerAccessory}
use febft.Consensus.Accessory.{Nonces}
use febft.Consensus.Decision.{ConsensusDecision, MessageQueue, new_queue, is_finalizeable}
use febft.Consensus.Decision.Process.{process_message}
use febft.Consensus.Decision.Votes.{Valid, senders}
use febft.Consensus.Decision.Votes.Kept.{process_message-Valid}
use febft.Consensus.Decision.Run.{
  Event, receive, polled, task, start, run, env_of, run-Votes, start-Votes,
}
use febft.Log.Deciding.{CompletedBatch}
use febft.Log.Deciding.Complete.{Orderly}
use febft.Log.Deciding.Finish.{Finished}
use febft.Consensus.Decision.{finalize, preparing}
use febft.Consensus.Decision.Ready.Runs.{decided_finalizes, message_never_panics}
use febft.Consensus.Decision.Agreement.{Certified, Consistent, decided-Certified, decided_agree}
use febft.Tests.Concrete.{atlas}

abbrev pub four : ViewInfo
four = record {
  seq = 1;
  quorum_members = 0 ∷ 1 ∷ 2 ∷ 3 ∷ [];
  leader_set = 1 ∷ [];
  leader_hash_space_division = (1, (0 ∷ [], 255 ∷ [])) ∷ [];
  params = record { n = 4; f = 1; quorum = 3 };
}

abbrev pub nonces : Nonces
nonces = record { for_prepare = 8; for_commit = 9 }

abbrev pub rqs : List Request
rqs = record { info = record { digest = 5; sender = 9; session = 1; seq_no = 3 }; body = 40 } ∷ []

abbrev pub from : ℕ → ConsensusMessageKind → Event
from node kind = receive nonces (record {
  from = node;
  digest = 21;
  message = record { seq = 6; view = 1; nonce = 0; kind = kind };
})

-- The second vote of node 1 is refused.
abbrev calls : List Event
calls =
    polled
    ∷ from 1 (pre_prepare rqs)
    ∷ from 1 (prepare 21)
    ∷ from 1 (prepare 21)
    ∷ from 0 (prepare 21)
    ∷ task
    ∷ from 3 (prepare 21)
    ∷ from 0 (commit 21)
    ∷ from 1 (commit 21)
    ∷ from 3 (commit 21)
    ∷ []

abbrev other_calls : List Event
other_calls =
    polled
    ∷ from 1 (pre_prepare rqs)
    ∷ from 1 (prepare 21)
    ∷ from 2 (prepare 21)
    ∷ from 3 (prepare 21)
    ∷ from 2 (commit 21)
    ∷ from 1 (commit 21)
    ∷ from 3 (commit 21)
    ∷ []

abbrev at_zero : ConsensusDecision
at_zero =
    run atlas four SynchronizerAccessory.replica
      (start atlas four SynchronizerAccessory.replica 0 6 new_queue false) calls

abbrev at_two : ConsensusDecision
at_two =
    run atlas four SynchronizerAccessory.replica
      (start atlas four SynchronizerAccessory.replica 2 6 new_queue false) other_calls

zero_decides : is_finalizeable at_zero ≡ true
unfolding is_finalizeable run febft.Consensus.Decision.Run.step process_message
    febft.Consensus.Decision.poll febft.Consensus.Decision.init_with_msg_log
    febft.View.is_request_in_hash_space
zero_decides = refl

two_decides : is_finalizeable at_two ≡ true
unfolding is_finalizeable run febft.Consensus.Decision.Run.step process_message
    febft.Consensus.Decision.poll febft.Consensus.Decision.init_with_msg_log
    febft.View.is_request_in_hash_space
two_decides = refl

decided-Certified_example : Certified four at_zero
decided-Certified_example =
    decided-Certified atlas four SynchronizerAccessory.replica 0 6 new_queue false calls
      zero_decides

zero_members : Subset (senders at_zero.working_log.message_log.commits) four.quorum_members
unfolding run febft.Consensus.Decision.Run.step process_message febft.Consensus.Decision.poll
    febft.Consensus.Decision.init_with_msg_log febft.View.is_request_in_hash_space
zero_members = (refl, (refl, (refl, tt)))

two_members : Subset (senders at_two.working_log.message_log.commits) four.quorum_members
unfolding run febft.Consensus.Decision.Run.step process_message febft.Consensus.Decision.poll
    febft.Consensus.Decision.init_with_msg_log febft.View.is_request_in_hash_space
two_members = (refl, (refl, (refl, tt)))

one_vote :
    Consistent
      (1 ∷ [])
      at_zero.working_log.message_log.commits
      at_two.working_log.message_log.commits
unfolding run febft.Consensus.Decision.Run.step process_message febft.Consensus.Decision.poll
    febft.Consensus.Decision.init_with_msg_log febft.View.is_request_in_hash_space
one_vote = (
  ((λ _ _ _ _. refl), ((λ _ _ _ _. refl), ((λ _ _ _ _. refl), tt))),
  (
    ((λ _ _ _ _. refl), ((λ _ _ _ _. refl), ((λ _ _ _ _. refl), tt))),
    (((λ _ _ _ _. refl), ((λ _ _ _ _. refl), ((λ _ _ _ _. refl), tt))), tt),
  ),
)

decided_agree_example : at_zero.working_log.batch_digest ≡ at_two.working_log.batch_digest
decided_agree_example =
    decided_agree atlas four SynchronizerAccessory.replica SynchronizerAccessory.replica 0 2 6
      new_queue new_queue false false calls other_calls (1 ∷ []) zero_decides two_decides
      zero_members two_members one_vote (omega arith)

-- One `COMMIT` short of a decision.
abbrev almost : ConsensusDecision
almost =
    run atlas four SynchronizerAccessory.replica
      (start atlas four SynchronizerAccessory.replica 0 6 new_queue false)
      (polled
        ∷ from 1 (pre_prepare rqs)
        ∷ from 1 (prepare 21)
        ∷ from 0 (prepare 21)
        ∷ from 3 (prepare 21)
        ∷ from 0 (commit 21)
        ∷ from 1 (commit 21)
        ∷ [])

abbrev last_commit : StoredConsensusMessage
last_commit = record {
  from = 3;
  digest = 21;
  message = record { seq = 6; view = 1; nonce = 0; kind = commit 21 };
}

almost-Valid : Valid (env_of atlas four SynchronizerAccessory.replica nonces) almost
almost-Valid =
    run-Votes atlas four SynchronizerAccessory.replica
      (start atlas four SynchronizerAccessory.replica 0 6 new_queue false) _
      (start-Votes atlas four SynchronizerAccessory.replica 0 6 new_queue false)

process_message-Valid_example :
    Valid
      (env_of atlas four SynchronizerAccessory.replica nonces)
      (process_message atlas
        (env_of atlas four SynchronizerAccessory.replica nonces)
        almost
        last_commit).0
process_message-Valid_example =
    process_message-Valid atlas (env_of atlas four SynchronizerAccessory.replica nonces) almost
      last_commit almost-Valid

decided_finalizes_example :
    (b : CompletedBatch) × (finalize at_zero ≡ ok b) × Finished atlas at_zero.working_log b
decided_finalizes_example =
    decided_finalizes atlas four SynchronizerAccessory.replica 0 6 new_queue false calls (refl, tt)
      (omega arith) zero_decides

message_never_panics_example :
    Orderly
      (process_message atlas
        (env_of atlas four SynchronizerAccessory.replica nonces)
        at_zero
        last_commit).2
message_never_panics_example =
    message_never_panics atlas four SynchronizerAccessory.replica 0 6 new_queue false calls nonces
      last_commit (refl, tt) (omega arith)
