-- ===== src/Tests/Logs.antt =====
-- Logs of an instance with two leaders, and the proofs made of them.
use febft.Log.Keys.{operation_key_raw, operation_key_raw_separates}
use febft.Base.{◌<◌, ◌^◌, ◌%◌, ◌/◌}
use febft.Base.{ℕ, ◌≡◌, refl, true, List, [], ◌∷◌, some, none, reverse, ok, err, ◌⊎◌, arith}
use febft.Message.{
  Request, StoredConsensusMessage, ConsensusMessageKind, pre_prepare, prepare, commit,
}
use febft.View.{ViewInfo}
use febft.Log.Decisions.{
  Proof, ProofMetadata, ViewDecisionPair, IncompleteProof, init_from_messages, order_pre_prepares,
  are_pre_prepares_ordered, into_parts, digests,
}
use febft.Log.Decisions.Order.{InOrder, init_from_messages-ordered, order_pre_prepares-ordered}
use febft.Log.Decisions.Parts.{WellKinded, init_from_messages-into_parts}
use febft.Log.Decided.{last_execution}
use febft.Log.Deciding.{WorkingDecisionLog, CompletedBatch, new, process_pre_prepare}
use febft.Log.Deciding.Collect.{deciding, finish_processing_batch}
use febft.Log.Deciding.Complete.{Whole, Orderly, new-Whole}
use febft.Log.Deciding.Complete.Kept.{process_pre_prepare-Whole}
use febft.Log.Deciding.Finish.{Finished, finish_processing_batch-total}
use febft.Log.Deciding.Quorum.{RunOf, deciding-RunOf}
use febft.Log.Install.{
  batch_of, Log, FeDecision, install_proof, finalize_batch, proof_of, infos,
  cannot_install_decision_already_ahead,
}
use febft.Log.Install.Chain.{Chained, install_proof-Chained, finalize_batch-install_proof}
use febft.Tests.Concrete.{atlas, seq_laws}

abbrev rq : ℕ → Request
rq d = record { info = record { digest = d; sender = 9; session = 1; seq_no = d }; body = 40 }

abbrev sent : ℕ → ℕ → ConsensusMessageKind → StoredConsensusMessage
sent from digest kind = record {
  from = from;
  digest = digest;
  message = record { seq = 7; view = 2; nonce = 0; kind = kind };
}

abbrev two_leaders : ViewInfo
two_leaders = record {
  seq = 2;
  quorum_members = 0 ∷ 1 ∷ 2 ∷ 3 ∷ [];
  leader_set = 1 ∷ 3 ∷ [];
  leader_hash_space_division = (1, (0 ∷ [], 127 ∷ [])) ∷ (3, (128 ∷ [], 255 ∷ [])) ∷ [];
  params = record { n = 4; f = 1; quorum = 3 };
}

abbrev batch_of_one : StoredConsensusMessage
batch_of_one = sent 1 11 (pre_prepare (rq 5 ∷ []))

abbrev batch_of_three : StoredConsensusMessage
batch_of_three = sent 3 33 (pre_prepare (rq 130 ∷ rq 200 ∷ []))

abbrev fresh : WorkingDecisionLog
fresh = new 0 7 two_leaders

-- The batch of the second leader comes first.
abbrev with_three : WorkingDecisionLog
with_three = (process_pre_prepare atlas fresh batch_of_three (infos (rq 130 ∷ rq 200 ∷ []))).0

abbrev with_both : WorkingDecisionLog
with_both = (process_pre_prepare atlas with_three batch_of_one (infos (rq 5 ∷ []))).0

new-Whole_example : Whole atlas fresh
new-Whole_example = new-Whole atlas 0 7 two_leaders (refl, (refl, tt)) (omega arith)

fresh-Whole : Whole atlas fresh
fresh-Whole = new-Whole atlas 0 7 two_leaders (refl, (refl, tt)) (omega arith)

with_three-Whole : Whole atlas with_three
with_three-Whole =
    (process_pre_prepare-Whole atlas fresh batch_of_three (infos (rq 130 ∷ rq 200 ∷ [])) fresh-Whole
      refl).0

process_pre_prepare-Whole_example :
    Whole atlas with_both
    × Orderly (process_pre_prepare atlas with_three batch_of_one (infos (rq 5 ∷ []))).1
process_pre_prepare-Whole_example =
    process_pre_prepare-Whole atlas with_three batch_of_one (infos (rq 5 ∷ [])) with_three-Whole
      refl

with_both-Whole : Whole atlas with_both
with_both-Whole =
    (process_pre_prepare-Whole atlas with_three batch_of_one (infos (rq 5 ∷ [])) with_three-Whole
      refl).0

finish_processing_batch-total_example :
    ((with_both.batch_digest ≡ none) × (finish_processing_batch with_both ≡ ok none))
    ⊎ ((b : CompletedBatch) × Finished atlas with_both b)
finish_processing_batch-total_example =
    finish_processing_batch-total atlas with_both with_both-Whole

with_both-digest : with_both.batch_digest ≡ some 44
unfolding process_pre_prepare new febft.View.is_request_in_hash_space
with_both-digest = refl

abbrev metadata : ProofMetadata
metadata = record {
  seq_no = 7;
  batch_digest = 44;
  pre_prepare_ordering = 11 ∷ 33 ∷ [];
  contained_client_rqs = 3;
}

abbrev vote : StoredConsensusMessage
vote = sent 2 77 (prepare 44)

abbrev committed : StoredConsensusMessage
committed = sent 2 78 (commit 44)

abbrev proof : Proof
proof = record {
  metadata = metadata;
  pre_prepares = batch_of_one ∷ batch_of_three ∷ [];
  prepares = vote ∷ [];
  commits = committed ∷ [];
}

abbrev shuffled : List StoredConsensusMessage
shuffled = vote ∷ batch_of_three ∷ committed ∷ batch_of_one ∷ []

shuffled_sorted : init_from_messages metadata shuffled ≡ ok proof
unfolding init_from_messages febft.Log.Decisions.sort_messages febft.Log.Decisions.all_slots
shuffled_sorted = refl

init_from_messages-ordered_example :
    (proof.metadata ≡ metadata) × InOrder proof × (are_pre_prepares_ordered proof ≡ ok true)
init_from_messages-ordered_example = init_from_messages-ordered metadata shuffled shuffled_sorted

abbrev swapped : Proof
swapped = record proof { pre_prepares = batch_of_three ∷ batch_of_one ∷ [] }

swapped_ordered : (order_pre_prepares swapped).1 ≡ ok tt
unfolding order_pre_prepares febft.Log.Decisions.check_pre_prepare_sizes
    febft.Log.Decisions.order_loop
swapped_ordered = refl

order_pre_prepares-ordered_example :
    InOrder (order_pre_prepares swapped).0
    × (are_pre_prepares_ordered (order_pre_prepares swapped).0 ≡ ok true)
order_pre_prepares-ordered_example = order_pre_prepares-ordered swapped swapped_ordered

proof-WellKinded : WellKinded proof
proof-WellKinded = record { pre_prepares = (tt, (tt, tt)); prepares = (tt, tt); commits = (tt, tt) }

init_from_messages-into_parts_example :
    init_from_messages (into_parts proof).0 (into_parts proof).1 ≡ ok proof
init_from_messages-into_parts_example =
    init_from_messages-into_parts proof proof-WellKinded refl (refl, (refl, tt))

abbrev log : Log
log = record {
  decided = record {
    last_decision = some (record proof { metadata = record metadata { seq_no = 6 } });
  };
}

install_proof-Chained_example :
    Chained atlas log proof
      (install_proof atlas log proof).0
      (last_execution log.decided)
      (install_proof atlas log proof).1
install_proof-Chained_example = install_proof-Chained atlas seq_laws log proof

abbrev completed : CompletedBatch
completed = record {
  seq = 6;
  digest = 11;
  pre_prepare_ordering = 11 ∷ [];
  contained_messages = record { pre_prepares = batch_of_one ∷ []; prepares = []; commits = [] };
  client_request_info = infos (rq 5 ∷ []);
  client_requests = rq 5 ∷ [];
}

batch_read : batch_of proof.pre_prepares ≡ ok (rq 5 ∷ rq 130 ∷ rq 200 ∷ [])
unfolding batch_of
batch_read = refl

finalize_batch-install_proof_example :
    (((install_proof atlas (finalize_batch log completed).0 proof).0.decided.last_decision
        ≡ some proof)
      × ((d : FeDecision) × ((install_proof atlas (finalize_batch log completed).0 proof).1
            ≡ ok d)))
    × (install_proof atlas (finalize_batch log completed).0 (proof_of completed)
        ≡ ((finalize_batch log completed).0, err (cannot_install_decision_already_ahead 6 6)))
finalize_batch-install_proof_example =
    finalize_batch-install_proof atlas seq_laws log completed proof refl refl batch_read

abbrev prepared : WorkingDecisionLog
prepared = record (new 0 7 two_leaders) {
  message_log = record {
    pre_prepare = [];
    prepares = sent 0 1 (prepare 44) ∷ sent 1 2 (prepare 44) ∷ [];
    commits = [];
  };
}

abbrev pair : ViewDecisionPair
pair = record { view = 2; digest = 44 }

prepared_told :
    deciding prepared 1
    ≡ ok (record { in_exec = 7; write_set = pair ∷ pair ∷ []; quorum_prepares = some pair })
unfolding deciding new febft.Log.Deciding.Collect.write_set febft.Log.Deciding.Collect.pair_of
    febft.Log.Deciding.Collect.quorum_prepares
prepared_told = refl

deciding-RunOf_example : RunOf 2 (reverse prepared.message_log.prepares) pair
deciding-RunOf_example = deciding-RunOf prepared 1 prepared_told refl

operation_key_raw_separates_example :
    (operation_key_raw 1000 7 < 2 ^ 64)
    × (operation_key_raw 1000 7 % 2 ^ 32 ≡ 1000)
    × (operation_key_raw 1000 7 / 2 ^ 32 ≡ 7)
operation_key_raw_separates_example = operation_key_raw_separates 1000 7 (omega arith) (omega arith)
