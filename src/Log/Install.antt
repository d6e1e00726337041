-- ===== src/Log/Install.antt =====
-- febft-pbft-consensus/src/bft/log/mod.rs: recording a decided batch, and installing a proof that
-- another replica sent.
pub mod Chain
use febft.Base.{
  ℕ, zero, suc, ◌+◌, ◌*◌, ◌^◌, Bool, true, false, Option, none, some, List, [], ◌∷◌, ◌++◌, map,
  if◌then◌else◌, length, Result, ok, err, panic, ◌>>=◌,
}
use febft.Atlas.{Atlas, Index, left, right}
use febft.Message.{
  ClientRqInfo, Request, StoredConsensusMessage, ConsensusMessageKind, pre_prepare, prepare, commit,
  kind_of,
}
use febft.Log.Decisions.{Proof, ProofMetadata, ProofError, are_pre_prepares_ordered, into_parts}
use febft.Log.Decided.{DecisionLog, init, append_proof, last_execution}
use febft.Log.Deciding.{CompletedBatch}

pub record Log : Type 0 where
  pub decided : DecisionLog

pub data LogError : Type 0 where
  cannot_install_decision_already_ahead : (already_installed install_attempt : ℕ) → LogError
  cannot_install_would_skip : (install_attempt currently_installed : ℕ) → LogError

-- `ProtocolConsensusDecision` of atlas_core, by the arguments of its constructor; the batch is the
-- list of the requests added to it.
pub record ProtocolConsensusDecision : Type 0 where
  pub seq : ℕ
  pub executable_batch : List Request
  pub client_requests : List ClientRqInfo
  pub batch_digest : ℕ

-- The arguments of `Decision::full_decision_info`.
pub record FeDecision : Type 0 where
  pub seq : ℕ
  pub metadata : ProofMetadata
  pub messages : List StoredConsensusMessage
  pub protocol_decision : ProtocolConsensusDecision

unfoldable pub initialize_decided_log : Log
unfolding init
initialize_decided_log = record { decided = init none }

-- The requests of a `PRE-PREPARE`; another kind is unreachable in the code.
abbrev pub requests_of : ConsensusMessageKind → Result LogError (List Request)
requests_of (pre_prepare rqs) = ok rqs
requests_of (prepare d) = panic
requests_of (commit d) = panic

-- The loop over the `PRE-PREPARE`s, of which each request goes into the batch.
unfoldable pub batch_of : List StoredConsensusMessage → Result LogError (List Request)
batch_of [] = ok []
batch_of (m ∷ ms) = do rqs ← requests_of (kind_of m); rest ← batch_of ms; ok (rqs ++ rest)

abbrev pub infos : List Request → List ClientRqInfo
infos [] = []
infos (rq ∷ rqs) = rq.info ∷ infos rqs

-- `ProtocolConsensusDecision::from(&proof)`
unfoldable pub decision_from : Proof → Result LogError ProtocolConsensusDecision
unfolding batch_of
decision_from value = elim (are_pre_prepares_ordered value) [
  | ok ordered ↦ elim ordered [
    | true ↦ do
      rqs ← batch_of value.pre_prepares
      ok (record {
        seq = value.metadata.seq_no;
        executable_batch = rqs;
        client_requests = infos rqs;
        batch_digest = value.metadata.batch_digest;
      })
    | false ↦ panic
  ]
  | err e ↦ panic
  | panic ↦ panic
]

unfoldable pub full_decision : Proof → Result LogError FeDecision
unfolding decision_from into_parts
full_decision proof = do
  batch_info ← decision_from proof
  ok (record {
    seq = proof.metadata.seq_no;
    metadata = (into_parts proof).0;
    messages = (into_parts proof).1;
    protocol_decision = batch_info;
  })

module _ (a : Atlas) where
  unfoldable pub install_after : Log → Proof → ℕ → Index → Log × Result LogError FeDecision
  unfolding append_proof full_decision
  install_after log proof decision left =
      (log, err (cannot_install_decision_already_ahead decision proof.metadata.seq_no))
  install_after log proof decision (right zero) =
      (log, err (cannot_install_decision_already_ahead decision proof.metadata.seq_no))
  install_after log proof decision (right (suc zero)) =
      (record log { decided = append_proof log.decided proof }, full_decision proof)
  install_after log proof decision (right (suc (suc k))) =
      (log, err (cannot_install_would_skip proof.metadata.seq_no decision))

  -- Only a log that has a decision appends the proof.
  unfoldable pub install_proof : Log → Proof → Log × Result LogError FeDecision
  unfolding install_after last_execution full_decision
  install_proof log proof = elim (last_execution log.decided) [
    | none ↦ (log, full_decision proof)
    | some decision ↦ install_after log proof decision (a.index proof.metadata.seq_no decision)
  ]

unfoldable pub proof_of : CompletedBatch → Proof
proof_of completed = record {
  metadata = record {
    seq_no = completed.seq;
    batch_digest = completed.digest;
    pre_prepare_ordering = completed.pre_prepare_ordering;
    contained_client_rqs = length completed.client_requests;
  };
  pre_prepares = completed.contained_messages.pre_prepares;
  prepares = completed.contained_messages.prepares;
  commits = completed.contained_messages.commits;
}

unfoldable pub finalize_batch : Log → CompletedBatch → Log × ProtocolConsensusDecision
unfolding append_proof proof_of
finalize_batch log completed = (
  record log { decided = append_proof log.decided (proof_of completed) },
  record {
    seq = completed.seq;
    executable_batch = completed.client_requests;
    client_requests = completed.client_request_info;
    batch_digest = completed.digest;
  },
)
