-- ===== src/Message.antt =====
-- The consensus messages of febft-pbft-consensus/src/bft/message/mod.rs.
use febft.Base.{ℕ, Bool, Option, none, some, List, [], ◌==◌}

-- `ClientRqInfo` of atlas_core, by its fields.
pub record ClientRqInfo : Type 0 where
  pub digest : ℕ
  pub sender : ℕ
  pub session : ℕ
  pub seq_no : ℕ

-- A `StoredMessage<RQ>` of a client: what `ClientRqInfo::from` reads off it, and the operation,
-- which is only carried.
pub record Request : Type 0 where
  pub info : ClientRqInfo
  pub body : ℕ

pub data ConsensusMessageKind : Type 0 where
  pre_prepare : List Request → ConsensusMessageKind
  prepare : ℕ → ConsensusMessageKind
  commit : ℕ → ConsensusMessageKind

pub record ConsensusMessage : Type 0 where
  pub seq : ℕ
  pub view : ℕ
  pub nonce : ℕ
  pub kind : ConsensusMessageKind

-- `nonce` is drawn at random by the code, and is an argument here.
unfoldable pub new : ℕ → ℕ → ConsensusMessageKind → ℕ → ConsensusMessage
new seq view kind nonce = record { seq = seq; view = view; nonce = nonce; kind = kind }

proposed_digest : ConsensusMessageKind → ℕ → Option Bool
proposed_digest (pre_prepare rqs) digest = none
proposed_digest (prepare d) digest = some (d == digest)
proposed_digest (commit d) digest = some (d == digest)

unfoldable pub has_proposed_digest : ConsensusMessage → ℕ → Option Bool
unfolding proposed_digest
has_proposed_digest m digest = proposed_digest m.kind digest

take_requests : ConsensusMessageKind → ConsensusMessageKind × Option (List Request)
take_requests (pre_prepare rqs) = (pre_prepare [], some rqs)
take_requests (prepare d) = (prepare d, none)
take_requests (commit d) = (commit d, none)

unfoldable pub take_proposed_requests : ConsensusMessage → ConsensusMessage × Option (List Request)
unfolding take_requests
take_proposed_requests m = let (kind, rqs) = take_requests m.kind in (record m { kind = kind }, rqs)

-- A `ShareableMessage<PBFTMessage<O>>` that holds a consensus message: the fields of its header
-- that the consensus reads, and the message.
pub record StoredConsensusMessage : Type 0 where
  pub from : ℕ
  pub digest : ℕ
  pub message : ConsensusMessage

abbrev pub kind_of : StoredConsensusMessage → ConsensusMessageKind
kind_of s = s.message.kind

abbrev pub view_of : StoredConsensusMessage → ℕ
view_of s = s.message.view

abbrev pub seq_of : StoredConsensusMessage → ℕ
seq_of s = s.message.seq
