-- ===== src/Consensus/Accessory.antt =====
-- febft-pbft-consensus/src/bft/consensus/accessory: what a replica sends in an instance.
-- The task that `handle_pre_prepare_phase_completed` hands to the thread pool runs beside the
-- handlers: the insertions that it has still to make wait in `spawned`, and `run_spawned` makes
-- the next one. Serialising and signing are left to the network.
pub mod Total
pub mod Commits
use febft.Base.{
  ℕ, Bool, true, false, not, ◌&&◌, List, [], ◌∷◌, ◌++◌, ◌==◌, length, if◌then◌else◌, insert, Result,
  ok, ◌>>=◌, unwrap,
}
use febft.Message.{ConsensusMessage, ConsensusMessageKind, prepare, commit}
use febft.Message
use febft.Node.{Action, broadcast_signed, broadcast_serialized}
use febft.View.{ViewInfo, targets}
use febft.Log.Deciding.{DecidingLogError, WorkingDecisionLog}

pub record ReplicaAccessory : Type 0 where
  pub speculative_commits : List (ℕ × ConsensusMessage)
  pub spawned : List (ℕ × ConsensusMessage)

pub data ConsensusDecisionAccessory : Type 0 where
  follower : ConsensusDecisionAccessory
  replica : ReplicaAccessory → ConsensusDecisionAccessory

-- The random nonces of the messages that a handler may make.
pub record Nonces : Type 0 where
  pub for_prepare : ℕ
  pub for_commit : ℕ

unfoldable pub new_accessory : ReplicaAccessory
new_accessory = record { speculative_commits = []; spawned = [] }

-- The task's next insertion.
run_first : ReplicaAccessory → List (ℕ × ConsensusMessage) → ReplicaAccessory
run_first r [] = r
run_first r ((peer, m) ∷ rest) = record r {
  speculative_commits = insert peer m r.speculative_commits;
  spawned = rest;
}

unfoldable pub run_spawned : ReplicaAccessory → ReplicaAccessory
unfolding run_first
run_spawned r = run_first r r.spawned

unfoldable pub take_speculative_commits :
    ReplicaAccessory → ReplicaAccessory × List (ℕ × ConsensusMessage)
take_speculative_commits r = (record r { speculative_commits = [] }, r.speculative_commits)

unfoldable pub all_of_seq : ℕ → List (ℕ × ConsensusMessage) → Bool
all_of_seq seq_no [] = true
all_of_seq seq_no ((peer, m) ∷ rest) = (m.seq == seq_no) && all_of_seq seq_no rest

unfoldable pub valid_spec_commits : List (ℕ × ConsensusMessage) → ℕ → ViewInfo → Bool
unfolding all_of_seq
valid_spec_commits commits seq_no view =
    if not (length commits == view.params.n) then false else all_of_seq seq_no commits

-- The message for each of `NodeId::targets(0..n)`.
abbrev pub for_each_peer : ConsensusMessage → List ℕ → List (ℕ × ConsensusMessage)
for_each_peer m [] = []
for_each_peer m (peer ∷ peers) = (peer, m) ∷ for_each_peer m peers

unfoldable pub replica_pre_prepare_phase_completed :
    Nonces
    → WorkingDecisionLog
    → ViewInfo
    → ReplicaAccessory
    → Result DecidingLogError (ReplicaAccessory × List Action)
unfolding Message.new
replica_pre_prepare_phase_completed nonces log view r = do
  current_digest ← unwrap log.batch_digest
  let spec = Message.new log.seq_no view.seq (commit current_digest) nonces.for_commit
  let message = Message.new log.seq_no view.seq (prepare current_digest) nonces.for_prepare
  ok (
    record r { spawned = r.spawned ++ for_each_peer spec (targets view.params.n) },
    broadcast_signed message view.quorum_members ∷ [],
  )

unfoldable pub replica_preparing_quorum :
    Nonces
    → WorkingDecisionLog
    → ViewInfo
    → ReplicaAccessory
    → Result DecidingLogError (ReplicaAccessory × List Action)
unfolding Message.new take_speculative_commits valid_spec_commits
replica_preparing_quorum nonces log view r = do
  current_digest ← unwrap log.batch_digest
  let (r', commits) = take_speculative_commits r
  let message = Message.new log.seq_no view.seq (commit current_digest) nonces.for_commit
  ok (
    r',
    (if valid_spec_commits commits log.seq_no view
          then broadcast_serialized commits
          else broadcast_signed message view.quorum_members)
        ∷ [],
  )

-- The other handlers of a replica do nothing, nor does a follower's.
unfoldable pub handle_partial_pre_prepare :
    ConsensusDecisionAccessory → ConsensusDecisionAccessory × List Action
handle_partial_pre_prepare acc = (acc, [])

unfoldable pub handle_pre_prepare_phase_completed :
    Nonces
    → WorkingDecisionLog
    → ViewInfo
    → ConsensusDecisionAccessory
    → Result DecidingLogError (ConsensusDecisionAccessory × List Action)
unfolding replica_pre_prepare_phase_completed
handle_pre_prepare_phase_completed nonces log view follower = ok (follower, [])
handle_pre_prepare_phase_completed nonces log view (replica r) = do
  (r', actions) ← replica_pre_prepare_phase_completed nonces log view r
  ok (replica r', actions)

unfoldable pub handle_preparing_no_quorum :
    ConsensusDecisionAccessory → ConsensusDecisionAccessory × List Action
handle_preparing_no_quorum acc = (acc, [])

unfoldable pub handle_preparing_quorum :
    Nonces
    → WorkingDecisionLog
    → ViewInfo
    → ConsensusDecisionAccessory
    → Result DecidingLogError (ConsensusDecisionAccessory × List Action)
unfolding replica_preparing_quorum
handle_preparing_quorum nonces log view follower = ok (follower, [])
handle_preparing_quorum nonces log view (replica r) = do
  (r', actions) ← replica_preparing_quorum nonces log view r
  ok (replica r', actions)

unfoldable pub handle_committing_no_quorum :
    ConsensusDecisionAccessory → ConsensusDecisionAccessory × List Action
handle_committing_no_quorum acc = (acc, [])

unfoldable pub handle_committing_quorum :
    ConsensusDecisionAccessory → ConsensusDecisionAccessory × List Action
handle_committing_quorum acc = (acc, [])
