-- ===== src/Consensus/Accessory/Total.antt =====
-- The handlers of febft-pbft-consensus/src/bft/consensus/accessory, where the digest of the instance
-- is known.
use febft.Base.{ℕ, ◌≡◌, refl, some, List, ok}
use febft.Node.{Action}
use febft.View.{ViewInfo}
use febft.Log.Deciding.{WorkingDecisionLog}
use febft.Consensus.Accessory.{
  ConsensusDecisionAccessory, follower, replica, Nonces, handle_preparing_quorum,
  handle_pre_prepare_phase_completed,
}

module _ (nonces : Nonces) (log : WorkingDecisionLog) (view : ViewInfo) (digest : ℕ) where
  pub preparing_quorum_total :
      (acc : ConsensusDecisionAccessory)
      → log.batch_digest ≡ some digest
      → (x : ConsensusDecisionAccessory × List Action) × (handle_preparing_quorum nonces log view
            acc
          ≡ ok x)
  unfolding handle_preparing_quorum
  preparing_quorum_total follower e = (_, refl)
  preparing_quorum_total (replica r) e = rw e (_, refl)

  pub pre_prepare_phase_completed_total :
      (acc : ConsensusDecisionAccessory)
      → log.batch_digest ≡ some digest
      → (x : ConsensusDecisionAccessory × List Action) × (handle_pre_prepare_phase_completed nonces
            log view acc
          ≡ ok x)
  unfolding handle_pre_prepare_phase_completed
  pre_prepare_phase_completed_total follower e = (_, refl)
  pre_prepare_phase_completed_total (replica r) e = rw e (_, refl)
