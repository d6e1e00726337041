-- ===== src/ViewChange/Layers.antt =====
-- What the layers below give to the synchronizer of febft-pbft-consensus/src/bft/sync/mod.rs, and
-- what its phases share: messages that are held back.
use febft.Base.{ℕ, Bool, true, false, Option, List, [], ◌∷◌, ◌==◌, if◌then◌else◌, ltb}
use febft.Atlas.{Atlas}
use febft.Message.{Request, ConsensusMessage}
use febft.View.{ViewInfo}
use febft.Sync.{SynchronizerAccessory, follower, replica}
use febft.Consensus.Accessory.{Nonces}
use febft.ViewChange.Messages.{StoredMessage}
use febft.ViewChange.Queue.{ViewTbo, queue_stop, queue_stop_data, queue_sync}
use febft.ViewChange.Synchronizer.{SynchronizerStatus, nil, running, World, with_tbo}

-- What the layers below give: the pending requests that are collected (`none` is an error), whether
-- the pre-processor accepts the stopped requests, the digest of a serialized message (`none` is an
-- error), the order of a hash set, random nonces.
pub record Layers : Type 0 where
  pub pending_rqs : Option (List Request)
  pub accepts : List Request → Bool
  pub serialize_digest : ConsensusMessage → Option ℕ
  pub iteration : List ℕ → List ℕ
  pub nonce : ℕ
  pub nonces : Nonces

-- `stop_status!`
abbrev pub stop_status : ℕ → ViewInfo → SynchronizerStatus
stop_status i view = if ltb view.params.f i then running else nil

abbrev pub has_key {ℓ} : {A : Type ℓ} → List (ℕ × A) → ℕ → Bool
has_key [] k = false
has_key ((j, x) ∷ xs) k = if j == k then true else has_key xs k

module _ (a : Atlas) (view_tbo : ViewTbo) where
  abbrev pub hold_stop : World → StoredMessage → World
  hold_stop w m = with_tbo w (queue_stop a view_tbo w.synchronizer.tbo m)

  abbrev pub hold_sync : World → StoredMessage → World
  hold_sync w m = with_tbo w (queue_sync a view_tbo w.synchronizer.tbo m)

  -- Only a replica keeps a `STOP-DATA`.
  abbrev pub hold_stop_data : World → SynchronizerAccessory → StoredMessage → World
  hold_stop_data w follower m = w
  hold_stop_data w replica m = with_tbo w (queue_stop_data a view_tbo w.synchronizer.tbo m)
