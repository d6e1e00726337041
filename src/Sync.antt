-- ===== src/Sync.antt =====
-- febft-pbft-consensus/src/bft/sync: what the synchronizer does with a batch that is received.
use febft.Base.{ℕ, List, [], ◌∷◌, map}
use febft.Message.{ClientRqInfo, Request}
use febft.Node.{Action, acks_received}

pub data SynchronizerAccessory : Type 0 where
  follower replica : SynchronizerAccessory

-- `ClientRqInfo::new` of each request.
abbrev pub infos : List Request → List ClientRqInfo
infos = map (λ rq. rq.info)

unfoldable pub received_request_batch : ℕ → List Request → List ClientRqInfo × List Action
received_request_batch sending_node rqs = (infos rqs, acks_received (infos rqs) sending_node ∷ [])

unfoldable pub watch_request_batch : List Request → List ClientRqInfo × List Action
watch_request_batch rqs = (infos rqs, [])

-- Only a `PRE-PREPARE` has a batch; the caller has matched on it.
unfoldable pub request_batch_received :
    SynchronizerAccessory → ℕ → List Request → List ClientRqInfo × List Action
unfolding received_request_batch watch_request_batch
request_batch_received replica from rqs = received_request_batch from rqs
request_batch_received follower from rqs = watch_request_batch rqs
