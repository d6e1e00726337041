-- ===== src/Node.antt =====
-- What a handler asks of the layers below, in the order of the calls: messages for the network,
-- and acknowledgements for the timeouts.
use febft.Base.{ℕ, List}
use febft.Message.{ClientRqInfo, ConsensusMessage}

pub data Action : Type 0 where
  -- `node.broadcast_signed(message, targets)`
  broadcast_signed : ConsensusMessage → List ℕ → Action
  -- `node.broadcast_serialized(messages)`: a message for each node of the map
  broadcast_serialized : List (ℕ × ConsensusMessage) → Action
  -- `timeouts.acks_received(..)` for the requests that the node has proposed
  acks_received : List ClientRqInfo → ℕ → Action
  -- `timeouts.cancel_all_timeouts()`
  cancel_all_timeouts : Action
