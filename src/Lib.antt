-- ===== src/Lib.antt =====
-- The verification library of febft.
--
-- febft is a Byzantine fault tolerant ordering protocol in the style of PBFT: the replicas of a
-- view agree, one instance after another, on the batches of client requests to execute. The crate
-- modelled is febft-pbft-consensus; its paths below are from febft-pbft-consensus/src/bft.
--
-- The parts, and how they meet:
-- * A view (sync/view/mod.rs) says who the members are, who leads, and which slice of the hash
--   space each leader may propose. View models `ViewInfo` and the division.
-- * An instance (consensus/decision/mod.rs) takes the batches of the leaders, then a quorum of
--   `PREPARE`s, then a quorum of `COMMIT`s. Consensus.Decision has its state and its queue,
--   Consensus.Decision.Process has `process_message`, an arm for each phase. What an instance sends
--   is in Consensus.Accessory (consensus/accessory/mod.rs, consensus/accessory/replica/mod.rs). What
--   it tells the synchronizer of a batch is in Sync (sync/mod.rs, sync/replica_sync/mod.rs,
--   sync/follower_sync/mod.rs). Messages are in Message (message/mod.rs), calls of the network and
--   of the timeouts in Node.
-- * The log of an instance (log/deciding/mod.rs) holds its messages and refuses second votes:
--   Log.Deciding, and Log.Deciding.Collect for what is read off it. A decided instance leaves a proof
--   (log/decisions/mod.rs: Log.Decisions), which the decision log keeps (log/mod.rs,
--   log/decided/mod.rs: Log.Install, Log.Decided); the keys of operations are in Log.Keys.
-- * The handler (consensus/mod.rs) runs as many instances at once as its watermark, routes messages
--   to them, and moves them on, to another sequence number or to another view:
--   Consensus.Instances, Consensus.Instances.Install, Consensus.TboQueue, Consensus.Guard.
-- * The synchronizer (sync/mod.rs, sync/replica_sync/mod.rs) changes the view when requests time
--   out, and lets a node join. ViewChange.Synchronizer has its phases and state, ViewChange.Queue the
--   views and the messages that came early (`TboQueue`), ViewChange.Messages what is sent
--   (message/mod.rs, `CollectData` of log/decisions/mod.rs). `process_message` is
--   ViewChange.Process, with an arm for each phase in ViewChange.Stopping and ViewChange.Syncing and
--   what the arms share in ViewChange.Layers; a view change begins in ViewChange.Begin, is polled and
--   resumed in ViewChange.Poll, and ends in ViewChange.Finalize, which calls the consensus. The
--   predicates on the `STOP-DATA`s are in ViewChange.Sound and ViewChange.Collects, what a replica does
--   beyond a follower (replica_sync/mod.rs) in ViewChange.Replica. ViewChange.Runs has the calls of
--   the driver that change the synchronizer as events, in any order.
--
-- How state corresponds: a struct is a record with the same fields, less metrics, locks, capacities
-- and time stamps; a method that mutates its object returns the object after the call, also where it
-- fails, with what it asks of the layers below as a list of actions. A result is `ok`, `err` or
-- `panic`. Sequence numbers, nodes and digests are natural numbers. A set or a map of the standard
-- library is a list without order, a heap the list of its entries. A call of the synchronizer takes
-- and returns a world: the synchronizer, the consensus, the log, and the calls of the layers below so
-- far; `none` is a panic, after which the state is of no use.
--
-- Parameters, as fields of Atlas and Consensus.TboQueue.Tbo: `SeqNo`, `SystemParams`, the digest
-- context, `BigUint` and the three functions on queues of out-of-order messages, which belong to
-- other crates. What their documentation says of them is in the records of laws of Atlas, and of
-- `SeqNo` also in OrderLaws and NextLaws of ViewChange. The queues of view change messages are those of
-- ViewChange.Queue.ViewTbo, the checks of signatures those of ViewChange.Collects.Signatures, and what
-- the synchronizer is given in a call is a ViewChange.Layers.Layers: the pending requests, the
-- pre-processor, the digest of a message, and the order in which a hash set gives its elements. Random
-- nonces are arguments, and the task that an instance gives to the thread pool is a step of its own,
-- at any time.
--
-- Loops are by structural recursion: over the lists that they read, over the count of a range, and
-- over the number of instances that are missing from the watermark, which each round lowers by one.
-- The polling loop of the handler (Consensus.Instances.Poll) is on fuel: one for each signal, two for
-- each instance in its first phase, and one more.
--
-- Not modelled: the driver in mod.rs, the proposer, serialization, metrics, configuration, observers,
-- and the crate febft-state-transfer.
--
-- Base holds the shared helpers, and Tests runs at concrete inputs.
pub mod Base
pub mod Atlas
pub mod Message
pub mod Node
pub mod View
pub mod Log
pub mod Sync
pub mod Consensus
pub mod ViewChange
pub mod Tests
