-- ===== src/ViewChange/Runs.antt =====
-- The calls that a replica's driver makes of the synchronizer of
-- febft-pbft-consensus/src/bft/sync/mod.rs, in any order, and what holds between them.
pub mod Kept
pub mod Left
pub mod Stops
pub mod Votes
pub mod Resumed
pub mod Ends
pub mod Collecting
pub mod Begun
pub mod Polled
pub mod Invariant
pub mod Leaving
pub mod Joining
use febft.Base.{
  ℕ, zero, suc, ◌≤◌, ◌≡◌, refl, Bool, true, false, Option, none, some, List, [], ◌∷◌, length, map,
  contains, Distinct, All, insert,
}
use febft.Atlas.{Atlas}
use febft.Message.{Request}
use febft.View.{ViewInfo}
use febft.Sync.{SynchronizerAccessory, replica}
use febft.Consensus.TboQueue.{Tbo}
use febft.ViewChange.Messages.{StoredMessage}
use febft.ViewChange.Queue
use febft.ViewChange.Queue.{ViewTbo}
use febft.ViewChange.Collects.{Signatures}
use febft.ViewChange.Layers.{Layers}
use febft.ViewChange.Begin.{attempt_join_quorum, begin_view_change, start_join_quorum}
use febft.ViewChange.Process.{process_message}
use febft.ViewChange.Finalize.{resume_view_change}
use febft.ViewChange.Poll.{received_view_from_state_transfer, poll}
use febft.ViewChange.Synchronizer.{
  ProtoPhase, init, stopping, stopping2, view_stopping, view_stopping2, stopping_data, syncing,
  syncing_state, Synchronizer, SynchronizerPollStatus, recv, next_message, World, ◌>>=◌, with_tbo,
}

-- The calls of the driver that change the synchronizer: `process_message`, `queue`, `signal`, `poll`
-- with `resume_view_change` where it asks for it, `begin_view_change`, `start_join_quorum`,
-- `received_view_from_state_transfer` and `attempt_join_quorum`.
pub data Event : Type 0 where
  receive : Layers → StoredMessage → Event
  enqueue : StoredMessage → Event
  signalled : Event
  polled : Layers → Event
  time_out : List Request → Event
  join_quorum : ℕ → Event
  state_transferred : ViewInfo → Event
  attempt_join : Event

abbrev pub keys {ℓ} : {A : Type ℓ} → List (ℕ × A) → List ℕ
keys [] = []
keys ((k, x) ∷ xs) = k ∷ keys xs

-- The `STOP`s that are counted are among those stored, and so are the `STOP-DATA`s.
abbrev pub CountedAt : ProtoPhase → List (ℕ × List Request) → List (ℕ × StoredMessage) → Type 0
CountedAt init stopped collects = Unit {0}
CountedAt (stopping i) stopped collects = i ≤ length stopped
CountedAt (stopping2 i) stopped collects = i ≤ length stopped
CountedAt (view_stopping i) stopped collects = Unit {0}
CountedAt (view_stopping2 i) stopped collects = Unit {0}
CountedAt (stopping_data i) stopped collects = i ≤ length collects
CountedAt syncing stopped collects = Unit {0}
CountedAt syncing_state stopped collects = Unit {0}

pub record Counted (s : Synchronizer) : Type 0 where
  pub counted : CountedAt s.phase s.stopped s.collects
  pub stoppers : Distinct (keys s.stopped)
  pub collectors : Distinct (keys s.collects)
  pub voters : All (λ v. Distinct v.1) s.currently_adding
  pub is_replica : s.accessory ≡ replica

module _ (a : Atlas) (size_bytes : ℕ) (sig : Signatures) (tbo : Tbo) (view_tbo : ViewTbo) where
  -- The driver resumes the view change where `poll` says so.
  abbrev pub after_poll : Layers → World → SynchronizerPollStatus → Option World
  after_poll layers w recv = some w
  after_poll layers w (next_message m) = some w
  after_poll layers w SynchronizerPollStatus.resume_view_change =
      resume_view_change a tbo view_tbo layers.nonces w >>= λ r. some r.0

  -- `none` is a panic.
  unfoldable pub step : World → Event → Option World
  step w (receive layers m) =
      process_message a size_bytes sig tbo view_tbo layers w m >>= λ r. some r.0
  step w (enqueue m) = Queue.queue a view_tbo w.synchronizer.tbo m >>= λ q. some (with_tbo w q)
  step w signalled = some (with_tbo w (Queue.signal w.synchronizer.tbo))
  step w (polled layers) =
      poll view_tbo w.synchronizer >>= λ r. after_poll layers (record w { synchronizer = r.0 }) r.1
  step w (time_out timed_out) = some (begin_view_change a w (some timed_out))
  step w (join_quorum node) = start_join_quorum a w node >>= λ r. some r.0
  step w (state_transferred view) =
      received_view_from_state_transfer a size_bytes view_tbo w.synchronizer view >>= λ r.
      some (record w { synchronizer = r.0 })
  step w attempt_join = attempt_join_quorum a size_bytes w >>= λ r. some r.0

  unfoldable pub run : World → List Event → Option World
  unfolding step
  run w [] = some w
  run w (e ∷ es) = step w e >>= λ v. run v es
