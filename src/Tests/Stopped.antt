-- ===== src/Tests/Stopped.antt =====
-- A replica that is given `STOP`s, and one that is given votes to let a node join.
use febft.Base.{false, ◌⊎◌}
use febft.Message.{ClientRqInfo}
use febft.ViewChange.Synchronizer.{nil, requests_timed_out}
use febft.ViewChange.Replica.{ModTimeout, contains_info, replica_requests_timed_out}
use febft.ViewChange.Replica.TimedOut.{
  timed_once, timed_again, stopped_by_some, replica_requests_timed_out-exact,
}
use febft.Base.{ℕ, ◌≡◌, refl, ◌||◌, some, List, [], ◌∷◌, contains, Distinct}
use febft.ViewChange.Messages.{stop_quorum_join}
use febft.View.{ViewInfo, leader}
use febft.ViewChange.Messages.{view_change, stop, StoredMessage}
use febft.ViewChange.Queue.{ViewTbo, TboQueue, Queues, install_next_view}
use febft.ViewChange.Queue
use febft.ViewChange.Replica.{stopped_requests, values}
use febft.ViewChange.Replica.Merged.{digests, is_stopped, or_none, stopped_requests-exact}
use febft.ViewChange.Runs.{Event, receive, time_out, join_quorum, Counted, keys, run}
use febft.ViewChange.Runs.Invariant.{run-Counted}
use febft.ViewChange.Runs.Leaving.{StopQuorum, stop_quorum}
use febft.ViewChange.Process.{process_message}
use febft.ViewChange.Synchronizer.{
  stopping2, syncing, Synchronizer, SynchronizerStatus, World, new_replica,
}
use febft.Tests.Concrete.{atlas, tbo}
use febft.Tests.Replicas.{
  view_tbo, signatures, layers, start, start-Counted, header, or_start, or_idle, request,
}

abbrev stop_of : ℕ → StoredMessage
stop_of node = record { header = header node; message = view_change 2 (stop []) }

abbrev events : List Event
events = time_out [] ∷ receive layers (stop_of 1) ∷ receive layers (stop_of 2) ∷ []

abbrev stopped_twice : World
stopped_twice = or_start (run atlas 1 signatures tbo view_tbo start events)

runs : run atlas 1 signatures tbo view_tbo start events ≡ some stopped_twice
unfolding run process_message new_replica febft.ViewChange.Replica.handle_begin_view_change
    Queue.new
runs = refl

run-Counted_example : Counted stopped_twice.synchronizer
run-Counted_example =
    run-Counted atlas 1 signatures tbo view_tbo start stopped_twice events start-Counted runs

abbrev left_view : World × SynchronizerStatus
left_view =
    or_idle (process_message atlas 1 signatures tbo view_tbo layers stopped_twice (stop_of 3))

leaves :
    process_message atlas 1 signatures tbo view_tbo layers stopped_twice (stop_of 3)
    ≡ some left_view
unfolding process_message run new_replica febft.ViewChange.Replica.handle_begin_view_change
    Queue.new febft.View.next_view febft.View.new febft.View.with_members febft.View.push_leaders
    febft.View.calculate_hash_space_division febft.View.divide_hash_space
    febft.View.slices_for_leaders febft.View.divide_from leader
    febft.ViewChange.Replica.handle_stopping_quorum install_next_view
    febft.Consensus.Instances.collect_incomplete_proof febft.Consensus.Instances.new_replica
    febft.Consensus.Decision.deciding_proof febft.Log.Deciding.Collect.deciding
    febft.Log.Deciding.Collect.write_set febft.Consensus.Decision.init_decision
    febft.Log.Deciding.Collect.quorum_prepares
leaves = refl

stopped_by_two : stopped_twice.synchronizer.phase ≡ stopping2 2
unfolding process_message run new_replica febft.ViewChange.Replica.handle_begin_view_change
    Queue.new febft.View.next_view febft.View.new febft.View.with_members febft.View.push_leaders
    febft.View.calculate_hash_space_division febft.View.divide_hash_space
    febft.View.slices_for_leaders febft.View.divide_from leader
    febft.ViewChange.Replica.handle_stopping_quorum install_next_view
    febft.Consensus.Instances.collect_incomplete_proof febft.Consensus.Instances.new_replica
    febft.Consensus.Decision.deciding_proof febft.Log.Deciding.Collect.deciding
    febft.Log.Deciding.Collect.write_set febft.Consensus.Decision.init_decision
    febft.Log.Deciding.Collect.quorum_prepares
stopped_by_two = refl

waits_for_leader : left_view.0.synchronizer.phase ≡ syncing
unfolding process_message run new_replica febft.ViewChange.Replica.handle_begin_view_change
    Queue.new febft.View.next_view febft.View.new febft.View.with_members febft.View.push_leaders
    febft.View.calculate_hash_space_division febft.View.divide_hash_space
    febft.View.slices_for_leaders febft.View.divide_from leader
    febft.ViewChange.Replica.handle_stopping_quorum install_next_view
    febft.Consensus.Instances.collect_incomplete_proof febft.Consensus.Instances.new_replica
    febft.Consensus.Decision.deciding_proof febft.Log.Deciding.Collect.deciding
    febft.Log.Deciding.Collect.write_set febft.Consensus.Decision.init_decision
    febft.Log.Deciding.Collect.quorum_prepares
waits_for_leader = refl

stop_quorum_example :
    Distinct (keys stopped_twice.synchronizer.stopped)
    × StopQuorum atlas 1 stopped_twice left_view.0 2 3 (stop [])
unfolding run process_message new_replica febft.ViewChange.Replica.handle_begin_view_change
    Queue.new
stop_quorum_example =
    stop_quorum atlas 1 signatures tbo view_tbo layers start stopped_twice left_view.0 events 2 2
      (stop []) (header 3) left_view.1 start-Counted runs refl leaves

abbrev two_stopped : Synchronizer
two_stopped = record start.synchronizer {
  stopped = (2, request 11 ∷ request 12 ∷ []) ∷ (3, request 12 ∷ []) ∷ [];
}

stopped_requests-exact_example :
    Distinct (digests (stopped_requests two_stopped (some (request 11 ∷ []))))
    × ((d : ℕ)
        → contains (digests (stopped_requests two_stopped (some (request 11 ∷ [])))) d ≡ (
            contains (digests (or_none (some (request 11 ∷ [])))) d
            || is_stopped two_stopped.stopped d))
stopped_requests-exact_example = stopped_requests-exact two_stopped (some (request 11 ∷ []))

abbrev timeouts : List ModTimeout
timeouts =
    record { cli_rq = some (request 13).info; timeout_count = 1 }
    ∷ record { cli_rq = some (request 14).info; timeout_count = 2 }
    ∷ []

replica_requests_timed_out-exact_example :
    ((replica_requests_timed_out two_stopped timeouts ≡ nil)
      × ((x : ClientRqInfo) → (timed_once timeouts x ≡ false) × (timed_again timeouts x ≡ false)))
    ⊎ ((forwarded : List ClientRqInfo) × (stopped : List ClientRqInfo) × (replica_requests_timed_out
            two_stopped timeouts
          ≡ requests_timed_out forwarded stopped)
        × ((x : ClientRqInfo)
            → (contains_info forwarded x ≡ timed_once timeouts x)
              × (contains_info stopped x
                  ≡ (timed_again timeouts x || stopped_by_some two_stopped.stopped x))))
replica_requests_timed_out-exact_example = replica_requests_timed_out-exact two_stopped timeouts

-- Replica 0 has begun to let node 4 join, and is given the votes of the others.
abbrev vote_of : ℕ → StoredMessage
vote_of node = record { header = header node; message = view_change 2 (stop_quorum_join 4) }

abbrev join_events : List Event
join_events = join_quorum 4 ∷ receive layers (vote_of 1) ∷ receive layers (vote_of 2) ∷ []

abbrev voted_twice : World
voted_twice = or_start (run atlas 1 signatures tbo view_tbo start join_events)

abbrev joined_view : World × SynchronizerStatus
joined_view =
    or_idle (process_message atlas 1 signatures tbo view_tbo layers voted_twice (vote_of 3))

waits_for_next : joined_view.0.synchronizer.phase ≡ syncing
unfolding process_message run new_replica febft.ViewChange.Replica.handle_begin_view_change
    Queue.new febft.View.next_view febft.View.new febft.View.with_members febft.View.push_leaders
    febft.View.calculate_hash_space_division febft.View.divide_hash_space
    febft.View.slices_for_leaders febft.View.divide_from leader
    febft.ViewChange.Replica.handle_stopping_quorum install_next_view
    febft.Consensus.Instances.collect_incomplete_proof febft.Consensus.Instances.new_replica
    febft.Consensus.Decision.deciding_proof febft.Log.Deciding.Collect.deciding
    febft.Log.Deciding.Collect.write_set febft.Consensus.Decision.init_decision
    febft.Log.Deciding.Collect.quorum_prepares febft.ViewChange.Begin.start_join_quorum
    febft.ViewChange.Replica.handle_begin_quorum_view_change febft.View.next_view_with_new_node
    febft.View.from_quorum
waits_for_next = refl
