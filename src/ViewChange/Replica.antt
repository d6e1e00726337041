-- ===== src/ViewChange/Replica.antt =====
-- `ReplicaSynchronizer` of febft-pbft-consensus/src/bft/sync/replica_sync/mod.rs: what a replica
-- sends and registers in a view change, and its timeouts.
pub mod Merged
pub mod TimedOut
use febft.Base.{
  ℕ, zero, suc, Bool, true, false, ◌&&◌, Option, none, some, List, [], ◌∷◌, ◌++◌, ◌==◌, not,
  if◌then◌else◌, insert, map,
}
use febft.Atlas.{Atlas}
use febft.Message.{Request, ClientRqInfo}
use febft.View.{ViewInfo, leader}
use febft.Log.Decisions.{Proof}
use febft.Log.Install.{Log}
use febft.Sync.{infos}
use febft.Consensus.Instances.{collect_incomplete_proof}
use febft.ViewChange.Messages.{PbftMessage, view_change, stop, stop_quorum_join, stop_data}
use febft.ViewChange.Synchronizer.{
  Synchronizer, SynchronizerStatus, nil, requests_timed_out, SyncAction, broadcast_signed,
  send_signed, forward_requests, process_stopped_requests, request_timeouts, cancel_all_timeouts,
  reset_all_timeouts, World, Outcome, ◌>>=◌, unwrapped, act,
}

-- `Log::last_proof`
unfoldable pub last_proof : Log → Option Proof
last_proof log = log.decided.last_decision

-- `entry(digest).or_insert(request)`
abbrev pub or_insert : List (ℕ × Request) → Request → List (ℕ × Request)
or_insert [] rq = (rq.info.digest, rq) ∷ []
or_insert ((d, old) ∷ rqs) rq =
    if d == rq.info.digest then (d, old) ∷ rqs else (d, old) ∷ or_insert rqs rq

abbrev pub or_insert_all : List (ℕ × Request) → List Request → List (ℕ × Request)
or_insert_all all [] = all
or_insert_all all (rq ∷ rqs) = or_insert_all (or_insert all rq) rqs

abbrev pub insert_all : List (ℕ × Request) → List Request → List (ℕ × Request)
insert_all all [] = all
insert_all all (rq ∷ rqs) = insert_all (insert rq.info.digest rq all) rqs

-- The loop over the `STOP`s of all nodes.
unfoldable pub merge_stopped : List (ℕ × Request) → List (ℕ × List Request) → List (ℕ × Request)
merge_stopped all [] = all
merge_stopped all ((node, rqs) ∷ stopped) = merge_stopped (or_insert_all all rqs) stopped

abbrev pub values {ℓ} : {A : Type ℓ} → List (ℕ × A) → List A
values [] = []
values ((k, x) ∷ xs) = x ∷ values xs

abbrev pub timed_out_first : Option (List Request) → List (ℕ × Request)
timed_out_first none = []
timed_out_first (some rqs) = insert_all [] rqs

unfoldable pub stopped_requests : Synchronizer → Option (List Request) → List Request
unfolding merge_stopped
stopped_requests s requests = values (merge_stopped (timed_out_first requests) s.stopped)

-- With the stopped requests taken out of the synchronizer.
unfoldable pub drain_stopped_request : Synchronizer → Synchronizer × List Request
unfolding merge_stopped
drain_stopped_request s = (record s { stopped = [] }, values (merge_stopped [] s.stopped))

abbrev pub same_info : ClientRqInfo → ClientRqInfo → Bool
same_info x y =
    x.digest == y.digest && x.sender == y.sender && x.session == y.session && x.seq_no == y.seq_no

abbrev pub contains_info : List ClientRqInfo → ClientRqInfo → Bool
contains_info [] x = false
contains_info (y ∷ ys) x = if same_info y x then true else contains_info ys x

-- Both the set of digests and the list of the stopped requests grow by what they do not hold.
abbrev pub push_new : List ClientRqInfo → List ClientRqInfo → List ClientRqInfo
push_new known [] = known
push_new known (x ∷ xs) = push_new (if contains_info known x then known else known ++ x ∷ []) xs

unfoldable pub digests_of : List ClientRqInfo → List (ℕ × List Request) → List ClientRqInfo
digests_of known [] = known
digests_of known ((node, rqs) ∷ stopped) = digests_of (push_new known (infos rqs)) stopped

unfoldable pub stopped_request_digests : Synchronizer → Option (List Request) → List ClientRqInfo
unfolding digests_of
stopped_request_digests s none = digests_of [] s.stopped
stopped_request_digests s (some rqs) = digests_of (push_new [] (infos rqs)) s.stopped

-- A `ModTimeout`: its client request, where its extra information is one, and its count.
pub record ModTimeout : Type 0 where
  pub cli_rq : Option ClientRqInfo
  pub timeout_count : ℕ

-- The first timeout of a request forwards it, a later one stops it.
abbrev pub sort_timeout :
    Option ClientRqInfo
    → ℕ
    → List ClientRqInfo × List ClientRqInfo
    → List ClientRqInfo × List ClientRqInfo
sort_timeout none count (forwarded, stopped) = (forwarded, stopped)
sort_timeout (some rq) zero (forwarded, stopped) = (forwarded, stopped)
sort_timeout (some rq) (suc zero) (forwarded, stopped) = (forwarded ++ rq ∷ [], stopped)
sort_timeout (some rq) (suc (suc n)) (forwarded, stopped) = (forwarded, stopped ++ rq ∷ [])

unfoldable pub sort_timeouts :
    List ModTimeout → List ClientRqInfo × List ClientRqInfo → List ClientRqInfo × List ClientRqInfo
sort_timeouts [] sorted = sorted
sort_timeouts (t ∷ ts) sorted = sort_timeouts ts (sort_timeout t.cli_rq t.timeout_count sorted)

abbrev pub is_empty {ℓ} : {A : Type ℓ} → List A → Bool
is_empty [] = true
is_empty (x ∷ xs) = false

unfoldable pub replica_requests_timed_out : Synchronizer → List ModTimeout → SynchronizerStatus
unfolding sort_timeouts stopped_request_digests
replica_requests_timed_out s timed_out_rqs =
    let (forwarded, stopped) = sort_timeouts timed_out_rqs ([], []) in
    if is_empty forwarded && is_empty stopped
    then nil
    else if is_empty stopped && is_empty s.stopped
    then requests_timed_out forwarded stopped
    else requests_timed_out forwarded (push_new stopped (stopped_request_digests s none))

unfoldable pub watch_received_requests : World → List ClientRqInfo → World
watch_received_requests w requests = act w (request_timeouts requests)

unfoldable pub replica_forward_requests : World → List Request → World
replica_forward_requests w timed_out =
    act w (forward_requests timed_out w.synchronizer.tbo.view.quorum_members)

-- The pre-processor may refuse the requests, which the code unwraps.
unfoldable pub take_stopped_requests_and_register_them :
    (List Request → Bool) → World → Outcome (Unit {0})
unfolding drain_stopped_request
take_stopped_requests_and_register_them accepts w =
    let (s, requests) = drain_stopped_request w.synchronizer in
    if not (accepts requests)
    then none
    else some (
      act (act (record w { synchronizer = s }) (process_stopped_requests requests))
          (request_timeouts (infos requests)),
      tt,
    )

unfoldable pub handle_stopping_quorum :
    (List Request → Bool) → World → ViewInfo → Outcome (Unit {0})
unfolding take_stopped_requests_and_register_them last_proof
handle_stopping_quorum accepts w previous_view = do
  (taken, _) ← take_stopped_requests_and_register_them accepts w
  view_info ← taken.synchronizer.tbo.next_view
  current_leader ← unwrapped (leader view_info)
  incomplete_proof ← unwrapped (collect_incomplete_proof taken.consensus previous_view.params.f)
  some (
    act (act taken reset_all_timeouts) (
        send_signed
          (view_change view_info.seq (
            stop_data
              (record { incomplete_proof = incomplete_proof; last_proof = last_proof taken.log })))
          current_leader),
    tt,
  )

module _ (a : Atlas) where
  unfoldable pub handle_begin_view_change : World → Option (List Request) → World
  unfolding stopped_requests
  handle_begin_view_change w timed_out =
      let view = w.synchronizer.tbo.view in
      act (act w cancel_all_timeouts) (
        broadcast_signed
          (view_change (a.next view.seq) (stop (stopped_requests w.synchronizer timed_out)))
          view.quorum_members)

  unfoldable pub handle_begin_quorum_view_change : World → ℕ → World
  handle_begin_quorum_view_change w join_cert =
      let view = w.synchronizer.tbo.view in
      act w (
        broadcast_signed (view_change (a.next view.seq) (stop_quorum_join join_cert))
          view.quorum_members)
