-- ===== src/ViewChange/Replica/TimedOut.antt =====
-- The requests that a timeout forwards and those that it stops, of `client_requests_timed_out` in
-- febft-pbft-consensus/src/bft/sync/replica_sync/mod.rs.
use febft.Base.{
  ℕ, zero, suc, ◌≡◌, refl, subst, ◌⊎◌, inl, inr, Bool, true, false, ◌||◌, ◌&&◌, Option, none, some,
  List, [], ◌∷◌, ◌++◌, ◌==◌, ltb, Bool-cases, arith,
}
use febft.Message.{Request, ClientRqInfo}
use febft.Sync.{infos}
use febft.ViewChange.Replica.{
  same_info, contains_info, push_new, digests_of, stopped_request_digests, ModTimeout, sort_timeout,
  sort_timeouts, is_empty, replica_requests_timed_out,
}
use febft.ViewChange.Synchronizer.{Synchronizer, nil, requests_timed_out}

abbrev pub is_rq : Option ClientRqInfo → ClientRqInfo → Bool
is_rq none x = false
is_rq (some y) x = same_info y x

-- The request has timed out for the first time.
abbrev pub timed_once : List ModTimeout → ClientRqInfo → Bool
timed_once [] x = false
timed_once (t ∷ ts) x = (is_rq t.cli_rq x && t.timeout_count == 1) || timed_once ts x

-- The request has timed out more than once.
abbrev pub timed_again : List ModTimeout → ClientRqInfo → Bool
timed_again [] x = false
timed_again (t ∷ ts) x = (is_rq t.cli_rq x && ltb 1 t.timeout_count) || timed_again ts x

-- Some node has stopped the request.
abbrev pub stopped_by_some : List (ℕ × List Request) → ClientRqInfo → Bool
stopped_by_some [] x = false
stopped_by_some ((node, rqs) ∷ stopped) x = contains_info (infos rqs) x || stopped_by_some stopped x

contains_info-append :
    (xs : List ClientRqInfo) (y x : ClientRqInfo)
    → contains_info (xs ++ y ∷ []) x ≡ (contains_info xs x || same_info y x)
contains_info-append [] y x = ground arith
contains_info-append (z ∷ xs) y x = ground (arith, contains_info-append xs y x)

same_info-equal : (y x : ClientRqInfo) → same_info y x ≡ true → y ≡ x
same_info-equal y x h =
    let digest : y.digest ≡ x.digest = ground arith in
    let sender : y.sender ≡ x.sender = ground arith in
    let session : y.session ≡ x.session = ground arith in
    let seq_no : y.seq_no ≡ x.seq_no = ground arith in
    λ i. record { digest = digest i; sender = sender i; session = session i; seq_no = seq_no i }

contains_info-same :
    (known : List ClientRqInfo) (y x : ClientRqInfo)
    → contains_info known y ≡ true
    → same_info y x ≡ true
    → contains_info known x ≡ true
contains_info-same known y x h same =
    subst (λ z. contains_info known z ≡ true) (same_info-equal y x same) h

-- A request that is pushed twice is the same request.
push_new-contains :
    (known xs : List ClientRqInfo) (x : ClientRqInfo)
    → contains_info (push_new known xs) x ≡ (contains_info known x || contains_info xs x)
push_new-contains known [] x = ground arith
push_new-contains known (y ∷ xs) x = elim (Bool-cases (contains_info known y)) [
  | inl old ↦
      rw old (ground (arith, push_new-contains known xs x, contains_info-same known y x old))
  | inr fresh ↦
      rw fresh
        (ground (arith, push_new-contains (known ++ y ∷ []) xs x, contains_info-append known y x))
]

digests_of-contains :
    (known : List ClientRqInfo) (stopped : List (ℕ × List Request)) (x : ClientRqInfo)
    → contains_info (digests_of known stopped) x
      ≡ (contains_info known x || stopped_by_some stopped x)
unfolding digests_of
digests_of-contains known [] x = ground arith
digests_of-contains known ((node, rqs) ∷ stopped) x = ground (
  arith,
  digests_of-contains (push_new known (infos rqs)) stopped x,
  push_new-contains known (infos rqs) x,
)

-- Where the requests of some timeouts stand.
record Sorted (before after : List ClientRqInfo × List ClientRqInfo) (once again : Bool)
    (x : ClientRqInfo) : Type 0 where
  forwards : contains_info after.0 x ≡ (contains_info before.0 x || once)
  stops : contains_info after.1 x ≡ (contains_info before.1 x || again)

sort_timeout-Sorted :
    (o : Option ClientRqInfo) (count : ℕ) (f g : List ClientRqInfo) (x : ClientRqInfo)
    → Sorted
        (f, g)
        (sort_timeout o count (f, g))
        (is_rq o x && count == 1)
        (is_rq o x && ltb 1 count)
        x
sort_timeout-Sorted none count f g x = record { forwards = ground arith; stops = ground arith }
sort_timeout-Sorted (some y) zero f g x = record { forwards = ground arith; stops = ground arith }
sort_timeout-Sorted (some y) (suc zero) f g x = record {
  forwards = ground (arith, contains_info-append f y x);
  stops = ground arith;
}
sort_timeout-Sorted (some y) (suc (suc n)) f g x = record {
  forwards = ground arith;
  stops = ground (arith, contains_info-append g y x);
}

sort_timeouts-Sorted :
    (ts : List ModTimeout) (f g : List ClientRqInfo) (x : ClientRqInfo)
    → Sorted (f, g) (sort_timeouts ts (f, g)) (timed_once ts x) (timed_again ts x) x
unfolding sort_timeouts
sort_timeouts-Sorted [] f g x = record { forwards = ground arith; stops = ground arith }
sort_timeouts-Sorted (t ∷ ts) f g x =
    let (f1, g1) = sort_timeout t.cli_rq t.timeout_count (f, g) in
    let first = sort_timeout-Sorted t.cli_rq t.timeout_count f g x in
    let rest = sort_timeouts-Sorted ts f1 g1 x in
    record {
      forwards = ground (arith, first.forwards, rest.forwards);
      stops = ground (arith, first.stops, rest.stops);
    }

is_empty-none :
    (xs : List ClientRqInfo) (x : ClientRqInfo) → is_empty xs ≡ true → contains_info xs x ≡ false
is_empty-none [] x h = refl
is_empty-none (y ∷ xs) x h = cc

is_empty-stopped :
    (stopped : List (ℕ × List Request)) (x : ClientRqInfo)
    → is_empty stopped ≡ true
    → stopped_by_some stopped x ≡ false
is_empty-stopped [] x h = refl
is_empty-stopped (s ∷ stopped) x h = cc

-- A timeout reports nothing only if none of its requests has timed out, and else forwards exactly the
-- requests that have timed out for the first time and stops exactly those that have timed out again or
-- that some node has stopped.
pub replica_requests_timed_out-exact :
    (s : Synchronizer) (ts : List ModTimeout)
    → ((replica_requests_timed_out s ts ≡ nil)
        × ((x : ClientRqInfo) → (timed_once ts x ≡ false) × (timed_again ts x ≡ false)))
      ⊎ ((forwarded : List ClientRqInfo) × (stopped : List ClientRqInfo)
          × (replica_requests_timed_out s ts ≡ requests_timed_out forwarded stopped)
          × ((x : ClientRqInfo)
              → (contains_info forwarded x ≡ timed_once ts x)
                × (contains_info stopped x ≡ (timed_again ts x || stopped_by_some s.stopped x))))
unfolding replica_requests_timed_out stopped_request_digests
replica_requests_timed_out-exact s ts =
    let (f, g) = sort_timeouts ts ([], []) in
    let sorted = λ (x : ClientRqInfo). sort_timeouts-Sorted ts [] [] x in
    elim (Bool-cases (is_empty f && is_empty g)) [
      | inl none_at_all ↦ inl (
        rw none_at_all refl,
        λ x. (
          ground (arith, (sorted x).forwards, is_empty-none f x, none_at_all),
          ground (arith, (sorted x).stops, is_empty-none g x, none_at_all),
        ),
      )
      | inr some_of_them ↦ elim (Bool-cases (is_empty g && is_empty s.stopped)) [
        | inl no_stops ↦ inr (
          f,
          g,
          rw (some_of_them, no_stops) refl,
          λ x. (
            ground (arith, (sorted x).forwards),
            ground (arith, (sorted x).stops, is_empty-stopped s.stopped x, no_stops),
          ),
        )
        | inr stops ↦ inr (
          f,
          push_new g (digests_of [] s.stopped),
          rw (some_of_them, stops) refl,
          λ x. (
            ground (arith, (sorted x).forwards),
            ground (
              arith,
              (sorted x).stops,
              push_new-contains g (digests_of [] s.stopped) x,
              digests_of-contains [] s.stopped x,
            ),
          ),
        )
      ]
    ]
