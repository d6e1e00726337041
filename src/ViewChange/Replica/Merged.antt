-- ===== src/ViewChange/Replica/Merged.antt =====
-- The requests that a `STOP` holds, of `stopped_requests` in
-- febft-pbft-consensus/src/bft/sync/replica_sync/mod.rs.
use febft.Base.{
  ℕ, ◌≡◌, refl, sym, ◌∙◌, ap, ap₂, subst, Bool, false, ◌||◌, Option, none, some, List, [], ◌∷◌,
  ◌==◌, contains, Distinct, All, insert, if-cases, arith,
}
use febft.Message.{Request}
use febft.ViewChange.Replica.{
  or_insert, or_insert_all, insert_all, merge_stopped, values, timed_out_first, stopped_requests,
}
use febft.ViewChange.Runs.{keys}
use febft.ViewChange.Runs.Kept.{contains-insert, Distinct-insert}
use febft.ViewChange.Synchronizer.{Synchronizer}

abbrev pub digests : List Request → List ℕ
digests [] = []
digests (rq ∷ rqs) = rq.info.digest ∷ digests rqs

-- A request of this digest has been stopped by some node.
abbrev pub is_stopped : List (ℕ × List Request) → ℕ → Bool
is_stopped [] d = false
is_stopped ((node, rqs) ∷ stopped) d = contains (digests rqs) d || is_stopped stopped d

abbrev pub or_none : Option (List Request) → List Request
or_none none = []
or_none (some rqs) = rqs

-- A map of requests under their digests.
abbrev Keyed : List (ℕ × Request) → Type 0
Keyed all = All (λ b. b.1.info.digest ≡ b.0) all

values-digests : (all : List (ℕ × Request)) → Keyed all → digests (values all) ≡ keys all
values-digests [] h = refl
values-digests ((d, rq) ∷ all) h =
    ap₂ (λ (x : ℕ) (xs : List ℕ). x ∷ xs) h.0 (values-digests all h.1)

-- One request more, and many.
record Grows (all after : List (ℕ × Request)) (more : ℕ → Bool) : Type 0 where
  keyed : Keyed after
  distinct : Distinct (keys after)
  holds : (d : ℕ) → contains (keys after) d ≡ (contains (keys all) d || more d)

or_insert-contains :
    (all : List (ℕ × Request)) (rq : Request) (d : ℕ)
    → contains (keys (or_insert all rq)) d ≡ (contains (keys all) d || rq.info.digest == d)
or_insert-contains [] rq d = ground arith
or_insert-contains ((i, old) ∷ all) rq d = ground (arith, or_insert-contains all rq d)

or_insert-Grows :
    (all : List (ℕ × Request)) (rq : Request)
    → Keyed all
    → Distinct (keys all)
    → Grows all (or_insert all rq) (λ d. rq.info.digest == d)
or_insert-Grows all rq k d = record {
  keyed = keyed all k;
  distinct = distinct all d;
  holds = or_insert-contains all rq;
}
  where
    keyed : (xs : List (ℕ × Request)) → Keyed xs → Keyed (or_insert xs rq)
    keyed [] h = (refl, tt)
    keyed ((i, old) ∷ xs) h =
        if-cases Keyed (i == rq.info.digest) (λ e. h) (λ e. (h.0, keyed xs h.1))

    distinct : (xs : List (ℕ × Request)) → Distinct (keys xs) → Distinct (keys (or_insert xs rq))
    distinct [] h = (refl, tt)
    distinct ((i, old) ∷ xs) h = ground (arith, or_insert-contains xs rq i, distinct xs h.1)

insert-Grows :
    (all : List (ℕ × Request)) (rq : Request)
    → Keyed all
    → Distinct (keys all)
    → Grows all (insert rq.info.digest rq all) (λ d. rq.info.digest == d)
insert-Grows all rq k d = record {
  keyed = keyed all k;
  distinct = Distinct-insert rq.info.digest rq all d;
  holds = contains-insert rq.info.digest rq all;
}
  where
    keyed : (xs : List (ℕ × Request)) → Keyed xs → Keyed (insert rq.info.digest rq xs)
    keyed [] h = (refl, tt)
    keyed ((i, old) ∷ xs) h =
        if-cases Keyed (i == rq.info.digest) (λ e. (refl, h.1)) (λ e. (h.0, keyed xs h.1))

Grows-trans :
    {all mid after : List (ℕ × Request)} {p q : ℕ → Bool}
    → Grows all mid p
    → Grows mid after q
    → Grows all after (λ d. p d || q d)
Grows-trans g h = record {
  keyed = h.keyed;
  distinct = h.distinct;
  holds = λ d. ground (arith, g.holds d, h.holds d);
}

or_insert_all-Grows :
    (all : List (ℕ × Request)) (rqs : List Request)
    → Keyed all
    → Distinct (keys all)
    → Grows all (or_insert_all all rqs) (λ d. contains (digests rqs) d)
or_insert_all-Grows all [] k d = record { keyed = k; distinct = d; holds = λ x. ground arith }
or_insert_all-Grows all (rq ∷ rqs) k d =
    let one = or_insert-Grows all rq k d in
    Grows-trans one (or_insert_all-Grows (or_insert all rq) rqs one.keyed one.distinct)

insert_all-Grows :
    (all : List (ℕ × Request)) (rqs : List Request)
    → Keyed all
    → Distinct (keys all)
    → Grows all (insert_all all rqs) (λ d. contains (digests rqs) d)
insert_all-Grows all [] k d = record { keyed = k; distinct = d; holds = λ x. ground arith }
insert_all-Grows all (rq ∷ rqs) k d =
    let one = insert-Grows all rq k d in
    Grows-trans one (insert_all-Grows (insert rq.info.digest rq all) rqs one.keyed one.distinct)

merge_stopped-Grows :
    (all : List (ℕ × Request)) (stopped : List (ℕ × List Request))
    → Keyed all
    → Distinct (keys all)
    → Grows all (merge_stopped all stopped) (is_stopped stopped)
unfolding merge_stopped
merge_stopped-Grows all [] k d = record { keyed = k; distinct = d; holds = λ x. ground arith }
merge_stopped-Grows all ((node, rqs) ∷ stopped) k d =
    let one = or_insert_all-Grows all rqs k d in
    Grows-trans one (merge_stopped-Grows (or_insert_all all rqs) stopped one.keyed one.distinct)

timed_out_first-Grows :
    (timed_out : Option (List Request))
    → Grows [] (timed_out_first timed_out) (λ d. contains (digests (or_none timed_out)) d)
timed_out_first-Grows none = record { keyed = tt; distinct = tt; holds = λ x. refl }
timed_out_first-Grows (some rqs) = insert_all-Grows [] rqs tt tt

-- The `STOP` of a replica holds no request twice, and exactly those that have timed out on it or that
-- some node has stopped.
pub stopped_requests-exact :
    (s : Synchronizer) (timed_out : Option (List Request))
    → Distinct (digests (stopped_requests s timed_out))
      × ((d : ℕ)
          → contains (digests (stopped_requests s timed_out)) d
            ≡ (contains (digests (or_none timed_out)) d || is_stopped s.stopped d))
unfolding stopped_requests
stopped_requests-exact s timed_out =
    let first = timed_out_first-Grows timed_out in
    let all =
      Grows-trans first
        (merge_stopped-Grows (timed_out_first timed_out) s.stopped first.keyed first.distinct) in
    let same = values-digests (merge_stopped (timed_out_first timed_out) s.stopped) all.keyed in
    (subst Distinct (sym same) all.distinct, λ d. ap (λ xs. contains xs d) same ∙ all.holds d)
