-- ===== src/Log/Deciding/Quorum.antt =====
-- `WorkingDecisionLog::deciding` of febft-pbft-consensus/src/bft/log/deciding/mod.rs: what is
-- reported to the leader of the next view.
use febft.Base.{
  length-append, append_assoc, subst, All-append, ℕ, ◌+◌, ◌*◌, ◌≡◌, refl, sym, ◌∙◌, ap, Bool-cases,
  ◌==◌, ==_iff, inl, inr, Option, none, some, List, [], ◌∷◌, ◌++◌, length, reverse, All, Result, ok,
  err, panic, >>=-eq-ok, ◌>>=◌, arith,
}
use febft.Message.{
  StoredConsensusMessage, ConsensusMessageKind, pre_prepare, prepare, commit, kind_of, view_of,
}
use febft.Log.Decisions.{ViewDecisionPair, IncompleteProof}
use febft.Log.Deciding.{DecidingLogError, WorkingDecisionLog}
use febft.Log.Deciding.Collect.{
  restart, prepare_digest, pair_of, write_set, quorum_prepares, deciding,
}

-- `run` is messages of which `m` is the last.
abbrev pub Ends : List StoredConsensusMessage → StoredConsensusMessage → Type 0
Ends run m = (front : List StoredConsensusMessage) × (run ≡ front ++ m ∷ [])

-- `ms` is `skipped`, then `run` of `size` messages of one view, then the rest, and `pair` is the view
-- and the digest of the last message of the run, which is a `PREPARE`.
pub record RunOf (size : ℕ) (ms : List StoredConsensusMessage) (pair : ViewDecisionPair)
    : Type 0 where
  pub skipped : List StoredConsensusMessage
  pub run : List StoredConsensusMessage
  pub rest : List StoredConsensusMessage
  pub last : StoredConsensusMessage
  pub split : ms ≡ skipped ++ (run ++ rest)
  pub sized : length run ≡ size
  pub one_view : All (λ m. view_of m ≡ pair.view) run
  pub ends : Ends run last
  pub voted : kind_of last ≡ prepare pair.digest

-- `last` is the view of the `count` messages before.
abbrev Before : Option ℕ → ℕ → List StoredConsensusMessage → Type 0
Before none count run = (count ≡ 0) × (run ≡ [])
Before (some v) count run = (length run ≡ count) × All (λ m. view_of m ≡ v) run

-- The run that ends with the message `m`, as long as the code counts it.
seen-run :
    (last : Option ℕ) (count : ℕ) (run : List StoredConsensusMessage) (m : StoredConsensusMessage)
    → Before last count run
    → (pre : List StoredConsensusMessage) × (longer : List StoredConsensusMessage) × (run ++ m ∷ []
        ≡ pre ++ longer)
      × Before (some (view_of m)) (restart last (view_of m) count + 1) longer
      × Ends longer m
seen-run none count run m (z, e) =
    rw (z, e) ([], m ∷ [], refl, (omega arith, (refl, tt)), ([], refl))
seen-run (some v) count run m (len, same) = elim (Bool-cases (view_of m == v)) [
  | inl e ↦
      let view : view_of m ≡ v = (==_iff (view_of m) v).0 e in
      rw e (
        [],
        run ++ m ∷ [],
        refl,
        (
          omega (arith, length-append run (m ∷ []), len),
          All-append (λ x. view_of x ≡ view_of m) run (m ∷ [])
              (subst (λ w. All (λ x. view_of x ≡ w) run) (sym view) same) (refl, tt),
        ),
        (run, refl),
      )
  | inr e ↦ rw e (run, m ∷ [], refl, (omega arith, (refl, tt)), ([], refl))
]

prepend :
    (quorum : ℕ) (pre ms : List StoredConsensusMessage) {pair : ViewDecisionPair}
    → RunOf quorum ms pair
    → RunOf quorum (pre ++ ms) pair
prepend quorum pre ms r = record {
  skipped = pre ++ r.skipped;
  run = r.run;
  rest = r.rest;
  split = ap (◌++◌ pre) r.split ∙ sym (append_assoc pre r.skipped (r.run ++ r.rest));
  sized = r.sized;
  one_view = r.one_view;
  last = r.last;
  ends = r.ends;
  voted = r.voted;
}

pair_in : ViewDecisionPair → Result DecidingLogError (Option ViewDecisionPair) → ViewDecisionPair
pair_in v (ok (some p)) = p
pair_in v (ok none) = v
pair_in v (err e) = v
pair_in v panic = v

-- The pair that is found is the view and the digest of the message.
found-pair :
    (kind : ConsensusMessageKind) (view : ℕ) {pair : ViewDecisionPair}
    → ((prepare_digest kind >>= (λ d. ok (record { view = view; digest = d })))
        >>= (λ p. ok (some p)))
      ≡ ok (some pair)
    → (view ≡ pair.view) × (kind ≡ prepare pair.digest)
unfolding prepare_digest pair_in
found-pair (pre_prepare rqs) view e = cc
found-pair (prepare d) view {pair} e =
    let same : record { view = view; digest = d } ≡ pair = ap (pair_in pair) e in
    (
      ap (λ (p : ViewDecisionPair). p.view) same,
      ap (λ (p : ViewDecisionPair). prepare p.digest) same,
    )
found-pair (commit d) view e = cc

found-RunOf :
    (quorum : ℕ) (last : Option ℕ) (count : ℕ) (run ms : List StoredConsensusMessage)
    {pair : ViewDecisionPair}
    → Before last count run
    → quorum_prepares quorum last count ms ≡ ok (some pair)
    → RunOf quorum (run ++ ms) pair
unfolding quorum_prepares pair_of
found-RunOf quorum last count run [] b e = cc
found-RunOf quorum last count run (m ∷ ms) {pair} b e =
    let (pre, longer, split, next, ends) = seen-run last count run m b in
    let again : run ++ m ∷ ms ≡ pre ++ (longer ++ ms) =
      sym (append_assoc run (m ∷ []) ms)
      ∙ (ap (λ xs. xs ++ ms) split ∙ append_assoc pre longer ms) in
    subst (λ xs. RunOf quorum xs pair) (sym again)
      (prepend quorum pre (longer ++ ms)
        (elim (Bool-cases (restart last (view_of m) count + 1 == quorum)) [
          | inl full ↦
              let (view, voted) =
                found-pair (kind_of m) (view_of m) (rw (full, quorum_prepares, pair_of) at e) in
              record {
                skipped = [];
                run = longer;
                rest = ms;
                split = refl;
                sized = next.0 ∙ (==_iff (restart last (view_of m) count + 1) quorum).0 full;
                one_view = subst (λ v. All (λ x. view_of x ≡ v) longer) view next.1;
                last = m;
                ends = ends;
                voted = voted;
              }
          | inr short ↦
              found-RunOf quorum (some (view_of m)) (restart last (view_of m) count + 1) longer ms
                next (rw (short, quorum_prepares) at e)
        ]))

-- A pair that is reported as prepared is of a view in which, of the `PREPARE`s newest first, twice
-- `f` stand in a row, and its digest is that for which the last of these, the oldest, votes.
pub deciding-RunOf :
    (l : WorkingDecisionLog) (f : ℕ) {p : IncompleteProof} {pair : ViewDecisionPair}
    → deciding l f ≡ ok p
    → p.quorum_prepares ≡ some pair
    → RunOf (2 * f) (reverse l.message_log.prepares) pair
unfolding deciding
deciding-RunOf l f {p} {pair} e q =
    let ms = reverse l.message_log.prepares in
    let (pairs, written, after) = >>=-eq-ok (write_set ms) _ e in
    let (quorum, counted, done) = >>=-eq-ok (quorum_prepares (2 * f) none 0 ms) _ after in
    let same : quorum ≡ some pair = ap (λ r. prepared_of r) done ∙ q in
    found-RunOf (2 * f) none 0 [] ms (refl, refl) (counted ∙ ap ok same)
  where
    prepared_of : Result DecidingLogError IncompleteProof → Option ViewDecisionPair
    prepared_of (ok r) = r.quorum_prepares
    prepared_of (err x) = none
    prepared_of panic = none
