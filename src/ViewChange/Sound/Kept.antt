-- ===== src/ViewChange/Sound/Kept.antt =====
-- What `sound` of febft-pbft-consensus/src/bft/sync/mod.rs keeps over a view change: a value that a
-- quorum has decided.
use febft.Base.{
  subst, ℕ, suc, ◌+◌, ◌≤◌, ◌<◌, ◌≡◌, refl, sym, ◌∙◌, ap, ◌⊎◌, inl, inr, true, false, ◌||◌, Option,
  none, some, List, [], ◌∷◌, ◌==◌, if◌then◌else◌, length, leb, ltb, contains, Distinct, All,
  Bool-cases, ==_iff, arith,
}
use febft.Base.Pigeonhole.{Subset, pigeonhole, quorums_meet}
use febft.Atlas.{Atlas}
use febft.View.{ViewInfo}
use febft.Log.Decisions.{ViewDecisionPair}
use febft.ViewChange.Messages.{CollectData}
use febft.ViewChange.Synchronizer.{bound, unbound}
use febft.ViewChange.Sound.{
  count_if, prepared, is_pair, not_above, votes_for, writes, written, total_written, binds,
  is_unbound, sound,
}
use febft.ViewChange.Sound.Search.{sound_searches, writes-digest}

-- Sequence numbers that have not wrapped around are ordered as numbers.
pub record OrderLaws (a : Atlas) : Type 0 where
  pub before_lt : (s t : ℕ) → a.before s t ≡ ltb s t

-- A normalized collect with its sender.
abbrev pub Collected : Type 0
Collected = ℕ × Option CollectData

abbrev pub senders : List Collected → List ℕ
senders [] = []
senders ((x, o) ∷ cs) = x ∷ senders cs

abbrev pub data_of : List Collected → List (Option CollectData)
data_of [] = []
data_of ((x, o) ∷ cs) = o ∷ data_of cs

-- A quorum of `PREPARE`s from the view `ts0` or a later one, for `value`.
abbrev pub Locked : ℕ → ℕ → Option ViewDecisionPair → Type 0
Locked ts0 value none = ⊥
Locked ts0 value (some p) = (leb ts0 p.view ≡ true) × (p.digest ≡ value)

-- What the data of a sender says, where `deciders` have decided `value` in the view `ts0`: a correct
-- decider holds a quorum of `PREPARE`s for it, a correct sender has prepared nothing else in a later
-- view, and a faulty one names no value twice.
pub record Reports (a : Atlas) (faulty deciders : List ℕ) (ts0 value x : ℕ) (c : CollectData)
    : Type 0 where
  pub locked :
      contains faulty x ≡ false → contains deciders x ≡ true → Locked ts0 value (prepared c)
  pub later :
      contains faulty x ≡ false
      → All (λ p. ltb ts0 p.view ≡ true → p.digest ≡ value) c.incomplete_proof.write_set
  pub once :
      contains faulty x ≡ true
      → (ts other : ℕ) → count_if (writes a ts other) c.incomplete_proof.write_set ≤ 1

module _ (a : Atlas) (faulty deciders : List ℕ) (ts0 value : ℕ) where
  abbrev pub ReportsOf : Collected → Type 0
  ReportsOf (x, none) = Unit
  ReportsOf (x, some c) = Reports a faulty deciders ts0 value x c

  module _ (ts other : ℕ) where
    abbrev voters : List Collected → List ℕ
    voters [] = []
    voters ((x, o) ∷ cs) = if votes_for a ts other o then x ∷ voters cs else voters cs

    length-voters :
        (cs : List Collected) → length (voters cs) ≡ count_if (votes_for a ts other) (data_of cs)
    length-voters [] = refl
    length-voters ((x, o) ∷ cs) = elim (Bool-cases (votes_for a ts other o)) [
      | inl e ↦ rw e (ap suc (length-voters cs))
      | inr e ↦ rw e (length-voters cs)
    ]

    contains-voters :
        (cs : List Collected) (y : ℕ)
        → contains (voters cs) y ≡ true
        → contains (senders cs) y ≡ true
    contains-voters [] y h = cc
    contains-voters ((x, o) ∷ cs) y h = elim (Bool-cases (votes_for a ts other o)) [
      | inl e ↦
          let h' : (x == y || contains (voters cs) y) ≡ true = rw e at h in
          ground (arith, contains-voters cs y)
      | inr e ↦
          let h' : contains (voters cs) y ≡ true = rw e at h in ground (arith, contains-voters cs y)
    ]

    Distinct-voters : (cs : List Collected) → Distinct (senders cs) → Distinct (voters cs)
    Distinct-voters [] d = tt
    Distinct-voters ((x, o) ∷ cs) d = elim (Bool-cases (votes_for a ts other o)) [
      | inl e ↦ rw e (ground (arith, contains-voters cs x), Distinct-voters cs d.1)
      | inr e ↦ rw e (Distinct-voters cs d.1)
    ]

    Subset-voters :
        (cs : List Collected) (members : List ℕ)
        → Subset (senders cs) members
        → Subset (voters cs) members
    Subset-voters [] members s = tt
    Subset-voters ((x, o) ∷ cs) members s = elim (Bool-cases (votes_for a ts other o)) [
      | inl e ↦ rw e (s.0, Subset-voters cs members s.1)
      | inr e ↦ rw e (Subset-voters cs members s.1)
    ]

    voter-data :
        (cs : List Collected) (y : ℕ)
        → All ReportsOf cs
        → contains (voters cs) y ≡ true
        → (c : CollectData) × (not_above a ts other (prepared c) ≡ true)
          × Reports a faulty deciders ts0 value y c
    voter-data [] y r h = cc
    voter-data ((x, none) ∷ cs) y r h = voter-data cs y r.1 h
    voter-data ((x, some c) ∷ cs) y r h = elim (Bool-cases (votes_for a ts other (some c))) [
      | inr e ↦ voter-data cs y r.1 (rw e at h)
      | inl e ↦
          let h' : (x == y || contains (voters cs) y) ≡ true = rw e at h in
          elim (Bool-cases (x == y)) [
            | inl same ↦ (
              c,
              e,
              subst (λ z. Reports a faulty deciders ts0 value z c) ((==_iff x y).0 same) r.0,
            )
            | inr differ ↦ voter-data cs y r.1 (rw differ at h')
          ]
    ]

    -- The faulty among the senders.
    abbrev liars : List Collected → List ℕ
    liars [] = []
    liars ((x, o) ∷ cs) = if contains faulty x then x ∷ liars cs else liars cs

    contains-liars :
        (cs : List Collected) (y : ℕ)
        → contains (liars cs) y ≡ true
        → contains (senders cs) y ≡ true
    contains-liars [] y h = cc
    contains-liars ((x, o) ∷ cs) y h = ground (arith, contains-liars cs y)

    Distinct-liars : (cs : List Collected) → Distinct (senders cs) → Distinct (liars cs)
    Distinct-liars [] d = tt
    Distinct-liars ((x, o) ∷ cs) d = ground (arith, contains-liars cs x, Distinct-liars cs d.1)

    Subset-liars : (cs : List Collected) → Subset (liars cs) faulty
    Subset-liars [] = tt
    Subset-liars ((x, o) ∷ cs) = ground (arith, Subset-liars cs)

    -- A correct sender has written the value, or the faulty ones have, each once.
    correct_writer :
        (cs : List Collected)
        → All ReportsOf cs
        → ((x : ℕ) × (c : CollectData) × (contains faulty x ≡ false)
            × (0 < count_if (writes a ts other) c.incomplete_proof.write_set)
            × Reports a faulty deciders ts0 value x c)
          ⊎ (total_written a ts other (data_of cs) ≤ length (liars cs))
    correct_writer [] r = inr (omega arith)
    correct_writer ((x, none) ∷ cs) r = elim (correct_writer cs r.1) [
      | inl found ↦ inl found
      | inr few ↦ inr (ground arith)
    ]
    correct_writer ((x, some c) ∷ cs) r = elim (correct_writer cs r.1) [
      | inl found ↦ inl found
      | inr few ↦ elim (Bool-cases (contains faulty x)) [
        | inl liar ↦ let one = r.0.once liar ts other in inr (rw liar (omega arith))
        | inr correct ↦ elim (Bool-cases (ltb 0 (written a ts other (some c)))) [
          | inl wrote ↦ inl (x, c, correct, ground arith, r.0)
          | inr nothing ↦ inr (rw correct (ground arith))
        ]
      ]
    ]

  later_digest :
      OrderLaws a
      → (ts other : ℕ) (ps : List ViewDecisionPair)
      → All (λ p. ltb ts0 p.view ≡ true → p.digest ≡ value) ps
      → ts0 < ts
      → 0 < count_if (writes a ts other) ps
      → other ≡ value
  later_digest laws ts other [] l h k = absurd (omega arith)
  later_digest laws ts other (p ∷ ps) l h k = elim (Bool-cases (writes a ts other p)) [
    | inl e ↦ sym (writes-digest a ts other p e) ∙ l.0 (ground (arith, laws.before_lt p.view ts))
    | inr e ↦ later_digest laws ts other ps l.1 h (rw e at k)
  ]

  Locked-later :
      OrderLaws a
      → (ts other : ℕ) (o : Option ViewDecisionPair) → Locked ts0 value o
      → not_above a ts other o ≡ true
      → (other ≡ value) ⊎ (ts0 < ts)
  Locked-later laws ts other none l h = absurd l
  Locked-later laws ts other (some p) l h = elim (Bool-cases (a.before p.view ts)) [
    | inl e ↦ inr (ground (arith, laws.before_lt p.view ts))
    | inr e ↦ let h' : is_pair ts other (some p) ≡ true = rw e at h in inl (ground arith)
  ]

  module _ (laws : OrderLaws a) (view : ViewInfo) (members : List ℕ) (cs : List Collected)
      (distinct : Distinct (senders cs)) (inside : Subset (senders cs) members)
      (one_each : Distinct deciders) (deciders_inside : Subset deciders members)
      (enough : length members + length faulty < view.params.quorum + length deciders)
      (few_faulty : length faulty ≤ view.params.f) (reports : All ReportsOf cs) where
    -- A correct sender that voted for the pair is among those that have decided.
    correct_decider :
        (ts other : ℕ)
        → view.params.quorum ≤ count_if (votes_for a ts other) (data_of cs)
        → (o : Option ViewDecisionPair) × (not_above a ts other o ≡ true) × Locked ts0 value o
    correct_decider ts other h =
        let (x, voter, decider, correct) =
          quorums_meet (voters ts other cs) deciders members faulty
            (Distinct-voters ts other cs distinct) one_each
            (Subset-voters ts other cs members inside) deciders_inside
            (omega (arith, length-voters ts other cs)) in
        let (c, vote, report) = voter-data ts other cs x reports voter in
        (prepared c, vote, report.locked correct decider)

    certified_later :
        (ts other : ℕ)
        → view.params.f < total_written a ts other (data_of cs)
        → ts0 < ts
        → other ≡ value
    certified_later ts other h after = elim (correct_writer ts other cs reports) [
      | inl (x, c, correct, wrote, report) ↦
          later_digest laws ts other c.incomplete_proof.write_set (report.later correct) after wrote
      | inr few ↦ absurd (
          omega (
            arith,
            pigeonhole (liars ts other cs) faulty (Distinct-liars ts other cs distinct)
                (Subset-liars ts other cs),
          ))
    ]

    binds-decided : (ts other : ℕ) → binds a view ts other (data_of cs) ≡ true → other ≡ value
    unfolding binds
    binds-decided ts other h =
        let (o, vote, lock) = correct_decider ts other (ground arith) in
        elim (Locked-later laws ts other o lock vote) [
          | inl same ↦ same
          | inr after ↦ certified_later ts other (ground arith) after
        ]

    -- A value that a quorum has decided in an earlier view stays: where the collects come from
    -- different members, a correct decider shows its quorum of `PREPARE`s for the value, correct
    -- senders have prepared nothing else since, faulty ones name no value twice and are at most
    -- `f`, and members and faulty together are fewer than the quorum and the deciders, `sound` is
    -- bound to no other value.
    pub sound_keeps_decided :
        (iteration : List ℕ → List ℕ)
        → ((xs : List ℕ) (x : ℕ) → contains (iteration xs) x ≡ contains xs x)
        → (other : ℕ) → sound a iteration view (data_of cs) ≡ bound other
        → other ≡ value
    sound_keeps_decided iteration same other h =
        elim (sound_searches a view (data_of cs) iteration same) [
          | inl (found, ts, e, b) ↦
              let equal : bound found ≡ bound other = sym e ∙ h in
              binds-decided ts other (subst (λ t. binds a view ts t (data_of cs) ≡ true) (cc) b)
          | inr (e, never) ↦
              let clash : unbound (is_unbound a view (data_of cs)) ≡ bound other = sym e ∙ h in cc
        ]
