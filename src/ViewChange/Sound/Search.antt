-- ===== src/ViewChange/Sound/Search.antt =====
-- `sound` of febft-pbft-consensus/src/bft/sync/mod.rs against its predicate: the search over the
-- collected timestamps and values.
use febft.Base.{
  subst, ℕ, ◌<◌, ◌≡◌, sym, ◌∙◌, ◌⊎◌, inl, inr, true, false, Option, none, some, List, [], ◌∷◌, ◌==◌,
  ltb, contains, contains-append, Bool-cases, Option-cases, ==_iff, arith,
}
use febft.Atlas.{Atlas}
use febft.View.{ViewInfo}
use febft.Log.Decisions.{ViewDecisionPair}
use febft.ViewChange.Messages.{CollectData}
use febft.ViewChange.Synchronizer.{bound, unbound}
use febft.ViewChange.Sound.{
  add, count_if, prepared, timestamp, is_pair, add_views, add_values, gather, appears, writes,
  written, total_written, binds, is_unbound, first_value, first_bound, sound,
}

add-old : (x y : ℕ) (xs : List ℕ) → contains xs y ≡ true → contains (add x xs) y ≡ true
add-old x y xs h = ground (arith, contains-append xs x y)

add-new : (x : ℕ) (xs : List ℕ) → contains (add x xs) x ≡ true
add-new x xs = ground (arith, contains-append xs x x)

add_views-old :
    (ps : List ViewDecisionPair) (y : ℕ) (xs : List ℕ)
    → contains xs y ≡ true
    → contains (add_views ps xs) y ≡ true
add_views-old [] y xs h = h
add_views-old (p ∷ ps) y xs h = add_views-old ps y (add p.view xs) (add-old p.view y xs h)

add_values-old :
    (ps : List ViewDecisionPair) (y : ℕ) (xs : List ℕ)
    → contains xs y ≡ true
    → contains (add_values ps xs) y ≡ true
add_values-old [] y xs h = h
add_values-old (p ∷ ps) y xs h = add_values-old ps y (add p.digest xs) (add-old p.digest y xs h)

gather-old :
    (cs : List (Option CollectData)) (s v : List ℕ) (y : ℕ)
    → (contains s y ≡ true → contains (gather cs s v).0 y ≡ true)
      × (contains v y ≡ true → contains (gather cs s v).1 y ≡ true)
unfolding gather
gather-old [] s v y = (λ h. h, λ h. h)
gather-old (none ∷ cs) s v y =
    let rest = gather-old cs (add 0 s) v y in (λ h. rest.0 (add-old 0 y s h), rest.1)
gather-old (some c ∷ cs) s v y =
    let ws = c.incomplete_proof.write_set in
    let rest = gather-old cs (add_views ws (add (timestamp (prepared c)) s)) (add_values ws v) y in
    (
      λ h. rest.0 (add_views-old ws y _ (add-old (timestamp (prepared c)) y s h)),
      λ h. rest.1 (add_values-old ws y v h),
    )

is_pair-timestamp :
    (ts value : ℕ) (o : Option ViewDecisionPair) → is_pair ts value o ≡ true → timestamp o ≡ ts
is_pair-timestamp ts value none h = cc
is_pair-timestamp ts value (some p) h = ground arith

gather-timestamp :
    (a : Atlas) (ts value : ℕ) (cs : List (Option CollectData)) (s v : List ℕ)
    → appears a ts value cs ≡ true
    → contains (gather cs s v).0 ts ≡ true
unfolding gather
gather-timestamp a ts value [] s v h = cc
gather-timestamp a ts value (none ∷ cs) s v h = gather-timestamp a ts value cs (add 0 s) v h
gather-timestamp a ts value (some c ∷ cs) s v h =
    let ws = c.incomplete_proof.write_set in
    let seqs = add_views ws (add (timestamp (prepared c)) s) in
    elim (Bool-cases (is_pair ts value (prepared c))) [
      | inl here ↦ (gather-old cs seqs (add_values ws v) ts).0 (
          add_views-old ws ts _ (
            subst (λ t. contains (add t s) ts ≡ true)
              (sym (is_pair-timestamp ts value (prepared c) here)) (add-new ts s)))
      | inr other ↦ gather-timestamp a ts value cs seqs (add_values ws v) (rw other at h)
    ]

pub writes-digest :
    (a : Atlas) (ts value : ℕ) (p : ViewDecisionPair)
    → writes a ts value p ≡ true
    → p.digest ≡ value
writes-digest a ts value p e = ground arith

add_values-new :
    (a : Atlas) (ts value : ℕ) (ps : List ViewDecisionPair) (xs : List ℕ)
    → 0 < count_if (writes a ts value) ps
    → contains (add_values ps xs) value ≡ true
add_values-new a ts value [] xs h = absurd (omega arith)
add_values-new a ts value (p ∷ ps) xs h = elim (Bool-cases (writes a ts value p)) [
  | inl here ↦ add_values-old ps value (add p.digest xs) (
      subst (λ t. contains (add t xs) value ≡ true) (sym (writes-digest a ts value p here))
        (add-new value xs))
  | inr other ↦ add_values-new a ts value ps (add p.digest xs) (rw other at h)
]

gather-value :
    (a : Atlas) (ts value : ℕ) (cs : List (Option CollectData)) (s v : List ℕ)
    → 0 < total_written a ts value cs
    → contains (gather cs s v).1 value ≡ true
unfolding gather
gather-value a ts value [] s v h = absurd (omega arith)
gather-value a ts value (none ∷ cs) s v h = gather-value a ts value cs (add 0 s) v (omega arith)
gather-value a ts value (some c ∷ cs) s v h =
    let ws = c.incomplete_proof.write_set in
    let seqs = add_views ws (add (timestamp (prepared c)) s) in
    elim (Bool-cases (ltb 0 (written a ts value (some c)))) [
      | inl here ↦
          (gather-old cs seqs (add_values ws v) value).1
            (add_values-new a ts value ws v (ground arith))
      | inr other ↦ gather-value a ts value cs seqs (add_values ws v) (ground arith)
    ]

module _ (a : Atlas) (view : ViewInfo) (cs : List (Option CollectData)) where
  binds-parts :
      (ts value : ℕ)
      → binds a view ts value cs ≡ true
      → (appears a ts value cs ≡ true) × (0 < total_written a ts value cs)
  unfolding binds
  binds-parts ts value h = ground arith

  first_value-binds :
      (ts value : ℕ) (values : List ℕ)
      → first_value a view ts values cs ≡ some value
      → binds a view ts value cs ≡ true
  unfolding first_value
  first_value-binds ts value [] h = cc
  first_value-binds ts value (x ∷ xs) h = ground (arith, first_value-binds ts value xs)

  first_value-none :
      (ts value : ℕ) (values : List ℕ)
      → first_value a view ts values cs ≡ none
      → contains values value ≡ true
      → binds a view ts value cs ≡ false
  unfolding first_value
  first_value-none ts value [] h k = cc
  first_value-none ts value (x ∷ xs) h k = ground (arith, first_value-none ts value xs)

  first_bound-binds :
      (value : ℕ) (seq_numbers values : List ℕ)
      → first_bound a view seq_numbers values cs ≡ some value
      → (ts : ℕ) × (binds a view ts value cs ≡ true)
  unfolding first_bound
  first_bound-binds value [] values h = cc
  first_bound-binds value (ts ∷ seqs) values h =
      elim (Option-cases (first_value a view ts values cs)) [
        | inl e ↦ first_bound-binds value seqs values (rw (e, first_bound) at h)
        | inr (x, e) ↦
            let found : some x ≡ some value = rw (e, first_bound) at h in
            (ts, first_value-binds ts value values (e ∙ found))
      ]

  first_bound-none :
      (ts value : ℕ) (seq_numbers values : List ℕ)
      → first_bound a view seq_numbers values cs ≡ none
      → contains seq_numbers ts ≡ true
      → contains values value ≡ true
      → binds a view ts value cs ≡ false
  unfolding first_bound
  first_bound-none ts value [] values h k l = cc
  first_bound-none ts value (x ∷ xs) values h k l =
      elim (Option-cases (first_value a view x values cs)) [
        | inl e ↦ elim (Bool-cases (x == ts)) [
          | inl same ↦
              first_value-none ts value values
                (subst (λ t. first_value a view t values cs ≡ none) ((==_iff x ts).0 same) e) l
          | inr other ↦
              first_bound-none ts value xs values (rw (e, first_bound) at h) (rw other at k) l
        ]
        | inr (y, e) ↦ let found : some y ≡ none = rw (e, first_bound) at h in cc
      ]

  -- Whatever the order of iteration, `sound` is bound to a value that some timestamp binds, or no
  -- timestamp and no value at all bind, and it is what `unbound` says.
  pub sound_searches :
      (iteration : List ℕ → List ℕ)
      → ((xs : List ℕ) (x : ℕ) → contains (iteration xs) x ≡ contains xs x)
      → ((value : ℕ) × (ts : ℕ) × (sound a iteration view cs ≡ bound value)
          × (binds a view ts value cs ≡ true))
        ⊎ ((sound a iteration view cs ≡ unbound (is_unbound a view cs))
            × ((ts value : ℕ) → binds a view ts value cs ≡ false))
  unfolding sound
  sound_searches iteration same = elim (Option-cases (first_bound a view seqs values cs)) [
    | inr (value, e) ↦
        let (ts, b) = first_bound-binds value seqs values e in inl (value, ts, rw (e, sound), b)
    | inl e ↦ inr (
      rw (e, sound),
      λ ts value. elim (Bool-cases (binds a view ts value cs)) [
        | inr no_bind ↦ no_bind
        | inl b ↦
            let (shown, wrote) = binds-parts ts value b in
            first_bound-none ts value seqs values e
              (same _ ts ∙ gather-timestamp a ts value cs [] [] shown)
              (same _ value ∙ gather-value a ts value cs [] [] wrote)
      ],
    )
  ]
    where
      seqs : List ℕ
      seqs = iteration (gather cs [] []).0

      values : List ℕ
      values = iteration (gather cs [] []).1
