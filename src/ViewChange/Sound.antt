-- ===== src/ViewChange/Sound.antt =====
-- The predicate `sound` of febft-pbft-consensus/src/bft/sync/mod.rs, after Cachin's 'Yet Another
-- Visit to Paxos': which value, if any, the collects of a view change bind.
pub mod Search
pub mod Kept
use febft.Base.{
  ℕ, zero, suc, ◌+◌, Bool, true, false, not, ◌&&◌, Option, none, some, List, [], ◌∷◌, ◌++◌, ◌==◌,
  if◌then◌else◌, length, leb, ltb, contains,
}
use febft.Atlas.{Atlas}
use febft.View.{ViewInfo}
use febft.Log.Decisions.{ViewDecisionPair}
use febft.ViewChange.Messages.{CollectData}
use febft.ViewChange.Synchronizer.{Sound, bound, unbound}

-- `HashSet::insert`
abbrev pub add : ℕ → List ℕ → List ℕ
add x xs = if contains xs x then xs else xs ++ x ∷ []

abbrev pub count_if {ℓ} : {A : Type ℓ} → (A → Bool) → List A → ℕ
count_if p [] = 0
count_if p (x ∷ xs) = if p x then suc (count_if p xs) else count_if p xs

abbrev pub prepared : CollectData → Option ViewDecisionPair
prepared c = c.incomplete_proof.quorum_prepares

-- The timestamp of the quorum of `PREPARE`s; `SeqNo::ZERO` is 0.
abbrev pub timestamp : Option ViewDecisionPair → ℕ
timestamp none = 0
timestamp (some p) = p.view

abbrev pub is_pair : ℕ → ℕ → Option ViewDecisionPair → Bool
is_pair ts value none = false
is_pair ts value (some p) = p.view == ts && p.digest == value

-- The test of `unbound`: no quorum of `PREPARE`s counts as view 0.
abbrev pub at_zero : Option CollectData → Bool
at_zero none = true
at_zero (some c) = timestamp (prepared c) == 0

abbrev pub add_views : List ViewDecisionPair → List ℕ → List ℕ
add_views [] xs = xs
add_views (p ∷ ps) xs = add_views ps (add p.view xs)

abbrev pub add_values : List ViewDecisionPair → List ℕ → List ℕ
add_values [] xs = xs
add_values (p ∷ ps) xs = add_values ps (add p.digest xs)

-- The loop that fills `seq_numbers` and `values`.
unfoldable pub gather : List (Option CollectData) → List ℕ → List ℕ → List ℕ × List ℕ
gather [] seq_numbers values = (seq_numbers, values)
gather (none ∷ cs) seq_numbers values = gather cs (add 0 seq_numbers) values
gather (some c ∷ cs) seq_numbers values =
    gather cs (add_views c.incomplete_proof.write_set (add (timestamp (prepared c)) seq_numbers))
      (add_values c.incomplete_proof.write_set values)

module _ (a : Atlas) where
  abbrev pub not_above : ℕ → ℕ → Option ViewDecisionPair → Bool
  not_above ts value none = false
  not_above ts value (some p) = if a.before p.view ts then true else is_pair ts value (some p)

  abbrev pub appears : ℕ → ℕ → List (Option CollectData) → Bool
  appears ts value [] = false
  appears ts value (none ∷ cs) = appears ts value cs
  appears ts value (some c ∷ cs) =
      let rest = appears ts value cs in if is_pair ts value (prepared c) then true else rest

  abbrev pub votes_for : ℕ → ℕ → Option CollectData → Bool
  votes_for ts value none = false
  votes_for ts value (some c) = not_above ts value (prepared c)

  unfoldable pub quorum_highest : ViewInfo → ℕ → ℕ → List (Option CollectData) → Bool
  quorum_highest view ts value cs =
      appears ts value cs && leb view.params.quorum (count_if (votes_for ts value) cs)

  -- `*other_ts >= ts && other_value == value`
  abbrev pub writes : ℕ → ℕ → ViewDecisionPair → Bool
  writes ts value p = not (a.before p.view ts) && p.digest == value

  abbrev pub written : ℕ → ℕ → Option CollectData → ℕ
  written ts value none = 0
  written ts value (some c) = count_if (writes ts value) c.incomplete_proof.write_set

  abbrev pub total_written : ℕ → ℕ → List (Option CollectData) → ℕ
  total_written ts value [] = 0
  total_written ts value (c ∷ cs) = written ts value c + total_written ts value cs

  unfoldable pub certified_value : ViewInfo → ℕ → ℕ → List (Option CollectData) → Bool
  certified_value view ts value cs = ltb view.params.f (total_written ts value cs)

  unfoldable pub binds : ViewInfo → ℕ → ℕ → List (Option CollectData) → Bool
  unfolding quorum_highest certified_value
  binds view ts value cs =
      if ltb (length cs) view.params.quorum
      then false
      else quorum_highest view ts value cs && certified_value view ts value cs

  unfoldable pub is_unbound : ViewInfo → List (Option CollectData) → Bool
  is_unbound view cs =
      if ltb (length cs) view.params.quorum
      then false
      else leb view.params.quorum (count_if at_zero cs)

  unfoldable pub first_value : ViewInfo → ℕ → List ℕ → List (Option CollectData) → Option ℕ
  first_value view ts [] cs = none
  first_value view ts (value ∷ values) cs =
      let rest = first_value view ts values cs in
      if binds view ts value cs then some value else rest

  unfoldable pub first_bound : ViewInfo → List ℕ → List ℕ → List (Option CollectData) → Option ℕ
  unfolding first_value
  first_bound view [] values cs = none
  first_bound view (ts ∷ seq_numbers) values cs =
      let rest = first_bound view seq_numbers values cs in
      elim (first_value view ts values cs) [ none ↦ rest | some value ↦ some value ]

  -- `iteration` is the order in which a hash set gives its elements.
  unfoldable pub sound : (List ℕ → List ℕ) → ViewInfo → List (Option CollectData) → Sound
  unfolding gather first_bound is_unbound
  sound iteration view cs =
      let (seq_numbers, values) = gather cs [] [] in
      elim (first_bound view (iteration seq_numbers) (iteration values) cs) [
        | none ↦ unbound (is_unbound view cs)
        | some value ↦ bound value
      ]
