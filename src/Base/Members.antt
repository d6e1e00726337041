-- ===== src/Base/Members.antt =====
-- The standard library's `BTreeSet` and `BTreeMap` with numbers as keys, as the code uses them:
-- membership, `insert` and `len`. A set is the list of its entries, a map that of its bindings,
-- each key once; the order is not observed.
use Prim.Native.Nat.{ℕ}
use mathlib.Core.Path.{◌≡◌, refl}
use mathlib.Core.Bool.{Bool, false, ◌||◌}
use mathlib.Core.List.{List, [], ◌∷◌, ◌++◌}
use mathlib.Core.Option.{Option, none, some}
use native.Mathlib.Omega.{arith}
use febft.Base.Tests.{◌==◌, if◌then◌else◌}

abbrev pub contains : List ℕ → ℕ → Bool
contains [] a = false
contains (x ∷ xs) a = x == a || contains xs a

-- No entry twice.
abbrev pub Distinct : List ℕ → Type 0
Distinct [] = Unit
Distinct (x ∷ xs) = (contains xs x ≡ false) × Distinct xs

pub contains-append :
    (xs : List ℕ) (y a : ℕ) → contains (xs ++ y ∷ []) a ≡ (contains xs a || y == a)
contains-append [] y a = ground arith
contains-append (x ∷ xs) y a = ground (arith, contains-append xs y a)

pub Distinct-append :
    (xs : List ℕ) (y : ℕ) → Distinct xs → contains xs y ≡ false → Distinct (xs ++ y ∷ [])
Distinct-append [] y d h = (refl, tt)
Distinct-append (x ∷ xs) y d h = ground (arith, contains-append xs y x, Distinct-append xs y d.1)

pub contains-append_any :
    (xs ys : List ℕ) (a : ℕ) → contains (xs ++ ys) a ≡ (contains xs a || contains ys a)
contains-append_any [] ys a = refl
contains-append_any (x ∷ xs) ys a = ground (arith, contains-append_any xs ys a)

pub Distinct-middle : (xs ys : List ℕ) (y : ℕ) → Distinct (xs ++ y ∷ ys) → contains xs y ≡ false
Distinct-middle [] ys y d = refl
Distinct-middle (x ∷ xs) ys y d =
    ground (arith, contains-append_any xs (y ∷ ys) x, Distinct-middle xs ys y d.1)

-- `BTreeMap::get`, `BTreeMap::insert`.
module _ {ℓ} {V : Type ℓ} where
  abbrev pub lookup : ℕ → List (ℕ × V) → Option V
  lookup key [] = none
  lookup key (binding ∷ others) = if binding.0 == key then some binding.1 else lookup key others

  abbrev pub insert : ℕ → V → List (ℕ × V) → List (ℕ × V)
  insert key value [] = (key, value) ∷ []
  insert key value (binding ∷ others) =
      if binding.0 == key then (key, value) ∷ others else binding ∷ insert key value others

  pub lookup-insert :
      (key other : ℕ) (value : V) (bindings : List (ℕ × V))
      → lookup other (insert key value bindings)
        ≡ (if key == other then some value else lookup other bindings)
  lookup-insert key other value [] = refl
  lookup-insert key other value ((i, w) ∷ bindings) =
      ground (arith, lookup-insert key other value bindings)
