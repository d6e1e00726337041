-- ===== src/Base/Pigeonhole.antt =====
-- Counting for sets of nodes: what two large sets have in common.
use febft.Base.Tests.{◌==◌, if◌then◌else◌, ==_self, ==_iff, Bool-cases}
use febft.Base.Lists.{length, length-append, All}
use febft.Base.Members.{contains, Distinct}
use Prim.Native.Nat.{ℕ, suc, ◌+◌, ◌≤◌, ◌<◌}
use mathlib.Core.Path.{◌≡◌, refl, ap}
use mathlib.Core.Logic.{◌⊎◌, inl, inr}
use mathlib.Core.Bool.{true, false, ◌&&◌, ◌||◌}
use mathlib.Core.List.{List, [], ◌∷◌, ◌++◌}
use native.Mathlib.Omega.{arith}

erase : ℕ → List ℕ → List ℕ
erase x [] = []
erase x (y ∷ ys) = if y == x then ys else y ∷ erase x ys

length-erase : (x : ℕ) (ys : List ℕ) → contains ys x ≡ true → length ys ≡ suc (length (erase x ys))
unfolding erase
length-erase x [] h = cc
length-erase x (y ∷ ys) h = ground (arith, length-erase x ys)

contains-erase :
    (x z : ℕ) (ys : List ℕ) → (x == z) ≡ false → contains (erase x ys) z ≡ contains ys z
unfolding erase
contains-erase x z [] h = refl
contains-erase x z (y ∷ ys) h = ground (arith, contains-erase x z ys h)

abbrev pub Subset : List ℕ → List ℕ → Type 0
Subset xs ys = All (λ x. contains ys x ≡ true) xs

Subset-erase :
    (x : ℕ) (xs ys : List ℕ) → contains xs x ≡ false → Subset xs ys → Subset xs (erase x ys)
Subset-erase x [] ys h s = tt
Subset-erase x (z ∷ xs) ys h s =
    ground (arith, contains-erase x z ys, Subset-erase x xs ys, s.0, s.1)

pub pigeonhole : (xs ys : List ℕ) → Distinct xs → Subset xs ys → length xs ≤ length ys
pigeonhole [] ys d s = omega arith
pigeonhole (x ∷ xs) ys d s =
    omega
      (arith, length-erase x ys s.0, pigeonhole xs (erase x ys) d.1 (Subset-erase x xs ys d.0 s.1))

common : List ℕ → List ℕ → List ℕ
common [] ys = []
common (x ∷ xs) ys = if contains ys x then x ∷ common xs ys else common xs ys

others : List ℕ → List ℕ → List ℕ
others [] ys = []
others (x ∷ xs) ys = if contains ys x then others xs ys else x ∷ others xs ys

length-common : (xs ys : List ℕ) → length xs ≡ length (common xs ys) + length (others xs ys)
unfolding common others
length-common [] ys = omega arith
length-common (x ∷ xs) ys = ground (arith, length-common xs ys)

contains-cong : (x z : ℕ) (ys : List ℕ) → (x == z) ≡ true → contains ys x ≡ contains ys z
contains-cong x z ys h = ap (contains ys) ((==_iff x z).0 h)

contains-common :
    (xs ys : List ℕ) (z : ℕ) → contains (common xs ys) z ≡ (contains xs z && contains ys z)
unfolding common
contains-common [] ys z = refl
contains-common (x ∷ xs) ys z = ground (arith, contains-common xs ys z, contains-cong x z ys)

contains-others :
    (xs ys : List ℕ) (z : ℕ) → contains (others xs ys ++ ys) z ≡ (contains xs z || contains ys z)
unfolding others
contains-others [] ys z = refl
contains-others (x ∷ xs) ys z = ground (arith, contains-others xs ys z, contains-cong x z ys)

Distinct-common : (xs ys : List ℕ) → Distinct xs → Distinct (common xs ys)
unfolding common
Distinct-common [] ys d = tt
Distinct-common (x ∷ xs) ys d = ground (arith, Distinct-common xs ys d.1, contains-common xs ys x)

Distinct-others : (xs ys : List ℕ) → Distinct xs → Distinct ys → Distinct (others xs ys ++ ys)
unfolding others
Distinct-others [] ys d e = e
Distinct-others (x ∷ xs) ys d e =
    ground (arith, Distinct-others xs ys d.1 e, contains-others xs ys x)

Subset-others : (xs ys zs : List ℕ) → Subset xs zs → Subset ys zs → Subset (others xs ys ++ ys) zs
unfolding others
Subset-others [] ys zs s t = t
Subset-others (x ∷ xs) ys zs s t = ground (arith, Subset-others xs ys zs s.1 t, s.0)

first_outside :
    (xs ys : List ℕ) → ((x : ℕ) × (contains xs x ≡ true) × (contains ys x ≡ false)) ⊎ Subset xs ys
first_outside [] ys = inr tt
first_outside (x ∷ xs) ys = elim (Bool-cases (contains ys x)) [
  | inr out ↦ inl (x, ground (arith, ==_self x), out)
  | inl in_ys ↦ elim (first_outside xs ys) [
    | inl (z, here, out) ↦ inl (z, ground arith, out)
    | inr rest ↦ inr (in_ys, rest)
  ]
]

-- Among `nodes`, two quorums share a node outside `faulty`.
pub quorums_meet :
    (xs ys nodes faulty : List ℕ)
    → Distinct xs
    → Distinct ys
    → Subset xs nodes
    → Subset ys nodes
    → length nodes + length faulty < length xs + length ys
    → (x : ℕ) × (contains xs x ≡ true) × (contains ys x ≡ true) × (contains faulty x ≡ false)
quorums_meet xs ys nodes faulty dx dy sx sy h = elim (first_outside (common xs ys) faulty) [
  | inl (x, both, out) ↦
      (x, ground (arith, contains-common xs ys x), ground (arith, contains-common xs ys x), out)
  | inr inside ↦ absurd (
      omega (
        arith,
        pigeonhole (common xs ys) faulty (Distinct-common xs ys dx) inside,
        pigeonhole (others xs ys ++ ys) nodes (Distinct-others xs ys dx dy)
            (Subset-others xs ys nodes sx sy),
        length-append {0} (others xs ys) ys,
        length-common xs ys,
      ))
]
