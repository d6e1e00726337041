-- ===== src/Tests/Concrete.antt =====
-- An instance of the Atlas parameters whose sequence numbers do not wrap, and its laws.
use febft.Base.{
  ℕ, zero, suc, ◌+◌, ◌-◌, ◌*◌, ◌≡◌, refl, sym, ◌∙◌, ap, true, false, Bool-cases, inl, inr, Option,
  none, some, List, [], ◌∷◌, ltb, if◌then◌else◌, arith,
}
use febft.Atlas.{Atlas, Index, left, right, SystemParams, SeqLaws, ParamsLaws, BytesLaws, advance}
use febft.Message.{StoredConsensusMessage}
use febft.Consensus.TboQueue.{Tbo, Queues}

abbrev pub distance : ℕ → ℕ → Index
distance t s = if ltb t s then left else right (t - s)

abbrev pub sum : List ℕ → ℕ
sum [] = 0
sum (x ∷ xs) = x + sum xs

abbrev pub first : List ℕ → ℕ
first [] = 0
first (x ∷ xs) = x

abbrev pub atlas : Atlas
atlas = record {
  next = suc;
  prev = λ s. s - 1;
  plus = λ s k. s + k;
  index = distance;
  before = ltb;
  params_new = λ n f. some (record { n = n; f = f; quorum = 2 * f + 1 });
  hash = sum;
  to_bytes_be = λ x. x ∷ [];
  from_bytes_be = first;
}

advance_sum : (k s : ℕ) → advance atlas k s ≡ s + k
advance_sum zero s = omega arith
advance_sum (suc k) s = omega (arith, advance_sum k (suc s))

abbrev steps : Index → ℕ
steps left = 0
steps (right k) = k

distance_sound : (t s k : ℕ) → distance t s ≡ right k → s + k ≡ t
distance_sound t s k e = elim (Bool-cases (ltb t s)) [
  | inl h ↦ cc (rw h at e)
  | inr h ↦ let d : t - s ≡ k = ap steps (rw h at e) in ground arith
]

distance_of : (t s k : ℕ) → t ≡ s + k → distance t s ≡ right k
distance_of t s k e = ground arith

pub seq_laws : SeqLaws atlas
seq_laws = record {
  index_sound = λ t s k e. advance_sum k s ∙ distance_sound t s k e;
  index_self = λ s. distance_of s s 0 (omega arith);
  index_next = λ s. distance_of (suc s) s 1 (omega arith);
  plus_one = λ s. omega arith;
  index_step = λ t s k e. distance_of t (suc s) k (omega (arith, distance_sound t s (suc k) e));
  before_ahead = λ t s k e. ahead t s k (distance_sound t s (suc k) e);
  before_self = λ s. not_before s;
}
  where
    ahead : (t s k : ℕ) → s + suc k ≡ t → ltb s t ≡ true
    ahead t s k e = ground arith

    not_before : (s : ℕ) → ltb s s ≡ false
    not_before s = ground arith

pub params_laws : ParamsLaws atlas
params_laws = record { new_n = λ n f p e. ap n_of (sym e); new_f = λ n f p e. ap f_of (sym e) }
  where
    n_of : Option SystemParams → ℕ
    n_of none = 0
    n_of (some p) = p.n

    f_of : Option SystemParams → ℕ
    f_of none = 0
    f_of (some p) = p.f

pub bytes_laws : BytesLaws atlas
bytes_laws = record { from_to = λ x. refl }

-- Queues that hold the messages of the instances from the base on; here every message goes to the
-- first.
abbrev pub tbo : Tbo
tbo = record {
  queue_message = λ base queues m. to_first queues m.1;
  advance = λ queues. (pop queues).0;
  advance_return = pop;
}
  where
    to_first : Queues → StoredConsensusMessage → Queues
    to_first [] m = (m ∷ []) ∷ []
    to_first (q ∷ qs) m = (m ∷ q) ∷ qs

    pop : Queues → Queues × Option (List StoredConsensusMessage)
    pop [] = ([], none)
    pop (q ∷ qs) = (qs, some q)
