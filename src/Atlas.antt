-- ===== src/Atlas.antt =====
-- What febft takes from the Atlas crates and `num_bigint`, whose code is not in this repository:
-- sequence numbers, system parameters, the hash of a batch, and the bytes of a big number.
-- A `SeqNo` and a `NodeId` are 32-bit numbers, kept here as ℕ; a `Digest` is kept as the number
-- that its bytes spell, the most significant first, which tells digests of one length apart.
use febft.Base.{ℕ, zero, suc, ◌≡◌, Option, some, List, Bool, true, false}

-- `SeqNo::index` gives an error to the left, or the distance of the argument.
pub data Index : Type 0 where
  left : Index
  right : ℕ → Index

-- `SystemParams`, seen through its accessors.
pub record SystemParams : Type 0 where
  pub n : ℕ
  pub f : ℕ
  pub quorum : ℕ

pub record Atlas : Type 0 where
  -- `SeqNo::next`, `SeqNo::prev`, `+`, `SeqNo::index` and `<`
  pub next : ℕ → ℕ
  pub prev : ℕ → ℕ
  pub plus : ℕ → ℕ → ℕ
  pub index : ℕ → ℕ → Index
  pub before : ℕ → ℕ → Bool
  -- `SystemParams::new`, which may refuse its arguments
  pub params_new : ℕ → ℕ → Option SystemParams
  -- `Context`: the digest of the updates made, in their order
  pub hash : List ℕ → ℕ
  -- `BigUint::to_bytes_be` and `BigUint::from_bytes_be`
  pub to_bytes_be : ℕ → List ℕ
  pub from_bytes_be : List ℕ → ℕ

-- The number `k` steps of `next` after `s`.
abbrev pub advance : Atlas → ℕ → ℕ → ℕ
advance a zero s = s
advance a (suc k) s = advance a k (a.next s)

-- What `SeqNo` documents: `index` measures the distance, and `+ SeqNo::ONE` is `next`.
pub record SeqLaws (a : Atlas) : Type 0 where
  pub index_sound : (t s k : ℕ) → a.index t s ≡ right k → advance a k s ≡ t
  pub index_self : (s : ℕ) → a.index s s ≡ right 0
  pub index_next : (s : ℕ) → a.index (a.next s) s ≡ right 1
  pub plus_one : (s : ℕ) → a.plus s 1 ≡ a.next s
  pub index_step : (t s k : ℕ) → a.index t s ≡ right (suc k) → a.index t (a.next s) ≡ right k
  pub before_ahead : (t s k : ℕ) → a.index t s ≡ right (suc k) → a.before s t ≡ true
  pub before_self : (s : ℕ) → a.before s s ≡ false

-- What `SystemParams` documents: the accessors return what `new` was given.
pub record ParamsLaws (a : Atlas) : Type 0 where
  pub new_n : (n f : ℕ) (p : SystemParams) → a.params_new n f ≡ some p → p.n ≡ n
  pub new_f : (n f : ℕ) (p : SystemParams) → a.params_new n f ≡ some p → p.f ≡ f

-- What `BigUint` documents: the bytes of a number read back as the number.
pub record BytesLaws (a : Atlas) : Type 0 where
  pub from_to : (x : ℕ) → a.from_bytes_be (a.to_bytes_be x) ≡ x
