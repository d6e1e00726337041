-- ===== src/Log/Keys.antt =====
-- The key of a client operation, of febft-pbft-consensus/src/bft/log/mod.rs.
use febft.Base.{
  ℕ, zero, suc, ◌+◌, ◌*◌, ◌/◌, ◌%◌, ◌^◌, ◌<◌, ◌≡◌, ◌∙◌, ◌||◌, ◌==◌, if◌then◌else◌, arith,
}
use febft.Message.{Request}

-- `|` on numbers of that many bits.
unfoldable pub bit_or : (width : ℕ) → ℕ → ℕ → ℕ
bit_or zero x y = 0
bit_or (suc width) x y =
    (if (x % 2 == 1) || (y % 2 == 1) then 1 else 0) + 2 * bit_or width (x / 2) (y / 2)

-- `NodeId` and `SeqNo` are 32 bits wide, the key is 64 bits wide.
unfoldable pub operation_key_raw : ℕ → ℕ → ℕ
unfolding bit_or
operation_key_raw from session = bit_or 64 from ((session * 2 ^ 32) % 2 ^ 64)

unfoldable pub operation_key : Request → ℕ
unfolding operation_key_raw
operation_key rq = operation_key_raw rq.info.sender rq.info.session

bit_or-zero : (width y : ℕ) → y < 2 ^ width → bit_or width 0 y ≡ y
unfolding bit_or
bit_or-zero zero y h = omega arith
bit_or-zero (suc width) y h =
    let half : bit_or width 0 (y / 2) ≡ y / 2 = bit_or-zero width (y / 2) (omega arith) in
    ground arith

doubled_power : (s k : ℕ) → s * 2 ^ suc k ≡ 2 * (s * 2 ^ k)
doubled_power s k = grind arith

even_high :
    (width x high : ℕ)
    → bit_or width (x / 2) high ≡ x / 2 + high
    → bit_or (suc width) x (2 * high) ≡ x + 2 * high
unfolding bit_or
even_high width x high half =
    let halved : (2 * high) / 2 ≡ high = omega arith in
    let even : (2 * high) % 2 ≡ 0 = omega arith in ground arith

bit_or-shifted :
    (k width x s : ℕ)
    → x < 2 ^ k
    → x + s * 2 ^ k < 2 ^ width
    → bit_or width x (s * 2 ^ k) ≡ x + s * 2 ^ k
unfolding bit_or
bit_or-shifted zero width x s lt h =
    let none_low : x ≡ 0 = omega arith in
    let unshifted : s * 2 ^ 0 ≡ s = omega arith in
    let sum : s ≡ 0 + s = omega arith in
    rw (none_low, unshifted) (bit_or-zero width s (omega arith) ∙ sum)
bit_or-shifted (suc k) zero x s lt h = omega arith
bit_or-shifted (suc k) (suc width) x s lt h =
    let high : ℕ = s * 2 ^ k in
    let doubled : s * 2 ^ suc k ≡ 2 * high = doubled_power s k in
    let half : bit_or width (x / 2) high ≡ x / 2 + high =
      bit_or-shifted k width (x / 2) s (omega arith) (omega arith) in
    rw doubled (even_high width x high half)

-- A node and a session number of 32 bits each make a key of 64 bits, from whose low half the node is
-- read and from whose high half the session number.
pub operation_key_raw_separates :
    (from session : ℕ)
    → from < 2 ^ 32
    → session < 2 ^ 32
    → (operation_key_raw from session < 2 ^ 64)
      × (operation_key_raw from session % 2 ^ 32 ≡ from)
      × (operation_key_raw from session / 2 ^ 32 ≡ session)
unfolding operation_key_raw
operation_key_raw_separates from session f s =
    let key : operation_key_raw from session ≡ from + session * 2 ^ 32 =
      rw (fits) (bit_or-shifted 32 64 from session f (omega arith)) in
    rw key (omega arith)
  where
    fits : (session * 2 ^ 32) % 2 ^ 64 ≡ session * 2 ^ 32
    fits = omega arith
