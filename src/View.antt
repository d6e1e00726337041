-- ===== src/View.antt =====
-- febft-pbft-consensus/src/bft/sync/view/mod.rs: the views, and the division of the hash space
-- among their leaders.
pub mod HashSpace
pub mod Leaders
pub mod Members
use febft.Base.{
  ℕ, zero, suc, ◌+◌, ◌-◌, ◌/◌, ◌%◌, ◌^◌, Bool, ◌&&◌, Option, none, some, List, [], ◌∷◌, ◌++◌, ◌==◌,
  leb, if◌then◌else◌, length, get_elem?, contains, insert, Result, ok, err, panic, ◌>>=◌, ok_or,
  unwrap,
}
use febft.Atlas.{Atlas, SystemParams}

pub data ViewError : Type 0 where
  leader_not_in_quorum : ℕ → List ℕ → ViewError
  -- the error of `SystemParams::new`
  system_params : ViewError

-- A slice of the hash space, by the bytes of its first and its last number.
abbrev pub Slice : Type 0
Slice = List ℕ × List ℕ

pub record ViewInfo : Type 0 where
  pub seq : ℕ
  pub quorum_members : List ℕ
  pub leader_set : List ℕ
  pub leader_hash_space_division : List (ℕ × Slice)
  pub params : SystemParams

abbrev pub leader_count : ℕ
leader_count = 1

-- `Digest::LENGTH`, in bytes, is a parameter of the division.
abbrev pub last_hash : ℕ → ℕ
last_hash size_bytes = 256 ^ size_bytes - 1

-- `NodeId::targets_u32(i..n)`, with the numbers that are left.
abbrev pub targets_from : ℕ → ℕ → List ℕ
targets_from zero i = []
targets_from (suc left) i = i ∷ targets_from left (i + 1)

-- `n as u32` wraps.
abbrev pub targets : ℕ → List ℕ
targets n = targets_from (n % 2 ^ 32) 0

module _ (a : Atlas) where
  unfoldable pub is_request_in_hash_space : ℕ → Slice → Bool
  is_request_in_hash_space rq (first, last) =
      leb (a.from_bytes_be first) rq && leb rq (a.from_bytes_be last)

  -- The loop of `divide_hash_space`: `left` rounds to go, each slice from `start` on.
  unfoldable pub divide_from : ℕ → ℕ → ℕ → ℕ → List Slice
  divide_from zero end increment start = []
  divide_from (suc zero) end increment start = (a.to_bytes_be start, a.to_bytes_be end) ∷ []
  divide_from (suc (suc left)) end increment start =
      (a.to_bytes_be start, a.to_bytes_be (start + increment))
      ∷ divide_from (suc left) end increment (start + increment + 1)

  -- No slice is asked for where `count` is 0, and the code panics on the division by 0.
  unfoldable pub divide_hash_space : ℕ → ℕ → Result ViewError (List Slice)
  divide_hash_space size_bytes count =
      if count == 0
      then panic
      else ok (divide_from count (last_hash size_bytes) (last_hash size_bytes / count) 0)

  -- `for_each` over the slices with their index, which is in range by their number.
  unfoldable pub slices_for_leaders :
      List ℕ → List Slice → List (ℕ × Slice) → Result ViewError (List (ℕ × Slice))
  slices_for_leaders leaders [] acc = ok acc
  slices_for_leaders [] (slice ∷ slices) acc = panic
  slices_for_leaders (leader ∷ leaders) (slice ∷ slices) acc =
      slices_for_leaders leaders slices (insert leader slice acc)

  module _ (size_bytes : ℕ) where
    unfoldable pub calculate_hash_space_division : List ℕ → Result ViewError (List (ℕ × Slice))
    calculate_hash_space_division leader_set = do
      slices ← divide_hash_space size_bytes (length leader_set)
      slices_for_leaders leader_set slices []

    -- `for i in i..LEADER_COUNT { leader_set.push(quorum_members[(seq + i) % n]) }`
    unfoldable pub push_leaders : ℕ → ℕ → ℕ → ℕ → List ℕ → List ℕ → Result ViewError (List ℕ)
    push_leaders zero i seq n members leaders = ok leaders
    push_leaders (suc left) i seq n members leaders = do
      leader ← unwrap (get_elem? members ((seq + i) % n))
      push_leaders left (i + 1) seq n members (leaders ++ leader ∷ [])

    -- The part that `ViewInfo::new` and `ViewInfo::from_quorum` share: `% n` panics at 0.
    unfoldable pub with_members : ℕ → ℕ → List ℕ → SystemParams → Result ViewError ViewInfo
    with_members seq n members params = if n == 0 then panic else do
      destined_leader ← unwrap (get_elem? members (seq % n))
      leaders ← push_leaders (leader_count - 1) 1 seq n members (destined_leader ∷ [])
      division ← calculate_hash_space_division leaders
      ok (record {
        seq = seq;
        quorum_members = members;
        leader_set = leaders;
        leader_hash_space_division = division;
        params = params;
      })

    unfoldable pub new : ℕ → ℕ → ℕ → Result ViewError ViewInfo
    new seq n f = do
      params ← ok_or (a.params_new n f) system_params
      with_members seq n (targets n) params

    -- `n - 1` overflows at 0.
    unfoldable pub from_quorum : ℕ → List ℕ → Result ViewError ViewInfo
    from_quorum seq members = if length members == 0 then panic else do
      params ← ok_or (a.params_new (length members) ((length members - 1) / 3)) system_params
      with_members seq (length members) members params

    unfoldable pub check_leaders : List ℕ → List ℕ → Result ViewError (Unit {0})
    check_leaders members [] = ok tt
    check_leaders members (x ∷ leaders) =
        let rest = check_leaders members leaders in
        if contains members x then rest else err (leader_not_in_quorum x members)

    unfoldable pub with_leader_set : ℕ → ℕ → ℕ → List ℕ → List ℕ → Result ViewError ViewInfo
    with_leader_set seq n f quorum_participants leader_set = do
      params ← ok_or (a.params_new n f) system_params
      _ ← check_leaders quorum_participants leader_set
      division ← calculate_hash_space_division leader_set
      ok (record {
        seq = seq;
        quorum_members = quorum_participants;
        leader_set = leader_set;
        leader_hash_space_division = division;
        params = params;
      })

    -- `Result::unwrap`.
    abbrev unwrap_ok : Result ViewError ViewInfo → Result ViewError ViewInfo
    unwrap_ok (ok v) = ok v
    unwrap_ok (err e) = panic
    unwrap_ok panic = panic

    unfoldable pub next_view : ViewInfo → Result ViewError ViewInfo
    next_view v = unwrap_ok (new (a.next v.seq) v.params.n v.params.f)

    unfoldable pub next_view_with_new_node : ViewInfo → ℕ → Result ViewError ViewInfo
    next_view_with_new_node v joined_node =
        unwrap_ok (from_quorum (a.next v.seq) (v.quorum_members ++ joined_node ∷ []))

    -- `SeqNo::ZERO` is 0.
    unfoldable pub previous_view : ViewInfo → Result ViewError (Option ViewInfo)
    previous_view v =
        if v.seq == 0
        then ok none
        else do w ← unwrap_ok (new (a.prev v.seq) v.params.n v.params.f); ok (some w)

    unfoldable pub peek : ViewInfo → ℕ → Result ViewError ViewInfo
    peek v seq = unwrap_ok (new seq v.params.n v.params.f)

unfoldable pub leader : ViewInfo → Result ViewError ℕ
leader v =
    if v.params.n == 0 then panic else unwrap (get_elem? v.quorum_members (v.seq % v.params.n))
