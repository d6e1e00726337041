-- ===== src/Consensus/Guard.antt =====
-- `Signals` and `ProposerConsensusGuard` of febft-pbft-consensus/src/bft/consensus/mod.rs. A heap of
-- the standard library is the list of its entries, of which `pop` takes the least; the locks, the
-- waker and the capacities are left out, and an atomic flag is a Boolean.
use febft.Base.{
  ℕ, zero, suc, length, Bool, true, false, Option, none, some, List, [], ◌∷◌, ◌==◌, if◌then◌else◌,
  contains, lookup, insert,
}
use febft.Atlas.{Atlas}
use febft.Message.{ClientRqInfo}
use febft.View.{ViewInfo}

pub record Signals : Type 0 where
  pub signaled_nos : List ℕ
  pub signaled_seq_no : List ℕ

unfoldable pub new_signals : Signals
new_signals = record { signaled_nos = []; signaled_seq_no = [] }

-- `BTreeSet::remove`
abbrev pub remove : List ℕ → ℕ → List ℕ
remove [] s = []
remove (x ∷ xs) s = if x == s then xs else x ∷ remove xs s

unfoldable pub push_signalled : Signals → ℕ → Signals
push_signalled s seq =
    if contains s.signaled_nos seq
    then s
    else record { signaled_nos = seq ∷ s.signaled_nos; signaled_seq_no = seq ∷ s.signaled_seq_no }

unfoldable pub clear_signals : Signals → Signals
clear_signals s = record { signaled_nos = []; signaled_seq_no = [] }

pub record ProposerConsensusGuard : Type 0 where
  pub can_propose : Bool
  pub seq_no_queue : List ℕ
  pub view : ViewInfo
  pub has_pending_view_change_reqs : Bool
  pub last_view_change : Option (List (ℕ × List (ℕ × ℕ)))

unfoldable pub new_guard : ViewInfo → ProposerConsensusGuard
new_guard view = record {
  can_propose = false;
  seq_no_queue = [];
  view = view;
  has_pending_view_change_reqs = false;
  last_view_change = none;
}

unfoldable pub lock_consensus : ProposerConsensusGuard → ProposerConsensusGuard
lock_consensus g = record g { can_propose = false }

unfoldable pub unlock_consensus : ProposerConsensusGuard → ProposerConsensusGuard
unlock_consensus g = record g { can_propose = true }

unfoldable pub make_seq_available : ProposerConsensusGuard → ℕ → ProposerConsensusGuard
make_seq_available g seq = record g { seq_no_queue = seq ∷ g.seq_no_queue }

unfoldable pub install_view_guard : ProposerConsensusGuard → ViewInfo → ProposerConsensusGuard
install_view_guard g view = record g { view = view; seq_no_queue = [] }

unfoldable pub clear_guard : ProposerConsensusGuard → ProposerConsensusGuard
clear_guard g = record g { seq_no_queue = [] }

unfoldable pub sync_messages_clear : ProposerConsensusGuard → ProposerConsensusGuard
sync_messages_clear g = record g { last_view_change = none; has_pending_view_change_reqs = false }

module _ (a : Atlas) where
  -- The least entry of a heap, and the others.
  abbrev pub pop_least : List ℕ → Option (ℕ × List ℕ)
  pop_least [] = none
  pop_least (x ∷ xs) = elim (pop_least xs) [
    | none ↦ some (x, [])
    | some (y, ys) ↦ if a.before y x then some (y, x ∷ ys) else some (x, xs)
  ]

  unfoldable pub pop_signalled : Signals → Signals × Option ℕ
  pop_signalled s = elim (pop_least s.signaled_seq_no) [
    | none ↦ (s, none)
    | some (seq, rest) ↦
        (record { signaled_nos = remove s.signaled_nos seq; signaled_seq_no = rest }, some seq)
  ]

  unfoldable pub next_seq_no :
      ProposerConsensusGuard → ProposerConsensusGuard × Option (ℕ × ViewInfo)
  next_seq_no g = elim (pop_least g.seq_no_queue) [
    | none ↦ (g, none)
    | some (seq, rest) ↦ (record g { seq_no_queue = rest }, some (seq, g.view))
  ]

  -- One entry of the map of the sessions of each client: the greatest sequence number.
  abbrev pub latest : Option ℕ → ℕ → ℕ
  latest none seq = seq
  latest (some entry) seq = if a.before entry seq then seq else entry

  abbrev pub session_map : Option (List (ℕ × ℕ)) → List (ℕ × ℕ)
  session_map none = []
  session_map (some m) = m

  abbrev pub client_map : List ClientRqInfo → List (ℕ × List (ℕ × ℕ)) → List (ℕ × List (ℕ × ℕ))
  client_map [] m = m
  client_map (rq ∷ rqs) m =
      let entry = session_map (lookup rq.sender m) in
      client_map rqs
        (insert rq.sender (insert rq.session (latest (lookup rq.session entry) rq.seq_no) entry) m)

  unfoldable pub install_sync_message_requests :
      ProposerConsensusGuard → List ClientRqInfo → ProposerConsensusGuard
  install_sync_message_requests g rqs = record g {
    last_view_change = some (client_map rqs []);
    has_pending_view_change_reqs = true;
  }

  -- Popping while the least entry precedes `installed_seq`, which is at most once for each entry.
  abbrev pub pop_before : ℕ → ℕ → List ℕ → List ℕ
  pop_before zero installed_seq heap = heap
  pop_before (suc k) installed_seq heap = elim (pop_least heap) [
    | none ↦ heap
    | some (seq, rest) ↦
        let popped = pop_before k installed_seq rest in
        if a.before seq installed_seq then popped else heap
  ]

  unfoldable pub install_seq_no : ProposerConsensusGuard → ℕ → ProposerConsensusGuard
  install_seq_no g installed_seq = record g {
    seq_no_queue = pop_before (length g.seq_no_queue) installed_seq g.seq_no_queue;
  }
