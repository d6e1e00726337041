-- ===== src/Consensus/Instances/Poll.antt =====
-- `Consensus::poll` of febft-pbft-consensus/src/bft/consensus/mod.rs. Each round of the loop takes a
-- signal away, or takes an instance out of its first phase; the fuel counts both.
use febft.Base.{
  ℕ, zero, suc, ◌+◌, ◌*◌, ◌≤◌, ◌<◌, ◌≡◌, ◌≢◌, refl, ap, Bool-cases, Option-cases, inl, inr, Option,
  none, some, List, [], ◌∷◌, if◌then◌else◌, length, get_elem?, set, contains, Result, ok, err,
  panic, arith,
}
use febft.Atlas.{Atlas, Index, left, right}
use febft.Message.{StoredConsensusMessage}
use febft.Consensus.Decision.{ConsensusDecision, DecisionPollStatus}
use febft.Consensus.Decision.Seq.{is_initialize, Polled, poll-Polled}
use febft.Consensus.Decision
use febft.Consensus.Guard.{Signals, pop_least, pop_signalled, push_signalled, make_seq_available}
use febft.Consensus.Instances.{Consensus, can_finalize}

-- `decided` comes without a decision.
pub data ConsensusPollStatus : Type 0 where
  recv : ConsensusPollStatus
  next_message : StoredConsensusMessage → ConsensusPollStatus
  decided : ConsensusPollStatus

pub data PollError : Type 0 where
  out_of_fuel : PollError

-- What a round leaves: the answer, or the state to go on with.
pub data Round : Type 0 where
  answer : ConsensusPollStatus → Round
  again : Round

-- The status of the instance `seq` that was polled.
unfoldable pub polled_as : Consensus → ℕ → DecisionPollStatus → Consensus × Round
polled_as c seq (DecisionPollStatus.next_message m) =
    (record c { signalled = push_signalled c.signalled seq }, answer (next_message m))
polled_as c seq DecisionPollStatus.try_propose = (
  record c {
    signalled = push_signalled c.signalled seq;
    consensus_guard =
        if contains c.curr_view.leader_set c.node_id
        then make_seq_available c.consensus_guard seq
        else c.consensus_guard;
  },
  again,
)
polled_as c seq DecisionPollStatus.recv = (c, again)
polled_as c seq DecisionPollStatus.decided = (c, again)

-- The index of the instance, where it is not in the past. An index out of range panics.
unfoldable pub poll_at : Consensus → ℕ → Index → Option (Consensus × Round)
unfolding polled_as
poll_at c seq left = some (c, again)
poll_at c seq (right i) = elim (get_elem? c.decisions i) [
  | none ↦ none
  | some d ↦
      let (e, status) = Decision.poll d in
      some (polled_as (record c { decisions = set c.decisions i e }) seq status)
]

unfoldable pub poll_idle : Consensus → ConsensusPollStatus
poll_idle c = if can_finalize c then decided else recv

-- Instances in their first phase.
abbrev pub initial : List ConsensusDecision → ℕ
initial [] = 0
initial (d ∷ ds) = is_initialize d.phase + initial ds

abbrev pub measure : Consensus → ℕ
measure c = 2 * initial c.decisions + length c.signalled.signaled_seq_no

module _ (a : Atlas) where
  abbrev pub finish_round :
      Option (Consensus × Round)
      → (Consensus → Result PollError (Consensus × ConsensusPollStatus))
      → Result PollError (Consensus × ConsensusPollStatus)
  finish_round none next = panic
  finish_round (some (c, answer status)) next = ok (c, status)
  finish_round (some (c, again)) next = next c

  unfoldable pub poll_loop : ℕ → Consensus → Result PollError (Consensus × ConsensusPollStatus)
  unfolding pop_signalled poll_at poll_idle
  poll_loop zero c = err out_of_fuel
  poll_loop (suc fuel) c = elim (pop_least a c.signalled.signaled_seq_no) [
    | none ↦ ok (c, poll_idle c)
    | some x ↦
        let s = (pop_signalled a c.signalled).0 in
        finish_round (poll_at (record c { signalled = s }) x.0 (a.index x.0 c.seq_no))
          (λ e. poll_loop fuel e)
  ]

  unfoldable pub poll : Consensus → Result PollError (Consensus × ConsensusPollStatus)
  unfolding poll_loop
  poll c = poll_loop (suc (measure c)) c

  -- The entries that a pop leaves.
  abbrev others : Option (ℕ × List ℕ) → ℕ
  others none = 0
  others (some x) = length x.1

  empty_without_least : (heap : List ℕ) → pop_least a heap ≡ none → length heap ≡ 0
  empty_without_least [] e = refl
  empty_without_least (y ∷ heap) e = elim (Option-cases (pop_least a heap)) [
    | inl n ↦ cc (rw n at e)
    | inr (z, f) ↦ elim (Bool-cases (a.before z.0 y)) [
      | inl b ↦ cc (rw (f, b) at e)
      | inr b ↦ cc (rw (f, b) at e)
    ]
  ]

  length-pop_least :
      (heap : List ℕ) {x : ℕ × List ℕ} → pop_least a heap ≡ some x → length heap ≡ suc (length x.1)
  length-pop_least [] e = cc
  length-pop_least (y ∷ heap) {x} e = elim (Option-cases (pop_least a heap)) [
    | inl n ↦
        let left : 0 ≡ length x.1 = ap others (rw n at e) in
        omega (arith, left, empty_without_least heap n)
    | inr (z, f) ↦ elim (Bool-cases (a.before z.0 y)) [
      | inl b ↦
          let left : suc (length z.1) ≡ length x.1 = ap others (rw (f, b) at e) in
          omega (arith, left, length-pop_least heap f)
      | inr b ↦
          let left : length heap ≡ length x.1 = ap others (rw (f, b) at e) in omega (arith, left)
    ]
  ]

length-push :
    (s : Signals) (seq : ℕ)
    → length (push_signalled s seq).signaled_seq_no ≤ suc (length s.signaled_seq_no)
unfolding push_signalled
length-push s seq = ground arith

abbrev first_phase : Option ConsensusDecision → ℕ
first_phase none = 0
first_phase (some d) = is_initialize d.phase

initial-set :
    (ds : List ConsensusDecision) (i : ℕ) (d e : ConsensusDecision)
    → get_elem? ds i ≡ some d
    → initial (set ds i e) + is_initialize d.phase ≡ initial ds + is_initialize e.phase
initial-set [] i d e g = cc
initial-set (x ∷ ds) zero d e g =
    let same : is_initialize x.phase ≡ is_initialize d.phase = ap first_phase g in
    omega (arith, same)
initial-set (x ∷ ds) (suc i) d e g = omega (arith, initial-set ds i d e g)

-- What a round that goes on leaves is smaller by one, the signal that it took.
abbrev Smaller : ℕ → Option (Consensus × Round) → Type 0
Smaller n none = Unit
Smaller n (some (c, answer status)) = Unit
Smaller n (some (c, again)) = measure c ≤ n

polled_as-Smaller :
    (c : Consensus) (i seq : ℕ) (d e : ConsensusDecision) (status : DecisionPollStatus)
    → get_elem? c.decisions i ≡ some d
    → Polled d (e, status)
    → Smaller
        (measure c)
        (some (polled_as (record c { decisions = set c.decisions i e }) seq status))
unfolding polled_as
polled_as-Smaller c i seq d e (DecisionPollStatus.next_message m) g p = tt
polled_as-Smaller c i seq d e DecisionPollStatus.try_propose g p =
    omega (arith, initial-set c.decisions i d e g, p.0, p.1, length-push c.signalled seq)
polled_as-Smaller c i seq d e DecisionPollStatus.recv g p =
    omega (arith, initial-set c.decisions i d e g, p)
polled_as-Smaller c i seq d e DecisionPollStatus.decided g p =
    omega (arith, initial-set c.decisions i d e g, p)

poll_at-Smaller : (c : Consensus) (seq : ℕ) (i : Index) → Smaller (measure c) (poll_at c seq i)
unfolding poll_at
poll_at-Smaller c seq left = omega arith
poll_at-Smaller c seq (right i) = elim (Option-cases (get_elem? c.decisions i)) [
  | inl n ↦ rw (n, poll_at) tt
  | inr (d, g) ↦
      rw (g, poll_at)
        (polled_as-Smaller c i seq d (Decision.poll d).0 (Decision.poll d).1 g (poll-Polled d))
]

module _ (a : Atlas) where
  finish_round-fuel :
      (fuel : ℕ) (o : Option (Consensus × Round)) (n : ℕ)
      → Smaller n o
      → n < fuel
      → ((c : Consensus) → measure c < fuel → poll_loop a fuel c ≢ err out_of_fuel)
      → finish_round a o (λ e. poll_loop a fuel e) ≢ err out_of_fuel
  finish_round-fuel fuel none n s h rest e = cc
  finish_round-fuel fuel (some (c, answer status)) n s h rest e = cc
  finish_round-fuel fuel (some (c, again)) n s h rest e = rest c (omega (arith, s, h)) e

  length-pop_signalled :
      (s : Signals) {x : ℕ × List ℕ}
      → pop_least a s.signaled_seq_no ≡ some x
      → length (pop_signalled a s).0.signaled_seq_no ≡ length x.1
  unfolding pop_signalled
  length-pop_signalled s f = rw (f, pop_signalled) refl

  poll_loop-fuel :
      (fuel : ℕ) (c : Consensus) → measure c < fuel → poll_loop a fuel c ≢ err out_of_fuel
  unfolding poll_loop
  poll_loop-fuel zero c h = let absurd : ⊥ = omega (arith, h) in elim absurd [ ]
  poll_loop-fuel (suc fuel) c h = elim (Option-cases (pop_least a c.signalled.signaled_seq_no)) [
    | inl n ↦ rw (n, poll_loop) (λ e. cc)
    | inr (x, f) ↦
        let p = record c { signalled = (pop_signalled a c.signalled).0 } in
        let less : measure p < fuel = omega (
          arith,
          h,
          length-pop_least a c.signalled.signaled_seq_no f,
          length-pop_signalled c.signalled f,
        ) in
        rw (f, poll_loop)
          (finish_round-fuel fuel (poll_at p x.0 (a.index x.0 c.seq_no)) (measure p)
            (poll_at-Smaller p x.0 (a.index x.0 c.seq_no)) less (poll_loop-fuel fuel))
  ]

  -- The loop of `poll` ends: its fuel, a signal or a first phase for each round, never runs out.
  pub poll_ends : (c : Consensus) → poll a c ≢ err out_of_fuel
  unfolding poll
  poll_ends c = poll_loop-fuel (suc (measure c)) c (omega arith)
