-- ===== src/Consensus/Decision/Ready/Kept.antt =====
-- What an instance needs in its phase, and `ConsensusDecision::process_message`, of
-- febft-pbft-consensus/src/bft/consensus/decision/mod.rs.
use febft.Base.{ℕ, ◌+◌, ◌≡◌, refl, not, Bool-cases, inl, inr, ◌==◌, contains}
use febft.Atlas.{Atlas}
use febft.Message.{
  StoredConsensusMessage, ConsensusMessageKind, pre_prepare, prepare, commit, kind_of, view_of,
  seq_of,
}
use febft.Consensus.Decision.{
  ConsensusDecision, DecisionPhase, initialize, pre_preparing, preparing, committing, decided,
  queue,
}
use febft.Consensus.Decision.Process.{
  Env, process_pre_preparing, process_preparing, process_committing, process_phase, process_message,
}
use febft.Consensus.Decision.Ready.{Ready, Fine, accept_pre_prepare-Fine}
use febft.Consensus.Decision.Ready.Votes.{accept_prepare-Fine, accept_commit-Fine}

module _ (a : Atlas) (env : Env) where
  process_pre_preparing-Fine :
      (d : ConsensusDecision) (n : ℕ) (kind : ConsensusMessageKind) (m : StoredConsensusMessage)
      → Ready a env d
      → d.phase ≡ pre_preparing n
      → kind_of m ≡ kind
      → Fine a env (process_pre_preparing a env d n kind m)
  unfolding process_pre_preparing
  process_pre_preparing-Fine d n (prepare x) m r p k = (record { log = r.log; phase = r.phase }, tt)
  process_pre_preparing-Fine d n (commit x) m r p k = (record { log = r.log; phase = r.phase }, tt)
  process_pre_preparing-Fine d n (pre_prepare rqs) m r p k =
      elim (Bool-cases (not (view_of m == env.view.seq))) [
        | inl v ↦ rw (v, process_pre_preparing) (r, tt)
        | inr v ↦ elim (Bool-cases (not (contains env.view.leader_set m.from))) [
          | inl l ↦ rw (v, l, process_pre_preparing) (r, tt)
          | inr l ↦ elim (Bool-cases (not (seq_of m == d.seq))) [
            | inl s ↦ rw (v, l, s, process_pre_preparing) (r, tt)
            | inr s ↦
                rw (v, l, s, process_pre_preparing)
                  (accept_pre_prepare-Fine a env d n rqs m r.log p (rw p at r.phase) k)
          ]
        ]
      ]

  process_preparing-Fine :
      (d : ConsensusDecision) (n : ℕ) (kind : ConsensusMessageKind) (m : StoredConsensusMessage)
      → Ready a env d
      → d.phase ≡ preparing n
      → kind_of m ≡ kind
      → Fine a env (process_preparing a env d n kind m)
  unfolding process_preparing
  process_preparing-Fine d n (pre_prepare rqs) m r p k = (r, tt)
  process_preparing-Fine d n (commit x) m r p k = (record { log = r.log; phase = r.phase }, tt)
  process_preparing-Fine d n (prepare digest) m r p k =
      let (x, e) = rw p at r.phase in
      elim (Bool-cases (not (view_of m == env.view.seq))) [
        | inl v ↦ rw (v, process_preparing) (r, tt)
        | inr v ↦ elim (Bool-cases (not (seq_of m == d.seq))) [
          | inl s ↦ rw (v, s, process_preparing) (r, tt)
          | inr s ↦ elim (Bool-cases (not (digest == x))) [
            | inl o ↦ rw (v, s, e, o, process_preparing) (r, tt)
            | inr o ↦
                rw (v, s, e, o, process_preparing)
                  (accept_prepare-Fine a env d n (n + 1) x digest m r.log p e k)
          ]
        ]
      ]

  process_committing-Fine :
      (d : ConsensusDecision) (n : ℕ) (kind : ConsensusMessageKind) (m : StoredConsensusMessage)
      → Ready a env d
      → d.phase ≡ committing n
      → kind_of m ≡ kind
      → Fine a env (process_committing a env d n kind m)
  unfolding process_committing
  process_committing-Fine d n (pre_prepare rqs) m r p k = (r, tt)
  process_committing-Fine d n (prepare x) m r p k = (r, tt)
  process_committing-Fine d n (commit digest) m r p k =
      let (x, e) = rw p at r.phase in
      elim (Bool-cases (not (seq_of m == d.seq))) [
        | inl s ↦ rw (s, process_committing) (r, tt)
        | inr s ↦ elim (Bool-cases (not (view_of m == env.view.seq))) [
          | inl v ↦ rw (s, v, process_committing) (r, tt)
          | inr v ↦ elim (Bool-cases (not (digest == x))) [
            | inl o ↦ rw (s, v, e, o, process_committing) (r, tt)
            | inr o ↦
                rw (s, v, e, o, process_committing)
                  (accept_commit-Fine a env d n (n + 1) x digest m r.log p e k)
          ]
        ]
      ]

  process_phase-Fine :
      (d : ConsensusDecision) (phase : DecisionPhase) (m : StoredConsensusMessage)
      → Ready a env d
      → d.phase ≡ phase
      → Fine a env (process_phase a env d phase m)
  unfolding process_phase queue
  process_phase-Fine d initialize m r p = (record { log = r.log; phase = r.phase }, tt)
  process_phase-Fine d (pre_preparing n) m r p =
      process_pre_preparing-Fine d n (kind_of m) m r p refl
  process_phase-Fine d (preparing n) m r p = process_preparing-Fine d n (kind_of m) m r p refl
  process_phase-Fine d (committing n) m r p = process_committing-Fine d n (kind_of m) m r p refl
  process_phase-Fine d decided m r p = (r, tt)

  -- A ready instance takes any message without a panic and without failing to compute its digest,
  -- and is ready again.
  pub process_message-Fine :
      (d : ConsensusDecision) (m : StoredConsensusMessage)
      → Ready a env d
      → Fine a env (process_message a env d m)
  unfolding process_message
  process_message-Fine d m r = process_phase-Fine d d.phase m r refl
