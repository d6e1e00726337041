-- ===== src/Log/Install/Chain.antt =====
-- `Log::install_proof` and `Log::finalize_batch` of febft-pbft-consensus/src/bft/log/mod.rs: the
-- sequence of the decisions that a log records.
use febft.Base.{
  [], ◌∷◌, ◌>>=◌, Result-cases, false, ℕ, zero, suc, ◌≡◌, refl, sym, ◌∙◌, ap, true, Option, none,
  some, List, Result, ok, err, panic, Option-cases, inl, inr,
}
use febft.Atlas.{Atlas, Index, left, right, SeqLaws}
use febft.Message.{
  Request, StoredConsensusMessage, ConsensusMessageKind, pre_prepare, prepare, commit, kind_of,
}
use febft.Log.Decisions.{Proof, are_pre_prepares_ordered}
use febft.Log.Decisions.Order.{InOrder}
use febft.Log.Decided.{last_execution, append_proof}
use febft.Log.Deciding.{CompletedBatch}
use febft.Log.Deciding.Finish.{decision_from-InOrder}
use febft.Log.Install.{
  Log, LogError, FeDecision, cannot_install_decision_already_ahead, batch_of, full_decision,
  install_after, install_proof, proof_of, requests_of, decision_from, finalize_batch,
}

-- What an installation did: nothing, where it was refused or the log had no decision, or else it
-- recorded the proof, whose sequence number comes after that of the last decision.
abbrev pub Chained : Atlas → Log → Proof → Log → Option ℕ → Result LogError FeDecision → Type 0
Chained a log p after last (err e) = after ≡ log
Chained a log p after none (ok d) = after ≡ log
Chained a log p after (some decision) (ok d) =
    (p.metadata.seq_no ≡ a.next decision) × (after.decided.last_decision ≡ some p)
Chained a log p after last panic = Unit

-- A value or a panic.
abbrev Sure {ℓ} : {A : Type ℓ} → Result LogError A → Type 0
Sure (ok x) = Unit
Sure (err e) = ⊥
Sure panic = Unit

Sure->>= {ℓ κ} :
    {A : Type ℓ} {B : Type κ} (m : Result LogError A) (f : A → Result LogError B)
    → Sure m
    → ((x : A) → Sure (f x))
    → Sure (m >>= f)
Sure->>= (ok x) f h k = k x
Sure->>= (err e) f h k = elim h [ ]
Sure->>= panic f h k = tt

requests_of-Sure : (k : ConsensusMessageKind) → Sure (requests_of k)
requests_of-Sure (pre_prepare rqs) = tt
requests_of-Sure (prepare d) = tt
requests_of-Sure (commit d) = tt

batch_of-Sure : (ms : List StoredConsensusMessage) → Sure (batch_of ms)
unfolding batch_of
batch_of-Sure [] = tt
batch_of-Sure (m ∷ ms) =
    Sure->>= (requests_of (kind_of m)) _ (requests_of-Sure (kind_of m))
      (λ rqs. Sure->>= (batch_of ms) _ (batch_of-Sure ms) (λ rest. tt))

decision_from-Sure : (p : Proof) → Sure (decision_from p)
unfolding decision_from
decision_from-Sure p = elim (Result-cases (are_pre_prepares_ordered p)) [
  | inl (true, e) ↦
      rw (e, decision_from)
        (Sure->>= (batch_of p.pre_prepares) _ (batch_of-Sure p.pre_prepares) (λ rqs. tt))
  | inl (false, e) ↦ rw (e, decision_from) tt
  | inr (inl (x, e)) ↦ rw (e, decision_from) tt
  | inr (inr e) ↦ rw (e, decision_from) tt
]

full_decision-Sure : (p : Proof) → Sure (full_decision p)
unfolding full_decision
full_decision-Sure p = Sure->>= (decision_from p) _ (decision_from-Sure p) (λ d. tt)

module _ (a : Atlas) where
  Chained-recorded :
      (log after : Log) (p : Proof) (decision : ℕ) (r : Result LogError FeDecision)
      → Sure r
      → p.metadata.seq_no ≡ a.next decision
      → after.decided.last_decision ≡ some p
      → Chained a log p after (some decision) r
  Chained-recorded log after p decision (ok d) s e h = (e, h)
  Chained-recorded log after p decision (err x) s e h = elim s [ ]
  Chained-recorded log after p decision panic s e h = tt

  Chained-same :
      (log : Log) (p : Proof) (r : Result LogError FeDecision) → Chained a log p log none r
  Chained-same log p (ok d) = refl
  Chained-same log p (err x) = refl
  Chained-same log p panic = tt

  install_after-Chained :
      SeqLaws a
      → (log : Log) (p : Proof) (decision : ℕ) (i : Index) → a.index p.metadata.seq_no decision ≡ i
      → Chained a log p
          (install_after a log p decision i).0
          (some decision)
          (install_after a log p decision i).1
  unfolding install_after append_proof
  install_after-Chained laws log p decision left e = refl
  install_after-Chained laws log p decision (right zero) e = refl
  install_after-Chained laws log p decision (right (suc (suc k))) e = refl
  install_after-Chained laws log p decision (right (suc zero)) e =
      Chained-recorded log _ p decision (full_decision p) (full_decision-Sure p)
        (sym (laws.index_sound p.metadata.seq_no decision 1 e)) refl

  -- An installation that is refused changes nothing. One that is reported as done has recorded
  -- the proof, which then comes next after the last decision, unless the log had no decision: the
  -- log then stays without one.
  pub install_proof-Chained :
      SeqLaws a
      → (log : Log) (p : Proof)
      → Chained a log p
          (install_proof a log p).0
          (last_execution log.decided)
          (install_proof a log p).1
  unfolding install_proof
  install_proof-Chained laws log p = elim (Option-cases (last_execution log.decided)) [
    | inl nothing ↦ rw (nothing, install_proof) (Chained-same log p (full_decision p))
    | inr (decision, e) ↦
        rw (e, install_proof)
          (install_after-Chained laws log p decision (a.index p.metadata.seq_no decision) refl)
  ]

  -- After a batch is recorded, the proof of the next sequence number, in order and with its
  -- requests, installs and is recorded; the proof of the batch itself is refused.
  pub finalize_batch-install_proof :
      SeqLaws a
      → (log : Log) (b : CompletedBatch) (p : Proof) {rqs : List Request}
      → p.metadata.seq_no ≡ a.next b.seq
      → InOrder p
      → batch_of p.pre_prepares ≡ ok rqs
      → (((install_proof a (finalize_batch log b).0 p).0.decided.last_decision ≡ some p)
          × ((d : FeDecision) × ((install_proof a (finalize_batch log b).0 p).1 ≡ ok d)))
        × (install_proof a (finalize_batch log b).0 (proof_of b)
            ≡ ((finalize_batch log b).0, err (cannot_install_decision_already_ahead b.seq b.seq)))
  unfolding install_proof finalize_batch append_proof proof_of last_execution full_decision
      install_after
  finalize_batch-install_proof laws log b p e h k =
      rw
        (
          ap (λ t. a.index t b.seq) e ∙ laws.index_next b.seq,
          laws.index_self b.seq,
          decision_from-InOrder p h k,
        )
        ((refl, (_, refl)), refl)
