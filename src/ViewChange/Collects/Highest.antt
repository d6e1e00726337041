-- ===== src/ViewChange/Collects/Highest.antt =====
-- `highest_proof` of febft-pbft-consensus/src/bft/sync/mod.rs against its purpose.
use febft.Base.{
  ◌≤◌, ◌≡◌, refl, ◌⊎◌, inl, inr, true, false, none, some, List, [], ◌∷◌, All, Bool-cases, arith,
}
use mathlib.Core.List.{Memᴰ}
use febft.ViewChange.Collects.Backed.{IsBacked, valid_proof-IsBacked, not_valid-IsBacked}
use febft.Atlas.{Atlas}
use febft.View.{ViewInfo}
use febft.Log.Decisions.{Proof}
use febft.ViewChange.Messages.{CollectData, StoredMessage}
use febft.ViewChange.Collects.{
  Signatures, collect_data, last_proofs, valid_proof, highest_of, highest_proof,
}
use febft.ViewChange.Sound.Kept.{OrderLaws}

-- A proof that is not backed, or not above `best`.
abbrev pub Beaten : Signatures → ViewInfo → Proof → Proof → Type 0
Beaten sig view best p = (¬ IsBacked sig view p) ⊎ (p.metadata.seq_no ≤ best.metadata.seq_no)

-- A proof that is not valid, or not above `best`.
abbrev Lower : Signatures → Atlas → ViewInfo → Proof → Proof → Type 0
Lower sig a view best p =
    (valid_proof sig view p ≡ false) ⊎ (a.before best.metadata.seq_no p.metadata.seq_no ≡ false)

module _ (sig : Signatures) (a : Atlas) (laws : OrderLaws a) (view : ViewInfo) where
  Lower-above :
      (old best : Proof) (ps : List Proof)
      → a.before old.metadata.seq_no best.metadata.seq_no ≡ true
      → All (Lower sig a view old) ps
      → All (Lower sig a view best) ps
  Lower-above old best [] h b = tt
  Lower-above old best (p ∷ ps) h b = (
    elim b.0 [
      | inl bad ↦ inl bad
      | inr low ↦ inr (
          ground (
            arith,
            laws.before_lt old.metadata.seq_no best.metadata.seq_no,
            laws.before_lt old.metadata.seq_no p.metadata.seq_no,
            laws.before_lt best.metadata.seq_no p.metadata.seq_no,
          ))
    ],
    Lower-above old best ps h b.1,
  )

  self_low : (p : Proof) → a.before p.metadata.seq_no p.metadata.seq_no ≡ false
  self_low p = ground (arith, laws.before_lt p.metadata.seq_no p.metadata.seq_no)

  Highest : List Proof → Type 0
  Highest ps =
      ((highest_of sig a view ps ≡ none) × All (λ p. valid_proof sig view p ≡ false) ps)
      ⊎ ((best : Proof) × (highest_of sig a view ps ≡ some best)
          × Memᴰ best ps
          × (valid_proof sig view best ≡ true)
          × All (Lower sig a view best) ps)

  all_bad :
      (p : Proof) (ps : List Proof)
      → All (λ q. valid_proof sig view q ≡ false) ps
      → All (Lower sig a view p) ps
  all_bad p [] h = tt
  all_bad p (q ∷ ps) h = (inl h.0, all_bad p ps h.1)

  highest_of_lem : (ps : List Proof) → Highest ps
  unfolding highest_of Highest
  highest_of_lem [] = inl (refl, tt)
  highest_of_lem (p ∷ ps) = elim (Bool-cases (valid_proof sig view p)) [
    | inr bad ↦ elim (highest_of_lem ps) [
      | inl (e, all) ↦ inl (rw bad e, (bad, all))
      | inr (best, e, m, v, all) ↦ inr (best, rw bad e, Memᴰ.tail m, v, (inl bad, all))
    ]
    | inl good ↦ elim (highest_of_lem ps) [
      | inl (e, all) ↦
          inr (p, rw (good, e) refl, Memᴰ.head refl, good, (inr (self_low p), all_bad p ps all))
      | inr (best, e, m, v, all) ↦
          elim (Bool-cases (a.before best.metadata.seq_no p.metadata.seq_no)) [
            | inl up ↦ inr (
              p,
              rw (good, e, up) refl,
              Memᴰ.head refl,
              good,
              (inr (self_low p), Lower-above best p ps up all),
            )
            | inr low ↦ inr (best, rw (good, e, low) refl, Memᴰ.tail m, v, (inr low, all))
          ]
    ]
  ]

  all-unbacked :
      (ps : List Proof)
      → All (λ p. valid_proof sig view p ≡ false) ps
      → All (λ p. ¬ IsBacked sig view p) ps
  all-unbacked [] h = tt
  all-unbacked (p ∷ ps) h = (not_valid-IsBacked sig view p h.0, all-unbacked ps h.1)

  Lower-Beaten :
      (best : Proof) (ps : List Proof)
      → All (Lower sig a view best) ps
      → All (Beaten sig view best) ps
  Lower-Beaten best [] h = tt
  Lower-Beaten best (p ∷ ps) h = (
    elim h.0 [
      | inl bad ↦ inl (not_valid-IsBacked sig view p bad)
      | inr low ↦ inr (ground (arith, laws.before_lt best.metadata.seq_no p.metadata.seq_no, low))
    ],
    Lower-Beaten best ps h.1,
  )

  -- The proof that the leader and the others take from the collects is one of theirs, a quorum of the
  -- `COMMIT`s that it lists and a quorum of the `PREPARE`s that it lists are validly signed `PREPARE`s
  -- or `COMMIT`s for its digest, a message that is listed twice counting twice, and no such proof of
  -- theirs has a higher sequence number; there is none only if no proof of the collects has those
  -- votes; if all of the messages are view change messages and sequence numbers are ordered as numbers.
  pub highest_proof_lem :
      (ms : List StoredMessage) (cs : List CollectData)
      → collect_data ms ≡ some cs
      → ((highest_proof sig a view ms ≡ some none)
          × All (λ p. ¬ IsBacked sig view p) (last_proofs cs))
        ⊎ ((best : Proof) × (highest_proof sig a view ms ≡ some (some best))
            × Memᴰ best (last_proofs cs)
            × IsBacked sig view best
            × All (Beaten sig view best) (last_proofs cs))
  unfolding highest_proof Highest
  highest_proof_lem ms cs h = elim (highest_of_lem (last_proofs cs)) [
    | inl (e, all) ↦ inl (rw (h, e) refl, all-unbacked (last_proofs cs) all)
    | inr (best, e, m, v, all) ↦ inr (
      best,
      rw (h, e) refl,
      m,
      valid_proof-IsBacked sig view best v,
      Lower-Beaten best (last_proofs cs) all,
    )
  ]
