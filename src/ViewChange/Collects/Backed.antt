-- ===== src/ViewChange/Collects/Backed.antt =====
-- What makes a proof valid, for `highest_proof` of febft-pbft-consensus/src/bft/sync/mod.rs.
use febft.Base.{
  ℕ, zero, suc, ◌≤◌, ◌≡◌, refl, ◌∙◌, ap, ◌⊎◌, inl, inr, true, false, some, List, [], ◌∷◌, ◌==◌,
  length, All, ==_iff, ==_self, Bool-cases, Option-cases, subst, arith,
}
use febft.Message.{
  ConsensusMessageKind, pre_prepare, prepare, commit, kind_of, StoredConsensusMessage,
  has_proposed_digest,
}
use febft.View.{ViewInfo}
use febft.Log.Decisions.{Proof}
use febft.ViewChange.Messages.{Header}
use febft.ViewChange.Sound.{count_if}
use febft.ViewChange.Collects.{Signatures, validate_signature, or_false, valid_vote, valid_proof}

-- The header is that of a message, of a node whose key is known, signed with that key.
abbrev pub Signed : Signatures → Header → Type 0
Signed sig header =
    (message : ℕ) × (key : ℕ) × (sig.from_header header ≡ some message)
    × (sig.get_node_info header.from ≡ some key)
    × (sig.is_valid message key ≡ true)

-- A `PREPARE` or a `COMMIT` for the digest, validly signed.
abbrev pub IsVote : Signatures → ℕ → StoredConsensusMessage → Type 0
IsVote sig digest m =
    ((kind_of m ≡ prepare digest) ⊎ (kind_of m ≡ commit digest))
    × Signed sig (record { from = m.from; digest = m.digest })

-- `vs` are some of `ms`, in their order.
abbrev pub Chosen : List StoredConsensusMessage → List StoredConsensusMessage → Type 0
Chosen [] ms = Unit {0}
Chosen (v ∷ vs) [] = ⊥
Chosen (v ∷ vs) (m ∷ ms) = ((v ≡ m) × Chosen vs ms) ⊎ Chosen (v ∷ vs) ms

-- So many of the messages are votes for the digest.
abbrev pub Backs : Signatures → ℕ → ℕ → List StoredConsensusMessage → Type 0
Backs sig quorum digest ms =
    (vs : List StoredConsensusMessage) × Chosen vs ms
    × All (IsVote sig digest) vs
    × (length vs ≡ quorum)

-- A quorum of the `COMMIT`s that the proof lists are votes for its digest, and a quorum of the
-- `PREPARE`s that it lists.
abbrev pub IsBacked : Signatures → ViewInfo → Proof → Type 0
IsBacked sig view p =
    Backs sig view.params.quorum p.metadata.batch_digest p.commits
    × Backs sig view.params.quorum p.metadata.batch_digest p.prepares

module _ (sig : Signatures) where
  validate_signature-Signed :
      (header : Header) → validate_signature sig header ≡ true → Signed sig header
  unfolding validate_signature
  validate_signature-Signed header h = elim (Option-cases (sig.from_header header)) [
    | inl none_read ↦ let clash : false ≡ true = rw (none_read, validate_signature) at h in cc
    | inr (message, e) ↦ elim (Option-cases (sig.get_node_info header.from)) [
      | inl unknown ↦ let clash : false ≡ true = rw (e, unknown, validate_signature) at h in cc
      | inr (key, k) ↦ (message, key, e, k, rw (e, k, validate_signature) at h)
    ]
  ]

  Signed-validate_signature :
      (header : Header) → Signed sig header → validate_signature sig header ≡ true
  unfolding validate_signature
  Signed-validate_signature header (message, key, e, k, v) = rw (e, k, validate_signature) v

  digest-votes :
      (m : StoredConsensusMessage) (digest : ℕ) (kind : ConsensusMessageKind)
      → kind_of m ≡ kind
      → or_false (has_proposed_digest m.message digest) ≡ true
      → (kind_of m ≡ prepare digest) ⊎ (kind_of m ≡ commit digest)
  unfolding has_proposed_digest
  digest-votes m digest (pre_prepare rqs) e h =
      let clash : false ≡ true = rw (has_proposed_digest, e) at h in cc
  digest-votes m digest (prepare d) e h =
      let same : (d == digest) ≡ true = rw (has_proposed_digest, e) at h in
      inl (e ∙ ap prepare ((==_iff d digest).0 same))
  digest-votes m digest (commit d) e h =
      let same : (d == digest) ≡ true = rw (has_proposed_digest, e) at h in
      inr (e ∙ ap commit ((==_iff d digest).0 same))

  votes-digest :
      (m : StoredConsensusMessage) (digest : ℕ)
      → (kind_of m ≡ prepare digest) ⊎ (kind_of m ≡ commit digest)
      → or_false (has_proposed_digest m.message digest) ≡ true
  unfolding has_proposed_digest
  votes-digest m digest (inl e) = rw (has_proposed_digest, e) (==_self digest)
  votes-digest m digest (inr e) = rw (has_proposed_digest, e) (==_self digest)

  valid_vote-IsVote :
      (digest : ℕ) (m : StoredConsensusMessage)
      → valid_vote sig digest m ≡ true
      → IsVote sig digest m
  valid_vote-IsVote digest m h = (
    digest-votes m digest (kind_of m) refl (ground arith),
    validate_signature-Signed (record { from = m.from; digest = m.digest }) (ground arith),
  )

  IsVote-valid_vote :
      (digest : ℕ) (m : StoredConsensusMessage)
      → IsVote sig digest m
      → valid_vote sig digest m ≡ true
  IsVote-valid_vote digest m (kind, signed) = ground (
    arith,
    votes-digest m digest kind,
    Signed-validate_signature (record { from = m.from; digest = m.digest }) signed,
  )

  -- As many votes as are counted can be chosen, and no more.
  count-Chosen :
      (quorum digest : ℕ) (ms : List StoredConsensusMessage)
      → quorum ≤ count_if (valid_vote sig digest) ms
      → Backs sig quorum digest ms
  count-Chosen zero digest ms h = ([], tt, tt, refl)
  count-Chosen (suc quorum) digest [] h = let absurd : ⊥ = omega (arith, h) in elim absurd [ ]
  count-Chosen (suc quorum) digest (m ∷ ms) h = elim (Bool-cases (valid_vote sig digest m)) [
    | inl vote ↦
        let (vs, chosen, votes, l) = count-Chosen quorum digest ms (omega (arith, rw vote at h)) in
        (m ∷ vs, inl (refl, chosen), (valid_vote-IsVote digest m vote, votes), ap suc l)
    | inr other ↦
        let (vs, chosen, votes, l) = count-Chosen (suc quorum) digest ms (rw other at h) in
        (vs, skipped vs m ms chosen, votes, l)
  ]
    where
      skipped :
          (vs : List StoredConsensusMessage) (m : StoredConsensusMessage)
          (ms : List StoredConsensusMessage)
          → Chosen vs ms
          → Chosen vs (m ∷ ms)
      skipped [] m ms chosen = tt
      skipped (v ∷ vs) m ms chosen = inr chosen

  Chosen-count :
      (digest : ℕ) (vs ms : List StoredConsensusMessage)
      → Chosen vs ms
      → All (IsVote sig digest) vs
      → length vs ≤ count_if (valid_vote sig digest) ms
  Chosen-count digest [] ms chosen votes = omega arith
  Chosen-count digest (v ∷ vs) [] chosen votes = elim chosen [ ]
  Chosen-count digest (v ∷ vs) (m ∷ ms) (inl (same, chosen)) votes =
      let vote : valid_vote sig digest m ≡ true =
        subst (λ x. valid_vote sig digest x ≡ true) same (IsVote-valid_vote digest v votes.0) in
      let rest = Chosen-count digest vs ms chosen votes.1 in rw vote (omega (arith, rest))
  Chosen-count digest (v ∷ vs) (m ∷ ms) (inr chosen) votes =
      ground (arith, Chosen-count digest (v ∷ vs) ms chosen votes)

  pub valid_proof-IsBacked :
      (view : ViewInfo) (p : Proof) → valid_proof sig view p ≡ true → IsBacked sig view p
  valid_proof-IsBacked view p h = (
    count-Chosen view.params.quorum p.metadata.batch_digest p.commits (ground arith),
    count-Chosen view.params.quorum p.metadata.batch_digest p.prepares (ground arith),
  )

  pub not_valid-IsBacked :
      (view : ViewInfo) (p : Proof) → valid_proof sig view p ≡ false → ¬ IsBacked sig view p
  not_valid-IsBacked view p h ((cs, chosen, votes, l), (ps, chosen_too, votes_too, l_too)) =
      let commits = Chosen-count p.metadata.batch_digest cs p.commits chosen votes in
      let prepares = Chosen-count p.metadata.batch_digest ps p.prepares chosen_too votes_too in
      ground (arith, commits, prepares, l, l_too)
