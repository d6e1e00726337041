-- ===== src/Log/Decisions/Order.antt =====
-- The order of the `PRE-PREPARE`s of a proof, of febft-pbft-consensus/src/bft/log/decisions/mod.rs.
use febft.Base.{
  ℕ, zero, suc, ◌≡◌, refl, sym, ap, ◌∙◌, true, Option, none, some, List, [], ◌∷◌, ◌++◌, length,
  get_elem?, set, replicate, Result, ok, ◌>>=◌, >>=-eq-ok, arith, Option-cases, inl, inr,
  append-nil, append_assoc,
}
use febft.Message.{
  StoredConsensusMessage, ConsensusMessageKind, pre_prepare, prepare, commit, kind_of,
}
use febft.Log.Decisions.{
  Proof, ProofMetadata, ProofError, Sorted, position, digests, sort_one, sort_messages, all_slots,
  no_messages, init_from_messages, same_order, are_pre_prepares_ordered, swap_remove, order_loop,
  order_pre_prepares,
}

-- A slot is empty or holds the message of its digest.
abbrev FitsSlot : ℕ → Option StoredConsensusMessage → Type 0
FitsSlot d none = Unit
FitsSlot d (some x) = x.digest ≡ d

abbrev Fits : List ℕ → List (Option StoredConsensusMessage) → Type 0
Fits [] [] = Unit
Fits [] (o ∷ os) = ⊥
Fits (d ∷ ds) [] = ⊥
Fits (d ∷ ds) (o ∷ os) = FitsSlot d o × Fits ds os

Fits-replicate : (ds : List ℕ) → Fits ds (replicate (length ds) none)
Fits-replicate [] = tt
Fits-replicate (d ∷ ds) = (tt, Fits-replicate ds)

position-zero : (d : ℕ) (ds : List ℕ) (y : ℕ) → position (d ∷ ds) y ≡ some 0 → y ≡ d
position-zero d ds y e = ground arith

position-suc :
    (d : ℕ) (ds : List ℕ) (y i : ℕ) → position (d ∷ ds) y ≡ some (suc i) → position ds y ≡ some i
position-suc d ds y i e = ground arith

Fits-set :
    (ds : List ℕ) (os : List (Option StoredConsensusMessage)) (x : StoredConsensusMessage) (i : ℕ)
    → position ds x.digest ≡ some i
    → Fits ds os
    → Fits ds (set os i (some x))
Fits-set [] [] x i e f = tt
Fits-set [] (o ∷ os) x i e f = elim f [ ]
Fits-set (d ∷ ds) [] x i e f = elim f [ ]
Fits-set (d ∷ ds) (o ∷ os) x zero e f = (position-zero d ds x.digest e, f.1)
Fits-set (d ∷ ds) (o ∷ os) x (suc i) e f =
    (f.0, Fits-set ds os x i (position-suc d ds x.digest i e) f.1)

Fits-all_slots :
    (ds : List ℕ) (os : List (Option StoredConsensusMessage)) (xs : List StoredConsensusMessage)
    → Fits ds os
    → all_slots os ≡ ok xs
    → digests xs ≡ ds
unfolding all_slots
Fits-all_slots [] [] xs f e = ground arith
Fits-all_slots [] (o ∷ os) xs f e = elim f [ ]
Fits-all_slots (d ∷ ds) [] xs f e = elim f [ ]
Fits-all_slots (d ∷ ds) (none ∷ os) xs f e = cc
Fits-all_slots (d ∷ ds) (some x ∷ os) xs f e =
    let (ys, h, k) = >>=-eq-ok (all_slots os) (λ ys. ok (x ∷ ys)) e in
    ground (arith, Fits-all_slots ds os ys f.1 h)

sort_one-Fits :
    (ordering : List ℕ) (kind : ConsensusMessageKind) (x : StoredConsensusMessage) (s t : Sorted)
    → Fits ordering s.slots
    → sort_one ordering kind x s ≡ ok t
    → Fits ordering t.slots
unfolding sort_one
sort_one-Fits ordering (pre_prepare rqs) x s t f e =
    elim (Option-cases (position ordering x.digest)) [
      | inl q ↦ cc (rw q at e)
      | inr (i, q) ↦
          let slots : t.slots ≡ set s.slots i (some x) = ground arith in
          rw slots (Fits-set ordering s.slots x i q f)
    ]
sort_one-Fits ordering (prepare d) x s t f e =
    let same : t.slots ≡ s.slots = ground arith in rw same f
sort_one-Fits ordering (commit d) x s t f e =
    let same : t.slots ≡ s.slots = ground arith in rw same f

sort_messages-Fits :
    (ordering : List ℕ) (ms : List StoredConsensusMessage) (s t : Sorted)
    → Fits ordering s.slots
    → sort_messages ordering ms s ≡ ok t
    → Fits ordering t.slots
unfolding sort_messages
sort_messages-Fits ordering [] s t f e = let same : t.slots ≡ s.slots = ground arith in rw same f
sort_messages-Fits ordering (m ∷ ms) s t f e =
    let (u, h, k) = >>=-eq-ok (sort_one ordering (kind_of m) m s) (sort_messages ordering ms) e in
    sort_messages-Fits ordering ms u t (sort_one-Fits ordering (kind_of m) m s u f h) k

ordered_digests :
    (ms : List StoredConsensusMessage)
    → (same_order (digests ms) ms ≡ true) × (length (digests ms) ≡ length ms)
unfolding same_order
ordered_digests [] = (refl, refl)
ordered_digests (m ∷ ms) = ground (arith, ordered_digests ms)

-- In order: as many messages as the metadata says, each with the digest of its place.
abbrev pub InOrder : Proof → Type 0
InOrder p = digests p.pre_prepares ≡ p.metadata.pre_prepare_ordering

pub InOrder-ordered : (p : Proof) → InOrder p → are_pre_prepares_ordered p ≡ ok true
unfolding are_pre_prepares_ordered
InOrder-ordered p e =
    let (same, len) = ordered_digests p.pre_prepares in rw (← e) (ground (arith, same, len))

abbrev proof_of : ProofMetadata → List StoredConsensusMessage → Sorted → Proof
proof_of metadata xs s = record {
  metadata = metadata;
  pre_prepares = xs;
  prepares = s.prepares;
  commits = s.commits;
}

abbrev finish : ProofMetadata → Sorted → Result ProofError Proof
finish metadata s = all_slots s.slots >>= λ xs. ok (proof_of metadata xs s)

-- A proof that `init_from_messages` makes passes the check of its order.
pub init_from_messages-ordered :
    (metadata : ProofMetadata) (messages : List StoredConsensusMessage) {p : Proof}
    → init_from_messages metadata messages ≡ ok p
    → (p.metadata ≡ metadata) × InOrder p × (are_pre_prepares_ordered p ≡ ok true)
unfolding init_from_messages
init_from_messages-ordered metadata messages {p} e =
    let ordering = metadata.pre_prepare_ordering in
    let (s, h, k) =
      >>=-eq-ok (sort_messages ordering messages (no_messages metadata)) (finish metadata) e in
    let (xs, q, z) = >>=-eq-ok (all_slots s.slots) (λ xs. ok (proof_of metadata xs s)) k in
    let fits : Fits ordering s.slots =
      sort_messages-Fits ordering messages (no_messages metadata) s (Fits-replicate ordering) h in
    let in_order : InOrder p = ground (arith, Fits-all_slots ordering s.slots xs fits q) in
    (ground arith, in_order, InOrder-ordered p in_order)

digests-append :
    (xs ys : List StoredConsensusMessage) → digests (xs ++ ys) ≡ digests xs ++ digests ys
digests-append [] ys = refl
digests-append (x ∷ xs) ys = rw (digests-append xs ys)

digest-get_elem? :
    (ms : List StoredConsensusMessage) (d i : ℕ) (m : StoredConsensusMessage)
    → position (digests ms) d ≡ some i
    → get_elem? ms i ≡ some m
    → m.digest ≡ d
digest-get_elem? [] d i m e g = cc
digest-get_elem? (x ∷ ms) d zero m e g = ground (arith, position-zero x.digest (digests ms) d)
digest-get_elem? (x ∷ ms) d (suc i) m e g =
    digest-get_elem? ms d i m (position-suc x.digest (digests ms) d i e) g

order_loop-digests :
    (ds : List ℕ) (left taken res : List StoredConsensusMessage)
    → order_loop ds left taken ≡ (res, ok tt)
    → digests res ≡ digests taken ++ ds
unfolding order_loop
order_loop-digests [] left taken res e =
    ap digests (sym (ap (λ r. r.0) e)) ∙ sym (append-nil (digests taken))
order_loop-digests (d ∷ ds) left taken res e = elim (Option-cases (position (digests left) d)) [
  | inl q ↦ ground arith
  | inr (i, q) ↦ elim (Option-cases (get_elem? left i)) [
    | inl g ↦ ground arith
    | inr (m, g) ↦
        let e' : order_loop ds (swap_remove left i) (taken ++ m ∷ []) ≡ (res, ok tt) =
          ground arith in
        order_loop-digests ds (swap_remove left i) (taken ++ m ∷ []) res e'
        ∙ (ap (λ r. r ++ ds) (digests-append taken (m ∷ []))
            ∙ (append_assoc (digests taken) (m.digest ∷ []) ds
                ∙ ap (λ x. digests taken ++ x ∷ ds) (digest-get_elem? left d i m q g)))
  ]
]

-- `order_pre_prepares` puts the messages in the order of the metadata, where it succeeds.
pub order_pre_prepares-ordered :
    (p : Proof)
    → (order_pre_prepares p).1 ≡ ok tt
    → InOrder (order_pre_prepares p).0
      × (are_pre_prepares_ordered (order_pre_prepares p).0 ≡ ok true)
unfolding order_pre_prepares
order_pre_prepares-ordered p e = (in_order, InOrder-ordered (order_pre_prepares p).0 in_order)
  where
    loop :
        (order_loop p.metadata.pre_prepare_ordering p.pre_prepares []).1 ≡ ok tt
        → digests (order_loop p.metadata.pre_prepare_ordering p.pre_prepares []).0
          ≡ p.metadata.pre_prepare_ordering
    loop q = order_loop-digests p.metadata.pre_prepare_ordering p.pre_prepares [] _ (ground arith)

    in_order : InOrder (order_pre_prepares p).0
    in_order = ground (arith, loop)
