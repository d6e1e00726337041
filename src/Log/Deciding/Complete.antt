-- ===== src/Log/Deciding/Complete.antt =====
-- What is invariant in the log of an instance, of febft-pbft-consensus/src/bft/log/deciding/mod.rs,
-- while the batches of the leaders come in.
pub mod Kept
use febft.Base.{
  ℕ, ltb, lookup, not, ◌&&◌, leb, ◌+◌, ◌<◌, ◌≡◌, refl, sym, ◌∙◌, ap, subst, true, false, Option,
  none, some, List, ◌∷◌, ◌++◌, ◌==◌, length, set, length-set, length-replicate, contains, Distinct,
  count_some, Result, ok, err, panic, arith, inl, inr, Bool-cases, Option-cases,
}
use febft.Atlas.{Atlas}
use febft.View.{ViewInfo}
use febft.Message.{ClientRqInfo, Request, StoredConsensusMessage, pre_prepare, kind_of}
use febft.Log.Decisions.{position, digests, ProofMetadata}
use febft.Log.Deciding.{
  WorkingDecisionLog, DecidingLogError, new, collect_digests, calculate_instance_digest,
  complete_batch, store_batch, accept_batch, process_pre_prepare, insert_pre_prepare_received,
  insert_received, pre_prepare_index_of, store_at, all_in_hash_space, failed_to_calculate_digest,
  duplicate_vote_from_node, proposer_not_in_leader_set,
}
use febft.Log.Deciding.Slots.{
  Slots, Slots-empty, slot_digests, slot_requests, slot_digests-empty, slot_requests-empty,
  slot_digests-set, slot_requests-set, count_some-empty, count_some-bound, Slots-other, Slots-fill,
  Slots-Full, position-none, position-bound, length-Slots, length-slot_requests,
  length-slot_digests,
}

-- The messages of the leaders.
abbrev pub slots_of : WorkingDecisionLog → List (Option StoredConsensusMessage)
slots_of l = l.message_log.pre_prepare

-- The parts of the invariant that storing a batch keeps at once.
pub record Aligned (l : WorkingDecisionLog) : Type 0 where
  pub distinct : Distinct l.leader_set
  pub slots : Slots l.duplicate_detection.received_pre_prepare_messages l.leader_set (slots_of l)
  pub digests : l.pre_prepare_digests ≡ slot_digests (slots_of l)
  pub requests : l.contained_requests ≡ slot_requests (slots_of l)
  pub counted : l.current_received_pre_prepares ≡ count_some (slots_of l)

-- `node` has sent a batch.
abbrev pub receive : WorkingDecisionLog → ℕ → WorkingDecisionLog
receive l node = record l {
  duplicate_detection = record l.duplicate_detection {
    received_pre_prepare_messages = node ∷ l.duplicate_detection.received_pre_prepare_messages;
  };
}

-- Nothing in it depends on the digest of the instance.
Aligned-digest :
    (l : WorkingDecisionLog) (o : Option ℕ) → Aligned l → Aligned (record l { batch_digest = o })
Aligned-digest l o s = record {
  distinct = s.distinct;
  slots = s.slots;
  digests = s.digests;
  requests = s.requests;
  counted = s.counted;
}

-- What `store_batch` gives to `complete_batch`.
abbrev stored :
    WorkingDecisionLog
    → StoredConsensusMessage
    → ℕ
    → List Request
    → List ClientRqInfo
    → WorkingDecisionLog
stored l m i rqs infos = record (receive l m.from) {
  pre_prepare_digests = set l.pre_prepare_digests i (some m.digest);
  contained_requests = set l.contained_requests i (some rqs);
  current_received_pre_prepares = l.current_received_pre_prepares + 1;
  current_batch_size = l.current_batch_size + length infos;
  client_rqs = l.client_rqs ++ infos;
  message_log = record l.message_log { pre_prepare = set (slots_of l) i (some m) };
}

Aligned-stored :
    (l : WorkingDecisionLog) (m : StoredConsensusMessage) {i : ℕ} {rqs : List Request}
    (infos : List ClientRqInfo)
    → Aligned l
    → contains l.duplicate_detection.received_pre_prepare_messages m.from ≡ false
    → position l.leader_set m.from ≡ some i
    → kind_of m ≡ pre_prepare rqs
    → Aligned (stored l m i rqs infos)
Aligned-stored l m {i} {rqs} infos s new p k =
    let received = l.duplicate_detection.received_pre_prepare_messages in
    let (slots, count) =
      Slots-fill received l.leader_set (slots_of l) m s.slots s.distinct new p k in
    record {
      distinct = s.distinct;
      slots = slots;
      digests =
          ap (λ ds. set ds i (some m.digest)) s.digests ∙ sym (slot_digests-set m (slots_of l) i);
      requests =
          ap (λ rs. set rs i (some rqs)) s.requests ∙ sym (slot_requests-set m (slots_of l) i k);
      counted = omega (arith, count, s.counted);
    }

pub Aligned-other :
    (l : WorkingDecisionLog) (node : ℕ)
    → Aligned l
    → contains l.leader_set node ≡ false
    → Aligned (receive l node)
Aligned-other l node s h = record {
  distinct = s.distinct;
  slots =
      Slots-other l.duplicate_detection.received_pre_prepare_messages l.leader_set (slots_of l) node
        h s.slots;
  digests = s.digests;
  requests = s.requests;
  counted = s.counted;
}

-- Neither a panic nor a digest that is not computed.
abbrev pub Orderly {ℓ} : {A : Type ℓ} → Result DecidingLogError A → Type 0
Orderly (ok x) = Unit
Orderly (err (failed_to_calculate_digest seq)) = ⊥
Orderly (err e) = Unit
Orderly panic = ⊥

module _ (a : Atlas) where
  -- No digest while a batch is missing; then the hash of the digests of all batches, in order.
  abbrev pub Digested : Option ℕ → WorkingDecisionLog → Type 0
  Digested none l = count_some (slots_of l) < length (slots_of l)
  Digested (some d) l =
      (count_some (slots_of l) ≡ length (slots_of l))
      × (ds : List ℕ) × (collect_digests l.pre_prepare_digests ≡ some ds)
      × (d ≡ a.hash ds)

  pub record Whole (l : WorkingDecisionLog) : Type 0 where
    pub aligned : Aligned l
    pub digested : Digested l.batch_digest l

  -- The log of an instance begins whole, where the view has leaders, each once.
  pub new-Whole :
      (node seq : ℕ) (view : ViewInfo)
      → Distinct view.leader_set
      → 0 < length view.leader_set
      → Whole (new node seq view)
  unfolding new
  new-Whole node seq view d h =
      let n = length view.leader_set in
      record {
        aligned = record {
          distinct = d;
          slots = Slots-empty view.leader_set;
          digests = sym (slot_digests-empty n);
          requests = sym (slot_requests-empty n);
          counted = sym (count_some-empty n);
        };
        digested =
            rw (count_some-empty n, length-replicate {A = Option StoredConsensusMessage} n none) h;
      }

  complete_batch-Whole :
      (l : WorkingDecisionLog)
      → Aligned l
      → l.batch_digest ≡ none
      → Whole (complete_batch a l).0
        × ((o : Option ProofMetadata) × ((complete_batch a l).1 ≡ ok o))
  unfolding complete_batch calculate_instance_digest
  complete_batch-Whole l s b =
      elim (Bool-cases (l.current_received_pre_prepares == length l.leader_set)) [
        | inl full ↦
            let all : count_some (slots_of l) ≡ length (slots_of l) =
              ground (arith, s.counted, same) in
            let filled = Slots-Full received l.leader_set (slots_of l) s.slots all in
            let got : collect_digests l.pre_prepare_digests ≡ some (digests filled.messages) =
              rw s.digests filled.collected in
            rw (full, got)
              (
                record {
                  aligned = Aligned-digest l _ s;
                  digested = (all, digests filled.messages, got, refl);
                },
                (_, refl),
              )
        | inr missing ↦ (
          rw missing (record {
            aligned = s;
            digested = rw b (ground (arith, s.counted, same, count_some-bound (slots_of l)));
          }),
          (none, rw missing refl),
        )
      ]
    where
      received : List ℕ
      received = l.duplicate_detection.received_pre_prepare_messages

      same : length (slots_of l) ≡ length l.leader_set
      same = length-Slots received l.leader_set (slots_of l) s.slots

  -- An instance that has its digest takes no further batch.
  no_digest :
      (l : WorkingDecisionLog) (m : StoredConsensusMessage) {i : ℕ} {rqs : List Request}
      (o : Option ℕ)
      → Aligned l
      → Digested o l
      → contains l.duplicate_detection.received_pre_prepare_messages m.from ≡ false
      → position l.leader_set m.from ≡ some i
      → kind_of m ≡ pre_prepare rqs
      → o ≡ none
  no_digest l m none s h new p k = refl
  no_digest l m {i} {rqs} (some d) s h new p k =
      let received = l.duplicate_detection.received_pre_prepare_messages in
      let count = (Slots-fill received l.leader_set (slots_of l) m s.slots s.distinct new p k).1 in
      let absurd : ⊥ = omega (
        arith,
        count,
        h.0,
        count_some-bound (set (slots_of l) i (some m)),
        length-set (slots_of l) i (some m),
      ) in
      elim absurd [ ]

  pub store_batch-Whole :
      (l : WorkingDecisionLog) (m : StoredConsensusMessage) {i : ℕ} {rqs : List Request}
      (infos : List ClientRqInfo)
      → Whole l
      → contains l.duplicate_detection.received_pre_prepare_messages m.from ≡ false
      → position l.leader_set m.from ≡ some i
      → kind_of m ≡ pre_prepare rqs
      → Whole (store_batch a (receive l m.from) i rqs m infos).0
        × ((o : Option ProofMetadata) × ((store_batch a (receive l m.from) i rqs m infos).1 ≡ ok o))
  unfolding store_batch
  store_batch-Whole l m {i} {rqs} infos w new p k = rw (in_bounds) (
      complete_batch-Whole (stored l m i rqs infos) (Aligned-stored l m infos w.aligned new p k)
        (no_digest l m l.batch_digest w.aligned w.digested new p k))
    where
      received : List ℕ
      received = l.duplicate_detection.received_pre_prepare_messages

      in_bounds : (ltb i (length l.contained_requests) && ltb i (length (slots_of l))) ≡ true
      in_bounds = ground (
        arith,
        position-bound l.leader_set m.from p,
        length-Slots received l.leader_set (slots_of l) w.aligned.slots,
        ap length w.aligned.requests,
        length-slot_requests (slots_of l),
      )
