-- ===== src/Log/Deciding/Complete/Kept.antt =====
-- `WorkingDecisionLog::process_pre_prepare` of febft-pbft-consensus/src/bft/log/deciding/mod.rs, and
-- the invariant of the log.
use febft.Base.{
  ℕ, lookup, not, ◌&&◌, leb, ◌≡◌, sym, ap, subst, true, false, Option, none, some, List, ◌==◌,
  length, contains, Result, err, arith, inl, inr, Bool-cases, Option-cases,
}
use febft.Atlas.{Atlas}
use febft.Message.{ClientRqInfo, Request, StoredConsensusMessage, pre_prepare, kind_of}
use febft.Log.Decisions.{position, ProofMetadata}
use febft.Log.Deciding.{
  WorkingDecisionLog, DecidingLogError, store_batch, accept_batch, process_pre_prepare,
  insert_pre_prepare_received, insert_received, pre_prepare_index_of, store_at, all_in_hash_space,
  duplicate_vote_from_node, proposer_not_in_leader_set,
}
use febft.Log.Deciding.Slots.{position-none, position-bound, length-Slots, length-slot_digests}
use febft.Log.Deciding.Complete.{
  slots_of, receive, Aligned-other, Orderly, Digested, Whole, store_batch-Whole,
}

module _ (a : Atlas) where
  Digested-receive :
      (o : Option ℕ) (l : WorkingDecisionLog) (node : ℕ)
      → Digested a o l
      → Digested a o (receive l node)
  Digested-receive none l node h = h
  Digested-receive (some d) l node h = h

  accept_batch-Whole :
      (l : WorkingDecisionLog) (m : StoredConsensusMessage) {rqs : List Request}
      (infos : List ClientRqInfo)
      → Whole a l
      → kind_of m ≡ pre_prepare rqs
      → Whole a (accept_batch a l m infos).0 × Orderly (accept_batch a l m infos).1
  unfolding accept_batch insert_pre_prepare_received insert_received pre_prepare_index_of store_at
  accept_batch-Whole l m {rqs} infos w k = elim (Bool-cases (contains received m.from)) [
    | inl again ↦ subst Good (sym (refused again)) (w, tt)
    | inr fresh ↦ elim (Option-cases (position l.leader_set m.from)) [
      | inl no_leader ↦ subst Good (sym (outsider fresh no_leader)) (
        record {
          aligned = Aligned-other l m.from w.aligned (position-none l.leader_set m.from no_leader);
          digested = Digested-receive l.batch_digest l m.from w.digested;
        },
        tt,
      )
      | inr (i, p) ↦
          let (whole, got) = store_batch-Whole a l m infos w fresh p k in
          subst Good (sym (taken fresh p)) (whole, rw got.1 tt)
    ]
  ]
    where
      received : List ℕ
      received = l.duplicate_detection.received_pre_prepare_messages

      in_bounds :
          {i : ℕ}
          → position l.leader_set m.from ≡ some i
          → leb (length l.pre_prepare_digests) i ≡ false
      in_bounds p = ground (
        arith,
        position-bound l.leader_set m.from p,
        length-Slots received l.leader_set (slots_of l) w.aligned.slots,
        ap length w.aligned.digests,
        length-slot_digests (slots_of l),
      )

      Good : WorkingDecisionLog × Result DecidingLogError (Option ProofMetadata) → Type 0
      Good p = Whole a p.0 × Orderly p.1

      refused :
          contains received m.from ≡ true
          → accept_batch a l m infos ≡ (l, err (duplicate_vote_from_node m.from))
      refused again = ground arith

      outsider :
          contains received m.from ≡ false
          → position l.leader_set m.from ≡ none
          → accept_batch a l m infos
            ≡ (receive l m.from, err (proposer_not_in_leader_set m.from l.leader_set))
      outsider fresh p = ground arith

      taken :
          {i : ℕ}
          → contains received m.from ≡ false
          → position l.leader_set m.from ≡ some i
          → accept_batch a l m infos ≡ store_batch a (receive l m.from) i rqs m infos
      taken fresh p = ground (arith, in_bounds p, k)

  -- A `PRE-PREPARE` keeps the log of an instance whole, whoever sends it and in whatever order,
  -- and is taken or refused: it neither panics nor fails to compute the digest of the instance.
  pub process_pre_prepare-Whole :
      (l : WorkingDecisionLog) (m : StoredConsensusMessage) {rqs : List Request}
      (infos : List ClientRqInfo)
      → Whole a l
      → kind_of m ≡ pre_prepare rqs
      → Whole a (process_pre_prepare a l m infos).0 × Orderly (process_pre_prepare a l m infos).1
  unfolding process_pre_prepare
  process_pre_prepare-Whole l m infos w k =
      elim (Option-cases (lookup m.from l.request_space_slices)) [
        | inl no_slice ↦ rw (no_slice, process_pre_prepare) (w, tt)
        | inr (slice, e) ↦
            elim (Bool-cases (not (m.from == l.node_id) && not (all_in_hash_space a infos slice))) [
              | inl outside ↦ rw (e, outside, process_pre_prepare) (w, tt)
              | inr inside ↦ rw (e, inside, process_pre_prepare) (accept_batch-Whole l m infos w k)
            ]
      ]
