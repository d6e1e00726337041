-- ===== src/Log/Deciding/Finish.antt =====
-- `WorkingDecisionLog::finish_processing_batch` of febft-pbft-consensus/src/bft/log/deciding/mod.rs,
-- against what the proof of the batch tells.
use febft.Base.{ℕ, ◌≡◌, refl, none, some, List, ok, arith, ◌⊎◌, inl, inr, Option-cases, subst}
use febft.Atlas.{Atlas}
use febft.Message.{Request, StoredConsensusMessage}
use febft.Log.Decisions.{Proof, digests}
use febft.Log.Decisions.Order.{InOrder, InOrder-ordered}
use febft.Log.Deciding.{WorkingDecisionLog, CompletedBatch, DecidingLogError, collect_digests}
use febft.Log.Deciding.Collect.{unwrap_all, append_requests, finalize, finish_processing_batch}
use febft.Log.Deciding.Slots.{Slots-Full}
use febft.Log.Deciding.Complete.{Aligned, Whole, Digested, slots_of}
use febft.Log.Install.{infos, batch_of, decision_from, proof_of, Log, finalize_batch}

pub decision_from-InOrder :
    (p : Proof) {rqs : List Request}
    → InOrder p
    → batch_of p.pre_prepares ≡ ok rqs
    → decision_from p
      ≡ ok (record {
        seq = p.metadata.seq_no;
        executable_batch = rqs;
        client_requests = infos rqs;
        batch_digest = p.metadata.batch_digest;
      })
unfolding decision_from
decision_from-InOrder p {rqs} h e = rw (InOrder-ordered p h, e, decision_from) refl

-- What finishing assembles from the messages of the leaders.
abbrev batch : WorkingDecisionLog → ℕ → List StoredConsensusMessage → List Request → CompletedBatch
batch l d messages requests = record {
  seq = l.seq_no;
  digest = d;
  pre_prepare_ordering = digests messages;
  contained_messages = record {
    pre_prepares = messages;
    prepares = l.message_log.prepares;
    commits = l.message_log.commits;
  };
  client_request_info = l.client_rqs;
  client_requests = requests;
}

module _ (a : Atlas) where
  pub record Finished (l : WorkingDecisionLog) (b : CompletedBatch) : Type 0 where
    pub finished : finish_processing_batch l ≡ ok (some b)
    pub seq : b.seq ≡ l.seq_no
    pub digest : l.batch_digest ≡ some b.digest
    pub hashed : b.digest ≡ a.hash b.pre_prepare_ordering
    pub same_decision :
        (log : Log)
        → decision_from (proof_of b)
          ≡ ok (record (finalize_batch log b).1 { client_requests = infos b.client_requests })

  finish_filled :
      (l : WorkingDecisionLog) (d : ℕ)
      → Aligned l
      → l.batch_digest ≡ some d
      → Digested a (some d) l
      → (b : CompletedBatch) × Finished l b
  unfolding finish_processing_batch finalize decision_from proof_of finalize_batch
  finish_filled l d s e (all, ds, c, h) =
      let received = l.duplicate_detection.received_pre_prepare_messages in
      let full = Slots-Full received l.leader_set (slots_of l) s.slots all in
      let ordering : unwrap_all {E = DecidingLogError} l.pre_prepare_digests
          ≡ ok (digests full.messages) =
        rw s.digests full.unwrap_digests in
      let requests : append_requests l.contained_requests ≡ ok full.requests =
        rw s.requests full.appended in
      let collected : collect_digests l.pre_prepare_digests ≡ some (digests full.messages) =
        rw s.digests full.collected in
      let b = batch l d full.messages full.requests in
      (
        b,
        record {
          finished = rw (e, ordering, requests, full.unwrap_messages) refl;
          seq = refl;
          digest = e;
          hashed = cc;
          same_decision = λ log. decision_from-InOrder (proof_of b) refl full.batch;
        },
      )

  -- Finishing never panics. An instance without a digest gives nothing; one with a digest gives a
  -- batch that has the digest, which is the hash of the digests of the leaders' batches in order,
  -- and from its proof a replica reads the decision that `finalize_batch` reports, but for the list
  -- of the clients' request infos: that of the proof is of the requests of the batch, in their order.
  pub finish_processing_batch-total :
      (l : WorkingDecisionLog)
      → Whole a l
      → ((l.batch_digest ≡ none) × (finish_processing_batch l ≡ ok none))
        ⊎ ((b : CompletedBatch) × Finished l b)
  unfolding finish_processing_batch
  finish_processing_batch-total l w = elim (Option-cases l.batch_digest) [
    | inl no_digest ↦ inl (no_digest, ground arith)
    | inr (d, e) ↦ inr (finish_filled l d w.aligned e (subst (λ o. Digested a o l) e w.digested))
  ]
