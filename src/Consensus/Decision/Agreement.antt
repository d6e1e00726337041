-- ===== src/Consensus/Decision/Agreement.antt =====
-- Decided instances, of febft-pbft-consensus/src/bft/consensus/decision/mod.rs: their certificates, at
-- one replica and at two.
use febft.Base.{
  ℕ, suc, ◌+◌, ◌<◌, ◌≡◌, refl, sym, ap, ◌∙◌, true, false, Bool, some, List, [], ◌∷◌, ◌==◌, All,
  All-both, length, contains, Bool-cases, inl, inr, arith, ==_iff,
}
use febft.Base.Pigeonhole.{Subset, quorums_meet}
use febft.Atlas.{Atlas}
use febft.Message.{StoredConsensusMessage, ConsensusMessageKind, commit, kind_of, view_of, seq_of}
use febft.View.{ViewInfo}
use febft.Sync.{SynchronizerAccessory}
use febft.Consensus.Decision.{ConsensusDecision, MessageQueue, is_finalizeable}
use febft.Consensus.Decision.Votes.{senders, Tally, Prepared, Committed}
use febft.Consensus.Decision.Run.{
  Event, start, run, run-Votes, run_start-seq, start-Votes, decided-Holds,
}

-- A quorum of `PREPARE` and one of `COMMIT` messages for one digest, the one of the batch.
abbrev pub Certified : ViewInfo → ConsensusDecision → Type 0
Certified view d =
    (digest : ℕ) × (d.working_log.batch_digest ≡ some digest)
    × Prepared digest d.seq view.seq d.working_log view.params.quorum
    × Committed digest d.seq view.seq d.working_log view.params.quorum

-- An instance that can be finalized, after any calls in any order, holds a `PREPARE` and a `COMMIT`
-- from each of a quorum of different nodes, all for its sequence number, its view and its digest.
pub decided-Certified :
    (a : Atlas) (view : ViewInfo) (synchronizer : SynchronizerAccessory) (node_id seq_no : ℕ)
    (queue : MessageQueue) (skip : Bool) (es : List Event)
    → let d = run a view synchronizer (start a view synchronizer node_id seq_no queue skip) es in
      is_finalizeable d ≡ true → Certified view d
unfolding is_finalizeable
decided-Certified a view synchronizer node_id seq_no queue skip es e =
    let d = start a view synchronizer node_id seq_no queue skip in
    let d' = run a view synchronizer d es in
    decided-Holds view.params.quorum d'.seq view.seq d' d'.phase e (
      run-Votes a view synchronizer d es
        (start-Votes a view synchronizer node_id seq_no queue skip))

-- A node outside `faulty` sends one vote for an instance in a view.
abbrev pub Alike : List ℕ → StoredConsensusMessage → StoredConsensusMessage → Type 0
Alike faulty m n =
    m.from ≡ n.from
    → contains faulty m.from ≡ false
    → seq_of m ≡ seq_of n
    → view_of m ≡ view_of n
    → kind_of m ≡ kind_of n

-- No node outside `faulty` has sent two different votes, one to each replica.
abbrev pub Consistent : List ℕ → List StoredConsensusMessage → List StoredConsensusMessage → Type 0
Consistent faulty ms ns = All (λ m. All (λ n. Alike faulty m n) ns) ms

-- A message of the node `x`, with what holds of every message.
message_from :
    (P : StoredConsensusMessage → Type 0) (ms : List StoredConsensusMessage) (x : ℕ)
    → All P ms
    → contains (senders ms) x ≡ true
    → (m : StoredConsensusMessage) × (m.from ≡ x) × P m
message_from P [] x h c = cc
message_from P (m ∷ ms) x h c = elim (Bool-cases (m.from == x)) [
  | inl q ↦ (m, (==_iff m.from x).0 q, h.0)
  | inr q ↦ message_from P ms x h.1 (ground arith)
]

length-senders : (ms : List StoredConsensusMessage) → length (senders ms) ≡ length ms
length-senders [] = refl
length-senders (m ∷ ms) = ap suc (length-senders ms)

abbrev digest_of : ConsensusMessageKind → ℕ
digest_of (ConsensusMessageKind.pre_prepare rqs) = 0
digest_of (ConsensusMessageKind.prepare d) = d
digest_of (commit d) = d

-- Two certificates of commits for one view agree, if their quorums are large enough.
certificates_agree :
    (nodes faulty : List ℕ) (seq view quorum d e : ℕ) (xs ys : List ℕ)
    (ms ns : List StoredConsensusMessage)
    → Tally (commit d) seq view xs ms quorum
    → Tally (commit e) seq view ys ns quorum
    → Subset (senders ms) nodes
    → Subset (senders ns) nodes
    → Consistent faulty ms ns
    → length nodes + length faulty < quorum + quorum
    → d ≡ e
certificates_agree nodes faulty seq view quorum d e xs ys ms ns s t sm sn h enough =
    let large : length nodes + length faulty < length (senders ms) + length (senders ns) =
      omega (arith, length-senders ms, length-senders ns, s.counted, t.counted) in
    let (x, in_ms, in_ns, honest) =
      quorums_meet (senders ms) (senders ns) nodes faulty s.distinct t.distinct sm sn large in
    let (m, mx, hm) = message_from _ ms x (All-both _ _ ms h s.matching) in_ms in
    let (n, nx, hn) = message_from _ ns x (All-both _ _ ns hm.0 t.matching) in_ns in
    let same : kind_of m ≡ kind_of n =
      hn.0 (mx ∙ sym nx) (rw mx honest) (hm.1.1 ∙ sym hn.1.1) (hm.1.2 ∙ sym hn.1.2) in
    ap digest_of (sym hm.1.0 ∙ (same ∙ hn.1.0))

-- Two replicas that have decided the same instance in the same view, each after any calls in any
-- order, have decided the same batch digest. Where: the senders of the commits that they counted
-- are members of the view; a member outside `faulty` sends one vote for an instance in a view; and
-- the members and the faulty together are fewer than two quorums.
pub decided_agree :
    (a : Atlas) (view : ViewInfo) (s s' : SynchronizerAccessory) (node node' seq_no : ℕ)
    (queue queue' : MessageQueue) (skip skip' : Bool) (es es' : List Event) (faulty : List ℕ)
    → let d = run a view s (start a view s node seq_no queue skip) es in
      let e = run a view s' (start a view s' node' seq_no queue' skip') es' in
      is_finalizeable d ≡ true
      → is_finalizeable e ≡ true
      → Subset (senders d.working_log.message_log.commits) view.quorum_members
      → Subset (senders e.working_log.message_log.commits) view.quorum_members
      → Consistent faulty d.working_log.message_log.commits e.working_log.message_log.commits
      → length view.quorum_members + length faulty < view.params.quorum + view.params.quorum
      → d.working_log.batch_digest ≡ e.working_log.batch_digest
decided_agree a view s s' node node' seq_no queue queue' skip skip' es es' faulty fd fe sd se h
      enough =
    let (x, gx, _, cx) = decided-Certified a view s node seq_no queue skip es fd in
    let (y, gy, _, cy) = decided-Certified a view s' node' seq_no queue' skip' es' fe in
    let dseq = run_start-seq a view s node seq_no queue skip es in
    let eseq = run_start-seq a view s' node' seq_no queue' skip' es' in
    gx
    ∙ (ap some (
          certificates_agree view.quorum_members faulty seq_no view.seq view.params.quorum x y _ _ _
            _ (rw dseq at cx) (rw eseq at cy) sd se h enough)
        ∙ sym gy)
