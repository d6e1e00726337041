-- ===== src/Consensus/Instances.antt =====
-- `Consensus` of febft-pbft-consensus/src/bft/consensus/mod.rs: the instances that overlap, from
-- `seq_no` on, and the routing of messages to them. A panic is `none` or `panic`.
pub mod Install
pub mod Window
pub mod Routing
pub mod Moves
pub mod Views
pub mod NewView
pub mod Poll
use febft.Base.{
  ℕ, zero, suc, ◌+◌, ◌-◌, Bool, true, false, not, ◌&&◌, Option, none, some, List, [], ◌∷◌, ◌++◌,
  if◌then◌else◌, length, get_elem?, set, leb, ltb, contains, Result, ok, err, panic,
}
use febft.Atlas.{Atlas, Index, left, right}
use febft.Node.{Action, cancel_all_timeouts}
use febft.Message.{
  StoredConsensusMessage, ConsensusMessage, ConsensusMessageKind, Request, view_of, seq_of,
}
use febft.Message
use febft.View.{ViewInfo}
use febft.Log.Decisions.{ProofMetadata, IncompleteProof}
use febft.Log.Deciding.{DecidingLogError, CompletedBatch}
use febft.Consensus.Decision.{
  MessageQueue, ConsensusDecision, DecisionStatus, DecisionError, init_decision, init_with_msg_log,
  is_signalled, is_finalizeable, finalize, deciding_proof,
}
use febft.Consensus.Decision
use febft.Consensus.Decision.Process.{Env}
use febft.Consensus.Decision.Process
use febft.Consensus.Guard.{
  Signals, new_signals, push_signalled, clear_signals, ProposerConsensusGuard, clear_guard,
}
use febft.Consensus.TboQueue.{Tbo, TboQueue, new_tbo, clear_tbo, advance_queue}
use febft.Consensus.TboQueue

pub record Consensus : Type 0 where
  pub node_id : ℕ
  pub watermark : ℕ
  pub seq_no : ℕ
  pub signalled : Signals
  pub curr_view : ViewInfo
  pub decisions : List ConsensusDecision
  pub tbo_queue : TboQueue
  pub view_queue : List (List StoredConsensusMessage)
  pub consensus_guard : ProposerConsensusGuard
  pub is_recovering : Bool

-- The arguments of the constructors of `Decision` that the code calls.
pub record DecisionInfo : Type 0 where
  pub seq : ℕ
  pub metadata : Option ProofMetadata
  pub message : StoredConsensusMessage

-- `decided` without a decision is `MaybeVec::None`.
pub data ConsensusStatus : Type 0 where
  voted_twice : ℕ → ConsensusStatus
  message_ignored message_queued : ConsensusStatus
  deciding : DecisionInfo → ConsensusStatus
  decided : Option DecisionInfo → ConsensusStatus

unfoldable pub enqueue_decision : Consensus → ConsensusDecision → Consensus
unfolding push_signalled
enqueue_decision c d = record c {
  signalled = push_signalled c.signalled d.seq;
  decisions = c.decisions ++ d ∷ [];
}

unfoldable pub clear_all_queues : Consensus → Consensus
unfolding clear_tbo clear_signals clear_guard
clear_all_queues c = record c {
  decisions = [];
  tbo_queue = clear_tbo c.tbo_queue;
  signalled = clear_signals c.signalled;
  consensus_guard = clear_guard c.consensus_guard;
}

-- The sequence number of the last instance.
abbrev pub last_seq : ℕ → List ConsensusDecision → ℕ
last_seq seq [] = seq
last_seq seq (d ∷ ds) = last_seq d.seq ds

-- `decisions.back().map(|d| d.sequence_number().next())`, or `seq_no` where there is none.
abbrev pub seq_after : (ℕ → ℕ) → ℕ → List ConsensusDecision → ℕ
seq_after next seq_no [] = seq_no
seq_after next seq_no (d ∷ ds) = next (last_seq d.seq ds)

unfoldable pub can_finalize : Consensus → Bool
can_finalize c = elim c.decisions [ [] ↦ false | d ∷ ds ↦ is_finalizeable d ]

abbrev pub leading_finalizeable : List ConsensusDecision → ℕ
leading_finalizeable [] = 0
leading_finalizeable (d ∷ ds) =
    let rest = leading_finalizeable ds in if is_finalizeable d then suc rest else 0

unfoldable pub finalizeable_count : Consensus → ℕ
finalizeable_count c = leading_finalizeable c.decisions

-- One message more for the view `index` views ahead; empty queues fill the gap.
abbrev pub push_at :
    List (List StoredConsensusMessage)
    → ℕ
    → StoredConsensusMessage
    → List (List StoredConsensusMessage)
push_at [] zero m = (m ∷ []) ∷ []
push_at [] (suc i) m = [] ∷ push_at [] i m
push_at (q ∷ qs) zero m = (q ++ m ∷ []) ∷ qs
push_at (q ∷ qs) (suc i) m = q ∷ push_at qs i m

unfoldable pub enqueue_other_view_message : Consensus → ℕ → StoredConsensusMessage → Consensus
enqueue_other_view_message c index m = record c { view_queue = push_at c.view_queue (index - 1) m }

unfoldable pub collect_incomplete_proof : Consensus → ℕ → Result DecidingLogError IncompleteProof
collect_incomplete_proof c f = elim c.decisions [ [] ↦ panic | d ∷ ds ↦ deciding_proof d f ]

-- Where a message belongs: a later view, nowhere, a later instance, or one of the instances.
pub data Place : Type 0 where
  other_view : ℕ → Place
  past : Place
  beyond : Place
  instance_at : ℕ → Place

module _ (a : Atlas) (tbo : Tbo) where
  -- `count` new instances, from `seq` on.
  unfoldable pub init_rounds : ℕ → Consensus → ℕ → ViewInfo → Consensus
  unfolding enqueue_decision
  init_rounds zero c seq view = c
  init_rounds (suc count) c seq view =
      init_rounds count (enqueue_decision c (init_decision c.node_id seq view)) (a.plus seq 1) view

  unfoldable pub new_replica : ℕ → ViewInfo → ℕ → ℕ → ProposerConsensusGuard → Consensus
  unfolding init_rounds new_signals new_tbo
  new_replica node_id view seq_no watermark consensus_guard =
      init_rounds watermark
        (record {
          node_id = node_id;
          watermark = watermark;
          seq_no = seq_no;
          signalled = new_signals;
          curr_view = view;
          decisions = [];
          tbo_queue = new_tbo seq_no watermark;
          view_queue = [];
          consensus_guard = consensus_guard;
          is_recovering = false;
        })
        seq_no view

  -- `is_recovering` ends with a message queue that holds nothing.
  unfoldable pub recover : Consensus → MessageQueue → Consensus × List Action
  unfolding is_signalled
  recover c q =
      if not (is_signalled q) && c.is_recovering
      then (record c { is_recovering = false }, cancel_all_timeouts ∷ [])
      else (c, [])

  unfoldable pub next_instance :
      Consensus → ViewInfo → Option (Consensus × ConsensusDecision × List Action)
  unfolding enqueue_decision advance_queue recover
  next_instance c view = elim c.decisions [
    | [] ↦ none
    | d ∷ ds ↦
        let (t, q) = advance_queue a tbo c.tbo_queue in
        let seq_no = a.next c.seq_no in
        let (e, actions) =
          recover (record c { decisions = ds; seq_no = seq_no; tbo_queue = t }) q in
        some (
          enqueue_decision e (init_with_msg_log e.node_id (seq_after a.next seq_no ds) view q),
          d,
          actions,
        )
  ]

  finalized :
      Consensus
      → Option (Consensus × ConsensusDecision × List Action)
      → Consensus × List Action × Result DecisionError (Option CompletedBatch)
  finalized c none = (c, [], panic)
  finalized c (some (e, d, actions)) = elim (finalize d) [
    | ok batch ↦ (e, actions, ok (some batch))
    | err x ↦ (e, actions, err x)
    | panic ↦ (e, actions, panic)
  ]

  unfoldable pub finalize_next :
      Consensus → ViewInfo → Consensus × List Action × Result DecisionError (Option CompletedBatch)
  unfolding finalized next_instance
  finalize_next c view = elim c.decisions [
    | [] ↦ (c, [], panic)
    | d ∷ ds ↦
        if not (is_finalizeable d) then (c, [], ok none) else finalized c (next_instance c view)
  ]

  abbrev pub place_of_seq : Consensus → Index → Place
  place_of_seq c left = past
  place_of_seq c (right i) = if leb (length c.decisions) i then beyond else instance_at i

  abbrev pub place_of_view : Consensus → Index → ℕ → Place
  place_of_view c left seq = past
  place_of_view c (right zero) seq = place_of_seq c (a.index seq c.seq_no)
  place_of_view c (right (suc i)) seq = other_view (suc i)

  unfoldable pub place : Consensus → StoredConsensusMessage → Place
  place c m = place_of_view c (a.index (view_of m) c.curr_view.seq) (seq_of m)

  abbrev pub queue_at : List ConsensusDecision → ℕ → StoredConsensusMessage → List ConsensusDecision
  queue_at [] i m = []
  queue_at (d ∷ ds) zero m = Decision.queue d m ∷ ds
  queue_at (d ∷ ds) (suc i) m = d ∷ queue_at ds i m

  abbrev pub queue_in : Consensus → Place → StoredConsensusMessage → Consensus
  queue_in c (other_view i) m = enqueue_other_view_message c i m
  queue_in c past m = c
  queue_in c beyond m = record c { tbo_queue = TboQueue.queue a tbo c.tbo_queue m }
  queue_in c (instance_at i) m = record c {
    decisions = queue_at c.decisions i m;
    signalled = push_signalled c.signalled (seq_of m);
  }

  unfoldable pub queue : Consensus → StoredConsensusMessage → Consensus
  queue c m = queue_in c (place c m) m

  -- The status of the instance, and the instances that are signalled for it.
  unfoldable pub report : Consensus → ℕ → DecisionStatus → Consensus × ConsensusStatus
  unfolding push_signalled
  report c seq (DecisionStatus.voted_twice node) = (c, voted_twice node)
  report c seq (DecisionStatus.deciding m) =
      (c, deciding (record { seq = seq; metadata = none; message = m }))
  report c seq DecisionStatus.message_queued =
      (record c { signalled = push_signalled c.signalled seq }, message_queued)
  report c seq (DecisionStatus.transitioned metadata m) = (
    record c { signalled = push_signalled c.signalled seq },
    deciding (record { seq = seq; metadata = metadata; message = m }),
  )
  report c seq (DecisionStatus.decided m) =
      (c, decided (some (record { seq = seq; metadata = none; message = m })))
  report c seq DecisionStatus.decided_ignored = (c, decided none)
  report c seq DecisionStatus.message_ignored = (c, message_ignored)

  abbrev pub process_result :
      Consensus
      → ℕ
      → Result DecidingLogError DecisionStatus
      → Consensus × Result DecidingLogError ConsensusStatus
  process_result c seq (ok status) = let (e, s) = report c seq status in (e, ok s)
  process_result c seq (err x) = (c, err x)
  process_result c seq panic = (c, panic)

  unfoldable pub process_at :
      Env
      → Consensus
      → ℕ
      → StoredConsensusMessage
      → Consensus × List Action × Result DecidingLogError ConsensusStatus
  unfolding report
  process_at env c i m = elim (get_elem? c.decisions i) [
    | none ↦ (c, [], panic)
    | some d ↦
        let (e, actions, r) = Process.process_message a env d m in
        let (after, s) = process_result (record c { decisions = set c.decisions i e }) d.seq r in
        (after, actions, s)
  ]

  abbrev pub process_in :
      Env
      → Consensus
      → Place
      → StoredConsensusMessage
      → Consensus × List Action × Result DecidingLogError ConsensusStatus
  process_in env c (other_view i) m = (enqueue_other_view_message c i m, [], ok message_queued)
  process_in env c past m = (c, [], ok message_ignored)
  process_in env c beyond m =
      (record c { tbo_queue = TboQueue.queue a tbo c.tbo_queue m }, [], ok message_queued)
  process_in env c (instance_at i) m = process_at env c i m

  unfoldable pub process_message :
      Env
      → Consensus
      → StoredConsensusMessage
      → Consensus × List Action × Result DecidingLogError ConsensusStatus
  process_message env c m = process_in env c (place c m) m
