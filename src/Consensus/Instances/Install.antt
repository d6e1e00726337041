-- ===== src/Consensus/Instances/Install.antt =====
-- Moving the instances to another sequence number or to another view, of
-- febft-pbft-consensus/src/bft/consensus/mod.rs. `none` is a panic.
use febft.Base.{
  ℕ, zero, suc, ◌-◌, ◌&&◌, Option, none, some, List, [], ◌∷◌, ◌==◌, if◌then◌else◌, length, leb, ltb,
  Result, ok, err, panic,
}
use febft.Atlas.{Atlas, Index, left, right}
use febft.Node.{Action}
use febft.Message.{
  StoredConsensusMessage, ConsensusMessage, ConsensusMessageKind, pre_prepare, prepare, commit,
  Request, ClientRqInfo,
}
use febft.Message
use febft.View.{ViewInfo}
use febft.Log.Decisions.{Proof}
use febft.Log.Deciding.{DecidingLogError}
use febft.Log.Install.{Log, LogError, FeDecision, install_proof, infos}
use febft.Consensus.Decision.{ConsensusDecision, init_with_msg_log, skip_init_phase}
use febft.Consensus.Decision.Process.{Env}
use febft.Consensus.Guard.{
  clear_signals, clear_guard, install_seq_no, install_view_guard, install_sync_message_requests,
  unlock_consensus,
}
use febft.Consensus.TboQueue.{
  Tbo, TboQueue, clear_tbo, signal_tbo, advance_queue, next_instance_queue,
}
use febft.Consensus.Instances.{
  Consensus, ConsensusStatus, enqueue_decision, clear_all_queues, last_seq, init_rounds,
  next_instance, queue, process_message,
}

-- `pop_front`, `count` times.
abbrev pub drop {ℓ} : {A : Type ℓ} → ℕ → List A → List A
drop zero xs = xs
drop (suc count) [] = []
drop (suc count) (x ∷ xs) = drop count xs

abbrev pub queue_all :
    (Consensus → StoredConsensusMessage → Consensus)
    → Consensus
    → List StoredConsensusMessage
    → Consensus
queue_all q c [] = c
queue_all q c (m ∷ ms) = queue_all q (q c m) ms

-- The requests of a forged `PRE-PREPARE`.
abbrev pub forged_requests : ConsensusMessageKind → Option (List ClientRqInfo)
forged_requests (pre_prepare rqs) = some (infos rqs)
forged_requests (prepare d) = none
forged_requests (commit d) = none

-- `decisions[0].skip_init_phase()`
abbrev pub skip_first : List ConsensusDecision → Option (List ConsensusDecision)
skip_first [] = none
skip_first (d ∷ ds) = some (skip_init_phase d ∷ ds)

unfoldable pub forge_propose : Consensus → List Request → ViewInfo → ℕ → ConsensusMessage
forge_propose c requests view nonce = Message.new c.seq_no view.seq (pre_prepare requests) nonce

-- The messages that wait for the next view.
abbrev pub queued_for : List (List StoredConsensusMessage) → List StoredConsensusMessage
queued_for [] = []
queued_for (q ∷ qs) = q

module _ (a : Atlas) (tbo : Tbo) where
  -- A new instance with the messages that the next queue holds.
  unfoldable pub advance_one : Consensus → ℕ → ViewInfo → Consensus
  unfolding advance_queue enqueue_decision
  advance_one c seq view =
      let (t, q) = advance_queue a tbo c.tbo_queue in
      enqueue_decision (record c { tbo_queue = t }) (init_with_msg_log c.node_id seq view q)

  -- `count` such instances, from `seq` on.
  unfoldable pub advance_rounds : ℕ → Consensus → ℕ → ViewInfo → Consensus
  unfolding advance_one
  advance_rounds zero c seq view = c
  advance_rounds (suc count) c seq view =
      advance_rounds count (advance_one c seq view) (a.plus seq 1) view

  -- The same, while the queue is behind `novel_seq_no`; then new instances, `count` in all.
  unfoldable pub catch_rounds : ℕ → Consensus → ℕ → ℕ → ViewInfo → Consensus
  unfolding advance_one
  catch_rounds zero c seq novel_seq_no view = c
  catch_rounds (suc count) c seq novel_seq_no view =
      let rest = catch_rounds count (advance_one c seq view) (a.plus seq 1) novel_seq_no view in
      if a.before c.tbo_queue.curr_seq novel_seq_no
      then rest
      else init_rounds a tbo (suc count) c seq view

  abbrev pub skip_queues : ℕ → TboQueue → TboQueue
  skip_queues zero q = q
  skip_queues (suc count) q = skip_queues count (next_instance_queue a tbo q)

  -- Nothing that is held is of use: past all instances by `overflow`.
  unfoldable pub jump : Consensus → ℕ → ℕ → ViewInfo → Consensus
  jump c overflow novel_seq_no view =
      let t =
        if leb (length c.tbo_queue.pre_prepares) overflow
        then record (clear_tbo c.tbo_queue) { curr_seq = novel_seq_no }
        else skip_queues overflow c.tbo_queue in
      let e = record c {
        decisions = [];
        signalled = clear_signals c.signalled;
        consensus_guard = clear_guard c.consensus_guard;
        tbo_queue = t;
      } in
      record (catch_rounds c.watermark e novel_seq_no novel_seq_no view) { seq_no = novel_seq_no }

  -- The first `limit` instances are done.
  abbrev pub shift : Consensus → ℕ → List ConsensusDecision → ViewInfo → Option Consensus
  shift c novel_seq_no [] view = none
  shift c novel_seq_no (d ∷ ds) view =
      let e = record c { decisions = d ∷ ds } in
      some
        (record (advance_rounds (c.watermark - length (d ∷ ds)) e (a.next (last_seq d.seq ds))
          view) { seq_no = novel_seq_no })

  -- Back to an earlier number.
  unfoldable pub go_back : Consensus → ℕ → ViewInfo → Consensus
  unfolding clear_all_queues
  go_back c novel_seq_no view =
      let cleared = clear_all_queues c in
      let e = init_rounds a tbo cleared.watermark cleared novel_seq_no view in
      record e { tbo_queue = record e.tbo_queue { curr_seq = novel_seq_no }; seq_no = novel_seq_no }

  unfoldable pub move_to : Consensus → ℕ → ViewInfo → Index → Option Consensus
  unfolding go_back jump
  move_to c novel_seq_no view left = some (go_back c novel_seq_no view)
  move_to c novel_seq_no view (right zero) = some c
  move_to c novel_seq_no view (right (suc k)) =
      if leb (length c.decisions) (suc k)
      then if ltb (suc k) c.watermark
        then none
        else some (jump c (suc k - c.watermark) novel_seq_no view)
      else shift c novel_seq_no (drop (suc k) c.decisions) view

  -- The assertions at the end.
  abbrev pub asserted : Consensus → Option Consensus
  asserted c = elim c.decisions [
    | [] ↦ none
    | d ∷ ds ↦ if (c.tbo_queue.curr_seq == c.seq_no) && (d.seq == c.seq_no) then some c else none
  ]

  unfoldable pub install_sequence_number : Consensus → ℕ → ViewInfo → Option Consensus
  unfolding move_to
  install_sequence_number c novel_seq_no view =
      elim (move_to c novel_seq_no view (a.index novel_seq_no c.seq_no)) [
        | none ↦ none
        | some e ↦ asserted (record e {
          consensus_guard = install_seq_no a e.consensus_guard novel_seq_no;
          tbo_queue = signal_tbo e.tbo_queue;
        })
      ]

  -- The log after the call, which a failing `install_proof` may not have changed.
  unfoldable pub catch_up_to_quorum :
      Consensus
      → ViewInfo
      → Proof
      → Log
      → Consensus × Log × List Action × Result LogError FeDecision
  unfolding install_proof next_instance
  catch_up_to_quorum c view proof log =
      let (after, r) = install_proof a log proof in
      elim r [
        | err e ↦ (c, after, [], err e)
        | panic ↦ (c, after, [], panic)
        | ok to_execute ↦ elim (next_instance a tbo c view) [
          | none ↦ (c, after, [], panic)
          | some (e, d, actions) ↦ (e, after, actions, ok to_execute)
        ]
      ]

  -- A view that is `suc k` ahead: its messages stand at the place `k` of the queue of views.
  unfoldable pub enter_view : Consensus → ViewInfo → ℕ → Consensus
  unfolding clear_all_queues queue
  enter_view c view k =
      let cleared = clear_all_queues (record c {
        curr_view = view;
        consensus_guard = install_view_guard c.consensus_guard view;
      }) in
      let filled = init_rounds a tbo cleared.watermark cleared cleared.seq_no view in
      let views = drop k filled.view_queue in
      queue_all (queue a tbo) (record filled { view_queue = drop 1 views }) (queued_for views)

  abbrev pub view_at : Consensus → ViewInfo → Index → Consensus
  view_at c view left = c
  view_at c view (right zero) = c
  view_at c view (right (suc k)) = enter_view c view k

  unfoldable pub install_view : Consensus → ViewInfo → Consensus
  unfolding enter_view
  install_view c view = view_at c view (a.index view.seq c.curr_view.seq)

  abbrev pub register : Consensus → Option (List ClientRqInfo) → Consensus
  register c none = c
  register c (some rqs) = record c {
    consensus_guard = install_sync_message_requests a c.consensus_guard rqs;
  }

  -- The guard is unlocked where the message is processed without an error.
  unfoldable pub finalize_view_change :
      Env
      → Consensus
      → StoredConsensusMessage
      → ViewInfo
      → Consensus × List Action × Result DecidingLogError ConsensusStatus
  unfolding install_view process_message
  finalize_view_change env c m new_view =
      let e = register (install_view c new_view) (forged_requests m.message.kind) in
      elim (skip_first e.decisions) [
        | none ↦ (e, [], panic)
        | some ds ↦
            let (after, actions, r) = process_message a tbo env (record e { decisions = ds }) m in
            elim r [
              | ok status ↦ (
                record after { consensus_guard = unlock_consensus after.consensus_guard },
                actions,
                ok status,
              )
              | err x ↦ (after, actions, err x)
              | panic ↦ (after, actions, panic)
            ]
      ]
