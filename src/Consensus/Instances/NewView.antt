-- ===== src/Consensus/Instances/NewView.antt =====
-- `Consensus::finalize_view_change` and `Consensus::catch_up_to_quorum` of
-- febft-pbft-consensus/src/bft/consensus/mod.rs: the window of the instances, and their view.
use febft.Base.{
  subst, some_eq, ℕ, zero, suc, ◌<◌, ◌≡◌, refl, ◌∙◌, Option, none, some, List, [], ◌∷◌,
  Option-cases, inl, inr, length, Result, ok, err, panic, Result-cases, arith,
}
use febft.Atlas.{Atlas, right, SeqLaws}
use febft.Node.{Action}
use febft.Message.{StoredConsensusMessage, ClientRqInfo}
use febft.View.{ViewInfo}
use febft.Log.Decisions.{Proof}
use febft.Log.Install.{Log, LogError, FeDecision, install_proof}
use febft.Consensus.Decision.{ConsensusDecision, skip_init_phase}
use febft.Consensus.Decision.Process.{Env}
use febft.Consensus.Guard.{install_view_guard}
use febft.Consensus.TboQueue.{Tbo}
use febft.Consensus.Instances.{
  Consensus, Place, other_view, past, beyond, instance_at, place, queue_in, queue, process_at,
  process_message, init_rounds, enqueue_decision, next_instance, recover, clear_all_queues,
  enqueue_other_view_message, report,
}
use febft.Consensus.Instances.Install.{
  drop, queue_all, queued_for, enter_view, install_view, register, skip_first, forged_requests,
  finalize_view_change, catch_up_to_quorum,
}
use febft.Consensus.Instances.Window.{Numbered, Window}
use febft.Consensus.Instances.Window.Next.{next_instance-Window}
use febft.Consensus.Instances.Routing.{messages-Window}
use febft.Consensus.Instances.Views.{install_view-Window}

module _ (a : Atlas) (tbo : Tbo) where
  queue_in-view :
      (c : Consensus) (p : Place) (m : StoredConsensusMessage)
      → (queue_in a tbo c p m).curr_view ≡ c.curr_view
  unfolding enqueue_other_view_message
  queue_in-view c (other_view i) m = refl
  queue_in-view c past m = refl
  queue_in-view c beyond m = refl
  queue_in-view c (instance_at i) m = refl

  queue_all-view :
      (c : Consensus) (ms : List StoredConsensusMessage)
      → (queue_all (queue a tbo) c ms).curr_view ≡ c.curr_view
  unfolding queue
  queue_all-view c [] = refl
  queue_all-view c (m ∷ ms) =
      queue_all-view (queue a tbo c m) ms ∙ queue_in-view c (place a tbo c m) m

  init_rounds-view :
      (count : ℕ) (c : Consensus) (seq : ℕ) (view : ViewInfo)
      → (init_rounds a tbo count c seq view).curr_view ≡ c.curr_view
  unfolding init_rounds
  init_rounds-view zero c seq view = refl
  init_rounds-view (suc count) c seq view = init_rounds-view count _ (a.plus seq 1) view

  enter_view-view :
      (c : Consensus) (view : ViewInfo) (k : ℕ) → (enter_view a tbo c view k).curr_view ≡ view
  unfolding enter_view clear_all_queues
  enter_view-view c view k =
      queue_all-view (record filled { view_queue = drop 1 (drop k filled.view_queue) })
        (queued_for (drop k filled.view_queue))
      ∙ init_rounds-view c.watermark cleared c.seq_no view
    where
      cleared : Consensus
      cleared = clear_all_queues (record c {
        curr_view = view;
        consensus_guard = install_view_guard c.consensus_guard view;
      })

      filled : Consensus
      filled = init_rounds a tbo c.watermark cleared c.seq_no view

  pub install_view-view :
      (c : Consensus) (view : ViewInfo) (k : ℕ)
      → a.index view.seq c.curr_view.seq ≡ right (suc k)
      → (install_view a tbo c view).curr_view ≡ view
  unfolding install_view
  install_view-view c view k e = rw e (enter_view-view c view k)

  process_message-view :
      (env : Env) (c : Consensus) (m : StoredConsensusMessage)
      → (process_message a tbo env c m).0.curr_view ≡ c.curr_view
  unfolding process_message process_at report enqueue_other_view_message
  process_message-view env c m = ground arith

  next_instance-view :
      (c e : Consensus) (view : ViewInfo) (d : ConsensusDecision) (actions : List Action)
      → next_instance a tbo c view ≡ some (e, d, actions)
      → e.curr_view ≡ c.curr_view
  unfolding next_instance enqueue_decision recover
  next_instance-view c e view d actions h = ground arith

  module _ (laws : SeqLaws a) where
    -- Catching up, where it succeeds, moves on to the next instance of the view.
    pub catch_up_to_quorum-Window :
        (c : Consensus) (view : ViewInfo) (proof : Proof) (log : Log) (r : FeDecision)
        → Window a c
        → 0 < c.watermark
        → (catch_up_to_quorum a tbo c view proof log).3 ≡ ok r
        → Window a (catch_up_to_quorum a tbo c view proof log).0
          × ((catch_up_to_quorum a tbo c view proof log).0.curr_view ≡ c.curr_view)
    unfolding catch_up_to_quorum
    catch_up_to_quorum-Window c view proof log r w h k =
        let (e, d, actions, moves, window, _, _) = next_instance-Window a tbo laws c view w h in
        elim (Result-cases (install_proof a log proof).1) [
          | inl (x, installed) ↦
              rw (installed, moves, catch_up_to_quorum)
                (window, next_instance-view c e view d actions moves)
          | inr (inl (x, refused)) ↦
              let clash : ◌≡◌ {A = Result LogError FeDecision} (err x) (ok r) =
                rw (refused, catch_up_to_quorum) at k in
              cc
          | inr (inr panics) ↦
              let clash : ◌≡◌ {A = Result LogError FeDecision} panic (ok r) =
                rw (panics, catch_up_to_quorum) at k in
              cc
        ]

    Numbered-first :
        (s : ℕ) (ds es : List ConsensusDecision)
        → Numbered a s ds
        → skip_first ds ≡ some es
        → Numbered a s es × (length es ≡ length ds)
    unfolding skip_init_phase
    Numbered-first s [] es n h = cc
    Numbered-first s (d ∷ ds) es n h =
        subst (λ xs. Numbered a s xs × (length xs ≡ length (d ∷ ds))) (some_eq h) (n, refl)

    register-Window :
        (c : Consensus) (rqs : Option (List ClientRqInfo))
        → Window a c
        → Window a (register a tbo c rqs) × ((register a tbo c rqs).curr_view ≡ c.curr_view)
    register-Window c none w = (w, refl)
    register-Window c (some rqs) w =
        (record { numbered = w.numbered; full = w.full; follows = w.follows }, refl)

    abbrev registered : Consensus → StoredConsensusMessage → ViewInfo → Consensus
    registered c m view =
        register a tbo (install_view a tbo c view) (forged_requests m.message.kind)

    -- The consensus takes the proposal of the leader of a view that is ahead: the instances stay in
    -- place, and it is in that view.
    pub finalize_view_change-Window :
        (env : Env) (c : Consensus) (m : StoredConsensusMessage) (view : ViewInfo) (k : ℕ)
        → Window a c
        → a.index view.seq c.curr_view.seq ≡ right (suc k)
        → Window a (finalize_view_change a tbo env c m view).0
          × ((finalize_view_change a tbo env c m view).0.curr_view ≡ view)
    unfolding finalize_view_change
    finalize_view_change-Window env c m view k w ahead =
        let (window, same) =
          register-Window (install_view a tbo c view) (forged_requests m.message.kind)
            (install_view-Window a tbo laws c view w) in
        let entered = same ∙ install_view-view c view k ahead in
        elim (Option-cases (skip_first (registered c m view).decisions)) [
          | inl e ↦ rw (e, finalize_view_change) (window, entered)
          | inr (ds, e) ↦
              let started = record (registered c m view) { decisions = ds } in
              let (numbered, len) =
                Numbered-first (registered c m view).seq_no (registered c m view).decisions ds
                  window.numbered e in
              let (_, after) = messages-Window a tbo laws env started m (record {
                numbered = numbered;
                full = len ∙ window.full;
                follows = window.follows;
              }) in
              let stays = process_message-view env started m ∙ entered in
              elim (Result-cases (process_message a tbo env started m).2) [
                | inl (status, r) ↦
                    rw (e, r, finalize_view_change)
                      (
                        record {
                          numbered = after.numbered;
                          full = after.full;
                          follows = after.follows;
                        },
                        stays,
                      )
                | inr (inl (x, r)) ↦ rw (e, r, finalize_view_change) (after, stays)
                | inr (inr r) ↦ rw (e, r, finalize_view_change) (after, stays)
              ]
        ]
