-- ===== src/ViewChange/Finalize/NewView.antt =====
-- What `finalize` of febft-pbft-consensus/src/bft/sync/mod.rs leaves: the synchronizer and the
-- consensus in the view that was to come.
use febft.Base.{
  some_eq, subst, ℕ, zero, suc, ◌<◌, ◌≡◌, refl, ◌∙◌, ap, ap₂, Option, none, some, inl, inr, Bool,
  true, Bool-cases, ◌==◌,
}
use febft.Atlas.{Atlas, right, SeqLaws}
use febft.View.{ViewInfo}
use febft.Log.Decisions.{Proof}
use febft.Log.Install.{FeDecision}
use febft.Consensus.Accessory.{Nonces}
use febft.Consensus.Decision.Process.{Env}
use febft.Consensus.TboQueue.{Tbo}
use febft.Consensus.Instances.{ConsensusStatus}
use febft.Consensus.Instances.Install.{catch_up_to_quorum, finalize_view_change}
use febft.Consensus.Instances.Window.{Window}
use febft.Consensus.Instances.NewView.{catch_up_to_quorum-Window, finalize_view_change-Window}
use febft.ViewChange.Messages.{FwdConsensusMessage, into_stored}
use febft.ViewChange.Queue.{ViewTbo, TboQueue, next_instance_queue, advance_queues}
use febft.ViewChange.Queue
use febft.ViewChange.Finalize.{
  next_execution, install_last, proof_seq, catch_up, process_proposed, finalize, report_new_view,
}
use febft.ViewChange.Runs.Kept.{>>=-eq-some, unwrapped-ok}
use febft.ViewChange.Runs.Ends.{finalize-Finalized, Finalized-synchronizer}
use febft.ViewChange.Synchronizer.{
  init, Synchronizer, FinalizeState, SynchronizerStatus, World, unwrapped, with_phase, with_tbo,
}

module _ (a : Atlas) (view_tbo : ViewTbo) where
  -- Advancing the queues moves no view.
  advance_queues-views :
      (k : ℕ) (q : TboQueue)
      → ((advance_queues a view_tbo k q).view ≡ q.view)
        × ((advance_queues a view_tbo k q).next_view ≡ q.next_view)
        × ((advance_queues a view_tbo k q).previous_view ≡ q.previous_view)
  unfolding next_instance_queue
  advance_queues-views zero q = (refl, refl, refl)
  advance_queues-views (suc k) q = advance_queues-views k (next_instance_queue a view_tbo q)

  advance-views :
      (q q' : TboQueue) (view : ViewInfo) (k : ℕ) (installed : Bool)
      → q.next_view ≡ some view
      → a.index view.seq q.view.seq ≡ right (suc k)
      → Queue.advance a view_tbo q ≡ some (q', installed)
      → (q'.view ≡ view) × (q'.next_view ≡ none) × (q'.previous_view ≡ some q.view)
  unfolding Queue.advance Queue.install_view
  advance-views q q' view k installed next ahead h =
      let from = record q { next_view = none; view = view; previous_view = some q.view } in
      let moved : ◌≡◌ {A = Option (TboQueue × Bool)}
          (some (advance_queues a view_tbo (suc k) from, true)) (some (q', installed)) =
        rw (next, ahead, Queue.advance) at h in
      subst
        (λ (x : TboQueue × Bool).
          (x.0.view ≡ view) × (x.0.next_view ≡ none) × (x.0.previous_view ≡ some q.view))
        (some_eq moved) (advance_queues-views (suc k) from)

module _ (a : Atlas) (tbo : Tbo) (view_tbo : ViewTbo) (laws : SeqLaws a) where
  -- The consensus has its instances in place, and is in the view.
  abbrev In {ℓ} : {A : Type ℓ} → ViewInfo → World × A → Type 0
  In view x = Window a x.0.consensus × (x.0.consensus.curr_view ≡ view)

  install_last-Window :
      (w w' : World) (view : ViewInfo) (proof : Option Proof) (r : Option FeDecision)
      → Window a w.consensus
      → 0 < w.consensus.watermark
      → install_last a tbo view_tbo w view proof ≡ some (w', r)
      → Window a w'.consensus × (w'.consensus.curr_view ≡ w.consensus.curr_view)
  install_last-Window w w' view none r window some_instances h =
      subst (In w.consensus.curr_view) (some_eq h) (window, refl)
  install_last-Window w w' view (some proof) r window some_instances h =
      let (to_execute, e, last) =
        >>=-eq-some (unwrapped (catch_up_to_quorum a tbo w.consensus view proof w.log).3) _ h in
      subst (In w.consensus.curr_view) (some_eq last) (
        catch_up_to_quorum-Window a tbo laws w.consensus view proof w.log to_execute window
          some_instances (unwrapped-ok (catch_up_to_quorum a tbo w.consensus view proof w.log).3 e))

  catch_up-Window :
      (w w' : World) (view : ViewInfo) (proof : Option Proof) (r : Option FeDecision)
      → Window a w.consensus
      → 0 < w.consensus.watermark
      → catch_up a tbo view_tbo w view proof ≡ some (w', r)
      → Window a w'.consensus × (w'.consensus.curr_view ≡ w.consensus.curr_view)
  unfolding catch_up
  catch_up-Window w w' view proof r window some_instances h =
      let (next, _, rest) = >>=-eq-some (next_execution w.log) _ h in
      elim (Bool-cases (next == proof_seq proof)) [
        | inr other ↦ subst (In w.consensus.curr_view) (some_eq (rw other at rest)) (window, refl)
        | inl missing ↦
            install_last-Window w w' view proof r window some_instances (rw missing at rest)
      ]

  process_proposed-Window :
      (nonces : Nonces) (w w' : World) (view : ViewInfo) (k : ℕ) (proposed : FwdConsensusMessage)
      (r : ConsensusStatus)
      → Window a w.consensus
      → a.index view.seq w.consensus.curr_view.seq ≡ right (suc k)
      → process_proposed a tbo view_tbo nonces w view proposed ≡ some (w', r)
      → Window a w'.consensus × (w'.consensus.curr_view ≡ view)
  unfolding process_proposed
  process_proposed-Window nonces w w' view k proposed r window ahead h =
      let env : Env = record {
        view = view;
        synchronizer = w.synchronizer.accessory;
        nonces = nonces;
      } in
      let (status, _, last) =
        >>=-eq-some
          (unwrapped (finalize_view_change a tbo env w.consensus (into_stored proposed) view).2) _
          h in
      subst (In view) (some_eq last) (
        finalize_view_change-Window a tbo laws env w.consensus (into_stored proposed) view k window
          ahead)

  -- What a replica is left with.
  pub record InNewView (w w' : World) (view : ViewInfo) : Type 0 where
    pub back_to_init : w'.synchronizer.phase ≡ init
    pub advanced : w'.synchronizer.tbo.view ≡ view
    pub none_to_come : w'.synchronizer.tbo.next_view ≡ none
    pub previous : w'.synchronizer.tbo.previous_view ≡ some w.synchronizer.tbo.view
    pub none_joining : w'.synchronizer.currently_adding_node ≡ none
    pub same_collects : w'.synchronizer.collects ≡ w.synchronizer.collects
    pub window : Window a w'.consensus
    pub entered : w'.consensus.curr_view ≡ view

  reported :
      (w x : World) (view : ViewInfo) (adding : Option ℕ) (status : ConsensusStatus)
      (r : Option FeDecision)
      → x.synchronizer.currently_adding_node ≡ adding
      → (InNewView w
          (record x { synchronizer = record x.synchronizer { currently_adding_node = none } })
          view)
      → InNewView w (report_new_view x adding status r).0 view
  reported w x view none status r e v = record {
    back_to_init = v.back_to_init;
    advanced = v.advanced;
    none_to_come = v.none_to_come;
    previous = v.previous;
    none_joining = e;
    same_collects = v.same_collects;
    window = v.window;
    entered = v.entered;
  }
  reported w x view (some node) status r e v = record {
    back_to_init = v.back_to_init;
    advanced = v.advanced;
    none_to_come = v.none_to_come;
    previous = v.previous;
    none_joining = refl;
    same_collects = v.same_collects;
    window = v.window;
    entered = v.entered;
  }

  -- A view change that ends leaves the synchronizer in its first phase and the view that was to come,
  -- with the view before it remembered, no view to come and no node being added, its collects as they
  -- were, and the consensus in that view with its instances in place; if the view that was to come is
  -- ahead of the view of both, and the consensus has its instances in place, one at least.
  pub finalize-InNewView :
      (nonces : Nonces) (w w' : World) (state : FinalizeState) (st : SynchronizerStatus)
      (view : ViewInfo) (k j : ℕ)
      → w.synchronizer.tbo.next_view ≡ some view
      → a.index view.seq w.synchronizer.tbo.view.seq ≡ right (suc k)
      → a.index view.seq w.consensus.curr_view.seq ≡ right (suc j)
      → Window a w.consensus
      → 0 < w.consensus.watermark
      → finalize a tbo view_tbo nonces w state ≡ some (w', st)
      → InNewView w w' view
  finalize-InNewView nonces w w' state st view k j next ahead behind window some_instances h =
      let f = finalize-Finalized a tbo view_tbo nonces w w' state st h in
      let same = Finalized-synchronizer a tbo view_tbo nonces f in
      let (now, none_left, before) =
        advance-views a view_tbo w.synchronizer.tbo f.queue view k f.installed next ahead
          f.advances in
      let (caught, stays) =
        catch_up-Window (with_tbo w f.queue) f.caught f.queue.view state.last_proof f.to_execute
          window some_instances f.catches_up in
      let (in_place, enters) =
        process_proposed-Window nonces f.caught f.processed f.queue.view j state.proposed f.status
          caught (ap₂ (λ (x y : ViewInfo). a.index x.seq y.seq) now stays ∙ behind) f.processes in
      subst (λ (r : World × SynchronizerStatus). InNewView w r.0 view) f.reports
        (reported w (with_phase f.processed init) view
          f.processed.synchronizer.currently_adding_node f.status f.to_execute refl
          (record {
            back_to_init = refl;
            advanced = ap (λ (s : Synchronizer). s.tbo.view) same ∙ now;
            none_to_come = ap (λ (s : Synchronizer). s.tbo.next_view) same ∙ none_left;
            previous = ap (λ (s : Synchronizer). s.tbo.previous_view) same ∙ before;
            none_joining = refl;
            same_collects = ap (λ (s : Synchronizer). s.collects) same;
            window = in_place;
            entered = enters ∙ now;
          }))
