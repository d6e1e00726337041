-- ===== src/ViewChange/Runs/Ends.antt =====
-- The counts of the synchronizer of febft-pbft-consensus/src/bft/sync/mod.rs while `STOP-DATA`s and
-- `SYNC`s come in, and at the end of a view change.
use febft.Base.{
  some_eq, subst, ℕ, ◌≡◌, refl, ◌∙◌, inl, inr, Bool, Option, none, some, Option-cases, arith,
}
use febft.Atlas.{Atlas}
use febft.View.{ViewInfo}
use febft.Consensus.Accessory.{Nonces}
use febft.Consensus.Instances.{ConsensusStatus}
use febft.Log.Decisions.{Proof}
use febft.Log.Install.{FeDecision}
use febft.Consensus.TboQueue.{Tbo}
use febft.ViewChange.Messages.{FwdConsensusMessage}
use febft.ViewChange.Queue
use febft.ViewChange.Queue.{ViewTbo, TboQueue, queue_stop, queue_stop_data, queue_sync}
use febft.ViewChange.Finalize.{
  install_last, end_view_change, end_with, pre_finalize, finalize, catch_up, process_proposed,
  report_new_view, resume_view_change,
}
use febft.ViewChange.Runs.{Counted}
use febft.ViewChange.Synchronizer.{
  init, Synchronizer, FinalizeState, FinalizeStatus, no_value, SynchronizerStatus, World,
  with_phase, with_tbo,
}
use febft.ViewChange.Runs.Kept.{>>=-eq-some, result-Counted, Voters, same_counts}

-- What the end of a view change leaves of a synchronizer.
pub record Ended (s t : Synchronizer) : Type 0 where
  pub same_stopped : t.stopped ≡ s.stopped
  pub same_collects : t.collects ≡ s.collects
  pub same_accessory : t.accessory ≡ s.accessory
  pub same_voters : Voters s.currently_adding → Voters t.currently_adding

Ended-refl : (s t : Synchronizer) → t ≡ s → Ended s t
Ended-refl s t e = rw e (record {
  same_stopped = refl;
  same_collects = refl;
  same_accessory = refl;
  same_voters = λ v. v;
})

module _ (a : Atlas) (tbo : Tbo) (view_tbo : ViewTbo) (nonces : Nonces) where
  install_last-synchronizer :
      (w w' : World) (view : ViewInfo) (proof : Option Proof) (r : Option FeDecision)
      → install_last a tbo view_tbo w view proof ≡ some (w', r)
      → w'.synchronizer ≡ w.synchronizer
  install_last-synchronizer w w' view none r h = ground arith
  install_last-synchronizer w w' view (some proof) r h = ground arith

  pub catch_up-synchronizer :
      (w w' : World) (view : ViewInfo) (proof : Option Proof) (r : Option FeDecision)
      → catch_up a tbo view_tbo w view proof ≡ some (w', r)
      → w'.synchronizer ≡ w.synchronizer
  unfolding catch_up
  catch_up-synchronizer w w' view proof r h =
      ground (arith, install_last-synchronizer w w' view proof r)

  pub process_proposed-synchronizer :
      (w w' : World) (view : ViewInfo) (proposed : FwdConsensusMessage) (r : ConsensusStatus)
      → process_proposed a tbo view_tbo nonces w view proposed ≡ some (w', r)
      → w'.synchronizer ≡ w.synchronizer
  unfolding process_proposed
  process_proposed-synchronizer w w' view proposed r h = ground arith

  -- The calls that `finalize` is made of, where it succeeds.
  pub record Finalized (w w' : World) (state : FinalizeState) (st : SynchronizerStatus)
      : Type 0 where
    pub queue : TboQueue
    pub installed : Bool
    pub caught : World
    pub to_execute : Option FeDecision
    pub processed : World
    pub status : ConsensusStatus
    pub advances : Queue.advance a view_tbo w.synchronizer.tbo ≡ some (queue, installed)
    pub catches_up :
        catch_up a tbo view_tbo (with_tbo w queue) queue.view state.last_proof
        ≡ some (caught, to_execute)
    pub processes :
        process_proposed a tbo view_tbo nonces caught queue.view state.proposed
        ≡ some (processed, status)
    pub reports :
        ◌≡◌ {A = World × SynchronizerStatus}
          (report_new_view
            (with_phase processed init)
            processed.synchronizer.currently_adding_node
            status
            to_execute)
          (w', st)

  pub finalize-Finalized :
      (w w' : World) (state : FinalizeState) (st : SynchronizerStatus)
      → finalize a tbo view_tbo nonces w state ≡ some (w', st)
      → Finalized w w' state st
  unfolding finalize
  finalize-Finalized w w' state st h =
      let ((q, installed), e1, h1) =
        >>=-eq-some (Queue.advance a view_tbo w.synchronizer.tbo) _ h in
      let ((caught, to_execute), e2, h2) =
        >>=-eq-some (catch_up a tbo view_tbo (with_tbo w q) q.view state.last_proof) _ h1 in
      let ((done, status), e3, h3) =
        >>=-eq-some (process_proposed a tbo view_tbo nonces caught q.view state.proposed) _ h2 in
      record {
        queue = q;
        installed = installed;
        caught = caught;
        to_execute = to_execute;
        processed = done;
        status = status;
        advances = e1;
        catches_up = e2;
        processes = e3;
        reports = some_eq h3;
      }

  module _ {w w' : World} {state : FinalizeState} {st : SynchronizerStatus} where
    pub Finalized-synchronizer :
        (f : Finalized w w' state st)
        → f.processed.synchronizer ≡ record w.synchronizer { tbo = f.queue }
    Finalized-synchronizer f =
        process_proposed-synchronizer f.caught f.processed f.queue.view state.proposed f.status
          f.processes
        ∙ catch_up-synchronizer (with_tbo w f.queue) f.caught f.queue.view state.last_proof
            f.to_execute f.catches_up

  report_new_view-Ended :
      (x : World) (adding : Option ℕ) (status : ConsensusStatus) (r : Option FeDecision)
      → Ended x.synchronizer (report_new_view x adding status r).0.synchronizer
        × ((report_new_view x adding status r).0.synchronizer.phase ≡ x.synchronizer.phase)
  report_new_view-Ended x none status r = (Ended-refl x.synchronizer x.synchronizer refl, refl)
  report_new_view-Ended x (some node) status r = (
    record {
      same_stopped = refl;
      same_collects = refl;
      same_accessory = refl;
      same_voters = λ v. tt;
    },
    refl,
  )

  pub finalize-Counted :
      (w w' : World) (state : FinalizeState) (st : SynchronizerStatus)
      → Counted w.synchronizer
      → finalize a tbo view_tbo nonces w state ≡ some (w', st)
      → Counted w'.synchronizer
  finalize-Counted w w' state st c h =
      let f = finalize-Finalized w w' state st h in
      let same = Finalized-synchronizer f in
      let (ended, phase) =
        report_new_view-Ended (with_phase f.processed init)
          f.processed.synchronizer.currently_adding_node f.status f.to_execute in
      let done : Counted (with_phase f.processed init).synchronizer = rw same (record {
        counted = tt;
        stoppers = c.stoppers;
        collectors = c.collectors;
        voters = c.voters;
        is_replica = c.is_replica;
      }) in
      subst (λ (r : World × SynchronizerStatus). Counted r.0.synchronizer) f.reports
        (record {
          counted = rw phase tt;
          stoppers = rw ended.same_stopped done.stoppers;
          collectors = rw ended.same_collects done.collectors;
          voters = ended.same_voters done.voters;
          is_replica = ended.same_accessory ∙ done.is_replica;
        })

  end_with-Counted :
      (w w' : World) (status : FinalizeStatus) (st : SynchronizerStatus)
      → Counted w.synchronizer
      → end_with a tbo view_tbo nonces w status ≡ some (w', st)
      → Counted w'.synchronizer
  end_with-Counted w w' no_value st c h = result-Counted w w' _ st h c
  end_with-Counted w w' (FinalizeStatus.run_cst state) st c h = result-Counted _ w' _ st h (record {
    counted = tt;
    stoppers = c.stoppers;
    collectors = c.collectors;
    voters = c.voters;
    is_replica = c.is_replica;
  })
  end_with-Counted w w' (FinalizeStatus.commit state) st c h = finalize-Counted w w' state st c h

  pub end_view_change-Counted :
      (w w' : World) (state : FinalizeState) (proof : Option Proof) (st : SynchronizerStatus)
      → Counted w.synchronizer
      → end_view_change a tbo view_tbo nonces w state proof ≡ some (w', st)
      → Counted w'.synchronizer
  unfolding end_view_change
  end_view_change-Counted w w' state proof st c h =
      let (status, _, ends) = >>=-eq-some (pre_finalize state proof w.log) _ h in
      end_with-Counted w w' status st c ends

  pub resume_view_change-Counted :
      (w w' : World) (st : Option SynchronizerStatus)
      → Counted w.synchronizer
      → resume_view_change a tbo view_tbo nonces w ≡ some (w', st)
      → Counted w'.synchronizer
  unfolding resume_view_change
  resume_view_change-Counted w w' st c h = elim (Option-cases w.synchronizer.finalize_state) [
    | inl nothing ↦ result-Counted w w' _ st (rw (nothing, resume_view_change) at h) c
    | inr (state, waits) ↦
        let taken = record w { synchronizer = record w.synchronizer { finalize_state = none } } in
        let ((after, status), ends, last) =
          >>=-eq-some (end_view_change a tbo view_tbo nonces taken state none) _
            (rw (waits, resume_view_change) at h) in
        result-Counted after w' _ st last (
          end_view_change-Counted taken after state none status
            (same_counts w.synchronizer _ c refl refl refl refl refl) ends)
  ]
