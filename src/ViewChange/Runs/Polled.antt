-- ===== src/ViewChange/Runs/Polled.antt =====
-- The counts of the synchronizer of febft-pbft-consensus/src/bft/sync/mod.rs after `poll`.
use febft.Base.{arith, some_eq, subst, ◌≡◌, refl, inl, inr, not, Option, none, some, Bool-cases}
use febft.ViewChange.Messages.{
  PbftMessage, view_change, ViewChangeMessageKind, stop, stop_quorum_join, stop_data, sync,
  StoredMessage,
}
use febft.ViewChange.Queue.{ViewTbo}
use febft.ViewChange.Poll.{poll, poll_phase, extracted, extracted_first, begin_of, phase_of_kind}
use febft.ViewChange.Runs.{Counted, CountedAt}
use febft.ViewChange.Synchronizer.{
  ProtoPhase, init, stopping, stopping2, view_stopping, view_stopping2, stopping_data, syncing,
  syncing_state, Synchronizer, SynchronizerPollStatus, next_message, ◌>>=◌,
}
use febft.ViewChange.Runs.Kept.{same_counts}

abbrev pub Polled : Synchronizer × SynchronizerPollStatus → Type 0
Polled (s, status) = Counted s

extracted-Polled :
    (s : Synchronizer) (m : Option StoredMessage) → Counted s → Polled (extracted s m)
extracted-Polled s none c = same_counts s _ c refl refl refl refl refl
extracted-Polled s (some m) c = c

begins-Counted :
    (s : Synchronizer) (kind : ViewChangeMessageKind)
    → Counted s
    → Counted (record s { phase = phase_of_kind kind })
begins-Counted s kind c = record {
  counted = begins kind;
  stoppers = c.stoppers;
  collectors = c.collectors;
  voters = c.voters;
  is_replica = c.is_replica;
}
  where
    begins : (k : ViewChangeMessageKind) → CountedAt (phase_of_kind k) s.stopped s.collects
    begins (stop rqs) = omega arith
    begins (stop_quorum_join node) = tt
    begins (stop_data collect) = omega arith
    begins (sync proposed collects) = omega arith

extracted_first-Polled :
    (s : Synchronizer) (m : Option StoredMessage) (r : Synchronizer × SynchronizerPollStatus)
    → Counted s
    → extracted_first s m ≡ some r
    → Polled r
extracted_first-Polled s none r c h =
    subst Polled (some_eq h) (same_counts s _ c refl refl refl refl refl)
extracted_first-Polled s (some m) r c h = begun m.message h
  where
    begun :
        (p : PbftMessage)
        → (begin_of p >>= λ phase. some (record s { phase = phase }, next_message m)) ≡ some r
        → Polled r
    begun (PbftMessage.consensus x) k = cc
    begun (view_change view kind) k = subst Polled (some_eq k) (begins-Counted s kind c)
    begun (PbftMessage.observer_message x) k = cc

module _ (view_tbo : ViewTbo) where
  poll_phase-Polled :
      (s : Synchronizer) (phase : ProtoPhase) (r : Synchronizer × SynchronizerPollStatus)
      → s.phase ≡ phase
      → Counted s
      → poll_phase view_tbo s phase ≡ some r
      → Polled r
  unfolding poll_phase
  poll_phase-Polled s init r e c h =
      extracted_first-Polled _ (view_tbo.pop s.tbo.stop).1 r
        (same_counts s _ c refl refl refl refl refl) h
  poll_phase-Polled s (stopping i) r e c h =
      subst Polled (some_eq h) (
        extracted-Polled _ (view_tbo.pop s.tbo.stop).1 (same_counts s _ c refl refl refl refl refl))
  poll_phase-Polled s (stopping2 i) r e c h =
      subst Polled (some_eq h) (
        extracted-Polled _ (view_tbo.pop s.tbo.stop).1 (same_counts s _ c refl refl refl refl refl))
  poll_phase-Polled s (view_stopping i) r e c h =
      subst Polled (some_eq h) (
        extracted-Polled _ (view_tbo.pop s.tbo.stop).1 (same_counts s _ c refl refl refl refl refl))
  poll_phase-Polled s (view_stopping2 i) r e c h =
      subst Polled (some_eq h) (
        extracted-Polled _ (view_tbo.pop s.tbo.stop).1 (same_counts s _ c refl refl refl refl refl))
  poll_phase-Polled s (stopping_data i) r e c h = subst Polled (some_eq h) (
      extracted-Polled _ (view_tbo.pop s.tbo.stop_data).1
        (same_counts s _ c refl refl refl refl refl))
  poll_phase-Polled s syncing r e c h =
      subst Polled (some_eq h) (
        extracted-Polled _ (view_tbo.pop s.tbo.sync).1 (same_counts s _ c refl refl refl refl refl))
  poll_phase-Polled s syncing_state r e c h = subst Polled (some_eq h) c

  pub poll-Polled :
      (s : Synchronizer) (r : Synchronizer × SynchronizerPollStatus)
      → Counted s
      → poll view_tbo s ≡ some r
      → Polled r
  unfolding poll
  poll-Polled s r c h = elim (Bool-cases (not s.tbo.get_queue)) [
    | inl idle ↦ subst Polled (some_eq (rw (idle, poll) at h)) c
    | inr queued ↦ poll_phase-Polled s s.phase r refl c (rw (queued, poll) at h)
  ]
