-- ===== src/ViewChange/Runs/Resumed.antt =====
-- The counts of the synchronizer of febft-pbft-consensus/src/bft/sync/mod.rs where the state transfer
-- gives it a view, and where it asks to join the quorum.
use febft.Base.{
  some_eq, subst, ℕ, ◌≡◌, refl, Bool, not, Option, none, some, ◌==◌, ◌&&◌, Bool-cases, inl, inr,
  if-cases, arith,
}
use febft.Atlas.{Atlas}
use febft.View.{ViewInfo, leader, previous_view, next_view_with_new_node}
use febft.ViewChange.Queue.{ViewTbo, install_view, can_process_stop_data, can_process_sync}
use febft.ViewChange.Begin.{
  attempt_join_quorum, enter_quorum, is_member, in_next, ReconfigurationAttemptResult,
}
use febft.ViewChange.Poll.{
  received_view_from_state_transfer, after_previous, resume_in, install_or_init,
}
use febft.ViewChange.Runs.{Counted, CountedAt}
use febft.ViewChange.Runs.Kept.{>>=-eq-some, result-Counted, same_counts}
use febft.ViewChange.Synchronizer.{Synchronizer, World, unwrapped}

-- A phase in which nothing is counted yet.
fresh-Counted :
    (s t : Synchronizer)
    → Counted s
    → CountedAt t.phase s.stopped s.collects
    → t.stopped ≡ s.stopped
    → t.collects ≡ s.collects
    → t.currently_adding ≡ s.currently_adding
    → t.accessory ≡ s.accessory
    → Counted t
fresh-Counted s t c k st co ad ac = record {
  counted = rw (st, co) k;
  stoppers = rw st c.stoppers;
  collectors = rw co c.collectors;
  voters = rw ad c.voters;
  is_replica = rw ac c.is_replica;
}

taken-Counted :
    (s t : Synchronizer) (u v : Bool)
    → ◌≡◌ {A = Option (Synchronizer × Bool)} (some (s, u)) (some (t, v))
    → Counted s
    → Counted t
taken-Counted s t u v e c = subst (λ (r : Synchronizer × Bool). Counted r.0) (some_eq e) c

module _ (a : Atlas) (size_bytes : ℕ) (view_tbo : ViewTbo) where
  install_or_init-Counted :
      (s t : Synchronizer) (view : ViewInfo)
      → Counted s
      → install_or_init a size_bytes view_tbo s view ≡ some t
      → Counted t
  install_or_init-Counted s t view c h =
      let ((q, installed), _, last) = >>=-eq-some (install_view a view_tbo s.tbo view) _ h in
      subst Counted (some_eq last) (
        fresh-Counted s _ c
          (if-cases (λ p. CountedAt p s.stopped s.collects) installed (λ _. c.counted) (λ _. tt))
          refl refl refl refl)

  resume_in-Counted :
      (s t : Synchronizer) (view : ViewInfo) (goes_on : Bool)
      → Counted s
      → resume_in a size_bytes view_tbo s view ≡ some (t, goes_on)
      → Counted t
  unfolding resume_in
  resume_in-Counted s t view goes_on c h =
      let (l, _, led) = >>=-eq-some (unwrapped (leader view)) _ h in
      elim (Bool-cases ((l == s.node_id) && can_process_stop_data s.tbo)) [
        | inl leads ↦
            taken-Counted _ t _ goes_on (rw leads at led)
              (fresh-Counted s _ c (omega arith) refl refl refl refl)
        | inr follows ↦ elim (Bool-cases (can_process_sync s.tbo)) [
          | inl synced ↦
              taken-Counted _ t _ goes_on (rw (follows, synced) at led)
                (fresh-Counted s _ c tt refl refl refl refl)
          | inr waits ↦
              let ((q, installed), _, last) =
                >>=-eq-some (install_view a view_tbo s.tbo view) _ (rw (follows, waits) at led) in
              taken-Counted _ t _ goes_on last (same_counts s _ c refl refl refl refl refl)
        ]
      ]

  after_previous-Counted :
      (s t : Synchronizer) (view : ViewInfo) (previous : Option ViewInfo) (goes_on : Bool)
      → Counted s
      → after_previous a size_bytes view_tbo s view previous ≡ some (t, goes_on)
      → Counted t
  after_previous-Counted s t view none goes_on c h =
      let (u, e, last) = >>=-eq-some (install_or_init a size_bytes view_tbo s view) _ h in
      taken-Counted u t _ goes_on last (install_or_init-Counted s u view c e)
  after_previous-Counted s t view (some previous) goes_on c h =
      elim (Bool-cases (not (s.tbo.view.seq == previous.seq))) [
        | inl other ↦
            let (u, e, last) =
              >>=-eq-some (install_or_init a size_bytes view_tbo s previous) _ (rw other at h) in
            resume_in-Counted u t view goes_on (install_or_init-Counted s u previous c e) last
        | inr same ↦ resume_in-Counted s t view goes_on c (rw same at h)
      ]

  pub received_view-Counted :
      (s t : Synchronizer) (view : ViewInfo) (goes_on : Bool)
      → Counted s
      → received_view_from_state_transfer a size_bytes view_tbo s view ≡ some (t, goes_on)
      → Counted t
  unfolding received_view_from_state_transfer
  received_view-Counted s t view goes_on c h =
      let (previous, _, after) = >>=-eq-some (unwrapped (previous_view a size_bytes view)) _ h in
      after_previous-Counted s t view previous goes_on c after

enter_quorum-Counted :
    (a : Atlas) (size_bytes : ℕ) (w w' : World) (r : ReconfigurationAttemptResult)
    → Counted w.synchronizer
    → enter_quorum a size_bytes w ≡ some (w', r)
    → Counted w'.synchronizer
enter_quorum-Counted a size_bytes w w' r c h =
    let s = w.synchronizer in
    let (view, _, h1) =
      >>=-eq-some (unwrapped (next_view_with_new_node a size_bytes s.tbo.view s.node_id)) _ h in
    let (l, _, last) = >>=-eq-some (unwrapped (leader view)) _ h1 in
    result-Counted _ w' _ r last (
      fresh-Counted s _ c
        (if-cases (λ p. CountedAt p s.stopped s.collects) (l == s.node_id) (λ _. omega arith)
          (λ _. tt))
        refl refl refl refl)

pub attempt_join_quorum-Counted :
    (a : Atlas) (size_bytes : ℕ) (w w' : World) (r : ReconfigurationAttemptResult)
    → Counted w.synchronizer
    → attempt_join_quorum a size_bytes w ≡ some (w', r)
    → Counted w'.synchronizer
unfolding attempt_join_quorum
attempt_join_quorum-Counted a size_bytes w w' r c h =
    let s = w.synchronizer in
    elim (Bool-cases (is_member s.tbo.view s.node_id)) [
      | inl member ↦ result-Counted w w' _ r (rw (member, attempt_join_quorum) at h) c
      | inr outside ↦ elim (Bool-cases (in_next a s.tbo.next_view s.node_id)) [
        | inl soon ↦ result-Counted w w' _ r (rw (outside, soon, attempt_join_quorum) at h) c
        | inr late ↦
            enter_quorum-Counted a size_bytes w w' r c
              (rw (outside, late, attempt_join_quorum) at h)
      ]
    ]
