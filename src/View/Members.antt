-- ===== src/View/Members.antt =====
-- The members of a view that is made from another, and the check of a given leader set, of
-- febft-pbft-consensus/src/bft/sync/view/mod.rs.
use febft.Base.{
  ℕ, ◌-◌, ◌/◌, ◌≡◌, refl, List, [], ◌∷◌, ◌++◌, ◌==◌, length, Result, ok, err, panic, >>=-eq-ok,
  arith, Bool-cases, inl, inr, ok_or,
}
use febft.Base.Pigeonhole.{Subset}
use febft.Atlas.{Atlas, SystemParams}
use febft.View.{
  ViewInfo, ViewError, system_params, targets, new, from_quorum, with_members, with_leader_set,
  check_leaders, next_view, next_view_with_new_node, unwrap_ok,
}

module _ (a : Atlas) (size_bytes : ℕ) where
  with_members-members :
      (seq n : ℕ) (members : List ℕ) (params : SystemParams) {v : ViewInfo}
      → with_members a size_bytes seq n members params ≡ ok v
      → (v.seq ≡ seq) × (v.quorum_members ≡ members)
  unfolding with_members
  with_members-members seq n members params h = ground arith

  unwrap_ok-eq-ok :
      (r : Result ViewError ViewInfo) {v : ViewInfo} → unwrap_ok a size_bytes r ≡ ok v → r ≡ ok v
  unwrap_ok-eq-ok (ok w) h = h
  unwrap_ok-eq-ok (err e) h = cc
  unwrap_ok-eq-ok panic h = cc

  new-members :
      (seq n f : ℕ) {v : ViewInfo}
      → new a size_bytes seq n f ≡ ok v
      → (v.seq ≡ seq) × (v.quorum_members ≡ targets n)
  unfolding new
  new-members seq n f h =
      let (params, e, k) =
        >>=-eq-ok (ok_or (a.params_new n f) system_params)
          (with_members a size_bytes seq n (targets n)) h in
      with_members-members seq n (targets n) params k

  from_quorum-members :
      (seq : ℕ) (members : List ℕ) {v : ViewInfo}
      → from_quorum a size_bytes seq members ≡ ok v
      → (v.seq ≡ seq) × (v.quorum_members ≡ members)
  unfolding from_quorum
  from_quorum-members seq members h = elim (Bool-cases (length members == 0)) [
    | inl q ↦ cc (rw q at h)
    | inr q ↦
        let (params, e, k) =
          >>=-eq-ok (ok_or (a.params_new (length members) ((length members - 1) / 3)) system_params)
            (with_members a size_bytes seq (length members) members) (rw q at h) in
        with_members-members seq (length members) members params k
  ]

  -- The next view has the next sequence number and, whoever the members of this one are, the nodes
  -- from 0 to their number as its members.
  pub next_view-members :
      (v w : ViewInfo)
      → next_view a size_bytes v ≡ ok w
      → (w.seq ≡ a.next v.seq) × (w.quorum_members ≡ targets v.params.n)
  unfolding next_view
  next_view-members v w h =
      new-members (a.next v.seq) v.params.n v.params.f
        (unwrap_ok-eq-ok (new a size_bytes (a.next v.seq) v.params.n v.params.f) h)

  -- A view that a node joins has the members of the view before, in their order, and the node.
  pub next_view_with_new_node-members :
      (v w : ViewInfo) (joined_node : ℕ)
      → next_view_with_new_node a size_bytes v joined_node ≡ ok w
      → (w.seq ≡ a.next v.seq) × (w.quorum_members ≡ v.quorum_members ++ joined_node ∷ [])
  unfolding next_view_with_new_node
  next_view_with_new_node-members v w joined_node h =
      let members = v.quorum_members ++ joined_node ∷ [] in
      from_quorum-members (a.next v.seq) members
        (unwrap_ok-eq-ok (from_quorum a size_bytes (a.next v.seq) members) h)

  check_leaders-Subset :
      (members leaders : List ℕ)
      → check_leaders a size_bytes members leaders ≡ ok tt
      → Subset leaders members
  unfolding check_leaders
  check_leaders-Subset members [] h = tt
  check_leaders-Subset members (x ∷ leaders) h =
      ground (arith, check_leaders-Subset members leaders)

  Subset-check_leaders :
      (members leaders : List ℕ)
      → Subset leaders members
      → check_leaders a size_bytes members leaders ≡ ok tt
  unfolding check_leaders
  Subset-check_leaders members [] h = refl
  Subset-check_leaders members (x ∷ leaders) h = rw h.0 (Subset-check_leaders members leaders h.1)

  -- `with_leader_set` accepts a leader set only if all of it is in the quorum, and makes a view that has
  -- the quorum and the leader set that it is given.
  pub with_leader_set-Subset :
      (seq n f : ℕ) (members leaders : List ℕ) {v : ViewInfo}
      → with_leader_set a size_bytes seq n f members leaders ≡ ok v
      → Subset leaders members × (v.quorum_members ≡ members) × (v.leader_set ≡ leaders)
  unfolding with_leader_set
  with_leader_set-Subset seq n f members leaders h =
      ground (arith, check_leaders-Subset members leaders)
