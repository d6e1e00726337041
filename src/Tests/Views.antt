-- ===== src/Tests/Views.antt =====
-- Views of four nodes, with digests of one byte.
use febft.Base.{ℕ, ◌≡◌, ◌≢◌, refl, ◌++◌, true, List, [], ◌∷◌, length, contains, ok, arith}
use febft.Base.Pigeonhole.{Subset}
use febft.View.{
  ViewInfo, Slice, leader, last_hash, divide_hash_space, calculate_hash_space_division, new,
  from_quorum, next_view, next_view_with_new_node, with_leader_set, targets,
}
use febft.View.HashSpace.{hits, responsible, one_responsible, hits-divide_hash_space}
use febft.View.Leaders.{LedBy, new_round_robin, from_quorum_member_leads}
use febft.View.Members.{next_view-members, next_view_with_new_node-members, with_leader_set-Subset}
use febft.Tests.Concrete.{atlas, bytes_laws, params_laws}

abbrev two_leaders : List ℕ
two_leaders = 3 ∷ 5 ∷ []

nonempty : two_leaders ≢ []
nonempty e = cc

one_responsible_example :
    (division : List (ℕ × Slice)) × (calculate_hash_space_division atlas 1 two_leaders
      ≡ ok division)
    × (responsible atlas bytes_laws 200 division two_leaders ≡ 1)
one_responsible_example =
    one_responsible atlas bytes_laws 200 1 two_leaders nonempty (refl, (refl, tt)) (omega arith)

hits-divide_hash_space_example :
    (slices : List Slice) × (divide_hash_space atlas 1 3 ≡ ok slices)
    × (length slices ≡ 3)
    × (hits atlas bytes_laws 85 slices ≡ 1)
hits-divide_hash_space_example =
    hits-divide_hash_space atlas bytes_laws 85 1 3 (omega arith) (omega arith)

new_round_robin_example :
    (v : ViewInfo) × (new atlas 1 6 4 1 ≡ ok v)
    × LedBy atlas bytes_laws 1 6 (targets 4) 2 v
    × (v.params ≡ record { n = 4; f = 1; quorum = 3 })
new_round_robin_example =
    new_round_robin atlas bytes_laws 1 params_laws 6 4 1 (record { n = 4; f = 1; quorum = 3 })
      (omega arith) (omega arith) refl

abbrev joined : List ℕ
joined = 4 ∷ 7 ∷ 9 ∷ 2 ∷ []

from_quorum_member_leads_example :
    (x : ℕ) × (v : ViewInfo) × (from_quorum atlas 1 5 joined ≡ ok v)
    × LedBy atlas bytes_laws 1 5 joined x v
    × (contains joined x ≡ true)
from_quorum_member_leads_example =
    from_quorum_member_leads atlas bytes_laws 1 params_laws 5 joined
      (record { n = 4; f = 1; quorum = 3 }) (omega arith) refl

abbrev view_of_joined : ViewInfo
view_of_joined = record {
  seq = 5;
  quorum_members = joined;
  leader_set = 7 ∷ [];
  leader_hash_space_division = (7, (0 ∷ [], 255 ∷ [])) ∷ [];
  params = record { n = 4; f = 1; quorum = 3 };
}

abbrev view_after : ViewInfo
view_after = record {
  seq = 6;
  quorum_members = 0 ∷ 1 ∷ 2 ∷ 3 ∷ [];
  leader_set = 2 ∷ [];
  leader_hash_space_division = (2, (0 ∷ [], 255 ∷ [])) ∷ [];
  params = record { n = 4; f = 1; quorum = 3 };
}

next_view_after : next_view atlas 1 view_of_joined ≡ ok view_after
unfolding next_view new febft.View.with_members febft.View.push_leaders
    calculate_hash_space_division divide_hash_space febft.View.slices_for_leaders
    febft.View.divide_from
next_view_after = refl

next_view-members_example : (view_after.seq ≡ 6) × (view_after.quorum_members ≡ targets 4)
next_view-members_example = next_view-members atlas 1 view_of_joined view_after next_view_after

abbrev view_with_node : ViewInfo
view_with_node = record {
  seq = 6;
  quorum_members = 4 ∷ 7 ∷ 9 ∷ 2 ∷ 8 ∷ [];
  leader_set = 7 ∷ [];
  leader_hash_space_division = (7, (0 ∷ [], 255 ∷ [])) ∷ [];
  params = record { n = 5; f = 1; quorum = 3 };
}

next_view_with_node : next_view_with_new_node atlas 1 view_of_joined 8 ≡ ok view_with_node
unfolding next_view_with_new_node from_quorum febft.View.with_members febft.View.push_leaders
    calculate_hash_space_division divide_hash_space febft.View.slices_for_leaders
    febft.View.divide_from
next_view_with_node = refl

next_view_with_new_node-members_example :
    (view_with_node.seq ≡ 6) × (view_with_node.quorum_members ≡ joined ++ 8 ∷ [])
next_view_with_new_node-members_example =
    next_view_with_new_node-members atlas 1 view_of_joined view_with_node 8 next_view_with_node

abbrev led_by_two : ViewInfo
led_by_two = record {
  seq = 5;
  quorum_members = joined;
  leader_set = 7 ∷ 2 ∷ [];
  leader_hash_space_division = (7, (0 ∷ [], 127 ∷ [])) ∷ (2, (128 ∷ [], 255 ∷ [])) ∷ [];
  params = record { n = 4; f = 1; quorum = 3 };
}

led_by_two_made : with_leader_set atlas 1 5 4 1 joined (7 ∷ 2 ∷ []) ≡ ok led_by_two
unfolding with_leader_set febft.View.check_leaders calculate_hash_space_division divide_hash_space
    febft.View.slices_for_leaders febft.View.divide_from
led_by_two_made = refl

with_leader_set-Subset_example :
    Subset (7 ∷ 2 ∷ []) joined
    × (led_by_two.quorum_members ≡ joined)
    × (led_by_two.leader_set ≡ 7 ∷ 2 ∷ [])
with_leader_set-Subset_example =
    with_leader_set-Subset atlas 1 5 4 1 joined (7 ∷ 2 ∷ []) led_by_two_made
