-- ===== src/ViewChange/Runs/Joining.antt =====
-- When a replica of febft-pbft-consensus/src/bft/sync/mod.rs leaves its view for one with a node more.
use mathlib.Core.List.{Memᴰ}
use febft.Base.{List}
use febft.Base.{ok, ℕ, ◌≤◌, ◌≡◌, ◌⊎◌, some, List, length, Distinct}
use febft.Atlas.{Atlas}
use febft.View.{ViewInfo}
use febft.ViewChange.Layers.{Layers, hold_stop}
use febft.ViewChange.Synchronizer.{stopping2, World}
use febft.View.{next_view_with_new_node}
use febft.ViewChange.Layers.{hold_stop}
use febft.ViewChange.Synchronizer.{
  ProtoPhase, view_stopping, view_stopping2, stopping, init, stopping_data, syncing, syncing_state,
}

-- The phases in which votes or `STOP`s are collected.
abbrev pub Waits : ProtoPhase → Type 0
Waits init = ⊥
Waits (stopping i) = Unit {0}
Waits (stopping2 i) = Unit {0}
Waits (view_stopping i) = Unit {0}
Waits (view_stopping2 i) = Unit {0}
Waits (stopping_data i) = ⊥
Waits syncing = ⊥
Waits syncing_state = ⊥

-- It goes on waiting, or a quorum of nodes has voted for one node, with which the next view is made.
abbrev pub JoinQuorum : Atlas → ℕ → World → World → ℕ → Type 0
JoinQuorum a size_bytes w w' view =
    Waits w'.synchronizer.phase
    ⊎ ((next : ViewInfo) × (node : ℕ) × (voters : List ℕ) × Memᴰ (node, voters)
          w'.synchronizer.currently_adding
        × Distinct voters
        × (w.synchronizer.tbo.view.params.quorum ≤ length voters)
        × (view ≡ a.next w.synchronizer.tbo.view.seq)
        × (next_view_with_new_node a size_bytes w.synchronizer.tbo.view node ≡ ok next)
        × (w'.synchronizer.tbo.next_view ≡ some next))

-- The phases in which votes for a node that joins are counted.
abbrev pub Votes : ProtoPhase → ℕ → Type 0
Votes phase i = (phase ≡ view_stopping i) ⊎ (phase ≡ view_stopping2 i)
