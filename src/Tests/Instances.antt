-- ===== src/Tests/Instances.antt =====
-- A replica with a watermark of three, which moves on, jumps ahead and goes back.
use febft.Base.{length, ℕ, ◌≡◌, refl, ◌<◌, List, [], ◌∷◌, some, get_elem?, arith}
use febft.Node.{Action}
use febft.Message.{StoredConsensusMessage, prepare, view_of, seq_of}
use febft.View.{ViewInfo}
use febft.Sync.{SynchronizerAccessory}
use febft.Consensus.Decision.{ConsensusDecision}
use febft.Consensus.Decision.Process.{Env}
use febft.Consensus.Guard.{ProposerConsensusGuard, new_guard}
use febft.Consensus.Instances.{Consensus, instance_at, new_replica, next_instance, place}
use febft.Consensus.Instances.Install.{install_sequence_number, install_view}
use febft.Consensus.Instances.Window.{Numbered, Window, new_replica-Window}
use febft.Consensus.Instances.Window.Next.{next_instance-Window}
use febft.Consensus.Instances.Moves.{install_sequence_number-Window}
use febft.Consensus.Instances.Routing.{place-instance_at}
use febft.Consensus.Instances.Views.{install_view-Window}
use febft.Base.{◌≢◌, err}
use febft.Consensus.Instances.Poll.{poll, out_of_fuel, poll_ends}
use febft.Tests.Concrete.{atlas, seq_laws, tbo}

abbrev pub led_by : ℕ → ℕ → ViewInfo
led_by seq node = record {
  seq = seq;
  quorum_members = 0 ∷ 1 ∷ 2 ∷ 3 ∷ [];
  leader_set = node ∷ [];
  leader_hash_space_division = (node, (0 ∷ [], 255 ∷ [])) ∷ [];
  params = record { n = 4; f = 1; quorum = 3 };
}

abbrev pub guard : ProposerConsensusGuard
guard = new_guard (led_by 1 1)

abbrev pub three : Consensus
three = new_replica atlas tbo 0 (led_by 1 1) 6 3 guard

pub three-Window : Window atlas three
three-Window =
    let (_, _, _, _, window) = new_replica-Window atlas tbo seq_laws 0 (led_by 1 1) 6 3 guard in
    window

new_replica-Window_example :
    Numbered atlas 6 three.decisions
    × (length three.decisions ≡ 3)
    × (three.seq_no ≡ 6)
    × (three.watermark ≡ 3)
    × Window atlas three
new_replica-Window_example = new_replica-Window atlas tbo seq_laws 0 (led_by 1 1) 6 3 guard

pub some_instances : 0 < three.watermark
unfolding new_replica
some_instances = omega arith

next_instance-Window_example :
    (e : Consensus) × (d : ConsensusDecision) × (actions : List Action) × (next_instance atlas tbo
        three
        (led_by 1 1)
      ≡ some (e, d, actions))
    × Window atlas e
    × (d.seq ≡ three.seq_no)
    × (e.seq_no ≡ atlas.next three.seq_no)
next_instance-Window_example =
    next_instance-Window atlas tbo seq_laws three (led_by 1 1) three-Window some_instances

install_sequence_number-Window_example :
    (e : Consensus) × (install_sequence_number atlas tbo three 20 (led_by 1 1) ≡ some e)
    × Window atlas e
    × (e.seq_no ≡ 20)
    × (e.watermark ≡ three.watermark)
install_sequence_number-Window_example =
    install_sequence_number-Window atlas tbo seq_laws three 20 (led_by 1 1) three-Window
      some_instances

abbrev vote : StoredConsensusMessage
vote = record {
  from = 2;
  digest = 70;
  message = record { seq = 8; view = 1; nonce = 0; kind = prepare 44 };
}

vote_placed : place atlas tbo three vote ≡ instance_at 2
unfolding place new_replica
vote_placed = refl

place-instance_at_example :
    (view_of vote ≡ three.curr_view.seq)
    × ((d : ConsensusDecision) × (get_elem? three.decisions 2 ≡ some d) × (d.seq ≡ seq_of vote))
place-instance_at_example = place-instance_at atlas tbo seq_laws three vote three-Window vote_placed

abbrev env : Env
env = record {
  view = led_by 1 1;
  synchronizer = SynchronizerAccessory.replica;
  nonces = record { for_prepare = 8; for_commit = 9 };
}

install_view-Window_example : Window atlas (install_view atlas tbo three (led_by 3 3))
install_view-Window_example = install_view-Window atlas tbo seq_laws three (led_by 3 3) three-Window

poll_ends_example : poll atlas three ≢ err out_of_fuel
poll_ends_example = poll_ends atlas three
