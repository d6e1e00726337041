-- ===== src/Tests/Collected.antt =====
-- What is read off the collects of four replicas.
use febft.Base.{
  ℕ, ◌≡◌, refl, sym, ◌∙◌, ◌⊎◌, true, false, Option, none, some, List, [], ◌∷◌, contains, All, arith,
}
use febft.Message.{ConsensusMessageKind, pre_prepare, commit, prepare, StoredConsensusMessage}
use febft.Log.Decisions.{Proof}
use febft.ViewChange.Collects.Backed.{IsBacked}
use febft.ViewChange.Messages.{CollectData, StoredMessage}
use febft.ViewChange.Sound.{sound, binds, is_unbound}
use febft.ViewChange.Sound.Search.{sound_searches}
use febft.ViewChange.Sound.Kept.{Collected, Reports, data_of, sound_keeps_decided}
use febft.ViewChange.Collects.{collect_data, last_proofs, highest_proof}
use febft.ViewChange.Collects.Highest.{Beaten, highest_proof_lem}
use febft.ViewChange.Finalize.{or_zero}
use febft.ViewChange.Synchronizer.{value, bound, unbound}
use febft.Tests.Concrete.{atlas}
use mathlib.Core.List.{Memᴰ}
use febft.Tests.Replicas.{order_laws, view, in_order, signatures, collected}

-- A collect of the instance 6, with `value` prepared in the view `ts`.
abbrev prepared_in : ℕ → ℕ → CollectData
prepared_in ts value = record {
  incomplete_proof = record {
    in_exec = 6;
    write_set = record { view = ts; digest = value } ∷ [];
    quorum_prepares = some (record { view = ts; digest = value });
  };
  last_proof = none;
}

abbrev three_collects : List Collected
three_collects =
    (0, some (prepared_in 1 7)) ∷ (1, some (prepared_in 1 7)) ∷ (2, some (prepared_in 1 7)) ∷ []

sound_searches_example :
    ((value : ℕ) × (ts : ℕ) × (sound atlas in_order view (data_of three_collects) ≡ bound value)
      × (binds atlas view ts value (data_of three_collects) ≡ true))
    ⊎ ((sound atlas in_order view (data_of three_collects)
          ≡ unbound (is_unbound atlas view (data_of three_collects)))
        × ((ts value : ℕ) → binds atlas view ts value (data_of three_collects) ≡ false))
sound_searches_example = sound_searches atlas view (data_of three_collects) in_order (λ xs x. refl)

report :
    (x : ℕ)
    → contains (3 ∷ []) x ≡ false
    → Reports atlas (3 ∷ []) (0 ∷ 1 ∷ 2 ∷ []) 1 7 x (prepared_in 1 7)
report x correct = record {
  locked = λ _ _. (refl, refl);
  later = λ _. (λ _. refl, tt);
  once = λ faulty ts other. let clash : true ≡ false = sym faulty ∙ correct in cc;
}

abbrev bound_value : ℕ
bound_value = or_zero (value (sound atlas in_order view (data_of three_collects)))

three_bind : sound atlas in_order view (data_of three_collects) ≡ bound bound_value
unfolding sound binds value
three_bind = refl

sound_keeps_decided_example : bound_value ≡ 7
sound_keeps_decided_example =
    sound_keeps_decided atlas (3 ∷ []) (0 ∷ 1 ∷ 2 ∷ []) 1 7 order_laws view (0 ∷ 1 ∷ 2 ∷ 3 ∷ [])
      three_collects (refl, (refl, (refl, tt))) (refl, (refl, (refl, tt)))
      (refl, (refl, (refl, tt))) (refl, (refl, (refl, tt))) (omega arith) (omega arith)
      (report 0 refl, (report 1 refl, (report 2 refl, tt))) in_order (λ xs x. refl) bound_value
      three_bind

-- Two replicas hold proofs of the instances 4 and 5, each with a quorum of votes.
abbrev vote : ConsensusMessageKind → ℕ → ℕ → StoredConsensusMessage
vote kind seq node = record {
  from = node;
  digest = 70;
  message = record { seq = seq; view = 1; nonce = 0; kind = kind };
}

abbrev votes : ConsensusMessageKind → ℕ → List StoredConsensusMessage
votes kind seq = vote kind seq 0 ∷ vote kind seq 1 ∷ vote kind seq 2 ∷ []

abbrev proof_of : ℕ → Proof
proof_of seq = record {
  metadata = record {
    seq_no = seq;
    batch_digest = 44;
    pre_prepare_ordering = 70 ∷ [];
    contained_client_rqs = 0;
  };
  pre_prepares = vote (pre_prepare []) seq 1 ∷ [];
  prepares = votes (prepare 44) seq;
  commits = votes (commit 44) seq;
}

abbrev or_no_data : Option (List CollectData) → List CollectData
or_no_data none = []
or_no_data (some cs) = cs

abbrev with_proofs : List StoredMessage
with_proofs = collected (some (proof_of 4)) 0 ∷ collected (some (proof_of 5)) 3 ∷ []

abbrev data_collected : List CollectData
data_collected = or_no_data (collect_data with_proofs)

collects_read : collect_data with_proofs ≡ some data_collected
unfolding collect_data
collects_read = refl

highest_proof_lem_example :
    ((highest_proof signatures atlas view with_proofs ≡ some none)
      × All (λ p. ¬ IsBacked signatures view p) (last_proofs data_collected))
    ⊎ ((best : Proof) × (highest_proof signatures atlas view with_proofs ≡ some (some best))
        × Memᴰ best (last_proofs data_collected)
        × IsBacked signatures view best
        × All (Beaten signatures view best) (last_proofs data_collected))
highest_proof_lem_example =
    highest_proof_lem signatures atlas order_laws view with_proofs data_collected collects_read
