-- ===== src/ViewChange/Collects.antt =====
-- What is read off the `STOP-DATA` messages of a view change, of
-- febft-pbft-consensus/src/bft/sync/mod.rs: their data, the highest proof, the data of the instance
-- in execution. The checks of signatures belong to the network and are parameters.
pub mod Backed
pub mod Highest
use febft.Base.{
  ℕ, Bool, true, false, ◌&&◌, Option, none, some, List, [], ◌∷◌, ◌==◌, if◌then◌else◌, leb,
}
use febft.Atlas.{Atlas}
use febft.Message.{ConsensusMessage, StoredConsensusMessage, has_proposed_digest}
use febft.View.{ViewInfo}
use febft.Log.Decisions.{Proof}
use febft.ViewChange.Messages.{
  Header, CollectData, PbftMessage, ViewChangeMessageKind, stop, stop_quorum_join, stop_data, sync,
  StoredMessage,
}
use febft.ViewChange.Synchronizer.{◌>>=◌}
use febft.ViewChange.Sound.{count_if}

-- `WireMessage::from_header`, `get_node_info` and `WireMessage::is_valid`; wire messages and keys
-- are known by numbers.
pub record Signatures : Type 0 where
  pub from_header : Header → Option ℕ
  pub get_node_info : ℕ → Option ℕ
  pub is_valid : ℕ → ℕ → Bool

abbrev pub or_false : Option Bool → Bool
or_false none = false
or_false (some b) = b

abbrev pub kind_data : ViewChangeMessageKind → Option CollectData
kind_data (stop rqs) = none
kind_data (stop_quorum_join node) = none
kind_data (stop_data collect) = some collect
kind_data (sync proposed collects) = none

-- What `filter_map` keeps of a message; `none` is the panic on one that is no view change message.
abbrev pub collect_of : PbftMessage → Option (Option CollectData)
collect_of (PbftMessage.consensus m) = none
collect_of (PbftMessage.view_change view kind) = some (kind_data kind)
collect_of (PbftMessage.observer_message m) = none

abbrev pub keep : Option CollectData → List CollectData → List CollectData
keep none cs = cs
keep (some c) cs = c ∷ cs

unfoldable pub collect_data : List StoredMessage → Option (List CollectData)
collect_data [] = some []
collect_data (m ∷ ms) = do
  here ← collect_of m.message
  rest ← collect_data ms
  some (keep here rest)

abbrev pub normalize : ℕ → CollectData → Option CollectData
normalize in_exec c = if c.incomplete_proof.in_exec == in_exec then some c else none

unfoldable pub normalized_collects : ℕ → List CollectData → List (Option CollectData)
normalized_collects in_exec [] = []
normalized_collects in_exec (c ∷ cs) = normalize in_exec c ∷ normalized_collects in_exec cs

-- `filter_map(|collect| collect.last_proof())`
abbrev pub last_proofs : List CollectData → List Proof
last_proofs [] = []
last_proofs (c ∷ cs) = elim c.last_proof [ none ↦ last_proofs cs | some p ↦ p ∷ last_proofs cs ]

module _ (sig : Signatures) where
  unfoldable pub validate_signature : Header → Bool
  validate_signature header = elim (sig.from_header header) [
    | none ↦ false
    | some wm ↦ elim (sig.get_node_info header.from) [
      | none ↦ false
      | some key ↦ sig.is_valid wm key
    ]
  ]

  unfoldable pub signed_collects : List StoredMessage → List StoredMessage
  unfolding validate_signature
  signed_collects [] = []
  signed_collects (m ∷ ms) =
      if validate_signature m.header then m ∷ signed_collects ms else signed_collects ms

  -- A vote of a proof, for its digest and validly signed.
  abbrev pub valid_vote : ℕ → StoredConsensusMessage → Bool
  valid_vote digest m =
      or_false (has_proposed_digest m.message digest)
      && validate_signature (record { from = m.from; digest = m.digest })

  abbrev pub valid_proof : ViewInfo → Proof → Bool
  valid_proof view p =
      leb view.params.quorum (count_if (valid_vote p.metadata.batch_digest) p.commits)
      && leb view.params.quorum (count_if (valid_vote p.metadata.batch_digest) p.prepares)

  module _ (a : Atlas) where
    -- `max_by_key`: the last one of those with the highest number.
    abbrev pub higher : Proof → Option Proof → Option Proof
    higher p none = some p
    higher p (some best) =
        if a.before best.metadata.seq_no p.metadata.seq_no then some p else some best

    -- The filter and the maximum; the proofs that follow win a tie.
    unfoldable pub highest_of : ViewInfo → List Proof → Option Proof
    highest_of view [] = none
    highest_of view (p ∷ ps) =
        let best = highest_of view ps in if valid_proof view p then higher p best else best

    unfoldable pub highest_proof : ViewInfo → List StoredMessage → Option (Option Proof)
    unfolding collect_data highest_of
    highest_proof view ms = do cs ← collect_data ms; some (highest_of view (last_proofs cs))
