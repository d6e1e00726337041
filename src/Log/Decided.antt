-- ===== src/Log/Decided.antt =====
-- febft-pbft-consensus/src/bft/log/decided/mod.rs: the last decision.
use febft.Base.{ℕ, Option, none, some}
use febft.Log.Decisions.{Proof}

pub record DecisionLog : Type 0 where
  pub last_decision : Option Proof

unfoldable pub init : Option Proof → DecisionLog
init last_proof = record { last_decision = last_proof }

unfoldable pub install_proof : DecisionLog → Proof → DecisionLog
install_proof l proof = record l { last_decision = some proof }

unfoldable pub append_proof : DecisionLog → Proof → DecisionLog
append_proof l proof = record l { last_decision = some proof }

unfoldable pub last_execution : DecisionLog → Option ℕ
last_execution l = elim l.last_decision [ none ↦ none | some p ↦ some p.metadata.seq_no ]

-- `SeqNo::ZERO` where nothing is decided.
unfoldable pub sequence_number : DecisionLog → ℕ
sequence_number l = elim l.last_decision [ none ↦ 0 | some p ↦ p.metadata.seq_no ]
