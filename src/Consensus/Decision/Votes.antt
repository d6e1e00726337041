-- ===== src/Consensus/Decision/Votes.antt =====
-- The votes that an instance has counted: who sent them, and what they are for.
pub mod Kept
use febft.Base.{
  ℕ, ◌+◌, ◌≡◌, refl, ◌∙◌, subst, inl, inr, false, true, not, ◌||◌, Option, none, some, List, [],
  ◌∷◌, ◌++◌, ◌==◌, if◌then◌else◌, length, length-append, All, All-append, contains, contains-append,
  Distinct, Distinct-append, ok, err, panic, arith, Bool-cases, if-cases, not-==_false, ==_iff, ap,
  Result, Result-cases,
}
use febft.Atlas.{Atlas}
use febft.Message.{
  ClientRqInfo, Request, StoredConsensusMessage, ConsensusMessageKind, pre_prepare, prepare, commit,
  kind_of, view_of, seq_of,
}
use febft.Log.Decisions.{ProofMetadata}
use febft.Log.Deciding.{WorkingDecisionLog, DecidingLogError, process_pre_prepare}
use febft.Log.Deciding
use febft.Log.Deciding.Votes.{
  log_prepare, log_commit, process_prepare_new, process_prepare_again, process_commit_new,
  process_commit_again,
}
use febft.Consensus.Decision.{
  DecisionPhase, initialize, pre_preparing, preparing, committing, decided, ConsensusDecision, poll,
  queue,
}
use febft.Consensus.Decision.Process.{
  Env, Outcome, process_message, accept_prepare, accept_commit, count_prepare, count_commit,
  count_pre_prepare, accept_pre_prepare, complete_pre_prepare, process_pre_preparing,
  process_preparing, process_committing, process_phase,
}
use febft.Node.{Action}
use febft.Sync.{request_batch_received}
use febft.Consensus.Accessory.{handle_pre_prepare_phase_completed}
use febft.Consensus.Accessory.Total.{preparing_quorum_total}

abbrev pub senders : List StoredConsensusMessage → List ℕ
senders [] = []
senders (m ∷ ms) = m.from ∷ senders ms

-- `n` messages, all of the kind `kind` for the instance `seq` of the view `view`, from as many
-- nodes, and `nodes` are these.
pub record Tally (kind : ConsensusMessageKind) (seq view : ℕ) (nodes : List ℕ)
    (log : List StoredConsensusMessage) (n : ℕ) : Type 0 where
  pub counted : length log ≡ n
  pub same : (x : ℕ) → contains (senders log) x ≡ contains nodes x
  pub distinct : Distinct (senders log)
  pub matching : All (λ m. (kind_of m ≡ kind) × (seq_of m ≡ seq) × (view_of m ≡ view)) log

senders-append :
    (ms : List StoredConsensusMessage) (m : StoredConsensusMessage)
    → senders (ms ++ m ∷ []) ≡ senders ms ++ m.from ∷ []
senders-append [] m = refl
senders-append (x ∷ ms) m = rw (senders-append ms m)

pub Tally-cons :
    {kind : ConsensusMessageKind} {seq view n : ℕ} {nodes : List ℕ}
    {log : List StoredConsensusMessage} (m : StoredConsensusMessage)
    → Tally kind seq view nodes log n
    → contains nodes m.from ≡ false
    → kind_of m ≡ kind
    → seq_of m ≡ seq
    → view_of m ≡ view
    → Tally kind seq view (m.from ∷ nodes) (log ++ m ∷ []) (n + 1)
Tally-cons {nodes = nodes} {log = log} m t new k s v = record {
  counted = omega (arith, length-append log (m ∷ []), t.counted);
  same = λ x.
      rw (senders-append log m, contains-append (senders log) m.from x) (ground (arith, t.same x));
  distinct =
      rw (senders-append log m)
        (Distinct-append (senders log) m.from t.distinct (t.same m.from ∙ new));
  matching = All-append _ log (m ∷ []) t.matching ((k, s, v), tt);
}

-- A batch touches none of the votes, and with the last one the digest is set.
pub record SameVotes (l l' : WorkingDecisionLog) : Type 0 where
  pub prepares : l'.message_log.prepares ≡ l.message_log.prepares
  pub commits : l'.message_log.commits ≡ l.message_log.commits
  pub prepared :
      l'.duplicate_detection.received_prepare_messages
      ≡ l.duplicate_detection.received_prepare_messages
  pub committed :
      l'.duplicate_detection.received_commit_messages
      ≡ l.duplicate_detection.received_commit_messages

pub process_pre_prepare-SameVotes :
    (a : Atlas) (l : WorkingDecisionLog) (m : StoredConsensusMessage) (rqs : List ClientRqInfo)
    → SameVotes l (process_pre_prepare a l m rqs).0
unfolding process_pre_prepare
process_pre_prepare-SameVotes a l m rqs = ground arith

pub process_pre_prepare-digest :
    (a : Atlas) (l : WorkingDecisionLog) (m : StoredConsensusMessage) (rqs : List ClientRqInfo)
    (metadata : ProofMetadata)
    → (process_pre_prepare a l m rqs).1 ≡ ok (some metadata)
    → (process_pre_prepare a l m rqs).0.batch_digest ≡ some metadata.batch_digest
unfolding process_pre_prepare
process_pre_prepare-digest a l m rqs metadata e = ground arith

abbrev pub Prepared : ℕ → ℕ → ℕ → WorkingDecisionLog → ℕ → Type 0
Prepared digest seq view l n =
    Tally (prepare digest) seq view l.duplicate_detection.received_prepare_messages
      l.message_log.prepares n

abbrev pub Committed : ℕ → ℕ → ℕ → WorkingDecisionLog → ℕ → Type 0
Committed digest seq view l n =
    Tally (commit digest) seq view l.duplicate_detection.received_commit_messages
      l.message_log.commits n

-- No vote has been counted.
pub record NoVotes (l : WorkingDecisionLog) : Type 0 where
  pub prepares : l.message_log.prepares ≡ []
  pub commits : l.message_log.commits ≡ []
  pub prepared : l.duplicate_detection.received_prepare_messages ≡ []
  pub committed : l.duplicate_detection.received_commit_messages ≡ []

-- What the phase says of the votes in the log `l`, with `quorum` votes to pass a phase.
abbrev pub Holds : ℕ → ℕ → ℕ → WorkingDecisionLog → DecisionPhase → Type 0
Holds quorum seq view l initialize = NoVotes l
Holds quorum seq view l (pre_preparing n) = NoVotes l
Holds quorum seq view l (preparing n) =
    (digest : ℕ) × (l.batch_digest ≡ some digest)
    × Prepared digest seq view l n
    × Committed digest seq view l 0
Holds quorum seq view l (committing n) =
    (digest : ℕ) × (l.batch_digest ≡ some digest)
    × Prepared digest seq view l quorum
    × Committed digest seq view l n
Holds quorum seq view l decided =
    (digest : ℕ) × (l.batch_digest ≡ some digest)
    × Prepared digest seq view l quorum
    × Committed digest seq view l quorum

-- The instance `d`, in the view of `env`.
abbrev pub Valid : Env → ConsensusDecision → Type 0
Valid env d = Holds env.view.params.quorum d.seq env.view.seq d.working_log d.phase

pub no-Tally :
    (kind : ConsensusMessageKind) (seq view : ℕ) (nodes : List ℕ)
    (log : List StoredConsensusMessage)
    → nodes ≡ []
    → log ≡ []
    → Tally kind seq view nodes log 0
no-Tally kind seq view nodes log e f =
    rw (e, f) (record { counted = refl; same = λ x. refl; distinct = tt; matching = tt })

abbrev pub ValidAfter : Env → Outcome → Type 0
ValidAfter env o = Valid env o.0
