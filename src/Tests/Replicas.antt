-- ===== src/Tests/Replicas.antt =====
-- Four replicas that may change their view, and what the layers below give them.
use febft.Base.{ℕ, refl, true, Option, none, some, List, [], ◌∷◌}
use febft.Message.{Request}
use febft.View.{ViewInfo}
use febft.Log.Decisions.{Proof}
use febft.Log.Install.{initialize_decided_log}
use febft.ViewChange.Messages.{Header, view_change, stop_data, StoredMessage}
use febft.ViewChange.Queue.{ViewTbo, Queues}
use febft.ViewChange.Layers.{Layers}
use febft.ViewChange.Sound.Kept.{OrderLaws}
use febft.ViewChange.Collects.{Signatures}
use febft.ViewChange.Runs.{Counted}
use febft.ViewChange.Synchronizer.{SynchronizerStatus, World, new_replica}
use febft.Tests.Concrete.{atlas}
use febft.Tests.Instances.{led_by, three}

abbrev pub order_laws : OrderLaws atlas
order_laws = record { before_lt = λ s t. refl }

abbrev pub view : ViewInfo
view = led_by 1 1

abbrev pub in_order : List ℕ → List ℕ
in_order xs = xs

abbrev pub view_tbo : ViewTbo
view_tbo = record {
  queue_message = λ base queues m. to_first queues m.1;
  advance = next_queue;
  pop = pop;
}
  where
    to_first : Queues → StoredMessage → Queues
    to_first [] m = (m ∷ []) ∷ []
    to_first (q ∷ qs) m = (m ∷ q) ∷ qs

    next_queue : Queues → Queues
    next_queue [] = []
    next_queue (q ∷ qs) = qs

    pop : Queues → Queues × Option StoredMessage
    pop [] = ([], none)
    pop ([] ∷ qs) = ([] ∷ qs, none)
    pop ((m ∷ q) ∷ qs) = (q ∷ qs, some m)

abbrev pub signatures : Signatures
signatures = record {
  from_header = λ h. some h.digest;
  get_node_info = λ node. some node;
  is_valid = λ message key. true;
}

abbrev pub layers : Layers
layers = record {
  pending_rqs = some [];
  accepts = λ rqs. true;
  serialize_digest = λ m. some 90;
  iteration = in_order;
  nonce = 5;
  nonces = record { for_prepare = 8; for_commit = 9 };
}

-- Replica 0, which has timed out, is given the `STOP`s of the others.
abbrev pub start : World
start = record {
  synchronizer = new_replica 0 view;
  consensus = three;
  log = initialize_decided_log;
  actions = [];
}

pub start-Counted : Counted start.synchronizer
unfolding new_replica
start-Counted = record {
  counted = tt;
  stoppers = tt;
  collectors = tt;
  voters = tt;
  is_replica = refl;
}

abbrev pub header : ℕ → Header
header node = record { from = node; digest = 60 }

abbrev pub or_start : Option World → World
or_start none = start
or_start (some w) = w

abbrev pub or_idle : Option (World × SynchronizerStatus) → World × SynchronizerStatus
or_idle none = (start, SynchronizerStatus.nil)
or_idle (some r) = r

-- The requests that a replica stops: those that have timed out on it, and those of node 2.
abbrev pub request : ℕ → Request
request digest = record {
  info = record { digest = digest; sender = 100; session = 1; seq_no = digest };
  body = digest;
}

abbrev pub collected : Option Proof → ℕ → StoredMessage
collected last_proof node = record {
  header = header node;
  message = view_change 2 (
      stop_data (record {
        incomplete_proof = record { in_exec = 0; write_set = []; quorum_prepares = none };
        last_proof = last_proof;
      }));
}
