-- ===== src/Consensus/TboQueue.antt =====
-- `TboQueue` of febft-pbft-consensus/src/bft/consensus/mod.rs: messages of instances past the
-- watermark. The three calls into atlas_core's `tbo` module are parameters.
use febft.Base.{ℕ, Bool, true, false, Option, none, some, List, []}
use febft.Atlas.{Atlas}
use febft.Message.{
  StoredConsensusMessage, ConsensusMessageKind, pre_prepare, prepare, commit, kind_of, seq_of,
}
use febft.Consensus.Decision.{MessageQueue, from_messages}

abbrev pub Queues : Type 0
Queues = List (List StoredConsensusMessage)

-- `tbo_queue_message_arc`, `tbo_advance_message_queue` and `tbo_advance_message_queue_return`.
pub record Tbo : Type 0 where
  pub queue_message : ℕ → Queues → ℕ × StoredConsensusMessage → Queues
  pub advance : Queues → Queues
  pub advance_return : Queues → Queues × Option (List StoredConsensusMessage)

pub record TboQueue : Type 0 where
  pub curr_seq : ℕ
  pub watermark : ℕ
  pub get_queue : Bool
  pub pre_prepares : Queues
  pub prepares : Queues
  pub commits : Queues

unfoldable pub new_tbo : ℕ → ℕ → TboQueue
new_tbo curr_seq watermark = record {
  curr_seq = curr_seq;
  watermark = watermark;
  get_queue = false;
  pre_prepares = [];
  prepares = [];
  commits = [];
}

unfoldable pub signal_tbo : TboQueue → TboQueue
signal_tbo q = record q { get_queue = true }

unfoldable pub clear_tbo : TboQueue → TboQueue
clear_tbo q = record q { get_queue = false; pre_prepares = []; prepares = []; commits = [] }

abbrev pub or_default : Option (List StoredConsensusMessage) → List StoredConsensusMessage
or_default none = []
or_default (some ms) = ms

module _ (a : Atlas) (tbo : Tbo) where
  unfoldable pub base_seq : TboQueue → ℕ
  base_seq q = a.plus q.curr_seq q.watermark

  unfoldable pub advance_queue : TboQueue → TboQueue × MessageQueue
  unfolding from_messages
  advance_queue q =
      let (pre_prepares, pps) = tbo.advance_return q.pre_prepares in
      let (prepares, ps) = tbo.advance_return q.prepares in
      let (commits, cs) = tbo.advance_return q.commits in
      (
        record q {
          curr_seq = a.next q.curr_seq;
          pre_prepares = pre_prepares;
          prepares = prepares;
          commits = commits;
        },
        from_messages (or_default pps) (or_default ps) (or_default cs),
      )

  unfoldable pub next_instance_queue : TboQueue → TboQueue
  next_instance_queue q = record q {
    curr_seq = a.next q.curr_seq;
    pre_prepares = tbo.advance q.pre_prepares;
    prepares = tbo.advance q.prepares;
    commits = tbo.advance q.commits;
  }

  queue_kind : TboQueue → ConsensusMessageKind → StoredConsensusMessage → TboQueue
  unfolding base_seq
  queue_kind q (pre_prepare rqs) m = record q {
    pre_prepares = tbo.queue_message (base_seq q) q.pre_prepares (seq_of m, m);
  }
  queue_kind q (prepare d) m = record q {
    prepares = tbo.queue_message (base_seq q) q.prepares (seq_of m, m);
  }
  queue_kind q (commit d) m = record q {
    commits = tbo.queue_message (base_seq q) q.commits (seq_of m, m);
  }

  unfoldable pub queue : TboQueue → StoredConsensusMessage → TboQueue
  unfolding queue_kind
  queue q m = queue_kind q (kind_of m) m
