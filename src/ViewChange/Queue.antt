-- ===== src/ViewChange/Queue.antt =====
-- `TboQueue` of febft-pbft-consensus/src/bft/sync/mod.rs: the current view, the view that is being
-- installed, and the view change messages that came early. The calls into atlas_core's `tbo`
-- module are parameters.
use febft.Base.{ℕ, zero, suc, Bool, true, false, Option, none, some, List, [], ◌∷◌}
use febft.Atlas.{Atlas, Index, left, right}
use febft.View.{ViewInfo}
use febft.ViewChange.Messages.{
  StoredMessage, PbftMessage, ViewChangeMessageKind, stop_quorum_join, sequence_number,
}

abbrev pub Queues : Type 0
Queues = List (List StoredMessage)

-- `tbo_queue_message_arc`, `tbo_advance_message_queue` and `tbo_pop_message`.
pub record ViewTbo : Type 0 where
  pub queue_message : ℕ → Queues → ℕ × StoredMessage → Queues
  pub advance : Queues → Queues
  pub pop : Queues → Queues × Option StoredMessage

pub record TboQueue : Type 0 where
  pub view : ViewInfo
  pub next_view : Option ViewInfo
  pub previous_view : Option ViewInfo
  pub get_queue : Bool
  pub stop : Queues
  pub stop_data : Queues
  pub sync : Queues

unfoldable pub new : ViewInfo → TboQueue
new view = record {
  view = view;
  next_view = none;
  previous_view = none;
  get_queue = false;
  stop = [];
  stop_data = [];
  sync = [];
}

unfoldable pub install_next_view : TboQueue → ViewInfo → TboQueue
install_next_view q view = record q { next_view = some view }

unfoldable pub signal : TboQueue → TboQueue
signal q = record q { get_queue = true }

-- `front().map(|deque| !deque.is_empty()).unwrap_or(false)`
abbrev pub front_holds : Queues → Bool
front_holds [] = false
front_holds ([] ∷ qs) = false
front_holds ((m ∷ ms) ∷ qs) = true

unfoldable pub can_process_stops : TboQueue → Bool
can_process_stops q = front_holds q.stop

unfoldable pub can_process_stop_data : TboQueue → Bool
can_process_stop_data q = front_holds q.stop_data

unfoldable pub can_process_sync : TboQueue → Bool
can_process_sync q = front_holds q.sync

module _ (a : Atlas) (tbo : ViewTbo) where
  unfoldable pub next_instance_queue : TboQueue → TboQueue
  next_instance_queue q = record q {
    stop = tbo.advance q.stop;
    stop_data = tbo.advance q.stop_data;
    sync = tbo.advance q.sync;
  }

  abbrev pub advance_queues : ℕ → TboQueue → TboQueue
  advance_queues zero q = q
  advance_queues (suc count) q = advance_queues count (next_instance_queue q)

  abbrev pub install_at : TboQueue → ViewInfo → Index → Option (TboQueue × Bool)
  install_at q view left = none
  install_at q view (right zero) = some (q, false)
  install_at q view (right (suc k)) =
      some (advance_queues (suc k) (record q { view = view; previous_view = some q.view }), true)

  -- `none` is the panic of going back to an earlier view.
  unfoldable pub install_view : TboQueue → ViewInfo → Option (TboQueue × Bool)
  install_view q view = install_at q view (a.index view.seq q.view.seq)

  unfoldable pub advance : TboQueue → Option (TboQueue × Bool)
  unfolding install_view
  advance q = elim q.next_view [
    | none ↦ some (q, false)
    | some next_view ↦ install_view (record q { next_view = none }) next_view
  ]

  unfoldable pub queue_stop : TboQueue → StoredMessage → TboQueue
  queue_stop q m = record q {
    stop = tbo.queue_message (a.next q.view.seq) q.stop (sequence_number m.message, m);
  }

  unfoldable pub queue_stop_data : TboQueue → StoredMessage → TboQueue
  queue_stop_data q m = record q {
    stop_data = tbo.queue_message (a.next q.view.seq) q.stop_data (sequence_number m.message, m);
  }

  unfoldable pub queue_sync : TboQueue → StoredMessage → TboQueue
  queue_sync q m = record q {
    sync = tbo.queue_message (a.next q.view.seq) q.sync (sequence_number m.message, m);
  }

  abbrev pub queue_kind : TboQueue → ViewChangeMessageKind → StoredMessage → TboQueue
  queue_kind q (ViewChangeMessageKind.stop rqs) m = queue_stop q m
  queue_kind q (stop_quorum_join node) m = queue_stop q m
  queue_kind q (ViewChangeMessageKind.stop_data collect) m = queue_stop_data q m
  queue_kind q (ViewChangeMessageKind.sync proposed collects) m = queue_sync q m

  -- `none` is the panic on a message that is no view change message.
  unfoldable pub queue : TboQueue → StoredMessage → Option TboQueue
  queue q m = elim m.message [
    | PbftMessage.consensus c ↦ none
    | PbftMessage.view_change view kind ↦ some (queue_kind q kind m)
    | PbftMessage.observer_message o ↦ none
  ]
