-- ===== src/Consensus/Instances/Views.antt =====
-- `Consensus::install_view` of febft-pbft-consensus/src/bft/consensus/mod.rs, and the window of the
-- instances.
use febft.Base.{ℕ, zero, suc, refl, ◌∙◌, ap, List, [], ◌∷◌, arith}
use febft.Atlas.{Atlas, Index, left, right, SeqLaws}
use febft.Message.{StoredConsensusMessage}
use febft.View.{ViewInfo}
use febft.Consensus.Guard.{install_view_guard}
use febft.Consensus.TboQueue.{Tbo, clear_tbo}
use febft.Consensus.Instances.{Consensus, clear_all_queues, init_rounds, queue}
use febft.Consensus.Instances.Install.{
  drop, queue_all, queued_for, enter_view, view_at, install_view,
}
use febft.Consensus.Instances.Window.{Window, Grown-Window, init_rounds-Grown}
use febft.Consensus.Instances.Routing.{queue-Window}

module _ (a : Atlas) (tbo : Tbo) (laws : SeqLaws a) where
  queue_all-Window :
      (c : Consensus) (ms : List StoredConsensusMessage)
      → Window a c
      → Window a (queue_all (queue a tbo) c ms)
  queue_all-Window c [] w = w
  queue_all-Window c (m ∷ ms) w =
      queue_all-Window (queue a tbo c m) ms (queue-Window a tbo laws c m w)

  enter_view-Window :
      (c : Consensus) (view : ViewInfo) (k : ℕ) → Window a c → Window a (enter_view a tbo c view k)
  unfolding enter_view clear_all_queues clear_tbo
  enter_view-Window c view k w =
      let (g, same) =
        init_rounds-Grown a tbo laws c.watermark c.seq_no cleared c.seq_no view tt refl in
      let window =
        Grown-Window a tbo laws c.watermark cleared filled (omega arith) g
          (ap (λ q. q.curr_seq) same ∙ w.follows) in
      queue_all-Window (record filled { view_queue = drop 1 (drop k filled.view_queue) })
        (queued_for (drop k filled.view_queue))
        (record { numbered = window.numbered; full = window.full; follows = window.follows })
    where
      cleared : Consensus
      cleared = clear_all_queues (record c {
        curr_view = view;
        consensus_guard = install_view_guard c.consensus_guard view;
      })

      filled : Consensus
      filled = init_rounds a tbo c.watermark cleared c.seq_no view

  view_at-Window :
      (c : Consensus) (view : ViewInfo) (i : Index) → Window a c → Window a (view_at a tbo c view i)
  view_at-Window c view left w = w
  view_at-Window c view (right zero) w = w
  view_at-Window c view (right (suc k)) w = enter_view-Window c view k w

  -- Installing a view, whichever it is and whatever messages wait for it, keeps the instances in
  -- place.
  pub install_view-Window :
      (c : Consensus) (view : ViewInfo) → Window a c → Window a (install_view a tbo c view)
  unfolding install_view
  install_view-Window c view w = view_at-Window c view (a.index view.seq c.curr_view.seq) w
