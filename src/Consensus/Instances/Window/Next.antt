-- ===== src/Consensus/Instances/Window/Next.antt =====
-- `Consensus::next_instance` of febft-pbft-consensus/src/bft/consensus/mod.rs, and the window of the
-- instances.
use febft.Base.{
  subst, ℕ, ◌<◌, ◌≡◌, refl, sym, ◌∙◌, ap, some, not, ◌&&◌, Bool-cases, inl, inr, List, [], ◌∷◌,
  length, length-append, arith,
}
use febft.Atlas.{Atlas, SeqLaws, advance}
use febft.Node.{Action}
use febft.View.{ViewInfo}
use febft.Consensus.Decision.{MessageQueue, is_signalled, ConsensusDecision, init_with_msg_log}
use febft.Consensus.TboQueue.{Tbo, advance_queue}
use febft.Consensus.Instances.{Consensus, enqueue_decision, recover, next_instance, seq_after}
use febft.Consensus.Instances.Window.{List-cases, Numbered, Window, Numbered-append, Numbered-last}

module _ (a : Atlas) (tbo : Tbo) (laws : SeqLaws a) where
  recover-same :
      (c : Consensus) (q : MessageQueue)
      → ((recover a tbo c q).0.decisions ≡ c.decisions)
        × ((recover a tbo c q).0.seq_no ≡ c.seq_no)
        × ((recover a tbo c q).0.watermark ≡ c.watermark)
        × ((recover a tbo c q).0.tbo_queue ≡ c.tbo_queue)
  unfolding recover
  recover-same c q = elim (Bool-cases (not (is_signalled q) && c.is_recovering)) [
    | inl e ↦ rw (e, recover) (refl, refl, refl, refl)
    | inr e ↦ rw (e, recover) (refl, refl, refl, refl)
  ]

  seq_after-Numbered :
      (s : ℕ) (ds : List ConsensusDecision)
      → Numbered a s ds
      → seq_after a.next s ds ≡ advance a (length ds) s
  seq_after-Numbered s [] n = refl
  seq_after-Numbered s (d ∷ ds) n = Numbered-last a s d ds n

  -- The instances behind the first, with a new one at the end.
  abbrev recovered : Consensus → List ConsensusDecision → Consensus × List Action
  recovered c ds =
      recover a tbo
        (record c {
          decisions = ds;
          seq_no = a.next c.seq_no;
          tbo_queue = (advance_queue a tbo c.tbo_queue).0;
        })
        (advance_queue a tbo c.tbo_queue).1

  abbrev moved : Consensus → List ConsensusDecision → Consensus
  moved c ds = (recovered c ds).0

  abbrev novel : Consensus → List ConsensusDecision → ViewInfo → ConsensusDecision
  novel c ds view =
      init_with_msg_log (moved c ds).node_id (seq_after a.next (a.next c.seq_no) ds) view
        (advance_queue a tbo c.tbo_queue).1

  moved-Window :
      (c : Consensus) (view : ViewInfo) (d : ConsensusDecision) (ds : List ConsensusDecision)
      → Window a c
      → c.decisions ≡ d ∷ ds
      → Window a (enqueue_decision (moved c ds) (novel c ds view))
        × (d.seq ≡ c.seq_no)
        × ((enqueue_decision (moved c ds) (novel c ds view)).seq_no ≡ a.next c.seq_no)
  unfolding enqueue_decision init_with_msg_log advance_queue
  moved-Window c view d ds w e =
      let (same_ds, same_seq, same_mark, same_tbo) =
        recover-same
          (record c {
            decisions = ds;
            seq_no = a.next c.seq_no;
            tbo_queue = (advance_queue a tbo c.tbo_queue).0;
          })
          (advance_queue a tbo c.tbo_queue).1 in
      let numbered : Numbered a c.seq_no (d ∷ ds) = subst (Numbered a c.seq_no) e w.numbered in
      (
        record {
          numbered =
              rw (same_ds, same_seq)
                (Numbered-append a (a.next c.seq_no) ds (novel c ds view) numbered.1
                  (seq_after-Numbered (a.next c.seq_no) ds numbered.1));
          full =
              rw (same_ds, same_mark)
                (omega (arith, length-append ds (novel c ds view ∷ []), w.full, ap length e));
          follows = ap (λ q. q.curr_seq) same_tbo ∙ (ap a.next w.follows ∙ sym same_seq);
        },
        numbered.0,
        same_seq,
      )

  -- Moving on takes the first instance, which has the current sequence number, and keeps the
  -- instances in place from the next number on.
  pub next_instance-Window :
      (c : Consensus) (view : ViewInfo)
      → Window a c
      → 0 < c.watermark
      → (e : Consensus) × (d : ConsensusDecision) × (actions : List Action) × (next_instance a tbo c
            view
          ≡ some (e, d, actions))
        × Window a e
        × (d.seq ≡ c.seq_no)
        × (e.seq_no ≡ a.next c.seq_no)
  unfolding next_instance
  next_instance-Window c view w h = elim (List-cases c.decisions) [
    | inl e ↦ let absurd : ⊥ = omega (arith, w.full, ap length e, h) in elim absurd [ ]
    | inr (d, ds, e) ↦
        let (window, head, seq) = moved-Window c view d ds w e in
        (
          enqueue_decision (moved c ds) (novel c ds view),
          d,
          (recovered c ds).1,
          rw (e, next_instance) refl,
          window,
          head,
          seq,
        )
  ]
