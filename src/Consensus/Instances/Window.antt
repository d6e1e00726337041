-- ===== src/Consensus/Instances/Window.antt =====
-- The window of the instances of `Consensus`, of febft-pbft-consensus/src/bft/consensus/mod.rs: which
-- numbers they have, and where the queue of later messages begins.
pub mod Next
use febft.Base.{
  subst, ℕ, zero, suc, ◌+◌, ◌<◌, ◌≡◌, refl, sym, ◌∙◌, ap, some, false, not, ◌&&◌, Bool-cases, ◌⊎◌,
  inl, inr, List, [], ◌∷◌, ◌++◌, length, length-append, arith,
}
use febft.Atlas.{Atlas, SeqLaws, advance}
use febft.Node.{Action}
use febft.View.{ViewInfo}
use febft.Consensus.Decision.{
  MessageQueue, is_signalled, ConsensusDecision, init_decision, init_with_msg_log,
}
use febft.Consensus.Guard.{ProposerConsensusGuard, new_signals}
use febft.Consensus.TboQueue.{Tbo, advance_queue, new_tbo}
use febft.Consensus.Instances.{
  Consensus, enqueue_decision, last_seq, init_rounds, new_replica, recover, next_instance,
  seq_after,
}
use febft.Consensus.Instances.Install.{advance_one, advance_rounds}

pub List-cases {ℓ} :
    {A : Type ℓ} (xs : List A) → (xs ≡ []) ⊎ ((x : A) × (ys : List A) × (xs ≡ x ∷ ys))
List-cases [] = inl refl
List-cases (x ∷ xs) = inr (x, xs, refl)

-- Instances with the sequence numbers from `s` on.
abbrev pub Numbered : Atlas → ℕ → List ConsensusDecision → Type 0
Numbered a s [] = Unit
Numbered a s (d ∷ ds) = (d.seq ≡ s) × Numbered a (a.next s) ds

pub record Window (a : Atlas) (c : Consensus) : Type 0 where
  pub numbered : Numbered a c.seq_no c.decisions
  pub full : length c.decisions ≡ c.watermark
  pub follows : c.tbo_queue.curr_seq ≡ c.seq_no

module _ (a : Atlas) where
  pub advance-next : (k s : ℕ) → advance a k (a.next s) ≡ a.next (advance a k s)
  advance-next zero s = refl
  advance-next (suc k) s = advance-next k (a.next s)

  pub Numbered-append :
      (s : ℕ) (ds : List ConsensusDecision) (d : ConsensusDecision)
      → Numbered a s ds
      → d.seq ≡ advance a (length ds) s
      → Numbered a s (ds ++ d ∷ [])
  Numbered-append s [] d n e = (e, tt)
  Numbered-append s (x ∷ xs) d n e = (n.0, Numbered-append (a.next s) xs d n.1 e)

  pub Numbered-last :
      (s : ℕ) (d : ConsensusDecision) (ds : List ConsensusDecision)
      → Numbered a s (d ∷ ds)
      → a.next (last_seq d.seq ds) ≡ advance a (length (d ∷ ds)) s
  Numbered-last s d [] n = ap a.next n.0
  Numbered-last s d (x ∷ xs) n = Numbered-last (a.next s) x xs n.1

-- `e` has `count` instances more than `c`, all numbered from `s` on.
pub record Grown (a : Atlas) (count s : ℕ) (c e : Consensus) : Type 0 where
  pub same_watermark : e.watermark ≡ c.watermark
  pub same_seq_no : e.seq_no ≡ c.seq_no
  pub longer : length e.decisions ≡ length c.decisions + count
  pub numbered : Numbered a s e.decisions

module _ (a : Atlas) (tbo : Tbo) (laws : SeqLaws a) where
  next_number :
      (s seq : ℕ) (ds : List ConsensusDecision) (d : ConsensusDecision)
      → seq ≡ advance a (length ds) s
      → a.plus seq 1 ≡ advance a (length (ds ++ d ∷ [])) s
  next_number s seq [] d e = laws.plus_one seq ∙ ap a.next e
  next_number s seq (x ∷ xs) d e = next_number (a.next s) seq xs d e

  -- One instance more, then `count` more.
  pub grow :
      (count s : ℕ) (c d e : Consensus)
      → Grown a 1 s c d
      → Grown a count s d e
      → Grown a (suc count) s c e
  grow count s c d e g h = record {
    same_watermark = h.same_watermark ∙ g.same_watermark;
    same_seq_no = h.same_seq_no ∙ g.same_seq_no;
    longer = omega (arith, g.longer, h.longer);
    numbered = h.numbered;
  }

  enqueue_decision-Grown :
      (s : ℕ) (c : Consensus) (d : ConsensusDecision)
      → Numbered a s c.decisions
      → d.seq ≡ advance a (length c.decisions) s
      → Grown a 1 s c (enqueue_decision c d)
  unfolding enqueue_decision
  enqueue_decision-Grown s c d n e = record {
    same_watermark = refl;
    same_seq_no = refl;
    longer = length-append c.decisions (d ∷ []);
    numbered = Numbered-append a s c.decisions d n e;
  }

  pub init_rounds-Grown :
      (count s : ℕ) (c : Consensus) (seq : ℕ) (view : ViewInfo)
      → Numbered a s c.decisions
      → seq ≡ advance a (length c.decisions) s
      → Grown a count s c (init_rounds a tbo count c seq view)
        × ((init_rounds a tbo count c seq view).tbo_queue ≡ c.tbo_queue)
  unfolding init_rounds enqueue_decision init_decision init_with_msg_log
  init_rounds-Grown zero s c seq view n e = (
    record { same_watermark = refl; same_seq_no = refl; longer = omega arith; numbered = n },
    refl,
  )
  init_rounds-Grown (suc count) s c seq view n e =
      let d = init_decision c.node_id seq view in
      let one = enqueue_decision-Grown s c d n e in
      let (more, same) =
        init_rounds-Grown count s (enqueue_decision c d) (a.plus seq 1) view one.numbered
          (next_number s seq c.decisions d e) in
      (grow count s c (enqueue_decision c d) _ one more, same)

  pub advance_one-Grown :
      (s : ℕ) (c : Consensus) (seq : ℕ) (view : ViewInfo)
      → Numbered a s c.decisions
      → seq ≡ advance a (length c.decisions) s
      → Grown a 1 s c (advance_one a tbo c seq view)
        × ((advance_one a tbo c seq view).tbo_queue.curr_seq ≡ a.next c.tbo_queue.curr_seq)
        × (a.plus seq 1 ≡ advance a (length (advance_one a tbo c seq view).decisions) s)
  unfolding advance_one advance_queue enqueue_decision init_with_msg_log
  advance_one-Grown s c seq view n e =
      let d = init_with_msg_log c.node_id seq view (advance_queue a tbo c.tbo_queue).1 in
      let g =
        enqueue_decision-Grown s (record c { tbo_queue = (advance_queue a tbo c.tbo_queue).0 }) d n
          e in
      (
        record {
          same_watermark = refl;
          same_seq_no = refl;
          longer = g.longer;
          numbered = g.numbered;
        },
        refl,
        next_number s seq c.decisions d e,
      )

  pub advance_rounds-Grown :
      (count s : ℕ) (c : Consensus) (seq : ℕ) (view : ViewInfo)
      → Numbered a s c.decisions
      → seq ≡ advance a (length c.decisions) s
      → Grown a count s c (advance_rounds a tbo count c seq view)
        × ((advance_rounds a tbo count c seq view).tbo_queue.curr_seq
            ≡ advance a count c.tbo_queue.curr_seq)
  unfolding advance_rounds
  advance_rounds-Grown zero s c seq view n e = (
    record { same_watermark = refl; same_seq_no = refl; longer = omega arith; numbered = n },
    refl,
  )
  advance_rounds-Grown (suc count) s c seq view n e =
      let (one, moved, next) = advance_one-Grown s c seq view n e in
      let (more, curr) =
        advance_rounds-Grown count s (advance_one a tbo c seq view) (a.plus seq 1) view one.numbered
          next in
      (grow count s c (advance_one a tbo c seq view) _ one more, curr ∙ ap (advance a count) moved)

  pub Grown-Window :
      (count : ℕ) (c e : Consensus)
      → length c.decisions + count ≡ c.watermark
      → Grown a count c.seq_no c e
      → e.tbo_queue.curr_seq ≡ c.seq_no
      → Window a e
  Grown-Window count c e h g q = record {
    numbered = rw g.same_seq_no g.numbered;
    full = g.longer ∙ (h ∙ sym g.same_watermark);
    follows = q ∙ sym g.same_seq_no;
  }

  -- A replica begins at the given sequence number, with as many instances as the
  -- given watermark, numbered from that sequence number on.
  pub new_replica-Window :
      (node_id : ℕ) (view : ViewInfo) (seq_no watermark : ℕ) (guard : ProposerConsensusGuard)
      → Numbered a seq_no (new_replica a tbo node_id view seq_no watermark guard).decisions
        × (length (new_replica a tbo node_id view seq_no watermark guard).decisions ≡ watermark)
        × ((new_replica a tbo node_id view seq_no watermark guard).seq_no ≡ seq_no)
        × ((new_replica a tbo node_id view seq_no watermark guard).watermark ≡ watermark)
        × Window a (new_replica a tbo node_id view seq_no watermark guard)
  unfolding new_replica new_tbo
  new_replica-Window node_id view seq_no watermark guard =
      let (g, same) = init_rounds-Grown watermark seq_no empty seq_no view tt refl in
      let window = Grown-Window watermark empty _ (omega arith) g (ap (λ q. q.curr_seq) same) in
      (g.numbered, omega (arith, g.longer), g.same_seq_no, g.same_watermark, window)
    where
      empty : Consensus
      empty = record {
        node_id = node_id;
        watermark = watermark;
        seq_no = seq_no;
        signalled = new_signals;
        curr_view = view;
        decisions = [];
        tbo_queue = new_tbo seq_no watermark;
        view_queue = [];
        consensus_guard = guard;
        is_recovering = false;
      }
