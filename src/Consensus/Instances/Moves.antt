-- ===== src/Consensus/Instances/Moves.antt =====
-- `Consensus::install_sequence_number` of febft-pbft-consensus/src/bft/consensus/mod.rs, and the
-- window of the instances.
use febft.Base.{
  ℕ, zero, suc, ◌+◌, ◌-◌, ◌<◌, ◌≤◌, ◌≡◌, refl, sym, ◌∙◌, ap, subst, true, false, ◌==◌, ==_self, leb,
  ltb, Bool-cases, inl, inr, some, List, [], ◌∷◌, length, arith,
}
use febft.Atlas.{Atlas, Index, left, right, SeqLaws, advance}
use febft.View.{ViewInfo}
use febft.Consensus.Decision.{ConsensusDecision}
use febft.Consensus.Guard.{install_seq_no, clear_signals, clear_guard}
use febft.Consensus.TboQueue.{Tbo, TboQueue, signal_tbo, clear_tbo, next_instance_queue}
use febft.Consensus.Instances.{Consensus, clear_all_queues, last_seq}
use febft.Consensus.Instances.Install.{
  drop, advance_one, catch_rounds, skip_queues, jump, shift, go_back, move_to, asserted,
  install_sequence_number,
}
use febft.Consensus.Instances.Window.{
  List-cases, Numbered, Window, Grown, grow, Numbered-last, init_rounds-Grown, advance_one-Grown,
  advance_rounds-Grown,
}

-- The instances of `e` are those of `c`, as many, but from `seq` on.
abbrev pub At : Atlas → Consensus → ℕ → Consensus → Type 0
At a c seq e = Window a e × (e.seq_no ≡ seq) × (e.watermark ≡ c.watermark)

module _ (a : Atlas) (tbo : Tbo) (laws : SeqLaws a) where
  -- All of the window is set anew.
  At-set :
      (c b e : Consensus) (seq : ℕ)
      → b.watermark ≡ c.watermark
      → length b.decisions + (c.watermark - length b.decisions) ≡ c.watermark
      → Grown a (c.watermark - length b.decisions) seq b e
      → e.tbo_queue.curr_seq ≡ seq
      → At a c seq (record e { seq_no = seq })
  At-set c b e seq m h g q = (
    record {
      numbered = g.numbered;
      full = g.longer ∙ (h ∙ (sym m ∙ sym g.same_watermark));
      follows = q;
    },
    refl,
    g.same_watermark ∙ m,
  )

  go_back-At : (c : Consensus) (seq : ℕ) (view : ViewInfo) → At a c seq (go_back a tbo c seq view)
  unfolding go_back clear_all_queues
  go_back-At c seq view =
      let b = clear_all_queues c in
      let (g, same) = init_rounds-Grown a tbo laws c.watermark seq b seq view tt refl in
      (
        record {
          numbered = g.numbered;
          full = g.longer ∙ (omega arith ∙ sym g.same_watermark);
          follows = refl;
        },
        refl,
        g.same_watermark,
      )

  -- The queue catches up with `novel`, which is `behind` numbers ahead of it.
  catch_rounds-Grown :
      (count behind s : ℕ) (c : Consensus) (seq novel : ℕ) (view : ViewInfo)
      → Numbered a s c.decisions
      → seq ≡ advance a (length c.decisions) s
      → a.index novel c.tbo_queue.curr_seq ≡ right behind
      → behind ≤ count
      → Grown a count s c (catch_rounds a tbo count c seq novel view)
        × ((catch_rounds a tbo count c seq novel view).tbo_queue.curr_seq ≡ novel)
  unfolding catch_rounds
  catch_rounds-Grown zero behind s c seq novel view n e i h = (
    record { same_watermark = refl; same_seq_no = refl; longer = omega arith; numbered = n },
    laws.index_sound novel c.tbo_queue.curr_seq 0 (rw (← none_behind) i),
  )
    where
      none_behind : behind ≡ 0
      none_behind = omega (arith, h)
  catch_rounds-Grown (suc count) zero s c seq novel view n e i h =
      let here : c.tbo_queue.curr_seq ≡ novel = laws.index_sound novel c.tbo_queue.curr_seq 0 i in
      let (g, same) = init_rounds-Grown a tbo laws (suc count) s c seq view n e in
      let stop : a.before c.tbo_queue.curr_seq novel ≡ false =
        subst (λ t. a.before c.tbo_queue.curr_seq t ≡ false) here
          (laws.before_self c.tbo_queue.curr_seq) in
      rw (stop, catch_rounds) (g, ap (λ q. q.curr_seq) same ∙ here)
  catch_rounds-Grown (suc count) (suc behind) s c seq novel view n e i h =
      let (one, moved, next) = advance_one-Grown a tbo laws s c seq view n e in
      let ahead : a.index novel (advance_one a tbo c seq view).tbo_queue.curr_seq ≡ right behind =
        rw moved (laws.index_step novel c.tbo_queue.curr_seq behind i) in
      let (more, curr) =
        catch_rounds-Grown count behind s (advance_one a tbo c seq view) (a.plus seq 1) novel view
          one.numbered next ahead (omega (arith, h)) in
      let go : a.before c.tbo_queue.curr_seq novel ≡ true =
        laws.before_ahead novel c.tbo_queue.curr_seq behind i in
      rw (go, catch_rounds)
        (grow a tbo laws count s c (advance_one a tbo c seq view) _ one more, curr)

  skip_queues-index :
      (count behind novel : ℕ) (q : TboQueue)
      → a.index novel q.curr_seq ≡ right (count + behind)
      → a.index novel (skip_queues a tbo count q).curr_seq ≡ right behind
  unfolding next_instance_queue
  skip_queues-index zero behind novel q i = rw (← zero_plus behind) i
    where
      zero_plus : (k : ℕ) → 0 + k ≡ k
      zero_plus k = omega arith
  skip_queues-index (suc count) behind novel q i =
      skip_queues-index count behind novel (next_instance_queue a tbo q) (
        laws.index_step novel q.curr_seq (count + behind)
          (subst (λ k. a.index novel q.curr_seq ≡ right k) suc_plus i))
    where
      suc_plus : suc count + behind ≡ suc (count + behind)
      suc_plus = omega arith

  jump-At :
      (c : Consensus) (overflow novel : ℕ) (view : ViewInfo)
      → c.tbo_queue.curr_seq ≡ c.seq_no
      → a.index novel c.seq_no ≡ right (overflow + c.watermark)
      → At a c novel (jump a tbo c overflow novel view)
  unfolding jump clear_tbo
  jump-At c overflow novel view q i =
      elim (Bool-cases (leb (length c.tbo_queue.pre_prepares) overflow)) [
        | inl all ↦
            rw (all, jump)
              (caught (record (clear_tbo c.tbo_queue) { curr_seq = novel }) 0
                (laws.index_self novel) (omega arith))
        | inr part ↦
            rw (part, jump)
              (caught (skip_queues a tbo overflow c.tbo_queue) c.watermark
                (skip_queues-index overflow c.watermark novel c.tbo_queue (rw q i)) (omega arith))
      ]
    where
      cleared : TboQueue → Consensus
      cleared t = record c {
        decisions = [];
        signalled = clear_signals c.signalled;
        consensus_guard = clear_guard c.consensus_guard;
        tbo_queue = t;
      }

      caught :
          (t : TboQueue) (behind : ℕ)
          → a.index novel t.curr_seq ≡ right behind
          → behind ≤ c.watermark
          → At a c novel (record (catch_rounds a tbo c.watermark (cleared t) novel novel view) {
            seq_no = novel;
          })
      caught t behind e h =
          let (g, curr) =
            catch_rounds-Grown c.watermark behind novel (cleared t) novel novel view tt refl e h in
          (
            record {
              numbered = g.numbered;
              full = g.longer ∙ (omega arith ∙ sym g.same_watermark);
              follows = curr;
            },
            refl,
            g.same_watermark,
          )

  Numbered-drop :
      (k s : ℕ) (ds : List ConsensusDecision)
      → Numbered a s ds
      → Numbered a (advance a k s) (drop k ds)
  Numbered-drop zero s ds n = n
  Numbered-drop (suc k) s [] n = tt
  Numbered-drop (suc k) s (d ∷ ds) n = Numbered-drop k (a.next s) ds n.1

  length-drop : (k : ℕ) (ds : List ConsensusDecision) → length (drop k ds) ≡ length ds - k
  length-drop zero ds = omega arith
  length-drop (suc k) [] = omega arith
  length-drop (suc k) (d ∷ ds) = omega (arith, length-drop k ds)

  shift-At :
      (c : Consensus) (k novel : ℕ) (view : ViewInfo) (rest : List ConsensusDecision)
      → Window a c
      → advance a k c.seq_no ≡ novel
      → Numbered a novel rest
      → length rest + k ≡ c.watermark
      → 0 < length rest
      → (e : Consensus) × (shift a tbo c novel rest view ≡ some e) × At a c novel e
  shift-At c k novel view [] w h n len pos = let absurd : ⊥ = omega (arith, pos) in elim absurd [ ]
  shift-At c k novel view (d ∷ ds) w h n len pos =
      let b = record c { decisions = d ∷ ds } in
      let rounds : c.watermark - length (d ∷ ds) ≡ k = omega (arith, len) in
      let (g, curr) =
        advance_rounds-Grown a tbo laws (c.watermark - length (d ∷ ds)) novel b
          (a.next (last_seq d.seq ds)) view n (Numbered-last a novel d ds n) in
      (
        _,
        refl,
        (
          record {
            numbered = g.numbered;
            full = g.longer ∙ (omega (arith, len) ∙ sym g.same_watermark);
            follows = curr ∙ (rw (rounds, w.follows) h);
          },
          refl,
          g.same_watermark,
        ),
      )

  move_to-At :
      (c : Consensus) (novel : ℕ) (view : ViewInfo) (i : Index)
      → Window a c
      → a.index novel c.seq_no ≡ i
      → (e : Consensus) × (move_to a tbo c novel view i ≡ some e) × At a c novel e
  unfolding move_to
  move_to-At c novel view left w h = (_, refl, go_back-At c novel view)
  move_to-At c novel view (right zero) w h =
      (c, refl, (w, laws.index_sound novel c.seq_no 0 h, refl))
  move_to-At c novel view (right (suc k)) w h =
      elim (Bool-cases (leb (length c.decisions) (suc k))) [
        | inl far ↦
            let near : ltb (suc k) c.watermark ≡ false = ground (arith, w.full, far) in
            let split : suc k ≡ (suc k - c.watermark) + c.watermark = ground (arith, w.full, far) in
            (
              jump a tbo c (suc k - c.watermark) novel view,
              rw (far, near) refl,
              jump-At c (suc k - c.watermark) novel view w.follows
                  (subst (λ j. a.index novel c.seq_no ≡ right j) split h),
            )
        | inr within ↦
            let sound = laws.index_sound novel c.seq_no (suc k) h in
            let kept = Numbered-drop (suc k) c.seq_no c.decisions w.numbered in
            let (e, moved, at) =
              shift-At c (suc k) novel view (drop (suc k) c.decisions) w sound
                (subst (λ s. Numbered a s (drop (suc k) c.decisions)) sound kept)
                (ground (arith, length-drop (suc k) c.decisions, w.full, within))
                (ground (arith, length-drop (suc k) c.decisions, within)) in
            (e, rw within moved, at)
      ]

  asserted-Window : (c : Consensus) → Window a c → 0 < c.watermark → asserted a tbo c ≡ some c
  asserted-Window c w h = elim (List-cases c.decisions) [
    | inl e ↦ let absurd : ⊥ = omega (arith, w.full, ap length e, h) in elim absurd [ ]
    | inr (d, ds, e) ↦
        let head : (d.seq == c.seq_no) ≡ true =
          rw ((subst (Numbered a c.seq_no) e w.numbered).0) (==_self c.seq_no) in
        let queue : (c.tbo_queue.curr_seq == c.seq_no) ≡ true = rw w.follows (==_self c.seq_no) in
        rw (e, queue, head) refl
  ]

  -- From any window of at least one instance, installing a sequence number, ahead or behind, near
  -- or far, never panics, and leaves a window of as many instances that begins at that number.
  pub install_sequence_number-Window :
      (c : Consensus) (novel : ℕ) (view : ViewInfo)
      → Window a c
      → 0 < c.watermark
      → (e : Consensus) × (install_sequence_number a tbo c novel view ≡ some e)
        × Window a e
        × (e.seq_no ≡ novel)
        × (e.watermark ≡ c.watermark)
  unfolding install_sequence_number signal_tbo
  install_sequence_number-Window c novel view w h =
      let (e, moved, at) = move_to-At c novel view (a.index novel c.seq_no) w refl in
      let final = record e {
        consensus_guard = install_seq_no a e.consensus_guard novel;
        tbo_queue = signal_tbo e.tbo_queue;
      } in
      let window : Window a final = record {
        numbered = at.0.numbered;
        full = at.0.full;
        follows = at.0.follows;
      } in
      (
        final,
        rw (moved, install_sequence_number) (asserted-Window final window (rw at.2 h)),
        window,
        at.1,
        at.2,
      )
