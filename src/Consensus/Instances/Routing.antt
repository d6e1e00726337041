-- ===== src/Consensus/Instances/Routing.antt =====
-- The routing in `Consensus::queue` and `Consensus::process_message`, of
-- febft-pbft-consensus/src/bft/consensus/mod.rs, and the window of the instances.
use febft.Base.{
  ℕ, zero, suc, ◌<◌, ◌≡◌, refl, sym, ◌∙◌, ap, leb, Bool-cases, inl, inr, Option-cases, Result, ok,
  err, panic, Option, none, some, List, [], ◌∷◌, length, get_elem?, set, length-set, arith,
}
use febft.Atlas.{Atlas, Index, left, right, SeqLaws, advance}
use febft.Message.{StoredConsensusMessage, view_of, seq_of}
use febft.Log.Deciding.{DecidingLogError}
use febft.Consensus.Decision.{ConsensusDecision, DecisionStatus}
use febft.Consensus.Decision.Process.{Env}
use febft.Consensus.Decision.Process
use febft.Consensus.Decision.Seq.{process_message-seq, queue-seq}
use febft.Consensus.Guard.{Signals}
use febft.Consensus.TboQueue.{Tbo, TboQueue}
use febft.Consensus.TboQueue
use febft.Consensus.Instances.{
  Consensus, Place, other_view, past, beyond, instance_at, place_of_seq, place_of_view, place,
  queue_at, queue_in, queue, process_at, process_result, report, process_in, process_message,
  enqueue_other_view_message,
}
use febft.Consensus.Instances.Window.{Numbered, Window}

module _ (a : Atlas) (tbo : Tbo) (laws : SeqLaws a) where
  Numbered-get :
      (i s : ℕ) (ds : List ConsensusDecision)
      → Numbered a s ds
      → i < length ds
      → (d : ConsensusDecision) × (get_elem? ds i ≡ some d) × (d.seq ≡ advance a i s)
  Numbered-get i s [] n h = let absurd : ⊥ = omega (arith, h) in elim absurd [ ]
  Numbered-get zero s (d ∷ ds) n h = (d, refl, n.0)
  Numbered-get (suc i) s (d ∷ ds) n h = Numbered-get i (a.next s) ds n.1 (omega (arith, h))

  place_number : Place → ℕ
  place_number (other_view i) = i
  place_number past = 0
  place_number beyond = 0
  place_number (instance_at i) = i

  same_place : {i j : ℕ} → instance_at i ≡ instance_at j → i ≡ j
  unfolding place_number
  same_place e = ap place_number e

  at_seq :
      (c : Consensus) (seq i : ℕ) (j : Index)
      → a.index seq c.seq_no ≡ j
      → place_of_seq a tbo c j ≡ instance_at i
      → (i < length c.decisions) × (advance a i c.seq_no ≡ seq)
  at_seq c seq i left e h = cc
  at_seq c seq i (right j) e h = elim (Bool-cases (leb (length c.decisions) j)) [
    | inl out ↦ cc
    | inr within ↦
        let same : j ≡ i = same_place (rw within at h) in
        (ground (arith, within, same), rw (← same) (laws.index_sound seq c.seq_no j e))
  ]

  at_view :
      (c : Consensus) (m : StoredConsensusMessage) (i : ℕ) (j : Index)
      → a.index (view_of m) c.curr_view.seq ≡ j
      → place_of_view a tbo c j (seq_of m) ≡ instance_at i
      → (c.curr_view.seq ≡ view_of m)
        × ((i < length c.decisions) × (advance a i c.seq_no ≡ seq_of m))
  at_view c m i left e h = cc
  at_view c m i (right (suc k)) e h = cc
  at_view c m i (right zero) e h =
      (laws.index_sound (view_of m) c.curr_view.seq 0 e, at_seq c (seq_of m) i _ refl h)

  -- A message that is routed to an instance is of the current view, and there is an instance at
  -- that place, with the sequence number of the message.
  pub place-instance_at :
      (c : Consensus) (m : StoredConsensusMessage) {i : ℕ}
      → Window a c
      → place a tbo c m ≡ instance_at i
      → (view_of m ≡ c.curr_view.seq)
        × ((d : ConsensusDecision) × (get_elem? c.decisions i ≡ some d) × (d.seq ≡ seq_of m))
  unfolding place
  place-instance_at c m {i} w h =
      let (view, spot) = at_view c m i _ refl h in
      let (d, found, seq) = Numbered-get i c.seq_no c.decisions w.numbered spot.0 in
      (sym view, (d, found, seq ∙ spot.1))

  Numbered-queue_at :
      (i s : ℕ) (ds : List ConsensusDecision) (m : StoredConsensusMessage)
      → Numbered a s ds
      → Numbered a s (queue_at a tbo ds i m) × (length (queue_at a tbo ds i m) ≡ length ds)
  Numbered-queue_at i s [] m n = (tt, refl)
  Numbered-queue_at zero s (d ∷ ds) m n = ((queue-seq d m ∙ n.0, n.1), refl)
  Numbered-queue_at (suc i) s (d ∷ ds) m n =
      let (rest, len) = Numbered-queue_at i (a.next s) ds m n.1 in ((n.0, rest), ap suc len)

  tbo-curr_seq :
      (q : TboQueue) (m : StoredConsensusMessage) → (TboQueue.queue a tbo q m).curr_seq ≡ q.curr_seq
  unfolding TboQueue.queue
  tbo-curr_seq q m = ground arith

  queue_in-Window :
      (c : Consensus) (p : Place) (m : StoredConsensusMessage)
      → Window a c
      → Window a (queue_in a tbo c p m)
  unfolding enqueue_other_view_message
  queue_in-Window c (other_view i) m w = record {
    numbered = w.numbered;
    full = w.full;
    follows = w.follows;
  }
  queue_in-Window c past m w = w
  queue_in-Window c beyond m w = record {
    numbered = w.numbered;
    full = w.full;
    follows = tbo-curr_seq c.tbo_queue m ∙ w.follows;
  }
  queue_in-Window c (instance_at i) m w =
      let (numbered, len) = Numbered-queue_at i c.seq_no c.decisions m w.numbered in
      record { numbered = numbered; full = len ∙ w.full; follows = w.follows }

  pub queue-Window :
      (c : Consensus) (m : StoredConsensusMessage) → Window a c → Window a (queue a tbo c m)
  unfolding queue
  queue-Window c m w = queue_in-Window c (place a tbo c m) m w

  Numbered-set :
      (i s : ℕ) (ds : List ConsensusDecision) (d e : ConsensusDecision)
      → Numbered a s ds
      → get_elem? ds i ≡ some d
      → e.seq ≡ d.seq
      → Numbered a s (set ds i e)
  Numbered-set i s [] d e n g h = cc
  Numbered-set zero s (x ∷ xs) d e n g h = (h ∙ (ap seq_of_some (sym g) ∙ n.0), n.1)
    where
      seq_of_some : Option ConsensusDecision → ℕ
      seq_of_some none = 0
      seq_of_some (some y) = y.seq
  Numbered-set (suc i) s (x ∷ xs) d e n g h = (n.0, Numbered-set i (a.next s) xs d e n.1 g h)

  signal-Window : (c : Consensus) (s : Signals) → Window a c → Window a (record c { signalled = s })
  signal-Window c s w = record { numbered = w.numbered; full = w.full; follows = w.follows }

  process_result-Window :
      (c : Consensus) (seq : ℕ) (r : Result DecidingLogError DecisionStatus)
      → Window a c
      → Window a (process_result a tbo c seq r).0
  unfolding report
  process_result-Window c seq (ok (DecisionStatus.voted_twice node)) w = w
  process_result-Window c seq (ok (DecisionStatus.deciding m)) w = w
  process_result-Window c seq (ok DecisionStatus.message_queued) w = signal-Window c _ w
  process_result-Window c seq (ok (DecisionStatus.transitioned metadata m)) w = signal-Window c _ w
  process_result-Window c seq (ok (DecisionStatus.decided m)) w = w
  process_result-Window c seq (ok DecisionStatus.decided_ignored) w = w
  process_result-Window c seq (ok DecisionStatus.message_ignored) w = w
  process_result-Window c seq (err x) w = w
  process_result-Window c seq panic w = w

  process_at-Window :
      (env : Env) (c : Consensus) (i : ℕ) (m : StoredConsensusMessage)
      → Window a c
      → Window a (process_at a tbo env c i m).0
  unfolding process_at
  process_at-Window env c i m w = elim (Option-cases (get_elem? c.decisions i)) [
    | inl e ↦ rw (e, process_at) w
    | inr (d, e) ↦
        rw (e, process_at)
          (process_result-Window
            (record c { decisions = set c.decisions i (Process.process_message a env d m).0 }) d.seq
            (Process.process_message a env d m).2
            (record {
              numbered =
                  Numbered-set i c.seq_no c.decisions d (Process.process_message a env d m).0
                    w.numbered e (process_message-seq a env d m);
              full = length-set c.decisions i (Process.process_message a env d m).0 ∙ w.full;
              follows = w.follows;
            }))
  ]

  process_in-Window :
      (env : Env) (c : Consensus) (p : Place) (m : StoredConsensusMessage)
      → Window a c
      → Window a (process_in a tbo env c p m).0
  unfolding enqueue_other_view_message
  process_in-Window env c (other_view i) m w = record {
    numbered = w.numbered;
    full = w.full;
    follows = w.follows;
  }
  process_in-Window env c past m w = w
  process_in-Window env c beyond m w = record {
    numbered = w.numbered;
    full = w.full;
    follows = tbo-curr_seq c.tbo_queue m ∙ w.follows;
  }
  process_in-Window env c (instance_at i) m w = process_at-Window env c i m w

  -- Queuing a message and processing one, whatever they are and whatever comes of them, keep the
  -- instances in place.
  pub messages-Window :
      (env : Env) (c : Consensus) (m : StoredConsensusMessage)
      → Window a c
      → Window a (queue a tbo c m) × Window a (process_message a tbo env c m).0
  unfolding process_message
  messages-Window env c m w = (queue-Window c m w, process_in-Window env c (place a tbo c m) m w)
