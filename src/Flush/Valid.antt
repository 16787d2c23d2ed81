-- ===== src/Flush/Valid.antt =====
-- What holds of a flush queue between two calls, and that mq_flush_data_end_io() and
-- blk_insert_flush() of daredevil/block/blk-flush.c keep it.
use nvme_plus.Base.{
  ℕ, suc, ◌+◌, ◌<◌, ◌≡◌, refl, arith, true, false, not, some, List, ◌∷◌, ◌==◌, if◌then◌else◌, ◌⊎◌,
  inl, inr, if_elim,
}
use nvme_plus.Base.Run.{Ends, Ends-map}
use nvme_plus.Regulator.{update}
use nvme_plus.Flush.{
  data_write, Steps, only, both, skipped, overlap, Request, Features, cur_seq, flush_policy,
  put_driver_tag,
}
use nvme_plus.Flush.Machine.{
  Event, bypasses, ends, FlushState, queue, same, is_empty, remove, complete_seq,
}
use nvme_plus.Flush.Calls.{insert_flush, flush_data_end_io}
use nvme_plus.Flush.Branches.{gone, started, insert_flush-cases}
use nvme_plus.Flush.Places.{count, places, left, IsPlaced, remove-absent}
use nvme_plus.Flush.Moves.{is_quiet}
use nvme_plus.Flush.Complete.{Completed, complete_seq-Completed}

-- Each request is in one list at most, that of its next step. With no flush in flight, nothing is in
-- the list that is not pending, and what pends waits for data in flight; a flush in flight is for at
-- least one request.
pub record IsFlushQueue (w : FlushState) : Type 0 where
  pub placed : (x : ℕ) → IsPlaced w x
  pub idle :
      same w.pending_idx w.running_idx ≡ true
      → (is_empty (queue w (not w.pending_idx)) ≡ true) × (is_quiet w ≡ true)
  pub busy : same w.pending_idx w.running_idx ≡ false → is_empty (queue w w.running_idx) ≡ false

pub Completed-IsFlushQueue :
    (r : ℕ) (all : Steps) (w v : FlushState)
    → IsFlushQueue w
    → count r w.queue_0 + count r w.queue_1 ≡ 0
    → Completed r all w v
    → IsFlushQueue v
unfolding remove
Completed-IsFlushQueue r all w v h n c = record {
  placed = λ x. c.placed x (λ _. h.placed x);
  idle = ground (arith, remove-absent r w.queue_0, remove-absent r w.queue_1);
  busy = ground (arith, remove-absent r w.queue_0, remove-absent r w.queue_1);
}

-- Every request is in one more list, or left the queue once more, as `gained` says.
abbrev pub Gains : (ℕ → ℕ) → FlushState → FlushState → Type 0
Gains gained w v = (x : ℕ) → places x v + left x v.events ≡ places x w + left x w.events + gained x

abbrev pub one : ℕ → ℕ → ℕ
one r x = if x == r then 1 else 0

pub written-IsFlushQueue :
    (r : ℕ) (rq : Request) (es : List Event) (w : FlushState)
    → IsFlushQueue w
    → ((places r w ≡ 0) ⊎ (rq.seq ≡ (w.requests r).seq))
    → IsFlushQueue (record w { requests = update w.requests r rq; events = es })
written-IsFlushQueue r rq es w h n = record {
  placed = λ x. let p = h.placed x in ground arith;
  idle = h.idle;
  busy = h.busy;
}

abbrev Goes : ℕ → FlushState → FlushState → Type 0
Goes r w v =
    IsFlushQueue v
    × ((x : ℕ)
        → places x v + left x v.events
          ≡ (if x == r then suc (left r w.events) else places x w + left x w.events))

-- The result of blk_flush_complete_seq() for a request that is in none of the flush queues
complete_seq-IsFlushQueue :
    (q : Features) (j r : ℕ) (seq : Steps) (error : ℕ) (w : FlushState)
    → IsFlushQueue w
    → count r w.queue_0 + count r w.queue_1 ≡ 0
    → overlap (w.requests r).seq seq ≡ false
    → (both (w.requests r).seq seq).has_done ≡ false
    → Ends (Goes r w) (complete_seq q j r seq error w)
complete_seq-IsFlushQueue q j r seq error w h n o d =
    Ends-map _ _ (complete_seq q j r seq error w) (complete_seq-Completed q j r seq error w o d)
      (λ v c. (Completed-IsFlushQueue r _ w v h n c, c.total))

-- blk_insert_flush() of a request in no list
pub insert_flush-IsFlushQueue :
    (q : Features) (j r : ℕ) (w : FlushState)
    → IsFlushQueue w
    → places r w ≡ 0
    → (w.requests r).bio ≡ (w.requests r).biotail
    → Ends (λ v. IsFlushQueue v × Gains (one r) w v) (insert_flush q j r w)
insert_flush-IsFlushQueue q j r w h n b =
    insert_flush-cases Good q j r w b (λ _. leaves (ends r 0) (λ x. refl))
      (λ _. leaves (bypasses r) (λ x. refl))
      (λ _ _.
        Ends-map (Goes r start) Good (complete_seq q j r (skipped policy) 0 start)
          (complete_seq-IsFlushQueue q j r (skipped policy) 0 start
            (written-IsFlushQueue r _ w.events w h (inl n)) (omega arith) (ground arith)
            (ground arith))
          (λ v (a, t). (a, λ x. grind (arith, t))))
  where
    policy : Steps
    policy = flush_policy q (w.requests r)

    start : FlushState
    start = started q r w

    Good : FlushState → Type 0
    Good v = IsFlushQueue v × Gains (one r) w v

    leaves :
        (e : Event)
        → ((x : ℕ) → left x (e ∷ w.events) ≡ one r x + left x w.events)
        → Good (gone q r e w)
    leaves e k = (written-IsFlushQueue r _ _ w h (inl n), λ x. omega (arith, k x))

put_driver_tag-seq : (rq : Request) → (put_driver_tag rq).seq ≡ rq.seq
unfolding put_driver_tag
put_driver_tag-seq rq = ground arith

pub data_step :
    (s : Steps)
    → cur_seq s ≡ some data_write
    → s.has_done ≡ false
    → (overlap s (only data_write) ≡ false) × ((both s (only data_write)).has_done ≡ false)
unfolding cur_seq
data_step s c d = ground arith

data_end-Ends :
    (q : Features) (j error r : ℕ) (w : FlushState)
    → IsFlushQueue w
    → 0 < count r w.data_in_flight
    → Ends (λ v. IsFlushQueue v × Gains (λ x. 0) w v) (complete_seq q j r (only data_write) error w)
data_end-Ends q j error r w h n =
    let p = h.placed r in
    let (o, d) = data_step (w.requests r).seq (p.sending n) (p.undone (omega arith)) in
    Ends-map (Goes r w) _ _
      (complete_seq-IsFlushQueue q j r (only data_write) error w h (omega (arith, p.once)) o d)
      (λ v (a, t). (a, λ x. ground (arith, t x, p.once)))

-- mq_flush_data_end_io() of a request whose data is in flight
pub flush_data_end_io-IsFlushQueue :
    (q : Features) (j error r : ℕ) (w : FlushState)
    → IsFlushQueue w
    → 0 < count r w.data_in_flight
    → Ends (λ v. IsFlushQueue v × Gains (λ x. 0) w v) (flush_data_end_io q j error r w)
unfolding flush_data_end_io
flush_data_end_io-IsFlushQueue q j error r w h n =
    if_elim
      (λ v.
        Ends (λ u. IsFlushQueue u × Gains (λ x. 0) w u)
          (complete_seq q j r (only data_write) error v))
      q.elevator
      (λ _.
        data_end-Ends q j error r _
          (written-IsFlushQueue r _ w.events w h (inr (put_driver_tag-seq (w.requests r)))) n)
      (λ _. data_end-Ends q j error r w h n)
