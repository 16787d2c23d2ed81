-- ===== src/Flush/Life.antt =====
-- flush_end_io() of daredevil/block/blk-flush.c, and the life of a flush queue under any sequence of
-- the calls.
use nvme_plus.Base.{ℕ, zero, suc, ◌+◌, ◌<◌, ◌≡◌, refl, sym, subst, arith, Bool, false, not, [], ◌⊎◌}
use nvme_plus.Base.Run.{Run, ok, fault, Ends, Ends-map, Ends-if, Ends-both}
use nvme_plus.Regulator.{update}
use nvme_plus.Flush.{Request, Features, rq_init}
use nvme_plus.Flush.Machine.{FlushState, queue, same, is_empty, first}
use nvme_plus.Flush.Calls.{
  put_flush, freed, final_error, flush_end_io, flush_data_end_io, insert_flush,
}
use nvme_plus.Flush.Places.{count, places}
use nvme_plus.Flush.Valid.{
  IsFlushQueue, Gains, one, written-IsFlushQueue, insert_flush-IsFlushQueue,
  flush_data_end_io-IsFlushQueue,
}
use nvme_plus.Flush.Again.{IsAway, flush_data_end_io-IsAway}
use nvme_plus.Flush.Ending.{Runs}
use nvme_plus.Flush.Walk.{weigh-le, end_running-Ends}

-- A flush queue of which only the flush request, its error and the running index differ
abbrev pub changed : FlushState → Request → ℕ → Bool → FlushState
changed w rq status i = record w { flush_rq = rq; rq_status = status; running_idx = i }

pub changed-IsFlushQueue :
    (w : FlushState) (rq : Request) (status : ℕ)
    → IsFlushQueue w
    → IsFlushQueue (changed w rq status w.running_idx)
changed-IsFlushQueue w rq status h = record {
  placed = λ x. let p = h.placed x in ground arith;
  idle = h.idle;
  busy = h.busy;
}

pub changed-Runs :
    (w : FlushState) (rq : Request) (status : ℕ)
    → IsFlushQueue w
    → same w.pending_idx w.running_idx ≡ false
    → Runs w.running_idx (first (queue w w.running_idx)) (changed w rq status (not w.running_idx))
changed-Runs w rq status h b = record {
  placed = λ x. let p = h.placed x in ground arith;
  turned = refl;
  here = λ r e. e;
  busy = ground arith;
  last = λ e s. let n = h.busy b in ground arith;
}

-- flush_end_io() of the last reference, which turns the running index
last_put-Ends :
    (q : Features) (j error : ℕ) (w : FlushState)
    → IsFlushQueue w
    → same w.pending_idx w.running_idx ≡ false
    → Ends
        (λ v. IsFlushQueue v × Gains (λ x. 0) w v × (v.running_idx ≡ not w.running_idx))
        (put_flush q j error w 1)
unfolding put_flush
last_put-Ends q j error w h b =
    Ends-if _ (same w.pending_idx w.running_idx) fault _ (λ e. absurd (cc))
      (λ _.
        end_running-Ends q j w.running_idx (final_error w.rq_status error) _ _ _
          (changed-Runs w (freed q w.flush_rq) 0 h b)
          (λ _. omega (arith, weigh-le w.requests (queue w w.running_idx))))

put_flush-IsFlushQueue :
    (q : Features) (j error : ℕ) (w : FlushState) (n : ℕ)
    → IsFlushQueue w
    → same w.pending_idx w.running_idx ≡ false
    → Ends (λ v. IsFlushQueue v × Gains (λ x. 0) w v) (put_flush q j error w n)
put_flush-IsFlushQueue q j error w zero h b =
    unfold put_flush in (changed-IsFlushQueue w _ error h, λ x. omega arith)
put_flush-IsFlushQueue q j error w (suc (suc n)) h b =
    unfold put_flush in (changed-IsFlushQueue w _ error h, λ x. omega arith)
put_flush-IsFlushQueue q j error w (suc zero) h b =
    Ends-map (λ v. IsFlushQueue v × Gains (λ x. 0) w v × (v.running_idx ≡ not w.running_idx))
      (λ v. IsFlushQueue v × Gains (λ x. 0) w v) (put_flush q j error w 1)
      (last_put-Ends q j error w h b) (λ v (a, g, i). (a, g))

-- A call on a flush queue, with the jiffies it reads, and the error and the request it is for
pub data FlushCall : Type 0 where
  inserts : ℕ → ℕ → FlushCall
  data_ended : ℕ → ℕ → ℕ → FlushCall
  flush_ended : ℕ → ℕ → FlushCall

unfoldable pub call : Features → FlushCall → FlushState → Run FlushState
call q (inserts j r) w = insert_flush q j r w
call q (data_ended j error r) w = flush_data_end_io q j error r w
call q (flush_ended j error) w = flush_end_io q j error w

-- When the callers make it: a request with at most one bio that is in no list is inserted, the data
-- of a request that is in flight ends, the flush in flight ends.
abbrev pub MayCall : FlushCall → FlushState → Type 0
MayCall (inserts j r) w = (places r w ≡ 0) × ((w.requests r).bio ≡ (w.requests r).biotail)
MayCall (data_ended j error r) w = 0 < count r w.data_in_flight
MayCall (flush_ended j error) w = same w.pending_idx w.running_idx ≡ false

-- The request that a call brings into the queue
abbrev pub brings : FlushCall → ℕ → ℕ
brings (inserts j r) x = one r x
brings (data_ended j error r) x = 0
brings (flush_ended j error) x = 0

-- On a well-formed flush queue, blk_insert_flush() of a request with at most one bio that is in no
-- list, mq_flush_data_end_io() of a request whose data is in flight, and flush_end_io() of the flush in
-- flight return: no BUG_ON() is met, and the loop of flush_end_io() ends, also where it meets a
-- request twice. The queue is then well formed, and of each request as many are in a list or have
-- left (ended, or inserted past the machinery) as before, one more for the request inserted.
pub call-IsFlushQueue :
    (q : Features) (c : FlushCall) (w : FlushState)
    → IsFlushQueue w
    → MayCall c w
    → Ends (λ v. IsFlushQueue v × Gains (brings c) w v) (call q c w)
unfolding call flush_end_io
call-IsFlushQueue q (inserts j r) w h (n, b) = insert_flush-IsFlushQueue q j r w h n b
call-IsFlushQueue q (data_ended j error r) w h n = flush_data_end_io-IsFlushQueue q j error r w h n
call-IsFlushQueue q (flush_ended j error) w h b =
    put_flush-IsFlushQueue q j error w w.flush_rq.ref h b

-- A flush queue as blk_alloc_flush_queue() makes it, zeroed and with empty lists
unfoldable pub fresh_queue : (ℕ → Request) → FlushState
fresh_queue requests = record {
  queue_0 = [];
  queue_1 = [];
  pending_idx = false;
  running_idx = false;
  pending_since = 0;
  data_in_flight = [];
  rq_status = 0;
  flush_rq = rq_init;
  requests = requests;
  events = [];
}

-- What happens between two states: a call, a request written elsewhere, which keeps the sequence of one
-- that is in a list, or a reference of the flush request taken or put elsewhere.
pub data FlushStep (q : Features) (w v : FlushState) : Type 0 where
  calls : (c : FlushCall) → MayCall c w → call q c w ≡ ok v → FlushStep q w v
  writes :
      (r : ℕ) (rq : Request)
      → ((places r w ≡ 0) ⊎ (rq.seq ≡ (w.requests r).seq))
      → v ≡ record w { requests = update w.requests r rq; events = w.events }
      → FlushStep q w v
  refers :
      (n : ℕ)
      → v ≡ changed w (record w.flush_rq { ref = n }) w.rq_status w.running_idx
      → FlushStep q w v

-- The states that a flush queue reaches
pub data Reached (q : Features) : FlushState → Type 0 where
  fresh : (f : ℕ → Request) → Reached q (fresh_queue f)
  next : {w v : FlushState} → Reached q w → FlushStep q w v → Reached q v

fresh-IsFlushQueue : (f : ℕ → Request) → IsFlushQueue (fresh_queue f)
unfolding fresh_queue
fresh-IsFlushQueue f = record {
  placed = λ x. ground arith;
  idle = λ e. (refl, refl);
  busy = λ e. absurd (cc);
}

FlushStep-IsFlushQueue :
    (q : Features) (w v : FlushState) → FlushStep q w v → IsFlushQueue w → IsFlushQueue v
FlushStep-IsFlushQueue q w v (calls c m e) h =
    (subst (Ends (λ v. IsFlushQueue v × Gains (brings c) w v)) e (call-IsFlushQueue q c w h m)).0
FlushStep-IsFlushQueue q w v (writes r rq n e) h =
    subst IsFlushQueue (sym e) (written-IsFlushQueue r rq w.events w h n)
FlushStep-IsFlushQueue q w v (refers n e) h =
    subst IsFlushQueue (sym e) (changed-IsFlushQueue w _ w.rq_status h)

pub Reached-IsFlushQueue : {q : Features} {w : FlushState} → Reached q w → IsFlushQueue w
Reached-IsFlushQueue (fresh f) = fresh-IsFlushQueue f
Reached-IsFlushQueue (next r s) = FlushStep-IsFlushQueue _ _ _ s (Reached-IsFlushQueue r)

Reached-waits :
    (q : Features) (w : FlushState) (r : ℕ)
    → Reached q w
    → 0 < count r w.queue_0 + count r w.queue_1
    → ((same w.pending_idx w.running_idx ≡ false) × (is_empty (queue w w.running_idx) ≡ false))
      ⊎ ((is_empty w.data_in_flight ≡ false) × (0 < count r (queue w w.pending_idx)))
Reached-waits q w r a n = let h = Reached-IsFlushQueue a in ground arith

-- In a state that a flush queue reaches by any calls, a request that waits in a list for a flush is not
-- forgotten: a flush is in flight, for a list with a request in it, or data is in flight and the request
-- is in the pending list. Where a flush is in flight, flush_end_io() of its last reference ends and turns
-- the running index to the other list. mq_flush_data_end_io() of a request whose data is in flight ends,
-- takes it, and no other, from the data in flight, and brings none. Both leave the queue well formed and
-- forget no request: of each as many are in a list or have left as before.
pub Reached-kicked :
    (q : Features) (w : FlushState) (r : ℕ)
    → Reached q w
    → 0 < count r w.queue_0 + count r w.queue_1
    → (((same w.pending_idx w.running_idx ≡ false) × (is_empty (queue w w.running_idx) ≡ false))
        ⊎ ((is_empty w.data_in_flight ≡ false) × (0 < count r (queue w w.pending_idx))))
      × ((j error : ℕ)
          → same w.pending_idx w.running_idx ≡ false
          → w.flush_rq.ref ≡ 1
          → Ends
              (λ v. IsFlushQueue v × Gains (λ x. 0) w v × (v.running_idx ≡ not w.running_idx))
              (flush_end_io q j error w))
      × ((j error s : ℕ)
          → 0 < count s w.data_in_flight
          → Ends
              (λ v. IsFlushQueue v × Gains (λ x. 0) w v × IsAway s w v)
              (flush_data_end_io q j error s w))
unfolding flush_end_io
Reached-kicked q w r a n =
    let h = Reached-IsFlushQueue a in
    (
      Reached-waits q w r a n,
      λ j error b one_ref.
          subst
            (λ n.
              Ends (λ v. IsFlushQueue v × Gains (λ x. 0) w v × (v.running_idx ≡ not w.running_idx))
                (put_flush q j error w n))
            (sym one_ref) (last_put-Ends q j error w h b),
      λ j error s m.
          Ends-map (λ v. (IsFlushQueue v × Gains (λ x. 0) w v) × IsAway s w v) _
            (flush_data_end_io q j error s w)
            (Ends-both _ _ (flush_data_end_io q j error s w)
              (flush_data_end_io-IsFlushQueue q j error s w h m)
              (flush_data_end_io-IsAway q j error s w h m))
            (λ v ((a, g), d). (a, g, d)),
    )
