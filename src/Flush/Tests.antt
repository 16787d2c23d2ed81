-- ===== src/Flush/Tests.antt =====
-- A request with a preflush, data and a postflush, on a device with a write cache and no FUA.
use nvme_plus.Base.{
  ℕ, ◌+◌, ◌≡◌, ◌<◌, ◌≤◌, ◌%◌, ◌^◌, ◌*◌, ◌↔◌, ◌⊎◌, refl, arith, true, false, not, some, List, [],
  ◌∷◌, if◌then◌else◌, ltb,
}
use nvme_plus.Base.Run.{Run, ok, fault, ◌>>=◌, Ends}
use nvme_plus.Flush.{
  preflush, data_write, postflush, Request, Features, rq_init, cur_seq, flush_policy,
  get_flush_queue, is_flush_rq, only, restore_request,
}
use nvme_plus.Flush.Machine.{
  Event, flushes, ends, FlushState, queue, same, is_empty, kick_flush, issue_flush, complete_seq,
  next_step, queue_for_flush, end_sequence, remove, time_before,
}
use nvme_plus.Flush.Calls.{
  insert_flush, flush_end_io, flush_data_end_io, put_flush, end_running, after, flushed,
}
use nvme_plus.Flush.Places.{count, places}
use nvme_plus.Flush.Valid.{IsFlushQueue, Gains}
use nvme_plus.Flush.Again.{IsAway}
use nvme_plus.Flush.Life.{
  inserts, flush_ended, refers, call, brings, call-IsFlushQueue, fresh_queue, Reached, fresh, next,
  calls, Reached-IsFlushQueue, Reached-kicked,
}
use nvme_plus.Flush.Order.{todo, Stands, complete_seq-follows}
use nvme_plus.Flush.Insert.{Enters, insert_flush-Enters}
use nvme_plus.Flush.Failure.{AllFail, flush_end_io-AllFail}
use nvme_plus.Flush.Kick.{kick_flush-issues}

abbrev device : Features
device = record { wc = true; has_fua = false; elevator = false; blex = true; hz = 250 }

-- Requests with data, but for those of number 7, 8 and 9
abbrev submitted : ℕ → Request
unfolding rq_init
submitted r = record rq_init {
  cmd_flags = record {
    is_flush = false;
    preflush = true;
    fua = true;
    sync = false;
    drv = false;
    failfast = 0;
  };
  sectors = if ltb 6 r then 0 else 8;
  tag = r;
  mq_ctx = 2;
  mq_hctx = some 3;
  prio = 1;
}

abbrev result : FlushState → Run FlushState → FlushState
result w (ok v) = v
result w fault = w

-- The queue with request 1 inserted at tick 10: its flush is in flight.
one_flush : FlushState
unfolding fresh_queue submitted insert_flush flush_policy complete_seq next_step queue_for_flush
    kick_flush issue_flush cur_seq remove
one_flush = result (fresh_queue submitted) (insert_flush device 10 1 (fresh_queue submitted))

one_flush-events : (one_flush.events ≡ flushes ∷ []) × (queue one_flush false ≡ 1 ∷ [])
unfolding one_flush
one_flush-events = (refl, refl)

one_flush-Reached : Reached device one_flush
unfolding one_flush call
one_flush-Reached = next (fresh submitted) (calls (inserts 10 1) (refl, refl) refl)

call-IsFlushQueue_example :
    Ends
      (λ v. IsFlushQueue v × Gains (brings (flush_ended 20 0)) one_flush v)
      (call device (flush_ended 20 0) one_flush)
unfolding one_flush
call-IsFlushQueue_example =
    call-IsFlushQueue device (flush_ended 20 0) one_flush (Reached-IsFlushQueue one_flush-Reached)
      refl

Reached-kicked_example :
    (((same one_flush.pending_idx one_flush.running_idx ≡ false)
        × (is_empty (queue one_flush one_flush.running_idx) ≡ false))
      ⊎ ((is_empty one_flush.data_in_flight ≡ false)
          × (0 < count 1 (queue one_flush one_flush.pending_idx))))
    × ((j error : ℕ)
        → same one_flush.pending_idx one_flush.running_idx ≡ false
        → one_flush.flush_rq.ref ≡ 1
        → Ends
            (λ v.
              IsFlushQueue v
              × Gains (λ x. 0) one_flush v
              × (v.running_idx ≡ not one_flush.running_idx))
            (flush_end_io device j error one_flush))
    × ((j error s : ℕ)
        → 0 < count s one_flush.data_in_flight
        → Ends
            (λ v. IsFlushQueue v × Gains (λ x. 0) one_flush v × IsAway s one_flush v)
            (flush_data_end_io device j error s one_flush))
unfolding one_flush
Reached-kicked_example = Reached-kicked device one_flush 1 one_flush-Reached (omega arith)

insert_flush-Enters_example :
    Ends
      (Enters 1 (preflush ∷ data_write ∷ postflush ∷ []) (fresh_queue submitted))
      (insert_flush device 10 1 (fresh_queue submitted))
unfolding fresh_queue submitted
insert_flush-Enters_example = insert_flush-Enters device 10 1 (fresh_queue submitted) refl refl

complete_seq-follows_example :
    Ends
      (λ v.
        Stands 1 (data_write ∷ postflush ∷ []) one_flush v
        × (places 1 v ≡ 1 → todo (v.requests 1).seq ≡ data_write ∷ postflush ∷ []))
      (complete_seq device 20 1 (only preflush) 0 one_flush)
unfolding one_flush
complete_seq-follows_example =
    complete_seq-follows device 20 1 preflush (data_write ∷ postflush ∷ []) one_flush refl refl

-- The same with a second reference of the flush request, which a timeout has taken
abbrev shared_flush : FlushState
unfolding one_flush
shared_flush = record one_flush { flush_rq = record one_flush.flush_rq { ref = 2 } }

flush_end_io-AllFail_example :
    Ends
      (AllFail 10 (1 ∷ []) shared_flush)
      (flush_end_io device 20 10 shared_flush >>= flush_end_io device 21 0)
unfolding one_flush
flush_end_io-AllFail_example =
    flush_end_io-AllFail device 20 21 10 0 shared_flush
      (Reached-IsFlushQueue (next one_flush-Reached (refers 2 refl))) refl refl
      (λ e. omega (arith, e))

-- Request 1 pends behind the data of request 2.
abbrev waiting : FlushState
unfolding fresh_queue submitted
waiting = record (fresh_queue submitted) {
  queue_0 = 1 ∷ [];
  data_in_flight = 2 ∷ [];
  pending_since = 100;
}

kick_flush-issues_example :
    let v = kick_flush device (1350 % 2 ^ 64) (submitted 1).cmd_flags waiting in
    (((v.events ≡ flushes ∷ []) × (v.pending_idx ≡ true))
      ↔ ((true ≡ true) × (false ≡ false) × ((false ≡ true) ⊎ (100 + 5 * 250 ≤ 1350))))
    × ((v ≡ waiting) ⊎ ((v.events ≡ flushes ∷ []) × (v.pending_idx ≡ true)))
unfolding waiting fresh_queue
kick_flush-issues_example =
    kick_flush-issues device (submitted 1).cmd_flags 100 1350 waiting refl (omega arith)
      (omega arith) (omega arith)

-- A flush for the first waiting request is sent, and its flush queue is found again from the flush request.
abbrev issued : FlushState
issued = kick_flush device 1350 (submitted 1).cmd_flags waiting

issued-found :
    (get_flush_queue (λ c. c) (λ c. 0) device issued.flush_rq
      ≡ get_flush_queue (λ c. c) (λ c. 0) device (submitted 1))
    × (is_flush_rq issued.flush_rq ≡ true)
unfolding kick_flush issue_flush time_before waiting fresh_queue submitted rq_init get_flush_queue
    is_flush_rq
issued-found = (refl, refl)

-- Requests 7, 8 and 9 have both flushes and no data. The flush for 8, 9 and 7 ends while 7 is at its
-- postflush: the loop moves 8 on, issues the next flush, moves 9 to the end of the list that it walks,
-- ends 7, and meets 9 again, which it ends with no flush for its postflush.
abbrev met_twice : Run FlushState
met_twice = do
  a ← insert_flush device 10 7 (fresh_queue submitted)
  b ← insert_flush device 11 8 a
  c ← insert_flush device 12 9 b
  d ← flush_end_io device 13 0 c
  flush_end_io device 14 0 d

abbrev outcome : FlushState → Run (List Event × List ℕ)
outcome w = ok (w.events, queue w w.running_idx)

met_twice-events :
    (met_twice >>= outcome) ≡ ok (ends 9 0 ∷ ends 7 0 ∷ flushes ∷ flushes ∷ flushes ∷ [], 8 ∷ [])
unfolding fresh_queue submitted rq_init insert_flush flush_policy complete_seq next_step
    queue_for_flush kick_flush issue_flush cur_seq remove flush_end_io put_flush end_running after
    flushed end_sequence restore_request
met_twice-events = refl
