-- ===== src/Flush/Calls.antt =====
-- The calls that drive a flush queue: flush_end_io(), mq_flush_data_end_io() and blk_insert_flush() of
-- daredevil/block/blk-flush.c.
use nvme_plus.Base.{
  ℕ, zero, suc, ◌*◌, Bool, true, false, not, ◌&&◌, ◌||◌, Option, none, some, List, [], ◌∷◌, ◌==◌,
  length, if◌then◌else◌,
}
use nvme_plus.Base.Run.{Run, ok, fault, ◌>>=◌}
use nvme_plus.Regulator.{update}
use nvme_plus.Flush.{
  Step, preflush, data_write, postflush, Steps, no_steps, only, skipped, cur_seq, CmdFlags,
  flush_data_end, no_rq_tag, Request, Features, flush_policy, put_driver_tag,
}
use nvme_plus.Flush.Machine.{ends, bypasses, FlushState, queue, same, first, complete_seq}

-- The element after `r` in a list, if `r` is not its last
unfoldable pub after : ℕ → List ℕ → Option ℕ
after r [] = none
after r (x ∷ xs) = let rest = after r xs in if r == x then first xs else rest

-- The steps that flush_end_io() completes; any other is a BUG().
unfoldable pub flushed : Option Step → Run Steps
flushed (some preflush) = ok (only preflush)
flushed (some postflush) = ok (only postflush)
flushed _ = fault

-- list_for_each_entry_safe() over the list of index `k`, with the next element read before the body.
-- Fuel that runs out is a fault.
unfoldable pub end_running : Features → ℕ → Bool → ℕ → ℕ → Option ℕ → FlushState → Run FlushState
end_running q jiffies k error fuel none w = ok w
end_running q jiffies k error zero (some r) w = fault
end_running q jiffies k error (suc fuel) (some r) w = do
  seq ← flushed (cur_seq (w.requests r).seq)
  v ← complete_seq q jiffies r seq error w
  end_running q jiffies k error fuel (after r (queue w k)) v

-- An error that an earlier call left goes before that of the last one.
abbrev pub final_error : ℕ → ℕ → ℕ
final_error rq_status error = if rq_status == 0 then error else rq_status

-- The flush request as flush_end_io() leaves it once the last reference is put
unfoldable pub freed : Features → Request → Request
freed q flush_rq =
    if not q.elevator
    then record idle { tag = no_rq_tag }
    else record (put_driver_tag idle) { internal_tag = no_rq_tag }
  where
    idle : Request
    idle = record flush_rq { ref = 0; is_idle = true }

-- flush_end_io() by the references that the flush request has. One that is left keeps the error.
unfoldable pub put_flush : Features → ℕ → ℕ → FlushState → ℕ → Run FlushState
put_flush q jiffies error w zero =
    ok (record w { flush_rq = record w.flush_rq { ref = 4294967295 }; rq_status = error })
put_flush q jiffies error w (suc (suc n)) =
    ok (record w { flush_rq = record w.flush_rq { ref = suc n }; rq_status = error })
put_flush q jiffies error w (suc zero) =
    if same w.pending_idx w.running_idx
    then fault
    else end_running q jiffies w.running_idx (final_error w.rq_status error)
        (suc (2 * length (queue w w.running_idx))) (first (queue w w.running_idx))
        (record w { rq_status = 0; flush_rq = freed q w.flush_rq; running_idx = not w.running_idx })

-- flush_end_io()
unfoldable pub flush_end_io : Features → ℕ → ℕ → FlushState → Run FlushState
flush_end_io q jiffies error w = put_flush q jiffies error w w.flush_rq.ref

-- mq_flush_data_end_io()
unfoldable pub flush_data_end_io : Features → ℕ → ℕ → ℕ → FlushState → Run FlushState
flush_data_end_io q jiffies error r w = complete_seq q jiffies r (only data_write) error put
  where
    put : FlushState
    put =
        if q.elevator
        then record w { requests = update w.requests r (put_driver_tag (w.requests r)) }
        else w

-- The flags that the driver gets
unfoldable pub driver_flags : Features → CmdFlags → CmdFlags
driver_flags q flags = record flags { preflush = false; fua = q.has_fua && flags.fua; sync = true }

-- A request marked as part of a flush sequence
abbrev pub sequenced : Request → Request → Request
sequenced rq adjusted = record adjusted {
  seq = no_steps;
  is_flush_seq = true;
  saved_end_io = rq.end_io;
  end_io = flush_data_end;
}

-- blk_insert_flush(). `bio` and `biotail` differ only for a request of several bios.
unfoldable pub insert_flush : Features → ℕ → ℕ → FlushState → Run FlushState
insert_flush q jiffies r w =
    if not (policy.has_preflush || policy.has_data || policy.has_postflush)
    then ok (record v { events = ends r 0 ∷ v.events })
    else if not (rq.bio == rq.biotail)
    then fault
    else if policy.has_data && not (policy.has_preflush || policy.has_postflush)
    then ok (record v { events = bypasses r ∷ v.events })
    else complete_seq q jiffies r (skipped policy) 0
        (record v { requests = update w.requests r (sequenced rq adjusted) })
  where
    rq : Request
    rq = w.requests r

    policy : Steps
    policy = flush_policy q rq

    adjusted : Request
    adjusted = record rq { cmd_flags = driver_flags q rq.cmd_flags }

    v : FlushState
    v = record w { requests = update w.requests r adjusted }
