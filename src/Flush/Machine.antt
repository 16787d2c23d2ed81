-- ===== src/Flush/Machine.antt =====
-- The state machine of a flush queue: blk_flush_complete_seq() and blk_kick_flush() of
-- daredevil/block/blk-flush.c. The lists hold the numbers of requests, as the kernel's hold their
-- addresses; BUG() is a fault.
use nvme_plus.Base.{
  ℕ, ◌+◌, ◌*◌, ◌^◌, ◌%◌, ◌-◌, Bool, true, false, not, ◌&&◌, Option, none, some, List, [], ◌∷◌, ◌++◌,
  ◌==◌, leb, if◌then◌else◌,
}
use nvme_plus.Base.Run.{Run, ok, fault, ◌>>=◌}
use nvme_plus.Regulator.{update}
use nvme_plus.Flush.{
  Step, preflush, data_write, postflush, done, Steps, both, overlap, cur_seq, CmdFlags, flush_end,
  Request, Features, restore_request, rq_init,
}

-- What a call does outside the flush queue: a request put at the front of the requeue list to be
-- sent, the flush request put at its back, a request inserted past the machinery, a request ended.
pub data Event : Type 0 where
  sends : ℕ → Event
  flushes : Event
  bypasses : ℕ → Event
  ends : ℕ → ℕ → Event

-- `struct blk_flush_queue`, with the requests it refers to, and what was done outside it, the latest
-- first. `flush_queue[i]` is `queue_0` and `queue_1`; an index is true for 1. BLK_STS_OK is 0.
pub record FlushState : Type 0 where
  pub queue_0 : List ℕ
  pub queue_1 : List ℕ
  pub pending_idx : Bool
  pub running_idx : Bool
  pub pending_since : ℕ
  pub data_in_flight : List ℕ
  pub rq_status : ℕ
  pub flush_rq : Request
  pub requests : ℕ → Request
  pub events : List Event

abbrev pub queue : FlushState → Bool → List ℕ
queue w i = if i then w.queue_1 else w.queue_0

abbrev pub same : Bool → Bool → Bool
same a b = if a then b else not b

abbrev pub is_empty {ℓ} : {A : Type ℓ} → List A → Bool
is_empty [] = true
is_empty (x ∷ xs) = false

-- The element that a list head points to
abbrev pub first {ℓ} : {A : Type ℓ} → List A → Option A
first [] = none
first (x ∷ xs) = some x

-- list_del_init(), on the one list that holds the request
unfoldable pub remove : ℕ → List ℕ → List ℕ
remove r [] = []
remove r (x ∷ xs) = let rest = remove r xs in if r == x then rest else x ∷ rest

abbrev pub list_del : ℕ → FlushState → FlushState
list_del r w = record w {
  queue_0 = remove r w.queue_0;
  queue_1 = remove r w.queue_1;
  data_in_flight = remove r w.data_in_flight;
}

-- time_before() on 64-bit jiffies
unfoldable pub time_before : ℕ → ℕ → Bool
time_before a b = leb (2 ^ 63) ((a % 2 ^ 64 + 2 ^ 64 - b % 2 ^ 64) % 2 ^ 64)

-- blk_kick_flush() from `flush_pending_idx ^= 1` on
unfoldable pub issue_flush : Features → CmdFlags → ℕ → FlushState → FlushState
issue_flush q flags first_rq w = record w {
  pending_idx = not w.pending_idx;
  flush_rq = tagged;
  events = flushes ∷ w.events;
}
  where
    lender : Request
    lender = w.requests first_rq

    made : Request
    made = record rq_init {
      mq_ctx = lender.mq_ctx;
      mq_hctx = lender.mq_hctx;
      prio = if q.blex then lender.prio else 0;
      is_flush_seq = true;
      end_io = flush_end;
      ref = 1;
      cmd_flags = record {
        is_flush = true;
        preflush = true;
        fua = false;
        sync = false;
        drv = flags.drv;
        failfast = flags.failfast;
      };
    }

    tagged : Request
    tagged =
        if not q.elevator
        then record made { tag = lender.tag; is_inflight = true }
        else record made { internal_tag = lender.internal_tag }

-- The second and third condition: the flush waits for data in flight that has not been waited for too long.
abbrev pub waits : Features → ℕ → FlushState → Bool
waits q jiffies w =
    not (is_empty w.data_in_flight) && time_before jiffies ((w.pending_since + 5 * q.hz) % 2 ^ 64)

-- blk_kick_flush()
unfoldable pub kick_flush : Features → ℕ → CmdFlags → FlushState → FlushState
kick_flush q jiffies flags w = kick (queue w w.pending_idx)
  where
    kick : List ℕ → FlushState
    kick [] = w
    kick (first_rq ∷ rest) =
        if not (same w.pending_idx w.running_idx)
        then w
        else if waits q jiffies w
        then w
        else issue_flush q flags first_rq w

-- list_move_tail() to the pending list
unfoldable pub queue_for_flush : ℕ → ℕ → FlushState → FlushState
queue_for_flush jiffies r w =
    if w.pending_idx
    then record v { queue_1 = v.queue_1 ++ r ∷ [] }
    else record v { queue_0 = v.queue_0 ++ r ∷ [] }
  where
    v : FlushState
    v = record (list_del r w) {
      pending_since = if is_empty (queue w w.pending_idx) then jiffies else w.pending_since;
    }

unfoldable pub send_data : ℕ → FlushState → FlushState
send_data r w = record v {
  data_in_flight = v.data_in_flight ++ r ∷ [];
  events = sends r ∷ v.events;
}
  where
    v : FlushState
    v = list_del r w

unfoldable pub end_sequence : ℕ → ℕ → FlushState → FlushState
end_sequence r error w = record (list_del r w) {
  requests = update w.requests r (restore_request (w.requests r));
  events = ends r error ∷ w.events;
}

-- The switch of blk_flush_complete_seq()
unfoldable pub next_step : ℕ → ℕ → ℕ → FlushState → Option Step → Run FlushState
next_step jiffies r error w (some preflush) = ok (queue_for_flush jiffies r w)
next_step jiffies r error w (some postflush) = ok (queue_for_flush jiffies r w)
next_step jiffies r error w (some data_write) = ok (send_data r w)
next_step jiffies r error w (some done) = ok (end_sequence r error w)
next_step jiffies r error w none = fault

-- blk_flush_complete_seq()
unfoldable pub complete_seq : Features → ℕ → ℕ → Steps → ℕ → FlushState → Run FlushState
complete_seq q jiffies r seq error w = if overlap rq.seq seq then fault else (do
  v ←
      next_step jiffies r error
        (record w { requests = update w.requests r (record rq { seq = all }) })
        (if error == 0 then cur_seq all else some done)
  ok (kick_flush q jiffies rq.cmd_flags v))
  where
    rq : Request
    rq = w.requests r

    all : Steps
    all = both rq.seq seq
