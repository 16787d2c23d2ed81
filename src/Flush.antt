-- ===== src/Flush.antt =====
-- The requests that a flush sequence is made of: daredevil/block/blk-flush.c, with blk_rq_init() of
-- daredevil/block/blk-mq.c and blk_mq_put_driver_tag() of daredevil/block/blk-mq.h.
pub mod Machine
pub mod Calls
pub mod Places
pub mod Branches
pub mod Moves
pub mod Complete
pub mod Valid
pub mod Ending
pub mod Walk
pub mod Again
pub mod Life
pub mod Order
pub mod Failure
pub mod Kick
pub mod Insert
mod Tests
use nvme_plus.Base.{ℕ, Bool, true, false, not, ◌&&◌, ◌||◌, Option, none, some, ◌==◌, if◌then◌else◌}

-- The steps of a sequence, REQ_FSEQ_PREFLUSH to REQ_FSEQ_DONE
pub data Step : Type 0 where
  preflush data_write postflush done : Step

pub Step-discrete : Discrete Step
Step-discrete = hlevel

-- A mask of REQ_FSEQ bits
pub record Steps : Type 0 where
  pub has_preflush : Bool
  pub has_data : Bool
  pub has_postflush : Bool
  pub has_done : Bool

abbrev pub no_steps : Steps
no_steps = record {
  has_preflush = false;
  has_data = false;
  has_postflush = false;
  has_done = false;
}

abbrev pub only : Step → Steps
only preflush = record no_steps { has_preflush = true }
only data_write = record no_steps { has_data = true }
only postflush = record no_steps { has_postflush = true }
only done = record no_steps { has_done = true }

-- `a | b`
abbrev pub both : Steps → Steps → Steps
both a b = record {
  has_preflush = a.has_preflush || b.has_preflush;
  has_data = a.has_data || b.has_data;
  has_postflush = a.has_postflush || b.has_postflush;
  has_done = a.has_done || b.has_done;
}

-- `a & b`, as a condition
abbrev pub overlap : Steps → Steps → Bool
overlap a b =
    (a.has_preflush && b.has_preflush)
    || (a.has_data && b.has_data)
    || (a.has_postflush && b.has_postflush)
    || (a.has_done && b.has_done)

-- `REQ_FSEQ_ACTIONS & ~policy`
abbrev pub skipped : Steps → Steps
skipped policy = record {
  has_preflush = not policy.has_preflush;
  has_data = not policy.has_data;
  has_postflush = not policy.has_postflush;
  has_done = false;
}

-- blk_flush_cur_seq(): the lowest step not completed. With all bits set the result is no step.
unfoldable pub cur_seq : Steps → Option Step
cur_seq seq =
    if not seq.has_preflush
    then some preflush
    else if not seq.has_data
    then some data_write
    else if not seq.has_postflush
    then some postflush
    else if not seq.has_done
    then some done
    else none

-- The bits of cmd_flags that are read or written here. `failfast` is `cmd_flags & REQ_FAILFAST_MASK`.
pub record CmdFlags : Type 0 where
  pub is_flush : Bool
  pub preflush : Bool
  pub fua : Bool
  pub sync : Bool
  pub drv : Bool
  pub failfast : ℕ

-- The functions that an `end_io` pointer has here. `other` is a function of the submitter.
pub data EndIo : Type 0 where
  unset flush_data_end flush_end : EndIo
  other : ℕ → EndIo

-- BLK_MQ_NO_TAG, which is -1U
abbrev pub no_rq_tag : ℕ
no_rq_tag = 4294967295

-- The fields of `struct request` that are read or written here. `is_flush_seq` and `is_inflight` are
-- RQF_FLUSH_SEQ and RQF_MQ_INFLIGHT; `prio` is the two bits of rq_flags above them.
pub record Request : Type 0 where
  pub seq : Steps
  pub cmd_flags : CmdFlags
  pub sectors : ℕ
  pub bio : ℕ
  pub biotail : ℕ
  pub is_flush_seq : Bool
  pub is_inflight : Bool
  pub prio : ℕ
  pub end_io : EndIo
  pub saved_end_io : EndIo
  pub tag : ℕ
  pub internal_tag : ℕ
  pub mq_ctx : ℕ
  pub mq_hctx : Option ℕ
  pub ref : ℕ
  pub is_idle : Bool

-- The features of the request queue: QUEUE_FLAG_WC and QUEUE_FLAG_FUA, whether it has an elevator, and
-- blk_blex_nvme_enabled(). `hz` is the kernel's HZ.
pub record Features : Type 0 where
  pub wc : Bool
  pub has_fua : Bool
  pub elevator : Bool
  pub blex : Bool
  pub hz : ℕ

-- blk_flush_policy()
unfoldable pub flush_policy : Features → Request → Steps
flush_policy q rq = record {
  has_preflush = q.wc && rq.cmd_flags.preflush;
  has_data = not (rq.sectors == 0);
  has_postflush = q.wc && (not q.has_fua && rq.cmd_flags.fua);
  has_done = false;
}

-- blk_flush_restore_request()
unfoldable pub restore_request : Request → Request
restore_request rq = record rq { bio = rq.biotail; is_flush_seq = false; end_io = rq.saved_end_io }

-- blk_rq_init(): the request is zeroed, but for its tags.
unfoldable pub rq_init : Request
rq_init = record {
  seq = no_steps;
  cmd_flags = record {
    is_flush = false;
    preflush = false;
    fua = false;
    sync = false;
    drv = false;
    failfast = 0;
  };
  sectors = 0;
  bio = 0;
  biotail = 0;
  is_flush_seq = false;
  is_inflight = false;
  prio = 0;
  end_io = unset;
  saved_end_io = unset;
  tag = no_rq_tag;
  internal_tag = no_rq_tag;
  mq_ctx = 0;
  mq_hctx = none;
  ref = 0;
  is_idle = true;
}

-- blk_mq_put_driver_tag(): with no tag, or one that is not from a scheduler's tag, nothing is put.
unfoldable pub put_driver_tag : Request → Request
put_driver_tag rq =
    if (rq.tag == no_rq_tag) || (rq.internal_tag == no_rq_tag)
    then rq
    else record rq { tag = no_rq_tag; is_inflight = false }

-- is_flush_rq()
unfoldable pub is_flush_rq : Request → Bool
is_flush_rq rq = elim rq.end_io [
  | unset ↦ false
  | flush_data_end ↦ false
  | flush_end ↦ true
  | other f ↦ false
]

-- A flush queue: that of a CPU's VNQ in a hardware context, or that of a hardware context
pub data FlushQueueId : Type 0 where
  vnq_queue : ℕ → ℕ → FlushQueueId
  hctx_queue : ℕ → FlushQueueId

-- The hardware context that blk_blex_get_flush_queue() reads: that of index 0 while none is set
abbrev pub hctx_or_first : Option ℕ → ℕ
hctx_or_first none = 0
hctx_or_first (some hctx) = hctx

-- blk_blex_get_flush_queue() or blk_get_flush_queue(), as its callers choose, for hardware contexts that
-- have their VNQs. `cpu` gives the CPU of a
-- software queue, and `map_queue` the hardware context of a flush from it, as blk_mq_map_queue() does.
unfoldable pub get_flush_queue : (ℕ → ℕ) → (ℕ → ℕ) → Features → Request → FlushQueueId
get_flush_queue cpu map_queue q rq =
    if q.blex
    then vnq_queue (hctx_or_first rq.mq_hctx) (cpu rq.mq_ctx)
    else hctx_queue (map_queue rq.mq_ctx)
