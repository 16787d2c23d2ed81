-- ===== src/Issue.antt =====
-- How requests are given to the driver, one by one, and what becomes of one that it does not take:
-- __blk_mq_issue_directly(), __blk_mq_try_issue_directly(), blk_mq_request_bypass_insert() and
-- blk_mq_update_dispatch_busy() of daredevil/block/blk-mq.c, and blk_mq_sched_insert_request() of
-- daredevil/block/blk-mq-sched.c, on a tag set with blex.
pub mod Effects
pub mod Told
pub mod Samples
use nvme_plus.Base.{
  ℕ, zero, suc, ◌+◌, ◌*◌, ◌/◌, ◌%◌, ◌^◌, Bool, true, false, not, ◌&&◌, ◌||◌, List, [], ◌∷◌, ◌==◌,
  if◌then◌else◌,
}
use nvme_plus.Base.Words.{◌*u◌, ◌+u◌}
use nvme_plus.Regulator.{update}
use nvme_plus.Submission.{SubmissionQueue, Plugged, queue_cmd, commit_rqs}
use nvme_plus.Stage.{HwCtx, stage_request}

-- `blk_status_t`: BLK_STS_OK, the three that ask to try again, and all others.
pub data Status : Type 0 where
  sts_ok : Status
  sts_resource : Status
  sts_dev_resource : Status
  sts_zone_resource : Status
  sts_other : ℕ → Status

-- What is done with requests and hardware contexts: a request taken by the driver, ended, taken back by
-- __blk_mq_requeue_request() or staged; commit_rqs() called; a run asked for, asynchronous or not, or with a delay.
pub data Event : Type 0 where
  taken : Plugged → Event
  ended : Plugged → Status → Event
  requeued : Plugged → Event
  staged : Plugged → Event
  committed : ℕ → Event
  ran : ℕ → Bool → Event
  delayed : ℕ → Event

-- The submission queues and hardware contexts of a device, by index, `dispatch_busy` and
-- BLK_MQ_S_SCHED_RESTART of each, and what was
-- done, the newest first.
pub record Queues : Type 0 where
  pub sqs : ℕ → SubmissionQueue
  pub hctxs : ℕ → HwCtx
  pub dispatch_busy : ℕ → ℕ
  pub restart : ℕ → Bool
  pub log : List Event

-- What a request meets when it is issued: whether the hardware context is stopped or the request queue
-- quiesced, whether there is a budget and a driver tag, and what ->queue_rq() returns.
pub record Meets : Type 0 where
  pub stopped : Bool
  pub quiesced : Bool
  pub budget : Bool
  pub driver_tag : Bool
  pub reply : Status

abbrev pub note : Event → Queues → Queues
note e w = record w { log = e ∷ w.log }

-- ->queue_rq() where it takes the request
unfoldable pub take_rq : Plugged → Bool → Queues → Queues
take_rq p last w =
    note (taken p) (record w { sqs = update w.sqs p.hctx (queue_cmd p.rq last (w.sqs p.hctx)) })

-- ->commit_rqs()
unfoldable pub commit : ℕ → Queues → Queues
commit hctx w =
    note (committed hctx) (record w { sqs = update w.sqs hctx (commit_rqs (w.sqs hctx)) })

-- The average as a number of its old value
abbrev pub ewma : Bool → ℕ → ℕ
ewma busy old = (if busy then old *u 7 +u 2 ^ 4 else old *u 7) / 8

-- blk_mq_update_dispatch_busy()
unfoldable pub update_dispatch_busy : ℕ → Bool → Queues → Queues
update_dispatch_busy hctx busy w =
    if w.dispatch_busy hctx == 0 && not busy
    then w
    else record w { dispatch_busy = update w.dispatch_busy hctx (ewma busy (w.dispatch_busy hctx)) }

-- blk_blex_stage_request() past the ctx list
unfoldable pub stage : Plugged → Bool → Queues → Queues
stage p at_head w = note (staged p) (record w {
  hctxs = update w.hctxs p.hctx (stage_request p.rq p.cpu at_head true (w.hctxs p.hctx));
})

-- blk_mq_request_bypass_insert()
unfoldable pub request_bypass_insert : Plugged → Bool → Bool → Queues → Queues
request_bypass_insert p at_head run_queue w =
    if run_queue then note (ran p.hctx false) (stage p at_head w) else stage p at_head w

-- blk_mq_sched_insert_request(): a request of a flush sequence goes to the head, past the scheduler, all
-- others are staged as well.
unfoldable pub sched_insert_request : Plugged → Bool → Bool → Bool → Queues → Queues
sched_insert_request p at_head run_queue async w =
    let v = if p.flush_seq then request_bypass_insert p true false w else stage p at_head w in
    if run_queue then note (ran p.hctx async) v else v

-- __blk_mq_issue_directly(), by what ->queue_rq() returns
unfoldable pub issue_directly : Plugged → Bool → Status → Queues → Status × Queues
issue_directly p last sts_ok w = (sts_ok, update_dispatch_busy p.hctx false (take_rq p last w))
issue_directly p last sts_resource w =
    (sts_resource, note (requeued p) (update_dispatch_busy p.hctx true w))
issue_directly p last sts_dev_resource w =
    (sts_dev_resource, note (requeued p) (update_dispatch_busy p.hctx true w))
issue_directly p last sts_zone_resource w = (sts_zone_resource, update_dispatch_busy p.hctx false w)
issue_directly p last (sts_other n) w = (sts_other n, update_dispatch_busy p.hctx false w)

-- The label insert
abbrev pub insert_at : Plugged → Bool → Bool → Queues → Status × Queues
insert_at p bypass_insert run_queue w =
    if bypass_insert
    then (sts_resource, w)
    else (sts_ok, sched_insert_request p false run_queue false w)

-- __blk_mq_try_issue_directly()
unfoldable pub try_issue_directly : Meets → Plugged → Bool → Bool → Queues → Status × Queues
try_issue_directly m p bypass_insert last w =
    if m.stopped || m.quiesced
    then insert_at p false false w
    else if p.elv && not bypass_insert
    then insert_at p bypass_insert true w
    else if not m.budget
    then insert_at p bypass_insert true w
    else if not m.driver_tag
    then insert_at p bypass_insert true w
    else issue_directly p last m.reply w

-- blk_mq_try_issue_directly(), from the result on
unfoldable pub settle_issue : Plugged → Status → Queues → Queues
settle_issue p sts_ok w = w
settle_issue p sts_resource w = request_bypass_insert p false true w
settle_issue p sts_dev_resource w = request_bypass_insert p false true w
settle_issue p sts_zone_resource w = note (ended p sts_zone_resource) w
settle_issue p (sts_other n) w = note (ended p (sts_other n)) w

-- blk_mq_try_issue_directly()
unfoldable pub issue_request : Meets → Plugged → Queues → Queues
issue_request m p w = let s = try_issue_directly m p false true w in settle_issue p s.0 s.1
