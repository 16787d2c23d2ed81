-- ===== src/Stage.antt =====
-- Requests staged in the virtual NQs of a hardware context until it is run: blk_blex_stage_request() of
-- daredevil/block/blk-blex.h, the functions of daredevil/block/blk-mq.c that stage or take requests, and
-- what __blk_mq_sched_dispatch_requests() of daredevil/block/blk-mq-sched.c gathers.
pub mod Gather
pub mod Marks
pub mod NextCpu
mod Tests
use nvme_plus.Base.{
  ℕ, zero, suc, ◌-◌, Bool, true, false, not, ◌&&◌, ◌||◌, Option, none, some, List, [], ◌∷◌, ◌++◌,
  leb, if◌then◌else◌,
}
use nvme_plus.Regulator.{update}

-- `struct blk_mq_hw_ctx` with its VNQs, by CPU. A request is a number. `ctx_map` is the bitmap of CPUs
-- with requests in their `ctx_list`.
pub record HwCtx : Type 0 where
  pub dispatch : List ℕ
  pub dispatch_list : ℕ → List ℕ
  pub ctx_list : ℕ → List ℕ
  pub run_cpumask : ℕ → Bool
  pub ctx_map : ℕ → Bool

abbrev pub is_empty {ℓ} : {A : Type ℓ} → List A → Bool
is_empty [] = true
is_empty (x ∷ xs) = false

-- blk_blex_mark_allowed_cpu() and blk_blex_unmark_allowed_cpu()
unfoldable pub mark_allowed_cpu : ℕ → HwCtx → HwCtx
mark_allowed_cpu cpu h = record h { run_cpumask = update h.run_cpumask cpu true }

unfoldable pub unmark_allowed_cpu : ℕ → HwCtx → HwCtx
unmark_allowed_cpu cpu h = record h { run_cpumask = update h.run_cpumask cpu false }

-- list_add() or list_add_tail()
abbrev pub add : Bool → ℕ → List ℕ → List ℕ
add at_head rq l = if at_head then rq ∷ l else l ++ rq ∷ []

-- blk_blex_stage_request() under the lock
unfoldable pub put_staged : ℕ → ℕ → Bool → Bool → HwCtx → HwCtx
put_staged rq cpu at_head bypass h =
    if bypass
    then record h {
      dispatch_list = update h.dispatch_list cpu (add at_head rq (h.dispatch_list cpu));
    }
    else record h { ctx_list = update h.ctx_list cpu (add at_head rq (h.ctx_list cpu)) }

-- blk_blex_stage_request(): the CPU is marked before the lock is taken.
unfoldable pub stage_request : ℕ → ℕ → Bool → Bool → HwCtx → HwCtx
stage_request rq cpu at_head bypass h = put_staged rq cpu at_head bypass (mark_allowed_cpu cpu h)

-- blk_mq_insert_requests(): the list is appended, and the CPU marked, under the lock.
unfoldable pub insert_requests : List ℕ → ℕ → HwCtx → HwCtx
insert_requests rqs cpu h =
    mark_allowed_cpu cpu
      (record h { dispatch_list = update h.dispatch_list cpu (h.dispatch_list cpu ++ rqs) })

-- blk_blex_flush_busy_ctx(): the list that the caller goes on with
unfoldable pub flush_busy_ctx : ℕ → HwCtx → List ℕ → HwCtx × List ℕ
flush_busy_ctx cpu h rqs = (
  unmark_allowed_cpu cpu
      (record h { ctx_list = update h.ctx_list cpu []; ctx_map = update h.ctx_map cpu false }),
  rqs ++ h.ctx_list cpu,
)

-- blk_blex_dispatch_non_bypass_rq(): the request that it takes, if any
unfoldable pub dispatch_non_bypass_rq : ℕ → HwCtx → HwCtx × Option ℕ
dispatch_non_bypass_rq cpu h = take (h.ctx_list cpu)
  where
    take : List ℕ → HwCtx × Option ℕ
    take [] = (h, none)
    take (rq ∷ rest) =
        let v : HwCtx = record h { ctx_list = update h.ctx_list cpu rest } in
        if is_empty rest
        then (unmark_allowed_cpu cpu (record v { ctx_map = update h.ctx_map cpu false }), some rq)
        else (v, some rq)

-- The loop of __blk_mq_sched_dispatch_requests() over the marked CPUs below `n`, in their order
unfoldable pub gather_cpus : ℕ → HwCtx → List ℕ → HwCtx × List ℕ
gather_cpus zero h rqs = (h, rqs)
gather_cpus (suc cpu) h rqs =
    let (v, before) = gather_cpus cpu h rqs in
    if v.run_cpumask cpu && not (is_empty (v.dispatch_list cpu))
    then (
      unmark_allowed_cpu cpu (record v { dispatch_list = update v.dispatch_list cpu [] }),
      before ++ v.dispatch_list cpu,
    )
    else (v, before)

-- __blk_mq_sched_dispatch_requests(), up to the list of requests that it dispatches first
unfoldable pub gather : ℕ → HwCtx → HwCtx × List ℕ
gather nr_cpu_ids h = gather_cpus nr_cpu_ids (record h { dispatch = [] }) h.dispatch

abbrev pub any_below : (ℕ → Bool) → ℕ → Bool
any_below f zero = false
any_below f (suc n) = let rest = any_below f n in f n || rest

-- blk_mq_hctx_has_pending(), with what blk_mq_sched_has_work() says
unfoldable pub hctx_has_pending : ℕ → Bool → HwCtx → Bool
hctx_has_pending nr_cpu_ids sched_has_work h =
    not (is_empty h.dispatch)
    || (any_below h.ctx_map nr_cpu_ids || (sched_has_work || any_below h.run_cpumask nr_cpu_ids))

-- cpumask_next_and(): the first CPU after `cpu`, below `n`, in both masks, or `n`
unfoldable pub next_from : (ℕ → Bool) → ℕ → ℕ → ℕ
next_from f cpu zero = cpu
next_from f cpu (suc left) = let rest = next_from f (suc cpu) left in if f cpu then cpu else rest

-- blk_blex_hctx_select_next_cpu() with blex: `default_cpu` and `next_cpu` are the hctx's, `online` is
-- cpu_online_mask.
unfoldable pub hctx_select_next_cpu : ℕ → (ℕ → Bool) → ℕ → ℕ → HwCtx → ℕ
hctx_select_next_cpu nr_cpu_ids online default_cpu next_cpu h =
    if not (any_below h.run_cpumask nr_cpu_ids)
    then default_cpu
    else if leb nr_cpu_ids after
    then next_from allowed 0 nr_cpu_ids
    else after
  where
    allowed : ℕ → Bool
    allowed cpu = h.run_cpumask cpu && online cpu

    after : ℕ
    after = next_from allowed (suc next_cpu) (nr_cpu_ids - suc next_cpu)
