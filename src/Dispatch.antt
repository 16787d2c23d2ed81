-- ===== src/Dispatch.antt =====
-- How a hardware context that runs gives its requests to the driver: blk_mq_dispatch_rq_list() of
-- daredevil/block/blk-mq.c on a tag set with blex, and the part of __blk_mq_sched_dispatch_requests() of
-- daredevil/block/blk-mq-sched.c that calls it first.
pub mod Conserve
pub mod Served
pub mod Told
mod Tests
use nvme_plus.Base.{
  ℕ, zero, suc, ◌+◌, ◌-◌, Bool, true, false, not, ◌&&◌, ◌||◌, List, [], ◌∷◌, ◌++◌, ◌==◌,
  if◌then◌else◌,
}
use nvme_plus.Regulator.{update}
use nvme_plus.Submission.{Plugged}
use nvme_plus.Stage.{HwCtx, is_empty, gather}
use nvme_plus.Issue.{
  Status, sts_ok, sts_resource, sts_dev_resource, sts_zone_resource, sts_other, ended, requeued,
  ran, delayed, Queues, note, take_rq, commit, update_dispatch_busy,
}
use nvme_plus.Plug.{rqs_of}

-- `enum prep_dispatch`
pub data Prep : Type 0 where
  prep_ok : Prep
  prep_no_tag : Prep
  prep_no_budget : Prep

-- What a request meets: whether there is a budget for it, a driver tag at once, one after it was marked
-- as waiting, and one while the request before it is dispatched, and what ->queue_rq() returns.
pub record DispatchMeets : Type 0 where
  pub budget : Bool
  pub driver_tag : Bool
  pub tag_after_wait : Bool
  pub tag_as_next : Bool
  pub reply : Status

-- What the loop of blk_mq_dispatch_rq_list() counts: zone_list, queued, errors, needs_resource and ret
pub record Tally : Type 0 where
  pub zone_list : List Plugged
  pub queued : ℕ
  pub errors : ℕ
  pub needs_resource : Bool
  pub ret : Status

-- How the loop ends: the list that is left, the last `prep`, and the number of budgets
pub record LoopEnd : Type 0 where
  pub list : List Plugged
  pub tally : Tally
  pub prep : Prep
  pub nr_budgets : ℕ
  pub queues : Queues

-- blk_mq_prep_dispatch_rq(), with blk_mq_mark_tag_wait(), which marks a hardware context with tags of its
-- own for a restart
unfoldable pub prep_dispatch_rq : Bool → DispatchMeets → ℕ → Bool → Queues → Prep × Queues
prep_dispatch_rq tag_shared m hctx need_budget w =
    let marked = if tag_shared then w else record w { restart = update w.restart hctx true } in
    if need_budget && not m.budget
    then (prep_no_budget, w)
    else if m.driver_tag
    then (prep_ok, w)
    else if m.tag_after_wait
    then (prep_ok, marked)
    else (prep_no_tag, marked)

-- bd.last: nothing follows, or what follows gets no driver tag.
unfoldable pub is_last : (Plugged → DispatchMeets) → List Plugged → Bool
is_last meets [] = true
is_last meets (next ∷ rest) = not (meets next).tag_as_next

-- The switch of the loop, where `more` is the rest of it
unfoldable pub after_dispatch :
    Plugged
    → List Plugged
    → (Tally → Queues → LoopEnd)
    → ℕ
    → Bool
    → Status
    → Tally
    → Queues
    → LoopEnd
after_dispatch p rest more budgets last sts_ok t w =
    more (record t { queued = suc t.queued; ret = sts_ok }) (take_rq p last w)
after_dispatch p rest more budgets last sts_resource t w = record {
  list = p ∷ rest;
  tally = record t { needs_resource = true; ret = sts_resource };
  prep = prep_ok;
  nr_budgets = budgets;
  queues = note (requeued p) w;
}
after_dispatch p rest more budgets last sts_dev_resource t w = record {
  list = p ∷ rest;
  tally = record t { ret = sts_dev_resource };
  prep = prep_ok;
  nr_budgets = budgets;
  queues = note (requeued p) w;
}
after_dispatch p rest more budgets last sts_zone_resource t w =
    more (record t { zone_list = p ∷ t.zone_list; needs_resource = true; ret = sts_zone_resource })
      (note (requeued p) w)
after_dispatch p rest more budgets last (sts_other n) t w =
    more (record t { errors = suc t.errors; ret = sts_other n }) (note (ended p (sts_other n)) w)

-- What follows blk_mq_prep_dispatch_rq() in the loop
unfoldable pub after_prep : Prep → LoopEnd → LoopEnd → LoopEnd
after_prep prep_ok dispatched stopped = dispatched
after_prep prep_no_tag dispatched stopped = stopped
after_prep prep_no_budget dispatched stopped = stopped

-- The loop of blk_mq_dispatch_rq_list()
unfoldable pub dispatch_loop :
    Bool → (Plugged → DispatchMeets) → ℕ → List Plugged → ℕ → Tally → Queues → LoopEnd
dispatch_loop tag_shared meets hctx [] budgets t w = record {
  list = [];
  tally = t;
  prep = prep_ok;
  nr_budgets = budgets;
  queues = w;
}
dispatch_loop tag_shared meets hctx (p ∷ rest) budgets t w =
    let s = prep_dispatch_rq tag_shared (meets p) hctx (budgets == 0) w in
    after_prep s.0
      (after_dispatch p rest (dispatch_loop tag_shared meets hctx rest (budgets - 1)) (budgets - 1)
        (is_last meets rest) (meets p).reply t s.1)
      (record { list = p ∷ rest; tally = t; prep = s.0; nr_budgets = budgets; queues = s.1 })

abbrev pub is_dev_resource : Status → Bool
is_dev_resource sts_dev_resource = true
is_dev_resource s = false

abbrev pub is_no_tag : Prep → Bool
is_no_tag prep_no_tag = true
is_no_tag p = false

abbrev pub is_no_budget : Prep → Bool
is_no_budget prep_no_budget = true
is_no_budget p = false

-- commit_rqs() after the loop, where `left` is the list with zone_list at its end
unfoldable pub commit_after : ℕ → List Plugged → LoopEnd → Queues → Queues
commit_after hctx left e w =
    if (not (is_empty left)
        || (not (e.tally.errors == 0) || (e.tally.needs_resource || is_dev_resource e.tally.ret)))
      && not (e.tally.queued == 0)
    then commit hctx w
    else w

-- What is left is put at the end of hctx->dispatch, and the hardware context is run again, at once or
-- later, if no restart is noted or none may come. `wait_empty` says that it waits for no tag.
unfoldable pub put_back : Bool → Bool → ℕ → List Plugged → LoopEnd → Queues → Queues
put_back tag_shared wait_empty hctx left e w =
    let v = record w {
      hctxs =
          update w.hctxs hctx
            (record (w.hctxs hctx) { dispatch = (w.hctxs hctx).dispatch ++ rqs_of left });
    } in
    let again =
      if not (w.restart hctx) || (is_no_tag e.prep && tag_shared && wait_empty)
      then note (ran hctx true) v
      else if e.tally.needs_resource || is_no_budget e.prep
      then note (delayed hctx) v
      else v in
    update_dispatch_busy hctx true again

-- blk_mq_dispatch_rq_list() after its loop
unfoldable pub finish_dispatch : Bool → Bool → ℕ → LoopEnd → Bool × Queues
finish_dispatch tag_shared wait_empty hctx e =
    let left = e.list ++ e.tally.zone_list in
    let v = commit_after hctx left e e.queues in
    if is_empty left
    then (not (e.tally.queued + e.tally.errors == 0), update_dispatch_busy hctx false v)
    else (false, put_back tag_shared wait_empty hctx left e v)

abbrev pub no_tally : Tally
no_tally = record { zone_list = []; queued = 0; errors = 0; needs_resource = false; ret = sts_ok }

-- blk_mq_dispatch_rq_list()
unfoldable pub dispatch_rq_list :
    Bool → Bool → (Plugged → DispatchMeets) → ℕ → List Plugged → ℕ → Queues → Bool × Queues
dispatch_rq_list tag_shared wait_empty meets hctx ps nr_budgets w =
    if is_empty ps
    then (false, w)
    else finish_dispatch tag_shared wait_empty hctx
        (dispatch_loop tag_shared meets hctx ps nr_budgets no_tally w)

abbrev pub all_of : (ℕ → Plugged) → List ℕ → List Plugged
all_of request [] = []
all_of request (r ∷ rs) = request r ∷ all_of request rs

-- __blk_mq_sched_dispatch_requests(), up to blk_mq_dispatch_rq_list() for the requests that it gathers.
-- `request` gives each request by its number; the result says whether it goes on with the software queues.
unfoldable pub dispatch_gathered :
    Bool → Bool → (Plugged → DispatchMeets) → (ℕ → Plugged) → ℕ → ℕ → Queues → Bool × Queues
dispatch_gathered tag_shared wait_empty meets request nr_cpu_ids hctx w =
    let g = gather nr_cpu_ids (w.hctxs hctx) in
    let v = record w { hctxs = update w.hctxs hctx g.0 } in
    if is_empty g.1
    then (true, v)
    else dispatch_rq_list tag_shared wait_empty meets hctx (all_of request g.1) 0
        (record v { restart = update v.restart hctx true })
