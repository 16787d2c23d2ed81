-- ===== src/Dispatch/Served.antt =====
-- Where the requests of a hardware context that runs go: blk_mq_dispatch_rq_list() of
-- daredevil/block/blk-mq.c, and what is gathered for it.
pub mod Left
use nvme_plus.Base.{
  ℕ, zero, suc, ◌+◌, ◌-◌, ◌≡◌, ◌≢◌, ◌∙◌, refl, sym, ap, subst, arith, Bool, true, false, not, ◌&&◌,
  ◌||◌, List, [], ◌∷◌, ◌++◌, ◌==◌, if◌then◌else◌, if_elim, ◌⊎◌, inl, inr,
}
use mathlib.Core.List.{append-nil}
use nvme_plus.Regulator.{update}
use nvme_plus.Submission.{Plugged}
use nvme_plus.Stage.{HwCtx, is_empty, gather}
use nvme_plus.Stage.Gather.{IsMarked, all_lists, gather-all}
use nvme_plus.Issue.{
  Status, sts_ok, sts_resource, sts_dev_resource, sts_zone_resource, sts_other, Event, ended,
  requeued, ran, delayed, Queues, note, take_rq, commit, update_dispatch_busy,
}
use nvme_plus.Issue.Effects.{
  times, occurs, handled, once, commit-handled, take_rq-handled, Idle, Idle-refl,
  update_dispatch_busy-Idle,
}
use nvme_plus.Plug.{rqs_of}
use nvme_plus.Plug.Conserve.Loops.{occurs-append}
use nvme_plus.Plug.Conserve.Lists.{occurs-rqs_of}
use nvme_plus.Dispatch.{
  Prep, prep_ok, prep_no_tag, prep_no_budget, DispatchMeets, Tally, LoopEnd, prep_dispatch_rq,
  is_last, after_dispatch, after_prep, dispatch_loop, is_dev_resource, is_no_tag, is_no_budget,
  commit_after, put_back, finish_dispatch, no_tally, dispatch_rq_list, all_of, dispatch_gathered,
}
use nvme_plus.Dispatch.Conserve.{
  prep_dispatch_rq-Idle, after_prep-elim, seen, dispatch_loop-seen, commit_after-handled,
  put_back-handled,
}
use nvme_plus.Dispatch.Served.Left.{
  ComesAgain, put_end, update_self, Dispatched, dispatch_rq_list-Dispatched,
}

occurs-all_of :
    (request : ℕ → Plugged) (r : ℕ) (l : List ℕ)
    → ((n : ℕ) → (request n).rq ≡ n)
    → occurs r (all_of request l) ≡ times r l
occurs-all_of request r [] named = refl
occurs-all_of request r (x ∷ xs) named = ground (arith, named x, occurs-all_of request r xs named)

-- Where each CPU with staged requests is below nr_cpu_ids and marked, and each request goes by its number:
-- when a hardware context dispatches what it gathers, no list of a CPU has a request any more, and each
-- request that stood in hctx->dispatch or such a list is, as often as before, taken by the driver, ended with
-- an error, or back in hctx->dispatch. This is so whatever budgets, tags and the driver answer. Where any is
-- back, a restart of the hardware context is noted, or a run of it was asked for last.
pub dispatch_gathered-serves :
    (tag_shared wait_empty : Bool) (meets : Plugged → DispatchMeets) (request : ℕ → Plugged)
    (nr_cpu_ids hctx : ℕ) (w : Queues)
    → ((n : ℕ) → (request n).rq ≡ n)
    → IsMarked nr_cpu_ids (w.hctxs hctx)
    → let h = w.hctxs hctx in
      let v = (dispatch_gathered tag_shared wait_empty meets request nr_cpu_ids hctx w).1 in
      ((cpu : ℕ) → (v.hctxs hctx).dispatch_list cpu ≡ [])
      × ((r : ℕ)
          → times r (v.hctxs hctx).dispatch + handled r v.log
            ≡ times r (h.dispatch ++ all_lists nr_cpu_ids h.dispatch_list) + handled r w.log)
      × (((v.hctxs hctx).dispatch ≡ []) ⊎ ComesAgain hctx v)
unfolding dispatch_gathered
dispatch_gathered-serves tag_shared wait_empty meets request nr_cpu_ids hctx w named marked =
    let (list, dispatch, lists, mask, ctx, map) = gather-all nr_cpu_ids h marked in
    let (left, d) = dispatched g.1 in
    let at = d.hctxs ∙ ap (put_end left) (update_self w.hctxs hctx g.0) in
    let back = ap (λ k. k.dispatch) at ∙ ap (λ l. l ++ rqs_of left) dispatch in
    (
      λ cpu. ap (λ k. k.dispatch_list cpu) at ∙ lists cpu,
      λ r. omega (
        arith,
        ap (times r) back,
        occurs-rqs_of r left,
        d.handled r,
        occurs-all_of request r g.1 named,
        ap (times r) list,
      ),
      elim d.again [ inl e ↦ inl (back ∙ ap rqs_of e) | inr c ↦ inr c ],
    )
  where
    h : HwCtx
    h = w.hctxs hctx

    g : HwCtx × List ℕ
    g = gather nr_cpu_ids h

    before : Queues
    before = record w { hctxs = update w.hctxs hctx g.0 }

    dispatched :
        (l : List ℕ)
        → let s =
            if is_empty l
            then (true, before)
            else dispatch_rq_list tag_shared wait_empty meets hctx
                (all_of request l)
                0
                (record before { restart = update before.restart hctx true }) in
          (left : List Plugged) × Dispatched hctx (all_of request l) left before s.1
    dispatched [] = (
      [],
      record {
        hctxs =
            ap (λ l. record (before.hctxs hctx) { dispatch = l })
              (sym (append-nil (before.hctxs hctx).dispatch));
        handled = λ r. refl;
        again = inl refl;
      },
    )
    dispatched (x ∷ xs) =
        let (left, d) =
          dispatch_rq_list-Dispatched tag_shared wait_empty meets hctx (all_of request (x ∷ xs)) 0
            (record before { restart = update before.restart hctx true }) in
        (left, record { hctxs = d.hctxs; handled = d.handled; again = d.again })
