-- ===== src/Dispatch/Conserve.antt =====
-- The requests under blk_mq_dispatch_rq_list() of daredevil/block/blk-mq.c: where each of them goes.
use nvme_plus.Base.{
  ℕ, suc, ◌+◌, ◌-◌, ◌≡◌, ◌∙◌, refl, arith, Bool, true, not, ◌&&◌, ◌||◌, List, [], ◌∷◌, ◌==◌,
  if◌then◌else◌, if_elim,
}
use nvme_plus.Regulator.{update}
use nvme_plus.Submission.{Plugged}
use nvme_plus.Issue.{
  Status, sts_ok, sts_resource, sts_dev_resource, sts_zone_resource, sts_other, ended, requeued,
  Queues, note, take_rq, commit,
}
use nvme_plus.Issue.Effects.{
  occurs, handled, commit-handled, take_rq-handled, Idle, Idle-refl, update_dispatch_busy-Idle,
}
use nvme_plus.Dispatch.{
  Prep, prep_ok, prep_no_tag, prep_no_budget, DispatchMeets, Tally, LoopEnd, prep_dispatch_rq,
  after_dispatch, after_prep, dispatch_loop, is_no_tag, is_no_budget, commit_after, put_back,
}

pub prep_dispatch_rq-Idle :
    (tag_shared : Bool) (m : DispatchMeets) (hctx : ℕ) (need_budget : Bool) (w : Queues)
    → Idle w (prep_dispatch_rq tag_shared m hctx need_budget w).1
unfolding prep_dispatch_rq
prep_dispatch_rq-Idle tag_shared m hctx need_budget w =
    if_elim {A = Prep × Queues} (λ s. Idle w s.1) (need_budget && not m.budget) (λ e. Idle-refl w)
      (λ e.
        if_elim {A = Prep × Queues} (λ s. Idle w s.1) m.driver_tag (λ e. Idle-refl w)
          (λ e.
            if_elim {A = Prep × Queues} (λ s. Idle w s.1) m.tag_after_wait (λ e. marked)
              (λ e. marked)))
  where
    marked : Idle w (if tag_shared then w else record w { restart = update w.restart hctx true })
    marked =
        if_elim {A = Queues} (Idle w) tag_shared (λ e. Idle-refl w)
          (λ e. record { sqs = refl; hctxs = refl; handled = λ r. refl; waits = λ h. refl })

pub after_prep-elim :
    (P : LoopEnd → Type 0) (prep : Prep) (dispatched stopped : LoopEnd)
    → P dispatched
    → P stopped
    → P (after_prep prep dispatched stopped)
unfolding after_prep
after_prep-elim P prep_ok dispatched stopped d s = d
after_prep-elim P prep_no_tag dispatched stopped d s = s
after_prep-elim P prep_no_budget dispatched stopped d s = s

module _ (r : ℕ) where
  -- The requests that a loop leaves or has handled
  abbrev pub seen : LoopEnd → ℕ
  seen e = occurs r e.list + occurs r e.tally.zone_list + handled r e.queues.log

  after_dispatch-seen :
      (p : Plugged) (rest : List Plugged) (more : Tally → Queues → LoopEnd) (budgets : ℕ)
      (last : Bool) (st : Status) (t : Tally) (w : Queues)
      → ((u : Tally) (v : Queues)
          → seen (more u v) ≡ occurs r rest + occurs r u.zone_list + handled r v.log)
      → seen (after_dispatch p rest more budgets last st t w)
        ≡ occurs r (p ∷ rest) + occurs r t.zone_list + handled r w.log
  unfolding after_dispatch
  after_dispatch-seen p rest more budgets last sts_ok t w k = omega (
    arith,
    k (record t { queued = suc t.queued; ret = sts_ok }) (take_rq p last w),
    take_rq-handled r p last w,
  )
  after_dispatch-seen p rest more budgets last sts_resource t w k = refl
  after_dispatch-seen p rest more budgets last sts_dev_resource t w k = refl
  after_dispatch-seen p rest more budgets last sts_zone_resource t w k = omega (
    arith,
    k (record t { zone_list = p ∷ t.zone_list; needs_resource = true; ret = sts_zone_resource })
        (note (requeued p) w),
  )
  after_dispatch-seen p rest more budgets last (sts_other n) t w k = omega (
    arith,
    k (record t { errors = suc t.errors; ret = sts_other n }) (note (ended p (sts_other n)) w),
  )

  pub dispatch_loop-seen :
      (tag_shared : Bool) (meets : Plugged → DispatchMeets) (hctx : ℕ) (ps : List Plugged)
      (budgets : ℕ) (t : Tally) (w : Queues)
      → seen (dispatch_loop tag_shared meets hctx ps budgets t w)
        ≡ occurs r ps + occurs r t.zone_list + handled r w.log
  unfolding dispatch_loop
  dispatch_loop-seen tag_shared meets hctx [] budgets t w = refl
  dispatch_loop-seen tag_shared meets hctx (p ∷ rest) budgets t w =
      let s = prep_dispatch_rq tag_shared (meets p) hctx (budgets == 0) w in
      let idle = (prep_dispatch_rq-Idle tag_shared (meets p) hctx (budgets == 0) w).handled r in
      after_prep-elim (λ e. seen e ≡ occurs r (p ∷ rest) + occurs r t.zone_list + handled r w.log)
        s.0 _ _
        (after_dispatch-seen p rest _ _ _ (meets p).reply t s.1
            (λ u v. dispatch_loop-seen tag_shared meets hctx rest (budgets - 1) u v)
          ∙ omega (arith, idle))
        (omega (arith, idle))

  pub commit_after-handled :
      (hctx : ℕ) (left : List Plugged) (e : LoopEnd) (w : Queues)
      → handled r (commit_after hctx left e w).log ≡ handled r w.log
  unfolding commit_after
  commit_after-handled hctx left e w =
      if_elim {x = commit hctx w} {y = w} (λ v. handled r v.log ≡ handled r w.log) _
        (λ t. commit-handled r hctx w) (λ t. refl)

  pub put_back-handled :
      (tag_shared wait_empty : Bool) (hctx : ℕ) (left : List Plugged) (e : LoopEnd) (w : Queues)
      → handled r (put_back tag_shared wait_empty hctx left e w).log ≡ handled r w.log
  unfolding put_back
  put_back-handled tag_shared wait_empty hctx left e w =
      (update_dispatch_busy-Idle hctx true _).handled r
      ∙ if_elim {A = Queues} (λ v. handled r v.log ≡ handled r w.log)
          (not (w.restart hctx) || (is_no_tag e.prep && tag_shared && wait_empty)) (λ t. refl)
          (λ t.
            if_elim {A = Queues} (λ v. handled r v.log ≡ handled r w.log)
              (e.tally.needs_resource || is_no_budget e.prep) (λ t. refl) (λ t. refl))
