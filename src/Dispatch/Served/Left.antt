-- ===== src/Dispatch/Served/Left.antt =====
-- What blk_mq_dispatch_rq_list() of daredevil/block/blk-mq.c leaves of its list.
use nvme_plus.Base.{
  ℕ, ◌+◌, ◌-◌, ◌≡◌, ◌∙◌, refl, sym, ap, arith, Bool, true, false, not, ◌&&◌, ◌||◌, List, [], ◌∷◌,
  ◌++◌, ◌==◌, if◌then◌else◌, if_elim, ◌⊎◌, inl, inr,
}
use mathlib.Core.List.{append-nil}
use nvme_plus.Regulator.{update}
use nvme_plus.Submission.{Plugged}
use nvme_plus.Stage.{HwCtx, is_empty}
use nvme_plus.Issue.{
  Status, sts_ok, sts_resource, sts_dev_resource, sts_zone_resource, sts_other, Event, ran, Queues,
  take_rq, commit, update_dispatch_busy,
}
use nvme_plus.Issue.Effects.{occurs, handled, update_dispatch_busy-Idle}
use nvme_plus.Plug.{rqs_of}
use nvme_plus.Plug.Conserve.Loops.{occurs-append}
use nvme_plus.Dispatch.{
  DispatchMeets, Tally, LoopEnd, prep_dispatch_rq, after_dispatch, dispatch_loop, is_no_tag,
  is_no_budget, commit_after, put_back, finish_dispatch, no_tally, dispatch_rq_list,
}
use nvme_plus.Dispatch.Conserve.{
  prep_dispatch_rq-Idle, after_prep-elim, seen, dispatch_loop-seen, commit_after-handled,
  put_back-handled,
}

after_dispatch-hctxs :
    (p : Plugged) (rest : List Plugged) (more : Tally → Queues → LoopEnd) (budgets : ℕ)
    (last : Bool) (st : Status) (t : Tally) (w : Queues)
    → ((u : Tally) (v : Queues) → (more u v).queues.hctxs ≡ v.hctxs)
    → (after_dispatch p rest more budgets last st t w).queues.hctxs ≡ w.hctxs
unfolding after_dispatch take_rq
after_dispatch-hctxs p rest more budgets last sts_ok t w k = k _ _
after_dispatch-hctxs p rest more budgets last sts_resource t w k = refl
after_dispatch-hctxs p rest more budgets last sts_dev_resource t w k = refl
after_dispatch-hctxs p rest more budgets last sts_zone_resource t w k = k _ _
after_dispatch-hctxs p rest more budgets last (sts_other n) t w k = k _ _

dispatch_loop-hctxs :
    (tag_shared : Bool) (meets : Plugged → DispatchMeets) (hctx : ℕ) (ps : List Plugged)
    (budgets : ℕ) (t : Tally) (w : Queues)
    → (dispatch_loop tag_shared meets hctx ps budgets t w).queues.hctxs ≡ w.hctxs
unfolding dispatch_loop
dispatch_loop-hctxs tag_shared meets hctx [] budgets t w = refl
dispatch_loop-hctxs tag_shared meets hctx (p ∷ rest) budgets t w =
    let s = prep_dispatch_rq tag_shared (meets p) hctx (budgets == 0) w in
    let same = (prep_dispatch_rq-Idle tag_shared (meets p) hctx (budgets == 0) w).hctxs in
    after_prep-elim (λ e. e.queues.hctxs ≡ w.hctxs) s.0 _ _
      (after_dispatch-hctxs p rest _ _ _ (meets p).reply t s.1
          (λ u v. dispatch_loop-hctxs tag_shared meets hctx rest (budgets - 1) u v)
        ∙ same)
      same

commit_after-hctxs :
    (hctx : ℕ) (left : List Plugged) (e : LoopEnd) (w : Queues)
    → (commit_after hctx left e w).hctxs ≡ w.hctxs
unfolding commit_after commit
commit_after-hctxs hctx left e w =
    if_elim {x = commit hctx w} {y = w} (λ v. v.hctxs ≡ w.hctxs) _ (λ t. refl) (λ t. refl)

-- The requests left stand at the end of hctx->dispatch.
abbrev pub put_end : List Plugged → HwCtx → HwCtx
put_end left h = record h { dispatch = h.dispatch ++ rqs_of left }

put_back-hctxs :
    (tag_shared wait_empty : Bool) (hctx : ℕ) (left : List Plugged) (e : LoopEnd) (w : Queues)
    → (put_back tag_shared wait_empty hctx left e w).hctxs
      ≡ update w.hctxs hctx (put_end left (w.hctxs hctx))
unfolding put_back
put_back-hctxs tag_shared wait_empty hctx left e w =
    (update_dispatch_busy-Idle hctx true _).hctxs
    ∙ if_elim {A = Queues} (λ v. v.hctxs ≡ update w.hctxs hctx (put_end left (w.hctxs hctx)))
        (not (w.restart hctx) || (is_no_tag e.prep && tag_shared && wait_empty)) (λ t. refl)
        (λ t.
          if_elim {A = Queues} (λ v. v.hctxs ≡ update w.hctxs hctx (put_end left (w.hctxs hctx)))
            (e.tally.needs_resource || is_no_budget e.prep) (λ t. refl) (λ t. refl))

-- A restart is noted, or a run was asked for last.
abbrev pub ComesAgain : ℕ → Queues → Type 0
ComesAgain hctx w = (w.restart hctx ≡ true) ⊎ ((l : List Event) × (w.log ≡ ran hctx true ∷ l))

update_dispatch_busy-ComesAgain :
    (hctx g : ℕ) (busy : Bool) (w : Queues)
    → ComesAgain g w
    → ComesAgain g (update_dispatch_busy hctx busy w)
unfolding update_dispatch_busy
update_dispatch_busy-ComesAgain hctx g busy w a =
    if_elim {A = Queues} (ComesAgain g) (w.dispatch_busy hctx == 0 && not busy) (λ e. a) (λ e. a)

put_back-ComesAgain :
    (tag_shared wait_empty : Bool) (hctx : ℕ) (left : List Plugged) (e : LoopEnd) (w : Queues)
    → ComesAgain hctx (put_back tag_shared wait_empty hctx left e w)
unfolding put_back
put_back-ComesAgain tag_shared wait_empty hctx left e w =
    update_dispatch_busy-ComesAgain hctx hctx true _ (
      if_elim {A = Queues} (ComesAgain hctx)
        (not (w.restart hctx) || (is_no_tag e.prep && tag_shared && wait_empty))
        (λ t. inr (w.log, refl))
        (λ t.
          let marked : w.restart hctx ≡ true = ground (arith, t) in
          if_elim {A = Queues} (ComesAgain hctx) (e.tally.needs_resource || is_no_budget e.prep)
            (λ t. inl marked) (λ t. inl marked)))

pub update_self {ℓ} : {A : Type ℓ} (f : ℕ → A) (i : ℕ) (a : A) → update f i a i ≡ a
update_self f i a = ground arith

-- What blk_mq_dispatch_rq_list() leaves of the list
pub record Dispatched (hctx : ℕ) (ps left : List Plugged) (w v : Queues) : Type 0 where
  pub hctxs : v.hctxs hctx ≡ put_end left (w.hctxs hctx)
  pub handled : (r : ℕ) → occurs r left + handled r v.log ≡ occurs r ps + handled r w.log
  pub again : (left ≡ []) ⊎ ComesAgain hctx v

finish_dispatch-Dispatched :
    (tag_shared wait_empty : Bool) (hctx : ℕ) (ps : List Plugged) (e : LoopEnd) (w : Queues)
    → e.queues.hctxs ≡ w.hctxs
    → ((r : ℕ) → seen r e ≡ occurs r ps + handled r w.log)
    → Dispatched hctx ps
        (e.list ++ e.tally.zone_list)
        w
        (finish_dispatch tag_shared wait_empty hctx e).1
unfolding finish_dispatch
finish_dispatch-Dispatched tag_shared wait_empty hctx ps e w same all =
    go (e.list ++ e.tally.zone_list)
      (λ r. omega (arith, occurs-append r e.list e.tally.zone_list, all r))
  where
    v : List Plugged → Queues
    v left = commit_after hctx left e e.queues

    end : List Plugged → Bool × Queues
    end left =
        if is_empty left
        then (not (e.tally.queued + e.tally.errors == 0), update_dispatch_busy hctx false (v left))
        else (false, put_back tag_shared wait_empty hctx left e (v left))

    v-hctxs : (left : List Plugged) → (v left).hctxs ≡ w.hctxs
    v-hctxs left = commit_after-hctxs hctx left e e.queues ∙ same

    go :
        (left : List Plugged)
        → ((r : ℕ) → occurs r left + handled r e.queues.log ≡ occurs r ps + handled r w.log)
        → Dispatched hctx ps left w (end left).1
    go [] parts =
        let idle = update_dispatch_busy-Idle hctx false (v []) in
        record {
          hctxs =
              ap (λ f. f hctx) (idle.hctxs ∙ v-hctxs [])
              ∙ ap (λ l. record (w.hctxs hctx) { dispatch = l })
                  (sym (append-nil (w.hctxs hctx).dispatch));
          handled = λ r.
              omega (arith, idle.handled r, commit_after-handled r hctx [] e e.queues, parts r);
          again = inl refl;
        }
    go (p ∷ left) parts =
        let all_left = p ∷ left in
        record {
          hctxs =
              ap (λ f. f hctx) (put_back-hctxs tag_shared wait_empty hctx all_left e (v all_left))
              ∙ update_self (v all_left).hctxs hctx _
              ∙ ap (λ f. put_end all_left (f hctx)) (v-hctxs all_left);
          handled = λ r. omega (
            arith,
            put_back-handled r tag_shared wait_empty hctx all_left e (v all_left),
            commit_after-handled r hctx all_left e e.queues,
            parts r,
          );
          again = inr (put_back-ComesAgain tag_shared wait_empty hctx all_left e (v all_left));
        }

pub dispatch_rq_list-Dispatched :
    (tag_shared wait_empty : Bool) (meets : Plugged → DispatchMeets) (hctx : ℕ) (ps : List Plugged)
    (nr_budgets : ℕ) (w : Queues)
    → (left : List Plugged) × Dispatched hctx ps left w
        (dispatch_rq_list tag_shared wait_empty meets hctx ps nr_budgets w).1
unfolding dispatch_rq_list
dispatch_rq_list-Dispatched tag_shared wait_empty meets hctx [] nr_budgets w = (
  [],
  record {
    hctxs =
        ap (λ l. record (w.hctxs hctx) { dispatch = l }) (sym (append-nil (w.hctxs hctx).dispatch));
    handled = λ r. refl;
    again = inl refl;
  },
)
dispatch_rq_list-Dispatched tag_shared wait_empty meets hctx (p ∷ ps) nr_budgets w =
    let e = dispatch_loop tag_shared meets hctx (p ∷ ps) nr_budgets no_tally w in
    (
      e.list ++ e.tally.zone_list,
      finish_dispatch-Dispatched tag_shared wait_empty hctx (p ∷ ps) e w
          (dispatch_loop-hctxs tag_shared meets hctx (p ∷ ps) nr_budgets no_tally w)
          (λ r.
            omega
              (arith, dispatch_loop-seen r tag_shared meets hctx (p ∷ ps) nr_budgets no_tally w)),
    )
