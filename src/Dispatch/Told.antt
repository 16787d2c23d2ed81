-- ===== src/Dispatch/Told.antt =====
-- What the device was told of after blk_mq_dispatch_rq_list() of daredevil/block/blk-mq.c.
use nvme_plus.Base.{
  ℕ, suc, ◌-◌, ◌≡◌, ◌≢◌, ◌∙◌, refl, sym, subst, arith, Bool, true, false, not, ◌&&◌, ◌||◌, List, [],
  ◌∷◌, ◌++◌, ◌==◌, if_elim, ℕ_discrete,
}
use nvme_plus.Submission.{Plugged}
use nvme_plus.Submission.Batch.{All}
use nvme_plus.Stage.{is_empty}
use nvme_plus.Issue.{
  Status, sts_ok, sts_resource, sts_dev_resource, sts_zone_resource, sts_other, ended, requeued,
  Queues, note, take_rq, commit,
}
use nvme_plus.Issue.Effects.{Idle, update_dispatch_busy-Idle}
use nvme_plus.Issue.Told.{
  AllTold, ToldBut, AllTold-But, commit-AllTold, take_rq-ToldBut, take_rq-AllTold,
}
use nvme_plus.Dispatch.{
  DispatchMeets, Tally, LoopEnd, prep_dispatch_rq, is_last, after_dispatch, dispatch_loop,
  is_dev_resource, is_no_tag, is_no_budget, commit_after, put_back, finish_dispatch, no_tally,
  dispatch_rq_list,
}
use nvme_plus.Dispatch.Conserve.{prep_dispatch_rq-Idle, after_prep-elim}

-- What would make blk_mq_dispatch_rq_list() call commit_rqs(), if anything was queued, but for the list
abbrev trouble : Tally → Bool
trouble t = not (t.errors == 0) || (t.needs_resource || is_dev_resource t.ret)

-- At most the queue of the hardware context has commands that the device was not told of, and none has if
-- nothing was queued.
record Settles (hctx : ℕ) (t : Tally) (w : Queues) : Type 0 where
  but : ToldBut hctx w
  nothing : t.queued ≡ 0 → AllTold w

-- So too if the list is empty and nothing went wrong.
record Settled (hctx : ℕ) (e : LoopEnd) : Type 0 where
  settles : Settles hctx e.tally e.queues
  whole : e.list ≡ [] → trouble e.tally ≡ false → AllTold e.queues

after_dispatch-Settled :
    (meets : Plugged → DispatchMeets) (hctx : ℕ) (p : Plugged) (rest : List Plugged)
    (more : Tally → Queues → LoopEnd) (budgets : ℕ) (st : Status) (t : Tally) (w : Queues)
    → p.hctx ≡ hctx
    → ((u : Tally) (v : Queues)
        → Settles hctx u v
        → (rest ≡ [] → trouble u ≡ false → AllTold v)
        → Settled hctx (more u v))
    → Settles hctx t w
    → Settled hctx (after_dispatch p rest more budgets (is_last meets rest) st t w)
unfolding after_dispatch is_last
after_dispatch-Settled meets hctx p rest more budgets sts_ok t w here k s =
    k (record t { queued = suc t.queued; ret = sts_ok }) (take_rq p (is_last meets rest) w)
      (record {
        but =
            subst (λ h. ToldBut h (take_rq p (is_last meets rest) w)) here
              (take_rq-ToldBut p (is_last meets rest) w at);
        nothing = λ z. absurd (omega (arith, z));
      })
      (λ n e. subst (λ l. AllTold (take_rq p (is_last meets l) w)) (sym n) (take_rq-AllTold p w at))
  where
    at : ToldBut p.hctx w
    at = subst (λ h. ToldBut h w) (sym here) s.but
after_dispatch-Settled meets hctx p rest more budgets sts_resource t w here k s = record {
  settles = record { but = s.but; nothing = s.nothing };
  whole = λ n. absurd (cc);
}
after_dispatch-Settled meets hctx p rest more budgets sts_dev_resource t w here k s = record {
  settles = record { but = s.but; nothing = s.nothing };
  whole = λ n. absurd (cc);
}
after_dispatch-Settled meets hctx p rest more budgets sts_zone_resource t w here k s =
    k (record t { zone_list = p ∷ t.zone_list; needs_resource = true; ret = sts_zone_resource })
      (note (requeued p) w) (record { but = s.but; nothing = s.nothing })
      (λ n e. absurd (ground (arith, e)))
after_dispatch-Settled meets hctx p rest more budgets (sts_other c) t w here k s =
    k (record t { errors = suc t.errors; ret = sts_other c }) (note (ended p (sts_other c)) w)
      (record { but = s.but; nothing = s.nothing }) (λ n e. absurd (ground (arith, e)))

Idle-Settles :
    (hctx : ℕ) (t : Tally) (w v : Queues) → Idle w v → Settles hctx t w → Settles hctx t v
Idle-Settles hctx t w v i s = record { but = rw i.sqs s.but; nothing = λ z. rw i.sqs (s.nothing z) }

dispatch_loop-Settled :
    (tag_shared : Bool) (meets : Plugged → DispatchMeets) (hctx : ℕ) (ps : List Plugged)
    (budgets : ℕ) (t : Tally) (w : Queues)
    → All (λ p. p.hctx ≡ hctx) ps
    → Settles hctx t w
    → (ps ≡ [] → trouble t ≡ false → AllTold w)
    → Settled hctx (dispatch_loop tag_shared meets hctx ps budgets t w)
unfolding dispatch_loop
dispatch_loop-Settled tag_shared meets hctx [] budgets t w home s whole = record {
  settles = s;
  whole = whole;
}
dispatch_loop-Settled tag_shared meets hctx (p ∷ rest) budgets t w (here, home) s whole =
    let q = prep_dispatch_rq tag_shared (meets p) hctx (budgets == 0) w in
    let idle =
      Idle-Settles hctx t w q.1 (prep_dispatch_rq-Idle tag_shared (meets p) hctx (budgets == 0) w)
        s in
    after_prep-elim (Settled hctx) q.0 _ _
      (after_dispatch-Settled meets hctx p rest _ _ (meets p).reply t q.1 here
        (λ u v settles l.
          dispatch_loop-Settled tag_shared meets hctx rest (budgets - 1) u v home settles l)
        idle)
      (record { settles = idle; whole = λ n. absurd (cc) })

commit_after-AllTold :
    (hctx : ℕ) (e : LoopEnd)
    → Settled hctx e
    → AllTold (commit_after hctx (e.list ++ e.tally.zone_list) e e.queues)
unfolding commit_after
commit_after-AllTold hctx e s =
    if_elim {x = commit hctx e.queues} {y = e.queues} AllTold
      ((not (is_empty (e.list ++ e.tally.zone_list)) || trouble e.tally)
        && not (e.tally.queued == 0))
      (λ t. commit-AllTold hctx e.queues s.settles.but) (λ t. go e.list refl t)
  where
    go :
        (l : List Plugged)
        → e.list ≡ l
        → (not (is_empty (l ++ e.tally.zone_list)) || trouble e.tally) && not (e.tally.queued == 0)
          ≡ false
        → AllTold e.queues
    go [] same t = elim (ℕ_discrete e.tally.queued 0) [
      | yes z ↦ s.settles.nothing z
      | no z ↦ s.whole same (calm e.tally.zone_list (trouble e.tally) t z)
    ]
      where
        calm :
            (l : List Plugged) (b : Bool)
            → (not (is_empty l) || b) && not (e.tally.queued == 0) ≡ false
            → e.tally.queued ≢ 0
            → b ≡ false
        calm l false t z = refl
        calm [] true t z = absurd (z (ground (arith, t)))
        calm (p ∷ ps) true t z = absurd (z (ground (arith, t)))
    go (p ∷ ps) same t = s.settles.nothing (ground (arith, t))

put_back-sqs :
    (tag_shared wait_empty : Bool) (hctx : ℕ) (left : List Plugged) (e : LoopEnd) (w : Queues)
    → (put_back tag_shared wait_empty hctx left e w).sqs ≡ w.sqs
unfolding put_back
put_back-sqs tag_shared wait_empty hctx left e w =
    (update_dispatch_busy-Idle hctx true _).sqs
    ∙ if_elim {A = Queues} (λ v. v.sqs ≡ w.sqs)
        (not (w.restart hctx) || (is_no_tag e.prep && tag_shared && wait_empty)) (λ t. refl)
        (λ t.
          if_elim {A = Queues} (λ v. v.sqs ≡ w.sqs) (e.tally.needs_resource || is_no_budget e.prep)
            (λ t. refl) (λ t. refl))

finish_dispatch-AllTold :
    (tag_shared wait_empty : Bool) (hctx : ℕ) (e : LoopEnd)
    → Settled hctx e
    → AllTold (finish_dispatch tag_shared wait_empty hctx e).1
unfolding finish_dispatch
finish_dispatch-AllTold tag_shared wait_empty hctx e s =
    if_elim {A = Bool × Queues} (λ v. AllTold v.1) (is_empty (e.list ++ e.tally.zone_list))
      (λ t.
        rw
          ((update_dispatch_busy-Idle hctx false
            (commit_after hctx (e.list ++ e.tally.zone_list) e e.queues)).sqs)
          told)
      (λ t.
        rw
          (put_back-sqs tag_shared wait_empty hctx (e.list ++ e.tally.zone_list) e
            (commit_after hctx (e.list ++ e.tally.zone_list) e e.queues))
          told)
  where
    told : AllTold (commit_after hctx (e.list ++ e.tally.zone_list) e e.queues)
    told = commit_after-AllTold hctx e s

-- Where the submission queues are open, the device was told of all their commands, and all requests of the
-- list are for the hardware context: after blk_mq_dispatch_rq_list() the queues are open and the device was
-- told of all commands again, whatever budgets, tags and the driver answer.
pub dispatch_rq_list-tells :
    (tag_shared wait_empty : Bool) (meets : Plugged → DispatchMeets) (hctx : ℕ) (ps : List Plugged)
    (nr_budgets : ℕ) (w : Queues)
    → All (λ p. p.hctx ≡ hctx) ps
    → AllTold w
    → AllTold (dispatch_rq_list tag_shared wait_empty meets hctx ps nr_budgets w).1
unfolding dispatch_rq_list
dispatch_rq_list-tells tag_shared wait_empty meets hctx ps nr_budgets w home a =
    if_elim {A = Bool × Queues} (λ v. AllTold v.1) (is_empty ps) (λ e. a)
      (λ e. finish_dispatch-AllTold tag_shared wait_empty hctx _ (
        dispatch_loop-Settled tag_shared meets hctx ps nr_budgets no_tally w home
          (record { but = AllTold-But hctx w a; nothing = λ z. a }) (λ n t. a)))
