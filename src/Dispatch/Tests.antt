-- ===== src/Dispatch/Tests.antt =====
-- A hardware context with two staged requests that runs, while the driver takes the first one only.
use nvme_plus.Base.{ℕ, ◌+◌, ◌≡◌, ◌⊎◌, refl, arith, true, false, [], ◌∷◌, ◌++◌, ◌==◌, if◌then◌else◌}
use nvme_plus.Submission.{Plugged}
use nvme_plus.Stage.{
  HwCtx, gather, stage_request, put_staged, mark_allowed_cpu, gather_cpus, unmark_allowed_cpu,
}
use nvme_plus.Stage.Gather.{IsMarked, all_lists}
use nvme_plus.Stage.Marks.{no_requests, start, next, stages, Staged-IsMarked}
use nvme_plus.Issue.{
  sts_ok, sts_dev_resource, taken, committed, requeued, Queues, take_rq, commit,
  update_dispatch_busy,
}
use nvme_plus.Issue.Effects.{handled}
use nvme_plus.Issue.Told.{AllTold}
use nvme_plus.Issue.Samples.{queues_of, queues_of-AllTold}
use nvme_plus.Dispatch.{
  DispatchMeets, prep_dispatch_rq, is_last, after_dispatch, after_prep, dispatch_loop, commit_after,
  put_back, finish_dispatch, dispatch_rq_list, dispatch_gathered,
}
use nvme_plus.Issue.Effects.{times}
use nvme_plus.Dispatch.Served.{dispatch_gathered-serves}
use nvme_plus.Dispatch.Served.Left.{ComesAgain}
use nvme_plus.Dispatch.Told.{dispatch_rq_list-tells}

-- Request 1 is staged by CPU 0, request 2 by CPU 1.
abbrev two_staged : HwCtx
two_staged = stage_request 2 1 false true (stage_request 1 0 false true no_requests)

abbrev queues : Queues
queues = queues_of two_staged

two_staged-IsMarked : IsMarked 2 two_staged
two_staged-IsMarked =
    Staged-IsMarked (
      next (next start (stages 1 0 false (omega arith) refl)) (stages 2 1 false (omega arith) refl))

abbrev request : ℕ → Plugged
request rq = record { rq = rq; hctx = 5; cpu = 0; flush_seq = false; elv = false }

abbrev first_only : Plugged → DispatchMeets
first_only p = record {
  budget = true;
  driver_tag = true;
  tag_after_wait = true;
  tag_as_next = true;
  reply = if p.rq == 1 then sts_ok else sts_dev_resource;
}

dispatch_gathered-serves_example :
    let v = (dispatch_gathered false true first_only request 2 5 queues).1 in
    ((cpu : ℕ) → (v.hctxs 5).dispatch_list cpu ≡ [])
    × ((r : ℕ)
        → times r (v.hctxs 5).dispatch + handled r v.log
          ≡ times r (two_staged.dispatch ++ all_lists 2 two_staged.dispatch_list)
            + handled r queues.log)
    × (((v.hctxs 5).dispatch ≡ []) ⊎ ComesAgain 5 v)
dispatch_gathered-serves_example =
    dispatch_gathered-serves false true first_only request 2 5 queues (λ n. refl)
      two_staged-IsMarked

dispatch_rq_list-tells_example :
    AllTold (dispatch_rq_list false true first_only 5 (request 1 ∷ request 2 ∷ []) 0 queues).1
dispatch_rq_list-tells_example =
    dispatch_rq_list-tells false true first_only 5 (request 1 ∷ request 2 ∷ []) 0 queues
      (refl, (refl, tt)) (queues_of-AllTold two_staged)

-- Request 1 was sent with the word that more comes, and is committed as request 2 is not taken.
sent_then_committed :
    (dispatch_gathered false true first_only request 2 5 queues).1.log
    ≡ committed 5 ∷ requeued (request 2) ∷ taken (request 1) ∷ []
unfolding dispatch_gathered gather stage_request put_staged mark_allowed_cpu dispatch_rq_list
    finish_dispatch dispatch_loop prep_dispatch_rq is_last after_prep after_dispatch commit_after
    put_back take_rq commit update_dispatch_busy gather_cpus unmark_allowed_cpu
sent_then_committed = refl
