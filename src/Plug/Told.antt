-- ===== src/Plug/Told.antt =====
-- What the device was told of after blk_mq_flush_plug_list() of daredevil/block/blk-mq.c.
pub mod Loops
use nvme_plus.Base.{
  ℕ_discrete, ℕ, zero, suc, ◌+◌, ◌≤◌, ◌<◌, ◌≡◌, ◌≢◌, ◌∙◌, refl, sym, ap, ap₂, subst, arith, Bool,
  true, false, not, ◌&&◌, ◌||◌, Option, none, some, List, [], ◌∷◌, ◌++◌, length, ◌==◌,
  if◌then◌else◌, if_elim,
}
use nvme_plus.Base.Run.{Run, ok, fault, ◌>>=◌, Ends, Ends-bind}
use nvme_plus.Regulator.{update}
use nvme_plus.Submission.Batch.{All}
use nvme_plus.Submission.{
  SubmissionQueue, Plugged, Batches, queue_rqs, submit_cmds, queue_cmd, commit_rqs,
}
use nvme_plus.Submission.Tail.{
  untold, IsOpen, queue_cmd-untold, queue_cmd-IsOpen, commit_rqs-untold, submit_cmds-untold,
}
use nvme_plus.Stage.{is_empty}
use nvme_plus.Issue.{
  Status, sts_ok, sts_resource, sts_dev_resource, sts_zone_resource, sts_other, Event, taken, ended,
  staged, Queues, Meets, note, take_rq, commit, stage, request_bypass_insert, try_issue_directly,
}
use nvme_plus.Issue.Effects.{try_issue_directly-Outcome}
use nvme_plus.Issue.Told.{
  AllTold, ToldBut, AllTold-But, update_cases, commit-AllTold, Outcome-told,
  request_bypass_insert-sqs,
}
use nvme_plus.Plug.{
  Plug, PlugMeets, rqs_of, note_all, submit_batches, flush_to_driver, commit_at, switch_to,
  after_direct, plug_issue_direct, finish_list, after_listed, try_issue_list_directly,
  insert_and_run, no_sched_insert_requests, split_plug, dispatch_plug_list, dispatch_all,
  issue_plug, flush_requests, flush_plug_list,
}
use nvme_plus.Plug.Told.Loops.{
  NeverStops, note_all-sqs, flush_to_driver-AllTold, plug_issue_direct-AllTold, AllFor,
  try_issue_list_directly-AllTold,
}

insert_and_run-AllTold :
    (p : Plugged) (ps : List Plugged) (async : Bool) (w : Queues)
    → AllTold w
    → AllTold (insert_and_run p ps async w)
unfolding insert_and_run
insert_and_run-AllTold p ps async w a = rw (note_all-sqs staged ps _) a

no_sched_insert_requests-AllTold :
    (f : PlugMeets) (never : NeverStops f) (p : Plugged) (ps : List Plugged) (async : Bool)
    (w : Queues)
    → AllFor p.hctx ps
    → AllTold w
    → AllTold (no_sched_insert_requests f p ps async w)
unfolding no_sched_insert_requests
no_sched_insert_requests-AllTold f never p ps true w home a = insert_and_run-AllTold p ps true w a
no_sched_insert_requests-AllTold f never p ps false w home a =
    let s = try_issue_list_directly f p.hctx ps 0 0 w in
    let b =
      try_issue_list_directly-AllTold f never p.hctx ps 0 0 w home (AllTold-But p.hctx w a) (λ z. a)
        (λ n e. a) in
    if_elim {x = s.1} {y = insert_and_run p s.0 false s.1} AllTold (is_empty s.0) (λ e. b)
      (λ e. insert_and_run-AllTold p s.0 false s.1 b)

pub split_plug-AllFor :
    (p : Plugged) (ps list requeue : List Plugged)
    → AllFor p.hctx list
    → AllFor p.hctx (split_plug p ps list requeue).0
unfolding split_plug
split_plug-AllFor p [] list requeue a = a
split_plug-AllFor p (q ∷ qs) list requeue a = split_plug-AllFor p qs _ _ (
    if_elim {x = q ∷ list} {y = list} (AllFor p.hctx) (p.hctx == q.hctx && p.cpu == q.cpu)
      (λ e. (ground (arith, e), a)) (λ e. a))

dispatch_all-AllTold :
    (f : PlugMeets) (never : NeverStops f) (fuel : ℕ) (from_sched : Bool) (ps : List Plugged)
    (w : Queues)
    → AllTold w
    → AllTold (dispatch_all f fuel from_sched ps w).1
unfolding dispatch_all dispatch_plug_list
dispatch_all-AllTold f never zero from_sched ps w a = a
dispatch_all-AllTold f never (suc fuel) from_sched [] w a = a
dispatch_all-AllTold f never (suc fuel) from_sched (p ∷ ps) w a =
    dispatch_all-AllTold f never fuel from_sched _ _ (
      no_sched_insert_requests-AllTold f never p _ from_sched w
        (split_plug-AllFor p ps (p ∷ []) [] (refl, tt)) a)

issue_plug-AllTold :
    (f : PlugMeets) (never : NeverStops f) (ps : List Plugged) (w : Queues)
    → AllTold w
    → AllTold (issue_plug f ps w).1
unfolding issue_plug
issue_plug-AllTold f never ps w a = go f.tag_queue_shared
  where
    direct :
        (s : List Plugged × Queues)
        → AllTold s.1
        → AllTold (if is_empty s.0 then s else plug_issue_direct f s.0 none 0 s.1).1
    direct ([], v) b = b
    direct (q ∷ qs, v) b = plug_issue_direct-AllTold f never (q ∷ qs) none 0 v b (λ n e. b)

    go :
        (b : Bool)
        → let s = if b then (ps, w) else flush_to_driver f ps w in
          AllTold (if is_empty s.0 then s else plug_issue_direct f s.0 none 0 s.1).1
    go true = direct (ps, w) a
    go false = direct (flush_to_driver f ps w) (flush_to_driver-AllTold f ps w a)

flush_requests-AllTold :
    (f : PlugMeets) (never : NeverStops f) (from_schedule : Bool) (plug : Plug) (ps : List Plugged)
    (w : Queues)
    → ps ≢ []
    → AllTold w
    → Ends (λ s. AllTold s.1) (flush_requests f from_schedule plug ps w)
unfolding flush_requests
flush_requests-AllTold f never from_schedule plug [] w n a = n refl
flush_requests-AllTold f never from_schedule plug (p ∷ ps) w n a =
    dispatch_all-AllTold f never _ from_schedule _ _ (
      if_elim {A = List Plugged × Queues} (λ s. AllTold s.1)
        (plug.multiple_queues || plug.has_elevator || from_schedule) (λ e. a)
        (λ e. issue_plug-AllTold f never (p ∷ ps) w a))

-- Where the submission queues are open and the device was told of all their commands, no hardware context
-- is stopped and the request queue is not quiesced while a request is issued, and a plug that counts
-- requests has some: after blk_mq_flush_plug_list() the queues are open and the device was told of all
-- commands again. The driver, which is told of a command only with the last one of a list or by
-- commit_rqs(), is never left with one, whatever it refuses and wherever the list changes its hardware context.
pub flush_plug_list-tells :
    (f : PlugMeets) (from_schedule : Bool) (plug : Plug) (w : Queues)
    → NeverStops f
    → (plug.rq_count ≢ 0 → plug.mq_list ≢ [])
    → AllTold w
    → Ends (λ s. AllTold s.1) (flush_plug_list f from_schedule plug w)
unfolding flush_plug_list
flush_plug_list-tells f from_schedule plug w never n a =
    if_elim (Ends (λ s. AllTold s.1)) (plug.rq_count == 0) (λ e. a)
      (λ e.
        Ends-bind (λ s. AllTold s.1) _ (flush_requests f from_schedule plug plug.mq_list w) _
          (flush_requests-AllTold f never from_schedule plug plug.mq_list w
            (n (λ z. ground (arith, e, z))) a)
          (λ s k. k))
