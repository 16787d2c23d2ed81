-- ===== src/Plug/Runs.antt =====
-- The runs of hardware contexts that blk_mq_flush_plug_list() of daredevil/block/blk-mq.c asks for.
pub mod Loops
pub mod Left
use nvme_plus.Base.{
  ℕ_discrete, ℕ, zero, suc, ◌+◌, ◌≤◌, ◌<◌, ◌≡◌, ◌≢◌, ◌∙◌, refl, sym, ap, ap₂, subst, arith, Bool,
  true, false, not, ◌&&◌, ◌||◌, Option, none, some, List, [], ◌∷◌, ◌++◌, length, ◌==◌,
  if◌then◌else◌, if_elim,
}
use nvme_plus.Base.Run.{Run, ok, fault, ◌>>=◌, Ends, Ends-bind}
use nvme_plus.Regulator.{update}
use nvme_plus.Submission.Batch.{All}
use nvme_plus.Submission.{
  SubmissionQueue, Plugged, Batches, queue_rqs, submit_cmds, queue_cmd, commit_rqs,
}
use nvme_plus.Submission.Tail.{
  untold, IsOpen, queue_cmd-untold, queue_cmd-IsOpen, commit_rqs-untold, submit_cmds-untold,
}
use nvme_plus.Stage.{is_empty, insert_requests}
use nvme_plus.Issue.{
  Status, sts_ok, sts_resource, sts_dev_resource, sts_zone_resource, sts_other, Event, taken, ended,
  staged, Queues, Meets, note, take_rq, commit, stage, request_bypass_insert, committed, ran,
  try_issue_directly,
}
use nvme_plus.Issue.Effects.{
  waits_for_run, Outcome, took, parked, refused, Idle, try_issue_directly-Outcome,
}
use nvme_plus.Plug.Told.Loops.{NeverStops}
use nvme_plus.Plug.Told.{split_plug-AllFor}
use nvme_plus.Plug.{
  Plug, PlugMeets, rqs_of, note_all, submit_batches, flush_to_driver, commit_at, switch_to,
  after_direct, plug_issue_direct, finish_list, after_listed, try_issue_list_directly,
  insert_and_run, no_sched_insert_requests, split_plug, dispatch_plug_list, dispatch_all,
  issue_plug, flush_requests, flush_plug_list,
}
use nvme_plus.Plug.Runs.Left.{try_issue_list_directly-left}
use nvme_plus.Plug.Runs.Loops.{
  NoneWaits, NoneWaitsBut, flush_to_driver-NoneWaits, plug_issue_direct-NoneWaits, Leaves,
  try_issue_list_directly-Leaves,
}

note_all-staged :
    (g h : ℕ) (ps : List Plugged) (w : Queues)
    → All (λ p. p.hctx ≡ g) ps
    → g ≢ h
    → waits_for_run h (note_all staged ps w).log ≡ waits_for_run h w.log
note_all-staged g h [] w home n = refl
note_all-staged g h (p ∷ ps) w (here, home) n =
    note_all-staged g h ps (note (staged p) w) home n ∙ ground (arith, here, n)

insert_and_run-NoneWaits :
    (p : Plugged) (ps : List Plugged) (async : Bool) (w : Queues)
    → All (λ q. q.hctx ≡ p.hctx) ps
    → NoneWaitsBut p.hctx w
    → NoneWaits (insert_and_run p ps async w)
unfolding insert_and_run
insert_and_run-NoneWaits p ps async w home a h =
    if_elim {x = false}
      {y = waits_for_run h
        (note_all staged ps (record w {
          hctxs = update w.hctxs p.hctx (insert_requests (rqs_of ps) p.cpu (w.hctxs p.hctx));
        })).log}
      (λ b. b ≡ false) (p.hctx == h) (λ e. refl)
      (λ e.
        let n : p.hctx ≢ h = λ k. ground (arith, e, k) in
        note_all-staged p.hctx h ps _ home n ∙ a h n)

no_sched_insert_requests-NoneWaits :
    (f : PlugMeets) (never : NeverStops f) (p : Plugged) (ps : List Plugged) (async : Bool)
    (w : Queues)
    → All (λ q. q.hctx ≡ p.hctx) ps
    → NoneWaits w
    → NoneWaits (no_sched_insert_requests f p ps async w)
unfolding no_sched_insert_requests
no_sched_insert_requests-NoneWaits f never p ps true w home a =
    insert_and_run-NoneWaits p ps true w home (λ h n. a h)
no_sched_insert_requests-NoneWaits f never p ps false w home a =
    go (try_issue_list_directly f p.hctx ps 0 0 w)
      (try_issue_list_directly-Leaves f never p.hctx ps 0 0 w home a)
      (try_issue_list_directly-left _ f p.hctx ps 0 0 w home)
  where
    go :
        (s : List Plugged × Queues)
        → Leaves p.hctx s
        → All (λ q. q.hctx ≡ p.hctx) s.0
        → NoneWaits (if is_empty s.0 then s.1 else insert_and_run p s.0 false s.1)
    go ([], v) (b, none_) at_home = none_ refl
    go (q ∷ qs, v) (b, none_) at_home = insert_and_run-NoneWaits p (q ∷ qs) false v at_home b

dispatch_all-NoneWaits :
    (f : PlugMeets) (never : NeverStops f) (fuel : ℕ) (from_sched : Bool) (ps : List Plugged)
    (w : Queues)
    → NoneWaits w
    → NoneWaits (dispatch_all f fuel from_sched ps w).1
unfolding dispatch_all dispatch_plug_list
dispatch_all-NoneWaits f never zero from_sched ps w a = a
dispatch_all-NoneWaits f never (suc fuel) from_sched [] w a = a
dispatch_all-NoneWaits f never (suc fuel) from_sched (p ∷ ps) w a =
    dispatch_all-NoneWaits f never fuel from_sched _ _ (
      no_sched_insert_requests-NoneWaits f never p _ from_sched w
        (split_plug-AllFor p ps (p ∷ []) [] (refl, tt)) a)

issue_plug-NoneWaits :
    (f : PlugMeets) (never : NeverStops f) (ps : List Plugged) (w : Queues)
    → NoneWaits w
    → NoneWaits (issue_plug f ps w).1
unfolding issue_plug
issue_plug-NoneWaits f never ps w a = go f.tag_queue_shared
  where
    direct :
        (s : List Plugged × Queues)
        → NoneWaits s.1
        → NoneWaits (if is_empty s.0 then s else plug_issue_direct f s.0 none 0 s.1).1
    direct ([], v) b = b
    direct (q ∷ qs, v) b = plug_issue_direct-NoneWaits f never (q ∷ qs) none 0 v b

    go :
        (b : Bool)
        → let s = if b then (ps, w) else flush_to_driver f ps w in
          NoneWaits (if is_empty s.0 then s else plug_issue_direct f s.0 none 0 s.1).1
    go true = direct (ps, w) a
    go false = direct (flush_to_driver f ps w) (flush_to_driver-NoneWaits f ps w a)

flush_requests-NoneWaits :
    (f : PlugMeets) (never : NeverStops f) (from_schedule : Bool) (plug : Plug) (ps : List Plugged)
    (w : Queues)
    → ps ≢ []
    → NoneWaits w
    → Ends (λ s. NoneWaits s.1) (flush_requests f from_schedule plug ps w)
unfolding flush_requests
flush_requests-NoneWaits f never from_schedule plug [] w n a = n refl
flush_requests-NoneWaits f never from_schedule plug (p ∷ ps) w n a =
    dispatch_all-NoneWaits f never _ from_schedule _ _ (
      if_elim {A = List Plugged × Queues} (λ s. NoneWaits s.1)
        (plug.multiple_queues || plug.has_elevator || from_schedule) (λ e. a)
        (λ e. issue_plug-NoneWaits f never (p ∷ ps) w a))

-- Where no hardware context is stopped and the request queue is not quiesced while a request is issued, a
-- plug that counts requests has some, and no hardware context has requests staged since a run of it was last
-- asked for: the same holds after blk_mq_flush_plug_list(), so that whatever it stages is run.
pub flush_plug_list-runs :
    (f : PlugMeets) (from_schedule : Bool) (plug : Plug) (w : Queues)
    → NeverStops f
    → (plug.rq_count ≢ 0 → plug.mq_list ≢ [])
    → NoneWaits w
    → Ends (λ s. NoneWaits s.1) (flush_plug_list f from_schedule plug w)
unfolding flush_plug_list
flush_plug_list-runs f from_schedule plug w never n a =
    if_elim (Ends (λ s. NoneWaits s.1)) (plug.rq_count == 0) (λ e. a)
      (λ e.
        Ends-bind (λ s. NoneWaits s.1) _ (flush_requests f from_schedule plug plug.mq_list w) _
          (flush_requests-NoneWaits f never from_schedule plug plug.mq_list w
            (n (λ z. ground (arith, e, z))) a)
          (λ s k. k))
