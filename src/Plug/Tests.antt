-- ===== src/Plug/Tests.antt =====
-- Plug lists of requests for two hardware contexts, flushed while the driver takes all of them or refuses one.
use nvme_plus.Base.{
  ℕ, ◌+◌, ◌≡◌, ◌≢◌, refl, arith, Bool, true, false, List, [], ◌∷◌, ◌==◌, if◌then◌else◌,
}
use nvme_plus.Base.Run.{Run, ok, fault, Ends}
use nvme_plus.Submission.{
  Plugged, batch, queue_rqs, tell, write_sq_db, commit_rqs, queue_cmd, sq_copy_cmd,
}
use nvme_plus.Submission.Tail.{untold}
use nvme_plus.Stage.Marks.{no_requests}
use nvme_plus.Issue.{
  Status, sts_ok, sts_resource, Event, taken, requeued, staged, committed, ran, Queues, Meets,
  take_rq, commit, update_dispatch_busy, stage, request_bypass_insert, sched_insert_request,
  issue_directly, try_issue_directly,
}
use nvme_plus.Issue.Effects.{occurs, handled}
use nvme_plus.Issue.Told.{AllTold}
use nvme_plus.Issue.Samples.{queues_of, queues_of-AllTold}
use nvme_plus.Plug.{
  Plug, PlugMeets, submit_batches, flush_to_driver, after_direct, plug_issue_direct, after_listed,
  try_issue_list_directly, no_sched_insert_requests, split_plug, dispatch_plug_list, dispatch_all,
  issue_plug, flush_requests, flush_plug_list,
}
use nvme_plus.Plug.Conserve.Lists.{Matches}
use nvme_plus.Plug.Conserve.{flush_plug_list-conserves}
use nvme_plus.Plug.Told.{flush_plug_list-tells}
use nvme_plus.Plug.Told.Loops.{NeverStops}
use nvme_plus.Plug.Runs.{flush_plug_list-runs}
use nvme_plus.Plug.Runs.Loops.{NoneWaits}

abbrev idle_queues : Queues
idle_queues = queues_of no_requests

idle_queues-NoneWaits : NoneWaits idle_queues
idle_queues-NoneWaits h = refl

abbrev request : ℕ → ℕ → Plugged
request rq hctx = record { rq = rq; hctx = hctx; cpu = 0; flush_seq = false; elv = false }

abbrev two_queues : List Plugged
two_queues = request 1 5 ∷ request 2 5 ∷ request 3 6 ∷ request 4 6 ∷ []

abbrev plug_of : List Plugged → Plug
plug_of ps = record { mq_list = ps; rq_count = 4; multiple_queues = false; has_elevator = false }

abbrev answers : Bool → Status → Meets
answers stopped reply = record {
  stopped = stopped;
  quiesced = false;
  budget = true;
  driver_tag = true;
  reply = reply;
}

-- The tags are shared, so that requests are issued one by one, and the driver has no resources for request 3.
abbrev lacks : PlugMeets
lacks = record {
  prep = λ p. false;
  quiesced = false;
  tag_queue_shared = true;
  direct = λ p. answers false (if p.rq == 3 then sts_resource else sts_ok);
  listed = λ p. answers false sts_ok;
}

lacks-NeverStops : NeverStops lacks
lacks-NeverStops p = (refl, refl)

two_queues-any : two_queues ≢ []
two_queues-any e = cc

flush_plug_list-conserves_example :
    Ends
      (λ s.
        (s.0.mq_list ≡ [])
        × (s.0.rq_count ≡ 0)
        × ((r : ℕ)
            → handled r s.1.log ≡ occurs r (plug_of two_queues).mq_list + handled r idle_queues.log)
        × Matches idle_queues s.1)
      (flush_plug_list lacks false (plug_of two_queues) idle_queues)
flush_plug_list-conserves_example =
    flush_plug_list-conserves lacks false (plug_of two_queues) idle_queues (λ e. omega (arith, e))
      two_queues-any

flush_plug_list-tells_example :
    Ends (λ s. AllTold s.1) (flush_plug_list lacks false (plug_of two_queues) idle_queues)
flush_plug_list-tells_example =
    flush_plug_list-tells lacks false (plug_of two_queues) idle_queues lacks-NeverStops
      (λ n. two_queues-any) (queues_of-AllTold no_requests)

flush_plug_list-runs_example :
    Ends (λ s. NoneWaits s.1) (flush_plug_list lacks false (plug_of two_queues) idle_queues)
flush_plug_list-runs_example =
    flush_plug_list-runs lacks false (plug_of two_queues) idle_queues lacks-NeverStops
      (λ n. two_queues-any) idle_queues-NoneWaits

abbrev log_of : Run (Plug × Queues) → List Event
log_of (ok s) = s.1.log
log_of fault = []

-- Requests 1 and 2 are taken, and their queue is committed as request 3 is for another one; request 3
-- is staged, and request 4 is issued by the last loop.
refused_midway :
    log_of (flush_plug_list lacks false (plug_of two_queues) idle_queues)
    ≡ taken (request 4 6)
      ∷ committed 6
      ∷ ran 6 false
      ∷ staged (request 3 6)
      ∷ requeued (request 3 6)
      ∷ committed 5
      ∷ taken (request 2 5)
      ∷ taken (request 1 5)
      ∷ []
unfolding flush_plug_list flush_requests issue_plug flush_to_driver submit_batches queue_rqs batch
    plug_issue_direct after_direct try_issue_directly issue_directly take_rq commit
    update_dispatch_busy stage request_bypass_insert dispatch_all dispatch_plug_list split_plug
    no_sched_insert_requests try_issue_list_directly after_listed
refused_midway = refl

-- The tags are shared, hardware context 5 is stopped before its second request is issued, and the list has no error.
abbrev stops : PlugMeets
stops = record {
  prep = λ p. false;
  quiesced = false;
  tag_queue_shared = true;
  direct = λ p. answers (p.rq == 2) sts_ok;
  listed = λ p. answers false sts_ok;
}

abbrev untold_of : ℕ → Run (Plug × Queues) → ℕ
untold_of h (ok s) = untold (s.1.sqs h)
untold_of h fault = 0

-- The first request was sent with the word that more comes, the second is staged instead, and the device
-- is not told of the first one.
stopped_midway :
    untold_of 5 (flush_plug_list stops false (plug_of (request 1 5 ∷ request 2 5 ∷ [])) idle_queues)
    ≡ 1
unfolding flush_plug_list flush_requests issue_plug flush_to_driver submit_batches queue_rqs batch
    plug_issue_direct after_direct try_issue_directly issue_directly take_rq commit
    update_dispatch_busy stage request_bypass_insert sched_insert_request dispatch_all
    dispatch_plug_list split_plug no_sched_insert_requests try_issue_list_directly after_listed
    queue_cmd write_sq_db sq_copy_cmd tell commit_rqs
stopped_midway = refl
