-- ===== src/Plug/Conserve.antt =====
-- The requests of a plug list under blk_mq_flush_plug_list() of daredevil/block/blk-mq.c: where each of
-- them goes.
pub mod Loops
pub mod Lists
pub mod Staged
use nvme_plus.Base.{
  ℕ, zero, suc, ◌+◌, ◌≤◌, ◌<◌, ◌≡◌, ◌≢◌, ◌∙◌, refl, sym, ap, ap₂, subst, arith, Bool, true, false,
  not, ◌&&◌, ◌||◌, Option, none, some, List, [], ◌∷◌, ◌++◌, length, length-append, ◌==◌,
  if◌then◌else◌, if_elim,
}
use nvme_plus.Base.Run.{Run, ok, fault, ◌>>=◌, Ends, Ends-both, Ends-bind}
use nvme_plus.Submission.{Plugged, Batches, queue_rqs, submit_cmds}
use nvme_plus.Submission.Batch.{prepared, refused, in_order, queue_rqs-batches}
use nvme_plus.Stage.{is_empty}
use nvme_plus.Issue.{
  Status, sts_ok, sts_resource, sts_dev_resource, sts_zone_resource, sts_other, Event, taken, ended,
  staged, Queues, Meets, note, commit, request_bypass_insert, try_issue_directly,
}
use nvme_plus.Issue.Effects.{
  occurs, handled, once, try_issue_directly-Outcome, request_bypass_insert-handled, commit-handled,
  Outcome-handled,
}
use nvme_plus.Plug.{
  Plug, PlugMeets, rqs_of, note_all, submit_batches, flush_to_driver, commit_at, switch_to,
  after_direct, plug_issue_direct, finish_list, after_listed, try_issue_list_directly,
  insert_and_run, no_sched_insert_requests, split_plug, dispatch_plug_list, dispatch_all,
  issue_plug, flush_requests, flush_plug_list,
}
use nvme_plus.Plug.Conserve.Lists.{Matches}
use nvme_plus.Plug.Conserve.Staged.{flush_requests-Matches}
use nvme_plus.Plug.Conserve.Loops.{
  occurs-append, note_all-staged, Conserves, flush_to_driver-Conserves, plug_issue_direct-Conserves,
  try_issue_list_directly-Conserves,
}

module _ (r : ℕ) where
  insert_and_run-handled :
      (p : Plugged) (ps : List Plugged) (async : Bool) (w : Queues)
      → handled r (insert_and_run p ps async w).log ≡ occurs r ps + handled r w.log
  unfolding insert_and_run
  insert_and_run-handled p ps async w = note_all-staged r ps _

  no_sched_insert_requests-handled :
      (f : PlugMeets) (p : Plugged) (ps : List Plugged) (async : Bool) (w : Queues)
      → handled r (no_sched_insert_requests f p ps async w).log ≡ occurs r ps + handled r w.log
  unfolding no_sched_insert_requests
  no_sched_insert_requests-handled f p ps true w = insert_and_run-handled p ps true w
  no_sched_insert_requests-handled f p ps false w =
      rest _ (try_issue_list_directly-Conserves r f p.hctx ps 0 0 w)
    where
      rest :
          (s : List Plugged × Queues)
          → Conserves r ps (handled r w.log) s
          → handled r (if is_empty s.0 then s.1 else insert_and_run p s.0 false s.1).log
            ≡ occurs r ps + handled r w.log
      rest ([], v) e = omega (arith, e)
      rest (q ∷ qs, v) e = insert_and_run-handled p (q ∷ qs) false v ∙ e

  place-occurs :
      (q : Plugged) (list requeue : List Plugged) (b : Bool)
      → occurs r (if b then q ∷ list else list)
          + occurs r (if b then requeue else requeue ++ q ∷ [])
        ≡ once r q + occurs r list + occurs r requeue
  place-occurs q list requeue true = refl
  place-occurs q list requeue false = omega (arith, occurs-append r requeue (q ∷ []))

  split_plug-occurs :
      (p : Plugged) (ps list requeue : List Plugged)
      → let s = split_plug p ps list requeue in
        occurs r s.0 + occurs r s.1 ≡ occurs r ps + occurs r list + occurs r requeue
  unfolding split_plug
  split_plug-occurs p [] list requeue = omega arith
  split_plug-occurs p (q ∷ qs) list requeue = omega (
    arith,
    place-occurs q list requeue (p.hctx == q.hctx && p.cpu == q.cpu),
    split_plug-occurs p qs _ _,
  )

  dispatch_plug_list-Conserves :
      (f : PlugMeets) (p : Plugged) (ps : List Plugged) (from_sched : Bool) (w : Queues)
      → Conserves r (p ∷ ps) (handled r w.log) (dispatch_plug_list f p ps from_sched w)
  unfolding dispatch_plug_list
  dispatch_plug_list-Conserves f p ps from_sched w =
      let s = split_plug p ps (p ∷ []) [] in
      omega (
        arith,
        no_sched_insert_requests-handled f p s.0 from_sched w,
        split_plug-occurs p ps (p ∷ []) [],
      )

  dispatch_all-Conserves :
      (f : PlugMeets) (fuel : ℕ) (from_sched : Bool) (ps : List Plugged) (w : Queues)
      → Conserves r ps (handled r w.log) (dispatch_all f fuel from_sched ps w)
  unfolding dispatch_all
  dispatch_all-Conserves f zero from_sched ps w = refl
  dispatch_all-Conserves f (suc fuel) from_sched [] w = refl
  dispatch_all-Conserves f (suc fuel) from_sched (p ∷ ps) w =
      let s = dispatch_plug_list f p ps from_sched w in
      dispatch_all-Conserves f fuel from_sched s.0 s.1
      ∙ dispatch_plug_list-Conserves f p ps from_sched w

  issue_plug-Conserves :
      (f : PlugMeets) (ps : List Plugged) (w : Queues)
      → Conserves r ps (handled r w.log) (issue_plug f ps w)
  unfolding issue_plug
  issue_plug-Conserves f ps w = go f.tag_queue_shared
    where
      direct :
          (s : List Plugged × Queues)
          → Conserves r ps (handled r w.log) s
          → Conserves r ps
              (handled r w.log)
              (if is_empty s.0 then s else plug_issue_direct f s.0 none 0 s.1)
      direct ([], v) e = e
      direct (q ∷ qs, v) e = plug_issue_direct-Conserves r f (q ∷ qs) none 0 v ∙ e

      go :
          (b : Bool)
          → let s = if b then (ps, w) else flush_to_driver f ps w in
            Conserves r ps
              (handled r w.log)
              (if is_empty s.0 then s else plug_issue_direct f s.0 none 0 s.1)
      go true = direct (ps, w) refl
      go false = direct (flush_to_driver f ps w) (flush_to_driver-Conserves r f ps w)

  flush_requests-Conserves :
      (f : PlugMeets) (from_schedule : Bool) (plug : Plug) (ps : List Plugged) (w : Queues)
      → ps ≢ []
      → Ends (Conserves r ps (handled r w.log)) (flush_requests f from_schedule plug ps w)
  unfolding flush_requests
  flush_requests-Conserves f from_schedule plug [] w n = n refl
  flush_requests-Conserves f from_schedule plug (p ∷ ps) w n =
      go (plug.multiple_queues || plug.has_elevator || from_schedule)
    where
      all : List Plugged
      all = p ∷ ps

      go :
          (b : Bool)
          → let left = if b then (all, w) else issue_plug f all w in
            Conserves r all
              (handled r w.log)
              (dispatch_all f (length left.0) from_schedule left.0 left.1)
      go true = dispatch_all-Conserves f (length all) from_schedule all w
      go false =
          let left = issue_plug f all w in
          dispatch_all-Conserves f (length left.0) from_schedule left.0 left.1
          ∙ issue_plug-Conserves f all w

place-length :
    (q : Plugged) (requeue : List Plugged) (b : Bool)
    → length (if b then requeue else requeue ++ q ∷ []) ≤ suc (length requeue)
place-length q requeue true = omega arith
place-length q requeue false = omega (arith, length-append {0} requeue (q ∷ []))

split_plug-length :
    (p : Plugged) (ps list requeue : List Plugged)
    → length (split_plug p ps list requeue).1 ≤ length ps + length requeue
unfolding split_plug
split_plug-length p [] list requeue = omega arith
split_plug-length p (q ∷ qs) list requeue =
    omega (
      arith,
      split_plug-length p qs _ _,
      place-length q requeue (p.hctx == q.hctx && p.cpu == q.cpu),
    )

dispatch_plug_list-length :
    (f : PlugMeets) (p : Plugged) (ps : List Plugged) (from_sched : Bool) (w : Queues)
    → length (dispatch_plug_list f p ps from_sched w).0 ≤ length ps
unfolding dispatch_plug_list
dispatch_plug_list-length f p ps from_sched w = omega (arith, split_plug-length p ps (p ∷ []) [])

-- The list is emptied: each turn takes at least its first request.
dispatch_all-empties :
    (f : PlugMeets) (fuel : ℕ) (from_sched : Bool) (ps : List Plugged) (w : Queues)
    → length ps ≤ fuel
    → (dispatch_all f fuel from_sched ps w).0 ≡ []
unfolding dispatch_all
dispatch_all-empties f zero from_sched [] w b = refl
dispatch_all-empties f zero from_sched (p ∷ ps) w b = absurd (omega (arith, b))
dispatch_all-empties f (suc fuel) from_sched [] w b = refl
dispatch_all-empties f (suc fuel) from_sched (p ∷ ps) w b =
    dispatch_all-empties f fuel from_sched _ _
      (omega (arith, b, dispatch_plug_list-length f p ps from_sched w))

pub flush_requests-empties :
    (f : PlugMeets) (from_schedule : Bool) (plug : Plug) (ps : List Plugged) (w : Queues)
    → ps ≢ []
    → Ends (λ s. s.0 ≡ []) (flush_requests f from_schedule plug ps w)
unfolding flush_requests
flush_requests-empties f from_schedule plug [] w n = n refl
flush_requests-empties f from_schedule plug (p ∷ ps) w n =
    let left : List Plugged × Queues =
      if plug.multiple_queues || plug.has_elevator || from_schedule
      then (p ∷ ps, w)
      else issue_plug f (p ∷ ps) w in
    dispatch_all-empties f (length left.0) from_schedule left.0 left.1 (omega arith)

flush_requests-handled :
    (f : PlugMeets) (from_schedule : Bool) (plug : Plug) (ps : List Plugged) (w : Queues)
    → ps ≢ []
    → Ends
        (λ s. (s.0 ≡ []) × ((r : ℕ) → handled r s.1.log ≡ occurs r ps + handled r w.log))
        (flush_requests f from_schedule plug ps w)
unfolding flush_requests
flush_requests-handled f from_schedule plug [] w n = n refl
flush_requests-handled f from_schedule plug (p ∷ ps) w n =
    let e = flush_requests-empties f from_schedule plug (p ∷ ps) w n in
    (
      e,
      λ r.
          omega
            (arith, ap (occurs r) e, flush_requests-Conserves r f from_schedule plug (p ∷ ps) w n),
    )

-- Where a plug has requests and counts them, blk_mq_flush_plug_list() empties it, whatever the driver and
-- the block layer answer, and each request is handled exactly as often as it stood in the list: it is
-- taken by the driver, ended with an error, or staged. What is staged stands in its list: each list of a CPU
-- in a hardware context has got each request exactly as often as it was staged for them.
pub flush_plug_list-conserves :
    (f : PlugMeets) (from_schedule : Bool) (plug : Plug) (w : Queues)
    → plug.rq_count ≢ 0
    → plug.mq_list ≢ []
    → Ends
        (λ s.
          (s.0.mq_list ≡ [])
          × (s.0.rq_count ≡ 0)
          × ((r : ℕ) → handled r s.1.log ≡ occurs r plug.mq_list + handled r w.log)
          × Matches w s.1)
        (flush_plug_list f from_schedule plug w)
unfolding flush_plug_list
flush_plug_list-conserves f from_schedule plug w c n =
    if_elim
      (Ends (λ s.
        (s.0.mq_list ≡ [])
        × (s.0.rq_count ≡ 0)
        × ((r : ℕ) → handled r s.1.log ≡ occurs r plug.mq_list + handled r w.log)
        × Matches w s.1))
      (plug.rq_count == 0) (λ e. absurd (c (ground (arith, e))))
      (λ e.
        Ends-bind
          (λ s.
            ((s.0 ≡ []) × ((r : ℕ) → handled r s.1.log ≡ occurs r plug.mq_list + handled r w.log))
            × Matches w s.1)
          _ (flush_requests f from_schedule plug plug.mq_list w) _
          (Ends-both _ _ (flush_requests f from_schedule plug plug.mq_list w)
            (flush_requests-handled f from_schedule plug plug.mq_list w n)
            (flush_requests-Matches f from_schedule plug plug.mq_list w n))
          (λ s ((empty, k), m). (empty, refl, k, m)))
