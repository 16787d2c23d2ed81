-- ===== src/Plug.antt =====
-- How the requests of a plug list are given to the driver: blk_mq_flush_plug_list() of
-- daredevil/block/blk-mq.c on a tag set with blex, and what it calls, down to nvme_queue_rqs().
pub mod Conserve
pub mod Told
pub mod Runs
mod Tests
use nvme_plus.Base.{
  ℕ, zero, suc, ◌+◌, Bool, true, false, not, ◌&&◌, ◌||◌, Option, none, some, List, [], ◌∷◌, ◌++◌,
  length, ◌==◌, if◌then◌else◌,
}
use nvme_plus.Base.Run.{Run, ok, fault, ◌>>=◌}
use nvme_plus.Regulator.{update}
use nvme_plus.Submission.{Plugged, Batches, submit_cmds, queue_rqs}
use nvme_plus.Stage.{is_empty, insert_requests}
use nvme_plus.Issue.{
  Status, sts_ok, sts_resource, sts_dev_resource, sts_zone_resource, sts_other, Event, taken, ended,
  staged, ran, Queues, Meets, note, commit, request_bypass_insert, try_issue_directly,
}

-- `struct blk_plug`
pub record Plug : Type 0 where
  pub mq_list : List Plugged
  pub rq_count : ℕ
  pub multiple_queues : Bool
  pub has_elevator : Bool

-- What a flush meets: which requests nvme_queue_rqs() can prepare, whether the request queue is quiesced
-- when its list is given to the driver, whether the hardware contexts have BLK_MQ_F_TAG_QUEUE_SHARED, and what
-- each request meets in blk_mq_plug_issue_direct() and in blk_mq_try_issue_list_directly()
pub record PlugMeets : Type 0 where
  pub prep : Plugged → Bool
  pub quiesced : Bool
  pub tag_queue_shared : Bool
  pub direct : Plugged → Meets
  pub listed : Plugged → Meets

abbrev pub rqs_of : List Plugged → List ℕ
rqs_of [] = []
rqs_of (p ∷ ps) = p.rq ∷ rqs_of ps

-- An event for each request of a list
abbrev pub note_all : (Plugged → Event) → List Plugged → Queues → Queues
note_all e [] w = w
note_all e (p ∷ ps) w = note_all e ps (note (e p) w)

-- nvme_queue_rqs(), with the batches that it submits one after the other
unfoldable pub submit_batches : List (ℕ × List Plugged) → Queues → Queues
submit_batches [] w = w
submit_batches ((queue, ps) ∷ rest) w = submit_batches rest (
    note_all taken ps
      (record w { sqs = update w.sqs queue (submit_cmds (rqs_of ps) (w.sqs queue)) }))

-- __blk_mq_flush_plug_list()
unfoldable pub flush_to_driver : PlugMeets → List Plugged → Queues → List Plugged × Queues
flush_to_driver f ps w =
    if f.quiesced
    then (ps, w)
    else (let b = queue_rqs f.prep ps in (b.requeue_list, submit_batches b.submitted w))

-- blk_mq_commit_rqs() for the hardware context that a loop is at, if any
abbrev pub commit_at : Option ℕ → Queues → Queues
commit_at none w = w
commit_at (some hctx) w = commit hctx w

-- Where the next request is for another hardware context than the last one, that one is committed.
abbrev pub switch_to : Option ℕ → ℕ → Queues → Queues
switch_to none next w = w
switch_to (some hctx) next w = if hctx == next then w else commit hctx w

-- The switch of blk_mq_plug_issue_direct(), where `more` is the rest of the loop
unfoldable pub after_direct :
    Plugged
    → List Plugged
    → (ℕ → Queues → List Plugged × Queues)
    → Status
    → ℕ
    → Queues
    → List Plugged × Queues
after_direct p rest more sts_ok errors w = more errors w
after_direct p rest more sts_resource errors w =
    (rest, commit p.hctx (request_bypass_insert p false true w))
after_direct p rest more sts_dev_resource errors w =
    (rest, commit p.hctx (request_bypass_insert p false true w))
after_direct p rest more sts_zone_resource errors w =
    more (suc errors) (note (ended p sts_zone_resource) w)
after_direct p rest more (sts_other n) errors w = more (suc errors) (note (ended p (sts_other n)) w)

-- blk_mq_plug_issue_direct() from a turn of its loop on: the plug list that is left
unfoldable pub plug_issue_direct :
    PlugMeets → List Plugged → Option ℕ → ℕ → Queues → List Plugged × Queues
plug_issue_direct f [] hctx errors w = ([], if errors == 0 then w else commit_at hctx w)
plug_issue_direct f (p ∷ rest) hctx errors w =
    let s = try_issue_directly (f.direct p) p true (is_empty rest) (switch_to hctx p.hctx w) in
    after_direct p rest (plug_issue_direct f rest (some p.hctx)) s.0 errors s.1

-- The end of blk_mq_try_issue_list_directly(), with the list that is left
abbrev pub finish_list : ℕ → List Plugged → ℕ → ℕ → Queues → List Plugged × Queues
finish_list hctx left queued errors w = (
  left,
  if (not (is_empty left) || not (errors == 0)) && not (queued == 0) then commit hctx w else w,
)

-- The body of its loop after a request was issued
unfoldable pub after_listed :
    ℕ
    → Plugged
    → List Plugged
    → (ℕ → ℕ → Queues → List Plugged × Queues)
    → Status
    → ℕ
    → ℕ
    → Queues
    → List Plugged × Queues
after_listed hctx p rest more sts_ok queued errors w = more (suc queued) errors w
after_listed hctx p rest more sts_resource queued errors w =
    finish_list hctx rest queued (suc errors) (request_bypass_insert p false (is_empty rest) w)
after_listed hctx p rest more sts_dev_resource queued errors w =
    finish_list hctx rest queued (suc errors) (request_bypass_insert p false (is_empty rest) w)
after_listed hctx p rest more sts_zone_resource queued errors w =
    more queued (suc errors) (note (ended p sts_zone_resource) w)
after_listed hctx p rest more (sts_other n) queued errors w =
    more queued (suc errors) (note (ended p (sts_other n)) w)

-- blk_mq_try_issue_list_directly() from a turn of its loop on
unfoldable pub try_issue_list_directly :
    PlugMeets → ℕ → List Plugged → ℕ → ℕ → Queues → List Plugged × Queues
try_issue_list_directly f hctx [] queued errors w = finish_list hctx [] queued errors w
try_issue_list_directly f hctx (p ∷ rest) queued errors w =
    let s = try_issue_directly (f.listed p) p true (is_empty rest) w in
    after_listed hctx p rest (try_issue_list_directly f hctx rest) s.0 queued errors s.1

-- blk_mq_insert_requests() and the run that follows it
unfoldable pub insert_and_run : Plugged → List Plugged → Bool → Queues → Queues
insert_and_run p ps async w = note (ran p.hctx async) (
    note_all staged ps (record w {
      hctxs = update w.hctxs p.hctx (insert_requests (rqs_of ps) p.cpu (w.hctxs p.hctx));
    }))

-- blk_blex_no_sched_insert_requests(), for the hardware context and CPU of a request
unfoldable pub no_sched_insert_requests :
    PlugMeets → Plugged → List Plugged → Bool → Queues → Queues
no_sched_insert_requests f p ps async w =
    if async
    then insert_and_run p ps async w
    else (let s = try_issue_list_directly f p.hctx ps 0 0 w in
        if is_empty s.0 then s.1 else insert_and_run p s.0 async s.1)

-- The loop of blk_mq_dispatch_plug_list(): the requests for the hardware context and CPU of `p`, the last
-- one first, and the others in their order
unfoldable pub split_plug :
    Plugged → List Plugged → List Plugged → List Plugged → List Plugged × List Plugged
split_plug p [] list requeue = (list, requeue)
split_plug p (q ∷ qs) list requeue =
    let here = p.hctx == q.hctx && p.cpu == q.cpu in
    split_plug p qs (if here then q ∷ list else list) (if here then requeue else requeue ++ q ∷ [])

-- blk_mq_dispatch_plug_list(), whose list begins with `p`: the plug list that is left
unfoldable pub dispatch_plug_list :
    PlugMeets → Plugged → List Plugged → Bool → Queues → List Plugged × Queues
dispatch_plug_list f p ps from_sched w =
    let s = split_plug p ps (p ∷ []) [] in (s.1, no_sched_insert_requests f p s.0 from_sched w)

-- The last loop of blk_mq_flush_plug_list(), with fuel, on what is left of the plug list
unfoldable pub dispatch_all : PlugMeets → ℕ → Bool → List Plugged → Queues → List Plugged × Queues
dispatch_all f zero from_sched ps w = (ps, w)
dispatch_all f (suc fuel) from_sched [] w = ([], w)
dispatch_all f (suc fuel) from_sched (p ∷ ps) w =
    let s = dispatch_plug_list f p ps from_sched w in dispatch_all f fuel from_sched s.0 s.1

-- The requests of the list are given to the driver, if the flag allows it, then one by one.
unfoldable pub issue_plug : PlugMeets → List Plugged → Queues → List Plugged × Queues
issue_plug f ps w =
    let s = if f.tag_queue_shared then (ps, w) else flush_to_driver f ps w in
    if is_empty s.0 then s else plug_issue_direct f s.0 none 0 s.1

-- blk_mq_flush_plug_list() where there are requests, which it reads the first of
unfoldable pub flush_requests :
    PlugMeets → Bool → Plug → List Plugged → Queues → Run (List Plugged × Queues)
flush_requests f from_schedule plug [] w = fault
flush_requests f from_schedule plug (p ∷ ps) w =
    let all = p ∷ ps in
    let left =
      if plug.multiple_queues || plug.has_elevator || from_schedule
      then (all, w)
      else issue_plug f all w in
    ok (dispatch_all f (length left.0) from_schedule left.0 left.1)

-- blk_mq_flush_plug_list()
unfoldable pub flush_plug_list : PlugMeets → Bool → Plug → Queues → Run (Plug × Queues)
flush_plug_list f from_schedule plug w =
    if plug.rq_count == 0
    then ok (plug, w)
    else (flush_requests f from_schedule plug plug.mq_list w >>= λ s.
        ok (record plug { mq_list = s.0; rq_count = 0 }, s.1))
