-- ===== src/Plug/Conserve/Staged.antt =====
-- That blk_mq_flush_plug_list() of daredevil/block/blk-mq.c puts into the lists of the hardware contexts
-- what it stages.
use nvme_plus.Base.{
  ℕ, zero, suc, ◌+◌, ◌≡◌, ◌≢◌, refl, arith, Bool, true, false, not, ◌&&◌, ◌||◌, Option, none, some,
  List, [], ◌∷◌, ◌==◌, if◌then◌else◌, if_elim,
}
use nvme_plus.Base.Run.{Ends}
use nvme_plus.Regulator.{update}
use nvme_plus.Submission.{Plugged}
use nvme_plus.Stage.{is_empty, insert_requests, mark_allowed_cpu}
use nvme_plus.Issue.{
  Status, sts_ok, sts_resource, sts_dev_resource, sts_zone_resource, sts_other, ended, Queues, note,
  commit,
}
use nvme_plus.Issue.Effects.{times, occurs}
use nvme_plus.Plug.{
  Plug, PlugMeets, rqs_of, flush_to_driver, commit_at, after_direct, plug_issue_direct, finish_list,
  after_listed, try_issue_list_directly, insert_and_run, no_sched_insert_requests, split_plug,
  dispatch_plug_list, dispatch_all, issue_plug, flush_requests,
}
use nvme_plus.Plug.Conserve.Lists.{
  Matches, AllAt, stands_at, times-append, occurs-rqs_of, note_all-staged, bypass-Matches,
  try_issue_directly-Matches, flush_to_driver-Matches, commit-Matches, switch_to-Matches,
  commit_at-Matches,
}
use nvme_plus.Plug.Runs.Left.{try_issue_list_directly-left}

split_plug-AllAt :
    (p : Plugged) (ps list requeue : List Plugged)
    → AllAt p list
    → AllAt p (split_plug p ps list requeue).0
unfolding split_plug
split_plug-AllAt p [] list requeue a = a
split_plug-AllAt p (q ∷ qs) list requeue a = split_plug-AllAt p qs _ _ (
    if_elim {x = q ∷ list} {y = list} (AllAt p) (p.hctx == q.hctx && p.cpu == q.cpu)
      (λ e. ((ground (arith, e), ground (arith, e)), a)) (λ e. a))

module _ (u : Queues) where
  after_direct-Matches :
      (p : Plugged) (rest : List Plugged) (more : ℕ → Queues → List Plugged × Queues) (st : Status)
      (errors : ℕ) (w : Queues)
      → ((e : ℕ) (v : Queues) → Matches u v → Matches u (more e v).1)
      → Matches u w
      → Matches u (after_direct p rest more st errors w).1
  unfolding after_direct
  after_direct-Matches p rest more sts_ok errors w k m = k errors w m
  after_direct-Matches p rest more sts_resource errors w k m =
      commit-Matches u p.hctx _ (bypass-Matches u p false true w m)
  after_direct-Matches p rest more sts_dev_resource errors w k m =
      commit-Matches u p.hctx _ (bypass-Matches u p false true w m)
  after_direct-Matches p rest more sts_zone_resource errors w k m =
      k (suc errors) (note (ended p sts_zone_resource) w) m
  after_direct-Matches p rest more (sts_other n) errors w k m =
      k (suc errors) (note (ended p (sts_other n)) w) m

  plug_issue_direct-Matches :
      (f : PlugMeets) (ps : List Plugged) (hctx : Option ℕ) (errors : ℕ) (w : Queues)
      → Matches u w
      → Matches u (plug_issue_direct f ps hctx errors w).1
  unfolding plug_issue_direct
  plug_issue_direct-Matches f [] hctx errors w m =
      if_elim {x = w} {y = commit_at hctx w} (Matches u) (errors == 0) (λ e. m)
        (λ e. commit_at-Matches u hctx w m)
  plug_issue_direct-Matches f (p ∷ rest) hctx errors w m =
      after_direct-Matches p rest (plug_issue_direct f rest (some p.hctx)) _ errors _
        (plug_issue_direct-Matches f rest (some p.hctx))
        (try_issue_directly-Matches u (f.direct p) p (is_empty rest) _
          (switch_to-Matches u hctx p.hctx w m))

  finish_list-Matches :
      (hctx : ℕ) (left : List Plugged) (queued errors : ℕ) (w : Queues)
      → Matches u w
      → Matches u (finish_list hctx left queued errors w).1
  finish_list-Matches hctx left queued errors w m =
      if_elim {x = commit hctx w} {y = w} (Matches u)
        ((not (is_empty left) || not (errors == 0)) && not (queued == 0))
        (λ t. commit-Matches u hctx w m) (λ t. m)

  after_listed-Matches :
      (hctx : ℕ) (p : Plugged) (rest : List Plugged) (more : ℕ → ℕ → Queues → List Plugged × Queues)
      (st : Status) (queued errors : ℕ) (w : Queues)
      → ((q e : ℕ) (v : Queues) → Matches u v → Matches u (more q e v).1)
      → Matches u w
      → Matches u (after_listed hctx p rest more st queued errors w).1
  unfolding after_listed
  after_listed-Matches hctx p rest more sts_ok queued errors w k m = k (suc queued) errors w m
  after_listed-Matches hctx p rest more sts_resource queued errors w k m =
      finish_list-Matches hctx rest queued (suc errors) _
        (bypass-Matches u p false (is_empty rest) w m)
  after_listed-Matches hctx p rest more sts_dev_resource queued errors w k m =
      finish_list-Matches hctx rest queued (suc errors) _
        (bypass-Matches u p false (is_empty rest) w m)
  after_listed-Matches hctx p rest more sts_zone_resource queued errors w k m =
      k queued (suc errors) (note (ended p sts_zone_resource) w) m
  after_listed-Matches hctx p rest more (sts_other n) queued errors w k m =
      k queued (suc errors) (note (ended p (sts_other n)) w) m

  try_issue_list_directly-Matches :
      (f : PlugMeets) (hctx : ℕ) (ps : List Plugged) (queued errors : ℕ) (w : Queues)
      → Matches u w
      → Matches u (try_issue_list_directly f hctx ps queued errors w).1
  unfolding try_issue_list_directly
  try_issue_list_directly-Matches f hctx [] queued errors w m =
      finish_list-Matches hctx [] queued errors w m
  try_issue_list_directly-Matches f hctx (p ∷ rest) queued errors w m =
      after_listed-Matches hctx p rest (try_issue_list_directly f hctx rest) _ queued errors _
        (try_issue_list_directly-Matches f hctx rest)
        (try_issue_directly-Matches u (f.listed p) p (is_empty rest) w m)

  insert_and_run-Matches :
      (p : Plugged) (ps : List Plugged) (async : Bool) (w : Queues)
      → AllAt p ps
      → Matches u w
      → Matches u (insert_and_run p ps async w)
  unfolding insert_and_run insert_requests mark_allowed_cpu
  insert_and_run-Matches p ps async w a m r h c =
      let (log, lists) =
        note_all-staged p ps
          (record w {
            hctxs = update w.hctxs p.hctx (insert_requests (rqs_of ps) p.cpu (w.hctxs p.hctx));
          })
          r h c a in
      let k = m r h c in
      let grown = times-append r ((w.hctxs h).dispatch_list c) (rqs_of ps) in
      let same = occurs-rqs_of r ps in
      let put : times r (
            (update w.hctxs p.hctx (insert_requests (rqs_of ps) p.cpu (w.hctxs p.hctx))
                h).dispatch_list
              c)
          ≡ stands_at r h c w + (if (p.hctx == h) && (p.cpu == c) then occurs r ps else 0) =
        ground (arith, grown, same) in
      omega (arith, log, lists, k, put)

  no_sched_insert_requests-Matches :
      (f : PlugMeets) (p : Plugged) (ps : List Plugged) (async : Bool) (w : Queues)
      → AllAt p ps
      → Matches u w
      → Matches u (no_sched_insert_requests f p ps async w)
  unfolding no_sched_insert_requests
  no_sched_insert_requests-Matches f p ps true w a m = insert_and_run-Matches p ps true w a m
  no_sched_insert_requests-Matches f p ps false w a m =
      go (try_issue_list_directly f p.hctx ps 0 0 w)
        (try_issue_list_directly-Matches f p.hctx ps 0 0 w m)
        (try_issue_list_directly-left _ f p.hctx ps 0 0 w a)
    where
      go :
          (s : List Plugged × Queues)
          → Matches u s.1
          → AllAt p s.0
          → Matches u (if is_empty s.0 then s.1 else insert_and_run p s.0 false s.1)
      go ([], v) b at = b
      go (q ∷ qs, v) b at = insert_and_run-Matches p (q ∷ qs) false v at b

  dispatch_all-Matches :
      (f : PlugMeets) (fuel : ℕ) (from_sched : Bool) (ps : List Plugged) (w : Queues)
      → Matches u w
      → Matches u (dispatch_all f fuel from_sched ps w).1
  unfolding dispatch_all dispatch_plug_list
  dispatch_all-Matches f zero from_sched ps w m = m
  dispatch_all-Matches f (suc fuel) from_sched [] w m = m
  dispatch_all-Matches f (suc fuel) from_sched (p ∷ ps) w m =
      dispatch_all-Matches f fuel from_sched _ _ (
        no_sched_insert_requests-Matches f p _ from_sched w
          (split_plug-AllAt p ps (p ∷ []) [] ((refl, refl), tt)) m)

  issue_plug-Matches :
      (f : PlugMeets) (ps : List Plugged) (w : Queues)
      → Matches u w
      → Matches u (issue_plug f ps w).1
  unfolding issue_plug
  issue_plug-Matches f ps w m = go f.tag_queue_shared
    where
      direct :
          (s : List Plugged × Queues)
          → Matches u s.1
          → Matches u (if is_empty s.0 then s else plug_issue_direct f s.0 none 0 s.1).1
      direct ([], v) b = b
      direct (q ∷ qs, v) b = plug_issue_direct-Matches f (q ∷ qs) none 0 v b

      go :
          (b : Bool)
          → let s = if b then (ps, w) else flush_to_driver f ps w in
            Matches u (if is_empty s.0 then s else plug_issue_direct f s.0 none 0 s.1).1
      go true = direct (ps, w) m
      go false = direct (flush_to_driver f ps w) (flush_to_driver-Matches u f ps w m)

pub flush_requests-Matches :
    (f : PlugMeets) (from_schedule : Bool) (plug : Plug) (ps : List Plugged) (w : Queues)
    → ps ≢ []
    → Ends (λ s. Matches w s.1) (flush_requests f from_schedule plug ps w)
unfolding flush_requests
flush_requests-Matches f from_schedule plug [] w n = n refl
flush_requests-Matches f from_schedule plug (p ∷ ps) w n =
    dispatch_all-Matches w f _ from_schedule _ _ (
      if_elim {A = List Plugged × Queues} (λ s. Matches w s.1)
        (plug.multiple_queues || plug.has_elevator || from_schedule) (λ e r h c. refl)
        (λ e. issue_plug-Matches w f (p ∷ ps) w (λ r h c. refl)))
