-- ===== src/Plug/Conserve/Lists.antt =====
-- The lists of a hardware context and what was staged, under blk_mq_flush_plug_list() of
-- daredevil/block/blk-mq.c.
use nvme_plus.Base.{
  ℕ, ◌+◌, ◌≡◌, refl, arith, Bool, true, false, not, ◌&&◌, ◌||◌, Option, none, some, List, [], ◌∷◌,
  ◌++◌, ◌==◌, if◌then◌else◌, if_elim,
}
use nvme_plus.Regulator.{update}
use nvme_plus.Submission.{Plugged, submit_cmds}
use nvme_plus.Submission.Batch.{All}
use nvme_plus.Stage.{stage_request, put_staged, mark_allowed_cpu}
use nvme_plus.Issue.{
  Status, sts_ok, sts_resource, sts_dev_resource, sts_zone_resource, sts_other, Event, taken, ended,
  requeued, staged, committed, ran, delayed, Queues, Meets, note, take_rq, commit,
  update_dispatch_busy, stage, request_bypass_insert, sched_insert_request, issue_directly,
  try_issue_directly,
}
use nvme_plus.Issue.Effects.{times, occurs}
use nvme_plus.Plug.{
  PlugMeets, rqs_of, note_all, submit_batches, flush_to_driver, commit_at, switch_to,
}

pub occurs-rqs_of : (r : ℕ) (ps : List Plugged) → times r (rqs_of ps) ≡ occurs r ps
occurs-rqs_of r [] = refl
occurs-rqs_of r (p ∷ ps) = omega (arith, occurs-rqs_of r ps)

pub times-append : (r : ℕ) (xs ys : List ℕ) → times r (xs ++ ys) ≡ times r xs + times r ys
times-append r [] ys = omega arith
times-append r (x ∷ xs) ys = omega (arith, times-append r xs ys)

-- How often a request was staged for a hardware context and a CPU
abbrev pub staged_at : ℕ → ℕ → ℕ → List Event → ℕ
staged_at r h c [] = 0
staged_at r h c (taken p ∷ l) = staged_at r h c l
staged_at r h c (ended p s ∷ l) = staged_at r h c l
staged_at r h c (requeued p ∷ l) = staged_at r h c l
staged_at r h c (staged p ∷ l) =
    (if (p.rq == r) && ((p.hctx == h) && (p.cpu == c)) then 1 else 0) + staged_at r h c l
staged_at r h c (committed g ∷ l) = staged_at r h c l
staged_at r h c (ran g a ∷ l) = staged_at r h c l
staged_at r h c (delayed g ∷ l) = staged_at r h c l

-- How often a request stands in the list of a CPU in a hardware context
abbrev pub stands_at : ℕ → ℕ → ℕ → Queues → ℕ
stands_at r h c w = times r ((w.hctxs h).dispatch_list c)

-- From `u` on, the lists have got each request as often as it was staged for them.
abbrev pub Matches : Queues → Queues → Type 0
Matches u w =
    (r h c : ℕ)
    → stands_at r h c w + staged_at r h c u.log ≡ stands_at r h c u + staged_at r h c w.log

-- The requests are for one hardware context and CPU.
abbrev pub AllAt : Plugged → List Plugged → Type 0
AllAt p = All (λ q. (q.hctx ≡ p.hctx) × (q.cpu ≡ p.cpu))

note_all-taken :
    (ps : List Plugged) (w : Queues) (r h c : ℕ)
    → (staged_at r h c (note_all taken ps w).log ≡ staged_at r h c w.log)
      × (stands_at r h c (note_all taken ps w) ≡ stands_at r h c w)
note_all-taken [] w r h c = (refl, refl)
note_all-taken (p ∷ ps) w r h c = note_all-taken ps (note (taken p) w) r h c

pub note_all-staged :
    (p : Plugged) (ps : List Plugged) (w : Queues) (r h c : ℕ)
    → AllAt p ps
    → (staged_at r h c (note_all staged ps w).log
        ≡ (if (p.hctx == h) && (p.cpu == c) then occurs r ps else 0) + staged_at r h c w.log)
      × (stands_at r h c (note_all staged ps w) ≡ stands_at r h c w)
note_all-staged p [] w r h c a = (ground arith, refl)
note_all-staged p (q ∷ qs) w r h c ((at_hctx, at_cpu), a) =
    let (log, lists) = note_all-staged p qs (note (staged q) w) r h c a in
    (ground (arith, log, at_hctx, at_cpu), lists)

module _ (u : Queues) where
  busy-Matches :
      (hctx : ℕ) (busy : Bool) (w : Queues)
      → Matches u w
      → Matches u (update_dispatch_busy hctx busy w)
  unfolding update_dispatch_busy
  busy-Matches hctx busy w m =
      if_elim (Matches u) (w.dispatch_busy hctx == 0 && not busy) (λ e. m) (λ e. m)

  issue_directly-Matches :
      (p : Plugged) (last : Bool) (st : Status) (w : Queues)
      → Matches u w
      → Matches u (issue_directly p last st w).1
  unfolding issue_directly take_rq
  issue_directly-Matches p last sts_ok w m = busy-Matches p.hctx false (take_rq p last w) m
  issue_directly-Matches p last sts_resource w m = busy-Matches p.hctx true w m
  issue_directly-Matches p last sts_dev_resource w m = busy-Matches p.hctx true w m
  issue_directly-Matches p last sts_zone_resource w m = busy-Matches p.hctx false w m
  issue_directly-Matches p last (sts_other n) w m = busy-Matches p.hctx false w m

  pub stage-Matches :
      (p : Plugged) (at_head : Bool) (w : Queues) → Matches u w → Matches u (stage p at_head w)
  unfolding stage stage_request put_staged mark_allowed_cpu
  stage-Matches p at_head w m r h c =
      let k = m r h c in
      let grown = times-append r ((w.hctxs h).dispatch_list c) (p.rq ∷ []) in
      ground (arith, k, grown)

  pub bypass-Matches :
      (p : Plugged) (at_head run_queue : Bool) (w : Queues)
      → Matches u w
      → Matches u (request_bypass_insert p at_head run_queue w)
  unfolding request_bypass_insert
  bypass-Matches p at_head run_queue w m =
      if_elim (Matches u) run_queue (λ e. stage-Matches p at_head w m)
        (λ e. stage-Matches p at_head w m)

  -- The label insert where the request is not left to the caller
  insert-Matches :
      (p : Plugged) (w : Queues)
      → Matches u w
      → Matches u (sched_insert_request p false false false w)
  unfolding sched_insert_request
  insert-Matches p w m =
      if_elim (Matches u) p.flush_seq (λ e. bypass-Matches p true false w m)
        (λ e. stage-Matches p false w m)

  pub try_issue_directly-Matches :
      (e : Meets) (p : Plugged) (last : Bool) (w : Queues)
      → Matches u w
      → Matches u (try_issue_directly e p true last w).1
  unfolding try_issue_directly
  try_issue_directly-Matches e p last w m =
      if_elim {A = Status × Queues} (λ s. Matches u s.1) (e.stopped || e.quiesced)
        (λ i. insert-Matches p w m)
        (λ i.
          if_elim {A = Status × Queues} (λ s. Matches u s.1) (p.elv && false) (λ j. m)
            (λ j.
              if_elim {A = Status × Queues} (λ s. Matches u s.1) (not e.budget) (λ k. m)
                (λ k.
                  if_elim {A = Status × Queues} (λ s. Matches u s.1) (not e.driver_tag) (λ l. m)
                    (λ l. issue_directly-Matches p last e.reply w m))))

  submit_batches-Matches :
      (bs : List (ℕ × List Plugged)) (w : Queues) → Matches u w → Matches u (submit_batches bs w)
  unfolding submit_batches
  submit_batches-Matches [] w m = m
  submit_batches-Matches ((queue, ps) ∷ rest) w m =
      let told = record w { sqs = update w.sqs queue (submit_cmds (rqs_of ps) (w.sqs queue)) } in
      submit_batches-Matches rest (note_all taken ps told) (λ r h c.
        let (log, lists) = note_all-taken ps told r h c in omega (arith, log, lists, m r h c))

  pub flush_to_driver-Matches :
      (f : PlugMeets) (ps : List Plugged) (w : Queues)
      → Matches u w
      → Matches u (flush_to_driver f ps w).1
  unfolding flush_to_driver
  flush_to_driver-Matches f ps w m =
      if_elim {A = List Plugged × Queues} (λ s. Matches u s.1) f.quiesced (λ e. m)
        (λ e. submit_batches-Matches _ w m)

  pub commit-Matches : (hctx : ℕ) (w : Queues) → Matches u w → Matches u (commit hctx w)
  unfolding commit
  commit-Matches hctx w m = m

  pub switch_to-Matches :
      (hctx : Option ℕ) (next : ℕ) (w : Queues) → Matches u w → Matches u (switch_to hctx next w)
  switch_to-Matches none next w m = m
  switch_to-Matches (some g) next w m =
      if_elim {x = w} {y = commit g w} (Matches u) (g == next) (λ e. m) (λ e. commit-Matches g w m)

  pub commit_at-Matches :
      (hctx : Option ℕ) (w : Queues) → Matches u w → Matches u (commit_at hctx w)
  commit_at-Matches none w m = m
  commit_at-Matches (some g) w m = commit-Matches g w m
