-- ===== src/Issue/Effects.antt =====
-- What the steps of issuing a request do to the requests handled, to what the device was not told of, and
-- to the runs asked for.
use nvme_plus.Base.{
  ℕ, ◌+◌, ◌≡◌, ◌≢◌, ◌∙◌, refl, Bool, true, false, not, ◌&&◌, ◌||◌, List, [], ◌∷◌, ◌==◌,
  if◌then◌else◌, if_elim,
}
use nvme_plus.Submission.{Plugged}
use nvme_plus.Issue.{
  Status, sts_ok, sts_resource, sts_dev_resource, sts_zone_resource, sts_other, Event, taken, ended,
  requeued, staged, committed, ran, delayed, Queues, Meets, note, take_rq, commit,
  update_dispatch_busy, stage, request_bypass_insert, sched_insert_request, issue_directly,
  try_issue_directly,
}

-- How often a request stands in a list
abbrev pub occurs : ℕ → List Plugged → ℕ
occurs r [] = 0
occurs r (p ∷ ps) = (if p.rq == r then 1 else 0) + occurs r ps

-- How often a number stands in a list
abbrev pub times : ℕ → List ℕ → ℕ
times r [] = 0
times r (x ∷ xs) = (if x == r then 1 else 0) + times r xs

-- How often a request was taken by the driver, ended or staged
abbrev pub handled : ℕ → List Event → ℕ
handled r [] = 0
handled r (taken p ∷ l) = (if p.rq == r then 1 else 0) + handled r l
handled r (ended p s ∷ l) = (if p.rq == r then 1 else 0) + handled r l
handled r (staged p ∷ l) = (if p.rq == r then 1 else 0) + handled r l
handled r (requeued p ∷ l) = handled r l
handled r (committed h ∷ l) = handled r l
handled r (ran h a ∷ l) = handled r l
handled r (delayed h ∷ l) = handled r l

-- Requests were staged in a hardware context, and no run of it was asked for since.
abbrev pub waits_for_run : ℕ → List Event → Bool
waits_for_run h [] = false
waits_for_run h (staged p ∷ l) = p.hctx == h || waits_for_run h l
waits_for_run h (ran g a ∷ l) = if g == h then false else waits_for_run h l
waits_for_run h (delayed g ∷ l) = if g == h then false else waits_for_run h l
waits_for_run h (taken p ∷ l) = waits_for_run h l
waits_for_run h (ended p s ∷ l) = waits_for_run h l
waits_for_run h (requeued p ∷ l) = waits_for_run h l
waits_for_run h (committed g ∷ l) = waits_for_run h l

abbrev pub once : ℕ → Plugged → ℕ
once r p = if p.rq == r then 1 else 0

-- No request is handled or staged, no command is put into a queue, and no run is asked for.
pub record Idle (w v : Queues) : Type 0 where
  pub sqs : v.sqs ≡ w.sqs
  pub hctxs : v.hctxs ≡ w.hctxs
  pub handled : (r : ℕ) → handled r v.log ≡ handled r w.log
  pub waits : (h : ℕ) → waits_for_run h v.log ≡ waits_for_run h w.log

-- What can become of a request that is issued past the scheduler: the driver takes it, it is staged as the
-- hardware context is stopped or the request queue quiesced, or it is refused.
pub data Outcome (m : Meets) (p : Plugged) (last : Bool) (w : Queues) (st : Status) (v : Queues)
    : Type 0 where
  took : st ≡ sts_ok → Idle (take_rq p last w) v → Outcome m p last w st v
  parked :
      st ≡ sts_ok
      → m.stopped || m.quiesced ≡ true
      → Idle (stage p p.flush_seq w) v
      → Outcome m p last w st v
  refused : st ≢ sts_ok → Idle w v → Outcome m p last w st v

pub Idle-refl : (w : Queues) → Idle w w
Idle-refl w = record { sqs = refl; hctxs = refl; handled = λ r. refl; waits = λ h. refl }

pub update_dispatch_busy-Idle :
    (hctx : ℕ) (busy : Bool) (w : Queues) → Idle w (update_dispatch_busy hctx busy w)
unfolding update_dispatch_busy
update_dispatch_busy-Idle hctx busy w =
    if_elim (Idle w) (w.dispatch_busy hctx == 0 && not busy) (λ e. Idle-refl w)
      (λ e. record { sqs = refl; hctxs = refl; handled = λ r. refl; waits = λ h. refl })

requeued-Idle : (p : Plugged) (w v : Queues) → Idle w v → Idle w (note (requeued p) v)
requeued-Idle p w v i = record {
  sqs = i.sqs;
  hctxs = i.hctxs;
  handled = i.handled;
  waits = i.waits;
}

issue_directly-Outcome :
    (m : Meets) (p : Plugged) (last : Bool) (st : Status) (w : Queues)
    → let s = issue_directly p last st w in Outcome m p last w s.0 s.1
unfolding issue_directly
issue_directly-Outcome m p last sts_ok w = took refl (update_dispatch_busy-Idle _ _ _)
issue_directly-Outcome m p last sts_resource w =
    refused (λ e. cc) (requeued-Idle p _ _ (update_dispatch_busy-Idle _ _ _))
issue_directly-Outcome m p last sts_dev_resource w =
    refused (λ e. cc) (requeued-Idle p _ _ (update_dispatch_busy-Idle _ _ _))
issue_directly-Outcome m p last sts_zone_resource w =
    refused (λ e. cc) (update_dispatch_busy-Idle _ _ _)
issue_directly-Outcome m p last (sts_other n) w =
    refused (λ e. cc) (update_dispatch_busy-Idle _ _ _)

sched_insert_request-parks :
    (p : Plugged) (w : Queues)
    → Idle (stage p p.flush_seq w) (sched_insert_request p false false false w)
unfolding sched_insert_request request_bypass_insert
sched_insert_request-parks p w = go p.flush_seq
  where
    go : (b : Bool) → Idle (stage p b w) (if b then stage p true w else stage p false w)
    go true = Idle-refl _
    go false = Idle-refl _

pub try_issue_directly-Outcome :
    (m : Meets) (p : Plugged) (last : Bool) (w : Queues)
    → let s = try_issue_directly m p true last w in Outcome m p last w s.0 s.1
unfolding try_issue_directly
try_issue_directly-Outcome m p last w =
    if_elim {A = Status × Queues} (λ s. Outcome m p last w s.0 s.1) (m.stopped || m.quiesced)
      (λ e. parked refl e (sched_insert_request-parks p w))
      (λ e.
        if_elim {A = Status × Queues} (λ s. Outcome m p last w s.0 s.1) (p.elv && false) (λ e. full)
          (λ e.
            if_elim {A = Status × Queues} (λ s. Outcome m p last w s.0 s.1) (not m.budget)
              (λ e. full)
              (λ e.
                if_elim {A = Status × Queues} (λ s. Outcome m p last w s.0 s.1) (not m.driver_tag)
                  (λ e. full) (λ e. issue_directly-Outcome m p last m.reply w))))
  where
    full : Outcome m p last w sts_resource w
    full = refused (λ e. cc) (Idle-refl w)

-- What is handled
pub take_rq-handled :
    (r : ℕ) (p : Plugged) (last : Bool) (w : Queues)
    → handled r (take_rq p last w).log ≡ once r p + handled r w.log
unfolding take_rq
take_rq-handled r p last w = refl

pub stage-handled :
    (r : ℕ) (p : Plugged) (at_head : Bool) (w : Queues)
    → handled r (stage p at_head w).log ≡ once r p + handled r w.log
unfolding stage
stage-handled r p at_head w = refl

pub request_bypass_insert-handled :
    (r : ℕ) (p : Plugged) (run : Bool) (w : Queues)
    → handled r (request_bypass_insert p false run w).log ≡ once r p + handled r w.log
unfolding request_bypass_insert stage
request_bypass_insert-handled r p true w = refl
request_bypass_insert-handled r p false w = refl

pub commit-handled : (r h : ℕ) (w : Queues) → handled r (commit h w).log ≡ handled r w.log
unfolding commit
commit-handled r h w = refl

pub Outcome-handled :
    (r : ℕ) (m : Meets) (p : Plugged) (last : Bool) (w : Queues) (st : Status) (v : Queues)
    → Outcome m p last w st v
    → (st ≡ sts_ok → handled r v.log ≡ once r p + handled r w.log)
      × (st ≢ sts_ok → handled r v.log ≡ handled r w.log)
Outcome-handled r m p last w st v (took e i) =
    (λ k. i.handled r ∙ take_rq-handled r p last w, λ k. absurd (k e))
Outcome-handled r m p last w st v (parked e s i) =
    (λ k. i.handled r ∙ stage-handled r p _ w, λ k. absurd (k e))
Outcome-handled r m p last w st v (refused n i) = (λ k. absurd (n k), λ k. i.handled r)
