-- ===== src/Issue/Told.antt =====
-- What the device was told of after the steps that issue a request.
use nvme_plus.Base.{ℕ, ◌≡◌, ◌≢◌, refl, sym, subst, arith, Bool, true, false, ◌||◌, ◌==◌, if_elim}
use nvme_plus.Regulator.{update}
use nvme_plus.Submission.{SubmissionQueue, Plugged, queue_cmd, commit_rqs}
use nvme_plus.Submission.Tail.{
  untold, IsOpen, queue_cmd-untold, queue_cmd-IsOpen, commit_rqs-untold,
}
use nvme_plus.Issue.{Status, sts_ok, Queues, Meets, take_rq, commit, stage, request_bypass_insert}
use nvme_plus.Issue.Effects.{Outcome, took, parked, refused}

-- Each submission queue is open, and the device was told of all commands.
abbrev pub AllTold : Queues → Type 0
AllTold w = (h : ℕ) → IsOpen (w.sqs h) × (untold (w.sqs h) ≡ 0)

-- The same, but for the queue of one hardware context, if any
abbrev pub ToldBut : ℕ → Queues → Type 0
ToldBut g w = (h : ℕ) → IsOpen (w.sqs h) × (h ≢ g → untold (w.sqs h) ≡ 0)

pub AllTold-But : (g : ℕ) (w : Queues) → AllTold w → ToldBut g w
AllTold-But g w a h = ((a h).0, λ n. (a h).1)

-- What holds of the new value and of the old ones holds of an update.
pub update_cases :
    (P : ℕ → SubmissionQueue → Type 0) (f : ℕ → SubmissionQueue) (g : ℕ) (q : SubmissionQueue)
    → P g q
    → ((h : ℕ) → h ≢ g → P h (f h))
    → (h : ℕ) → P h (update f g q h)
update_cases P f g q new old h =
    if_elim {x = q} {y = f h} (P h) (g == h)
      (λ e. let same : g ≡ h = ground (arith, e) in subst (λ k. P k q) same new)
      (λ e. old h (λ k. ground (arith, e, k)))

pub commit-AllTold : (g : ℕ) (w : Queues) → ToldBut g w → AllTold (commit g w)
unfolding commit
commit-AllTold g w a =
    update_cases (λ h q. IsOpen q × (untold q ≡ 0)) w.sqs g (commit_rqs (w.sqs g))
      (commit_rqs-untold (w.sqs g) (a g).0) (λ h n. ((a h).0, (a h).1 n))

pub take_rq-ToldBut :
    (p : Plugged) (last : Bool) (w : Queues) → ToldBut p.hctx w → ToldBut p.hctx (take_rq p last w)
unfolding take_rq
take_rq-ToldBut p last w a =
    update_cases (λ h q. IsOpen q × (h ≢ p.hctx → untold q ≡ 0)) w.sqs p.hctx
      (queue_cmd p.rq last (w.sqs p.hctx))
      (queue_cmd-IsOpen p.rq last (w.sqs p.hctx) (a p.hctx).0, λ n. absurd (n refl)) (λ h n. a h)

pub take_rq-AllTold : (p : Plugged) (w : Queues) → ToldBut p.hctx w → AllTold (take_rq p true w)
unfolding take_rq
take_rq-AllTold p w a =
    update_cases (λ h q. IsOpen q × (untold q ≡ 0)) w.sqs p.hctx
      (queue_cmd p.rq true (w.sqs p.hctx))
      (let facts = queue_cmd-untold p.rq true (w.sqs p.hctx) (a p.hctx).0 in
        (facts.0, facts.2 refl))
      (λ h n. ((a h).0, (a h).1 n))

-- A request that was issued and not parked
pub Outcome-told :
    (m : Meets) (p : Plugged) (last : Bool) (w : Queues) (st : Status) (v : Queues)
    → m.stopped || m.quiesced ≡ false
    → Outcome m p last w st v
    → ToldBut p.hctx w
    → ToldBut p.hctx v × (st ≡ sts_ok → last ≡ true → AllTold v) × (st ≢ sts_ok → v.sqs ≡ w.sqs)
Outcome-told m p last w st v n (took e i) a = (
  rw i.sqs (take_rq-ToldBut p last w a),
  λ k t. rw i.sqs (subst (λ l. AllTold (take_rq p l w)) (sym t) (take_rq-AllTold p w a)),
  λ k. absurd (k e),
)
Outcome-told m p last w st v n (parked e s i) a = absurd (cc)
Outcome-told m p last w st v n (refused k i) a = (rw i.sqs a, λ e. absurd (k e), λ e. i.sqs)

pub request_bypass_insert-sqs :
    (p : Plugged) (run : Bool) (w : Queues) → (request_bypass_insert p false run w).sqs ≡ w.sqs
unfolding request_bypass_insert stage
request_bypass_insert-sqs p true w = refl
request_bypass_insert-sqs p false w = refl
