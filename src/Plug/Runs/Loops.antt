-- ===== src/Plug/Runs/Loops.antt =====
-- The runs of hardware contexts that the loops of blk_mq_flush_plug_list() of daredevil/block/blk-mq.c ask for.
use nvme_plus.Base.{
  ℕ, suc, ◌≡◌, ◌≢◌, ◌∙◌, refl, sym, subst, arith, Bool, true, false, not, ◌&&◌, ◌||◌, Option, none,
  some, List, [], ◌∷◌, ◌==◌, if_elim,
}
use nvme_plus.Submission.Batch.{All}
use nvme_plus.Submission.{Plugged}
use nvme_plus.Stage.{is_empty}
use nvme_plus.Issue.{
  Status, sts_ok, sts_resource, sts_dev_resource, sts_zone_resource, sts_other, taken, ended,
  Queues, Meets, note, take_rq, commit, stage, request_bypass_insert, try_issue_directly,
}
use nvme_plus.Issue.Effects.{
  waits_for_run, Outcome, took, parked, refused, try_issue_directly-Outcome,
}
use nvme_plus.Plug.Told.Loops.{NeverStops}
use nvme_plus.Plug.{
  PlugMeets, note_all, submit_batches, flush_to_driver, commit_at, switch_to, after_direct,
  plug_issue_direct, finish_list, after_listed, try_issue_list_directly,
}

-- No hardware context has requests staged since a run of it was last asked for.
abbrev pub NoneWaits : Queues → Type 0
NoneWaits w = (h : ℕ) → waits_for_run h w.log ≡ false

-- The same, but for one hardware context
abbrev pub NoneWaitsBut : ℕ → Queues → Type 0
NoneWaitsBut g w = (h : ℕ) → g ≢ h → waits_for_run h w.log ≡ false

take_rq-waits :
    (p : Plugged) (last : Bool) (w : Queues) (h : ℕ)
    → waits_for_run h (take_rq p last w).log ≡ waits_for_run h w.log
unfolding take_rq
take_rq-waits p last w h = refl

commit-waits :
    (g : ℕ) (w : Queues) (h : ℕ) → waits_for_run h (commit g w).log ≡ waits_for_run h w.log
unfolding commit
commit-waits g w h = refl

pub Outcome-NoneWaits :
    (m : Meets) (p : Plugged) (last : Bool) (w : Queues) (st : Status) (v : Queues)
    → m.stopped || m.quiesced ≡ false
    → Outcome m p last w st v
    → NoneWaits w
    → NoneWaits v
Outcome-NoneWaits m p last w st v n (took e i) a h = i.waits h ∙ take_rq-waits p last w h ∙ a h
Outcome-NoneWaits m p last w st v n (parked e s i) a h = absurd (cc)
Outcome-NoneWaits m p last w st v n (refused k i) a h = i.waits h ∙ a h

pub request_bypass_insert-NoneWaits :
    (p : Plugged) (w : Queues) → NoneWaits w → NoneWaits (request_bypass_insert p false true w)
unfolding request_bypass_insert stage
request_bypass_insert-NoneWaits p w a h = let k = a h in ground (arith, k)

request_bypass_insert-NoneWaitsBut :
    (p : Plugged) (run : Bool) (w : Queues)
    → NoneWaits w
    → NoneWaitsBut p.hctx (request_bypass_insert p false run w)
unfolding request_bypass_insert stage
request_bypass_insert-NoneWaitsBut p true w a h n = let k = a h in ground (arith, k)
request_bypass_insert-NoneWaitsBut p false w a h n = let k = a h in ground (arith, k, n)

note_all-taken :
    (ps : List Plugged) (w : Queues) (h : ℕ)
    → waits_for_run h (note_all taken ps w).log ≡ waits_for_run h w.log
note_all-taken [] w h = refl
note_all-taken (p ∷ ps) w h = note_all-taken ps (note (taken p) w) h

submit_batches-waits :
    (bs : List (ℕ × List Plugged)) (w : Queues) (h : ℕ)
    → waits_for_run h (submit_batches bs w).log ≡ waits_for_run h w.log
unfolding submit_batches
submit_batches-waits [] w h = refl
submit_batches-waits ((queue, ps) ∷ rest) w h =
    submit_batches-waits rest _ h ∙ note_all-taken ps _ h

pub flush_to_driver-NoneWaits :
    (f : PlugMeets) (ps : List Plugged) (w : Queues)
    → NoneWaits w
    → NoneWaits (flush_to_driver f ps w).1
unfolding flush_to_driver
flush_to_driver-NoneWaits f ps w a =
    if_elim {A = List Plugged × Queues} (λ s. NoneWaits s.1) f.quiesced (λ e. a)
      (λ e h. submit_batches-waits _ w h ∙ a h)

switch_to-waits :
    (hctx : Option ℕ) (next : ℕ) (w : Queues) (h : ℕ)
    → waits_for_run h (switch_to hctx next w).log ≡ waits_for_run h w.log
switch_to-waits none next w h = refl
switch_to-waits (some g) next w h =
    if_elim {x = w} {y = commit g w} (λ v. waits_for_run h v.log ≡ waits_for_run h w.log)
      (g == next) (λ e. refl) (λ e. commit-waits g w h)

commit_at-waits :
    (hctx : Option ℕ) (w : Queues) (h : ℕ)
    → waits_for_run h (commit_at hctx w).log ≡ waits_for_run h w.log
commit_at-waits none w h = refl
commit_at-waits (some g) w h = commit-waits g w h

after_direct-NoneWaits :
    (p : Plugged) (rest : List Plugged) (more : ℕ → Queues → List Plugged × Queues) (st : Status)
    (errors : ℕ) (w : Queues)
    → ((e : ℕ) (v : Queues) → NoneWaits v → NoneWaits (more e v).1)
    → NoneWaits w
    → NoneWaits (after_direct p rest more st errors w).1
unfolding after_direct
after_direct-NoneWaits p rest more sts_ok errors w k a = k errors w a
after_direct-NoneWaits p rest more sts_resource errors w k a =
    λ h. commit-waits p.hctx _ h ∙ request_bypass_insert-NoneWaits p w a h
after_direct-NoneWaits p rest more sts_dev_resource errors w k a =
    λ h. commit-waits p.hctx _ h ∙ request_bypass_insert-NoneWaits p w a h
after_direct-NoneWaits p rest more sts_zone_resource errors w k a =
    k (suc errors) (note (ended p sts_zone_resource) w) a
after_direct-NoneWaits p rest more (sts_other c) errors w k a =
    k (suc errors) (note (ended p (sts_other c)) w) a

pub plug_issue_direct-NoneWaits :
    (f : PlugMeets) (never : NeverStops f) (ps : List Plugged) (hctx : Option ℕ) (errors : ℕ)
    (w : Queues)
    → NoneWaits w
    → NoneWaits (plug_issue_direct f ps hctx errors w).1
unfolding plug_issue_direct
plug_issue_direct-NoneWaits f never [] hctx errors w a =
    if_elim {x = w} {y = commit_at hctx w} NoneWaits (errors == 0) (λ e. a)
      (λ e h. commit_at-waits hctx w h ∙ a h)
plug_issue_direct-NoneWaits f never (p ∷ rest) hctx errors w a =
    let v = switch_to hctx p.hctx w in
    let s = try_issue_directly (f.direct p) p true (is_empty rest) v in
    after_direct-NoneWaits p rest (plug_issue_direct f rest (some p.hctx)) s.0 errors s.1
      (λ e u b. plug_issue_direct-NoneWaits f never rest (some p.hctx) e u b)
      (Outcome-NoneWaits _ p _ v s.0 s.1 (never p).0
        (try_issue_directly-Outcome (f.direct p) p (is_empty rest) v)
        (λ h. switch_to-waits hctx p.hctx w h ∙ a h))

-- The list that is left keeps only its hardware context waiting, and none if it is empty.
abbrev pub Leaves : ℕ → List Plugged × Queues → Type 0
Leaves hctx s = NoneWaitsBut hctx s.1 × (s.0 ≡ [] → NoneWaits s.1)

finish_list-Leaves :
    (hctx : ℕ) (left : List Plugged) (queued errors : ℕ) (w : Queues)
    → NoneWaitsBut hctx w
    → (left ≡ [] → NoneWaits w)
    → Leaves hctx (finish_list hctx left queued errors w)
finish_list-Leaves hctx left queued errors w a b =
    if_elim {x = commit hctx w} {y = w} (λ v. NoneWaitsBut hctx v × (left ≡ [] → NoneWaits v))
      ((not (is_empty left) || not (errors == 0)) && not (queued == 0))
      (λ e. (λ h n. commit-waits hctx w h ∙ a h n, λ n h. commit-waits hctx w h ∙ b n h))
      (λ e. (a, b))

refuse-Leaves :
    (hctx : ℕ) (p : Plugged) (rest : List Plugged) (queued errors : ℕ) (w : Queues)
    → p.hctx ≡ hctx
    → NoneWaits w
    → Leaves hctx
        (finish_list hctx rest queued errors (request_bypass_insert p false (is_empty rest) w))
refuse-Leaves hctx p rest queued errors w here a =
    finish_list-Leaves hctx rest queued errors _
      (subst (λ g. NoneWaitsBut g (request_bypass_insert p false (is_empty rest) w)) here
        (request_bypass_insert-NoneWaitsBut p (is_empty rest) w a))
      (λ n.
        subst (λ l. NoneWaits (request_bypass_insert p false (is_empty l) w)) (sym n)
          (request_bypass_insert-NoneWaits p w a))

after_listed-Leaves :
    (hctx : ℕ) (p : Plugged) (rest : List Plugged) (more : ℕ → ℕ → Queues → List Plugged × Queues)
    (st : Status) (queued errors : ℕ) (w : Queues)
    → p.hctx ≡ hctx
    → ((q e : ℕ) (v : Queues) → NoneWaits v → Leaves hctx (more q e v))
    → NoneWaits w
    → Leaves hctx (after_listed hctx p rest more st queued errors w)
unfolding after_listed
after_listed-Leaves hctx p rest more sts_ok queued errors w here k a = k (suc queued) errors w a
after_listed-Leaves hctx p rest more sts_resource queued errors w here k a =
    refuse-Leaves hctx p rest queued (suc errors) w here a
after_listed-Leaves hctx p rest more sts_dev_resource queued errors w here k a =
    refuse-Leaves hctx p rest queued (suc errors) w here a
after_listed-Leaves hctx p rest more sts_zone_resource queued errors w here k a =
    k queued (suc errors) (note (ended p sts_zone_resource) w) a
after_listed-Leaves hctx p rest more (sts_other c) queued errors w here k a =
    k queued (suc errors) (note (ended p (sts_other c)) w) a

pub try_issue_list_directly-Leaves :
    (f : PlugMeets) (never : NeverStops f) (hctx : ℕ) (ps : List Plugged) (queued errors : ℕ)
    (w : Queues)
    → All (λ p. p.hctx ≡ hctx) ps
    → NoneWaits w
    → Leaves hctx (try_issue_list_directly f hctx ps queued errors w)
unfolding try_issue_list_directly
try_issue_list_directly-Leaves f never hctx [] queued errors w home a =
    finish_list-Leaves hctx [] queued errors w (λ h n. a h) (λ n. a)
try_issue_list_directly-Leaves f never hctx (p ∷ rest) queued errors w (here, home) a =
    let s = try_issue_directly (f.listed p) p true (is_empty rest) w in
    after_listed-Leaves hctx p rest (try_issue_list_directly f hctx rest) s.0 queued errors s.1 here
      (λ q e u b. try_issue_list_directly-Leaves f never hctx rest q e u home b)
      (Outcome-NoneWaits _ p _ w s.0 s.1 (never p).1
        (try_issue_directly-Outcome (f.listed p) p (is_empty rest) w) a)
