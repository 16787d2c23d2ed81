-- ===== src/Plug/Told/Loops.antt =====
-- What the device was told of after the loops that blk_mq_flush_plug_list() of daredevil/block/blk-mq.c runs.
use nvme_plus.Base.{
  ℕ_discrete, ℕ, suc, ◌≡◌, ◌≢◌, refl, sym, ap, subst, arith, true, false, not, ◌&&◌, ◌||◌, Option,
  none, some, List, [], ◌∷◌, ◌==◌, if_elim,
}
use nvme_plus.Submission.Batch.{All}
use nvme_plus.Submission.{Plugged}
use nvme_plus.Submission.Tail.{untold, IsOpen, submit_cmds-untold}
use nvme_plus.Stage.{is_empty}
use nvme_plus.Issue.{
  Status, sts_ok, sts_resource, sts_dev_resource, sts_zone_resource, sts_other, Event, taken, ended,
  Queues, note, commit, try_issue_directly,
}
use nvme_plus.Issue.Effects.{try_issue_directly-Outcome}
use nvme_plus.Issue.Told.{
  AllTold, ToldBut, AllTold-But, update_cases, commit-AllTold, Outcome-told,
  request_bypass_insert-sqs,
}
use nvme_plus.Plug.{
  PlugMeets, rqs_of, note_all, submit_batches, flush_to_driver, commit_at, switch_to, after_direct,
  plug_issue_direct, finish_list, after_listed, try_issue_list_directly,
}

abbrev ToldAt : Option ℕ → Queues → Type 0
ToldAt none w = AllTold w
ToldAt (some g) w = ToldBut g w

-- No request is issued while the hardware context is stopped or the request queue quiesced.
abbrev pub NeverStops : PlugMeets → Type 0
NeverStops f =
    (p : Plugged)
    → ((f.direct p).stopped || (f.direct p).quiesced ≡ false)
      × ((f.listed p).stopped || (f.listed p).quiesced ≡ false)

pub note_all-sqs :
    (e : Plugged → Event) (ps : List Plugged) (w : Queues) → (note_all e ps w).sqs ≡ w.sqs
note_all-sqs e [] w = refl
note_all-sqs e (p ∷ ps) w = note_all-sqs e ps (note (e p) w)

submit_batches-AllTold :
    (bs : List (ℕ × List Plugged)) (w : Queues) → AllTold w → AllTold (submit_batches bs w)
unfolding submit_batches
submit_batches-AllTold [] w a = a
submit_batches-AllTold ((queue, ps) ∷ rest) w a = submit_batches-AllTold rest _ (
    subst (λ f. (h : ℕ) → IsOpen (f h) × (untold (f h) ≡ 0)) (sym (note_all-sqs taken ps _))
      (update_cases (λ h q. IsOpen q × (untold q ≡ 0)) w.sqs queue _
        (submit_cmds-untold (rqs_of ps) (w.sqs queue) (a queue).0) (λ h n. a h)))

pub flush_to_driver-AllTold :
    (f : PlugMeets) (ps : List Plugged) (w : Queues)
    → AllTold w
    → AllTold (flush_to_driver f ps w).1
unfolding flush_to_driver
flush_to_driver-AllTold f ps w a =
    if_elim {A = List Plugged × Queues} (λ s. AllTold s.1) f.quiesced (λ e. a)
      (λ e. submit_batches-AllTold _ w a)

switch_to-ToldBut :
    (hctx : Option ℕ) (next : ℕ) (w : Queues) → ToldAt hctx w → ToldBut next (switch_to hctx next w)
switch_to-ToldBut none next w a = AllTold-But next w a
switch_to-ToldBut (some h) next w a =
    if_elim {x = w} {y = commit h w} (ToldBut next) (h == next)
      (λ e. let same : h ≡ next = ground (arith, e) in subst (λ k. ToldBut k w) same a)
      (λ e. AllTold-But next (commit h w) (commit-AllTold h w a))

commit_at-AllTold : (hctx : Option ℕ) (w : Queues) → ToldAt hctx w → AllTold (commit_at hctx w)
commit_at-AllTold none w a = a
commit_at-AllTold (some h) w a = commit-AllTold h w a

after_direct-AllTold :
    (p : Plugged) (rest : List Plugged) (more : ℕ → Queues → List Plugged × Queues) (st : Status)
    (errors : ℕ) (w : Queues)
    → ((e : ℕ) (v : Queues)
        → ToldBut p.hctx v
        → (rest ≡ [] → e ≡ 0 → AllTold v)
        → AllTold (more e v).1)
    → ToldBut p.hctx w
    → (st ≡ sts_ok → rest ≡ [] → AllTold w)
    → AllTold (after_direct p rest more st errors w).1
unfolding after_direct
after_direct-AllTold p rest more sts_ok errors w k a last = k errors w a (λ n e. last refl n)
after_direct-AllTold p rest more sts_resource errors w k a last =
    commit-AllTold p.hctx _ (rw (request_bypass_insert-sqs p true w) a)
after_direct-AllTold p rest more sts_dev_resource errors w k a last =
    commit-AllTold p.hctx _ (rw (request_bypass_insert-sqs p true w) a)
after_direct-AllTold p rest more sts_zone_resource errors w k a last =
    k (suc errors) (note (ended p sts_zone_resource) w) a (λ n e. absurd (omega (arith, e)))
after_direct-AllTold p rest more (sts_other c) errors w k a last =
    k (suc errors) (note (ended p (sts_other c)) w) a (λ n e. absurd (omega (arith, e)))

pub plug_issue_direct-AllTold :
    (f : PlugMeets) (never : NeverStops f) (ps : List Plugged) (hctx : Option ℕ) (errors : ℕ)
    (w : Queues)
    → ToldAt hctx w
    → (ps ≡ [] → errors ≡ 0 → AllTold w)
    → AllTold (plug_issue_direct f ps hctx errors w).1
unfolding plug_issue_direct
plug_issue_direct-AllTold f never [] hctx errors w a last =
    if_elim {x = w} {y = commit_at hctx w} AllTold (errors == 0)
      (λ e. last refl (ground (arith, e))) (λ e. commit_at-AllTold hctx w a)
plug_issue_direct-AllTold f never (p ∷ rest) hctx errors w a last =
    let v = switch_to hctx p.hctx w in
    let s = try_issue_directly (f.direct p) p true (is_empty rest) v in
    let (told, all, kept) =
      Outcome-told _ p _ v s.0 s.1 (never p).0
        (try_issue_directly-Outcome (f.direct p) p (is_empty rest) v)
        (switch_to-ToldBut hctx p.hctx w a) in
    after_direct-AllTold p rest (plug_issue_direct f rest (some p.hctx)) s.0 errors s.1
      (λ e u t l. plug_issue_direct-AllTold f never rest (some p.hctx) e u t l) told
      (λ ok_ n. all ok_ (ap is_empty n))

finish_list-AllTold :
    (hctx : ℕ) (left : List Plugged) (queued errors : ℕ) (w : Queues)
    → ToldBut hctx w
    → (queued ≡ 0 → AllTold w)
    → (left ≡ [] → errors ≡ 0 → AllTold w)
    → AllTold (finish_list hctx left queued errors w).1
finish_list-AllTold hctx left queued errors w a none_ last =
    if_elim {x = commit hctx w} {y = w} AllTold
      ((not (is_empty left) || not (errors == 0)) && not (queued == 0))
      (λ e. commit-AllTold hctx w a) (λ e. whole left refl e)
  where
    whole :
        (l : List Plugged)
        → l ≡ left
        → (not (is_empty left) || not (errors == 0)) && not (queued == 0) ≡ false
        → AllTold w
    whole [] e t = elim (ℕ_discrete queued 0) [
      | yes z ↦ none_ z
      | no z ↦ last (sym e) (ground (arith, e, t, z))
    ]
    whole (p ∷ ps) e t = none_ (ground (arith, e, t))

after_listed-AllTold :
    (hctx : ℕ) (p : Plugged) (rest : List Plugged) (more : ℕ → ℕ → Queues → List Plugged × Queues)
    (st : Status) (queued errors : ℕ) (w : Queues)
    → ((q e : ℕ) (v : Queues)
        → ToldBut hctx v
        → (q ≡ 0 → AllTold v)
        → (rest ≡ [] → e ≡ 0 → AllTold v)
        → AllTold (more q e v).1)
    → ToldBut hctx w
    → (st ≡ sts_ok → rest ≡ [] → AllTold w)
    → (st ≢ sts_ok → queued ≡ 0 → AllTold w)
    → AllTold (after_listed hctx p rest more st queued errors w).1
unfolding after_listed
after_listed-AllTold hctx p rest more sts_ok queued errors w k a last none_ =
    k (suc queued) errors w a (λ z. absurd (omega (arith, z))) (λ n e. last refl n)
after_listed-AllTold hctx p rest more sts_resource queued errors w k a last none_ =
    let same = request_bypass_insert-sqs p (is_empty rest) w in
    finish_list-AllTold hctx rest queued (suc errors) _ (rw same a)
      (λ z. rw same (none_ (λ e. cc) z)) (λ n e. absurd (omega (arith, e)))
after_listed-AllTold hctx p rest more sts_dev_resource queued errors w k a last none_ =
    let same = request_bypass_insert-sqs p (is_empty rest) w in
    finish_list-AllTold hctx rest queued (suc errors) _ (rw same a)
      (λ z. rw same (none_ (λ e. cc) z)) (λ n e. absurd (omega (arith, e)))
after_listed-AllTold hctx p rest more sts_zone_resource queued errors w k a last none_ =
    k queued (suc errors) (note (ended p sts_zone_resource) w) a (none_ (λ e. cc))
      (λ n e. absurd (omega (arith, e)))
after_listed-AllTold hctx p rest more (sts_other c) queued errors w k a last none_ =
    k queued (suc errors) (note (ended p (sts_other c)) w) a (none_ (λ e. cc))
      (λ n e. absurd (omega (arith, e)))

-- All requests of the list are for the hardware context.
abbrev pub AllFor : ℕ → List Plugged → Type 0
AllFor hctx ps = All (λ p. p.hctx ≡ hctx) ps

pub try_issue_list_directly-AllTold :
    (f : PlugMeets) (never : NeverStops f) (hctx : ℕ) (ps : List Plugged) (queued errors : ℕ)
    (w : Queues)
    → AllFor hctx ps
    → ToldBut hctx w
    → (queued ≡ 0 → AllTold w)
    → (ps ≡ [] → errors ≡ 0 → AllTold w)
    → AllTold (try_issue_list_directly f hctx ps queued errors w).1
unfolding try_issue_list_directly
try_issue_list_directly-AllTold f never hctx [] queued errors w home a none_ last =
    finish_list-AllTold hctx [] queued errors w a none_ last
try_issue_list_directly-AllTold f never hctx (p ∷ rest) queued errors w (here, home) a none_ last =
    let s = try_issue_directly (f.listed p) p true (is_empty rest) w in
    let (told, all, kept) =
      Outcome-told _ p _ w s.0 s.1 (never p).1
        (try_issue_directly-Outcome (f.listed p) p (is_empty rest) w)
        (subst (λ h. ToldBut h w) (sym here) a) in
    after_listed-AllTold hctx p rest (try_issue_list_directly f hctx rest) s.0 queued errors s.1
      (λ q e u t z l. try_issue_list_directly-AllTold f never hctx rest q e u home t z l)
      (subst (λ h. ToldBut h s.1) here told) (λ ok_ n. all ok_ (ap is_empty n))
      (λ ok_ z. rw (kept ok_) (none_ z))
