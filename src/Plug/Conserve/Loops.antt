-- ===== src/Plug/Conserve/Loops.antt =====
-- The requests of a plug list under the loops that blk_mq_flush_plug_list() of daredevil/block/blk-mq.c runs.
use nvme_plus.Base.{
  ℕ, suc, ◌+◌, ◌≡◌, ◌≢◌, refl, ap, subst, arith, Bool, true, false, not, ◌&&◌, ◌||◌, Option, none,
  some, List, [], ◌∷◌, ◌++◌, ◌==◌, if◌then◌else◌, if_elim,
}
use nvme_plus.Submission.{Plugged, queue_rqs}
use nvme_plus.Submission.Batch.{prepared, refused, in_order, queue_rqs-batches}
use nvme_plus.Stage.{is_empty}
use nvme_plus.Issue.{
  Status, sts_ok, sts_resource, sts_dev_resource, sts_zone_resource, sts_other, taken, ended,
  staged, Queues, note, commit, request_bypass_insert, try_issue_directly,
}
use nvme_plus.Issue.Effects.{
  occurs, handled, once, try_issue_directly-Outcome, request_bypass_insert-handled, commit-handled,
  Outcome-handled,
}
use nvme_plus.Plug.{
  PlugMeets, note_all, submit_batches, flush_to_driver, commit_at, switch_to, after_direct,
  plug_issue_direct, finish_list, after_listed, try_issue_list_directly,
}

module _ (r : ℕ) where
  pub occurs-append : (ps qs : List Plugged) → occurs r (ps ++ qs) ≡ occurs r ps + occurs r qs
  occurs-append [] qs = omega arith
  occurs-append (p ∷ ps) qs = omega (arith, occurs-append ps qs)

  note_all-taken :
      (ps : List Plugged) (w : Queues)
      → handled r (note_all taken ps w).log ≡ occurs r ps + handled r w.log
  note_all-taken [] w = omega arith
  note_all-taken (p ∷ ps) w = omega (arith, note_all-taken ps (note (taken p) w))

  pub note_all-staged :
      (ps : List Plugged) (w : Queues)
      → handled r (note_all staged ps w).log ≡ occurs r ps + handled r w.log
  note_all-staged [] w = omega arith
  note_all-staged (p ∷ ps) w = omega (arith, note_all-staged ps (note (staged p) w))

  prepared-refused :
      (prep : Plugged → Bool) (ps : List Plugged)
      → occurs r (prepared prep ps) + occurs r (refused prep ps) ≡ occurs r ps
  prepared-refused prep [] = refl
  prepared-refused prep (p ∷ ps) =
      if_elim {x = p ∷ prepared prep ps} {y = prepared prep ps}
        (λ l.
          occurs r l + occurs r (if prep p then refused prep ps else refused prep ps ++ p ∷ [])
          ≡ occurs r (p ∷ ps))
        (prep p) (λ e. rw e (omega (arith, prepared-refused prep ps)))
        (λ e.
          rw e (omega (arith, prepared-refused prep ps, occurs-append (refused prep ps) (p ∷ []))))

  submit_batches-handled :
      (bs : List (ℕ × List Plugged)) (w : Queues)
      → handled r (submit_batches bs w).log ≡ occurs r (in_order bs) + handled r w.log
  unfolding submit_batches
  submit_batches-handled [] w = omega arith
  submit_batches-handled ((queue, ps) ∷ rest) w =
      omega (
        arith,
        submit_batches-handled rest _,
        occurs-append ps (in_order rest),
        note_all-taken ps _,
      )

  -- What is left of a list and what is handled make up the list.
  abbrev pub Conserves : List Plugged → ℕ → List Plugged × Queues → Type 0
  Conserves ps n s = occurs r s.0 + handled r s.1.log ≡ occurs r ps + n

  pub flush_to_driver-Conserves :
      (f : PlugMeets) (ps : List Plugged) (w : Queues)
      → Conserves ps (handled r w.log) (flush_to_driver f ps w)
  unfolding flush_to_driver
  flush_to_driver-Conserves f ps w =
      if_elim {A = List Plugged × Queues} (Conserves ps (handled r w.log)) f.quiesced (λ e. refl)
        (λ e.
          let (order, home, rest) = queue_rqs-batches f.prep ps in
          omega (
            arith,
            submit_batches-handled (queue_rqs f.prep ps).submitted w,
            ap (occurs r) order,
            ap (occurs r) rest,
            prepared-refused f.prep ps,
          ))

  after_direct-Conserves :
      (p : Plugged) (rest : List Plugged) (more : ℕ → Queues → List Plugged × Queues) (st : Status)
      (errors : ℕ) (w : Queues) (n : ℕ)
      → ((e : ℕ) (v : Queues) → Conserves rest (handled r v.log) (more e v))
      → (st ≡ sts_ok → handled r w.log ≡ once r p + n) × (st ≢ sts_ok → handled r w.log ≡ n)
      → Conserves (p ∷ rest) n (after_direct p rest more st errors w)
  unfolding after_direct
  after_direct-Conserves p rest more sts_ok errors w n k (h, g) = omega (arith, k errors w, h refl)
  after_direct-Conserves p rest more sts_resource errors w n k (h, g) = omega (
    arith,
    commit-handled r p.hctx (request_bypass_insert p false true w),
    request_bypass_insert-handled r p true w,
    g (λ e. cc),
  )
  after_direct-Conserves p rest more sts_dev_resource errors w n k (h, g) = omega (
    arith,
    commit-handled r p.hctx (request_bypass_insert p false true w),
    request_bypass_insert-handled r p true w,
    g (λ e. cc),
  )
  after_direct-Conserves p rest more sts_zone_resource errors w n k (h, g) =
      omega (arith, k (suc errors) (note (ended p sts_zone_resource) w), g (λ e. cc))
  after_direct-Conserves p rest more (sts_other c) errors w n k (h, g) =
      omega (arith, k (suc errors) (note (ended p (sts_other c)) w), g (λ e. cc))

  switch_to-handled :
      (hctx : Option ℕ) (next : ℕ) (w : Queues)
      → handled r (switch_to hctx next w).log ≡ handled r w.log
  switch_to-handled none next w = refl
  switch_to-handled (some h) next w =
      if_elim {x = w} {y = commit h w} (λ v. handled r v.log ≡ handled r w.log) (h == next)
        (λ e. refl) (λ e. commit-handled r h w)

  commit_at-handled :
      (hctx : Option ℕ) (w : Queues) → handled r (commit_at hctx w).log ≡ handled r w.log
  commit_at-handled none w = refl
  commit_at-handled (some h) w = commit-handled r h w

  pub plug_issue_direct-Conserves :
      (f : PlugMeets) (ps : List Plugged) (hctx : Option ℕ) (errors : ℕ) (w : Queues)
      → Conserves ps (handled r w.log) (plug_issue_direct f ps hctx errors w)
  unfolding plug_issue_direct
  plug_issue_direct-Conserves f [] hctx errors w =
      if_elim {x = w} {y = commit_at hctx w} (λ v. 0 + handled r v.log ≡ 0 + handled r w.log)
        (errors == 0) (λ e. refl) (λ e. omega (arith, commit_at-handled hctx w))
  plug_issue_direct-Conserves f (p ∷ rest) hctx errors w =
      let v = switch_to hctx p.hctx w in
      let s = try_issue_directly (f.direct p) p true (is_empty rest) v in
      subst
        (λ n.
          Conserves (p ∷ rest) n
            (after_direct p rest (plug_issue_direct f rest (some p.hctx)) s.0 errors s.1))
        (switch_to-handled hctx p.hctx w)
        (after_direct-Conserves p rest (plug_issue_direct f rest (some p.hctx)) s.0 errors s.1
          (handled r v.log) (plug_issue_direct-Conserves f rest (some p.hctx))
          (Outcome-handled r _ p _ v s.0 s.1
            (try_issue_directly-Outcome (f.direct p) p (is_empty rest) v)))

  finish_list-Conserves :
      (hctx : ℕ) (left ps : List Plugged) (queued errors n : ℕ) (w : Queues)
      → occurs r left + handled r w.log ≡ occurs r ps + n
      → Conserves ps n (finish_list hctx left queued errors w)
  finish_list-Conserves hctx left ps queued errors n w e =
      if_elim {x = commit hctx w} {y = w} (λ v. occurs r left + handled r v.log ≡ occurs r ps + n)
        ((not (is_empty left) || not (errors == 0)) && not (queued == 0))
        (λ t. omega (arith, commit-handled r hctx w, e)) (λ t. e)

  after_listed-Conserves :
      (hctx : ℕ) (p : Plugged) (rest : List Plugged) (more : ℕ → ℕ → Queues → List Plugged × Queues)
      (st : Status) (queued errors : ℕ) (w : Queues) (n : ℕ)
      → ((q e : ℕ) (v : Queues) → Conserves rest (handled r v.log) (more q e v))
      → (st ≡ sts_ok → handled r w.log ≡ once r p + n) × (st ≢ sts_ok → handled r w.log ≡ n)
      → Conserves (p ∷ rest) n (after_listed hctx p rest more st queued errors w)
  unfolding after_listed
  after_listed-Conserves hctx p rest more sts_ok queued errors w n k (h, g) =
      omega (arith, k (suc queued) errors w, h refl)
  after_listed-Conserves hctx p rest more sts_resource queued errors w n k (h, g) =
      finish_list-Conserves hctx rest (p ∷ rest) queued (suc errors) n _
        (omega (arith, request_bypass_insert-handled r p (is_empty rest) w, g (λ e. cc)))
  after_listed-Conserves hctx p rest more sts_dev_resource queued errors w n k (h, g) =
      finish_list-Conserves hctx rest (p ∷ rest) queued (suc errors) n _
        (omega (arith, request_bypass_insert-handled r p (is_empty rest) w, g (λ e. cc)))
  after_listed-Conserves hctx p rest more sts_zone_resource queued errors w n k (h, g) =
      omega (arith, k queued (suc errors) (note (ended p sts_zone_resource) w), g (λ e. cc))
  after_listed-Conserves hctx p rest more (sts_other c) queued errors w n k (h, g) =
      omega (arith, k queued (suc errors) (note (ended p (sts_other c)) w), g (λ e. cc))

  pub try_issue_list_directly-Conserves :
      (f : PlugMeets) (hctx : ℕ) (ps : List Plugged) (queued errors : ℕ) (w : Queues)
      → Conserves ps (handled r w.log) (try_issue_list_directly f hctx ps queued errors w)
  unfolding try_issue_list_directly
  try_issue_list_directly-Conserves f hctx [] queued errors w =
      finish_list-Conserves hctx [] [] queued errors _ w refl
  try_issue_list_directly-Conserves f hctx (p ∷ rest) queued errors w =
      let s = try_issue_directly (f.listed p) p true (is_empty rest) w in
      after_listed-Conserves hctx p rest (try_issue_list_directly f hctx rest) s.0 queued errors s.1
        (handled r w.log) (try_issue_list_directly-Conserves f hctx rest)
        (Outcome-handled r _ p _ w s.0 s.1
          (try_issue_directly-Outcome (f.listed p) p (is_empty rest) w))
