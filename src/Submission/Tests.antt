-- ===== src/Submission/Tests.antt =====
-- Plug lists, and a submission queue of eight entries.
use nvme_plus.Base.{
  ℕ, ◌≡◌, ◌≤◌, ◌⊎◌, ◌-◌, refl, arith, Bool, true, false, not, List, [], ◌∷◌, suc, ◌==◌,
  if◌then◌else◌,
}
use nvme_plus.Base.Int.{pos, ◌-ℤ◌}
use nvme_plus.Submission.{
  Plugged, SubmissionQueue, batch, queue_rqs, queue_cmd, commit_rqs, nr_enqueued_cmds,
}
use nvme_plus.Submission.Batch.{in_order, prepared, refused, AllHome, queue_rqs-batches}
use nvme_plus.Submission.Tail.{untold, IsOpen, queue_cmd-untold}

abbrev plugged : ℕ → ℕ → Plugged
plugged rq hctx = record { rq = rq; hctx = hctx; cpu = 0; flush_seq = false; elv = false }

-- The first three requests are for queue 5.
abbrev plug_list : List Plugged
plug_list = plugged 1 5 ∷ plugged 3 5 ∷ plugged 2 5 ∷ plugged 4 6 ∷ []

-- Request 2 cannot be prepared.
abbrev is_ready : Plugged → Bool
is_ready p = not (p.rq == 2)

batches : queue_rqs is_ready plug_list ≡ record {
  submitted = (5, plugged 1 5 ∷ plugged 3 5 ∷ []) ∷ (6, plugged 4 6 ∷ []) ∷ [];
  requeue_list = plugged 2 5 ∷ [];
}
unfolding queue_rqs batch
batches = refl

queue_rqs-batches_example :
    let b = queue_rqs is_ready plug_list in
    (in_order b.submitted ≡ prepared is_ready plug_list)
    × AllHome b.submitted
    × (b.requeue_list ≡ refused is_ready plug_list)
queue_rqs-batches_example = queue_rqs-batches is_ready plug_list

-- The tail has wrapped since the device was told.
abbrev wrapped : SubmissionQueue
wrapped = record {
  sq_cmds = λ i. 0;
  q_depth = 8;
  sq_tail = 1;
  last_sq_tail = 7;
  sqes = 6;
  told = 7;
}

wrapped-IsOpen : IsOpen wrapped
wrapped-IsOpen = record {
  depth = (omega arith, omega arith);
  tail = omega arith;
  last = omega arith;
  noted = refl;
  room = λ e. omega (arith, e);
}

queue_cmd-untold_example :
    let v = queue_cmd 42 false wrapped in
    IsOpen v
    × ((slot : ℕ) → v.sq_cmds slot ≡ (if 1 == slot then 42 else 0))
    × (false ≡ true → untold v ≡ 0)
    × ((untold v ≡ 0) ⊎ (untold v ≡ suc (untold wrapped)))
    × (untold v ≤ 8 - 2)
    × (untold (commit_rqs v) ≡ 0)
queue_cmd-untold_example = queue_cmd-untold 42 false wrapped wrapped-IsOpen

-- Two commands are untold, and blex_nvme_nr_enqueued_cmds() says none: it subtracts from the size of an
-- entry and not from the depth.
miscounted : (untold wrapped ≡ 2) × (nr_enqueued_cmds wrapped ≡ pos 0)
unfolding nr_enqueued_cmds ◌-ℤ◌
miscounted = (refl, refl)
