-- ===== src/Submission.antt =====
-- The submission queue of an NVMe queue, and the batches that a plug list is sent in: nvme_sq_copy_cmd(),
-- nvme_write_sq_db(), nvme_commit_rqs(), nvme_submit_cmds() and nvme_queue_rqs() of
-- daredevil/drivers/nvme/host/pci.c.
pub mod Batch
pub mod Tail
mod Tests
use nvme_plus.Base.{
  ℕ, zero, suc, ◌%◌, ◌^◌, ◌+◌, ◌-◌, ◌≤◌, Bool, true, false, not, ◌&&◌, ◌||◌, Option, none, some,
  List, [], ◌∷◌, ◌++◌, ◌==◌, leb, if◌then◌else◌,
}
use nvme_plus.Base.Int.{ℤ, pos, ◌-ℤ◌}
use nvme_plus.Regulator.{update}

-- The submission part of `struct nvme_queue`. `told` is the tail that the device was told last, in the
-- doorbell or its shadow buffer; commands are numbers.
pub record SubmissionQueue : Type 0 where
  pub sq_cmds : ℕ → ℕ
  pub q_depth : ℕ
  pub sq_tail : ℕ
  pub last_sq_tail : ℕ
  pub sqes : ℕ
  pub told : ℕ

-- An index that is incremented, and starts again at the depth
abbrev pub wrap_next : ℕ → ℕ → ℕ
wrap_next depth i = let next = (i + 1) % 2 ^ 16 in if next == depth then 0 else next

-- nvme_sq_copy_cmd()
unfoldable pub sq_copy_cmd : ℕ → SubmissionQueue → SubmissionQueue
sq_copy_cmd cmd q = record q {
  sq_cmds = update q.sq_cmds q.sq_tail cmd;
  sq_tail = wrap_next q.q_depth q.sq_tail;
}

-- nvme_write_sq_db() from the doorbell on
unfoldable pub tell : SubmissionQueue → SubmissionQueue
tell q = record q { told = q.sq_tail; last_sq_tail = q.sq_tail }

-- nvme_write_sq_db()
unfoldable pub write_sq_db : Bool → SubmissionQueue → SubmissionQueue
write_sq_db write_sq q =
    if not write_sq && not (wrap_next q.q_depth q.sq_tail == q.last_sq_tail) then q else tell q

-- nvme_commit_rqs()
unfoldable pub commit_rqs : SubmissionQueue → SubmissionQueue
commit_rqs q = if q.sq_tail == q.last_sq_tail then q else write_sq_db true q

-- nvme_queue_rq() under the lock, `last` being bd->last
unfoldable pub queue_cmd : ℕ → Bool → SubmissionQueue → SubmissionQueue
queue_cmd cmd last q = write_sq_db last (sq_copy_cmd cmd q)

abbrev pub copy_all : List ℕ → SubmissionQueue → SubmissionQueue
copy_all [] q = q
copy_all (cmd ∷ cmds) q = copy_all cmds (sq_copy_cmd cmd q)

-- nvme_submit_cmds()
unfoldable pub submit_cmds : List ℕ → SubmissionQueue → SubmissionQueue
submit_cmds cmds q = write_sq_db true (copy_all cmds q)

-- blex_nvme_nr_enqueued_cmds(), an int
unfoldable pub nr_enqueued_cmds : SubmissionQueue → ℤ
nr_enqueued_cmds q =
    if leb q.last_sq_tail q.sq_tail
    then pos (q.sq_tail - q.last_sq_tail)
    else pos q.sqes -ℤ pos (q.last_sq_tail - q.sq_tail)

-- A request, with the index of its hardware context, the CPU of its software queue, and whether
-- RQF_FLUSH_SEQ and RQF_ELV are set
pub record Plugged : Type 0 where
  pub rq : ℕ
  pub hctx : ℕ
  pub cpu : ℕ
  pub flush_seq : Bool
  pub elv : Bool

-- What nvme_queue_rqs() gives to nvme_submit_cmds(), with the queue, in order, and what it leaves
pub record Batches : Type 0 where
  pub submitted : List (ℕ × List Plugged)
  pub requeue_list : List Plugged

abbrev pub ends_batch : ℕ → List Plugged → Bool
ends_batch hctx [] = true
ends_batch hctx (next ∷ rest) = not (hctx == next.hctx)

-- Where the batch ends, `list` is submitted to the queue, and the loop goes on with none.
abbrev pub close_batch : ℕ → ℕ → List Plugged → List Plugged → Batches → Batches → Batches
close_batch queue hctx list rest sent kept_on =
    if ends_batch hctx rest
    then record sent { submitted = (queue, list) ∷ sent.submitted }
    else kept_on

-- The hardware context of the last request of a list
abbrev pub last_hctx : Plugged → List Plugged → ℕ
last_hctx req [] = req.hctx
last_hctx req (next ∷ rest) = last_hctx next rest

-- The loop of nvme_queue_rqs(), at the request whose turn it is, with the requests of the list before
-- it, which were prepared and have not been submitted. `prep` is nvme_prep_rq_batch(). The queue is that
-- of the request whose turn it is, also when that one is put aside.
unfoldable pub batch : (Plugged → Bool) → List Plugged → List Plugged → List Plugged → Batches
batch prep kept requeue [] = record { submitted = []; requeue_list = requeue }
batch prep [] requeue (req ∷ rest) =
    let sent = batch prep [] requeue rest in
    let kept_on = batch prep (req ∷ []) requeue rest in
    let aside = batch prep [] (req ∷ requeue) rest in
    if prep req then close_batch req.hctx req.hctx (req ∷ []) rest sent kept_on else aside
batch prep (first ∷ more) requeue (req ∷ rest) =
    let sent = batch prep [] requeue rest in
    let kept_on = batch prep ((first ∷ more) ++ req ∷ []) requeue rest in
    let aside_sent = batch prep [] (req ∷ requeue) rest in
    let aside_kept = batch prep (first ∷ more) (req ∷ requeue) rest in
    if prep req
    then close_batch req.hctx req.hctx ((first ∷ more) ++ req ∷ []) rest sent kept_on
    else close_batch req.hctx (last_hctx first more) (first ∷ more) rest aside_sent aside_kept

-- nvme_queue_rqs()
unfoldable pub queue_rqs : (Plugged → Bool) → List Plugged → Batches
queue_rqs prep rqs = batch prep [] [] rqs
