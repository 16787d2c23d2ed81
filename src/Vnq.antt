-- ===== src/Vnq.antt =====
-- The virtual NQs of a hardware context: blk_blex_alloc_and_init_vnqs() of daredevil/block/blk-blex.c,
-- with the flush queues of daredevil/block/blk-flush.c that it allocates. Which allocations succeed is
-- a parameter.
pub mod Queues
mod Tests
use nvme_plus.Base.{ℕ, zero, suc, Bool, true, false, if◌then◌else◌}
use nvme_plus.Base.Run.{Run, ok, ◌>>=◌}
use nvme_plus.Regulator.{update}
use nvme_plus.Cells.{Cell, null, live, kfree}

-- A `fq` pointer, whether it is set, with the queue's memory and that of its flush_rq.
pub record FlushQueue : Type 0 where
  pub is_set : Bool
  pub fq : Cell
  pub flush_rq : Cell

-- The fq pointer of a VNQ in zeroed memory
abbrev pub no_queue : FlushQueue
no_queue = record { is_set = false; fq = null; flush_rq = null }

-- Which allocations succeed: the array of VNQs, and the two parts of each flush queue.
pub record Grants : Type 0 where
  pub vnqs : Bool
  pub fq : ℕ → Bool
  pub flush_rq : ℕ → Bool

-- blk_alloc_flush_queue()
unfoldable pub alloc_flush_queue : Bool → Bool → Run FlushQueue
alloc_flush_queue has_fq has_flush_rq =
    if has_fq
    then if has_flush_rq
      then ok (record { is_set = true; fq = live; flush_rq = live })
      else (do fq ← kfree live; ok (record { is_set = false; fq = fq; flush_rq = null }))
    else ok no_queue

-- blk_free_flush_queue()
unfoldable pub free_flush_queue : FlushQueue → Run FlushQueue
free_flush_queue q =
    if q.is_set
    then (do
      flush_rq ← kfree q.flush_rq
      fq ← kfree q.fq
      ok (record q { fq = fq; flush_rq = flush_rq }))
    else ok q

-- The VNQs of a hardware context: their array, and the flush queue of each by CPU.
pub record Vnqs : Type 0 where
  pub vnqs : Cell
  pub fqs : ℕ → FlushQueue

-- The loop that allocates the flush queues, up to the first error
unfoldable pub alloc_queues : Grants → ℕ → (ℕ → FlushQueue) → Run (Bool × (ℕ → FlushQueue))
unfolding alloc_flush_queue
alloc_queues g zero fqs = ok (true, fqs)
alloc_queues g (suc i) fqs = do
  (before, fqs') ← alloc_queues g i fqs
  if before
      then (do fq ← alloc_flush_queue (g.fq i) (g.flush_rq i); ok (fq.is_set, update fqs' i fq))
      else ok (false, fqs')

-- The loop at `err`, over all CPUs
unfoldable pub free_queues : ℕ → (ℕ → FlushQueue) → Run (ℕ → FlushQueue)
unfolding free_flush_queue
free_queues zero fqs = ok fqs
free_queues (suc i) fqs = do
  fqs' ← free_queues i fqs
  fq ← free_flush_queue (fqs' i)
  ok (update fqs' i fq)

-- blk_blex_alloc_and_init_vnqs(): whether it succeeds, and the VNQs
unfoldable pub alloc_and_init_vnqs : Grants → ℕ → Run (Bool × Vnqs)
unfolding alloc_queues free_queues
alloc_and_init_vnqs g nr_cpu_ids =
    if g.vnqs
    then (do
      (made, fqs) ← alloc_queues g nr_cpu_ids (λ cpu. no_queue)
      if made then ok (true, record { vnqs = live; fqs = fqs }) else (do
        fqs' ← free_queues nr_cpu_ids fqs
        ok (false, record { vnqs = live; fqs = fqs' })))
    else ok (false, record { vnqs = null; fqs = λ cpu. no_queue })
