-- ===== src/Vnq/Tests.antt =====
-- The VNQs of four CPUs, when the third flush queue cannot be had.
use nvme_plus.Base.{ℕ, ◌<◌, ◌≡◌, refl, Bool, true, false, not, ◌==◌, if◌then◌else◌}
use nvme_plus.Base.Run.{Run, ok, ◌>>=◌, Ends}
use nvme_plus.Vnq.{
  Grants, Vnqs, alloc_and_init_vnqs, alloc_queues, free_queues, alloc_flush_queue, free_flush_queue,
}
use nvme_plus.Vnq.Queues.{IsUsed, IsIdle, alloc_and_init_vnqs-queues}

abbrev grants : Grants
grants = record { vnqs = true; fq = λ i. true; flush_rq = λ i. not (i == 2) }

abbrev succeeds : Bool × Vnqs → Run Bool
succeeds (made, v) = ok made

refused : (alloc_and_init_vnqs grants 4 >>= succeeds) ≡ ok false
unfolding alloc_and_init_vnqs alloc_queues free_queues alloc_flush_queue free_flush_queue
refused = refl

granted : (alloc_and_init_vnqs grants 2 >>= succeeds) ≡ ok true
unfolding alloc_and_init_vnqs alloc_queues free_queues alloc_flush_queue free_flush_queue
granted = refl

alloc_and_init_vnqs-queues_example :
    Ends
      (λ (o : Bool × Vnqs).
        if o.0
        then ((cpu : ℕ) → cpu < 4 → IsUsed (o.1.fqs cpu))
        else ((cpu : ℕ) → cpu < 4 → IsIdle (o.1.fqs cpu)))
      (alloc_and_init_vnqs grants 4)
alloc_and_init_vnqs-queues_example = alloc_and_init_vnqs-queues grants 4
