-- ===== src/Vnq/Queues.antt =====
-- The flush queues of the VNQs, on success and on errors.
use nvme_plus.Base.{
  ℕ, zero, suc, ◌≤◌, ◌<◌, ◌≡◌, ◌≢◌, refl, Bool, true, false, arith, if◌then◌else◌, if_elim,
}
use nvme_plus.Base.Run.{ok, ◌>>=◌, Ends, Ends-bind}
use nvme_plus.Regulator.{update}
use nvme_plus.Cells.{live}
use nvme_plus.Vnq.{
  FlushQueue, no_queue, Grants, alloc_flush_queue, free_flush_queue, Vnqs, alloc_queues,
  free_queues, alloc_and_init_vnqs,
}

-- A flush queue in use, and one of which nothing is in use
abbrev pub IsUsed : FlushQueue → Type 0
IsUsed q = (q.is_set ≡ true) × (q.fq ≡ live) × (q.flush_rq ≡ live)

abbrev pub IsIdle : FlushQueue → Type 0
IsIdle q = (q.fq ≢ live) × (q.flush_rq ≢ live)

-- As a loop leaves it: in use, or neither in use nor set.
abbrev IsClear : FlushQueue → Type 0
IsClear q = (q.is_set ≡ false) × IsIdle q

alloc_lem :
    (a b : Bool) → Ends (λ q. if q.is_set then IsUsed q else IsClear q) (alloc_flush_queue a b)
unfolding alloc_flush_queue
alloc_lem a b = ground arith

abbrev Filled : ℕ → Bool × (ℕ → FlushQueue) → Type 0
Filled n (made, fqs) =
    (made ≡ true → (i : ℕ) → i < n → IsUsed (fqs i))
    × ((i : ℕ) → if (fqs i).is_set then IsUsed (fqs i) else IsClear (fqs i))

alloc_queues_lem : (g : Grants) (n : ℕ) → Ends (Filled n) (alloc_queues g n (λ cpu. no_queue))
unfolding alloc_queues
alloc_queues_lem g zero = (λ e i h. absurd (omega arith), λ i. ground arith)
alloc_queues_lem g (suc n) =
    Ends-bind (Filled n) (Filled (suc n)) (alloc_queues g n (λ cpu. no_queue)) _
      (alloc_queues_lem g n) (λ (before, fqs) h. next before fqs h)
  where
    next :
        (before : Bool) (fqs : ℕ → FlushQueue)
        → Filled n (before, fqs)
        → Ends (Filled (suc n)) (
            if before
            then (alloc_flush_queue (g.fq n) (g.flush_rq n) >>= λ fq.
                ok (fq.is_set, update fqs n fq))
            else ok (false, fqs))
    next false fqs h = (λ e. absurd (ground arith), h.1)
    next true fqs h =
        Ends-bind (λ q. if q.is_set then IsUsed q else IsClear q) (Filled (suc n))
          (alloc_flush_queue (g.fq n) (g.flush_rq n)) _ (alloc_lem (g.fq n) (g.flush_rq n))
          (λ fq k. (λ e i b. ground (arith, h.0 refl i, k), λ i. ground (arith, h.1 i, k)))

free_lem :
    (q : FlushQueue) → (if q.is_set then IsUsed q else IsClear q) → Ends IsIdle (free_flush_queue q)
unfolding free_flush_queue
free_lem q h = ground arith

free_queues_lem :
    (n : ℕ) (fqs : ℕ → FlushQueue)
    → ((i : ℕ) → if (fqs i).is_set then IsUsed (fqs i) else IsClear (fqs i))
    → Ends
        (λ fqs'. ((i : ℕ) → i < n → IsIdle (fqs' i)) × ((i : ℕ) → n ≤ i → fqs' i ≡ fqs i))
        (free_queues n fqs)
unfolding free_queues
free_queues_lem zero fqs h = (λ i b. absurd (omega arith), λ i b. refl)
free_queues_lem (suc n) fqs h =
    Ends-bind _ _ (free_queues n fqs) _ (free_queues_lem n fqs h) (λ fqs' (idle, same).
      Ends-bind IsIdle _ (free_flush_queue (fqs' n)) _
        (free_lem (fqs' n) (rw (same n (omega arith)) (h n)))
        (λ q k. (λ i b. ground (arith, idle i, k), λ i b. ground (arith, same i))))

-- Allocating the VNQs of a hardware context ends, whichever allocations succeed, and frees nothing
-- twice. On success every CPU has a flush queue in use; on an error no flush queue of any CPU is left
-- in use.
pub alloc_and_init_vnqs-queues :
    (g : Grants) (nr_cpu_ids : ℕ)
    → Ends
        (λ (o : Bool × Vnqs).
          if o.0
          then ((cpu : ℕ) → cpu < nr_cpu_ids → IsUsed (o.1.fqs cpu))
          else ((cpu : ℕ) → cpu < nr_cpu_ids → IsIdle (o.1.fqs cpu)))
        (alloc_and_init_vnqs g nr_cpu_ids)
alloc_and_init_vnqs-queues g n =
    unfold alloc_and_init_vnqs in
    let P : Bool × Vnqs → Type 0 = λ o.
      if o.0
      then ((cpu : ℕ) → cpu < n → IsUsed (o.1.fqs cpu))
      else ((cpu : ℕ) → cpu < n → IsIdle (o.1.fqs cpu)) in
    if_elim (Ends P) g.vnqs
      (λ granted.
        Ends-bind (Filled n) P (alloc_queues g n (λ cpu. no_queue)) _ (alloc_queues_lem g n)
          (λ (made, fqs) h.
            if_elim (Ends P) made (λ all. h.0 all)
              (λ error.
                Ends-bind _ P (free_queues n fqs) _ (free_queues_lem n fqs h.1) (λ fqs' k. k.0))))
      (λ refused. λ cpu b. (λ e. ground arith, λ e. ground arith))
