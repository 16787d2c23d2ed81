-- ===== src/Creation/Grants.antt =====
-- A turn at which nothing fails: nvme_blex_alloc_queue() and nvme_blex_create_queue() of
-- daredevil/drivers/nvme/host/pci.c.
use nvme_plus.Base.{ℕ, suc, ◌+◌, ◌^◌, ◌<◌, ◌≡◌, arith, true, false, if_elim}
use nvme_plus.Base.Int.{ℤ, pos}
use nvme_plus.Regulator.{update}
use nvme_plus.Creation.{
  NvmeDev, Answers, is_zero, nvmeq_has_cq, alloc_queue, create_queue, start_queue, attach_sq,
}

-- Nothing that is asked for queue `q` fails.
pub record Grants (a : Answers) (q : ℕ) : Type 0 where
  pub cqes : a.alloc_cqes q ≡ true
  pub sq_cmds : a.alloc_sq_cmds q ≡ true
  pub cq : a.alloc_cq q ≡ pos 0
  pub sq : a.alloc_sq q ≡ pos 0
  pub unlocked : a.unlocked q ≡ true
  pub connecting : a.connecting q ≡ true
  pub irq : a.request_irq q ≡ pos 0

start_queue-Grants :
    (a : Answers) (qid : ℕ) (d : NvmeDev) → Grants a qid → (start_queue a qid d).0 ≡ pos 0
unfolding start_queue
start_queue-Grants a qid d g = ground (arith, g.irq)

attach_sq-Grants :
    (a : Answers) (qid vector : ℕ) (d : NvmeDev)
    → Grants a qid
    → (attach_sq a qid vector d).0 ≡ pos 0
unfolding attach_sq
attach_sq-Grants a qid vector d g =
    simp (g.sq, g.unlocked, g.connecting) (start_queue-Grants a qid _ g)

pub create_queue-Grants :
    (a : Answers) (qid : ℕ) (d : NvmeDev) → Grants a qid → (create_queue a qid false d).0 ≡ pos 0
unfolding create_queue
create_queue-Grants a qid d g =
    if_elim {A = ℤ × NvmeDev} (λ s. s.0 ≡ pos 0)
      (nvmeq_has_cq (record d { delete_error = update d.delete_error qid false }) qid)
      (λ h.
        if_elim {A = ℤ × NvmeDev} (λ s. s.0 ≡ pos 0) (is_zero (a.alloc_cq qid))
          (λ z. attach_sq-Grants a qid _ _ g) (λ z. g.cq))
      (λ h. attach_sq-Grants a qid 0 _ g)

pub alloc_queue-Grants :
    (a : Answers) (d : NvmeDev)
    → d.queue_count + 1 < 2 ^ 32
    → Grants a d.queue_count
    → let s = alloc_queue a d.queue_count d in (s.0 ≡ pos 0) × (s.1.queue_count ≡ suc d.queue_count)
unfolding alloc_queue
alloc_queue-Grants a d b g =
    (ground (arith, b, g.cqes, g.sq_cmds), ground (arith, b, g.cqes, g.sq_cmds))
