-- ===== src/Suspend.antt =====
-- How the I/O queues of an NVMe device are deleted and suspended: nvme_disable_io_queues(),
-- nvme_suspend_io_queues() and what they call, of daredevil/drivers/nvme/host/pci.c.
pub mod Online
use nvme_plus.Base.{
  ℕ, zero, suc, ◌+◌, ◌-◌, Bool, true, false, not, ◌&&◌, ◌||◌, none, ◌==◌, ltb, leb, if◌then◌else◌,
}
use nvme_plus.Base.Words.{◌-u◌}
use nvme_plus.Regulator.{update}
use nvme_plus.Creation.{NvmeDev, nvmeq_has_cq}

-- What the commands to delete queues meet: whether there is a request for the command of a queue, after a
-- number of commands was waited for, whether it completes in time, and whether the device does it.
pub record Deletes : Type 0 where
  pub takes : ℕ → ℕ → Bool
  pub completes : ℕ → Bool
  pub works : ℕ → Bool

-- The first inner loop of __nvme_disable_io_queues(): the number of queues left
unfoldable pub send_from : (ℕ → Bool) → ℕ → ℕ
send_from takes zero = zero
send_from takes (suc n) = let left = send_from takes n in if takes (suc n) then left else suc n

-- __nvme_disable_io_queues() from the label retry on, with fuel, the queues left, the commands that are sent
-- and not waited for, and those waited for: the result, and the queues left. At no queue left, the label
-- is as good as the second inner loop.
unfoldable pub delete_from : Deletes → ℕ → ℕ → ℕ → ℕ → Bool × ℕ
delete_from a zero nr_queues sent waited = (true, nr_queues)
delete_from a (suc fuel) nr_queues sent waited =
    let left = send_from (λ q. a.takes q waited) nr_queues in
    let out = sent + (nr_queues - left) in
    let rest = delete_from a fuel left (out - 1) (suc waited) in
    if out == 0 then (true, left) else if a.completes (left + out) then rest else (false, left)

-- __nvme_disable_io_queues()
abbrev pub delete_queues : Deletes → NvmeDev → Bool × ℕ
delete_queues a d = delete_from a d.online_queues (d.online_queues - 1) 0 0

-- The command for the queue was sent.
abbrev pub was_sent : Bool × ℕ → NvmeDev → ℕ → Bool
was_sent s d q = ltb s.1 q && ltb q d.online_queues

-- nvme_disable_io_queues()
unfoldable pub disable_io_queues : Deletes → Deletes → NvmeDev → NvmeDev
disable_io_queues sq cq d =
    let s = delete_queues sq d in
    let v = record d { sqs = λ q. if was_sent s d q && sq.works q then none else d.sqs q } in
    let t = delete_queues cq v in
    if s.0
    then record v {
      cqs = λ q. if was_sent t v q && cq.works q then none else v.cqs q;
      delete_error = λ q. was_sent t v q && not (cq.works q) || v.delete_error q;
    }
    else v

-- nvme_suspend_queue(), for an I/O queue that is not polled
unfoldable pub suspend_queue : ℕ → NvmeDev → NvmeDev
suspend_queue qid d =
    if d.enabled qid
    then record d {
      enabled = update d.enabled qid false;
      online_queues = d.online_queues -u 1;
      irqs = if nvmeq_has_cq d qid then update d.irqs qid false else d.irqs;
    }
    else d

-- The loop of nvme_suspend_io_queues(), with the index of its next turn
unfoldable pub suspend_from : ℕ → NvmeDev → NvmeDev
suspend_from zero d = d
suspend_from (suc i) d = suspend_from i (suspend_queue (suc i) d)

-- nvme_suspend_io_queues()
unfoldable pub suspend_io_queues : NvmeDev → NvmeDev
suspend_io_queues d = suspend_from (d.queue_count - 1) d
