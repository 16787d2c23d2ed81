-- ===== src/Creation.antt =====
-- How the I/O queues of an NVMe device are allocated and created when it has more SQs than CQs:
-- nvme_blex_alloc_queue(), nvme_blex_create_queue() and nvme_blex_create_io_queues() of
-- daredevil/drivers/nvme/host/pci.c.
pub mod Keeps
pub mod Step
pub mod Counts
pub mod Memory
pub mod Grants
pub mod Attached
pub mod Complete
mod Tests
use nvme_plus.Base.{
  ℕ, zero, suc, ◌+◌, ◌-◌, min, leb, Bool, true, false, not, ◌||◌, ◌&&◌, Option, none, some, ◌==◌,
  if◌then◌else◌,
}
use nvme_plus.Base.Int.{ℤ, pos, negsuc}
use nvme_plus.Base.Words.{◌+u◌, ◌-u◌}
use nvme_plus.Regulator.{update}
use nvme_plus.Topology.{get_cqid, cqid_to_index}

-- The part of `struct nvme_dev` and its queues that the creation reads and writes, and what the device
-- has: for each id, `cqs` has the vector of the CQ, and `sqs` the id of the CQ of the SQ. `cqes` and
-- `sq_cmds` say which memory is allocated, `irqs` which interrupts are requested, and `polls` whether
-- io_queues[HCTX_TYPE_POLL] is not 0. `null_cleared` says that the memory of a CQ was cleared though it was
-- not allocated: the kernel stops there, and what the model computes from then on says nothing of it.
pub record NvmeDev : Type 0 where
  pub max_qid : ℕ
  pub nr_cqs : ℕ
  pub num_vecs : ℕ
  pub queue_count : ℕ
  pub online_queues : ℕ
  pub polls : Bool
  pub cqes : ℕ → Bool
  pub sq_cmds : ℕ → Bool
  pub cqs : ℕ → Option ℕ
  pub sqs : ℕ → Option ℕ
  pub cq_vector : ℕ → ℕ
  pub enabled : ℕ → Bool
  pub delete_error : ℕ → Bool
  pub irqs : ℕ → Bool
  pub null_cleared : Bool

-- For each queue, what memory, device and core answer: the allocations, the commands, whether the
-- shutdown lock is free and the controller connecting, and the request of the interrupt.
pub record Answers : Type 0 where
  pub alloc_cqes : ℕ → Bool
  pub alloc_sq_cmds : ℕ → Bool
  pub alloc_cq : ℕ → ℤ
  pub alloc_sq : ℕ → ℤ
  pub deletes_sq : ℕ → Bool
  pub deletes_cq : ℕ → Bool
  pub unlocked : ℕ → Bool
  pub connecting : ℕ → Bool
  pub request_irq : ℕ → ℤ

abbrev pub is_zero : ℤ → Bool
is_zero (pos n) = n == 0
is_zero (negsuc n) = false

abbrev pub is_negative : ℤ → Bool
is_negative (pos n) = false
is_negative (negsuc n) = true

-- blex_nvmeq_has_cq()
unfoldable pub nvmeq_has_cq : NvmeDev → ℕ → Bool
nvmeq_has_cq d qid = (qid == 0) || (qid == get_cqid qid d.max_qid d.nr_cqs)

-- nvme_blex_alloc_queue(), with -ENOMEM
unfoldable pub alloc_queue : Answers → ℕ → NvmeDev → ℤ × NvmeDev
alloc_queue a qid d =
    if not (leb d.queue_count qid)
    then (pos 0, d)
    else if nvmeq_has_cq d qid && not (a.alloc_cqes qid)
    then (negsuc 11, record d { cqes = update d.cqes qid false })
    else if a.alloc_sq_cmds qid
    then (
      pos 0,
      record d {
        cqes = update d.cqes qid (nvmeq_has_cq d qid || d.cqes qid);
        sq_cmds = update d.sq_cmds qid true;
        queue_count = d.queue_count +u 1;
      },
    )
    else (
      negsuc 11,
      record d { cqes = update d.cqes qid false; sq_cmds = update d.sq_cmds qid false },
    )

-- nvme_setup_io_queues_trylock(), with -ENODEV
abbrev pub setup_io_queues_trylock : Bool → Bool → ℤ
setup_io_queues_trylock unlocked connecting = if unlocked && connecting then pos 0 else negsuc 18

-- The label release_cq
unfoldable pub release_cq : Answers → ℕ → NvmeDev → NvmeDev
release_cq a qid d =
    if nvmeq_has_cq d qid && a.deletes_cq qid then record d { cqs = update d.cqs qid none } else d

-- The label release_sq, up to the next one
unfoldable pub release_sq : Answers → ℕ → NvmeDev → NvmeDev
release_sq a qid d = record d {
  online_queues = d.online_queues -u 1;
  sqs = if a.deletes_sq qid then update d.sqs qid none else d.sqs;
}

-- From the initialisation of the queue on: nvme_init_queue() clears the memory of the CQ of a queue that
-- has one.
unfoldable pub start_queue : Answers → ℕ → NvmeDev → ℤ × NvmeDev
start_queue a qid d =
    let v = record d {
      online_queues = d.online_queues +u 1;
      null_cleared = d.null_cleared || (nvmeq_has_cq d qid && not (d.cqes qid));
    } in
    if nvmeq_has_cq d qid
    then (if is_negative (a.request_irq qid)
        then (a.request_irq qid, release_cq a qid (release_sq a qid v))
        else (
          a.request_irq qid,
          record v { irqs = update v.irqs qid true; enabled = update v.enabled qid true },
        ))
    else (pos 0, record v { enabled = update v.enabled qid true })

-- From the creation of the SQ on, with the vector of the queue
unfoldable pub attach_sq : Answers → ℕ → ℕ → NvmeDev → ℤ × NvmeDev
attach_sq a qid vector d =
    if is_negative (a.alloc_sq qid)
    then (a.alloc_sq qid, d)
    else if is_zero (a.alloc_sq qid)
    then (let v = record d {
      sqs = update d.sqs qid (some (get_cqid qid d.max_qid d.nr_cqs));
      cq_vector = update d.cq_vector qid vector;
    } in
        let locked = setup_io_queues_trylock (a.unlocked qid) (a.connecting qid) in
        if is_zero locked then start_queue a qid v else (locked, v))
    else (a.alloc_sq qid, release_cq a qid d)

-- The vector of a queue that has a CQ
abbrev pub vector_of : NvmeDev → ℕ → ℕ
vector_of d qid = if d.num_vecs == 1 then 0 else cqid_to_index qid d.max_qid d.nr_cqs

-- nvme_blex_create_queue()
unfoldable pub create_queue : Answers → ℕ → Bool → NvmeDev → ℤ × NvmeDev
create_queue a qid polled d =
    let v = record d { delete_error = update d.delete_error qid false } in
    if polled
    then (negsuc 0, v)
    else if nvmeq_has_cq v qid
    then (if is_zero (a.alloc_cq qid)
        then attach_sq a qid (vector_of v qid)
            (record v { cqs = update v.cqs qid (some (vector_of v qid)) })
        else (a.alloc_cq qid, v))
    else attach_sq a qid 0 v

-- The two loops of nvme_blex_create_io_queues(), with the number of turns left, the queue whose turn it
-- is and `ret`
unfoldable pub alloc_from : Answers → ℕ → ℕ → ℤ → NvmeDev → ℤ × NvmeDev
alloc_from a zero i ret d = (ret, d)
alloc_from a (suc n) i ret d =
    let s = alloc_queue a i d in
    let rest = alloc_from a n (suc i) ret s.1 in if is_zero s.0 then rest else (negsuc 11, s.1)

unfoldable pub create_from : Answers → ℕ → ℕ → ℤ → NvmeDev → ℤ × NvmeDev
create_from a zero i ret d = (ret, d)
create_from a (suc n) i ret d =
    let s = create_queue a i false d in
    let rest = create_from a n (suc i) s.0 s.1 in if is_zero s.0 then rest else s

-- What nvme_blex_create_io_queues() does once the queues are allocated
unfoldable pub create_allocated : Answers → ℤ → NvmeDev → ℤ × NvmeDev
create_allocated a ret d =
    if d.polls
    then (negsuc 0, d)
    else (let max = min d.max_qid (d.queue_count -u 1) in
        let s = create_from a (suc max - d.online_queues) d.online_queues ret d in
        (if is_negative s.0 then s.0 else pos 0, s.1))

-- nvme_blex_create_io_queues()
unfoldable pub create_io_queues : Answers → NvmeDev → ℤ × NvmeDev
create_io_queues a d =
    let s = alloc_from a (suc d.max_qid - d.queue_count) d.queue_count (pos 0) d in
    create_allocated a s.0 s.1
