-- ===== src/Completion.antt =====
-- The completion queue of an NVMe queue, and the interrupt that empties it: nvme_irq(), nvme_poll_cq(),
-- nvme_handle_cqe() and nvme_blex_handle_cqe() of daredevil/drivers/nvme/host/pci.c.
pub mod Ring
pub mod Poll
pub mod Served
mod Tests
use nvme_plus.Base.{
  ℕ, zero, suc, ◌%◌, ◌-◌, Bool, true, false, not, ◌&&◌, ◌||◌, Option, none, some, List, [], ◌∷◌,
  ◌==◌, if◌then◌else◌, ◌^◌, ◌+◌,
}
use nvme_plus.Base.Words.{◌+u◌, ◌-u◌}
use nvme_plus.Base.Run.{Run, ok, fault, ◌>>=◌}
use nvme_plus.Topology.{DevInfo, get_tag_idx}
use nvme_plus.Regulator.{update, get_enq, set_enq, ExposedNq, EnqNcq, Regulator}

-- `struct nvme_completion`: bit 0 of `status`, and `command_id`
pub record Cqe : Type 0 where
  pub phase : Bool
  pub command_id : ℕ

-- The completion part of `struct nvme_queue`
pub record NvmeQueue : Type 0 where
  pub qid : ℕ
  pub cqes : ℕ → Cqe
  pub q_depth : ℕ
  pub cq_head : ℕ
  pub cq_phase : Bool

-- nvme_init_queue() of a queue that has its own completion queue
unfoldable pub init_queue : ℕ → ℕ → NvmeQueue
init_queue qid q_depth = record {
  qid = qid;
  cqes = λ i. record { phase = false; command_id = 0 };
  q_depth = q_depth;
  cq_head = 0;
  cq_phase = true;
}

abbrev pub same : Bool → Bool → Bool
same a b = if a then b else not b

-- nvme_cqe_pending()
unfoldable pub cqe_pending : NvmeQueue → Bool
cqe_pending q = same (q.cqes q.cq_head).phase q.cq_phase

-- nvme_update_cq_head()
unfoldable pub update_cq_head : NvmeQueue → NvmeQueue
update_cq_head q =
    if (q.cq_head +u 1) == q.q_depth
    then record q { cq_head = 0; cq_phase = not q.cq_phase }
    else record q { cq_head = (q.cq_head +u 1) % 2 ^ 16 }

-- What ends a request: another CPU, this one, or the batch
pub data Completion : Type 0 where
  async_event : ℕ → Completion
  invalid_id : ℕ → Completion
  remote here batched : ℕ → Completion

-- What other code says: nvme_is_aen_req() of a command id, nvme_find_rq() in a set of tags, whether
-- nvme_try_complete_req() hands the request to another CPU and whether blk_mq_add_to_batch() takes it, and
-- the variable daredevil_compl_dispatch_on.
pub record Host : Type 0 where
  pub is_aen_req : ℕ → ℕ → Bool
  pub find_rq : Option ℕ → ℕ → Option ℕ
  pub try_complete_req : ℕ → Bool
  pub add_to_batch : ℕ → Bool
  pub compl_dispatch_on : Bool

-- The regulator, what was completed, the latest first, and the head that the device was told last
pub record HostState : Type 0 where
  pub nq_reg : Regulator
  pub completions : List Completion
  pub doorbell : Option ℕ

abbrev pub complete : Completion → HostState → HostState
complete c s = record s { completions = c ∷ s.completions }

-- The path of nvme_handle_cqe() for a request
unfoldable pub complete_req : Host → ℕ → HostState → HostState
complete_req env rq s =
    if env.try_complete_req rq
    then complete (remote rq) s
    else if env.add_to_batch rq
    then complete (batched rq) s
    else complete (here rq) s

-- BLK_BLEX_L_PRIO_MASK
abbrev pub has_L_prio : ℕ → Bool
has_L_prio prio = prio % 2 == 1

-- The two counters that nvme_blex_handle_cqe() changes
unfoldable pub count_completion : EnqNcq → EnqNcq
count_completion n = record n {
  nr_in_flight_rqs = n.nr_in_flight_rqs -u 1;
  nr_complete_rqs = n.nr_complete_rqs +u 1;
}

-- nvme_blex_handle_cqe() of an I/O queue, with the request of the CQE
unfoldable pub blex_handle_cqe : Host → ℕ → ℕ → HostState → Run HostState
blex_handle_cqe env qid rq s =
    if not ncq_info.has_encq
    then fault
    else if env.compl_dispatch_on
    then (if env.try_complete_req rq
        then ok (complete (remote rq) counted)
        else if has_L_prio ncq_info.prio
        then ok (complete (here rq) counted)
        else if not (env.add_to_batch rq)
        then ok (complete (here rq) counted)
        else ok (complete (batched rq) counted))
    else ok (complete_req env rq counted)
  where
    ncq_info : ExposedNq
    ncq_info = s.nq_reg.enqs (get_enq qid)

    counted : HostState
    counted = record s {
      nq_reg =
          set_enq s.nq_reg (get_enq qid)
            (record ncq_info { encq = count_completion ncq_info.encq });
    }

-- nvme_queue_tagset(): the admin tags, or the index of the tags that the queue shares
unfoldable pub queue_tagset : DevInfo → ℕ → Option ℕ
queue_tagset info qid = if qid == 0 then none else some (get_tag_idx (qid - 1) info)

-- nvme_handle_cqe(), of the entry with this command id
unfoldable pub handle_cqe : Host → ℕ → ℕ → HostState → Run HostState
handle_cqe env qid command_id s =
    if env.is_aen_req qid command_id
    then ok (complete (async_event command_id) s)
    else handle (env.find_rq (queue_tagset s.nq_reg.blex_info qid) command_id)
  where
    handle : Option ℕ → Run HostState
    handle none = ok (complete (invalid_id command_id) s)
    handle (some rq) = if qid == 0 then ok (complete_req env rq s) else blex_handle_cqe env qid rq s

-- The loop of nvme_poll_cq(), with the number of entries found. Fuel that runs out is a fault.
unfoldable pub poll : Host → ℕ → NvmeQueue → HostState → ℕ → Run (NvmeQueue × HostState × ℕ)
poll env zero q s found = if cqe_pending q then fault else ok (q, s, found)
poll env (suc n) q s found =
    if cqe_pending q
    then (do
      t ← handle_cqe env q.qid (q.cqes q.cq_head).command_id s
      poll env n (update_cq_head q) t (suc found))
    else ok (q, s, found)

-- nvme_ring_cq_doorbell(), when entries were found. Whether the register itself is written is up to
-- the device's shadow doorbells.
unfoldable pub ring_cq_doorbell : NvmeQueue → HostState → ℕ → Run (NvmeQueue × HostState × ℕ)
ring_cq_doorbell q s found =
    if found == 0 then ok (q, s, found) else ok (q, record s { doorbell = some q.cq_head }, found)

-- nvme_poll_cq(). No more entries are new than the queue has.
unfoldable pub poll_cq : Host → NvmeQueue → HostState → Run (NvmeQueue × HostState × ℕ)
poll_cq env q s = do (v, t, found) ← poll env q.q_depth q s 0; ring_cq_doorbell v t found

-- nvme_irq(): whether it handled the interrupt. The batch is completed by other code.
unfoldable pub nvme_irq : Host → NvmeQueue → HostState → Run (NvmeQueue × HostState × Bool)
nvme_irq env q s = do
  (v, t, found) ← poll_cq env q s
  if found == 0
      then ok (v, t, false)
      else if q.qid == 0
      then ok (v, t, true)
      else (do u ← count_irq (get_enq q.qid) t; ok (v, u, true))
  where
    count_irq : ℕ → HostState → Run HostState
    count_irq i t =
        let ncq : ExposedNq = t.nq_reg.enqs i in
        if ncq.has_encq
        then ok (record t {
          nq_reg =
              set_enq t.nq_reg i
                (record ncq { encq = record ncq.encq { nr_irqs = ncq.encq.nr_irqs +u 1 } });
        })
        else fault
