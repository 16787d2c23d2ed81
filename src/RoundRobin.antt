-- ===== src/RoundRobin.antt =====
-- The choice of an NSQ in turn or at random, in daredevil/block/blk-blex.c.
pub mod Turns
mod Tests
use nvme_plus.Base.{ℕ, ◌+◌, ◌-◌, ◌%◌, Bool, ◌||◌, ◌==◌, if◌then◌else◌}
use nvme_plus.Base.Words.{◌+u◌}
use nvme_plus.Base.Int.{ℤ, pos, signed32, bits32, rem, ◌+ℤ◌}
use nvme_plus.Topology.{get_kth_cqid, cqid_to_index}
use nvme_plus.Regulator.{Regulator, NqType, nsq, ncq, set_enq, set_group}

-- The NSQ of a group's round robin over its NCQs, and over the NSQs of the NCQ found
abbrev next_by_ncq : Regulator → ℕ → ℕ × Regulator
next_by_ncq r prio =
    let g = r.nq_groups prio in
    let max_nqid = r.blex_info.max_nqid in
    let nr_cqs = r.blex_info.nr_cqs in
    let start_ncq_idx = cqid_to_index g.ncq_start max_nqid nr_cqs in
    let r' = set_group r prio (record g { rr_ncq_offset = g.rr_ncq_offset +u 1 }) in
    let sel_ncq_idx = start_ncq_idx +u g.rr_ncq_offset % g.nr_ncqs in
    let sel_ncq_qid = get_kth_cqid sel_ncq_idx max_nqid nr_cqs in
    let e = r'.enqs (sel_ncq_qid - 1) in
    (
      sel_ncq_qid +u e.encq.rr_nsq_offset % e.encq.nr_attached_nsqs,
      set_enq r' (sel_ncq_qid - 1)
          (record e { encq = record (e.encq) { rr_nsq_offset = e.encq.rr_nsq_offset +u 1 } }),
    )

-- The NSQ of a group's round robin over all its NSQs; the offset is an `int`.
abbrev next_by_nsq : Regulator → ℕ → ℕ × Regulator
next_by_nsq r prio =
    let g = r.nq_groups prio in
    let sel_nsq_id_offset = rem (signed32 g.rr_nsq_offset) g.nr_attach_nsqs in
    (
      g.ncq_start +u bits32 sel_nsq_id_offset,
      set_group r prio (record g { rr_nsq_offset = g.rr_nsq_offset +u 1 }),
    )

-- blk_blex_sched_rr_next_nsqid()
unfoldable pub sched_rr_next_nsqid : Regulator → ℕ → NqType → ℕ × Regulator
sched_rr_next_nsqid r prio ncq = next_by_ncq r prio
sched_rr_next_nsqid r prio nsq = next_by_nsq r prio

-- blk_blex_sched_random_nqid(); `i` is what get_random_bytes() leaves in an `int`.
unfoldable pub sched_random_nqid : Regulator → ℕ → NqType → ℤ → ℤ × Regulator
unfolding sched_rr_next_nsqid
sched_random_nqid r prio type i =
    let g = r.nq_groups prio in
    let max_nqid = r.blex_info.max_nqid in
    let nr_cqs = r.blex_info.nr_cqs in
    if g.nr_attach_nsqs == 1 || g.nr_attach_nsqs == 2
    then (let (nqid, r') = sched_rr_next_nsqid r prio nsq in (signed32 nqid, r'))
    else (
      elim type [
        | nsq ↦ signed32 (bits32 (rem i g.nr_attach_nsqs) +u g.ncq_start)
        | ncq ↦
            let ncq_start_index = cqid_to_index g.ncq_start max_nqid nr_cqs in
            signed32 (get_kth_cqid (bits32 (rem i g.nr_ncqs) +u ncq_start_index) max_nqid nr_cqs)
      ],
      r,
    )
