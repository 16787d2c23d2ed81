-- ===== src/Setup.antt =====
-- The initialisation of one NQ group and of one eNQ, with their priority arrays, in
-- daredevil/block/blk-blex.c.
use nvme_plus.Base.{
  ℕ, zero, suc, ◌-◌, ◌/◌, Bool, true, false, List, [], ◌∷◌, ◌++◌, ltb, ◌==◌, if◌then◌else◌, get_or,
}
use nvme_plus.Base.Words.{◌+u◌, ◌-u◌, ◌*u◌}
use nvme_plus.Base.Int.{pos}
use nvme_plus.Base.Run.{Run, ok, ◌>>=◌}
use nvme_plus.Topology.{DevInfo, get_cqid, get_cq_nr_nsqs, get_kth_cqid, cqid_to_index}
use nvme_plus.Regulator.{
  Regulator, Tunables, PrioArray, NqGroup, EnqNcq, ExposedNq, update, set_enq, set_group,
}
use nvme_plus.Profile.{prio_level}
use nvme_plus.Cells.{live, kfree, Memory, Supply}

-- The values of f at 0 .. n - 1
abbrev pub table : ℕ → (ℕ → ℕ) → List ℕ
table zero f = []
table (suc n) f = table n f ++ (f n ∷ [])

-- The array that blk_blex_nq_prio_arr_init() makes of its ids; `top_nq` points into `enqs`.
abbrev pub filled : Tunables → List ℕ → ℕ → PrioArray
filled t heap count = record {
  mru = t.prio_arr_mru;
  bin_heap = heap;
  top_nq = get_or heap 0 0 - 1;
  nq_count = count;
}

-- blk_blex_nq_prio_arr_init() for a group, once its heap is allocated. The heap has room for nr_cpu_ids
-- ids; a group with more NCQs writes past it, which Init takes as a fault of the whole construction.
unfoldable pub group_arr_init : Tunables → DevInfo → NqGroup → PrioArray
group_arr_init t info g =
    let start_ncq_idx = cqid_to_index g.ncq_start info.max_nqid info.nr_cqs in
    filled t (table g.nr_ncqs λ id. get_kth_cqid (start_ncq_idx +u id) info.max_nqid info.nr_cqs)
      g.nr_ncqs

-- blk_blex_nq_prio_arr_init() for an eNCQ, once its heap is allocated
unfoldable pub ncq_arr_init : Tunables → ℕ → ℕ → PrioArray
ncq_arr_init t cqid nr_attached_nsqs =
    filled t (table nr_attached_nsqs λ id. cqid +u id) nr_attached_nsqs

-- The loop of blk_blex_nq_group_init(): the NCQs get their group, and their NSQs are counted.
unfoldable pub attach_ncqs : ℕ → ℕ → ℕ → Regulator → ℕ × Regulator
attach_ncqs zero prio ncq_start_idx r = (0, r)
attach_ncqs (suc i) prio ncq_start_idx r =
    let (nr_attach_nsqs, r') = attach_ncqs i prio ncq_start_idx r in
    let max_nqid = r.blex_info.max_nqid in
    let nr_cqs = r.blex_info.nr_cqs in
    let cqid = get_kth_cqid (ncq_start_idx +u i) max_nqid nr_cqs in
    (
      nr_attach_nsqs +u get_cq_nr_nsqs cqid max_nqid nr_cqs,
      set_enq r' (cqid - 1) (record (r'.enqs (cqid - 1)) { group = prio }),
    )

-- blk_blex_nq_group_init()
unfoldable pub nq_group_init :
    Tunables → Supply → ℕ → Regulator → Memory → Bool × Regulator × Memory
unfolding attach_ncqs group_arr_init
nq_group_init t s prio r mem =
    let info = r.blex_info in
    let nr_init_per_group_cqs = info.nr_cqs / prio_level in
    let ncq_start_idx = prio *u nr_init_per_group_cqs in
    let nr_ncqs =
      if prio +u 1 == prio_level then info.nr_cqs -u ncq_start_idx else nr_init_per_group_cqs in
    let (nr_attach_nsqs, r') = attach_ncqs nr_ncqs prio ncq_start_idx r in
    let group : NqGroup = record (r.nq_groups prio) {
      prio = prio;
      ncq_start = get_kth_cqid ncq_start_idx info.max_nqid info.nr_cqs;
      nr_ncqs = nr_ncqs;
      nr_attach_nsqs = nr_attach_nsqs;
      rr_ncq_offset = 0;
      rr_nsq_offset = 0;
    } in
    if s.group_heap prio
    then (
      true,
      set_group r' prio (record group { prio_arr = group_arr_init t info group }),
      record mem { group_heaps = update mem.group_heaps prio live },
    )
    else (
      false,
      set_group r' prio (record group {
        prio_arr = record (group.prio_arr) { mru = t.prio_arr_mru; nq_count = nr_ncqs };
      }),
      mem,
    )

-- The eNCQ that blk_blex_enq_init() makes of zeroed memory; a single NSQ needs no array.
unfoldable pub encq_init : Tunables → DevInfo → ℕ → EnqNcq → EnqNcq
unfolding ncq_arr_init
encq_init t info cqid old =
    let nr_attached_nsqs = get_cq_nr_nsqs cqid info.max_nqid info.nr_cqs in
    record {
      cqid = cqid;
      nr_attached_nsqs = nr_attached_nsqs;
      rr_nsq_offset = 0;
      ncq_sched_merit = pos 0;
      nr_in_flight_rqs = 0;
      nr_complete_rqs = 0;
      nr_irqs = 0;
      prio_arr =
          if ltb 1 nr_attached_nsqs
          then ncq_arr_init t cqid nr_attached_nsqs
          else record { mru = pos 0; bin_heap = []; top_nq = 0; nq_count = 0 };
    }

-- The fields that blk_blex_enq_init() sets before it allocates; the eNQ was zeroed.
unfoldable pub enq_fields : Regulator → ℕ → ExposedNq
enq_fields r nqid =
    let cqid = get_cqid nqid r.blex_info.max_nqid r.blex_info.nr_cqs in
    let group = (r.enqs (cqid - 1)).group in
    record (r.enqs (nqid - 1)) {
      nqid = nqid;
      cqid = cqid;
      group = group;
      prio = (r.nq_groups group).prio;
      has_encq = false;
      ensq = record {
        sqid = nqid;
        nsq_sched_merit = pos 0;
        nr_in_lock_ns = 0;
        nr_submit_rqs = 0;
        claimed_core_cpumask = λ cpu. false;
      };
    }

-- What blk_blex_enq_init() allocates for the eNQ at index `i`, and frees again on an error. `has_cq`
-- asks for an eNCQ, and `many` for a heap in it.
unfoldable pub enq_alloc : Supply → ℕ → Bool → Bool → Memory → Run (Bool × Memory)
enq_alloc s i has_cq many mem =
    let masked = record mem { masks = update mem.masks i live } in
    let with_encq = record masked { encqs = update masked.encqs i live } in
    if s.mask i
    then if has_cq
      then if s.encq i
        then if many
          then if s.nq_heap i
            then ok (true, record with_encq { nq_heaps = update with_encq.nq_heaps i live })
            else (do
              encq ← kfree (with_encq.encqs i)
              mask ← kfree (with_encq.masks i)
              ok (
                false,
                record with_encq {
                  encqs = update with_encq.encqs i encq;
                  masks = update with_encq.masks i mask;
                },
              ))
          else ok (true, with_encq)
        else (do
          mask ← kfree (masked.masks i)
          ok (false, record masked { masks = update masked.masks i mask }))
      else ok (true, masked)
    else ok (false, mem)

-- What blk_blex_enq_init() makes of an eNQ
unfoldable pub new_enq : Tunables → Regulator → ℕ → ExposedNq
unfolding enq_fields encq_init
new_enq t r nqid =
    let e = enq_fields r nqid in
    if e.nqid == e.cqid
    then record e { has_encq = true; encq = encq_init t r.blex_info e.cqid e.encq }
    else e

-- blk_blex_enq_init()
unfoldable pub enq_init :
    Tunables → Supply → ℕ → Regulator → Memory → Run (Bool × Regulator × Memory)
enq_init t s nqid r mem =
    let e = new_enq t r nqid in
    enq_alloc s (nqid - 1) (e.nqid == e.cqid) (ltb 1 e.encq.nr_attached_nsqs) mem
    >>= λ (made, mem'). ok (made, set_enq r (nqid - 1) e, mem')
