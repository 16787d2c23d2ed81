-- ===== src/Init.antt =====
-- The construction and the release of the whole NQ regulator, in daredevil/block/blk-blex.c, with the
-- allocations that they make.
pub mod Leaks
pub mod Table
pub mod Build
pub mod Valid
pub mod Start
pub mod Built
pub mod Errors
pub mod Release
pub mod Life
mod Tests
use nvme_plus.Base.{
  ℕ, zero, suc, ◌+◌, ◌-◌, ◌/◌, Bool, true, false, not, ◌&&◌, ◌||◌, List, [], ◌∷◌, ◌++◌, none, ltb,
  ◌==◌, if◌then◌else◌, get_or,
}
use nvme_plus.Base.Words.{◌+u◌, ◌-u◌, ◌*u◌}
use nvme_plus.Base.Int.{ℤ, pos}
use nvme_plus.Base.Run.{Run, ok, fault, ◌>>=◌}
use nvme_plus.Topology.{DevInfo, get_cqid, get_cq_nr_nsqs, get_kth_cqid, cqid_to_index}
use nvme_plus.Regulator.{
  Regulator, Tunables, PrioArray, NqGroup, EnqNcq, EnqNsq, ExposedNq, update, set_enq, set_group,
}
use nvme_plus.Profile.{prio_level}
use nvme_plus.Cells.{
  Cell, null, live, freed, kfree, set_pointer, Memory, Supply, Ret, done, invalid, no_memory,
}
use nvme_plus.Setup.{
  table, filled, group_arr_init, ncq_arr_init, attach_ncqs, nq_group_init, encq_init, enq_fields,
  enq_alloc, new_enq, enq_init,
}

-- What the release of one eNQ frees
unfoldable pub free_enq : ℕ → Memory → Run Memory
free_enq i mem = do
  mask ← kfree (mem.masks i)
  let unmasked = record mem { masks = update mem.masks i mask }
  if set_pointer (mem.encqs i)
      then (do
        nq_heap ← kfree (mem.nq_heaps i)
        encq ← kfree (mem.encqs i)
        ok (record unmasked {
          nq_heaps = update mem.nq_heaps i nq_heap;
          encqs = update mem.encqs i encq;
        }))
      else ok unmasked

-- The loops that release the first eNQs and groups
unfoldable pub free_enqs : ℕ → Memory → Run Memory
unfolding free_enq
free_enqs zero mem = ok mem
free_enqs (suc k) mem = free_enqs k mem >>= λ mem'. free_enq k mem'

unfoldable pub free_groups : ℕ → Memory → Run Memory
free_groups zero mem = ok mem
free_groups (suc p) mem = do
  mem' ← free_groups p mem
  heap ← kfree (mem'.group_heaps p)
  ok (record mem' { group_heaps = update mem'.group_heaps p heap })

-- The loop over the groups, up to the first error
unfoldable pub init_groups : Tunables → Supply → ℕ → Regulator → Memory → Bool × Regulator × Memory
unfolding nq_group_init
init_groups t s zero r mem = (true, r, mem)
init_groups t s (suc p) r mem =
    let (made, r', mem') = init_groups t s p r mem in
    if made then nq_group_init t s p r' mem' else (false, r', mem')

-- The loop over the eNQs, up to the first error, on which the eNQs before are released
unfoldable pub init_enqs :
    Tunables → Supply → ℕ → Regulator → Memory → Run (Bool × Regulator × Memory)
unfolding enq_init free_enqs
init_enqs t s zero r mem = ok (true, r, mem)
init_enqs t s (suc k) r mem = do
  (before, r', mem') ← init_enqs t s k r mem
  if before
      then (do
        (made, r'', mem'') ← enq_init t s (suc k) r' mem'
        if made
            then ok (true, r'', mem'')
            else (do undone ← free_enqs k mem''; ok (false, r'', undone)))
      else ok (false, r', mem')

-- The labels at the end of blk_blex_nq_regulator_alloc_and_init()
unfoldable pub group_init_err : Memory → Run Memory
unfolding free_groups
group_init_err mem = do
  mem' ← free_groups prio_level mem
  enqs ← kfree (mem'.enqs)
  nsq_maps ← kfree (mem'.nsq_maps)
  ok (record mem' { enqs = enqs; nsq_maps = nsq_maps })

-- The memory of an eNQ as kcalloc_node() gives it
abbrev pub zero_enq : ExposedNq
zero_enq = record {
  group = 0;
  prio = 0;
  qdepth = 0;
  nqid = 0;
  cqid = 0;
  ensq = record {
    sqid = 0;
    nsq_sched_merit = pos 0;
    nr_in_lock_ns = 0;
    nr_submit_rqs = 0;
    claimed_core_cpumask = λ cpu. false;
  };
  has_encq = false;
  encq = record {
    cqid = 0;
    nr_attached_nsqs = 0;
    rr_nsq_offset = 0;
    ncq_sched_merit = pos 0;
    nr_in_flight_rqs = 0;
    nr_complete_rqs = 0;
    nr_irqs = 0;
    prio_arr = record { mru = pos 0; bin_heap = []; top_nq = 0; nq_count = 0 };
  };
}

-- The maps and the eNQs as they are after their allocation
abbrev pub emptied : Regulator → Regulator
emptied r = record r {
  nsq_maps = λ cpu. record { nr_in_use = pos 0; xa_nsq_map = λ nqid. none };
  enqs = λ i. zero_enq;
}

-- The counts with which the topology functions divide by zero
abbrev pub divides_by_zero : DevInfo → Bool
divides_by_zero info = (info.nr_cqs == 0) || ltb info.max_nqid info.nr_cqs

-- blk_blex_nq_prio_arr_init() writes past the heap of a group, which has room for `nr_cpu_ids` ids: for
-- the second group only if the heap of the first was allocated.
abbrev pub overruns : ℕ → Supply → DevInfo → Bool
overruns nr_cpu_ids s info =
    s.group_heap 0
    && (ltb nr_cpu_ids (info.nr_cqs / prio_level)
        || (s.group_heap 1 && ltb nr_cpu_ids (info.nr_cqs - info.nr_cqs / prio_level)))

-- blk_blex_nq_regulator_alloc_and_init(), with `nr_cpu_ids` CPU ids; `has_set` says that tag_set and
-- driver_data are set, and `info` is the tag set's blex_info.
unfoldable pub nq_regulator_alloc_and_init :
    ℕ → Tunables → Supply → Bool → DevInfo → Regulator → Memory → Run (Ret × Regulator × Memory)
unfolding init_groups init_enqs group_init_err
nq_regulator_alloc_and_init nr_cpu_ids t s has_set info r mem =
    let r' = emptied (record r { blex_info = info }) in
    let mapped = record mem { nsq_maps = live } in
    let start = record mapped { enqs = live } in
    if has_set
    then if s.nsq_maps
      then if s.enqs
        then (if divides_by_zero info || overruns nr_cpu_ids s info
            then fault
            else (let (grouped, r'', mem') = init_groups t s prio_level r' start in
                if grouped
                then (do
                  (made, r3, mem'') ← init_enqs t s info.max_nqid r'' mem'
                  if made
                      then ok (done, r3, mem'')
                      else (do undone ← group_init_err mem''; ok (no_memory, r3, undone)))
                else (do undone ← group_init_err mem'; ok (no_memory, r'', undone))))
        else (do
          maps ← kfree (mapped.nsq_maps)
          ok (no_memory, r', record mapped { nsq_maps = maps }))
      else ok (no_memory, record r { blex_info = info }, mem)
    else ok (invalid, r, mem)

-- blk_blex_nq_regulator_free(), but for the name and the regulator itself, which its caller allocated
unfoldable pub nq_regulator_free : ℕ → Memory → Run Memory
unfolding free_enqs free_groups
nq_regulator_free max_nqid mem = do
  maps ← kfree (mem.nsq_maps)
  mem' ← free_enqs max_nqid (record mem { nsq_maps = maps })
  enqs ← kfree (mem'.enqs)
  free_groups prio_level (record mem' { enqs = enqs })
