-- ===== src/Tenant.antt =====
-- The life of a tenant's I/O context on one device, in daredevil/block/blk-blex.c: its allocation, its
-- release, and the profiling of each bio. The context is what the task's xarray holds for the device.
-- A call stays on one CPU throughout.
pub mod Lifetime
pub mod Profiling
mod Tests
use nvme_plus.Base.{ℕ, ◌-◌, Bool, true, false, not, ◌&&◌, Option, none, some, ◌==◌, if◌then◌else◌}
use nvme_plus.Base.Words.{◌+u◌}
use nvme_plus.Base.Run.{Run, ok, fault, ◌>>=◌, deref}
use nvme_plus.Regulator.{Regulator, Tunables, SchedContext, task_init, task_update, get_enq}
use nvme_plus.Profile.{
  PrioClass, unset, OpFlags, TaskIoc, l_prio, outlier_prio, ioprio_simple_map, map_task_ioc_ioprio,
  update_task_ioc_stats,
}
use nvme_plus.Maps.{clear_maps, set_maps}
use nvme_plus.Sched.{Env, Outcome, hctx_to_nqid, sched_hctx}

-- What a profiling call reads beside the scheduler's surroundings: the I/O priority of the task's
-- io_context and of the current task, the flags of the bio, and whether kzalloc_node() and
-- xa_insert() succeed.
pub record Call : Type 0 where
  pub env : Env
  pub ioprio : PrioClass
  pub current_ioprio : PrioClass
  pub bi_opf : OpFlags
  pub has_memory : Bool
  pub inserts : Bool

-- What a call leaves: the entry of the task's xarray and the regulator.
abbrev pub Entry : Type 0
Entry = Option TaskIoc × Regulator

abbrev no_flags : OpFlags
no_flags = record { sync = false; meta = false; prio = false; idle = false }

-- blk_blex_sched_hctx() in the two contexts of a task, which read neither the old hctx nor the bio
abbrev pub sched_task : Env → TaskIoc → ℕ → SchedContext → Regulator → Run Outcome
sched_task env ioc info context r = sched_hctx env ioc 0 unset info no_flags context r

-- What kzalloc_node() gives, with the fields that are set before the first scheduling.
abbrev pub fresh : PrioClass → TaskIoc
fresh prio = record {
  nr_sync_reqs = 0;
  nr_async_reqs = 0;
  last_working_cpu = 0;
  hctx = none;
  outlier_hctx = none;
  need_update = false;
  blex_ioprio = ioprio_simple_map prio;
}

-- The end of blk_blex_alloc_and_init_task_ioc(): without an hctx the context is freed again.
abbrev pub finish : Outcome → Entry
finish (none, ioc, r) = (none, r)
finish (some hctx, ioc, r) = (some (record ioc { hctx = some hctx; outlier_hctx = none }), r)

-- blk_blex_alloc_and_init_task_ioc(), where `*ioc` is NULL, as in its one call; an error gives no
-- context.
unfoldable pub alloc_and_init_task_ioc : Env → Bool → PrioClass → Regulator → Run Entry
unfolding sched_hctx ioprio_simple_map
alloc_and_init_task_ioc env has_memory prio r =
    if has_memory
    then (sched_task env (fresh prio) (ioprio_simple_map prio) task_init r >>= λ out.
        ok (finish out))
    else ok (none, r)

-- blk_blex_free_task_ioc()
unfoldable pub free_task_ioc : TaskIoc → Regulator → Run Regulator
free_task_ioc ioc r = do
  hctx ← deref ioc.hctx
  ok (clear_maps r ioc.last_working_cpu (get_enq (hctx_to_nqid hctx)))

-- A new context is freed again if it cannot be inserted.
abbrev pub insert : Bool → Entry → Entry
insert inserts (none, r) = (none, r)
insert inserts (some ioc, r) = if inserts then (some ioc, r) else (none, r)

-- The first part of blk_blex_tenant_ioc_profile(): the context found or made
unfoldable pub acquire : Call → Option TaskIoc → Regulator → Run Entry
unfolding alloc_and_init_task_ioc sched_hctx ioprio_simple_map
acquire c none r =
    alloc_and_init_task_ioc c.env c.has_memory c.ioprio r >>= λ made. ok (insert c.inserts made)
acquire c (some ioc) r = elim ioc.hctx [
  | some hctx ↦ ok (some ioc, r)
  | none ↦
      sched_task c.env ioc (ioprio_simple_map c.current_ioprio) task_init r >>= λ (hctx, ioc', r').
      ok (some (record ioc' { hctx = hctx; last_working_cpu = c.env.cpu }), r')
]

-- A task that runs on another CPU takes its claim along.
unfoldable pub rehome : Call → TaskIoc → Regulator → Run (TaskIoc × Regulator)
rehome c ioc r = if ioc.last_working_cpu == c.env.cpu then ok (ioc, r) else do
  hctx ← deref ioc.hctx
  let enq = get_enq (hctx_to_nqid hctx)
  let r' = set_maps (clear_maps r ioc.last_working_cpu enq) c.env.cpu enq
  ok (record ioc { last_working_cpu = c.env.cpu }, r')

-- The update that `need_update` asks for; the message that ends it follows the new hctx.
unfoldable pub update_default : Call → TaskIoc → Regulator → Run (TaskIoc × Regulator)
unfolding sched_hctx map_task_ioc_ioprio
update_default c ioc r =
    let new_ioprio = map_task_ioc_ioprio ioc c.ioprio in
    if ioc.need_update
    then (do
      (new_hctx, ioc', r') ←
          sched_task c.env (record ioc { need_update = false }) new_ioprio task_update r
      hctx ← deref new_hctx
      ok (record ioc' { blex_ioprio = new_ioprio; hctx = some hctx }, r'))
    else ok (ioc, r)

-- The end of a change of pattern: the counts start again.
abbrev pub restart : TaskIoc → ℕ → TaskIoc
restart ioc new_ioprio = record ioc {
  nr_sync_reqs = 0;
  nr_async_reqs = 0;
  blex_ioprio = new_ioprio;
}

-- What a change of the synchronisation pattern does
unfoldable pub change_pattern : Call → TaskIoc → Regulator → Run (TaskIoc × Regulator)
unfolding sched_hctx map_task_ioc_ioprio
change_pattern c ioc r =
    let new_ioprio = map_task_ioc_ioprio ioc c.ioprio in
    let back =
      if ioc.blex_ioprio == outlier_prio then record ioc { outlier_hctx = none } else ioc in
    if new_ioprio == outlier_prio
    then elim ioc.outlier_hctx [
      | some hctx ↦ ok (restart ioc new_ioprio, r)
      | none ↦ sched_task c.env ioc l_prio task_update r >>= λ (hctx, ioc', r').
          ok (restart (record ioc' { outlier_hctx = hctx }) new_ioprio, r')
    ]
    else ok (restart back new_ioprio, r)

-- The rest of blk_blex_tenant_ioc_profile(), for the context at hand
unfoldable pub profile : Call → TaskIoc → Regulator → Run (TaskIoc × Regulator)
unfolding rehome update_default change_pattern update_task_ioc_stats
profile c ioc r = do
  let counted =
      if c.env.tunables.io_profile_on then update_task_ioc_stats c.bi_opf ioc else (false, ioc)
  (ioc', r') ← rehome c counted.1 r
  (ioc'', r'') ← update_default c ioc' r'
  if counted.0 then change_pattern c ioc'' r'' else ok (ioc'', r'')

-- blk_blex_tenant_ioc_profile(); `has_task` is false of a NULL task.
unfoldable pub tenant_ioc_profile : Call → Bool → Option TaskIoc → Regulator → Run Entry
unfolding acquire profile
tenant_ioc_profile c has_task entry r =
    if has_task
    then (acquire c entry r >>= λ (found, r'). elim found [
      | none ↦ ok (none, r')
      | some ioc ↦ profile c ioc r' >>= λ (ioc', r''). ok (some ioc', r'')
    ])
    else ok (entry, r)
