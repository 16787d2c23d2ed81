-- ===== src/Sched.antt =====
-- The NQ scheduler of daredevil/block/blk-blex.c. An hctx is its queue_num; `xa_load` on the hctx
-- table gives NULL for an index that is not registered. A group index out of range, which C does not
-- check, and an eNCQ that is NULL and followed are faults. A division by zero is none: it gives 0, and the
-- theorems which say that a call ends take the divisors as not zero.
pub mod Valid
pub mod Divisors
pub mod Tasks
pub mod Requests
pub mod Placement
mod Tests
use nvme_plus.Base.{
  ℕ, ◌-◌, ◌/◌, ◌%◌, Bool, true, false, not, ◌&&◌, ◌||◌, Option, none, some, ltb, ◌==◌,
  if◌then◌else◌,
}
use nvme_plus.Base.Words.{◌+u◌}
use nvme_plus.Base.Int.{ℤ, pos, ◌+ℤ◌, ◌-ℤ◌, leb_ℤ, rem_int, bits32}
use nvme_plus.Base.Run.{Run, ok, fault, ◌>>=◌, deref}
use nvme_plus.Regulator.{
  Regulator, Tunables, NqType, nsq, ncq, SchedContext, task_init, task_update, req, no_tag, other,
  is_task_update, get_enq,
}
use nvme_plus.Profile.{
  PrioClass, OpFlags, TaskIoc, l_prio, prio_level, outlier_prio, is_high_prio, ioprio_simple_map,
}
use nvme_plus.Maps.{clear_maps, sched_update_mappings}
use nvme_plus.PrioArray.{
  ArrayRef, of_group, merit_inf, peek_recommend, recommend_nsq, update_priority_array,
}
use nvme_plus.RoundRobin.{sched_rr_next_nsqid}

-- What the scheduler reads of its surroundings: the tunables, the CPUs, which try-locks succeed,
-- where the caller and the task run, whether the caller is the task, which hctxs are registered, and
-- which have all their tags in use.
pub record Env : Type 0 where
  pub tunables : Tunables
  pub nr_cpu_ids : ℕ
  pub free : ArrayRef → Bool
  pub cpu : ℕ
  pub task_cpu : ℕ
  pub is_current : Bool
  pub registered : ℕ → Bool
  pub tags_full : ℕ → Bool

-- xa_load(&q->hctx_table, i)
abbrev pub load_hctx : Env → ℕ → Option ℕ
load_hctx env i = if env.registered i then some i else none

-- blk_blex_hctx_to_nqid()
abbrev pub hctx_to_nqid : ℕ → ℕ
hctx_to_nqid hctx = hctx +u 1

-- blk_blex_nqid_to_hctx()
abbrev pub nqid_to_hctx : Env → ℕ → Option ℕ
nqid_to_hctx env nqid = load_hctx env (if nqid == 0 then nqid else nqid - 1)

-- An element of `nq_groups[BLK_BLEX_PRIO_LEVEL]` exists.
abbrev pub group_of : ℕ → Run ℕ
group_of prio = if ltb prio prio_level then ok prio else fault

-- What a scheduling call leaves: the hctx chosen, the I/O context and the regulator.
abbrev pub Outcome : Type 0
Outcome = Option ℕ × TaskIoc × Regulator

-- blk_blex_recommend_nsq(), called with the surroundings at hand
abbrev pub recommend : Env → ℕ → Bool → ℤ → ℤ → Regulator → Run (ℕ × Regulator)
recommend env = recommend_nsq env.tunables env.nr_cpu_ids env.free

-- blk_blex_sched_rr_next_nq()
unfoldable pub sched_rr_next_nq : Env → Regulator → ℕ → NqType → Option ℕ × Regulator
sched_rr_next_nq env r prio type =
    let (nqid, r') = sched_rr_next_nsqid r prio type in (nqid_to_hctx env nqid, r')

-- blk_blex_sched_task_init()
unfoldable pub sched_task_init : Env → TaskIoc → Regulator → Run Outcome
sched_task_init env ioc r = do
  prio ← group_of ioc.blex_ioprio
  if ltb env.tunables.opt_level 2
      then (let (sel_nsq_id, r') = sched_rr_next_nsqid r prio nsq in
          ok (nqid_to_hctx env sel_nsq_id, ioc, r'))
      else (do
        (sel_enq, r') ← recommend env prio true (pos 0) (pos 0) r
        let (cpu, r'') = sched_update_mappings r' env.cpu sel_enq 0 task_init
        ok (nqid_to_hctx env (r'.enqs sel_enq).nqid, record ioc { last_working_cpu = cpu }, r''))

-- blk_blex_sched_nq_allright()
unfoldable pub sched_nq_allright : Env → Regulator → ℕ → ℕ → SchedContext → Run Bool
sched_nq_allright env r prio nqid context =
    let enq = get_enq nqid in
    let ret = (r.enqs enq).prio == prio in
    if env.tunables.opt_level == 2 && is_task_update context
    then (do group ← group_of prio; top ← peek_recommend r group; ok (ret && enq == top))
    else ok ret

-- The end of blk_blex_sched_task_update(): the maps follow a task that has a new NQ.
unfoldable pub follow : Env → ℕ → ℕ → TaskIoc → Regulator → TaskIoc × Regulator
follow env sched_enq old_hctx ioc r =
    let old_enq = get_enq (hctx_to_nqid old_hctx) in
    let r' =
      if ioc.last_working_cpu == env.task_cpu
      then r
      else clear_maps r ioc.last_working_cpu old_enq in
    let (cpu, r'') = sched_update_mappings r' env.cpu sched_enq old_enq task_update in
    (record ioc { last_working_cpu = cpu }, r'')

-- The maps follow only to an NQ that exists and is another one.
unfoldable pub settle : Env → ℕ → ℕ → Option ℕ → TaskIoc → Regulator → Outcome
unfolding follow
settle env sched_enq old_hctx none ioc r = (none, ioc, r)
settle env sched_enq old_hctx (some sched_hctx) ioc r =
    if sched_hctx == old_hctx
    then (some sched_hctx, ioc, r)
    else (let (ioc', r') = follow env sched_enq old_hctx ioc r in (some sched_hctx, ioc', r'))

-- What blk_blex_sched_task_update() does if the old NQ no longer suits
unfoldable pub replace : Env → ℕ → ℕ → TaskIoc → Regulator → Run Outcome
unfolding settle
replace env ioprio old_hctx ioc r = do
  prio ← group_of ioprio
  if env.tunables.opt_level == 1
      then (let (nqid, r') = sched_rr_next_nsqid r prio nsq in ok (nqid_to_hctx env nqid, ioc, r'))
      else (do
        (sched_enq, r') ← recommend env prio false env.tunables.prio_arr_mru (pos 1) r
        ok (settle env sched_enq old_hctx (nqid_to_hctx env (r'.enqs sched_enq).nqid) ioc r'))

-- blk_blex_sched_task_update()
unfoldable pub sched_task_update : Env → ℕ → TaskIoc → Regulator → Run Outcome
unfolding sched_nq_allright replace
sched_task_update env ioprio ioc r = do
  old_hctx ← deref ioc.hctx
  allright ← sched_nq_allright env r ioprio (hctx_to_nqid old_hctx) task_update
  if allright then ok (some old_hctx, ioc, r) else replace env ioprio old_hctx ioc r

-- blk_blex_sched_get_non_default_nqid()
unfoldable pub sched_get_non_default_nqid : Env → TaskIoc → Regulator → ℤ
sched_get_non_default_nqid env ioc r =
    let cpu = ioc.last_working_cpu in
    let nr_L_prio_nqs = pos r.blex_info.max_nqid -ℤ pos (r.nq_groups l_prio).ncq_start +ℤ pos 1 in
    if leb_ℤ (pos cpu) (pos (env.nr_cpu_ids / 2))
    then rem_int (pos cpu) nr_L_prio_nqs +ℤ pos 1
    else rem_int (pos env.nr_cpu_ids -ℤ pos cpu -ℤ pos 1) nr_L_prio_nqs +ℤ pos 1

-- blk_blex_sched_req_alloc()
unfoldable pub sched_req_alloc : Env → TaskIoc → PrioClass → OpFlags → Regulator → Option ℕ
unfolding sched_get_non_default_nqid is_high_prio ioprio_simple_map
sched_req_alloc env ioc bi_ioprio cmd_flags r =
    let bio_ioprio = ioprio_simple_map bi_ioprio in
    let use_default =
      not (ioc.blex_ioprio % 2 == 0 && (bio_ioprio % 2 == 1 || is_high_prio cmd_flags)) in
    if use_default
    then ioc.hctx
    else if ioc.blex_ioprio == outlier_prio
    then ioc.outlier_hctx
    else load_hctx env (bits32 (sched_get_non_default_nqid env ioc r))

-- The hctx found when an NQ has run out of tags, at first
abbrev first_choice : Env → ℕ → ℕ → Regulator → Run (Option ℕ × Regulator)
first_choice env prio group r =
    if env.tunables.opt_level == 1
    then ok (sched_rr_next_nq env r prio ncq)
    else (let r' =
          update_priority_array env.tunables env.nr_cpu_ids env.free (of_group group)
            env.tunables.prio_arr_mru merit_inf ncq r in
        recommend env prio false (pos 0) (pos 1) r' >>= λ (sched_enq, r'').
        ok (nqid_to_hctx env (r''.enqs sched_enq).nqid, r''))

-- `old_hctx == task_ioc->hctx`
abbrev is_default : ℕ → Option ℕ → Bool
is_default old_hctx none = false
is_default old_hctx (some hctx) = old_hctx == hctx

-- blk_blex_sched_no_tag()
unfoldable pub sched_no_tag : Env → TaskIoc → ℕ → Regulator → Run Outcome
unfolding sched_rr_next_nq sched_get_non_default_nqid
sched_no_tag env ioc old_hctx r =
    let old_enq = r.enqs (get_enq (hctx_to_nqid old_hctx)) in
    if not env.is_current then ok (none, ioc, r) else do
      let ioc' = if is_default old_hctx ioc.hctx then record ioc { need_update = true } else ioc
      prio ← group_of old_enq.prio
      group ← group_of old_enq.group
      first ← first_choice env prio group r
      hctx ← deref first.0
      if not (env.tags_full hctx) then ok (some hctx, ioc', first.1) else (do
        let second = sched_rr_next_nq env first.1 prio ncq
        hctx' ← deref second.0
        ok (
            if env.tags_full hctx'
            then (
              nqid_to_hctx env (bits32 (sched_get_non_default_nqid env ioc' second.1)),
              ioc',
              second.1,
            )
            else (some hctx', ioc', second.1)))

-- blk_blex_sched_hctx(); `info` is read as a priority or as command flags, by the context.
unfoldable pub sched_hctx :
    Env → TaskIoc → ℕ → PrioClass → ℕ → OpFlags → SchedContext → Regulator → Run Outcome
unfolding sched_task_init sched_task_update sched_req_alloc sched_no_tag
sched_hctx env ioc old_hctx bi_ioprio info_prio info_flags task_init r = sched_task_init env ioc r
sched_hctx env ioc old_hctx bi_ioprio info_prio info_flags task_update r =
    sched_task_update env info_prio ioc r
sched_hctx env ioc old_hctx bi_ioprio info_prio info_flags req r =
    ok (sched_req_alloc env ioc bi_ioprio info_flags r, ioc, r)
sched_hctx env ioc old_hctx bi_ioprio info_prio info_flags no_tag r =
    sched_no_tag env ioc old_hctx r
sched_hctx env ioc old_hctx bi_ioprio info_prio info_flags other r = ok (none, ioc, r)
