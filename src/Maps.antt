-- ===== src/Maps.antt =====
-- The two views of who uses an NSQ: the CPU mask in the NSQ, and the per-CPU map from NSQ ids to
-- numbers of tasks (daredevil/block/blk-blex.c). One call runs on one CPU's map at a time.
pub mod Claims
pub mod Refine
mod Tests
use nvme_plus.Base.{ℕ, ◌+◌, ◌-◌, Bool, true, false, Option, none, some, ltb, if◌then◌else◌}
use nvme_plus.Base.Int.{ℤ, pos, ◌+ℤ◌, ◌-ℤ◌}
use nvme_plus.Regulator.{
  Regulator, ExposedNq, EnqNsq, NsqMap, update, set_enq, SchedContext, is_task_update,
}

-- cpumask_set_cpu() and cpumask_test_and_clear_cpu() on the mask of an eNQ
abbrev pub mark : Regulator → ℕ → ℕ → Bool → Regulator
mark r cpu i b =
    let e = r.enqs i in
    set_enq r i (record e {
      ensq = record (e.ensq) { claimed_core_cpumask = update e.ensq.claimed_core_cpumask cpu b };
    })

-- xa_store() or xa_erase() on a CPU's map, with the count of entries changed
abbrev pub store : Regulator → ℕ → ℕ → Option ℕ → ℤ → Regulator
store r cpu nqid v n =
    let nmap = r.nsq_maps cpu in
    record r {
      nsq_maps =
          update r.nsq_maps cpu
            (record { nr_in_use = n; xa_nsq_map = update nmap.xa_nsq_map nqid v });
    }

-- blk_blex_clear_maps(); `i` is the eNQ's index
unfoldable pub clear_maps : Regulator → ℕ → ℕ → Regulator
clear_maps r cpu i =
    let nmap = r.nsq_maps cpu in
    let nqid = (r.enqs i).nqid in
    elim (nmap.xa_nsq_map nqid) [
      | none ↦ mark r cpu i false
      | some v ↦
          if ltb 1 v
          then store r cpu nqid (some (v - 1)) nmap.nr_in_use
          else store (mark r cpu i false) cpu nqid none (nmap.nr_in_use -ℤ pos 1)
    ]

-- blk_blex_set_maps()
unfoldable pub set_maps : Regulator → ℕ → ℕ → Regulator
set_maps r cpu i =
    let r' = mark r cpu i true in
    let nmap = r'.nsq_maps cpu in
    let nqid = (r'.enqs i).nqid in
    elim (nmap.xa_nsq_map nqid) [
      | none ↦ store r' cpu nqid (some 1) (nmap.nr_in_use +ℤ pos 1)
      | some v ↦ store r' cpu nqid (some (v + 1)) nmap.nr_in_use
    ]

-- blk_blex_sched_update_mappings(): `cpu` is what get_cpu() gives, and is returned. The old eNQ is
-- NULL, and not read, but in the context of a task update.
unfoldable pub sched_update_mappings : Regulator → ℕ → ℕ → ℕ → SchedContext → ℕ × Regulator
sched_update_mappings r cpu sched_enq old_enq context =
    let r' = set_maps r cpu sched_enq in
    (cpu, if is_task_update context then clear_maps r' cpu old_enq else r')
