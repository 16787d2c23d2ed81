-- ===== src/Regulator.antt =====
-- The state of the NQ regulator: the structures of daredevil/include/linux/blk-blex.h. An array is a
-- function of its index, with its length stated where it matters. A pointer into `enqs` is the index
-- of the element, one less than its NQ id; a pointer to a group is the group's priority.
use nvme_plus.Base.{ℕ, ◌-◌, Bool, true, false, List, Option, ◌==◌, if◌then◌else◌}
use nvme_plus.Base.Int.{ℤ}
use nvme_plus.Topology.{DevInfo}

-- `enum blk_blex_nq_type_enum`
pub data NqType : Type 0 where
  nsq ncq : NqType

-- `enum blk_blex_sched_context`; `other` is any value that it does not name.
pub data SchedContext : Type 0 where
  task_init task_update req no_tag other : SchedContext

abbrev pub is_task_update : SchedContext → Bool
is_task_update task_update = true
is_task_update task_init = false
is_task_update req = false
is_task_update no_tag = false
is_task_update other = false

-- The tunable variables of daredevil/block/blk-blex.h.
pub record Tunables : Type 0 where
  pub opt_level : ℕ
  pub io_profile_on : Bool
  pub merit_alpha_numer : ℤ
  pub merit_alpha_denom : ℤ
  pub prio_arr_mru : ℤ

-- `struct blk_blex_nq_priority_array`, less its lock
pub record PrioArray : Type 0 where
  pub mru : ℤ
  pub bin_heap : List ℕ
  pub top_nq : ℕ
  pub nq_count : ℕ

-- `struct blk_blex_nq_group`
pub record NqGroup : Type 0 where
  pub prio : ℕ
  pub nr_attach_nsqs : ℕ
  pub prio_arr : PrioArray
  pub rr_nsq_offset : ℕ
  pub rr_ncq_offset : ℕ
  pub nr_ncqs : ℕ
  pub ncq_start : ℕ

-- `struct blk_blex_enq_ncq`
pub record EnqNcq : Type 0 where
  pub cqid : ℕ
  pub nr_attached_nsqs : ℕ
  pub rr_nsq_offset : ℕ
  pub ncq_sched_merit : ℤ
  pub nr_in_flight_rqs : ℕ
  pub nr_complete_rqs : ℕ
  pub nr_irqs : ℕ
  pub prio_arr : PrioArray

-- `struct blk_blex_enq_nsq`
pub record EnqNsq : Type 0 where
  pub sqid : ℕ
  pub nsq_sched_merit : ℤ
  pub nr_in_lock_ns : ℕ
  pub nr_submit_rqs : ℕ
  pub claimed_core_cpumask : ℕ → Bool

-- `struct blk_blex_exposed_nq`. `has_encq` is `encq != NULL`; where it is false, `encq` is what no
-- part of a valid state reads.
pub record ExposedNq : Type 0 where
  pub group : ℕ
  pub prio : ℕ
  pub qdepth : ℕ
  pub nqid : ℕ
  pub cqid : ℕ
  pub ensq : EnqNsq
  pub has_encq : Bool
  pub encq : EnqNcq

-- `struct blk_blex_nsq_map`; the xarray gives the number of tasks stored for an NQ id, if any.
pub record NsqMap : Type 0 where
  pub nr_in_use : ℤ
  pub xa_nsq_map : ℕ → Option ℕ

-- `struct blk_blex_nq_regulator`
pub record Regulator : Type 0 where
  pub blex_info : DevInfo
  pub nsq_maps : ℕ → NsqMap
  pub enqs : ℕ → ExposedNq
  pub nq_groups : ℕ → NqGroup

-- An array with one element written.
abbrev pub update {ℓ} : {A : Type ℓ} → (ℕ → A) → ℕ → A → ℕ → A
update f i v j = if i == j then v else f j

-- blk_blex_get_enq(): `set->enqs` and `nq_reg->enqs` are one array.
abbrev pub get_enq : ℕ → ℕ
get_enq qid = qid - 1

abbrev pub set_enq : Regulator → ℕ → ExposedNq → Regulator
set_enq r i e = record r { enqs = update r.enqs i e }

abbrev pub set_group : Regulator → ℕ → NqGroup → Regulator
set_group r p g = record r { nq_groups = update r.nq_groups p g }
