-- ===== src/PrioArray.antt =====
-- The heap-based priority arrays of daredevil/block/blk-blex.c that choose an NQ, with the peeking
-- functions of daredevil/include/linux/blk-blex.h. Whether a try-lock succeeds is a parameter, `free`.
pub mod Sift
pub mod Update
pub mod Order
pub mod Turn
pub mod Rotate
pub mod Merit
pub mod Frame
mod Tests
use nvme_plus.Base.{
  ℕ, zero, suc, ◌+◌, ◌-◌, ◌*◌, ◌/◌, Bool, true, false, not, ◌&&◌, List, ltb, ◌==◌, if◌then◌else◌,
  get_or, swap,
}
use nvme_plus.Base.Words.{◌+u◌, ◌*u◌}
use nvme_plus.Base.Int.{ℤ, pos, negsuc, signed32, ◌+ℤ◌, ◌-ℤ◌, ◌*ℤ◌, ◌/ℤ◌, ltb_ℤ, leb_ℤ}
use nvme_plus.Base.Run.{Run, ok, fault}
use nvme_plus.Regulator.{
  Regulator, Tunables, PrioArray, NqGroup, EnqNcq, EnqNsq, ExposedNq, NqType, nsq, ncq, set_enq,
  set_group,
}

-- BLEX_SCHED_MERIT_INF
abbrev pub merit_inf : ℤ
merit_inf = pos 2147483647

-- Where a priority array stands: in a group, or in the eNCQ of an eNQ.
pub data ArrayRef : Type 0 where
  of_group of_ncq : ℕ → ArrayRef

abbrev pub read_arr : Regulator → ArrayRef → PrioArray
read_arr r (of_group p) = (r.nq_groups p).prio_arr
read_arr r (of_ncq i) = (r.enqs i).encq.prio_arr

abbrev pub write_arr : Regulator → ArrayRef → PrioArray → Regulator
write_arr r (of_group p) a = set_group r p (record (r.nq_groups p) { prio_arr = a })
write_arr r (of_ncq i) a =
    set_enq r i (record (r.enqs i) { encq = record ((r.enqs i).encq) { prio_arr = a } })

-- cpumask_weight(), over the CPUs of the system
unfoldable pub cpumask_weight : ℕ → (ℕ → Bool) → ℕ
cpumask_weight zero mask = 0
cpumask_weight (suc n) mask = if mask n then suc (cpumask_weight n mask) else cpumask_weight n mask

-- The weighted mean that ends blk_blex_calc_sched_merit()
unfoldable pub blend : Tunables → ℤ → ℤ → ℤ
blend t last tmp =
    last
    -ℤ last *ℤ t.merit_alpha_numer /ℤ t.merit_alpha_denom
    +ℤ tmp *ℤ t.merit_alpha_numer /ℤ t.merit_alpha_denom

-- blk_blex_calc_sched_merit()
unfoldable pub calc_sched_merit : Tunables → ℕ → NqType → ExposedNq → ℤ
unfolding blend signed32 cpumask_weight
calc_sched_merit t nr_cpus ncq e =
    blend t e.encq.ncq_sched_merit
      (signed32 (e.encq.nr_in_flight_rqs *u e.encq.nr_irqs / e.qdepth +u e.encq.nr_complete_rqs))
calc_sched_merit t nr_cpus nsq e =
    let nr_claimed_cores = cpumask_weight nr_cpus e.ensq.claimed_core_cpumask +u 1 in
    blend t e.ensq.nsq_sched_merit (
      if e.ensq.nr_submit_rqs == 0
      then pos 0
      else signed32 (e.ensq.nr_in_lock_ns *u nr_claimed_cores / e.ensq.nr_submit_rqs))

-- The son that the loop compares with: the right one only if it exists and is strictly smaller.
unfoldable pub smaller_son : (ℕ → ℤ) → ℕ → List ℕ → ℕ → ℕ
smaller_son merit nq_count heap i =
    let left_son = i * 2 + 1 in
    let right_son = i * 2 + 2 in
    if ltb right_son nq_count
      && ltb_ℤ (merit (get_or heap right_son 0)) (merit (get_or heap left_son 0))
    then right_son
    else left_son

-- The `while` loop of blk_blex_update_priority_array(), on fuel. `merit` gives the merit of an NQ id.
unfoldable pub sift : ℕ → (ℕ → ℤ) → ℤ → ℕ → List ℕ → ℕ → List ℕ
sift zero merit used_merit nq_count heap i = heap
sift (suc fuel) merit used_merit nq_count heap i =
    let son = smaller_son merit nq_count heap i in
    let rest = sift fuel merit used_merit nq_count (swap 0 heap i son) son in
    if ltb (i * 2 + 1) nq_count
    then (if ltb_ℤ used_merit (merit (get_or heap son 0)) then heap else rest)
    else heap

-- What the old top loses when it leaves the top: its statistics, once its merit is saved.
unfoldable pub clear_top : NqType → ExposedNq → ℤ → ExposedNq
clear_top ncq e merit = record e {
  encq = record (e.encq) {
    ncq_sched_merit = merit;
    nr_in_flight_rqs = 0;
    nr_complete_rqs = 0;
    nr_irqs = 0;
  };
}
clear_top nsq e merit = record e {
  ensq = record (e.ensq) { nsq_sched_merit = merit; nr_in_lock_ns = 0; nr_submit_rqs = 0 };
}

abbrev pub is_inf : ℤ → Bool
is_inf (pos n) = n == 2147483647
is_inf (negsuc n) = false

-- The part of blk_blex_update_priority_array() under the lock, and what follows it
unfoldable pub update_locked : Tunables → ℕ → ArrayRef → ℤ → NqType → Regulator → Regulator
unfolding clear_top
update_locked t nr_cpus ref force_merit type r =
    let arr = read_arr r ref in
    let top = r.enqs arr.top_nq in
    let merit = calc_sched_merit t nr_cpus type top in
    let used_merit = if is_inf force_merit then merit_inf else merit +ℤ force_merit in
    let heap =
      sift arr.nq_count (λ nqid. calc_sched_merit t nr_cpus type (r.enqs (nqid - 1))) used_merit
        arr.nq_count arr.bin_heap 0 in
    let top_changed = not (get_or heap 0 0 == top.nqid) in
    let r' = write_arr r ref (record arr {
      bin_heap = heap;
      top_nq = if top_changed then get_or heap 0 0 - 1 else arr.top_nq;
      mru = t.prio_arr_mru;
    }) in
    if top_changed then set_enq r' arr.top_nq (clear_top type (r'.enqs arr.top_nq) merit) else r'

-- blk_blex_update_priority_array()
unfoldable pub update_priority_array :
    Tunables → ℕ → (ArrayRef → Bool) → ArrayRef → ℤ → ℤ → NqType → Regulator → Regulator
update_priority_array t nr_cpus free ref mru force_merit type r =
    let arr = read_arr r ref in
    let new_mru = arr.mru -ℤ mru in
    let r' = write_arr r ref (record arr { mru = new_mru }) in
    if leb_ℤ new_mru (pos 0)
    then (if free ref then update_locked t nr_cpus ref force_merit type r' else r')
    else r'

-- blk_blex_peek_priority_array()
abbrev pub peek_priority_array : Regulator → ArrayRef → ℕ
peek_priority_array r ref = (read_arr r ref).top_nq

-- blk_blex_peek_recommend(), which follows the eNCQ of the top
unfoldable pub peek_recommend : Regulator → ℕ → Run ℕ
peek_recommend r group =
    let top = peek_priority_array r (of_group group) in
    if not (r.enqs top).has_encq
    then fault
    else if ltb 1 (r.enqs top).encq.nr_attached_nsqs
    then ok (peek_priority_array r (of_ncq top))
    else ok top

-- blk_blex_recommend_nsq(), which follows the eNCQ of the top
unfoldable pub recommend_nsq :
    Tunables → ℕ → (ArrayRef → Bool) → ℕ → Bool → ℤ → ℤ → Regulator → Run (ℕ × Regulator)
recommend_nsq t nr_cpus free prio round_robin ncq_mru nsq_mru r =
    let nsq_mru' = if round_robin then t.prio_arr_mru else nsq_mru in
    let ncq_mru' = if round_robin then t.prio_arr_mru else ncq_mru in
    let force_merit = if round_robin then merit_inf else pos 0 in
    let top = peek_priority_array r (of_group prio) in
    let r' = update_priority_array t nr_cpus free (of_group prio) ncq_mru' force_merit ncq r in
    if not (r'.enqs top).has_encq
    then fault
    else if (r'.enqs top).encq.nr_attached_nsqs == 1
    then ok (top, r')
    else ok (
      peek_priority_array r' (of_ncq top),
      update_priority_array t nr_cpus free (of_ncq top) nsq_mru' force_merit nsq r',
    )
