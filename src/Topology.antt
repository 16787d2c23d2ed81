-- ===== src/Topology.antt =====
-- How a device's NSQs are spread over its NCQs: the inline functions of
-- daredevil/include/linux/blk-blex.h. `m` is max_nqid, the number of NQs, and `c` is nr_cqs, the
-- number of NCQs. C's division by zero (`c` or an average of 0) is ruled out by `Fits`.
pub mod Blocks
pub mod Code
pub mod Tiling
mod Tests
use nvme_plus.Base.{ℕ, ◌+◌, ◌/◌, ◌%◌, ◌^◌, ◌≤◌, ◌<◌, Bool, leb, ltb, ◌==◌, if◌then◌else◌}
use nvme_plus.Base.Words.{◌+u◌, ◌-u◌, ◌*u◌}

-- `struct blk_blex_dev_info`, the part that the mappings read.
pub record DevInfo : Type 0 where
  pub nr_cqs : ℕ
  pub max_nqid : ℕ

-- blk_blex_min_no_extra_sq_cqid()
unfoldable pub min_no_extra_sq_cqid : ℕ → ℕ → ℕ
min_no_extra_sq_cqid m c =
    let nr_ave_nsqs = m / c in
    let nr_has_extra_nsq = m % c in nr_has_extra_nsq *u (nr_ave_nsqs +u 1) +u 1

-- blk_blex_cqid_to_kth_sqid()
unfoldable pub cqid_to_kth_sqid : ℕ → ℕ → ℕ → ℕ → ℕ
cqid_to_kth_sqid cqid k m c =
    let nr_attached_nsqs = if leb (min_no_extra_sq_cqid m c) cqid then m / c else m / c +u 1 in
    cqid +u k % nr_attached_nsqs

-- blk_blex_get_cq_nr_nsqs()
unfoldable pub get_cq_nr_nsqs : ℕ → ℕ → ℕ → ℕ
get_cq_nr_nsqs cqid m c = if ltb cqid (min_no_extra_sq_cqid m c) then m / c +u 1 else m / c

-- blk_blex_get_kth_cqid()
unfoldable pub get_kth_cqid : ℕ → ℕ → ℕ → ℕ
get_kth_cqid k m c =
    let k' = k % c in
    let nr_ave_nsqs = m / c in
    let nr_has_extra_nsq = m % c in
    if ltb k' nr_has_extra_nsq
    then k' *u (nr_ave_nsqs +u 1) +u 1
    else nr_has_extra_nsq +u k' *u nr_ave_nsqs +u 1

-- blk_blex_cqid_to_index()
unfoldable pub cqid_to_index : ℕ → ℕ → ℕ → ℕ
cqid_to_index cqid m c =
    let min_cqid_without_extra_nsq = min_no_extra_sq_cqid m c in
    let nr_ave_nsqs = m / c in
    if leb cqid min_cqid_without_extra_nsq
    then cqid / (nr_ave_nsqs +u 1)
    else (cqid -u min_cqid_without_extra_nsq) / nr_ave_nsqs
      +u min_cqid_without_extra_nsq / (nr_ave_nsqs +u 1)

-- blk_blex_get_cqid()
unfoldable pub get_cqid : ℕ → ℕ → ℕ → ℕ
get_cqid qid m c =
    let nr_ave_nsqs = m / c in
    let min_cqid_without_extra_nsq = min_no_extra_sq_cqid m c in
    if ltb qid min_cqid_without_extra_nsq
    then (qid -u 1) / (nr_ave_nsqs +u 1) *u (nr_ave_nsqs +u 1) +u 1
    else min_cqid_without_extra_nsq
      +u (qid -u min_cqid_without_extra_nsq) / nr_ave_nsqs *u nr_ave_nsqs

-- blk_blex_get_tag_idx(); `set` is read through its blex_info.
unfoldable pub get_tag_idx : ℕ → DevInfo → ℕ
get_tag_idx hctx_idx info =
    let cqid = get_cqid (hctx_idx +u 1) info.max_nqid info.nr_cqs in
    cqid_to_index cqid info.max_nqid info.nr_cqs

-- blk_blex_has_cq()
unfoldable pub has_cq : ℕ → DevInfo → Bool
has_cq nqid info = nqid == get_cqid nqid info.max_nqid info.nr_cqs

-- A device that has at least one NCQ and at most as many NCQs as NQs, with the ids in range.
pub record Fits (m c : ℕ) : Type 0 where
  pub some_cq : 1 ≤ c
  pub enough : c ≤ m
  pub small : m + 1 < 2 ^ 32
