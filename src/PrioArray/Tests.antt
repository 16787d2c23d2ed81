-- ===== src/PrioArray/Tests.antt =====
-- The priority arrays of a small device.
use mathlib.Core.List.{Perm}
use nvme_plus.Base.{ℕ, suc, ◌<◌, ◌≡◌, ◌≢◌, refl, arith, Bool, true, [], ◌∷◌, get_or}
use nvme_plus.Base.Int.{ℤ, pos, ◌≤ℤ◌, ◌-ℤ◌, ◌+ℤ◌, ◌*ℤ◌, ◌/ℤ◌, s32, signed32}
use nvme_plus.Base.Run.{ok}
use nvme_plus.Regulator.{Regulator, ncq}
use nvme_plus.PrioArray.{
  ArrayRef, of_group, merit_inf, read_arr, blend, calc_sched_merit, sift, smaller_son,
  update_locked, update_priority_array, peek_recommend,
}
use nvme_plus.PrioArray.Sift.{IsHeap}
use nvme_plus.PrioArray.Update.{IsPrioArray}
use nvme_plus.PrioArray.Order.{IsOrderedBelow, key_of}
use nvme_plus.PrioArray.Turn.{
  IsDue, update_priority_array-IsPrioArray, update_priority_array-reorders,
}
use nvme_plus.PrioArray.Rotate.{IsCleared, update_priority_array-rotates}
use nvme_plus.Samples.Valid.{sample-IsRegulator}
use nvme_plus.Samples.{sample, tunables}

abbrev free : ArrayRef → Bool
free ref = true

abbrev updated : ℤ → Regulator
updated force = update_priority_array tunables 8 free (of_group 1) (pos 4) force ncq sample

-- 20 * 8 / 10 of the last merit makes way for nothing.
merit_of_idle : calc_sched_merit tunables 8 ncq (sample.enqs 2) ≡ pos 4
unfolding calc_sched_merit blend signed32 ◌-ℤ◌ ◌+ℤ◌ ◌*ℤ◌ ◌/ℤ◌ s32
merit_of_idle = refl

rotated : (read_arr (updated merit_inf) (of_group 1)).bin_heap ≡ 5 ∷ 3 ∷ []
unfolding update_priority_array update_locked sift smaller_son calc_sched_merit blend signed32 ◌-ℤ◌
    ◌+ℤ◌ ◌*ℤ◌ ◌/ℤ◌ s32
rotated = refl

kept : (read_arr (updated (pos 0)) (of_group 1)).bin_heap ≡ 3 ∷ 5 ∷ []
unfolding update_priority_array update_locked sift smaller_son calc_sched_merit blend signed32 ◌-ℤ◌
    ◌+ℤ◌ ◌*ℤ◌ ◌/ℤ◌ s32
kept = refl

recommended : peek_recommend sample 1 ≡ ok 2
unfolding peek_recommend
recommended = refl

group-IsDue : (force : ℤ) → IsDue tunables 8 free (of_group 1) (pos 4) force ncq sample
unfolding ◌-ℤ◌ s32 signed32
group-IsDue force = (refl, refl)

group-IsOrderedBelow : IsOrderedBelow tunables 8 (of_group 1) (pos 0) ncq sample
group-IsOrderedBelow c some below apart = absurd (apart (omega arith))

update_priority_array-IsPrioArray_example :
    IsPrioArray (updated merit_inf) (read_arr (updated merit_inf) (of_group 1))
    × Perm (read_arr (updated merit_inf) (of_group 1)).bin_heap (3 ∷ 5 ∷ [])
    × ((read_arr (updated merit_inf) (of_group 1)).nq_count ≡ 2)
    × ((j : ℕ) → ((updated merit_inf).enqs j).nqid ≡ (sample.enqs j).nqid)
update_priority_array-IsPrioArray_example =
    update_priority_array-IsPrioArray tunables 8 free (of_group 1) (pos 4) merit_inf ncq sample
      (sample-IsRegulator.arrays (of_group 1) (omega arith))

update_priority_array-reorders_example :
    let b = read_arr (updated (pos 0)) (of_group 1) in
    let key = key_of tunables 8 (of_group 1) (pos 0) ncq sample in
    IsHeap key 2 b.bin_heap
    × ((c : ℕ) → c < 2 → key (suc b.top_nq) ≤ℤ key (get_or b.bin_heap c 0))
    × (b.mru ≡ pos 4)
update_priority_array-reorders_example =
    update_priority_array-reorders tunables 8 free (of_group 1) (pos 4) (pos 0) ncq sample
      (sample-IsRegulator.arrays (of_group 1) (omega arith)) group-IsOrderedBelow
      (group-IsDue (pos 0))

update_priority_array-rotates_example :
    ((read_arr (updated merit_inf) (of_group 1)).top_nq ≢ 2)
    × IsCleared ncq ((updated merit_inf).enqs 2)
update_priority_array-rotates_example =
    update_priority_array-rotates tunables 8 free (of_group 1) (pos 4) ncq sample
      (sample-IsRegulator.arrays (of_group 1) (omega arith)) (omega arith) (group-IsDue merit_inf)
