-- ===== src/PrioArray/Rotate.antt =====
-- Round-robin recommendation: an update with an infinite merit puts another NQ on top.
use nvme_plus.Base.{
  ℕ, ◌-◌, ◌<◌, ◌≡◌, ◌≢◌, refl, ◌∙◌, sym, ap, subst, Bool, true, List, if◌then◌else◌, arith, get_or,
  Nodup-get_or,
}
use nvme_plus.Base.Int.{ℤ, ◌-ℤ◌, ◌≤ℤ◌, IsInt, add-IsInt}
use nvme_plus.Regulator.{Regulator, Tunables, PrioArray, NqType, nsq, ncq, ExposedNq}
use nvme_plus.PrioArray.{
  ArrayRef, read_arr, calc_sched_merit, blend, merit_inf, clear_top, update_priority_array,
}
use nvme_plus.PrioArray.Sift.{sift-first, smaller_son-cases, son_of}
use nvme_plus.PrioArray.Update.{
  IsPrioArray, merit_of, new_heap, top_changed, update_locked_cases, old_first, left, written,
  top_merit, cleared,
}
use nvme_plus.PrioArray.Turn.{
  counted, after, IsDue, after_due, counted-IsPrioArray, count_same, first_same, read_after,
  read_counted, update_priority_array-IsPrioArray,
}

-- The statistics from which the next merit is computed start again.
abbrev pub IsCleared : NqType → ExposedNq → Type 0
IsCleared ncq e =
    (e.encq.nr_in_flight_rqs ≡ 0) × (e.encq.nr_complete_rqs ≡ 0) × (e.encq.nr_irqs ≡ 0)
IsCleared nsq e = (e.ensq.nr_in_lock_ns ≡ 0) × (e.ensq.nr_submit_rqs ≡ 0)

clear_top-IsCleared : (type : NqType) (e : ExposedNq) (m : ℤ) → IsCleared type (clear_top type e m)
unfolding clear_top
clear_top-IsCleared ncq e m = (refl, refl, refl)
clear_top-IsCleared nsq e m = (refl, refl)

merit-IsInt :
    (t : Tunables) (nr_cpus : ℕ) (type : NqType) (e : ExposedNq)
    → IsInt (calc_sched_merit t nr_cpus type e)
unfolding calc_sched_merit blend
merit-IsInt t n ncq e = add-IsInt _ _
merit-IsInt t n nsq e = add-IsInt _ _

IsCleared-left :
    (r : Regulator) (i : ℕ) (type : NqType) (m : ℤ) → IsCleared type ((cleared r i type m).enqs i)
IsCleared-left r i type m =
    let at : (cleared r i type m).enqs i ≡ clear_top type (r.enqs i) m = ground arith in
    rw at (clear_top-IsCleared type (r.enqs i) m)

module _ (t : Tunables) (nr_cpus : ℕ) (free : ArrayRef → Bool) (ref : ArrayRef) (mru : ℤ)
    (type : NqType) (r : Regulator) where
  abbrev start : Regulator
  start = counted t nr_cpus free ref mru merit_inf type r

  abbrev heap : List ℕ
  heap = (read_arr start ref).bin_heap

  abbrev merit : ℕ → ℤ
  merit = merit_of t nr_cpus ref merit_inf type start

  merit-le_inf : (x : ℕ) → merit x ≤ℤ merit_inf
  merit-le_inf x = let (low, high) = merit-IsInt t nr_cpus type (start.enqs (x - 1)) in omega arith

  module _ (v : IsPrioArray r (read_arr r ref)) (two : 1 < (read_arr r ref).nq_count) where
    first_moves : get_or (new_heap t nr_cpus ref merit_inf type start) 0 0 ≢ get_or heap 0 0
    first_moves e =
        let w = counted-IsPrioArray t nr_cpus free ref mru merit_inf type r v in
        let n = (read_arr start ref).nq_count in
        let two' : 1 < n = omega (arith, count_same t nr_cpus free ref mru merit_inf type r) in
        let (after_top, below, _, _) = smaller_son-cases merit merit_inf n heap 0 (omega arith) in
        let s = son_of merit merit_inf n heap 0 in
        let moved = sift-first merit merit_inf n n heap (omega arith) w.size two' merit-le_inf in
        let same =
          Nodup-get_or 0 heap s 0 w.distinct (omega (arith, w.size)) (omega (arith, w.size))
            (sym moved ∙ e) in
        omega arith

    abbrev final : Regulator
    final = after t nr_cpus free ref mru merit_inf type r

    valid : IsPrioArray final (read_arr final ref)
    valid = (update_priority_array-IsPrioArray t nr_cpus free ref mru merit_inf type r v).0

    counted_arr : read_arr start ref ≡ record (read_arr r ref) { mru = (read_arr r ref).mru -ℤ mru }
    counted_arr = read_counted t nr_cpus free ref mru merit_inf type r

    same_first : get_or heap 0 0 ≡ get_or (read_arr r ref).bin_heap 0 0
    same_first = first_same t nr_cpus free ref mru merit_inf type r

    first_after :
        IsDue t nr_cpus free ref mru merit_inf type r
        → get_or (read_arr final ref).bin_heap 0 0
          ≡ get_or (new_heap t nr_cpus ref merit_inf type start) 0 0
    first_after due =
        ap (λ (a : PrioArray). get_or a.bin_heap 0 0)
          (read_after t nr_cpus free ref mru merit_inf type r due)

    after_left :
        IsDue t nr_cpus free ref mru merit_inf type r
        → final ≡ left t nr_cpus ref merit_inf type start
    after_left due =
        let w = counted-IsPrioArray t nr_cpus free ref mru merit_inf type r v in
        let old = old_first t nr_cpus ref merit_inf type start w in
        let changed : top_changed t nr_cpus ref merit_inf type start ≡ true =
          ground (arith, first_moves, old) in
        after_due t nr_cpus free ref mru merit_inf type r due
        ∙ update_locked_cases t nr_cpus ref merit_inf type start
        ∙ ap
            (λ b.
              if b
              then left t nr_cpus ref merit_inf type start
              else written t nr_cpus ref merit_inf type start)
            changed

    -- If the count has run out and the lock is free, an infinite merit puts another NQ on top of a
    -- valid array of two NQs or more, and the NQ that leaves the top starts its statistics again.
    pub update_priority_array-rotates :
        IsDue t nr_cpus free ref mru merit_inf type r
        → let r' = update_priority_array t nr_cpus free ref mru merit_inf type r in
          ((read_arr r' ref).top_nq ≢ (read_arr r ref).top_nq)
          × IsCleared type (r'.enqs (read_arr r ref).top_nq)
    update_priority_array-rotates due = (
      λ same. first_moves (ground (arith, first_after due, v.top, same_first, valid.top)),
      subst (λ i. IsCleared type (final.enqs i)) (ap (λ (a : PrioArray). a.top_nq) counted_arr)
          (subst (λ (q : Regulator). IsCleared type (q.enqs (read_arr start ref).top_nq))
            (sym (after_left due))
            (IsCleared-left (written t nr_cpus ref merit_inf type start) (read_arr start ref).top_nq
              type (top_merit t nr_cpus ref merit_inf type start))),
    )
