-- ===== src/PrioArray/Turn.antt =====
-- What a call of blk_blex_update_priority_array() does for its caller.
use mathlib.Core.List.{Perm}
use mathlib.Core.List.Perm
use nvme_plus.Base.{
  ℕ, suc, ◌-◌, ◌<◌, ◌≡◌, ◌∙◌, sym, ap, subst, fun_ext, Bool, true, List, if◌then◌else◌, arith,
  get_or, if_elim,
}
use nvme_plus.Base.Int.{ℤ, pos, ◌-ℤ◌, ◌+ℤ◌, leb_ℤ, ◌≤ℤ◌}
use nvme_plus.Regulator.{Regulator, Tunables, PrioArray, NqType}
use nvme_plus.PrioArray.{
  ArrayRef, read_arr, write_arr, calc_sched_merit, merit_inf, is_inf, update_locked,
  update_priority_array,
}
use nvme_plus.PrioArray.Sift.{IsHeap, father}
use nvme_plus.PrioArray.Update.{
  IsPrioArray, merit_of, used_of, new_heap, new_arr, read-update_locked, nqid-update_locked,
  update_locked-IsPrioArray, new_heap-perm, read-write, nqid-write,
}
use nvme_plus.PrioArray.Order.{IsOrderedBelow, key_of, new_heap-IsHeap, root_least, merit-write}

module _ (t : Tunables) (nr_cpus : ℕ) (free : ArrayRef → Bool) (ref : ArrayRef) (mru force : ℤ)
    (type : NqType) (r : Regulator) where
  abbrev pub arr : PrioArray
  arr = read_arr r ref

  -- The regulator once the MRU count is taken down.
  abbrev pub counted : Regulator
  counted = write_arr r ref (record arr { mru = arr.mru -ℤ mru })

  abbrev pub after : Regulator
  after = update_priority_array t nr_cpus free ref mru force type r

  -- The count has run out, and the lock is free.
  abbrev pub IsDue : Type 0
  IsDue = (leb_ℤ (arr.mru -ℤ mru) (pos 0) ≡ true) × (free ref ≡ true)

  pub after_due : IsDue → after ≡ update_locked t nr_cpus ref force type counted
  unfolding update_priority_array
  after_due h = rw (h.0, h.1)

  pub counted-IsPrioArray : IsPrioArray r arr → IsPrioArray counted (read_arr counted ref)
  counted-IsPrioArray v = rw (read-write r ref (record arr { mru = arr.mru -ℤ mru })) record {
    size = v.size;
    some_nq = v.some_nq;
    top = v.top;
    ids = λ x m. ((v.ids x m).0, nqid-write r ref _ (x - 1) ∙ (v.ids x m).1);
    distinct = v.distinct;
  }

  -- What no call changes, for the regulator that it leaves.
  abbrev pub Keeps : Regulator → Type 0
  Keeps q =
      IsPrioArray q (read_arr q ref)
      × Perm (read_arr q ref).bin_heap arr.bin_heap
      × ((read_arr q ref).nq_count ≡ arr.nq_count)
      × ((j : ℕ) → (q.enqs j).nqid ≡ (r.enqs j).nqid)

  pub read_counted : read_arr counted ref ≡ record arr { mru = arr.mru -ℤ mru }
  read_counted = read-write r ref (record arr { mru = arr.mru -ℤ mru })

  counted-Keeps : IsPrioArray r arr → Keeps counted
  counted-Keeps v = (
    counted-IsPrioArray v,
    rw read_counted (Perm.refl arr.bin_heap),
    rw read_counted,
    nqid-write r ref (record arr { mru = arr.mru -ℤ mru }),
  )

  locked-Keeps : IsPrioArray r arr → Keeps (update_locked t nr_cpus ref force type counted)
  locked-Keeps v =
      let w = counted-IsPrioArray v in
      (
        update_locked-IsPrioArray t nr_cpus ref force type counted w,
        rw read-update_locked (
            Perm.trans (new_heap-perm t nr_cpus ref force type counted w)
              (rw read_counted (Perm.refl arr.bin_heap))),
        rw (read-update_locked, read_counted),
        λ j.
            nqid-update_locked t nr_cpus ref force type counted j
            ∙ nqid-write r ref (record arr { mru = arr.mru -ℤ mru }) j,
      )

  -- From a valid array, whatever the count and the lock, the array stays valid, with the same NQs
  -- and the same number of them, and no NQ changes its id.
  pub update_priority_array-IsPrioArray :
      IsPrioArray r arr
      → IsPrioArray after (read_arr after ref)
        × Perm (read_arr after ref).bin_heap arr.bin_heap
        × ((read_arr after ref).nq_count ≡ arr.nq_count)
        × ((j : ℕ) → (after.enqs j).nqid ≡ (r.enqs j).nqid)
  update_priority_array-IsPrioArray v =
      unfold update_priority_array in
      if_elim Keeps (leb_ℤ (arr.mru -ℤ mru) (pos 0))
        (λ out. if_elim Keeps (free ref) (λ held. locked-Keeps v) (λ contended. counted-Keeps v))
        (λ left. counted-Keeps v)

  abbrev key : ℕ → ℤ
  key = key_of t nr_cpus ref force type r

  merit_same :
      (x : ℕ) → merit_of t nr_cpus ref force type counted x ≡ merit_of t nr_cpus ref force type r x
  merit_same x = merit-write t nr_cpus type r ref (record arr { mru = arr.mru -ℤ mru }) (x - 1)

  pub heap_same : (read_arr counted ref).bin_heap ≡ arr.bin_heap
  heap_same = ap (λ (a : PrioArray). a.bin_heap) read_counted

  pub count_same : (read_arr counted ref).nq_count ≡ arr.nq_count
  count_same = ap (λ (a : PrioArray). a.nq_count) read_counted

  top_same :
      calc_sched_merit t nr_cpus type (counted.enqs (read_arr counted ref).top_nq)
      ≡ calc_sched_merit t nr_cpus type (r.enqs arr.top_nq)
  top_same =
      ap (λ (a : PrioArray). calc_sched_merit t nr_cpus type (counted.enqs a.top_nq)) read_counted
      ∙ merit-write t nr_cpus type r ref (record arr { mru = arr.mru -ℤ mru }) arr.top_nq

  used_same : used_of t nr_cpus ref force type counted ≡ used_of t nr_cpus ref force type r
  used_same = ap (λ m. if is_inf force then merit_inf else m +ℤ force) top_same

  pub first_same : get_or (read_arr counted ref).bin_heap 0 0 ≡ get_or arr.bin_heap 0 0
  first_same = ap (λ h. get_or h 0 0) heap_same

  key_same : (x : ℕ) → key_of t nr_cpus ref force type counted x ≡ key x
  key_same x = ground (arith, first_same, used_same, merit_same x)

  below_same :
      IsOrderedBelow t nr_cpus ref force type r → IsOrderedBelow t nr_cpus ref force type counted
  below_same below c nz p q =
      let p' : c < arr.nq_count = omega (arith, count_same) in
      rw
        (
          heap_same,
          merit_same (get_or arr.bin_heap c 0),
          merit_same (get_or arr.bin_heap (father c) 0),
        )
        (below c nz p' q)

  abbrev pub new_order : List ℕ
  new_order = new_heap t nr_cpus ref force type counted

  pub read_after : IsDue → read_arr after ref ≡ new_arr t nr_cpus ref force type counted
  read_after due =
      ap (λ (q : Regulator). read_arr q ref) (after_due due)
      ∙ read-update_locked t nr_cpus ref force type counted

  -- If the count has run out and the lock is free, a valid array that is ordered below its top by
  -- the merits of the moment is ordered again, for the old top by the merit that was used: at the
  -- new top stands an NQ that no other of the array undercuts, and the count is refilled.
  pub update_priority_array-reorders :
      IsPrioArray r arr
      → IsOrderedBelow t nr_cpus ref force type r
      → IsDue
      → let b = read_arr after ref in
        IsHeap (key_of t nr_cpus ref force type r) arr.nq_count b.bin_heap
        × ((c : ℕ)
            → c < arr.nq_count
            → key_of t nr_cpus ref force type r (suc b.top_nq)
              ≤ℤ key_of t nr_cpus ref force type r (get_or b.bin_heap c 0))
        × (b.mru ≡ t.prio_arr_mru)
  update_priority_array-reorders v below due =
      let w = counted-IsPrioArray v in
      let order = new_heap-IsHeap t nr_cpus ref force type counted w (below_same below) in
      let order' =
        subst (λ (n : ℕ). IsHeap key n new_order) count_same
          (subst (λ k. IsHeap k (read_arr counted ref).nq_count new_order) (fun_ext key_same)
            order) in
      let ordered =
        subst (λ h. IsHeap key arr.nq_count h)
          (sym (ap (λ (a : PrioArray). a.bin_heap) (read_after due))) order' in
      (
        ordered,
        λ c p. rw (update_priority_array-IsPrioArray v).0.top (
            root_least key arr.nq_count (read_arr after ref).bin_heap ordered (suc c) c
              (omega arith) p),
        ap (λ (a : PrioArray). a.mru) (read_after due),
      )
