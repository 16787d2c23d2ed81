-- ===== src/PrioArray/Order.antt =====
-- What one update makes of the order of a priority array, and of its top.
use nvme_plus.Base.{
  ℕ, zero, suc, ◌<◌, ◌≡◌, ◌≢◌, refl, List, ◌==◌, if◌then◌else◌, arith, get_or, Nodup-get_or,
}
use nvme_plus.Base.Int.{ℤ, ◌≤ℤ◌}
use nvme_plus.Regulator.{Regulator, Tunables, PrioArray, NqType, nsq, ncq}
use nvme_plus.PrioArray.{ArrayRef, of_group, of_ncq, read_arr, write_arr, calc_sched_merit}
use nvme_plus.PrioArray.Sift.{sift-IsHeap, IsHeap, father, Sinking}
use nvme_plus.PrioArray.Update.{IsPrioArray, merit_of, used_of, new_heap}

module _ (t : Tunables) (nr_cpus : ℕ) (ref : ArrayRef) (force : ℤ) (type : NqType)
    (r : Regulator) where
  abbrev heap : List ℕ
  heap = (read_arr r ref).bin_heap

  abbrev merit : ℕ → ℤ
  merit = merit_of t nr_cpus ref force type r

  abbrev used : ℤ
  used = used_of t nr_cpus ref force type r

  -- Below the top the array is ordered by the merits of the moment.
  abbrev pub IsOrderedBelow : Type 0
  IsOrderedBelow =
      (c : ℕ)
      → 0 < c
      → c < (read_arr r ref).nq_count
      → father c ≢ 0
      → merit (get_or heap (father c) 0) ≤ℤ merit (get_or heap c 0)

  -- The key by which the array is ordered after the update: the merit that was used for the old top,
  -- and the merits of the moment for the others.
  abbrev pub key_of : ℕ → ℤ
  key_of x = if get_or heap 0 0 == x then used else merit x

  module _ (v : IsPrioArray r (read_arr r ref)) where
    start_apart :
        (c : ℕ) → c < (read_arr r ref).nq_count → c ≢ 0 → get_or heap c 0 ≢ get_or heap 0 0
    start_apart c p q e = q (
        Nodup-get_or 0 heap c 0 v.distinct (omega (arith, v.size))
          (omega (arith, v.size, v.some_nq)) e)

    key_at_top : key_of (get_or heap 0 0) ≡ used
    key_at_top = ground arith

    key_elsewhere : (x : ℕ) → x ≢ get_or heap 0 0 → key_of x ≡ merit x
    key_elsewhere x h = ground arith

    start-Sinking :
        IsOrderedBelow
        → Sinking merit key_of used
            (read_arr r ref).nq_count
            (get_or heap 0 0)
            key_at_top
            key_elsewhere
            heap
            0
    start-Sinking below = record {
      size = v.size;
      inside = v.some_nq;
      here = refl;
      elsewhere = start_apart;
      edges = λ c pos p q. ground (
        arith,
        below c pos p q,
        start_apart c p,
        start_apart (father c),
        key_elsewhere (get_or heap c 0),
        key_elsewhere (get_or heap (father c) 0),
      );
      bridged = λ c no. absurd (omega arith);
    }

    pub new_heap-IsHeap :
        IsOrderedBelow
        → IsHeap key_of (read_arr r ref).nq_count (new_heap t nr_cpus ref force type r)
    new_heap-IsHeap below =
        sift-IsHeap merit key_of used _ (get_or heap 0 0) key_at_top key_elsewhere _ heap 0
          (omega arith) (start-Sinking below)

-- In a heap nothing is below the first element.
pub root_least :
    (key : ℕ → ℤ) (n : ℕ) (h : List ℕ)
    → IsHeap key n h
    → (k c : ℕ) → c < k
    → c < n
    → key (get_or h 0 0) ≤ℤ key (get_or h c 0)
root_least key n h v zero c p q = absurd (omega arith)
root_least key n h v (suc k) zero p q = omega arith
root_least key n h v (suc k) (suc c) p q = omega (
  arith,
  v (suc c) (omega arith) q,
  root_least key n h v k (father (suc c)) (omega arith) (omega arith),
)

pub merit-write :
    (t : Tunables) (nr_cpus : ℕ) (type : NqType) (r : Regulator) (ref : ArrayRef) (a : PrioArray)
    (j : ℕ)
    → calc_sched_merit t nr_cpus type ((write_arr r ref a).enqs j)
      ≡ calc_sched_merit t nr_cpus type (r.enqs j)
unfolding calc_sched_merit
merit-write t n ncq r (of_group p) a j = refl
merit-write t n nsq r (of_group p) a j = refl
merit-write t n ncq r (of_ncq i) a j = ground arith
merit-write t n nsq r (of_ncq i) a j = ground arith
