-- ===== src/Init/Start.antt =====
-- The construction with every allocation granted, as a whole.
use native.Mathlib.Bridge.{le_prop}
use mathlib.Core.List.{Mem}
use nvme_plus.Base.{
  ℕ, zero, suc, ◌+◌, ◌-◌, ◌≤◌, ◌<◌, ◌≡◌, refl, sym, ◌∙◌, ap, subst, true, arith, ◌==◌, ==_iff, none,
}
use nvme_plus.Base.Words.{◌+u◌}
use nvme_plus.Regulator.{Regulator, Tunables, PrioArray}
use nvme_plus.Profile.{prio_level}
use nvme_plus.Topology.{Fits, get_cqid, get_cq_nr_nsqs, cqid_to_index, has_cq}
use nvme_plus.Topology.Blocks.{first, width, first-le, average_pos}
use nvme_plus.Topology.Code.{kth_lem, nr_nsqs_lem}
use nvme_plus.Topology.Tiling.{get_cqid-owns}
use nvme_plus.Maps.Claims.{IsConsistent, entries}
use nvme_plus.PrioArray.{ArrayRef, of_group, of_ncq, read_arr}
use nvme_plus.PrioArray.Update.{IsPrioArray}
use nvme_plus.Sched.Valid.{IsRegulator, IsLive}
use nvme_plus.Setup.{table, filled}
use nvme_plus.Init.Table.{mem-table, filled-IsPrioArray}
use nvme_plus.Init.Valid.{count_of, id_of, IsGrouped, id_inside, id_ncq, id_at, group-IsPrioArray}

entries-unused : (n : ℕ) → entries n (λ i. none) ≡ 0
unfolding entries
entries-unused zero = refl
entries-unused (suc n) = rw (entries-unused n)

module _ {m c : ℕ} (f : Fits m c) (two : 2 ≤ c) (t : Tunables) where
  -- The NSQs of an NCQ end within the device.
  block_inside :
      (q : ℕ)
      → 1 ≤ q
      → q ≤ m
      → q ≡ get_cqid q m c
      → (0 < get_cq_nr_nsqs q m c) × (q + get_cq_nr_nsqs q m c ≤ m + 1)
  block_inside q low high own =
      let (_, _, counted, _, below, back) = get_cqid-owns f q low high in
      let k = cqid_to_index (get_cqid q m c) m c in
      let at : q ≡ first m c k = own ∙ sym back ∙ kth_lem f k below in
      let count : get_cq_nr_nsqs q m c ≡ width m c k =
        ap (λ x. get_cq_nr_nsqs x m c) at ∙ nr_nsqs_lem f k below in
      let wide : 0 < width m c k = ground (arith, average_pos f) in
      (omega (arith, count, wide), omega (arith, count, at, first-le f k below))

  module _ (r : Regulator) (v : IsGrouped f two t r) where
    -- What the array of an NCQ in use is filled with
    pub record NcqArray (i : ℕ) : Type 0 where
      pub count : ℕ
      pub some_nq : 0 < count
      pub within : suc i + count ≤ m + 1
      pub at : (r.enqs i).encq.prio_arr ≡ filled t (table count λ id. suc i +u id) count

    ncq_array : (i : ℕ) → IsLive m r (of_ncq i) → NcqArray i
    ncq_array i (below, has, many) =
        let e = v.nqs i below in
        let (attached, arr) = e.arr has in
        let own = (==_iff (suc i) (get_cqid (suc i) m c)).0 (sym e.ncq ∙ has) in
        let (some_nq, within) = block_inside (suc i) (omega arith) (omega arith) own in
        record {
          count = get_cq_nr_nsqs (suc i) m c;
          some_nq = some_nq;
          within = within;
          at = arr (omega (arith, many, attached));
        }

    member : (i count id : ℕ) → suc i + count ≤ m + 1 → id < count → suc i +u id ≡ suc i + id
    member i count id within h = omega (arith, f.small)

    ncq-IsPrioArray : (i : ℕ) → IsLive m r (of_ncq i) → IsPrioArray r (r.enqs i).encq.prio_arr
    ncq-IsPrioArray i live =
        let a = ncq_array i live in
        rw a.at (
          filled-IsPrioArray r t a.count (λ id. suc i +u id) a.some_nq
            (λ id h.
              rw (member i a.count id a.within h) (
                omega arith,
                id_at f two t r v (suc i + id) (omega arith) (omega (arith, a.within)),
              ))
            (λ x y hx hy e.
              omega (arith, member i a.count x a.within hx, member i a.count y a.within hy, e)))

    arrays : (ref : ArrayRef) → IsLive m r ref → IsPrioArray r (read_arr r ref)
    arrays (of_group p) live = group-IsPrioArray f two t r v p live
    arrays (of_ncq i) live = ncq-IsPrioArray i live

    inside : (ref : ArrayRef) → IsLive m r ref → (x : ℕ) → Mem x (read_arr r ref).bin_heap → x ≤ m
    inside (of_group p) live x h =
        mem-table (λ x. x ≤ m) (λ x. hlevel le_prop) (count_of f two t p) (id_of f two t p)
          (λ i b. (id_inside f two t p i live b).1) x
          (subst (λ (a : PrioArray). Mem x a.bin_heap) (v.groups p live) h)
    inside (of_ncq i) live x h =
        let a = ncq_array i live in
        mem-table (λ x. x ≤ m) (λ x. hlevel le_prop) a.count (λ id. suc i +u id)
          (λ id b. omega (arith, member i a.count id a.within b, a.within)) x
          (subst (λ (a : PrioArray). Mem x a.bin_heap) a.at h)

    ncqs :
        (p : ℕ)
        → p < prio_level
        → (x : ℕ) → Mem x (r.nq_groups p).prio_arr.bin_heap
        → (r.enqs (x - 1)).has_encq ≡ true
    ncqs p h x held =
        mem-table (λ x. (r.enqs (x - 1)).has_encq ≡ true) (λ x. hlevel) (count_of f two t p)
          (id_of f two t p)
          (λ i b.
            let (low, high) = id_inside f two t p i h b in
            let e : suc (id_of f two t p i - 1) ≡ id_of f two t p i = omega arith in
            (v.nqs (id_of f two t p i - 1) (omega arith)).ncq
            ∙ ap (λ q. q == get_cqid q m c) e
            ∙ (unfold has_cq in id_ncq f two t p i h b))
          x (subst (λ (a : PrioArray). Mem x a.bin_heap) (v.groups p h) held)

    maps : IsConsistent m r
    maps = record {
      ids = λ i h. (v.nqs i h).id;
      counted = λ cpu i h. rw v.unused (λ e. grind arith);
      masked = λ cpu i h. rw (v.unused, (v.nqs i h).mask) refl;
      in_use = λ cpu. rw (v.unused, entries-unused m) refl;
    }

    pub grouped-IsRegulator : IsRegulator m r
    grouped-IsRegulator = record { maps = maps; arrays = arrays; inside = inside; ncqs = ncqs }
