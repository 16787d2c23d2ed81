-- ===== src/Sched/Valid.antt =====
-- A well-formed NQ regulator, and that recommending an NQ keeps it so.
use mathlib.Core.List.{Perm, Mem}
use mathlib.Core.List.Perm
use nvme_plus.Base.{
  ltb, ℕ, suc, ◌-◌, ◌≤◌, ◌<◌, ◌≡◌, ◌≢◌, ◌⊎◌, inl, inr, refl, sym, ◌∙◌, ap, Bool, true, arith, ◌==◌,
  if◌then◌else◌, if_elim, mem-get_or, ℕ_discrete,
}
use nvme_plus.Base.Int.{ℤ, pos}
use nvme_plus.Base.Run.{Run, ok}
use nvme_plus.Regulator.{Regulator, Tunables, PrioArray, NqType, nsq, ncq}
use nvme_plus.Profile.{prio_level}
use nvme_plus.Maps.Claims.{IsConsistent}
use nvme_plus.PrioArray.{
  ArrayRef, of_group, of_ncq, read_arr, peek_priority_array, update_priority_array, recommend_nsq,
  peek_recommend, merit_inf,
}
use nvme_plus.PrioArray.Update.{IsPrioArray}
use nvme_plus.PrioArray.Turn.{update_priority_array-IsPrioArray}
use nvme_plus.PrioArray.Frame.{Frame, update-Frame}

-- The priority arrays in use: one for each group, and one in each NCQ that has other than one NSQ.
abbrev pub IsLive : ℕ → Regulator → ArrayRef → Type 0
IsLive n r (of_group p) = p < prio_level
IsLive n r (of_ncq i) =
    (i < n) × ((r.enqs i).has_encq ≡ true) × ((r.enqs i).encq.nr_attached_nsqs ≢ 1)

-- On a device of `n` NQs the two views of the maps agree, each array in use is valid and holds NQs
-- of the device, and the groups' arrays hold NCQs.
pub record IsRegulator (n : ℕ) (r : Regulator) : Type 0 where
  pub maps : IsConsistent n r
  pub arrays : (ref : ArrayRef) → IsLive n r ref → IsPrioArray r (read_arr r ref)
  pub inside : (ref : ArrayRef) → IsLive n r ref → (x : ℕ) → Mem x (read_arr r ref).bin_heap → x ≤ n
  pub ncqs :
      (p : ℕ)
      → p < prio_level
      → (x : ℕ) → Mem x (r.nq_groups p).prio_arr.bin_heap
      → (r.enqs (x - 1)).has_encq ≡ true

-- What decides whether an array is in use and valid, at each NQ.
pub record SameIds (q r : Regulator) (j : ℕ) : Type 0 where
  pub nqid : (q.enqs j).nqid ≡ (r.enqs j).nqid
  pub has_encq : (q.enqs j).has_encq ≡ (r.enqs j).has_encq
  pub attached : (q.enqs j).encq.nr_attached_nsqs ≡ (r.enqs j).encq.nr_attached_nsqs

IsLive-back :
    (n : ℕ) {q r : Regulator}
    → ((j : ℕ) → SameIds q r j)
    → (ref : ArrayRef) → IsLive n q ref
    → IsLive n r ref
IsLive-back n same (of_group p) live = live
IsLive-back n same (of_ncq i) (below, has, many) =
    (below, sym (same i).has_encq ∙ has, λ e. many ((same i).attached ∙ e))

-- A state whose arrays in use hold what they held is well-formed again.
transfer :
    {n : ℕ} {q r : Regulator}
    → IsRegulator n r
    → IsConsistent n q
    → ((j : ℕ) → SameIds q r j)
    → ((ref : ArrayRef)
        → IsLive n r ref
        → IsPrioArray q (read_arr q ref) × Perm (read_arr q ref).bin_heap (read_arr r ref).bin_heap)
    → IsRegulator n q
transfer {n} v maps same kept = record {
  maps = maps;
  arrays = λ ref live. (kept ref (IsLive-back n same ref live)).0;
  inside = λ ref live x m.
      let live' = IsLive-back n same ref live in
      v.inside ref live' x ((Perm.mem_iff (kept ref live').1).0 m);
  ncqs = λ p h x m.
      (same (x - 1)).has_encq ∙ v.ncqs p h x ((Perm.mem_iff (kept (of_group p) h).1).0 m);
}

pub move-IsPrioArray :
    {q r : Regulator} {a : PrioArray}
    → ((j : ℕ) → SameIds q r j)
    → IsPrioArray r a
    → IsPrioArray q a
move-IsPrioArray same v = record {
  size = v.size;
  some_nq = v.some_nq;
  top = v.top;
  ids = λ x m. ((v.ids x m).0, (same (x - 1)).nqid ∙ (v.ids x m).1);
  distinct = v.distinct;
}

-- A state with the same arrays is well-formed if its maps are.
pub same_arrays :
    {n : ℕ} {q r : Regulator}
    → IsRegulator n r
    → IsConsistent n q
    → ((j : ℕ) → SameIds q r j)
    → ((ref : ArrayRef) → read_arr q ref ≡ read_arr r ref)
    → IsRegulator n q
same_arrays {q} {r} v maps same eq = transfer v maps same λ ref live.
    rw (eq ref) (move-IsPrioArray same (v.arrays ref live), Perm.refl (read_arr r ref).bin_heap)

ref_cases : (a b : ArrayRef) → (a ≡ b) ⊎ (a ≢ b)
ref_cases (of_group p) (of_group q) = elim (ℕ_discrete p q) [
  | yes e ↦ inl (ap of_group e)
  | no n ↦ inr (grind arith)
]
ref_cases (of_ncq p) (of_ncq q) = elim (ℕ_discrete p q) [
  | yes e ↦ inl (ap of_ncq e)
  | no n ↦ inr (grind arith)
]
ref_cases (of_group p) (of_ncq q) = inr (grind arith)
ref_cases (of_ncq p) (of_group q) = inr (grind arith)

Frame-ids : {ref : ArrayRef} {q r : Regulator} → Frame ref q r → (j : ℕ) → SameIds q r j
Frame-ids f j = record {
  nqid = (f.nqs j).nqid;
  has_encq = (f.nqs j).has_encq;
  attached = (f.nqs j).attached;
}

Frame-IsConsistent :
    {n : ℕ} {ref : ArrayRef} {q r : Regulator} → Frame ref q r → IsConsistent n r → IsConsistent n q
Frame-IsConsistent {n} {ref} {q} {r} f c = record {
  ids = λ i h. (f.nqs i).nqid ∙ c.ids i h;
  counted = λ cpu i h. rw f.maps (c.counted cpu i h);
  masked = λ cpu i h. rw (f.maps, (f.nqs i).mask) (c.masked cpu i h);
  in_use = λ cpu. rw f.maps (c.in_use cpu);
}

module _ (t : Tunables) (nr_cpus : ℕ) (free : ArrayRef → Bool) where
  pub update-IsRegulator :
      (ref : ArrayRef) (mru force : ℤ) (type : NqType) (n : ℕ) (r : Regulator)
      → IsRegulator n r
      → IsLive n r ref
      → IsRegulator n (update_priority_array t nr_cpus free ref mru force type r)
  update-IsRegulator ref mru force type n r v live =
      let f = update-Frame t nr_cpus free ref mru force type r in
      let (valid, perm, _, _) =
        update_priority_array-IsPrioArray t nr_cpus free ref mru force type r (v.arrays ref live) in
      transfer v (Frame-IsConsistent f v.maps) (Frame-ids f) λ ref' live'.
        elim (ref_cases ref' ref) [
          | inl e ↦ rw e (valid, perm)
          | inr apart ↦ rw (f.arrays ref' apart) (
            move-IsPrioArray (Frame-ids f) (v.arrays ref' live'),
            Perm.refl (read_arr r ref').bin_heap,
          )
        ]

  -- The top of an array in use is an NQ of the device, and one that the array holds.
  pub top_inside :
      (ref : ArrayRef) (n : ℕ) (r : Regulator)
      → IsRegulator n r
      → IsLive n r ref
      → (peek_priority_array r ref < n)
        × Mem (suc (peek_priority_array r ref)) (read_arr r ref).bin_heap
  top_inside ref n r v live =
      let a = v.arrays ref live in
      let m = mem-get_or 0 (read_arr r ref).bin_heap 0 (omega (arith, a.size, a.some_nq)) in
      (omega (arith, a.top, v.inside ref live _ m), rw a.top m)

  -- A recommendation is made: an NQ of the device, with the maps as they are and a well-formed regulator.
  pub recommend_nsq-IsRegulator :
      (n prio : ℕ) (rr : Bool) (ncq_mru nsq_mru : ℤ) (r : Regulator)
      → IsRegulator n r
      → prio < prio_level
      → (e : ℕ) × (r' : Regulator) × (recommend_nsq t nr_cpus free prio rr ncq_mru nsq_mru r
          ≡ ok (e, r'))
        × (e < n)
        × (r'.nsq_maps ≡ r.nsq_maps)
        × IsRegulator n r'
  unfolding recommend_nsq
  recommend_nsq-IsRegulator n prio rr ncq_mru nsq_mru r v h =
      let ncq_mru' = if rr then t.prio_arr_mru else ncq_mru in
      let nsq_mru' = if rr then t.prio_arr_mru else nsq_mru in
      let force = if rr then merit_inf else pos 0 in
      let top = peek_priority_array r (of_group prio) in
      let r' = update_priority_array t nr_cpus free (of_group prio) ncq_mru' force ncq r in
      let f = update-Frame t nr_cpus free (of_group prio) ncq_mru' force ncq r in
      let v' = update-IsRegulator (of_group prio) ncq_mru' force ncq n r v h in
      let (below, held) = top_inside (of_group prio) n r v h in
      let at : suc top - 1 ≡ top = omega arith in
      let has : (r'.enqs top).has_encq ≡ true =
        (f.nqs top).has_encq ∙ rw at at (v.ncqs prio h (suc top) held) in
      let r'' = update_priority_array t nr_cpus free (of_ncq top) nsq_mru' force nsq r' in
      let g = update-Frame t nr_cpus free (of_ncq top) nsq_mru' force nsq r' in
      rw has (
        if_elim {x = ok (top, r')} {y = ok (peek_priority_array r' (of_ncq top), r'')}
          (λ (m : Run (ℕ × Regulator)).
            (e : ℕ) × (s : Regulator) × (m ≡ ok (e, s))
            × (e < n)
            × (s.nsq_maps ≡ r.nsq_maps)
            × IsRegulator n s)
          ((r'.enqs top).encq.nr_attached_nsqs == 1) (λ one. (top, r', refl, below, f.maps, v'))
          (λ more.
            let apart : (r'.enqs top).encq.nr_attached_nsqs ≢ 1 = ground arith in
            let live : IsLive n r' (of_ncq top) = (below, has, apart) in
            (
              peek_priority_array r' (of_ncq top),
              r'',
              refl,
              (top_inside (of_ncq top) n r' v' live).0,
              g.maps ∙ f.maps,
              update-IsRegulator (of_ncq top) nsq_mru' force nsq n r' v' live,
            )))

  -- The top of a group has an eNCQ, so that peeking gives an answer.
  pub peek_recommend-Ends :
      (n prio : ℕ) (r : Regulator)
      → IsRegulator n r
      → prio < prio_level
      → (e : ℕ) × (peek_recommend r prio ≡ ok e)
  unfolding peek_recommend
  peek_recommend-Ends n prio r v h =
      let top = peek_priority_array r (of_group prio) in
      let at : suc top - 1 ≡ top = omega arith in
      let has : (r.enqs top).has_encq ≡ true =
        rw at at (v.ncqs prio h (suc top) (top_inside (of_group prio) n r v h).1) in
      rw has (
        if_elim (λ (m : Run ℕ). (e : ℕ) × (m ≡ ok e)) (ltb 1 (r.enqs top).encq.nr_attached_nsqs)
          (λ many. (_, refl)) (λ single. (_, refl)))
