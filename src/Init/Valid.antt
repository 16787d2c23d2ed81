-- ===== src/Init/Valid.antt =====
-- The regulator that the construction builds is well-formed.
use nvme_plus.Base.{
  ℕ, zero, suc, ◌+◌, ◌-◌, ◌*◌, ◌/◌, ◌^◌, ◌≤◌, ◌<◌, ◌≡◌, refl, sym, ◌∙◌, ap, Bool, true, arith, ◌==◌,
  if◌then◌else◌, none,
}
use nvme_plus.Base.Words.{◌+u◌, ◌-u◌, ◌*u◌}
use nvme_plus.Base.Int.{pos}
use nvme_plus.Regulator.{Regulator, Tunables, PrioArray, NqGroup}
use nvme_plus.Profile.{prio_level}
use nvme_plus.Topology.{DevInfo, Fits, get_kth_cqid, cqid_to_index, has_cq}
use nvme_plus.Topology.Blocks.{first-lt}
use nvme_plus.Topology.Code.{kth_lem}
use nvme_plus.Topology.Tiling.{index-kth_cqid, has_cq_iff}
use nvme_plus.PrioArray.Update.{IsPrioArray}
use nvme_plus.Cells.{Memory}
use nvme_plus.Setup.{attach_ncqs, group_arr_init, nq_group_init, table, filled}
use nvme_plus.Init.Table.{filled-IsPrioArray}
use nvme_plus.Init.Build.{plenty, IsInit}

attach_rest :
    (i prio start : ℕ) (r : Regulator)
    → let r' = (attach_ncqs i prio start r).1 in
      (r'.blex_info ≡ r.blex_info) × (r'.nsq_maps ≡ r.nsq_maps) × (r'.nq_groups ≡ r.nq_groups)
unfolding attach_ncqs
attach_rest zero prio start r = (refl, refl, refl)
attach_rest (suc i) prio start r = attach_rest i prio start r

module _ {m c : ℕ} (f : Fits m c) (two : 2 ≤ c) (t : Tunables) where
  abbrev pub dev : DevInfo
  dev = record { nr_cqs = c; max_nqid = m }

  -- The index of a group's first NCQ, and the number of its NCQs
  abbrev pub start_of : ℕ → ℕ
  start_of p = p * (c / 2)

  abbrev pub count_of : ℕ → ℕ
  count_of p = if p == 1 then c - c / 2 else c / 2

  -- The ids that a group's array is filled with, and the array
  abbrev pub id_of : ℕ → ℕ → ℕ
  id_of p i = get_kth_cqid (start_of p +u i) m c

  abbrev pub arr_of : ℕ → PrioArray
  arr_of p = filled t (table (count_of p) (id_of p)) (count_of p)

  group_bounds : (p : ℕ) → p < 2 → (0 < count_of p) × (start_of p + count_of p ≤ c)
  group_bounds zero h = (omega arith, omega arith)
  group_bounds (suc zero) h = (omega arith, omega arith)
  group_bounds (suc (suc p)) h = absurd (omega arith)

  abbrev pub Built : ℕ → Regulator → Bool × Regulator × Memory → Type 0
  Built p r (made, r', mem') =
      (made ≡ true)
      × (r'.blex_info ≡ r.blex_info)
      × (r'.nsq_maps ≡ r.nsq_maps)
      × ((q : ℕ)
          → (r'.nq_groups q).prio_arr ≡ (if p == q then arr_of p else (r.nq_groups q).prio_arr))

  pub group_plenty :
      (p : ℕ) (r : Regulator) (mem : Memory)
      → p < 2
      → r.blex_info ≡ dev
      → Built p r (nq_group_init t plenty p r mem)
  group_plenty p r mem h info =
      unfold nq_group_init in
      unfold group_arr_init in
      let idx : p *u (c / prio_level) ≡ start_of p =
        (elim p as (λ p. p < 2 → p *u (c / 2) ≡ start_of p) [
          | zero ↦ λ h. omega arith
          | suc q ↦ λ h. (let e : q ≡ 0 = omega arith in rw e (omega (arith, f.small, f.enough)))
        ])
          h in
      let small : c < 2 ^ 32 = omega (arith, f.small, f.enough) in
      let (pos_count, fits) = group_bounds p h in
      let count : (if p +u 1 == prio_level then c -u start_of p else c / prio_level) ≡ count_of p =
        ground (arith, small, fits) in
      let at : cqid_to_index (get_kth_cqid (start_of p) m c) m c ≡ start_of p =
        index-kth_cqid f (start_of p) (omega arith) in
      let (a, b, g) = attach_rest (count_of p) p (start_of p) (record r { blex_info = dev }) in
      rw (info, idx, count, at)
        (refl, a, b, λ q. ground (arith, ap (λ (h : ℕ → NqGroup). (h q).prio_arr) g))

  -- A regulator built over the two groups
  pub record IsGrouped (r : Regulator) : Type 0 where
    pub info : r.blex_info ≡ dev
    pub unused : r.nsq_maps ≡ (λ cpu. record { nr_in_use = pos 0; xa_nsq_map = λ nqid. none })
    pub groups : (p : ℕ) → p < 2 → (r.nq_groups p).prio_arr ≡ arr_of p
    pub nqs : (i : ℕ) → i < m → IsInit t dev (r.enqs i) (suc i)

  kth_inside : (k : ℕ) → k < c → (0 < get_kth_cqid k m c) × (get_kth_cqid k m c ≤ m)
  kth_inside k h = rw (kth_lem f k h) (omega arith, first-lt f k h)

  group_index :
      (p i : ℕ) → p < 2 → i < count_of p → (start_of p +u i ≡ start_of p + i) × (start_of p + i < c)
  group_index p i h b =
      let (_, fits) = group_bounds p h in
      (omega (arith, f.small, f.enough, fits), omega (arith, fits))

  pub id_inside : (p i : ℕ) → p < 2 → i < count_of p → (0 < id_of p i) × (id_of p i ≤ m)
  id_inside p i h b =
      let (e, below) = group_index p i h b in rw e (kth_inside (start_of p + i) below)

  id_inj : (p i j : ℕ) → p < 2 → i < count_of p → j < count_of p → id_of p i ≡ id_of p j → i ≡ j
  id_inj p i j h bi bj e =
      let (ei, hi) = group_index p i h bi in
      let (ej, hj) = group_index p j h bj in
      let same : start_of p + i ≡ start_of p + j =
        sym (rw ei (index-kth_cqid f (start_of p + i) hi) ∙ refl)
        ∙ ap (λ x. cqid_to_index x m c) e
        ∙ rw ej (index-kth_cqid f (start_of p + j) hj) in
      omega arith

  pub id_ncq : (p i : ℕ) → p < 2 → i < count_of p → has_cq (id_of p i) dev ≡ true
  id_ncq p i h b =
      let (e, below) = group_index p i h b in
      let (low, high) = id_inside p i h b in
      (has_cq_iff f (id_of p i) low high).1
        (start_of p + i, below, ap (λ k. get_kth_cqid k m c) (sym e))

  module _ (r : Regulator) (v : IsGrouped r) where
    pub id_at : (x : ℕ) → 0 < x → x ≤ m → (r.enqs (x - 1)).nqid ≡ x
    id_at x low high = let e : suc (x - 1) ≡ x = omega arith in (v.nqs (x - 1) (omega arith)).id ∙ e

    pub group-IsPrioArray : (p : ℕ) → p < 2 → IsPrioArray r (r.nq_groups p).prio_arr
    group-IsPrioArray p h = rw (v.groups p h) (
        filled-IsPrioArray r t (count_of p) (id_of p) (group_bounds p h).0
          (λ i b. let (low, high) = id_inside p i h b in (low, id_at (id_of p i) low high))
          (λ i j bi bj e. id_inj p i j h bi bj e))
