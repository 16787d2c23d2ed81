-- ===== src/Init/Built.antt =====
-- What the construction gives the scheduler.
use nvme_plus.Base.{
  ℕ, zero, suc, ◌-◌, ◌/◌, false, ◌||◌, ◌≤◌, ◌<◌, ◌≡◌, refl, subst, ◌∙◌, ap, true, arith, ◌==◌,
  if◌then◌else◌,
}
use nvme_plus.Base.Run.{ok}
use nvme_plus.Regulator.{Regulator, Tunables, NqGroup}
use nvme_plus.Topology.{DevInfo, Fits}
use nvme_plus.Sched.Valid.{IsRegulator}
use nvme_plus.Cells.{Memory, live, done}
use nvme_plus.Setup.{nq_group_init}
use nvme_plus.Init.{init_groups, divides_by_zero, overruns, emptied, nq_regulator_alloc_and_init}
use nvme_plus.Init.Build.{
  plenty, with_enqs, with_enqs_rest, with_enqs-IsInit, IsInit, init_enqs-plenty,
}
use nvme_plus.Init.Valid.{dev, arr_of, group_plenty, IsGrouped}
use nvme_plus.Init.Start.{grouped-IsRegulator}

module _ {m c : ℕ} (f : Fits m c) (two : 2 ≤ c) (t : Tunables) where
  -- A device of at least two NCQs, at most as many NCQs as NQs, and ids in range, whose allocations
  -- all succeed, on a machine with a CPU for each NCQ of a group, gets a regulator, and a well-formed one,
  -- whatever the memory of the regulator held.
  pub nq_regulator_alloc_and_init-IsRegulator :
      (nr_cpu_ids : ℕ) (r : Regulator) (mem : Memory)
      → c - c / 2 ≤ nr_cpu_ids
      → (r' : Regulator) × (mem' : Memory) × (nq_regulator_alloc_and_init nr_cpu_ids t plenty true
            (record { nr_cqs = c; max_nqid = m })
            r
            mem
          ≡ ok (done, r', mem'))
        × IsRegulator m r'
  nq_regulator_alloc_and_init-IsRegulator nr_cpu_ids r mem room =
      let info0 = dev f two t in
      let r0 = emptied (record r { blex_info = dev f two t }) in
      let start : Memory = record mem { nsq_maps = live; enqs = live } in
      let one = nq_group_init t plenty 0 r0 start in
      let both = nq_group_init t plenty 1 one.1 one.2 in
      let (made, info, unused, arrs) = group_plenty f two t 0 r0 start (omega arith) refl in
      let (made', info', unused', arrs') = group_plenty f two t 1 one.1 one.2 (omega arith) info in
      let (mem', run) = init_enqs-plenty t m both.1 both.2 in
      let final = with_enqs t m both.1 in
      let (same_info, same_maps, same_groups) = with_enqs_rest t m both.1 in
      let valid : IsGrouped f two t final = record {
        info = same_info ∙ info' ∙ info;
        unused = same_maps ∙ unused' ∙ unused;
        groups = λ p h.
            ap (λ (g : ℕ → NqGroup). (g p).prio_arr) same_groups
            ∙ both_arrays p h one.1 both.1 arrs arrs';
        nqs = λ i h.
            subst (λ (d : DevInfo). IsInit t d (final.enqs i) (suc i)) (info' ∙ info)
              (with_enqs-IsInit t m i both.1 h);
      } in
      (
        final,
        mem',
        (let defined : (divides_by_zero info0 || overruns nr_cpu_ids plenty info0) ≡ false =
              ground (arith, f.some_cq, f.enough, room) in
            unfold nq_regulator_alloc_and_init in
            unfold init_groups in rw (defined, made, made', run) refl),
        grouped-IsRegulator f two t final valid,
      )
    where
      both_arrays :
          (p : ℕ)
          → p < 2
          → (a b : Regulator)
          → ((q : ℕ)
              → (a.nq_groups q).prio_arr
                ≡ (if 0 == q then arr_of f two t 0 else (r.nq_groups q).prio_arr))
          → ((q : ℕ)
              → (b.nq_groups q).prio_arr
                ≡ (if 1 == q then arr_of f two t 1 else (a.nq_groups q).prio_arr))
          → (b.nq_groups p).prio_arr ≡ arr_of f two t p
      both_arrays zero h a b x y = y 0 ∙ x 0
      both_arrays (suc zero) h a b x y = y 1
      both_arrays (suc (suc p)) h a b x y = absurd (omega arith)
