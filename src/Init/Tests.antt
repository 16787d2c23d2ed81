-- ===== src/Init/Tests.antt =====
-- Building and releasing the regulator of a small device.
use nvme_plus.Regulator.{Regulator}
use nvme_plus.Base.{arith, ℕ, ◌≡◌, refl, Bool, true, List, [], ◌∷◌, not, ◌==◌}
use nvme_plus.Base.Run.{Run, ok, fault, ◌>>=◌, Ends}
use nvme_plus.Topology.{
  Fits, DevInfo, get_cqid, get_cq_nr_nsqs, get_kth_cqid, cqid_to_index, min_no_extra_sq_cqid,
}
use nvme_plus.Cells.{null, Memory, Supply, Ret, done, no_memory}
use nvme_plus.Setup.{
  nq_group_init, attach_ncqs, group_arr_init, ncq_arr_init, enq_init, enq_alloc, new_enq,
  enq_fields, encq_init,
}
use nvme_plus.Init.{
  nq_regulator_alloc_and_init, init_groups, init_enqs, free_enq, free_enqs, free_groups,
  group_init_err,
}
use nvme_plus.Init.Release.{IsNew}
use nvme_plus.Init.Life.{Result, IsBalanced, nq_regulator_alloc_and_init-IsBalanced}
use nvme_plus.Init.Build.{plenty}
use nvme_plus.Init.Built.{nq_regulator_alloc_and_init-IsRegulator}
use nvme_plus.Sched.Valid.{IsRegulator}
use nvme_plus.Samples.{sample, tunables}

abbrev info : DevInfo
info = record { nr_cqs = 3; max_nqid = 6 }

abbrev empty : Memory
empty = record {
  nsq_maps = null;
  enqs = null;
  group_heaps = λ p. null;
  masks = λ i. null;
  encqs = λ i. null;
  nq_heaps = λ i. null;
}

empty-IsNew : IsNew empty
empty-IsNew = (refl, refl, λ p. refl, λ i. (refl, refl, refl))

-- Every allocation succeeds, but perhaps that of one eNCQ.
abbrev supply : (ℕ → Bool) → Supply
supply encq = record {
  nsq_maps = true;
  enqs = true;
  group_heap = λ p. true;
  mask = λ i. true;
  encq = encq;
  nq_heap = λ i. true;
}

abbrev build : (ℕ → Bool) → Run Result
build encq = nq_regulator_alloc_and_init 2 tunables (supply encq) true info sample empty

abbrev ret_of : Result → Run Ret
ret_of (ret, r, m) = ok ret

abbrev heap_of : ℕ → Result → Run (List ℕ)
heap_of p (ret, r, m) = ok (r.nq_groups p).prio_arr.bin_heap

built : (build (λ i. true) >>= heap_of 1) ≡ ok (3 ∷ 5 ∷ [])
unfolding nq_regulator_alloc_and_init init_groups init_enqs nq_group_init attach_ncqs group_arr_init
    ncq_arr_init enq_init enq_alloc new_enq enq_fields encq_init get_cqid get_cq_nr_nsqs
    get_kth_cqid cqid_to_index min_no_extra_sq_cqid
built = refl

-- The third NCQ gets no eNCQ.
refused : (build (λ i. not (i == 4)) >>= ret_of) ≡ ok no_memory
unfolding nq_regulator_alloc_and_init init_groups init_enqs nq_group_init attach_ncqs group_arr_init
    ncq_arr_init enq_init enq_alloc new_enq enq_fields encq_init get_cqid get_cq_nr_nsqs
    get_kth_cqid cqid_to_index min_no_extra_sq_cqid free_enq free_enqs free_groups group_init_err
refused = refl

-- With one CPU, the second NCQ of the second group is written past the end of the group's heap.
overrun : nq_regulator_alloc_and_init 1 tunables (supply λ i. true) true info sample empty ≡ fault
unfolding nq_regulator_alloc_and_init
overrun = refl

info-Fits : Fits 6 3
info-Fits = record { some_cq = omega arith; enough = omega arith; small = omega arith }

nq_regulator_alloc_and_init-IsBalanced_example : Ends (IsBalanced 6) (build (λ i. not (i == 4)))
nq_regulator_alloc_and_init-IsBalanced_example =
    nq_regulator_alloc_and_init-IsBalanced 2 tunables (supply (λ i. not (i == 4))) true info sample
      empty info-Fits (omega arith) empty-IsNew

nq_regulator_alloc_and_init-IsRegulator_example :
    (r' : Regulator) × (mem' : Memory) × (nq_regulator_alloc_and_init 2 tunables plenty true info
        sample empty
      ≡ ok (done, r', mem'))
    × IsRegulator 6 r'
nq_regulator_alloc_and_init-IsRegulator_example =
    nq_regulator_alloc_and_init-IsRegulator info-Fits (omega arith) tunables 2 sample empty
      (omega arith)
