-- ===== src/Samples.antt =====
-- A small device for the tests: six NQs over three NCQs, the first NCQ serving throughput tenants and
-- the other two latency tenants.
pub mod Valid
use nvme_plus.Base.{
  ℕ, suc, ◌+◌, ◌-◌, ◌*◌, ◌%◌, true, false, List, [], ◌∷◌, none, ltb, ◌==◌, if◌then◌else◌,
}
use nvme_plus.Base.Int.{pos}
use nvme_plus.Regulator.{Tunables, PrioArray, NqGroup, EnqNcq, ExposedNq, Regulator}

abbrev pub tunables : Tunables
tunables = record {
  opt_level = 2;
  io_profile_on = true;
  merit_alpha_numer = pos 8;
  merit_alpha_denom = pos 10;
  prio_arr_mru = pos 4;
}

abbrev pub array : ℕ → List ℕ → ℕ → PrioArray
array top heap count = record { mru = pos 4; bin_heap = heap; top_nq = top; nq_count = count }

-- The NCQ at index `i` of `enqs`.
abbrev pub sample_ncq : ℕ → EnqNcq
sample_ncq i = record {
  cqid = suc i;
  nr_attached_nsqs = 2;
  rr_nsq_offset = 0;
  ncq_sched_merit = pos (i * 10);
  nr_in_flight_rqs = 0;
  nr_complete_rqs = 0;
  nr_irqs = 0;
  prio_arr = array i (suc i ∷ (i + 2) ∷ []) 2;
}

abbrev pub sample_enq : ℕ → ExposedNq
sample_enq i = record {
  group = if ltb i 2 then 0 else 1;
  prio = if ltb i 2 then 0 else 1;
  qdepth = 64;
  nqid = suc i;
  cqid = suc i - i % 2;
  ensq = record {
    sqid = suc i;
    nsq_sched_merit = pos 0;
    nr_in_lock_ns = 0;
    nr_submit_rqs = 0;
    claimed_core_cpumask = λ cpu. false;
  };
  has_encq = i % 2 == 0;
  encq = sample_ncq i;
}

abbrev pub sample_group : ℕ → NqGroup
sample_group p = record {
  prio = p;
  nr_attach_nsqs = if p == 0 then 2 else 4;
  prio_arr = if p == 0 then array 0 (1 ∷ []) 1 else array 2 (3 ∷ 5 ∷ []) 2;
  rr_nsq_offset = 0;
  rr_ncq_offset = 0;
  nr_ncqs = if p == 0 then 1 else 2;
  ncq_start = if p == 0 then 1 else 3;
}

abbrev pub sample : Regulator
sample = record {
  blex_info = record { nr_cqs = 3; max_nqid = 6 };
  nsq_maps = λ cpu. record { nr_in_use = pos 0; xa_nsq_map = λ nqid. none };
  enqs = sample_enq;
  nq_groups = sample_group;
}
