-- ===== src/Tenant/Tests.antt =====
-- The life of an I/O context on a small device.
use nvme_plus.Base.{ℕ, ◌<◌, ◌≡◌, refl, arith, true, false, none, some, ltb, inl}
use nvme_plus.Base.Run.{ok, fault, Ends}
use nvme_plus.Regulator.{Regulator}
use nvme_plus.Profile.{TaskIoc, unset, real_time, prio_level}
use nvme_plus.Maps.Claims.{users}
use nvme_plus.Maps.Refine.{SameClaims, claim}
use nvme_plus.Sched.{Env}
use nvme_plus.Sched.Divisors.{Divisors}
use nvme_plus.Sched.Valid.{IsRegulator}
use nvme_plus.Tenant.{
  Call, Entry, alloc_and_init_task_ioc, free_task_ioc, tenant_ioc_profile, update_default,
}
use nvme_plus.Tenant.Lifetime.{alloc-free, tenant_ioc_profile-leaves_claim, update_default-fault}
use nvme_plus.Tenant.Profiling.{IsSettled, tenant_ioc_profile-IsRegulator}
use nvme_plus.Samples.{sample, tunables}
use nvme_plus.Samples.Valid.{sample-IsRegulator, sample-Divisors}

abbrev env : Env
env = record {
  tunables = tunables;
  nr_cpu_ids = 8;
  free = λ ref. true;
  cpu = 1;
  task_cpu = 1;
  is_current = true;
  registered = λ i. ltb i 6;
  tags_full = λ i. false;
}

-- A call in which the xarray takes no entry
abbrev call : Call
call = record {
  env = env;
  ioprio = unset;
  current_ioprio = unset;
  bi_opf = record { sync = true; meta = false; prio = false; idle = false };
  has_memory = true;
  inserts = false;
}

-- A throughput tenant that ran on CPU 3
abbrev tenant : TaskIoc
tenant = record {
  nr_sync_reqs = 0;
  nr_async_reqs = 0;
  last_working_cpu = 3;
  hctx = some 0;
  outlier_hctx = none;
  need_update = false;
  blex_ioprio = 0;
}

no_memory :
    tenant_ioc_profile (record call { has_memory = false }) true none sample ≡ ok (none, sample)
unfolding tenant_ioc_profile alloc_and_init_task_ioc
no_memory = refl

alloc-free_example :
    (ioc : TaskIoc) × (r' r'' : Regulator) × (alloc_and_init_task_ioc env true real_time sample
      ≡ ok (some ioc, r'))
    × (free_task_ioc ioc r' ≡ ok r'')
    × SameClaims 6 (users r'') (users sample)
alloc-free_example =
    alloc-free 6 (omega arith) env (omega arith) (λ i h. ground arith) real_time sample
      sample-IsRegulator

tenant_ioc_profile-leaves_claim_example :
    (h : ℕ) × (r' : Regulator) × (tenant_ioc_profile call true none sample ≡ ok (none, r'))
    × (h < 6)
    × SameClaims 6 (users r') (claim (users sample) 1 h)
tenant_ioc_profile-leaves_claim_example =
    tenant_ioc_profile-leaves_claim 6 call sample (omega arith) sample-IsRegulator (omega arith)
      (λ i h. ground arith) refl refl

sample_grouped : (j : ℕ) → (sample.enqs j).prio < prio_level
sample_grouped j = ground arith

update_default-fault_example :
    update_default call (record tenant { need_update = true }) sample ≡ fault
update_default-fault_example =
    update_default-fault call (record tenant { need_update = true }) sample sample_grouped
      (omega arith) (omega arith) refl (λ e. grind arith) (inl refl)

tenant_ioc_profile-IsRegulator_example :
    Ends
      (λ (out : Entry).
        IsRegulator 6 out.1
        × Divisors 6 tunables out.1
        × ((ioc' : TaskIoc) × (out.0 ≡ some ioc') × IsSettled 6 (omega arith) 0 (omega arith) ioc'))
      (tenant_ioc_profile call true (some tenant) sample)
tenant_ioc_profile-IsRegulator_example =
    tenant_ioc_profile-IsRegulator 6 (omega arith) 0 (omega arith) call tenant sample (refl, refl)
      sample-IsRegulator sample-Divisors
