-- ===== src/Sched/Tests.antt =====
-- The scheduler on a small device.
use nvme_plus.Base.{ℕ, ◌≤◌, ◌<◌, ◌≡◌, ◌⊎◌, ◌↔◌, refl, arith, true, false, Option, none, some, ltb}
use nvme_plus.Base.Int.{◌-ℤ◌, ◌+ℤ◌, s32, signed32, rem, rem_int}
use nvme_plus.Base.Run.{ok, fault, Ends}
use nvme_plus.Regulator.{Regulator, ncq}
use nvme_plus.Topology.{get_kth_cqid, cqid_to_index, min_no_extra_sq_cqid}
use nvme_plus.Profile.{TaskIoc, real_time, OpFlags, prio_level, outlier_prio}
use nvme_plus.Maps.Claims.{users}
use nvme_plus.Maps.Refine.{SameClaims, claim}
use nvme_plus.RoundRobin.{sched_rr_next_nsqid}
use nvme_plus.Sched.{
  Env, Outcome, sched_task_init, sched_task_update, sched_req_alloc, sched_get_non_default_nqid,
  sched_no_tag, sched_rr_next_nq, sched_nq_allright, replace,
}
use nvme_plus.Sched.Valid.{IsRegulator}
use nvme_plus.Sched.Divisors.{Divisors}
use nvme_plus.Sched.Tasks.{sched_task_init-IsRegulator, sched_task_update-IsRegulator}
use nvme_plus.Sched.Requests.{sched_task_update-fault}
use nvme_plus.Sched.Placement.{sched_task_init-claims}
use nvme_plus.Samples.{sample, tunables}
use nvme_plus.Samples.Valid.{sample-IsRegulator, sample-Divisors}

-- CPU 1 of eight schedules, and tags are left on every NQ.
abbrev env : Env
env = record {
  tunables = tunables;
  nr_cpu_ids = 8;
  free = λ ref. true;
  cpu = 1;
  task_cpu = 1;
  is_current = true;
  registered = λ i. ltb i 6;
  tags_full = λ i. false;
}

abbrev baseline : Env
baseline = record env { tunables = record tunables { opt_level = 1 } }

abbrev tenant : ℕ → Option ℕ → TaskIoc
tenant prio hctx = record {
  nr_sync_reqs = 0;
  nr_async_reqs = 0;
  last_working_cpu = 3;
  hctx = hctx;
  outlier_hctx = none;
  need_update = false;
  blex_ioprio = prio;
}

abbrev plain : OpFlags
plain = record { sync = false; meta = false; prio = false; idle = false }

-- A real-time request of a throughput tenant on CPU 3 is sent to the hardware context 4.
promoted : sched_req_alloc env (tenant 0 (some 0)) real_time plain sample ≡ some 4
unfolding sched_req_alloc sched_get_non_default_nqid rem_int rem ◌-ℤ◌ ◌+ℤ◌ s32 signed32
promoted = refl

-- A default NQ that is out of tags is marked for an update, and the next one in turn is taken.
out_of_tags :
    sched_no_tag baseline (tenant 0 (some 0)) 0 sample
    ≡ ok (
      (sched_rr_next_nq baseline sample 0 ncq).0,
      record (tenant 0 (some 0)) { need_update = true },
      (sched_rr_next_nq baseline sample 0 ncq).1,
    )
unfolding sched_no_tag sched_rr_next_nq sched_rr_next_nsqid get_kth_cqid cqid_to_index
    min_no_extra_sq_cqid
out_of_tags = refl

-- The outlier priority is an index past the two groups.
outlier_update : sched_task_update baseline outlier_prio (tenant 0 (some 0)) sample ≡ fault
unfolding sched_task_update sched_nq_allright replace
outlier_update = refl

sched_task_init-IsRegulator_example :
    Ends
      (λ (out : Outcome). IsRegulator 6 out.2 × Divisors 6 tunables out.2)
      (sched_task_init env (tenant 1 none) sample)
sched_task_init-IsRegulator_example =
    sched_task_init-IsRegulator 6 (omega arith) env (tenant 1 none) sample sample-IsRegulator
      sample-Divisors (omega arith)

sched_task_update-IsRegulator_example :
    Ends
      (λ (out : Outcome). IsRegulator 6 out.2 × Divisors 6 tunables out.2)
      (sched_task_update env 1 (tenant 0 (some 0)) sample)
sched_task_update-IsRegulator_example =
    sched_task_update-IsRegulator 6 (omega arith) env 1 0 (tenant 0 (some 0)) sample
      sample-IsRegulator sample-Divisors (omega arith) refl (omega arith)

sched_task_init-claims_example :
    (h : ℕ) × (r' : Regulator) × (sched_task_init env (tenant 1 none) sample
      ≡ ok (some h, record (tenant 1 none) { last_working_cpu = 1 }, r'))
    × (h < 6)
    × SameClaims 6 (users r') (claim (users sample) 1 h)
sched_task_init-claims_example =
    sched_task_init-claims 6 env (tenant 1 none) sample (omega arith) sample-IsRegulator
      (omega arith) (omega arith) (λ i h. ground arith)

sample_grouped : (j : ℕ) → (sample.enqs j).prio < prio_level
sample_grouped j = ground arith

sched_task_update-fault_example :
    (sched_task_update env outlier_prio (tenant 0 (some 0)) sample ≡ fault)
    ↔ (((tenant 0 (some 0)).hctx ≡ none) ⊎ (prio_level ≤ outlier_prio))
sched_task_update-fault_example =
    sched_task_update-fault 6 env outlier_prio (tenant 0 (some 0)) sample (omega arith)
      sample-IsRegulator sample-Divisors (λ h e. grind arith) sample_grouped
