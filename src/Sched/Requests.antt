-- ===== src/Sched/Requests.antt =====
-- Scheduling an NQ for a request, and where scheduling goes out of bounds.
use native.Mathlib.Nat.{mod-lt}
use nvme_plus.Base.{
  ℕ, ◌+◌, ◌-◌, ◌/◌, ◌%◌, ◌^◌, ◌≤◌, ◌<◌, ◌≡◌, ◌⊎◌, ◌↔◌, inl, inr, some, true, ltb, subst, ◌∙◌, ap,
  arith, if_elim, Option, none, Option-cases,
}
use nvme_plus.Base.Int.{pos, ◌+ℤ◌, ◌-ℤ◌, add_pos, sub_pos, rem_pos, leb_ℤ}
use nvme_plus.Base.Run.{fault, Ends}
use nvme_plus.Regulator.{Regulator, get_enq}
use nvme_plus.Profile.{prio_level, l_prio, outlier_prio, TaskIoc, PrioClass, OpFlags}
use nvme_plus.Sched.Valid.{IsRegulator}
use nvme_plus.Sched.Divisors.{Divisors}
use nvme_plus.Sched.Tasks.{sched_task_update-IsRegulator}
use nvme_plus.Sched.{
  Env, Outcome, hctx_to_nqid, replace, sched_nq_allright, sched_task_update,
  sched_get_non_default_nqid, sched_req_alloc,
}

-- The choice for a request is the same whatever the outlier hardware context, and a tenant at the
-- outlier priority always gets its default one.
pub sched_req_alloc-outlier :
    (env : Env) (ioc : TaskIoc) (c : PrioClass) (f : OpFlags) (r : Regulator) (h : Option ℕ)
    → (sched_req_alloc env (record ioc { outlier_hctx = h }) c f r ≡ sched_req_alloc env ioc c f r)
      × (ioc.blex_ioprio ≡ outlier_prio → sched_req_alloc env ioc c f r ≡ ioc.hctx)
unfolding sched_req_alloc sched_get_non_default_nqid
sched_req_alloc-outlier env ioc c f r h = (ground arith, λ e. ground arith)

-- If the latency group starts within the device, whose ids fit an int, and the task ran on one of
-- the CPUs, the NQ id for a promoted request lies between 1 and the number of NQs from the latency
-- group's first one on.
pub sched_get_non_default_nqid-range :
    (env : Env) (ioc : TaskIoc) (r : Regulator)
    → let first = (r.nq_groups l_prio).ncq_start in
      let last = r.blex_info.max_nqid in
      first ≤ last
      → last + 1 < 2 ^ 31
      → ioc.last_working_cpu < env.nr_cpu_ids
      → env.nr_cpu_ids < 2 ^ 31
      → (q : ℕ) × (sched_get_non_default_nqid env ioc r ≡ pos q) × (1 ≤ q) × (q ≤ last - first + 1)
unfolding sched_get_non_default_nqid
sched_get_non_default_nqid-range env ioc r within small cpu cpus =
    let n = r.blex_info.max_nqid - (r.nq_groups l_prio).ncq_start + 1 in
    let c = ioc.last_working_cpu in
    let count : pos r.blex_info.max_nqid -ℤ pos (r.nq_groups l_prio).ncq_start +ℤ pos 1 ≡ pos n =
      ap (λ x. x +ℤ pos 1) (sub_pos _ _ within (omega arith)) ∙ add_pos _ 1 (omega arith) in
    let mirrored : pos env.nr_cpu_ids -ℤ pos c -ℤ pos 1 ≡ pos (env.nr_cpu_ids - c - 1) =
      ap (λ x. x -ℤ pos 1) (sub_pos _ _ (omega arith) cpus)
      ∙ sub_pos _ 1 (omega arith) (omega arith) in
    let low : c % n < n = mod-lt c (omega arith) in
    let high : (env.nr_cpu_ids - c - 1) % n < n = mod-lt (env.nr_cpu_ids - c - 1) (omega arith) in
    rw (count, mirrored, rem_pos c n, rem_pos (env.nr_cpu_ids - c - 1) n)
      (if_elim (λ x. (q : ℕ) × (x ≡ pos q) × (1 ≤ q) × (q ≤ n))
        (leb_ℤ (pos c) (pos (env.nr_cpu_ids / 2)))
        (λ lower. (c % n + 1, add_pos (c % n) 1 (omega arith), omega arith, omega arith))
        (λ upper. (
          (env.nr_cpu_ids - c - 1) % n + 1,
          add_pos ((env.nr_cpu_ids - c - 1) % n) 1 (omega arith),
          omega arith,
          omega arith,
        )))

-- With no hardware context, or a priority that is not that of a group
pub update_out_of_bounds :
    (env : Env) (ioprio : ℕ) (ioc : TaskIoc) (r : Regulator)
    → ((j : ℕ) → (r.enqs j).prio < prio_level)
    → (ioc.hctx ≡ none) ⊎ (prio_level ≤ ioprio)
    → sched_task_update env ioprio ioc r ≡ fault
unfolding sched_task_update sched_nq_allright replace
update_out_of_bounds env ioprio ioc r grouped out = elim (Option-cases ioc.hctx) [
  | inl e ↦ ground arith
  | inr (h, e) ↦ ground (arith, grouped (get_enq (hctx_to_nqid h)))
]

-- On a well-formed regulator of fewer than 2^31 NQs whose divisors are not zero, where every NQ belongs to
-- one of the two groups and the hardware context of the task, if it has one, is of the device: rescheduling
-- the task goes out of bounds exactly when the task has no hardware context yet or the priority is not that
-- of a group, as the outlier priority is not.
pub sched_task_update-fault :
    (n : ℕ) (env : Env) (ioprio : ℕ) (ioc : TaskIoc) (r : Regulator)
    → n < 2 ^ 31
    → IsRegulator n r
    → Divisors n env.tunables r
    → ((h : ℕ) → ioc.hctx ≡ some h → h < n)
    → ((j : ℕ) → (r.enqs j).prio < prio_level)
    → (sched_task_update env ioprio ioc r ≡ fault) ↔ ((ioc.hctx ≡ none) ⊎ (prio_level ≤ ioprio))
sched_task_update-fault n env ioprio ioc r small v d inside grouped =
    (λ e. faults e (Option-cases ioc.hctx), update_out_of_bounds env ioprio ioc r grouped)
  where
    faults :
        sched_task_update env ioprio ioc r ≡ fault
        → ((ioc.hctx ≡ none) ⊎ ((h : ℕ) × (ioc.hctx ≡ some h)))
        → (ioc.hctx ≡ none) ⊎ (prio_level ≤ ioprio)
    faults e (inl unset) = inl unset
    faults e (inr (h, set)) =
        if_elim {x = true} {y = true} (λ b. (ioc.hctx ≡ none) ⊎ (prio_level ≤ ioprio))
          (ltb ioprio prio_level)
          (λ below. absurd (
            subst (Ends (λ (out : Outcome). IsRegulator n out.2 × Divisors n env.tunables out.2)) e
              (sched_task_update-IsRegulator n small env ioprio h ioc r v d (ground (arith, below))
                set (inside h set))))
          (λ over. inr (ground (arith, over)))
