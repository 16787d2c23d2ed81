-- ===== src/Sched/Tasks.antt =====
-- Scheduling an NQ for a task: it ends, and keeps the regulator well-formed.
use nvme_plus.Base.{
  ℕ, ◌^◌, Option, none, sym, subst, if◌then◌else◌, ◌<◌, ◌≡◌, refl, Bool, true, false, arith, ◌==◌,
  ltb, ◌&&◌, if_elim, some,
}
use nvme_plus.Base.Int.{pos}
use nvme_plus.Base.Run.{◌>>=◌, deref, Run, ok, Ends, Ends-map, Ends-Leaves}
use nvme_plus.Regulator.{
  Regulator, nsq, SchedContext, task_init, task_update, get_enq, is_task_update,
}
use nvme_plus.Profile.{prio_level, TaskIoc}
use nvme_plus.Maps.{set_maps, clear_maps, sched_update_mappings}
use nvme_plus.Maps.Claims.{IsConsistent, set_maps-IsConsistent, clear_maps-IsConsistent}
use nvme_plus.PrioArray.{ArrayRef, of_group, of_ncq, read_arr}
use nvme_plus.RoundRobin.{sched_rr_next_nsqid}
use nvme_plus.Sched.{
  Env, Outcome, group_of, hctx_to_nqid, follow, settle, replace, sched_task_init, sched_nq_allright,
  sched_task_update,
}
use nvme_plus.Sched.Divisors.{
  Divisors, SameDivisors, SameDivisors-move, KeepsDivisors, sched_task_init-KeepsDivisors,
  sched_task_update-KeepsDivisors,
}
use nvme_plus.Sched.Valid.{
  IsRegulator, SameIds, same_arrays, recommend_nsq-IsRegulator, peek_recommend-Ends,
}

set_arrays :
    (r : Regulator) (cpu i : ℕ) (ref : ArrayRef) → read_arr (set_maps r cpu i) ref ≡ read_arr r ref
unfolding set_maps
set_arrays r cpu i (of_group p) = ground arith
set_arrays r cpu i (of_ncq j) = ground arith

set_SameIds : (r : Regulator) (cpu i j : ℕ) → SameIds (set_maps r cpu i) r j
unfolding set_maps
set_SameIds r cpu i j = record {
  nqid = ground arith;
  has_encq = ground arith;
  attached = ground arith;
}

clear_arrays :
    (r : Regulator) (cpu i : ℕ) (ref : ArrayRef)
    → read_arr (clear_maps r cpu i) ref ≡ read_arr r ref
unfolding clear_maps
clear_arrays r cpu i (of_group p) = ground arith
clear_arrays r cpu i (of_ncq j) = ground arith

clear_SameIds : (r : Regulator) (cpu i j : ℕ) → SameIds (clear_maps r cpu i) r j
unfolding clear_maps
clear_SameIds r cpu i j = record {
  nqid = ground arith;
  has_encq = ground arith;
  attached = ground arith;
}

rr_arrays :
    (r : Regulator) (p : ℕ) (ref : ArrayRef)
    → read_arr (sched_rr_next_nsqid r p nsq).1 ref ≡ read_arr r ref
unfolding sched_rr_next_nsqid
rr_arrays r p (of_group q) = ground arith
rr_arrays r p (of_ncq j) = refl

rr-IsConsistent :
    (n : ℕ) (r : Regulator) (p : ℕ)
    → IsConsistent n r
    → IsConsistent n (sched_rr_next_nsqid r p nsq).1
unfolding sched_rr_next_nsqid
rr-IsConsistent n r p c = record {
  ids = c.ids;
  counted = c.counted;
  masked = c.masked;
  in_use = c.in_use;
}

rr_SameIds : (r : Regulator) (p j : ℕ) → SameIds (sched_rr_next_nsqid r p nsq).1 r j
unfolding sched_rr_next_nsqid
rr_SameIds r p j = record { nqid = refl; has_encq = refl; attached = refl }

module _ (n : ℕ) (small : n < 2 ^ 31) where
  both_kept :
      (env : Env) (m : Run Outcome) (r : Regulator)
      → Divisors n env.tunables r
      → Ends (λ (out : Outcome). IsRegulator n out.2) m
      → KeepsDivisors r m
      → Ends (λ (out : Outcome). IsRegulator n out.2 × Divisors n env.tunables out.2) m
  both_kept env m r d e k =
      Ends-map (λ (out : Outcome). IsRegulator n out.2 × SameDivisors r out.2) _ m
        (Ends-Leaves (λ (out : Outcome). IsRegulator n out.2)
          (λ (out : Outcome). SameDivisors r out.2) m e k)
        (λ out (v, s). (v, SameDivisors-move s d))

  pub set_maps-IsRegulator :
      (r : Regulator) (cpu i : ℕ) → IsRegulator n r → i < n → IsRegulator n (set_maps r cpu i)
  set_maps-IsRegulator r cpu i v h =
      same_arrays v (set_maps-IsConsistent v.maps small cpu i h) (set_SameIds r cpu i)
        (set_arrays r cpu i)

  pub clear_maps-IsRegulator :
      (r : Regulator) (cpu i : ℕ) → IsRegulator n r → i < n → IsRegulator n (clear_maps r cpu i)
  clear_maps-IsRegulator r cpu i v h =
      same_arrays v (clear_maps-IsConsistent v.maps small cpu i h) (clear_SameIds r cpu i)
        (clear_arrays r cpu i)

  pub rr-IsRegulator :
      (r : Regulator) (p : ℕ) → IsRegulator n r → IsRegulator n (sched_rr_next_nsqid r p nsq).1
  rr-IsRegulator r p v =
      same_arrays v (rr-IsConsistent n r p v.maps) (rr_SameIds r p) (rr_arrays r p)

  mappings-IsRegulator :
      (r : Regulator) (cpu new old : ℕ) (context : SchedContext)
      → IsRegulator n r
      → new < n
      → old < n
      → IsRegulator n (sched_update_mappings r cpu new old context).1
  unfolding sched_update_mappings
  mappings-IsRegulator r cpu new old context v p q =
      let v' = set_maps-IsRegulator r cpu new v p in
      if_elim {x = clear_maps (set_maps r cpu new) cpu old} {y = set_maps r cpu new}
        (λ s. IsRegulator n s) (is_task_update context)
        (λ update. clear_maps-IsRegulator (set_maps r cpu new) cpu old v' q) (λ init. v')

  -- With division by zero as no fault
  pub init_outcome-IsRegulator :
      (env : Env) (ioc : TaskIoc) (r : Regulator)
      → IsRegulator n r
      → ioc.blex_ioprio < prio_level
      → Ends (λ (out : Outcome). IsRegulator n out.2) (sched_task_init env ioc r)
  init_outcome-IsRegulator env ioc r v h =
      unfold sched_task_init in
      let inside : group_of ioc.blex_ioprio ≡ ok ioc.blex_ioprio = ground arith in
      let (e, r', found, below, maps, v') =
        recommend_nsq-IsRegulator env.tunables env.nr_cpu_ids env.free n ioc.blex_ioprio true
          (pos 0) (pos 0) r v h in
      rw (inside, found)
        (if_elim (Ends (λ (out : Outcome). IsRegulator n out.2)) (ltb env.tunables.opt_level 2)
          (λ baseline. rr-IsRegulator r ioc.blex_ioprio v)
          (λ full. mappings-IsRegulator r' env.cpu e 0 task_init v' below (omega arith)))

  -- On a well-formed regulator of fewer than 2^31 NQs whose divisors are not zero (the denominator of the
  -- merits is positive, the queues have a depth, each group has NSQs), giving a new task an NQ ends, for
  -- either priority and at every optimisation level, and leaves the regulator well-formed and the divisors
  -- not zero.
  pub sched_task_init-IsRegulator :
      (env : Env) (ioc : TaskIoc) (r : Regulator)
      → IsRegulator n r
      → Divisors n env.tunables r
      → ioc.blex_ioprio < prio_level
      → Ends
          (λ (out : Outcome). IsRegulator n out.2 × Divisors n env.tunables out.2)
          (sched_task_init env ioc r)
  sched_task_init-IsRegulator env ioc r v d h =
      both_kept env (sched_task_init env ioc r) r d (init_outcome-IsRegulator env ioc r v h)
        (sched_task_init-KeepsDivisors env ioc r)

  follow-IsRegulator :
      (env : Env) (e h : ℕ) (ioc : TaskIoc) (r : Regulator)
      → IsRegulator n r
      → e < n
      → h < n
      → IsRegulator n (follow env e h ioc r).1
  follow-IsRegulator env e h ioc r v p q =
      unfold follow in
      let old : get_enq (hctx_to_nqid h) ≡ h = omega (arith, small) in
      let cleared = clear_maps r ioc.last_working_cpu h in
      rw old (
        if_elim {x = r} {y = cleared}
          (λ (s : Regulator). IsRegulator n (sched_update_mappings s env.cpu e h task_update).1)
          (ioc.last_working_cpu == env.task_cpu)
          (λ stayed. mappings-IsRegulator r env.cpu e h task_update v p q)
          (λ moved.
            mappings-IsRegulator cleared env.cpu e h task_update
              (clear_maps-IsRegulator r ioc.last_working_cpu h v q) p q))

  settle-IsRegulator :
      (env : Env) (e h : ℕ) (s : Option ℕ) (ioc : TaskIoc) (r : Regulator)
      → IsRegulator n r
      → e < n
      → h < n
      → IsRegulator n (settle env e h s ioc r).2
  unfolding settle
  settle-IsRegulator env e h none ioc r v p q = v
  settle-IsRegulator env e h (some s) ioc r v p q =
      if_elim (λ (out : Outcome). IsRegulator n out.2) (s == h) (λ same. v)
        (λ other. follow-IsRegulator env e h ioc r v p q)

  replace-IsRegulator :
      (env : Env) (ioprio h : ℕ) (ioc : TaskIoc) (r : Regulator)
      → IsRegulator n r
      → ioprio < prio_level
      → h < n
      → Ends (λ (out : Outcome). IsRegulator n out.2) (replace env ioprio h ioc r)
  replace-IsRegulator env ioprio h ioc r v p q =
      unfold replace in
      let inside : group_of ioprio ≡ ok ioprio = ground arith in
      let (e, r', found, below, maps, v') =
        recommend_nsq-IsRegulator env.tunables env.nr_cpu_ids env.free n ioprio false
          env.tunables.prio_arr_mru (pos 1) r v p in
      rw (inside, found)
        (if_elim (Ends (λ (out : Outcome). IsRegulator n out.2)) (env.tunables.opt_level == 1)
          (λ baseline. rr-IsRegulator r ioprio v)
          (λ full. settle-IsRegulator env e h _ ioc r' v' below q))

  -- With division by zero as no fault
  update_outcome-IsRegulator :
      (env : Env) (ioprio h : ℕ) (ioc : TaskIoc) (r : Regulator)
      → IsRegulator n r
      → ioprio < prio_level
      → ioc.hctx ≡ some h
      → h < n
      → Ends (λ (out : Outcome). IsRegulator n out.2) (sched_task_update env ioprio ioc r)
  update_outcome-IsRegulator env ioprio h ioc r v p e q =
      unfold sched_task_update in
      let (b, answers) = allright env ioprio (hctx_to_nqid h) r v p in
      subst
        (λ (o : Option ℕ).
          Ends (λ (out : Outcome). IsRegulator n out.2)
            (deref o >>= λ old.
              sched_nq_allright env r ioprio (hctx_to_nqid old) task_update >>= λ fine.
              if fine then ok (some old, ioc, r) else replace env ioprio old ioc r))
        (sym e)
        (rw answers (
          if_elim (Ends (λ (out : Outcome). IsRegulator n out.2)) b (λ keep. v)
            (λ change. replace-IsRegulator env ioprio h ioc r v p q)))
    where
      allright :
          (env : Env) (ioprio nqid : ℕ) (r : Regulator)
          → IsRegulator n r
          → ioprio < prio_level
          → (b : Bool) × (sched_nq_allright env r ioprio nqid task_update ≡ ok b)
      allright env ioprio nqid r v p =
          unfold sched_nq_allright in
          let inside : group_of ioprio ≡ ok ioprio = ground arith in
          let (top, peeked) =
            peek_recommend-Ends env.tunables env.nr_cpu_ids env.free n ioprio r v p in
          rw (inside, peeked)
            (if_elim (λ (a : Run Bool). (b : Bool) × (a ≡ ok b))
              (env.tunables.opt_level == 2 && is_task_update task_update) (λ full. (_, refl))
              (λ other. (_, refl)))

  -- On a well-formed regulator of fewer than 2^31 NQs whose divisors are not zero (the denominator of the
  -- merits is positive, the queues have a depth, each group has NSQs), rescheduling a task whose old hardware
  -- context is one of the device's ends, for either priority, at every optimisation level, whether the old NQ
  -- is kept or replaced, and leaves the regulator well-formed and the divisors not zero.
  pub sched_task_update-IsRegulator :
      (env : Env) (ioprio h : ℕ) (ioc : TaskIoc) (r : Regulator)
      → IsRegulator n r
      → Divisors n env.tunables r
      → ioprio < prio_level
      → ioc.hctx ≡ some h
      → h < n
      → Ends
          (λ (out : Outcome). IsRegulator n out.2 × Divisors n env.tunables out.2)
          (sched_task_update env ioprio ioc r)
  sched_task_update-IsRegulator env ioprio h ioc r v d p e q =
      both_kept env (sched_task_update env ioprio ioc r) r d
        (update_outcome-IsRegulator env ioprio h ioc r v p e q)
        (sched_task_update-KeepsDivisors env ioprio ioc r)
