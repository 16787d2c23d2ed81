-- ===== src/Tenant/Profiling.antt =====
-- Profiling a request of a tenant that has an NQ and is not due for an update.
use nvme_plus.Base.{
  ℕ, ◌^◌, ◌<◌, ◌≡◌, refl, sym, subst, ◌∙◌, Bool, true, false, arith, ◌==◌, if◌then◌else◌, if_elim,
  Option, none, some,
}
use nvme_plus.Base.Run.{Run, ok, fault, ◌>>=◌, deref, Ends, Ends-bind}
use nvme_plus.Regulator.{Regulator, Tunables, get_enq}
use nvme_plus.Profile.{
  TaskIoc, OpFlags, l_prio, outlier_prio, prio_level, map_task_ioc_ioprio, update_task_ioc_stats,
  is_sync_req,
}
use nvme_plus.Maps.{clear_maps, set_maps}
use nvme_plus.Sched.{
  Env, Outcome, hctx_to_nqid, sched_hctx, sched_task_update, sched_nq_allright, replace, settle,
  follow,
}
use nvme_plus.Sched.Valid.{IsRegulator}
use nvme_plus.Sched.Divisors.{
  Divisors, SameDivisors-move, SameDivisors-trans, set_maps-SameDivisors, clear_maps-SameDivisors,
}
use nvme_plus.Sched.Tasks.{
  set_maps-IsRegulator, clear_maps-IsRegulator, sched_task_update-IsRegulator,
}
use nvme_plus.Tenant.{
  Call, Entry, acquire, rehome, update_default, change_pattern, profile, tenant_ioc_profile,
  restart,
}

-- Rescheduling a task changes nothing of its context but the CPU.
update_fields :
    (env : Env) (ioprio : ℕ) (ioc : TaskIoc) (r : Regulator) (out : Outcome)
    → sched_task_update env ioprio ioc r ≡ ok out
    → (out.1.hctx ≡ ioc.hctx) × (out.1.need_update ≡ ioc.need_update)
unfolding sched_task_update sched_nq_allright replace settle follow
update_fields env ioprio ioc r out e = ground arith

acquire_found :
    (c : Call) (h : ℕ) (ioc : TaskIoc) (r : Regulator)
    → ioc.hctx ≡ some h
    → acquire c (some ioc) r ≡ ok (some ioc, r)
unfolding acquire
acquire_found c h ioc r e = ground arith

module _ (n : ℕ) (small : n < 2 ^ 31) (h : ℕ) (inside : h < n) where
  -- The tenant has the hardware context `h` and is not due for an update.
  abbrev pub IsSettled : TaskIoc → Type 0
  IsSettled ioc = (ioc.hctx ≡ some h) × (ioc.need_update ≡ false)

  -- The regulator is well-formed and its divisors are not zero.
  abbrev pub IsReady : Tunables → Regulator → Type 0
  IsReady t r = IsRegulator n r × Divisors n t r

  abbrev pub Good : Tunables → TaskIoc × Regulator → Type 0
  Good t (ioc, r) = IsSettled ioc × IsReady t r

  rehome_keeps :
      (c : Call) (ioc : TaskIoc) (r : Regulator)
      → IsSettled ioc
      → IsReady c.env.tunables r
      → Ends (Good c.env.tunables) (rehome c ioc r)
  rehome_keeps c ioc r s v =
      unfold rehome in
      let at : get_enq (hctx_to_nqid h) ≡ h = omega (arith, small) in
      let cleared = clear_maps-IsRegulator n small r ioc.last_working_cpu h v.0 inside in
      let moved_claim : IsReady c.env.tunables
          (set_maps (clear_maps r ioc.last_working_cpu h) c.env.cpu h) =
        (
          set_maps-IsRegulator n small (clear_maps r ioc.last_working_cpu h) c.env.cpu h cleared
              inside,
          SameDivisors-move
              (SameDivisors-trans (clear_maps-SameDivisors r ioc.last_working_cpu h)
                (set_maps-SameDivisors (clear_maps r ioc.last_working_cpu h) c.env.cpu h))
              v.1,
        ) in
      if_elim (Ends (Good c.env.tunables)) (ioc.last_working_cpu == c.env.cpu) (λ here. (s, v))
        (λ moved.
          subst
            (λ (o : Option ℕ). Ends (Good c.env.tunables) (
              deref o >>= λ hctx. ok (
                record ioc { last_working_cpu = c.env.cpu },
                set_maps (clear_maps r ioc.last_working_cpu (get_enq (hctx_to_nqid hctx))) c.env.cpu
                    (get_enq (hctx_to_nqid hctx)),
              )))
            (sym s.0) (rw at (s, moved_claim)))

  -- What a task update leaves of the context that it is given
  update_ioc :
      (env : Env) (ioprio : ℕ) (ioc : TaskIoc) (r : Regulator)
      → IsSettled ioc
      → ioprio < prio_level
      → IsReady env.tunables r
      → Ends
          (λ (out : Outcome). IsSettled out.1 × IsReady env.tunables out.2)
          (sched_task_update env ioprio ioc r)
  update_ioc env ioprio ioc r s p v =
      both (sched_task_update env ioprio ioc r) kept
        (sched_task_update-IsRegulator n small env ioprio h ioc r v.0 v.1 p s.0 inside)
    where
      both :
          (m : Run Outcome)
          → ((out : Outcome)
              → m ≡ ok out
              → (out.1.hctx ≡ ioc.hctx) × (out.1.need_update ≡ ioc.need_update))
          → Ends (λ (out : Outcome). IsReady env.tunables out.2) m
          → Ends (λ (out : Outcome). IsSettled out.1 × IsReady env.tunables out.2) m
      both (ok out) k valid = (((k out refl).0 ∙ s.0, (k out refl).1 ∙ s.1), valid)
      both fault k valid = valid

      kept :
          (out : Outcome)
          → sched_task_update env ioprio ioc r ≡ ok out
          → (out.1.hctx ≡ ioc.hctx) × (out.1.need_update ≡ ioc.need_update)
      kept out e = update_fields env ioprio ioc r out e

  change_keeps :
      (c : Call) (ioc : TaskIoc) (r : Regulator)
      → IsSettled ioc
      → IsReady c.env.tunables r
      → Ends (Good c.env.tunables) (change_pattern c ioc r)
  change_keeps c ioc r s v =
      unfold change_pattern in
      unfold sched_hctx in
      let new_ioprio = map_task_ioc_ioprio ioc c.ioprio in
      if_elim (Ends (Good c.env.tunables)) (new_ioprio == outlier_prio)
        (λ outlier.
          elim ioc.outlier_hctx
            as (λ (o : Option ℕ). Ends (Good c.env.tunables) (elim o [
              | some hctx ↦ ok (restart ioc new_ioprio, r)
              | none ↦ sched_task_update c.env l_prio ioc r >>= λ (hctx, ioc', r').
                  ok (restart (record ioc' { outlier_hctx = hctx }) new_ioprio, r')
            ])) [
              | some hctx ↦ (s, v)
              | none ↦
                  Ends-bind (λ (out : Outcome). IsSettled out.1 × IsReady c.env.tunables out.2)
                    (Good c.env.tunables) (sched_task_update c.env l_prio ioc r) _
                    (update_ioc c.env l_prio ioc r s (omega arith) v) (λ out k. k)
            ])
        (λ normal.
          if_elim (λ (i : TaskIoc). Ends (Good c.env.tunables) (ok (restart i new_ioprio, r)))
            (ioc.blex_ioprio == outlier_prio) (λ back. (s, v)) (λ still. (s, v)))

  counted-IsSettled :
      (f : OpFlags) (ioc : TaskIoc) → IsSettled ioc → IsSettled (update_task_ioc_stats f ioc).1
  unfolding update_task_ioc_stats
  counted-IsSettled f ioc s = if_elim IsSettled (is_sync_req f) (λ sync. s) (λ other. s)

  profile_keeps :
      (c : Call) (ioc : TaskIoc) (r : Regulator)
      → IsSettled ioc
      → IsReady c.env.tunables r
      → Ends (Good c.env.tunables) (profile c ioc r)
  profile_keeps c ioc r s v =
      unfold profile in
      let counted =
        if c.env.tunables.io_profile_on then update_task_ioc_stats c.bi_opf ioc else (false, ioc) in
      let settled : IsSettled counted.1 =
        if_elim (λ (p : Bool × TaskIoc). IsSettled p.1) c.env.tunables.io_profile_on
          (λ profiled. counted-IsSettled c.bi_opf ioc s) (λ not_profiled. s) in
      Ends-bind (Good c.env.tunables) (Good c.env.tunables) (rehome c counted.1 r) _
        (rehome_keeps c counted.1 r settled v)
        (λ (i, q) (si, vq).
          Ends-bind (Good c.env.tunables) (Good c.env.tunables) (update_default c i q) _
            (no_update c i q si vq)
            (λ (i', q') (si', vq').
              if_elim (Ends (Good c.env.tunables)) counted.0
                (λ changed. change_keeps c i' q' si' vq') (λ same. (si', vq'))))
    where
      no_update :
          (c : Call) (i : TaskIoc) (q : Regulator)
          → IsSettled i
          → IsReady c.env.tunables q
          → Ends (Good c.env.tunables) (update_default c i q)
      no_update c i q si vq =
          unfold update_default in
          if_elim (Ends (Good c.env.tunables)) i.need_update (λ due. absurd (ground arith))
            (λ no. (si, vq))

  -- On a well-formed regulator of fewer than 2^31 NQs whose divisors are not zero (the denominator of the
  -- merits is positive, the queues have a depth, each group has NSQs), profiling a request of a tenant that
  -- has a hardware context of the device and is not due for an update ends, whatever the counts, the CPU and
  -- the priority, with the same hardware context for the tenant, which is still not due for an update, a
  -- well-formed regulator and divisors that are not zero.
  pub tenant_ioc_profile-IsRegulator :
      (c : Call) (ioc : TaskIoc) (r : Regulator)
      → IsSettled ioc
      → IsRegulator n r
      → Divisors n c.env.tunables r
      → Ends
          (λ (out : Entry).
            IsRegulator n out.1
            × Divisors n c.env.tunables out.1
            × ((ioc' : TaskIoc) × (out.0 ≡ some ioc') × IsSettled ioc'))
          (tenant_ioc_profile c true (some ioc) r)
  tenant_ioc_profile-IsRegulator c ioc r s v d =
      unfold tenant_ioc_profile in
      rw (acquire_found c h ioc r s.0) (
        Ends-bind (Good c.env.tunables) _ (profile c ioc r) _ (profile_keeps c ioc r s (v, d))
          (λ (i, q) (si, (vq, dq)). (vq, dq, (i, refl, si))))
