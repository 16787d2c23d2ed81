-- ===== src/Tenant/Lifetime.antt =====
-- What the allocation, the release and the profiling of an I/O context make of the claims and of the
-- regulator.
use nvme_plus.Base.{
  ℕ, ◌-◌, ◌^◌, ◌≤◌, ◌<◌, ◌≡◌, ◌≢◌, ◌⊎◌, inr, refl, subst, ◌∙◌, ap, true, false, arith, ◌==◌, ◌&&◌,
  if◌then◌else◌, none, some,
}
use nvme_plus.Base.Run.{ok, fault, Ends}
use nvme_plus.Regulator.{Regulator, get_enq}
use nvme_plus.Profile.{PrioClass, real_time, TaskIoc, outlier_prio, prio_level, ioprio_simple_map}
use nvme_plus.Profile.Dominance.{map_task_ioc_ioprio-outlier}
use nvme_plus.Maps.{clear_maps}
use nvme_plus.Maps.Claims.{users, clear_users}
use nvme_plus.Maps.Refine.{SameClaims, claim}
use nvme_plus.Sched.{Env, Outcome, hctx_to_nqid, sched_hctx}
use nvme_plus.Sched.Valid.{IsRegulator}
use nvme_plus.Sched.Tasks.{init_outcome-IsRegulator}
use nvme_plus.Sched.Requests.{update_out_of_bounds}
use nvme_plus.Sched.Placement.{sched_task_init-claims}
use nvme_plus.Tenant.{
  Call, fresh, acquire, alloc_and_init_task_ioc, free_task_ioc, update_default, tenant_ioc_profile,
}

fresh_prio : (prio : PrioClass) → ioprio_simple_map prio < prio_level
unfolding ioprio_simple_map
fresh_prio prio = ground arith

-- The full scheduler, on a well-formed regulator of `n` NQs whose hardware contexts are registered.
module _ (n : ℕ) (small : n < 2 ^ 31) (env : Env) (full : 2 ≤ env.tunables.opt_level)
    (all : (i : ℕ) → i < n → env.registered i ≡ true) (prio : PrioClass) (r : Regulator)
    (v : IsRegulator n r) where
  -- What an allocation leaves: a context that claims its NQ for the CPU.
  pub record Allocated : Type 0 where
    pub hctx : ℕ
    pub left : Regulator
    pub result :
        alloc_and_init_task_ioc env true prio r
        ≡ ok (some (record (fresh prio) { hctx = some hctx; last_working_cpu = env.cpu }), left)
    pub below : hctx < n
    pub valid : IsRegulator n left
    pub claims : SameClaims n (users left) (claim (users r) env.cpu hctx)

  allocated : Allocated
  allocated =
      let (h, r', e, below, claims) =
        sched_task_init-claims n env (fresh prio) r small v (fresh_prio prio) full all in
      record {
        hctx = h;
        left = r';
        result = (unfold alloc_and_init_task_ioc in unfold sched_hctx in rw e refl);
        below = below;
        valid =
            subst (Ends (λ (out : Outcome). IsRegulator n out.2)) e
              (init_outcome-IsRegulator n small env (fresh prio) r v (fresh_prio prio));
        claims = claims;
      }

  released : SameClaims n (users (clear_maps allocated.left env.cpu allocated.hctx)) (users r)
  released c j p =
      let a = allocated in
      clear_users a.valid.maps small env.cpu a.hctx a.below c j p
      ∙ ap (λ k. if env.cpu == c && a.hctx == j then k - 1 else k) (a.claims c j p)
      ∙ ground arith

  -- On a well-formed regulator of fewer than 2^31 NQs, whose hardware contexts are all registered,
  -- and with the full scheduler, releasing an I/O context on the CPU that allocated it gives back
  -- exactly the claim that the allocation made: every CPU claims each NSQ of the device as often
  -- as before.
  pub alloc-free :
      (ioc : TaskIoc) × (r' r'' : Regulator) × (alloc_and_init_task_ioc env true prio r
        ≡ ok (some ioc, r'))
      × (free_task_ioc ioc r' ≡ ok r'')
      × SameClaims n (users r'') (users r)
  unfolding free_task_ioc
  alloc-free =
      let a = allocated in
      let at : get_enq (hctx_to_nqid a.hctx) ≡ a.hctx = omega (arith, a.below) in
      (
        record (fresh prio) { hctx = some a.hctx; last_working_cpu = env.cpu },
        a.left,
        clear_maps a.left env.cpu a.hctx,
        a.result,
        rw at refl,
        released,
      )

-- On a well-formed regulator of fewer than 2^31 NQs, whose hardware contexts are all registered,
-- and with the full scheduler, if a new I/O context is allocated but cannot be inserted in the
-- task's xarray, it is freed, and the maps keep the claim that it made on an NQ of the device.
pub tenant_ioc_profile-leaves_claim :
    (n : ℕ) (c : Call) (r : Regulator)
    → n < 2 ^ 31
    → IsRegulator n r
    → 2 ≤ c.env.tunables.opt_level
    → ((i : ℕ) → i < n → c.env.registered i ≡ true)
    → c.has_memory ≡ true
    → c.inserts ≡ false
    → (h : ℕ) × (r' : Regulator) × (tenant_ioc_profile c true none r ≡ ok (none, r'))
      × (h < n)
      × SameClaims n (users r') (claim (users r) c.env.cpu h)
unfolding tenant_ioc_profile acquire
tenant_ioc_profile-leaves_claim n c r small v full all memory refused =
    let a = allocated n small c.env full all c.ioprio r v in
    (a.hctx, a.left, rw (memory, a.result, refused) refl, a.below, a.claims)

-- Where every NQ belongs to one of the two groups, a tenant that is due for an update, is not
-- real-time and whose two counts, below 2^31, do not let the asynchronous one dominate sends the
-- scheduler out of bounds: its new priority is the outlier one.
pub update_default-fault :
    (c : Call) (ioc : TaskIoc) (r : Regulator)
    → ((j : ℕ) → (r.enqs j).prio < prio_level)
    → ioc.nr_sync_reqs < 2 ^ 31
    → ioc.nr_async_reqs < 2 ^ 31
    → ioc.need_update ≡ true
    → c.ioprio ≢ real_time
    → (ioc.nr_async_reqs ≡ 0) ⊎ ((ioc.nr_sync_reqs ≢ 0) × (ioc.nr_async_reqs < 10))
    → update_default c ioc r ≡ fault
unfolding update_default sched_hctx
update_default-fault c ioc r grouped hs ha due idle counts =
    let outlier = (map_task_ioc_ioprio-outlier ioc c.ioprio hs ha).1 (idle, counts) in
    let out =
      update_out_of_bounds c.env outlier_prio (record ioc { need_update = false }) r grouped
        (inr (omega arith)) in
    ground (arith, outlier, out)
