-- ===== src/Sched/Placement.antt =====
-- Where a new task is placed, and what the maps then say.
use nvme_plus.Base.{
  ℕ, suc, ◌+◌, ◌^◌, ◌≤◌, ◌<◌, ◌≡◌, refl, ◌∙◌, ap, true, false, arith, ◌==◌, ltb, ◌&&◌,
  if◌then◌else◌, some,
}
use nvme_plus.Base.Int.{pos}
use nvme_plus.Base.Run.{ok}
use nvme_plus.Regulator.{Regulator, NsqMap, task_init}
use nvme_plus.Profile.{prio_level, TaskIoc}
use nvme_plus.Maps.{sched_update_mappings}
use nvme_plus.Maps.Claims.{amount, users}
use nvme_plus.Maps.Refine.{SameClaims, claim, sched_update_mappings_moves}
use nvme_plus.Sched.{Env, group_of, nqid_to_hctx, sched_task_init}
use nvme_plus.Sched.Valid.{IsRegulator, recommend_nsq-IsRegulator}

-- On a well-formed regulator of fewer than 2^31 NQs, whose hardware contexts are all registered,
-- and with the full scheduler (optimisation level 2 or more), a new task of either priority gets a
-- hardware context of the device, its I/O context remembers the CPU that scheduled it, and the
-- maps show one more claim of that CPU on the NQ found, and no other change.
pub sched_task_init-claims :
    (n : ℕ) (env : Env) (ioc : TaskIoc) (r : Regulator)
    → n < 2 ^ 31
    → IsRegulator n r
    → ioc.blex_ioprio < prio_level
    → 2 ≤ env.tunables.opt_level
    → ((i : ℕ) → i < n → env.registered i ≡ true)
    → (h : ℕ) × (r' : Regulator) × (sched_task_init env ioc r
        ≡ ok (some h, record ioc { last_working_cpu = env.cpu }, r'))
      × (h < n)
      × SameClaims n (users r') (claim (users r) env.cpu h)
unfolding sched_task_init
sched_task_init-claims n env ioc r small v h full all =
    let (e, r', recommended, below, maps, v') =
      recommend_nsq-IsRegulator env.tunables env.nr_cpu_ids env.free n ioc.blex_ioprio true (pos 0)
        (pos 0) r v h in
    let moved =
      sched_update_mappings_moves n env.cpu e 0 r' task_init small v'.maps below (omega arith) in
    let inside : group_of ioc.blex_ioprio ≡ ok ioc.blex_ioprio = ground arith in
    let level : ltb env.tunables.opt_level 2 ≡ false = ground arith in
    let found : nqid_to_hctx env (r'.enqs e).nqid ≡ some e =
      ground (arith, v'.maps.ids e below, all e below) in
    let stays : (sched_update_mappings r' env.cpu e 0 task_init).0 ≡ env.cpu = moved.0 in
    (
      e,
      (sched_update_mappings r' env.cpu e 0 task_init).1,
      rw (inside, level, recommended, found, stays) refl,
      below,
      λ c j p.
          moved.2 c j p
          ∙ ap
              (λ (s : ℕ → NsqMap).
                if env.cpu == c && e == j
                then amount ((s c).xa_nsq_map (suc j)) + 1
                else amount ((s c).xa_nsq_map (suc j)))
              maps,
    )
