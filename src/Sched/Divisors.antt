-- ===== src/Sched/Divisors.antt =====
-- What the scheduler of daredevil/block/blk-blex.c divides by, and that no scheduling call changes it.
use nvme_plus.Base.{
  ℕ, suc, ◌<◌, ◌≡◌, ◌≢◌, ◌∙◌, refl, arith, Bool, true, false, not, Option, none, some, ltb, ◌==◌,
  if◌then◌else◌, if_elim,
}
use nvme_plus.Base.Int.{ℤ, pos}
use nvme_plus.Base.Run.{Run, deref, Leaves, Leaves-bind, any_value}
use nvme_plus.Regulator.{
  Regulator, Tunables, NqType, nsq, ncq, SchedContext, task_init, task_update, is_task_update,
  get_enq,
}
use nvme_plus.Profile.{prio_level, TaskIoc}
use nvme_plus.Maps.{set_maps, clear_maps, sched_update_mappings}
use nvme_plus.PrioArray.{
  ArrayRef, of_group, of_ncq, peek_priority_array, update_priority_array, recommend_nsq, merit_inf,
}
use nvme_plus.PrioArray.Frame.{update-Frame}
use nvme_plus.RoundRobin.{sched_rr_next_nsqid}
use nvme_plus.Sched.{
  Env, Outcome, group_of, hctx_to_nqid, recommend, follow, settle, replace, sched_task_init,
  sched_nq_allright, sched_task_update,
}

-- The denominator of the merits is positive, the queues of the device have a depth, and each group has NSQs.
pub record Divisors (n : ℕ) (t : Tunables) (r : Regulator) : Type 0 where
  pub alpha : (k : ℕ) × (t.merit_alpha_denom ≡ pos (suc k))
  pub qdepth : (i : ℕ) → i < n → (r.enqs i).qdepth ≢ 0
  pub attached : (p : ℕ) → p < prio_level → (r.nq_groups p).nr_attach_nsqs ≢ 0

pub record SameDivisors (r q : Regulator) : Type 0 where
  pub qdepth : (i : ℕ) → (q.enqs i).qdepth ≡ (r.enqs i).qdepth
  pub attached : (p : ℕ) → (q.nq_groups p).nr_attach_nsqs ≡ (r.nq_groups p).nr_attach_nsqs

pub SameDivisors-move :
    {n : ℕ} {t : Tunables} {r q : Regulator} → SameDivisors r q → Divisors n t r → Divisors n t q
SameDivisors-move s d = record {
  alpha = d.alpha;
  qdepth = λ i h e. d.qdepth i h (omega (arith, s.qdepth i, e));
  attached = λ p h e. d.attached p h (omega (arith, s.attached p, e));
}

SameDivisors-refl : (r : Regulator) → SameDivisors r r
SameDivisors-refl r = record { qdepth = λ i. refl; attached = λ p. refl }

pub SameDivisors-trans :
    {r q s : Regulator} → SameDivisors r q → SameDivisors q s → SameDivisors r s
SameDivisors-trans a b = record {
  qdepth = λ i. b.qdepth i ∙ a.qdepth i;
  attached = λ p. b.attached p ∙ a.attached p;
}

pub set_maps-SameDivisors : (r : Regulator) (cpu i : ℕ) → SameDivisors r (set_maps r cpu i)
unfolding set_maps
set_maps-SameDivisors r cpu i = record { qdepth = λ j. ground arith; attached = λ p. ground arith }

pub clear_maps-SameDivisors : (r : Regulator) (cpu i : ℕ) → SameDivisors r (clear_maps r cpu i)
unfolding clear_maps
clear_maps-SameDivisors r cpu i = record {
  qdepth = λ j. ground arith;
  attached = λ p. ground arith;
}

rr-SameDivisors : (r : Regulator) (p : ℕ) → SameDivisors r (sched_rr_next_nsqid r p nsq).1
unfolding sched_rr_next_nsqid
rr-SameDivisors r p = record { qdepth = λ j. refl; attached = λ q. ground arith }

mappings-SameDivisors :
    (r : Regulator) (cpu new old : ℕ) (context : SchedContext)
    → SameDivisors r (sched_update_mappings r cpu new old context).1
unfolding sched_update_mappings
mappings-SameDivisors r cpu new old context =
    if_elim {x = clear_maps (set_maps r cpu new) cpu old} {y = set_maps r cpu new} (SameDivisors r)
      (is_task_update context)
      (λ update.
        SameDivisors-trans (set_maps-SameDivisors r cpu new)
          (clear_maps-SameDivisors (set_maps r cpu new) cpu old))
      (λ init. set_maps-SameDivisors r cpu new)

update-SameDivisors :
    (t : Tunables) (nr_cpus : ℕ) (free : ArrayRef → Bool) (ref : ArrayRef) (mru force : ℤ)
    (type : NqType) (r : Regulator)
    → SameDivisors r (update_priority_array t nr_cpus free ref mru force type r)
update-SameDivisors t nr_cpus free ref mru force type r =
    let f = update-Frame t nr_cpus free ref mru force type r in
    record { qdepth = λ j. (f.nqs j).qdepth; attached = f.attach }

recommend_nsq-SameDivisors :
    (t : Tunables) (nr_cpus : ℕ) (free : ArrayRef → Bool) (prio : ℕ) (rr : Bool)
    (ncq_mru nsq_mru : ℤ) (r : Regulator)
    → Leaves
        (λ (o : ℕ × Regulator). SameDivisors r o.1)
        (recommend_nsq t nr_cpus free prio rr ncq_mru nsq_mru r)
unfolding recommend_nsq
recommend_nsq-SameDivisors t nr_cpus free prio rr ncq_mru nsq_mru r =
    let ncq_mru' = if rr then t.prio_arr_mru else ncq_mru in
    let nsq_mru' = if rr then t.prio_arr_mru else nsq_mru in
    let force = if rr then merit_inf else pos 0 in
    let top = peek_priority_array r (of_group prio) in
    let r' = update_priority_array t nr_cpus free (of_group prio) ncq_mru' force ncq r in
    let one = update-SameDivisors t nr_cpus free (of_group prio) ncq_mru' force ncq r in
    if_elim (Leaves (λ (o : ℕ × Regulator). SameDivisors r o.1)) (not (r'.enqs top).has_encq)
      (λ e. tt)
      (λ e.
        if_elim (Leaves (λ (o : ℕ × Regulator). SameDivisors r o.1))
          ((r'.enqs top).encq.nr_attached_nsqs == 1) (λ single. one)
          (λ more.
            SameDivisors-trans one
              (update-SameDivisors t nr_cpus free (of_ncq top) nsq_mru' force nsq r')))

-- A scheduling call that ends leaves the divisors.
abbrev pub KeepsDivisors : Regulator → Run Outcome → Type 0
KeepsDivisors r = Leaves (λ (out : Outcome). SameDivisors r out.2)

pub sched_task_init-KeepsDivisors :
    (env : Env) (ioc : TaskIoc) (r : Regulator) → KeepsDivisors r (sched_task_init env ioc r)
unfolding sched_task_init
sched_task_init-KeepsDivisors env ioc r =
    Leaves-bind _ _ (group_of ioc.blex_ioprio) _ (any_value (group_of ioc.blex_ioprio)) (λ prio _.
      if_elim (KeepsDivisors r) (ltb env.tunables.opt_level 2) (λ baseline. rr-SameDivisors r prio)
        (λ full.
          Leaves-bind (λ (o : ℕ × Regulator). SameDivisors r o.1) _
            (recommend env prio true (pos 0) (pos 0) r) _
            (recommend_nsq-SameDivisors env.tunables env.nr_cpu_ids env.free prio true (pos 0)
              (pos 0) r)
            (λ (e, r') s. SameDivisors-trans s (mappings-SameDivisors r' env.cpu e 0 task_init))))

follow-SameDivisors :
    (env : Env) (e h : ℕ) (ioc : TaskIoc) (r : Regulator) → SameDivisors r (follow env e h ioc r).1
unfolding follow
follow-SameDivisors env e h ioc r =
    let old = get_enq (hctx_to_nqid h) in
    if_elim {x = r} {y = clear_maps r ioc.last_working_cpu old}
      (λ (s : Regulator). SameDivisors r (sched_update_mappings s env.cpu e old task_update).1)
      (ioc.last_working_cpu == env.task_cpu)
      (λ stayed. mappings-SameDivisors r env.cpu e old task_update)
      (λ moved.
        SameDivisors-trans (clear_maps-SameDivisors r ioc.last_working_cpu old)
          (mappings-SameDivisors _ env.cpu e old task_update))

settle-SameDivisors :
    (env : Env) (e h : ℕ) (s : Option ℕ) (ioc : TaskIoc) (r : Regulator)
    → SameDivisors r (settle env e h s ioc r).2
unfolding settle
settle-SameDivisors env e h none ioc r = SameDivisors-refl r
settle-SameDivisors env e h (some s) ioc r =
    if_elim (λ (out : Outcome). SameDivisors r out.2) (s == h) (λ same. SameDivisors-refl r)
      (λ other. follow-SameDivisors env e h ioc r)

replace-KeepsDivisors :
    (env : Env) (ioprio h : ℕ) (ioc : TaskIoc) (r : Regulator)
    → KeepsDivisors r (replace env ioprio h ioc r)
unfolding replace
replace-KeepsDivisors env ioprio h ioc r =
    Leaves-bind _ _ (group_of ioprio) _ (any_value (group_of ioprio)) (λ prio _.
      if_elim (KeepsDivisors r) (env.tunables.opt_level == 1) (λ baseline. rr-SameDivisors r prio)
        (λ full.
          Leaves-bind (λ (o : ℕ × Regulator). SameDivisors r o.1) _
            (recommend env prio false env.tunables.prio_arr_mru (pos 1) r) _
            (recommend_nsq-SameDivisors env.tunables env.nr_cpu_ids env.free prio false
              env.tunables.prio_arr_mru (pos 1) r)
            (λ (e, r') s. SameDivisors-trans s (settle-SameDivisors env e h _ ioc r'))))

pub sched_task_update-KeepsDivisors :
    (env : Env) (ioprio : ℕ) (ioc : TaskIoc) (r : Regulator)
    → KeepsDivisors r (sched_task_update env ioprio ioc r)
unfolding sched_task_update
sched_task_update-KeepsDivisors env ioprio ioc r =
    Leaves-bind _ _ (deref ioc.hctx) _ (any_value (deref ioc.hctx)) (λ old _.
      Leaves-bind _ _ (sched_nq_allright env r ioprio (hctx_to_nqid old) task_update) _
        (any_value (sched_nq_allright env r ioprio (hctx_to_nqid old) task_update))
        (λ fine _.
          if_elim (KeepsDivisors r) fine (λ keep. SameDivisors-refl r)
            (λ change. replace-KeepsDivisors env ioprio old ioc r)))
