-- ===== src/Profile/Dominance.antt =====
-- What the dominance test of the profiler decides.
use nvme_plus.Base.{
  ℕ, ◌/◌, ◌^◌, ◌<◌, ◌≡◌, ◌≢◌, ◌↔◌, ◌⊎◌, arith, leb, ◌==◌, if◌then◌else◌, Bool, true, ◌&&◌,
}
use nvme_plus.Base.Int.{pos, negsuc, signed32_small, add_pos, div_pos, nonzero}
use nvme_plus.Profile.{
  PrioClass, real_time, exceeds, decide_dominance, map_task_ioc_ioprio, TaskIoc, outlier_prio,
  t_prio, ioprio_simple_map,
}

half-div : (n : ℕ) → 0 < n → n / 2 / n ≡ 0
half-div n h = grind arith

-- The quotient of the test is 0, so only the first candidate counts.
exceeds_lem : (a b : ℕ) → 0 < b → a < 2 ^ 31 → b < 2 ^ 31 → exceeds (pos a) (pos b) ≡ leb 10 a
unfolding exceeds
exceeds_lem a b pb ha hb =
    rw
      (
        div_pos b 2 (omega arith),
        div_pos (b / 2) b (omega (arith, half-div b pb)),
        half-div b pb,
        add_pos a 0 (omega arith),
      )
      (ground arith)

-- The comparison of two counts below 2^31 never looks at their ratio: it gives the first candidate
-- once that has reached 10, and only if not, the second once that has, however the two compare. A
-- count of 0 loses to any other, and two counts of 0 give no decision.
pub decide_dominance-counts :
    (a b : ℕ)
    → a < 2 ^ 31
    → b < 2 ^ 31
    → decide_dominance (pos a) (pos b) 0 ≡ (
        if b == 0
        then (if a == 0 then negsuc 0 else pos 0)
        else if a == 0
        then pos 1
        else if leb 10 a
        then pos 0
        else if leb 10 b
        then pos 1
        else negsuc 0)
unfolding decide_dominance
decide_dominance-counts a b ha hb = ground (arith, exceeds_lem a b, exceeds_lem b a)

-- The test of `bool sync_dom`: the decision is not for the asynchronous count.
not_async :
    (a b : ℕ)
    → a < 2 ^ 31
    → b < 2 ^ 31
    → (nonzero (decide_dominance (pos a) (pos b) 0) ≡ true) ↔ ((a ≡ 0) ⊎ ((b ≢ 0) × (a < 10)))
not_async a b ha hb = rw (decide_dominance-counts a b ha hb) (ground arith)

outlier_of :
    (d : Bool) (c : PrioClass)
    → ((if d && ioprio_simple_map c == t_prio then outlier_prio else ioprio_simple_map c)
        ≡ outlier_prio)
      ↔ ((c ≢ real_time) × (d ≡ true))
unfolding ioprio_simple_map
outlier_of d c = ground arith

-- A tenant whose two counts are below 2^31 is an outlier exactly when it is not real-time and the
-- counts do not let the asynchronous one dominate: the asynchronous count is 0, or both are
-- positive and the asynchronous count is below 10.
pub map_task_ioc_ioprio-outlier :
    (ioc : TaskIoc) (c : PrioClass)
    → ioc.nr_sync_reqs < 2 ^ 31
    → ioc.nr_async_reqs < 2 ^ 31
    → (map_task_ioc_ioprio ioc c ≡ outlier_prio) ↔ (
        (c ≢ real_time)
        × ((ioc.nr_async_reqs ≡ 0) ⊎ ((ioc.nr_sync_reqs ≢ 0) × (ioc.nr_async_reqs < 10))))
unfolding map_task_ioc_ioprio
map_task_ioc_ioprio-outlier ioc c hs ha =
    rw (signed32_small ioc.nr_sync_reqs hs, signed32_small ioc.nr_async_reqs ha)
      (
        λ e. let (q, d) = (outlier_of _ c).0 e in (q, verdict.0 d),
        λ (q, d). (outlier_of _ c).1 (q, verdict.1 d),
      )
  where
    verdict :
        (nonzero (decide_dominance (pos ioc.nr_async_reqs) (pos ioc.nr_sync_reqs) 0) ≡ true)
        ↔ ((ioc.nr_async_reqs ≡ 0) ⊎ ((ioc.nr_sync_reqs ≢ 0) × (ioc.nr_async_reqs < 10)))
    verdict = not_async ioc.nr_async_reqs ioc.nr_sync_reqs ha hs
