-- ===== src/Profile/Tests.antt =====
-- The profiler on concrete counts.
use nvme_plus.Base.{ℕ, ◌<◌, ◌≡◌, ◌≢◌, ◌↔◌, ◌⊎◌, refl, arith, true, false, none}
use nvme_plus.Base.Int.{pos, negsuc}
use nvme_plus.Profile.{
  real_time, unset, OpFlags, TaskIoc, is_high_prio, is_sync_req, exceeds, decide_dominance,
  map_task_ioc_ioprio, update_task_ioc_stats, outlier_prio,
}
use nvme_plus.Profile.Dominance.{map_task_ioc_ioprio-outlier}

abbrev tenant : ℕ → ℕ → TaskIoc
tenant sync async = record {
  nr_sync_reqs = sync;
  nr_async_reqs = async;
  last_working_cpu = 0;
  hctx = none;
  outlier_hctx = none;
  need_update = false;
  blex_ioprio = 0;
}

abbrev sync_read : OpFlags
sync_read = record { sync = true; meta = false; prio = false; idle = false }

-- 12 against 500 is no dominance of the second.
dominance :
    (decide_dominance (pos 12) (pos 500) 0 ≡ pos 0)
    × (decide_dominance (pos 9) (pos 9) 0 ≡ negsuc 0)
unfolding decide_dominance exceeds
dominance = (refl, refl)

flags : (is_high_prio sync_read ≡ true) × (is_high_prio (record sync_read { idle = true }) ≡ false)
unfolding is_high_prio
flags = (refl, refl)

-- The tenth synchronous request tips the balance.
tipping : (update_task_ioc_stats sync_read (tenant 9 3)).0 ≡ true
unfolding update_task_ioc_stats is_sync_req decide_dominance exceeds
tipping = refl

map_task_ioc_ioprio-outlier_example : (map_task_ioc_ioprio (tenant 0 0) unset ≡ outlier_prio) ↔ (
    (unset ≢ real_time)
    × (((tenant 0 0).nr_async_reqs ≡ 0) ⊎ (((tenant 0 0).nr_sync_reqs ≢ 0) × (0 < 10))))
map_task_ioc_ioprio-outlier_example =
    map_task_ioc_ioprio-outlier (tenant 0 0) unset (omega arith) (omega arith)
