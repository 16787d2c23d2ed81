-- ===== src/Maps/Tests.antt =====
-- The maps of a small device through some calls.
use nvme_plus.Base.{◌≡◌, refl, arith, true, List, [], ◌∷◌, some}
use nvme_plus.Regulator.{task_update}
use nvme_plus.Maps.{clear_maps, set_maps, sched_update_mappings}
use nvme_plus.Maps.Claims.{IsConsistent, users}
use nvme_plus.Maps.Refine.{
  Call, set_call, clear_call, run, run_claims, SameClaims, claim, release, run_refines,
  sched_update_mappings_moves,
}
use nvme_plus.Samples.Valid.{sample-IsConsistent}
use nvme_plus.Samples.{sample}

abbrev calls : List Call
calls = set_call 1 4 ∷ set_call 1 4 ∷ clear_call 1 4 ∷ set_call 0 2 ∷ []

-- Two tasks of CPU 1 claim NSQ 5, and one leaves it again.
kept : ((run sample calls).nsq_maps 1).xa_nsq_map 5 ≡ some 1
unfolding run set_maps clear_maps
kept = refl

masks : ((run sample calls).enqs 4).ensq.claimed_core_cpumask 1 ≡ true
unfolding run set_maps clear_maps
masks = refl

run_refines_example :
    IsConsistent 6 (run sample calls)
    × SameClaims 6 (users (run sample calls)) (run_claims (users sample) calls)
run_refines_example =
    run_refines 6 calls sample (omega arith) sample-IsConsistent
      (omega arith, (omega arith, (omega arith, (omega arith, tt))))

sched_update_mappings_moves_example :
    let (cpu', r') = sched_update_mappings sample 1 4 2 task_update in
    (cpu' ≡ 1)
    × IsConsistent 6 r'
    × SameClaims 6 (users r') (release (claim (users sample) 1 4) 1 2)
sched_update_mappings_moves_example =
    sched_update_mappings_moves 6 1 4 2 sample task_update (omega arith) sample-IsConsistent
      (omega arith) (omega arith)
