-- ===== src/RoundRobin/Tests.antt =====
-- The round robin on a small device.
use nvme_plus.Base.{ℕ, ◌+◌, ◌^◌, ◌<◌, ◌≡◌, refl, arith, [], ◌∷◌, get_or}
use nvme_plus.Base.Int.{pos, signed32, rem}
use nvme_plus.Topology.{get_kth_cqid, cqid_to_index, min_no_extra_sq_cqid}
use nvme_plus.Regulator.{Regulator, nsq, ncq}
use nvme_plus.RoundRobin.{sched_rr_next_nsqid, sched_random_nqid}
use nvme_plus.RoundRobin.Turns.{turns, sched_rr_next_nsqid-covers}
use nvme_plus.Samples.{sample, sample_group}

-- Group 1 with its counter at 2^31 + 1
abbrev late : Regulator
late = record sample { nq_groups = λ p. record (sample_group p) { rr_nsq_offset = 2 ^ 31 + 1 } }

five_turns : turns 5 sample 1 ≡ 3 ∷ 4 ∷ 5 ∷ 6 ∷ 3 ∷ []
unfolding turns sched_rr_next_nsqid signed32 rem
five_turns = refl

-- Past 2^31 the choice falls on NQ 0 or the NQs of the other group.
before_the_group : (sched_rr_next_nsqid late 1 nsq).0 ≡ 0
unfolding sched_rr_next_nsqid signed32 rem
before_the_group = refl

by_ncq : (sched_rr_next_nsqid sample 1 ncq).0 ≡ 3
unfolding sched_rr_next_nsqid get_kth_cqid cqid_to_index min_no_extra_sq_cqid
by_ncq = refl

at_random : (sched_random_nqid sample 1 nsq (pos 7)).0 ≡ pos 6
unfolding sched_random_nqid signed32 rem
at_random = refl

sched_rr_next_nsqid-covers_example : (i : ℕ) × (i < 4) × (get_or (turns 4 sample 1) i 0 ≡ 3 + 2)
sched_rr_next_nsqid-covers_example =
    sched_rr_next_nsqid-covers sample 1 2 (omega arith) (omega arith) (omega arith)
