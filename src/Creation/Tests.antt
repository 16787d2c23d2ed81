-- ===== src/Creation/Tests.antt =====
-- A device of 13 NSQs and 5 NCQs that has only its queue for admin commands.
use nvme_plus.Base.{ℕ, ◌≤◌, ◌<◌, ◌≡◌, refl, arith, true, false, none, some, ◌==◌, if◌then◌else◌}
use nvme_plus.Base.Int.{pos, negsuc}
use nvme_plus.Topology.{Fits, get_cqid, cqid_to_index, min_no_extra_sq_cqid}
use nvme_plus.Creation.{
  NvmeDev, Answers, nvmeq_has_cq, alloc_queue, create_queue, alloc_from, create_from,
  create_allocated, create_io_queues, release_cq, release_sq, start_queue, attach_sq,
}
use nvme_plus.Creation.Memory.{IsClear}
use nvme_plus.Creation.Grants.{Grants}
use nvme_plus.Creation.Attached.{AllAttached, Serves, create_io_queues-Serves}
use nvme_plus.Creation.Complete.{create_io_queues-completes}

abbrev fresh : NvmeDev
fresh = record {
  max_qid = 13;
  nr_cqs = 5;
  num_vecs = 6;
  queue_count = 1;
  online_queues = 1;
  polls = false;
  cqes = λ q. false;
  sq_cmds = λ q. false;
  cqs = λ q. none;
  sqs = λ q. none;
  cq_vector = λ q. 0;
  enabled = λ q. q == 0;
  delete_error = λ q. false;
  irqs = λ q. q == 0;
  null_cleared = false;
}

abbrev granted : Answers
granted = record {
  alloc_cqes = λ q. true;
  alloc_sq_cmds = λ q. true;
  alloc_cq = λ q. pos 0;
  alloc_sq = λ q. pos 0;
  deletes_sq = λ q. true;
  deletes_cq = λ q. true;
  unlocked = λ q. true;
  connecting = λ q. true;
  request_irq = λ q. pos 0;
}

-- The interrupt of the second CQ, of queue 4, is not available.
abbrev irq_refused : Answers
irq_refused = record granted { request_irq = λ q. if q == 4 then negsuc 15 else pos 0 }

fresh-Fits : Fits 13 5
fresh-Fits = record { some_cq = omega arith; enough = omega arith; small = omega arith }

fresh-AllAttached : AllAttached fresh
fresh-AllAttached q positive below = absurd (omega (arith, positive, below))

fresh-IsClear : IsClear fresh
fresh-IsClear = record {
  cqes = λ q positive below. absurd (omega (arith, positive, below));
  cleared = refl;
  positive = omega arith;
  allocated = omega arith;
  small = omega arith;
}

stopped :
    let s = create_io_queues irq_refused fresh in
    (s.0 ≡ negsuc 15) × (s.1.online_queues ≡ 4) × (s.1.sqs 3 ≡ some 1) × (s.1.sqs 4 ≡ none)
unfolding create_io_queues attach_sq start_queue release_cq release_sq create_allocated create_from
    create_queue alloc_from alloc_queue nvmeq_has_cq get_cqid cqid_to_index min_no_extra_sq_cqid
stopped = (refl, refl, refl, refl)

-- The first CQ has vector 0, that of the admin queue, and no CQ has the last one.
vectors : let v = (create_io_queues granted fresh).1 in (v.cqs 1 ≡ some 0) × (v.cqs 12 ≡ some 4)
unfolding create_io_queues attach_sq start_queue release_cq release_sq create_allocated create_from
    create_queue alloc_from alloc_queue nvmeq_has_cq get_cqid cqid_to_index min_no_extra_sq_cqid
vectors = (refl, refl)

-- The controller refuses the SQ of queue 4, so that three queues are online.
abbrev sq_refused : Answers
sq_refused = record granted { alloc_sq = λ q. if q == 4 then pos 1 else pos 0 }

-- The device as nvme_setup_io_queues() tries again, when the queues are deleted: with the number of
-- queues that were online, and one CQ for each
abbrev retried : NvmeDev
retried = record (create_io_queues sq_refused fresh).1 {
  max_qid = 3;
  nr_cqs = 3;
  num_vecs = 4;
  online_queues = 1;
  cqs = λ q. none;
  sqs = λ q. none;
  enabled = λ q. q == 0;
  irqs = λ q. q == 0;
}

-- Queue 2 gets a CQ now, whose memory is not allocated, and is cleared all the same.
stale_cqes :
    let v = (create_io_queues granted retried).1 in
    (nvmeq_has_cq retried 2 ≡ true)
    × (v.cqes 2 ≡ false)
    × (v.cqs 2 ≡ some 1)
    × (v.null_cleared ≡ true)
unfolding create_io_queues attach_sq start_queue release_cq release_sq create_allocated create_from
    create_queue alloc_from alloc_queue nvmeq_has_cq get_cqid cqid_to_index min_no_extra_sq_cqid
stale_cqes = (refl, refl, refl, refl)

create_io_queues-Serves_example :
    let v = (create_io_queues irq_refused fresh).1 in
    IsClear v
    × (1 ≤ v.online_queues)
    × (v.online_queues ≤ 14)
    × AllAttached v
    × ((q : ℕ) → 1 ≤ q → q < v.online_queues → Serves fresh v q)
create_io_queues-Serves_example =
    create_io_queues-Serves irq_refused fresh fresh-Fits (omega arith) fresh-IsClear
      fresh-AllAttached

granted-Grants : (q : ℕ) → q < 14 → Grants granted q
granted-Grants q l = record {
  cqes = refl;
  sq_cmds = refl;
  cq = refl;
  sq = refl;
  unlocked = refl;
  connecting = refl;
  irq = refl;
}

create_io_queues-completes_example :
    let s = create_io_queues granted fresh in
    (s.0 ≡ pos 0)
    × (s.1.null_cleared ≡ false)
    × (s.1.online_queues ≡ 14)
    × ((q : ℕ) → 1 ≤ q → q ≤ 13 → Serves fresh s.1 q)
create_io_queues-completes_example =
    create_io_queues-completes granted fresh fresh-Fits (omega arith) (omega arith) refl
      fresh-IsClear fresh-AllAttached granted-Grants
