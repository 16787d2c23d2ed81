-- ===== src/Bringup/Tests.antt =====
-- A controller that grants 13 I/O queues, with six interrupt vectors.
use nvme_plus.Base.{
  ℕ, suc, ◌≤◌, ◌≡◌, ◌⊎◌, refl, ap, arith, Bool, true, false, none, some, [], ◌∷◌, ◌==◌,
  if◌then◌else◌,
}
use nvme_plus.Base.Run.{Run, ok, fault, Ends}
use nvme_plus.Base.Int.{ℤ, pos, negsuc}
use nvme_plus.Topology.{Fits, get_cqid, cqid_to_index, min_no_extra_sq_cqid}
use nvme_plus.Creation.{
  Answers, nvmeq_has_cq, alloc_queue, create_queue, alloc_from, create_from, create_allocated,
  create_io_queues, release_cq, release_sq, start_queue, attach_sq,
}
use nvme_plus.Creation.Grants.{Grants}
use nvme_plus.Creation.Attached.{Serves}
use nvme_plus.Creation.Counts.{Counts}
use nvme_plus.Suspend.{
  Deletes, send_from, delete_from, disable_io_queues, suspend_queue, suspend_from,
  suspend_io_queues,
}
use nvme_plus.Bringup.{
  Controller, Platform, calc_irq_sets, max_io_queues, setup_irqs, extraq_update_queues, remap_bar,
  remap_from, get_arbitration_burst,
}
use nvme_plus.Bringup.Retry.{
  start_over, after_creation, with_vectors, after_irqs, retry_from, map_doorbells, under_lock,
  setup_io_queues,
}
use nvme_plus.Bringup.Served.{VectorsWithin, setup_io_queues-Serves}

abbrev admin_only : Controller
admin_only = record {
  dev = record {
    max_qid = 0;
    nr_cqs = 0;
    num_vecs = 1;
    queue_count = 1;
    online_queues = 1;
    polls = false;
    cqes = λ q. q == 0;
    sq_cmds = λ q. q == 0;
    cqs = λ q. none;
    sqs = λ q. none;
    cq_vector = λ q. 0;
    enabled = λ q. q == 0;
    delete_error = λ q. false;
    irqs = λ q. q == 0;
    null_cleared = false;
  };
  nr_write_queues = 0;
  nr_poll_queues = 0;
  nr_allocated_queues = 6;
  nr_cpu_bound_queues = 0;
  io_default = 0;
  io_read = 0;
  io_poll = 0;
  bar_mapped_size = 8192;
  arbitration = 0;
  locked = false;
}

-- Each number of queues is tried with an SQ that the controller refuses, if it has so many queues.
abbrev answers : ℕ → Answers
answers refused = record {
  alloc_cqes = λ q. true;
  alloc_sq_cmds = λ q. true;
  alloc_cq = λ q. pos 0;
  alloc_sq = λ q. if q == refused then pos 1 else pos 0;
  deletes_sq = λ q. true;
  deletes_cq = λ q. true;
  unlocked = λ q. true;
  connecting = λ q. true;
  request_irq = λ q. pos 0;
}

abbrev deletes : Deletes
deletes = record { takes = λ q waited. true; completes = λ q. true; works = λ q. true }

abbrev platform : Bool → Platform
platform alloc_queues = record {
  write_queues = 0;
  poll_queues = 0;
  num_possible_cpus = 5;
  shared_tags = false;
  single_vector = false;
  set_queue_count = λ n. (pos 0, 13);
  unlocked = true;
  connecting = true;
  alloc_queues = alloc_queues;
  reg_dbs = 4096;
  db_stride = 4;
  resource_len = 16384;
  ioremap = λ size. true;
  turn = λ nr. record {
    nrirqs = 5 ∷ [];
    vectors = λ asked. pos asked;
    msix_count = some (pos 32);
    request_irq = pos 0;
    create = answers 4;
    deletes_sq = deletes;
    deletes_cq = deletes;
    unlocked = true;
    connecting = true;
  };
  get_arbitration = (pos 0, 7);
}

abbrev absolute : ℤ → ℕ
absolute (pos n) = n
absolute (negsuc n) = suc n

platform-VectorsWithin : VectorsWithin (platform true)
platform-VectorsWithin nr asked given e =
    let same : asked ≡ given = ap absolute e in omega (arith, same)

admin_only-Counts : Counts 65535 admin_only.dev
admin_only-Counts = record {
  enabled = λ q positive. ground (arith, positive);
  positive = omega arith;
  allocated = omega arith;
  bound = omega arith;
}

setup_io_queues-Serves_example :
    Ends
      (λ s.
        ((s.1.dev.null_cleared ≡ true)
          ⊎ (((s.1.locked ≡ false) ⊎ ((s.0 ≡ negsuc 11) × (true ≡ false)))
              × (s.0 ≡ pos 0
                  → 2 ≤ s.1.dev.online_queues
                  → (s.1.dev.online_queues ≡ suc s.1.dev.max_qid)
                    × (s.1.io_default ≡ s.1.dev.max_qid)
                    × Fits s.1.dev.max_qid s.1.dev.nr_cqs
                    × ((q : ℕ) → 1 ≤ q → q ≤ s.1.dev.max_qid → Serves s.1.dev s.1.dev q))))
        × (((nr q : ℕ) → Grants (answers 4) q)
            → admin_only.dev.queue_count ≡ 1
            → admin_only.dev.null_cleared ≡ false
            → s.1.dev.null_cleared ≡ false))
      (setup_io_queues (platform true) admin_only)
setup_io_queues-Serves_example =
    setup_io_queues-Serves (platform true) admin_only platform-VectorsWithin (omega arith) refl refl
      admin_only-Counts

-- The result, the number of queues online, max_qid and the lock
abbrev outcome : Run (ℤ × Controller) → ℤ × ℕ × ℕ × Bool
outcome (ok s) = (s.0, s.1.dev.online_queues, s.1.dev.max_qid, s.1.locked)
outcome fault = (pos 1, 0, 0, false)

abbrev cleared_null : Run (ℤ × Controller) → Bool
cleared_null (ok s) = s.1.dev.null_cleared
cleared_null fault = false

-- Three queues are online after the first turn, and the second one is made with these; it clears the memory
-- of a CQ that is not allocated.
with_fewer :
    let s = setup_io_queues (platform true) admin_only in
    (outcome s ≡ (pos 0, 4, 3, false)) × (cleared_null s ≡ true)
unfolding setup_io_queues under_lock map_doorbells retry_from after_irqs with_vectors after_creation
    start_over calc_irq_sets max_io_queues setup_irqs extraq_update_queues remap_bar remap_from
    get_arbitration_burst send_from delete_from disable_io_queues suspend_queue suspend_from
    suspend_io_queues create_io_queues attach_sq start_queue release_cq release_sq create_allocated
    create_from create_queue alloc_from alloc_queue nvmeq_has_cq get_cqid cqid_to_index
    min_no_extra_sq_cqid
with_fewer = (refl, refl)

-- Without memory for more queues the function returns and holds the lock.
lock_kept : outcome (setup_io_queues (platform false) admin_only) ≡ (negsuc 11, 1, 0, true)
unfolding setup_io_queues under_lock extraq_update_queues
lock_kept = refl
