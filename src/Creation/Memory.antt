-- ===== src/Creation/Memory.antt =====
-- The memory of the CQs under nvme_blex_create_io_queues() of daredevil/drivers/nvme/host/pci.c: where the
-- queues that are allocated have theirs, none is cleared without being allocated.
use nvme_plus.Base.{
  ℕ, zero, suc, ◌+◌, ◌-◌, ◌^◌, ◌≤◌, ◌<◌, ◌≡◌, ◌∙◌, refl, sym, subst, arith, true, false, min,
  if◌then◌else◌, if_elim,
}
use nvme_plus.Base.Int.{ℤ, pos, negsuc}
use nvme_plus.Base.Words.{◌-u◌}
use nvme_plus.Regulator.{update}
use nvme_plus.Creation.{
  NvmeDev, Answers, is_zero, is_negative, nvmeq_has_cq, alloc_queue, create_queue, release_cq,
  release_sq, start_queue, attach_sq, setup_io_queues_trylock, alloc_from, create_from,
  create_allocated, create_io_queues,
}
use nvme_plus.Creation.Keeps.{create_queue-Same}
use nvme_plus.Creation.Step.{create_queue-online, one_more}

-- The I/O queues that are allocated and have a CQ have the memory for it.
abbrev pub HasCqes : NvmeDev → Type 0
HasCqes d = (q : ℕ) → 1 ≤ q → q < d.queue_count → nvmeq_has_cq d q ≡ true → d.cqes q ≡ true

-- What a turn leaves of the memory
pub record KeepsMemory (d v : NvmeDev) : Type 0 where
  pub cqes : v.cqes ≡ d.cqes
  pub queue_count : v.queue_count ≡ d.queue_count
  pub cleared : v.null_cleared ≡ d.null_cleared

module _ (a : Answers) (qid : ℕ) where
  release_cq-KeepsMemory : (d : NvmeDev) → KeepsMemory d (release_cq a qid d)
  unfolding release_cq
  release_cq-KeepsMemory d = record {
    cqes = ground arith;
    queue_count = ground arith;
    cleared = ground arith;
  }

  start_queue-KeepsMemory :
      (d : NvmeDev)
      → (nvmeq_has_cq d qid ≡ true → d.cqes qid ≡ true)
      → KeepsMemory d (start_queue a qid d).1
  unfolding start_queue release_sq release_cq
  start_queue-KeepsMemory d h = record {
    cqes = ground arith;
    queue_count = ground arith;
    cleared = ground (arith, h);
  }

  attach_sq-KeepsMemory :
      (vector : ℕ) (d : NvmeDev)
      → (nvmeq_has_cq d qid ≡ true → d.cqes qid ≡ true)
      → KeepsMemory d (attach_sq a qid vector d).1
  unfolding attach_sq nvmeq_has_cq
  attach_sq-KeepsMemory vector d h =
      if_elim {A = ℤ × NvmeDev} (λ s. KeepsMemory d s.1) (is_negative (a.alloc_sq qid))
        (λ e. record { cqes = refl; queue_count = refl; cleared = refl })
        (λ e.
          if_elim {A = ℤ × NvmeDev} (λ s. KeepsMemory d s.1) (is_zero (a.alloc_sq qid))
            (λ z.
              if_elim {A = ℤ × NvmeDev} (λ s. KeepsMemory d s.1)
                (is_zero (setup_io_queues_trylock (a.unlocked qid) (a.connecting qid)))
                (λ l.
                  let t = start_queue-KeepsMemory _ h in
                  record { cqes = t.cqes; queue_count = t.queue_count; cleared = t.cleared })
                (λ l. record { cqes = refl; queue_count = refl; cleared = refl }))
            (λ z. release_cq-KeepsMemory d))

  create_queue-KeepsMemory :
      (d : NvmeDev)
      → (nvmeq_has_cq d qid ≡ true → d.cqes qid ≡ true)
      → KeepsMemory d (create_queue a qid false d).1
  unfolding create_queue nvmeq_has_cq
  create_queue-KeepsMemory d h =
      if_elim {A = ℤ × NvmeDev} (λ s. KeepsMemory d s.1)
        (nvmeq_has_cq (record d { delete_error = update d.delete_error qid false }) qid)
        (λ has.
          if_elim {A = ℤ × NvmeDev} (λ s. KeepsMemory d s.1) (is_zero (a.alloc_cq qid))
            (λ z.
              let t = attach_sq-KeepsMemory _ _ h in
              record { cqes = t.cqes; queue_count = t.queue_count; cleared = t.cleared })
            (λ z. record { cqes = refl; queue_count = refl; cleared = refl }))
        (λ has.
          let t = attach_sq-KeepsMemory 0 _ h in
          record { cqes = t.cqes; queue_count = t.queue_count; cleared = t.cleared })

-- No memory of a CQ was cleared that is not allocated, and none will be: the queues that are online are
-- allocated, and those that are allocated have the memory for their CQs.
pub record IsClear (d : NvmeDev) : Type 0 where
  pub cqes : HasCqes d
  pub cleared : d.null_cleared ≡ false
  pub positive : 1 ≤ d.online_queues
  pub allocated : d.online_queues ≤ d.queue_count
  pub small : d.queue_count < 2 ^ 32

-- The queue after the last one is allocated with the memory for its CQ.
alloc_queue-IsClear :
    (a : Answers) (d : NvmeDev)
    → d.queue_count + 1 < 2 ^ 32
    → IsClear d
    → let s = alloc_queue a d.queue_count d in
      IsClear s.1 × (is_zero s.0 ≡ true → s.1.queue_count ≡ suc d.queue_count)
unfolding alloc_queue nvmeq_has_cq
alloc_queue-IsClear a d small h = (
  record {
    cqes = λ q positive below has. let k = h.cqes q positive in ground (arith, small, k);
    cleared = let c = h.cleared in ground arith;
    positive = let p = h.positive in ground arith;
    allocated = let p = h.allocated in ground (arith, small);
    small = let p = h.small in ground (arith, small);
  },
  λ z. ground (arith, small),
)

alloc_from-IsClear :
    (a : Answers) (n i : ℕ) (ret : ℤ) (d : NvmeDev)
    → i ≡ d.queue_count
    → i + n < 2 ^ 32
    → IsClear d
    → IsClear (alloc_from a n i ret d).1
unfolding alloc_from
alloc_from-IsClear a zero i ret d e b h = h
alloc_from-IsClear a (suc n) i ret d e b h =
    subst (λ j. IsClear (alloc_from a (suc n) j ret d).1) (sym e)
      (if_elim {x = alloc_from a n (suc d.queue_count) ret s.1} {y = (negsuc 11, s.1)}
        (λ t. IsClear t.1) (is_zero s.0)
        (λ z. alloc_from-IsClear a n _ ret s.1 (sym (one.1 z)) (omega (arith, e, b)) one.0)
        (λ z. one.0))
  where
    s : ℤ × NvmeDev
    s = alloc_queue a d.queue_count d

    one : IsClear s.1 × (is_zero s.0 ≡ true → s.1.queue_count ≡ suc d.queue_count)
    one = alloc_queue-IsClear a d (omega (arith, e, b)) h

create_queue-IsClear :
    (a : Answers) (d : NvmeDev)
    → d.online_queues < d.queue_count
    → IsClear d
    → let s = create_queue a d.online_queues false d in
      IsClear s.1 × (s.1.queue_count ≡ d.queue_count)
unfolding nvmeq_has_cq
create_queue-IsClear a d b h =
    let k = create_queue-KeepsMemory a d.online_queues d (h.cqes d.online_queues h.positive b) in
    let online = create_queue-online a d.online_queues d (omega (arith, b, h.small)) in
    let same = create_queue-Same a d.online_queues d in
    (
      record {
        cqes = λ q positive below has. rw k.cqes (
            h.cqes q positive (omega (arith, below, k.queue_count))
              (rw (same.max_qid, same.nr_cqs) at has));
        cleared = k.cleared ∙ h.cleared;
        positive = grind (arith, online, h.positive);
        allocated = grind (arith, online, b, k.queue_count);
        small = omega (arith, k.queue_count, h.small);
      },
      k.queue_count,
    )

create_from-IsClear :
    (a : Answers) (n i : ℕ) (ret : ℤ) (d : NvmeDev)
    → i ≡ d.online_queues
    → i + n ≤ d.queue_count
    → IsClear d
    → IsClear (create_from a n i ret d).1
unfolding create_from
create_from-IsClear a zero i ret d e b h = h
create_from-IsClear a (suc n) i ret d e b h =
    subst (λ j. IsClear (create_from a (suc n) j ret d).1) (sym e)
      (if_elim {x = create_from a n (suc d.online_queues) s.0 s.1} {y = s} (λ t. IsClear t.1)
        (is_zero s.0)
        (λ z.
          create_from-IsClear a n _ s.0 s.1 (one_more a d (omega (arith, e, b, h.small)) z)
            (omega (arith, e, b, one.1)) one.0)
        (λ z. one.0))
  where
    s : ℤ × NvmeDev
    s = create_queue a d.online_queues false d

    one : IsClear s.1 × (s.1.queue_count ≡ d.queue_count)
    one = create_queue-IsClear a d (omega (arith, e, b)) h

create_allocated-IsClear :
    (a : Answers) (ret : ℤ) (d : NvmeDev) → IsClear d → IsClear (create_allocated a ret d).1
unfolding create_allocated
create_allocated-IsClear a ret d h =
    if_elim {A = ℤ × NvmeDev} {x = (negsuc 0, d)}
      {y = (if is_negative s.0 then s.0 else pos 0, s.1)} (λ t. IsClear t.1) d.polls (λ p. h)
      (λ p.
        create_from-IsClear a _ d.online_queues ret d refl
          (ground (arith, h.positive, h.allocated, h.small)) h)
  where
    s : ℤ × NvmeDev
    s =
        create_from a (suc (min d.max_qid (d.queue_count -u 1)) - d.online_queues) d.online_queues
          ret d

pub create_io_queues-IsClear :
    (a : Answers) (d : NvmeDev)
    → suc d.max_qid < 2 ^ 32
    → IsClear d
    → IsClear (create_io_queues a d).1
unfolding create_io_queues
create_io_queues-IsClear a d small h = create_allocated-IsClear a _ _ (
    alloc_from-IsClear a (suc d.max_qid - d.queue_count) d.queue_count (pos 0) d refl
      (omega (arith, small, h.small)) h)
