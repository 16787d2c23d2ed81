-- ===== src/Creation/Attached.antt =====
-- What nvme_blex_create_io_queues() of daredevil/drivers/nvme/host/pci.c brings about.
use nvme_plus.Base.{
  ℕ, zero, suc, ◌+◌, ◌-◌, ◌^◌, ◌≤◌, ◌<◌, ◌≡◌, refl, sym, subst, arith, true, false, some,
  if◌then◌else◌, if_elim, ◌⊎◌, inl, inr, min,
}
use nvme_plus.Base.Words.{◌-u◌}
use nvme_plus.Base.Int.{ℤ, pos, negsuc}
use nvme_plus.Topology.{Fits, get_cqid}
use nvme_plus.Topology.Tiling.{get_cqid-owns}
use nvme_plus.Creation.{
  NvmeDev, Answers, is_zero, is_negative, nvmeq_has_cq, alloc_queue, create_queue, vector_of,
  alloc_from, create_from, create_allocated, create_io_queues,
}
use nvme_plus.Creation.Keeps.{
  Same, Same-trans, Same-refl, create_queue-Same, create_queue-Elsewhere, alloc_queue-Same,
  alloc_queue-created,
}
use nvme_plus.Creation.Memory.{IsClear, create_io_queues-IsClear}
use nvme_plus.Creation.Step.{
  IsAttached, IsAttached-move, create_queue-online, create_queue-Turn, one_more,
}

-- Every I/O queue that is counted as online is attached.
abbrev pub AllAttached : NvmeDev → Type 0
AllAttached d = (q : ℕ) → 1 ≤ q → q < d.online_queues → IsAttached d q

-- The devices differ in their settings at most by more queues online, up to `end`, and all are attached.
pub record Grows (end : ℕ) (d v : NvmeDev) : Type 0 where
  pub same : Same d v
  pub more : d.online_queues ≤ v.online_queues
  pub bound : v.online_queues ≤ end
  pub attached : AllAttached v

Grows-then : {end : ℕ} {d v w : NvmeDev} → Grows end d v → Grows end v w → Grows end d w
Grows-then g h = record {
  same = Same-trans g.same h.same;
  more = omega (arith, g.more, h.more);
  bound = h.bound;
  attached = h.attached;
}

alloc_queue-Grows :
    (a : Answers) (qid end : ℕ) (d : NvmeDev)
    → d.online_queues ≤ end
    → AllAttached d
    → Grows end d (alloc_queue a qid d).1
alloc_queue-Grows a qid end d b h =
    let (online, rest) = alloc_queue-created a qid d in
    let same = alloc_queue-Same a qid d in
    record {
      same = same;
      more = omega (arith, online);
      bound = omega (arith, online, b);
      attached = λ q some below.
          IsAttached-move d _ q same (rest q) (h q some (omega (arith, online, below)));
    }

pub alloc_from-Grows :
    (a : Answers) (n i end : ℕ) (ret : ℤ) (d : NvmeDev)
    → d.online_queues ≤ end
    → AllAttached d
    → Grows end d (alloc_from a n i ret d).1
unfolding alloc_from
alloc_from-Grows a zero i end ret d b h = record {
  same = Same-refl d;
  more = omega arith;
  bound = b;
  attached = h;
}
alloc_from-Grows a (suc n) i end ret d b h =
    let g = alloc_queue-Grows a i end d b h in
    if_elim {x = alloc_from a n (suc i) ret (alloc_queue a i d).1}
      {y = (negsuc 11, (alloc_queue a i d).1)} (λ s. Grows end d s.1)
      (is_zero (alloc_queue a i d).0)
      (λ e. Grows-then g (alloc_from-Grows a n (suc i) end ret _ g.bound g.attached)) (λ e. g)

create_queue-AllAttached :
    (a : Answers) (d : NvmeDev)
    → d.online_queues + 1 < 2 ^ 32
    → AllAttached d
    → AllAttached (create_queue a d.online_queues false d).1
create_queue-AllAttached a d b h q positive below = elim (create_queue-Turn a d.online_queues d b) [
  | inl c ↦ kept (omega (arith, below, c.0))
  | inr c ↦ elim (split (omega (arith, below, c.0))) [
    | inl e ↦ subst (IsAttached (create_queue a d.online_queues false d).1) (sym e) c.1
    | inr l ↦ kept l
  ]
]
  where
    kept : q < d.online_queues → IsAttached (create_queue a d.online_queues false d).1 q
    kept l =
        IsAttached-move d _ q (create_queue-Same a d.online_queues d)
          (create_queue-Elsewhere a d.online_queues d q (λ e. omega (arith, l, e))) (h q positive l)

    split : q < suc d.online_queues → (q ≡ d.online_queues) ⊎ (q < d.online_queues)
    split l = ground (arith, l)

create_queue-Grows :
    (a : Answers) (end : ℕ) (d : NvmeDev)
    → suc d.online_queues ≤ end
    → end < 2 ^ 32
    → AllAttached d
    → Grows end d (create_queue a d.online_queues false d).1
create_queue-Grows a end d b small h =
    let online = create_queue-online a d.online_queues d (omega (arith, b, small)) in
    record {
      same = create_queue-Same a d.online_queues d;
      more = grind (arith, online);
      bound = grind (arith, online, b);
      attached = create_queue-AllAttached a d (omega (arith, b, small)) h;
    }

create_from-Grows :
    (a : Answers) (n i end : ℕ) (ret : ℤ) (d : NvmeDev)
    → i ≡ d.online_queues
    → i + n ≤ end
    → end < 2 ^ 32
    → AllAttached d
    → Grows end d (create_from a n i ret d).1
unfolding create_from
create_from-Grows a zero i end ret d e b small h = record {
  same = Same-refl d;
  more = omega arith;
  bound = omega (arith, e, b);
  attached = h;
}
create_from-Grows a (suc n) i end ret d e b small h =
    subst (λ j. Grows end d (create_from a (suc n) j ret d).1) (sym e)
      (if_elim {x = create_from a n (suc d.online_queues) s.0 s.1} {y = s} (λ t. Grows end d t.1)
        (is_zero s.0)
        (λ z. Grows-then g (
          create_from-Grows a n _ end s.0 s.1 (one_more a d (omega (arith, e, b, small)) z)
            (omega (arith, e, b)) small g.attached))
        (λ z. g))
  where
    s : ℤ × NvmeDev
    s = create_queue a d.online_queues false d

    g : Grows end d s.1
    g = create_queue-Grows a end d (omega (arith, e, b)) small h

create_allocated-Grows :
    (a : Answers) (end : ℕ) (ret : ℤ) (d : NvmeDev)
    → suc d.max_qid ≤ end
    → d.online_queues ≤ end
    → end < 2 ^ 32
    → AllAttached d
    → Grows end d (create_allocated a ret d).1
unfolding create_allocated
create_allocated-Grows a end ret d b o small h =
    if_elim {A = ℤ × NvmeDev} {x = (negsuc 0, d)}
      {y = (if is_negative s.0 then s.0 else pos 0, s.1)} (λ t. Grows end d t.1) d.polls
      (λ p. record { same = Same-refl d; more = omega arith; bound = o; attached = h })
      (λ p. create_from-Grows a _ d.online_queues end ret d refl (ground (arith, b, o)) small h)
  where
    s : ℤ × NvmeDev
    s =
        create_from a (suc (min d.max_qid (d.queue_count -u 1)) - d.online_queues) d.online_queues
          ret d

pub create_io_queues-Grows :
    (a : Answers) (d : NvmeDev)
    → suc d.max_qid < 2 ^ 32
    → d.online_queues ≤ suc d.max_qid
    → AllAttached d
    → Grows (suc d.max_qid) d (create_io_queues a d).1
unfolding create_io_queues
create_io_queues-Grows a d small o h =
    let g =
      alloc_from-Grows a (suc d.max_qid - d.queue_count) d.queue_count (suc d.max_qid) (pos 0) d o
        h in
    Grows-then g (
      create_allocated-Grows a (suc d.max_qid) _ _ (omega (arith, g.same.max_qid)) g.bound small
        g.attached)

-- In `v`, queue `q` of device `d` is enabled and has its SQ at the CQ of its group, which exists, has the
-- vector that is computed for it, and whose interrupt is requested.
abbrev pub Serves : NvmeDev → NvmeDev → ℕ → Type 0
Serves d v q =
    let cqid = get_cqid q d.max_qid d.nr_cqs in
    (v.enabled q ≡ true)
    × (v.sqs q ≡ some cqid)
    × (v.cqs cqid ≡ some (vector_of d cqid))
    × (v.irqs cqid ≡ true)

pub AllAttached-Serves :
    (d v : NvmeDev) (q : ℕ)
    → Fits d.max_qid d.nr_cqs
    → Same d v
    → v.online_queues ≤ suc d.max_qid
    → AllAttached v
    → 1 ≤ q
    → q < v.online_queues
    → Serves d v q
unfolding nvmeq_has_cq
AllAttached-Serves d v q fits same bound h positive below =
    let (some_cq, before, after, own, index, kth) =
      get_cqid-owns fits q positive (omega (arith, below, bound)) in
    let at = h q positive below in
    let at_cq = h (get_cqid q d.max_qid d.nr_cqs) some_cq (omega (arith, before, below)) in
    (
      at.enabled,
      ground (arith, at.sq, same.max_qid, same.nr_cqs),
      ground (arith, at_cq.cq, own, same.max_qid, same.nr_cqs, same.num_vecs),
      ground (arith, at_cq.irq, own, same.max_qid, same.nr_cqs),
    )

-- Where every I/O queue that is online is attached, the queues online are allocated, and each queue that is
-- allocated and has a CQ has the memory for it, nvme_blex_create_io_queues() clears no memory that is not
-- allocated, and brings the device, whatever the allocations, the device and the core answer, to a state
-- where all that holds again: the number
-- of queues online has not fallen and is at most max_qid + 1, and each I/O queue online, of the old and
-- the new ones, is enabled and has its SQ at the CQ of its group, which exists, has the vector that is
-- computed for it, and whose interrupt is requested. The conditions are that the device has at least
-- one NCQ and at most as many as NQs, fewer than 2^32 - 1, that at most max_qid + 1 queues are online
-- before, at least that for admin commands, and that fewer than 2^32 are allocated.
pub create_io_queues-Serves :
    (a : Answers) (d : NvmeDev)
    → Fits d.max_qid d.nr_cqs
    → d.online_queues ≤ suc d.max_qid
    → IsClear d
    → AllAttached d
    → let v = (create_io_queues a d).1 in
      IsClear v
      × (d.online_queues ≤ v.online_queues)
      × (v.online_queues ≤ suc d.max_qid)
      × AllAttached v
      × ((q : ℕ) → 1 ≤ q → q < v.online_queues → Serves d v q)
create_io_queues-Serves a d fits o c h =
    let g = create_io_queues-Grows a d (omega (arith, fits.small)) o h in
    (
      create_io_queues-IsClear a d (omega (arith, fits.small)) c,
      g.more,
      g.bound,
      g.attached,
      λ q. AllAttached-Serves d _ q fits g.same g.bound g.attached,
    )
