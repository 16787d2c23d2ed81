-- ===== src/Bringup/Served.antt =====
-- What nvme_setup_io_queues() of daredevil/drivers/nvme/host/pci.c brings about.
use nvme_plus.Base.{
  ℕ, zero, suc, ◌≤◌, ◌<◌, ◌≡◌, ◌∙◌, refl, arith, true, false, not, Option, none, some, ◌==◌, leb,
  min, if◌then◌else◌, if_elim, ◌⊎◌, inl, inr,
}
use nvme_plus.Base.Run.{Run, ok, fault, Ends, Ends-map}
use nvme_plus.Base.Int.{ℤ, pos, negsuc}
use nvme_plus.Base.Words.{◌+u◌, ◌-u◌}
use nvme_plus.Topology.{Fits}
use nvme_plus.Creation.{NvmeDev, is_zero, is_negative, setup_io_queues_trylock}
use nvme_plus.Creation.Grants.{Grants}
use nvme_plus.Creation.Attached.{Serves}
use nvme_plus.Creation.Counts.{Counts}
use nvme_plus.Bringup.{
  Controller, Platform, max_io_queues, setup_irqs, extraq_update_queues, remap_from,
}
use nvme_plus.Bringup.Retry.{free_admin_irq, retry_from, map_doorbells, under_lock, setup_io_queues}
use nvme_plus.Bringup.Clear.{NoneCleared, setup_io_queues-clear}
use nvme_plus.Bringup.Turns.{
  Good, Alone, fails, calc_all-dev, remap_from-fewer, out_unlock-Good, after_irqs-Good,
}

-- pci_alloc_irq_vectors_affinity() gives at most the number of vectors that it is asked for.
abbrev pub VectorsWithin : Platform → Type 0
VectorsWithin p = (nr asked given : ℕ) → (p.turn nr).vectors asked ≡ pos given → given ≤ asked

Alone-move :
    (d v : NvmeDev)
    → v.online_queues ≡ d.online_queues
    → v.queue_count ≡ d.queue_count
    → ((q : ℕ) → 1 ≤ q → v.enabled q ≡ d.enabled q)
    → Alone d
    → Alone v
Alone-move d v online count enabled alone = record {
  counts = record {
    enabled = λ q positive. rw online (enabled q positive ∙ alone.counts.enabled q positive);
    positive = omega (arith, online, alone.one);
    allocated = omega (arith, online, count, alone.counts.allocated);
    bound = omega (arith, count, alone.counts.bound);
  };
  one = online ∙ alone.one;
}

free_admin_irq-Alone : (c : Controller) → Alone c.dev → Alone (free_admin_irq c).dev
free_admin_irq-Alone c = Alone-move _ _ refl refl (λ q positive. ground (arith, positive))

setup_irqs-Alone :
    (p : Platform) (nr : ℕ) (c : Controller) → Alone c.dev → Alone (setup_irqs p nr c).1.dev
unfolding setup_irqs
setup_irqs-Alone p nr c alone =
    rw (calc_all-dev (p.turn nr).nrirqs _) (Alone-move c.dev _ refl refl (λ q positive. refl) alone)

setup_irqs-within :
    (p : Platform) (nr : ℕ) (c : Controller)
    → VectorsWithin p
    → 1 ≤ nr
    → nr < 65535
    → (k : ℕ) → (setup_irqs p nr c).0 ≡ pos k
    → k ≤ suc nr
unfolding setup_irqs
setup_irqs-within p nr c vectors positive small k = go (p.turn nr).msix_count
  where
    poll : ℕ
    poll = min c.nr_poll_queues (nr -u 1)

    irq_queues : ℕ
    irq_queues = if p.single_vector then 1 else 1 +u (nr -u poll)

    few : irq_queues ≤ suc nr
    few = ground (arith, positive, small)

    asked : ℕ
    asked = min irq_queues (max_io_queues p c +u 1)

    given : (p.turn nr).vectors asked ≡ pos k → k ≤ suc nr
    given e = let l = vectors nr asked k e in ground (arith, l, few)

    go :
        (m : Option ℤ)
        → (elim m [
          | none ↦ (p.turn nr).vectors asked
          | some size ↦ if is_negative size then size else (p.turn nr).vectors asked
        ])
          ≡ pos k
        → k ≤ suc nr
    go none e = given e
    go (some (pos n)) e = given e
    go (some (negsuc n)) e = absurd (cc)

retry_from-Good :
    (p : Platform) (fuel nr : ℕ) (c : Controller)
    → VectorsWithin p
    → nr < fuel
    → 1 ≤ nr
    → nr < 65535
    → Alone c.dev
    → Ends (Good p) (retry_from p fuel nr c)
unfolding retry_from
retry_from-Good p zero nr c vectors b positive small alone = absurd (omega (arith, b))
retry_from-Good p (suc fuel) nr c vectors b positive small alone =
    after_irqs-Good p nr (retry_from p fuel) _ _ positive small
      (setup_irqs-within p nr (free_admin_irq c) vectors positive small)
      (setup_irqs-Alone p nr (free_admin_irq c) (free_admin_irq-Alone c alone))
      (λ m v some_left below rest.
        retry_from-Good p fuel m v vectors (omega (arith, b, below)) some_left
          (omega (arith, below, small)) rest)

map_doorbells-Good :
    (p : Platform) (nr : ℕ) (c : Controller)
    → VectorsWithin p
    → nr < 65535
    → Alone c.dev
    → Ends (Good p) (map_doorbells p nr c)
unfolding map_doorbells
map_doorbells-Good p nr c vectors small alone =
    let s = remap_from p nr c in
    let (fewer, kept) = remap_from-fewer p nr c in
    if_elim (Ends (Good p)) (s.0 == 0) (λ e. out_unlock-Good p _ s.1 (λ z. absurd (cc)))
      (λ e.
        retry_from-Good p (suc s.0) s.0 s.1 vectors (omega arith) (ground (arith, e))
          (omega (arith, fewer, small)) (rw kept alone))

extraq_update_queues-Alone :
    (p : Platform) (nr : ℕ) (c : Controller)
    → Alone c.dev
    → let s = extraq_update_queues p nr c in
      Alone s.1.dev × (is_zero s.0 ≡ false → (s.0 ≡ negsuc 11) × (p.alloc_queues ≡ false))
unfolding extraq_update_queues
extraq_update_queues-Alone p nr c alone =
    if_elim {A = ℤ × Controller}
      (λ s. Alone s.1.dev × (is_zero s.0 ≡ false → (s.0 ≡ negsuc 11) × (p.alloc_queues ≡ false)))
      (leb nr (c.nr_allocated_queues -u 1)) (λ e. (alone, λ z. absurd (cc)))
      (λ e.
        if_elim {A = ℤ × Controller}
          (λ s.
            Alone s.1.dev × (is_zero s.0 ≡ false → (s.0 ≡ negsuc 11) × (p.alloc_queues ≡ false)))
          p.alloc_queues
          (λ a. (
            Alone-move c.dev _ refl refl
                (λ q positive.
                  let k = alone.counts.enabled q positive in ground (arith, positive, k, alone.one))
                alone,
            λ z. absurd (cc),
          ))
          (λ a. (alone, λ z. (refl, a))))

under_lock-Good :
    (p : Platform) (nr : ℕ) (c : Controller)
    → VectorsWithin p
    → nr < 65535
    → c.locked ≡ false
    → Alone c.dev
    → Ends (Good p) (under_lock p nr c)
unfolding under_lock
under_lock-Good p nr c vectors small unlocked alone =
    let held = free_admin_irq (record c { locked = true }) in
    let (grown, refused) =
      extraq_update_queues-Alone p nr held
        (free_admin_irq-Alone (record c { locked = true }) alone) in
    if_elim (Ends (Good p)) (not (is_zero (setup_io_queues_trylock p.unlocked p.connecting)))
      (λ e. (inl unlocked, λ z b. absurd (omega (arith, b, alone.one))))
      (λ e.
        if_elim (Ends (Good p)) (is_zero (extraq_update_queues p nr held).0)
          (λ z. map_doorbells-Good p nr _ vectors small grown)
          (λ z. (inr (refused z), λ k. absurd (fails _ z k))))

setup_io_queues-Good :
    (p : Platform) (c : Controller)
    → VectorsWithin p
    → (p.set_queue_count 65534).1 ≤ 65534
    → c.locked ≡ false
    → c.dev.online_queues ≡ 1
    → Counts 65535 c.dev
    → Ends (Good p) (setup_io_queues p c)
unfolding setup_io_queues
setup_io_queues-Good p c vectors asked unlocked one counts =
    (if_elim (Ends (Good p)) (is_negative (p.set_queue_count 65534).0) (λ e. idle _)
      (λ e.
        if_elim (Ends (Good p)) ((p.set_queue_count 65534).1 == 0) (λ z. idle _)
          (λ z.
            under_lock-Good p _ _ vectors (omega (arith, asked)) unlocked
              (record { counts = counts; one = one }))))
  where
    v : Controller
    v = record c { nr_write_queues = p.write_queues; nr_poll_queues = p.poll_queues }

    idle : (ret : ℤ) → Good p (ret, record v { nr_cpu_bound_queues = max_io_queues p v })
    idle ret = (inl unlocked, λ z b. absurd (omega (arith, b, one)))

-- What holds under conditions of the value that a call ends with
Ends-also :
    (P Q : ℤ × Controller → Type 0) {A B C : Type 0} (m : Run (ℤ × Controller))
    → Ends P m
    → (A → B → C → Ends Q m)
    → Ends (λ s. P s × (A → B → C → Q s)) m
Ends-also P Q (ok s) e k = (e, k)
Ends-also P Q fault e k = e

-- Where the core gives at most the vectors it is asked for and the device at most the queues it is asked
-- for, the lock is free, only the queue for admin commands is online, and the I/O queues enabled are those
-- that are counted, which are at most 65535 and allocated: nvme_setup_io_queues() ends, however often it
-- starts over with fewer queues, provided that it clears no memory of a CQ that is not allocated, where the
-- kernel stops: it may on starting over, but does not where only the queue for admin commands is allocated
-- and nothing fails that is asked for a queue. The lock is free then, unless it fails with -ENOMEM as the
-- memory of more queues was not to be had. If it returns 0 and an I/O queue is online, then all up to max_qid are online
-- and are counted as default queues, there is at least one NCQ and at most one for each NQ, and each I/O
-- queue is enabled and has its SQ at the CQ of its group, which exists, has the vector that is computed
-- for it, and whose interrupt is requested.
pub setup_io_queues-Serves :
    (p : Platform) (c : Controller)
    → VectorsWithin p
    → (p.set_queue_count 65534).1 ≤ 65534
    → c.locked ≡ false
    → c.dev.online_queues ≡ 1
    → Counts 65535 c.dev
    → Ends
        (λ s.
          ((s.1.dev.null_cleared ≡ true)
            ⊎ (((s.1.locked ≡ false) ⊎ ((s.0 ≡ negsuc 11) × (p.alloc_queues ≡ false)))
                × (s.0 ≡ pos 0
                    → 2 ≤ s.1.dev.online_queues
                    → (s.1.dev.online_queues ≡ suc s.1.dev.max_qid)
                      × (s.1.io_default ≡ s.1.dev.max_qid)
                      × Fits s.1.dev.max_qid s.1.dev.nr_cqs
                      × ((q : ℕ) → 1 ≤ q → q ≤ s.1.dev.max_qid → Serves s.1.dev s.1.dev q))))
          × (((nr q : ℕ) → Grants (p.turn nr).create q)
              → c.dev.queue_count ≡ 1
              → c.dev.null_cleared ≡ false
              → s.1.dev.null_cleared ≡ false))
        (setup_io_queues p c)
setup_io_queues-Serves p c vectors asked unlocked one counts =
    Ends-also _ NoneCleared (setup_io_queues p c)
      (Ends-map (Good p) _ _ (setup_io_queues-Good p c vectors asked unlocked one counts)
        (λ s g. inr (g.0, λ z b. let f = g.1 z b in (f.online, f.counted, f.fits, f.serves))))
      (λ grants count cleared.
        setup_io_queues-clear p grants c asked
          (record { online = one; count = count; cleared = cleared }))
