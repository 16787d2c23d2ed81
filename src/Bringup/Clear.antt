-- ===== src/Bringup/Clear.antt =====
-- The first turn of nvme_setup_io_queues() of daredevil/drivers/nvme/host/pci.c where nothing fails: all
-- queues come online, so that it does not start over, and no memory is cleared that is not allocated.
use nvme_plus.Base.{
  ℕ, zero, suc, ◌-◌, ◌^◌, ◌≤◌, ◌<◌, ◌≡◌, arith, true, false, not, ◌||◌, ◌==◌, ltb, if◌then◌else◌,
  if_elim, ◌⊎◌,
}
use nvme_plus.Base.Run.{Run, Ends}
use nvme_plus.Base.Int.{ℤ, pos, negsuc}
use nvme_plus.Base.Words.{◌-u◌}
use nvme_plus.Regulator.{update}
use nvme_plus.Creation.{NvmeDev, is_zero, is_negative, setup_io_queues_trylock}
use nvme_plus.Creation.Grants.{Grants}
use nvme_plus.Creation.Memory.{IsClear, create_io_queues-IsClear}
use nvme_plus.Creation.Attached.{AllAttached}
use nvme_plus.Creation.Complete.{create_io_queues-all}
use nvme_plus.Bringup.{Controller, Platform, setup_irqs, extraq_update_queues, remap_from}
use nvme_plus.Bringup.Retry.{
  free_admin_irq, after_creation, with_vectors, after_irqs, retry_from, map_doorbells, under_lock,
  setup_io_queues,
}
use nvme_plus.Bringup.Turns.{get_arbitration_burst-keeps, calc_all-dev, remap_from-fewer}

-- Only the queue for admin commands is online and allocated, and nothing was cleared.
pub record IsBare (d : NvmeDev) : Type 0 where
  pub online : d.online_queues ≡ 1
  pub count : d.queue_count ≡ 1
  pub cleared : d.null_cleared ≡ false

abbrev pub NoneCleared : ℤ × Controller → Type 0
NoneCleared s = s.1.dev.null_cleared ≡ false

module _ (p : Platform) (grants : (nr q : ℕ) → Grants (p.turn nr).create q) where
  after_creation-clear :
      (nr : ℕ) (retry : ℕ → Controller → Run (ℤ × Controller)) (result : ℤ) (c : Controller)
      → c.dev.null_cleared ≡ false
      → c.dev.online_queues < 2 ^ 32
      → ((is_zero result ≡ false) ⊎ (c.dev.online_queues ≡ suc c.dev.max_qid))
      → Ends NoneCleared (after_creation p nr retry result c)
  unfolding after_creation
  after_creation-clear nr retry result c k small all =
      if_elim (Ends NoneCleared) (not (is_zero result) || ltb c.dev.online_queues 2) (λ e. k)
        (λ e.
          if_elim (Ends NoneCleared) (ltb (c.dev.online_queues -u 1) c.dev.max_qid)
            (λ l. absurd (ground (arith, all, small, e, l)))
            (λ l.
              let (dev, _, _) =
                get_arbitration_burst-keeps p
                  (record c { io_default = c.dev.online_queues -u 1 }) in
              rw dev k))

  with_vectors-clear :
      (nr n : ℕ) (retry : ℕ → Controller → Run (ℤ × Controller)) (c : Controller)
      → nr < 65535
      → IsBare c.dev
      → Ends NoneCleared (with_vectors p nr retry n c)
  unfolding with_vectors
  with_vectors-clear nr n retry c small bare =
      if_elim (Ends NoneCleared) (is_zero (p.turn nr).request_irq)
        (λ e.
          let a = (p.turn nr).create in
          let clear = create_io_queues-IsClear a ready (omega (arith, small)) bare_IsClear in
          after_creation-clear nr retry _ _ clear.cleared
            (omega (arith, clear.allocated, clear.small))
            (create_io_queues-all a ready (omega (arith, small)) (omega (arith, bare.online))
              (omega (arith, bare.count)) none_online (λ q l. grants nr q)))
        (λ e. bare.cleared)
    where
      ready : NvmeDev
      ready = record c.dev {
        num_vecs = n;
        nr_cqs = if ltb (n - 1) 1 then 1 else n - 1;
        max_qid = nr;
        enabled = update c.dev.enabled 0 true;
        irqs = update c.dev.irqs 0 true;
      }

      bare_IsClear : IsClear ready
      bare_IsClear = record {
        cqes = λ q positive below has. absurd (omega (arith, positive, below, bare.count));
        cleared = bare.cleared;
        positive = omega (arith, bare.online);
        allocated = omega (arith, bare.online, bare.count);
        small = omega (arith, bare.count);
      }

      none_online : AllAttached ready
      none_online q positive below = absurd (omega (arith, positive, below, bare.online))

  after_irqs-clear :
      (nr : ℕ) (retry : ℕ → Controller → Run (ℤ × Controller)) (result : ℤ) (c : Controller)
      → nr < 65535
      → IsBare c.dev
      → Ends NoneCleared (after_irqs p nr retry result c)
  unfolding after_irqs
  after_irqs-clear nr retry (negsuc n) c small bare = bare.cleared
  after_irqs-clear nr retry (pos zero) c small bare = bare.cleared
  after_irqs-clear nr retry (pos (suc n)) c small bare =
      with_vectors-clear nr (suc n) retry c small bare

  map_doorbells-clear :
      (nr : ℕ) (c : Controller)
      → nr < 65535
      → IsBare c.dev
      → Ends NoneCleared (map_doorbells p nr c)
  unfolding map_doorbells retry_from setup_irqs
  map_doorbells-clear nr c small bare =
      let s = remap_from p nr c in
      let (fewer, kept) = remap_from-fewer p nr c in
      let bare' : IsBare s.1.dev = rw kept bare in
      if_elim (Ends NoneCleared) (s.0 == 0) (λ e. bare'.cleared)
        (λ e. after_irqs-clear s.0 _ _ _ (omega (arith, fewer, small)) (
          rw (calc_all-dev (p.turn s.0).nrirqs _)
            (record { online = bare'.online; count = bare'.count; cleared = bare'.cleared })))

  extraq_update_queues-IsBare :
      (nr : ℕ) (c : Controller) → IsBare c.dev → IsBare (extraq_update_queues p nr c).1.dev
  unfolding extraq_update_queues
  extraq_update_queues-IsBare nr c bare =
      let online = bare.online in
      let count = bare.count in
      let cleared = bare.cleared in
      record { online = ground arith; count = ground arith; cleared = ground arith }

  under_lock-clear :
      (nr : ℕ) (c : Controller) → nr < 65535 → IsBare c.dev → Ends NoneCleared (under_lock p nr c)
  unfolding under_lock
  under_lock-clear nr c small bare =
      let held = free_admin_irq (record c { locked = true }) in
      let grown =
        extraq_update_queues-IsBare nr held
          (record { online = bare.online; count = bare.count; cleared = bare.cleared }) in
      if_elim (Ends NoneCleared) (not (is_zero (setup_io_queues_trylock p.unlocked p.connecting)))
        (λ e. bare.cleared)
        (λ e.
          if_elim (Ends NoneCleared) (is_zero (extraq_update_queues p nr held).0)
            (λ z. map_doorbells-clear nr _ small grown) (λ z. grown.cleared))

  pub setup_io_queues-clear :
      (c : Controller)
      → (p.set_queue_count 65534).1 ≤ 65534
      → IsBare c.dev
      → Ends NoneCleared (setup_io_queues p c)
  unfolding setup_io_queues
  setup_io_queues-clear c asked bare =
      if_elim (Ends NoneCleared) (is_negative (p.set_queue_count 65534).0) (λ e. bare.cleared)
        (λ e.
          if_elim (Ends NoneCleared) ((p.set_queue_count 65534).1 == 0) (λ z. bare.cleared)
            (λ z.
              under_lock-clear _ _ (omega (arith, asked))
                (record { online = bare.online; count = bare.count; cleared = bare.cleared })))
