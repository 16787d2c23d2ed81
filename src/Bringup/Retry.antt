-- ===== src/Bringup/Retry.antt =====
-- The turns of nvme_setup_io_queues() of daredevil/drivers/nvme/host/pci.c, and the function itself.
use nvme_plus.Base.{ℕ, zero, suc, ◌-◌, true, false, not, ◌||◌, ◌==◌, ltb, if◌then◌else◌}
use nvme_plus.Base.Run.{Run, ok, fault}
use nvme_plus.Base.Int.{ℤ, pos, negsuc}
use nvme_plus.Base.Words.{◌-u◌}
use nvme_plus.Regulator.{update}
use nvme_plus.Creation.{is_zero, is_negative, setup_io_queues_trylock, create_io_queues}
use nvme_plus.Suspend.{disable_io_queues, suspend_io_queues}
use nvme_plus.Bringup.{
  Controller, Platform, max_io_queues, setup_irqs, extraq_update_queues, remap_from,
  get_arbitration_burst,
}

-- The interrupt for admin commands is released where it is requested.
abbrev pub free_admin_irq : Controller → Controller
free_admin_irq c = record c {
  dev = record c.dev {
    enabled = update c.dev.enabled 0 false;
    irqs = if c.dev.enabled 0 then update c.dev.irqs 0 false else c.dev.irqs;
  };
}

-- The label out_unlock
abbrev pub out_unlock : ℤ → Controller → Run (ℤ × Controller)
out_unlock result c = ok (result, record c { locked = false })

-- What follows the creation of fewer queues than planned, up to the label retry
unfoldable pub start_over :
    Platform → ℕ → (ℕ → Controller → Run (ℤ × Controller)) → Controller → Run (ℤ × Controller)
start_over p nr_io_queues retry c =
    let t = p.turn nr_io_queues in
    let v = record c { dev = disable_io_queues t.deletes_sq t.deletes_cq c.dev } in
    let result = setup_io_queues_trylock t.unlocked t.connecting in
    if is_zero result
    then retry (c.dev.online_queues -u 1)
        (record v { locked = true; dev = suspend_io_queues v.dev })
    else ok (result, v)

-- What follows the creation of the queues
unfoldable pub after_creation :
    Platform → ℕ → (ℕ → Controller → Run (ℤ × Controller)) → ℤ → Controller → Run (ℤ × Controller)
after_creation p nr_io_queues retry result c =
    let v = record c { io_default = c.dev.online_queues -u 1 } in
    let s = get_arbitration_burst p v in
    if not (is_zero result) || ltb c.dev.online_queues 2
    then ok (result, c)
    else if ltb (c.dev.online_queues -u 1) c.dev.max_qid
    then start_over p nr_io_queues retry v
    else ok (if is_negative s.0 then s.0 else pos 0, s.1)

-- What follows the interrupts, with their number
unfoldable pub with_vectors :
    Platform → ℕ → (ℕ → Controller → Run (ℤ × Controller)) → ℕ → Controller → Run (ℤ × Controller)
with_vectors p nr_io_queues retry num_vecs c =
    let t = p.turn nr_io_queues in
    let dev = record c.dev {
      num_vecs = num_vecs;
      nr_cqs = if ltb (num_vecs - 1) 1 then 1 else num_vecs - 1;
      max_qid = nr_io_queues;
    } in
    let ready = record dev { enabled = update dev.enabled 0 true; irqs = update dev.irqs 0 true } in
    let made = create_io_queues t.create ready in
    if is_zero t.request_irq
    then after_creation p nr_io_queues retry made.0 (record c { dev = made.1; locked = false })
    else out_unlock t.request_irq (record c { dev = dev })

-- What follows nvme_setup_irqs(), with -EIO
unfoldable pub after_irqs :
    Platform → ℕ → (ℕ → Controller → Run (ℤ × Controller)) → ℤ → Controller → Run (ℤ × Controller)
after_irqs p nr_io_queues retry (negsuc n) c = out_unlock (negsuc 4) c
after_irqs p nr_io_queues retry (pos zero) c = out_unlock (negsuc 4) c
after_irqs p nr_io_queues retry (pos (suc n)) c = with_vectors p nr_io_queues retry (suc n) c

-- The label retry, with fuel
unfoldable pub retry_from : Platform → ℕ → ℕ → Controller → Run (ℤ × Controller)
retry_from p zero nr_io_queues c = fault
retry_from p (suc fuel) nr_io_queues c =
    let s = setup_irqs p nr_io_queues (free_admin_irq c) in
    after_irqs p nr_io_queues (retry_from p fuel) s.0 s.1

-- From the doorbells on, with -ENOMEM
unfoldable pub map_doorbells : Platform → ℕ → Controller → Run (ℤ × Controller)
map_doorbells p nr_io_queues c =
    let s = remap_from p nr_io_queues c in
    if s.0 == 0 then out_unlock (negsuc 11) s.1 else retry_from p (suc s.0) s.0 s.1

-- From the lock on
unfoldable pub under_lock : Platform → ℕ → Controller → Run (ℤ × Controller)
under_lock p nr_io_queues c =
    let result = setup_io_queues_trylock p.unlocked p.connecting in
    let s = extraq_update_queues p nr_io_queues (free_admin_irq (record c { locked = true })) in
    if not (is_zero result)
    then ok (result, c)
    else if is_zero s.0
    then map_doorbells p nr_io_queues s.1
    else ok s

-- nvme_setup_io_queues()
unfoldable pub setup_io_queues : Platform → Controller → Run (ℤ × Controller)
setup_io_queues p c =
    let v = record c { nr_write_queues = p.write_queues; nr_poll_queues = p.poll_queues } in
    let w = record v { nr_cpu_bound_queues = max_io_queues p v } in
    let s = p.set_queue_count (65535 - 1) in
    if is_negative s.0 then ok (s.0, w) else if s.1 == 0 then ok (pos 0, w) else under_lock p s.1 w
