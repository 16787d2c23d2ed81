-- ===== src/Bringup.antt =====
-- How the I/O queues of an NVMe device are brought up: nvme_setup_io_queues() of
-- daredevil/drivers/nvme/host/pci.c, with the interrupts, the queues' memory, the doorbells and the retry
-- with fewer queues. The kernel has more SQs than CPUs configured (CONFIG_DAREDEVIL_IO_STACK_EXTRAQ).
pub mod Retry
pub mod Turns
pub mod Clear
pub mod Served
mod Tests
use nvme_plus.Base.{
  ℕ, zero, suc, ◌+◌, ◌-◌, ◌%◌, Bool, true, false, not, ◌&&◌, ◌||◌, Option, none, some, List, [],
  ◌∷◌, ◌==◌, ltb, leb, min, if◌then◌else◌,
}
use nvme_plus.Base.Run.{Run, ok, fault}
use nvme_plus.Base.Int.{ℤ, pos, negsuc}
use nvme_plus.Base.Words.{◌+u◌, ◌-u◌, ◌*u◌}
use nvme_plus.Regulator.{update}
use nvme_plus.Creation.{
  NvmeDev, Answers, is_zero, is_negative, setup_io_queues_trylock, create_io_queues,
}
use nvme_plus.Suspend.{Deletes, disable_io_queues, suspend_io_queues}

-- The device with what only the set-up reads and writes; `locked` says whether it holds shutdown_lock.
-- `dev.polls` and `io_poll` are the same field.
pub record Controller : Type 0 where
  pub dev : NvmeDev
  pub nr_write_queues : ℕ
  pub nr_poll_queues : ℕ
  pub nr_allocated_queues : ℕ
  pub nr_cpu_bound_queues : ℕ
  pub io_default : ℕ
  pub io_read : ℕ
  pub io_poll : ℕ
  pub bar_mapped_size : ℕ
  pub arbitration : ℕ
  pub locked : Bool

-- What one turn with a number of queues meets: the numbers of interrupts that the core spreads, the vectors
-- it gives for a number asked for, the size of the MSI-X table where it is on, the request of the interrupt
-- for admin commands, the creation and the deletion of queues, and whether the lock is then free and the
-- controller connecting.
pub record Turn : Type 0 where
  pub nrirqs : List ℕ
  pub vectors : ℕ → ℤ
  pub msix_count : Option ℤ
  pub request_irq : ℤ
  pub create : Answers
  pub deletes_sq : Deletes
  pub deletes_cq : Deletes
  pub unlocked : Bool
  pub connecting : Bool

-- The parameters of the module, the quirks of the controller, and what memory, device and core answer.
-- Each turn has another number of queues.
pub record Platform : Type 0 where
  pub write_queues : ℕ
  pub poll_queues : ℕ
  pub num_possible_cpus : ℕ
  pub shared_tags : Bool
  pub single_vector : Bool
  pub set_queue_count : ℕ → ℤ × ℕ
  pub unlocked : Bool
  pub connecting : Bool
  pub alloc_queues : Bool
  pub reg_dbs : ℕ
  pub db_stride : ℕ
  pub resource_len : ℕ
  pub ioremap : ℕ → Bool
  pub turn : ℕ → Turn
  pub get_arbitration : ℤ × ℕ

-- nvme_calc_irq_sets()
unfoldable pub calc_irq_sets : ℕ → Controller → Controller
calc_irq_sets nrirqs c =
    let irqs = if nrirqs == 0 then 1 else nrirqs in
    let nr_read_queues =
      if irqs == 1 || c.nr_write_queues == 0
      then 0
      else if leb irqs c.nr_write_queues
      then 1
      else irqs - c.nr_write_queues in
    record c { io_default = irqs - nr_read_queues; io_read = nr_read_queues }

abbrev pub calc_all : List ℕ → Controller → Controller
calc_all [] c = c
calc_all (n ∷ ns) c = calc_all ns (calc_irq_sets n c)

-- nvme_max_io_queues()
unfoldable pub max_io_queues : Platform → Controller → ℕ
max_io_queues p c =
    if p.shared_tags then 1 else p.num_possible_cpus +u c.nr_write_queues +u c.nr_poll_queues

-- nvme_setup_irqs()
unfoldable pub setup_irqs : Platform → ℕ → Controller → ℤ × Controller
setup_irqs p nr_io_queues c =
    let poll = min c.nr_poll_queues (nr_io_queues -u 1) in
    let irq_queues = if p.single_vector then 1 else 1 +u (nr_io_queues -u poll) in
    let v = record c {
      dev = record c.dev { polls = not (poll == 0) };
      io_poll = poll;
      io_default = 1;
      io_read = 0;
    } in
    let t = p.turn nr_io_queues in
    (
      elim t.msix_count [
        | none ↦ t.vectors (min irq_queues (max_io_queues p c +u 1))
        | some size ↦
            if is_negative size then size else t.vectors (min irq_queues (max_io_queues p c +u 1))
      ],
      calc_all t.nrirqs v,
    )

-- nvme_blex_extraq_update_queues(), with -ENOMEM: the memory of all I/O queues is new.
unfoldable pub extraq_update_queues : Platform → ℕ → Controller → ℤ × Controller
extraq_update_queues p nr_io_queues c =
    if leb nr_io_queues (c.nr_allocated_queues -u 1)
    then (pos 0, c)
    else if p.alloc_queues
    then (
      pos 0,
      record c {
        nr_allocated_queues = nr_io_queues +u 1;
        dev = record c.dev {
          cqes = λ q. (q == 0) && c.dev.cqes q;
          sq_cmds = λ q. (q == 0) && c.dev.sq_cmds q;
          cq_vector = λ q. if q == 0 then c.dev.cq_vector q else 0;
          enabled = λ q. (q == 0) && c.dev.enabled q;
          delete_error = λ q. (q == 0) && c.dev.delete_error q;
        };
      },
    )
    else (negsuc 11, c)

-- nvme_remap_bar()
unfoldable pub remap_bar : Platform → ℕ → Controller → ℤ × Controller
remap_bar p size c =
    if leb size c.bar_mapped_size
    then (pos 0, c)
    else if ltb p.resource_len size
    then (negsuc 11, c)
    else if p.ioremap size
    then (pos 0, record c { bar_mapped_size = size })
    else (negsuc 11, record c { bar_mapped_size = 0 })

-- The loop that maps the doorbells, of as many queues as it can: none if it cannot of one
unfoldable pub remap_from : Platform → ℕ → Controller → ℕ × Controller
remap_from p zero c = (0, c)
remap_from p (suc n) c =
    let s = remap_bar p (p.reg_dbs +u (suc n +u 1) *u 8 *u p.db_stride) c in
    let fewer = remap_from p n s.1 in if is_zero s.0 then (suc n, s.1) else fewer

-- nvme_blex_get_arbitration_burst()
unfoldable pub get_arbitration_burst : Platform → Controller → ℤ × Controller
get_arbitration_burst p c =
    if is_zero p.get_arbitration.0
    then (pos 0, record c { arbitration = p.get_arbitration.1 % 8 })
    else (p.get_arbitration.0, c)
