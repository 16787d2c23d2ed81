-- ===== src/Bringup/Turns.antt =====
-- What a turn of nvme_setup_io_queues() of daredevil/drivers/nvme/host/pci.c brings about.
use nvme_plus.Base.{
  ℕ, zero, suc, List, [], ◌∷◌, ◌∙◌, ◌-◌, ◌^◌, ◌≤◌, ◌<◌, ◌≡◌, ◌≢◌, refl, arith, true, false, not,
  ◌||◌, ltb, if◌then◌else◌, if_elim, ◌⊎◌, inl,
}
use nvme_plus.Base.Run.{Run, Ends}
use nvme_plus.Base.Int.{ℤ, pos, negsuc}
use nvme_plus.Base.Words.{◌+u◌, ◌-u◌, ◌*u◌}
use nvme_plus.Regulator.{update}
use nvme_plus.Topology.{Fits}
use nvme_plus.Creation.{NvmeDev, is_zero, setup_io_queues_trylock}
use nvme_plus.Creation.Keeps.{Same-refl}
use nvme_plus.Creation.Attached.{AllAttached, Serves, AllAttached-Serves, create_io_queues-Grows}
use nvme_plus.Creation.Counts.{Counts, create_io_queues-Counts}
use nvme_plus.Suspend.{disable_io_queues, suspend_io_queues}
use nvme_plus.Suspend.Online.{disable_io_queues-keeps, suspend_from-all}
use nvme_plus.Bringup.{
  Controller, Platform, get_arbitration_burst, calc_irq_sets, calc_all, remap_bar, remap_from,
}
use nvme_plus.Bringup.Retry.{out_unlock, start_over, after_creation, with_vectors, after_irqs}

-- All I/O queues up to max_qid are online, are counted as default queues, and serve.
pub record Full (c : Controller) : Type 0 where
  pub online : c.dev.online_queues ≡ suc c.dev.max_qid
  pub counted : c.io_default ≡ c.dev.max_qid
  pub fits : Fits c.dev.max_qid c.dev.nr_cqs
  pub serves : (q : ℕ) → 1 ≤ q → q ≤ c.dev.max_qid → Serves c.dev c.dev q

-- How the set-up may end: with the lock free, unless the memory of more queues was not to be had, and with
-- all queues, unless it fails or none is online but that for admin commands
abbrev pub Good : Platform → ℤ × Controller → Type 0
Good p s =
    ((s.1.locked ≡ false) ⊎ ((s.0 ≡ negsuc 11) × (p.alloc_queues ≡ false)))
    × (s.0 ≡ pos 0 → 2 ≤ s.1.dev.online_queues → Full s.1)

-- Only the queue for admin commands is online.
pub record Alone (d : NvmeDev) : Type 0 where
  pub counts : Counts 65535 d
  pub one : d.online_queues ≡ 1

pub fails : (result : ℤ) → is_zero result ≡ false → result ≢ pos 0
fails result e z = cc

pub out_unlock-Good :
    (p : Platform) (result : ℤ) (c : Controller)
    → (result ≡ pos 0 → c.dev.online_queues ≤ 1)
    → Ends (Good p) (out_unlock result c)
out_unlock-Good p result c few = (inl refl, λ z b. absurd (omega (arith, b, few z)))

start_over-Good :
    (p : Platform) (nr : ℕ) (retry : ℕ → Controller → Run (ℤ × Controller)) (c : Controller)
    → Counts 65535 c.dev
    → 2 ≤ c.dev.online_queues
    → c.locked ≡ false
    → ((v : Controller) → Alone v.dev → Ends (Good p) (retry (c.dev.online_queues -u 1) v))
    → Ends (Good p) (start_over p nr retry c)
unfolding start_over suspend_io_queues
start_over-Good p nr retry c counts two unlocked again =
    let t = p.turn nr in
    let d = disable_io_queues t.deletes_sq t.deletes_cq c.dev in
    let (online, count, enabled) = disable_io_queues-keeps t.deletes_sq t.deletes_cq c.dev in
    let (one, on, kept) =
      suspend_from-all (d.queue_count - 1) d (omega (arith, online, two))
        (omega (arith, online, two, count, counts.allocated))
        (omega (arith, two, count, counts.allocated, counts.bound))
        (λ q positive. rw online (rw enabled (counts.enabled q positive))) in
    if_elim (Ends (Good p)) (is_zero (setup_io_queues_trylock t.unlocked t.connecting))
      (λ e. again _ (record {
        counts = record {
          enabled = on;
          positive = omega (arith, one);
          allocated = omega (arith, one, kept, count, two, counts.allocated);
          bound = omega (arith, kept, count, counts.bound);
        };
        one = one;
      }))
      (λ e. (inl unlocked, λ z. absurd (fails _ e z)))

pub get_arbitration_burst-keeps :
    (p : Platform) (c : Controller)
    → let v = (get_arbitration_burst p c).1 in
      (v.dev ≡ c.dev) × (v.io_default ≡ c.io_default) × (v.locked ≡ c.locked)
unfolding get_arbitration_burst
get_arbitration_burst-keeps p c =
    if_elim {A = ℤ × Controller}
      (λ s. (s.1.dev ≡ c.dev) × (s.1.io_default ≡ c.io_default) × (s.1.locked ≡ c.locked))
      (is_zero p.get_arbitration.0) (λ e. (refl, refl, refl)) (λ e. (refl, refl, refl))

after_creation-Good :
    (p : Platform) (nr : ℕ) (retry : ℕ → Controller → Run (ℤ × Controller)) (result : ℤ)
    (c : Controller)
    → Counts 65535 c.dev
    → Fits c.dev.max_qid c.dev.nr_cqs
    → c.dev.online_queues ≤ suc c.dev.max_qid
    → AllAttached c.dev
    → c.locked ≡ false
    → ((m : ℕ) (v : Controller)
        → 1 ≤ m
        → m < c.dev.max_qid
        → Alone v.dev
        → Ends (Good p) (retry m v))
    → Ends (Good p) (after_creation p nr retry result c)
unfolding after_creation
after_creation-Good p nr retry result c counts fits bound attached unlocked again =
    if_elim (Ends (Good p)) (not (is_zero result) || ltb c.dev.online_queues 2)
      (λ e. (inl unlocked, λ z b. absurd (ground (arith, e, z, b))))
      (λ e.
        let two : 2 ≤ c.dev.online_queues = ground (arith, e) in
        let small : c.dev.online_queues < 2 ^ 32 = omega (arith, counts.allocated, counts.bound) in
        if_elim (Ends (Good p)) (ltb (c.dev.online_queues -u 1) c.dev.max_qid)
          (λ l.
            start_over-Good p nr retry v counts two unlocked
              (λ w alone. again _ w (one_less two small) (ground (arith, l)) alone))
          (λ l.
            let full : c.dev.online_queues ≡ suc c.dev.max_qid = all_online two small bound l in
            let (dev, default, lock) = get_arbitration_burst-keeps p v in
            (
              inl (lock ∙ unlocked),
              λ z b. record {
                online = rw dev full;
                counted = rw dev (default ∙ omega (arith, full, small));
                fits = rw dev fits;
                serves = rw dev (λ q positive inside.
                    AllAttached-Serves c.dev c.dev q fits (Same-refl c.dev) bound attached positive
                      (omega (arith, inside, full)));
              },
            )))
  where
    v : Controller
    v = record c { io_default = c.dev.online_queues -u 1 }

    one_less : 2 ≤ c.dev.online_queues → c.dev.online_queues < 2 ^ 32 → 1 ≤ c.dev.online_queues -u 1
    one_less two small = omega (arith, two, small)

    all_online :
        2 ≤ c.dev.online_queues
        → c.dev.online_queues < 2 ^ 32
        → c.dev.online_queues ≤ suc c.dev.max_qid
        → ltb (c.dev.online_queues -u 1) c.dev.max_qid ≡ false
        → c.dev.online_queues ≡ suc c.dev.max_qid
    all_online two small b l = ground (arith, two, small, b, l)

with_vectors-Good :
    (p : Platform) (nr : ℕ) (retry : ℕ → Controller → Run (ℤ × Controller)) (n : ℕ) (c : Controller)
    → 1 ≤ nr
    → nr < 65535
    → suc n ≤ suc nr
    → Alone c.dev
    → ((m : ℕ) (v : Controller) → 1 ≤ m → m < nr → Alone v.dev → Ends (Good p) (retry m v))
    → Ends (Good p) (with_vectors p nr retry (suc n) c)
unfolding with_vectors
with_vectors-Good p nr retry n c positive small within alone again =
    if_elim (Ends (Good p)) (is_zero (p.turn nr).request_irq)
      (λ e.
        let a = (p.turn nr).create in
        let g = create_io_queues-Grows a ready (omega (arith, small)) few attached in
        let max = g.same.max_qid in
        after_creation-Good p nr retry _ _
          (create_io_queues-Counts a 65535 ready (omega (arith, small)) (omega arith) counts)
          (rw max (rw g.same.nr_cqs fits)) (rw max g.bound) g.attached refl
          (λ m v positive below. again m v positive (omega (arith, below, max))))
      (λ e. (inl refl, λ z b. absurd (omega (arith, b, alone.one))))
  where
    ready : NvmeDev
    ready = record c.dev {
      num_vecs = suc n;
      nr_cqs = if ltb (suc n - 1) 1 then 1 else suc n - 1;
      max_qid = nr;
      enabled = update c.dev.enabled 0 true;
      irqs = update c.dev.irqs 0 true;
    }

    few : c.dev.online_queues ≤ suc nr
    few = omega (arith, alone.one)

    attached : AllAttached ready
    attached q positive below = absurd (omega (arith, positive, below, alone.one))

    fits : Fits nr (if ltb (suc n - 1) 1 then 1 else suc n - 1)
    fits = record {
      some_cq = ground arith;
      enough = ground (arith, within, positive);
      small = omega (arith, small);
    }

    counts : Counts 65535 ready
    counts = record {
      enabled =
          λ q positive. let k = alone.counts.enabled q positive in ground (arith, k, positive);
      positive = alone.counts.positive;
      allocated = alone.counts.allocated;
      bound = alone.counts.bound;
    }

pub after_irqs-Good :
    (p : Platform) (nr : ℕ) (retry : ℕ → Controller → Run (ℤ × Controller)) (result : ℤ)
    (c : Controller)
    → 1 ≤ nr
    → nr < 65535
    → ((k : ℕ) → result ≡ pos k → k ≤ suc nr)
    → Alone c.dev
    → ((m : ℕ) (v : Controller) → 1 ≤ m → m < nr → Alone v.dev → Ends (Good p) (retry m v))
    → Ends (Good p) (after_irqs p nr retry result c)
unfolding after_irqs
after_irqs-Good p nr retry (negsuc n) c positive small within alone again =
    out_unlock-Good p _ c (λ z. omega (arith, alone.one))
after_irqs-Good p nr retry (pos zero) c positive small within alone again =
    out_unlock-Good p _ c (λ z. omega (arith, alone.one))
after_irqs-Good p nr retry (pos (suc n)) c positive small within alone again =
    with_vectors-Good p nr retry n c positive small (within (suc n) refl) alone again

pub calc_all-dev : (ns : List ℕ) (c : Controller) → (calc_all ns c).dev ≡ c.dev
unfolding calc_irq_sets
calc_all-dev [] c = refl
calc_all-dev (n ∷ ns) c = calc_all-dev ns (calc_irq_sets n c)

remap_bar-dev : (p : Platform) (size : ℕ) (c : Controller) → (remap_bar p size c).1.dev ≡ c.dev
unfolding remap_bar
remap_bar-dev p size c = ground arith

pub remap_from-fewer :
    (p : Platform) (n : ℕ) (c : Controller)
    → let s = remap_from p n c in (s.0 ≤ n) × (s.1.dev ≡ c.dev)
unfolding remap_from
remap_from-fewer p zero c = (omega arith, refl)
remap_from-fewer p (suc n) c =
    let s = remap_bar p (p.reg_dbs +u (suc n +u 1) *u 8 *u p.db_stride) c in
    let same = remap_bar-dev p (p.reg_dbs +u (suc n +u 1) *u 8 *u p.db_stride) c in
    let (fewer, kept) = remap_from-fewer p n s.1 in
    if_elim {A = ℕ × Controller} (λ t. (t.0 ≤ suc n) × (t.1.dev ≡ c.dev)) (is_zero s.0)
      (λ e. (omega arith, same)) (λ e. (omega (arith, fewer), kept ∙ same))
