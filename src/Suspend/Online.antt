-- ===== src/Suspend/Online.antt =====
-- The queues that count as online, under the calls of daredevil/drivers/nvme/host/pci.c that delete and
-- suspend I/O queues.
use nvme_plus.Base.{
  ℕ_discrete, ap, ℕ, zero, suc, ◌+◌, ◌-◌, ◌^◌, ◌≤◌, ◌<◌, ◌≡◌, ◌≢◌, ◌∙◌, refl, sym, subst, arith,
  Bool, true, false, ◌==◌, if◌then◌else◌, if_elim,
}
use nvme_plus.Creation.{NvmeDev}
use nvme_plus.Creation.Counts.{CountsEnabled}
use nvme_plus.Suspend.{
  Deletes, send_from, delete_from, disable_io_queues, suspend_queue, suspend_from,
}

-- What disabling leaves as it is
pub disable_io_queues-keeps :
    (sq cq : Deletes) (d : NvmeDev)
    → let v = disable_io_queues sq cq d in
      (v.online_queues ≡ d.online_queues)
      × (v.queue_count ≡ d.queue_count)
      × (v.enabled ≡ d.enabled)
unfolding disable_io_queues
disable_io_queues-keeps sq cq d =
    if_elim {A = NvmeDev}
      (λ v.
        (v.online_queues ≡ d.online_queues)
        × (v.queue_count ≡ d.queue_count)
        × (v.enabled ≡ d.enabled))
      _ (λ e. (refl, refl, refl)) (λ e. (refl, refl, refl))

suspend_queue-keeps :
    (qid : ℕ) (d : NvmeDev)
    → ((suspend_queue qid d).queue_count ≡ d.queue_count)
      × (d.enabled qid ≡ false → suspend_queue qid d ≡ d)
unfolding suspend_queue
suspend_queue-keeps qid d = (ground arith, λ e. rw e refl)

-- The last queue that counts is suspended.
suspend_queue-last :
    (i : ℕ) (d : NvmeDev)
    → d.online_queues ≡ suc (suc i)
    → suc (suc i) < 2 ^ 32
    → CountsEnabled d
    → let v = suspend_queue (suc i) d in (v.online_queues ≡ suc i) × CountsEnabled v
unfolding suspend_queue
suspend_queue-last i d o small h =
    if_elim {A = NvmeDev} (λ v. (v.online_queues ≡ suc i) × CountsEnabled v) (d.enabled (suc i))
      (λ e. (
        omega (arith, o, small),
        λ q positive. let k = h q positive in ground (arith, k, o, small, positive),
      ))
      (λ e. let k = h (suc i) (omega arith) in absurd (ground (arith, k, o, e)))

pub suspend_from-all :
    (i : ℕ) (d : NvmeDev)
    → 1 ≤ d.online_queues
    → d.online_queues ≤ suc i
    → suc i < 2 ^ 32
    → CountsEnabled d
    → let v = suspend_from i d in
      (v.online_queues ≡ 1) × CountsEnabled v × (v.queue_count ≡ d.queue_count)
unfolding suspend_from
suspend_from-all zero d positive b small h = (omega (arith, positive, b), h, refl)
suspend_from-all (suc i) d positive b small h = elim (ℕ_discrete d.online_queues (suc (suc i))) [
  | yes e ↦
      let (one, counts) = suspend_queue-last i d e small h in
      let (o, c, n) =
        suspend_from-all i (suspend_queue (suc i) d) (omega (arith, one)) (omega (arith, one))
          (omega (arith, small)) counts in
      (o, c, n ∙ (suspend_queue-keeps (suc i) d).0)
  | no n ↦
      subst
        (λ v.
          ((suspend_from i v).online_queues ≡ 1)
          × CountsEnabled (suspend_from i v)
          × ((suspend_from i v).queue_count ≡ d.queue_count))
        (sym ((suspend_queue-keeps (suc i) d).1 (h (suc i) (omega arith) ∙ ground (arith, b, n))))
        (suspend_from-all i d positive (ground (arith, b, n)) (omega (arith, small)) h)
]

-- Any fuel above the commands that are still to be waited for gives the same result.
send_from-below : (takes : ℕ → Bool) (n : ℕ) → send_from takes n ≤ n
unfolding send_from
send_from-below takes zero = omega arith
send_from-below takes (suc n) = ground (arith, send_from-below takes n)

same_unless {ℓ} :
    {A : Type ℓ} (c : Bool) (x y z : A)
    → (c ≡ false → y ≡ z)
    → (if c then x else y) ≡ (if c then x else z)
same_unless true x y z e = refl
same_unless false x y z e = e refl

pub delete_from-fuel :
    (a : Deletes) (f g nr_queues sent waited : ℕ)
    → nr_queues + sent < f
    → nr_queues + sent < g
    → delete_from a f nr_queues sent waited ≡ delete_from a g nr_queues sent waited
unfolding delete_from
delete_from-fuel a zero g nr_queues sent waited b c = absurd (omega (arith, b))
delete_from-fuel a (suc f) zero nr_queues sent waited b c = absurd (omega (arith, c))
delete_from-fuel a (suc f) (suc g) nr_queues sent waited b c =
    let left = send_from (λ q. a.takes q waited) nr_queues in
    let out = sent + (nr_queues - left) in
    let below = send_from-below (λ q. a.takes q waited) nr_queues in
    same_unless (out == 0) _ _ _ (λ e.
      let positive : out ≢ 0 = λ z. ground (arith, e, z) in
      ap (λ r. if a.completes (left + out) then r else (false, left))
        (delete_from-fuel a f g left (out - 1) (suc waited) (omega (arith, b, positive, below))
          (omega (arith, c, positive, below))))
