-- ===== src/RoundRobin/Turns.antt =====
-- Which NSQs the round robin over a group's NSQs gives.
use native.Mathlib.Nat.{mod-lt, mod-eq_of_lt, add-zero, div-add-mod', add-mul-mod_self_right}
use nvme_plus.Base.{
  ℕ, zero, suc, ◌+◌, ◌-◌, ◌%◌, ◌/◌, ◌*◌, ◌^◌, ◌≤◌, ◌<◌, ◌≡◌, arith, ltb, if◌then◌else◌, List, [],
  ◌∷◌, get_or, ◌∙◌, dec_le, ap, ap₂,
}
use nvme_plus.Base.Words.{◌+u◌}
use nvme_plus.Base.Int.{signed32, rem}
use nvme_plus.Regulator.{Regulator, NqGroup, nsq}
use nvme_plus.RoundRobin.{sched_rr_next_nsqid}

-- What the round robin over the NSQs of a group, of ids in range, answers at each value of its
-- counter. Up to 2^31 it is the NSQ at the counter's remainder in the group. From there on the
-- counter is read as negative, and the answer lies before the group's first NSQ, by the remainder
-- of the counter's distance to 2^32, and wraps around 0 if that is the larger.
pub sched_rr_next_nsqid-nsq :
    (r : Regulator) (prio : ℕ)
    → let g = r.nq_groups prio in
      g.ncq_start + g.nr_attach_nsqs < 2 ^ 32
      → 0 < g.nr_attach_nsqs
      → g.rr_nsq_offset < 2 ^ 32
      → (sched_rr_next_nsqid r prio nsq).0 ≡ (
          if ltb g.rr_nsq_offset (2 ^ 31)
          then g.ncq_start + g.rr_nsq_offset % g.nr_attach_nsqs
          else g.ncq_start +u (2 ^ 32 - (2 ^ 32 - g.rr_nsq_offset) % g.nr_attach_nsqs))
unfolding sched_rr_next_nsqid signed32 rem
sched_rr_next_nsqid-nsq r prio fits some bound = ground (
  arith,
  mod-lt (r.nq_groups prio).rr_nsq_offset some,
  mod-lt (2 ^ 32 - (r.nq_groups prio).rr_nsq_offset) some,
)

-- The answers of so many calls in a row.
unfoldable pub turns : ℕ → Regulator → ℕ → List ℕ
turns zero r prio = []
turns (suc k) r prio = let (nqid, r') = sched_rr_next_nsqid r prio nsq in nqid ∷ turns k r' prio

-- A call moves the group's counter on, and changes nothing else of the group.
turn_group :
    (r : Regulator) (prio : ℕ)
    → ((sched_rr_next_nsqid r prio nsq).1).nq_groups prio
      ≡ record (r.nq_groups prio) { rr_nsq_offset = (r.nq_groups prio).rr_nsq_offset +u 1 }
unfolding sched_rr_next_nsqid
turn_group r prio = ground arith

-- The i-th call answers by the counter moved on i times, as long as the counter is not negative.
turn_at :
    (k i : ℕ) (r : Regulator) (prio : ℕ)
    → let g = r.nq_groups prio in
      g.ncq_start + g.nr_attach_nsqs < 2 ^ 32
      → 0 < g.nr_attach_nsqs
      → g.rr_nsq_offset + k ≤ 2 ^ 31
      → i < k
      → get_or (turns k r prio) i 0 ≡ g.ncq_start + (g.rr_nsq_offset + i) % g.nr_attach_nsqs
unfolding turns
turn_at zero i r prio fits some room h = absurd (omega arith)
turn_at (suc k) zero r prio fits some room h =
    sched_rr_next_nsqid-nsq r prio fits some (omega arith)
    ∙ ground (arith, add-zero (r.nq_groups prio).rr_nsq_offset)
turn_at (suc k) (suc i) r prio fits some room h =
    let r' = (sched_rr_next_nsqid r prio nsq).1 in
    let e = turn_group r prio in
    let start = ap (λ (g : NqGroup). g.ncq_start) e in
    let size = ap (λ (g : NqGroup). g.nr_attach_nsqs) e in
    let moved = ap (λ (g : NqGroup). g.rr_nsq_offset) e in
    let on : (r'.nq_groups prio).rr_nsq_offset + i ≡ (r.nq_groups prio).rr_nsq_offset + suc i =
      omega arith in
    turn_at k i r' prio (omega arith) (omega arith) (omega arith) (omega arith)
    ∙ ap₂ ◌+◌ start (ap₂ ◌%◌ on size)

mod-eq_of_split : (x j q n : ℕ) → x ≡ j + q * n → j < n → x % n ≡ j
mod-eq_of_split x j q n e h = ap (λ k. k % n) e ∙ add-mul-mod_self_right j q n ∙ mod-eq_of_lt h

-- Some step below n takes o to a number of remainder j.
reach : (o j n : ℕ) → j < n → (i : ℕ) × (i < n) × ((o + i) % n ≡ j)
reach o j n h =
    let parts = div-add-mod' o n in
    let small : o % n < n = mod-lt o {m = n} (omega arith) in
    elim (dec_le (o % n) j) [
      | yes up ↦
          (j - o % n, omega arith, mod-eq_of_split (o + (j - o % n)) j (o / n) n (omega arith) h)
      | no down ↦ (
        j + n - o % n,
        omega arith,
        mod-eq_of_split (o + (j + n - o % n)) j (o / n + 1) n (omega arith) h,
      )
    ]

-- If the group has ids in range, and its counter stays below 2^31 on the way, as many calls in a
-- row as the group has NSQs reach every one of them.
pub sched_rr_next_nsqid-covers :
    (r : Regulator) (prio j : ℕ)
    → let g = r.nq_groups prio in
      g.ncq_start + g.nr_attach_nsqs < 2 ^ 32
      → g.rr_nsq_offset + g.nr_attach_nsqs ≤ 2 ^ 31
      → j < g.nr_attach_nsqs
      → (i : ℕ) × (i < g.nr_attach_nsqs)
        × (get_or (turns g.nr_attach_nsqs r prio) i 0 ≡ g.ncq_start + j)
sched_rr_next_nsqid-covers r prio j fits room h =
    let (i, below, lands) = reach (r.nq_groups prio).rr_nsq_offset j _ h in
    (
      i,
      below,
      turn_at _ i r prio fits (omega arith) room below
          ∙ ap (λ k. (r.nq_groups prio).ncq_start + k) lands,
    )
