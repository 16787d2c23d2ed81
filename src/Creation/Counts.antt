-- ===== src/Creation/Counts.antt =====
-- The queues that are enabled and those that count as online, under nvme_blex_create_io_queues() of
-- daredevil/drivers/nvme/host/pci.c.
use nvme_plus.Base.{
  ℕ, zero, suc, ◌+◌, ◌-◌, ◌^◌, ◌≤◌, ◌<◌, ◌≡◌, ◌≢◌, ◌∙◌, refl, sym, subst, arith, true, false, ◌&&◌,
  ◌||◌, ap, ltb, min, not, leb, if◌then◌else◌, if_elim, ◌⊎◌, inl, inr, ℕ_discrete,
}
use nvme_plus.Base.Int.{ℤ, pos, negsuc}
use nvme_plus.Base.Words.{◌+u◌, ◌-u◌}
use nvme_plus.Regulator.{update}
use nvme_plus.Creation.{
  NvmeDev, Answers, is_zero, is_negative, nvmeq_has_cq, alloc_queue, create_queue, release_cq,
  release_sq, start_queue, attach_sq, setup_io_queues_trylock, alloc_from, create_from,
  create_allocated, create_io_queues,
}
use nvme_plus.Creation.Keeps.{create_queue-Elsewhere}
use nvme_plus.Creation.Step.{one_more}

-- The I/O queues that are enabled are those that are counted.
abbrev pub CountsEnabled : NvmeDev → Type 0
CountsEnabled d = (q : ℕ) → 1 ≤ q → d.enabled q ≡ ltb q d.online_queues

-- The count of queues online and the queue `qid` change together, if at all.
record Together (qid : ℕ) (d v : NvmeDev) : Type 0 where
  queue_count : v.queue_count ≡ d.queue_count
  turn :
      ((v.online_queues ≡ d.online_queues) × (v.enabled qid ≡ d.enabled qid))
      ⊎ ((v.online_queues ≡ suc d.online_queues) × (v.enabled qid ≡ true))

module _ (a : Answers) (qid : ℕ) where
  release_cq-Together : (d : NvmeDev) → Together qid d (release_cq a qid d)
  unfolding release_cq
  release_cq-Together d =
      if_elim (Together qid d) (nvmeq_has_cq d qid && a.deletes_cq qid)
        (λ e. record { queue_count = refl; turn = inl (refl, refl) })
        (λ e. record { queue_count = refl; turn = inl (refl, refl) })

  start_queue-Together :
      (d : NvmeDev) → d.online_queues + 1 < 2 ^ 32 → Together qid d (start_queue a qid d).1
  unfolding start_queue release_sq
  start_queue-Together d small =
      if_elim {A = ℤ × NvmeDev} (λ s. Together qid d s.1) (nvmeq_has_cq d qid)
        (λ h.
          if_elim {A = ℤ × NvmeDev} (λ s. Together qid d s.1) (is_negative (a.request_irq qid))
            (λ e.
              let t = release_cq-Together (release_sq a qid counted) in
              record {
                queue_count = t.queue_count;
                turn = elim t.turn [
                  | inl (o, k) ↦ inl (o ∙ back, k)
                  | inr (o, k) ↦ inr (o ∙ ap suc back, k)
                ];
              })
            (λ e. record { queue_count = refl; turn = inr (one, ground arith) }))
        (λ h. record { queue_count = refl; turn = inr (one, ground arith) })
    where
      counted : NvmeDev
      counted = record d {
        online_queues = d.online_queues +u 1;
        null_cleared = d.null_cleared || (nvmeq_has_cq d qid && not (d.cqes qid));
      }

      one : d.online_queues +u 1 ≡ suc d.online_queues
      one = omega (arith, small)

      back : (d.online_queues +u 1) -u 1 ≡ d.online_queues
      back = omega (arith, small)

  attach_sq-Together :
      (vector : ℕ) (d : NvmeDev)
      → d.online_queues + 1 < 2 ^ 32
      → Together qid d (attach_sq a qid vector d).1
  unfolding attach_sq
  attach_sq-Together vector d small =
      if_elim {A = ℤ × NvmeDev} (λ s. Together qid d s.1) (is_negative (a.alloc_sq qid))
        (λ e. record { queue_count = refl; turn = inl (refl, refl) })
        (λ e.
          if_elim {A = ℤ × NvmeDev} (λ s. Together qid d s.1) (is_zero (a.alloc_sq qid))
            (λ z.
              if_elim {A = ℤ × NvmeDev} (λ s. Together qid d s.1)
                (is_zero (setup_io_queues_trylock (a.unlocked qid) (a.connecting qid)))
                (λ l.
                  let t = start_queue-Together _ small in
                  record { queue_count = t.queue_count; turn = t.turn })
                (λ l. record { queue_count = refl; turn = inl (refl, refl) }))
            (λ z. release_cq-Together d))

  create_queue-Together :
      (d : NvmeDev) → d.online_queues + 1 < 2 ^ 32 → Together qid d (create_queue a qid false d).1
  unfolding create_queue
  create_queue-Together d small =
      if_elim {A = ℤ × NvmeDev} (λ s. Together qid d s.1)
        (nvmeq_has_cq (record d { delete_error = update d.delete_error qid false }) qid)
        (λ h.
          if_elim {A = ℤ × NvmeDev} (λ s. Together qid d s.1) (is_zero (a.alloc_cq qid))
            (λ z.
              let t = attach_sq-Together _ _ small in
              record { queue_count = t.queue_count; turn = t.turn })
            (λ z. record { queue_count = refl; turn = inl (refl, refl) }))
        (λ h.
          let t = attach_sq-Together 0 _ small in
          record { queue_count = t.queue_count; turn = t.turn })

create_queue-counts :
    (a : Answers) (d : NvmeDev)
    → d.online_queues + 1 < 2 ^ 32
    → CountsEnabled d
    → CountsEnabled (create_queue a d.online_queues false d).1
create_queue-counts a d small h q positive =
    elim (create_queue-Together a d.online_queues d small).turn [
      | inl (o, k) ↦ elim (ℕ_discrete q d.online_queues) [
        | yes e ↦ ground (arith, e, o, k, at)
        | no n ↦ ground (arith, n, o, elsewhere n, at)
      ]
      | inr (o, k) ↦ elim (ℕ_discrete q d.online_queues) [
        | yes e ↦ ground (arith, e, o, k)
        | no n ↦ ground (arith, n, o, elsewhere n, at)
      ]
    ]
  where
    at : d.enabled q ≡ ltb q d.online_queues
    at = h q positive

    elsewhere :
        q ≢ d.online_queues → (create_queue a d.online_queues false d).1.enabled q ≡ d.enabled q
    elsewhere n = (create_queue-Elsewhere a d.online_queues d q n).0

-- Those enabled are those counted, and are among the queues that are allocated, at most `end`.
pub record Counts (end : ℕ) (d : NvmeDev) : Type 0 where
  pub enabled : CountsEnabled d
  pub positive : 1 ≤ d.online_queues
  pub allocated : d.online_queues ≤ d.queue_count
  pub bound : d.queue_count ≤ end

alloc_queue-Counts :
    (a : Answers) (qid end : ℕ) (d : NvmeDev)
    → qid < end
    → end < 2 ^ 32
    → Counts end d
    → Counts end (alloc_queue a qid d).1
unfolding alloc_queue
alloc_queue-Counts a qid end d b small h =
    if_elim {A = ℤ × NvmeDev} (λ s. Counts end s.1) (not (leb d.queue_count qid)) (λ e. h)
      (λ e.
        let room : d.queue_count ≤ qid = ground (arith, e) in
        if_elim {A = ℤ × NvmeDev} (λ s. Counts end s.1)
          (nvmeq_has_cq d qid && not (a.alloc_cqes qid)) (λ e. kept)
          (λ e.
            if_elim {A = ℤ × NvmeDev} (λ s. Counts end s.1) (a.alloc_sq_cmds qid)
              (λ e. record {
                enabled = h.enabled;
                positive = h.positive;
                allocated = omega (arith, h.allocated, room, b, small);
                bound = omega (arith, room, b, small);
              })
              (λ e. record {
                enabled = h.enabled;
                positive = h.positive;
                allocated = h.allocated;
                bound = h.bound;
              })))
  where
    kept : Counts end (record d { cqes = update d.cqes qid false })
    kept = record {
      enabled = h.enabled;
      positive = h.positive;
      allocated = h.allocated;
      bound = h.bound;
    }

alloc_from-Counts :
    (a : Answers) (n i end : ℕ) (ret : ℤ) (d : NvmeDev)
    → i + n ≤ end
    → end < 2 ^ 32
    → Counts end d
    → Counts end (alloc_from a n i ret d).1
unfolding alloc_from
alloc_from-Counts a zero i end ret d b small h = h
alloc_from-Counts a (suc n) i end ret d b small h =
    let one = alloc_queue-Counts a i end d (omega (arith, b)) small h in
    if_elim {x = alloc_from a n (suc i) ret (alloc_queue a i d).1}
      {y = (negsuc 11, (alloc_queue a i d).1)} (λ s. Counts end s.1) (is_zero (alloc_queue a i d).0)
      (λ e. alloc_from-Counts a n (suc i) end ret _ (omega (arith, b)) small one) (λ e. one)

Together-within :
    (qid : ℕ) (d v : NvmeDev)
    → Together qid d v
    → (d.online_queues ≤ v.online_queues) × (v.online_queues ≤ suc d.online_queues)
Together-within qid d v t = elim t.turn [
  | inl (o, k) ↦ (omega (arith, o), omega (arith, o))
  | inr (o, k) ↦ (omega (arith, o), omega (arith, o))
]

create_queue-Counts :
    (a : Answers) (end : ℕ) (d : NvmeDev)
    → d.online_queues < d.queue_count
    → end < 2 ^ 32
    → Counts end d
    → let v = (create_queue a d.online_queues false d).1 in
      Counts end v × (v.queue_count ≡ d.queue_count)
create_queue-Counts a end d b small h =
    let within : d.online_queues + 1 < 2 ^ 32 = omega (arith, b, h.bound, small) in
    let t = create_queue-Together a d.online_queues d within in
    let count = Together-within _ d _ t in
    (
      record {
        enabled = create_queue-counts a d within h.enabled;
        positive = omega (arith, h.positive, count.0);
        allocated = omega (arith, count.1, b, t.queue_count);
        bound = omega (arith, h.bound, t.queue_count);
      },
      t.queue_count,
    )

create_from-Counts :
    (a : Answers) (n i end : ℕ) (ret : ℤ) (d : NvmeDev)
    → i ≡ d.online_queues
    → i + n ≤ d.queue_count
    → end < 2 ^ 32
    → Counts end d
    → Counts end (create_from a n i ret d).1
unfolding create_from
create_from-Counts a zero i end ret d e b small h = h
create_from-Counts a (suc n) i end ret d e b small h =
    subst (λ j. Counts end (create_from a (suc n) j ret d).1) (sym e)
      (if_elim {x = create_from a n (suc d.online_queues) s.0 s.1} {y = s} (λ t. Counts end t.1)
        (is_zero s.0)
        (λ z.
          create_from-Counts a n _ end s.0 s.1
            (one_more a d (omega (arith, e, b, h.bound, small)) z) (omega (arith, e, b, one.1))
            small one.0)
        (λ z. one.0))
  where
    s : ℤ × NvmeDev
    s = create_queue a d.online_queues false d

    one : Counts end s.1 × (s.1.queue_count ≡ d.queue_count)
    one = create_queue-Counts a end d (omega (arith, e, b)) small h

create_allocated-Counts :
    (a : Answers) (end : ℕ) (ret : ℤ) (d : NvmeDev)
    → end < 2 ^ 32
    → Counts end d
    → Counts end (create_allocated a ret d).1
unfolding create_allocated
create_allocated-Counts a end ret d small h =
    if_elim {A = ℤ × NvmeDev} {x = (negsuc 0, d)}
      {y = (if is_negative s.0 then s.0 else pos 0, s.1)} (λ t. Counts end t.1) d.polls (λ p. h)
      (λ p.
        create_from-Counts a _ d.online_queues end ret d refl
          (ground (arith, h.positive, h.allocated, h.bound, small)) small h)
  where
    s : ℤ × NvmeDev
    s =
        create_from a (suc (min d.max_qid (d.queue_count -u 1)) - d.online_queues) d.online_queues
          ret d

pub create_io_queues-Counts :
    (a : Answers) (end : ℕ) (d : NvmeDev)
    → suc d.max_qid ≤ end
    → end < 2 ^ 32
    → Counts end d
    → Counts end (create_io_queues a d).1
unfolding create_io_queues
create_io_queues-Counts a end d b small h = create_allocated-Counts a end _ _ small (
    alloc_from-Counts a (suc d.max_qid - d.queue_count) d.queue_count end (pos 0) d
      (omega (arith, b, h.bound)) small h)
