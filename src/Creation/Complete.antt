-- ===== src/Creation/Complete.antt =====
-- nvme_blex_create_io_queues() of daredevil/drivers/nvme/host/pci.c where nothing fails.
use nvme_plus.Base.{
  ℕ, zero, suc, ◌+◌, ◌-◌, ◌^◌, ◌≤◌, ◌<◌, ◌≡◌, refl, sym, subst, ap, ◌∙◌, arith, Bool, true, false,
  ◌⊎◌, inl, inr, Bool-cases, if◌then◌else◌, min,
}
use nvme_plus.Base.Words.{◌-u◌}
use nvme_plus.Base.Int.{ℤ, pos, negsuc}
use nvme_plus.Topology.{Fits}
use nvme_plus.Creation.{
  NvmeDev, Answers, is_zero, is_negative, alloc_queue, create_queue, alloc_from, create_from,
  create_allocated, create_io_queues,
}
use nvme_plus.Creation.Grants.{Grants, create_queue-Grants, alloc_queue-Grants}
use nvme_plus.Creation.Memory.{IsClear}
use nvme_plus.Creation.Step.{one_more}
use nvme_plus.Creation.Attached.{
  AllAttached, Serves, alloc_from-Grows, create_io_queues-Grows, create_io_queues-Serves,
}

module _ (a : Answers) (end : ℕ) (grants : (q : ℕ) → q < end → Grants a q)
    (small : end < 2 ^ 32) where
  alloc_from-Grants :
      (n i : ℕ) (d : NvmeDev)
      → i ≡ d.queue_count
      → i + n ≤ end
      → let s = alloc_from a n i (pos 0) d in (s.0 ≡ pos 0) × (s.1.queue_count ≡ d.queue_count + n)
  unfolding alloc_from
  alloc_from-Grants zero i d e b = (refl, omega arith)
  alloc_from-Grants (suc n) i d e b =
      let (zeroed, one) =
        alloc_queue-Grants a d (omega (arith, e, b, small)) (grants _ (omega (arith, e, b))) in
      let (ret, count) =
        alloc_from-Grants n (suc d.queue_count) (alloc_queue a d.queue_count d).1 (sym one)
          (omega (arith, e, b)) in
      subst
        (λ j.
          let s = alloc_from a (suc n) j (pos 0) d in
          (s.0 ≡ pos 0) × (s.1.queue_count ≡ d.queue_count + suc n))
        (sym e) (rw zeroed (ret, omega (arith, count, one)))

  create_from-Grants :
      (n i : ℕ) (ret : ℤ) (d : NvmeDev)
      → ret ≡ pos 0
      → i ≡ d.online_queues
      → i + n ≤ end
      → let s = create_from a n i ret d in (s.0 ≡ pos 0) × (s.1.online_queues ≡ d.online_queues + n)
  unfolding create_from
  create_from-Grants zero i ret d r e b = (r, omega arith)
  create_from-Grants (suc n) i ret d r e b =
      let zeroed = create_queue-Grants a d.online_queues d (grants _ (omega (arith, e, b))) in
      let one = one_more a d (omega (arith, e, b, small)) (ap is_zero zeroed) in
      let (ret', count) =
        create_from-Grants n (suc d.online_queues) _ (create_queue a d.online_queues false d).1
          zeroed one (omega (arith, e, b)) in
      subst
        (λ j.
          let s = create_from a (suc n) j ret d in
          (s.0 ≡ pos 0) × (s.1.online_queues ≡ d.online_queues + suc n))
        (sym e)
        (subst
          (λ t.
            let s =
              if t
              then create_from a n (suc d.online_queues) (create_queue a d.online_queues false d).0
                  (create_queue a d.online_queues false d).1
              else create_queue a d.online_queues false d in
            (s.0 ≡ pos 0) × (s.1.online_queues ≡ d.online_queues + suc n))
          (sym (ap is_zero zeroed)) (ret', omega (arith, count, one)))

create_allocated-Grants :
    (a : Answers) (d : NvmeDev)
    → suc d.max_qid < 2 ^ 32
    → d.online_queues ≤ suc d.max_qid
    → d.queue_count ≡ suc d.max_qid
    → d.polls ≡ false
    → ((q : ℕ) → q < suc d.max_qid → Grants a q)
    → let s = create_allocated a (pos 0) d in (s.0 ≡ pos 0) × (s.1.online_queues ≡ suc d.max_qid)
unfolding create_allocated
create_allocated-Grants a d small o c p grants =
    subst Good (sym p)
      (ap (λ r. if is_negative r then r else pos 0) made.0, omega (arith, made.1, count, o))
  where
    turns : ℕ
    turns = suc (min d.max_qid (d.queue_count -u 1)) - d.online_queues

    count : turns ≡ suc d.max_qid - d.online_queues
    count = ground (arith, c, small)

    s : ℤ × NvmeDev
    s = create_from a turns d.online_queues (pos 0) d

    made : (s.0 ≡ pos 0) × (s.1.online_queues ≡ d.online_queues + turns)
    made =
        create_from-Grants a (suc d.max_qid) grants small turns d.online_queues (pos 0) d refl refl
          (omega (arith, count, o))

    left : ℤ × NvmeDev
    left = (negsuc 0, d)

    right : ℤ × NvmeDev
    right = (if is_negative s.0 then s.0 else pos 0, s.1)

    Good : Bool → Type 0
    Good t =
        let v = if t then left else right in (v.0 ≡ pos 0) × (v.1.online_queues ≡ suc d.max_qid)

create_io_queues-Grants :
    (a : Answers) (d : NvmeDev)
    → suc d.max_qid < 2 ^ 32
    → d.online_queues ≤ suc d.max_qid
    → d.queue_count ≤ suc d.max_qid
    → d.polls ≡ false
    → AllAttached d
    → ((q : ℕ) → q < suc d.max_qid → Grants a q)
    → let s = create_io_queues a d in (s.0 ≡ pos 0) × (s.1.online_queues ≡ suc d.max_qid)
unfolding create_io_queues
create_io_queues-Grants a d small o c p h grants =
    let g =
      alloc_from-Grows a (suc d.max_qid - d.queue_count) d.queue_count (suc d.max_qid) (pos 0) d o
        h in
    let (ret, count) =
      alloc_from-Grants a (suc d.max_qid) grants small (suc d.max_qid - d.queue_count) d.queue_count
        d refl (omega (arith, c)) in
    let v = (alloc_from a (suc d.max_qid - d.queue_count) d.queue_count (pos 0) d).1 in
    let (done, online) =
      create_allocated-Grants a v (omega (arith, g.same.max_qid, small))
        (omega (arith, g.same.max_qid, g.bound)) (omega (arith, g.same.max_qid, count, c))
        (g.same.polls ∙ p) (λ q l. grants q (omega (arith, l, g.same.max_qid))) in
    rw ret (done, online ∙ ap suc g.same.max_qid)

-- Either polled queues are set and the call fails, or all queues are online.
pub create_io_queues-all :
    (a : Answers) (d : NvmeDev)
    → suc d.max_qid < 2 ^ 32
    → d.online_queues ≤ suc d.max_qid
    → d.queue_count ≤ suc d.max_qid
    → AllAttached d
    → ((q : ℕ) → q < suc d.max_qid → Grants a q)
    → let s = create_io_queues a d in (is_zero s.0 ≡ false) ⊎ (s.1.online_queues ≡ suc s.1.max_qid)
create_io_queues-all a d small o c h grants =
    let max = (create_io_queues-Grows a d small o h).same.max_qid in
    elim (Bool-cases d.polls) [
      | inl p ↦ inl (polled p)
      | inr p ↦ inr ((create_io_queues-Grants a d small o c p h grants).1 ∙ ap suc (sym max))
    ]
  where
    polled : d.polls ≡ true → is_zero (create_io_queues a d).0 ≡ false
    polled p =
        unfold create_io_queues in
        unfold create_allocated in
        let g =
          alloc_from-Grows a (suc d.max_qid - d.queue_count) d.queue_count (suc d.max_qid) (pos 0) d
            o h in
        rw (g.same.polls, p) refl

-- Where nothing that is asked for a queue up to max_qid fails, no polled queues are set, every I/O queue
-- that is online is attached, the queues online are allocated, and each queue that is allocated and has a CQ
-- has the memory for it: nvme_blex_create_io_queues() returns 0, clears no memory that is not allocated,
-- max_qid I/O queues are online
-- in the end, besides the one for admin commands, and each of them is enabled and has its SQ at the CQ of
-- its group, which exists, with its vector and with its interrupt requested. The conditions are besides
-- that the device has at least one NCQ and at most as many as NQs, fewer than 2^32 - 1, and that before
-- at most max_qid + 1 queues are online and at most as many allocated.
pub create_io_queues-completes :
    (a : Answers) (d : NvmeDev)
    → Fits d.max_qid d.nr_cqs
    → d.online_queues ≤ suc d.max_qid
    → d.queue_count ≤ suc d.max_qid
    → d.polls ≡ false
    → IsClear d
    → AllAttached d
    → ((q : ℕ) → q < suc d.max_qid → Grants a q)
    → let s = create_io_queues a d in
      (s.0 ≡ pos 0)
      × (s.1.null_cleared ≡ false)
      × (s.1.online_queues ≡ suc d.max_qid)
      × ((q : ℕ) → 1 ≤ q → q ≤ d.max_qid → Serves d s.1 q)
create_io_queues-completes a d fits o c p k h grants =
    let (ret, online) = create_io_queues-Grants a d (omega (arith, fits.small)) o c p h grants in
    let (clear, more, bound, attached, serves) = create_io_queues-Serves a d fits o k h in
    (
      ret,
      clear.cleared,
      online,
      λ q positive inside. serves q positive (omega (arith, inside, online)),
    )
