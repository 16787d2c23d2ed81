-- ===== src/Creation/Step.antt =====
-- What becomes of the queue whose turn it is: nvme_blex_create_queue() of
-- daredevil/drivers/nvme/host/pci.c.
use nvme_plus.Base.{
  ℕ, suc, ◌+◌, ◌^◌, ◌<◌, ◌≡◌, refl, sym, arith, ◌∙◌, true, false, not, ◌&&◌, ◌||◌, some, if_elim,
  ◌⊎◌, inl, inr,
}
use nvme_plus.Base.Int.{ℤ, pos, negsuc}
use nvme_plus.Base.Words.{◌+u◌, ◌-u◌}
use nvme_plus.Regulator.{update}
use nvme_plus.Topology.{get_cqid}
use nvme_plus.Creation.{
  NvmeDev, Answers, is_zero, is_negative, nvmeq_has_cq, create_queue, vector_of, release_sq,
  start_queue, attach_sq, setup_io_queues_trylock,
}
use nvme_plus.Creation.Keeps.{Same, release_cq-online, release_sq-online}

-- The queue `q` takes requests, its SQ is at the CQ of its group, and if it has a CQ of its own then
-- that exists, with its vector, and its interrupt is requested.
pub record IsAttached (d : NvmeDev) (q : ℕ) : Type 0 where
  pub enabled : d.enabled q ≡ true
  pub sq : d.sqs q ≡ some (get_cqid q d.max_qid d.nr_cqs)
  pub cq : nvmeq_has_cq d q ≡ true → d.cqs q ≡ some (vector_of d q)
  pub irq : nvmeq_has_cq d q ≡ true → d.irqs q ≡ true

-- Either it fails and the count is `n`, or it is one more and the queue is attached.
abbrev pub Turn : ℕ → ℕ → ℤ × NvmeDev → Type 0
Turn n qid s =
    ((s.1.online_queues ≡ n) × (is_zero s.0 ≡ false))
    ⊎ ((s.1.online_queues ≡ suc n) × IsAttached s.1 qid)

is_negative-is_zero : (r : ℤ) → is_negative r ≡ true → is_zero r ≡ false
is_negative-is_zero (pos n) e = absurd (cc)
is_negative-is_zero (negsuc n) e = refl

module _ (a : Answers) (qid : ℕ) where
  start_queue-Turn :
      (d : NvmeDev)
      → d.online_queues + 1 < 2 ^ 32
      → d.sqs qid ≡ some (get_cqid qid d.max_qid d.nr_cqs)
      → (nvmeq_has_cq d qid ≡ true → d.cqs qid ≡ some (vector_of d qid))
      → Turn d.online_queues qid (start_queue a qid d)
  unfolding start_queue nvmeq_has_cq
  start_queue-Turn d b sq cq =
      if_elim {A = ℤ × NvmeDev} (Turn d.online_queues qid) (nvmeq_has_cq d qid)
        (λ h.
          if_elim {A = ℤ × NvmeDev} (Turn d.online_queues qid) (is_negative (a.request_irq qid))
            (λ e. inl (
              release_cq-online a qid released ∙ release_sq-online a qid counted ∙ uncounted,
              is_negative-is_zero _ e,
            ))
            (λ e.
              inr (
                one,
                record { enabled = ground arith; sq = sq; cq = cq; irq = λ k. ground arith },
              )))
        (λ h.
          inr (one, record { enabled = ground arith; sq = sq; cq = cq; irq = λ k. absurd (cc) }))
    where
      counted : NvmeDev
      counted = record d {
        online_queues = d.online_queues +u 1;
        null_cleared = d.null_cleared || (nvmeq_has_cq d qid && not (d.cqes qid));
      }

      released : NvmeDev
      released = release_sq a qid counted

      one : d.online_queues +u 1 ≡ suc d.online_queues
      one = omega (arith, b)

      uncounted : (d.online_queues +u 1) -u 1 ≡ d.online_queues
      uncounted = omega (arith, b)

  attach_sq-Turn :
      (vector : ℕ) (d : NvmeDev)
      → d.online_queues + 1 < 2 ^ 32
      → (nvmeq_has_cq d qid ≡ true → d.cqs qid ≡ some (vector_of d qid))
      → Turn d.online_queues qid (attach_sq a qid vector d)
  unfolding attach_sq nvmeq_has_cq
  attach_sq-Turn vector d b cq =
      if_elim {A = ℤ × NvmeDev} (Turn d.online_queues qid) (is_negative (a.alloc_sq qid))
        (λ e. inl (refl, is_negative-is_zero _ e))
        (λ e.
          if_elim {A = ℤ × NvmeDev} (Turn d.online_queues qid) (is_zero (a.alloc_sq qid))
            (λ z.
              if_elim {A = ℤ × NvmeDev} (Turn d.online_queues qid)
                (is_zero (setup_io_queues_trylock (a.unlocked qid) (a.connecting qid)))
                (λ l. start_queue-Turn _ b (ground arith) cq) (λ l. inl (refl, l)))
            (λ z. inl (release_cq-online a qid d, z)))

  pub create_queue-Turn :
      (d : NvmeDev)
      → d.online_queues + 1 < 2 ^ 32
      → Turn d.online_queues qid (create_queue a qid false d)
  unfolding create_queue nvmeq_has_cq
  create_queue-Turn d b =
      if_elim {A = ℤ × NvmeDev} (Turn d.online_queues qid)
        (nvmeq_has_cq (record d { delete_error = update d.delete_error qid false }) qid)
        (λ h.
          if_elim {A = ℤ × NvmeDev} (Turn d.online_queues qid) (is_zero (a.alloc_cq qid))
            (λ z. attach_sq-Turn _ _ b (λ k. ground arith)) (λ z. inl (refl, z)))
        (λ h. attach_sq-Turn 0 _ b (λ k. absurd (cc)))

  pub create_queue-online :
      (d : NvmeDev)
      → d.online_queues + 1 < 2 ^ 32
      → let s = create_queue a qid false d in
        ((s.1.online_queues ≡ d.online_queues) × (is_zero s.0 ≡ false))
        ⊎ (s.1.online_queues ≡ suc d.online_queues)
  create_queue-online d b = elim (create_queue-Turn d b) [ inl c ↦ inl c | inr c ↦ inr c.0 ]

pub IsAttached-move :
    (d v : NvmeDev) (q : ℕ)
    → Same d v
    → (v.enabled q ≡ d.enabled q)
      × (v.sqs q ≡ d.sqs q)
      × (v.cqs q ≡ d.cqs q)
      × (v.irqs q ≡ d.irqs q)
    → IsAttached d q
    → IsAttached v q
unfolding nvmeq_has_cq
IsAttached-move d v q same (e, s, c, i) h = record {
  enabled = e ∙ h.enabled;
  sq = ground (arith, same.max_qid, same.nr_cqs, s, h.sq);
  cq = λ k. ground (arith, same.max_qid, same.nr_cqs, same.num_vecs, c, h.cq, k);
  irq = λ k. ground (arith, same.max_qid, same.nr_cqs, i, h.irq, k);
}

pub one_more :
    (a : Answers) (d : NvmeDev)
    → d.online_queues + 1 < 2 ^ 32
    → is_zero (create_queue a d.online_queues false d).0 ≡ true
    → suc d.online_queues ≡ (create_queue a d.online_queues false d).1.online_queues
one_more a d b e = elim (create_queue-online a d.online_queues d b) [
  | inl c ↦ absurd (cc)
  | inr c ↦ sym c
]
