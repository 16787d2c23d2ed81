-- ===== src/Creation/Keeps.antt =====
-- What one turn of the loops of nvme_blex_create_io_queues() leaves as it is: nvme_blex_alloc_queue() and
-- nvme_blex_create_queue() of daredevil/drivers/nvme/host/pci.c.
use nvme_plus.Base.{ℕ, ◌≡◌, ◌≢◌, refl, arith, ◌∙◌, false, not, ◌||◌, ◌&&◌, some, if_elim}
use nvme_plus.Base.Int.{ℤ}
use nvme_plus.Base.Words.{◌+u◌, ◌-u◌}
use nvme_plus.Regulator.{update}
use nvme_plus.Topology.{get_cqid}
use nvme_plus.Creation.{
  NvmeDev, Answers, is_zero, is_negative, nvmeq_has_cq, alloc_queue, create_queue, release_cq,
  release_sq, start_queue, attach_sq, setup_io_queues_trylock,
}

-- What is the same of two devices
pub record Same (d v : NvmeDev) : Type 0 where
  pub max_qid : v.max_qid ≡ d.max_qid
  pub nr_cqs : v.nr_cqs ≡ d.nr_cqs
  pub num_vecs : v.num_vecs ≡ d.num_vecs
  pub polls : v.polls ≡ d.polls

abbrev pub Elsewhere : ℕ → NvmeDev → NvmeDev → Type 0
Elsewhere qid d v =
    (q : ℕ)
    → q ≢ qid
    → (v.enabled q ≡ d.enabled q)
      × (v.sqs q ≡ d.sqs q)
      × (v.cqs q ≡ d.cqs q)
      × (v.irqs q ≡ d.irqs q)

pub Same-trans : {d v w : NvmeDev} → Same d v → Same v w → Same d w
Same-trans s t = record {
  max_qid = t.max_qid ∙ s.max_qid;
  nr_cqs = t.nr_cqs ∙ s.nr_cqs;
  num_vecs = t.num_vecs ∙ s.num_vecs;
  polls = t.polls ∙ s.polls;
}

pub Same-refl : (d : NvmeDev) → Same d d
Same-refl d = record { max_qid = refl; nr_cqs = refl; num_vecs = refl; polls = refl }

-- The settings are the same, and all other queues.
record Keeps (qid : ℕ) (d v : NvmeDev) : Type 0 where
  same : Same d v
  elsewhere : Elsewhere qid d v

Keeps-refl : (qid : ℕ) (d : NvmeDev) → Keeps qid d d
Keeps-refl qid d = record { same = Same-refl d; elsewhere = λ q n. (refl, refl, refl, refl) }

Keeps-then : {qid : ℕ} {d v w : NvmeDev} → Keeps qid d v → Keeps qid v w → Keeps qid d w
Keeps-then k l = record {
  same = Same-trans k.same l.same;
  elsewhere = λ q n.
      let (e, s, c, i) = k.elsewhere q n in
      let (e', s', c', i') = l.elsewhere q n in (e' ∙ e, s' ∙ s, c' ∙ c, i' ∙ i);
}

module _ (a : Answers) (qid : ℕ) where
  release_cq-Keeps : (d : NvmeDev) → Keeps qid d (release_cq a qid d)
  unfolding release_cq
  release_cq-Keeps d =
      if_elim (Keeps qid d) (nvmeq_has_cq d qid && a.deletes_cq qid)
        (λ e. record {
          same = record { max_qid = refl; nr_cqs = refl; num_vecs = refl; polls = refl };
          elsewhere = λ q n. (refl, refl, ground (arith, n), refl);
        })
        (λ e. Keeps-refl qid d)

  pub release_cq-online : (d : NvmeDev) → (release_cq a qid d).online_queues ≡ d.online_queues
  unfolding release_cq
  release_cq-online d = ground arith

  pub release_sq-online : (d : NvmeDev) → (release_sq a qid d).online_queues ≡ d.online_queues -u 1
  unfolding release_sq
  release_sq-online d = refl

  release_sq-Keeps : (d : NvmeDev) → Keeps qid d (release_sq a qid d)
  unfolding release_sq
  release_sq-Keeps d = record {
    same = record { max_qid = refl; nr_cqs = refl; num_vecs = refl; polls = refl };
    elsewhere = λ q n. (refl, ground (arith, n), refl, refl);
  }

  start_queue-Keeps : (d : NvmeDev) → Keeps qid d (start_queue a qid d).1
  unfolding start_queue
  start_queue-Keeps d =
      if_elim {A = ℤ × NvmeDev} (λ s. Keeps qid d s.1) (nvmeq_has_cq d qid)
        (λ h.
          if_elim {A = ℤ × NvmeDev} (λ s. Keeps qid d s.1) (is_negative (a.request_irq qid))
            (λ e. Keeps-then counted (Keeps-then (release_sq-Keeps _) (release_cq-Keeps _)))
            (λ e. record {
              same = record { max_qid = refl; nr_cqs = refl; num_vecs = refl; polls = refl };
              elsewhere = λ q n. (ground (arith, n), refl, refl, ground (arith, n));
            }))
        (λ h. record {
          same = record { max_qid = refl; nr_cqs = refl; num_vecs = refl; polls = refl };
          elsewhere = λ q n. (ground (arith, n), refl, refl, refl);
        })
    where
      counted : Keeps qid d (record d {
        online_queues = d.online_queues +u 1;
        null_cleared = d.null_cleared || (nvmeq_has_cq d qid && not (d.cqes qid));
      })
      counted = record {
        same = record { max_qid = refl; nr_cqs = refl; num_vecs = refl; polls = refl };
        elsewhere = λ q n. (refl, refl, refl, refl);
      }

  attach_sq-Keeps : (vector : ℕ) (d : NvmeDev) → Keeps qid d (attach_sq a qid vector d).1
  unfolding attach_sq
  attach_sq-Keeps vector d =
      if_elim {A = ℤ × NvmeDev} (λ s. Keeps qid d s.1) (is_negative (a.alloc_sq qid))
        (λ e. Keeps-refl qid d)
        (λ e.
          if_elim {A = ℤ × NvmeDev} (λ s. Keeps qid d s.1) (is_zero (a.alloc_sq qid))
            (λ z.
              if_elim {A = ℤ × NvmeDev} (λ s. Keeps qid d s.1)
                (is_zero (setup_io_queues_trylock (a.unlocked qid) (a.connecting qid)))
                (λ l. Keeps-then attached (start_queue-Keeps _)) (λ l. attached))
            (λ z. release_cq-Keeps d))
    where
      v : NvmeDev
      v = record d {
        sqs = update d.sqs qid (some (get_cqid qid d.max_qid d.nr_cqs));
        cq_vector = update d.cq_vector qid vector;
      }

      attached : Keeps qid d v
      attached = record {
        same = record { max_qid = refl; nr_cqs = refl; num_vecs = refl; polls = refl };
        elsewhere = λ q n. (refl, ground (arith, n), refl, refl);
      }

  create_queue-Keeps : (d : NvmeDev) → Keeps qid d (create_queue a qid false d).1
  unfolding create_queue
  create_queue-Keeps d =
      if_elim {A = ℤ × NvmeDev} (λ s. Keeps qid d s.1)
        (nvmeq_has_cq (record d { delete_error = update d.delete_error qid false }) qid)
        (λ h.
          if_elim {A = ℤ × NvmeDev} (λ s. Keeps qid d s.1) (is_zero (a.alloc_cq qid))
            (λ z.
              Keeps-then
                (record {
                  same = record { max_qid = refl; nr_cqs = refl; num_vecs = refl; polls = refl };
                  elsewhere = λ q n. (refl, refl, ground (arith, n), refl);
                })
                (attach_sq-Keeps _ _))
            (λ z. cleared))
        (λ h. Keeps-then cleared (attach_sq-Keeps 0 _))
    where
      cleared : Keeps qid d (record d { delete_error = update d.delete_error qid false })
      cleared = record {
        same = record { max_qid = refl; nr_cqs = refl; num_vecs = refl; polls = refl };
        elsewhere = λ q n. (refl, refl, refl, refl);
      }

  pub create_queue-Same : (d : NvmeDev) → Same d (create_queue a qid false d).1
  create_queue-Same d = (create_queue-Keeps d).same

  pub create_queue-Elsewhere : (d : NvmeDev) → Elsewhere qid d (create_queue a qid false d).1
  create_queue-Elsewhere d = (create_queue-Keeps d).elsewhere

pub alloc_queue-Same : (a : Answers) (qid : ℕ) (d : NvmeDev) → Same d (alloc_queue a qid d).1
unfolding alloc_queue
alloc_queue-Same a qid d = record {
  max_qid = ground arith;
  nr_cqs = ground arith;
  num_vecs = ground arith;
  polls = ground arith;
}

-- nvme_blex_alloc_queue() leaves what is created and online.
pub alloc_queue-created :
    (a : Answers) (qid : ℕ) (d : NvmeDev)
    → let v = (alloc_queue a qid d).1 in
      (v.online_queues ≡ d.online_queues)
      × ((q : ℕ)
          → (v.enabled q ≡ d.enabled q)
            × (v.sqs q ≡ d.sqs q)
            × (v.cqs q ≡ d.cqs q)
            × (v.irqs q ≡ d.irqs q))
unfolding alloc_queue
alloc_queue-created a qid d =
    (ground arith, λ q. (ground arith, ground arith, ground arith, ground arith))
