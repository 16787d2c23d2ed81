-- ===== src/Init/Build.antt =====
-- The regulator that is built when every allocation succeeds.
use nvme_plus.Base.{ℕ, zero, suc, ◌-◌, ◌<◌, ◌≡◌, refl, Bool, true, false, arith, ltb, ◌==◌, if_elim}
use nvme_plus.Base.Run.{ok}
use nvme_plus.Base.Words.{◌+u◌}
use nvme_plus.Regulator.{Regulator, Tunables, ExposedNq, set_enq}
use nvme_plus.Topology.{DevInfo, get_cqid, get_cq_nr_nsqs}
use nvme_plus.Cells.{Memory, Supply}
use nvme_plus.Setup.{
  enq_alloc, enq_init, new_enq, enq_fields, encq_init, ncq_arr_init, table, filled,
}
use nvme_plus.Init.{init_enqs}

abbrev pub plenty : Supply
plenty = record {
  nsq_maps = true;
  enqs = true;
  group_heap = λ p. true;
  mask = λ i. true;
  encq = λ i. true;
  nq_heap = λ i. true;
}

-- The regulator after the first eNQs are initialised.
pub with_enqs : Tunables → ℕ → Regulator → Regulator
with_enqs t zero r = r
with_enqs t (suc k) r = let r' = with_enqs t k r in set_enq r' k (new_enq t r' (suc k))

alloc_plenty :
    (i : ℕ) (has_cq many : Bool) (mem : Memory)
    → (mem' : Memory) × (enq_alloc plenty i has_cq many mem ≡ ok (true, mem'))
unfolding enq_alloc
alloc_plenty i true true mem = (_, refl)
alloc_plenty i true false mem = (_, refl)
alloc_plenty i false many mem = (_, refl)

enq_plenty :
    (t : Tunables) (k : ℕ) (r : Regulator) (mem : Memory)
    → (mem' : Memory) × (enq_init t plenty (suc k) r mem
        ≡ ok (true, set_enq r k (new_enq t r (suc k)), mem'))
unfolding enq_init
enq_plenty t k r mem =
    let at : suc k - 1 ≡ k = omega arith in
    let e = new_enq t r (suc k) in
    let (mem', done) = alloc_plenty k (e.nqid == e.cqid) (ltb 1 e.encq.nr_attached_nsqs) mem in
    (mem', rw (at, done) refl)

pub init_enqs-plenty :
    (t : Tunables) (k : ℕ) (r : Regulator) (mem : Memory)
    → (mem' : Memory) × (init_enqs t plenty k r mem ≡ ok (true, with_enqs t k r, mem'))
unfolding init_enqs with_enqs
init_enqs-plenty t zero r mem = (mem, refl)
init_enqs-plenty t (suc k) r mem =
    let (m1, before) = init_enqs-plenty t k r mem in
    let (m2, now) = enq_plenty t k (with_enqs t k r) m1 in (m2, rw (before, now) refl)

-- The loop changes only eNQs.
pub with_enqs_rest :
    (t : Tunables) (k : ℕ) (r : Regulator)
    → ((with_enqs t k r).blex_info ≡ r.blex_info)
      × ((with_enqs t k r).nsq_maps ≡ r.nsq_maps)
      × ((with_enqs t k r).nq_groups ≡ r.nq_groups)
unfolding with_enqs
with_enqs_rest t zero r = (refl, refl, refl)
with_enqs_rest t (suc k) r = with_enqs_rest t k r

-- What an initialised eNQ is, on a device of the given counts.
pub record IsInit (t : Tunables) (info : DevInfo) (e : ExposedNq) (nqid : ℕ) : Type 0 where
  pub id : e.nqid ≡ nqid
  pub mask : e.ensq.claimed_core_cpumask ≡ (λ cpu. false)
  pub ncq : e.has_encq ≡ (nqid == get_cqid nqid info.max_nqid info.nr_cqs)
  pub arr :
      e.has_encq ≡ true
      → let count = get_cq_nr_nsqs nqid info.max_nqid info.nr_cqs in
        (e.encq.nr_attached_nsqs ≡ count)
        × (1 < count → e.encq.prio_arr ≡ filled t (table count λ id. nqid +u id) count)

new_enq-IsInit :
    (t : Tunables) (r : Regulator) (nqid : ℕ) → IsInit t r.blex_info (new_enq t r nqid) nqid
unfolding new_enq enq_fields encq_init ncq_arr_init
new_enq-IsInit t r nqid = record {
  id = ground arith;
  mask = ground arith;
  ncq = ground arith;
  arr = λ h. ground arith;
}

pub with_enqs-IsInit :
    (t : Tunables) (k i : ℕ) (r : Regulator)
    → i < k
    → IsInit t r.blex_info ((with_enqs t k r).enqs i) (suc i)
unfolding with_enqs
with_enqs-IsInit t zero i r h = absurd (omega arith)
with_enqs-IsInit t (suc k) i r h =
    let r' = with_enqs t k r in
    if_elim {x = new_enq t r' (suc k)} {y = r'.enqs i} (λ e. IsInit t r.blex_info e (suc i))
      (k == i)
      (λ same.
        (let e : k ≡ i = ground arith in
          rw⁻¹ e (rw (with_enqs_rest t k r).0 at (new_enq-IsInit t r' (suc k)))))
      (λ other. with_enqs-IsInit t k i r (ground arith))
