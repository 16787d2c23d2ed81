-- ===== src/Samples/Valid.antt =====
-- The device of the tests is well-formed.
use mathlib.Core.HLevel.{⊥_prop}
use mathlib.Core.List.{Mem, Nodup, Nodup-cons, Pairwise, eq-or-mem_of_mem-cons, not-mem-nil}
use mathlib.Core.Logic.Or
use nvme_plus.Base.{
  ℕ, zero, suc, ◌+◌, ◌-◌, ◌%◌, ◌<◌, ◌≤◌, ◌≡◌, ◌≢◌, ◌⊎◌, inl, inr, ℕ_discrete, refl, arith, true,
  none, [], ◌∷◌,
}
use nvme_plus.PrioArray.{ArrayRef, of_group, of_ncq, read_arr}
use nvme_plus.PrioArray.Update.{IsPrioArray}
use nvme_plus.Maps.Claims.{IsConsistent, entries}
use nvme_plus.Profile.{prio_level}
use nvme_plus.Sched.Divisors.{Divisors}
use nvme_plus.Sched.Valid.{IsRegulator, IsLive}
use nvme_plus.Samples.{sample, tunables, sample_enq, array}

entries-none : (n : ℕ) → entries n (λ i. none) ≡ 0
unfolding entries
entries-none zero = refl
entries-none (suc n) = rw (entries-none n)

pub sample-IsConsistent : IsConsistent 6 sample
sample-IsConsistent = record {
  ids = λ i h. refl;
  counted = λ cpu i h e. ground arith;
  masked = λ cpu i h. refl;
  in_use = λ cpu. rw (entries-none 6);
}

-- A member of a list of two.
mem-two : (x a b : ℕ) → Mem x (a ∷ b ∷ []) → (x ≡ a) ⊎ (x ≡ b)
mem-two x a b m = elim (ℕ_discrete x a) [
  | yes e ↦ inl e
  | no n ↦ elim (ℕ_discrete x b) [
    | yes e ↦ inr e
    | no n' ↦ absurd (
        Or.elim ⊥_prop (eq-or-mem_of_mem-cons m) n
          (λ m'. Or.elim ⊥_prop (eq-or-mem_of_mem-cons m') n' not-mem-nil))
  ]
]

two-Nodup : (a b : ℕ) → a ≢ b → Nodup (a ∷ b ∷ [])
two-Nodup a b apart = Nodup-cons.1 (
  λ m. Or.elim ⊥_prop (eq-or-mem_of_mem-cons m) apart not-mem-nil,
  Nodup-cons.1 (not-mem-nil, Pairwise.nil),
)

mem-one : (x a : ℕ) → Mem x (a ∷ []) → x ≡ a
mem-one x a m = elim (ℕ_discrete x a) [
  | yes e ↦ e
  | no n ↦ absurd (Or.elim ⊥_prop (eq-or-mem_of_mem-cons m) n not-mem-nil)
]

two-IsPrioArray : (a b : ℕ) → suc a ≢ b → 0 < b → IsPrioArray sample (array a (suc a ∷ b ∷ []) 2)
two-IsPrioArray a b apart some_id = record {
  size = refl;
  some_nq = omega arith;
  top = refl;
  ids = λ x m. elim (mem-two x (suc a) b m) [
    | inl e ↦ (omega arith, omega arith)
    | inr e ↦ (omega arith, omega arith)
  ];
  distinct = two-Nodup (suc a) b apart;
}

first_group : IsPrioArray sample (array 0 (1 ∷ []) 1)
first_group = record {
  size = refl;
  some_nq = omega arith;
  top = refl;
  ids = λ x m. (let e = mem-one x 1 m in (omega arith, omega arith));
  distinct = Nodup-cons.1 (not-mem-nil, Pairwise.nil);
}

-- The NQs of an NCQ's array
ncq-inside :
    (i x : ℕ) → i < 6 → (sample_enq i).has_encq ≡ true → Mem x (suc i ∷ (i + 2) ∷ []) → x ≤ 6
ncq-inside i x h has m = elim (mem-two x (suc i) (i + 2) m) [
  | inl e ↦ omega arith
  | inr e ↦ (let even : i % 2 ≡ 0 = ground arith in omega arith)
]

pub sample-IsRegulator : IsRegulator 6 sample
sample-IsRegulator = record {
  maps = sample-IsConsistent;
  arrays = arrays;
  inside = inside;
  ncqs = ncqs;
}
  where
    arrays : (ref : ArrayRef) → IsLive 6 sample ref → IsPrioArray sample (read_arr sample ref)
    arrays (of_group zero) live = first_group
    arrays (of_group (suc zero)) live = two-IsPrioArray 2 5 (omega arith) (omega arith)
    arrays (of_group (suc (suc p))) live = absurd (omega arith)
    arrays (of_ncq i) live = two-IsPrioArray i (i + 2) (omega arith) (omega arith)

    inside :
        (ref : ArrayRef)
        → IsLive 6 sample ref
        → (x : ℕ) → Mem x (read_arr sample ref).bin_heap
        → x ≤ 6
    inside (of_group zero) live x m = omega (arith, mem-one x 1 m)
    inside (of_group (suc zero)) live x m = elim (mem-two x 3 5 m) [
      | inl e ↦ omega arith
      | inr e ↦ omega arith
    ]
    inside (of_group (suc (suc p))) live x m = absurd (omega arith)
    inside (of_ncq i) live x m = ncq-inside i x live.0 live.1 m

    ncqs :
        (p : ℕ)
        → p < prio_level
        → (x : ℕ) → Mem x (sample.nq_groups p).prio_arr.bin_heap
        → (sample.enqs (x - 1)).has_encq ≡ true
    ncqs zero h x m = rw (mem-one x 1 m) refl
    ncqs (suc zero) h x m = elim (mem-two x 3 5 m) [ inl e ↦ rw e refl | inr e ↦ rw e refl ]
    ncqs (suc (suc p)) h x m = absurd (omega arith)

pub sample-Divisors : Divisors 6 tunables sample
sample-Divisors = record {
  alpha = (9, refl);
  qdepth = λ i h e. grind arith;
  attached = λ p h e. ground arith;
}
