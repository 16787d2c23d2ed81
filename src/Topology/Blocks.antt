-- ===== src/Topology/Blocks.antt =====
-- The independent description of the mappings: the NQs 1 .. m form `c` consecutive blocks, one for
-- each NCQ. Block `k` begins at `first k`, and the first m % c blocks have one NQ more.
use native.Mathlib.Nat.{div-add-mod}
use nvme_plus.Base.{
  ℕ, zero, suc, ◌+◌, ◌-◌, ◌*◌, ◌/◌, ◌%◌, ◌≤◌, ◌<◌, ◌≡◌, min, arith, ltb, if◌then◌else◌, dec_lt,
}
use nvme_plus.Topology.{Fits}

module _ (m c : ℕ) where
  abbrev pub first : ℕ → ℕ
  first k = k * (m / c) + min k (m % c) + 1

  abbrev pub width : ℕ → ℕ
  width k = if ltb k (m % c) then m / c + 1 else m / c

  pub first-suc : (k : ℕ) → first (suc k) ≡ first k + width k
  first-suc k = ground arith

pub div-mul-add : (k d j : ℕ) → j < d → (k * d + j) / d ≡ k
div-mul-add k d j h = grind arith

module _ {m c : ℕ} (f : Fits m c) where
  pub split : c * (m / c) + m % c ≡ m
  split = div-add-mod m c

  pub average_pos : 1 ≤ m / c
  average_pos = grind (arith, f.some_cq, f.enough)

  pub extra-lt : m % c < c
  extra-lt = omega (arith, f.some_cq)

  pub first-end : first m c c ≡ m + 1
  first-end = omega (arith, split, extra-lt)

  -- Later blocks begin later, by at least the average a block.
  pub first_mono : (j n : ℕ) → first m c j + n * (m / c) ≤ first m c (j + n)
  first_mono j n = grind arith

  pub first-le : (k : ℕ) → k < c → first m c k + width m c k ≤ m + 1
  first-le k h =
      let step = first_mono (suc k) (c - suc k) in
      let last : suc k + (c - suc k) ≡ c = omega arith in
      omega (arith, rw last at step, first-end, first-suc m c k)

  pub first-lt : (k : ℕ) → k < c → first m c k ≤ m
  first-lt k h = ground (arith, first-le k h, average_pos)

  -- Each NQ lies in one of the first `n` blocks, if it lies before the next.
  pub block_of :
      (n q : ℕ)
      → 1 ≤ q
      → q < first m c n
      → (k : ℕ) × (j : ℕ) × (k < n) × (j < width m c k) × (q ≡ first m c k + j)
  block_of zero q h p = absurd (omega arith)
  block_of (suc n) q h p = elim (dec_lt q (first m c n)) [
    | yes earlier ↦
        let (k, j, below, inside, e) = block_of n q h earlier in (k, j, omega arith, inside, e)
    | no later ↦ (n, q - first m c n, omega arith, omega (arith, first-suc m c n), omega arith)
  ]
