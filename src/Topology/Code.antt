-- ===== src/Topology/Code.antt =====
-- Each mapping of the code meets the description by blocks; no `unsigned int` wraps on the way.
use native.Mathlib.Nat.{mod-eq_of_lt, mod-lt}
use nvme_plus.Base.{ℕ, suc, ◌+◌, ◌-◌, ◌*◌, ◌/◌, ◌%◌, ◌^◌, ◌≤◌, ◌<◌, ◌≡◌, ap, arith, dec_lt}
use nvme_plus.Base.Words.{◌*u◌, ◌+u◌, ◌-u◌}
use nvme_plus.Topology.{
  Fits, min_no_extra_sq_cqid, cqid_to_kth_sqid, get_cq_nr_nsqs, get_kth_cqid, cqid_to_index,
  get_cqid,
}
use nvme_plus.Topology.Blocks.{
  first, width, first-suc, div-mul-add, average_pos, extra-lt, first-le, first-lt, first_mono,
}

module _ {m c : ℕ} (f : Fits m c) where
  average-lt : m / c + 1 < 2 ^ 32
  average-lt = grind (arith, f.small, f.some_cq)

  long_width : m / c +u 1 ≡ m / c + 1
  long_width = omega (arith, average-lt)

  min_lem : min_no_extra_sq_cqid m c ≡ first m c (m % c)
  unfolding min_no_extra_sq_cqid
  min_lem =
      let fits = first-lt f (m % c) (extra-lt f) in rw long_width (omega (arith, f.small, fits))

  pub kth_lem : (k : ℕ) → k < c → get_kth_cqid k m c ≡ first m c k
  unfolding get_kth_cqid
  kth_lem k h = rw (mod-eq_of_lt h, long_width) (ground (arith, f.small, first-lt f k h))

  -- Up to the first short block an NCQ id counts blocks of the long width.
  first_long : (k : ℕ) → k ≤ m % c → first m c k ≡ k * (m / c + 1) + 1
  first_long k h = omega arith

  -- From there on the distance counts blocks of the average width.
  first_short : (k : ℕ) → m % c ≤ k → first m c k ≡ first m c (m % c) + (k - m % c) * (m / c)
  first_short k h =
      let apart : k ≡ m % c + (k - m % c) = omega arith in
      omega (arith, ap (λ (t : ℕ). t * (m / c)) apart)

  first-lt-min : (k : ℕ) → k < m % c → first m c k + width m c k ≤ first m c (m % c)
  first-lt-min k h =
      let apart : suc k + (m % c - suc k) ≡ m % c = omega arith in
      let rise = first_mono f (suc k) (m % c - suc k) in
      omega (arith, rw apart at rise, first-suc m c k)

  min-le-first : (k : ℕ) → m % c ≤ k → first m c (m % c) ≤ first m c k
  min-le-first k h = omega (arith, first_short k h)

  pub nr_nsqs_lem : (k : ℕ) → k < c → get_cq_nr_nsqs (first m c k) m c ≡ width m c k
  unfolding get_cq_nr_nsqs
  nr_nsqs_lem k h =
      rw (min_lem, long_width)
        elim (dec_lt k (m % c)) [
          | yes long ↦ ground (arith, first-lt-min k long, average_pos f)
          | no short ↦ ground (arith, min-le-first k (omega arith))
        ]

  index_long : (k : ℕ) → k ≤ m % c → first m c k / (m / c + 1) ≡ k
  index_long k h = rw (first_long k h) (div-mul-add k (m / c + 1) 1 (omega (arith, average_pos f)))

  -- The distance from the first short block, in blocks of the average width.
  distance :
      (k j : ℕ)
      → k < c
      → j < width m c k
      → m % c ≤ k
      → (first m c k + j -u first m c (m % c)) / (m / c) ≡ k - m % c
  distance k j h i short =
      let apart : first m c k + j -u first m c (m % c) ≡ (k - m % c) * (m / c) + j =
        omega (arith, f.small, first_short k short, first-le f k h) in
      rw apart (div-mul-add (k - m % c) (m / c) j (ground arith))

  pub index_lem : (k : ℕ) → k < c → cqid_to_index (first m c k) m c ≡ k
  unfolding cqid_to_index
  index_lem k h =
      rw (min_lem, long_width)
        elim (dec_lt (m % c) k) [
          | yes short ↦ ground (
            arith,
            f.small,
            average_pos f,
            extra-lt f,
            first_mono f (m % c) (k - m % c),
            distance k 0 h,
            index_long (m % c) (omega arith),
          )
          | no long ↦ ground (arith, first-lt-min k, index_long k (omega arith))
        ]

  get_cqid-long :
      (k j : ℕ)
      → k < m % c
      → j < width m c k
      → (first m c k + j -u 1) / (m / c + 1) *u (m / c + 1) +u 1 ≡ first m c k
  get_cqid-long k j long i =
      let back : first m c k + j -u 1 ≡ k * (m / c + 1) + j =
        omega
          (arith, f.small, first_long k (omega arith), first-le f k (omega (arith, extra-lt f))) in
      rw (back, div-mul-add k (m / c + 1) j (ground arith))
        (omega
          (arith, f.small, first_long k (omega arith), first-lt f k (omega (arith, extra-lt f))))

  pub get_cqid_lem :
      (k j : ℕ) → k < c → j < width m c k → get_cqid (first m c k + j) m c ≡ first m c k
  unfolding get_cqid
  get_cqid_lem k j h i =
      rw (min_lem, long_width)
        elim (dec_lt k (m % c)) [
          | yes long ↦ ground (arith, first-lt-min k long, get_cqid-long k j long i)
          | no short ↦
              let far = first_short k (omega arith) in
              let before : first m c (m % c) ≤ first m c k + j = omega (arith, far) in
              ground (arith, before, far, f.small, first-lt f k h, distance k j h i (omega arith))
        ]

  pub kth_sqid_lem :
      (k j : ℕ) → k < c → cqid_to_kth_sqid (first m c k) j m c ≡ first m c k + j % width m c k
  unfolding cqid_to_kth_sqid
  kth_sqid_lem k j h =
      rw (min_lem, long_width)
        elim (dec_lt k (m % c)) [
          | yes long ↦ ground (
            arith,
            f.small,
            first-lt-min k long,
            first-le f k h,
            mod-lt j {m = m / c + 1} (omega arith),
          )
          | no short ↦ ground (
            arith,
            f.small,
            min-le-first k (omega arith),
            first-le f k h,
            mod-lt j {m = m / c} (average_pos f),
          )
        ]
