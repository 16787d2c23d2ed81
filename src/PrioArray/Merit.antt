-- ===== src/PrioArray/Merit.antt =====
-- The scheduling merit as a weighted mean.
use native.Mathlib.Nat.{
  div-lt_iff_lt-mul, le-div_iff_mul-le, div-mul-le_self, lt-div-mul-add, div-le_of_le-mul,
}
use nvme_plus.Base.{ℕ, ◌+◌, ◌-◌, ◌*◌, ◌/◌, ◌^◌, ◌≤◌, ◌<◌, ◌≡◌, min, arith, dec_le}
use nvme_plus.Base.Int.{pos, add_pos, sub_pos, mul_pos, div_pos}
use nvme_plus.Regulator.{Tunables}
use nvme_plus.PrioArray.{blend}

-- Rounding down after scaling by a fraction `a / d` of at most 1 loses less than it gains.
share_rise : (x k a d : ℕ) → 0 < d → a ≤ d → (x + k) * a / d ≤ x * a / d + k
share_rise x k a d h le =
    let scaled : k * a ≤ k * d = grind arith in
    let cut = lt-div-mul-add {a = x * a} {b = d} h in
    let below : (x + k) * a < (x * a / d + k + 1) * d = omega (arith, scaled, cut) in
    omega (arith, (div-lt_iff_lt-mul {k = d} {x = (x + k) * a} {y = x * a / d + k + 1} h).1 below)

share-le : (x a d : ℕ) → 0 < d → a ≤ d → x * a / d ≤ x
share-le x a d h le = let scaled : x * a ≤ d * x = grind arith in div-le_of_le-mul d scaled

share_mono : (x k a d : ℕ) → 0 < d → x * a / d ≤ (x + k) * a / d
share_mono x k a d h =
    (le-div_iff_mul-le {k = d} {x = x * a / d} {y = (x + k) * a} h).1
      (omega (arith, div-mul-le_self (x * a) d))

abbrev pub max : ℕ → ℕ → ℕ
max a b = a + (b - a)

-- The two bounds of the mean, as numbers.
mean_bounds :
    (x y a d : ℕ)
    → 0 < d
    → a ≤ d
    → (min x y ≤ x - x * a / d + y * a / d) × (x - x * a / d + y * a / d ≤ max x y)
mean_bounds x y a d h le = elim (dec_le x y) [
  | yes up ↦
      let apart : x + (y - x) ≡ y = omega arith in
      let rise = rw apart at (share_rise x (y - x) a d h le) in
      let mono = rw apart at (share_mono x (y - x) a d h) in omega (arith, share-le x a d h le)
  | no down ↦
      let apart : y + (x - y) ≡ x = omega arith in
      let rise = rw apart at (share_rise y (x - y) a d h le) in
      let mono = rw apart at (share_mono y (x - y) a d h) in omega (arith, share-le x a d h le)
]

-- With a fraction of at most 1 and merits whose scaled values fit an `int`, the new merit is an
-- exact number between the last merit and the current measure: no intermediate result overflows.
pub blend_between :
    (t : Tunables) (last tmp a d : ℕ)
    → t.merit_alpha_numer ≡ pos a
    → t.merit_alpha_denom ≡ pos d
    → 0 < d
    → a ≤ d
    → last < 2 ^ 31
    → tmp < 2 ^ 31
    → last * a < 2 ^ 31
    → tmp * a < 2 ^ 31
    → (v : ℕ) × (blend t (pos last) (pos tmp) ≡ pos v) × (min last tmp ≤ v) × (v ≤ max last tmp)
unfolding blend
blend_between t last tmp a d ea ed h le hl ht hla hta =
    let (low, high) = mean_bounds last tmp a d h le in
    (
      last - last * a / d + tmp * a / d,
      rw (
        ea,
        ed,
        mul_pos last a hla,
        mul_pos tmp a hta,
        div_pos (last * a) d (omega (arith, share-le last a d h le)),
        div_pos (tmp * a) d (omega (arith, share-le tmp a d h le)),
        sub_pos last (last * a / d) (share-le last a d h le) hl,
        add_pos (last - last * a / d) (tmp * a / d) (omega (arith, high)),
      ),
      low,
      high,
    )
