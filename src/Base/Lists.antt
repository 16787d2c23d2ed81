-- ===== src/Base/Lists.antt =====
-- C arrays as lists with native indices, under the library's names.
use Prim.Native.Nat.{ℕ, zero, suc, ◌+◌, ◌<◌}
use mathlib.Core.Path.{◌≡◌, refl, ap, ◌∙◌}
use mathlib.Core.Logic.{◌≢◌}
use mathlib.Core.List.{
  List, [], ◌∷◌, ◌++◌, Perm, Mem, Nodup, Nodup-cons, mem-cons_self, mem-cons_of_mem,
}
use mathlib.Core.List.Perm
use native.Mathlib.Omega.{arith}
use nvme_plus.Base.Tests.{◌==◌, if◌then◌else◌}

module _ {ℓ} {A : Type ℓ} where
  abbrev pub length : List A → ℕ
  length [] = 0
  length (x ∷ xs) = suc (length xs)

  -- A read out of range gives `d`.
  abbrev pub get_or : List A → ℕ → A → A
  get_or [] i d = d
  get_or (x ∷ xs) zero d = x
  get_or (x ∷ xs) (suc i) d = get_or xs i d

  -- A write out of range changes nothing.
  abbrev pub set : List A → ℕ → A → List A
  set [] i v = []
  set (x ∷ xs) zero v = v ∷ xs
  set (x ∷ xs) (suc i) v = x ∷ set xs i v

  pub length-append : (xs ys : List A) → length (xs ++ ys) ≡ length xs + length ys
  length-append [] ys = omega arith
  length-append (x ∷ xs) ys = omega (arith, length-append xs ys)

  pub length-set : (xs : List A) (i : ℕ) (v : A) → length (set xs i v) ≡ length xs
  length-set [] i v = refl
  length-set (x ∷ xs) zero v = refl
  length-set (x ∷ xs) (suc i) v = ap suc (length-set xs i v)

  pub get_or-set_self :
      (xs : List A) (i : ℕ) (v d : A) → i < length xs → get_or (set xs i v) i d ≡ v
  get_or-set_self [] i v d h = absurd (omega arith)
  get_or-set_self (x ∷ xs) zero v d h = refl
  get_or-set_self (x ∷ xs) (suc i) v d h = get_or-set_self xs i v d (omega arith)

  pub get_or-set_ne :
      (xs : List A) (i j : ℕ) (v d : A) → i ≢ j → get_or (set xs i v) j d ≡ get_or xs j d
  get_or-set_ne [] i j v d h = refl
  get_or-set_ne (x ∷ xs) zero zero v d h = absurd (h refl)
  get_or-set_ne (x ∷ xs) zero (suc j) v d h = refl
  get_or-set_ne (x ∷ xs) (suc i) zero v d h = refl
  get_or-set_ne (x ∷ xs) (suc i) (suc j) v d h = get_or-set_ne xs i j v d (λ e. h (ap suc e))

module _ {ℓ} {A : Type ℓ} (d : A) where
  -- Two elements exchanged, as C does it with a temporary.
  abbrev pub swap : List A → ℕ → ℕ → List A
  swap xs i j = set (set xs i (get_or xs j d)) j (get_or xs i d)

  pub length-swap : (xs : List A) (i j : ℕ) → length (swap xs i j) ≡ length xs
  length-swap xs i j =
      length-set (set xs i (get_or xs j d)) j (get_or xs i d) ∙ length-set xs i (get_or xs j d)

  pub get_or-set :
      (xs : List A) (i j : ℕ) (v : A)
      → i < length xs
      → get_or (set xs i v) j d ≡ (if i == j then v else get_or xs j d)
  get_or-set [] i j v h = absurd (omega arith)
  get_or-set (x ∷ xs) zero zero v h = refl
  get_or-set (x ∷ xs) zero (suc j) v h = ground arith
  get_or-set (x ∷ xs) (suc i) zero v h = ground arith
  get_or-set (x ∷ xs) (suc i) (suc j) v h = ground (arith, get_or-set xs i j v)

  pub get_or-swap :
      (xs : List A) (i j c : ℕ)
      → i < length xs
      → j < length xs
      → get_or (swap xs i j) c d
        ≡ (if j == c then get_or xs i d else if i == c then get_or xs j d else get_or xs c d)
  get_or-swap xs i j c hi hj = rw (
    get_or-set (set xs i (get_or xs j d)) j c (get_or xs i d) (rw length-set hj),
    get_or-set xs i c (get_or xs j d) hi,
  )

  pub mem-get_or : (xs : List A) (i : ℕ) → i < length xs → Mem (get_or xs i d) xs
  mem-get_or [] i h = absurd (omega arith)
  mem-get_or (x ∷ xs) zero h = mem-cons_self
  mem-get_or (x ∷ xs) (suc i) h = mem-cons_of_mem x (mem-get_or xs i (omega arith))

  -- In a list with no repetition an element stands at one place.
  pub Nodup-get_or :
      (xs : List A) (i j : ℕ)
      → Nodup xs
      → i < length xs
      → j < length xs
      → get_or xs i d ≡ get_or xs j d
      → i ≡ j
  Nodup-get_or [] i j n hi hj e = absurd (omega arith)
  Nodup-get_or (x ∷ xs) zero zero n hi hj e = refl
  Nodup-get_or (x ∷ xs) zero (suc j) n hi hj e =
      absurd ((Nodup-cons.0 n).0 (rw e (mem-get_or xs j (omega arith))))
  Nodup-get_or (x ∷ xs) (suc i) zero n hi hj e =
      absurd ((Nodup-cons.0 n).0 (rw (← e) (mem-get_or xs i (omega arith))))
  Nodup-get_or (x ∷ xs) (suc i) (suc j) n hi hj e =
      ap suc (Nodup-get_or xs i j (Nodup-cons.0 n).1 (omega arith) (omega arith) e)

  -- A write trades the old element for the new one.
  set-perm :
      (xs : List A) (i : ℕ) (v : A) → i < length xs → Perm (get_or xs i d ∷ set xs i v) (v ∷ xs)
  set-perm [] i v h = absurd (omega arith)
  set-perm (x ∷ xs) zero v h = Perm.swap v x xs
  set-perm (x ∷ xs) (suc i) v h =
      Perm.trans (Perm.swap x _ _)
        (Perm.trans (Perm.cons x (set-perm xs i v (omega arith))) (Perm.swap v x xs))

  pub swap-perm : (xs : List A) (i j : ℕ) → i < length xs → j < length xs → Perm (swap xs i j) xs
  swap-perm xs i j hi hj =
      let ys = set xs i (get_or xs j d) in
      let kept : get_or ys j d ≡ get_or xs j d =
        ground (arith, get_or-set xs i j (get_or xs j d)) in
      let second = rw kept at (set-perm ys j (get_or xs i d) (rw length-set hj)) in
      Perm.cons_inv (Perm.trans second (set-perm xs i (get_or xs j d) hi))
