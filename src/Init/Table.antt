-- ===== src/Init/Table.antt =====
-- The arrays that the initialisation fills are valid.
use mathlib.Core.HLevel.{⊥_prop}
use mathlib.Core.List.{
  Mem, Nodup, Nodup-cons, Nodup-append, Pairwise, eq-or-mem_of_mem-cons, not-mem-nil, mem-append,
}
use mathlib.Core.Logic.Or
use native.Mathlib.Bridge.{le_prop}
use nvme_plus.Base.{
  ℕ, zero, suc, ◌-◌, ◌<◌, ◌≡◌, ◌≢◌, refl, ◌∙◌, arith, List, [], ◌∷◌, ◌++◌, length, length-append,
  get_or,
}
use nvme_plus.Regulator.{Regulator, Tunables}
use nvme_plus.PrioArray.Update.{IsPrioArray}
use nvme_plus.Setup.{table, filled}

length-table : (n : ℕ) (f : ℕ → ℕ) → length (table n f) ≡ n
length-table zero f = refl
length-table (suc n) f = length-append (table n f) (f n ∷ []) ∙ omega (arith, length-table n f)

get_or-append : (xs ys : List ℕ) → 0 < length xs → get_or (xs ++ ys) 0 0 ≡ get_or xs 0 0
get_or-append [] ys h = absurd (omega arith)
get_or-append (x ∷ xs) ys h = refl

first-table : (n : ℕ) (f : ℕ → ℕ) → 0 < n → get_or (table n f) 0 0 ≡ f 0
first-table zero f h = absurd (omega arith)
first-table (suc zero) f h = refl
first-table (suc (suc n)) f h =
    get_or-append (table (suc n) f) (f (suc n) ∷ []) (omega (arith, length-table (suc n) f))
    ∙ first-table (suc n) f (omega arith)

-- What holds of each value holds of each member.
pub mem-table :
    (P : ℕ → Type 0)
    → ((x : ℕ) → IsProp (P x))
    → (n : ℕ) (f : ℕ → ℕ) → ((i : ℕ) → i < n → P (f i))
    → (x : ℕ) → Mem x (table n f)
    → P x
mem-table P prop zero f h x m = absurd (not-mem-nil m)
mem-table P prop (suc n) f h x m =
    Or.elim (prop x) (mem-append.0 m) (mem-table P prop n f (λ i b. h i (omega arith)) x) (λ last.
      Or.elim (prop x) (eq-or-mem_of_mem-cons last) (λ e. rw e (h n (omega arith)))
        (λ nil. absurd (not-mem-nil nil)))

Nodup-table :
    (n : ℕ) (f : ℕ → ℕ) → ((i j : ℕ) → i < n → j < n → f i ≡ f j → i ≡ j) → Nodup (table n f)
Nodup-table zero f inj = Pairwise.nil
Nodup-table (suc n) f inj = Nodup-append.1 (
  Nodup-table n f (λ i j hi hj e. inj i j (omega arith) (omega arith) e),
  Nodup-cons.1 (not-mem-nil, Pairwise.nil),
  λ x m last.
      Or.elim ⊥_prop (eq-or-mem_of_mem-cons last)
        (λ e.
          mem-table (λ y. y ≢ f n) (λ y. hlevel) n f
            (λ i b same. omega (arith, inj i n (omega arith) (omega arith) same)) x m e)
        not-mem-nil,
)

pub filled-IsPrioArray :
    (r : Regulator) (t : Tunables) (n : ℕ) (f : ℕ → ℕ)
    → 0 < n
    → ((i : ℕ) → i < n → (0 < f i) × ((r.enqs (f i - 1)).nqid ≡ f i))
    → ((i j : ℕ) → i < n → j < n → f i ≡ f j → i ≡ j)
    → IsPrioArray r (filled t (table n f) n)
filled-IsPrioArray r t n f some_nq ids inj = record {
  size = length-table n f;
  some_nq = some_nq;
  top = omega (arith, first-table n f some_nq, ids 0 some_nq);
  ids = mem-table (λ x. (0 < x) × ((r.enqs (x - 1)).nqid ≡ x)) (λ x. hlevel le_prop) n f ids;
  distinct = Nodup-table n f inj;
}
