-- ===== src/Stage/NextCpu.antt =====
-- The CPU that a hardware context is run on next: blk_blex_hctx_select_next_cpu() of
-- daredevil/block/blk-mq.c.
use nvme_plus.Base.{
  ℕ, zero, suc, ◌+◌, ◌-◌, ◌≤◌, ◌<◌, ◌≡◌, arith, Bool, true, false, not, ◌&&◌, leb, if◌then◌else◌,
  if_elim, ◌⊎◌, inl, inr,
}
use nvme_plus.Stage.Marks.{any_below-true}
use nvme_plus.Stage.{HwCtx, any_below, next_from, hctx_select_next_cpu}

-- The first place from `cpu` on where f holds, if there is one among the next `left`
abbrev IsFirst : (ℕ → Bool) → ℕ → ℕ → ℕ → Type 0
IsFirst f cpu left c =
    (cpu ≤ c)
    × (c ≤ cpu + left)
    × (c < cpu + left → f c ≡ true)
    × ((x : ℕ) → cpu ≤ x → x < c → f x ≡ false)

next_from-IsFirst : (f : ℕ → Bool) (cpu left : ℕ) → IsFirst f cpu left (next_from f cpu left)
unfolding next_from
next_from-IsFirst f cpu zero =
    (omega arith, omega arith, λ h. absurd (omega arith), λ x a b. absurd (omega arith))
next_from-IsFirst f cpu (suc left) =
    let (a, b, c, d) = next_from-IsFirst f (suc cpu) left in
    if_elim {x = cpu} {y = next_from f (suc cpu) left} (IsFirst f cpu (suc left)) (f cpu)
      (λ e. (omega arith, omega arith, λ _. e, λ x l k. absurd (omega arith)))
      (λ e. (omega arith, omega arith, λ l. c (omega arith), λ x l k. grind (arith, d x)))

-- c is a turn of f after `last`, seen from `cpu`: not one that `cpu` should have had before.
abbrev pub IsTurn : ℕ → (ℕ → Bool) → ℕ → ℕ → ℕ → Type 0
IsTurn n f last cpu c =
    (c < n)
    × (f c ≡ true)
    × (last < cpu → (last < c) × (c ≤ cpu))
    × (cpu ≤ last → (last < c) ⊎ (c ≤ cpu))

-- No place after `last`: the first of all
wrapped-IsTurn :
    (n : ℕ) (f : ℕ → Bool) (last cpu : ℕ)
    → cpu < n
    → last < n
    → f cpu ≡ true
    → leb n (next_from f (suc last) (n - suc last)) ≡ true
    → IsTurn n f last cpu (next_from f 0 n)
wrapped-IsTurn n f last cpu l k e w =
    let (a, b, c, d) = next_from-IsFirst f (suc last) (n - suc last) in
    let (a', b', c', d') = next_from-IsFirst f 0 n in
    let early : next_from f 0 n ≤ cpu = ground (arith, d' cpu) in
    (omega arith, c' (omega arith), λ m. absurd (ground (arith, d cpu)), λ m. inr early)

direct-IsTurn :
    (n : ℕ) (f : ℕ → Bool) (last cpu : ℕ)
    → last < n
    → f cpu ≡ true
    → leb n (next_from f (suc last) (n - suc last)) ≡ false
    → IsTurn n f last cpu (next_from f (suc last) (n - suc last))
direct-IsTurn n f last cpu k e w =
    let (a, b, c, d) = next_from-IsFirst f (suc last) (n - suc last) in
    (
      ground arith,
      c (ground arith),
      λ m. (omega arith, ground (arith, d cpu)),
      λ m. inl (omega arith),
    )

-- When a CPU below nr_cpu_ids is marked and online, and the last CPU is below nr_cpu_ids, the next CPU
-- is one too. It is the first such CPU after the last one, or, when there is none after it, the first of
-- all: so the marked CPUs take turns.
pub hctx_select_next_cpu-turns :
    (nr_cpu_ids : ℕ) (online : ℕ → Bool) (default_cpu next_cpu cpu : ℕ) (h : HwCtx)
    → cpu < nr_cpu_ids
    → next_cpu < nr_cpu_ids
    → (h.run_cpumask cpu && online cpu) ≡ true
    → IsTurn nr_cpu_ids
        (λ c. h.run_cpumask c && online c)
        next_cpu
        cpu
        (hctx_select_next_cpu nr_cpu_ids online default_cpu next_cpu h)
unfolding hctx_select_next_cpu
hctx_select_next_cpu-turns nr_cpu_ids online default_cpu next_cpu cpu h l k e =
    if_elim {x = default_cpu} {y = if leb nr_cpu_ids after then first else after} Turn
      (not (any_below h.run_cpumask nr_cpu_ids))
      (λ w. absurd (ground (arith, any_below-true h.run_cpumask nr_cpu_ids cpu l)))
      (λ _.
        if_elim {x = first} {y = after} Turn (leb nr_cpu_ids after)
          (wrapped-IsTurn nr_cpu_ids allowed next_cpu cpu l k e)
          (direct-IsTurn nr_cpu_ids allowed next_cpu cpu k e))
  where
    allowed : ℕ → Bool
    allowed c = h.run_cpumask c && online c

    first : ℕ
    first = next_from allowed 0 nr_cpu_ids

    after : ℕ
    after = next_from allowed (suc next_cpu) (nr_cpu_ids - suc next_cpu)

    Turn : ℕ → Type 0
    Turn c = IsTurn nr_cpu_ids allowed next_cpu cpu c
