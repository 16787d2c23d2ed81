-- ===== src/Init/Leaks.antt =====
-- The construction never frees twice and, on an error, leaves nothing allocated.
use nvme_plus.Base.{ℕ, zero, suc, ◌≤◌, ◌<◌, ◌≡◌, ◌≢◌, refl, ◌∙◌, arith}
use nvme_plus.Base.Run.{Ends, Ends-bind, Ends-map}
use nvme_plus.Cells.{null, live, freed, Memory}
use nvme_plus.Init.{free_enq, free_enqs}

-- An eNQ whose pointers are set as its initialisation leaves them
abbrev pub IsSound : Memory → ℕ → Type 0
IsSound mem i =
    (mem.masks i ≡ live)
    × (mem.encqs i ≢ freed)
    × (mem.nq_heaps i ≢ freed)
    × (mem.nq_heaps i ≢ null → mem.encqs i ≡ live)

-- An eNQ for which nothing is in use
abbrev pub IsDead : Memory → ℕ → Type 0
IsDead mem i = (mem.masks i ≢ live) × (mem.encqs i ≢ live) × (mem.nq_heaps i ≢ live)

abbrev pub IsUnset : Memory → ℕ → Type 0
IsUnset mem i = (mem.masks i ≡ null) × (mem.encqs i ≡ null) × (mem.nq_heaps i ≡ null)

-- The pointers of an eNQ are the same.
abbrev pub SameCells : Memory → Memory → ℕ → Type 0
SameCells m mem j =
    (m.masks j ≡ mem.masks j) × (m.encqs j ≡ mem.encqs j) × (m.nq_heaps j ≡ mem.nq_heaps j)

abbrev pub SameRest : Memory → Memory → Type 0
SameRest m mem =
    (m.nsq_maps ≡ mem.nsq_maps) × (m.enqs ≡ mem.enqs) × (m.group_heaps ≡ mem.group_heaps)

free_enq_lem :
    (i : ℕ) (mem : Memory)
    → IsSound mem i
    → Ends
        (λ m. IsDead m i × ((j : ℕ) → j ≢ i → SameCells m mem j) × SameRest m mem)
        (free_enq i mem)
unfolding free_enq
free_enq_lem i mem s = ground arith

-- Releasing the first eNQs ends, and leaves nothing of theirs in use.
pub free_enqs_lem :
    (k : ℕ) (mem : Memory)
    → ((i : ℕ) → i < k → IsSound mem i)
    → Ends
        (λ m.
          ((i : ℕ) → i < k → IsDead m i) × ((j : ℕ) → k ≤ j → SameCells m mem j) × SameRest m mem)
        (free_enqs k mem)
unfolding free_enqs
free_enqs_lem zero mem s =
    (λ i h. absurd (omega arith), λ j h. (refl, refl, refl), (refl, refl, refl))
free_enqs_lem (suc k) mem s =
    Ends-bind _ _ (free_enqs k mem) _ (free_enqs_lem k mem (λ i h. s i (omega arith)))
      (λ m (dead, same, rest). step m dead same rest)
  where
    step :
        (m : Memory)
        → ((i : ℕ) → i < k → IsDead m i)
        → ((j : ℕ) → k ≤ j → SameCells m mem j)
        → SameRest m mem
        → Ends
            (λ m'.
              ((i : ℕ) → i < suc k → IsDead m' i)
              × ((j : ℕ) → suc k ≤ j → SameCells m' mem j)
              × SameRest m' mem)
            (free_enq k m)
    step m dead same rest =
        let sound : IsSound m k = ground (arith, same k, s k) in
        let last = free_enq_lem k m sound in
        Ends-map _ _ (free_enq k m) last (λ m' (gone, others, rest'). (
          λ i h. ground (arith, gone, others i, dead i),
          λ j h. ground (arith, others j, same j),
          (rest'.0 ∙ rest.0, rest'.1 ∙ rest.1, rest'.2 ∙ rest.2),
        ))
