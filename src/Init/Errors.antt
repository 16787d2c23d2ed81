-- ===== src/Init/Errors.antt =====
-- The construction of the regulator as a whole: each error path gives back what was allocated.
use nvme_plus.Base.{
  ℕ, zero, suc, ◌-◌, ◌≤◌, ◌<◌, ◌≡◌, ◌≢◌, refl, ◌∙◌, Bool, true, false, arith, ltb, if_elim,
  if◌then◌else◌,
}
use nvme_plus.Base.Run.{ok, ◌>>=◌, Ends, Ends-bind, Ends-map}
use nvme_plus.Regulator.{Regulator, Tunables}
use nvme_plus.Cells.{Memory, Supply}
use nvme_plus.Setup.{enq_alloc, enq_init}
use nvme_plus.Init.{free_enqs, init_enqs}
use nvme_plus.Init.Leaks.{IsSound, IsDead, IsUnset, SameCells, SameRest, free_enqs_lem}

-- What one eNQ's initialisation makes of its pointers, whether it succeeds or not.
abbrev Made : ℕ → Memory → Bool → Memory → Type 0
Made i mem made m =
    (if made then IsSound m i else IsDead m i)
    × ((j : ℕ) → j ≢ i → SameCells m mem j)
    × SameRest m mem

enq_alloc_lem :
    (s : Supply) (i : ℕ) (has_cq many : Bool) (mem : Memory)
    → IsUnset mem i
    → Ends (λ (o : Bool × Memory). Made i mem o.0 o.1) (enq_alloc s i has_cq many mem)
unfolding enq_alloc
enq_alloc_lem s i has_cq many mem unset = ground arith

enq_init_lem :
    (t : Tunables) (s : Supply) (k : ℕ) (r : Regulator) (mem : Memory)
    → IsUnset mem k
    → Ends (λ (o : Bool × Regulator × Memory). Made k mem o.0 o.2) (enq_init t s (suc k) r mem)
unfolding enq_init
enq_init_lem t s k r mem unset =
    let at : suc k - 1 ≡ k = omega arith in
    Ends-bind (λ (o : Bool × Memory). Made k mem o.0 o.1) _ (enq_alloc s (suc k - 1) _ _ mem) _
      (rw at (enq_alloc_lem s k _ _ mem unset)) (λ (made, m) h. h)

-- The first eNQs are set up, and the others untouched.
abbrev pub IsBuilt : ℕ → Memory → Type 0
IsBuilt k m = ((i : ℕ) → i < k → IsSound m i) × ((j : ℕ) → k ≤ j → IsUnset m j)

abbrev pub Loop : ℕ → Memory → Bool → Memory → Type 0
Loop k mem made m = (if made then IsBuilt k m else ((i : ℕ) → IsDead m i)) × SameRest m mem

-- What a loop leaves: whether it went through, the regulator and the pointers.
abbrev pub Step : Type 0
Step = Bool × Regulator × Memory

abbrev pub Loops : ℕ → Memory → Step → Type 0
Loops k mem (made, r, m) = Loop k mem made m

undo_lem :
    (k : ℕ) (mem m : Memory)
    → ((i : ℕ) → i < k → IsSound m i)
    → ((j : ℕ) → k ≤ j → IsDead m j)
    → SameRest m mem
    → Ends (λ m'. ((i : ℕ) → IsDead m' i) × SameRest m' mem) (free_enqs k m)
undo_lem k mem m sound above rest =
    Ends-map _ _ (free_enqs k m) (free_enqs_lem k m sound) (λ m' (dead, same, rest'). (
      λ i.
          if_elim {x = true} {y = true} (λ b. IsDead m' i) (ltb i k)
            (λ below. dead i (ground arith)) (λ over. ground (arith, same i, above i)),
      (rest'.0 ∙ rest.0, rest'.1 ∙ rest.1, rest'.2 ∙ rest.2),
    ))

pub init_enqs_lem :
    (t : Tunables) (s : Supply) (k : ℕ) (r : Regulator) (mem : Memory)
    → ((i : ℕ) → IsUnset mem i)
    → Ends (Loops k mem) (init_enqs t s k r mem)
unfolding init_enqs
init_enqs_lem t s zero r mem unset =
    ((λ i h. absurd (omega arith), λ j h. unset j), (refl, refl, refl))
init_enqs_lem t s (suc k) r mem unset =
    Ends-bind (Loops k mem) (Loops (suc k) mem) (init_enqs t s k r mem) _
      (init_enqs_lem t s k r mem unset) (λ (before, r', m) h. next before r' m h)
  where
    next :
        (before : Bool) (r' : Regulator) (m : Memory)
        → Loop k mem before m
        → Ends (Loops (suc k) mem) (
            if before
            then (enq_init t s (suc k) r' m >>= λ (made, r'', m').
                if made
                then ok (true, r'', m')
                else (free_enqs k m' >>= λ undone. ok (false, r'', undone)))
            else ok (false, r', m))
    next false r' m h = h
    next true r' m ((sound, unset'), rest) =
        Ends-bind (λ (o : Step). Made k m o.0 o.2) (Loops (suc k) mem) (enq_init t s (suc k) r' m) _
          (enq_init_lem t s k r' m (unset' k (omega arith)))
          (λ (made, r'', m') h. settled made r'' m' h)
      where
        settled :
            (made : Bool) (r'' : Regulator) (m' : Memory)
            → Made k m made m'
            → Ends (Loops (suc k) mem) (
                if made
                then ok (true, r'', m')
                else (free_enqs k m' >>= λ undone. ok (false, r'', undone)))
        settled true r'' m' (now, same, rest') = (
          (λ i h. ground (arith, now, same i, sound i), λ j h. ground (arith, same j, unset' j)),
          (rest'.0 ∙ rest.0, rest'.1 ∙ rest.1, rest'.2 ∙ rest.2),
        )
        settled false r'' m' (now, same, rest') =
            Ends-bind (λ u. ((i : ℕ) → IsDead u i) × SameRest u mem) _ (free_enqs k m') _
              (undo_lem k mem m' (λ i h. ground (arith, same i, sound i))
                (λ j h. ground (arith, now, same j, unset' j))
                (rest'.0 ∙ rest.0, rest'.1 ∙ rest.1, rest'.2 ∙ rest.2))
              (λ u h. h)
