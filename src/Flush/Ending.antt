-- ===== src/Flush/Ending.antt =====
-- The loop of flush_end_io() of daredevil/block/blk-flush.c. blk_kick_flush() may make the list that
-- the loop walks the pending one, and the loop then meets the requests that are moved to its end.
use nvme_plus.Base.{
  ℕ, ◌≤◌, ◌<◌, ◌≡◌, refl, sym, subst, arith, Bool, true, false, not, Option, none, some, List, [],
  ◌∷◌, ◌++◌, ◌⊎◌, inl, inr, ◌∙◌,
}
use nvme_plus.Flush.{Steps}
use nvme_plus.Flush.Machine.{FlushState, queue, same, is_empty, first, remove}
use nvme_plus.Flush.Calls.{after}
use nvme_plus.Flush.Places.{count, IsPlaced, remove-absent}
use nvme_plus.Flush.Moves.{is_quiet, Queued}
use nvme_plus.Flush.Complete.{Completed}
use nvme_plus.Flush.Valid.{IsFlushQueue}

-- The loop over the list of index k, at `pos`
pub record Runs (k : Bool) (pos : Option ℕ) (w : FlushState) : Type 0 where
  pub placed : (x : ℕ) → IsPlaced w x
  pub turned : w.running_idx ≡ not k
  pub here : (r : ℕ) → pos ≡ some r → first (queue w k) ≡ some r
  pub busy : same w.pending_idx w.running_idx ≡ false → is_empty (queue w (not k)) ≡ false
  pub last :
      pos ≡ none
      → same w.pending_idx w.running_idx ≡ true
      → (is_empty (queue w k) ≡ true) × (is_quiet w ≡ true)

pub Runs-IsFlushQueue : (k : Bool) (w : FlushState) → Runs k none w → IsFlushQueue w
Runs-IsFlushQueue k w h = record {
  placed = h.placed;
  idle = λ s. let (a, b) = h.last refl s in ground arith;
  busy = ground arith;
}

-- How the walked list changes
pub walked :
    (k : Bool) (r : ℕ) (all : Steps) (w v : FlushState)
    → Completed r all w v
    → Queued r (same w.pending_idx k) (queue w k) (queue v k)
walked k r all w v c = ground arith

pub first-split : (r : ℕ) (xs : List ℕ) → first xs ≡ some r → (rest : List ℕ) × (xs ≡ r ∷ rest)
first-split r [] e = absurd (cc)
first-split r (x ∷ xs) e = (xs, ground arith)

-- Without its first element
pub remove-first : (r : ℕ) (rest : List ℕ) → count r (r ∷ rest) ≤ 1 → remove r (r ∷ rest) ≡ rest
unfolding remove
remove-first r rest h = ground (arith, remove-absent r rest)

pub after-first : (r : ℕ) (rest : List ℕ) → after r (r ∷ rest) ≡ first rest
unfolding after
after-first r rest = ground arith

first-rest :
    (r r' : ℕ) (b : Bool) (rest now : List ℕ)
    → ((now ≡ rest) ⊎ ((b ≡ true) × (now ≡ rest ++ r ∷ [])))
    → first rest ≡ some r'
    → first now ≡ some r'
first-rest r r' b [] now m e = absurd (cc)
first-rest r r' b (x ∷ xs) now m e = ground arith

rest-empty :
    (r : ℕ) (b : Bool) (rest now : List ℕ)
    → b ≡ false
    → ((now ≡ rest) ⊎ ((b ≡ true) × (now ≡ rest ++ r ∷ [])))
    → first rest ≡ none
    → is_empty now ≡ true
rest-empty r b [] now n m e = ground arith
rest-empty r b (x ∷ xs) now n m e = absurd (cc)

absent-kept :
    (r : ℕ) (b : Bool) (before now : List ℕ)
    → count r before ≡ 0
    → Queued r b before now
    → is_empty before ≡ false
    → is_empty now ≡ false
absent-kept r b before now z m n = ground (arith, remove-absent r before z)

pub once-walked : (k : Bool) (r : ℕ) (w : FlushState) → IsPlaced w r → count r (queue w k) ≤ 1
once-walked k r w p = ground (arith, p.once)

-- The walked list after a step of its first element
pub walked-rest :
    (k : Bool) (r : ℕ) (rest : List ℕ) (all : Steps) (w v : FlushState)
    → IsPlaced w r
    → queue w k ≡ r ∷ rest
    → Completed r all w v
    → (queue v k ≡ rest) ⊎ ((same w.pending_idx k ≡ true) × (queue v k ≡ rest ++ r ∷ []))
walked-rest k r rest all w v p e c =
    let once = subst (λ l. count r l ≤ 1) e (once-walked k r w p) in
    subst (λ l. (queue v k ≡ l) ⊎ ((same w.pending_idx k ≡ true) × (queue v k ≡ l ++ r ∷ [])))
      (remove-first r rest once)
      (subst (λ l. Queued r (same w.pending_idx k) l (queue v k)) e (walked k r all w v c))

-- The list that is not walked keeps its elements.
other-kept :
    (k : Bool) (r : ℕ) (rest : List ℕ) (all : Steps) (w v : FlushState)
    → IsPlaced w r
    → queue w k ≡ r ∷ rest
    → Completed r all w v
    → is_empty (queue w (not k)) ≡ false
    → is_empty (queue v (not k)) ≡ false
other-kept k r rest all w v p e c n =
    let once = subst (λ l. 0 < count r l) (sym e) (ground arith) in
    absent-kept r (same w.pending_idx (not k)) (queue w (not k)) (queue v (not k))
      (ground (arith, p.once, once)) (walked (not k) r all w v c) n

pub step-Runs :
    (k : Bool) (r : ℕ) (rest : List ℕ) (all : Steps) (w v : FlushState)
    → Runs k (some r) w
    → queue w k ≡ r ∷ rest
    → Completed r all w v
    → Runs k (first rest) v
step-Runs k r rest all w v h e c =
    let m = walked-rest k r rest all w v (h.placed r) e c in
    record {
      placed = λ x. c.placed x (λ _. h.placed x);
      turned = c.running ∙ h.turned;
      here = λ r' f. first-rest r r' _ rest (queue v k) m f;
      busy = λ s. elim (c.busy s) [
        | inl (i, b) ↦ other-kept k r rest all w v (h.placed r) e c (h.busy b)
        | inr (i, b) ↦ ground (arith, c.running, h.turned)
      ];
      last = λ f s.
          let (i, b) = c.idle s in
          (
            rest-empty r (same w.pending_idx k) rest (queue v k)
                (ground (arith, c.running, h.turned)) m f,
            b,
          );
    }
