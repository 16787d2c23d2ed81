-- ===== src/Submission/Batch.antt =====
-- The batches of nvme_queue_rqs() of daredevil/drivers/nvme/host/pci.c.
use mathlib.Core.List.{append-nil, append_assoc}
use nvme_plus.Base.{
  ℕ, ◌≡◌, ◌≢◌, refl, sym, subst, arith, ap, ◌∙◌, Bool, true, false, List, [], ◌∷◌, ◌++◌,
  if◌then◌else◌, if_elim,
}
use nvme_plus.Submission.{Plugged, Batches, ends_batch, close_batch, last_hctx, batch, queue_rqs}

abbrev pub All : (Plugged → Type 0) → List Plugged → Type 0
All P [] = Unit
All P (x ∷ xs) = P x × All P xs

All-snoc :
    (P : Plugged → Type 0) (xs : List Plugged) (x : Plugged) → All P xs → P x → All P (xs ++ x ∷ [])
All-snoc P [] x a p = (p, tt)
All-snoc P (y ∷ ys) x (q, a) p = (q, All-snoc P ys x a p)

-- The requests that can be prepared, in order, and the others, the last one first
abbrev pub prepared : (Plugged → Bool) → List Plugged → List Plugged
prepared prep [] = []
prepared prep (x ∷ xs) = let rest = prepared prep xs in if prep x then x ∷ rest else rest

abbrev pub refused : (Plugged → Bool) → List Plugged → List Plugged
refused prep [] = []
refused prep (x ∷ xs) = let rest = refused prep xs in if prep x then rest else rest ++ x ∷ []

abbrev pub in_order : List (ℕ × List Plugged) → List Plugged
in_order [] = []
in_order ((queue, rqs) ∷ rest) = rqs ++ in_order rest

-- Each batch goes to the queue of all its requests, and has at least one.
abbrev pub AllHome : List (ℕ × List Plugged) → Type 0
AllHome [] = Unit
AllHome ((queue, rqs) ∷ rest) = (rqs ≢ []) × All (λ p. p.hctx ≡ queue) rqs × AllHome rest

-- The requests kept are for the queue of the next one.
abbrev Kept : List Plugged → List Plugged → Type 0
Kept kept [] = kept ≡ []
Kept kept (next ∷ rest) = All (λ p. p.hctx ≡ next.hctx) kept

record Batched (prep : Plugged → Bool) (kept requeue rqs : List Plugged) (b : Batches)
    : Type 0 where
  order : in_order b.submitted ≡ kept ++ prepared prep rqs
  home : AllHome b.submitted
  requeued : b.requeue_list ≡ refused prep rqs ++ requeue

-- A batch with requests of one queue, closed or kept
close_batch-Batched :
    (prep : Plugged → Bool) (queue : ℕ) (list requeue rest : List Plugged) (sent kept_on : Batches)
    → list ≢ []
    → All (λ p. p.hctx ≡ queue) list
    → Batched prep [] requeue rest sent
    → (Kept list rest → Batched prep list requeue rest kept_on)
    → Batched prep list requeue rest (close_batch queue queue list rest sent kept_on)
close_batch-Batched prep queue list requeue rest sent kept_on n a s k =
    if_elim {x = record sent { submitted = (queue, list) ∷ sent.submitted }} {y = kept_on}
      (Batched prep list requeue rest) (ends_batch queue rest)
      (λ _. record {
        order = ap (λ l. list ++ l) s.order;
        home = (n, a, s.home);
        requeued = s.requeued;
      })
      (λ e. k (keep rest e))
  where
    keep : (l : List Plugged) → ends_batch queue l ≡ false → Kept list l
    keep [] e = absurd (cc)
    keep (next ∷ more) e = subst (λ q. All (λ p. p.hctx ≡ q) list) (ground arith) a

accepted-Batched :
    (prep : Plugged → Bool) (kept requeue rest : List Plugged) (req : Plugged) (b : Batches)
    → prep req ≡ true
    → Batched prep (kept ++ req ∷ []) requeue rest b
    → Batched prep kept requeue (req ∷ rest) b
accepted-Batched prep kept requeue rest req b e s = record {
  order =
      s.order
      ∙ append_assoc kept (req ∷ []) (prepared prep rest)
      ∙ ap (λ t. kept ++ (if t then req ∷ prepared prep rest else prepared prep rest)) (sym e);
  home = s.home;
  requeued =
      s.requeued
      ∙ ap (λ t. (if t then refused prep rest else refused prep rest ++ req ∷ []) ++ requeue)
          (sym e);
}

refused-Batched :
    (prep : Plugged → Bool) (kept requeue rest : List Plugged) (req : Plugged) (b : Batches)
    → prep req ≡ false
    → Batched prep kept (req ∷ requeue) rest b
    → Batched prep kept requeue (req ∷ rest) b
refused-Batched prep kept requeue rest req b e s = record {
  order =
      s.order
      ∙ ap (λ t. kept ++ (if t then req ∷ prepared prep rest else prepared prep rest)) (sym e);
  home = s.home;
  requeued =
      s.requeued
      ∙ sym (append_assoc (refused prep rest) (req ∷ []) requeue)
      ∙ ap (λ t. (if t then refused prep rest else refused prep rest ++ req ∷ []) ++ requeue)
          (sym e);
}

Kept-nil : (rest : List Plugged) → Kept [] rest
Kept-nil [] = refl
Kept-nil (next ∷ rest) = tt

last_hctx-All :
    (queue : ℕ) (first : Plugged) (more : List Plugged)
    → All (λ p. p.hctx ≡ queue) (first ∷ more)
    → last_hctx first more ≡ queue
last_hctx-All queue first [] (a, b) = a
last_hctx-All queue first (next ∷ rest) (a, b) = last_hctx-All queue next rest b

batch-Batched :
    (prep : Plugged → Bool) (kept requeue rqs : List Plugged)
    → Kept kept rqs
    → Batched prep kept requeue rqs (batch prep kept requeue rqs)
unfolding batch
batch-Batched prep kept requeue [] k = record {
  order = sym (ap (λ l. l ++ []) k);
  home = tt;
  requeued = refl;
}
batch-Batched prep [] requeue (req ∷ rest) k =
    if_elim
      {x = close_batch req.hctx req.hctx (req ∷ []) rest (batch prep [] requeue rest)
        (batch prep (req ∷ []) requeue rest)}
      {y = batch prep [] (req ∷ requeue) rest} (Batched prep [] requeue (req ∷ rest)) (prep req)
      (λ e. accepted-Batched prep [] requeue rest req _ e (
        close_batch-Batched prep req.hctx (req ∷ []) requeue rest _ _ (λ c. cc) (refl, tt)
          (batch-Batched prep [] requeue rest (Kept-nil rest))
          (batch-Batched prep (req ∷ []) requeue rest)))
      (λ e.
        refused-Batched prep [] requeue rest req _ e
          (batch-Batched prep [] (req ∷ requeue) rest (Kept-nil rest)))
batch-Batched prep (first ∷ more) requeue (req ∷ rest) k =
    if_elim
      {x = close_batch req.hctx req.hctx ((first ∷ more) ++ req ∷ []) rest
        (batch prep [] requeue rest) (batch prep ((first ∷ more) ++ req ∷ []) requeue rest)}
      {y = close_batch req.hctx (last_hctx first more) (first ∷ more) rest
        (batch prep [] (req ∷ requeue) rest) (batch prep (first ∷ more) (req ∷ requeue) rest)}
      (Batched prep (first ∷ more) requeue (req ∷ rest)) (prep req)
      (λ e. accepted-Batched prep (first ∷ more) requeue rest req _ e (
        close_batch-Batched prep req.hctx ((first ∷ more) ++ req ∷ []) requeue rest _ _ (λ c. cc)
          (All-snoc _ (first ∷ more) req k refl)
          (batch-Batched prep [] requeue rest (Kept-nil rest))
          (batch-Batched prep ((first ∷ more) ++ req ∷ []) requeue rest)))
      (λ e. refused-Batched prep (first ∷ more) requeue rest req _ e (
        subst
          (λ h. Batched prep (first ∷ more) (req ∷ requeue) rest (
            close_batch req.hctx h (first ∷ more) rest (batch prep [] (req ∷ requeue) rest)
              (batch prep (first ∷ more) (req ∷ requeue) rest)))
          (sym (last_hctx-All req.hctx first more k))
          (close_batch-Batched prep req.hctx (first ∷ more) (req ∷ requeue) rest _ _ (λ c. cc) k
            (batch-Batched prep [] (req ∷ requeue) rest (Kept-nil rest))
            (batch-Batched prep (first ∷ more) (req ∷ requeue) rest))))

-- nvme_queue_rqs() submits the requests of the list that can be prepared, all of them, each once and in
-- their order; each batch has at least one, and goes to the queue that all its requests are for, also
-- where the batch ends at a request that is put aside. The others, the last one first, are what it leaves.
pub queue_rqs-batches :
    (prep : Plugged → Bool) (rqs : List Plugged)
    → let b = queue_rqs prep rqs in
      (in_order b.submitted ≡ prepared prep rqs)
      × AllHome b.submitted
      × (b.requeue_list ≡ refused prep rqs)
unfolding queue_rqs
queue_rqs-batches prep rqs =
    let s = batch-Batched prep [] [] rqs (Kept-nil rqs) in
    (s.order, s.home, s.requeued ∙ append-nil (refused prep rqs))
