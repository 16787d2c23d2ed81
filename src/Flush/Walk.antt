-- ===== src/Flush/Walk.antt =====
-- The loop of flush_end_io() of daredevil/block/blk-flush.c ends, with each request that it meets at
-- the place of its next step: a request can be met twice, once for each flush of its sequence.
use nvme_plus.Base.{
  ℕ, zero, suc, ◌+◌, ◌*◌, ◌≤◌, ◌<◌, ◌≡◌, ◌≢◌, refl, sym, subst, arith, Bool, true, false, not,
  Option, none, some, List, [], ◌∷◌, ◌++◌, inl, inr, ◌∙◌, ap, length,
}
use nvme_plus.Base.Run.{Ends, Ends-bind, Ends-map}
use nvme_plus.Flush.{
  Step, preflush, data_write, postflush, done, Steps, both, overlap, Request, Features, cur_seq,
}
use nvme_plus.Flush.Machine.{FlushState, queue, complete_seq}
use nvme_plus.Flush.Calls.{after, flushed, end_running}
use nvme_plus.Flush.Places.{count, places, IsPlaced, awaits_flush, count-append}
use nvme_plus.Flush.Complete.{Completed, complete_seq-Completed}
use nvme_plus.Flush.Valid.{IsFlushQueue, Gains}
use nvme_plus.Flush.Ending.{
  Runs, Runs-IsFlushQueue, step-Runs, first-split, after-first, walked-rest, once-walked,
}

-- The flushes that a request in a flush queue can still wait for
abbrev pub weight : Option Step → ℕ
weight (some preflush) = 2
weight (some postflush) = 1
weight (some data_write) = 1
weight (some done) = 1
weight none = 1

abbrev pub weigh : (ℕ → Request) → List ℕ → ℕ
weigh f [] = 0
weigh f (r ∷ rs) = weight (cur_seq (f r).seq) + weigh f rs

pub weigh-le : (f : ℕ → Request) (rs : List ℕ) → weigh f rs ≤ 2 * length rs
weigh-le f [] = omega arith
weigh-le f (r ∷ rs) = ground (arith, weigh-le f rs)

weigh-append :
    (f : ℕ → Request) (r : ℕ) (rs : List ℕ)
    → weigh f (rs ++ r ∷ []) ≡ weigh f rs + weight (cur_seq (f r).seq)
weigh-append f r [] = ground arith
weigh-append f r (x ∷ xs) = omega (arith, weigh-append f r xs)

weigh-others :
    (f g : ℕ → Request) (r : ℕ) (rs : List ℕ)
    → ((x : ℕ) → x ≢ r → g x ≡ f x)
    → count r rs ≡ 0
    → weigh g rs ≡ weigh f rs
weigh-others f g r [] h n = refl
weigh-others f g r (x ∷ xs) h n =
    let e : g x ≡ f x = h x (ground arith) in
    let rest = weigh-others f g r xs h (ground arith) in
    ground (arith, ap (λ (q : Request). weight (cur_seq q.seq)) e, rest)

-- The step that flush_end_io() completes is the one the request waits for.
pub flush_step :
    (s : Steps)
    → awaits_flush (cur_seq s) ≡ true
    → s.has_done ≡ false
    → Ends
        (λ (m : Steps).
          (overlap s m ≡ false)
          × ((both s m).has_done ≡ false)
          × (awaits_flush (cur_seq (both s m)) ≡ true
              → (weight (cur_seq s) ≡ 2) × (weight (cur_seq (both s m)) ≡ 1)))
        (flushed (cur_seq s))
unfolding cur_seq flushed
flush_step s a d = ground arith

pub weight_pos : (o : Option Step) → 0 < weight o
weight_pos o = ground arith

-- Each step takes weight from the walked list.
pub lighter :
    (k : Bool) (r : ℕ) (rest : List ℕ) (m : Steps) (w v : FlushState)
    → Runs k (some r) w
    → queue w k ≡ r ∷ rest
    → Completed r (both (w.requests r).seq m) w v
    → (awaits_flush (cur_seq (both (w.requests r).seq m)) ≡ true
        → (weight (cur_seq (w.requests r).seq) ≡ 2)
          × (weight (cur_seq (both (w.requests r).seq m)) ≡ 1))
    → weigh v.requests (queue v k) < weigh w.requests (queue w k)
lighter k r rest m w v h e c t =
    subst (λ l. weigh v.requests (queue v k) < weigh w.requests l) (sym e)
      (elim (walked-rest k r rest _ w v (h.placed r) e c) [
        | inl f ↦
            subst (λ l. weigh v.requests l < weigh w.requests (r ∷ rest)) (sym f)
              (omega (arith, others, weight_pos (cur_seq (w.requests r).seq)))
        | inr (b, f) ↦
            subst (λ l. weigh v.requests l < weigh w.requests (r ∷ rest)) (sym f) (moved_back f)
      ])
  where
    once : count r (r ∷ rest) ≤ 1
    once = subst (λ l. count r l ≤ 1) e (once-walked k r w (h.placed r))

    others : weigh v.requests rest ≡ weigh w.requests rest
    others = weigh-others w.requests v.requests r rest c.others (ground (arith, once))

    moved_back :
        queue v k ≡ rest ++ r ∷ [] → weigh v.requests (rest ++ r ∷ []) < weigh w.requests (r ∷ rest)
    moved_back f =
        let p = c.placed r (λ _. h.placed r) in
        let present : 0 < count r (queue v k) =
          subst (λ l. 0 < count r l) (sym f) (ground (arith, count-append r r rest)) in
        let s = c.seq (ground (arith, p.once, present)) in
        let (before, now) = t (
          subst (λ (x : Steps). awaits_flush (cur_seq x) ≡ true) s
            (p.flushing (ground (arith, present)))) in
        omega (
          arith,
          weigh-append v.requests r rest,
          others,
          before,
          ap (λ (x : Steps). weight (cur_seq x)) s ∙ now,
        )

Completed-Gains :
    (r : ℕ) (all : Steps) (w v : FlushState)
    → places r w ≡ 1
    → Completed r all w v
    → Gains (λ x. 0) w v
Completed-Gains r all w v n c x = ground (arith, c.total x)

-- A request in the list of index k
pub walked-place :
    (k : Bool) (r : ℕ) (rest : List ℕ) (w : FlushState)
    → IsPlaced w r
    → queue w k ≡ r ∷ rest
    → (places r w ≡ 1) × (0 < count r w.queue_0 + count r w.queue_1)
walked-place k r rest w p e =
    let present : 0 < count r (queue w k) = subst (λ l. 0 < count r l) (sym e) (ground arith) in
    ground (arith, p.once, present)

-- The loop ends when the fuel is at least the weight of the list, and leaves the running index.
pub end_running-Ends :
    (q : Features) (j : ℕ) (k : Bool) (error fuel : ℕ) (pos : Option ℕ) (w : FlushState)
    → Runs k pos w
    → (pos ≢ none → weigh w.requests (queue w k) ≤ fuel)
    → Ends
        (λ v. IsFlushQueue v × Gains (λ x. 0) w v × (v.running_idx ≡ not k))
        (end_running q j k error fuel pos w)
unfolding end_running
end_running-Ends q j k error fuel none w h n =
    (Runs-IsFlushQueue k w h, (λ x. omega arith), h.turned)
end_running-Ends q j k error zero (some r) w h n =
    let (rest, e) = first-split r (queue w k) (h.here r refl) in
    absurd (
      omega (
        arith,
        weight_pos (cur_seq (w.requests r).seq),
        subst (λ l. weigh w.requests l ≤ 0) e (n (λ c. cc)),
      ))
end_running-Ends q j k error (suc fuel) (some r) w h n =
    Ends-bind _ Good (flushed (cur_seq seq)) _
      (flush_step seq (p.flushing inside) (p.undone (omega (arith, at_one))))
      (λ m (o, d, t).
        Ends-bind (Completed r (both seq m) w) Good (complete_seq q j r m error w) _
          (complete_seq-Completed q j r m error w o d)
          (λ v c.
            Ends-map _ Good _
              (end_running-Ends q j k error fuel (after r (queue w k)) v
                (subst (λ l. Runs k (after r l) v) (sym e)
                  (subst (λ o. Runs k o v) (sym (after-first r rest))
                    (step-Runs k r rest _ w v h e c)))
                (λ nn. omega (arith, n (λ x. cc), lighter k r rest m w v h e c t)))
              (λ u (a, g, i).
                (a, (λ x. omega (arith, g x, Completed-Gains r _ w v at_one c x)), i))))
  where
    Good : FlushState → Type 0
    Good v = IsFlushQueue v × Gains (λ x. 0) w v × (v.running_idx ≡ not k)

    seq : Steps
    seq = (w.requests r).seq

    p : IsPlaced w r
    p = h.placed r

    split : (rest : List ℕ) × (queue w k ≡ r ∷ rest)
    split = first-split r (queue w k) (h.here r refl)

    rest : List ℕ
    rest = split.0

    e : queue w k ≡ r ∷ rest
    e = split.1

    at_one : places r w ≡ 1
    at_one = (walked-place k r rest w p e).0

    inside : 0 < count r w.queue_0 + count r w.queue_1
    inside = (walked-place k r rest w p e).1
