-- ===== src/Flush/Insert.antt =====
-- What blk_insert_flush() of daredevil/block/blk-flush.c does with a request.
use nvme_plus.Base.{
  ℕ, suc, ◌+◌, ◌≡◌, ◌≢◌, refl, sym, subst, arith, true, false, not, ◌&&◌, List, [], ◌∷◌, ◌++◌, ◌==◌,
  if◌then◌else◌,
}
use nvme_plus.Base.Run.{Ends, Ends-map}
use nvme_plus.Flush.{
  no_steps, Step, preflush, data_write, postflush, done, Steps, both, skipped, flush_policy,
  Request, Features,
}
use nvme_plus.Flush.Machine.{Event, sends, flushes, bypasses, ends, FlushState, complete_seq}
use nvme_plus.Flush.Calls.{insert_flush}
use nvme_plus.Flush.Branches.{none_needed, data_only, gone, started, insert_flush-cases}
use nvme_plus.Flush.Places.{places}
use nvme_plus.Flush.Order.{todo, ended, Stands, complete_seq-Stands}

-- The steps of a request, as the head of blk-flush.c describes them
abbrev pub steps_of : Features → Request → List Step
steps_of q rq =
    (if q.wc && rq.cmd_flags.preflush then preflush ∷ [] else [])
    ++ (if rq.sectors == 0 then [] else data_write ∷ [])
    ++ (if q.wc && (rq.cmd_flags.fua && not q.has_fua) then postflush ∷ [] else [])

abbrev pub bypassed : ℕ → List Event → ℕ
bypassed r [] = 0
bypassed r (sends x ∷ es) = bypassed r es
bypassed r (flushes ∷ es) = bypassed r es
bypassed r (bypasses x ∷ es) = (if r == x then 1 else 0) + bypassed r es
bypassed r (ends x e ∷ es) = bypassed r es

-- Where a request with these steps is after it was inserted
abbrev pub Enters : ℕ → List Step → FlushState → FlushState → Type 0
Enters r [] w v = (places r v ≡ 0) × (ended r 0 v.events ≡ suc (ended r 0 w.events))
Enters r (data_write ∷ []) w v =
    (places r v ≡ 0) × (bypassed r v.events ≡ suc (bypassed r w.events))
Enters r steps w v = Stands r steps w v

policy-steps_of :
    (q : Features) (rq : Request)
    → steps_of q rq ≡ todo (both no_steps (skipped (flush_policy q rq)))
unfolding flush_policy
policy-steps_of q rq = ground arith

none_chosen : (p : Steps) → none_needed p ≡ true → [] ≡ todo (both no_steps (skipped p))
none_chosen p h = ground arith

data_chosen : (p : Steps) → data_only p ≡ true → data_write ∷ [] ≡ todo (both no_steps (skipped p))
data_chosen p h = ground arith

flush_chosen :
    (p : Steps)
    → none_needed p ≡ false
    → data_only p ≡ false
    → (todo (both no_steps (skipped p)) ≢ []) × (todo (both no_steps (skipped p)) ≢ data_write ∷ [])
flush_chosen p h k = (λ e. ground arith, λ e. ground arith)

-- A request that enters the machinery, the state before it being w but for the request
Stands-Enters :
    (r : ℕ) (l : List Step) (f : ℕ → Request) (w v : FlushState)
    → l ≢ []
    → l ≢ data_write ∷ []
    → Stands r l (record w { requests = f }) v
    → Enters r l w v
Stands-Enters r [] f w v a b s = absurd (a refl)
Stands-Enters r (data_write ∷ []) f w v a b s = absurd (b refl)
Stands-Enters r (data_write ∷ x ∷ xs) f w v a b s = s
Stands-Enters r (preflush ∷ xs) f w v a b s = s
Stands-Enters r (postflush ∷ xs) f w v a b s = s
Stands-Enters r (done ∷ xs) f w v a b s = s

sequenced-Stands :
    (q : Features) (j r : ℕ) (p : Steps) (f : ℕ → Request) (w : FlushState)
    → (f r).seq ≡ no_steps
    → Ends
        (Stands r (todo (both no_steps (skipped p))) (record w { requests = f }))
        (complete_seq q j r (skipped p) 0 (record w { requests = f }))
sequenced-Stands q j r p f w e =
    subst (λ s. Ends (Stands r (todo (both s (skipped p))) u) (complete_seq q j r (skipped p) 0 u))
      e (complete_seq-Stands q j r (skipped p) u (ground arith) (ground arith))
  where
    u : FlushState
    u = record w { requests = f }

-- blk_insert_flush() of a request that is in no list and has at most one bio returns. By the steps that
-- the request has (a preflush, when it asks for one and the device has a write cache; its data, if any; a
-- postflush, when it asks for FUA and the device has a write cache and no FUA): with none the request ends without an
-- error; with its data alone it is inserted past the machinery; otherwise it is at the first of
-- them, pending for a flush or sent with its data in flight.
pub insert_flush-Enters :
    (q : Features) (j r : ℕ) (w : FlushState)
    → places r w ≡ 0
    → (w.requests r).bio ≡ (w.requests r).biotail
    → Ends (Enters r (steps_of q (w.requests r)) w) (insert_flush q j r w)
insert_flush-Enters q j r w n b =
    subst (λ l. Ends (Enters r l w) (insert_flush q j r w)) (sym (policy-steps_of q (w.requests r)))
      (insert_flush-cases (Enters r steps w) q j r w b
        (λ h.
          subst (λ l. Enters r l w (gone q r (ends r 0) w)) (none_chosen policy h)
            (n, ground arith))
        (λ h.
          subst (λ l. Enters r l w (gone q r (bypasses r) w)) (data_chosen policy h)
            (n, ground arith))
        (λ h k.
          let (a, c) = flush_chosen policy h k in
          let u = started q r w in
          Ends-map (Stands r steps u) (Enters r steps w) _
            (sequenced-Stands q j r policy u.requests w (ground arith))
            (λ v s. Stands-Enters r steps u.requests w v a c s)))
  where
    policy : Steps
    policy = flush_policy q (w.requests r)

    steps : List Step
    steps = todo (both no_steps (skipped policy))
