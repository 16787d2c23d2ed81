-- ===== src/Flush/Branches.antt =====
-- The branches of blk_insert_flush() of daredevil/block/blk-flush.c.
use nvme_plus.Base.{ℕ, ◌≡◌, arith, Bool, true, false, not, ◌&&◌, ◌||◌, ◌∷◌, ◌==◌, if◌then◌else◌}
use nvme_plus.Base.Run.{Run, ok, fault, Ends, Ends-if}
use nvme_plus.Regulator.{update}
use nvme_plus.Flush.{Steps, skipped, flush_policy, Request, Features}
use nvme_plus.Flush.Machine.{Event, bypasses, ends, FlushState, complete_seq}
use nvme_plus.Flush.Calls.{insert_flush, sequenced, driver_flags}

-- The conditions: nothing to do, and nothing but data
abbrev pub none_needed : Steps → Bool
none_needed p = not (p.has_preflush || p.has_data || p.has_postflush)

abbrev pub data_only : Steps → Bool
data_only p = p.has_data && not (p.has_preflush || p.has_postflush)

-- The request with the flags for the driver
abbrev pub adjusted : Features → Request → Request
adjusted q rq = record rq { cmd_flags = driver_flags q rq.cmd_flags }

-- The state where the request went past the machinery, and that where it enters it
abbrev pub gone : Features → ℕ → Event → FlushState → FlushState
gone q r e w = record w {
  requests = update w.requests r (adjusted q (w.requests r));
  events = e ∷ w.events;
}

abbrev pub started : Features → ℕ → FlushState → FlushState
started q r w = record w {
  requests = update w.requests r (sequenced (w.requests r) (adjusted q (w.requests r)));
}

-- What holds of the result of each branch holds of the result.
pub insert_flush-cases :
    (P : FlushState → Type 0) (q : Features) (j r : ℕ) (w : FlushState)
    → (w.requests r).bio ≡ (w.requests r).biotail
    → (none_needed (flush_policy q (w.requests r)) ≡ true → P (gone q r (ends r 0) w))
    → (data_only (flush_policy q (w.requests r)) ≡ true → P (gone q r (bypasses r) w))
    → (none_needed (flush_policy q (w.requests r)) ≡ false
        → data_only (flush_policy q (w.requests r)) ≡ false
        → Ends P (complete_seq q j r (skipped (flush_policy q (w.requests r))) 0 (started q r w)))
    → Ends P (insert_flush q j r w)
unfolding insert_flush
insert_flush-cases P q j r w b unneeded past enters =
    Ends-if P (none_needed policy) (ok (gone q r (ends r 0) w)) checked unneeded λ h.
      Ends-if P (not (rq.bio == rq.biotail)) fault rest (λ e. absurd (ground arith))
        λ _. Ends-if P (data_only policy) (ok (gone q r (bypasses r) w)) entered past (enters h)
  where
    rq : Request
    rq = w.requests r

    policy : Steps
    policy = flush_policy q rq

    entered : Run FlushState
    entered = complete_seq q j r (skipped policy) 0 (started q r w)

    rest : Run FlushState
    rest = if data_only policy then ok (gone q r (bypasses r) w) else entered

    checked : Run FlushState
    checked = if not (rq.bio == rq.biotail) then fault else rest
