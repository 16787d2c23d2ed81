-- ===== src/Flush/Kick.antt =====
-- When blk_kick_flush() of daredevil/block/blk-flush.c issues a flush.
use nvme_plus.Base.{
  ℕ, ◌+◌, ◌*◌, ◌^◌, ◌%◌, ◌≤◌, ◌<◌, ◌≡◌, ◌↔◌, sym, subst, arith, true, false, not, ◌∷◌, ltb, ◌⊎◌,
}
use nvme_plus.Flush.{CmdFlags, Features}
use nvme_plus.Flush.Machine.{
  flushes, FlushState, queue, same, is_empty, time_before, kick_flush, issue_flush,
}

time_before-ltb :
    (since now hz : ℕ)
    → since ≤ now
    → now < since + 2 ^ 63
    → 5 * hz < 2 ^ 63
    → time_before (now % 2 ^ 64) ((since % 2 ^ 64 + 5 * hz) % 2 ^ 64) ≡ ltb now (since + 5 * hz)
unfolding time_before
time_before-ltb since now hz a b c = ground arith

-- Let jiffies be the low 64 bits of a count of ticks that does not wrap, `since` the tick at which the
-- first pending request was queued, and `now` one less than 2^63 ticks after it, with a timeout below 2^63
-- ticks. Then blk_kick_flush() sends a flush to the driver and toggles the pending index, exactly when no
-- flush is in flight, a request pends, and either no data is in flight or the timeout has passed; if not,
-- it changes nothing.
pub kick_flush-issues :
    (q : Features) (f : CmdFlags) (since now : ℕ) (w : FlushState)
    → w.pending_since ≡ since % 2 ^ 64
    → since ≤ now
    → now < since + 2 ^ 63
    → 5 * q.hz < 2 ^ 63
    → let v = kick_flush q (now % 2 ^ 64) f w in
      (((v.events ≡ flushes ∷ w.events) × (v.pending_idx ≡ not w.pending_idx)) ↔ (
        (same w.pending_idx w.running_idx ≡ true)
        × (is_empty (queue w w.pending_idx) ≡ false)
        × ((is_empty w.data_in_flight ≡ true) ⊎ (since + 5 * q.hz ≤ now))))
      × ((v ≡ w) ⊎ ((v.events ≡ flushes ∷ w.events) × (v.pending_idx ≡ not w.pending_idx)))
unfolding kick_flush issue_flush
kick_flush-issues q f since now w e a b c =
    let late : time_before (now % 2 ^ 64) ((w.pending_since + 5 * q.hz) % 2 ^ 64)
        ≡ ltb now (since + 5 * q.hz) =
      subst (λ s. time_before (now % 2 ^ 64) ((s + 5 * q.hz) % 2 ^ 64) ≡ ltb now (since + 5 * q.hz))
        (sym e) (time_before-ltb since now q.hz a b c) in
    ground (arith, late)
