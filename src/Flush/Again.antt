-- ===== src/Flush/Again.antt =====
-- What mq_flush_data_end_io() of daredevil/block/blk-flush.c does to the data in flight.
use nvme_plus.Base.{
  ℕ, ◌<◌, ◌≡◌, ◌≢◌, refl, arith, true, false, Option, none, some, ◌==◌, if◌then◌else◌, if_elim,
}
use nvme_plus.Base.Run.{fault, Ends, Ends-bind, Ends-if}
use nvme_plus.Regulator.{update}
use nvme_plus.Flush.{
  Step, preflush, data_write, postflush, done, Steps, only, both, overlap, cur_seq, Features,
  CmdFlags, put_driver_tag,
}
use nvme_plus.Flush.Machine.{
  FlushState, kick_flush, issue_flush, next_step, complete_seq, queue_for_flush, end_sequence,
}
use nvme_plus.Flush.Calls.{flush_data_end_io}
use nvme_plus.Flush.Places.{moves, count, IsPlaced}
use nvme_plus.Flush.Valid.{IsFlushQueue, data_step}

-- The request is no longer among the data in flight, and no other has come.
abbrev pub IsAway : ℕ → FlushState → FlushState → Type 0
IsAway s w v = (x : ℕ) → count x v.data_in_flight ≡ (if x == s then 0 else count x w.data_in_flight)

next_step-IsAway :
    (j s error : ℕ) (o : Option Step) (w : FlushState)
    → o ≢ some data_write
    → o ≢ none
    → Ends (IsAway s w) (next_step j s error w o)
unfolding next_step queue_for_flush end_sequence
next_step-IsAway j s error (some preflush) w n m = λ x. grind moves
next_step-IsAway j s error (some postflush) w n m = λ x. grind moves
next_step-IsAway j s error (some data_write) w n m = absurd (n refl)
next_step-IsAway j s error (some done) w n m = λ x. grind moves
next_step-IsAway j s error none w n m = absurd (m refl)

kick_flush-data :
    (q : Features) (j : ℕ) (f : CmdFlags) (w : FlushState)
    → (kick_flush q j f w).data_in_flight ≡ w.data_in_flight
unfolding kick_flush issue_flush
kick_flush-data q j f w = ground arith

after_data :
    (all : Steps) (error : ℕ)
    → all.has_data ≡ true
    → all.has_done ≡ false
    → ((if error == 0 then cur_seq all else some done) ≢ some data_write)
      × ((if error == 0 then cur_seq all else some done) ≢ none)
unfolding cur_seq
after_data all error h d = ground arith

complete_data-IsAway :
    (q : Features) (j error s : ℕ) (w : FlushState)
    → overlap (w.requests s).seq (only data_write) ≡ false
    → (both (w.requests s).seq (only data_write)).has_done ≡ false
    → Ends (IsAway s w) (complete_seq q j s (only data_write) error w)
unfolding complete_seq
complete_data-IsAway q j error s w o d =
    Ends-if (IsAway s w) (overlap (w.requests s).seq (only data_write)) fault _ (λ e. absurd (cc))
      λ _.
        Ends-bind (IsAway s w) (IsAway s w) (next_step j s error _ _) _
          (let (n, m) =
              after_data (both (w.requests s).seq (only data_write)) error (ground arith) d in
            next_step-IsAway j s error _ _ n m)
          (λ v a x. rw (kick_flush-data q j (w.requests s).cmd_flags v) (a x))

data_end-IsAway :
    (q : Features) (j error s : ℕ) (w : FlushState)
    → IsPlaced w s
    → 0 < count s w.data_in_flight
    → Ends (IsAway s w) (complete_seq q j s (only data_write) error w)
data_end-IsAway q j error s w p n =
    let (o, d) = data_step (w.requests s).seq (p.sending n) (p.undone (omega arith)) in
    complete_data-IsAway q j error s w o d

-- mq_flush_data_end_io() of a request whose data is in flight
pub flush_data_end_io-IsAway :
    (q : Features) (j error s : ℕ) (w : FlushState)
    → IsFlushQueue w
    → 0 < count s w.data_in_flight
    → Ends (IsAway s w) (flush_data_end_io q j error s w)
unfolding flush_data_end_io put_driver_tag
flush_data_end_io-IsAway q j error s w h n =
    if_elim (λ v. Ends (IsAway s w) (complete_seq q j s (only data_write) error v)) q.elevator
      (λ _.
        (let p = h.placed s in
          let tagged = update w.requests s (put_driver_tag (w.requests s)) in
          let same_seq : (tagged s).seq ≡ (w.requests s).seq = ground arith in
          data_end-IsAway q j error s (record w { requests = tagged })
            (record {
              once = p.once;
              undone = λ a. rw same_seq (p.undone a);
              flushing = λ a. rw same_seq (p.flushing a);
              sending = λ a. rw same_seq (p.sending a);
            })
            n))
      (λ _. data_end-IsAway q j error s w (h.placed s) n)
