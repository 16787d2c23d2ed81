-- ===== src/Flush/Moves.antt =====
-- What blk_flush_complete_seq() of daredevil/block/blk-flush.c does to the flush queue and to the
-- request that it is called for.
use nvme_plus.Base.{
  ℕ, suc, ◌+◌, ◌≡◌, ◌≢◌, refl, arith, Bool, true, false, not, ◌||◌, Option, none, some, List, [],
  ◌∷◌, ◌++◌, ◌==◌, if◌then◌else◌, ◌⊎◌, inl,
}
use nvme_plus.Base.Run.{Ends}
use nvme_plus.Flush.{
  Step, preflush, data_write, postflush, done, Features, CmdFlags, cur_seq, restore_request,
}
use nvme_plus.Flush.Machine.{
  FlushState, queue, same, is_empty, remove, kick_flush, issue_flush, queue_for_flush, send_data,
  end_sequence, next_step,
}
use nvme_plus.Flush.Places.{
  moves, places, left, IsPlaced, queue_for_flush-IsPlaced, send_data-IsPlaced,
  end_sequence-IsPlaced,
}

-- The list of index k after a step of r: without r, or with r moved to its end, if it is the pending one
abbrev pub Queued : ℕ → Bool → List ℕ → List ℕ → Type 0
Queued r is_pending before now =
    (now ≡ remove r before) ⊎ ((is_pending ≡ true) × (now ≡ remove r before ++ r ∷ []))

-- The switch, before blk_kick_flush()
pub record Moved (r : ℕ) (w v : FlushState) : Type 0 where
  pub placed : (x : ℕ) → (x ≢ r → IsPlaced w x) → IsPlaced v x
  pub total :
      (x : ℕ)
      → places x v + left x v.events
        ≡ (if x == r then suc (left r w.events) else places x w + left x w.events)
  pub pending : v.pending_idx ≡ w.pending_idx
  pub running : v.running_idx ≡ w.running_idx
  pub queue_0 : Queued r (not w.pending_idx) w.queue_0 v.queue_0
  pub queue_1 : Queued r w.pending_idx w.queue_1 v.queue_1
  pub others : (x : ℕ) → x ≢ r → v.requests x ≡ w.requests x
  pub seq : places r v ≡ 1 → (v.requests r).seq ≡ (w.requests r).seq
  pub rq_status : v.rq_status ≡ w.rq_status

queue_for_flush-Moved :
    (j r : ℕ) (w : FlushState)
    → (w.requests r).seq.has_done ≡ false
    → ((cur_seq (w.requests r).seq ≡ some preflush) ⊎ (cur_seq (w.requests r).seq ≡ some postflush))
    → Moved r w (queue_for_flush j r w)
unfolding queue_for_flush
queue_for_flush-Moved j r w d c = record {
  placed = λ x h. queue_for_flush-IsPlaced j r x w h d (ground arith);
  total = λ x. grind moves;
  pending = ground arith;
  running = ground arith;
  queue_0 = ground arith;
  queue_1 = ground arith;
  others = λ x n. ground arith;
  seq = λ p. ground arith;
  rq_status = ground arith;
}

send_data-Moved :
    (r : ℕ) (w : FlushState)
    → (w.requests r).seq.has_done ≡ false
    → cur_seq (w.requests r).seq ≡ some data_write
    → Moved r w (send_data r w)
unfolding send_data
send_data-Moved r w d c = record {
  placed = λ x h. send_data-IsPlaced r x w h d c;
  total = λ x. grind moves;
  pending = refl;
  running = refl;
  queue_0 = inl refl;
  queue_1 = inl refl;
  others = λ x n. refl;
  seq = λ p. refl;
  rq_status = refl;
}

end_sequence-Moved : (r e : ℕ) (w : FlushState) → Moved r w (end_sequence r e w)
unfolding end_sequence restore_request
end_sequence-Moved r e w = record {
  placed = λ x h. end_sequence-IsPlaced r e x w h;
  total = λ x. grind moves;
  pending = refl;
  running = refl;
  queue_0 = inl refl;
  queue_1 = inl refl;
  others = λ x n. ground arith;
  seq = λ p. ground arith;
  rq_status = refl;
}

-- Nothing pends, or data in flight is waited for.
abbrev pub is_quiet : FlushState → Bool
is_quiet w = is_empty (queue w w.pending_idx) || not (is_empty w.data_in_flight)

-- blk_kick_flush() leaves the lists as they are.
pub record Kicked (w v : FlushState) : Type 0 where
  pub placed : (x : ℕ) → IsPlaced w x → IsPlaced v x
  pub total : (x : ℕ) → places x v + left x v.events ≡ places x w + left x w.events
  pub running : v.running_idx ≡ w.running_idx
  pub queue_0 : v.queue_0 ≡ w.queue_0
  pub queue_1 : v.queue_1 ≡ w.queue_1
  pub data_in_flight : v.data_in_flight ≡ w.data_in_flight
  pub requests : v.requests ≡ w.requests
  pub rq_status : v.rq_status ≡ w.rq_status
  pub idle :
      same v.pending_idx v.running_idx ≡ true
      → (v.pending_idx ≡ w.pending_idx) × (is_quiet v ≡ true)
  pub busy :
      same v.pending_idx v.running_idx ≡ false
      → ((v.pending_idx ≡ w.pending_idx) × (same w.pending_idx w.running_idx ≡ false))
        ⊎ ((v.pending_idx ≡ not w.pending_idx) × (is_empty (queue v w.pending_idx) ≡ false))

pub kick_flush-Kicked :
    (q : Features) (j : ℕ) (f : CmdFlags) (w : FlushState) → Kicked w (kick_flush q j f w)
unfolding kick_flush issue_flush
kick_flush-Kicked q j f w = record {
  placed = λ x h. ground arith;
  total = λ x. ground arith;
  running = ground arith;
  queue_0 = ground arith;
  queue_1 = ground arith;
  data_in_flight = ground arith;
  requests = ground arith;
  rq_status = ground arith;
  idle = ground arith;
  busy = ground arith;
}

pub next_step-Moved :
    (j r e : ℕ) (w : FlushState) (o : Option Step)
    → (w.requests r).seq.has_done ≡ false
    → ((cur_seq (w.requests r).seq ≡ o) ⊎ (o ≡ some done))
    → o ≢ none
    → Ends (Moved r w) (next_step j r e w o)
unfolding next_step
next_step-Moved j r e w (some preflush) d c n = queue_for_flush-Moved j r w d (ground arith)
next_step-Moved j r e w (some postflush) d c n = queue_for_flush-Moved j r w d (ground arith)
next_step-Moved j r e w (some data_write) d c n = send_data-Moved r w d (ground arith)
next_step-Moved j r e w (some done) d c n = end_sequence-Moved r e w
next_step-Moved j r e w none d c n = absurd (n refl)
