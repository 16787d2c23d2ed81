-- ===== src/Flush/Complete.antt =====
-- The whole of blk_flush_complete_seq() of daredevil/block/blk-flush.c.
use nvme_plus.Base.{
  ℕ, suc, ◌+◌, ◌≡◌, ◌≢◌, arith, true, false, not, Option, none, some, ◌==◌, if◌then◌else◌, ◌⊎◌, inl,
  inr, if_elim, ap, ◌∙◌,
}
use nvme_plus.Base.Run.{Ends, Ends-bind}
use nvme_plus.Regulator.{update}
use nvme_plus.Flush.{Step, done, Steps, both, overlap, Features, cur_seq}
use nvme_plus.Flush.Machine.{FlushState, queue, same, is_empty, next_step, complete_seq}
use nvme_plus.Flush.Places.{places, left, IsPlaced}
use nvme_plus.Flush.Moves.{Queued, Moved, Kicked, kick_flush-Kicked, next_step-Moved, is_quiet}

-- What the call does to the state w for the request r, whose completed steps are then `all`
pub record Completed (r : ℕ) (all : Steps) (w v : FlushState) : Type 0 where
  pub placed : (x : ℕ) → (x ≢ r → IsPlaced w x) → IsPlaced v x
  pub total :
      (x : ℕ)
      → places x v + left x v.events
        ≡ (if x == r then suc (left r w.events) else places x w + left x w.events)
  pub running : v.running_idx ≡ w.running_idx
  pub queue_0 : Queued r (not w.pending_idx) w.queue_0 v.queue_0
  pub queue_1 : Queued r w.pending_idx w.queue_1 v.queue_1
  pub others : (x : ℕ) → x ≢ r → v.requests x ≡ w.requests x
  pub seq : places r v ≡ 1 → (v.requests r).seq ≡ all
  pub rq_status : v.rq_status ≡ w.rq_status
  pub idle :
      same v.pending_idx v.running_idx ≡ true
      → (v.pending_idx ≡ w.pending_idx) × (is_quiet v ≡ true)
  pub busy :
      same v.pending_idx v.running_idx ≡ false
      → ((v.pending_idx ≡ w.pending_idx) × (same w.pending_idx w.running_idx ≡ false))
        ⊎ ((v.pending_idx ≡ not w.pending_idx) × (is_empty (queue v w.pending_idx) ≡ false))

-- The state before the switch
abbrev marked : ℕ → Steps → FlushState → FlushState
marked r all w = record w { requests = update w.requests r (record (w.requests r) { seq = all }) }

marked-IsPlaced :
    (r x : ℕ) (all : Steps) (w : FlushState) → x ≢ r → IsPlaced w x → IsPlaced (marked r all w) x
marked-IsPlaced r x all w n p = ground arith

marked-other :
    (r x : ℕ) (all : Steps) (w : FlushState) → x ≢ r → (marked r all w).requests x ≡ w.requests x
marked-other r x all w n = ground arith

marked-seq : (r : ℕ) (all : Steps) (w : FlushState) → ((marked r all w).requests r).seq ≡ all
marked-seq r all w = ground arith

after_kick :
    (r : ℕ) (all : Steps) (w v u : FlushState)
    → Moved r (marked r all w) v
    → Kicked v u
    → Completed r all w u
after_kick r all w v u m k = record {
  placed = λ x h. k.placed x (m.placed x (λ n. marked-IsPlaced r x all w n (h n)));
  total = λ x. k.total x ∙ m.total x;
  running = k.running ∙ m.running;
  queue_0 = rw k.queue_0 m.queue_0;
  queue_1 = rw k.queue_1 m.queue_1;
  others = λ x n. ap (λ f. f x) k.requests ∙ m.others x n ∙ marked-other r x all w n;
  seq = λ p.
      ap (λ f. (f r).seq) k.requests
      ∙ m.seq (rw (← k.queue_0, ← k.queue_1, ← k.data_in_flight) p)
      ∙ marked-seq r all w;
  rq_status = k.rq_status ∙ m.rq_status;
  idle = λ e. let (i, b) = k.idle e in (i ∙ m.pending, b);
  busy = λ e. elim (k.busy e) [ inl (i, b) ↦ inl (ground arith) | inr (i, b) ↦ inr (ground arith) ];
}

next-none :
    (all : Steps) (error : ℕ)
    → all.has_done ≡ false
    → (if error == 0 then cur_seq all else some done) ≢ none
unfolding cur_seq
next-none all error d = ground arith

-- The call ends, with the request at the place of its next step.
pub complete_seq-Completed :
    (q : Features) (j r : ℕ) (seq : Steps) (error : ℕ) (w : FlushState)
    → overlap (w.requests r).seq seq ≡ false
    → (both (w.requests r).seq seq).has_done ≡ false
    → Ends (Completed r (both (w.requests r).seq seq) w) (complete_seq q j r seq error w)
unfolding complete_seq
complete_seq-Completed q j r seq error w o d =
    if_elim (Ends (Completed r all w)) (overlap (w.requests r).seq seq) (λ t. absurd (cc))
      λ _.
        Ends-bind (Moved r w1) (Completed r all w) (next_step j r error w1 o1) _
          (next_step-Moved j r error w1 o1 (ground arith) (ground arith) (next-none all error d))
          (λ v m. after_kick r all w v _ m (kick_flush-Kicked q j (w.requests r).cmd_flags v))
  where
    all : Steps
    all = both (w.requests r).seq seq

    w1 : FlushState
    w1 = marked r all w

    o1 : Option Step
    o1 = if error == 0 then cur_seq all else some done
