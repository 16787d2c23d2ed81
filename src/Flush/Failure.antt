-- ===== src/Flush/Failure.antt =====
-- A flush that fails: flush_end_io() of daredevil/block/blk-flush.c with an error.
use nvme_plus.Base.{
  ℕ, zero, suc, ◌+◌, ◌≤◌, ◌<◌, ◌≡◌, ◌≢◌, refl, sym, subst, arith, Bool, false, not, Option, none,
  some, List, [], ◌∷◌, ◌∙◌, ap,
}
use nvme_plus.Base.Run.{fault, ◌>>=◌, Ends, Ends-bind, Ends-map, Ends-if, Ends-both}
use nvme_plus.Flush.{Step, done, Steps, both, overlap, cur_seq, Features, CmdFlags}
use nvme_plus.Flush.Machine.{
  FlushState, queue, same, first, remove, kick_flush, issue_flush, next_step, complete_seq,
  end_sequence,
}
use nvme_plus.Flush.Calls.{after, flushed, end_running, put_flush, flush_end_io, final_error, freed}
use nvme_plus.Flush.Places.{count, places, IsPlaced}
use nvme_plus.Flush.Complete.{Completed, complete_seq-Completed}
use nvme_plus.Flush.Valid.{IsFlushQueue, one}
use nvme_plus.Flush.Ending.{Runs, step-Runs, first-split, after-first, remove-first, once-walked}
use nvme_plus.Flush.Walk.{weigh, weigh-le, weight_pos, flush_step, lighter, walked-place}
use nvme_plus.Flush.Life.{changed, changed-Runs, changed-IsFlushQueue}
use nvme_plus.Flush.Order.{ended}

-- The request r ended with the error, and out of the flush queues
abbrev Fails : ℕ → ℕ → FlushState → FlushState → Type 0
Fails r error w v =
    ((x : ℕ) → ended x error v.events ≡ ended x error w.events + one r x)
    × (v.queue_0 ≡ remove r w.queue_0)
    × (v.queue_1 ≡ remove r w.queue_1)

kick_flush-Fails :
    (q : Features) (j : ℕ) (f : CmdFlags) (r error : ℕ) (w v : FlushState)
    → Fails r error w v
    → Fails r error w (kick_flush q j f v)
unfolding kick_flush issue_flush
kick_flush-Fails q j f r error w v (n, a, b) =
    ((λ x. let e = n x in ground arith), ground arith, ground arith)

next_step-Fails :
    (j r error : ℕ) (w u : FlushState) (o : Option Step)
    → o ≡ some done
    → u.queue_0 ≡ w.queue_0
    → u.queue_1 ≡ w.queue_1
    → u.events ≡ w.events
    → Ends (Fails r error w) (next_step j r error u o)
unfolding next_step end_sequence
next_step-Fails j r error w u o e a b c =
    subst (λ s. Ends (Fails r error w) (next_step j r error u s)) (sym e)
      ((λ x. ground arith), ap (remove r) a, ap (remove r) b)

complete_seq-Fails :
    (q : Features) (j r : ℕ) (m : Steps) (error : ℕ) (w : FlushState)
    → error ≢ 0
    → overlap (w.requests r).seq m ≡ false
    → Ends (Fails r error w) (complete_seq q j r m error w)
unfolding complete_seq
complete_seq-Fails q j r m error w n o =
    Ends-if (Fails r error w) (overlap (w.requests r).seq m) fault _ (λ e. absurd (cc))
      λ _.
        Ends-bind (Fails r error w) (Fails r error w) (next_step j r error _ _) _
          (next_step-Fails j r error w _ _ (ground arith) refl refl refl)
          (λ v s. kick_flush-Fails q j (w.requests r).cmd_flags r error w v s)

-- The walked list after a step, with an error
rest-walked :
    (k : Bool) (r error : ℕ) (rest : List ℕ) (w v : FlushState)
    → Fails r error w v
    → IsPlaced w r
    → queue w k ≡ r ∷ rest
    → queue v k ≡ rest
rest-walked k r error rest w v (n, a, b) p e =
    let once = subst (λ l. count r l ≤ 1) e (once-walked k r w p) in
    let gone : queue v k ≡ remove r (queue w k) = ground arith in
    gone ∙ ap (remove r) e ∙ remove-first r rest once

first-none : (xs : List ℕ) → none ≡ first xs → xs ≡ []
first-none [] e = refl
first-none (x ∷ xs) e = absurd (cc)

-- Each request of the list ended once more with the error.
abbrev pub AllFail : ℕ → List ℕ → FlushState → FlushState → Type 0
AllFail error rs w v = (x : ℕ) → ended x error v.events ≡ ended x error w.events + count x rs

end_running-AllFail :
    (q : Features) (j : ℕ) (k : Bool) (error fuel : ℕ) (pos : Option ℕ) (w : FlushState)
    → error ≢ 0
    → Runs k pos w
    → pos ≡ first (queue w k)
    → (pos ≢ none → weigh w.requests (queue w k) ≤ fuel)
    → Ends (AllFail error (queue w k) w) (end_running q j k error fuel pos w)
unfolding end_running
end_running-AllFail q j k error fuel none w z h f n =
    subst (λ l. AllFail error l w w) (sym (first-none (queue w k) f)) (λ x. omega arith)
end_running-AllFail q j k error zero (some r) w z h f n =
    let (rest, e) = first-split r (queue w k) (sym f) in
    absurd (
      omega (
        arith,
        weight_pos (cur_seq (w.requests r).seq),
        subst (λ l. weigh w.requests l ≤ 0) e (n (λ c. cc)),
      ))
end_running-AllFail q j k error (suc fuel) (some r) w z h f n =
    Ends-bind _ Good (flushed (cur_seq seq)) _
      (flush_step seq (p.flushing inside) (p.undone (omega (arith, at_one))))
      (λ m (o, d, t).
        Ends-bind (λ v. Completed r (both seq m) w v × Fails r error w v) Good
          (complete_seq q j r m error w) _
          (Ends-both (Completed r (both seq m) w) (Fails r error w) (complete_seq q j r m error w)
            (complete_seq-Completed q j r m error w o d) (complete_seq-Fails q j r m error w z o))
          (λ v (c, s).
            let now = rest-walked k r error rest w v s p e in
            Ends-map (AllFail error (queue v k) v) Good _
              (subst (λ o. Ends (AllFail error (queue v k) v) (end_running q j k error fuel o v))
                (sym next_pos)
                (end_running-AllFail q j k error fuel (first rest) v z
                  (step-Runs k r rest _ w v h e c) (ap first (sym now))
                  (λ nn. omega (arith, n (λ x. cc), lighter k r rest m w v h e c t))))
              (λ u g x. ground (arith, g x, s.0 x, ap (count x) e, ap (count x) now))))
  where
    Good : FlushState → Type 0
    Good = AllFail error (queue w k) w

    seq : Steps
    seq = (w.requests r).seq

    p : IsPlaced w r
    p = h.placed r

    split : (rest : List ℕ) × (queue w k ≡ r ∷ rest)
    split = first-split r (queue w k) (sym f)

    rest : List ℕ
    rest = split.0

    e : queue w k ≡ r ∷ rest
    e = split.1

    next_pos : after r (queue w k) ≡ first rest
    next_pos = ap (after r) e ∙ after-first r rest

    at_one : places r w ≡ 1
    at_one = (walked-place k r rest w p e).0

    inside : 0 < count r w.queue_0 + count r w.queue_1
    inside = (walked-place k r rest w p e).1

put_flush-AllFail :
    (q : Features) (j error : ℕ) (w : FlushState)
    → IsFlushQueue w
    → same w.pending_idx w.running_idx ≡ false
    → final_error w.rq_status error ≢ 0
    → Ends
        (AllFail (final_error w.rq_status error) (queue w w.running_idx) w)
        (put_flush q j error w 1)
unfolding put_flush
put_flush-AllFail q j error w h b z =
    Ends-if (AllFail err (queue w k) w) (same w.pending_idx w.running_idx) fault _
      (λ e. absurd (cc))
      (λ _.
        Ends-map (AllFail err (queue w k) start) (AllFail err (queue w k) w) _
          (end_running-AllFail q j k err _ (first (queue w k)) start z
            (changed-Runs w (freed q w.flush_rq) 0 h b) refl
            (λ _. omega (arith, weigh-le w.requests (queue w k))))
          (λ v a. a))
  where
    k : Bool
    k = w.running_idx

    err : ℕ
    err = final_error w.rq_status error

    start : FlushState
    start = changed w (freed q w.flush_rq) 0 (not k)

-- The error of two calls, the first's if it had one
abbrev pub earlier : ℕ → ℕ → ℕ
earlier zero last = last
earlier (suc first) last = suc first

final_error-earlier : (a b : ℕ) → final_error a b ≡ earlier a b
final_error-earlier zero b = refl
final_error-earlier (suc a) b = ground arith

-- On a well-formed flush queue with a flush in flight, whose request has two references: when
-- flush_end_io() has put both, and one of the two calls had an error, each request that the flush was
-- for has ended once with that error, the first call's if both had one, and no other request has.
pub flush_end_io-AllFail :
    (q : Features) (i j first_error last_error : ℕ) (w : FlushState)
    → IsFlushQueue w
    → same w.pending_idx w.running_idx ≡ false
    → w.flush_rq.ref ≡ 2
    → earlier first_error last_error ≢ 0
    → Ends
        (AllFail (earlier first_error last_error) (queue w w.running_idx) w)
        (flush_end_io q i first_error w >>= flush_end_io q j last_error)
unfolding flush_end_io put_flush
flush_end_io-AllFail q i j first_error last_error w h b r z =
    subst (λ e. Fail e) (final_error-earlier first_error last_error)
      (subst
        (λ n. Ends (Good error) (put_flush q i first_error w n >>= flush_end_io q j last_error))
        (sym r)
        (put_flush-AllFail q j last_error (changed w _ first_error w.running_idx)
          (changed-IsFlushQueue w _ first_error h) b
          (subst (λ e. e ≢ 0) (sym (final_error-earlier first_error last_error)) z)))
  where
    error : ℕ
    error = final_error first_error last_error

    Good : ℕ → FlushState → Type 0
    Good e = AllFail e (queue w w.running_idx) w

    Fail : ℕ → Type 0
    Fail e = Ends (Good e) (flush_end_io q i first_error w >>= flush_end_io q j last_error)
