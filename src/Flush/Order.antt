-- ===== src/Flush/Order.antt =====
-- The order in which blk_flush_complete_seq() of daredevil/block/blk-flush.c takes a request through the
-- steps that blk_flush_policy() chose, and what an error does.
use nvme_plus.Base.{
  ℕ, suc, ◌+◌, ◌≡◌, ◌≢◌, refl, sym, subst, arith, false, ◌&&◌, some, List, [], ◌∷◌, ◌++◌, ◌==◌,
  if◌then◌else◌, ◌∙◌, ap,
}
use nvme_plus.Base.Run.{fault, Ends, Ends-bind, Ends-map, Ends-if, Ends-both}
use nvme_plus.Regulator.{update}
use nvme_plus.Flush.{
  Step, preflush, data_write, postflush, done, Steps, only, both, overlap, cur_seq, Features,
  restore_request, CmdFlags,
}
use nvme_plus.Flush.Machine.{
  Event, sends, flushes, bypasses, ends, FlushState, queue, kick_flush, issue_flush, next_step,
  complete_seq, queue_for_flush, send_data, end_sequence,
}
use nvme_plus.Flush.Places.{moves, count, places}
use nvme_plus.Flush.Complete.{Completed, complete_seq-Completed}

-- The steps that are left, in order: an independent description of the bits that are not set
abbrev pub todo : Steps → List Step
todo s =
    (if s.has_preflush then [] else preflush ∷ [])
    ++ (if s.has_data then [] else data_write ∷ [])
    ++ (if s.has_postflush then [] else postflush ∷ [])

-- How often a request was ended with an error of the kind given, or was sent
abbrev pub ended : ℕ → ℕ → List Event → ℕ
ended r error [] = 0
ended r error (sends x ∷ es) = ended r error es
ended r error (flushes ∷ es) = ended r error es
ended r error (bypasses x ∷ es) = ended r error es
ended r error (ends x e ∷ es) = (if (r == x) && (error == e) then 1 else 0) + ended r error es

abbrev pub sent : ℕ → List Event → ℕ
sent r [] = 0
sent r (sends x ∷ es) = (if r == x then 1 else 0) + sent r es
sent r (flushes ∷ es) = sent r es
sent r (bypasses x ∷ es) = sent r es
sent r (ends x e ∷ es) = sent r es

-- Where a request with these steps left stands after the call, compared with the state before it
abbrev pub Stands : ℕ → List Step → FlushState → FlushState → Type 0
Stands r [] w v =
    (places r v ≡ 0)
    × (ended r 0 v.events ≡ suc (ended r 0 w.events))
    × ((v.requests r).is_flush_seq ≡ false)
    × ((v.requests r).bio ≡ (w.requests r).biotail)
    × ((v.requests r).end_io ≡ (w.requests r).saved_end_io)
Stands r (preflush ∷ rest) w v =
    (count r (queue v w.pending_idx) ≡ 1) × (places r v ≡ 1) × (sent r v.events ≡ sent r w.events)
Stands r (postflush ∷ rest) w v =
    (count r (queue v w.pending_idx) ≡ 1) × (places r v ≡ 1) × (sent r v.events ≡ sent r w.events)
Stands r (data_write ∷ rest) w v =
    (count r v.data_in_flight ≡ 1) × (places r v ≡ 1) × (sent r v.events ≡ suc (sent r w.events))
Stands r (done ∷ rest) w v = ⊥

step_left :
    (s : Steps) (st : Step) (rest : List Step)
    → todo s ≡ st ∷ rest
    → (overlap s (only st) ≡ false)
      × (todo (both s (only st)) ≡ rest)
      × ((both s (only st)).has_done ≡ s.has_done)
step_left s st rest e = ground arith

-- The step that the call goes on with
abbrev head_or_done : List Step → Step
head_or_done [] = done
head_or_done (st ∷ rest) = st

cur_seq-todo : (s : Steps) → s.has_done ≡ false → cur_seq s ≡ some (head_or_done (todo s))
unfolding cur_seq
cur_seq-todo s d = ground arith

todo-done : (s : Steps) (rest : List Step) → todo s ≢ done ∷ rest
todo-done s rest e = ground arith

next_step-Stands :
    (j r : ℕ) (all : Steps) (rest : List Step) (w : FlushState)
    → todo all ≡ rest
    → Ends (Stands r rest w) (
        next_step j r 0
          (record w { requests = update w.requests r (record (w.requests r) { seq = all }) })
          (some (head_or_done rest)))
unfolding next_step queue_for_flush send_data end_sequence restore_request
next_step-Stands j r all [] w e = grind moves
next_step-Stands j r all (preflush ∷ rest) w e = grind moves
next_step-Stands j r all (postflush ∷ rest) w e = grind moves
next_step-Stands j r all (data_write ∷ rest) w e = grind moves
next_step-Stands j r all (done ∷ rest) w e = absurd (todo-done all rest e)

kick_flush-Stands :
    (q : Features) (j : ℕ) (f : CmdFlags) (r : ℕ) (rest : List Step) (w v : FlushState)
    → Stands r rest w v
    → Stands r rest w (kick_flush q j f v)
unfolding kick_flush issue_flush
kick_flush-Stands q j f r [] w v s = ground arith
kick_flush-Stands q j f r (preflush ∷ rest) w v s = ground arith
kick_flush-Stands q j f r (postflush ∷ rest) w v s = ground arith
kick_flush-Stands q j f r (data_write ∷ rest) w v s = ground arith
kick_flush-Stands q j f r (done ∷ rest) w v s = absurd s

abbrev marked : ℕ → Steps → FlushState → FlushState
marked r all w = record w { requests = update w.requests r (record (w.requests r) { seq = all }) }

pub complete_seq-Stands :
    (q : Features) (j r : ℕ) (m : Steps) (w : FlushState)
    → overlap (w.requests r).seq m ≡ false
    → (both (w.requests r).seq m).has_done ≡ false
    → Ends (Stands r (todo (both (w.requests r).seq m)) w) (complete_seq q j r m 0 w)
unfolding complete_seq
complete_seq-Stands q j r m w o d =
    Ends-if Good (overlap (w.requests r).seq m) fault _ (λ e. absurd (cc))
      λ _.
        Ends-bind Good Good (next_step j r 0 (marked r all w) (cur_seq all)) _
          (subst (λ s. Ends Good (next_step j r 0 (marked r all w) s)) (sym (cur_seq-todo all d))
            (next_step-Stands j r all (todo all) w refl))
          (λ v s. kick_flush-Stands q j (w.requests r).cmd_flags r (todo all) w v s)
  where
    all : Steps
    all = both (w.requests r).seq m

    Good : FlushState → Type 0
    Good = Stands r (todo all) w

-- blk_flush_complete_seq() of the first step that a request has left, with no error, returns with the
-- request at the step after it: in the pending list for a flush, sent to the driver and in the list of
-- data in flight for its data, or, when no step is left, in no list and ended once more without an error,
-- outside the flush sequence, with its last bio and the end_io that it came with. Its steps are then those left without the first, as long as it is in a list. So the data is sent
-- after the preflush, and the postflush comes after the data.
pub complete_seq-follows :
    (q : Features) (j r : ℕ) (st : Step) (rest : List Step) (w : FlushState)
    → (w.requests r).seq.has_done ≡ false
    → todo (w.requests r).seq ≡ st ∷ rest
    → Ends
        (λ v. Stands r rest w v × (places r v ≡ 1 → todo (v.requests r).seq ≡ rest))
        (complete_seq q j r (only st) 0 w)
complete_seq-follows q j r st rest w d e =
    let (o, t, n) = step_left (w.requests r).seq st rest e in
    let all = both (w.requests r).seq (only st) in
    Ends-both (Stands r rest w) _ (complete_seq q j r (only st) 0 w)
      (subst (λ l. Ends (Stands r l w) (complete_seq q j r (only st) 0 w)) t
        (complete_seq-Stands q j r (only st) w o (n ∙ d)))
      (Ends-map (Completed r all w) _ (complete_seq q j r (only st) 0 w)
        (complete_seq-Completed q j r (only st) 0 w o (n ∙ d)) (λ v c p. ap todo (c.seq p) ∙ t))
