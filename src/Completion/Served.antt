-- ===== src/Completion/Served.antt =====
-- The completion queue from nvme_init_queue() of daredevil/drivers/nvme/host/pci.c on, under entries
-- that the device writes and polls.
use nvme_plus.Base.{
  ℕ, ◌+◌, ◌^◌, ◌≤◌, ◌<◌, ◌≡◌, subst, arith, ap, ◌∙◌, true, false, some, List, [], ◌∷◌, ◌++◌, length,
  ◌⊎◌,
}
use nvme_plus.Base.Run.{Run, ok, ◌>>=◌, Ends, Ends-bind, Ends-value, bind_cong, bind_assoc}
use nvme_plus.Regulator.{get_enq}
use nvme_plus.Completion.{
  Cqe, NvmeQueue, init_queue, cqe_pending, Host, HostState, handle_cqe, blex_handle_cqe,
  complete_req, ring_cq_doorbell, poll_cq,
}
use nvme_plus.Completion.Ring.{
  Place, step, turn, turn-step, turn-wraps, IsRing, post, taken-IsRing, posted-IsRing,
}
use nvme_plus.Completion.Poll.{placed, handle_all, outcome, poll-served, none_left}

-- The ring with the place of the head and the command ids written and not taken: as
-- nvme_init_queue() makes it, after the device writes an entry where there is room, after a poll
pub data Written (depth : ℕ) : (ℕ → Cqe) → Place → List ℕ → Type 0 where
  created :
      Written depth
        (init_queue 0 depth).cqes
        ((init_queue 0 depth).cq_head, (init_queue 0 depth).cq_phase)
        []
  posts :
      {cqes : ℕ → Cqe} {x : Place} {ids : List ℕ} (id : ℕ)
      → Written depth cqes x ids
      → length ids < depth
      → Written depth (post depth x ids id cqes) x (ids ++ id ∷ [])
  polls :
      {cqes : ℕ → Cqe} {x : Place} {ids : List ℕ}
      → Written depth cqes x ids
      → Written depth cqes (turn depth x (length ids)) []

created-IsRing :
    (depth : ℕ)
    → 0 < depth
    → let q = init_queue 0 depth in IsRing depth (q.cq_head, q.cq_phase) q.cqes []
unfolding init_queue
created-IsRing depth h = record {
  slot = h;
  fits = omega arith;
  filled = λ k l. absurd (omega arith);
  stale =
      λ k l m. ground (arith, ap (λ (y : Place). y.1) (turn-wraps depth 0 true k h (omega arith)));
}

drained-IsRing :
    (depth : ℕ) (x : Place) (cqes : ℕ → Cqe) (ids : List ℕ)
    → IsRing depth x cqes ids
    → IsRing depth (turn depth x (length ids)) cqes []
drained-IsRing depth x cqes [] r = r
drained-IsRing depth x cqes (id ∷ ids) r =
    subst (λ y. IsRing depth y cqes []) (turn-step depth x (length ids))
      (drained-IsRing depth (step depth x) cqes ids (taken-IsRing depth x cqes id ids r))

pub Written-IsRing :
    {depth : ℕ} {cqes : ℕ → Cqe} {x : Place} {ids : List ℕ}
    → 0 < depth
    → Written depth cqes x ids
    → IsRing depth x cqes ids
Written-IsRing h created = created-IsRing _ h
Written-IsRing h (posts id w l) = posted-IsRing _ _ _ _ id (Written-IsRing h w) l
Written-IsRing h (polls w) = drained-IsRing _ _ _ _ (Written-IsRing h w)

-- The state after the doorbell, which is rung if there was an entry
abbrev pub rung : List ℕ → ℕ → HostState → HostState
rung [] head t = t
rung (id ∷ ids) head t = record t { doorbell = some head }

ring_cq_doorbell-rung :
    (ids : List ℕ) (q : NvmeQueue) (t : HostState)
    → ring_cq_doorbell q t (length ids + 0) ≡ outcome q (rung ids q.cq_head t) (length ids)
unfolding ring_cq_doorbell
ring_cq_doorbell-rung [] q t = ground arith
ring_cq_doorbell-rung (id ∷ ids) q t = ground arith

poll_cq-served :
    (env : Host) (qid depth : ℕ) (cqes : ℕ → Cqe) (x : Place) (ids : List ℕ) (s : HostState)
    → depth ≤ 2 ^ 16
    → IsRing depth x cqes ids
    → poll_cq env (placed qid depth cqes x) s ≡ (
        handle_all env qid ids s >>= λ t.
        outcome
          (placed qid depth cqes (turn depth x (length ids)))
          (rung ids (turn depth x (length ids)).0 t)
          (length ids))
unfolding poll_cq
poll_cq-served env qid depth cqes x ids s l r =
    ap ring_all (poll-served env qid depth cqes ids depth x s 0 l r r.fits)
    ∙ bind_assoc (handle_all env qid ids s) _ _
    ∙ bind_cong (handle_all env qid ids s) _ _
        (λ t. ring_cq_doorbell-rung ids (placed qid depth cqes (turn depth x (length ids))) t)
  where
    ring_all : Run (NvmeQueue × HostState × ℕ) → Run (NvmeQueue × HostState × ℕ)
    ring_all m = m >>= λ (o : NvmeQueue × HostState × ℕ). ring_cq_doorbell o.0 o.1 o.2

-- The queue is that for admin commands, or its NQ has an eNCQ.
abbrev pub HasNcq : ℕ → HostState → Type 0
HasNcq qid s = (qid ≡ 0) ⊎ ((s.nq_reg.enqs (get_enq qid)).has_encq ≡ true)

handle_cqe-Ends :
    (env : Host) (qid id : ℕ) (s : HostState)
    → HasNcq qid s
    → Ends (HasNcq qid) (handle_cqe env qid id s)
unfolding handle_cqe blex_handle_cqe complete_req
handle_cqe-Ends env qid id s h = ground arith

handle_all-Ends :
    (env : Host) (qid : ℕ) (ids : List ℕ) (s : HostState)
    → HasNcq qid s
    → Ends (HasNcq qid) (handle_all env qid ids s)
handle_all-Ends env qid [] s h = h
handle_all-Ends env qid (id ∷ ids) s h =
    Ends-bind (HasNcq qid) (HasNcq qid) (handle_cqe env qid id s) _ (handle_cqe-Ends env qid id s h)
      (handle_all-Ends env qid ids)

-- Let the device have written entries, where there was room, to a queue of at most 2^16 entries that
-- nvme_init_queue() made, and polls have taken some; and let the queue be that for admin commands, or its NQ
-- have an eNCQ. Then nvme_poll_cq() ends, having handled the entries that were not taken, each once and in
-- the order in which they were written, as one call after the other of nvme_handle_cqe(), none of which
-- follows a NULL pointer. It tells the device the new head, if there was an entry, and counts them; after it
-- no entry is pending. So the phase keeps new entries apart from those of the round before.
pub poll_cq-serves :
    (env : Host) (qid depth : ℕ) (cqes : ℕ → Cqe) (x : Place) (ids : List ℕ) (s : HostState)
    → 0 < depth
    → depth ≤ 2 ^ 16
    → Written depth cqes x ids
    → HasNcq qid s
    → let v = placed qid depth cqes (turn depth x (length ids)) in
      (t : HostState) × (handle_all env qid ids s ≡ ok t)
      × (poll_cq env (placed qid depth cqes x) s ≡ ok (v, rung ids v.cq_head t, length ids))
      × (cqe_pending v ≡ false)
poll_cq-serves env qid depth cqes x ids s h l w n =
    let r = Written-IsRing h w in
    let (t, e) =
      Ends-value (HasNcq qid) (handle_all env qid ids s) (handle_all-Ends env qid ids s n) in
    (
      t,
      e,
      poll_cq-served env qid depth cqes x ids s l r
          ∙ ap
              (λ (m : Run HostState). m >>= λ u.
                outcome (placed qid depth cqes (turn depth x (length ids)))
                  (rung ids (turn depth x (length ids)).0 u) (length ids))
              e,
      none_left qid depth cqes (turn depth x (length ids)) (drained-IsRing depth x cqes ids r),
    )
