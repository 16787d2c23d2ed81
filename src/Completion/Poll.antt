-- ===== src/Completion/Poll.antt =====
-- nvme_poll_cq() of daredevil/drivers/nvme/host/pci.c takes what the device wrote.
use nvme_plus.Base.{
  ℕ, zero, suc, ◌+◌, ◌^◌, ◌≤◌, ◌<◌, ◌≡◌, sym, arith, ap, ap₂, ◌∙◌, true, false, not, List, [], ◌∷◌,
  if◌then◌else◌, length,
}
use nvme_plus.Base.Run.{Run, ok, fault, ◌>>=◌, bind_cong, bind_assoc}
use nvme_plus.Completion.{
  Cqe, NvmeQueue, cqe_pending, update_cq_head, Host, HostState, handle_cqe, poll,
}
use nvme_plus.Completion.Ring.{Place, step, turn, turn-step, IsRing, taken-IsRing}

-- The queue with its head at a place
abbrev pub placed : ℕ → ℕ → (ℕ → Cqe) → Place → NvmeQueue
placed qid depth cqes x = record {
  qid = qid;
  cqes = cqes;
  q_depth = depth;
  cq_head = x.0;
  cq_phase = x.1;
}

-- The entries handled one after the other
abbrev pub handle_all : Host → ℕ → List ℕ → HostState → Run HostState
handle_all env qid [] s = ok s
handle_all env qid (id ∷ ids) s = handle_cqe env qid id s >>= handle_all env qid ids

update_cq_head-step :
    (qid depth : ℕ) (cqes : ℕ → Cqe) (x : Place)
    → x.0 < depth
    → depth ≤ 2 ^ 16
    → update_cq_head (placed qid depth cqes x) ≡ placed qid depth cqes (step depth x)
unfolding update_cq_head
update_cq_head-step qid depth cqes x h l = ground arith

cqe_pending-old :
    (qid depth : ℕ) (cqes : ℕ → Cqe) (x : Place)
    → (cqes x.0).phase ≡ not x.1
    → cqe_pending (placed qid depth cqes x) ≡ false
unfolding cqe_pending
cqe_pending-old qid depth cqes x h = ground arith

cqe_pending-new :
    (qid depth : ℕ) (cqes : ℕ → Cqe) (x : Place)
    → (cqes x.0).phase ≡ x.1
    → cqe_pending (placed qid depth cqes x) ≡ true
unfolding cqe_pending
cqe_pending-new qid depth cqes x h = ground arith

pub none_left :
    (qid depth : ℕ) (cqes : ℕ → Cqe) (x : Place)
    → IsRing depth x cqes []
    → cqe_pending (placed qid depth cqes x) ≡ false
none_left qid depth cqes x r =
    cqe_pending-old qid depth cqes x (r.stale 0 (omega arith) (omega (arith, r.slot)))

abbrev pub outcome : NvmeQueue → HostState → ℕ → Run (NvmeQueue × HostState × ℕ)
outcome v t found = ok (v, t, found)

-- The result of the loop for these entries
abbrev pub served :
    Host → ℕ → ℕ → (ℕ → Cqe) → List ℕ → Place → ℕ → HostState → Run (NvmeQueue × HostState × ℕ)
served env qid depth cqes ids x found s = handle_all env qid ids s >>= λ t.
    outcome (placed qid depth cqes (turn depth x (length ids))) t (length ids + found)

pub poll-served :
    (env : Host) (qid depth : ℕ) (cqes : ℕ → Cqe) (ids : List ℕ) (fuel : ℕ) (x : Place)
    (s : HostState) (found : ℕ)
    → depth ≤ 2 ^ 16
    → IsRing depth x cqes ids
    → length ids ≤ fuel
    → poll env fuel (placed qid depth cqes x) s found ≡ served env qid depth cqes ids x found s
unfolding poll
poll-served env qid depth cqes [] zero x s found l r n =
    ap (λ b. if b then fault else outcome (placed qid depth cqes x) s found)
      (none_left qid depth cqes x r)
    ∙ ap (λ i. outcome (placed qid depth cqes x) s i) (omega arith)
poll-served env qid depth cqes [] (suc fuel) x s found l r n =
    ap
      (λ b.
        if b
        then (handle_cqe env qid (cqes x.0).command_id s >>= λ t.
            poll env fuel (update_cq_head (placed qid depth cqes x)) t (suc found))
        else outcome (placed qid depth cqes x) s found)
      (none_left qid depth cqes x r)
    ∙ ap (λ i. outcome (placed qid depth cqes x) s i) (omega arith)
poll-served env qid depth cqes (id ∷ ids) zero x s found l r n = absurd (omega arith)
poll-served env qid depth cqes (id ∷ ids) (suc fuel) x s found l r n =
    let first = r.filled 0 (omega arith) in
    ap
      (λ b.
        if b
        then (handle_cqe env qid (cqes x.0).command_id s >>= λ t.
            poll env fuel (update_cq_head (placed qid depth cqes x)) t (suc found))
        else outcome (placed qid depth cqes x) s found)
      (cqe_pending-new qid depth cqes x (ap (λ (c : Cqe). c.phase) first))
    ∙ ap
        (λ (c : Cqe). handle_cqe env qid c.command_id s >>= λ t.
          poll env fuel (update_cq_head (placed qid depth cqes x)) t (suc found))
        first
    ∙ ap (λ v. handle_cqe env qid id s >>= λ t. poll env fuel v t (suc found))
        (update_cq_head-step qid depth cqes x r.slot l)
    ∙ bind_cong (handle_cqe env qid id s) _ _ (λ t.
      poll-served env qid depth cqes ids fuel (step depth x) t (suc found) l
        (taken-IsRing depth x cqes id ids r) (omega arith)
      ∙ bind_cong (handle_all env qid ids t) _ _ (λ u. moved_on u))
    ∙ sym (bind_assoc (handle_cqe env qid id s) (handle_all env qid ids) _)
  where
    moved_on :
        (u : HostState)
        → outcome
            (placed qid depth cqes (turn depth (step depth x) (length ids)))
            u
            (length ids + suc found)
          ≡ outcome
              (placed qid depth cqes (turn depth x (suc (length ids))))
              u
              (suc (length ids) + found)
    moved_on u =
        ap₂ (λ y i. outcome (placed qid depth cqes y) u i) (turn-step depth x (length ids))
          (omega arith)
