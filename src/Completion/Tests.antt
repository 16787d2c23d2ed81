-- ===== src/Completion/Tests.antt =====
-- A completion queue of two entries: 4 and 5 written and taken, then 6 and 9, of the second round, written.
use nvme_plus.Base.{
  ℕ, ◌≡◌, inr, refl, arith, Bool, true, false, none, some, List, [], ◌∷◌, ◌==◌, if◌then◌else◌,
}
use nvme_plus.Base.Run.{Run, ok, ◌>>=◌}
use nvme_plus.Samples.{sample}
use nvme_plus.Completion.{
  Cqe, NvmeQueue, Host, HostState, Completion, batched, invalid_id, init_queue, cqe_pending,
  update_cq_head, handle_cqe, blex_handle_cqe, count_completion, complete_req, poll,
  ring_cq_doorbell, poll_cq, nvme_irq,
}
use nvme_plus.Completion.Ring.{post}
use nvme_plus.Completion.Poll.{placed, handle_all}
use nvme_plus.Completion.Served.{Written, created, posts, polls, rung, poll_cq-serves}

-- Every id but 9 has a request; that of 4 completes on another CPU, that of 6 goes into the batch.
abbrev host : Host
host = record {
  is_aen_req = λ qid id. false;
  find_rq = λ tags id. if id == 9 then none else some id;
  try_complete_req = λ rq. rq == 4;
  add_to_batch = λ rq. rq == 6;
  compl_dispatch_on = true;
}

abbrev state : HostState
state = record { nq_reg = sample; completions = []; doorbell = none }

abbrev start : ℕ → Cqe
unfolding init_queue
start = (init_queue 0 2).cqes

abbrev round_one : ℕ → Cqe
round_one = post 2 (0, true) (4 ∷ []) 5 (post 2 (0, true) [] 4 start)

abbrev round_two : ℕ → Cqe
round_two = post 2 (0, false) (6 ∷ []) 9 (post 2 (0, false) [] 6 round_one)

round_two-Written : Written 2 round_two (0, false) (6 ∷ 9 ∷ [])
unfolding init_queue start
round_two-Written =
    posts 9 (posts 6 (polls (posts 5 (posts 4 created (omega arith)) (omega arith))) (omega arith))
      (omega arith)

poll_cq-serves_example :
    let v = placed 1 2 round_two (0, true) in
    (t : HostState) × (handle_all host 1 (6 ∷ 9 ∷ []) state ≡ ok t)
    × (poll_cq host (placed 1 2 round_two (0, false)) state ≡ ok (v, rung (6 ∷ 9 ∷ []) 0 t, 2))
    × (cqe_pending v ≡ false)
poll_cq-serves_example =
    poll_cq-serves host 1 2 round_two (0, false) (6 ∷ 9 ∷ []) state (omega arith) (omega arith)
      round_two-Written (inr refl)

abbrev shown : NvmeQueue × HostState × Bool → Run (List Completion × ℕ × ℕ)
shown (q, s, handled) =
    ok (s.completions, (s.nq_reg.enqs 0).encq.nr_complete_rqs, (s.nq_reg.enqs 0).encq.nr_irqs)

irq_counts :
    (nvme_irq host (placed 1 2 round_two (0, false)) state >>= shown)
    ≡ ok (invalid_id 9 ∷ batched 6 ∷ [], 1, 1)
unfolding nvme_irq poll_cq poll ring_cq_doorbell handle_cqe blex_handle_cqe count_completion
    complete_req cqe_pending update_cq_head start init_queue
irq_counts = refl
