-- ===== src/Stage/Tests.antt =====
-- A hardware context with four CPUs: requests 5 and 6 staged at CPU 1, 7 and 8 inserted at CPU 2.
use nvme_plus.Base.{ℕ, ◌≡◌, refl, arith, true, false, ◌&&◌, [], ◌∷◌, ◌++◌}
use nvme_plus.Stage.{
  HwCtx, is_empty, mark_allowed_cpu, unmark_allowed_cpu, put_staged, stage_request, insert_requests,
  flush_busy_ctx, gather, gather_cpus, hctx_has_pending, hctx_select_next_cpu, next_from,
}
use nvme_plus.Stage.Gather.{all_lists, gather-all}
use nvme_plus.Stage.Marks.{
  no_requests, stages, inserts, start, next, Staged, Staged-IsMarked, staged-pending,
}

busy : HwCtx
unfolding stage_request insert_requests put_staged mark_allowed_cpu
busy =
    insert_requests (7 ∷ 8 ∷ []) 2
      (stage_request 6 1 true true (stage_request 5 1 false true no_requests))

busy-Staged : Staged 4 busy
unfolding busy
busy-Staged =
    next
      (next (next start (stages 5 1 false (omega arith) refl)) (stages 6 1 true (omega arith) refl))
      (inserts (7 ∷ 8 ∷ []) 2 (omega arith) refl)

gathered : (gather 4 busy).1 ≡ 6 ∷ 5 ∷ 7 ∷ 8 ∷ []
unfolding busy gather gather_cpus unmark_allowed_cpu
gathered = refl

gather-all_example :
    let (v, rqs) = gather 4 busy in
    (rqs ≡ busy.dispatch ++ all_lists 4 busy.dispatch_list)
    × (v.dispatch ≡ [])
    × ((cpu : ℕ) → v.dispatch_list cpu ≡ [])
    × ((cpu : ℕ) → v.run_cpumask cpu ≡ (busy.run_cpumask cpu && is_empty (busy.dispatch_list cpu)))
    × (v.ctx_list ≡ busy.ctx_list)
    × (v.ctx_map ≡ busy.ctx_map)
gather-all_example = gather-all 4 busy (Staged-IsMarked busy-Staged)

staged-pending_example :
    (busy.run_cpumask 1 ≡ true)
    × (hctx_has_pending 4 false busy ≡ true)
    × ((c : ℕ) → (gather 4 busy).0.dispatch_list c ≡ [])
unfolding busy
staged-pending_example = staged-pending 4 1 false busy busy-Staged refl

next_is_first : hctx_select_next_cpu 4 (λ c. true) 0 2 busy ≡ 1
unfolding busy hctx_select_next_cpu next_from
next_is_first = refl

-- The mark is set before the lock is taken. When another CPU gathers in between, it takes the mark with
-- the requests that it finds, and the request that is then put in its list is not seen: nothing is pending,
-- and the next gathering passes it over.
abbrev raced : HwCtx
unfolding gather gather_cpus unmark_allowed_cpu mark_allowed_cpu put_staged stage_request
raced =
    put_staged 9 1 false true
      (gather 4 (mark_allowed_cpu 1 (stage_request 5 1 false true no_requests))).0

raced-unseen :
    (raced.dispatch_list 1 ≡ 9 ∷ [])
    × (hctx_has_pending 4 false raced ≡ false)
    × ((gather 4 raced).1 ≡ [])
unfolding raced hctx_has_pending gather gather_cpus unmark_allowed_cpu
raced-unseen = (refl, refl, refl)

-- A ctx list that is flushed takes the mark of the CPU's other list with it.
flush_busy_ctx-unseen :
    let v = (flush_busy_ctx 1 (stage_request 5 1 false true no_requests) []).0 in
    (v.dispatch_list 1 ≡ 5 ∷ []) × (hctx_has_pending 4 false v ≡ false)
unfolding flush_busy_ctx unmark_allowed_cpu stage_request put_staged mark_allowed_cpu
    hctx_has_pending
flush_busy_ctx-unseen = (refl, refl)
