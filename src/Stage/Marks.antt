-- ===== src/Stage/Marks.antt =====
-- The marks of the CPUs with staged requests, under the calls of daredevil/block/blk-blex.h and
-- daredevil/block/blk-mq.c that stage requests, each as a whole, and the gathering.
use nvme_plus.Base.{ℕ, zero, suc, ◌<◌, ◌≡◌, sym, subst, arith, Bool, true, false, List, []}
use nvme_plus.Stage.{
  HwCtx, is_empty, mark_allowed_cpu, put_staged, stage_request, insert_requests, gather, any_below,
  hctx_has_pending,
}
use nvme_plus.Stage.Gather.{IsMarked, gather-all}

stage_request-IsMarked :
    (n rq cpu : ℕ) (at_head : Bool) (h : HwCtx)
    → cpu < n
    → IsMarked n h
    → IsMarked n (stage_request rq cpu at_head true h)
unfolding stage_request put_staged mark_allowed_cpu
stage_request-IsMarked n rq cpu at_head h l m c e = let k = m c in ground (arith, k)

insert_requests-IsMarked :
    (n : ℕ) (rqs : List ℕ) (cpu : ℕ) (h : HwCtx)
    → cpu < n
    → IsMarked n h
    → IsMarked n (insert_requests rqs cpu h)
unfolding insert_requests mark_allowed_cpu
insert_requests-IsMarked n rqs cpu h l m c e = let k = m c in ground (arith, k)

gather-IsMarked : (n : ℕ) (h : HwCtx) → IsMarked n h → IsMarked n (gather n h).0
gather-IsMarked n h m c e =
    let (a, b, k, mask, ctx, map) = gather-all n h m in let none_left = k c in absurd (ground arith)

-- What happens to a hardware context. The requests that were gathered and that the device did not take
-- are put back into hctx->dispatch.
pub data StageStep (n : ℕ) (h v : HwCtx) : Type 0 where
  stages :
      (rq cpu : ℕ) (at_head : Bool)
      → cpu < n
      → v ≡ stage_request rq cpu at_head true h
      → StageStep n h v
  inserts : (rqs : List ℕ) (cpu : ℕ) → cpu < n → v ≡ insert_requests rqs cpu h → StageStep n h v
  gathers : v ≡ (gather n h).0 → StageStep n h v
  puts_back : (rqs : List ℕ) → v ≡ record h { dispatch = rqs } → StageStep n h v

abbrev pub no_requests : HwCtx
no_requests = record {
  dispatch = [];
  dispatch_list = λ cpu. [];
  ctx_list = λ cpu. [];
  run_cpumask = λ cpu. false;
  ctx_map = λ cpu. false;
}

pub data Staged (n : ℕ) : HwCtx → Type 0 where
  start : Staged n no_requests
  next : {h v : HwCtx} → Staged n h → StageStep n h v → Staged n v

StageStep-IsMarked : (n : ℕ) (h v : HwCtx) → StageStep n h v → IsMarked n h → IsMarked n v
StageStep-IsMarked n h v (stages rq cpu at_head l e) m =
    subst (IsMarked n) (sym e) (stage_request-IsMarked n rq cpu at_head h l m)
StageStep-IsMarked n h v (inserts rqs cpu l e) m =
    subst (IsMarked n) (sym e) (insert_requests-IsMarked n rqs cpu h l m)
StageStep-IsMarked n h v (gathers e) m = subst (IsMarked n) (sym e) (gather-IsMarked n h m)
StageStep-IsMarked n h v (puts_back rqs e) m = subst (IsMarked n) (sym e) m

pub Staged-IsMarked : {n : ℕ} {h : HwCtx} → Staged n h → IsMarked n h
Staged-IsMarked start = λ c e. absurd (cc)
Staged-IsMarked (next r s) = StageStep-IsMarked _ _ _ s (Staged-IsMarked r)

pub any_below-true : (f : ℕ → Bool) (n c : ℕ) → c < n → f c ≡ true → any_below f n ≡ true
any_below-true f zero c l e = absurd (omega arith)
any_below-true f (suc n) c l e = ground (arith, any_below-true f n c)

-- After any sequence of requests staged past the ctx lists, lists inserted, and gatherings, each call as a
-- whole: a CPU with a staged request is marked, so that blk_mq_hctx_has_pending() tells the hardware
-- context to run, and the next gathering leaves no request in any list.
pub staged-pending :
    (nr_cpu_ids cpu : ℕ) (sched_has_work : Bool) (h : HwCtx)
    → Staged nr_cpu_ids h
    → is_empty (h.dispatch_list cpu) ≡ false
    → (h.run_cpumask cpu ≡ true)
      × (hctx_has_pending nr_cpu_ids sched_has_work h ≡ true)
      × ((c : ℕ) → (gather nr_cpu_ids h).0.dispatch_list c ≡ [])
unfolding hctx_has_pending
staged-pending nr_cpu_ids cpu sched_has_work h s e =
    let (l, m) = Staged-IsMarked s cpu e in
    let (a, b, k, mask, ctx, map) = gather-all nr_cpu_ids h (Staged-IsMarked s) in
    (m, ground (arith, any_below-true h.run_cpumask nr_cpu_ids cpu l m), k)
