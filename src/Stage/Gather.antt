-- ===== src/Stage/Gather.antt =====
-- What __blk_mq_sched_dispatch_requests() of daredevil/block/blk-mq-sched.c gathers from the virtual NQs.
use nvme_plus.Base.{
  ℕ, zero, suc, ◌<◌, ◌≡◌, refl, sym, arith, ap, ap₂, ◌∙◌, true, false, not, ◌&&◌, List, [], ◌++◌,
  ltb, if◌then◌else◌, if_elim,
}
use nvme_plus.Regulator.{update}
use nvme_plus.Stage.{HwCtx, is_empty, unmark_allowed_cpu, gather_cpus, gather}
use mathlib.Core.List.{append-nil, append_assoc}

-- The lists of the marked CPUs below n, one after the other
abbrev pub marked_lists : ℕ → HwCtx → List ℕ
marked_lists zero h = []
marked_lists (suc cpu) h =
    marked_lists cpu h ++ (if h.run_cpumask cpu then h.dispatch_list cpu else [])

-- What the loop leaves, and the list it makes from `rqs`
record Gathered (n : ℕ) (h : HwCtx) (rqs : List ℕ) (o : HwCtx × List ℕ) : Type 0 where
  list : o.1 ≡ rqs ++ marked_lists n h
  dispatch : o.0.dispatch ≡ h.dispatch
  ctx_list : o.0.ctx_list ≡ h.ctx_list
  ctx_map : o.0.ctx_map ≡ h.ctx_map
  taken :
      (c : ℕ) → o.0.dispatch_list c ≡ (if ltb c n && h.run_cpumask c then [] else h.dispatch_list c)
  mask :
      (c : ℕ)
      → o.0.run_cpumask c ≡ (h.run_cpumask c && not (ltb c n && not (is_empty (h.dispatch_list c))))

-- The turn of CPU n, which takes its list
taken-Gathered :
    (n : ℕ) (h : HwCtx) (rqs : List ℕ) (v : HwCtx) (out : List ℕ)
    → Gathered n h rqs (v, out)
    → (v.run_cpumask n && not (is_empty (v.dispatch_list n))) ≡ true
    → Gathered (suc n) h rqs (
      unmark_allowed_cpu n (record v { dispatch_list = update v.dispatch_list n [] }),
      out ++ v.dispatch_list n,
    )
unfolding unmark_allowed_cpu
taken-Gathered n h rqs v out g e =
    let t = g.taken n in
    let m = g.mask n in
    record {
      list =
          ap (λ l. l ++ v.dispatch_list n) g.list
          ∙ append_assoc rqs (marked_lists n h) (v.dispatch_list n)
          ∙ ap (λ l. rqs ++ (marked_lists n h ++ l)) (ground arith);
      dispatch = g.dispatch;
      ctx_list = g.ctx_list;
      ctx_map = g.ctx_map;
      taken = λ c. let a = g.taken c in ground arith;
      mask = λ c. let a = g.mask c in let b = g.taken c in ground arith;
    }

-- The turn of CPU n, which passes it over
passed-Gathered :
    (n : ℕ) (h : HwCtx) (rqs : List ℕ) (o : HwCtx × List ℕ)
    → Gathered n h rqs o
    → (o.0.run_cpumask n && not (is_empty (o.0.dispatch_list n))) ≡ false
    → Gathered (suc n) h rqs o
passed-Gathered n h rqs o g e =
    let t = g.taken n in
    let m = g.mask n in
    record {
      list =
          g.list
          ∙ ap (λ l. rqs ++ l)
              (sym (append-nil (marked_lists n h))
                ∙ ap (λ l. marked_lists n h ++ l) (ground arith));
      dispatch = g.dispatch;
      ctx_list = g.ctx_list;
      ctx_map = g.ctx_map;
      taken = λ c. let a = g.taken c in ground arith;
      mask = λ c. let a = g.mask c in let b = g.taken c in ground arith;
    }

gather_cpus-Gathered : (n : ℕ) (h : HwCtx) (rqs : List ℕ) → Gathered n h rqs (gather_cpus n h rqs)
unfolding gather_cpus
gather_cpus-Gathered zero h rqs = record {
  list = sym (append-nil rqs);
  dispatch = refl;
  ctx_list = refl;
  ctx_map = refl;
  taken = λ c. ground arith;
  mask = λ c. ground arith;
}
gather_cpus-Gathered (suc n) h rqs =
    let (v, out) = gather_cpus n h rqs in
    if_elim
      {x = (
        unmark_allowed_cpu n (record v { dispatch_list = update v.dispatch_list n [] }),
        out ++ v.dispatch_list n,
      )}
      {y = (v, out)} (Gathered (suc n) h rqs)
      (v.run_cpumask n && not (is_empty (v.dispatch_list n)))
      (taken-Gathered n h rqs v out (gather_cpus-Gathered n h rqs))
      (passed-Gathered n h rqs (v, out) (gather_cpus-Gathered n h rqs))

-- Every staged request is at a CPU below n that is marked.
abbrev pub IsMarked : ℕ → HwCtx → Type 0
IsMarked n h =
    (cpu : ℕ) → is_empty (h.dispatch_list cpu) ≡ false → (cpu < n) × (h.run_cpumask cpu ≡ true)

-- All the lists of the CPUs below n, one after the other
abbrev pub all_lists : ℕ → (ℕ → List ℕ) → List ℕ
all_lists zero lists = []
all_lists (suc cpu) lists = all_lists cpu lists ++ lists cpu

marked-all : (n k : ℕ) (h : HwCtx) → IsMarked k h → marked_lists n h ≡ all_lists n h.dispatch_list
marked-all zero k h m = refl
marked-all (suc n) k h m = ap₂ (λ a b. a ++ b) (marked-all n k h m) (let e = m n in ground arith)

-- From a hardware context where each CPU with staged requests is below nr_cpu_ids and marked, the
-- gathered list is hctx->dispatch, then the staged lists of all CPUs in their order, each in its order.
-- Nothing is left behind: hctx->dispatch and every list are then empty, and a CPU is marked only if
-- it was marked with no request staged. The ctx lists and their bitmap are as before.
pub gather-all :
    (nr_cpu_ids : ℕ) (h : HwCtx)
    → IsMarked nr_cpu_ids h
    → let (v, rqs) = gather nr_cpu_ids h in
      (rqs ≡ h.dispatch ++ all_lists nr_cpu_ids h.dispatch_list)
      × (v.dispatch ≡ [])
      × ((cpu : ℕ) → v.dispatch_list cpu ≡ [])
      × ((cpu : ℕ) → v.run_cpumask cpu ≡ (h.run_cpumask cpu && is_empty (h.dispatch_list cpu)))
      × (v.ctx_list ≡ h.ctx_list)
      × (v.ctx_map ≡ h.ctx_map)
unfolding gather
gather-all nr_cpu_ids h m =
    let g = gather_cpus-Gathered nr_cpu_ids (record h { dispatch = [] }) h.dispatch in
    (
      g.list ∙ ap (λ l. h.dispatch ++ l) (marked-all nr_cpu_ids nr_cpu_ids _ m),
      g.dispatch,
      λ cpu. g.taken cpu ∙ (let e = m cpu in ground arith),
      λ cpu. g.mask cpu ∙ (let e = m cpu in ground arith),
      g.ctx_list,
      g.ctx_map,
    )
