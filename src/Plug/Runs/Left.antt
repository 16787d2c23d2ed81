-- ===== src/Plug/Runs/Left.antt =====
-- What blk_mq_try_issue_list_directly() of daredevil/block/blk-mq.c leaves of a list.
use nvme_plus.Base.{ℕ, suc, true, List, [], ◌∷◌}
use nvme_plus.Submission.{Plugged}
use nvme_plus.Submission.Batch.{All}
use nvme_plus.Stage.{is_empty}
use nvme_plus.Issue.{
  Status, sts_ok, sts_resource, sts_dev_resource, sts_zone_resource, sts_other, ended, Queues, note,
  try_issue_directly,
}
use nvme_plus.Plug.{PlugMeets, after_listed, try_issue_list_directly}

after_listed-left :
    (P : Plugged → Type 0) (hctx : ℕ) (p : Plugged) (rest : List Plugged)
    (more : ℕ → ℕ → Queues → List Plugged × Queues) (st : Status) (queued errors : ℕ) (w : Queues)
    → ((q e : ℕ) (v : Queues) → All P (more q e v).0)
    → All P rest
    → All P (after_listed hctx p rest more st queued errors w).0
unfolding after_listed
after_listed-left P hctx p rest more sts_ok queued errors w k a = k (suc queued) errors w
after_listed-left P hctx p rest more sts_resource queued errors w k a = a
after_listed-left P hctx p rest more sts_dev_resource queued errors w k a = a
after_listed-left P hctx p rest more sts_zone_resource queued errors w k a =
    k queued (suc errors) (note (ended p sts_zone_resource) w)
after_listed-left P hctx p rest more (sts_other c) queued errors w k a =
    k queued (suc errors) (note (ended p (sts_other c)) w)

pub try_issue_list_directly-left :
    (P : Plugged → Type 0) (f : PlugMeets) (hctx : ℕ) (ps : List Plugged) (queued errors : ℕ)
    (w : Queues)
    → All P ps
    → All P (try_issue_list_directly f hctx ps queued errors w).0
unfolding try_issue_list_directly
try_issue_list_directly-left P f hctx [] queued errors w a = tt
try_issue_list_directly-left P f hctx (p ∷ rest) queued errors w (here, a) =
    let s = try_issue_directly (f.listed p) p true (is_empty rest) w in
    after_listed-left P hctx p rest (try_issue_list_directly f hctx rest) s.0 queued errors s.1
      (λ q e v. try_issue_list_directly-left P f hctx rest q e v a) a
