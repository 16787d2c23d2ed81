-- ===== src/Issue/Samples.antt =====
-- A device whose submission queues of eight entries are empty, for the tests.
use nvme_plus.Base.{arith, refl, false, []}
use nvme_plus.Submission.{SubmissionQueue}
use nvme_plus.Stage.{HwCtx}
use nvme_plus.Issue.{Queues}
use nvme_plus.Issue.Told.{AllTold}

abbrev pub empty_queue : SubmissionQueue
empty_queue = record {
  sq_cmds = λ i. 0;
  q_depth = 8;
  sq_tail = 0;
  last_sq_tail = 0;
  sqes = 6;
  told = 0;
}

-- The same hardware context at each index
abbrev pub queues_of : HwCtx → Queues
queues_of h = record {
  sqs = λ i. empty_queue;
  hctxs = λ i. h;
  dispatch_busy = λ i. 0;
  restart = λ i. false;
  log = [];
}

pub queues_of-AllTold : (h : HwCtx) → AllTold (queues_of h)
queues_of-AllTold h i = (
  record {
    depth = (omega arith, omega arith);
    tail = omega arith;
    last = omega arith;
    noted = refl;
    room = λ e. omega (arith, e);
  },
  refl,
)
