-- ===== src/Submission/Tail.antt =====
-- The tail of a submission queue, and what the device was told of it: nvme_queue_rq() and
-- nvme_commit_rqs() of daredevil/drivers/nvme/host/pci.c.
use nvme_plus.Base.{
  refl, List, [], ◌∷◌, ℕ, suc, ◌+◌, ◌-◌, ◌^◌, ◌≤◌, ◌<◌, ◌≡◌, ◌≢◌, arith, Bool, true, ◌==◌, leb,
  if◌then◌else◌, ◌⊎◌,
}
use nvme_plus.Submission.{
  copy_all, submit_cmds, SubmissionQueue, wrap_next, sq_copy_cmd, tell, write_sq_db, commit_rqs,
  queue_cmd,
}

-- The commands copied that the device was not told of
abbrev pub untold : SubmissionQueue → ℕ
untold q =
    if leb q.last_sq_tail q.sq_tail
    then q.sq_tail - q.last_sq_tail
    else q.sq_tail + q.q_depth - q.last_sq_tail

-- The indices are in range, the tail noted is the one told, and one more command does not make the
-- queue look empty.
pub record IsOpen (q : SubmissionQueue) : Type 0 where
  pub depth : (2 ≤ q.q_depth) × (q.q_depth ≤ 2 ^ 16)
  pub tail : q.sq_tail < q.q_depth
  pub last : q.last_sq_tail < q.q_depth
  pub noted : q.told ≡ q.last_sq_tail
  pub room : wrap_next q.q_depth q.sq_tail ≢ q.last_sq_tail

pub queue_cmd-IsOpen :
    (cmd : ℕ) (last : Bool) (q : SubmissionQueue) → IsOpen q → IsOpen (queue_cmd cmd last q)
unfolding queue_cmd write_sq_db sq_copy_cmd tell
queue_cmd-IsOpen cmd last q h = record {
  depth = ground (arith, h.depth);
  tail = ground (arith, h.depth, h.tail);
  last = ground (arith, h.depth, h.tail, h.last);
  noted = ground (arith, h.noted);
  room = ground (arith, h.depth, h.tail, h.last);
}

-- On a submission queue of 2 to 2^16 entries whose indices are in range, where the tail noted is the one
-- told, and that one more command does not make look empty: nvme_queue_rq() puts the command in the slot
-- at the old tail, and no other slot changes. Then the device was told of all commands, as it is when the
-- command is the last of its batch, or one more command than before is untold; and at most the depth
-- less 2 are. After nvme_commit_rqs() none is untold. The queue stays as the conditions say.
pub queue_cmd-untold :
    (cmd : ℕ) (last : Bool) (q : SubmissionQueue)
    → IsOpen q
    → let v = queue_cmd cmd last q in
      IsOpen v
      × ((slot : ℕ) → v.sq_cmds slot ≡ (if q.sq_tail == slot then cmd else q.sq_cmds slot))
      × (last ≡ true → untold v ≡ 0)
      × ((untold v ≡ 0) ⊎ (untold v ≡ suc (untold q)))
      × (untold v ≤ q.q_depth - 2)
      × (untold (commit_rqs v) ≡ 0)
unfolding queue_cmd write_sq_db sq_copy_cmd tell commit_rqs
queue_cmd-untold cmd last q h = (
  queue_cmd-IsOpen cmd last q h,
  λ slot. ground arith,
  λ e. ground (arith, h.depth, h.tail, h.last),
  ground (arith, h.depth, h.tail, h.last, h.room),
  ground (arith, h.depth, h.tail, h.last, h.room),
  ground (arith, h.depth, h.tail, h.last),
)

-- nvme_commit_rqs() leaves no command untold.
pub commit_rqs-untold :
    (q : SubmissionQueue) → IsOpen q → IsOpen (commit_rqs q) × (untold (commit_rqs q) ≡ 0)
unfolding commit_rqs write_sq_db tell
commit_rqs-untold q h = (
  record {
    depth = ground (arith, h.depth);
    tail = ground (arith, h.tail);
    last = ground (arith, h.tail, h.last);
    noted = ground (arith, h.noted);
    room = ground (arith, h.depth, h.tail, h.room);
  },
  ground (arith, h.depth, h.tail, h.last),
)

-- Commands are copied, with no word to the device.
record Copied (q v : SubmissionQueue) : Type 0 where
  depth : v.q_depth ≡ q.q_depth
  tail : v.sq_tail < v.q_depth
  last : v.last_sq_tail ≡ q.last_sq_tail

copy_all-Copied :
    (cmds : List ℕ) (q : SubmissionQueue)
    → 2 ≤ q.q_depth
    → q.q_depth ≤ 2 ^ 16
    → q.sq_tail < q.q_depth
    → Copied q (copy_all cmds q)
unfolding sq_copy_cmd
copy_all-Copied [] q a b t = record { depth = refl; tail = t; last = refl }
copy_all-Copied (cmd ∷ cmds) q a b t =
    let c = copy_all-Copied cmds (sq_copy_cmd cmd q) a b (ground (arith, a, b, t)) in
    record { depth = c.depth; tail = c.tail; last = c.last }

-- nvme_submit_cmds() leaves no command untold.
pub submit_cmds-untold :
    (cmds : List ℕ) (q : SubmissionQueue)
    → IsOpen q
    → IsOpen (submit_cmds cmds q) × (untold (submit_cmds cmds q) ≡ 0)
unfolding submit_cmds write_sq_db tell
submit_cmds-untold cmds q h =
    let c = copy_all-Copied cmds q h.depth.0 h.depth.1 h.tail in
    (
      record {
        depth = (omega (arith, c.depth, h.depth.0), omega (arith, c.depth, h.depth.1));
        tail = c.tail;
        last = c.tail;
        noted = refl;
        room = ground (arith, c.depth, c.tail, h.depth.0, h.depth.1);
      },
      ground (arith, c.tail),
    )
