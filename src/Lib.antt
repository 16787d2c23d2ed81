-- ===== src/Lib.antt =====
-- The request routing of Daredevil, a Linux block layer that decouples CPUs from NVMe queues.
--
-- The program. An NVMe device has submission queues (NSQs), each attached to one completion queue
-- (NCQ); the two together are numbered by NQ ids from 1 on. The NQ regulator puts the NCQs into two
-- groups, for throughput tenants (priority 0) and latency tenants (priority 1), and the scheduler
-- picks an NQ for a task or a request: in turn, or by priority arrays, binary heaps of NQs ordered
-- by a merit that the statistics of each NQ give. Maps record which CPU uses which NSQ.
--
-- The files and the code that each models, with paths from the repository's root:
--   Base        shared names, lists, 32-bit words, C's int, and calls that may fault
--   Topology    the mappings between NQ ids, NCQ ids and indices of
--               daredevil/include/linux/blk-blex.h (blk_blex_get_cqid() and the like)
--   Regulator   the structures of daredevil/include/linux/blk-blex.h, and the tunables and
--               contexts of daredevil/block/blk-blex.h
--   Maps        blk_blex_set_maps(), blk_blex_clear_maps() and blk_blex_sched_update_mappings()
--               of daredevil/block/blk-blex.c
--   PrioArray   blk_blex_update_priority_array(), blk_blex_calc_sched_merit(),
--               blk_blex_recommend_nsq() and the peeking functions
--   RoundRobin  blk_blex_sched_rr_next_nsqid() and blk_blex_sched_random_nqid()
--   Profile     the priorities and the dominance tests of the tenant profiler
--   Sched       blk_blex_sched_hctx() and the function of each of its contexts
--   Tenant      blk_blex_tenant_ioc_profile(), blk_blex_alloc_and_init_task_ioc() and
--               blk_blex_free_task_ioc()
--   Cells       allocated memory, as the three below follow it
--   Setup       blk_blex_nq_group_init(), blk_blex_enq_init() and blk_blex_nq_prio_arr_init()
--   Init        blk_blex_nq_regulator_alloc_and_init() and blk_blex_nq_regulator_free()
--   Vnq         blk_blex_alloc_and_init_vnqs(), with blk_alloc_flush_queue() and
--               blk_free_flush_queue() of daredevil/block/blk-flush.c
--   Flush       the flush sequences of daredevil/block/blk-flush.c: blk_insert_flush(),
--               blk_flush_complete_seq(), blk_kick_flush(), flush_end_io() and
--               mq_flush_data_end_io(), with blk_rq_init() of daredevil/block/blk-mq.c
--   Stage       the requests staged in virtual NQs: blk_blex_stage_request() of
--               daredevil/block/blk-blex.h, blk_mq_insert_requests(), blk_mq_hctx_has_pending()
--               and blk_blex_hctx_select_next_cpu() of daredevil/block/blk-mq.c, and the
--               gathering in __blk_mq_sched_dispatch_requests() of
--               daredevil/block/blk-mq-sched.c
--   Completion  the completion queues of daredevil/drivers/nvme/host/pci.c: nvme_irq(),
--               nvme_poll_cq(), nvme_handle_cqe() and nvme_blex_handle_cqe()
--   Creation    the creation of I/O queues with fewer CQs than SQs in the same file:
--               nvme_blex_alloc_queue(), nvme_blex_create_queue() and
--               nvme_blex_create_io_queues()
--   Suspend     the deletion and suspension of I/O queues in the same file:
--               nvme_disable_io_queues() and nvme_suspend_io_queues()
--   Bringup     nvme_setup_io_queues() of the same file and what it calls
--   Submission  the submission queues of the same file: nvme_sq_copy_cmd(), nvme_write_sq_db(),
--               nvme_commit_rqs(), nvme_submit_cmds() and nvme_queue_rqs()
--   Issue       how a request is given to the driver, or staged where it is not taken:
--               __blk_mq_issue_directly(), __blk_mq_try_issue_directly(),
--               blk_mq_request_bypass_insert() and blk_mq_update_dispatch_busy() of
--               daredevil/block/blk-mq.c, and blk_mq_sched_insert_request() of
--               daredevil/block/blk-mq-sched.c
--   Plug        blk_mq_flush_plug_list() of daredevil/block/blk-mq.c and what it calls, down to
--               nvme_queue_rqs()
--   Dispatch    blk_mq_dispatch_rq_list() of the same file, with the part of
--               __blk_mq_sched_dispatch_requests() that calls it first
--   Samples     a device of six NQs, for the tests, which stand beside each component
--
-- State. Arrays are functions of an index, pointers into arrays are indices, a hardware context is
-- its queue_num. Each function takes the regulator and gives it back. What lies outside, such as the
-- CPU, the success of a try-lock, the hardware contexts registered and the tags in use, is an
-- argument. A NULL pointer followed, such as an eNCQ that an eNQ has not, or a group index out of range, is
-- the result `fault`, except in calc_sched_merit, which reads the eNCQ of NQs that a group's array holds: a
-- well-formed regulator has one for each. A division by zero is no fault in the scheduler and gives 0. The
-- theorems of Sched and Tenant that say that a call ends without one take the divisors as not zero (the
-- denominator of the merits, the depth of each queue, the number of NSQs of each group: Sched.Divisors), and
-- those of a whole call show that they stay so. Init makes the depths 0; nvme_pci_alloc_tag_set() sets them later.
--
-- Numbers. unsigned int is a native number with `% 2 ^ 32` written out (Base.Words), int is an
-- integer that wraps at 32 bits (Base.Int), since the kernel is built with -fno-strict-overflow.
--
-- Fuel. The heap loop runs on fuel, the number of elements: each turn moves down at least one index,
-- and any larger fuel gives the same heap. The loop of flush_end_io() has fuel for two visits of each
-- request of its list, which is enough, since a request waits for two flushes at most.
--
-- A poll of a completion queue has fuel for as many entries as the queue has: the phase of a slot that
-- was taken is then the old one.
--
-- Rings. The device writes an entry only where there is room, in its own order and with the phase of its
-- round, as the NVMe specification says; the theorem on polls takes that as a relation.
--
-- Issuing. Issue, Plug and Dispatch share one state: the submission queue and the hardware context of
-- each index, with `dispatch_busy` and the mark for a restart, and the log of what was done, the newest
-- first: requests taken by the driver, ended, taken back or staged, commits, and runs asked for. What a
-- request meets, such as a budget, a driver tag or the driver's answer, is a function of the request. The
-- tag set has blex on, and the driver is that of daredevil/drivers/nvme/host/pci.c. The last loop of a
-- plug list's flush has fuel for each request of it, which is enough, since each turn takes the first one.
--
-- Flushes. A flush queue's lists hold request numbers, and the requests stand in a map of their own, so
-- that a request that moves between lists stays one object. What a call does to the requeue list, and
-- the requests it ends, are events; jiffies are an argument. The calls run under the queue's lock.
--
-- Memory. Setup, Init and Vnq follow each pointer that an allocation sets, as NULL, in use or freed;
-- freeing twice is a fault. So are, in Init, counts of queues with which the topology divides by zero, and a
-- group with more NCQs than its heap has room for, which is one for each CPU.
--
-- Creation. The answers of memory, device and core are one argument, for each queue; each is asked at
-- most once for a queue in one call. A CQ's memory that is cleared without being allocated is noted in the
-- device, `null_cleared`: the kernel stops there, and what is computed from then on says nothing of it.
-- The two loops run a number of turns that is computed beforehand.
-- The set-up has fuel for as many turns as there are I/O queues, which is enough, since each turn has fewer
-- of them; the deletion has fuel for each command that is waited for.
--
-- Not modelled: locks, RCU and interleavings inside one call, the loop's read of one element past
-- the heap, which has no effect on the result, messages, the elevators and the merging of requests, the
-- branches for tag sets without blex where the file above says so, and the functions of other files.
pub mod Base
pub mod Topology
pub mod Profile
pub mod Regulator
pub mod Maps
pub mod PrioArray
pub mod RoundRobin
pub mod Sched
pub mod Tenant
pub mod Cells
pub mod Setup
pub mod Init
pub mod Vnq
pub mod Flush
pub mod Stage
pub mod Completion
pub mod Creation
pub mod Suspend
pub mod Bringup
pub mod Submission
pub mod Issue
pub mod Plug
pub mod Dispatch
pub mod Samples
