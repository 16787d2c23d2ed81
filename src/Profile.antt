-- ===== src/Profile.antt =====
-- Per-tenant I/O profiling: the priorities of daredevil/include/linux/blk-blex.h, the I/O context and
-- the flag tests of daredevil/block/blk-blex.h, and the profiling functions of
-- daredevil/block/blk-blex.c. An `ioprio` value is taken decoded, and `blk_opf_t` as the flags that
-- are read.
pub mod Dominance
mod Tests
use nvme_plus.Base.{ℕ, ◌+◌, ◌^◌, Bool, true, false, not, ◌&&◌, ◌||◌, ◌==◌, if◌then◌else◌, Option}
use nvme_plus.Base.Words.{◌+u◌}
use nvme_plus.Base.Int.{ℤ, pos, negsuc, signed32, ◌+ℤ◌, ◌/ℤ◌, leb_ℤ, nonzero}

-- BLK_BLEX_T_PRIO, BLK_BLEX_L_PRIO, BLK_BLEX_PRIO_LEVEL, BLK_BLEX_OUTLIER_PRIO
abbrev pub t_prio : ℕ
t_prio = 0

abbrev pub l_prio : ℕ
l_prio = 1

abbrev pub prio_level : ℕ
prio_level = 2

abbrev pub outlier_prio : ℕ
outlier_prio = 3

-- IOPRIO_PRIO_CLASS of a Linux I/O priority.
pub data PrioClass : Type 0 where
  unset real_time best_effort idle : PrioClass

-- REQ_SYNC, REQ_META, REQ_PRIO and REQ_IDLE of a request's flags.
pub record OpFlags : Type 0 where
  pub sync : Bool
  pub meta : Bool
  pub prio : Bool
  pub idle : Bool

-- `struct blk_blex_task_ioc`: a tenant's I/O context on one device. An hctx is its queue_num.
pub record TaskIoc : Type 0 where
  pub nr_sync_reqs : ℕ
  pub nr_async_reqs : ℕ
  pub last_working_cpu : ℕ
  pub hctx : Option ℕ
  pub outlier_hctx : Option ℕ
  pub need_update : Bool
  pub blex_ioprio : ℕ

-- blk_blex_is_high_prio()
unfoldable pub is_high_prio : OpFlags → Bool
is_high_prio f = if f.sync || f.meta || f.prio then not f.idle else false

-- blk_blex_is_sync_req()
unfoldable pub is_sync_req : OpFlags → Bool
is_sync_req f = f.sync && not f.idle

-- blk_blex_ioprio_simple_map()
unfoldable pub ioprio_simple_map : PrioClass → ℕ
ioprio_simple_map real_time = l_prio
ioprio_simple_map unset = t_prio
ioprio_simple_map best_effort = t_prio
ioprio_simple_map idle = t_prio

-- `candidate0 + (candidate1 / 2) / candidate1 >= 10`, as C reads it
unfoldable pub exceeds : ℤ → ℤ → Bool
unfolding ◌+ℤ◌ ◌/ℤ◌
exceeds a b = leb_ℤ (pos 10) (a +ℤ b /ℤ pos 2 /ℤ b)

-- blk_blex_decide_dominance()
unfoldable pub decide_dominance : ℤ → ℤ → ℕ → ℤ
decide_dominance candidate0 candidate1 type =
    if type == 0
    then (if nonzero candidate0 && nonzero candidate1
        then (if exceeds candidate0 candidate1
            then pos 0
            else if exceeds candidate1 candidate0
            then pos 1
            else negsuc 0)
        else if nonzero candidate0
        then pos 0
        else if nonzero candidate1
        then pos 1
        else negsuc 0)
    else if nonzero candidate1
    then (if exceeds candidate0 candidate1 then pos 1 else pos 0)
    else pos 0

-- blk_blex_map_task_ioc_ioprio(): `bool sync_dom` is true of any result but 0.
unfoldable pub map_task_ioc_ioprio : TaskIoc → PrioClass → ℕ
unfolding ioprio_simple_map
map_task_ioc_ioprio ioc parent_ioprio =
    let blex_ioprio = ioprio_simple_map parent_ioprio in
    let sync_dom =
      nonzero (decide_dominance (signed32 ioc.nr_async_reqs) (signed32 ioc.nr_sync_reqs) 0) in
    if sync_dom && blex_ioprio == t_prio then outlier_prio else blex_ioprio

-- __blk_blex_update_task_ioc_stats()
unfoldable pub update_task_ioc_stats : OpFlags → TaskIoc → Bool × TaskIoc
unfolding is_sync_req
update_task_ioc_stats opf ioc =
    let sync_dom = λ (i : TaskIoc).
      nonzero (decide_dominance (signed32 i.nr_sync_reqs) (signed32 i.nr_async_reqs) 1) in
    let counted =
      if is_sync_req opf
      then record ioc { nr_sync_reqs = ioc.nr_sync_reqs +u 1 }
      else record ioc { nr_async_reqs = ioc.nr_async_reqs +u 1 } in
    (if sync_dom ioc then not (sync_dom counted) else sync_dom counted, counted)
