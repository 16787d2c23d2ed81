-- ===== src/Cells.antt =====
-- Memory as daredevil/block/blk-blex.c allocates and frees it: what each pointer points to, which
-- allocations succeed, and the results of an initialisation.
use nvme_plus.Base.{ℕ, Bool, true, false}
use nvme_plus.Base.Run.{Run, ok, fault}

-- A pointer that an allocation sets: NULL, or to memory in use, or to memory that was freed.
pub data Cell : Type 0 where
  null live freed : Cell

-- kfree(): nothing for NULL, and never twice.
abbrev pub kfree : Cell → Run Cell
kfree null = ok null
kfree live = ok freed
kfree freed = fault

abbrev pub set_pointer : Cell → Bool
set_pointer null = false
set_pointer live = true
set_pointer freed = true

-- The pointers of a regulator: its maps and its eNQs, the heaps of its groups by priority, and the
-- CPU mask, the eNCQ and the heap of each eNQ by index.
pub record Memory : Type 0 where
  pub nsq_maps : Cell
  pub enqs : Cell
  pub group_heaps : ℕ → Cell
  pub masks : ℕ → Cell
  pub encqs : ℕ → Cell
  pub nq_heaps : ℕ → Cell

-- Which allocations succeed, by the pointer that they set.
pub record Supply : Type 0 where
  pub nsq_maps : Bool
  pub enqs : Bool
  pub group_heap : ℕ → Bool
  pub mask : ℕ → Bool
  pub encq : ℕ → Bool
  pub nq_heap : ℕ → Bool

-- The results of the initialisation: 0, -1 and -ENOMEM
pub data Ret : Type 0 where
  done invalid no_memory : Ret
