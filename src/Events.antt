-- ===== src/Events.antt =====
-- eROIL/src/events: the counting semaphores of semaphore.h and named_semaphore.h. Linux and Windows
-- are the two implementations; what the system's calls give is an argument.
pub mod Linux
pub mod Windows
pub mod Waiting
pub mod Agreement
pub mod Names
pub mod Tests
use netcomm.Prelude.{ℕ, Bool, true, false, Option, none, some, ◌==◌, not}
use netcomm.Types.{NodeId, invalid_node}

pub data SemErr : Type 0 where
  no_error not_initialized timed_out would_block max_count_reached sys_error : SemErr

pub data SemOp : Type 0 where
  post_op try_wait_op wait_op : SemOp

pub record SemResult : Type 0 where
  pub code : SemErr
  pub op : SemOp

-- `m_sem` is the address of the system's semaphore.
pub record Semaphore : Type 0 where
  pub m_sem : ℕ
  pub m_max_count : ℕ

-- The move assignment: the new value, and what is left of the other object.
unfoldable pub move_sem : Semaphore → Semaphore × Semaphore
move_sem other = (other, record { m_sem = 0; m_max_count = 0 })

unfoldable pub close_sem : Semaphore → Semaphore
close_sem s = record s { m_sem = 0 }

pub data NamedSemErr : Type 0 where
  no_named_error double_open not_created invalid_name open_failed signal_failed : NamedSemErr
  wait_timeout wait_would_block max_count named_sys_error : NamedSemErr

pub data NamedSemOp : Type 0 where
  open_named_op post_named_op try_wait_named_op wait_named_op : NamedSemOp

pub record NamedSemResult : Type 0 where
  pub code : NamedSemErr
  pub op : NamedSemOp

pub record NamedSemaphore : Type 0 where
  pub m_dst_id : NodeId
  pub m_sem : ℕ

unfoldable pub move_named : NamedSemaphore → NamedSemaphore × NamedSemaphore
move_named other = (other, record { m_dst_id = invalid_node; m_sem = 0 })

unfoldable pub close_named : NamedSemaphore → NamedSemaphore
close_named s = record s { m_sem = 0 }
