-- ===== src/Shm/Mapping.antt =====
-- eROIL/src/shm: shm.h and shm.cpp, the mapped block that ShmSend and ShmRecv stand on, and its two
-- implementations, linux/linux_shm.cpp and win/win_shm.cpp. What the system's calls give is an argument.
-- The bytes of a block are a memory of their own, from 0; sizes and offsets are `size_t`.
pub mod Linux
pub mod Windows
pub mod Access
pub mod Lifecycle
pub mod Tests
use netcomm.Prelude.{
  ℕ, ◌+◌, ◌-◌, ◌%◌, ◌^◌, Bool, true, false, not, ◌||◌, Option, none, some, List, [], ◌∷◌, ◌==◌,
  if◌then◌else◌, ltb, length, replicate,
}
use netcomm.Memory.{Memory, write_bytes, read_bytes}
use netcomm.Shm.{ShmErr, shm_none, not_open, too_large, shm_invalid_offset}

pub data ShmOp : Type 0 where
  create_op open_op read_op write_op : ShmOp

pub record ShmResult : Type 0 where
  pub code : ShmErr
  pub op : ShmOp

-- The handle and the address of the view, as the system gives them.
pub record Mapped : Type 0 where
  pub m_id : ℕ
  pub m_total_size : ℕ
  pub m_handle : ℕ
  pub m_view : ℕ

-- What a call hands back to the system.
pub data Release : Type 0 where
  unmapped handle_closed : ℕ → Release
  unlinked : Release

unfoldable pub total_size : Mapped → ℕ
total_size s = s.m_total_size

unfoldable pub memset : Mapped → Memory → ℕ → ℕ → ℕ → Memory
memset s m offset val bytes =
    if ltb s.m_total_size ((offset + bytes) % 2 ^ 64)
    then m
    else write_bytes m offset (replicate bytes (val % 256))

-- The checks that `read` and `write` begin with; `valid` is the platform's `is_valid`.
unfoldable pub access_err : Bool → Mapped → ℕ → ℕ → ShmErr
access_err valid s size offset =
    if not valid
    then not_open
    else if ltb s.m_total_size size
    then too_large
    else if ltb s.m_total_size ((offset + size) % 2 ^ 64)
    then shm_invalid_offset
    else shm_none

abbrev pub is_none : ShmErr → Bool
is_none shm_none = true
is_none e = false

unfoldable pub read : Bool → Mapped → Memory → ℕ → ℕ → ShmResult × Option (List ℕ)
unfolding access_err
read valid s m size offset =
    let e = access_err valid s size offset in
    (record { code = e; op = read_op }, if is_none e then some (read_bytes m offset size) else none)

unfoldable pub write : Bool → Mapped → Memory → List ℕ → ℕ → ShmResult × Memory
unfolding access_err
write valid s m buf offset =
    let e = access_err valid s (length buf) offset in
    (record { code = e; op = write_op }, if is_none e then write_bytes m offset buf else m)

-- `map_to_type` for a type of `size` bytes: the address in the view, or null.
unfoldable pub map_to_type : Mapped → ℕ → ℕ → Option ℕ
map_to_type s size offset =
    if ltb s.m_total_size offset
    then none
    else if ltb (s.m_total_size - offset) size
    then none
    else some (s.m_view + offset)
