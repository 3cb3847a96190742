-- ===== src/Shm/Mapping/Linux.antt =====
-- linux/linux_shm.cpp. A handle is the bit pattern of an `int`, -1 for none; MAP_FAILED is the address
-- of -1.
use netcomm.Prelude.{
  ℕ, ◌-◌, ◌^◌, ◌++◌, Bool, false, not, ◌&&◌, Option, none, some, List, [], ◌∷◌, ◌==◌, if◌then◌else◌,
  ltb, codes, int_text,
}
use netcomm.Shm.{
  ShmErr, shm_none, double_open, invalid_name, already_exists, does_not_exist, file_map_failed,
  size_mismatch, shm_unknown,
}
use netcomm.Shm.Mapping.{
  Mapped, ShmOp, create_op, open_op, ShmResult, Release, unmapped, handle_closed, unlinked,
}

abbrev pub no_handle : ℕ
no_handle = 0xffffffff

abbrev pub map_failed : ℕ
map_failed = 2 ^ 64 - 1

unfoldable pub new_shm : ℕ → ℕ → Mapped
new_shm id total_size = record {
  m_id = id;
  m_total_size = total_size;
  m_handle = no_handle;
  m_view = 0;
}

-- The move: the new value, and what is left of the other object.
unfoldable pub move_shm : Mapped → Mapped × Mapped
move_shm other =
    (other, record { m_id = 0xffffffff; m_total_size = 0; m_handle = no_handle; m_view = 0 })

unfoldable pub is_valid : Mapped → Bool
is_valid s = ltb s.m_handle (2 ^ 31) && not (s.m_view == 0)

-- The text "/eroil.node." with the number of the node.
unfoldable pub name : ℕ → List ℕ
unfolding int_text
name id = codes "/eroil.node." ++ int_text id

abbrev pub is_name : List ℕ → Bool
is_name [] = false
is_name (c ∷ cs) = c == b'/'

-- What `shm_open` gives: a descriptor, or EEXIST, ENOENT or another error.
pub data Opened : Type 0 where
  opened : ℕ → Opened
  eexist enoent other_errno : Opened

abbrev pub result : ShmErr → ShmOp → ShmResult
result e o = record { code = e; op = o }

-- `truncated` says whether `ftruncate` succeeded, and `view` is what `mmap` gives. The last part is
-- what went back to the system.
unfoldable pub create : Mapped → (List ℕ → Opened) → Bool → ℕ → Mapped × ShmResult × List Release
unfolding is_valid name
create s shm_open truncated view =
    if is_valid s
    then (s, result double_open create_op, [])
    else if not (is_name (name s.m_id))
    then (s, result invalid_name create_op, [])
    else elim (shm_open (name s.m_id)) [
      | opened fd ↦
          if not truncated
          then (
            record s { m_handle = fd },
            result shm_unknown create_op,
            handle_closed fd ∷ unlinked ∷ [],
          )
          else if view == map_failed
          then (
            record s { m_handle = fd; m_view = map_failed },
            result file_map_failed create_op,
            handle_closed fd ∷ unlinked ∷ [],
          )
          else (record s { m_handle = fd; m_view = view }, result shm_none create_op, [])
      | eexist ↦ (record s { m_handle = no_handle }, result already_exists create_op, [])
      | enoent ↦ (record s { m_handle = no_handle }, result shm_unknown create_op, [])
      | other_errno ↦ (record s { m_handle = no_handle }, result shm_unknown create_op, [])
    ]

-- `file_size` is what `fstat` gives.
unfoldable pub open_shm :
    Mapped → (List ℕ → Opened) → Option ℕ → ℕ → Mapped × ShmResult × List Release
unfolding is_valid name
open_shm s shm_open file_size view =
    if is_valid s
    then (s, result double_open open_op, [])
    else if not (is_name (name s.m_id))
    then (s, result invalid_name open_op, [])
    else elim (shm_open (name s.m_id)) [
      | opened fd ↦ elim file_size [
        | none ↦ (record s { m_handle = fd }, result shm_unknown open_op, handle_closed fd ∷ [])
        | some size ↦
            if not (size == s.m_total_size)
            then (record s { m_handle = fd }, result size_mismatch open_op, handle_closed fd ∷ [])
            else if view == map_failed
            then (
              record s { m_handle = fd; m_view = map_failed },
              result file_map_failed open_op,
              handle_closed fd ∷ [],
            )
            else (record s { m_handle = fd; m_view = view }, result shm_none open_op, [])
      ]
      | eexist ↦ (record s { m_handle = no_handle }, result shm_unknown open_op, [])
      | enoent ↦ (record s { m_handle = no_handle }, result does_not_exist open_op, [])
      | other_errno ↦ (record s { m_handle = no_handle }, result shm_unknown open_op, [])
    ]

abbrev pub unmap_view : Mapped → List Release
unmap_view s = if s.m_view == 0 then [] else unmapped s.m_view ∷ []

abbrev pub close_handle : Mapped → List Release
close_handle s = if ltb s.m_handle (2 ^ 31) then handle_closed s.m_handle ∷ [] else []

unfoldable pub close : Mapped → Mapped × List Release
close s = (
  record s { m_handle = if ltb s.m_handle (2 ^ 31) then no_handle else s.m_handle; m_view = 0 },
  unmap_view s ++ close_handle s,
)
