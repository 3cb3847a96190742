-- ===== src/Shm/Mapping/Windows.antt =====
-- win/win_shm.cpp. A handle is an address, null for none.
use netcomm.Prelude.{
  ℕ, ◌++◌, Bool, true, false, not, ◌&&◌, List, [], ◌∷◌, ◌==◌, if◌then◌else◌, codes, int_text,
}
use netcomm.Shm.{
  ShmErr, shm_none, double_open, invalid_name, already_exists, does_not_exist, file_map_failed,
  shm_unknown,
}
use netcomm.Shm.Mapping.{
  Mapped, ShmOp, create_op, open_op, ShmResult, Release, unmapped, handle_closed,
}

unfoldable pub new_shm : ℕ → ℕ → Mapped
new_shm id total_size = record { m_id = id; m_total_size = total_size; m_handle = 0; m_view = 0 }

unfoldable pub move_shm : Mapped → Mapped × Mapped
move_shm other = (other, record { m_id = 0xffffffff; m_total_size = 0; m_handle = 0; m_view = 0 })

unfoldable pub is_valid : Mapped → Bool
is_valid s = not (s.m_handle == 0) && not (s.m_view == 0)

-- The text "Local\eroil.node." with the number of the node.
unfoldable pub name : ℕ → List ℕ
unfolding int_text
name id = codes "Local\\eroil.node." ++ int_text id

abbrev pub is_empty_text : List ℕ → Bool
is_empty_text [] = true
is_empty_text (c ∷ cs) = false

abbrev pub result : ShmErr → ShmOp → ShmResult
result e o = record { code = e; op = o }

abbrev pub unmap_view : Mapped → List Release
unmap_view s = if s.m_view == 0 then [] else unmapped s.m_view ∷ []

abbrev pub close_handle : Mapped → List Release
close_handle s = if s.m_handle == 0 then [] else handle_closed s.m_handle ∷ []

unfoldable pub close : Mapped → Mapped × List Release
close s = (record s { m_handle = 0; m_view = 0 }, unmap_view s ++ close_handle s)

-- A failure after the handle was stored: everything is closed.
abbrev pub fail : Mapped → ShmErr → ShmOp → Mapped × ShmResult × List Release
fail s e o = let (t, back) = close s in (t, result e o, back)

-- `widen` is the system's conversion of a name, empty if it fails. `handle` is what the system makes
-- for a name, null for none, `existed` whether a block of that name was there before, and `view`
-- what it maps.
unfoldable pub create :
    Mapped → (List ℕ → List ℕ) → (List ℕ → ℕ) → Bool → ℕ → Mapped × ShmResult × List Release
unfolding is_valid name close
create s widen handle existed view =
    let wname = widen (name s.m_id) in
    if is_valid s
    then (s, result double_open create_op, [])
    else if is_empty_text wname
    then (s, result invalid_name create_op, [])
    else if handle wname == 0
    then fail (record s { m_handle = 0 }) shm_unknown create_op
    else if existed
    then fail (record s { m_handle = handle wname }) already_exists create_op
    else if view == 0
    then fail (record s { m_handle = handle wname; m_view = 0 }) file_map_failed create_op
    else (record s { m_handle = handle wname; m_view = view }, result shm_none create_op, [])

-- `not_found` says whether a failure is ERROR_FILE_NOT_FOUND.
unfoldable pub open_shm :
    Mapped → (List ℕ → List ℕ) → (List ℕ → ℕ) → Bool → ℕ → Mapped × ShmResult × List Release
unfolding is_valid name close
open_shm s widen handle not_found view =
    let wname = widen (name s.m_id) in
    if is_valid s
    then (s, result double_open open_op, [])
    else if is_empty_text wname
    then (s, result invalid_name open_op, [])
    else if handle wname == 0
    then (
      record s { m_handle = 0 },
      result (if not_found then does_not_exist else shm_unknown) open_op,
      [],
    )
    else if view == 0
    then fail (record s { m_handle = handle wname; m_view = 0 }) file_map_failed open_op
    else (record s { m_handle = handle wname; m_view = view }, result shm_none open_op, [])
