-- ===== src/Shm/Mapping/Lifecycle.antt =====
-- What creating and opening a block leave behind, on Linux (linux_shm.cpp) and on Windows (win_shm.cpp).
use netcomm.Prelude.{
  ℕ, ◌+◌, ◌^◌, ◌<◌, ◌≡◌, ◌≢◌, refl, Bool, true, false, ◌||◌, Option, List, [], ◌∷◌, ◌++◌, ◌==◌,
  if◌then◌else◌, Option-cases, inl, inr, arith,
}
use netcomm.Shm.{ShmErr, file_map_failed}
use netcomm.Shm.Mapping.{Mapped, Release, unmapped, handle_closed, unlinked, is_none}
use netcomm.Shm.Mapping.Linux
use netcomm.Shm.Mapping.Linux.{Opened, opened, eexist, enoent, other_errno, map_failed}
use netcomm.Shm.Mapping.Windows

abbrev pub map_has_failed : ShmErr → Bool
map_has_failed file_map_failed = true
map_has_failed e = false

-- How often a handle goes back to the system.
abbrev pub times : ℕ → List Release → ℕ
times h [] = 0
times h (unmapped a ∷ rs) = times h rs
times h (handle_closed g ∷ rs) = (if g == h then 1 else 0) + times h rs
times h (unlinked ∷ rs) = times h rs

is_name-name : (id : ℕ) → Linux.is_name (Linux.name id) ≡ true
unfolding Linux.name
is_name-name id = refl

module _ (s : Mapped) (fd : ℕ) (shm_open : List ℕ → Opened) (truncated : Bool)
    (file_size : Option ℕ) (view : ℕ) (unmapped_yet : s.m_view ≡ 0)
    (given : shm_open (Linux.name s.m_id) ≡ opened fd) (descriptor : fd < 2 ^ 31)
    (not_null : view ≢ 0) where
  -- Creating or opening a block on Linux, from one that is not mapped, once the system gave a
  -- descriptor: afterwards the block counts as valid exactly if the call succeeded or if the mapping
  -- failed, so also where nothing is mapped.
  pub linux_is_valid :
      (Linux.is_valid (Linux.create s shm_open truncated view).0 ≡ (
        is_none (Linux.create s shm_open truncated view).1.code
        || map_has_failed (Linux.create s shm_open truncated view).1.code))
      × (Linux.is_valid (Linux.open_shm s shm_open file_size view).0 ≡ (
          is_none (Linux.open_shm s shm_open file_size view).1.code
          || map_has_failed (Linux.open_shm s shm_open file_size view).1.code))
  unfolding Linux.create Linux.open_shm Linux.is_valid
  linux_is_valid = (
    ground (arith, given, is_name-name s.m_id),
    elim (Option-cases file_size) [
      | inl e ↦ ground (arith, given, is_name-name s.m_id, e)
      | inr (size, e) ↦ ground (arith, given, is_name-name s.m_id, e)
    ],
  )

  -- Creating or opening a block on Linux, from one that is not mapped, once the system gave a
  -- descriptor, and if it never maps at null: the descriptor goes back to the system exactly once,
  -- when the block is closed, if the call succeeds. If the call fails, the number of the descriptor
  -- is closed twice, by the call and again when the block is closed.
  pub linux_closings :
      (times fd (
          (Linux.create s shm_open truncated view).2
          ++ (Linux.close (Linux.create s shm_open truncated view).0).1)
        ≡ (if is_none (Linux.create s shm_open truncated view).1.code then 1 else 2))
      × (times fd (
            (Linux.open_shm s shm_open file_size view).2
            ++ (Linux.close (Linux.open_shm s shm_open file_size view).0).1)
          ≡ (if is_none (Linux.open_shm s shm_open file_size view).1.code then 1 else 2))
  unfolding Linux.create Linux.open_shm Linux.is_valid Linux.close
  linux_closings = (
    ground (arith, given, is_name-name s.m_id),
    elim (Option-cases file_size) [
      | inl e ↦ ground (arith, given, is_name-name s.m_id, e)
      | inr (size, e) ↦ ground (arith, given, is_name-name s.m_id, e)
    ],
  )

module _ (s : Mapped) (widen : List ℕ → List ℕ) (handle : List ℕ → ℕ) (existed not_found : Bool)
    (view : ℕ) (no_handle : s.m_handle ≡ 0) (no_view : s.m_view ≡ 0)
    (has_name : Windows.is_empty_text (widen (Windows.name s.m_id)) ≡ false)
    (given : handle (widen (Windows.name s.m_id)) ≢ 0) where
  -- Creating or opening a block on Windows, from one that is closed, once the system gave a handle:
  -- afterwards the block counts as valid exactly if the call succeeded, and the handle goes back to the
  -- system exactly once, in the call and when the block is closed.
  pub windows_lifecycle :
      ((Windows.is_valid (Windows.create s widen handle existed view).0
          ≡ is_none (Windows.create s widen handle existed view).1.code)
        × (times (handle (widen (Windows.name s.m_id))) (
              (Windows.create s widen handle existed view).2
              ++ (Windows.close (Windows.create s widen handle existed view).0).1)
            ≡ 1))
      × ((Windows.is_valid (Windows.open_shm s widen handle not_found view).0
            ≡ is_none (Windows.open_shm s widen handle not_found view).1.code)
          × (times (handle (widen (Windows.name s.m_id))) (
                (Windows.open_shm s widen handle not_found view).2
                ++ (Windows.close (Windows.open_shm s widen handle not_found view).0).1)
              ≡ 1))
  unfolding Windows.create Windows.open_shm Windows.is_valid Windows.close
  windows_lifecycle = (
    (ground (arith, has_name, given), ground (arith, has_name, given)),
    (ground (arith, has_name, given), ground (arith, has_name, given)),
  )
