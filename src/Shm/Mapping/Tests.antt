-- ===== src/Shm/Mapping/Tests.antt =====
-- Examples of the theorems on mapped blocks.
use netcomm.Prelude.{◌≡◌, refl, false, some, ◌++◌, if◌then◌else◌, arith}
use netcomm.Shm.Mapping.{Mapped, is_none}
use netcomm.Shm.Mapping.Linux
use netcomm.Shm.Mapping.Linux.{opened, map_failed}
use netcomm.Shm.Mapping.Lifecycle.{times, linux_closings}

-- A new block of node 3, and one whose mapping fails.
abbrev fresh : Mapped
fresh = record { m_id = 3; m_total_size = 4096; m_handle = 0xffffffff; m_view = 0 }

linux_closings_example :
    (times 5 (
        (Linux.create fresh (λ n. opened 5) false 65536).2
        ++ (Linux.close (Linux.create fresh (λ n. opened 5) false 65536).0).1)
      ≡ (if is_none (Linux.create fresh (λ n. opened 5) false 65536).1.code then 1 else 2))
    × (times 5 (
          (Linux.open_shm fresh (λ n. opened 5) (some 100) 65536).2
          ++ (Linux.close (Linux.open_shm fresh (λ n. opened 5) (some 100) 65536).0).1)
        ≡ (if is_none (Linux.open_shm fresh (λ n. opened 5) (some 100) 65536).1.code then 1 else 2))
linux_closings_example =
    linux_closings fresh 5 (λ n. opened 5) false (some 100) 65536 refl refl (omega arith)
      (λ e. omega (arith, e))
