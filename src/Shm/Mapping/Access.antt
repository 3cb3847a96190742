-- ===== src/Shm/Mapping/Access.antt =====
-- Reading and writing a mapped block (shm.cpp).
use netcomm.Prelude.{
  ℕ, ◌+◌, ◌^◌, ◌≤◌, ◌<◌, ◌≡◌, inl, inr, true, leb, none, some, List, length, if◌then◌else◌,
  Bool-cases, arith,
}
use netcomm.Memory.{Memory, write_bytes_outside, read_bytes-write_bytes}
use netcomm.Shm.Mapping.{Mapped, access_err, is_none, read, write}

-- An access is accepted exactly if its bytes lie in the block.
access_err_lem :
    (s : Mapped) (size offset : ℕ)
    → offset + size < 2 ^ 64
    → is_none (access_err true s size offset) ≡ leb (offset + size) s.m_total_size
unfolding access_err
access_err_lem s size offset small = ground arith

module _ (s : Mapped) (m : Memory) (buf : List ℕ) (offset : ℕ)
    (small : offset + length buf < 2 ^ 64) where
  -- A write at an offset that with the size is below 2 ^ 64, into a valid block, succeeds exactly if
  -- its bytes lie in the block. Then a read at the same place gives them back, and else the read
  -- fails too. No byte outside the block changes.
  pub read-write :
      (is_none (write true s m buf offset).0.code ≡ leb (offset + length buf) s.m_total_size)
      × ((read true s (write true s m buf offset).1 (length buf) offset).1
          ≡ (if leb (offset + length buf) s.m_total_size then some buf else none))
      × ((x : ℕ) → s.m_total_size ≤ x → (write true s m buf offset).1 x ≡ m x)
  unfolding read write
  read-write = (
    accepted,
    ground (arith, accepted, read_bytes-write_bytes m offset buf),
    λ x outside. elim (Bool-cases (leb (offset + length buf) s.m_total_size)) [
      | inl fits ↦
          ground (arith, accepted, fits, write_bytes_outside m offset buf x (inr (ground arith)))
      | inr beyond ↦ ground (arith, accepted, beyond)
    ],
  )
    where
      accepted :
          is_none (access_err true s (length buf) offset) ≡ leb (offset + length buf) s.m_total_size
      accepted = access_err_lem s (length buf) offset small
