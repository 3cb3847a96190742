-- ===== src/Types/Words.antt =====
-- Machine words: the signed order of `int32_t` on bit patterns, wrapping increments, one bit.
use netcomm.Prelude.{ℕ, ◌+◌, ◌^◌, ◌%◌, ◌/◌, ◌<◌, ◌≡◌, Bool, ltb, leb, ◌==◌, arith}

-- Adding 2 ^ 31 turns the signed order into the order of the numbers.
abbrev pub bias32 : ℕ → ℕ
bias32 x = (x + 2 ^ 31) % 2 ^ 32

-- `a < b` and `a <= b` on `int32_t`.
abbrev pub slt32 : ℕ → ℕ → Bool
slt32 a b = ltb (bias32 a) (bias32 b)

abbrev pub sle32 : ℕ → ℕ → Bool
sle32 a b = leb (bias32 a) (bias32 b)

-- `x + 1` on `uint32_t` and on `uint64_t`.
abbrev pub inc32 : ℕ → ℕ
inc32 x = (x + 1) % 2 ^ 32

abbrev pub inc64 : ℕ → ℕ
inc64 x = (x + 1) % 2 ^ 64

-- `x & (1 << k)` as a truth value.
unfoldable pub bit_test : ℕ → ℕ → Bool
bit_test x k = (x / 2 ^ k) % 2 == 1

-- A pattern is at most that of -1 exactly if its sign bit is set.
pub sle32-neg_one : (x : ℕ) → x < 2 ^ 32 → sle32 x 0xffffffff ≡ leb 0x80000000 x
sle32-neg_one x h = ground arith
