-- ===== src/Prelude/Rounds.antt =====
-- Positions on a ring: remainders of sums.
use Prim.Native.Nat.{ℕ, ◌+◌, ◌-◌, ◌%◌, ◌≤◌, ◌<◌}
use mathlib.Core.Path.{◌≡◌, ◌∙◌, sym}
use mathlib.Core.Logic.{◌⊎◌, inl, inr}
use native.Mathlib.Nat.{mod-add-mod, mod-eq_of_lt, mod-eq-sub-mod, mod-lt}
use native.Mathlib.Decide.{dec_lt}
use native.Mathlib.Omega.{arith}

-- A number below twice the modulus.
pub mod_twice : (s x : ℕ) → x < s + s → ((x < s) × (x % s ≡ x)) ⊎ ((s ≤ x) × (x % s ≡ x - s))
mod_twice s x h = elim (dec_lt x s) [
  | yes l ↦ inl (l, mod-eq_of_lt l)
  | no g ↦ inr (
    omega arith,
    mod-eq-sub-mod {n = x} {m = s} (omega arith) ∙ mod-eq_of_lt {n = x - s} {m = s} (omega arith),
  )
]

-- A step of at most one lap ends in this lap or in the next.
pub ring_step :
    (s p d : ℕ)
    → 0 < s
    → d ≤ s
    → ((p % s + d < s) × ((p + d) % s ≡ p % s + d))
      ⊎ ((s ≤ p % s + d) × ((p + d) % s ≡ p % s + d - s))
ring_step s p d hs hd = go (mod_twice s (p % s + d) (omega (arith, mod-lt p hs)))
  where
    go :
        ((p % s + d < s) × ((p % s + d) % s ≡ p % s + d))
          ⊎ ((s ≤ p % s + d) × ((p % s + d) % s ≡ p % s + d - s))
        → ((p % s + d < s) × ((p + d) % s ≡ p % s + d))
          ⊎ ((s ≤ p % s + d) × ((p + d) % s ≡ p % s + d - s))
    go (inl (l, e)) = inl (l, sym (mod-add-mod p s d) ∙ e)
    go (inr (g, e)) = inr (g, sym (mod-add-mod p s d) ∙ e)

-- Two spans that do not cross the end of the ring, one starting at least the other's length after
-- it, and both within one lap, do not meet.
pub spans_apart :
    (s p t d size : ℕ)
    → 0 < s
    → p % s + t ≤ s
    → t ≤ d
    → d + size ≤ s
    → (p % s + t ≤ (p + d) % s) ⊎ ((p + d) % s + size ≤ p % s)
spans_apart s p t d size hs fits le lap = go (ring_step s p d hs (omega arith))
  where
    go :
        ((p % s + d < s) × ((p + d) % s ≡ p % s + d))
          ⊎ ((s ≤ p % s + d) × ((p + d) % s ≡ p % s + d - s))
        → (p % s + t ≤ (p + d) % s) ⊎ ((p + d) % s + size ≤ p % s)
    go (inl (l, e)) = inl (omega arith)
    go (inr (g, e)) = inr (omega arith)
