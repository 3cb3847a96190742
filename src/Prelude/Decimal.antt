-- ===== src/Prelude/Decimal.antt =====
-- Numbers as decimal text, as `std::to_string` writes them: the code points of the digits.
use Prim.Native.Nat.{ℕ, zero, suc, ◌+◌, ◌-◌, ◌*◌, ◌/◌, ◌%◌, ◌^◌, ◌<◌}
use Prim.Native.Char.{code}
use Prim.Native.String.{String}
use mathlib.Core.Path.{◌≡◌, ap, sym, ◌∙◌}
use mathlib.Core.Bool.{Bool, false}
use mathlib.Core.List.{List, [], ◌∷◌, ◌++◌, append_assoc, append-nil}
use mathlib.Core.Logic.{inl, inr}
use native.Mathlib.Omega.{arith}
use netcomm.Prelude.Tests.{ltb, ◌==◌, Bool-cases, if◌then◌else◌}

-- A literal of the source, character by character.
abbrev pub codes : String → List ℕ
codes String.[] = []
codes (String.◌∷◌ first others) = code first ∷ codes others

-- The digits of a number, the last of them at most `rounds` places after the first.
unfoldable pub digits : ℕ → ℕ → List ℕ
digits zero n = (48 + n) ∷ []
digits (suc rounds) n =
    let rest = digits rounds (n / 10) ++ (48 + n % 10) ∷ [] in
    if ltb n 10 then (48 + n) ∷ [] else rest

-- The text of an `int32_t`, given by its bit pattern.
unfoldable pub int_text : ℕ → List ℕ
unfolding digits
int_text n = if ltb n (2 ^ 31) then digits 9 n else b'-' ∷ digits 9 (2 ^ 32 - n)

-- What a list of digits stands for.
value_from : ℕ → List ℕ → ℕ
value_from acc [] = acc
value_from acc (d ∷ ds) = value_from (acc * 10 + (d - 48)) ds

value_from-snoc :
    (acc : ℕ) (ds : List ℕ) (d : ℕ)
    → value_from acc (ds ++ d ∷ []) ≡ value_from acc ds * 10 + (d - 48)
unfolding value_from
value_from-snoc acc [] d = omega arith
value_from-snoc acc (x ∷ ds) d = value_from-snoc (acc * 10 + (x - 48)) ds d

value_from-digits : (rounds n : ℕ) → value_from 0 (digits rounds n) ≡ n
unfolding digits value_from
value_from-digits zero n = omega arith
value_from-digits (suc rounds) n = ground (
  arith,
  value_from-snoc 0 (digits rounds (n / 10)) (48 + n % 10),
  value_from-digits rounds (n / 10),
)

digits_injective : (n m : ℕ) → digits 9 n ≡ digits 9 m → n ≡ m
digits_injective n m h = sym (value_from-digits 9 n) ∙ ap (value_from 0) h ∙ value_from-digits 9 m

is_minus : List ℕ → Bool
is_minus [] = false
is_minus (c ∷ cs) = c == b'-'

is_minus-digits : (rounds n : ℕ) (cs : List ℕ) → is_minus (digits rounds n ++ cs) ≡ false
unfolding digits is_minus
is_minus-digits zero n cs = ground arith
is_minus-digits (suc rounds) n cs = elim (Bool-cases (ltb n 10)) [
  | inl small ↦ rw small (ground arith)
  | inr large ↦ rw large (
      ap is_minus (append_assoc (digits rounds (n / 10)) ((48 + n % 10) ∷ []) cs)
      ∙ is_minus-digits rounds (n / 10) ((48 + n % 10) ∷ cs))
]

unsigned : (n : ℕ) → is_minus (digits 9 n) ≡ false
unsigned n = ap is_minus (sym (append-nil (digits 9 n))) ∙ is_minus-digits 9 n []

tail : List ℕ → List ℕ
tail [] = []
tail (c ∷ cs) = cs

-- Different numbers have different texts.
pub int_text_injective : (n m : ℕ) → n < 2 ^ 32 → m < 2 ^ 32 → int_text n ≡ int_text m → n ≡ m
unfolding int_text is_minus tail
int_text_injective n m ln lm h = elim (Bool-cases (ltb n (2 ^ 31))) [
  | inl n_pos ↦ elim (Bool-cases (ltb m (2 ^ 31))) [
    | inl m_pos ↦ digits_injective n m (ground (arith, h, n_pos, m_pos))
    | inr m_neg ↦ ground (arith, unsigned n, ap is_minus h)
  ]
  | inr n_neg ↦ elim (Bool-cases (ltb m (2 ^ 31))) [
    | inl m_pos ↦ ground (arith, unsigned m, ap is_minus h)
    | inr m_neg ↦ ground (arith, digits_injective (2 ^ 32 - n) (2 ^ 32 - m), ap tail h)
  ]
]
