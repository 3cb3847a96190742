-- ===== src/Prelude/Lists.antt =====
-- Vectors of numbers: `std::find`, `push_back` and `erase` of the first match.
use Prim.Native.Nat.{ℕ, zero, suc, ◌+◌, ◌≤◌}
use mathlib.Core.Path.{◌≡◌, refl, ap}
use mathlib.Core.Logic.{◌≢◌}
use mathlib.Core.Bool.{Bool, true, false}
use mathlib.Core.List.{List, [], ◌∷◌, ◌++◌, map}
use native.Mathlib.Omega.{arith}
use netcomm.Prelude.Tests.{◌==◌, if◌then◌else◌}

module _ {ℓ} {A : Type ℓ} where
  abbrev pub length : List A → ℕ
  length [] = 0
  length (x ∷ xs) = suc (length xs)

  abbrev pub is_empty : List A → Bool
  is_empty [] = true
  is_empty (x ∷ xs) = false

  abbrev pub take : ℕ → List A → List A
  take zero xs = []
  take (suc n) [] = []
  take (suc n) (x ∷ xs) = x ∷ take n xs

  abbrev pub replicate : ℕ → A → List A
  replicate zero a = []
  replicate (suc n) a = a ∷ replicate n a

  pub length-append : (xs ys : List A) → length (xs ++ ys) ≡ length xs + length ys
  length-append [] ys = omega arith
  length-append (x ∷ xs) ys = omega (arith, length-append xs ys)

  pub append-ne-nil : (xs : List A) (y : A) → xs ++ (y ∷ []) ≢ []
  append-ne-nil [] y h = cc
  append-ne-nil (x ∷ xs) y h = cc

pub length-map {ℓ κ} :
    {A : Type ℓ} {B : Type κ} (f : A → B) (xs : List A) → length (map f xs) ≡ length xs
length-map f [] = refl
length-map f (x ∷ xs) = ap suc (length-map f xs)

pub length-replicate {ℓ} : {A : Type ℓ} (n : ℕ) (a : A) → length (replicate n a) ≡ n
length-replicate zero a = refl
length-replicate (suc n) a = ap suc (length-replicate n a)

-- `std::find(...) != end()`
abbrev pub contains : ℕ → List ℕ → Bool
contains k [] = false
contains k (x ∷ xs) = if x == k then true else contains k xs

-- `erase(std::find(...))`
abbrev pub erase_first : ℕ → List ℕ → List ℕ
erase_first k [] = []
erase_first k (x ∷ xs) = if x == k then xs else x ∷ erase_first k xs

-- No entry stands twice.
abbrev pub Distinct : List ℕ → Type 0
Distinct [] = Unit {0}
Distinct (x ∷ xs) = (contains x xs ≡ false) × Distinct xs

pub contains-snoc :
    (j k : ℕ) (xs : List ℕ) → contains j (xs ++ (k ∷ [])) ≡ (if k == j then true else contains j xs)
contains-snoc j k [] = refl
contains-snoc j k (x ∷ xs) = ground (arith, contains-snoc j k xs)

pub contains-erase_first_ne :
    (j k : ℕ) (xs : List ℕ) → k ≢ j → contains j (erase_first k xs) ≡ contains j xs
contains-erase_first_ne j k [] h = refl
contains-erase_first_ne j k (x ∷ xs) h = ground (arith, contains-erase_first_ne j k xs h)

pub contains-erase_first :
    (j k : ℕ) (xs : List ℕ)
    → Distinct xs
    → contains j (erase_first k xs) ≡ (if k == j then false else contains j xs)
contains-erase_first j k [] d = ground arith
contains-erase_first j k (x ∷ xs) d = ground (arith, contains-erase_first j k xs d.1)

pub contains_of_erase_first :
    (j k : ℕ) (xs : List ℕ) → contains j (erase_first k xs) ≡ true → contains j xs ≡ true
contains_of_erase_first j k [] h = h
contains_of_erase_first j k (x ∷ xs) h = ground (arith, contains_of_erase_first j k xs)

pub snoc-Distinct :
    (k : ℕ) (xs : List ℕ) → contains k xs ≡ false → Distinct xs → Distinct (xs ++ (k ∷ []))
snoc-Distinct k [] h d = (refl, tt)
snoc-Distinct k (x ∷ xs) h d = ground (arith, snoc-Distinct k xs, contains-snoc x k xs)

pub erase_first-Distinct : (k : ℕ) (xs : List ℕ) → Distinct xs → Distinct (erase_first k xs)
erase_first-Distinct k [] d = tt
erase_first-Distinct k (x ∷ xs) d =
    ground (arith, erase_first-Distinct k xs d.1, contains-erase_first_ne x k xs)

-- Removing the entry that was just added gives the list back.
pub erase_first-snoc :
    (k : ℕ) (xs : List ℕ) → contains k xs ≡ false → erase_first k (xs ++ (k ∷ [])) ≡ xs
erase_first-snoc k [] h = ground arith
erase_first-snoc k (x ∷ xs) h = ground (arith, erase_first-snoc k xs)

pub is_empty-eq_false {ℓ} : {A : Type ℓ} (xs : List A) → xs ≢ [] → is_empty xs ≡ false
is_empty-eq_false [] h = absurd (h refl)
is_empty-eq_false (x ∷ xs) h = refl

pub ne-nil_of_is_empty {ℓ} : {A : Type ℓ} (xs : List A) → is_empty xs ≡ false → xs ≢ []
ne-nil_of_is_empty [] h e = cc
ne-nil_of_is_empty (x ∷ xs) h e = cc

pub is_empty-snoc {ℓ} : {A : Type ℓ} (xs : List A) (y : A) → is_empty (xs ++ (y ∷ [])) ≡ false
is_empty-snoc [] y = refl
is_empty-snoc (x ∷ xs) y = refl

pub is_empty_of_contains : (k : ℕ) (xs : List ℕ) → contains k xs ≡ true → is_empty xs ≡ false
is_empty_of_contains k [] h = cc
is_empty_of_contains k (x ∷ xs) h = refl

abbrev pub drop {ℓ} : {A : Type ℓ} → ℕ → List A → List A
drop zero xs = xs
drop (suc n) [] = []
drop (suc n) (x ∷ xs) = drop n xs

pub drop_beyond {ℓ} : {A : Type ℓ} (n : ℕ) (xs : List A) → length xs ≤ n → drop n xs ≡ []
drop_beyond zero [] h = refl
drop_beyond zero (x ∷ xs) h = ground arith
drop_beyond (suc n) [] h = refl
drop_beyond (suc n) (x ∷ xs) h = drop_beyond n xs (omega arith)
