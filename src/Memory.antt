-- ===== src/Memory.antt =====
-- Byte-addressed memory: `memcpy` and `memset`, and what reads see of them.
use netcomm.Prelude.{
  ℕ, zero, suc, ◌+◌, ◌≤◌, ◌<◌, ◌≡◌, refl, ap, ap₂, ◌∙◌, ◌⊎◌, inl, inr, List, [], ◌∷◌, ◌++◌, ◌==◌,
  if◌then◌else◌, length, arith,
}

abbrev pub Memory : Type 0
Memory = ℕ → ℕ

abbrev pub set_byte : Memory → ℕ → ℕ → Memory
set_byte m a b x = if a == x then b else m x

-- `memcpy` of these bytes to an address.
unfoldable pub write_bytes : Memory → ℕ → List ℕ → Memory
write_bytes m a [] = m
write_bytes m a (b ∷ bs) = write_bytes (set_byte m a b) (suc a) bs

unfoldable pub read_bytes : Memory → ℕ → ℕ → List ℕ
read_bytes m a zero = []
read_bytes m a (suc n) = m a ∷ read_bytes m (suc a) n

pub write_bytes_outside :
    (m : Memory) (a : ℕ) (bs : List ℕ) (x : ℕ)
    → (x < a) ⊎ (a + length bs ≤ x)
    → write_bytes m a bs x ≡ m x
unfolding write_bytes
write_bytes_outside m a [] x h = refl
write_bytes_outside m a (b ∷ bs) x h =
    ground (arith, write_bytes_outside (set_byte m a b) (suc a) bs x (narrow h))
  where
    narrow : (x < a) ⊎ (a + suc (length bs) ≤ x) → (x < suc a) ⊎ (suc a + length bs ≤ x)
    narrow (inl l) = inl (omega arith)
    narrow (inr g) = inr (omega arith)

-- A byte after a write depends on no other byte before it.
pub write_bytes_alike :
    (m m' : Memory) (a : ℕ) (bs : List ℕ) (x : ℕ)
    → m x ≡ m' x
    → write_bytes m a bs x ≡ write_bytes m' a bs x
unfolding write_bytes
write_bytes_alike m m' a [] x e = e
write_bytes_alike m m' a (b ∷ bs) x e =
    write_bytes_alike (set_byte m a b) (set_byte m' a b) (suc a) bs x (ground (arith, e))

-- Reads of memories that agree on what is read.
pub read_bytes_alike :
    (m m' : Memory) (a n : ℕ)
    → ((x : ℕ) → a ≤ x → x < a + n → m x ≡ m' x)
    → read_bytes m a n ≡ read_bytes m' a n
unfolding read_bytes
read_bytes_alike m m' a zero same = refl
read_bytes_alike m m' a (suc n) same =
    ap₂ ◌∷◌ (same a (omega arith) (omega arith))
      (read_bytes_alike m m' (suc a) n (λ x l u. same x (omega arith) (omega arith)))

pub length-read_bytes : (m : Memory) (a n : ℕ) → length (read_bytes m a n) ≡ n
unfolding read_bytes
length-read_bytes m a zero = refl
length-read_bytes m a (suc n) = ap suc (length-read_bytes m (suc a) n)

-- A read is not changed by a write that it does not meet.
pub read_bytes_outside :
    (m : Memory) (a : ℕ) (bs : List ℕ) (c n : ℕ)
    → (c + n ≤ a) ⊎ (a + length bs ≤ c)
    → read_bytes (write_bytes m a bs) c n ≡ read_bytes m c n
unfolding read_bytes
read_bytes_outside m a bs c zero h = refl
read_bytes_outside m a bs c (suc n) h =
    ap₂ ◌∷◌ (write_bytes_outside m a bs c (first h)) (read_bytes_outside m a bs (suc c) n (rest h))
  where
    first : (c + suc n ≤ a) ⊎ (a + length bs ≤ c) → (c < a) ⊎ (a + length bs ≤ c)
    first (inl l) = inl (omega arith)
    first (inr g) = inr g

    rest : (c + suc n ≤ a) ⊎ (a + length bs ≤ c) → (suc c + n ≤ a) ⊎ (a + length bs ≤ suc c)
    rest (inl l) = inl (omega arith)
    rest (inr g) = inr (omega arith)

-- A read of what was just written gives it back.
pub read_bytes-write_bytes :
    (m : Memory) (a : ℕ) (bs : List ℕ) → read_bytes (write_bytes m a bs) a (length bs) ≡ bs
unfolding read_bytes write_bytes
read_bytes-write_bytes m a [] = refl
read_bytes-write_bytes m a (b ∷ bs) =
    ap₂ ◌∷◌ (write_bytes_outside (set_byte m a b) (suc a) bs a (inl (omega arith)) ∙ ground arith)
      (read_bytes-write_bytes (set_byte m a b) (suc a) bs)

-- Reads and writes that follow one another.
pub read_bytes_add :
    (m : Memory) (a n k : ℕ) → read_bytes m a (n + k) ≡ read_bytes m a n ++ read_bytes m (a + n) k
unfolding read_bytes
read_bytes_add m a zero k = grind arith
read_bytes_add m a (suc n) k = grind (arith, read_bytes_add m (suc a) n k)

pub write_bytes_append :
    (m : Memory) (a : ℕ) (xs ys : List ℕ)
    → write_bytes m a (xs ++ ys) ≡ write_bytes (write_bytes m a xs) (a + length xs) ys
unfolding write_bytes
write_bytes_append m a [] ys = grind arith
write_bytes_append m a (x ∷ xs) ys =
    grind (arith, write_bytes_append (set_byte m a x) (suc a) xs ys)

-- A buffer of its own that holds these bytes at address 0.
abbrev pub buffer_of : List ℕ → Memory
buffer_of bs = write_bytes (λ a. 0) 0 bs
