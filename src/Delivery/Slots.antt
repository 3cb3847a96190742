-- ===== src/Delivery/Slots.antt =====
-- The slots of a receive buffer as a queue of messages, oldest first.
use native.Mathlib.Nat.{mod-add-mod, mod-eq_of_lt, mod-eq-sub-mod, add-zero, zero-add}
use native.Mathlib.Decide.{dec_lt}
use netcomm.Prelude.{
  ℕ, zero, suc, ◌+◌, ◌-◌, ◌*◌, ◌%◌, ◌≤◌, ◌<◌, ◌≡◌, ◌≢◌, refl, ap, ap₂, sym, ◌∙◌, ◌⊎◌, inl, inr,
  List, [], ◌∷◌, ◌++◌, length, drop, arith,
}
use netcomm.Memory.{Memory, write_bytes, read_bytes, read_bytes_outside, read_bytes-write_bytes}

-- Different slots do not overlap.
slots_apart : (i j size : ℕ) → i ≢ j → (i * size + size ≤ j * size) ⊎ (j * size + size ≤ i * size)
slots_apart i j size ne = elim (dec_lt i j) [
  | yes l ↦ inl (grind arith)
  | no g ↦ inr (let h : j < i = omega arith in grind arith)
]

module _ (buf size slots : ℕ) where
  -- The messages in `n` slots from slot `start` on, going round at the last slot.
  abbrev pub messages : Memory → ℕ → ℕ → List (List ℕ)
  messages m start zero = []
  messages m start (suc n) =
      read_bytes m (buf + start * size) size ∷ messages m ((start + 1) % slots) n

  pub length-messages : (m : Memory) (start n : ℕ) → length (messages m start n) ≡ n
  length-messages m start zero = refl
  length-messages m start (suc n) = ap suc (length-messages m ((start + 1) % slots) n)

  -- Fewer than `slots` steps round the buffer do not come back to the start.
  round_ne : (start k : ℕ) → start < slots → suc k < slots → (start + suc k) % slots ≢ start
  round_ne start k hs hk = elim (dec_lt (start + suc k) slots) [
    | yes l ↦ omega (arith, mod-eq_of_lt l)
    | no g ↦ omega (
      arith,
      mod-eq-sub-mod {n = start + suc k} {m = slots} (omega arith),
      mod-eq_of_lt {n = start + suc k - slots} {m = slots} (omega arith),
    )
  ]

  shift : (start n : ℕ) → ((start + 1) % slots + n) % slots ≡ (start + suc n) % slots
  shift start n = rw mod-add-mod (ap (λ k. k % slots) (omega arith))

  read_other :
      (m : Memory) (bytes : List ℕ) (i j : ℕ)
      → length bytes ≡ size
      → i ≢ j
      → read_bytes (write_bytes m (buf + i * size) bytes) (buf + j * size) size
        ≡ read_bytes m (buf + j * size) size
  read_other m bytes i j len ne =
      read_bytes_outside m (buf + i * size) bytes (buf + j * size) size
        (apart (slots_apart i j size ne))
    where
      apart :
          (i * size + size ≤ j * size) ⊎ (j * size + size ≤ i * size)
          → (buf + j * size + size ≤ buf + i * size)
            ⊎ (buf + i * size + length bytes ≤ buf + j * size)
      apart (inl l) = inr (omega arith)
      apart (inr g) = inl (omega arith)

  -- A message written into the slot after the last one extends the queue by that message.
  pub messages-write :
      (m : Memory) (bytes : List ℕ) (n start i : ℕ)
      → length bytes ≡ size
      → start < slots
      → n < slots
      → i ≡ (start + n) % slots
      → messages (write_bytes m (buf + i * size) bytes) start (suc n)
        ≡ messages m start n ++ (bytes ∷ [])
  messages-write m bytes zero start i len hs hn e =
      let here : i ≡ start = rw e (rw add-zero (mod-eq_of_lt hs)) in
      ap (λ x. x ∷ [])
        (rw (here, ← len) (read_bytes-write_bytes m (buf + start * length bytes) bytes))
  messages-write m bytes (suc n) start i len hs hn e =
      ap₂ ◌∷◌ (read_other m bytes i start len (rw e (round_ne start n hs hn))) (
        messages-write m bytes n ((start + 1) % slots) i len (omega arith) (omega arith)
          (e ∙ sym (shift start n)))

  -- Dropping messages from the front of the queue moves its start on.
  pub messages-drop :
      (m : Memory) (k n start : ℕ)
      → messages m ((start + k) % slots) n ≡ drop k (messages m (start % slots) (k + n))
  messages-drop m zero n start = simp (add-zero, zero-add)
  messages-drop m (suc k) n start =
      let more : start + suc k ≡ start + 1 + k = omega arith in
      let sum : suc (k + n) ≡ suc k + n = omega arith in
      ap (λ i. messages m (i % slots) n) more
      ∙ messages-drop m k n (start + 1)
      ∙ ap (λ i. drop k (messages m i (k + n))) (sym (mod-add-mod start slots 1))
      ∙ ap (λ c. drop (suc k) (messages m (start % slots) c)) sum
