-- ===== src/Socket/Transfer.antt =====
-- What the transfers of linux_tcp_client.cpp share: what the system promises, and how they end.
use netcomm.Prelude.{
  Bool, ℕ, zero, suc, ◌+◌, ◌-◌, ◌*◌, ◌≤◌, ◌<◌, ◌≡◌, refl, ap, sym, subst, ◌∙◌, ◌⊎◌, inl, inr, false,
  true, none, some, is_some, arith,
}
use native.Mathlib.Nat.{suc-mul}
use netcomm.Socket.{
  Calls, Io, moved, failed, Run, TcpSocket, no_error, closed, SockOp, Errno, is_eintr, map_err,
  mark_closed, refused, is_connected, int32_max, returned,
}

-- The system never moves more than it is asked to.
abbrev pub Bounded : Calls → Type 0
Bounded os = (i r n : ℕ) → os i r ≡ moved n → n ≤ r

-- How a transfer of `size` bytes ends: all of them; after a part, since a call moved no byte or gave
-- an error other than an interruption; or not yet. `so_far n` is what has moved after `n` bytes.
pub data Ended {ℓ} {A : Type ℓ} (os : Calls) (op : SockOp) (on_error : Errno → TcpSocket)
    (s : TcpSocket) (size : ℕ) (so_far : ℕ → A) : Run A → Type ℓ where
  all_moved : Ended os op on_error s size so_far (returned no_error op none size s (so_far size))
  peer_closed :
      (i n : ℕ)
      → n < size
      → os i (size - n) ≡ moved 0
      → Ended os op on_error s size so_far (returned closed op none n (mark_closed s) (so_far n))
  broken :
      (e : Errno) (i n : ℕ)
      → n < size
      → os i (size - n) ≡ failed e
      → is_eintr e ≡ false
      → Ended os op on_error s size so_far
          (returned (map_err e) op (some e) n (on_error e) (so_far n))
  in_progress :
      (n : ℕ)
      → n ≤ size
      → Ended os op on_error s size so_far
          (record { result = none; sock = s; moved_data = so_far n })

pub Io-cases :
    (o : Io) → ((o ≡ moved 0) ⊎ ((n : ℕ) × (o ≡ moved (suc n)))) ⊎ ((e : Errno) × (o ≡ failed e))
Io-cases (moved zero) = inl (inl refl)
Io-cases (moved (suc n)) = inl (inr (n, refl))
Io-cases (failed e) = inr (e, refl)

-- Call `i` is not interrupted.
abbrev pub Awake : Calls → ℕ → Type 0
Awake os i = (r : ℕ) (e : Errno) → os i r ≡ failed e → is_eintr e ≡ false

-- Of any `k + 1` calls that follow one another, one is not interrupted.
abbrev pub Fair : Calls → ℕ → Type 0
Fair os k = (i : ℕ) → (j : ℕ) × (j ≤ k) × Awake os (i + j)

-- After an interrupted call, the call that is not is one nearer.
pub nearer :
    (os : Calls) (i j r : ℕ) (e : Errno)
    → Awake os (i + j)
    → os i r ≡ failed e
    → is_eintr e ≡ true
    → (l : ℕ) × (suc l ≡ j) × Awake os (suc i + l)
nearer os i zero r e live h t = absurd (clash (subst (Awake os) (omega arith) live r e h))
  where
    clash : is_eintr e ≡ false → ⊥
    clash f = ground (arith, t, f)
nearer os i (suc l) r e live h t = (l, refl, subst (Awake os) (omega arith) live)

-- A byte less to move leaves `k + 1` calls fewer to wait for.
pub one_byte_less : (n k : ℕ) → 0 < n → (n - 1) * suc k + suc k ≡ n * suc k
one_byte_less zero k pos = absurd (omega arith)
one_byte_less (suc n) k pos = ap (λ x. x * suc k + suc k) (omega arith) ∙ sym (suc-mul n (suc k))

-- A transfer is tried exactly on a connected socket, for a size from 1 to the largest `int32_t`.
pub refused_lem :
    (s : TcpSocket) (size : ℕ)
    → is_connected s ≡ true
    → 0 < size
    → size ≤ int32_max
    → refused s size ≡ none
unfolding refused
refused_lem s size c pos small = ground arith

abbrev pub is_done {ℓ} : {A : Type ℓ} → Run A → Bool
is_done r = is_some r.result

-- Every call moves at least one byte, or is interrupted.
abbrev pub Healthy : Calls → Type 0
Healthy os =
    (i r : ℕ)
    → 0 < r
    → ((n : ℕ) × (os i r ≡ moved (suc n)))
      ⊎ ((e : Errno) × (os i r ≡ failed e) × (is_eintr e ≡ true))

-- With such calls a transfer that has returned has moved everything.
pub Healthy-all_moved {ℓ} :
    {A : Type ℓ} (os : Calls) (op : SockOp) (on_error : Errno → TcpSocket) (s : TcpSocket)
    (size : ℕ) (so_far : ℕ → A) (r : Run A)
    → Healthy os
    → Ended os op on_error s size so_far r
    → is_done r ≡ true
    → r ≡ returned no_error op none size s (so_far size)
Healthy-all_moved os op on_error s size so_far _ good all_moved h = refl
Healthy-all_moved os op on_error s size so_far _ good (peer_closed i n l q) h =
    absurd (grind (arith, good i (size - n) (omega arith)))
Healthy-all_moved os op on_error s size so_far _ good (broken e i n l q f) h =
    absurd (grind (arith, good i (size - n) (omega arith)))
Healthy-all_moved os op on_error s size so_far _ good (in_progress n le) h = absurd (ground arith)

-- Calls on which a transfer gets through: they move no more than they are asked to, at least a byte
-- if they are not interrupted, and are interrupted at most `k` times in a row.
pub record Reliable (os : Calls) (k : ℕ) : Type 0 where
  pub bounded : Bounded os
  pub fair : Fair os k
  pub healthy : Healthy os
