-- ===== src/Socket/Receiving.antt =====
-- recv_all of linux_tcp_client.cpp: what it stores, and that it returns.
use netcomm.Prelude.{
  ℕ, zero, suc, ◌+◌, ◌-◌, ◌*◌, ◌≤◌, ◌<◌, ◌≡◌, ap, sym, subst, ◌∙◌, inl, inr, false, true,
  Bool-cases, none, some, is_some, arith,
}
use native.Mathlib.Decide.{dec_lt}
use netcomm.Memory.{
  Memory, read_bytes, write_bytes, length-read_bytes, read_bytes_add, write_bytes_append,
}
use netcomm.Socket.{
  Calls, moved, failed, Run, TcpSocket, no_error, closed, recv_op, Errno, is_eintr, map_err,
  mark_closed, recv_loop, is_connected, int32_max, recv_all, returned,
}
use netcomm.Socket.Transfer.{
  Bounded, Fair, Ended, all_moved, peer_closed, broken, in_progress, Io-cases, refused_lem, Awake,
  nearer, one_byte_less, is_done,
}

-- One turn of the loop of `recv_all`, by what the call gives.
module _ (os : Calls) (fuel : ℕ) (s : TcpSocket) (m : Memory) (addr size : ℕ) (stream : Memory)
    (pos i total : ℕ) where
  abbrev recv_from : Run Memory
  recv_from = recv_loop os (suc fuel) s m addr size stream pos i total

  pub recv_full : ¬ (total < size) → recv_from ≡ returned no_error recv_op none total s m
  unfolding recv_loop
  recv_full g = ground arith

  module _ (l : total < size) where
    pub recv_closed :
        os i (size - total) ≡ moved 0
        → recv_from ≡ returned closed recv_op none total (mark_closed s) m
    unfolding recv_loop
    recv_closed h = ground arith

    pub recv_some :
        (n : ℕ)
        → os i (size - total) ≡ moved (suc n)
        → recv_from
          ≡ recv_loop os fuel s
              (write_bytes m (addr + total) (read_bytes stream (pos + total) (suc n)))
              addr
              size
              stream
              pos
              (suc i)
              (total + suc n)
    unfolding recv_loop
    recv_some n h = ground arith

    pub recv_again :
        (e : Errno)
        → os i (size - total) ≡ failed e
        → is_eintr e ≡ true
        → recv_from ≡ recv_loop os fuel s m addr size stream pos (suc i) total
    unfolding recv_loop
    recv_again e h t = ground arith

    pub recv_broken :
        (e : Errno)
        → os i (size - total) ≡ failed e
        → is_eintr e ≡ false
        → recv_from ≡ returned (map_err e) recv_op (some e) total s m
    unfolding recv_loop
    recv_broken e h f = ground arith

-- The memory holds a prefix of what is next on the stream, and is else as before.
abbrev pub RecvEnded : Calls → TcpSocket → Memory → ℕ → ℕ → Memory → ℕ → Run Memory → Type 0
RecvEnded os s m addr size stream pos =
    Ended os recv_op (λ e. s) s size (λ n. write_bytes m addr (read_bytes stream pos n))

module _ (os : Calls) (bounded : Bounded os) (s : TcpSocket) (m : Memory) (addr size : ℕ)
    (stream : Memory) (pos : ℕ) where
  abbrev stored : ℕ → Memory
  stored n = write_bytes m addr (read_bytes stream pos n)

  stored_add :
      (n k : ℕ) → write_bytes (stored n) (addr + n) (read_bytes stream (pos + n) k) ≡ stored (n + k)
  stored_add n k =
      ap (λ c. write_bytes (stored n) (addr + c) (read_bytes stream (pos + n) k))
        (sym (length-read_bytes stream pos n))
      ∙ sym (write_bytes_append m addr (read_bytes stream pos n) (read_bytes stream (pos + n) k))
      ∙ ap (write_bytes m addr) (sym (read_bytes_add stream pos n k))

  abbrev Part : Run Memory → Type 0
  Part = RecvEnded os s m addr size stream pos

  abbrev from : ℕ → ℕ → ℕ → Run Memory
  from fuel i total = recv_loop os fuel s (stored total) addr size stream pos i total

  pub recv_loop-Ended : (fuel i total : ℕ) → total ≤ size → Part (from fuel i total)
  unfolding recv_loop
  recv_loop-Ended zero i total le = in_progress total le
  recv_loop-Ended (suc fuel) i total le =
      let at = stored total in
      elim (dec_lt total size) [
        | no g ↦ subst Part (sym (recv_full os fuel s at addr size stream pos i total g)) (
            subst (λ n. Part (returned no_error recv_op none n s (stored n))) (omega arith)
              all_moved)
        | yes l ↦ elim (Io-cases (os i (size - total))) [
          | inl (inl h) ↦
              subst Part (sym (recv_closed os fuel s at addr size stream pos i total l h))
                (peer_closed i total l h)
          | inl (inr (n, h)) ↦
              subst Part
                (sym (
                  recv_some os fuel s at addr size stream pos i total l n h
                  ∙ ap (λ x. recv_loop os fuel s x addr size stream pos (suc i) (total + suc n))
                      (stored_add total (suc n))))
                (recv_loop-Ended fuel (suc i) (total + suc n)
                  (omega (arith, bounded i (size - total) (suc n) h)))
          | inr (e, h) ↦ elim (Bool-cases (is_eintr e)) [
            | inl t ↦
                subst Part (sym (recv_again os fuel s at addr size stream pos i total l e h t))
                  (recv_loop-Ended fuel (suc i) total le)
            | inr f ↦
                subst Part (sym (recv_broken os fuel s at addr size stream pos i total l e h f))
                  (broken e i total l h f)
          ]
        ]
      ]

-- A loop that is given `k + 1` calls for each byte that is left, and those to the next call that is
-- not interrupted, returns.
pub recv_loop_enough :
    (os : Calls) (k : ℕ)
    → Fair os k
    → (s : TcpSocket) (stream : Memory) (addr size pos fuel : ℕ) (m : Memory) (i total left j : ℕ)
    → size ≤ total + left
    → Awake os (i + j)
    → left * suc k + suc j ≤ fuel
    → is_some (recv_loop os fuel s m addr size stream pos i total).result ≡ true
recv_loop_enough os k fair s stream addr size pos zero m i total left j le live enough =
    absurd (omega arith)
recv_loop_enough os k fair s stream addr size pos (suc fuel) m i total left j le live enough =
    elim (dec_lt total size) [
      | no g ↦ ap is_done (recv_full os fuel s m addr size stream pos i total g)
      | yes l ↦ elim (Io-cases (os i (size - total))) [
        | inl (inl h) ↦ ap is_done (recv_closed os fuel s m addr size stream pos i total l h)
        | inl (inr (n, h)) ↦
            ap is_done (recv_some os fuel s m addr size stream pos i total l n h)
            ∙ recv_loop_enough os k fair s stream addr size pos fuel
                (write_bytes m (addr + total) (read_bytes stream (pos + total) (suc n))) (suc i)
                (total + suc n) (left - 1) (fair (suc i)).0 (omega arith) (fair (suc i)).2
                (omega (arith, (fair (suc i)).1, one_byte_less left k (omega arith)))
        | inr (e, h) ↦ elim (Bool-cases (is_eintr e)) [
          | inl t ↦
              let (x, q, later) = nearer os i j (size - total) e live h t in
              ap is_done (recv_again os fuel s m addr size stream pos i total l e h t)
              ∙ recv_loop_enough os k fair s stream addr size pos fuel m (suc i) total left x le
                  later (omega (arith, q))
          | inr f ↦ ap is_done (recv_broken os fuel s m addr size stream pos i total l e h f)
        ]
      ]
    ]

module _ (os : Calls) (s : TcpSocket) (m : Memory) (addr size : ℕ) (stream : Memory) (at : ℕ)
    (up : is_connected s ≡ true) (pos : 0 < size) (small : size ≤ int32_max) where
  recv_all_tried :
      (fuel : ℕ)
      → recv_all os fuel s m addr size stream at ≡ recv_loop os fuel s m addr size stream at 0 0
  unfolding recv_all
  recv_all_tried fuel = ground (arith, refused_lem s size up pos small)

  -- Receiving all of 1 to 2 ^ 31 - 1 bytes on a connected socket stores a prefix of what comes next
  -- on the stream and changes no other byte, whatever the calls give: X
  pub recv_all-Ended :
      (fuel : ℕ)
      → Bounded os
      → RecvEnded os s m addr size stream at (recv_all os fuel s m addr size stream at)
  unfolding read_bytes write_bytes
  recv_all-Ended fuel bounded =
      subst (RecvEnded os s m addr size stream at) (sym (recv_all_tried fuel))
        (recv_loop-Ended os bounded s m addr size stream at fuel 0 0 (omega arith))

  -- If of any `k + 1` calls one is not interrupted, receiving all of `size` bytes returns within
  -- `size * (k + 1) + k + 1` calls.
  pub recv_all_returns :
      (k fuel : ℕ)
      → Fair os k
      → size * suc k + suc k ≤ fuel
      → is_done (recv_all os fuel s m addr size stream at) ≡ true
  recv_all_returns k fuel fair enough =
      ap is_done (recv_all_tried fuel)
      ∙ recv_loop_enough os k fair s stream addr size at fuel m 0 0 size (fair 0).0 (omega arith)
          (fair 0).2 (omega (arith, (fair 0).1))
