-- ===== src/Socket/Sending.antt =====
-- send_all of linux_tcp_client.cpp: what it hands to the system, and that it returns.
use netcomm.Prelude.{
  ℕ, zero, suc, ◌+◌, ◌-◌, ◌*◌, ◌≤◌, ◌<◌, ◌≡◌, ap, sym, subst, ◌∙◌, inl, inr, false, true,
  Bool-cases, none, some, List, [], ◌++◌, is_some, arith,
}
use native.Mathlib.Decide.{dec_lt}
use netcomm.Memory.{Memory, read_bytes, read_bytes_add}
use netcomm.Socket.{
  Calls, moved, failed, Run, TcpSocket, no_error, closed, send_op, Errno, is_eintr, map_err,
  mark_closed, after_send_error, send_loop, is_connected, int32_max, send_all, returned,
}
use netcomm.Socket.Transfer.{
  Bounded, Fair, Ended, all_moved, peer_closed, broken, in_progress, Io-cases, refused_lem, Awake,
  nearer, one_byte_less, is_done,
}

-- One turn of the loop of `send_all`, by what the call gives.
module _ (os : Calls) (fuel : ℕ) (s : TcpSocket) (m : Memory) (addr size i total : ℕ)
    (wire : List ℕ) where
  abbrev send_from : Run (List ℕ)
  send_from = send_loop os (suc fuel) s m addr size i total wire

  pub send_full : ¬ (total < size) → send_from ≡ returned no_error send_op none total s wire
  unfolding send_loop
  send_full g = ground arith

  module _ (l : total < size) where
    pub send_closed :
        os i (size - total) ≡ moved 0
        → send_from ≡ returned closed send_op none total (mark_closed s) wire
    unfolding send_loop
    send_closed h = ground arith

    pub send_some :
        (n : ℕ)
        → os i (size - total) ≡ moved (suc n)
        → send_from
          ≡ send_loop os fuel s m addr size
              (suc i)
              (total + suc n)
              (wire ++ read_bytes m (addr + total) (suc n))
    unfolding send_loop
    send_some n h = ground arith

    pub send_again :
        (e : Errno)
        → os i (size - total) ≡ failed e
        → is_eintr e ≡ true
        → send_from ≡ send_loop os fuel s m addr size (suc i) total wire
    unfolding send_loop
    send_again e h t = ground arith

    pub send_broken :
        (e : Errno)
        → os i (size - total) ≡ failed e
        → is_eintr e ≡ false
        → send_from ≡ returned (map_err e) send_op (some e) total (after_send_error s e) wire
    unfolding send_loop
    send_broken e h f = ground arith

-- The system was given a prefix of the bytes at `addr`.
abbrev pub SendEnded : Calls → TcpSocket → Memory → ℕ → ℕ → Run (List ℕ) → Type 0
SendEnded os s m addr size = Ended os send_op (after_send_error s) s size (read_bytes m addr)

module _ (os : Calls) (bounded : Bounded os) (s : TcpSocket) (m : Memory) (addr size : ℕ) where
  abbrev given : ℕ → List ℕ
  given n = read_bytes m addr n

  abbrev Part : Run (List ℕ) → Type 0
  Part = SendEnded os s m addr size

  pub send_loop-Ended :
      (fuel i total : ℕ)
      → total ≤ size
      → Part (send_loop os fuel s m addr size i total (given total))
  unfolding send_loop
  send_loop-Ended zero i total le = in_progress total le
  send_loop-Ended (suc fuel) i total le = elim (dec_lt total size) [
    | no g ↦
        subst Part (sym (send_full os fuel s m addr size i total (given total) g))
          (subst (λ n. Part (returned no_error send_op none n s (given n))) (omega arith) all_moved)
    | yes l ↦ elim (Io-cases (os i (size - total))) [
      | inl (inl h) ↦
          subst Part (sym (send_closed os fuel s m addr size i total (given total) l h))
            (peer_closed i total l h)
      | inl (inr (n, h)) ↦
          subst Part
            (sym (
              send_some os fuel s m addr size i total (given total) l n h
              ∙ ap (send_loop os fuel s m addr size (suc i) (total + suc n))
                  (sym (read_bytes_add m addr total (suc n)))))
            (send_loop-Ended fuel (suc i) (total + suc n)
              (omega (arith, bounded i (size - total) (suc n) h)))
      | inr (e, h) ↦ elim (Bool-cases (is_eintr e)) [
        | inl t ↦
            subst Part (sym (send_again os fuel s m addr size i total (given total) l e h t))
              (send_loop-Ended fuel (suc i) total le)
        | inr f ↦
            subst Part (sym (send_broken os fuel s m addr size i total (given total) l e h f))
              (broken e i total l h f)
      ]
    ]
  ]

-- A loop that is given `k + 1` calls for each byte that is left, and those to the next call that is
-- not interrupted, returns.
pub send_loop_enough :
    (os : Calls) (k : ℕ)
    → Fair os k
    → (s : TcpSocket) (m : Memory) (addr size fuel i total left j : ℕ) (wire : List ℕ)
    → size ≤ total + left
    → Awake os (i + j)
    → left * suc k + suc j ≤ fuel
    → is_some (send_loop os fuel s m addr size i total wire).result ≡ true
send_loop_enough os k fair s m addr size zero i total left j wire le live enough =
    absurd (omega arith)
send_loop_enough os k fair s m addr size (suc fuel) i total left j wire le live enough =
    elim (dec_lt total size) [
      | no g ↦ ap is_done (send_full os fuel s m addr size i total wire g)
      | yes l ↦ elim (Io-cases (os i (size - total))) [
        | inl (inl h) ↦ ap is_done (send_closed os fuel s m addr size i total wire l h)
        | inl (inr (n, h)) ↦
            ap is_done (send_some os fuel s m addr size i total wire l n h)
            ∙ send_loop_enough os k fair s m addr size fuel (suc i) (total + suc n) (left - 1)
                (fair (suc i)).0 (wire ++ read_bytes m (addr + total) (suc n)) (omega arith)
                (fair (suc i)).2
                (omega (arith, (fair (suc i)).1, one_byte_less left k (omega arith)))
        | inr (e, h) ↦ elim (Bool-cases (is_eintr e)) [
          | inl t ↦
              let (x, q, later) = nearer os i j (size - total) e live h t in
              ap is_done (send_again os fuel s m addr size i total wire l e h t)
              ∙ send_loop_enough os k fair s m addr size fuel (suc i) total left x wire le later
                  (omega (arith, q))
          | inr f ↦ ap is_done (send_broken os fuel s m addr size i total wire l e h f)
        ]
      ]
    ]

module _ (os : Calls) (s : TcpSocket) (m : Memory) (addr size : ℕ) (up : is_connected s ≡ true)
    (pos : 0 < size) (small : size ≤ int32_max) where
  send_all_tried :
      (fuel : ℕ) → send_all os fuel s m addr size ≡ send_loop os fuel s m addr size 0 0 []
  unfolding send_all
  send_all_tried fuel = ground (arith, refused_lem s size up pos small)

  -- Sending all of 1 to 2 ^ 31 - 1 bytes on a connected socket hands the system a prefix of them and
  -- no other byte, whatever the calls give: the result is no error exactly for all of them, else the
  -- connection was closed or an error came that is no interruption, with the count in the result.
  pub send_all-Ended :
      (fuel : ℕ) → Bounded os → SendEnded os s m addr size (send_all os fuel s m addr size)
  unfolding read_bytes
  send_all-Ended fuel bounded =
      subst (SendEnded os s m addr size) (sym (send_all_tried fuel))
        (send_loop-Ended os bounded s m addr size fuel 0 0 (omega arith))

  -- If of any `k + 1` calls one is not interrupted, sending all of `size` bytes returns within
  -- `size * (k + 1) + k + 1` calls.
  pub send_all_returns :
      (k fuel : ℕ)
      → Fair os k
      → size * suc k + suc k ≤ fuel
      → is_done (send_all os fuel s m addr size) ≡ true
  send_all_returns k fuel fair enough =
      ap is_done (send_all_tried fuel)
      ∙ send_loop_enough os k fair s m addr size fuel 0 0 size (fair 0).0 [] (omega arith)
          (fair 0).2 (omega (arith, (fair 0).1))
