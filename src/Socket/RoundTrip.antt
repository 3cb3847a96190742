-- ===== src/Socket/RoundTrip.antt =====
-- send_all on one socket and recv_all on its peer (linux_tcp_client.cpp).
use netcomm.Prelude.{ℕ, suc, ◌+◌, ◌*◌, ◌≤◌, ◌<◌, ◌≡◌, true, ap, sym, ◌∙◌, none, some}
use netcomm.Memory.{Memory, read_bytes, write_bytes, length-read_bytes, read_bytes-write_bytes}
use netcomm.Socket.{
  Calls, TcpSocket, is_connected, int32_max, send_all, recv_all, no_error, send_op, recv_op,
  returned, after_send_error,
}
use netcomm.Socket.Transfer.{Reliable, Healthy-all_moved}
use netcomm.Socket.Sending.{send_all-Ended, send_all_returns}
use netcomm.Socket.Receiving.{recv_all-Ended, recv_all_returns}

module _ (k size fuel : ℕ) (pos : 0 < size) (small : size ≤ int32_max)
    (enough : size * suc k + suc k ≤ fuel) where
  pub send_all_complete :
      (os : Calls) (s : TcpSocket) (m : Memory) (addr : ℕ)
      → Reliable os k
      → is_connected s ≡ true
      → send_all os fuel s m addr size
        ≡ returned no_error send_op none size s (read_bytes m addr size)
  send_all_complete os s m addr rel up =
      Healthy-all_moved os send_op (after_send_error s) s size (read_bytes m addr)
        (send_all os fuel s m addr size) rel.healthy
        (send_all-Ended os s m addr size up pos small fuel rel.bounded)
        (send_all_returns os s m addr size up pos small k fuel rel.fair enough)

  pub recv_all_complete :
      (os : Calls) (s : TcpSocket) (m : Memory) (addr : ℕ) (stream : Memory) (at : ℕ)
      → Reliable os k
      → is_connected s ≡ true
      → recv_all os fuel s m addr size stream at
        ≡ returned no_error recv_op none size s (write_bytes m addr (read_bytes stream at size))
  recv_all_complete os s m addr stream at rel up =
      Healthy-all_moved os recv_op (λ e. s) s size
        (λ n. write_bytes m addr (read_bytes stream at n))
        (recv_all os fuel s m addr size stream at) rel.healthy
        (recv_all-Ended os s m addr size stream at up pos small fuel rel.bounded)
        (recv_all_returns os s m addr size stream at up pos small k fuel rel.fair enough)

-- On two connected sockets whose calls move at least a byte or are interrupted, and at most `k` times
-- in a row, a stream that carries at `at` what `send_all` handed to the system gives `recv_all`, in
-- the calls that are enough, no error and exactly the sender's bytes in the receiver's memory.
pub recv_all-send_all :
    (send_os recv_os : Calls) (s t : TcpSocket) (m m' : Memory) (src dst k size fuel : ℕ)
    (stream : Memory) (at : ℕ)
    → Reliable send_os k
    → Reliable recv_os k
    → is_connected s ≡ true
    → is_connected t ≡ true
    → 0 < size
    → size ≤ int32_max
    → size * suc k + suc k ≤ fuel
    → read_bytes stream at size ≡ (send_all send_os fuel s m src size).moved_data
    → ((recv_all recv_os fuel t m' dst size stream at).result
        ≡ some (record { code = no_error; op = recv_op; sys_error = none; bytes = size }))
      × (read_bytes (recv_all recv_os fuel t m' dst size stream at).moved_data dst size
          ≡ read_bytes m src size)
recv_all-send_all send_os recv_os s t m m' src dst k size fuel stream at rel rel' up up' pos small
      enough carried =
    let sent = send_all_complete k size fuel pos small enough send_os s m src rel up in
    let got = recv_all_complete k size fuel pos small enough recv_os t m' dst stream at rel' up' in
    (
      ap (λ r. r.result) got,
      ap (λ r. read_bytes r.moved_data dst size) got
          ∙ ap (λ n. read_bytes (write_bytes m' dst (read_bytes stream at size)) dst n)
              (sym (length-read_bytes stream at size))
          ∙ read_bytes-write_bytes m' dst (read_bytes stream at size)
          ∙ carried
          ∙ ap (λ r. r.moved_data) sent,
    )
