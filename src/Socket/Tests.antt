-- ===== src/Socket/Tests.antt =====
-- Examples of the theorems on sockets.
use netcomm.Prelude.{
  ℕ, zero, suc, ◌+◌, ◌≤◌, ◌<◌, ◌≡◌, refl, subst, ◌⊎◌, true, false, some, none, inl, inr, [], ◌∷◌,
  arith,
}
use netcomm.Memory.{Memory, buffer_of, read_bytes, write_bytes}
use netcomm.Socket.{
  Calls, moved, failed, eintr, TcpSocket, no_error, recv_op, send_all, recv_all, Errno, is_eintr,
  is_connected, handle_valid, send_loop, refused,
}
use netcomm.Socket
use netcomm.Socket.{ip, enotconn, einval}
use netcomm.Socket.Windows
use netcomm.Socket.Windows.Agreement.{
  calls_of, result_of, error_of, io_of, run_of, result_pair, kept_open, sockets_agree,
}
use netcomm.Socket.Transfer.{Awake, Reliable}
use netcomm.Socket.Sending.{SendEnded, send_all-Ended}
use netcomm.Socket.RoundTrip.{recv_all-send_all}

-- The first call is interrupted, the others move one byte each.
abbrev pub drip : Calls
drip zero r = failed eintr
drip (suc i) zero = moved 0
drip (suc i) (suc r) = moved 1

pub drip-Reliable : Reliable drip 1
drip-Reliable = record { bounded = bounded; fair = fair; healthy = healthy }
  where
    bounded : (i r n : ℕ) → drip i r ≡ moved n → n ≤ r
    bounded zero r n h = ground arith
    bounded (suc i) zero n h = ground arith
    bounded (suc i) (suc r) n h = ground arith

    awake : (i r : ℕ) (e : Errno) → drip (suc i) r ≡ failed e → is_eintr e ≡ false
    awake i zero e h = ground arith
    awake i (suc r) e h = ground arith

    fair : (i : ℕ) → (j : ℕ) × (j ≤ 1) × Awake drip (i + j)
    fair zero = (1, omega arith, awake 0)
    fair (suc i) = (0, omega arith, subst (Awake drip) {x = suc i} (omega arith) (awake i))

    healthy :
        (i r : ℕ)
        → 0 < r
        → ((n : ℕ) × (drip i r ≡ moved (suc n)))
          ⊎ ((e : Errno) × (drip i r ≡ failed e) × (is_eintr e ≡ true))
    healthy zero r pos = inr (eintr, refl, refl)
    healthy (suc i) zero pos = absurd (omega arith)
    healthy (suc i) (suc r) pos = inl (0, refl)

-- A connected socket, and five bytes to send.
abbrev pub live : TcpSocket
live = record { handle = 7; connected = true }

pub live_up : is_connected live ≡ true
unfolding is_connected handle_valid
live_up = refl

abbrev word : Memory
word = buffer_of (104 ∷ 101 ∷ 108 ∷ 108 ∷ 111 ∷ [])

word_sent : read_bytes word 0 5 ≡ (send_all drip 12 live word 0 5).moved_data
unfolding send_all send_loop refused read_bytes write_bytes is_connected
word_sent = refl

send_all-Ended_example : SendEnded drip live word 0 5 (send_all drip 3 live word 0 5)
send_all-Ended_example =
    send_all-Ended drip live word 0 5 live_up (omega arith) (omega arith) 3 drip-Reliable.bounded

recv_all-send_all_example :
    ((recv_all drip 12 live (λ a. 0) 40 5 word 0).result
      ≡ some (record { code = no_error; op = recv_op; sys_error = none; bytes = 5 }))
    × (read_bytes (recv_all drip 12 live (λ a. 0) 40 5 word 0).moved_data 40 5
        ≡ read_bytes word 0 5)
recv_all-send_all_example =
    recv_all-send_all drip drip live live word (λ a. 0) 0 40 1 5 12 word 0 drip-Reliable
      drip-Reliable live_up live_up (omega arith) (omega arith) (omega arith) word_sent

sockets_agree_example :
    (Windows.connect live (ip 16777343) none ≡ result_pair (Socket.connect live (ip 16777343) none))
    × (Windows.bind live (ip 16777343) none ≡ result_of (Socket.bind live (ip 16777343) none))
    × (Windows.listen 4096 live 0 (λ n. error_of (some einval))
        ≡ result_of (Socket.listen 4096 live 0 (λ n. some einval)))
    × (Windows.send_all (calls_of drip) 12 live word 0 5 ≡ run_of (send_all drip 12 live word 0 5))
    × (Windows.recv_all (calls_of drip) 12 live word 0 5 word 0
        ≡ run_of (recv_all drip 12 live word 0 5 word 0))
    × (Windows.send live word 0 5 (io_of (failed enotconn))
        ≡ kept_open live 5 (failed enotconn) (run_of (Socket.send live word 0 5 (failed enotconn))))
sockets_agree_example =
    sockets_agree live word 0 5 (ip 16777343) none drip (failed enotconn) 12 word 0 4096 0
      (λ n. some einval)
