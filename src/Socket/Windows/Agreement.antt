-- ===== src/Socket/Windows/Agreement.antt =====
-- The sockets of Windows and of Linux under the correspondence of their error numbers.
use netcomm.Prelude.{
  ℕ, zero, suc, ◌+◌, ◌-◌, ◌≡◌, refl, true, false, not, ◌&&◌, Option, none, some, List, [], ◌++◌,
  ◌==◌, if◌then◌else◌, ltb, arith, Bool-cases, inl, inr, Option-cases,
}
use netcomm.Memory.{Memory, read_bytes, write_bytes}
use netcomm.Socket
use netcomm.Socket.{
  Errno, enotsock, einval, enotconn, eisconn, eshutdown, econnreset, eaddrinuse, eaddrnotavail,
  eacces, econnrefused, etimedout, ehostunreach, enetunreach, enobufs, emfile, enfile, ewouldblock,
  econnaborted, enetdown, enetreset, eintr, other_errno, is_eintr, SockResult, TcpSocket, refused,
  IpText, no_ip, bad_ip, ip, handle_valid, is_connected,
}
use netcomm.Socket.Windows
use netcomm.Socket.Windows.{
  WsaError, wsaenotsock, wsaeinval, wsaenotconn, wsaeisconn, wsaeshutdown, wsaeconnreset,
  wsaeaddrinuse, wsaeaddrnotavail, wsaeacces, wsaeconnrefused, wsaetimedout, wsaehostunreach,
  wsaenetunreach, wsaenobufs, wsaemfile, wsaewouldblock, wsaeconnaborted, wsaenetdown, wsaenetreset,
  wsaeintr, other_wsa, is_wsaeintr, is_wsaeconnreset, WsaResult,
}

-- The error of Windows for one of Linux. ENFILE has none of its own.
pub wsa_of : Errno → WsaError
wsa_of enotsock = wsaenotsock
wsa_of einval = wsaeinval
wsa_of enotconn = wsaenotconn
wsa_of eisconn = wsaeisconn
wsa_of eshutdown = wsaeshutdown
wsa_of econnreset = wsaeconnreset
wsa_of eaddrinuse = wsaeaddrinuse
wsa_of eaddrnotavail = wsaeaddrnotavail
wsa_of eacces = wsaeacces
wsa_of econnrefused = wsaeconnrefused
wsa_of etimedout = wsaetimedout
wsa_of ehostunreach = wsaehostunreach
wsa_of enetunreach = wsaenetunreach
wsa_of enobufs = wsaenobufs
wsa_of emfile = wsaemfile
wsa_of enfile = wsaemfile
wsa_of ewouldblock = wsaewouldblock
wsa_of econnaborted = wsaeconnaborted
wsa_of enetdown = wsaenetdown
wsa_of enetreset = wsaenetreset
wsa_of eintr = wsaeintr
wsa_of (other_errno n) = other_wsa n

-- The two systems' errors mean the same to the code.
pub same_error :
    (e : Errno)
    → (Windows.map_err (wsa_of e) ≡ Socket.map_err e)
      × (Windows.is_fatal_send_err (wsa_of e) ≡ Socket.is_fatal_send_err e)
      × (is_wsaeintr (wsa_of e) ≡ is_eintr e)
      × (is_wsaeconnreset (wsa_of e) && not (Socket.is_fatal_send_err e) ≡ false)
unfolding wsa_of Windows.map_err Socket.map_err Windows.is_fatal_send_err Socket.is_fatal_send_err
same_error enotsock = (refl, refl, refl, refl)
same_error einval = (refl, refl, refl, refl)
same_error enotconn = (refl, refl, refl, refl)
same_error eisconn = (refl, refl, refl, refl)
same_error eshutdown = (refl, refl, refl, refl)
same_error econnreset = (refl, refl, refl, refl)
same_error eaddrinuse = (refl, refl, refl, refl)
same_error eaddrnotavail = (refl, refl, refl, refl)
same_error eacces = (refl, refl, refl, refl)
same_error econnrefused = (refl, refl, refl, refl)
same_error etimedout = (refl, refl, refl, refl)
same_error ehostunreach = (refl, refl, refl, refl)
same_error enetunreach = (refl, refl, refl, refl)
same_error enobufs = (refl, refl, refl, refl)
same_error emfile = (refl, refl, refl, refl)
same_error enfile = (refl, refl, refl, refl)
same_error ewouldblock = (refl, refl, refl, refl)
same_error econnaborted = (refl, refl, refl, refl)
same_error enetdown = (refl, refl, refl, refl)
same_error enetreset = (refl, refl, refl, refl)
same_error eintr = (refl, refl, refl, refl)
same_error (other_errno n) = (refl, refl, refl, refl)

abbrev pub io_of : Socket.Io → Windows.Io
io_of (Socket.moved n) = Windows.moved n
io_of (Socket.failed e) = Windows.failed (wsa_of e)

abbrev pub error_of : Option Errno → Option WsaError
error_of none = none
error_of (some e) = some (wsa_of e)

-- A result and a run as Windows has them.
abbrev pub result_of : SockResult → WsaResult
result_of r = record { code = r.code; op = r.op; sys_error = error_of r.sys_error; bytes = r.bytes }

abbrev result_if : Option SockResult → Option WsaResult
result_if none = none
result_if (some r) = some (result_of r)

abbrev pub run_of {ℓ} : {A : Type ℓ} → Socket.Run A → Windows.Run A
run_of r = record { result = result_if r.result; sock = r.sock; moved_data = r.moved_data }

-- The calls of Windows that do what those of Linux do.
abbrev pub calls_of : Socket.Calls → Windows.Calls
calls_of os i n = io_of (os i n)

module _ (os : Socket.Calls) (s : TcpSocket) (m : Memory) (addr size : ℕ) where
  SendAgrees : ℕ → ℕ → ℕ → List ℕ → Type 0
  SendAgrees fuel i total wire =
      Windows.send_loop (calls_of os) fuel s m addr size i total wire
      ≡ run_of (Socket.send_loop os fuel s m addr size i total wire)

  send_call_agrees :
      (fuel i total : ℕ) (wire : List ℕ) (c : Socket.Io)
      → os i (size - total) ≡ c
      → ltb total size ≡ true
      → ((j t : ℕ) (w : List ℕ) → SendAgrees fuel j t w)
      → SendAgrees (suc fuel) i total wire
  unfolding Windows.send_loop Socket.send_loop SendAgrees
  send_call_agrees fuel i total wire (Socket.moved zero) e more rest = rw (more, e) refl
  send_call_agrees fuel i total wire (Socket.moved (suc n)) e more rest =
      rw (more, e) (rest (suc i) (total + suc n) (wire ++ read_bytes m (addr + total) (suc n)))
  send_call_agrees fuel i total wire (Socket.failed err) e more rest =
      elim (Bool-cases (is_eintr err)) [
        | inl retried ↦ rw (more, e, (same_error err).2, retried) (rest (suc i) total wire)
        | inr ended ↦
            rw (more, e, (same_error err).2, ended, (same_error err).0, (same_error err).1) refl
      ]

  send_loop_agrees : (fuel i total : ℕ) (wire : List ℕ) → SendAgrees fuel i total wire
  unfolding Windows.send_loop Socket.send_loop SendAgrees
  send_loop_agrees zero i total wire = refl
  send_loop_agrees (suc fuel) i total wire = elim (Bool-cases (ltb total size)) [
    | inr end ↦ rw end refl
    | inl more ↦
        send_call_agrees fuel i total wire (os i (size - total)) refl more
          (λ j t w. send_loop_agrees fuel j t w)
  ]

  send_all_agrees :
      (fuel : ℕ)
      → Windows.send_all (calls_of os) fuel s m addr size
        ≡ run_of (Socket.send_all os fuel s m addr size)
  unfolding Windows.send_all Socket.send_all SendAgrees
  send_all_agrees fuel = elim (Option-cases (refused s size)) [
    | inl e ↦ rw (Windows.send_all, Socket.send_all, e) (send_loop_agrees fuel 0 0 [])
    | inr (err, e) ↦ rw (Windows.send_all, Socket.send_all, e) refl
  ]

module _ (os : Socket.Calls) (s : TcpSocket) (addr size : ℕ) (stream : Memory) (pos : ℕ) where
  RecvAgrees : ℕ → Memory → ℕ → ℕ → Type 0
  RecvAgrees fuel m i total =
      Windows.recv_loop (calls_of os) fuel s m addr size stream pos i total
      ≡ run_of (Socket.recv_loop os fuel s m addr size stream pos i total)

  recv_call_agrees :
      (fuel : ℕ) (m : Memory) (i total : ℕ) (c : Socket.Io)
      → os i (size - total) ≡ c
      → ltb total size ≡ true
      → ((k : Memory) (j t : ℕ) → RecvAgrees fuel k j t)
      → RecvAgrees (suc fuel) m i total
  unfolding Windows.recv_loop Socket.recv_loop RecvAgrees
  recv_call_agrees fuel m i total (Socket.moved zero) e more rest = rw (more, e) refl
  recv_call_agrees fuel m i total (Socket.moved (suc n)) e more rest =
      rw (more, e)
        (rest (write_bytes m (addr + total) (read_bytes stream (pos + total) (suc n))) (suc i)
          (total + suc n))
  recv_call_agrees fuel m i total (Socket.failed err) e more rest =
      elim (Bool-cases (is_eintr err)) [
        | inl retried ↦ rw (more, e, (same_error err).2, retried) (rest m (suc i) total)
        | inr ended ↦ rw (more, e, (same_error err).2, ended, (same_error err).0) refl
      ]

  recv_loop_agrees : (fuel : ℕ) (m : Memory) (i total : ℕ) → RecvAgrees fuel m i total
  unfolding Windows.recv_loop Socket.recv_loop RecvAgrees
  recv_loop_agrees zero m i total = refl
  recv_loop_agrees (suc fuel) m i total = elim (Bool-cases (ltb total size)) [
    | inr end ↦ rw end refl
    | inl more ↦
        recv_call_agrees fuel m i total (os i (size - total)) refl more
          (λ k j t. recv_loop_agrees fuel k j t)
  ]

  recv_all_agrees :
      (fuel : ℕ) (m : Memory)
      → Windows.recv_all (calls_of os) fuel s m addr size stream pos
        ≡ run_of (Socket.recv_all os fuel s m addr size stream pos)
  unfolding Windows.recv_all Socket.recv_all RecvAgrees
  recv_all_agrees fuel m = elim (Option-cases (refused s size)) [
    | inl e ↦ rw (Windows.recv_all, Socket.recv_all, e) (recv_loop_agrees fuel m 0 0)
    | inr (err, e) ↦ rw (Windows.recv_all, Socket.recv_all, e) refl
  ]

-- The socket after a single `send` on Windows: an error other than WSAECONNRESET leaves it as it was.
abbrev pub kept_open : TcpSocket → ℕ → Socket.Io → Windows.Run (List ℕ) → Windows.Run (List ℕ)
kept_open s size (Socket.moved n) r = r
kept_open s size (Socket.failed e) r =
    if is_wsaeconnreset (wsa_of e) then r else record r { sock = s }

reset_is_fatal :
    (e : Errno) → is_wsaeconnreset (wsa_of e) ≡ true → Socket.is_fatal_send_err e ≡ true
reset_is_fatal e reset = ground (arith, same_error e)

send_once :
    (s : TcpSocket) (m : Memory) (addr size : ℕ) (os : Socket.Io)
    → Windows.send s m addr size (io_of os)
      ≡ kept_open s size os (run_of (Socket.send s m addr size os))
unfolding Windows.send Socket.send
send_once s m addr size (Socket.moved zero) = ground arith
send_once s m addr size (Socket.moved (suc n)) = ground arith
send_once s m addr size (Socket.failed e) = elim (Option-cases (refused s size)) [
  | inr (err, r) ↦ elim (Bool-cases (is_wsaeconnreset (wsa_of e))) [
    | inl reset ↦ rw (Windows.send, Socket.send, r, reset) refl
    | inr other ↦ rw (Windows.send, Socket.send, r, other) refl
  ]
  | inl r ↦ elim (Bool-cases (is_wsaeconnreset (wsa_of e))) [
    | inl reset ↦
        rw (Windows.send, Socket.send, r, reset, (same_error e).0, reset_is_fatal e reset) refl
    | inr other ↦ rw (Windows.send, Socket.send, r, other, (same_error e).0) refl
  ]
]

pub result_pair : TcpSocket × SockResult → TcpSocket × WsaResult
result_pair (s, r) = (s, result_of r)

connect_agrees :
    (s : TcpSocket) (addr : IpText) (os : Option Errno)
    → Windows.connect s addr (error_of os) ≡ result_pair (Socket.connect s addr os)
unfolding Windows.connect Socket.connect result_pair
connect_agrees s no_ip os = ground arith
connect_agrees s bad_ip os = ground arith
connect_agrees s (ip a) none = ground arith
connect_agrees s (ip a) (some e) = ground (arith, same_error e)

bind_agrees :
    (s : TcpSocket) (addr : IpText) (os : Option Errno)
    → Windows.bind s addr (error_of os) ≡ result_of (Socket.bind s addr os)
unfolding Windows.bind Socket.bind
bind_agrees s no_ip os = ground arith
bind_agrees s bad_ip os = ground arith
bind_agrees s (ip a) none = ground arith
bind_agrees s (ip a) (some e) = ground (arith, same_error e)

listen_on :
    (somaxconn : ℕ) (s : TcpSocket) (backlog : ℕ) (os : ℕ → Option Errno) (o : Option Errno)
    → os (if backlog == 0 then somaxconn else backlog) ≡ o
    → Windows.listen somaxconn s backlog (λ n. error_of (os n))
      ≡ result_of (Socket.listen somaxconn s backlog os)
unfolding Windows.listen Socket.listen
listen_on somaxconn s backlog os none e = ground (arith, e)
listen_on somaxconn s backlog os (some err) e = ground (arith, e, same_error err)

module _ (s : TcpSocket) (m : Memory) (addr size : ℕ) where
  -- If each call of Windows does what the call of Linux does, with the error that corresponds, then
  -- connect, bind, listen, send_all and recv_all of Windows have the results of those of Linux, with the
  -- corresponding error, move the same bytes and leave the same socket, for any number of calls; a
  -- single send does too, but that it leaves the socket as it was on every error but WSAECONNRESET.
  pub sockets_agree :
      (ip_text : IpText) (connected : Option Errno) (os : Socket.Calls) (once : Socket.Io)
      (fuel : ℕ) (stream : Memory) (pos somaxconn backlog : ℕ) (listens : ℕ → Option Errno)
      → (Windows.connect s ip_text (error_of connected)
          ≡ result_pair (Socket.connect s ip_text connected))
        × (Windows.bind s ip_text (error_of connected)
            ≡ result_of (Socket.bind s ip_text connected))
        × (Windows.listen somaxconn s backlog (λ n. error_of (listens n))
            ≡ result_of (Socket.listen somaxconn s backlog listens))
        × (Windows.send_all (calls_of os) fuel s m addr size
            ≡ run_of (Socket.send_all os fuel s m addr size))
        × (Windows.recv_all (calls_of os) fuel s m addr size stream pos
            ≡ run_of (Socket.recv_all os fuel s m addr size stream pos))
        × (Windows.send s m addr size (io_of once)
            ≡ kept_open s size once (run_of (Socket.send s m addr size once)))
  sockets_agree ip_text connected os once fuel stream pos somaxconn backlog listens = (
    connect_agrees s ip_text connected,
    bind_agrees s ip_text connected,
    listen_on somaxconn s backlog listens _ refl,
    send_all_agrees os s m addr size fuel,
    recv_all_agrees os s addr size stream pos fuel m,
    send_once s m addr size once,
  )
