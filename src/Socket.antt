-- ===== src/Socket.antt =====
-- eROIL/src/socket: socket_result.h, linux/linux_map_err.cpp, tcp_socket.h, linux/linux_tcp_socket.cpp
-- linux/linux_tcp_client.cpp and linux/linux_tcp_server.cpp, the sockets of Linux.
-- The calls of the operating system are parameters: a count of bytes moved, or an error number. The
-- calls of one loop are a function of the number of the call and of the size asked for. A loop runs
-- on fuel, the number of calls; a run whose fuel ends first is one that has not returned yet.
-- Error numbers are told apart by name, as the switches do; `sys_error` is none for 0.
mod Results
pub mod Transfer
pub mod Sending
pub mod Receiving
pub mod RoundTrip
pub mod Windows
pub mod Tests
use netcomm.Prelude.{
  ℕ, zero, suc, ◌+◌, ◌-◌, Bool, true, false, not, ◌&&◌, ◌||◌, Option, none, some, List, [], ◌++◌,
  ◌==◌, if◌then◌else◌, ltb,
}
use netcomm.Memory.{Memory, read_bytes, write_bytes}
unfoldable pub use Results.*

-- The pattern of -1.
abbrev pub invalid_socket : ℕ
invalid_socket = 0xffffffff

pub record TcpSocket : Type 0 where
  pub handle : ℕ
  pub connected : Bool

-- The constructor, and what a move leaves behind.
unfoldable pub new_socket : TcpSocket
new_socket = record { handle = invalid_socket; connected = false }

unfoldable pub move_assign : TcpSocket → TcpSocket × TcpSocket
move_assign other = (other, record { handle = invalid_socket; connected = false })

unfoldable pub handle_valid : TcpSocket → Bool
handle_valid s = not (s.handle == invalid_socket)

unfoldable pub is_connected : TcpSocket → Bool
unfolding handle_valid
is_connected s = s.connected && handle_valid s

-- What a system call gives that makes a descriptor, or that only succeeds or fails.
pub data Made : Type 0 where
  made : ℕ → Made
  not_made : Errno → Made

abbrev pub sys_failed : Errno → SockOp → SockResult
sys_failed e o = record { code = map_err e; op = o; sys_error = some e; bytes = 0 }

unfoldable pub open_socket : TcpSocket → Made → TcpSocket × SockResult
unfolding handle_valid
open_socket s os = if handle_valid s then (s, plain double_open open_op) else elim os [
  | made fd ↦ (record s { handle = fd }, plain no_error open_op)
  | not_made e ↦ (s, record { code = map_err e; op = open_op; sys_error = some e; bytes = 0 })
]

unfoldable pub shutdown : TcpSocket → TcpSocket
shutdown s = record s { connected = false }

unfoldable pub close : TcpSocket → TcpSocket
close s = record { handle = invalid_socket; connected = false }

unfoldable pub adopt : TcpSocket → ℕ → Bool → TcpSocket
unfolding close
adopt s fd is_up = record (close s) { handle = fd; connected = is_up }

unfoldable pub disconnect : TcpSocket → TcpSocket
unfolding shutdown close
disconnect s = close (shutdown s)

-- An address as `connect` sees it: missing or empty, not an address of IPv4, or one.
pub data IpText : Type 0 where
  no_ip bad_ip : IpText
  ip : ℕ → IpText

-- `os` is what the system's `connect` gives, none for success.
unfoldable pub connect : TcpSocket → IpText → Option Errno → TcpSocket × SockResult
unfolding handle_valid is_connected
connect s addr os =
    if not (handle_valid s)
    then (s, plain invalid_handle connect_op)
    else if is_connected s
    then (s, plain already_connected connect_op)
    else elim addr [
      | no_ip ↦ (s, plain invalid_ip connect_op)
      | bad_ip ↦ (s, plain invalid_ip connect_op)
      | ip a ↦ elim os [
        | some e ↦ (s, record { code = map_err e; op = connect_op; sys_error = some e; bytes = 0 })
        | none ↦ (record s { connected = true }, plain no_error connect_op)
      ]
    ]

unfoldable pub open_and_connect : TcpSocket → Made → IpText → Option Errno → TcpSocket × SockResult
unfolding open_socket connect ok
open_and_connect s os_open addr os_connect =
    let (t, r) = open_socket s os_open in if not (ok r) then (t, r) else connect t addr os_connect

-- What `send` and `recv` of the system give.
pub data Io : Type 0 where
  moved : ℕ → Io
  failed : Errno → Io

abbrev pub int32_max : ℕ
int32_max = 0x7fffffff

-- The checks that the four transfers begin with.
unfoldable pub refused : TcpSocket → ℕ → Option SockErr
unfolding is_connected
refused s size =
    if not (is_connected s)
    then some not_connected
    else if size == 0
    then some size_zero
    else if ltb int32_max size
    then some size_too_large
    else none

-- A transfer so far: its result once it has returned, the socket, and what it has moved: the bytes
-- given to the system, or the client's memory.
pub record Run {ℓ} (A : Type ℓ) : Type ℓ where
  pub result : Option SockResult
  pub sock : TcpSocket
  pub moved_data : A

abbrev pub returned {ℓ} : {A : Type ℓ} → SockErr → SockOp → Option Errno → ℕ → TcpSocket → A → Run A
returned e o sys n s a = record {
  result = some (record { code = e; op = o; sys_error = sys; bytes = n });
  sock = s;
  moved_data = a;
}

abbrev pub mark_closed : TcpSocket → TcpSocket
mark_closed s = record s { connected = false }

abbrev pub after_send_error : TcpSocket → Errno → TcpSocket
after_send_error s e = if is_fatal_send_err e then mark_closed s else s

unfoldable pub send : TcpSocket → Memory → ℕ → ℕ → Io → Run (List ℕ)
unfolding refused
send s m addr size os = elim (refused s size) [
  | some e ↦ returned e send_op none 0 s []
  | none ↦ elim os [
    | moved zero ↦ returned closed send_op none 0 (mark_closed s) []
    | moved (suc n) ↦ returned no_error send_op none (suc n) s (read_bytes m addr (suc n))
    | failed e ↦ returned (map_err e) send_op (some e) 0 (after_send_error s e) []
  ]
]

unfoldable pub recv : TcpSocket → Memory → ℕ → ℕ → Memory → ℕ → Io → Run Memory
unfolding refused
recv s m addr size stream pos os = elim (refused s size) [
  | some e ↦ returned e recv_op none 0 s m
  | none ↦ elim os [
    | moved zero ↦ returned closed recv_op none 0 (mark_closed s) m
    | moved (suc n) ↦
        returned no_error recv_op none (suc n) s
          (write_bytes m addr (read_bytes stream pos (suc n)))
    | failed e ↦ returned (map_err e) recv_op (some e) 0 s m
  ]
]

-- The calls of one loop: `os i n` is what call `i` gives when it is asked to move `n` bytes.
abbrev pub Calls : Type 0
Calls = ℕ → ℕ → Io

-- The loop of `send_all` from call `i`, with `total` bytes sent and `wire` given to the system.
unfoldable pub send_loop : Calls → ℕ → TcpSocket → Memory → ℕ → ℕ → ℕ → ℕ → List ℕ → Run (List ℕ)
send_loop os zero s m addr size i total wire = record { result = none; sock = s; moved_data = wire }
send_loop os (suc fuel) s m addr size i total wire =
    if not (ltb total size)
    then returned no_error send_op none total s wire
    else elim (os i (size - total)) [
      | moved zero ↦ returned closed send_op none total (mark_closed s) wire
      | moved (suc n) ↦
          send_loop os fuel s m addr size (suc i) (total + suc n)
            (wire ++ read_bytes m (addr + total) (suc n))
      | failed e ↦
          if is_eintr e
          then send_loop os fuel s m addr size (suc i) total wire
          else returned (map_err e) send_op (some e) total (after_send_error s e) wire
    ]

unfoldable pub send_all : Calls → ℕ → TcpSocket → Memory → ℕ → ℕ → Run (List ℕ)
unfolding refused send_loop
send_all os fuel s m addr size = elim (refused s size) [
  | some e ↦ returned e send_op none 0 s []
  | none ↦ send_loop os fuel s m addr size 0 0 []
]

-- The loop of `recv_all` from call `i`, with `total` bytes received. `stream` is what the peer sends
-- on this connection, of which `pos` bytes were received before: a call gives the next ones.
unfoldable pub recv_loop : Calls → ℕ → TcpSocket → Memory → ℕ → ℕ → Memory → ℕ → ℕ → ℕ → Run Memory
recv_loop os zero s m addr size stream pos i total = record {
  result = none;
  sock = s;
  moved_data = m;
}
recv_loop os (suc fuel) s m addr size stream pos i total =
    if not (ltb total size)
    then returned no_error recv_op none total s m
    else elim (os i (size - total)) [
      | moved zero ↦ returned closed recv_op none total (mark_closed s) m
      | moved (suc n) ↦
          recv_loop os fuel s
            (write_bytes m (addr + total) (read_bytes stream (pos + total) (suc n))) addr size
            stream pos (suc i) (total + suc n)
      | failed e ↦
          if is_eintr e
          then recv_loop os fuel s m addr size stream pos (suc i) total
          else returned (map_err e) recv_op (some e) total s m
    ]

unfoldable pub recv_all : Calls → ℕ → TcpSocket → Memory → ℕ → ℕ → Memory → ℕ → Run Memory
unfolding refused recv_loop
recv_all os fuel s m addr size stream pos = elim (refused s size) [
  | some e ↦ returned e recv_op none 0 s m
  | none ↦ recv_loop os fuel s m addr size stream pos 0 0
]

-- The server (linux_tcp_server.cpp): `bind` and `listen` with what the system's call gives, none for
-- success; `os n` is what `listen` gives with a backlog of `n`.
unfoldable pub bind : TcpSocket → IpText → Option Errno → SockResult
unfolding handle_valid
bind s addr os = if not (handle_valid s) then plain invalid_handle bind_op else elim addr [
  | no_ip ↦ plain invalid_ip bind_op
  | bad_ip ↦ plain invalid_ip bind_op
  | ip a ↦ elim os [ none ↦ plain no_error bind_op | some e ↦ sys_failed e bind_op ]
]

unfoldable pub listen : ℕ → TcpSocket → ℕ → (ℕ → Option Errno) → SockResult
unfolding handle_valid
listen somaxconn s backlog os =
    if not (handle_valid s)
    then plain invalid_handle listen_op
    else elim (os (if backlog == 0 then somaxconn else backlog)) [
      | none ↦ plain no_error listen_op
      | some e ↦ sys_failed e listen_op
    ]

-- TCPServer::accept (linux_tcp_server.cpp) on the listening socket. EBADF, which is told apart from
-- the other errors here only, is the flag of `not_accepted`.
pub data Accepted : Type 0 where
  accepted : ℕ → Accepted
  not_accepted : Errno → Bool → Accepted

abbrev is_enotsock : Errno → Bool
is_enotsock enotsock = true
is_enotsock _ = false

unfoldable pub accept : TcpSocket → Accepted → Option TcpSocket × SockResult
unfolding handle_valid adopt new_socket
accept server os =
    if not (handle_valid server) then (none, plain invalid_handle accept_op) else elim os [
      | accepted fd ↦ (some (adopt new_socket fd true), plain no_error accept_op)
      | not_accepted e is_ebadf ↦ (
        none,
        record {
          code = if is_ebadf || is_enotsock e then closed else map_err e;
          op = accept_op;
          sys_error = some e;
          bytes = 0;
        },
      )
    ]
