-- ===== src/Socket/Windows.antt =====
-- eROIL/src/socket/win: win_map_err.cpp, win_tcp_socket.cpp, win_tcp_client.cpp and win_tcp_server.cpp,
-- the sockets of Windows, with the conventions of the ones of Linux.
pub mod Agreement
use netcomm.Prelude.{
  ℕ, zero, suc, ◌+◌, ◌-◌, Bool, true, false, not, ◌||◌, Option, none, some, List, [], ◌++◌, ◌==◌,
  if◌then◌else◌, ltb,
}
use netcomm.Memory.{Memory, read_bytes, write_bytes}
use netcomm.Socket.{
  SockErr, no_error, not_initialized, invalid_handle, invalid_argument, not_connected,
  already_connected, closed, shut_down, address_in_use, address_not_available, permission_denied,
  connection_refused, timed_out, unreachable, resource_exhausted, would_block, double_open,
  invalid_ip, unknown, SockOp, open_op, bind_op, listen_op, accept_op, connect_op, send_op, recv_op,
  TcpSocket, invalid_socket, handle_valid, is_connected, adopt, new_socket, IpText, no_ip, bad_ip,
  ip, refused, mark_closed,
}

pub data WsaError : Type 0 where
  wsanotinitialised wsaenotsock wsaeinval wsaenotconn wsaeisconn wsaeshutdown wsaeconnreset :
      WsaError
  wsaeaddrinuse wsaeaddrnotavail wsaeacces wsaeconnrefused wsaetimedout wsaehostunreach : WsaError
  wsaenetunreach wsaenobufs wsaemfile wsaewouldblock wsaeconnaborted wsaenetdown : WsaError
  wsaenetreset wsaeintr : WsaError
  other_wsa : ℕ → WsaError

unfoldable pub map_err : WsaError → SockErr
map_err wsanotinitialised = not_initialized
map_err wsaenotsock = invalid_handle
map_err wsaeinval = invalid_argument
map_err wsaenotconn = not_connected
map_err wsaeisconn = already_connected
map_err wsaeshutdown = shut_down
map_err wsaeconnreset = closed
map_err wsaeaddrinuse = address_in_use
map_err wsaeaddrnotavail = address_not_available
map_err wsaeacces = permission_denied
map_err wsaeconnrefused = connection_refused
map_err wsaetimedout = timed_out
map_err wsaehostunreach = unreachable
map_err wsaenetunreach = unreachable
map_err wsaenobufs = resource_exhausted
map_err wsaemfile = resource_exhausted
map_err wsaewouldblock = would_block
map_err _ = unknown

unfoldable pub is_fatal_send_err : WsaError → Bool
is_fatal_send_err wsaeconnreset = true
is_fatal_send_err wsaenotconn = true
is_fatal_send_err wsaeshutdown = true
is_fatal_send_err wsaeconnaborted = true
is_fatal_send_err wsaehostunreach = true
is_fatal_send_err wsaenetdown = true
is_fatal_send_err wsaenetreset = true
is_fatal_send_err wsaenetunreach = true
is_fatal_send_err _ = false

abbrev pub is_wsaeintr : WsaError → Bool
is_wsaeintr wsaeintr = true
is_wsaeintr _ = false

abbrev pub is_wsaeconnreset : WsaError → Bool
is_wsaeconnreset wsaeconnreset = true
is_wsaeconnreset _ = false

-- A SockResult with an error number of Windows.
pub record WsaResult : Type 0 where
  pub code : SockErr
  pub op : SockOp
  pub sys_error : Option WsaError
  pub bytes : ℕ

abbrev pub plain : SockErr → SockOp → WsaResult
plain e o = record { code = e; op = o; sys_error = none; bytes = 0 }

abbrev pub sys_failed : WsaError → SockOp → WsaResult
sys_failed e o = record { code = map_err e; op = o; sys_error = some e; bytes = 0 }

pub data Made : Type 0 where
  made : ℕ → Made
  not_made : WsaError → Made

unfoldable pub open_socket : TcpSocket → Made → TcpSocket × WsaResult
unfolding handle_valid map_err
open_socket s os = if handle_valid s then (s, plain double_open open_op) else elim os [
  | made fd ↦ (record s { handle = fd }, plain no_error open_op)
  | not_made e ↦ (record s { handle = invalid_socket }, sys_failed e open_op)
]

unfoldable pub shutdown : TcpSocket → TcpSocket
shutdown s = record s { connected = false }

unfoldable pub close : TcpSocket → TcpSocket
close s = record { handle = invalid_socket; connected = false }

unfoldable pub connect : TcpSocket → IpText → Option WsaError → TcpSocket × WsaResult
unfolding handle_valid is_connected map_err
connect s addr os =
    if not (handle_valid s)
    then (s, plain invalid_handle connect_op)
    else if is_connected s
    then (s, plain already_connected connect_op)
    else elim addr [
      | no_ip ↦ (s, plain invalid_ip connect_op)
      | bad_ip ↦ (s, plain invalid_ip connect_op)
      | ip a ↦ elim os [
        | some e ↦ (s, sys_failed e connect_op)
        | none ↦ (record s { connected = true }, plain no_error connect_op)
      ]
    ]

pub data Io : Type 0 where
  moved : ℕ → Io
  failed : WsaError → Io

pub record Run {ℓ} (A : Type ℓ) : Type ℓ where
  pub result : Option WsaResult
  pub sock : TcpSocket
  pub moved_data : A

abbrev pub returned {ℓ} :
    {A : Type ℓ} → SockErr → SockOp → Option WsaError → ℕ → TcpSocket → A → Run A
returned e o sys n s a = record {
  result = some (record { code = e; op = o; sys_error = sys; bytes = n });
  sock = s;
  moved_data = a;
}

-- An error of a single `send` and of `send_all`.
abbrev pub after_send_error : TcpSocket → WsaError → TcpSocket
after_send_error s e = if is_wsaeconnreset e then mark_closed s else s

abbrev pub after_send_all_error : TcpSocket → WsaError → TcpSocket
after_send_all_error s e = if is_fatal_send_err e then mark_closed s else s

unfoldable pub send : TcpSocket → Memory → ℕ → ℕ → Io → Run (List ℕ)
unfolding refused map_err
send s m addr size os = elim (refused s size) [
  | some e ↦ returned e send_op none 0 s []
  | none ↦ elim os [
    | moved zero ↦ returned closed send_op none 0 (mark_closed s) []
    | moved (suc n) ↦ returned no_error send_op none (suc n) s (read_bytes m addr (suc n))
    | failed e ↦ returned (map_err e) send_op (some e) 0 (after_send_error s e) []
  ]
]

unfoldable pub recv : TcpSocket → Memory → ℕ → ℕ → Memory → ℕ → Io → Run Memory
unfolding refused map_err
recv s m addr size stream pos os = elim (refused s size) [
  | some e ↦ returned e recv_op none 0 s m
  | none ↦ elim os [
    | moved zero ↦ returned closed recv_op none 0 (mark_closed s) m
    | moved (suc n) ↦
        returned no_error recv_op none (suc n) s
          (write_bytes m addr (read_bytes stream pos (suc n)))
    | failed e ↦ returned (map_err e) recv_op (some e) 0 s m
  ]
]

abbrev pub Calls : Type 0
Calls = ℕ → ℕ → Io

unfoldable pub send_loop : Calls → ℕ → TcpSocket → Memory → ℕ → ℕ → ℕ → ℕ → List ℕ → Run (List ℕ)
unfolding map_err is_fatal_send_err
send_loop os zero s m addr size i total wire = record { result = none; sock = s; moved_data = wire }
send_loop os (suc fuel) s m addr size i total wire =
    if not (ltb total size)
    then returned no_error send_op none total s wire
    else elim (os i (size - total)) [
      | moved zero ↦ returned closed send_op none total (mark_closed s) wire
      | moved (suc n) ↦
          send_loop os fuel s m addr size (suc i) (total + suc n)
            (wire ++ read_bytes m (addr + total) (suc n))
      | failed e ↦
          if is_wsaeintr e
          then send_loop os fuel s m addr size (suc i) total wire
          else returned (map_err e) send_op (some e) total (after_send_all_error s e) wire
    ]

unfoldable pub send_all : Calls → ℕ → TcpSocket → Memory → ℕ → ℕ → Run (List ℕ)
unfolding refused send_loop
send_all os fuel s m addr size = elim (refused s size) [
  | some e ↦ returned e send_op none 0 s []
  | none ↦ send_loop os fuel s m addr size 0 0 []
]

unfoldable pub recv_loop : Calls → ℕ → TcpSocket → Memory → ℕ → ℕ → Memory → ℕ → ℕ → ℕ → Run Memory
unfolding map_err
recv_loop os zero s m addr size stream pos i total = record {
  result = none;
  sock = s;
  moved_data = m;
}
recv_loop os (suc fuel) s m addr size stream pos i total =
    if not (ltb total size)
    then returned no_error recv_op none total s m
    else elim (os i (size - total)) [
      | moved zero ↦ returned closed recv_op none total (mark_closed s) m
      | moved (suc n) ↦
          recv_loop os fuel s
            (write_bytes m (addr + total) (read_bytes stream (pos + total) (suc n))) addr size
            stream pos (suc i) (total + suc n)
      | failed e ↦
          if is_wsaeintr e
          then recv_loop os fuel s m addr size stream pos (suc i) total
          else returned (map_err e) recv_op (some e) total s m
    ]

unfoldable pub recv_all : Calls → ℕ → TcpSocket → Memory → ℕ → ℕ → Memory → ℕ → Run Memory
unfolding refused recv_loop
recv_all os fuel s m addr size stream pos = elim (refused s size) [
  | some e ↦ returned e recv_op none 0 s m
  | none ↦ recv_loop os fuel s m addr size stream pos 0 0
]

-- The server: `bind` and `listen` with what the system's call gives, none for success.
unfoldable pub bind : TcpSocket → IpText → Option WsaError → WsaResult
unfolding handle_valid map_err
bind s addr os = if not (handle_valid s) then plain invalid_handle bind_op else elim addr [
  | no_ip ↦ plain invalid_ip bind_op
  | bad_ip ↦ plain invalid_ip bind_op
  | ip a ↦ elim os [ none ↦ plain no_error bind_op | some e ↦ sys_failed e bind_op ]
]

-- `os n` is what `listen` gives with a backlog of `n`.
unfoldable pub listen : ℕ → TcpSocket → ℕ → (ℕ → Option WsaError) → WsaResult
unfolding handle_valid map_err
listen somaxconn s backlog os =
    if not (handle_valid s)
    then plain invalid_handle listen_op
    else elim (os (if backlog == 0 then somaxconn else backlog)) [
      | none ↦ plain no_error listen_op
      | some e ↦ sys_failed e listen_op
    ]

abbrev is_closed_listener : WsaError → Bool
is_closed_listener wsaeinval = true
is_closed_listener wsaenotsock = true
is_closed_listener _ = false

unfoldable pub accept : TcpSocket → Made → Option TcpSocket × WsaResult
unfolding handle_valid adopt new_socket map_err
accept server os =
    if not (handle_valid server) then (none, plain invalid_handle accept_op) else elim os [
      | made fd ↦ (some (adopt new_socket fd true), plain no_error accept_op)
      | not_made e ↦ (
        none,
        record {
          code = if is_closed_listener e then closed else map_err e;
          op = accept_op;
          sys_error = some e;
          bytes = 0;
        },
      )
    ]
