-- ===== src/Socket/Results.antt =====
-- eROIL/src/socket: socket_result.h and linux/linux_map_err.cpp, the results of the socket operations.
use netcomm.Prelude.{ℕ, Bool, true, false, Option, none}

pub data SockErr : Type 0 where
  no_error not_initialized invalid_handle invalid_argument not_open not_connected : SockErr
  already_connected closed shut_down address_in_use address_not_available : SockErr
  permission_denied connection_refused timed_out unreachable resource_exhausted : SockErr
  would_block double_open invalid_ip size_zero size_too_large unknown : SockErr

pub data SockOp : Type 0 where
  configure_op open_op bind_op join_op listen_op accept_op connect_op send_op recv_op : SockOp
  shutdown_op close_op : SockOp

pub data Errno : Type 0 where
  enotsock einval enotconn eisconn eshutdown econnreset eaddrinuse eaddrnotavail eacces : Errno
  econnrefused etimedout ehostunreach enetunreach enobufs emfile enfile ewouldblock : Errno
  econnaborted enetdown enetreset eintr : Errno
  other_errno : ℕ → Errno

unfoldable pub map_err : Errno → SockErr
map_err enotsock = invalid_handle
map_err einval = invalid_argument
map_err enotconn = not_connected
map_err eisconn = already_connected
map_err eshutdown = shut_down
map_err econnreset = closed
map_err eaddrinuse = address_in_use
map_err eaddrnotavail = address_not_available
map_err eacces = permission_denied
map_err econnrefused = connection_refused
map_err etimedout = timed_out
map_err ehostunreach = unreachable
map_err enetunreach = unreachable
map_err enobufs = resource_exhausted
map_err emfile = resource_exhausted
map_err enfile = resource_exhausted
map_err ewouldblock = would_block
map_err econnaborted = unknown
map_err enetdown = unknown
map_err enetreset = unknown
map_err eintr = unknown
map_err (other_errno n) = unknown

unfoldable pub is_fatal_send_err : Errno → Bool
is_fatal_send_err econnreset = true
is_fatal_send_err enotconn = true
is_fatal_send_err eshutdown = true
is_fatal_send_err econnaborted = true
is_fatal_send_err ehostunreach = true
is_fatal_send_err enetdown = true
is_fatal_send_err enetreset = true
is_fatal_send_err enetunreach = true
is_fatal_send_err _ = false

abbrev pub is_eintr : Errno → Bool
is_eintr eintr = true
is_eintr _ = false

pub record SockResult : Type 0 where
  pub code : SockErr
  pub op : SockOp
  pub sys_error : Option Errno
  pub bytes : ℕ

abbrev pub is_no_error : SockErr → Bool
is_no_error no_error = true
is_no_error _ = false

unfoldable pub ok : SockResult → Bool
ok r = is_no_error r.code

-- A result with neither an error number nor a count.
abbrev pub plain : SockErr → SockOp → SockResult
plain e o = record { code = e; op = o; sys_error = none; bytes = 0 }
