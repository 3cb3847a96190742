-- ===== src/Multicast/Windows.antt =====
-- socket/win/win_udp_multicast.cpp.
use netcomm.Prelude.{
  ℕ, true, false, not, ◌||◌, Option, none, some, List, [], ◌∷◌, ◌==◌, if◌then◌else◌, ltb, is_empty,
  length,
}
use netcomm.Memory.{Memory, read_bytes, write_bytes}
use netcomm.Address.{Text}
use netcomm.Socket.{
  SockErr, no_error, invalid_argument, not_open, double_open, invalid_ip, size_zero, size_too_large,
  SockOp, open_op, bind_op, join_op, send_op, recv_op, invalid_socket, int32_max,
}
use netcomm.Socket.Windows.{WsaResult, WsaError, map_err, Made, made, not_made, Io, moved, failed}
use netcomm.Multicast.{
  UdpMcastConfig, UdpMulticastSocket, Datagram, default_cfg, handle_valid, is_open,
}

-- What the calls of `open_and_join` give: the socket, and none or an error for the others.
pub record JoinCalls : Type 0 where
  pub made_socket : Made
  pub bind_rc : Option WsaError
  pub ttl_rc : Option WsaError
  pub join_rc : Option WsaError

-- What `recvfrom` gives: the bytes that it writes, or an error.
pub data Arrival : Type 0 where
  arrived : List ℕ → Arrival
  not_arrived : WsaError → Arrival

abbrev plain_op : SockErr → SockOp → WsaResult
plain_op e o = record { code = e; op = o; sys_error = none; bytes = 0 }

abbrev failed_op : WsaError → SockOp → WsaResult
failed_op e o = record { code = map_err e; op = o; sys_error = some e; bytes = 0 }

abbrev moved_op : ℕ → SockOp → WsaResult
moved_op n o = record { code = no_error; op = o; sys_error = none; bytes = n }

unfoldable pub new_multicast : UdpMulticastSocket
new_multicast = record {
  m_handle = invalid_socket;
  m_open = false;
  m_joined = false;
  m_cfg = default_cfg;
}

unfoldable pub close : UdpMulticastSocket → UdpMulticastSocket × List ℕ
close s = (
  record s { m_handle = invalid_socket; m_open = false; m_joined = false },
  if handle_valid s then s.m_handle ∷ [] else [],
)

-- The socket that is assigned to, the one moved from, and what was closed.
unfoldable pub move_multicast :
    UdpMulticastSocket → UdpMulticastSocket → UdpMulticastSocket × UdpMulticastSocket × List ℕ
unfolding close
move_multicast s other = (
  other,
  record other { m_handle = invalid_socket; m_open = false; m_joined = false },
  (close s).1,
)

abbrev pub Joined : Type 0
Joined = UdpMulticastSocket × WsaResult × List ℕ

abbrev closed_with : UdpMulticastSocket → WsaResult → Joined
closed_with s r = let (t, fds) = close s in (t, r, fds)

-- The rest of `open_and_join`, on a socket that was opened: with the address to bind to, the results
-- of binding and of setting the time to live, the address of the group and the result of joining it.
unfoldable pub bind_and_join :
    UdpMulticastSocket
    → Option ℕ
    → Option WsaError
    → Option WsaError
    → Option ℕ
    → Option WsaError
    → Joined
unfolding close
bind_and_join s none bind_rc ttl_rc group join_rc = closed_with s (plain_op invalid_ip bind_op)
bind_and_join s (some local) (some e) ttl_rc group join_rc = closed_with s (failed_op e bind_op)
bind_and_join s (some local) none (some e) group join_rc = closed_with s (failed_op e send_op)
bind_and_join s (some local) none none none join_rc = closed_with s (plain_op invalid_ip join_op)
bind_and_join s (some local) none none (some group) (some e) = closed_with s (failed_op e join_op)
bind_and_join s (some local) none none (some group) none =
    (record s { m_joined = true }, plain_op no_error open_op, [])

unfoldable pub open_and_join :
    (Text → Option ℕ) → UdpMulticastSocket → UdpMcastConfig → JoinCalls → Joined
unfolding bind_and_join
open_and_join inet_pton s cfg os =
    if handle_valid s
    then (s, plain_op double_open open_op, [])
    else if is_empty cfg.group_ip
    then (s, plain_op invalid_ip open_op, [])
    else if is_empty cfg.bind_ip
    then (s, plain_op invalid_ip open_op, [])
    else if cfg.port == 0
    then (s, plain_op invalid_argument open_op, [])
    else elim os.made_socket [
      | not_made e ↦ (s, failed_op e open_op, [])
      | made fd ↦
          bind_and_join (record s { m_handle = fd; m_open = true; m_cfg = cfg })
            (inet_pton cfg.bind_ip) os.bind_rc os.ttl_rc (inet_pton cfg.group_ip) os.join_rc
    ]

-- The checks that both transfers begin with; `data` is the client's pointer.
unfoldable pub refused : UdpMulticastSocket → ℕ → ℕ → Option SockErr
refused s data' size =
    if not (is_open s) || not s.m_joined
    then some not_open
    else if data' == 0
    then some invalid_argument
    else if size == 0
    then some size_zero
    else if ltb int32_max size
    then some size_too_large
    else none

unfoldable pub send_broadcast :
    (Text → Option ℕ) → UdpMulticastSocket → Memory → ℕ → ℕ → Io → WsaResult × Option Datagram
unfolding refused
send_broadcast inet_pton s m data' size os = elim (refused s data' size) [
  | some e ↦ (plain_op e send_op, none)
  | none ↦ elim (inet_pton s.m_cfg.group_ip) [
    | none ↦ (plain_op invalid_ip send_op, none)
    | some group ↦ elim os [
      | failed e ↦ (failed_op e send_op, none)
      | moved n ↦ (
        moved_op n send_op,
        some (record { to_ip = group; to_port = s.m_cfg.port; bytes = read_bytes m data' n }),
      )
    ]
  ]
]

unfoldable pub recv_broadcast : UdpMulticastSocket → Memory → ℕ → ℕ → Arrival → WsaResult × Memory
unfolding refused
recv_broadcast s m data' size os = elim (refused s data' size) [
  | some e ↦ (plain_op e recv_op, m)
  | none ↦ elim os [
    | not_arrived e ↦ (failed_op e recv_op, m)
    | arrived bs ↦ (moved_op (length bs) recv_op, write_bytes m data' bs)
  ]
]
