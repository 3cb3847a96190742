-- ===== src/Multicast/Agreement.antt =====
-- The multicast sockets of Windows and of Linux under the correspondence of their error numbers.
use netcomm.Prelude.{ℕ, ◌≡◌, refl, true, Option, none, some, arith}
use netcomm.Memory.{Memory}
use netcomm.Address.{Text}
use netcomm.Socket
use netcomm.Socket.{Errno, SockResult}
use netcomm.Socket.Windows
use netcomm.Socket.Windows.{WsaResult}
use netcomm.Socket.Windows.Agreement.{wsa_of, error_of, result_of, io_of, same_error}
use netcomm.Multicast.{UdpMcastConfig, UdpMulticastSocket}
use netcomm.Multicast.Linux
use netcomm.Multicast.Windows as OnWindows

abbrev pub made_of : Socket.Made → Windows.Made
made_of (Socket.made fd) = Windows.made fd
made_of (Socket.not_made e) = Windows.not_made (wsa_of e)

-- The calls of Windows that do what those of Linux do.
abbrev pub join_calls_of : Linux.JoinCalls → OnWindows.JoinCalls
join_calls_of os = record {
  made_socket = made_of os.made_socket;
  bind_rc = error_of os.bind_rc;
  ttl_rc = error_of os.ttl_rc;
  join_rc = error_of os.join_rc;
}

abbrev pub arrival_of : Linux.Arrival → OnWindows.Arrival
arrival_of (Linux.arrived bs) = OnWindows.arrived bs
arrival_of (Linux.not_arrived e) = OnWindows.not_arrived (wsa_of e)

pub joined_of : Linux.Joined → OnWindows.Joined
joined_of (s, r, fds) = (s, result_of r, fds)

bind_and_join_agrees :
    (s : UdpMulticastSocket) (local : Option ℕ) (b t : Option Errno) (g : Option ℕ)
    (j : Option Errno)
    → OnWindows.bind_and_join s local (error_of b) (error_of t) g (error_of j)
      ≡ joined_of (Linux.bind_and_join s local b t g j)
unfolding OnWindows.bind_and_join Linux.bind_and_join OnWindows.close Linux.close joined_of
bind_and_join_agrees s none b t g j = refl
bind_and_join_agrees s (some l) (some e) t g j = rw (same_error e).0 refl
bind_and_join_agrees s (some l) none (some e) g j = rw (same_error e).0 refl
bind_and_join_agrees s (some l) none none none j = refl
bind_and_join_agrees s (some l) none none (some x) (some e) = rw (same_error e).0 refl
bind_and_join_agrees s (some l) none none (some x) none = refl

module _ (inet_pton : Text → Option ℕ) (s : UdpMulticastSocket) where
  open_and_join_agrees :
      (cfg : UdpMcastConfig) (os : Linux.JoinCalls) (o : Socket.Made)
      → os.made_socket ≡ o
      → OnWindows.open_and_join inet_pton s cfg (join_calls_of os)
        ≡ joined_of (Linux.open_and_join inet_pton s cfg os)
  unfolding OnWindows.open_and_join Linux.open_and_join joined_of
  open_and_join_agrees cfg os (Socket.made fd) e = ground (
    arith,
    e,
    bind_and_join_agrees (record s { m_handle = fd; m_open = true; m_cfg = cfg })
        (inet_pton cfg.bind_ip) os.bind_rc os.ttl_rc (inet_pton cfg.group_ip) os.join_rc,
  )
  open_and_join_agrees cfg os (Socket.not_made err) e = ground (arith, e, same_error err)

  refused_agrees : (data' size : ℕ) → OnWindows.refused s data' size ≡ Linux.refused s data' size
  unfolding OnWindows.refused Linux.refused
  refused_agrees data' size = refl

  send_broadcast_agrees :
      (m : Memory) (data' size : ℕ) (os : Socket.Io)
      → OnWindows.send_broadcast inet_pton s m data' size (io_of os) ≡ (
        result_of (Linux.send_broadcast inet_pton s m data' size os).0,
        (Linux.send_broadcast inet_pton s m data' size os).1,
      )
  unfolding OnWindows.send_broadcast Linux.send_broadcast
  send_broadcast_agrees m data' size (Socket.moved n) = ground (arith, refused_agrees data' size)
  send_broadcast_agrees m data' size (Socket.failed e) =
      ground (arith, refused_agrees data' size, same_error e)

  recv_broadcast_agrees :
      (m : Memory) (data' size : ℕ) (os : Linux.Arrival)
      → OnWindows.recv_broadcast s m data' size (arrival_of os) ≡ (
        result_of (Linux.recv_broadcast s m data' size os).0,
        (Linux.recv_broadcast s m data' size os).1,
      )
  unfolding OnWindows.recv_broadcast Linux.recv_broadcast
  recv_broadcast_agrees m data' size (Linux.arrived bs) = ground (arith, refused_agrees data' size)
  recv_broadcast_agrees m data' size (Linux.not_arrived e) =
      ground (arith, refused_agrees data' size, same_error e)

  -- If each call of Windows does what the call of Linux does, with the error that corresponds, then
  -- opening and joining, sending and receiving a broadcast, and closing do the same on both systems:
  -- the results but for the number of the error, the socket that is left, the handles closed, the
  -- datagram that is sent and the memory that is written.
  pub multicasts_agree :
      (cfg : UdpMcastConfig) (os : Linux.JoinCalls) (m : Memory) (data' size : ℕ) (sent : Socket.Io)
      (came : Linux.Arrival)
      → (OnWindows.open_and_join inet_pton s cfg (join_calls_of os)
          ≡ joined_of (Linux.open_and_join inet_pton s cfg os))
        × (OnWindows.send_broadcast inet_pton s m data' size (io_of sent) ≡ (
          result_of (Linux.send_broadcast inet_pton s m data' size sent).0,
          (Linux.send_broadcast inet_pton s m data' size sent).1,
        ))
        × (OnWindows.recv_broadcast s m data' size (arrival_of came) ≡ (
          result_of (Linux.recv_broadcast s m data' size came).0,
          (Linux.recv_broadcast s m data' size came).1,
        ))
        × (OnWindows.close s ≡ Linux.close s)
  unfolding OnWindows.close Linux.close
  multicasts_agree cfg os m data' size sent came = (
    open_and_join_agrees cfg os os.made_socket refl,
    send_broadcast_agrees m data' size sent,
    recv_broadcast_agrees m data' size came,
    refl,
  )
