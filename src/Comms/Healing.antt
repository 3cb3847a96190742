-- ===== src/Comms/Healing.antt =====
-- A dead link is made again by the next look of the monitor (connection_manager.cpp).
use netcomm.Prelude.{ℕ, suc, ◌+◌, ◌*◌, ◌≤◌, ◌≡◌, ◌≢◌, false, none, ◌⊎◌}
use netcomm.Types.{NodeId}
use netcomm.Transports.{get_socket}
use netcomm.Socket
use netcomm.Socket.{
  TcpSocket, Made, made, IpText, ip, disconnect, is_connected, invalid_socket, send_op, returned,
}
use netcomm.Socket.Transfer.{Reliable}
use netcomm.Comms.{Comms}
use netcomm.Comms.Links.{Attempt}

-- An attempt that the system lets through: a descriptor, an address, a connection, and calls that
-- send the header within the calls that are made.
pub record GetsThrough (a : Attempt) (fd k : ℕ) : Type 0 where
  pub fd_made : a.fd ≡ made fd
  pub good_fd : fd ≢ invalid_socket
  pub address : (n : ℕ) × (a.ip ≡ ip n)
  pub answered : a.answer ≡ none
  pub sends : Reliable a.id_sends.os k
  pub enough : 28 * suc k + suc k ≤ a.id_sends.fuel

-- There is no socket for the peer, or one that is not connected.
abbrev pub Dead : Comms → NodeId → Type 0
Dead c id =
    (get_socket c.router.transports id ≡ 0)
    ⊎ (is_connected (c.clients (get_socket c.router.transports id)).sock ≡ false)
