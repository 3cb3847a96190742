-- ===== src/Comms/Monitor.antt =====
-- The link to one peer over the rounds of the monitor (connection_manager.cpp:
-- connect_to_remote_peer, ping_remote_peer, remote_connection_monitor).
use netcomm.Prelude.{ℕ, ◌≡◌, ◌≢◌, true, false, Bool, none, some, find}
use netcomm.Types.{NodeId}
use netcomm.Transports.{get_socket}
use netcomm.Socket.{is_connected}
use netcomm.Comms.{Comms}
use netcomm.Comms.Links.{Outcome}

-- A worker listens to the socket that the registry has for the peer.
pub record Linked (c : Comms) (id : NodeId) : Type 0 where
  pub there : get_socket c.router.transports id ≢ 0
  pub dest : (c.clients (get_socket c.router.transports id)).dest_id ≡ id
  pub worker : find id c.sock_recvrs ≡ some (record { sock = get_socket c.router.transports id })

-- The link was never made, is served by a worker, or is known to be dead and has no worker.
pub data LinkState (c : Comms) (id : NodeId) : Type 0 where
  never : get_socket c.router.transports id ≡ 0 → find id c.sock_recvrs ≡ none → LinkState c id
  served : Linked c id → LinkState c id
  lost :
      get_socket c.router.transports id ≢ 0
      → (c.clients (get_socket c.router.transports id)).dest_id ≡ id
      → is_connected (c.clients (get_socket c.router.transports id)).sock ≡ false
      → find id c.sock_recvrs ≡ none
      → LinkState c id

-- What a call leaves: it waits in a send; or it returns with the link in one of these states, and
-- if it reports a link, with a worker on it.
pub data Kept (id : NodeId) : Outcome Bool → Type 0 where
  waits : Kept id none
  returns :
      (c : Comms) (up : Bool) → LinkState c id → (up ≡ true → Linked c id) → Kept id (some (c, up))

-- A state with a socket in the registry, at an address.
abbrev At : Comms → NodeId → ℕ → Type 0
At c id addr =
    (addr ≢ 0) × (get_socket c.router.transports id ≡ addr) × ((c.clients addr).dest_id ≡ id)
