-- ===== src/Comms/Links.antt =====
-- The links of a node (connection_manager.cpp): connect_to_remote_peer, ping_remote_peer, the rounds
-- of remote_connection_monitor and initial_remote_connection, and one turn of run_tcp_server.
-- A call that has not returned yet, since a send or a receive in it has not, gives none.
use netcomm.Prelude.{
  ℕ, zero, suc, ◌+◌, Bool, true, false, not, ◌||◌, Option, none, some, List, [], ◌∷◌, ◌==◌,
  if◌then◌else◌, leb, length, ◌>>=◌,
}
use netcomm.Types.{
  NodeId, LabelHeader, magic_num, version, connect_flag, has_flag, sizeof_label_header,
}
use netcomm.Types.Words.{sle32}
use netcomm.Memory.{Memory, read_bytes}
use netcomm.Wire.{read_header}
use netcomm.Address.{NodeAddress}
use netcomm.Transports.{get_socket}
use netcomm.Socket.{
  TcpSocket, Made, Accepted, Errno, IpText, Calls, Run, new_socket, is_connected, open_and_connect,
  ok, accept, recv_all,
}
use netcomm.Comms.{
  Comms, Sends, set_client, disconnect_client, established, send_header, accepted_send, id_header,
  ping_header, stop_remote_recv_worker,
}

-- What the system does with one attempt to connect, and where the new socket object stands.
pub record Attempt : Type 0 where
  pub addr : ℕ
  pub fd : Made
  pub ip : IpText
  pub answer : Option Errno
  pub id_sends : Sends

-- A call that may not have returned: the state after it and what it gives.
abbrev pub Outcome : Type 0 → Type 0
Outcome A = Option (Comms × A)

abbrev pub after_send_id : Comms → ℕ → NodeId → TcpSocket → Option Bool → Outcome Bool
after_send_id c addr peer_id sock none = none
after_send_id c addr peer_id sock (some false) = some (c, false)
after_send_id c addr peer_id sock (some true) = some (established c peer_id addr sock, true)

abbrev pub send_id_on : Comms → Attempt → NodeId → TcpSocket → Outcome Bool
send_id_on c a peer_id s =
    let run = send_header a.id_sends s (id_header c.id) in
    after_send_id c a.addr peer_id run.sock (accepted_send run)

unfoldable pub connect_to_remote_peer : Comms → Attempt → NodeAddress → Outcome Bool
unfolding send_header accepted_send
connect_to_remote_peer c a peer =
    if sle32 c.id peer.id
    then some (c, false)
    else let (s, result) = open_and_connect new_socket a.fd a.ip a.answer in
      if not (ok result) then some (c, false) else send_id_on c a peer.id s

abbrev pub reconnect : Comms → Attempt → NodeAddress → ℕ → Outcome Bool
reconnect c a peer addr =
    connect_to_remote_peer
      (stop_remote_recv_worker (record c { clients = disconnect_client addr c.clients }) peer.id) a
      peer

-- The store after a ping went out on the socket at an address.
abbrev pub pinged : Comms → ℕ → TcpSocket → Comms
pinged c addr sock = record c {
  clients = set_client addr (record (c.clients addr) { sock = sock }) c.clients;
}

abbrev pub after_ping : Comms → Attempt → NodeAddress → ℕ → TcpSocket → Option Bool → Outcome Bool
after_ping c a peer addr sock none = none
after_ping c a peer addr sock (some true) = some (pinged c addr sock, true)
after_ping c a peer addr sock (some false) = reconnect (pinged c addr sock) a peer addr

-- `addr` is the socket object of the peer. The result tells whether there is a live link afterwards,
-- which the code does not report.
unfoldable pub ping_remote_peer : Comms → Attempt → Sends → NodeAddress → ℕ → Outcome Bool
unfolding send_header accepted_send
ping_remote_peer c a pings peer addr =
    if not ((c.clients addr).dest_id == peer.id)
    then some (c, false)
    else if is_connected (c.clients addr).sock
    then (let run = send_header pings (c.clients addr).sock (ping_header c.id) in
        after_ping c a peer addr run.sock (accepted_send run))
    else reconnect c a peer addr

-- One peer of a round of the monitor.
unfoldable pub monitor_peer : Comms → Attempt → Sends → NodeAddress → Outcome Bool
monitor_peer c a pings peer =
    if get_socket c.router.transports peer.id == 0
    then connect_to_remote_peer c a peer
    else ping_remote_peer c a pings peer (get_socket c.router.transports peer.id)

-- One round of remote_connection_monitor over the remote peers.
unfoldable pub monitor_round :
    (NodeId → Attempt) → (NodeId → Sends) → Comms → List NodeAddress → Option Comms
monitor_round attempts pings c [] = some c
monitor_round attempts pings c (peer ∷ peers) =
    monitor_peer c (attempts peer.id) (pings peer.id) peer
    >>= (λ r. monitor_round attempts pings r.0 peers)

-- One round of initial_remote_connection: how many of the peers there is a link to.
unfoldable pub connect_round : (NodeId → Attempt) → Comms → List NodeAddress → ℕ → Outcome ℕ
connect_round attempts c [] connected = some (c, connected)
connect_round attempts c (peer ∷ peers) connected =
    if not (get_socket c.router.transports peer.id == 0)
    then connect_round attempts c peers (connected + 1)
    else (connect_to_remote_peer c (attempts peer.id) peer
        >>= (λ r. connect_round attempts r.0 peers (if r.1 then connected + 1 else connected)))

abbrev pub max_attempts : ℕ
max_attempts = 5

-- The rounds that are left, from the round `i`.
unfoldable pub connect_rounds :
    (ℕ → NodeId → Attempt) → Comms → List NodeAddress → ℕ → ℕ → Option Comms
unfolding connect_round
connect_rounds attempts c peers zero i = some c
connect_rounds attempts c peers (suc left) i = connect_round (attempts i) c peers 0 >>= (λ r.
    let more = connect_rounds attempts r.0 peers left (suc i) in
    if leb (length peers) r.1 then some r.0 else more)

unfoldable pub initial_remote_connection :
    (ℕ → NodeId → Attempt) → Comms → List NodeAddress → Option Comms
unfolding connect_rounds
initial_remote_connection attempts c peers = connect_rounds attempts c peers max_attempts 0

-- What the system does with one turn of the server: the connection, the address of its object, the
-- buffer of the header, and the calls that receive it.
pub record Arrival : Type 0 where
  pub connection : Accepted
  pub addr : ℕ
  pub buffer : Memory
  pub hdr_addr : ℕ
  pub os : Calls
  pub fuel : ℕ
  pub stream : Memory

abbrev pub bad_hello : LabelHeader → Bool
bad_hello hdr =
    if not (hdr.magic == magic_num) || not (hdr.version == version)
    then true
    else not (has_flag hdr.flags connect_flag)

abbrev pub after_hello : Comms → ℕ → TcpSocket → LabelHeader → Comms
after_hello c addr sock hdr = if bad_hello hdr then c else established c hdr.source_id addr sock

abbrev pub welcome : Comms → Arrival → Run Memory → Option Comms
welcome c x run = elim run.result [
  | none ↦ none
  | some r ↦ some (
      if not (ok r)
      then c
      else after_hello c x.addr run.sock
          (read_header (read_bytes run.moved_data x.hdr_addr sizeof_label_header)))
]

abbrev pub serve : Comms → Arrival → Option TcpSocket → Option Comms
serve c x none = some c
serve c x (some sock) =
    welcome c x (recv_all x.os x.fuel sock x.buffer x.hdr_addr sizeof_label_header x.stream 0)

unfoldable pub server_turn : Comms → TcpSocket → Arrival → Option Comms
unfolding accept recv_all read_header
server_turn c server x = serve c x (accept server x.connection).0
