-- ===== src/Comms/Handshake.antt =====
-- A new link and the message that it begins with (connection_manager.cpp: connect_to_remote_peer and
-- send_id on one node, run_tcp_server on the other).
use netcomm.Prelude.{
  ℕ, suc, ◌+◌, ◌*◌, ◌^◌, ◌≤◌, ◌<◌, ◌≡◌, ◌≢◌, sym, ap, ◌∙◌, true, none, some, if◌then◌else◌, is_some,
  find, find-put, find-emplace, Option-cases, inl, inr, arith,
}
use netcomm.Types.{NodeId, LabelHeader, has_flag}
use netcomm.Types.Words.{bit_test}
use netcomm.Memory.{
  Memory, buffer_of, read_bytes, write_bytes, read_bytes-write_bytes, length-read_bytes,
}
use netcomm.Wire.{Padding, header_bytes, read_header}
use netcomm.Wire.RoundTrip.{InRange, length-header_bytes, read_header_alone}
use netcomm.Transports.{get_socket, upsert_socket}
use netcomm.Router
use netcomm.Socket
use netcomm.Socket.{
  returned, TcpSocket, SockResult, Run, accepted, accept, adopt, new_socket, handle_valid,
  is_connected, invalid_socket, recv_all, recv_op, ok, int32_max, close,
}
use netcomm.Socket.Transfer.{Reliable}
use netcomm.Socket.RoundTrip.{send_all_complete, recv_all_complete}
use netcomm.Comms.{
  Sends, send_header, id_header, Comms, established, start_remote_recv_worker, upsert_client,
  set_client,
}
use netcomm.Comms.Links.{after_hello, Arrival, welcome, serve, server_turn}

-- What a new link leaves: the registry has the new socket object, the object has its socket and its
-- peer, and a worker listens to it, unless there was an entry for a worker, which stays as it was.
pub record Established (c : Comms) (id : NodeId) (addr : ℕ) (sock : TcpSocket) (c' : Comms)
    : Type 0 where
  pub socket : get_socket c'.router.transports id ≡ addr
  pub client : c'.clients addr ≡ record { sock = sock; dest_id = id }
  pub worker : find id c'.sock_recvrs ≡ (
      if is_some (find id c.sock_recvrs)
      then find id c.sock_recvrs
      else some (record { sock = addr }))

module _ (c : Comms) (id : NodeId) where
  start-router : (start_remote_recv_worker c id).router ≡ c.router
  unfolding start_remote_recv_worker
  start-router = ground arith

  start-clients : (start_remote_recv_worker c id).clients ≡ c.clients
  unfolding start_remote_recv_worker
  start-clients = ground arith

  start-worker : find id (start_remote_recv_worker c id).sock_recvrs ≡ (
      if is_some (find id c.sock_recvrs)
      then find id c.sock_recvrs
      else some (record { sock = get_socket c.router.transports id }))
  unfolding start_remote_recv_worker
  start-worker = elim (Option-cases (find id c.sock_recvrs)) [
    | inl n ↦ ground (
      arith,
      n,
      find-emplace id id (record { sock = get_socket c.router.transports id }) c.sock_recvrs n,
    )
    | inr (w, s) ↦ ground (arith, s)
  ]

module _ (c : Comms) (id : NodeId) (addr : ℕ) (sock : TcpSocket) (here : addr ≢ 0)
    (fresh : get_socket c.router.transports id ≢ addr) where
  abbrev linked : Comms
  linked =
      upsert_client
        (record c { clients = set_client addr (record { sock = sock; dest_id = id }) c.clients }) id
        addr

  linked-socket : get_socket linked.router.transports id ≡ addr
  unfolding get_socket upsert_socket Router.upsert_socket
  linked-socket = ground (arith, find-put id id addr c.router.transports.sockets)

  linked-client : linked.clients addr ≡ record { sock = sock; dest_id = id }
  unfolding get_socket
  linked-client = ground arith

  pub established_lem : Established c id addr sock (established c id addr sock)
  unfolding established
  established_lem = record {
    socket = ap (λ r. get_socket r.transports id) (start-router linked id) ∙ linked-socket;
    client = ap (λ f. f addr) (start-clients linked id) ∙ linked-client;
    worker =
        start-worker linked id
        ∙ ap
            (λ a.
              if is_some (find id c.sock_recvrs)
              then find id c.sock_recvrs
              else some (record { sock = a }))
            linked-socket;
  }

id_header-InRange : (id : NodeId) → id < 2 ^ 32 → InRange (id_header id)
id_header-InRange id h = record {
  magic = omega arith;
  version = omega arith;
  source_id = h;
  flags = omega arith;
  label = omega arith;
  label_size = omega arith;
  recv_offset = omega arith;
}

-- The 28 bytes of a header that one side sends are the header that the other side reads.
header_carried :
    (p : Padding) (h : LabelHeader)
    → InRange h
    → read_header (read_bytes (buffer_of (header_bytes p h)) 0 28) ≡ h
header_carried p h r =
    ap (λ n. read_header (read_bytes (buffer_of (header_bytes p h)) 0 n))
      (sym (length-header_bytes p h))
    ∙ ap read_header (read_bytes-write_bytes (λ a. 0) 0 (header_bytes p h))
    ∙ read_header_alone p h r

-- A socket that a connection was accepted on.
abbrev pub incoming : ℕ → TcpSocket
incoming fd = record { handle = fd; connected = true }

module _ (c : Comms) (server : TcpSocket) (x : Arrival) (fd : ℕ)
    (listening : handle_valid server ≡ true) (arrived : x.connection ≡ accepted fd)
    (good_fd : fd ≢ invalid_socket) where
  accept_ok : (accept server x.connection).0 ≡ some (incoming fd)
  unfolding accept adopt new_socket close handle_valid
  accept_ok = ap (λ o. (accept server o).0) arrived ∙ ground (arith, listening)

  welcome_id :
      (id : NodeId) (m : Memory)
      → read_header (read_bytes m x.hdr_addr 28) ≡ id_header id
      → welcome c x (returned Socket.no_error recv_op none 28 (incoming fd) m)
        ≡ some (established c id x.addr (incoming fd))
  unfolding has_flag bit_test ok
  welcome_id id m h = ap (λ hdr. some (after_hello c x.addr (incoming fd) hdr)) h

  -- A node that is told who connects: if the 28 bytes of the header that a node sends when it
  -- connects reach a listening node, whose calls get through, that node takes the new socket for
  -- the link to exactly the node that sent them, and starts a worker for it, unless there still is
  -- an entry of an earlier worker for that node: then no worker listens to the new socket.
  pub server_turn-send_id :
      (y : Sends) (s : TcpSocket) (id : NodeId) (k : ℕ)
      → Reliable y.os k
      → Reliable x.os k
      → is_connected s ≡ true
      → id < 2 ^ 32
      → 28 * suc k + suc k ≤ y.fuel
      → 28 * suc k + suc k ≤ x.fuel
      → x.addr ≢ 0
      → get_socket c.router.transports id ≢ x.addr
      → read_bytes x.stream 0 28 ≡ (send_header y s (id_header id)).moved_data
      → (c' : Comms) × (server_turn c server x ≡ some c') × Established c id x.addr (incoming fd) c'
  unfolding server_turn send_header is_connected handle_valid
  server_turn-send_id y s id k rel rel' up small enough enough' here fresh carried = (
    established c id x.addr (incoming fd),
    ap (serve c x) accept_ok ∙ ap (welcome c x) got ∙ welcome_id id stored hello,
    established_lem c id x.addr (incoming fd) here fresh,
  )
    where
      bytes : Memory
      bytes = buffer_of (header_bytes y.padding (id_header id))

      stored : Memory
      stored = write_bytes x.buffer x.hdr_addr (read_bytes x.stream 0 28)

      connected_now : is_connected (incoming fd) ≡ true
      connected_now = ground (arith, good_fd)

      got :
          recv_all x.os x.fuel (incoming fd) x.buffer x.hdr_addr 28 x.stream 0
          ≡ returned Socket.no_error recv_op none 28 (incoming fd) stored
      got =
          recv_all_complete k 28 x.fuel (omega arith) (omega arith) enough' x.os (incoming fd)
            x.buffer x.hdr_addr x.stream 0 rel' connected_now

      stream_is : read_bytes x.stream 0 28 ≡ read_bytes bytes 0 28
      stream_is =
          carried
          ∙ ap (λ r. r.moved_data)
              (send_all_complete k 28 y.fuel (omega arith) (omega arith) enough y.os s bytes 0 rel
                up)

      hello : read_header (read_bytes stored x.hdr_addr 28) ≡ id_header id
      hello =
          ap (λ n. read_header (read_bytes stored x.hdr_addr n))
            (sym (length-read_bytes x.stream 0 28))
          ∙ ap read_header (read_bytes-write_bytes x.buffer x.hdr_addr (read_bytes x.stream 0 28))
          ∙ ap read_header stream_is
          ∙ header_carried y.padding (id_header id) (id_header-InRange id small)
