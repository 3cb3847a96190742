-- ===== src/Comms.antt =====
-- eROIL/src/comm/connection_manager.{h,cpp}: the hand-over of a send to the workers, and the links
-- to the peers: the receive worker of each, and the message that a new link begins with.
-- The socket objects are a store by address; where a new one stands, and what the system's calls
-- give, are arguments. Start, stop and join of a worker's thread are the worker's entry and its
-- removal. The event log, the messages and the sleeps are left out.
pub mod Links
pub mod Opener
pub mod Handshake
pub mod Monitor
pub mod Healing
pub mod Tests
use netcomm.Prelude.{
  ℕ, suc, ◌+◌, Bool, true, false, not, ◌||◌, ◌&&◌, Option, none, some, List, [], ◌∷◌, ◌==◌,
  if◌then◌else◌, is_some, is_empty, Map, find, emplace, erase,
}
use netcomm.Types.{
  Label, NodeId, HandleUid, LabelHeader, magic_num, version, connect_flag, ping_flag, flag_value,
  sizeof_label_header,
}
use netcomm.Memory.{buffer_of}
use netcomm.Wire.{Padding, header_bytes}
use netcomm.Transports.{get_socket, or_null}
use netcomm.Router.{Router, upsert_socket}
use netcomm.Router.SendJobs.{build_send_job}
use netcomm.Jobs.{SendBuf, SendJob, SendJobErr, no_error, Finished, finalize_send_iosb}
use netcomm.Socket.{
  TcpSocket, SockErr, resource_exhausted, would_block, size_zero, size_too_large, Calls, Run,
  new_socket, disconnect, is_connected, send_all,
}
use netcomm.Socket

unfoldable pub map_sock_failures : SockErr → Bool
map_sock_failures Socket.no_error = true
map_sock_failures resource_exhausted = true
map_sock_failures would_block = true
map_sock_failures size_zero = true
map_sock_failures size_too_large = true
map_sock_failures _ = false

-- What becomes of a send: it is dropped; it has no receiver and is finished at once; or its job is
-- in the queue of the local workers, of the remote ones, or in both.
pub data Enqueued : Type 0 where
  dropped : SendJobErr → Enqueued
  finished : Option Finished → Enqueued
  queued : SendJob → Bool → Bool → Enqueued

abbrev pub finish_now : ℕ × ℕ → SendJob → Option Finished
finish_now now job = elim job.publisher [
  | none ↦ none
  | some h ↦ some (finalize_send_iosb job h now)
]

abbrev pub is_accepted : SendJobErr → Bool
is_accepted no_error = true
is_accepted _ = false

unfoldable pub hand_over : ℕ × ℕ → SendJobErr × SendJob → Enqueued
hand_over now (err, job) =
    if not (is_accepted err)
    then dropped err
    else if is_empty job.local_recvrs && is_empty job.remote_recvrs
    then finished (finish_now now job)
    else queued job (not (is_empty job.local_recvrs)) (not (is_empty job.remote_recvrs))

-- `seq` is the counter of the router's jobs; the new counter is the second result.
unfoldable pub enqueue_send :
    Router → ℕ → NodeId → ℕ × ℕ → HandleUid → Label → SendBuf → Enqueued × ℕ
unfolding hand_over
enqueue_send r seq my_id now uid label buf =
    let (built, seq') = build_send_job r seq my_id label uid buf in (hand_over now built, seq')

-- TCPClient: a socket and the peer that it goes to.
pub record TcpClient : Type 0 where
  pub sock : TcpSocket
  pub dest_id : NodeId

-- A receive worker listens to the socket that the registry had for its peer when it was made.
pub record RecvWorker : Type 0 where
  pub sock : ℕ

pub record Comms : Type 0 where
  pub id : NodeId
  pub router : Router
  pub clients : ℕ → TcpClient
  pub sock_recvrs : Map RecvWorker

abbrev pub set_client : ℕ → TcpClient → (ℕ → TcpClient) → ℕ → TcpClient
set_client addr client clients a = if addr == a then client else clients a

abbrev pub disconnect_client : ℕ → (ℕ → TcpClient) → ℕ → TcpClient
disconnect_client addr clients =
    set_client addr (record (clients addr) { sock = disconnect (clients addr).sock }) clients

unfoldable pub start_remote_recv_worker : Comms → NodeId → Comms
start_remote_recv_worker c peer_id = if is_some (find peer_id c.sock_recvrs) then c else record c {
  sock_recvrs =
      emplace peer_id (record { sock = get_socket c.router.transports peer_id }) c.sock_recvrs;
}

unfoldable pub stop_remote_recv_worker : Comms → NodeId → Comms
stop_remote_recv_worker c from_id = record c { sock_recvrs = erase from_id c.sock_recvrs }

-- `upsert_socket` on the objects themselves: a socket that is replaced is disconnected.
abbrev pub replaced : Option ℕ → (ℕ → TcpClient) → ℕ → TcpClient
replaced none clients = clients
replaced (some old) clients = disconnect_client old clients

abbrev pub upsert_client : Comms → NodeId → ℕ → Comms
upsert_client c id addr = record c {
  router = (upsert_socket c.router (λ a. is_connected (c.clients a).sock) id addr).0;
  clients =
      if addr == 0 then c.clients else replaced (find id c.router.transports.sockets) c.clients;
}

-- A new link: the socket object gets its peer, replaces the one before, and a worker starts.
unfoldable pub established : Comms → NodeId → ℕ → TcpSocket → Comms
unfolding start_remote_recv_worker
established c peer_id addr sock =
    start_remote_recv_worker
      (upsert_client
        (record c {
          clients = set_client addr (record { sock = sock; dest_id = peer_id }) c.clients;
        })
        peer_id addr)
      peer_id

-- The headers of `send_id` and `send_ping`.
abbrev pub id_header : NodeId → LabelHeader
id_header my_id = record {
  magic = magic_num;
  version = version;
  source_id = my_id;
  flags = flag_value connect_flag;
  label = 0;
  label_size = 0;
  recv_offset = 0;
}

abbrev pub ping_header : NodeId → LabelHeader
ping_header my_id = record (id_header my_id) { flags = flag_value ping_flag }

-- The calls of one send, and how many of them are made.
pub record Sends : Type 0 where
  pub os : Calls
  pub fuel : ℕ
  pub padding : Padding

unfoldable pub send_header : Sends → TcpSocket → LabelHeader → Run (List ℕ)
send_header x s h =
    send_all x.os x.fuel s (buffer_of (header_bytes x.padding h)) 0 sizeof_label_header

-- The result of `send_id` and `send_ping`, none while the send has not returned.
unfoldable pub accepted_send : Run (List ℕ) → Option Bool
accepted_send run = elim run.result [ none ↦ none | some r ↦ some (map_sock_failures r.code) ]
