-- ===== src/Comms/Tests.antt =====
-- Examples of the theorems on links.
use netcomm.Prelude.{◌≡◌, ◌≢◌, refl, true, some, none, [], find, arith}
use netcomm.Types.{NodeId}
use netcomm.Memory.{buffer_of, read_bytes, write_bytes}
use netcomm.Wire.{header_bytes, le_bytes}
use netcomm.Address.{NodeAddress, socket_kind}
use netcomm.Transports.{get_socket, empty_registry}
use netcomm.Router.{empty_router}
use netcomm.Socket.{
  new_socket, made, ip, accepted, handle_valid, is_connected, refused, send_all, send_loop,
}
use netcomm.Socket.Tests.{drip, drip-Reliable, live, live_up}
use netcomm.Comms.{Comms, Sends, id_header, send_header}
use netcomm.Comms.Handshake.{Established, incoming, server_turn-send_id}
use netcomm.Comms.Links.{Arrival, Attempt, server_turn}

-- A node without links, and a peer with a lower id.
abbrev fresh_node : NodeId → Comms
fresh_node id = record {
  id = id;
  router = empty_router;
  clients = λ a. record { sock = new_socket; dest_id = 0xffffffff };
  sock_recvrs = [];
}

abbrev peer : NodeAddress
peer = record { kind = socket_kind; id = 1; ip = []; port = 8080 }

abbrev dripping : Sends
dripping = record {
  os = drip;
  fuel = 100;
  padding = record { after_version = 0xbeef; after_flags = 17 };
}

abbrev attempt : Attempt
attempt = record { addr = 4096; fd = made 9; ip = ip 1; answer = none; id_sends = dripping }

-- The other side: node 1 listens, and node 3 connects to it.
abbrev arrival : Arrival
arrival = record {
  connection = accepted 5;
  addr = 4096;
  buffer = λ a. 0;
  hdr_addr = 64;
  os = drip;
  fuel = 100;
  stream = buffer_of (header_bytes dripping.padding (id_header 3));
}

hello_carried :
    read_bytes arrival.stream 0 28 ≡ (send_header dripping live (id_header 3)).moved_data
unfolding send_header send_all send_loop refused is_connected handle_valid read_bytes write_bytes
    header_bytes le_bytes
hello_carried = refl

listening : handle_valid live ≡ true
unfolding handle_valid
listening = refl

unknown_peer : get_socket (fresh_node 1).router.transports 3 ≢ 4096
unfolding empty_router empty_registry find get_socket
unknown_peer = ground arith

server_turn-send_id_example :
    (c' : Comms) × (server_turn (fresh_node 1) live arrival ≡ some c')
    × Established (fresh_node 1) 3 4096 (incoming 5) c'
server_turn-send_id_example =
    server_turn-send_id (fresh_node 1) live arrival 5 listening refl (ground arith) dripping live 3
      1 drip-Reliable drip-Reliable live_up (omega arith) (omega arith) (omega arith) (omega arith)
      unknown_peer hello_carried
