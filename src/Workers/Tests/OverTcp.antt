-- ===== src/Workers/Tests/OverTcp.antt =====
-- Examples of the theorems on what a socket sends, and on the worker of the socket.
use netcomm.Prelude.{◌≡◌, refl, true, false, arith}
use netcomm.Memory.{Memory, buffer_of, read_bytes, write_bytes}
use netcomm.Wire.{header_bytes, le_bytes, le_value, field, read_header, copy_into}
use netcomm.Jobs.{send_buf}
use netcomm.Manager.SendLabel.{filled_buf}
use netcomm.Socket.{TcpSocket, moved, is_connected, handle_valid, refused}
use netcomm.Socket
use netcomm.Socket.Tests.{drip, drip-Reliable, live, live_up}
use netcomm.Workers.{distributed}
use netcomm.Workers.Plans.{tcp_send_one}
use netcomm.Workers.SocketRecv.{SocketWorker, Turn, goes_on, exits, socket_turn}
use netcomm.Workers.Stream.{Undisturbed, socket_turn-rejects}
use netcomm.Workers.EndToEnd.{label_message, label_over_tcp}
use netcomm.Workers.Tests.{sender, handle, args, gaps, memory, job, target}

-- The socket's worker, on a stream that begins with the bytes that went out.
abbrev socket_worker : Memory → SocketWorker
socket_worker stream = record {
  stop = false;
  sock = live;
  stream = stream;
  received = 0;
  hdr = λ a. 0;
  payload = λ a. 0;
  target = target;
}

abbrev turn : Turn
turn = record { stops = λ i. false; hdr_os = drip; payload_os = drip; fuel = 100; now = (0, 0) }

calm : Undisturbed turn 1 4
calm = record {
  unstopped = λ i. refl;
  hdr_os = drip-Reliable;
  payload_os = drip-Reliable;
  hdr_enough = omega arith;
  payload_enough = omega arith;
}

abbrev arriving : Memory
arriving = buffer_of (tcp_send_one live job (moved 32)).2

arriving_is : read_bytes arriving 0 32 ≡ (tcp_send_one live job (moved 32)).2
unfolding tcp_send_one Socket.send refused is_connected handle_valid filled_buf send_buf copy_into
    header_bytes le_bytes read_bytes write_bytes
arriving_is = refl

label_over_tcp_example :
    (w' : SocketWorker) × (socket_turn (socket_worker arriving) turn ≡ goes_on w')
    × (w'.target ≡ distributed target (label_message sender memory handle args) (0, 0))
label_over_tcp_example =
    label_over_tcp sender gaps memory handle args (omega arith) (omega arith) (omega arith)
      (omega arith) job refl live (socket_worker arriving) turn 1 live_up refl live_up calm
      arriving_is

socket_turn-rejects_example :
    (w' : SocketWorker) × (socket_turn (socket_worker (λ a. 0)) turn ≡ exits w')
    × (is_connected w'.sock ≡ false)
    × (w'.target ≡ target)
    × (w'.stop ≡ true)
unfolding read_header field le_value read_bytes
socket_turn-rejects_example =
    socket_turn-rejects (socket_worker (λ a. 0)) turn 1 4 refl live_up calm refl
