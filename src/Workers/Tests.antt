-- ===== src/Workers/Tests.antt =====
-- The data of the examples on the workers: one label of four bytes from node 1 to a client of
-- another node.
pub mod OverShm
pub mod OverTcp
use netcomm.Prelude.{◌%◌, true, false, some, [], ◌∷◌}
use netcomm.Types.{SendHandle, RecvHandle, every_message}
use netcomm.Memory.{Memory}
use netcomm.Wire.{Padding}
use netcomm.Jobs.{SendJob}
use netcomm.Manager.{Manager}
use netcomm.Manager.SendLabel.{SendArgs, message_buf}
use netcomm.Workers.{Target}

abbrev pub sender : Manager
sender = record {
  id = 1;
  router = record {
    routes = record { send_routes = []; recv_routes = []; send_gen = 0; recv_gen = 0 };
    transports = record { recv_shm = 0; send_shm = []; sockets = [] };
    send_handles = [];
    recv_handles = [];
  };
  next_id = 2;
}

abbrev pub handle : SendHandle
handle = record {
  addr = 500;
  uid = 1;
  info = record {
    label = 7;
    buf = 4096;
    buf_size = 4;
    is_offset = true;
    sem = 0;
    iosb = 0;
    num_iosb = 0;
    iosb_index = 0;
  };
}

abbrev pub args : SendArgs
args = record { buf = 0; buf_size = 0; send_offset = 0; recv_offset = 2 }

abbrev pub gaps : Padding
gaps = record { after_version = 0; after_flags = 7 }

abbrev pub memory : Memory
memory a = a % 251

abbrev pub job : SendJob
job = record {
  source_id = 1;
  label = 7;
  send_buffer = message_buf sender gaps memory handle args;
  seq = 3;
  publisher = some handle;
  local_failure_count = 0;
  local_recvrs = 600 ∷ [];
  remote_failure_count = 0;
  remote_recvrs = [];
  pending_sends = 1;
}

-- A node with one client of the label.
abbrev client : RecvHandle
client = record {
  addr = 700;
  uid = 5;
  is_idle = false;
  info = record {
    label = 7;
    buf = 8192;
    buf_size = 8;
    buf_slots = 2;
    buf_index = 0;
    aux_buf = 0;
    sem = 0;
    iosb = 0;
    num_iosb = 0;
    iosb_index = 0;
    signal_mode = every_message;
    recv_count = 0;
  };
}

abbrev pub target : Target
target = record {
  router = record {
    routes = record {
      send_routes = [];
      recv_routes = (7, record { label = 7; label_size = 4; subscribers = 5 ∷ [] }) ∷ [];
      send_gen = 1;
      recv_gen = 2;
    };
    transports = record { recv_shm = 600; send_shm = []; sockets = [] };
    send_handles = [];
    recv_handles = (5, client) ∷ [];
  };
  memory = λ a. 0;
}
