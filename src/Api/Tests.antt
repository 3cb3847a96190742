-- ===== src/Api/Tests.antt =====
-- Examples of the theorems on the interfaces.
use netcomm.Prelude.{◌*◌, ◌%◌, ◌≡◌, true, false, none, [], ◌∷◌, arith}
use netcomm.Wire.{Padding}
use netcomm.Address.{shm_kind}
use netcomm.Api.{Program, Start, normal, init_manager}
use netcomm.Api.Cpp
use netcomm.Api.Nae.{nae_open_send_label, nae_send_label, nae_open_receive_label}
use netcomm.Api.Agreement.{interfaces_agree}

abbrev start : Start
start = record {
  mode = normal;
  book = (1, record { kind = shm_kind; id = 1; ip = []; port = 80 }) ∷ [];
  book_ok = true;
  sock_context_ok = true;
  comms_ok = true;
  broadcast_ok = true;
}

abbrev new_program : Program
new_program = record {
  manager = none;
  initialized = false;
  config_id = 0;
  address_book = [];
  next_id = 1;
}

abbrev running : Program
running = (init_manager new_program 1 start).0

abbrev padding : Padding
padding = record { after_version = 0; after_flags = 0 }

interfaces_agree_example :
    (nae_open_send_label running 500 7 4096 16 2 0 0 3
      ≡ Cpp.open_send_label running 500 7 4096 (4 * 16) 2 0 0 3)
    × (nae_open_receive_label running 500 7 0xffffffff 4096 4 16 0 0 0 3 2
        ≡ Cpp.open_recv_label running 500 7 4096 (4 * 16) 4 0 0 0 3 2)
    × (nae_send_label running 41 padding (λ a. a % 256) (0, 0) none 4096 16 0 8
        ≡ Cpp.send_label running 41 padding
            (λ a. a % 256)
            (0, 0)
            none
            (record { buf = 4096; buf_size = 4 * 16; send_offset = 0; recv_offset = 8 }))
interfaces_agree_example =
    interfaces_agree running 500 7 4096 16 0 0 3 (omega arith) (omega arith) 2 4 0 2 41 0 8 padding
      (λ a. a % 256) (0, 0) none (omega arith) (omega arith) (omega arith)
