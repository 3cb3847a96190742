-- ===== src/Manager/Tests.antt =====
-- Examples of the theorems on the manager, and on sends through handles that it opens.
use netcomm.Prelude.{◌+◌, ◌≡◌, refl, ◌↔◌, ◌<◌, true, false, none, some, find, ◌++◌, ◌%◌, arith}
use netcomm.Memory.{read_bytes}
use netcomm.Types.Words.{inc32}
use netcomm.Wire.{Padding, header_bytes}
use netcomm.Manager.SendLabel.{
  SendArgs, message_buf, data_header, send_label, given_out, send_label_lem,
}
use netcomm.Types.{OpenSendData, SendHandle, max_label_size}
use netcomm.Routes.{SendRoute, empty_table, get_send_route}
use netcomm.Jobs.{send_buf, SendJob}
use netcomm.Router.{Router, empty_router, register_send_publisher, get_send_handle}
use netcomm.Router.Inv.{SendInv, register-SendInv}
use netcomm.Router.Calls.{empty_router-SendInv}
use netcomm.Router.SendJobs.{
  Addressed, within_assert, build_send_job_in, SendOutcome, build_send_job_in_lem,
}
use netcomm.Manager.{Manager, open_send}
use netcomm.Manager.Opening.{Opening, opened_handle, open_send_lem}

abbrev sending : OpenSendData
sending = record {
  label = 7;
  buf = 4096;
  buf_size = 64;
  is_offset = false;
  sem = 0;
  iosb = 0;
  num_iosb = 0;
  iosb_index = 0;
}

abbrev fresh_manager : Manager
fresh_manager = record { id = 1; router = empty_router; next_id = 1 }

open_send_example :
    Opening fresh_manager 500 sending (open_send fresh_manager 500 sending)
    × SendInv (open_send fresh_manager 500 sending).0.router
unfolding empty_router find
open_send_example = open_send_lem fresh_manager 500 sending empty_router-SendInv refl (omega arith)

abbrev handle : SendHandle
handle = record { addr = 500; uid = 1; info = sending }

-- The router after a handle was opened.
abbrev opened : Router
opened = register_send_publisher empty_router (some handle)

handle_open : find 1 opened.send_handles ≡ some handle
unfolding empty_router empty_table get_send_route get_send_handle find
handle_open = opened_handle empty_router handle refl

build_send_job_in_example :
    SendOutcome
      (register-SendInv empty_router handle empty_router-SendInv)
      handle
      0
      1
      (send_buf 4096 64)
      handle_open
      true
      (build_send_job_in true opened 0 1 7 1 (send_buf 4096 64))
    × ((build_send_job_in true opened 0 1 7 1 (send_buf 4096 64) ≡ none)
        ↔ (true ≡ true) × (max_label_size < (send_buf 4096 64).total_size))
build_send_job_in_example =
    build_send_job_in_lem (register-SendInv empty_router handle empty_router-SendInv) handle 0 1
      (send_buf 4096 64) handle_open true

abbrev own_buffer : SendArgs
own_buffer = record { buf = 0; buf_size = 0; send_offset = 0; recv_offset = 0 }

abbrev padding : Padding
padding = record { after_version = 0; after_flags = 0xffff }

abbrev opened_manager : Manager
opened_manager = record { id = 1; router = opened; next_id = 2 }

send_label_example :
    (job : SendJob) × (route : SendRoute) × (get_send_route opened.routes 7 ≡ some route)
    × Addressed opened route handle job
    × (within_assert job.send_buffer ≡ true)
    × (job.send_buffer ≡ message_buf opened_manager padding (λ a. a % 256) handle own_buffer)
    × (job.send_buffer.bytes
        ≡ header_bytes padding (data_header 1 7 64 0) ++ read_bytes (λ a. a % 256) (4096 + 0) 64)
    × (send_label opened_manager 41 padding (λ a. a % 256) (0, 0) (some handle) own_buffer
        ≡ some (given_out handle (0, 0) job, inc32 41))
send_label_example =
    send_label_lem opened_manager (register-SendInv empty_router handle empty_router-SendInv) handle
      handle_open 41 padding (λ a. a % 256) (0, 0) own_buffer refl (omega arith) (omega arith)
      (omega arith)
