-- ===== src/Workers.antt =====
-- eROIL/src/workers: the send of one job to one receiver (send_plan.h), and what the two receive
-- workers (shm_recv_worker.cpp, socket_recv_worker.cpp) do with an arrived message.
pub mod Plans
pub mod ShmRecv
pub mod Draining
pub mod SocketRecv
pub mod Stream
pub mod EndToEnd
pub mod Delivery
pub mod Tests
use netcomm.Prelude.{ℕ, Bool, true, false, not, ◌||◌, if◌then◌else◌, ◌==◌, ltb}
use netcomm.Types.{LabelHeader, magic_num, version}
use netcomm.Memory.{Memory, read_bytes}
use netcomm.Delivery.{Message}
use netcomm.Router.{Router}
use netcomm.Router.Distribution.{Distributed, distribute_recvd_label}

-- What a receive worker works on besides its transport: the router, and the clients' memory.
pub record Target : Type 0 where
  pub router : Router
  pub memory : Memory

abbrev pub bad_magic : LabelHeader → Bool
bad_magic h = not (h.magic == magic_num) || not (h.version == version)

-- The message that a header announces, in a buffer at an address.
abbrev pub announced : LabelHeader → Memory → ℕ → Message
announced h m a = record {
  source_id = h.source_id;
  label = h.label;
  bytes = read_bytes m a h.label_size;
  recv_offset = h.recv_offset;
}

unfoldable pub distributed : Target → Message → ℕ × ℕ → Target
unfolding distribute_recvd_label
distributed t msg now =
    let d = distribute_recvd_label t.router msg now t.memory in
    record { router = record (t.router) { recv_handles = d.handles }; memory = d.memory }
