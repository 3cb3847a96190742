-- ===== src/Workers/ShmRecv.antt =====
-- shm_recv_worker.cpp: get_next_record, the loop that empties the block, and one wait of `run`.
use netcomm.Prelude.{
  ℕ, zero, suc, ◌+◌, Bool, true, false, not, Option, none, some, if◌then◌else◌, ltb, length,
}
use netcomm.Types.{NodeId, LabelHeader, max_label_size, sizeof_label_header}
use netcomm.Types.Words.{inc32}
use netcomm.Memory.{Memory, read_bytes, write_bytes}
use netcomm.Wire.{read_header}
use netcomm.Shm.{
  Block, ShmRecvErr, ShmRecvData, recv_ok, recv_not_initialized, no_records, not_yet_published,
  tail_corruption, block_corrupted, label_too_large, unknown_error, recv, reinit, flush_backlog,
}
use netcomm.Workers.{Target, bad_magic, announced, distributed}

-- The other nodes between two calls: what they make of the block, and how many milliseconds have
-- passed since a record was first found unpublished.
pub record Others : Type 0 where
  pub act : ℕ → Block → Block
  pub elapsed : ℕ → ℕ

abbrev pub max_timeout_ms : ℕ
max_timeout_ms = 50

-- A record or none, the block, and whether the worker has to stop.
pub record Next : Type 0 where
  pub found : Option ShmRecvData
  pub block : Block
  pub stop : Bool

abbrev pub nothing_more : Block → Next
nothing_more b = record { found = none; block = b; stop = false }

-- The results of a call of `recv` other than an unpublished record.
abbrev pub settled : NodeId → ShmRecvErr × Option ShmRecvData × Block → Next
settled id (recv_ok, d, b) = record { found = d; block = b; stop = false }
settled id (no_records, d, b) = nothing_more b
settled id (not_yet_published, d, b) = nothing_more b
settled id (recv_not_initialized, d, b) = record { found = none; block = b; stop = true }
settled id (tail_corruption, d, b) = nothing_more (reinit id b)
settled id (block_corrupted, d, b) = nothing_more (reinit id b)
settled id (label_too_large, d, b) = nothing_more b
settled id (unknown_error, d, b) = nothing_more (reinit id b)

abbrev is_unpublished : ShmRecvErr → Bool
is_unpublished not_yet_published = true
is_unpublished _ = false

-- The loop from call `i`; none while it has not returned.
unfoldable pub get_next_record : ℕ → Others → NodeId → ℕ → ℕ → Block → Option Next
unfolding recv reinit flush_backlog
get_next_record zero others id max_size i b = none
get_next_record (suc fuel) others id max_size i b =
    let r = recv (others.act i b) max_size in
    let rest = get_next_record fuel others id max_size (suc i) r.2 in
    if not (is_unpublished r.0)
    then some (settled id r)
    else if ltb max_timeout_ms (others.elapsed i)
    then some (nothing_more (flush_backlog r.2))
    else rest

-- The worker: its receive buffer keeps what earlier records left.
pub record ShmWorker : Type 0 where
  pub stop : Bool
  pub block : Block
  pub recv_buf : Memory
  pub target : Target

abbrev pub recv_buf_size : ℕ
recv_buf_size = max_label_size + sizeof_label_header

-- One record, in the buffer: the state after it, and whether the loop goes on.
abbrev pub with_header : ShmWorker → ℕ × ℕ → ℕ → LabelHeader → ShmWorker × Bool
with_header w now size hdr =
    if ltb size sizeof_label_header
    then (w, true)
    else if bad_magic hdr
    then (w, true)
    else if ltb max_label_size hdr.label_size
    then (w, false)
    else (
      record w { target = distributed w.target (announced hdr w.recv_buf sizeof_label_header) now },
      true,
    )

unfoldable pub take_record : ShmWorker → ℕ × ℕ → ShmRecvData → ShmWorker × Bool
unfolding read_header distributed
take_record w now d =
    let w' = record w { recv_buf = write_bytes w.recv_buf 0 d.buf } in
    with_header w' now (length d.buf) (read_header (read_bytes w'.recv_buf 0 sizeof_label_header))

abbrev pub after_next : ShmWorker → Next → ShmWorker
after_next w x = record w { block = x.block; stop = if x.stop then true else w.stop }

-- The loop that consumes records until there is none, from its turn `j`; none while it has not
-- returned. `spins` bounds the calls of one `get_next_record`, `others j` is the others in turn `j`.
unfoldable pub drain :
    ℕ → ℕ → (ℕ → Others) → NodeId → (ℕ → ℕ × ℕ) → ℕ → ShmWorker → Option ShmWorker
unfolding get_next_record take_record
drain zero spins others id now j w = none
drain (suc fuel) spins others id now j w =
    elim (get_next_record spins (others j) id recv_buf_size 0 w.block) [
      | none ↦ none
      | some x ↦ elim x.found [
        | none ↦ some (after_next w x)
        | some d ↦
            let r = take_record (after_next w x) (now j) d in
            let rest = drain fuel spins others id now (suc j) r.0 in if r.1 then rest else some r.0
      ]
    ]

-- One turn of `run` after its wait: with the count of failed waits in a row, and none if the worker
-- exits.
abbrev pub max_wait_errors : ℕ
max_wait_errors = 10

unfoldable pub failed_wait : ℕ → Option ℕ
failed_wait count = if ltb max_wait_errors (inc32 count) then none else some (inc32 count)
