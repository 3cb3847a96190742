-- ===== src/Comms/Opener.antt =====
-- The shared memory blocks of the local peers (connection_manager.cpp: spawn_local_shm_opener).
use netcomm.Prelude.{
  ℕ, zero, suc, ◌+◌, Bool, not, Option, none, some, List, [], ◌∷◌, ◌==◌, if◌then◌else◌, leb, length,
}
use netcomm.Types.{NodeId}
use netcomm.Address.{NodeAddress}
use netcomm.Transports.{get_send_shm}
use netcomm.Router.{Router, open_send_shm}

-- What one attempt to open a peer's block comes to: where its object stands, and whether it opened.
abbrev pub Opens : Type 0
Opens = NodeId → ℕ × Bool

-- One pass over the local peers, with the count of the blocks found.
unfoldable pub open_pass : Opens → Router → List NodeAddress → ℕ → Router × ℕ
open_pass opens r [] found = (r, found)
open_pass opens r (info ∷ peers) found =
    let (r', done) = open_send_shm r info.id (opens info.id).0 (opens info.id).1 in
    let skipped = open_pass opens r peers found in
    let tried = open_pass opens r' peers (if done then found + 1 else found) in
    if not (get_send_shm r.transports info.id == 0) then skipped else tried

-- The loop from pass `i`; none while it has not ended.
unfoldable pub open_loop : ℕ → (ℕ → Opens) → Router → List NodeAddress → ℕ → ℕ → Option Router
unfolding open_pass
open_loop zero opens r peers found i = none
open_loop (suc fuel) opens r peers found i =
    let pass = open_pass (opens i) r peers found in
    let rest = open_loop fuel opens pass.0 peers pass.1 (suc i) in
    if leb (length peers) pass.1 then some pass.0 else rest

unfoldable pub spawn_local_shm_opener : ℕ → (ℕ → Opens) → Router → List NodeAddress → Option Router
unfolding open_loop
spawn_local_shm_opener fuel opens r peers = open_loop fuel opens r peers 0 0
