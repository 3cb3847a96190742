-- ===== src/Api/Starting.antt =====
-- The start of the program (root.cpp, eroil_c.cpp).
use netcomm.Prelude.{◌≡◌, false, ◌&&◌, if◌then◌else◌, Bool-cases, inl, inr, arith}
use netcomm.Types.{NodeId}
use netcomm.Address.{get_address}
use netcomm.Api.{
  Program, Start, is_ready, init_manager, manager_valid, manager_init, has_kind, book_for,
}
use netcomm.Api.Nae.{nae_init, nae_is_agent_up, nae_get_node_id}

-- Starting a program that is not initialized says 1 exactly if it is up afterwards, and exactly if the
-- book was set up and has an entry with a kind for the node in its mode, there is a socket context, and
-- the links and the broadcast start; the node's number is then the one that was asked for.
pub nae_init_lem :
    (p : Program) (id : NodeId) (start : Start)
    → p.initialized ≡ false
    → ((nae_init p id start).1 ≡ nae_is_agent_up (nae_init p id start).0)
      × ((nae_init p id start).1 ≡ (
          if start.book_ok
            && has_kind (get_address (book_for start.mode start.book) id)
            && start.sock_context_ok
            && start.comms_ok
            && start.broadcast_ok
          then 1
          else 0))
      × (nae_get_node_id (nae_init p id start).0 ≡ id)
unfolding nae_init init_manager nae_is_agent_up is_ready nae_get_node_id manager_valid manager_init
nae_init_lem p id start fresh = elim (Bool-cases start.book_ok) [
  | inl known ↦ (ground (arith, known), ground (arith, known), ground (arith, known))
  | inr failed ↦ (ground (arith, failed, fresh), ground (arith, failed), ground (arith, failed))
]
