-- ===== src/Transports/Laws.antt =====
-- What a new transport does to the lookups (transport_registry.cpp).
use netcomm.Prelude.{
  ℕ, ◌≡◌, ◌≢◌, Bool, true, false, not, ◌&&◌, ◌==◌, if◌then◌else◌, is_some, find, emplace, find-put,
  arith, ◌⊎◌, inl, inr,
}
use native.Mathlib.Decide.{ℕ_discrete}
use netcomm.Types.{NodeId}
use netcomm.Transports.{
  TransportRegistry, SocketHeap, upsert_socket, has_socket, get_socket, has_send_shm, get_send_shm,
  open_send_shm,
}

module _ (t : TransportRegistry) (id k : NodeId) where
  pub has_socket-upsert_socket :
      (heap : SocketHeap) (sock : ℕ)
      → has_socket (upsert_socket t heap id sock).0 k
        ≡ (if id == k && not (sock == 0) then true else has_socket t k)
  unfolding has_socket upsert_socket
  has_socket-upsert_socket heap sock = ground (arith, find-put k id sock t.sockets)

  pub has_send_shm-upsert_socket :
      (heap : SocketHeap) (sock : ℕ)
      → has_send_shm (upsert_socket t heap id sock).0 k ≡ has_send_shm t k
  unfolding has_send_shm upsert_socket
  has_send_shm-upsert_socket heap sock = ground arith

  pub has_send_shm-open_send_shm :
      (shm : ℕ) (opened : Bool)
      → has_send_shm t k ≡ true
      → has_send_shm (open_send_shm t id shm opened).0 k ≡ true
  unfolding has_send_shm open_send_shm emplace
  has_send_shm-open_send_shm shm opened h = ground (arith, find-put k id shm t.send_shm)

  pub has_socket-open_send_shm :
      (shm : ℕ) (opened : Bool) → has_socket (open_send_shm t id shm opened).0 k ≡ has_socket t k
  unfolding has_socket open_send_shm
  has_socket-open_send_shm shm opened = ground arith

-- A lookup of a peer that has a transport never yields null.
pub get_socket-ne-null :
    (t : TransportRegistry) (id : NodeId) → has_socket t id ≡ true → get_socket t id ≢ 0
unfolding has_socket get_socket
get_socket-ne-null t id h = ground arith

pub get_send_shm-ne-null :
    (t : TransportRegistry) (id : NodeId) → has_send_shm t id ≡ true → get_send_shm t id ≢ 0
unfolding has_send_shm get_send_shm
get_send_shm-ne-null t id h = ground arith

-- A socket that replaces another one disconnects the old one and nothing else; a null socket is
-- refused with everything as it was.
pub upsert_socket_lem :
    (t : TransportRegistry) (heap : SocketHeap) (id : NodeId) (sock : ℕ)
    → ((sock ≡ 0) × (upsert_socket t heap id sock ≡ (t, heap, false)))
      ⊎ ((sock ≢ 0)
          × (get_socket (upsert_socket t heap id sock).0 id ≡ sock)
          × ((a : ℕ)
              → (upsert_socket t heap id sock).1 a
                ≡ (if a == get_socket t id && is_some (find id t.sockets) then false else heap a)))
unfolding upsert_socket get_socket
upsert_socket_lem t heap id sock = elim (ℕ_discrete sock 0) [
  | yes z ↦ inl (z, ground arith)
  | no n ↦ inr (n, ground (arith, find-put id id sock t.sockets), λ a. ground arith)
]
