-- ===== src/Transports.antt =====
-- eROIL/src/router/transport_registry.{h,cpp}: the sockets and shared memory blocks to the peers.
-- A transport is the address of its object, 0 for the null pointer. Whether a socket is connected is
-- state of the socket object, which its receive worker shares: it stands in a heap beside the
-- registry. What an attempt to open a block came to, and where the new object stands, are arguments.
pub mod Laws
use netcomm.Prelude.{
  ℕ, Bool, true, false, not, Option, none, some, List, [], ◌∷◌, ◌==◌, if◌then◌else◌, is_some, Map,
  find, put, emplace, erase,
}
use netcomm.Types.{NodeId}

pub record TransportRegistry : Type 0 where
  pub recv_shm : ℕ
  pub send_shm : Map ℕ
  pub sockets : Map ℕ

-- The socket objects: which addresses hold a connected one.
abbrev pub SocketHeap : Type 0
SocketHeap = ℕ → Bool

unfoldable pub empty_registry : TransportRegistry
empty_registry = record { recv_shm = 0; send_shm = []; sockets = [] }

abbrev pub disconnect : ℕ → SocketHeap → SocketHeap
disconnect sock heap a = if a == sock then false else heap a

-- The disconnects of `upsert_socket` and `delete_socket`: only of a socket that is there.
abbrev pub disconnect_found : Option ℕ → SocketHeap → SocketHeap
disconnect_found none heap = heap
disconnect_found (some sock) heap = disconnect sock heap

-- The pointer that a lookup returns: null for a missing entry.
abbrev pub or_null : Option ℕ → ℕ
or_null none = 0
or_null (some a) = a

unfoldable pub upsert_socket :
    TransportRegistry → SocketHeap → NodeId → ℕ → TransportRegistry × SocketHeap × Bool
upsert_socket t heap id sock = if sock == 0 then (t, heap, false) else (
  record t { sockets = put id sock t.sockets },
  disconnect_found (find id t.sockets) heap,
  true,
)

unfoldable pub delete_socket :
    TransportRegistry → SocketHeap → NodeId → TransportRegistry × SocketHeap × Bool
delete_socket t heap id = elim (find id t.sockets) [
  | none ↦ (t, heap, false)
  | some sock ↦ (record t { sockets = erase id t.sockets }, disconnect sock heap, true)
]

unfoldable pub get_socket : TransportRegistry → NodeId → ℕ
get_socket t id = or_null (find id t.sockets)

pub has_socket : TransportRegistry → NodeId → Bool
has_socket t id = elim (find id t.sockets) [ none ↦ false | some sock ↦ not (sock == 0) ]

pub get_send_shm : TransportRegistry → NodeId → ℕ
get_send_shm t id = or_null (find id t.send_shm)

pub has_send_shm : TransportRegistry → NodeId → Bool
has_send_shm t id = elim (find id t.send_shm) [ none ↦ false | some shm ↦ not (shm == 0) ]

-- `shm` is where `make_shared` puts the block's object, `opened` what its `open` returns.
pub open_send_shm : TransportRegistry → NodeId → ℕ → Bool → TransportRegistry × Bool
unfolding has_send_shm
open_send_shm t dst_id shm opened =
    if has_send_shm t dst_id
    then (t, true)
    else if not opened
    then (t, false)
    else (record t { send_shm = emplace dst_id shm t.send_shm }, true)

-- `created` is what `create_or_open` returns.
unfoldable pub open_recv_shm : TransportRegistry → ℕ → Bool → TransportRegistry × Bool
open_recv_shm t shm created =
    if not (t.recv_shm == 0)
    then (t, true)
    else if not created
    then (record t { recv_shm = 0 }, false)
    else (record t { recv_shm = shm }, true)

unfoldable pub get_recv_shm : TransportRegistry → ℕ
get_recv_shm t = t.recv_shm
