-- ===== src/Address.antt =====
-- eROIL/src/address/address.{h,cpp}: the address book, read from the rows of the peer file, and the
-- sets of peers that follow from it. A text is the list of its character codes.
pub mod Kinds
pub mod Peers
pub mod Tests
use netcomm.Prelude.{
  ℕ, zero, suc, ◌+◌, ◌%◌, ◌^◌, Bool, true, false, Option, none, some, List, [], ◌∷◌, ◌==◌, leb,
  if◌then◌else◌, is_some, Map, find, emplace, ◌>>=◌,
}
use netcomm.Types.{NodeId, invalid_node}
use netcomm.Types.Words.{slt32, sle32}

abbrev pub Text : Type 0
Text = List ℕ

abbrev pub same_text : Text → Text → Bool
same_text [] [] = true
same_text [] (c ∷ cs) = false
same_text (b ∷ bs) [] = false
same_text (b ∷ bs) (c ∷ cs) = let rest = same_text bs cs in if b == c then rest else false

pub data RouteKind : Type 0 where
  no_kind shm_kind socket_kind self_kind : RouteKind

pub record NodeAddress : Type 0 where
  pub kind : RouteKind
  pub id : NodeId
  pub ip : Text
  pub port : ℕ

pub record PeerSet : Type 0 where
  pub local : List NodeAddress
  pub remote : List NodeAddress
  pub remote_connect_to : List NodeAddress

-- `row[i]`; none is a read past the end of the row.
cell : ℕ → List Text → Option Text
cell i [] = none
cell zero (x ∷ row) = some x
cell (suc i) (x ∷ row) = cell i row

-- The address kind that a peer gets: this node, the same machine, or another machine.
unfoldable pub kind_for : NodeAddress → NodeAddress → RouteKind
kind_for self addr =
    if addr.id == self.id
    then self_kind
    else if same_text addr.ip self.ip
    then shm_kind
    else socket_kind

unfoldable pub set_kinds : NodeAddress → Map NodeAddress → Map NodeAddress
unfolding kind_for
set_kinds self [] = []
set_kinds self ((id, addr) ∷ book) =
    (id, record addr { kind = kind_for self addr }) ∷ set_kinds self book

-- The entry of a row with the id of a node. The port is an `int16_t`.
unfoldable pub add_row : Map NodeAddress → ℕ → Text → ℕ → Map NodeAddress
add_row book id ip port =
    if leb (2 ^ 15) (port % 2 ^ 16)
    then book
    else if is_some (find id book)
    then book
    else emplace id (record { kind = no_kind; id = id; ip = ip; port = port % 2 ^ 16 }) book

-- The second half of `init_address_book`, on the entry found for this node.
abbrev pub set_up : Map NodeAddress → Option NodeAddress → Map NodeAddress × Bool
set_up book none = (book, false)
set_up book (some self) = (set_kinds self book, true)

-- `stoi` is the standard library's: the pattern of the `int` that a text starts with, or none where
-- it throws.
module _ (stoi : Text → Option ℕ) where
  -- The rest of the loop's body, for a row with this id.
  unfoldable pub read_rest : Map NodeAddress → List Text → NodeId → Option (Map NodeAddress)
  unfolding cell add_row
  read_rest book row id = do
    ip ← cell 1 row
    c2 ← cell 2 row
    port ← stoi c2
    some (add_row book id ip port)

  -- The body of the loop over the rows: a row with an id that is no node's is left before its other
  -- cells are read. None for a row that is too short, or a cell that is no number.
  unfoldable pub read_row : Map NodeAddress → List Text → Option (Map NodeAddress)
  unfolding cell read_rest
  read_row book row = do
    c0 ← cell 0 row
    id ← stoi c0
    if sle32 id invalid_node then some book else read_rest book row id

  unfoldable pub build_book : Map NodeAddress → List (List Text) → Option (Map NodeAddress)
  unfolding read_row
  build_book book [] = some book
  build_book book (row ∷ rows) = do next ← read_row book row; build_book next rows

  -- The book afterwards and the result, from the book of earlier calls; none where reading a row
  -- fails.
  unfoldable pub init_address_book :
      Map NodeAddress → NodeId → List (List Text) → Option (Map NodeAddress × Bool)
  unfolding build_book set_kinds
  init_address_book book my_id [] = some (book, false)
  init_address_book book my_id (row ∷ rows) = do
    built ← build_book book (row ∷ rows)
    some (set_up built (find my_id built))

unfoldable pub get_address : Map NodeAddress → NodeId → NodeAddress
get_address book id = elim (find id book) [
  | none ↦ record { kind = no_kind; id = id; ip = []; port = 0 }
  | some addr ↦ addr
]

-- One step of the loop of `get_peer_set`, before the peers that the rest of the book gives.
abbrev pub add_peer : NodeId → NodeId → NodeAddress → PeerSet → PeerSet
add_peer my_id id info sets = elim info.kind [
  | no_kind ↦ sets
  | self_kind ↦ record sets { local = info ∷ sets.local }
  | shm_kind ↦ record sets { local = info ∷ sets.local }
  | socket_kind ↦ record sets {
    remote = info ∷ sets.remote;
    remote_connect_to =
        if slt32 id my_id then info ∷ sets.remote_connect_to else sets.remote_connect_to;
  }
]

unfoldable pub get_peer_set : NodeId → Map NodeAddress → PeerSet
get_peer_set my_id [] = record { local = []; remote = []; remote_connect_to = [] }
get_peer_set my_id ((id, info) ∷ book) = add_peer my_id id info (get_peer_set my_id book)

-- The first entry of kind Self, as the test modes look for it.
unfoldable pub find_self : Map NodeAddress → Option NodeAddress
find_self [] = none
find_self ((id, addr) ∷ book) =
    let rest = find_self book in elim addr.kind [ self_kind ↦ some addr | _ ↦ rest ]

-- The loop of a test mode: every other entry gets the kind that the mode gives.
unfoldable pub rewrite_kinds :
    NodeId → (NodeAddress → RouteKind) → Map NodeAddress → Map NodeAddress
rewrite_kinds self f [] = []
rewrite_kinds self f ((id, addr) ∷ book) =
    let rest = rewrite_kinds self f book in
    if id == self then (id, addr) ∷ rest else (id, record addr { kind = f addr }) ∷ rest

in_mode : (NodeAddress → NodeAddress → RouteKind) → Map NodeAddress → Map NodeAddress
unfolding find_self rewrite_kinds
in_mode f book = elim (find_self book) [
  | none ↦ book
  | some self ↦ rewrite_kinds self.id (f self) book
]

unfoldable pub all_shm_address_book : Map NodeAddress → Map NodeAddress
unfolding in_mode
all_shm_address_book = in_mode (λ self addr. shm_kind)

unfoldable pub all_socket_address_book : Map NodeAddress → Map NodeAddress
unfolding in_mode
all_socket_address_book = in_mode (λ self addr. socket_kind)

pub test_kind : NodeAddress → NodeAddress → RouteKind
test_kind self addr =
    if self.id % 2 == 0
    then (if addr.id % 2 == 0 then shm_kind else socket_kind)
    else (if addr.id % 2 == 0 then socket_kind else shm_kind)

unfoldable pub test_network_address_book : Map NodeAddress → Map NodeAddress
unfolding in_mode test_kind
test_network_address_book = in_mode test_kind
