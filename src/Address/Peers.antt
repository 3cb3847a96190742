-- ===== src/Address/Peers.antt =====
-- The peer sets of two nodes (address.cpp, get_peer_set).
use netcomm.Prelude.{
  ℕ, ◌^◌, ◌<◌, ◌≡◌, ◌≢◌, refl, ap, sym, subst, ◌∙◌, Bool, true, false, not, Option, some, List, [],
  ◌∷◌, map, if◌then◌else◌, Map, find, keys, contains, contains-keys, Distinct, arith,
}
use netcomm.Types.{NodeId}
use netcomm.Types.Words.{slt32}
use netcomm.Address.{
  Text, RouteKind, no_kind, shm_kind, socket_kind, self_kind, NodeAddress, same_text, kind_for,
  set_kinds, init_address_book, get_address, get_peer_set,
}
use netcomm.Address.Kinds.{
  IsBook, empty-IsBook, init_address_book-IsMade, init_address_book_lem, set_kinds-source,
  keys-set_kinds, find-set_kinds,
}

abbrev pub ids : List NodeAddress → List ℕ
ids = map (λ a. a.id)

abbrev pub is_local_kind : RouteKind → Bool
is_local_kind no_kind = false
is_local_kind shm_kind = true
is_local_kind socket_kind = false
is_local_kind self_kind = true

abbrev pub is_socket_kind : RouteKind → Bool
is_socket_kind no_kind = false
is_socket_kind shm_kind = false
is_socket_kind socket_kind = true
is_socket_kind self_kind = false

-- The part of a book after its first entry is a book.
tail-IsBook :
    (j : NodeId) (a : NodeAddress) (book : Map NodeAddress)
    → IsBook ((j, a) ∷ book)
    → (a.id ≡ j) × (contains j (keys book) ≡ false) × IsBook book
unfolding find keys
tail-IsBook j a book b = (
  ground (arith, b.ids j a),
  b.distinct.0,
  record {
    ids = λ id c f. ground (arith, b.ids id c, contains-keys j book, b.distinct.0);
    distinct = b.distinct.1;
  },
)

-- In a book where each entry stands under its own id and no id stands twice, the peer sets
-- hold exactly the nodes that have the kind for it: the local set those of this machine, the
-- remote set those of other machines, and the set to connect to those of the remote set with a
-- smaller id.
pub get_peer_set_lem :
    (my_id id : NodeId) (book : Map NodeAddress)
    → IsBook book
    → let sets = get_peer_set my_id book in
      let kind = (get_address book id).kind in
      (contains id (ids sets.local) ≡ is_local_kind kind)
      × (contains id (ids sets.remote) ≡ is_socket_kind kind)
      × (contains id (ids sets.remote_connect_to)
          ≡ (if is_socket_kind kind then slt32 id my_id else false))
unfolding get_address get_peer_set find
get_peer_set_lem my_id id [] b = (refl, refl, refl)
get_peer_set_lem my_id id ((j, a) ∷ book) b =
    let (e, new, rest) = tail-IsBook j a book b in
    ground (arith, get_peer_set_lem my_id id book rest, e, new, contains-keys j book)

same_text_comm : (s t : Text) → same_text s t ≡ same_text t s
same_text_comm [] [] = refl
same_text_comm [] (c ∷ cs) = refl
same_text_comm (b ∷ bs) [] = refl
same_text_comm (b ∷ bs) (c ∷ cs) = ground (arith, same_text_comm bs cs)

-- Of two different ids exactly one is the smaller one.
slt32-total : (a b : NodeId) → a < 2 ^ 32 → b < 2 ^ 32 → a ≢ b → slt32 a b ≡ not (slt32 b a)
slt32-total a b ha hb ne = ground arith

module _ (stoi : Text → Option ℕ) where
  set_kinds-IsBook :
      (self : NodeAddress) (book : Map NodeAddress) → IsBook book → IsBook (set_kinds self book)
  set_kinds-IsBook self book b = record {
    ids = λ id a f.
        let (c, fc, ec) = set_kinds-source self book id a f in
        ap (λ x. x.id) (sym ec) ∙ b.ids id c fc;
    distinct = subst Distinct (sym (keys-set_kinds self book)) b.distinct;
  }

  pub made-IsBook :
      (my_id : NodeId) (rows : List (List Text)) (book : Map NodeAddress)
      → init_address_book stoi [] my_id rows ≡ some (book, true)
      → IsBook book
  made-IsBook my_id rows book e =
      let made = init_address_book-IsMade stoi [] my_id rows book empty-IsBook e in
      let kinds = made.kinds in
      subst IsBook (sym kinds) (set_kinds-IsBook made.self made.base made.base_ok)

  -- Two nodes that read the same rows agree on every entry but its kind.
  same_entries :
      (a b id : NodeId) (rows : List (List Text)) (book_a book_b : Map NodeAddress)
      (p : NodeAddress)
      → init_address_book stoi [] a rows ≡ some (book_a, true)
      → init_address_book stoi [] b rows ≡ some (book_b, true)
      → find id book_a ≡ some p
      → (q : NodeAddress) × (find id book_b ≡ some q) × (q.ip ≡ p.ip)
  same_entries a b id rows book_a book_b p ea eb f =
      let made_a = init_address_book-IsMade stoi [] a rows book_a empty-IsBook ea in
      let made_b = init_address_book-IsMade stoi [] b rows book_b empty-IsBook eb in
      let kinds_a = made_a.kinds in
      let kinds_b = made_b.kinds in
      let bases : made_a.base ≡ made_b.base = cc in
      let (c, fc, ec) =
        set_kinds-source made_a.self made_a.base id p (subst (λ k. find id k ≡ some p) kinds_a f) in
      (
        record c { kind = kind_for made_b.self c },
        rw (kinds_b, find-set_kinds, ← bases, fc) refl,
        ap (λ x. x.ip) ec,
      )

  -- Two different nodes that set up their books from the same rows, each in a process that had no
  -- book before, and whose addresses differ, connect exactly once: one of them has the other in its set of nodes to connect to,
  -- and not the other way round.
  pub remote_connect_to-once :
      (a b : NodeId) (rows : List (List Text)) (book_a book_b : Map NodeAddress)
      (self_a peer_b : NodeAddress)
      → a < 2 ^ 32
      → b < 2 ^ 32
      → a ≢ b
      → init_address_book stoi [] a rows ≡ some (book_a, true)
      → init_address_book stoi [] b rows ≡ some (book_b, true)
      → find a book_a ≡ some self_a
      → find b book_a ≡ some peer_b
      → same_text peer_b.ip self_a.ip ≡ false
      → contains b (ids (get_peer_set a book_a).remote_connect_to)
        ≡ not (contains a (ids (get_peer_set b book_b).remote_connect_to))
  unfolding get_address
  remote_connect_to-once a b rows book_a book_b self_a peer_b ha hb ne ea eb fa fb apart =
      let (self_b, gb, ipb) = same_entries a b b rows book_a book_b peer_b ea eb fb in
      let (peer_a, ga, ipa) = same_entries a b a rows book_a book_b self_a ea eb fa in
      ground (
        arith,
        slt32-total a b ha hb ne,
        get_peer_set_lem a b book_a (made-IsBook a rows book_a ea),
        get_peer_set_lem b a book_b (made-IsBook b rows book_b eb),
        init_address_book_lem stoi [] a rows book_a self_a b peer_b empty-IsBook ea fa fb,
        init_address_book_lem stoi [] b rows book_b self_b a peer_a empty-IsBook eb gb ga,
        same_text_comm peer_b.ip self_a.ip,
      )
