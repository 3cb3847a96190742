-- ===== src/Address/Tests.antt =====
-- Examples of the theorems on the address book. A number is a text of one character.
use netcomm.Prelude.{
  ℕ, ◌≡◌, refl, true, not, Option, none, some, List, [], ◌∷◌, Map, find, put, emplace, contains,
  arith,
}
use netcomm.Address.{
  Text, RouteKind, shm_kind, socket_kind, self_kind, NodeAddress, cell, kind_for, set_kinds,
  add_row, read_rest, read_row, build_book, init_address_book, get_peer_set,
}
use netcomm.Address.Peers.{ids, remote_connect_to-once}

abbrev one_char : Text → Option ℕ
one_char [] = none
one_char (c ∷ cs) = some c

abbrev rows : List (List Text)
rows =
    ((1 ∷ []) ∷ (10 ∷ []) ∷ (80 ∷ []) ∷ [])
    ∷ ((2 ∷ []) ∷ (20 ∷ []) ∷ (81 ∷ []) ∷ [])
    ∷ ((3 ∷ []) ∷ (10 ∷ []) ∷ (82 ∷ []) ∷ [])
    ∷ []

abbrev entry : RouteKind → ℕ → ℕ → ℕ → NodeAddress
entry k id ip port = record { kind = k; id = id; ip = ip ∷ []; port = port }

abbrev book_1 : Map NodeAddress
book_1 =
    (1, entry self_kind 1 10 80) ∷ (2, entry socket_kind 2 20 81) ∷ (3, entry shm_kind 3 10 82) ∷ []

abbrev book_2 : Map NodeAddress
book_2 =
    (1, entry socket_kind 1 10 80)
    ∷ (2, entry self_kind 2 20 81)
    ∷ (3, entry socket_kind 3 10 82)
    ∷ []

made_1 : init_address_book one_char [] 1 rows ≡ some (book_1, true)
unfolding init_address_book build_book read_row read_rest cell add_row set_kinds kind_for find
    emplace put
made_1 = refl

made_2 : init_address_book one_char [] 2 rows ≡ some (book_2, true)
unfolding init_address_book build_book read_row read_rest cell add_row set_kinds kind_for find
    emplace put
made_2 = refl

remote_connect_to-once_example :
    contains 2 (ids (get_peer_set 1 book_1).remote_connect_to)
    ≡ not (contains 1 (ids (get_peer_set 2 book_2).remote_connect_to))
unfolding find
remote_connect_to-once_example =
    remote_connect_to-once one_char 1 2 rows book_1 book_2 (entry self_kind 1 10 80)
      (entry socket_kind 2 20 81) (omega arith) (omega arith) (omega arith) made_1 made_2 refl refl
      refl
