-- ===== src/Address/Kinds.antt =====
-- The address book after init_address_book (address.cpp).
use netcomm.Prelude.{
  ℕ, ◌%◌, ◌^◌, ◌≡◌, refl, ap, sym, subst, ◌∙◌, true, Option, none, some, List, [], ◌∷◌, ◌==◌,
  if◌then◌else◌, Map, find, emplace, keys, find-emplace, keys-put, Distinct, arith, ◌>>=◌,
  Option-cases, on_if,
}
use netcomm.Types.{NodeId, invalid_node}
use netcomm.Types.Words.{sle32}
use netcomm.Address.{
  Text, no_kind, shm_kind, socket_kind, self_kind, NodeAddress, same_text, kind_for, set_kinds,
  add_row, cell, read_rest, read_row, build_book, init_address_book, set_up,
}

-- Every entry stands under its own id, and no id stands twice.
pub record IsBook (book : Map NodeAddress) : Type 0 where
  pub ids : (id : NodeId) (a : NodeAddress) → find id book ≡ some a → a.id ≡ id
  pub distinct : Distinct (keys book)

emplace-IsBook :
    (book : Map NodeAddress) (id : ℕ) (a : NodeAddress)
    → IsBook book
    → a.id ≡ id
    → find id book ≡ none
    → IsBook (emplace id a book)
unfolding emplace
emplace-IsBook book id a b e new = record {
  ids = λ j c f. ground (arith, find-emplace j id a book new, b.ids j c);
  distinct = ground (arith, keys-put id a book b.distinct);
}

add_row-IsBook :
    (book : Map NodeAddress) (id : ℕ) (ip : Text) (port : ℕ)
    → IsBook book
    → IsBook (add_row book id ip port)
unfolding add_row
add_row-IsBook book id ip port b = ground (
  arith,
  b,
  emplace-IsBook book id (record { kind = no_kind; id = id; ip = ip; port = port % 2 ^ 16 }) b refl,
  Option-cases (find id book),
)

pub empty-IsBook : IsBook []
unfolding find keys
empty-IsBook = record { ids = λ id a e. ground (arith, e); distinct = tt }

-- A book, if reading gave one.
abbrev BookIf : Option (Map NodeAddress) → Type 0
BookIf none = Unit {0}
BookIf (some book) = IsBook book

if_some :
    {A : Type 0} (o : Option A) (f : A → Option (Map NodeAddress))
    → ((x : A) → BookIf (f x))
    → BookIf (o >>= f)
if_some none f h = tt
if_some (some x) f h = h x

pub find-set_kinds :
    (self : NodeAddress) (book : Map NodeAddress) (id : NodeId)
    → find id (set_kinds self book)
      ≡ (find id book >>= λ a. some (record a { kind = kind_for self a }))
unfolding find set_kinds
find-set_kinds self [] id = refl
find-set_kinds self ((j, a) ∷ book) id = ground (arith, find-set_kinds self book id)

-- An address in the book with the kinds comes from one in the book without.
pub set_kinds-source :
    (self : NodeAddress) (book : Map NodeAddress) (id : NodeId) (a : NodeAddress)
    → find id (set_kinds self book) ≡ some a
    → (c : NodeAddress) × (find id book ≡ some c) × (record c { kind = kind_for self c } ≡ a)
set_kinds-source self book id a f = go (find id book) refl (sym (find-set_kinds self book id) ∙ f)
  where
    go :
        (o : Option NodeAddress)
        → find id book ≡ o
        → (o >>= λ c. some (record c { kind = kind_for self c })) ≡ some a
        → (c : NodeAddress) × (find id book ≡ some c) × (record c { kind = kind_for self c } ≡ a)
    go none e g = cc
    go (some c) e g = (c, e, cc)

kept :
    (id my_id : NodeId) (self c d a s : NodeAddress)
    → c.id ≡ id
    → d.id ≡ my_id
    → self ≡ d
    → record c { kind = kind_for self c } ≡ a
    → record d { kind = kind_for self d } ≡ s
    → (a.id ≡ id)
      × (a.kind ≡ (
          if id == my_id then self_kind else if same_text a.ip s.ip then shm_kind else socket_kind))
unfolding kind_for
kept id my_id self c d a s hc hd e ec ed = ground arith

pub keys-set_kinds :
    (self : NodeAddress) (book : Map NodeAddress) → keys (set_kinds self book) ≡ keys book
unfolding keys set_kinds
keys-set_kinds self [] = refl
keys-set_kinds self ((j, a) ∷ book) = ap (λ x. j ∷ x) (keys-set_kinds self book)

module _ (stoi : Text → Option ℕ) where
  read_rest-IsBook :
      (book : Map NodeAddress) (row : List Text) (id : NodeId)
      → IsBook book
      → BookIf (read_rest stoi book row id)
  unfolding read_rest
  read_rest-IsBook book row id b = if_some (cell 1 row) _ (λ ip.
      if_some (cell 2 row) _ (λ c2. if_some (stoi c2) _ (λ port. add_row-IsBook book id ip port b)))

  read_row-IsBook :
      (book : Map NodeAddress) (row : List Text) → IsBook book → BookIf (read_row stoi book row)
  unfolding read_row
  read_row-IsBook book row b = if_some (cell 0 row) _ (λ c0.
      if_some (stoi c0) _
        (λ id. on_if BookIf (sle32 id invalid_node) (λ y. b) (λ n. read_rest-IsBook book row id b)))

  build_book-IsBook :
      (book : Map NodeAddress) (rows : List (List Text))
      → IsBook book
      → BookIf (build_book stoi book rows)
  unfolding build_book
  build_book-IsBook book [] b = b
  build_book-IsBook book (row ∷ rows) b =
      go (read_row stoi book row) (read_row-IsBook book row b) (λ c g. build_book-IsBook c rows g)
    where
      go :
          (o : Option (Map NodeAddress))
          → BookIf o
          → ((c : Map NodeAddress) → IsBook c → BookIf (build_book stoi c rows))
          → BookIf (o >>= λ c. build_book stoi c rows)
      go none g rest = tt
      go (some c) g rest = rest c g

  -- What a book with its kinds set was made from.
  pub record IsMade (old : Map NodeAddress) (my_id : NodeId) (rows : List (List Text))
      (book : Map NodeAddress) : Type 0 where
    pub base : Map NodeAddress
    pub self : NodeAddress
    pub built : build_book stoi old rows ≡ some base
    pub base_ok : IsBook base
    pub found : find my_id base ≡ some self
    pub kinds : book ≡ set_kinds self base

  pub init_address_book-IsMade :
      (old : Map NodeAddress) (my_id : NodeId) (rows : List (List Text)) (book : Map NodeAddress)
      → IsBook old
      → init_address_book stoi old my_id rows ≡ some (book, true)
      → IsMade old my_id rows book
  unfolding init_address_book
  init_address_book-IsMade old my_id [] book ok e = ground (arith, e)
  init_address_book-IsMade old my_id (row ∷ rows) book ok e =
      go (build_book stoi old (row ∷ rows)) refl e
    where
      found :
          (base : Map NodeAddress) (s : Option NodeAddress)
          → build_book stoi old (row ∷ rows) ≡ some base
          → find my_id base ≡ s
          → some (set_up base s) ≡ some (book, true)
          → IsMade old my_id (row ∷ rows) book
      found base none b f g = ground (arith, g)
      found base (some self) b f g = record {
        base = base;
        self = self;
        built = b;
        base_ok = subst BookIf b (build_book-IsBook old (row ∷ rows) ok);
        found = f;
        kinds = cc;
      }

      go :
          (o : Option (Map NodeAddress))
          → build_book stoi old (row ∷ rows) ≡ o
          → (o >>= λ base. some (set_up base (find my_id base))) ≡ some (book, true)
          → IsMade old my_id (row ∷ rows) book
      go none b f = cc
      go (some base) b f = found base (find my_id base) b refl f

  pub init_address_book_lem :
      (old : Map NodeAddress) (my_id : NodeId) (rows : List (List Text)) (book : Map NodeAddress)
      (self : NodeAddress) (id : NodeId) (a : NodeAddress)
      → IsBook old
      → init_address_book stoi old my_id rows ≡ some (book, true)
      → find my_id book ≡ some self
      → find id book ≡ some a
      → (a.id ≡ id)
        × (a.kind ≡ (
            if id == my_id
            then self_kind
            else if same_text a.ip self.ip
            then shm_kind
            else socket_kind))
  init_address_book_lem old my_id rows book self id a ok e fs fa =
      let made = init_address_book-IsMade old my_id rows book ok e in
      let kinds = made.kinds in
      let (c, fc, ec) =
        set_kinds-source made.self made.base id a (subst (λ b. find id b ≡ some a) kinds fa) in
      let (d, fd, ed) =
        set_kinds-source made.self made.base my_id self
          (subst (λ b. find my_id b ≡ some self) kinds fs) in
      let same_self : made.self ≡ d = cc in
      kept id my_id made.self c d a self (made.base_ok.ids id c fc) (made.base_ok.ids my_id d fd)
        same_self ec ed
