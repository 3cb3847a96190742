-- ===== src/Wire/RoundTrip.antt =====
-- A header that is written to bytes is read back (label_io_types.h).
use netcomm.Prelude.{
  ℕ, zero, suc, ◌+◌, ◌-◌, ◌^◌, ◌<◌, ◌≡◌, refl, sym, ap, ◌∙◌, List, [], ◌∷◌, ◌++◌, take, drop,
  drop_beyond, length, length-append, arith,
}
use netcomm.Types.{LabelHeader}
use netcomm.Wire.{le_bytes, le_value, Padding, header_bytes, field, read_header, copy_into}

-- Every field is in the range of its type.
pub record InRange (h : LabelHeader) : Type 0 where
  pub magic : h.magic < 2 ^ 32
  pub version : h.version < 2 ^ 16
  pub source_id : h.source_id < 2 ^ 32
  pub flags : h.flags < 2 ^ 16
  pub label : h.label < 2 ^ 32
  pub label_size : h.label_size < 2 ^ 32
  pub recv_offset : h.recv_offset < 2 ^ 32

le_value_word : (x : ℕ) → x < 2 ^ 32 → le_value (le_bytes 4 x) ≡ x
unfolding le_value le_bytes
le_value_word x h = omega arith

le_value_half : (x : ℕ) → x < 2 ^ 16 → le_value (le_bytes 2 x) ≡ x
unfolding le_value le_bytes
le_value_half x h = omega arith

pub length-header_bytes : (p : Padding) (h : LabelHeader) → length (header_bytes p h) ≡ 28
unfolding header_bytes le_bytes
length-header_bytes p h = refl

-- Reading the 28 bytes of a header, whatever its padding and whatever follows them, gives back every
-- field, if each field is in the range of its type.
pub read_header-header_bytes :
    (p : Padding) (h : LabelHeader) (rest : List ℕ)
    → InRange h
    → read_header (header_bytes p h ++ rest) ≡ h
unfolding read_header header_bytes field le_bytes le_value
read_header-header_bytes p h rest r = λ i. record {
  magic = le_value_word h.magic r.magic i;
  version = le_value_half h.version r.version i;
  source_id = le_value_word h.source_id r.source_id i;
  flags = le_value_half h.flags r.flags i;
  label = le_value_word h.label r.label i;
  label_size = le_value_word h.label_size r.label_size i;
  recv_offset = le_value_word h.recv_offset r.recv_offset i;
}

pub drop-append : (n : ℕ) (xs ys : List ℕ) → length xs ≡ n → drop n (xs ++ ys) ≡ ys
drop-append zero [] ys h = refl
drop-append zero (x ∷ xs) ys h = absurd (ground arith)
drop-append (suc n) [] ys h = absurd (ground arith)
drop-append (suc n) (x ∷ xs) ys h = drop-append n xs ys (omega arith)

pub take_all : (n : ℕ) (xs ys : List ℕ) → length xs ≡ n → take n (xs ++ ys) ≡ xs
take_all zero [] ys h = refl
take_all zero (x ∷ xs) ys h = absurd (ground arith)
take_all (suc n) [] ys h = absurd (ground arith)
take_all (suc n) (x ∷ xs) ys h = ap (λ zs. x ∷ zs) (take_all n xs ys (omega arith))

pub ++_nil : (xs : List ℕ) → xs ++ [] ≡ xs
++_nil [] = refl
++_nil (x ∷ xs) = ap (λ ys. x ∷ ys) (++_nil xs)

length-drop : (n : ℕ) (xs : List ℕ) → length (drop n xs) ≡ length xs - n
length-drop zero xs = omega arith
length-drop (suc n) [] = omega arith
length-drop (suc n) (x ∷ xs) = length-drop n xs ∙ omega arith

-- A buffer that two copies fill, one after the other, holds the two in order.
pub copy_into-twice :
    (buf front back : List ℕ)
    → length buf ≡ length front + length back
    → copy_into (copy_into buf 0 front) (length front) back ≡ front ++ back
unfolding copy_into
copy_into-twice buf front back h =
    let filled = copy_into buf 0 front in
    ap (λ xs. xs ++ (back ++ drop (length front + length back) filled))
      (take_all (length front) front (drop (0 + length front) buf) refl)
    ∙ ap (λ xs. front ++ (back ++ xs))
        (drop_beyond (length front + length back) filled (
          omega (
            arith,
            length-append front (drop (0 + length front) buf),
            length-drop (0 + length front) buf,
          )))
    ∙ ap (λ xs. front ++ xs) (++_nil back)

-- The header of a buffer that a header begins.
pub read_header_alone :
    (p : Padding) (h : LabelHeader) → InRange h → read_header (header_bytes p h) ≡ h
read_header_alone p h r =
    ap read_header (sym (++_nil (header_bytes p h))) ∙ read_header-header_bytes p h [] r
