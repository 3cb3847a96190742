-- ===== src/Workers/Delivery.antt =====
-- Messages as they are sent, and what a receive worker sees of them.
use netcomm.Prelude.{
  ℕ, suc, ◌+◌, ◌≤◌, ◌≡◌, sym, ap, ap₂, ◌∙◌, inl, List, [], ◌∷◌, ◌++◌, length, arith,
}
use netcomm.Types.{LabelHeader, magic_num, version, max_label_size}
use netcomm.Memory.{
  Memory, read_bytes, write_bytes, write_bytes_append, read_bytes-write_bytes, read_bytes_outside,
}
use netcomm.Wire.{Padding, header_bytes, read_header}
use netcomm.Wire.RoundTrip.{InRange, length-header_bytes, read_header_alone}
use netcomm.Delivery.{Message}
use netcomm.Shm.{ShmRecvData}
use netcomm.Workers.{Target, announced, distributed}

-- A header and the data behind it.
pub record Frame : Type 0 where
  pub padding : Padding
  pub header : LabelHeader
  pub body : List ℕ

unfoldable pub frame_bytes : Frame → List ℕ
frame_bytes f = header_bytes f.padding f.header ++ f.body

-- A frame that a node of this version sends for data.
pub record Good (f : Frame) : Type 0 where
  pub in_range : InRange f.header
  pub magic : f.header.magic ≡ magic_num
  pub version_is : f.header.version ≡ version
  pub sized : length f.body ≡ f.header.label_size
  pub small : f.header.label_size ≤ max_label_size

-- The message that a frame carries.
abbrev pub carried : Frame → Message
carried f = record {
  source_id = f.header.source_id;
  label = f.header.label;
  bytes = f.body;
  recv_offset = f.header.recv_offset;
}

-- The messages of these frames, distributed one after the other.
unfoldable pub deliver_each : (ℕ → ℕ × ℕ) → ℕ → Target → List Frame → Target
deliver_each now j t [] = t
deliver_each now j t (f ∷ fs) = deliver_each now (suc j) (distributed t (carried f) (now j)) fs

-- Writing one piece after the other and reading the first, or the second.
module _ (m : Memory) (a : ℕ) (xs ys : List ℕ) where
  abbrev both : Memory
  both = write_bytes m a (xs ++ ys)

  pub read_front : read_bytes both a (length xs) ≡ xs
  read_front =
      ap (λ mem. read_bytes mem a (length xs)) (write_bytes_append m a xs ys)
      ∙ read_bytes_outside (write_bytes m a xs) (a + length xs) ys a (length xs) (inl (omega arith))
      ∙ read_bytes-write_bytes m a xs

  pub read_back : read_bytes both (a + length xs) (length ys) ≡ ys
  read_back =
      ap (λ mem. read_bytes mem (a + length xs) (length ys)) (write_bytes_append m a xs ys)
      ∙ read_bytes-write_bytes (write_bytes m a xs) (a + length xs) ys

-- A frame in a buffer is read as its header and its data.
module _ (m : Memory) (f : Frame) (good : Good f) where
  abbrev pub buffered : Memory
  buffered = write_bytes m 0 (frame_bytes f)

  pub read_header-buffered : read_header (read_bytes buffered 0 28) ≡ f.header
  unfolding frame_bytes
  read_header-buffered =
      ap (λ n. read_header (read_bytes buffered 0 n)) (sym (length-header_bytes f.padding f.header))
      ∙ ap read_header (read_front m 0 (header_bytes f.padding f.header) f.body)
      ∙ read_header_alone f.padding f.header good.in_range

  pub announced-buffered : announced f.header buffered 28 ≡ carried f
  unfolding frame_bytes
  announced-buffered =
      ap (λ bs. record (carried f) { bytes = bs })
        (ap₂ (λ a n. read_bytes buffered a n)
            (omega (arith, length-header_bytes f.padding f.header)) (sym good.sized)
          ∙ read_back m 0 (header_bytes f.padding f.header) f.body)

-- Each of these records holds a good frame, one of these in order.
abbrev pub Carries : List ShmRecvData → List Frame → Type 0
Carries [] [] = Unit {0}
Carries [] (f ∷ fs) = ⊥
Carries (d ∷ ds) [] = ⊥
Carries (d ∷ ds) (f ∷ fs) = (d.buf ≡ frame_bytes f) × Good f × Carries ds fs
