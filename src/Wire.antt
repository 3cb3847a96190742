-- ===== src/Wire.antt =====
-- LabelHeader (eROIL/src/types/label_io_types.h) as the bytes that the code copies from memory and
-- into it: little-endian, each field at its natural alignment, with two bytes of padding after
-- `version` and after `flags`, which may hold anything.
pub mod RoundTrip
pub mod Tests
use netcomm.Prelude.{ℕ, zero, suc, ◌+◌, ◌*◌, ◌/◌, ◌%◌, List, [], ◌∷◌, ◌++◌, take, drop, length}
use netcomm.Types.{LabelHeader}

-- The bytes of a number of this width, and the number of bytes.
unfoldable pub le_bytes : ℕ → ℕ → List ℕ
le_bytes zero x = []
le_bytes (suc n) x = (x % 256) ∷ le_bytes n (x / 256)

unfoldable pub le_value : List ℕ → ℕ
le_value [] = 0
le_value (b ∷ bs) = b + 256 * le_value bs

-- What stands in the two gaps.
pub record Padding : Type 0 where
  pub after_version : ℕ
  pub after_flags : ℕ

unfoldable pub header_bytes : Padding → LabelHeader → List ℕ
unfolding le_bytes
header_bytes p h =
    le_bytes 4 h.magic
    ++ (le_bytes 2 h.version
        ++ (le_bytes 2 p.after_version
            ++ (le_bytes 4 h.source_id
                ++ (le_bytes 2 h.flags
                    ++ (le_bytes 2 p.after_flags
                        ++ (le_bytes 4 h.label
                            ++ (le_bytes 4 h.label_size ++ le_bytes 4 h.recv_offset)))))))

unfoldable pub field : ℕ → ℕ → List ℕ → ℕ
unfolding le_value
field at width bytes = le_value (take width (drop at bytes))

unfoldable pub read_header : List ℕ → LabelHeader
unfolding field
read_header bytes = record {
  magic = field 0 4 bytes;
  version = field 4 2 bytes;
  source_id = field 8 4 bytes;
  flags = field 12 2 bytes;
  label = field 16 4 bytes;
  label_size = field 20 4 bytes;
  recv_offset = field 24 4 bytes;
}

-- `memcpy` of bytes into a buffer at an offset.
unfoldable pub copy_into : List ℕ → ℕ → List ℕ → List ℕ
copy_into dst at src = take at dst ++ (src ++ drop (at + length src) dst)
