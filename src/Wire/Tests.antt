-- ===== src/Wire/Tests.antt =====
-- Examples of the theorems on headers.
use netcomm.Prelude.{◌≡◌, [], ◌∷◌, ◌++◌, arith}
use netcomm.Types.{LabelHeader}
use netcomm.Wire.{Padding, header_bytes, read_header}
use netcomm.Wire.RoundTrip.{InRange, read_header-header_bytes}

abbrev hdr : LabelHeader
hdr = record {
  magic = 0x4c4f5245;
  version = 1;
  source_id = 0xfffffffe;
  flags = 9;
  label = 300;
  label_size = 70000;
  recv_offset = 16;
}

hdr-InRange : InRange hdr
hdr-InRange = record {
  magic = omega arith;
  version = omega arith;
  source_id = omega arith;
  flags = omega arith;
  label = omega arith;
  label_size = omega arith;
  recv_offset = omega arith;
}

abbrev gaps : Padding
gaps = record { after_version = 0x1234; after_flags = 0 }

read_header_example : read_header (header_bytes gaps hdr ++ (1 ∷ 2 ∷ [])) ≡ hdr
read_header_example = read_header-header_bytes gaps hdr (1 ∷ 2 ∷ []) hdr-InRange
