-- ===== src/Shm/Layout.antt =====
-- The places of a shared-memory block (shm_header.h).
use netcomm.Prelude.{ℕ, ◌+◌, ◌-◌, ◌*◌, ◌/◌, ◌%◌, ◌==◌, Bool}
use netcomm.Types.{shm_block_size}

-- For an alignment that is a power of two, adding and masking rounds up to a multiple.
abbrev pub align_up : ℕ → ℕ → ℕ
align_up size align = (size + (align - 1)) / align * align

abbrev pub sizeof_shm_header : ℕ
sizeof_shm_header = 24

-- Five lines of 64 bytes: the id and the size, then one atomic counter each.
abbrev pub sizeof_shm_meta_data : ℕ
sizeof_shm_meta_data = 320

abbrev pub sizeof_record_header : ℕ
sizeof_record_header = 48

abbrev pub meta_data_offset : ℕ
meta_data_offset = align_up sizeof_shm_header 64

abbrev pub data_block_offset : ℕ
data_block_offset = align_up (meta_data_offset + sizeof_shm_meta_data) 64

abbrev pub data_block_size : ℕ
data_block_size = shm_block_size - data_block_offset

abbrev pub data_usable_limit : ℕ
data_usable_limit = data_block_size - sizeof_record_header

abbrev pub get_header_offset : ℕ → ℕ
get_header_offset pos = data_block_offset + pos % data_block_size

abbrev pub get_data_offset : ℕ → ℕ
get_data_offset pos = get_header_offset pos + sizeof_record_header

abbrev pub validate_layout : ℕ → Bool
validate_layout block_size = block_size == shm_block_size
