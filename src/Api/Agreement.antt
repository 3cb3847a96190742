-- ===== src/Api/Agreement.antt =====
-- The interfaces in C and in C++ compared (eroil_c.cpp, eroil_cpp.cpp).
use netcomm.Prelude.{ℕ, ◌+◌, ◌*◌, ◌^◌, ◌<◌, ◌≡◌, ap, ap₂, ◌∙◌, Option, arith}
use netcomm.Types.{SendHandle}
use netcomm.Memory.{Memory}
use netcomm.Wire.{Padding}
use netcomm.Manager.SendLabel.{SendArgs}
use netcomm.Api
use netcomm.Api.{Program, to_signal_mode}
use netcomm.Api.Nae.{
  nae_open_send_label, nae_send_label, nae_open_receive_label, bytes_of_words, clamped, io_type_of,
}
use netcomm.Api.Cpp

bytes_of_words_lem : (words : ℕ) → words < 2 ^ 29 → bytes_of_words words ≡ 4 * words
bytes_of_words_lem words h = ground arith

clamped_lem : (n : ℕ) → n < 2 ^ 31 → clamped n ≡ n
clamped_lem n h = ground arith

module _ (p : Program) (addr label buf words sem iosb num_iosbs : ℕ) (small : words < 2 ^ 29)
    (count : num_iosbs < 2 ^ 31) where
  -- For a number of words below 2 ^ 29, and other numbers that are not negative, the interfaces in C
  -- and in C++ do the same: opening a handle with `words` words is opening it with four times as many
  -- bytes, in either direction, and so is sending.
  pub interfaces_agree :
      (offset_mode slots aux_buf signal_mode seq send_offset recv_offset : ℕ) (gaps : Padding)
      (m : Memory) (now : ℕ × ℕ) (handle : Option SendHandle)
      → slots < 2 ^ 31
      → send_offset < 2 ^ 31
      → recv_offset < 2 ^ 31
      → (nae_open_send_label p addr label buf words offset_mode sem iosb num_iosbs
          ≡ Cpp.open_send_label p addr label buf (4 * words) offset_mode sem iosb num_iosbs)
        × (nae_open_receive_label p addr label 0xffffffff buf slots words aux_buf sem iosb num_iosbs
              signal_mode
            ≡ Cpp.open_recv_label p addr label buf
                (4 * words)
                slots
                aux_buf
                sem
                iosb
                num_iosbs
                signal_mode)
        × (nae_send_label p seq gaps m now handle buf words send_offset recv_offset
            ≡ Cpp.send_label p seq gaps m now handle (record {
              buf = buf;
              buf_size = 4 * words;
              send_offset = send_offset;
              recv_offset = recv_offset;
            }))
  unfolding nae_open_send_label Cpp.open_send_label nae_open_receive_label Cpp.open_recv_label
      nae_send_label Cpp.send_label
  interfaces_agree offset_mode slots aux_buf signal_mode seq send_offset recv_offset gaps m now
        handle few_slots low_send low_recv =
      let bytes = bytes_of_words_lem words small in
      let nums = clamped_lem num_iosbs count in
      (
        ap₂ (λ b n. Api.open_send_label p addr label buf b (io_type_of offset_mode) sem iosb n)
            bytes nums,
        ap₂
              (λ b n.
                Api.open_recv_label p addr label buf b (clamped slots) aux_buf sem iosb n
                  (to_signal_mode signal_mode))
              bytes nums
            ∙ ap
                (λ k.
                  Api.open_recv_label p addr label buf (4 * words) k aux_buf sem iosb num_iosbs
                    (to_signal_mode signal_mode))
                (clamped_lem slots few_slots),
        ap₂ (λ s r. Api.send_label p seq gaps m now handle (sends (bytes_of_words words) s r))
              (clamped_lem send_offset low_send) (clamped_lem recv_offset low_recv)
            ∙ ap (λ b. Api.send_label p seq gaps m now handle (sends b send_offset recv_offset))
                bytes,
      )
    where
      sends : ℕ → ℕ → ℕ → SendArgs
      sends b s r = record { buf = buf; buf_size = b; send_offset = s; recv_offset = r }

same_bytes :
    (words : ℕ)
    → 0 < words
    → words < 2 ^ 29
    → bytes_of_words (2 ^ 30 + words) ≡ bytes_of_words words
same_bytes words pos small = ground arith

-- The C interface multiplies in an `int`: 2 ^ 30 words more ask for the same number of bytes, so that
-- opening a handle for a buffer of `words` or of 2 ^ 30 + `words` words makes the same handle.
pub nae_open_send_wraps :
    (p : Program) (addr label buf words offset_mode sem iosb num_iosbs : ℕ)
    → 0 < words
    → words < 2 ^ 29
    → nae_open_send_label p addr label buf (2 ^ 30 + words) offset_mode sem iosb num_iosbs
      ≡ nae_open_send_label p addr label buf words offset_mode sem iosb num_iosbs
unfolding nae_open_send_label
nae_open_send_wraps p addr label buf words offset_mode sem iosb num_iosbs pos small =
    ap
      (λ b.
        Api.open_send_label p addr label buf b (io_type_of offset_mode) sem iosb
          (clamped num_iosbs))
      (same_bytes words pos small)
