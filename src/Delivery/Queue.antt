-- ===== src/Delivery/Queue.antt =====
-- In the modes that do not overwrite, an open receive handle is a bounded queue of messages
-- (router.cpp, distribute_recvd_label; root.cpp, the recv_ functions).
use native.Mathlib.Nat.{mod-eq_of_lt}
use netcomm.Prelude.{
  ℕ, suc, ◌+◌, ◌-◌, ◌*◌, ◌%◌, ◌^◌, ◌≤◌, ◌<◌, ◌≡◌, ◌≢◌, ap, ap₂, ◌∙◌, Bool, true, false, List, [],
  ◌∷◌, ◌++◌, ltb, if◌then◌else◌, length, drop, drop_beyond, mod_twice, arith,
}
use netcomm.Types.{
  RecvHandle, SignalMode, overwrite, buffer_full, every_message, signal_all_write_all,
}
use netcomm.Types.Words.{inc32}
use netcomm.Memory.{Memory, write_bytes}
use netcomm.Delivery.{Message, deliver, recv_dismiss, next_slot, copy_in}
use netcomm.Delivery.Slots.{messages, messages-write, messages-drop, length-messages}

abbrev pub keeps_unread : SignalMode → Bool
keeps_unread overwrite = false
keeps_unread buffer_full = true
keeps_unread every_message = true
keeps_unread signal_all_write_all = false

-- What `open_recv` checks, and what the operations keep of the two counters.
pub record IsReady (h : RecvHandle) : Type 0 where
  pub has_buf : h.info.buf ≢ 0
  pub has_slots : 0 < h.info.buf_slots
  pub few_slots : h.info.buf_slots < 2 ^ 32
  pub has_size : 0 < h.info.buf_size
  pub index : h.info.buf_index < h.info.buf_slots
  pub count : h.info.recv_count ≤ h.info.buf_slots

-- The slot of the oldest unread message.
abbrev pub oldest : RecvHandle → ℕ
oldest h = (h.info.buf_index + h.info.buf_slots - h.info.recv_count) % h.info.buf_slots

-- The unread messages, oldest first.
abbrev pub unread : RecvHandle → Memory → List (List ℕ)
unread h m = messages h.info.buf h.info.buf_size h.info.buf_slots m (oldest h) h.info.recv_count

round_next : (s i c : ℕ) → i < s → c < s → ((i + 1) % s + s - (c + 1)) % s ≡ (i + s - c) % s
round_next s i c hi hc = omega (
  arith,
  mod_twice s (i + 1) (omega arith),
  mod_twice s (i + s - c) (omega arith),
  mod_twice s ((i + 1) % s + s - (c + 1)) (omega arith),
)

round_back : (s i c : ℕ) → i < s → c ≤ s → i ≡ ((i + s - c) % s + c) % s
round_back s i c hi hc =
    omega (
      arith,
      mod_twice s (i + s - c) (omega arith),
      mod_twice s ((i + s - c) % s + c) (omega arith),
    )

round_on : (s i c k : ℕ) → i < s → c ≤ s → k ≤ c → (i + s - (c - k)) % s ≡ ((i + s - c) % s + k) % s
round_on s i c k hi hc hk = omega (
  arith,
  mod_twice s (i + s - (c - k)) (omega arith),
  mod_twice s (i + s - c) (omega arith),
  mod_twice s ((i + s - c) % s + k) (omega arith),
)

next_count :
    (h : RecvHandle)
    → IsReady h
    → h.info.recv_count < h.info.buf_slots
    → inc32 h.info.recv_count ≡ h.info.recv_count + 1
next_count h ok room = omega arith

next_oldest :
    (h : RecvHandle)
    → IsReady h
    → h.info.recv_count < h.info.buf_slots
    → oldest (next_slot h) ≡ oldest h
next_oldest h ok room =
    ap (λ c. ((index + 1) % slots + slots - c) % slots) (next_count h ok room)
    ∙ round_next slots index h.info.recv_count ok.index room
  where
    slots : ℕ
    slots = h.info.buf_slots

    index : ℕ
    index = h.info.buf_index

write_index :
    (h : RecvHandle)
    → IsReady h
    → h.info.buf_index ≡ (oldest h + h.info.recv_count) % h.info.buf_slots
write_index h ok = round_back h.info.buf_slots h.info.buf_index h.info.recv_count ok.index ok.count

copied :
    (h : RecvHandle) (msg : Message) (m : Memory)
    → IsReady h
    → msg.recv_offset ≡ 0
    → length msg.bytes ≡ h.info.buf_size
    → h.info.recv_count < h.info.buf_slots
    → IsReady (next_slot h)
      × (unread (next_slot h) (copy_in h msg m) ≡ unread h m ++ (msg.bytes ∷ []))
copied h msg m ok off len room = (
  record {
    has_buf = ok.has_buf;
    has_slots = ok.has_slots;
    few_slots = ok.few_slots;
    has_size = ok.has_size;
    index = omega arith;
    count = omega arith;
  },
  (ap₂ (messages buf size slots (copy_in h msg m)) (next_oldest h ok room)
        (next_count h ok room ∙ count_suc)
      ∙ ap (λ a. messages buf size slots (write_bytes m a msg.bytes) (oldest h) (suc count)) addr
      ∙ messages-write buf size slots m msg.bytes count (oldest h) h.info.buf_index len
          (omega arith) room (write_index h ok)),
)
  where
    buf : ℕ
    buf = h.info.buf

    size : ℕ
    size = h.info.buf_size

    slots : ℕ
    slots = h.info.buf_slots

    count : ℕ
    count = h.info.recv_count

    count_suc : count + 1 ≡ suc count
    count_suc = omega arith

    addr : buf + h.info.buf_index * size + msg.recv_offset ≡ buf + h.info.buf_index * size
    addr = omega arith

-- What is left after the oldest `k` of the unread messages.
dropped :
    (h : RecvHandle) (m : Memory) (k : ℕ)
    → IsReady h
    → k ≤ h.info.recv_count
    → messages h.info.buf h.info.buf_size h.info.buf_slots m
        ((h.info.buf_index + h.info.buf_slots - (h.info.recv_count - k)) % h.info.buf_slots)
        (h.info.recv_count - k)
      ≡ drop k (unread h m)
dropped h m k ok le =
    ap (λ i. messages buf size slots m i left)
      (round_on slots h.info.buf_index h.info.recv_count k ok.index ok.count le)
    ∙ messages-drop buf size slots m k left (oldest h)
    ∙ ap₂ (λ i c. drop k (messages buf size slots m i c)) (mod-eq_of_lt old) sum
  where
    buf : ℕ
    buf = h.info.buf

    size : ℕ
    size = h.info.buf_size

    slots : ℕ
    slots = h.info.buf_slots

    left : ℕ
    left = h.info.recv_count - k

    old : oldest h < slots
    old = omega (arith, ok.index, ok.count, ok.has_slots)

    sum : k + left ≡ h.info.recv_count
    sum = omega arith

-- Dismissing a number of messages of a ready handle leaves it ready and takes that many off
-- the front of the unread messages, or all of them if there are fewer.
pub unread-recv_dismiss :
    (h : RecvHandle) (m : Memory) (count : ℕ)
    → IsReady h
    → IsReady (recv_dismiss h count) × (unread (recv_dismiss h count) m ≡ drop count (unread h m))
unfolding recv_dismiss
unread-recv_dismiss h m count ok = ground (
  arith,
  dropped h m count ok,
  drop_beyond count (unread h m),
  length-messages h.info.buf h.info.buf_size h.info.buf_slots m (oldest h) h.info.recv_count,
)

-- A message for a ready handle that is not idle and whose mode keeps unread messages, with the
-- size of a slot and offset 0, joins the unread messages at the end if a slot is free; if none
-- is, it is dropped and the unread messages stay. The handle stays ready.
pub unread-deliver :
    (h : RecvHandle) (msg : Message) (m : Memory) (now : ℕ × ℕ)
    → IsReady h
    → h.is_idle ≡ false
    → keeps_unread h.info.signal_mode ≡ true
    → msg.recv_offset ≡ 0
    → length msg.bytes ≡ h.info.buf_size
    → let d = deliver h msg m now in
      IsReady d.handle
      × (unread d.handle d.memory ≡ (
          if ltb h.info.recv_count h.info.buf_slots
          then unread h m ++ (msg.bytes ∷ [])
          else unread h m))
unfolding deliver
unread-deliver h msg m now ok awake keeps off len = ground (arith, copied h msg m ok off len)
