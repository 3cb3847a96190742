-- ===== src/Multicast/Ledger.antt =====
-- What becomes of the handles that the multicast socket asks the system for (linux_udp_multicast.cpp).
use netcomm.Prelude.{
  ℕ, ◌≡◌, ◌≢◌, refl, sym, subst, ap, ◌∙◌, Bool, true, false, not, ◌&&◌, Option, none, some, List,
  [], ◌∷◌, ◌++◌, ◌==◌, if◌then◌else◌, is_empty, Bool-cases, inl, inr, arith,
}
use mathlib.Core.List.{append_assoc, append-nil}
use netcomm.Address.{Text}
use netcomm.Socket.{
  Errno, Made, made, not_made, SockResult, invalid_socket, ok, is_no_error, map_err, enotsock,
  einval, enotconn, eisconn, eshutdown, econnreset, eaddrinuse, eaddrnotavail, eacces, econnrefused,
  etimedout, ehostunreach, enetunreach, enobufs, emfile, enfile, ewouldblock, econnaborted,
  enetdown, enetreset, eintr, other_errno,
}
use netcomm.Multicast.{UdpMcastConfig, UdpMulticastSocket, handle_valid, is_open}
use netcomm.Multicast.Linux.{
  JoinCalls, new_multicast, Joined, closed_with, close, bind_and_join, open_and_join,
}

abbrev pub held : UdpMulticastSocket → List ℕ
held s = if handle_valid s then s.m_handle ∷ [] else []

-- Whether `open_and_join` asks the system for a socket, and what it gets.
abbrev pub asks : UdpMulticastSocket → UdpMcastConfig → Bool
asks s cfg =
    not (handle_valid s)
    && not (is_empty cfg.group_ip)
    && not (is_empty cfg.bind_ip)
    && not (cfg.port == 0)

abbrev pub got : Made → List ℕ
got (made fd) = fd ∷ []
got (not_made e) = []

abbrev pub made_for : UdpMulticastSocket → UdpMcastConfig → JoinCalls → List ℕ
made_for s cfg os = if asks s cfg then got os.made_socket else []

-- The system's `socket` never gives the handle that stands for none.
abbrev pub IsHandle : Made → Type 0
IsHandle (made fd) = fd ≢ invalid_socket
IsHandle (not_made e) = Unit {0}

-- A socket that has joined is open, and one that is open has a handle.
pub record IsValid (s : UdpMulticastSocket) : Type 0 where
  pub opened : s.m_open ≡ handle_valid s
  pub joined : s.m_joined && not s.m_open ≡ false

map_err-fails : (e : Errno) → is_no_error (map_err e) ≡ false
unfolding map_err
map_err-fails enotsock = refl
map_err-fails einval = refl
map_err-fails enotconn = refl
map_err-fails eisconn = refl
map_err-fails eshutdown = refl
map_err-fails econnreset = refl
map_err-fails eaddrinuse = refl
map_err-fails eaddrnotavail = refl
map_err-fails eacces = refl
map_err-fails econnrefused = refl
map_err-fails etimedout = refl
map_err-fails ehostunreach = refl
map_err-fails enetunreach = refl
map_err-fails enobufs = refl
map_err-fails emfile = refl
map_err-fails enfile = refl
map_err-fails ewouldblock = refl
map_err-fails econnaborted = refl
map_err-fails enetdown = refl
map_err-fails enetreset = refl
map_err-fails eintr = refl
map_err-fails (other_errno n) = refl

-- A socket after a call, with the result and what was closed: it is valid, it has joined exactly if the
-- call succeeded, and what was there before, `fds`, is held or closed.
record Kept (fds : List ℕ) (r : Joined) : Type 0 where
  valid : IsValid r.0
  joined : is_open r.0 && r.0.m_joined ≡ ok r.1
  balanced : fds ≡ r.2 ++ held r.0

module _ (s : UdpMulticastSocket) (h : handle_valid s ≡ true) where
  closed-Kept : (r : SockResult) → ok r ≡ false → Kept (s.m_handle ∷ []) (closed_with s r)
  unfolding close
  closed-Kept r bad = record {
    valid = record { opened = refl; joined = refl };
    joined = ground (arith, bad);
    balanced = ground (arith, h);
  }

  bind_and_join-Kept :
      (local : Option ℕ) (b t : Option Errno) (g : Option ℕ) (j : Option Errno)
      → s.m_open ≡ true
      → Kept (s.m_handle ∷ []) (bind_and_join s local b t g j)
  unfolding bind_and_join ok
  bind_and_join-Kept none b t g j o = closed-Kept _ refl
  bind_and_join-Kept (some l) (some e) t g j o = closed-Kept _ (map_err-fails e)
  bind_and_join-Kept (some l) none (some e) g j o = closed-Kept _ (map_err-fails e)
  bind_and_join-Kept (some l) none none none j o = closed-Kept _ refl
  bind_and_join-Kept (some l) none none (some x) (some e) o = closed-Kept _ (map_err-fails e)
  bind_and_join-Kept (some l) none none (some x) none o = record {
    valid = record { opened = ground (arith, h, o); joined = ground (arith, o) };
    joined = ground (arith, h, o);
    balanced = ground (arith, h);
  }

module _ (inet_pton : Text → Option ℕ) (cfg : UdpMcastConfig) (os : JoinCalls) where
  -- The call if it asks for no socket, or gets none.
  abbrev AsItWas : UdpMulticastSocket → Joined → Type 0
  AsItWas s r = (r.0 ≡ s) × (r.2 ≡ []) × (ok r.1 ≡ false)

  join-Kept :
      (s : UdpMulticastSocket) (fd : ℕ)
      → os.made_socket ≡ made fd
      → fd ≢ invalid_socket
      → asks s cfg ≡ true
      → Kept (fd ∷ []) (open_and_join inet_pton s cfg os)
  unfolding open_and_join
  join-Kept s fd e real asked = rw (open_and_join_is) (
      bind_and_join-Kept (record s { m_handle = fd; m_open = true; m_cfg = cfg })
        (ground (arith, real)) (inet_pton cfg.bind_ip) os.bind_rc os.ttl_rc (inet_pton cfg.group_ip)
        os.join_rc refl)
    where
      open_and_join_is :
          open_and_join inet_pton s cfg os
          ≡ bind_and_join
              (record s { m_handle = fd; m_open = true; m_cfg = cfg })
              (inet_pton cfg.bind_ip)
              os.bind_rc
              os.ttl_rc
              (inet_pton cfg.group_ip)
              os.join_rc
      open_and_join_is = ground (arith, e, asked)

  join-refused :
      (s : UdpMulticastSocket)
      → made_for s cfg os ≡ []
      → AsItWas s (open_and_join inet_pton s cfg os)
  unfolding open_and_join ok
  join-refused s nothing = elim (Bool-cases (asks s cfg)) [
    | inr n ↦ ground (arith, n)
    | inl y ↦ not_made_case os.made_socket refl y
  ]
    where
      not_made_case :
          (o : Made)
          → os.made_socket ≡ o
          → asks s cfg ≡ true
          → AsItWas s (open_and_join inet_pton s cfg os)
      not_made_case (made fd) e y = absurd (ground (arith, e, y, nothing))
      not_made_case (not_made err) e y = ground (arith, e, y, map_err-fails err)

-- The calls that change the socket. `request_stop` closes it too.
pub data McastCall : Type 0 where
  joins : (Text → Option ℕ) → UdpMcastConfig → JoinCalls → McastCall
  closes : McastCall

-- A socket with the handles that the system made for it, and those that it closed.
pub record Life : Type 0 where
  pub sock : UdpMulticastSocket
  pub made_fds : List ℕ
  pub closed_fds : List ℕ

abbrev pub new_life : Life
new_life = record { sock = new_multicast; made_fds = []; closed_fds = [] }

abbrev pub live : Life → McastCall → Life
live l (joins inet_pton cfg os) = record {
  sock = (open_and_join inet_pton l.sock cfg os).0;
  made_fds = l.made_fds ++ made_for l.sock cfg os;
  closed_fds = l.closed_fds ++ (open_and_join inet_pton l.sock cfg os).2;
}
live l closes = record {
  sock = (close l.sock).0;
  made_fds = l.made_fds;
  closed_fds = l.closed_fds ++ (close l.sock).1;
}

pub history : Life → List McastCall → Life
history l [] = l
history l (c ∷ cs) = history (live l c) cs

abbrev pub RealHandles : List McastCall → Type 0
RealHandles [] = Unit {0}
RealHandles (joins inet_pton cfg os ∷ cs) = IsHandle os.made_socket × RealHandles cs
RealHandles (closes ∷ cs) = RealHandles cs

-- The socket agrees with itself, and each handle that the system made was closed or is held.
pub record Balanced (l : Life) : Type 0 where
  pub valid : IsValid l.sock
  pub balanced : l.made_fds ≡ l.closed_fds ++ held l.sock

moved_on :
    (before gone rest fresh fds now : List ℕ)
    → before ≡ gone ++ rest
    → rest ++ fresh ≡ fds ++ now
    → before ++ fresh ≡ (gone ++ fds) ++ now
moved_on before gone rest fresh fds now e f =
    rw e (append_assoc gone rest fresh ∙ ap (λ x. gone ++ x) f ∙ sym (append_assoc gone fds now))

closes-Balanced : (l : Life) → Balanced l → Balanced (live l closes)
unfolding close
closes-Balanced l b = record {
  valid = record { opened = refl; joined = refl };
  balanced = b.balanced ∙ sym (append-nil (l.closed_fds ++ held l.sock));
}

-- What a join does to a valid socket.
record JoinStep (s : UdpMulticastSocket) (fresh : List ℕ) (r : Joined) : Type 0 where
  valid : IsValid r.0
  balanced : held s ++ fresh ≡ r.2 ++ held r.0

module _ (inet_pton : Text → Option ℕ) (cfg : UdpMcastConfig) (os : JoinCalls) where
  refused-JoinStep :
      (s : UdpMulticastSocket)
      → IsValid s
      → made_for s cfg os ≡ []
      → JoinStep s (made_for s cfg os) (open_and_join inet_pton s cfg os)
  refused-JoinStep s inv nothing =
      let same = join-refused inet_pton cfg os s nothing in
      record {
        valid = subst IsValid (sym same.0) inv;
        balanced = rw (nothing, same.1) (append-nil (held s) ∙ ap held (sym same.0));
      }

  made-JoinStep :
      (s : UdpMulticastSocket) (fd : ℕ)
      → os.made_socket ≡ made fd
      → fd ≢ invalid_socket
      → asks s cfg ≡ true
      → JoinStep s (made_for s cfg os) (open_and_join inet_pton s cfg os)
  made-JoinStep s fd e real asked =
      let k = join-Kept inet_pton cfg os s fd e real asked in
      record { valid = k.valid; balanced = starts_with ∙ k.balanced }
    where
      starts_with : held s ++ made_for s cfg os ≡ fd ∷ []
      starts_with = ground (arith, e, asked)

  join-JoinStep :
      (s : UdpMulticastSocket) (o : Made)
      → os.made_socket ≡ o
      → IsHandle o
      → IsValid s
      → JoinStep s (made_for s cfg os) (open_and_join inet_pton s cfg os)
  join-JoinStep s (not_made err) e real inv = refused-JoinStep s inv (ground (arith, e))
  join-JoinStep s (made fd) e real inv = elim (Bool-cases (asks s cfg)) [
    | inr n ↦ refused-JoinStep s inv (ground (arith, n))
    | inl y ↦ made-JoinStep s fd e real y
  ]

joins-Balanced :
    (l : Life) (inet_pton : Text → Option ℕ) (cfg : UdpMcastConfig) (os : JoinCalls)
    → IsHandle os.made_socket
    → Balanced l
    → Balanced (live l (joins inet_pton cfg os))
joins-Balanced l inet_pton cfg os real b =
    let k = join-JoinStep inet_pton cfg os l.sock os.made_socket refl real b.valid in
    record {
      valid = k.valid;
      balanced =
          moved_on l.made_fds l.closed_fds (held l.sock) (made_for l.sock cfg os) _ _ b.balanced
            k.balanced;
    }

history_from-Balanced :
    (l : Life) (cs : List McastCall) → RealHandles cs → Balanced l → Balanced (history l cs)
unfolding history
history_from-Balanced l [] real b = b
history_from-Balanced l (closes ∷ cs) real b =
    history_from-Balanced (live l closes) cs real (closes-Balanced l b)
history_from-Balanced l (joins inet_pton cfg os ∷ cs) real b =
    history_from-Balanced (live l (joins inet_pton cfg os)) cs real.1
      (joins-Balanced l inet_pton cfg os real.0 b)

-- After every history of joins and closes of a new multicast socket of Linux, whatever the calls of the
-- system give, if the system's handles are none that stands for no handle: the handles that the
-- system made are the ones that were closed, in order, and after them the one that is held, if there
-- is one. The socket is open exactly if it holds a handle, and has joined only if it is open.
pub history-Balanced : (cs : List McastCall) → RealHandles cs → Balanced (history new_life cs)
unfolding new_multicast
history-Balanced cs real =
    history_from-Balanced new_life cs real
      (record { valid = record { opened = refl; joined = refl }; balanced = refl })
