-- ===== src/Router/Peers.antt =====
-- The calls on peers and transports keep the invariant of the send side (router.cpp).
use netcomm.Prelude.{
  ℕ, ◌≡◌, refl, inl, inr, Bool, true, Option, none, some, find, arith, Bool-cases, Option-cases,
  contains-snoc, contains_of_erase_first,
}
use netcomm.Types.{Label, NodeId}
use netcomm.Routes.{SendRoute, RouteTable, get_send_route}
use netcomm.Routes.Send.Laws.{Writes, Outcome, done, missing, denied}
use netcomm.Routes.Send.Removal.{
  add_local_send_subscriber_lem, remove_local_send_subscriber_lem, add_remote_send_subscriber_lem,
  remove_remote_send_subscriber_lem,
}
use netcomm.Routes.Send.Inv.{
  IsValid, call-IsValid, joins_local, leaves_local, joins_remote, leaves_remote,
}
use netcomm.Transports
use netcomm.Transports.Laws.{
  has_socket-upsert_socket, has_send_shm-upsert_socket, has_send_shm-open_send_shm,
  has_socket-open_send_shm,
}
use netcomm.Transports.{SocketHeap}
use netcomm.Router.{
  Router, add_local_send_subscriber, add_remote_send_subscriber, remove_local_send_subscriber,
  remove_remote_send_subscriber, upsert_socket, open_send_shm,
}
use netcomm.Router.Inv.{SendInv, local_ok, remote_ok}

local_ok_mono :
    (o : Option SendRoute) (id : NodeId) {a b : Bool}
    → (a ≡ true → b ≡ true)
    → local_ok o id a ≡ true
    → local_ok o id b ≡ true
local_ok_mono none id h ok = refl
local_ok_mono (some route) id h ok = ground arith

remote_ok_mono :
    (o : Option SendRoute) (id : NodeId) {a b : Bool}
    → (a ≡ true → b ≡ true)
    → remote_ok o id a ≡ true
    → remote_ok o id b ≡ true
remote_ok_mono none id h ok = refl
remote_ok_mono (some route) id h ok = ground arith

-- The routes change by an allowed update of one of them, the handles and transports do not.
module _ {r : Router} (inv : SendInv r) where
  -- An update of the route of a label that keeps its publishers and reaches its peers.
  record Kept (old new : SendRoute) : Type 0 where
    publishers : new.publishers ≡ old.publishers
    label_size : new.label_size ≡ old.label_size
    locals :
        (id : NodeId)
        → local_ok (some old) id (Transports.has_send_shm r.transports id) ≡ true
        → local_ok (some new) id (Transports.has_send_shm r.transports id) ≡ true
    remotes :
        (id : NodeId)
        → remote_ok (some old) id (Transports.has_socket r.transports id) ≡ true
        → remote_ok (some new) id (Transports.has_socket r.transports id) ≡ true

  updated :
      {label : Label} {t : RouteTable} {old new : SendRoute}
      → get_send_route r.routes label ≡ some old
      → Writes r.routes t label (some new)
      → Kept old new
      → IsValid t
      → SendInv (record r { routes = t })
  updated {label} {old} {new} e w k valid = record {
    routes = valid;
    handles = λ uid. elim (Option-cases (find uid r.send_handles)) [
      | inl n ↦ ground arith
      | inr (g, f) ↦ ground (arith, w.routes g.info.label, inv.handles uid, k.publishers)
    ];
    publishers =
        λ j uid. ground (arith, w.routes j, inv.publishers j uid, k.publishers, k.label_size);
    locals = λ j id. ground (arith, w.routes j, inv.locals j id, k.locals id);
    remotes = λ j id. ground (arith, w.routes j, inv.remotes j id, k.remotes id);
  }

  Outcome-SendInv :
      {label : Label} {allowed : SendRoute → Bool} {f : SendRoute → SendRoute}
      {out : RouteTable × Bool}
      → Outcome r.routes label allowed (λ x. some (f x)) out
      → ((x : SendRoute) → allowed x ≡ true → Kept x (f x))
      → IsValid out.0
      → SendInv (record r { routes = out.0 })
  Outcome-SendInv (done x e y ok w) keep valid = updated e w (keep x y) valid
  Outcome-SendInv (missing e o) keep valid = rw o inv
  Outcome-SendInv (denied x e n o) keep valid = rw o inv

module _ {r : Router} (inv : SendInv r) (label : Label) (id : NodeId) where
  -- A local peer is listed only if its shared memory block is open.
  pub add_local-SendInv : (size : ℕ) → SendInv (add_local_send_subscriber r label size id)
  unfolding add_local_send_subscriber
  add_local-SendInv size = elim (Bool-cases (Transports.has_send_shm r.transports id)) [
    | inl y ↦ rw y (
        Outcome-SendInv inv (add_local_send_subscriber_lem r.routes label size id)
          (λ x a. record {
            publishers = refl;
            label_size = refl;
            locals = λ j k. ground (arith, contains-snoc j id x.local_subscribers);
            remotes = λ j k. k;
          })
          (call-IsValid r.routes (joins_local label size id) inv.routes))
    | inr n ↦ rw n inv
  ]

  -- A remote peer is listed only if there is a socket to it.
  pub add_remote-SendInv : (size : ℕ) → SendInv (add_remote_send_subscriber r label size id)
  unfolding add_remote_send_subscriber
  add_remote-SendInv size = elim (Bool-cases (Transports.has_socket r.transports id)) [
    | inl y ↦ rw y (
        Outcome-SendInv inv (add_remote_send_subscriber_lem r.routes label size id)
          (λ x a. record {
            publishers = refl;
            label_size = refl;
            locals = λ j k. k;
            remotes = λ j k. ground (arith, contains-snoc j id x.remote_subscribers);
          })
          (call-IsValid r.routes (joins_remote label size id) inv.routes))
    | inr n ↦ rw n inv
  ]

  pub remove_local-SendInv : SendInv (remove_local_send_subscriber r label id)
  unfolding remove_local_send_subscriber
  remove_local-SendInv =
      Outcome-SendInv inv (remove_local_send_subscriber_lem r.routes label id)
        (λ x a. record {
          publishers = refl;
          label_size = refl;
          locals = λ j k. ground (arith, contains_of_erase_first j id x.local_subscribers);
          remotes = λ j k. k;
        })
        (call-IsValid r.routes (leaves_local label id) inv.routes)

  pub remove_remote-SendInv : SendInv (remove_remote_send_subscriber r label id)
  unfolding remove_remote_send_subscriber
  remove_remote-SendInv =
      Outcome-SendInv inv (remove_remote_send_subscriber_lem r.routes label id)
        (λ x a. record {
          publishers = refl;
          label_size = refl;
          locals = λ j k. k;
          remotes = λ j k. ground (arith, contains_of_erase_first j id x.remote_subscribers);
        })
        (call-IsValid r.routes (leaves_remote label id) inv.routes)

module _ {r : Router} (inv : SendInv r) (id : NodeId) where
  -- A transport, once there, stays: neither call can take one away from a listed peer.
  pub upsert_socket-SendInv :
      (heap : SocketHeap) (sock : ℕ) → SendInv (upsert_socket r heap id sock).0
  unfolding upsert_socket
  upsert_socket-SendInv heap sock = record {
    routes = inv.routes;
    handles = inv.handles;
    publishers = inv.publishers;
    locals = λ j k. rw (has_send_shm-upsert_socket r.transports id k heap sock) (inv.locals j k);
    remotes = λ j k.
        rw (has_socket-upsert_socket r.transports id k heap sock)
          (remote_ok_mono (get_send_route r.routes j) k (λ y. ground arith) (inv.remotes j k));
  }

  pub open_send_shm-SendInv : (shm : ℕ) (opened : Bool) → SendInv (open_send_shm r id shm opened).0
  unfolding open_send_shm
  open_send_shm-SendInv shm opened = record {
    routes = inv.routes;
    handles = inv.handles;
    publishers = inv.publishers;
    locals = λ j k.
        local_ok_mono (get_send_route r.routes j) k
          (has_send_shm-open_send_shm r.transports id k shm opened) (inv.locals j k);
    remotes = λ j k. rw (has_socket-open_send_shm r.transports id k shm opened) (inv.remotes j k);
  }
