-- ===== src/Multicast/Tests.antt =====
-- Examples of the theorems on the multicast sockets.
use netcomm.Prelude.{ℕ, ◌≡◌, true, Option, none, some, List, [], ◌∷◌, ◌%◌, arith}
use netcomm.Address.{Text}
use netcomm.Socket
use netcomm.Socket.{made, not_made, eaddrinuse, enotconn}
use netcomm.Socket.Windows.Agreement.{result_of, io_of}
use netcomm.Multicast.{UdpMulticastSocket, default_cfg}
use netcomm.Multicast.Linux
use netcomm.Multicast.Linux.{JoinCalls}
use netcomm.Multicast.Windows as OnWindows
use netcomm.Multicast.Agreement.{join_calls_of, arrival_of, joined_of, multicasts_agree}
use netcomm.Multicast.Ledger.{
  McastCall, joins, closes, new_life, history, Balanced, history-Balanced,
}

abbrev parse : Text → Option ℕ
parse [] = none
parse (c ∷ cs) = some c

abbrev works : ℕ → JoinCalls
works fd = record { made_socket = made fd; bind_rc = none; ttl_rc = none; join_rc = none }

abbrev in_use : JoinCalls
in_use = record (works 5) { bind_rc = some eaddrinuse }

abbrev calls : List McastCall
calls =
    joins parse default_cfg in_use
    ∷ joins parse default_cfg (works 5)
    ∷ joins parse default_cfg (works 6)
    ∷ closes
    ∷ joins parse default_cfg (works 7)
    ∷ []

history-Balanced_example : Balanced (history new_life calls)
history-Balanced_example =
    history-Balanced calls (omega arith, (omega arith, (omega arith, (omega arith, tt))))

abbrev joined : UdpMulticastSocket
joined = record { m_handle = 5; m_open = true; m_joined = true; m_cfg = default_cfg }

multicasts_agree_example :
    (OnWindows.open_and_join parse joined default_cfg (join_calls_of in_use)
      ≡ joined_of (Linux.open_and_join parse joined default_cfg in_use))
    × (OnWindows.send_broadcast parse joined (λ a. a % 256) 64 9 (io_of (Socket.moved 9)) ≡ (
      result_of (Linux.send_broadcast parse joined (λ a. a % 256) 64 9 (Socket.moved 9)).0,
      (Linux.send_broadcast parse joined (λ a. a % 256) 64 9 (Socket.moved 9)).1,
    ))
    × (OnWindows.recv_broadcast joined (λ a. a % 256) 64 9 (arrival_of (Linux.arrived (1 ∷ 2 ∷ [])))
        ≡ (
          result_of
              (Linux.recv_broadcast joined (λ a. a % 256) 64 9 (Linux.arrived (1 ∷ 2 ∷ []))).0,
          (Linux.recv_broadcast joined (λ a. a % 256) 64 9 (Linux.arrived (1 ∷ 2 ∷ []))).1,
        ))
    × (OnWindows.close joined ≡ Linux.close joined)
multicasts_agree_example =
    multicasts_agree parse joined default_cfg in_use (λ a. a % 256) 64 9 (Socket.moved 9)
      (Linux.arrived (1 ∷ 2 ∷ []))
