-- ===== src/Multicast.antt =====
-- eROIL/src/socket/udp_multicast.h, and the configuration of a multicast in eROIL/src/config/config.h. A
-- text is the list of its character codes; `inet_pton` gives none for a text that is no address. A
-- datagram is what the system is handed: where to, and its bytes. The results of the options that
-- the code ignores are left out. Each function that closes a handle also gives the handles closed;
-- on Linux, a close that is interrupted and tried again is one.
pub mod Linux
pub mod Windows
pub mod Agreement
pub mod Ledger
pub mod Tests
use netcomm.Prelude.{ℕ, Bool, true, false, not, ◌&&◌, List, [], ◌==◌, codes}
use netcomm.Address.{Text}
use netcomm.Socket.{invalid_socket}

pub record UdpMcastConfig : Type 0 where
  pub group_ip : Text
  pub port : ℕ
  pub bind_ip : Text
  pub ttl : ℕ
  pub loopback : Bool
  pub reuse_addr : Bool

-- `UdpMcastConfig{}`.
abbrev pub default_cfg : UdpMcastConfig
default_cfg = record {
  group_ip = codes "239.255.0.1";
  port = 30001;
  bind_ip = codes "0.0.0.0";
  ttl = 1;
  loopback = true;
  reuse_addr = true;
}

pub record UdpMulticastSocket : Type 0 where
  pub m_handle : ℕ
  pub m_open : Bool
  pub m_joined : Bool
  pub m_cfg : UdpMcastConfig

abbrev pub handle_valid : UdpMulticastSocket → Bool
handle_valid s = not (s.m_handle == invalid_socket)

abbrev pub is_open : UdpMulticastSocket → Bool
is_open s = s.m_open && handle_valid s

pub record Datagram : Type 0 where
  pub to_ip : ℕ
  pub to_port : ℕ
  pub bytes : List ℕ
