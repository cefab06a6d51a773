-- ===== src/Net.antt =====
-- The state below TCP: the devices of src/netdev.c, the routing table of src/route.c, the address
-- table of src/arp.c, and the frames that were given to the tap device.
pub mod Route
pub mod Device
pub mod Tap
pub mod Arp
pub mod Ip
mod Tests
use hf_ip.Prelude.{List, ℕ}
use hf_ip.Prelude.Int.{ℤ}

-- `struct netdev`
pub record NetDev : Type 0 where
  pub addr : ℕ
  pub addr_len : ℕ
  pub hwaddr : List ℕ
  pub mtu : ℕ

-- `struct rtentry`; the pointer `dev` is the device itself, which never changes.
pub record RtEntry : Type 0 where
  pub dst : ℕ
  pub gateway : ℕ
  pub netmask : ℕ
  pub flags : ℕ
  pub metric : ℕ
  pub dev : NetDev

-- `struct arp_cache_entry`
pub record ArpEntry : Type 0 where
  pub hwtype : ℕ
  pub sip : ℕ
  pub smac : List ℕ
  pub state : ℕ

-- `tun_write` hands a frame to the operating system, which answers `tun_result` of its length.
pub record Net : Type 0 where
  pub routes : List RtEntry
  pub arp_cache : List ArpEntry
  pub netdev : NetDev
  pub loop : NetDev
  pub tun_result : ℕ → ℤ
  pub sent : List (List ℕ)
