-- ===== src/Packet.antt =====
-- The packet headers: include/ethernet.h, include/arp.h, include/ip.h, include/icmpv4.h and
-- include/tcp.h. A packed C struct is a record of its members' values; `..._bytes` gives its
-- bytes in memory on a little-endian host, and `read_...` reads it back from an address.
pub mod Layout
mod Tests
use hf_ip.Prelude.{
  Bool, List, [], drop, false, get_or, suc, true, ℕ, ◌%◌, ◌*◌, ◌++◌, ◌+◌, ◌/◌, ◌==◌, ◌∷◌,
}
use hf_ip.Word.{bytes16, bytes32, u8}

pub record Iphdr : Type 0 where
  pub ihl : ℕ
  pub version : ℕ
  pub tos : ℕ
  pub len : ℕ
  pub id : ℕ
  pub frag_offset : ℕ
  pub ttl : ℕ
  pub proto : ℕ
  pub csum : ℕ
  pub saddr : ℕ
  pub daddr : ℕ

pub record ArpHdr : Type 0 where
  pub hwtype : ℕ
  pub protype : ℕ
  pub hwsize : ℕ
  pub prosize : ℕ
  pub opcode : ℕ

-- `smac` and `dmac` are arrays of six bytes.
pub record ArpIpv4 : Type 0 where
  pub smac : List ℕ
  pub sip : ℕ
  pub dmac : List ℕ
  pub dip : ℕ

-- `data` is the flexible array at the end: the options, and then the text.
pub record Tcphdr : Type 0 where
  pub sport : ℕ
  pub dport : ℕ
  pub seq : ℕ
  pub ack_seq : ℕ
  pub rsvd : ℕ
  pub hl : ℕ
  pub fin : Bool
  pub syn : Bool
  pub rst : Bool
  pub psh : Bool
  pub ack : Bool
  pub urg : Bool
  pub ece : Bool
  pub cwr : Bool
  pub win : ℕ
  pub csum : ℕ
  pub urp : ℕ
  pub body : List ℕ

pub record IcmpV4 : Type 0 where
  pub type : ℕ
  pub code : ℕ
  pub csum : ℕ
  pub body : List ℕ

abbrev pub eth_hdr_len : ℕ
eth_hdr_len = 14

abbrev pub ip_hdr_len : ℕ
ip_hdr_len = 20

abbrev tcp_hdr_len : ℕ
tcp_hdr_len = 20

abbrev pub arp_hdr_len : ℕ
arp_hdr_len = 8

abbrev pub arp_data_len : ℕ
arp_data_len = 20

abbrev pub bit : Bool → ℕ
bit true = 1
bit false = 0

-- The byte, the two bytes and the four bytes at an offset.
abbrev pub at8 : List ℕ → ℕ → ℕ
at8 m i = get_or m i 0

abbrev pub at16 : List ℕ → ℕ → ℕ
at16 m i = at8 m i + at8 m (suc i) * 256

abbrev pub at32 : List ℕ → ℕ → ℕ
at32 m i = at16 m i + at16 m (suc (suc i)) * 65536

-- Bit k of a byte.
abbrev pub flag : ℕ → ℕ → Bool
flag x k = x / k % 2 == 1

unfoldable pub iphdr_bytes : Iphdr → List ℕ
iphdr_bytes h =
    (h.ihl % 16 + h.version % 16 * 16) ∷ u8 h.tos ∷ bytes16 h.len
    ++ bytes16 h.id
    ++ bytes16 h.frag_offset
    ++ u8 h.ttl ∷ u8 h.proto ∷ bytes16 h.csum
    ++ bytes32 h.saddr
    ++ bytes32 h.daddr

-- `(struct iphdr *) m`
unfoldable pub read_iphdr : List ℕ → Iphdr
read_iphdr m = record {
  ihl = at8 m 0 % 16;
  version = at8 m 0 / 16;
  tos = at8 m 1;
  len = at16 m 2;
  id = at16 m 4;
  frag_offset = at16 m 6;
  ttl = at8 m 8;
  proto = at8 m 9;
  csum = at16 m 10;
  saddr = at32 m 12;
  daddr = at32 m 16;
}

unfoldable pub arp_hdr_bytes : ArpHdr → List ℕ
arp_hdr_bytes h =
    bytes16 h.hwtype ++ bytes16 h.protype ++ u8 h.hwsize ∷ u8 h.prosize ∷ bytes16 h.opcode

unfoldable pub read_arp_hdr : List ℕ → ArpHdr
read_arp_hdr m = record {
  hwtype = at16 m 0;
  protype = at16 m 2;
  hwsize = at8 m 4;
  prosize = at8 m 5;
  opcode = at16 m 6;
}

-- The six bytes of a hardware address.
abbrev read_mac : List ℕ → List ℕ
read_mac m = at8 m 0 ∷ at8 m 1 ∷ at8 m 2 ∷ at8 m 3 ∷ at8 m 4 ∷ at8 m 5 ∷ []

unfoldable pub arp_ipv4_bytes : ArpIpv4 → List ℕ
arp_ipv4_bytes p = p.smac ++ bytes32 p.sip ++ p.dmac ++ bytes32 p.dip

unfoldable pub read_arp_ipv4 : List ℕ → ArpIpv4
read_arp_ipv4 m = record {
  smac = read_mac m;
  sip = at32 m 6;
  dmac = read_mac (drop 10 m);
  dip = at32 m 16;
}

unfoldable pub tcphdr_bytes : Tcphdr → List ℕ
tcphdr_bytes h =
    bytes16 h.sport
    ++ bytes16 h.dport
    ++ bytes32 h.seq
    ++ bytes32 h.ack_seq
    ++ (h.rsvd % 16 + h.hl % 16 * 16)
      ∷ (bit h.fin
          + bit h.syn * 2
          + bit h.rst * 4
          + bit h.psh * 8
          + bit h.ack * 16
          + bit h.urg * 32
          + bit h.ece * 64
          + bit h.cwr * 128)
      ∷ bytes16 h.win
    ++ bytes16 h.csum
    ++ bytes16 h.urp
    ++ h.body

unfoldable pub read_tcphdr : List ℕ → Tcphdr
read_tcphdr m = record {
  sport = at16 m 0;
  dport = at16 m 2;
  seq = at32 m 4;
  ack_seq = at32 m 8;
  rsvd = at8 m 12 % 16;
  hl = at8 m 12 / 16;
  fin = flag (at8 m 13) 1;
  syn = flag (at8 m 13) 2;
  rst = flag (at8 m 13) 4;
  psh = flag (at8 m 13) 8;
  ack = flag (at8 m 13) 16;
  urg = flag (at8 m 13) 32;
  ece = flag (at8 m 13) 64;
  cwr = flag (at8 m 13) 128;
  win = at16 m 14;
  csum = at16 m 16;
  urp = at16 m 18;
  body = drop 20 m;
}

unfoldable pub icmp_bytes : IcmpV4 → List ℕ
icmp_bytes h = u8 h.type ∷ u8 h.code ∷ bytes16 h.csum ++ h.body

unfoldable pub read_icmp : List ℕ → IcmpV4
read_icmp m = record { type = at8 m 0; code = at8 m 1; csum = at16 m 2; body = drop 4 m }
