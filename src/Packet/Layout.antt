-- ===== src/Packet/Layout.antt =====
-- Writing a header and reading it back: the members do not overlap, and none is cut.
use hf_ip.Prelude.{Bool, List, arith, false, true, ℕ, ◌%◌, ◌*◌, ◌++◌, ◌+◌, ◌/◌, ◌<◌, ◌==◌, ◌≡◌, ◌≤◌}
use hf_ip.Packet.{Iphdr, Tcphdr, bit, flag, iphdr_bytes, read_iphdr, read_tcphdr, tcphdr_bytes}

-- Each member fits its width.
pub record IphdrFits (h : Iphdr) : Type 0 where
  pub ihl : h.ihl < 16
  pub version : h.version < 16
  pub tos : h.tos < 256
  pub len : h.len < 65536
  pub id : h.id < 65536
  pub frag_offset : h.frag_offset < 65536
  pub ttl : h.ttl < 256
  pub proto : h.proto < 256
  pub csum : h.csum < 65536
  pub saddr : h.saddr < 4294967296
  pub daddr : h.daddr < 4294967296

-- An IPv4 header is read back from its 20 bytes as it was, whatever follows it in the buffer.
pub read_iphdr-bytes :
    (h : Iphdr) (rest : List ℕ) → IphdrFits h → read_iphdr (iphdr_bytes h ++ rest) ≡ h
unfolding read_iphdr iphdr_bytes
read_iphdr-bytes h rest f = ground arith

pub record TcphdrFits (h : Tcphdr) : Type 0 where
  pub sport : h.sport < 65536
  pub dport : h.dport < 65536
  pub seq : h.seq < 4294967296
  pub ack_seq : h.ack_seq < 4294967296
  pub rsvd : h.rsvd < 16
  pub hl : h.hl < 16
  pub win : h.win < 65536
  pub csum : h.csum < 65536
  pub urp : h.urp < 65536

bit-le : (b : Bool) → bit b ≤ 1
bit-le true = omega arith
bit-le false = omega arith

bit_back : (b : Bool) (n : ℕ) → n ≡ bit b → (n == 1) ≡ b
bit_back true n e = ground arith
bit_back false n e = ground arith

-- The flags byte, each bit a digit.
module _ (a b c d e f g h : ℕ) (ha : a ≤ 1) (hb : b ≤ 1) (hc : c ≤ 1) (hd : d ≤ 1) (he : e ≤ 1)
    (hf : f ≤ 1) (hg : g ≤ 1) (hh : h ≤ 1) where
  abbrev byte : ℕ
  byte = a + b * 2 + c * 4 + d * 8 + e * 16 + f * 32 + g * 64 + h * 128

  digit1 : byte / 1 % 2 ≡ a
  digit1 = omega arith

  digit2 : byte / 2 % 2 ≡ b
  digit2 = omega arith

  digit4 : byte / 4 % 2 ≡ c
  digit4 = omega arith

  digit8 : byte / 8 % 2 ≡ d
  digit8 = omega arith

  digit16 : byte / 16 % 2 ≡ e
  digit16 = omega arith

  digit32 : byte / 32 % 2 ≡ f
  digit32 = omega arith

  digit64 : byte / 64 % 2 ≡ g
  digit64 = omega arith

  digit128 : byte / 128 % 2 ≡ h
  digit128 = omega arith

abbrev flags_byte : (a b c d e f g h : Bool) → ℕ
flags_byte a b c d e f g h =
    bit a + bit b * 2 + bit c * 4 + bit d * 8 + bit e * 16 + bit f * 32 + bit g * 64 + bit h * 128

flags_back :
    (a b c d e f g h : Bool)
    → let x = flags_byte a b c d e f g h in
      (flag x 1 ≡ a)
      × (flag x 2 ≡ b)
      × (flag x 4 ≡ c)
      × (flag x 8 ≡ d)
      × (flag x 16 ≡ e)
      × (flag x 32 ≡ f)
      × (flag x 64 ≡ g)
      × (flag x 128 ≡ h)
flags_back a b c d e f g h =
    let x = flags_byte a b c d e f g h in
    (
      bit_back a (x / 1 % 2) (
          digit1 (bit a) (bit b) (bit c) (bit d) (bit e) (bit f) (bit g) (bit h) (bit-le a)
            (bit-le b) (bit-le c) (bit-le d) (bit-le e) (bit-le f) (bit-le g) (bit-le h)),
      bit_back b (x / 2 % 2) (
          digit2 (bit a) (bit b) (bit c) (bit d) (bit e) (bit f) (bit g) (bit h) (bit-le a)
            (bit-le b) (bit-le c) (bit-le d) (bit-le e) (bit-le f) (bit-le g) (bit-le h)),
      bit_back c (x / 4 % 2) (
          digit4 (bit a) (bit b) (bit c) (bit d) (bit e) (bit f) (bit g) (bit h) (bit-le a)
            (bit-le b) (bit-le c) (bit-le d) (bit-le e) (bit-le f) (bit-le g) (bit-le h)),
      bit_back d (x / 8 % 2) (
          digit8 (bit a) (bit b) (bit c) (bit d) (bit e) (bit f) (bit g) (bit h) (bit-le a)
            (bit-le b) (bit-le c) (bit-le d) (bit-le e) (bit-le f) (bit-le g) (bit-le h)),
      bit_back e (x / 16 % 2) (
          digit16 (bit a) (bit b) (bit c) (bit d) (bit e) (bit f) (bit g) (bit h) (bit-le a)
            (bit-le b) (bit-le c) (bit-le d) (bit-le e) (bit-le f) (bit-le g) (bit-le h)),
      bit_back f (x / 32 % 2) (
          digit32 (bit a) (bit b) (bit c) (bit d) (bit e) (bit f) (bit g) (bit h) (bit-le a)
            (bit-le b) (bit-le c) (bit-le d) (bit-le e) (bit-le f) (bit-le g) (bit-le h)),
      bit_back g (x / 64 % 2) (
          digit64 (bit a) (bit b) (bit c) (bit d) (bit e) (bit f) (bit g) (bit h) (bit-le a)
            (bit-le b) (bit-le c) (bit-le d) (bit-le e) (bit-le f) (bit-le g) (bit-le h)),
      bit_back h (x / 128 % 2) (
          digit128 (bit a) (bit b) (bit c) (bit d) (bit e) (bit f) (bit g) (bit h) (bit-le a)
            (bit-le b) (bit-le c) (bit-le d) (bit-le e) (bit-le f) (bit-le g) (bit-le h)),
    )

-- A TCP header, its flag bits and all that follows it are read back as they were written.
pub read_tcphdr-bytes : (h : Tcphdr) → TcphdrFits h → read_tcphdr (tcphdr_bytes h) ≡ h
unfolding read_tcphdr tcphdr_bytes
read_tcphdr-bytes h f =
    let b = flags_back h.fin h.syn h.rst h.psh h.ack h.urg h.ece h.cwr in ground (arith, b)
