-- ===== src/Packet/Tests.antt =====
-- Headers with concrete members.
use hf_ip.Prelude.{[], refl, ◌∷◌, ◌≡◌}
use hf_ip.Packet.{Iphdr, iphdr_bytes}

abbrev datagram : Iphdr
datagram = record {
  ihl = 5;
  version = 4;
  tos = 0;
  len = 10240;
  id = 1;
  frag_offset = 64;
  ttl = 64;
  proto = 6;
  csum = 0xabcd;
  saddr = 0x0400000a;
  daddr = 0x0500000a;
}

first_bytes :
    iphdr_bytes datagram
    ≡ 0x45 ∷ 0 ∷ 0 ∷ 40 ∷ 1 ∷ 0 ∷ 64 ∷ 0 ∷ 64 ∷ 6 ∷ 0xcd ∷ 0xab ∷ 10 ∷ 0 ∷ 0 ∷ 4 ∷ 10 ∷ 0 ∷ 0 ∷ 5
      ∷ []
unfolding iphdr_bytes
first_bytes = refl
