-- ===== src/Net/Ip.antt =====
-- src/ip_output.c, src/dst.c and the checks of src/ip_input.c; src/icmpv4.c.
pub mod Checked
pub mod Output
pub mod Echo
use hf_ip.Prelude.{
  Bool, List, if◌then◌else◌, ltb, none, not, some, take, ℕ, ◌*◌, ◌++◌, ◌+◌, ◌-◌, ◌==◌,
}
use hf_ip.Prelude.Int.{neg, ℤ}
use hf_ip.Word.{swap16, swap32, u16, u8}
use hf_ip.Packet.{
  Iphdr, eth_hdr_len, flag, icmp_bytes, ip_hdr_len, iphdr_bytes, read_icmp, read_iphdr,
}
use hf_ip.SkBuff.{SkBuff, skb_push, skb_reserve}
use hf_ip.Checksum.{checksum}
use hf_ip.Net.{Net, RtEntry}
use hf_ip.Net.Route.{route_lookup}
use hf_ip.Net.Device.{eth_p_ip, netdev_transmit}
use hf_ip.Net.Arp.{arp_get_hwaddr, arp_request}

abbrev ipv4 : ℕ
ipv4 = 0x04

abbrev pub ip_tcp : ℕ
ip_tcp = 0x06

abbrev pub icmpv4 : ℕ
icmpv4 = 0x01

-- `flags & RT_GATEWAY`
abbrev pub is_gateway : RtEntry → Bool
is_gateway rt = flag rt.flags 2

-- `dst_neigh_output`; the addresses of the header are in network byte order.
unfoldable pub dst_neigh_output : RtEntry → Iphdr → SkBuff → Net → Net × SkBuff × ℤ
dst_neigh_output rt ih skb n =
    let daddr = if is_gateway rt then rt.gateway else swap32 ih.daddr in
    let saddr = swap32 ih.saddr in
    elim (arp_get_hwaddr daddr n) [
      | some dmac ↦ netdev_transmit rt.dev skb dmac eth_p_ip n
      | none ↦ ((arp_request saddr daddr rt.dev n).0, skb, neg 1)
    ]

-- `ip_send_check`: the header's checksum over its `ihl` words.
unfoldable pub ip_send_check : Iphdr → Iphdr
ip_send_check ih = record ih { csum = u16 (checksum (iphdr_bytes ih) (ih.ihl * 4) 0) }

-- The header that `ip_output` writes, in network byte order and without its checksum. `frag_offset`
-- asks not to be fragmented.
unfoldable pub output_header : ℕ → ℕ → ℕ → ℕ → ℕ → Iphdr
output_header len id proto saddr daddr = record {
  ihl = 0x05;
  version = ipv4;
  tos = 0;
  len = swap16 (u16 len);
  id = swap16 id;
  frag_offset = swap16 0x4000;
  ttl = 64;
  proto = u8 proto;
  csum = swap16 0;
  saddr = swap32 saddr;
  daddr = swap32 daddr;
}

-- `ip_output`; of the sock it reads `daddr` alone.
unfoldable pub ip_output : ℕ → SkBuff → Net → Net × SkBuff × ℤ
ip_output daddr skb n = elim (route_lookup daddr n) [
  | none ↦ (n, skb, neg 1)
  | some rt ↦
      let skb1 = skb_push ip_hdr_len skb in
      let ih = ip_send_check (output_header skb1.len skb.iph_id skb.protocol rt.dev.addr daddr) in
      dst_neigh_output rt ih (record skb1 { iph_id = ih.id; bytes = iphdr_bytes ih ++ skb.bytes }) n
]

-- What `ip_rcv` does with a datagram.
pub data Verdict : Type 0 where
  drop_pkt : Verdict
  to_icmp : Iphdr → Verdict
  to_tcp : Iphdr → Verdict

-- `ip_init_pkt`
unfoldable pub ip_init_pkt : Iphdr → Iphdr
ip_init_pkt ih = record ih {
  saddr = swap32 ih.saddr;
  daddr = swap32 ih.daddr;
  len = swap16 ih.len;
  id = swap16 ih.id;
}

-- `ip_rcv` up to the call of the upper layer. The list holds the buffer from the IP header on.
unfoldable pub ip_rcv : List ℕ → Verdict
ip_rcv m =
    let ih = read_iphdr m in
    let up =
      if ih.proto == icmpv4
      then to_icmp (ip_init_pkt ih)
      else (if ih.proto == ip_tcp then to_tcp (ip_init_pkt ih) else drop_pkt) in
    if not (ih.version == ipv4)
    then drop_pkt
    else (if ltb ih.ihl 5
        then drop_pkt
        else (if ih.ttl == 0
            then drop_pkt
            else (if not (checksum m (ih.ihl * 4) 0 == 0) then drop_pkt else up)))

abbrev icmp_reply : ℕ
icmp_reply = 0x00

abbrev icmp_echo : ℕ
icmp_echo = 0x08

-- The message that `icmpv4_reply` makes of the `icmp_len` bytes behind the IP header.
unfoldable reply_message : List ℕ → ℕ → List ℕ
reply_message m icmp_len =
    let icmp = record (read_icmp (take icmp_len m)) { type = icmp_reply; csum = 0 } in
    icmp_bytes (record icmp { csum = checksum (icmp_bytes icmp) icmp_len 0 })

-- `icmpv4_reply`; `ih` is in host order and `m` the buffer behind it.
unfoldable icmpv4_reply : SkBuff → Iphdr → List ℕ → Net → Net
icmpv4_reply skb ih m n =
    let icmp_len = u16 (ih.len + 65536 - ih.ihl * 4) in
    let skb1 = skb_push icmp_len (skb_reserve (eth_hdr_len + ip_hdr_len + icmp_len) skb) in
    let out = record skb1 { protocol = icmpv4; iph_id = ih.id; bytes = reply_message m icmp_len } in
    (ip_output ih.saddr out n).0

unfoldable pub icmpv4_incoming : SkBuff → Iphdr → List ℕ → Net → Net
unfolding icmpv4_reply reply_message
icmpv4_incoming skb ih m n = if (read_icmp m).type == icmp_echo then icmpv4_reply skb ih m n else n
