-- ===== src/Net/Ip/Echo.antt =====
-- The frames that `ip_output` sends, and the answer to an echo request.
use hf_ip.Prelude.{
  List, [], arith, if◌then◌else◌, none, refl, some, ℕ, ◌++◌, ◌+◌, ◌<◌, ◌∙◌, ◌∷◌, ◌≡◌,
}
use hf_ip.Prelude.Int.{neg}
use hf_ip.Word.{swap32, u32}
use hf_ip.Packet.{Iphdr, arp_hdr_bytes, arp_ipv4_bytes, ip_hdr_len, iphdr_bytes}
use hf_ip.SkBuff.{SkBuff, skb_push}
use hf_ip.Net.{Net, NetDev, RtEntry}
use hf_ip.Net.Route.{route_lookup}
use hf_ip.Net.Device.{eth_frame, eth_p_arp, eth_p_ip, netdev_transmit, tun_write}
use hf_ip.Net.Arp.{arp_get_hwaddr, arp_request, broadcast_hw, request_packet}
use hf_ip.Net.Ip.{dst_neigh_output, ip_output, ip_send_check, is_gateway, output_header}

-- The address whose hardware address a datagram is sent to.
abbrev pub next_hop : RtEntry → ℕ → ℕ
next_hop rt daddr = if is_gateway rt then rt.gateway else daddr

-- The header of the datagram that `ip_output` makes of a buffer.
abbrev pub datagram_header : RtEntry → ℕ → SkBuff → Iphdr
datagram_header rt daddr skb =
    ip_send_check (output_header (u32 (skb.len + 20)) skb.iph_id skb.protocol rt.dev.addr daddr)

abbrev pub datagram : RtEntry → ℕ → SkBuff → List ℕ
datagram rt daddr skb = iphdr_bytes (datagram_header rt daddr skb) ++ skb.bytes

-- The Ethernet frame that asks for the hardware address of the next hop.
abbrev pub request_frame : RtEntry → ℕ → List ℕ
request_frame rt daddr =
    let (hdr, p) = request_packet rt.dev.addr (next_hop rt daddr) rt.dev in
    eth_frame rt.dev broadcast_hw eth_p_arp (arp_hdr_bytes hdr ++ arp_ipv4_bytes p)

-- The header's addresses, back in host order.
addrs_back :
    (rt : RtEntry) (daddr : ℕ) (skb : SkBuff)
    → daddr < 4294967296
    → rt.dev.addr < 4294967296
    → (swap32 (datagram_header rt daddr skb).daddr ≡ daddr)
      × (swap32 (datagram_header rt daddr skb).saddr ≡ rt.dev.addr)
unfolding ip_send_check output_header
addrs_back rt daddr skb hd hs = omega arith

sent-transmit :
    (dev : NetDev) (skb : SkBuff) (mac : List ℕ) (ethertype : ℕ) (n : Net)
    → let (n', skb', rc) = netdev_transmit dev skb mac ethertype n in
      (n' ≡ record n { sent = n.sent ++ eth_frame dev mac ethertype skb.bytes ∷ [] })
      × (rc ≡ n.tun_result (u32 (skb.len + 14)))
unfolding netdev_transmit tun_write skb_push
sent-transmit dev skb mac ethertype n = (refl, refl)

sent-request :
    (sip dip : ℕ) (dev : NetDev) (n : Net)
    → let (hdr, p) = request_packet sip dip dev in
      (arp_request sip dip dev n).0 ≡ record n {
        sent =
            n.sent
            ++ eth_frame dev broadcast_hw eth_p_arp (arp_hdr_bytes hdr ++ arp_ipv4_bytes p) ∷ [];
      }
unfolding arp_request netdev_transmit tun_write
sent-request sip dip dev n = refl

neigh_known :
    (rt : RtEntry) (ih : Iphdr) (skb : SkBuff) (n : Net) (mac : List ℕ)
    → arp_get_hwaddr (if is_gateway rt then rt.gateway else swap32 ih.daddr) n ≡ some mac
    → dst_neigh_output rt ih skb n ≡ netdev_transmit rt.dev skb mac eth_p_ip n
unfolding dst_neigh_output
neigh_known rt ih skb n mac k = rw (dst_neigh_output, k)

neigh_unknown :
    (rt : RtEntry) (ih : Iphdr) (skb : SkBuff) (n : Net)
    → arp_get_hwaddr (if is_gateway rt then rt.gateway else swap32 ih.daddr) n ≡ none
    → dst_neigh_output rt ih skb n ≡ (
      (arp_request
          (swap32 ih.saddr)
          (if is_gateway rt then rt.gateway else swap32 ih.daddr)
          rt.dev
          n).0,
      skb,
      neg 1,
    )
unfolding dst_neigh_output
neigh_unknown rt ih skb n k = rw (dst_neigh_output, k)

module _ (daddr : ℕ) (skb : SkBuff) (n : Net) (rt : RtEntry)
    (found : route_lookup daddr n ≡ some rt) (daddr_fits : daddr < 4294967296)
    (saddr_fits : rt.dev.addr < 4294967296) where
  abbrev pushed : SkBuff
  pushed = record (skb_push ip_hdr_len skb) {
    iph_id = (datagram_header rt daddr skb).id;
    bytes = datagram rt daddr skb;
  }

  is_neigh : ip_output daddr skb n ≡ dst_neigh_output rt (datagram_header rt daddr skb) pushed n
  unfolding ip_output skb_push
  is_neigh = rw (found, ip_output)

  hop :
      (if is_gateway rt then rt.gateway else swap32 (datagram_header rt daddr skb).daddr)
      ≡ next_hop rt daddr
  hop = rw ((addrs_back rt daddr skb daddr_fits saddr_fits).0)

  -- For an address that a route was found for, and words that fit: if the hardware address of the
  -- next hop is known, the datagram goes to it in one frame, and the result is the device's answer
  -- to the length of that frame.
  pub ip_output_resolved :
      (mac : List ℕ)
      → arp_get_hwaddr (next_hop rt daddr) n ≡ some mac
      → let (n', skb', rc) = ip_output daddr skb n in
        (n' ≡ record n {
          sent = n.sent ++ eth_frame rt.dev mac eth_p_ip (datagram rt daddr skb) ∷ [];
        })
        × (rc ≡ n.tun_result (u32 (u32 (skb.len + 20) + 14)))
  unfolding skb_push
  ip_output_resolved mac known =
      let e =
        is_neigh ∙ neigh_known rt (datagram_header rt daddr skb) pushed n mac (rw hop known) in
      rw e (sent-transmit rt.dev pushed mac eth_p_ip n)

  -- For an address that a route was found for, and words that fit: if the hardware address of the
  -- next hop is not known, one broadcast asks for it, the datagram is not sent, and the result is
  -- -1.
  pub ip_output_unresolved :
      arp_get_hwaddr (next_hop rt daddr) n ≡ none
      → let (n', skb', rc) = ip_output daddr skb n in
        (n' ≡ record n { sent = n.sent ++ request_frame rt daddr ∷ [] }) × (rc ≡ neg 1)
  unfolding skb_push
  ip_output_unresolved unknown =
      let e =
        is_neigh ∙ neigh_unknown rt (datagram_header rt daddr skb) pushed n (rw hop unknown) in
      rw (e, hop, (addrs_back rt daddr skb daddr_fits saddr_fits).1)
        (sent-request rt.dev.addr (next_hop rt daddr) rt.dev n, refl)
