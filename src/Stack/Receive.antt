-- ===== src/Stack/Receive.antt =====
-- What the receiving side of a stack makes of a frame that another stack has sent.
use hf_ip.Prelude.{
  List, [], ap, append_assoc, ap₂, arith, drop, if◌then◌else◌, length, refl, some, ℕ, ◌++◌, ◌+◌,
  ◌<◌, ◌==◌, ◌∙◌, ◌∷◌, ◌≡◌,
}
use hf_ip.Word.{u32}
use hf_ip.Packet.{Iphdr, iphdr_bytes}
use hf_ip.SkBuff.{SkBuff}
use hf_ip.Net.{Net, NetDev, RtEntry}
use hf_ip.Net.Device.{eth_frame, eth_p_arp, eth_p_ip}
use hf_ip.Net.Arp.{arp_get_hwaddr, arp_rcv}
use hf_ip.Net.Route.{route_lookup}
use hf_ip.Net.Ip.{ip_output, ip_rcv, ip_send_check, ip_tcp, output_header}
use hf_ip.Net.Ip.Output.{Fits, ip_rcv-output, received_header}
use hf_ip.Net.Ip.Echo.{datagram, datagram_header, ip_output_resolved, next_hop}
use hf_ip.Sockets.{Sockets}
use hf_ip.Sockets.Calls.{tcp_in}
use hf_ip.Stack.{EthHdr, eth_hdr, freed_skb, ip_upper, netdev_receive, on_net}

-- An Ethernet device with its hardware address.
pub record IsEthernet (dev : NetDev) : Type 0 where
  pub size : dev.addr_len ≡ 6
  pub hwaddr : length dev.hwaddr ≡ 6

-- A hardware address in a buffer, byte by byte.
pub six_of : (m : List ℕ) → length m ≡ 6 → (a b c d e f : ℕ) × (m ≡ a ∷ b ∷ c ∷ d ∷ e ∷ f ∷ [])
six_of (a ∷ b ∷ c ∷ d ∷ e ∷ f ∷ []) h = (a, b, c, d, e, f, refl)
six_of [] h = absurd (omega arith)
six_of (a ∷ []) h = absurd (omega arith)
six_of (a ∷ b ∷ []) h = absurd (omega arith)
six_of (a ∷ b ∷ c ∷ []) h = absurd (omega arith)
six_of (a ∷ b ∷ c ∷ d ∷ []) h = absurd (omega arith)
six_of (a ∷ b ∷ c ∷ d ∷ e ∷ []) h = absurd (omega arith)
six_of (a ∷ b ∷ c ∷ d ∷ e ∷ f ∷ g ∷ m) h = absurd (omega arith)

-- The header of a frame is read back as it was written, whatever follows the frame in the buffer.
pub eth_hdr-frame :
    (dev : NetDev) (mac : List ℕ) (ethertype : ℕ) (bytes rest : List ℕ)
    → IsEthernet dev
    → length mac ≡ 6
    → ethertype < 65536
    → eth_hdr (eth_frame dev mac ethertype bytes ++ rest)
      ≡ record { dmac = mac; smac = dev.hwaddr; ethertype = ethertype; payload = bytes ++ rest }
unfolding eth_hdr eth_frame
eth_hdr-frame dev mac ethertype bytes rest dev_ok six small =
    let (a, b, c, d, e, f, m) = six_of mac six in
    let (g, h, i, j, k, l, w) = six_of dev.hwaddr dev_ok.hwaddr in
    rw (dev_ok.size, m, w) (ground arith)

-- A frame that carries a datagram.
receive-ip :
    (dev : NetDev) (mac bytes rest : List ℕ) (rx : SkBuff) (t : Sockets)
    → IsEthernet dev
    → length mac ≡ 6
    → netdev_receive rx (eth_frame dev mac eth_p_ip bytes ++ rest) t
      ≡ ip_upper rx (drop 20 (bytes ++ rest)) (ip_rcv (bytes ++ rest)) t
unfolding netdev_receive
receive-ip dev mac bytes rest rx t dev_ok six =
    ap
      (λ (hdr : EthHdr).
        if hdr.ethertype == eth_p_arp
        then freed_skb rx (on_net (arp_rcv rx (eth_frame dev mac eth_p_ip bytes ++ rest)) t)
        else (if hdr.ethertype == eth_p_ip
            then ip_upper rx (drop 20 hdr.payload) (ip_rcv hdr.payload) t
            else freed_skb rx t))
      (eth_hdr-frame dev mac eth_p_ip bytes rest dev_ok six (omega arith))

drop-iphdr_bytes : (h : Iphdr) (m : List ℕ) → drop 20 (iphdr_bytes h ++ m) ≡ m
unfolding iphdr_bytes
drop-iphdr_bytes h m = refl

module _ (daddr : ℕ) (skb : SkBuff) (n : Net) (rt : RtEntry) (mac : List ℕ)
    (found : route_lookup daddr n ≡ some rt)
    (known : arp_get_hwaddr (next_hop rt daddr) n ≡ some mac) (six : length mac ≡ 6)
    (dev_ok : IsEthernet rt.dev) (fits : Fits (u32 (skb.len + 20)) skb.iph_id 0 rt.dev.addr daddr)
    (is_tcp : skb.protocol ≡ ip_tcp) where
  -- The header that the receiver has of the datagram, in host order.
  abbrev pub arrived : Iphdr
  arrived =
      received_header (u32 (skb.len + 20)) skb.iph_id ip_tcp rt.dev.addr daddr
        (ip_send_check
          (output_header (u32 (skb.len + 20)) skb.iph_id ip_tcp rt.dev.addr daddr)).csum

  datagram-upper :
      (rx : SkBuff) (rest : List ℕ) (t : Sockets)
      → ip_upper rx
          (drop 20 (datagram rt daddr skb ++ rest))
          (ip_rcv (datagram rt daddr skb ++ rest))
          t
        ≡ tcp_in arrived rx (skb.bytes ++ rest) t
  unfolding ip_upper
  datagram-upper rx rest t =
      let split = append_assoc (iphdr_bytes (datagram_header rt daddr skb)) skb.bytes rest in
      let read =
        ap
          (λ p. ip_rcv (
            iphdr_bytes
              (ip_send_check (output_header (u32 (skb.len + 20)) skb.iph_id p rt.dev.addr daddr))
            ++ (skb.bytes ++ rest)))
          is_tcp
        ∙ (ip_rcv-output (u32 (skb.len + 20)) skb.iph_id rt.dev.addr daddr (skb.bytes ++ rest)
            fits).0 in
      ap (λ m. ip_upper rx (drop 20 m) (ip_rcv m) t) split
      ∙ ap₂ (λ m v. ip_upper rx m v t)
          (drop-iphdr_bytes (datagram_header rt daddr skb) (skb.bytes ++ rest)) read

  -- For a datagram of TCP whose next hop is known and whose words fit, the frame that `ip_output`
  -- gives to the device makes `netdev_receive` of another stack call `tcp_in` with the header that
  -- was sent, in host order, and the bytes behind it, whatever else is in the buffer.
  pub frame_received :
      (frame : List ℕ) × ((ip_output daddr skb n).0.sent ≡ n.sent ++ frame ∷ [])
      × ((rx : SkBuff) (rest : List ℕ) (t : Sockets)
          → netdev_receive rx (frame ++ rest) t ≡ tcp_in arrived rx (skb.bytes ++ rest) t)
  frame_received = (
    eth_frame rt.dev mac eth_p_ip (datagram rt daddr skb),
    ap (λ (m : Net). m.sent)
        (ip_output_resolved daddr skb n rt found fits.daddr_fits fits.saddr_fits mac known).0,
    (λ rx rest t.
        receive-ip rt.dev mac (datagram rt daddr skb) rest rx t dev_ok six
        ∙ datagram-upper rx rest t),
  )
