-- ===== src/Stack/Neighbour.antt =====
-- Two stacks on one wire: how one learns the hardware address of the other.
use mathlib.Core.Path.{subst}
use hf_ip.Stack.Heard.{answer_heard, arp_frame, packet, receive-arp, request_heard}
use hf_ip.Prelude.{
  List, [], ap, arith, if◌then◌else◌, none, refl, some, ℕ, ◌&&◌, ◌++◌, ◌<◌, ◌==◌, ◌∙◌, ◌∷◌, ◌≡◌,
}
use hf_ip.Packet.{ArpHdr, ArpIpv4}
use hf_ip.SkBuff.{SkBuff}
use hf_ip.Net.{Net, NetDev, RtEntry}
use hf_ip.Net.Route.{route_lookup}
use hf_ip.Net.Arp.{arp_get_hwaddr, broadcast_hw, request_packet}
use hf_ip.Net.Arp.Entries.{IsTable}
use hf_ip.Net.Arp.Table.{arp_rcv_refines, learns}
use hf_ip.Net.Arp.Receive.{answer_frame, arp_rcv-answers, asks_us}
use hf_ip.Net.Ip.{ip_output}
use hf_ip.Net.Ip.Echo.{ip_output_unresolved, next_hop, request_frame}
use hf_ip.Sockets.{Sockets}
use hf_ip.Stack.{netdev_receive}
use hf_ip.Stack.Receive.{IsEthernet}

-- The stack whose device has the address that was asked for answers a request.
request_answered :
    (us : NetDev) (sip : ℕ) (rest : List ℕ) (rx : SkBuff) (b : Sockets)
    → IsEthernet us
    → sip < 4294967296
    → b.world.net.netdev.addr < 4294967296
    → let n = b.world.net in
      let (asked, q) = request_packet sip n.netdev.addr us in
      let (hdr, p) = packet us.addr_len 1 us.hwaddr sip broadcast_hw n.netdev.addr in
      (netdev_receive rx (arp_frame us broadcast_hw asked q ++ rest) b).world.net.sent
      ≡ n.sent ++ answer_frame hdr p n ∷ []
request_answered us sip rest rx b u s a =
    let n = b.world.net in
    let (asked, q) = request_packet sip n.netdev.addr us in
    let buf = arp_frame us broadcast_hw asked q ++ rest in
    let (hdr, p) = packet us.addr_len 1 us.hwaddr sip broadcast_hw n.netdev.addr in
    ap (λ (m : Net). m.sent) (receive-arp us broadcast_hw rest asked q rx b u refl)
    ∙ arp_rcv-answers rx buf n
    ∙ ap
        (λ (x : ArpHdr × ArpIpv4).
          if asks_us x.0 x.1 n then n.sent ++ answer_frame x.0 x.1 n ∷ [] else n.sent)
        (request_heard us sip n.netdev.addr rest u s a)
    ∙ ground arith

-- The stack that has asked learns the hardware address from the answer.
answer_learned :
    (us : NetDev) (n : Net) (rest : List ℕ) (rx : SkBuff) (a : Sockets)
    → IsEthernet n.netdev
    → IsEthernet us
    → n.netdev.addr < 4294967296
    → us.addr < 4294967296
    → a.world.net.netdev.addr ≡ us.addr
    → IsTable a.world.net.arp_cache
    → let (hdr, p) = packet us.addr_len 1 us.hwaddr us.addr broadcast_hw n.netdev.addr in
      arp_get_hwaddr n.netdev.addr (netdev_receive rx (answer_frame hdr p n ++ rest) a).world.net
      ≡ some n.netdev.hwaddr
answer_learned us n rest rx a d u small fits same table =
    let (hdr, p) = packet us.addr_len 1 us.hwaddr us.addr broadcast_hw n.netdev.addr in
    let buf = answer_frame hdr p n ++ rest in
    let m = a.world.net in
    let (got, q) = packet us.addr_len 2 n.netdev.hwaddr n.netdev.addr us.hwaddr us.addr in
    ap (arp_get_hwaddr n.netdev.addr) (receive-arp n.netdev us.hwaddr rest _ _ rx a d u.hwaddr)
    ∙ arp_rcv_refines rx buf m n.netdev.addr table
    ∙ ap
        (λ (x : ArpHdr × ArpIpv4).
          if learns x.0 x.1 m && x.1.sip == n.netdev.addr
          then some x.1.smac
          else arp_get_hwaddr n.netdev.addr m)
        (answer_heard us n us.addr n.netdev.addr rest d u small fits)
    ∙ ground arith

-- A stack asks for a hardware address that it does not know, for a datagram to a route's next
-- hop: the stack on the wire whose device has the next hop's address answers the request with one
-- frame, and the first stack, whose table is well formed, learns the hardware address from it. All
-- devices are Ethernet devices, the addresses are words, and the buffers may have more bytes behind
-- the frames.
pub arp_exchange :
    (daddr : ℕ) (skb rx_a rx_b : SkBuff) (n : Net) (rt : RtEntry) (rest_a rest_b : List ℕ)
    (a b : Sockets)
    → route_lookup daddr n ≡ some rt
    → daddr < 4294967296
    → rt.dev.addr < 4294967296
    → arp_get_hwaddr (next_hop rt daddr) n ≡ none
    → b.world.net.netdev.addr ≡ next_hop rt daddr
    → b.world.net.netdev.addr < 4294967296
    → a.world.net.netdev.addr ≡ rt.dev.addr
    → IsEthernet rt.dev
    → IsEthernet b.world.net.netdev
    → IsTable a.world.net.arp_cache
    → (request answer : List ℕ) × ((ip_output daddr skb n).0.sent ≡ n.sent ++ request ∷ [])
      × ((netdev_receive rx_b (request ++ rest_b) b).world.net.sent
          ≡ b.world.net.sent ++ answer ∷ [])
      × (arp_get_hwaddr (next_hop rt daddr) (netdev_receive rx_a (answer ++ rest_a) a).world.net
          ≡ some b.world.net.netdev.hwaddr)
arp_exchange daddr skb rx_a rx_b n rt rest_a rest_b a b found d s unknown hop small same u v table =
    let m = b.world.net in
    let (hdr, p) = packet rt.dev.addr_len 1 rt.dev.hwaddr rt.dev.addr broadcast_hw m.netdev.addr in
    (
      request_frame rt daddr,
      answer_frame hdr p m,
      ap (λ (x : Net). x.sent) (ip_output_unresolved daddr skb n rt found d s unknown).0,
      subst
          (λ z.
            let (asked, q) = request_packet rt.dev.addr z rt.dev in
            (netdev_receive rx_b (arp_frame rt.dev broadcast_hw asked q ++ rest_b) b).world.net.sent
            ≡ m.sent ++ answer_frame hdr p m ∷ [])
          hop (request_answered rt.dev rt.dev.addr rest_b rx_b b u s small),
      subst
          (λ z.
            arp_get_hwaddr z (netdev_receive rx_a (answer_frame hdr p m ++ rest_a) a).world.net
            ≡ some m.netdev.hwaddr)
          hop (answer_learned rt.dev m rest_a rx_a a v u small s same table),
    )
