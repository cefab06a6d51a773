-- ===== src/Stack.antt =====
-- The stack as one: the receiving side of src/netdev.c, which gives each frame to src/arp.c,
-- src/ip_input.c, src/icmpv4.c or src/tcp.c, with the header of include/ethernet.h; and how
-- src/main.c starts and stops it.
pub mod Heard
pub mod Frames
pub mod Receive
pub mod Delivery
pub mod Transfer
pub mod Neighbour
pub mod Start
pub mod Main
mod Tests
use hf_ip.Prelude.{
  List, Option, [], drop, if◌then◌else◌, none, replicate, some, suc, take, ℕ, ◌==◌, ◌∷◌,
}
use hf_ip.Word.{swap16}
use hf_ip.Packet.{at16}
use hf_ip.SkBuff.{SkBuff, alloc_skb, free_skb}
use hf_ip.Ipc.{overlay}
use hf_ip.Net.{Net}
use hf_ip.Net.Device.{eth_p_arp, eth_p_ip}
use hf_ip.Net.Arp.{arp_rcv}
use hf_ip.Net.Ip.{Verdict, drop_pkt, icmpv4_incoming, ip_rcv, to_icmp, to_tcp}
use hf_ip.Sockets.{Sockets}
use hf_ip.Sockets.Calls.{tcp_in}

-- `struct eth_hdr`; `payload` is the flexible array at its end.
pub record EthHdr : Type 0 where
  pub dmac : List ℕ
  pub smac : List ℕ
  pub ethertype : ℕ
  pub payload : List ℕ

-- `eth_hdr`: the header at the buffer's head, its type in host order.
unfoldable pub eth_hdr : List ℕ → EthHdr
eth_hdr m = record {
  dmac = take 6 m;
  smac = take 6 (drop 6 m);
  ethertype = swap16 (at16 m 12);
  payload = drop 14 m;
}

abbrev pub buflen : ℕ
buflen = 1600

-- A function of the layers below TCP.
abbrev pub on_net : (Net → Net) → Sockets → Sockets
on_net f t = record t { world = record t.world { net = f t.world.net } }

-- `free_skb` on a received buffer.
abbrev pub freed_skb : SkBuff → Sockets → Sockets
freed_skb skb t = record t { world = record t.world { freed = free_skb skb t.world.freed } }

-- What `ip_rcv` calls for a datagram; the memory behind its header is `m`.
unfoldable pub ip_upper : SkBuff → List ℕ → Verdict → Sockets → Sockets
unfolding free_skb icmpv4_incoming tcp_in
ip_upper skb m drop_pkt t = freed_skb skb t
ip_upper skb m (to_icmp ih) t = freed_skb skb (on_net (icmpv4_incoming skb ih m) t)
ip_upper skb m (to_tcp ih) t = tcp_in ih skb m t

-- `buf` is the memory from the buffer's head on.
unfoldable pub netdev_receive : SkBuff → List ℕ → Sockets → Sockets
unfolding eth_hdr free_skb arp_rcv ip_rcv ip_upper
netdev_receive skb buf t =
    let hdr = eth_hdr buf in
    if hdr.ethertype == eth_p_arp
    then freed_skb skb (on_net (arp_rcv skb buf) t)
    else (if hdr.ethertype == eth_p_ip
        then ip_upper skb (drop 20 hdr.payload) (ip_rcv hdr.payload) t
        else freed_skb skb t)

-- `alloc_skb(BUFLEN)`
unfoldable pub receive_skb : Sockets → SkBuff × Sockets
unfolding alloc_skb
receive_skb t = (
  alloc_skb t.world.next_skb buflen,
  record t { world = record t.world { next_skb = suc t.world.next_skb } },
)

-- `netdev_rx_loop`, for the results of `tun_read` in the rounds in which `running` is set.
unfoldable pub netdev_rx_loop : List (Option (List ℕ)) → Sockets → Sockets
unfolding receive_skb netdev_receive free_skb
netdev_rx_loop [] t = t
netdev_rx_loop (none ∷ rounds) t = let (skb, t1) = receive_skb t in freed_skb skb t1
netdev_rx_loop (some frame ∷ rounds) t =
    let (skb, t1) = receive_skb t in
    let buf = overlay (take buflen frame) (replicate buflen 0) in
    netdev_rx_loop rounds (netdev_receive skb buf t1)
