-- ===== src/Stack/Frames.antt =====
-- The frames that `netdev_rx_loop` of src/netdev.c takes keep the table of sockets.
use hf_ip.Prelude.{
  Bool, List, Option, [], drop, false, if◌then◌else◌, none, replicate, some, take, true, ℕ, ◌==◌,
  ◌∷◌,
}
use hf_ip.SkBuff.{SkBuff}
use hf_ip.Ipc.{overlay}
use hf_ip.Net.Device.{eth_p_arp, eth_p_ip}
use hf_ip.Net.Ip.{Verdict, drop_pkt, ip_rcv, to_icmp, to_tcp}
use hf_ip.Sockets.{Sockets}
use hf_ip.Sockets.Table.{IsTable}
use hf_ip.Sockets.Refs.{Same, Same-trans, Same-world}
use hf_ip.Sockets.Segments.{segment-Same}
use hf_ip.Stack.{buflen, eth_hdr, ip_upper, netdev_receive, netdev_rx_loop, receive_skb}

Same-if : (b : Bool) (s t u : Sockets) → Same s t → Same s u → Same s (if b then t else u)
Same-if true s t u h k = h
Same-if false s t u h k = k

upper-Same :
    (skb : SkBuff) (m : List ℕ) (v : Verdict) (t : Sockets)
    → IsTable t
    → Same t (ip_upper skb m v t)
unfolding ip_upper
upper-Same skb m drop_pkt t w = Same-world t _ w
upper-Same skb m (to_icmp ih) t w = Same-world t _ w
upper-Same skb m (to_tcp ih) t w = segment-Same ih skb m t w

receive-Same :
    (skb : SkBuff) (buf : List ℕ) (t : Sockets) → IsTable t → Same t (netdev_receive skb buf t)
unfolding netdev_receive
receive-Same skb buf t w =
    let hdr = eth_hdr buf in
    Same-if (hdr.ethertype == eth_p_arp) t _ _ (Same-world t _ w) (
      Same-if (hdr.ethertype == eth_p_ip) t _ _
        (upper-Same skb (drop 20 hdr.payload) (ip_rcv hdr.payload) t w) (Same-world t _ w))

-- Whatever frames the device gives, also ones that are cut or no packets at all, and however the
-- loop ends: it leaves the same sockets, each with as many references as before. Their fds stay
-- distinct and below the next one, each socket of the list is created and has a positive count, and
-- `sock_amount` is their number.
pub netdev_rx_loop-Same :
    (rounds : List (Option (List ℕ))) (t : Sockets) → IsTable t → Same t (netdev_rx_loop rounds t)
unfolding netdev_rx_loop receive_skb
netdev_rx_loop-Same [] t w = Same-world t t.world w
netdev_rx_loop-Same (none ∷ rounds) t w = Same-world t _ w
netdev_rx_loop-Same (some frame ∷ rounds) t w =
    let (skb, t1) = receive_skb t in
    let buf = overlay (take buflen frame) (replicate buflen 0) in
    let before = Same-world t t1.world w in
    let here = receive-Same skb buf t1 before.table in
    let t2 = netdev_receive skb buf t1 in
    Same-trans t t2 _ (Same-trans t t1 t2 before here) (netdev_rx_loop-Same rounds t2 here.table)
