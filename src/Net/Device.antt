-- ===== src/Net/Device.antt =====
-- src/netdev.c: giving a frame to the tap device.
use hf_ip.Prelude.{List, Option, [], if◌then◌else◌, none, some, take, ℕ, ◌++◌, ◌==◌, ◌∷◌}
use hf_ip.Prelude.Int.{ℤ}
use hf_ip.Word.{bytes16, swap16, u16}
use hf_ip.Packet.{eth_hdr_len}
use hf_ip.SkBuff.{SkBuff, skb_push}
use hf_ip.Net.{Net, NetDev}

-- `tun_write`
unfoldable pub tun_write : List ℕ → ℕ → Net → Net × ℤ
tun_write frame len n = (record n { sent = n.sent ++ frame ∷ [] }, n.tun_result len)

abbrev pub eth_p_ip : ℕ
eth_p_ip = 0x0800

abbrev pub eth_p_arp : ℕ
eth_p_arp = 0x0806

-- The Ethernet header in front of the bytes of the packet.
unfoldable pub eth_frame : NetDev → List ℕ → ℕ → List ℕ → List ℕ
eth_frame dev dst_hw ethertype bytes =
    take dev.addr_len dst_hw
    ++ take dev.addr_len dev.hwaddr
    ++ bytes16 (swap16 (u16 ethertype))
    ++ bytes

unfoldable pub netdev_transmit : NetDev → SkBuff → List ℕ → ℕ → Net → Net × SkBuff × ℤ
netdev_transmit dev skb dst_hw ethertype n =
    let frame = eth_frame dev dst_hw ethertype skb.bytes in
    let skb' = record (skb_push eth_hdr_len skb) { bytes = frame } in
    let (n', ret) = tun_write frame skb'.len n in (n', skb', ret)

unfoldable pub netdev_get : ℕ → Net → Option NetDev
netdev_get sip n = if n.netdev.addr == sip then some n.netdev else none
