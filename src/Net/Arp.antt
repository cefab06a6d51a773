-- ===== src/Net/Arp.antt =====
-- src/arp.c: address resolution. A received packet is the bytes of its buffer from `head` on.
-- Locks order the table's operations; each operation is one step here.
pub mod Entries
pub mod Table
pub mod Receive
use hf_ip.Prelude.{
  Bool, List, Option, [], drop, false, if◌then◌else◌, none, some, take, true, ℕ, ◌&&◌, ◌++◌, ◌+◌,
  ◌==◌, ◌∷◌,
}
use hf_ip.Prelude.Int.{ℤ}
use hf_ip.Word.{swap16, swap32}
use hf_ip.Packet.{
  ArpHdr, ArpIpv4, arp_data_len, arp_hdr_bytes, arp_hdr_len, arp_ipv4_bytes, read_arp_hdr,
  read_arp_ipv4,
}
use hf_ip.SkBuff.{SkBuff, alloc_skb, skb_push, skb_reserve}
use hf_ip.Net.{ArpEntry, Net, NetDev}
use hf_ip.Net.Device.{eth_p_arp, eth_p_ip, netdev_get, netdev_transmit}

abbrev pub arp_ethernet : ℕ
arp_ethernet = 0x0001

abbrev pub arp_ipv4 : ℕ
arp_ipv4 = 0x0800

abbrev pub arp_op_request : ℕ
arp_op_request = 0x0001

abbrev arp_op_reply : ℕ
arp_op_reply = 0x0002

abbrev pub arp_resolved : ℕ
arp_resolved = 2

abbrev pub broadcast_hw : List ℕ
broadcast_hw = 0xff ∷ 0xff ∷ 0xff ∷ 0xff ∷ 0xff ∷ 0xff ∷ []

-- `arp_alloc_skb`: the packet starts behind the reserved 42 bytes.
unfoldable pub arp_alloc_skb : SkBuff
unfolding alloc_skb skb_reserve
arp_alloc_skb = record (skb_reserve 42 (alloc_skb 0 42)) { protocol = swap16 eth_p_arp }

unfoldable pub arp_entry_alloc : ArpHdr → ArpIpv4 → ArpEntry
arp_entry_alloc hdr p = record {
  hwtype = hdr.hwtype;
  sip = p.sip;
  smac = p.smac;
  state = arp_resolved;
}

unfoldable pub insert_arp_translation_table : ArpHdr → ArpIpv4 → Net → Net
unfolding arp_entry_alloc
insert_arp_translation_table hdr p n = record n {
  arp_cache = n.arp_cache ++ arp_entry_alloc hdr p ∷ [];
}

-- The loop of `update_arp_translation_table`: the table, and whether an entry was found.
unfoldable pub update_loop : ArpHdr → ArpIpv4 → List ArpEntry → List ArpEntry × Bool
update_loop hdr p [] = ([], false)
update_loop hdr p (e ∷ rest) =
    let (rest', found) = update_loop hdr p rest in
    if e.hwtype == hdr.hwtype && e.sip == p.sip
    then (record e { smac = p.smac } ∷ rest, true)
    else (e ∷ rest', found)

unfoldable pub update_arp_translation_table : ArpHdr → ArpIpv4 → Net → Net × Bool
update_arp_translation_table hdr p n =
    let (cache, found) = update_loop hdr p n.arp_cache in (record n { arp_cache = cache }, found)

-- The loop of `arp_get_hwaddr`.
unfoldable pub hwaddr_loop : ℕ → List ArpEntry → Option (List ℕ)
hwaddr_loop sip [] = none
hwaddr_loop sip (e ∷ rest) =
    let next = hwaddr_loop sip rest in
    if e.state == arp_resolved && e.sip == sip then some e.smac else next

unfoldable pub arp_get_hwaddr : ℕ → Net → Option (List ℕ)
arp_get_hwaddr sip n = hwaddr_loop sip n.arp_cache

-- What `arp_request` writes into its buffer, in network byte order.
unfoldable pub request_packet : ℕ → ℕ → NetDev → ArpHdr × ArpIpv4
request_packet sip dip dev = (
  record {
    hwtype = swap16 arp_ethernet;
    protype = swap16 eth_p_ip;
    hwsize = dev.addr_len;
    prosize = 4;
    opcode = swap16 arp_op_request;
  },
  record {
    smac = take dev.addr_len dev.hwaddr;
    sip = swap32 sip;
    dmac = take dev.addr_len broadcast_hw;
    dip = swap32 dip;
  },
)

unfoldable pub arp_request : ℕ → ℕ → NetDev → Net → Net × ℤ
arp_request sip dip dev n =
    let (hdr, p) = request_packet sip dip dev in
    let skb = skb_push arp_hdr_len (skb_push arp_data_len arp_alloc_skb) in
    let skb' = record skb { bytes = arp_hdr_bytes hdr ++ arp_ipv4_bytes p } in
    let (n', sent, rc) = netdev_transmit dev skb' broadcast_hw eth_p_arp n in (n', rc)

-- What `arp_reply` makes of a request, whose words were turned into host order before.
unfoldable pub reply_packet : ArpHdr → ArpIpv4 → NetDev → ArpHdr × ArpIpv4
reply_packet hdr p dev = (
  record hdr {
    opcode = swap16 arp_op_reply;
    hwtype = swap16 hdr.hwtype;
    protype = swap16 hdr.protype;
  },
  record { dmac = p.smac; dip = swap32 p.sip; smac = dev.hwaddr; sip = swap32 dev.addr },
)

-- `skb` is the received buffer, whose `data` is moved behind the packet and back.
unfoldable pub arp_reply : SkBuff → ArpHdr → ArpIpv4 → NetDev → Net → Net
arp_reply skb hdr p dev n =
    let (hdr', p') = reply_packet hdr p dev in
    let skb' = skb_push (arp_hdr_len + arp_data_len) (skb_reserve 42 skb) in
    let out = record skb' { bytes = arp_hdr_bytes hdr' ++ arp_ipv4_bytes p' } in
    (netdev_transmit dev out p'.dmac eth_p_arp n).0

-- The words of the header and of the addresses in host order, as `arp_rcv` leaves them.
unfoldable pub arp_in : List ℕ → ArpHdr × ArpIpv4
arp_in buf =
    let hdr = read_arp_hdr (drop 14 buf) in
    let p = read_arp_ipv4 (drop 22 buf) in
    (
      record hdr {
        hwtype = swap16 hdr.hwtype;
        protype = swap16 hdr.protype;
        opcode = swap16 hdr.opcode;
      },
      record p { sip = swap32 p.sip; dip = swap32 p.dip },
    )

-- Behind the table's update in `arp_rcv`.
unfoldable pub arp_answer : SkBuff → ArpHdr → ArpIpv4 → Bool → Net → Net
arp_answer skb hdr p merge n = elim (netdev_get p.dip n) [
  | none ↦ n
  | some dev ↦
      let n' = if merge then n else insert_arp_translation_table hdr p n in
      if hdr.opcode == arp_op_request then arp_reply skb hdr p dev n' else n'
]

unfoldable pub arp_rcv : SkBuff → List ℕ → Net → Net
unfolding arp_answer
arp_rcv skb buf n =
    let (hdr, p) = arp_in buf in
    let (n', merge) = update_arp_translation_table hdr p n in
    if hdr.hwtype == arp_ethernet
    then (if hdr.protype == arp_ipv4 then arp_answer skb hdr p merge n' else n)
    else n

unfoldable pub free_arp : Net → Net
free_arp n = record n { arp_cache = [] }
