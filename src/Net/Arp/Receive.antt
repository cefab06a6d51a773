-- ===== src/Net/Arp/Receive.antt =====
-- `arp_rcv` of src/arp.c: which packets are answered, and what the answer is.
use hf_ip.Packet.{ArpHdr, ArpIpv4, arp_hdr_bytes, arp_ipv4_bytes}
use hf_ip.Prelude.{Bool, List, [], arith, if◌then◌else◌, refl, ℕ, ◌&&◌, ◌++◌, ◌==◌, ◌∷◌, ◌≡◌}
use hf_ip.Word.{swap16, swap32}
use hf_ip.SkBuff.{SkBuff}
use hf_ip.Net.{Net}
use hf_ip.Net.Device.{eth_frame, eth_p_arp, netdev_get, netdev_transmit, tun_write}
use hf_ip.Net.Arp.{
  arp_answer, arp_ethernet, arp_in, arp_ipv4, arp_op_request, arp_rcv, arp_reply,
  insert_arp_translation_table, reply_packet, update_arp_translation_table,
}

-- A request of Ethernet and IPv4 for the device's address.
abbrev pub asks_us : ArpHdr → ArpIpv4 → Net → Bool
asks_us hdr p n =
    hdr.hwtype == arp_ethernet
    && hdr.protype == arp_ipv4
    && n.netdev.addr == p.dip
    && hdr.opcode == arp_op_request

-- The frame that tells the sender `p.smac` our hardware address.
abbrev pub answer_frame : ArpHdr → ArpIpv4 → Net → List ℕ
answer_frame hdr p n = eth_frame n.netdev p.smac eth_p_arp (
    arp_hdr_bytes
      (record hdr { opcode = swap16 2; hwtype = swap16 hdr.hwtype; protype = swap16 hdr.protype })
    ++ arp_ipv4_bytes (record {
      smac = n.netdev.hwaddr;
      sip = swap32 n.netdev.addr;
      dmac = p.smac;
      dip = swap32 p.sip;
    }))

reply-sent :
    (skb : SkBuff) (hdr : ArpHdr) (p : ArpIpv4) (n : Net)
    → (arp_reply skb hdr p n.netdev n).sent ≡ n.sent ++ answer_frame hdr p n ∷ []
unfolding arp_reply reply_packet netdev_transmit tun_write
reply-sent skb hdr p n = refl

insert-kept :
    (hdr : ArpHdr) (p : ArpIpv4) (n : Net)
    → let n' = insert_arp_translation_table hdr p n in (n'.sent ≡ n.sent) × (n'.netdev ≡ n.netdev)
unfolding insert_arp_translation_table
insert-kept hdr p n = (refl, refl)

answer-sent :
    (skb : SkBuff) (hdr : ArpHdr) (p : ArpIpv4) (merge : Bool) (n : Net)
    → (arp_answer skb hdr p merge n).sent ≡ (
        if n.netdev.addr == p.dip && hdr.opcode == arp_op_request
        then n.sent ++ answer_frame hdr p n ∷ []
        else n.sent)
unfolding arp_answer netdev_get insert_arp_translation_table
answer-sent skb hdr p merge n =
    ground
      (arith, reply-sent skb hdr p n, reply-sent skb hdr p (insert_arp_translation_table hdr p n))

-- Exactly the ARP requests for our address are answered, by one frame to the sender that names our
-- hardware address as that of our IP address; nothing else is sent for any received packet.
pub arp_rcv-answers :
    (skb : SkBuff) (buf : List ℕ) (n : Net)
    → let (hdr, p) = arp_in buf in
      (arp_rcv skb buf n).sent
      ≡ (if asks_us hdr p n then n.sent ++ answer_frame hdr p n ∷ [] else n.sent)
unfolding arp_rcv update_arp_translation_table
arp_rcv-answers skb buf n =
    let (hdr, p) = arp_in buf in
    let (n', merge) = update_arp_translation_table hdr p n in
    ground (arith, answer-sent skb hdr p merge n')
