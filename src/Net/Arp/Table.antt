-- ===== src/Net/Arp/Table.antt =====
-- The address table as a map: what a received packet teaches it.
use mathlib.Core.Path.{subst}
use hf_ip.Net.Arp.Entries.{
  IsTable, NoEntry-of_none, found-update, hwaddr-insert, hwaddr-update, insert-IsTable, knows,
  update-IsTable,
}
use hf_ip.Prelude.{
  Bool, Bool-cases, List, [], ap, arith, false, if◌then◌else◌, inl, inr, none, not, refl, some, sym,
  true, ℕ, ◌&&◌, ◌++◌, ◌==◌, ◌||◌, ◌∙◌, ◌∷◌, ◌≡◌,
}
use hf_ip.Packet.{ArpHdr, ArpIpv4}
use hf_ip.SkBuff.{SkBuff}
use hf_ip.Net.{ArpEntry, Net, NetDev}
use hf_ip.Net.Device.{netdev_get, netdev_transmit, tun_write}
use hf_ip.Net.Arp.{
  arp_answer, arp_entry_alloc, arp_ethernet, arp_get_hwaddr, arp_in, arp_ipv4, arp_rcv, arp_reply,
  hwaddr_loop, insert_arp_translation_table, update_arp_translation_table, update_loop,
}

-- Both words of the header are those of Ethernet and IPv4.
abbrev pub accepts : ArpHdr → Bool
accepts hdr = hdr.hwtype == arp_ethernet && hdr.protype == arp_ipv4

-- The packet is from a sender that is known, or it is for us.
abbrev pub learns : ArpHdr → ArpIpv4 → Net → Bool
learns hdr p n = accepts hdr && (knows n.arp_cache p.sip || n.netdev.addr == p.dip)

cache-reply :
    (skb : SkBuff) (hdr : ArpHdr) (p : ArpIpv4) (dev : NetDev) (n : Net)
    → (arp_reply skb hdr p dev n).arp_cache ≡ n.arp_cache
unfolding arp_reply netdev_transmit tun_write
cache-reply skb hdr p dev n = refl

-- The table that `arp_rcv` leaves.
abbrev learned : ArpHdr → ArpIpv4 → Net → List ArpEntry
learned hdr p n =
    let (l, found) = update_loop hdr p n.arp_cache in
    if accepts hdr
    then (if n.netdev.addr == p.dip && not found then l ++ arp_entry_alloc hdr p ∷ [] else l)
    else n.arp_cache

cache-answer :
    (skb : SkBuff) (hdr : ArpHdr) (p : ArpIpv4) (merge : Bool) (n : Net)
    → (arp_answer skb hdr p merge n).arp_cache ≡ (
        if n.netdev.addr == p.dip && not merge
        then n.arp_cache ++ arp_entry_alloc hdr p ∷ []
        else n.arp_cache)
unfolding arp_answer netdev_get insert_arp_translation_table
cache-answer skb hdr p merge n = ground (
  arith,
  cache-reply skb hdr p n.netdev n,
  cache-reply skb hdr p n.netdev (insert_arp_translation_table hdr p n),
)

cache-arp_rcv :
    (skb : SkBuff) (buf : List ℕ) (n : Net)
    → let (hdr, p) = arp_in buf in (arp_rcv skb buf n).arp_cache ≡ learned hdr p n
unfolding arp_rcv update_arp_translation_table
cache-arp_rcv skb buf n =
    let (hdr, p) = arp_in buf in
    let (n', merge) = update_arp_translation_table hdr p n in
    ground (arith, cache-answer skb hdr p merge n')

hwtype_of_accepts : (hdr : ArpHdr) → accepts hdr ≡ true → hdr.hwtype ≡ arp_ethernet
hwtype_of_accepts hdr a = ground arith

-- What the update leaves unknown stays unknown to it.
unknown-update :
    (hdr : ArpHdr) (p : ArpIpv4) (l : List ArpEntry)
    → hdr.hwtype ≡ arp_ethernet
    → IsTable l
    → (update_loop hdr p l).1 ≡ false
    → hwaddr_loop p.sip (update_loop hdr p l).0 ≡ none
unknown-update hdr p l h t f =
    ground (arith, hwaddr-update hdr p l p.sip h t, found-update hdr p l h t)

learned-IsTable :
    (hdr : ArpHdr) (p : ArpIpv4) (n : Net) → IsTable n.arp_cache → IsTable (learned hdr p n)
unfolding arp_entry_alloc
learned-IsTable hdr p n t = elim (Bool-cases (accepts hdr)) [
  | inr no_ ↦ rw no_ t
  | inl a ↦
      let l = (update_loop hdr p n.arp_cache).0 in
      let found = (update_loop hdr p n.arp_cache).1 in
      let ok = update-IsTable hdr p n.arp_cache t in
      elim (Bool-cases (n.netdev.addr == p.dip && not found)) [
        | inr old ↦ rw (a, old) ok
        | inl new ↦
            rw (a, new)
              (insert-IsTable (arp_entry_alloc hdr p) l (hwtype_of_accepts hdr a) refl ok (
                NoEntry-of_none p.sip l ok
                  (unknown-update hdr p n.arp_cache (hwtype_of_accepts hdr a) t (ground arith))))
      ]
]

hwaddr-learned :
    (hdr : ArpHdr) (p : ArpIpv4) (n : Net) (j : ℕ)
    → IsTable n.arp_cache
    → hwaddr_loop j (learned hdr p n)
      ≡ (if learns hdr p n && p.sip == j then some p.smac else hwaddr_loop j n.arp_cache)
unfolding arp_entry_alloc
hwaddr-learned hdr p n j t = elim (Bool-cases (accepts hdr)) [
  | inr no_ ↦ rw no_
  | inl a ↦
      let h = hwtype_of_accepts hdr a in
      ground (
        arith,
        hwaddr-update hdr p n.arp_cache j h t,
        found-update hdr p n.arp_cache h t,
        unknown-update hdr p n.arp_cache h t,
        hwaddr-insert (arp_entry_alloc hdr p) (update_loop hdr p n.arp_cache).0 j refl,
      )
]

-- Received packets keep a well-formed table well formed.
pub arp_rcv-IsTable :
    (skb : SkBuff) (buf : List ℕ) (n : Net)
    → IsTable n.arp_cache
    → IsTable (arp_rcv skb buf n).arp_cache
arp_rcv-IsTable skb buf n t =
    let (hdr, p) = arp_in buf in
    subst IsTable (sym (cache-arp_rcv skb buf n)) (learned-IsTable hdr p n t)

-- As RFC 826 asks: a packet of Ethernet and IPv4 whose sender is known already, or that is for
-- our address, makes the table say the sender's hardware address for the sender's IP address. It
-- changes the answer for no other IP address, and any other packet changes none.
pub arp_rcv_refines :
    (skb : SkBuff) (buf : List ℕ) (n : Net) (j : ℕ)
    → IsTable n.arp_cache
    → let (hdr, p) = arp_in buf in
      arp_get_hwaddr j (arp_rcv skb buf n)
      ≡ (if learns hdr p n && p.sip == j then some p.smac else arp_get_hwaddr j n)
unfolding arp_get_hwaddr
arp_rcv_refines skb buf n j t =
    let (hdr, p) = arp_in buf in
    ap (hwaddr_loop j) (cache-arp_rcv skb buf n) ∙ hwaddr-learned hdr p n j t
