-- ===== src/Net/Arp/Entries.antt =====
-- The entries of the address table of src/arp.c.
use hf_ip.Prelude.{
  All, All-append, Bool, List, [], arith, false, if◌then◌else◌, none, refl, some, sym, true, ℕ,
  ◌&&◌, ◌++◌, ◌==◌, ◌∷◌, ◌≡◌, ◌≢◌,
}
use hf_ip.Packet.{ArpHdr, ArpIpv4}
use hf_ip.Net.{ArpEntry}
use hf_ip.Net.Arp.{arp_ethernet, arp_resolved, hwaddr_loop, update_loop}

abbrev pub NoEntry : ℕ → List ArpEntry → Type 0
NoEntry sip l = All (λ e. sip ≢ e.sip) l

-- Every entry is a resolved Ethernet address, and no IP address has two entries.
abbrev pub IsTable : List ArpEntry → Type 0
IsTable [] = Unit
IsTable (e ∷ rest) =
    (e.hwtype ≡ arp_ethernet) × (e.state ≡ arp_resolved) × NoEntry e.sip rest × IsTable rest

-- What the table says of an IP address.
abbrev pub knows : List ArpEntry → ℕ → Bool
knows l sip = elim (hwaddr_loop sip l) [ none ↦ false | some mac ↦ true ]

pub hwaddr-none : (sip : ℕ) (l : List ArpEntry) → NoEntry sip l → hwaddr_loop sip l ≡ none
unfolding hwaddr_loop
hwaddr-none sip [] h = refl
hwaddr-none sip (e ∷ rest) h = ground (arith, hwaddr-none sip rest h.1)

pub NoEntry-of_none :
    (sip : ℕ) (l : List ArpEntry) → IsTable l → hwaddr_loop sip l ≡ none → NoEntry sip l
unfolding hwaddr_loop
NoEntry-of_none sip [] t h = tt
NoEntry-of_none sip (e ∷ rest) t h = (ground arith, NoEntry-of_none sip rest t.3 (ground arith))

pub NoEntry-update :
    (hdr : ArpHdr) (p : ArpIpv4) (l : List ArpEntry) (sip : ℕ)
    → NoEntry sip l
    → NoEntry sip (update_loop hdr p l).0
unfolding update_loop
NoEntry-update hdr p [] sip h = tt
NoEntry-update hdr p (e ∷ rest) sip h = ground (arith, NoEntry-update hdr p rest sip h.1)

pub update-IsTable :
    (hdr : ArpHdr) (p : ArpIpv4) (l : List ArpEntry) → IsTable l → IsTable (update_loop hdr p l).0
unfolding update_loop
update-IsTable hdr p [] t = tt
update-IsTable hdr p (e ∷ rest) t =
    ground (arith, update-IsTable hdr p rest t.3, NoEntry-update hdr p rest e.sip t.2)

pub insert-IsTable :
    (e : ArpEntry) (l : List ArpEntry)
    → e.hwtype ≡ arp_ethernet
    → e.state ≡ arp_resolved
    → IsTable l
    → NoEntry e.sip l
    → IsTable (l ++ e ∷ [])
insert-IsTable e [] h s t n = (h, s, tt, tt)
insert-IsTable e (f ∷ rest) h s t n = (
  t.0,
  t.1,
  All-append (λ x. f.sip ≢ x.sip) rest (e ∷ []) t.2 ((λ q. n.0 (sym q)), tt),
  insert-IsTable e rest h s t.3 n.1,
)

pub hwaddr-update :
    (hdr : ArpHdr) (p : ArpIpv4) (l : List ArpEntry) (j : ℕ)
    → hdr.hwtype ≡ arp_ethernet
    → IsTable l
    → hwaddr_loop j (update_loop hdr p l).0
      ≡ (if p.sip == j && knows l p.sip then some p.smac else hwaddr_loop j l)
unfolding update_loop hwaddr_loop
hwaddr-update hdr p [] j h t = ground arith
hwaddr-update hdr p (e ∷ rest) j h t =
    ground (arith, hwaddr-update hdr p rest j h t.3, hwaddr-none e.sip rest t.2)

pub found-update :
    (hdr : ArpHdr) (p : ArpIpv4) (l : List ArpEntry)
    → hdr.hwtype ≡ arp_ethernet
    → IsTable l
    → (update_loop hdr p l).1 ≡ knows l p.sip
unfolding update_loop hwaddr_loop
found-update hdr p [] h t = refl
found-update hdr p (e ∷ rest) h t = ground (arith, found-update hdr p rest h t.3)

pub hwaddr-insert :
    (e : ArpEntry) (l : List ArpEntry) (j : ℕ)
    → e.state ≡ arp_resolved
    → hwaddr_loop e.sip l ≡ none
    → hwaddr_loop j (l ++ e ∷ []) ≡ (if e.sip == j then some e.smac else hwaddr_loop j l)
unfolding hwaddr_loop
hwaddr-insert e [] j s n = ground arith
hwaddr-insert e (f ∷ rest) j s n = ground (arith, hwaddr-insert e rest j s)
