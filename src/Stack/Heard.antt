-- ===== src/Stack/Heard.antt =====
-- ARP packets in frames, as the receiving stack hears them.
use hf_ip.Prelude.{
  List, ap, arith, drop, if◌then◌else◌, length, refl, take, take-all, ℕ, ◌++◌, ◌<◌, ◌==◌, ◌∙◌, ◌≡◌,
}
use hf_ip.Word.{swap16, swap32, swap32-swap32}
use hf_ip.Packet.{ArpHdr, ArpIpv4, arp_hdr_bytes, arp_ipv4_bytes, read_arp_hdr, read_arp_ipv4}
use hf_ip.SkBuff.{SkBuff, free_skb}
use hf_ip.Net.{Net, NetDev}
use hf_ip.Net.Device.{eth_frame, eth_p_arp, eth_p_ip}
use hf_ip.Net.Arp.{arp_ethernet, arp_in, arp_ipv4, arp_rcv, broadcast_hw, request_packet}
use hf_ip.Net.Arp.Receive.{answer_frame}
use hf_ip.Net.Ip.{ip_rcv}
use hf_ip.Sockets.{Sockets}
use hf_ip.Stack.{EthHdr, freed_skb, ip_upper, netdev_receive, on_net}
use hf_ip.Stack.Receive.{IsEthernet, eth_hdr-frame, six_of}

-- The members of an ARP packet fit their widths.
pub record ArpFits (hdr : ArpHdr) (p : ArpIpv4) : Type 0 where
  pub hwtype : hdr.hwtype < 65536
  pub protype : hdr.protype < 65536
  pub hwsize : hdr.hwsize < 256
  pub prosize : hdr.prosize < 256
  pub opcode : hdr.opcode < 65536
  pub smac : length p.smac ≡ 6
  pub sip : p.sip < 4294967296
  pub dmac : length p.dmac ≡ 6
  pub dip : p.dip < 4294967296

-- The frame of an ARP packet.
abbrev pub arp_frame : NetDev → List ℕ → ArpHdr → ArpIpv4 → List ℕ
arp_frame dev mac hdr p = eth_frame dev mac eth_p_arp (arp_hdr_bytes hdr ++ arp_ipv4_bytes p)

-- A packet is read back in host order as it was written, whatever follows its frame.
pub arp_in-frame :
    (dev : NetDev) (mac rest : List ℕ) (hdr : ArpHdr) (p : ArpIpv4)
    → IsEthernet dev
    → length mac ≡ 6
    → ArpFits hdr p
    → arp_in (arp_frame dev mac hdr p ++ rest) ≡ (
      record hdr {
        hwtype = swap16 hdr.hwtype;
        protype = swap16 hdr.protype;
        opcode = swap16 hdr.opcode;
      },
      record p { sip = swap32 p.sip; dip = swap32 p.dip },
    )
unfolding arp_in eth_frame arp_hdr_bytes arp_ipv4_bytes read_arp_hdr read_arp_ipv4
arp_in-frame dev mac rest hdr p dev_ok six fits =
    let (a1, b1, c1, d1, e1, f1, m) = six_of mac six in
    let (a2, b2, c2, d2, e2, f2, w) = six_of dev.hwaddr dev_ok.hwaddr in
    let (a3, b3, c3, d3, e3, f3, s) = six_of p.smac fits.smac in
    let (a4, b4, c4, d4, e4, f4, d) = six_of p.dmac fits.dmac in
    rw (dev_ok.size, m, w, s, d)
      (ground (
        arith, fits.hwtype, fits.protype, fits.hwsize, fits.prosize, fits.opcode, fits.sip,
        fits.dip,
      ))

pub receive-arp :
    (dev : NetDev) (mac rest : List ℕ) (hdr : ArpHdr) (p : ArpIpv4) (rx : SkBuff) (t : Sockets)
    → IsEthernet dev
    → length mac ≡ 6
    → (netdev_receive rx (arp_frame dev mac hdr p ++ rest) t).world.net
      ≡ arp_rcv rx (arp_frame dev mac hdr p ++ rest) t.world.net
unfolding netdev_receive free_skb
receive-arp dev mac rest hdr p rx t dev_ok six =
    let buf = arp_frame dev mac hdr p ++ rest in
    ap
      (λ (hdr : EthHdr).
        (if hdr.ethertype == eth_p_arp
          then freed_skb rx (on_net (arp_rcv rx buf) t)
          else (if hdr.ethertype == eth_p_ip
              then ip_upper rx (drop 20 hdr.payload) (ip_rcv hdr.payload) t
              else freed_skb rx t)).world.net)
      (eth_hdr-frame dev mac eth_p_arp (arp_hdr_bytes hdr ++ arp_ipv4_bytes p) rest dev_ok six
        (omega arith))

-- A packet of Ethernet and IPv4 in host order.
abbrev pub packet : ℕ → ℕ → List ℕ → ℕ → List ℕ → ℕ → ArpHdr × ArpIpv4
packet hwsize opcode smac sip dmac dip = (
  record {
    hwtype = arp_ethernet;
    protype = arp_ipv4;
    hwsize = hwsize;
    prosize = 4;
    opcode = opcode;
  },
  record { smac = smac; sip = sip; dmac = dmac; dip = dip },
)

pub take-hwaddr : (dev : NetDev) → IsEthernet dev → take dev.addr_len dev.hwaddr ≡ dev.hwaddr
take-hwaddr dev d = take-all dev.addr_len dev.hwaddr (omega (arith, d.size, d.hwaddr))

pub take-broadcast : (dev : NetDev) → IsEthernet dev → take dev.addr_len broadcast_hw ≡ broadcast_hw
take-broadcast dev d = take-all dev.addr_len broadcast_hw (omega (arith, d.size))

-- What a stack hears of a request.
pub request_heard :
    (dev : NetDev) (sip dip : ℕ) (rest : List ℕ)
    → IsEthernet dev
    → sip < 4294967296
    → dip < 4294967296
    → let (hdr, p) = request_packet sip dip dev in
      arp_in (arp_frame dev broadcast_hw hdr p ++ rest)
      ≡ packet dev.addr_len 1 dev.hwaddr sip broadcast_hw dip
unfolding request_packet
request_heard dev sip dip rest d s t =
    let (hdr, p) = request_packet sip dip dev in
    let fits : ArpFits hdr p = record {
      hwtype = omega arith;
      protype = omega arith;
      hwsize = omega (arith, d.size);
      prosize = omega arith;
      opcode = omega arith;
      smac = ap length (take-hwaddr dev d) ∙ d.hwaddr;
      sip = omega arith;
      dmac = rw d.size refl;
      dip = omega arith;
    } in
    arp_in-frame dev broadcast_hw rest hdr p d refl fits
    ∙ rw (take-hwaddr dev d, take-broadcast dev d, swap32-swap32 sip s, swap32-swap32 dip t) refl

-- What a stack hears of the answer to its request.
pub answer_heard :
    (us : NetDev) (n : Net) (sip dip : ℕ) (rest : List ℕ)
    → IsEthernet n.netdev
    → IsEthernet us
    → n.netdev.addr < 4294967296
    → sip < 4294967296
    → let (hdr, p) = packet us.addr_len 1 us.hwaddr sip broadcast_hw dip in
      arp_in (answer_frame hdr p n ++ rest)
      ≡ packet us.addr_len 2 n.netdev.hwaddr n.netdev.addr us.hwaddr sip
answer_heard us n sip dip rest d u a s =
    let hdr : ArpHdr = record {
      hwtype = swap16 arp_ethernet;
      protype = swap16 arp_ipv4;
      hwsize = us.addr_len;
      prosize = 4;
      opcode = swap16 2;
    } in
    let p : ArpIpv4 = record {
      smac = n.netdev.hwaddr;
      sip = swap32 n.netdev.addr;
      dmac = us.hwaddr;
      dip = swap32 sip;
    } in
    let fits : ArpFits hdr p = record {
      hwtype = omega arith;
      protype = omega arith;
      hwsize = omega (arith, u.size);
      prosize = omega arith;
      opcode = omega arith;
      smac = d.hwaddr;
      sip = omega arith;
      dmac = u.hwaddr;
      dip = omega arith;
    } in
    arp_in-frame n.netdev us.hwaddr rest hdr p d u.hwaddr fits
    ∙ rw (swap32-swap32 n.netdev.addr a, swap32-swap32 sip s) refl
