-- ===== src/Tcp/Segment/Wire.antt =====
-- What `tcp_transmit_skb` puts on the wire, as `tcp_init_segment` reads it.
use hf_ip.Packet.{Iphdr, Tcphdr, read_tcphdr, tcphdr_bytes}
use hf_ip.Packet.Layout.{TcphdrFits, read_tcphdr-bytes}
use hf_ip.Prelude.{
  List, ap, ap₂, arith, length, length-append, refl, sym, ℕ, ◌*◌, ◌++◌, ◌+◌, ◌-◌, ◌<◌, ◌∙◌, ◌≡◌,
  ◌≤◌,
}
use hf_ip.Word.{sub32, swap16, swap16-swap16, swap32, swap32-swap32, u16, u32}
use hf_ip.SkBuff.{SkBuff, skb_push}
use hf_ip.Tcp.{Conn}
use hf_ip.Tcp.Header.{segment_skb, tcp_v4_checksum, to_network}
use hf_ip.Tcp.Segment.{tcp_init_segment, text_len, to_host}

-- A text behind a header is a part of the flexible array at the header's end.
pub tcphdr_bytes-append :
    (h : Tcphdr) (text : List ℕ)
    → tcphdr_bytes h ++ text ≡ tcphdr_bytes (record h { body = h.body ++ text })
unfolding tcphdr_bytes
tcphdr_bytes-append h text = refl

-- The words of a header that the wire carries.
abbrev pub on_wire : Tcphdr → ℕ → List ℕ → Tcphdr
on_wire h csum text = record (to_network h) { csum = csum; body = h.body ++ text }

wire-Fits :
    (h : Tcphdr) (csum : ℕ) (text : List ℕ)
    → TcphdrFits h
    → csum < 65536
    → TcphdrFits (on_wire h csum text)
unfolding to_network
wire-Fits h csum text f c = omega arith

host_again :
    (h : Tcphdr) (csum : ℕ) (text : List ℕ)
    → TcphdrFits h
    → to_host (on_wire h csum text) ≡ record h { csum = swap16 csum; body = h.body ++ text }
unfolding to_network
host_again h csum text f = ground (
  arith,
  swap16-swap16 h.sport,
  swap16-swap16 h.dport,
  swap32-swap32 h.seq,
  swap32-swap32 h.ack_seq,
  swap16-swap16 h.win,
  swap16-swap16 h.urp,
)

pub length-tcphdr_bytes : (h : Tcphdr) → length (tcphdr_bytes h) ≡ 20 + length h.body
unfolding tcphdr_bytes
length-tcphdr_bytes h = omega arith

-- The checksum that `tcp_transmit_skb` stores, and the bytes that it gives to the IP layer.
pub segment-bytes :
    (c : Conn) (skb : SkBuff) (h : Tcphdr)
    → (csum : ℕ) × (csum < 65536)
      × ((segment_skb c skb h).bytes ≡ tcphdr_bytes (on_wire h csum skb.text))
unfolding segment_skb to_network
segment-bytes c skb h =
    let th = to_network h in
    let skb1 = record (skb_push (h.hl * 4) skb) { bytes = tcphdr_bytes th ++ skb.text } in
    let csum = u16 (tcp_v4_checksum skb1 (swap32 c.sk.saddr) (swap32 c.sk.daddr)) in
    (csum, omega arith, tcphdr_bytes-append (record th { csum = csum }) skb.text)

-- A datagram of five words of IP header that carries the bytes of a segment.
pub record Carries (ih : Iphdr) (bytes : List ℕ) : Type 0 where
  pub ihl : ih.ihl ≡ 5
  pub len : ih.len ≡ 20 + length bytes
  pub len_fits : ih.len < 65536

-- The header's length counts its options.
pub record Sized (h : Tcphdr) : Type 0 where
  pub least : 5 ≤ h.hl
  pub options : length h.body ≡ h.hl * 4 - 20

pub init-text_len :
    (h : Tcphdr) (text : List ℕ) (ih : Iphdr)
    → Sized h
    → ih.ihl ≡ 5
    → ih.len ≡ 20 + (20 + length (h.body ++ text))
    → ih.len < 65536
    → sub32 (sub32 ih.len (ih.ihl * 4)) (h.hl * 4) ≡ length text
init-text_len h text ih s five len small = omega (arith, length-append h.body text)

-- The host-order header that a receiver makes of the bytes that were sent.
pub read_wire :
    (h : Tcphdr) (csum : ℕ) (text : List ℕ)
    → TcphdrFits h
    → csum < 65536
    → to_host (read_tcphdr (tcphdr_bytes (on_wire h csum text)))
      ≡ record h { csum = swap16 csum; body = h.body ++ text }
read_wire h csum text f small =
    ap to_host (read_tcphdr-bytes (on_wire h csum text) (wire-Fits h csum text f small))
    ∙ host_again h csum text f

init_again :
    (h : Tcphdr) (csum : ℕ) (text bytes : List ℕ) (ih : Iphdr) (rx : SkBuff)
    → TcphdrFits h
    → Sized h
    → csum < 65536
    → bytes ≡ tcphdr_bytes (on_wire h csum text)
    → Carries ih bytes
    → let (th, skb) = tcp_init_segment (read_tcphdr bytes) ih rx in
      (th ≡ record h { csum = swap16 csum; body = h.body ++ text })
      × (skb.seq ≡ h.seq)
      × (skb.dlen ≡ length text)
      × (skb.end_seq ≡ u32 (h.seq + length text))
      × (skb.payload ≡ h.body ++ text)
unfolding tcp_init_segment
init_again h csum text bytes ih rx f s small e k =
    let w = ap (λ m. to_host (read_tcphdr m)) e ∙ read_wire h csum text f small in
    let size = length-tcphdr_bytes (on_wire h csum text) in
    let len : ih.len ≡ 20 + (20 + length (h.body ++ text)) =
      omega (arith, k.len, ap length e, size) in
    let n : text_len ih (to_host (read_tcphdr bytes)) ≡ length text =
      ap (λ (th : Tcphdr). text_len ih th) w ∙ init-text_len h text ih s k.ihl len k.len_fits in
    (
      w,
      ap (λ (th : Tcphdr). th.seq) w,
      n,
      ap₂ (λ (th : Tcphdr) n. u32 (th.seq + n)) w n,
      ap (λ (th : Tcphdr). th.body) w,
    )

-- What `tcp_transmit_skb` gives to the IP layer for a header whose members fit and whose length
-- counts its options is read back by `tcp_init_segment` from a datagram without IP options: all
-- members but the checksum are those that were sent, and the segment has their sequence numbers
-- and the length of the text. Its payload is the text, with the options of the header before it.
pub segment_roundtrip :
    (c : Conn) (skb rx : SkBuff) (h : Tcphdr) (ih : Iphdr)
    → TcphdrFits h
    → Sized h
    → Carries ih (segment_skb c skb h).bytes
    → let (th, got) = tcp_init_segment (read_tcphdr (segment_skb c skb h).bytes) ih rx in
      (th ≡ record h { csum = th.csum; body = h.body ++ skb.text })
      × (got.seq ≡ h.seq)
      × (got.dlen ≡ length skb.text)
      × (got.end_seq ≡ u32 (h.seq + length skb.text))
      × (got.payload ≡ h.body ++ skb.text)
segment_roundtrip c skb rx h ih f s k =
    let (csum, small, e) = segment-bytes c skb h in
    let (th, seq, dlen, end_seq, payload) =
      init_again h csum skb.text (segment_skb c skb h).bytes ih rx f s small e k in
    (
      th
          ∙ ap (λ x. record h { csum = x; body = h.body ++ skb.text })
              (sym (ap (λ (t : Tcphdr). t.csum) th)),
      seq,
      dlen,
      end_seq,
      payload,
    )
