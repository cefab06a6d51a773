-- ===== src/Stack/Delivery.antt =====
-- A segment from `tcp_transmit_skb` of one stack to `tcp_input_state` of another.
use hf_ip.Prelude.{
  List, [], ap, append_assoc, ap₂, arith, length, length-append, refl, some, sym, ℕ, ◌++◌, ◌+◌, ◌<◌,
  ◌∙◌, ◌∷◌, ◌≡◌,
}
use hf_ip.Word.{swap16, u32}
use hf_ip.Packet.{Iphdr, Tcphdr, read_tcphdr, tcphdr_bytes}
use hf_ip.Packet.Layout.{TcphdrFits}
use hf_ip.SkBuff.{SkBuff, skb_push}
use hf_ip.Net.{Net, RtEntry}
use hf_ip.Net.Route.{route_lookup}
use hf_ip.Net.Arp.{arp_get_hwaddr}
use hf_ip.Net.Ip.{ip_tcp}
use hf_ip.Net.Ip.Output.{Fits}
use hf_ip.Net.Ip.Echo.{next_hop}
use hf_ip.Tcp.{Conn}
use hf_ip.Tcp.Header.{segment_header, segment_skb, to_network}
use hf_ip.Tcp.Output.{tcp_transmit_skb}
use hf_ip.Tcp.Segment.{tcp_init_segment, text_len, to_host}
use hf_ip.Tcp.Segment.Wire.{
  Carries, Sized, init-text_len, length-tcphdr_bytes, on_wire, read_wire, segment-bytes,
  tcphdr_bytes-append,
}
use hf_ip.Tcp.Input.{tcp_input_state}
use hf_ip.Sockets.{Entry, Sockets, load, save, socket_acquire, socket_release}
use hf_ip.Sockets.Inet.{inet_lookup}
use hf_ip.Sockets.Calls.{tcp_in}
use hf_ip.Stack.{netdev_receive}
use hf_ip.Stack.Receive.{IsEthernet, arrived, frame_received}

-- The route to an address, and the hardware address of its next hop.
pub record Hop (daddr : ℕ) (n : Net) : Type 0 where
  pub rt : RtEntry
  pub mac : List ℕ
  pub found : route_lookup daddr n ≡ some rt
  pub known : arp_get_hwaddr (next_hop rt daddr) n ≡ some mac
  pub six : length mac ≡ 6
  pub dev_ok : IsEthernet rt.dev
  pub saddr_fits : rt.dev.addr < 4294967296
  pub daddr_fits : daddr < 4294967296

-- A buffer of TCP with its header, whose words fit.
pub record Sendable (skb : SkBuff) (h : Tcphdr) : Type 0 where
  pub header : TcphdrFits h
  pub options : Sized h
  pub text : skb.len ≡ length skb.text
  pub size : 40 + (length h.body + length skb.text) < 65536
  pub protocol : skb.protocol ≡ ip_tcp
  pub id : skb.iph_id < 65536

-- What a segment does that has come for the socket `e`.
abbrev pub taken : Entry → Tcphdr → SkBuff → Sockets → Sockets
taken e th skb t =
    let c = tcp_input_state (load t.world (socket_acquire e).conn) th skb in
    socket_release (record e { conn = c }) (record t { world = save c t.world })

tcp_in-taken :
    (ih : Iphdr) (rx : SkBuff) (bytes : List ℕ) (t : Sockets) (e : Entry)
    → let (th, got) = tcp_init_segment (read_tcphdr bytes) ih rx in
      inet_lookup th.sport th.dport t.sockets ≡ some e → tcp_in ih rx bytes t ≡ taken e th got t
unfolding tcp_in
tcp_in-taken ih rx bytes t e h = rw (tcp_in, h) refl

-- The segment that a receiver makes of a header and a text with other bytes behind it.
init_behind :
    (h : Tcphdr) (csum : ℕ) (text rest bytes : List ℕ) (ih : Iphdr) (rx : SkBuff)
    → TcphdrFits h
    → Sized h
    → csum < 65536
    → bytes ≡ tcphdr_bytes (on_wire h csum text)
    → Carries ih bytes
    → let (th, skb) = tcp_init_segment (read_tcphdr (bytes ++ rest)) ih rx in
      (th ≡ record h { csum = swap16 csum; body = h.body ++ (text ++ rest) })
      × (skb.seq ≡ h.seq)
      × (skb.dlen ≡ length text)
      × (skb.end_seq ≡ u32 (h.seq + length text))
      × (skb.payload ≡ h.body ++ (text ++ rest))
unfolding tcp_init_segment
init_behind h csum text rest bytes ih rx f s small e k =
    let longer : bytes ++ rest ≡ tcphdr_bytes (on_wire h csum (text ++ rest)) =
      ap (λ m. m ++ rest) e
      ∙ tcphdr_bytes-append (on_wire h csum text) rest
      ∙ ap (λ b. tcphdr_bytes (record (to_network h) { csum = csum; body = b }))
          (append_assoc h.body text rest) in
    let w = ap (λ m. to_host (read_tcphdr m)) longer ∙ read_wire h csum (text ++ rest) f small in
    let size = length-tcphdr_bytes (on_wire h csum text) in
    let len : ih.len ≡ 20 + (20 + length (h.body ++ text)) =
      omega (arith, k.len, ap length e, size) in
    let n : text_len ih (to_host (read_tcphdr (bytes ++ rest))) ≡ length text =
      ap (λ (th : Tcphdr). text_len ih th) w ∙ init-text_len h text ih s k.ihl len k.len_fits in
    (
      w,
      ap (λ (th : Tcphdr). th.seq) w,
      n,
      ap₂ (λ (th : Tcphdr) n. u32 (th.seq + n)) w n,
      ap (λ (th : Tcphdr). th.body) w,
    )

-- The buffer of a segment has the size of its header and its text.
length-segment :
    (c : Conn) (skb : SkBuff) (h : Tcphdr) (csum : ℕ)
    → (segment_skb c skb h).bytes ≡ tcphdr_bytes (on_wire h csum skb.text)
    → Sendable skb h
    → length (segment_skb c skb h).bytes ≡ 20 + (length h.body + length skb.text)
length-segment c skb h csum e s =
    ap length e
    ∙ length-tcphdr_bytes (on_wire h csum skb.text)
    ∙ ap (λ n. 20 + n) (length-append h.body skb.text)

len-segment :
    (c : Conn) (skb : SkBuff) (h : Tcphdr)
    → Sendable skb h
    → (segment_skb c skb h).len ≡ 20 + (length h.body + length skb.text)
unfolding segment_skb skb_push
len-segment c skb h s = omega (arith, s.text, s.size, s.options.least, s.options.options)

kept-segment :
    (c : Conn) (skb : SkBuff) (h : Tcphdr)
    → ((segment_skb c skb h).iph_id ≡ skb.iph_id) × ((segment_skb c skb h).protocol ≡ skb.protocol)
unfolding segment_skb skb_push
kept-segment c skb h = (refl, refl)

module _ (c : Conn) (skb : SkBuff) (seq : ℕ) (hop : Hop c.sk.daddr c.net)
    (s : Sendable skb (segment_header c skb.th seq)) where
  abbrev h : Tcphdr
  h = segment_header c skb.th seq

  abbrev out : SkBuff
  out = segment_skb c skb h

  out-Fits : Fits (u32 (out.len + 20)) out.iph_id 0 hop.rt.dev.addr c.sk.daddr
  out-Fits = record {
    len_fits = omega (arith, len-segment c skb h s, s.size);
    id_fits = omega (arith, (kept-segment c skb h).0, s.id);
    proto_fits = omega arith;
    saddr_fits = hop.saddr_fits;
    daddr_fits = hop.daddr_fits;
  }

  abbrev ih : Iphdr
  ih =
      arrived c.sk.daddr out c.net hop.rt hop.mac hop.found hop.known hop.six hop.dev_ok out-Fits
        ((kept-segment c skb h).1 ∙ s.protocol)

  carries : Carries ih out.bytes
  carries =
      let (csum, small, e) = segment-bytes c skb h in
      let n = length-segment c skb h csum e s in
      let m = len-segment c skb h s in
      record { ihl = refl; len = omega (arith, n, m, s.size); len_fits = omega (arith, m, s.size) }

  -- For a segment whose words fit and that is routed to a known next hop, the frame that
  -- `tcp_transmit_skb` gives to the device makes `netdev_receive` of a stack with a socket for its
  -- ports run `tcp_input_state` on that socket, with the header that was sent, in host order and but
  -- for the checksum, and a buffer with its sequence numbers, the length of its text, and the text
  -- behind the options; other bytes may follow in the buffer.
  pub segment_delivered :
      (rx : SkBuff) (rest : List ℕ) (t : Sockets) (e : Entry)
      → inet_lookup h.sport h.dport t.sockets ≡ some e
      → (frame : List ℕ) × (th : Tcphdr) × (got : SkBuff) × ((tcp_transmit_skb c skb seq).0.net.sent
          ≡ c.net.sent ++ frame ∷ [])
        × (netdev_receive rx (frame ++ rest) t ≡ taken e th got t)
        × (th ≡ record h { csum = th.csum; body = h.body ++ (skb.text ++ rest) })
        × (got.seq ≡ h.seq)
        × (got.dlen ≡ length skb.text)
        × (got.end_seq ≡ u32 (h.seq + length skb.text))
        × (got.payload ≡ h.body ++ (skb.text ++ rest))
  unfolding tcp_transmit_skb
  segment_delivered rx rest t e found =
      let (csum, small, b) = segment-bytes c skb h in
      let (frame, sent, received) =
        frame_received c.sk.daddr out c.net hop.rt hop.mac hop.found hop.known hop.six hop.dev_ok
          out-Fits ((kept-segment c skb h).1 ∙ s.protocol) in
      let (th, num, dlen, end_seq, payload) =
        init_behind h csum skb.text rest out.bytes ih rx s.header s.options small b carries in
      let (th', got) = tcp_init_segment (read_tcphdr (out.bytes ++ rest)) ih rx in
      (
        frame,
        th',
        got,
        sent,
        received rx rest t
            ∙ tcp_in-taken ih rx (out.bytes ++ rest) t e
                (ap (λ (x : Tcphdr). inet_lookup x.sport x.dport t.sockets) th ∙ found),
        th
            ∙ ap (λ x. record h { csum = x; body = h.body ++ (skb.text ++ rest) })
                (sym (ap (λ (x : Tcphdr). x.csum) th)),
        num,
        dlen,
        end_seq,
        payload,
      )
