-- ===== src/Stack/Transfer.antt =====
-- The bytes of a sender on their way through both stacks: `tcp_transmit_skb` of src/tcp_output.c,
-- `netdev_receive` of src/netdev.c and `tcp_in` of src/tcp_input.c.
use hf_ip.Prelude.{
  Bool, List, [], ap, ap₂, arith, drop, false, inr, length, length-append, refl, some, sym, take,
  true, ℕ, ◌++◌, ◌+◌, ◌-◌, ◌<◌, ◌∙◌, ◌∷◌, ◌≡◌, ◌≤◌,
}
use hf_ip.Packet.{Tcphdr}
use hf_ip.SkBuff.{SkBuff, skb_push}
use hf_ip.Tcp.{Conn}
use hf_ip.Tcp.Header.{segment_header, tcp_alloc_skb}
use hf_ip.Tcp.Output.Parts.{IsPart, take-text}
use hf_ip.Tcp.Output.{tcp_transmit_skb, text_skb}
use hf_ip.Tcp.Input.{tcp_input_state}
use hf_ip.Tcp.Flow.{Room}
use hf_ip.Tcp.Flow.Fin.{Segment}
use hf_ip.Tcp.Flow.History.{Run, elsewhere, segment}
use hf_ip.Sockets.{Entry, Sockets, load, socket_acquire}
use hf_ip.Sockets.Inet.{inet_lookup}
use hf_ip.Stack.{netdev_receive}
use hf_ip.Stack.Delivery.{Hop, Sendable, segment_delivered, taken}

-- What arrives is a segment of the sender.
arrived-Segment :
    (sent : List ℕ) (base : ℕ) (skb : SkBuff) (h th : Tcphdr) (got : SkBuff) (rest : List ℕ)
    → IsPart sent base h skb.text
    → h.body ≡ []
    → (h.fin ≡ true → h.seq + length skb.text ≡ base + length sent)
    → th.fin ≡ h.fin
    → got.seq ≡ h.seq
    → got.dlen ≡ length skb.text
    → got.payload ≡ h.body ++ (skb.text ++ rest)
    → Segment sent base th got
arrived-Segment sent base skb h th got rest p no_options last fin seq dlen payload =
    let bytes : got.payload ≡ skb.text ++ rest =
      payload ∙ ap (λ b. b ++ (skb.text ++ rest)) no_options in
    record {
      piece = record {
        whole = omega (arith, ap length bytes, length-append skb.text rest);
        place = inr (record {
          starts = omega (arith, p.starts);
          ends = omega (arith, p.ends);
          text =
              ap₂ (λ n b. take n b) dlen bytes
              ∙ take-text skb.text rest
              ∙ p.same
              ∙ ap₂ (λ n m. take n (drop (m - base) sent)) (sym dlen) (sym seq);
        });
      };
      last = λ e. omega (arith, last (sym fin ∙ e));
    }

-- The frame that a connection sends for a buffer makes the other stack run `tcp_input_state` on the
-- socket `e`, with a segment of the number `num` that has the buffer's text; after it the connection
-- has a history with the sender in which readers have got `bytes`.
abbrev pub Transferred :
    List ℕ → ℕ → Conn → SkBuff → ℕ → ℕ → Conn → List ℕ → SkBuff → List ℕ → Sockets → Entry → Type 0
Transferred sent base c skb seq num opened bytes rx rest t e =
    (frame : List ℕ) × (th : Tcphdr) × (got : SkBuff) × ((tcp_transmit_skb c skb seq).0.net.sent
      ≡ c.net.sent ++ frame ∷ [])
    × (netdev_receive rx (frame ++ rest) t ≡ taken e th got t)
    × (got.seq ≡ num)
    × (take got.dlen got.payload ≡ skb.text)
    × Run sent base opened bytes (tcp_input_state (load t.world (socket_acquire e).conn) th got)

module _ (sent : List ℕ) (base : ℕ) (c : Conn) (skb : SkBuff) (seq : ℕ) (hop : Hop c.sk.daddr c.net)
    (s : Sendable skb (segment_header c skb.th seq))
    (p : IsPart sent base (segment_header c skb.th seq) skb.text)
    (no_options : (segment_header c skb.th seq).body ≡ [])
    (last : (segment_header c skb.th seq).fin ≡ true
      → (segment_header c skb.th seq).seq + length skb.text ≡ base + length sent) where
  abbrev h : Tcphdr
  h = segment_header c skb.th seq

  -- For a segment of a sender whose words fit, without options, and that is routed to a known next
  -- hop, the frame that `tcp_transmit_skb` gives to the device makes `netdev_receive` of a stack, whose
  -- connection for its ports has a history with that sender and room for a buffer, run
  -- `tcp_input_state` on it with the segment's number and text, by which its history goes on with the
  -- same bytes for readers; other bytes may follow in the buffer.
  pub transmit-Run :
      (rx : SkBuff) (rest : List ℕ) (t : Sockets) (e : Entry) (opened : Conn) (bytes : List ℕ)
      → inet_lookup h.sport h.dport t.sockets ≡ some e
      → Room e.conn
      → Run sent base opened bytes e.conn
      → Transferred sent base c skb seq h.seq opened bytes rx rest t e
  unfolding socket_acquire
  transmit-Run rx rest t e opened bytes found room run =
      let (frame, th, got, out, received, head, num, dlen, end_seq, payload) =
        segment_delivered c skb seq hop s rx rest t e found in
      let fin = ap (λ (x : Tcphdr). x.fin) head in
      let ready = load t.world (socket_acquire e).conn in
      (
        frame,
        th,
        got,
        out,
        received,
        num,
        ap₂ (λ n b. take n b) dlen (payload ∙ ap (λ b. b ++ (skb.text ++ rest)) no_options)
            ∙ take-text skb.text rest,
        segment th got room
            (arrived-Segment sent base skb h th got rest p no_options last fin num dlen payload)
            (elsewhere ready.sock t.world.timers t.world.net t.world.freed t.world.next_skb
              t.world.out run),
      )

-- The buffer that `tcp_send` makes of a text, when a connection whose words fit sends it.
module _ (c0 c : Conn) (text : List ℕ) (last : Bool) (seq : ℕ) where
  abbrev skb : SkBuff
  skb = text_skb c0 text last

  text_skb-header :
      let h = segment_header c skb.th seq in
      (h.seq ≡ seq)
      × (h.body ≡ [])
      × (h.fin ≡ false)
      × (h.sport ≡ c.sk.sport)
      × (h.dport ≡ c.sk.dport)
  unfolding segment_header text_skb tcp_alloc_skb skb_push
  text_skb-header = (refl, refl, refl, refl, refl)

  text_skb-Sendable :
      c.sk.sport < 65536
      → c.sk.dport < 65536
      → c.tcb.rcv_nxt < 4294967296
      → seq < 4294967296
      → length text ≤ 1460
      → Sendable skb (segment_header c skb.th seq)
  unfolding segment_header text_skb tcp_alloc_skb skb_push
  text_skb-Sendable sport dport nxt s small = record {
    header = omega arith;
    options = record { least = omega arith; options = refl };
    text = omega arith;
    size = omega arith;
    protocol = refl;
    id = omega arith;
  }

  text_skb-IsPart :
      (sent : List ℕ) (base : ℕ)
      → base ≤ seq
      → seq + length text ≤ base + length sent
      → text ≡ take (length text) (drop (seq - base) sent)
      → IsPart sent base (segment_header c skb.th seq) skb.text
  unfolding segment_header text_skb tcp_alloc_skb skb_push
  text_skb-IsPart sent base starts ends same = record { starts = starts; ends = ends; same = same }

  -- If the words of a connection fit and it has a route to a known next hop, a text of at most 1460
  -- of a sender's bytes, in the buffer that `tcp_send` makes for it and sent with the number of its
  -- first byte, reaches the connection for its ports in the other stack: `netdev_receive` runs
  -- `tcp_input_state` on it with a segment that has this number and exactly this text, and stores the
  -- result, whose history with the sender goes on with the same bytes for readers. That connection
  -- has room for a buffer, and other bytes may follow in the frame's buffer.
  pub text_skb-Run :
      (sent : List ℕ) (base : ℕ) (hop : Hop c.sk.daddr c.net)
      → c.sk.sport < 65536
      → c.sk.dport < 65536
      → c.tcb.rcv_nxt < 4294967296
      → length text ≤ 1460
      → base ≤ seq
      → seq + length text ≤ base + length sent
      → base + length sent < 4294967295
      → text ≡ take (length text) (drop (seq - base) sent)
      → (rx : SkBuff) (rest : List ℕ) (t : Sockets) (e : Entry) (opened : Conn) (got : List ℕ)
      → inet_lookup c.sk.sport c.sk.dport t.sockets ≡ some e
      → Room e.conn
      → Run sent base opened got e.conn
      → Transferred sent base c skb seq seq opened got rx rest t e
  unfolding segment_header text_skb skb_push tcp_alloc_skb
  text_skb-Run sent base hop sport dport nxt small starts ends w same rx rest t e opened got found
        room run =
      let (num, body, fin, sp, dp) = text_skb-header in
      let h = segment_header c skb.th seq in
      transmit-Run sent base c skb seq hop (text_skb-Sendable sport dport nxt (omega arith) small)
        (text_skb-IsPart sent base starts ends same) body (λ x. absurd (ground (arith, fin))) rx
        rest t e opened got (ap₂ (λ s d. inet_lookup s d t.sockets) sp dp ∙ found) room run
