-- ===== src/Tcp/Flow/Text.antt =====
-- `tcp_data_queue` of src/tcp_data.c and the text of `tcp_input_state`, with the bytes of one sender.
use hf_ip.Prelude.{
  All, Bool-cases, List, [], ap, arith, false, if◌then◌else◌, inl, inr, length, length-append, ltb,
  refl, suc, true, ℕ, ◌+◌, ◌<◌, ◌==◌, ◌||◌, ◌∙◌, ◌∷◌, ◌≡◌, ◌≤◌, ◌⊎◌,
}
use hf_ip.Word.{u32}
use hf_ip.Packet.{Tcphdr}
use hf_ip.SkBuff.{SkBuff, free_skb, skb_queue_tail}
use hf_ip.Tcp.{Conn, Tcb}
use hf_ip.Tcp.Lifecycle.{recv_notify}
use hf_ip.Tcp.Output.{tcp_send_ack}
use hf_ip.Tcp.Sack.{tcp_calculate_sacks}
use hf_ip.Tcp.Data.{
  data_in_order, data_out_of_order, held, insert_loop, tcp_consume_ofo_queue,
  tcp_data_insert_ordered, tcp_data_queue,
}
use hf_ip.Tcp.Input.{is_receiving, text_stage}
use hf_ip.Tcp.Frame.{send_ack_same}
use hf_ip.Tcp.Calm.{Calm, Calm-SameSocket, Calm-if, Calm-refl, Calm-same, Calm-trans}
use hf_ip.Tcp.Flow.{Calm-Filled, Filled, Piece, Room}
use hf_ip.Tcp.Flow.Fill.{consume_loop-Filled, fill_one}

length-insert :
    (skb : SkBuff) (l : List SkBuff)
    → let (l', added) = insert_loop skb l in
      length l' ≡ (if added then suc (length l) else length l)
unfolding insert_loop
length-insert skb [] = refl
length-insert skb (b ∷ l) = ground (arith, length-insert skb l)

module _ (sent : List ℕ) (base : ℕ) where
  held-Piece : (skb : SkBuff) → Piece sent base skb → Piece sent base (held skb)
  held-Piece skb p = record {
    whole = p.whole;
    place = elim p.place [
      | inl z ↦ inl z
      | inr l ↦ inr (record { starts = l.starts; ends = l.ends; text = l.text })
    ];
  }

  insert-Piece :
      (skb : SkBuff) (l : List SkBuff)
      → Piece sent base skb
      → All (Piece sent base) l
      → All (Piece sent base) (insert_loop skb l).0
  unfolding insert_loop
  insert-Piece skb [] p a = (held-Piece skb p, tt)
  insert-Piece skb (b ∷ l) p a = ground (arith, held-Piece skb p, insert-Piece skb l p a.1)

  -- The branch for a segment that is not next.
  insert-Filled :
      (got : List ℕ) (n : ℕ) (c : Conn) (skb : SkBuff)
      → Filled sent base got n c
      → Room c
      → Piece sent base skb
      → Filled sent base got n
          (record c { ofo_queue = (tcp_data_insert_ordered c.ofo_queue skb).0 })
  unfolding tcp_data_insert_ordered
  insert-Filled got n c skb f room p = record {
    text = f.text;
    bound = f.bound;
    queue = f.queue;
    whole = f.whole;
    ofo = ground (arith, f.ofo.counts, f.ofo.small, length-insert skb c.ofo_queue.head);
    pieces = ground (arith, f.pieces, insert-Piece skb c.ofo_queue.head p f.pieces);
  }

  out_of_order-Filled :
      (got : List ℕ) (n : ℕ) (c : Conn) (skb : SkBuff)
      → Filled sent base got n c
      → Room c
      → Piece sent base skb
      → let d = (data_out_of_order c skb).0 in Filled sent base got n d × (d.tcb ≡ c.tcb)
  unfolding data_out_of_order tcp_calculate_sacks
  out_of_order-Filled got n c skb f room p =
      let c1 = record c { ofo_queue = (tcp_data_insert_ordered c.ofo_queue skb).0 } in
      let c2 = if c.sackok then tcp_calculate_sacks c1 else c1 in
      let calm : Calm c1 c2 =
        Calm-if c.sackok c1 (tcp_calculate_sacks c1) c1
          (Calm-same c1 _ refl refl refl refl refl refl) (Calm-refl c1) in
      let s = send_ack_same c2 in
      let tcb : c2.tcb ≡ c.tcb =
        elim c.sackok as (λ b. (if b then tcp_calculate_sacks c1 else c1).tcb ≡ c.tcb) [
          | true ↦ refl
          | false ↦ refl
        ] in
      (
        Calm-Filled sent base got n c1 (tcp_send_ack c2).0
            (Calm-trans c1 c2 _ calm (Calm-SameSocket c2 _ s)) (insert-Filled got n c skb f room p),
        s.tcb ∙ tcb,
      )

  -- The branch for the segment that is next.
  in_order-Filled :
      (got : List ℕ) (n : ℕ) (c : Conn) (skb : SkBuff)
      → Filled sent base got n c
      → Room c
      → base + length sent < 4294967295
      → c.tcb.rcv_nxt ≡ base + n
      → Piece sent base skb
      → skb.seq ≡ base + n
      → let d = data_in_order c skb in
        (m : ℕ) × Filled sent base got m d × (n + skb.dlen ≤ m) × (d.tcb.rcv_nxt ≡ base + m)
  unfolding data_in_order tcp_consume_ofo_queue recv_notify
  in_order-Filled got n c skb f room w e p at =
      let (text, bound, counted, whole) =
        fill_one sent base got n c (held skb) f (omega arith) (held-Piece skb p) at in
      let c1 = record c {
        tcb = record c.tcb { rcv_nxt = u32 (c.tcb.rcv_nxt + skb.dlen) };
        sk = record c.sk { receive_queue = skb_queue_tail c.sk.receive_queue (held skb) };
      } in
      let f1 : Filled sent base got (n + skb.dlen) c1 = record {
        text = text;
        bound = bound;
        queue = counted;
        whole = whole;
        ofo = f.ofo;
        pieces = f.pieces;
      } in
      let n1 = length-append c.sk.receive_queue.head (held skb ∷ []) in
      let room1 : length c1.sk.receive_queue.head + length c1.ofo_queue.head < 4294967296 =
        unfold skb_queue_tail in omega (arith, n1) in
      let (m, d, le, x) =
        consume_loop-Filled sent base got (length c.ofo_queue.head) (n + skb.dlen) c1 f1 room1
          (omega arith) (omega arith) in
      (m, Calm-Filled sent base got m _ _ (Calm-same _ _ refl refl refl refl refl refl) d, le, x)

  -- What the text of a segment leaves of a connection that receives.
  abbrev Taken : List ℕ → ℕ → SkBuff → Conn → Type 0
  Taken got n skb d =
      (m : ℕ) × Filled sent base got m d
      × (n ≤ m)
      × (d.tcb.rcv_nxt ≡ base + m)
      × (skb.seq ≡ base + n → n + skb.dlen ≤ m)

  Taken-none :
      (got : List ℕ) (n : ℕ) (c d : Conn) (skb : SkBuff)
      → Filled sent base got n d
      → d.tcb.rcv_nxt ≡ base + n
      → (skb.seq ≡ base + n → skb.dlen ≡ 0)
      → Taken got n skb d
  Taken-none got n c d skb f e h = (n, f, omega arith, e, λ x. omega (arith, h x))

  data_queue-Taken :
      (got : List ℕ) (n : ℕ) (c : Conn) (skb : SkBuff)
      → Filled sent base got n c
      → Room c
      → base + length sent < 4294967295
      → c.tcb.rcv_nxt ≡ base + n
      → Piece sent base skb
      → (skb.dlen ≡ 0) ⊎ (0 < c.tcb.rcv_wnd)
      → Taken got n skb (tcp_data_queue c skb).0
  unfolding tcp_data_queue
  data_queue-Taken got n c skb f room w e p open_ = elim (Bool-cases (c.tcb.rcv_wnd == 0)) [
    | inl shut ↦
        let d = record c { freed = free_skb skb c.freed } in
        let calm = Calm-same c d refl refl refl refl refl refl in
        rw shut
          (Taken-none got n c d skb (Calm-Filled sent base got n c d calm f) e (λ x. ground arith))
    | inr there ↦ elim (Bool-cases (skb.seq == c.tcb.rcv_nxt)) [
      | inl next ↦
          let at : skb.seq ≡ base + n = ground arith in
          let (m, g, le, x) = in_order-Filled got n c skb f room w e p at in
          rw (there, next) (m, g, omega arith, x, λ _. le)
      | inr later ↦
          let (g, same) = out_of_order-Filled got n c skb f room p in
          let x = ap (λ (t : Tcb). t.rcv_nxt) same ∙ e in
          rw (there, later)
            (Taken-none got n c (data_out_of_order c skb).0 skb g x (λ y. absurd (ground arith)))
    ]
  ]

  pub text_stage-Taken :
      (got : List ℕ) (n : ℕ) (c : Conn) (th : Tcphdr) (skb : SkBuff)
      → Filled sent base got n c
      → Room c
      → base + length sent < 4294967295
      → is_receiving c.sk.state ≡ true
      → c.tcb.rcv_nxt ≡ base + n
      → Piece sent base skb
      → (skb.dlen ≡ 0) ⊎ (0 < c.tcb.rcv_wnd)
      → Taken got n skb (text_stage c th skb).0
  unfolding text_stage
  text_stage-Taken got n c th skb f room w r e p open_ =
      elim (Bool-cases (th.psh || ltb 0 skb.dlen)) [
        | inl some_ ↦ rw (r, some_) (data_queue-Taken got n c skb f room w e p open_)
        | inr none_ ↦ rw (r, none_) (Taken-none got n c c skb f e (λ _. ground arith))
      ]
