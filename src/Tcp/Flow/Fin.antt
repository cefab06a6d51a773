-- ===== src/Tcp/Flow/Fin.antt =====
-- The last steps of `tcp_input_state` of src/tcp_input.c: the text, and a FIN behind it.
use mathlib.Core.Path.{subst}
use hf_ip.Prelude.{
  All, Bool, Bool-cases, List, ap, arith, bit_or, false, if◌then◌else◌, inl, inr, length, refl, sym,
  true, ℕ, ◌&&◌, ◌+◌, ◌<◌, ◌==◌, ◌∙◌, ◌≡◌, ◌≤◌, ◌⊎◌,
}
use hf_ip.Word.{u32}
use hf_ip.Packet.{Tcphdr}
use hf_ip.SkBuff.{SkBuff, SkBuffHead, skb_queue_empty}
use hf_ip.SkBuff.Queue.{IsCounted}
use hf_ip.Tcp.{
  Conn, Sock, TcpState, close, close_wait, closing, established, fin_wait_1, fin_wait_2, last_ack,
  listen, syn_received, syn_sent, tcp_fin, tcp_set_state, time_wait,
}
use hf_ip.Tcp.Lifecycle.{recv_notify, tcp_enter_time_wait}
use hf_ip.Tcp.Output.{tcp_send_ack}
use hf_ip.Tcp.Data.{set_readable}
use hf_ip.Tcp.Input.{
  ack_or_delay, fin_received, fin_switch, fin_transition, is_receiving, text_and_fin, text_stage,
}
use hf_ip.Tcp.Frame.{send_ack_same}
use hf_ip.Tcp.Frame.Later.{state-data_queue}
use hf_ip.Tcp.Calm.{Calm, Calm-if, Calm-refl, Calm-trans, phase}
use hf_ip.Tcp.Flow.{Calm-Intact, Filled-queues, Intact, Piece, Room}
use hf_ip.Tcp.Flow.Text.{text_stage-Taken}
use hf_ip.Tcp.Calm.Segments.{Calm-ack_or_delay, Calm-freed}

-- What the second `switch` on the state does to a connection that has received a FIN.
record Closing (c d : Conn) : Type 0 where
  receive : d.sk.receive_queue ≡ c.sk.receive_queue
  ofo : d.ofo_queue ≡ c.ofo_queue
  over : 3 ≤ phase d.sk.state
  waiting : phase d.sk.state ≡ 3 → (phase c.sk.state ≡ 2) ⊎ (phase c.sk.state ≡ 3)

stays : (c : Conn) → 3 ≤ phase c.sk.state → Closing c c
stays c h = record { receive = refl; ofo = refl; over = h; waiting = λ e. inr e }

fin_switch-Closing :
    (s : TcpState) (c : Conn) → c.sk.state ≡ s → 2 ≤ phase s → Closing c (fin_switch s c)
unfolding fin_switch tcp_set_state tcp_enter_time_wait
fin_switch-Closing established c e h = record {
  receive = refl;
  ofo = refl;
  over = omega arith;
  waiting = λ _. inl (ap phase e);
}
fin_switch-Closing fin_wait_1 c e h = elim (Bool-cases (skb_queue_empty c.sk.write_queue)) [
  | inl none_ ↦
      rw none_
        (record { receive = refl; ofo = refl; over = omega arith; waiting = λ _. inl (ap phase e) })
  | inr left ↦
      rw left
        (record { receive = refl; ofo = refl; over = omega arith; waiting = λ _. inl (ap phase e) })
]
fin_switch-Closing fin_wait_2 c e h = record {
  receive = refl;
  ofo = refl;
  over = omega arith;
  waiting = λ _. inl (ap phase e);
}
fin_switch-Closing close_wait c e h = stays c (omega (arith, ap phase e))
fin_switch-Closing closing c e h = stays c (omega (arith, ap phase e))
fin_switch-Closing last_ack c e h = stays c (omega (arith, ap phase e))
fin_switch-Closing time_wait c e h = stays c (omega (arith, ap phase e))
fin_switch-Closing close c e h = stays c (omega (arith, ap phase e))
fin_switch-Closing listen c e h = absurd (omega arith)
fin_switch-Closing syn_sent c e h = absurd (omega arith)
fin_switch-Closing syn_received c e h = absurd (omega arith)

receiving-cases :
    (s : TcpState)
    → 2 ≤ phase s
    → ((is_receiving s ≡ true) × (phase s ≡ 2)) ⊎ ((is_receiving s ≡ false) × (3 ≤ phase s))
receiving-cases established h = inl (refl, refl)
receiving-cases fin_wait_1 h = inl (refl, refl)
receiving-cases fin_wait_2 h = inl (refl, refl)
receiving-cases close_wait h = inr (refl, omega arith)
receiving-cases closing h = inr (refl, omega arith)
receiving-cases last_ack h = inr (refl, omega arith)
receiving-cases time_wait h = inr (refl, omega arith)
receiving-cases close h = inr (refl, omega arith)
receiving-cases listen h = absurd (omega arith)
receiving-cases syn_sent h = absurd (omega arith)
receiving-cases syn_received h = absurd (omega arith)

state-text_stage :
    (c : Conn) (th : Tcphdr) (skb : SkBuff) → (text_stage c th skb).0.sk.state ≡ c.sk.state
unfolding text_stage
state-text_stage c th skb = ground (arith, state-data_queue c skb)

module _ (sent : List ℕ) (base : ℕ) where
  -- A FIN behind all of the sender's bytes.
  fin_received-Intact :
      (got : List ℕ) (c : Conn)
      → Intact sent base got c
      → 2 ≤ phase c.sk.state
      → (phase c.sk.state ≡ 2 → base + length sent ≤ c.tcb.rcv_nxt)
      → Intact sent base got (fin_received c)
  unfolding fin_received fin_transition recv_notify
  fin_received-Intact got c i h all =
      let c1 = set_readable (record c {
        tcb = record c.tcb { rcv_nxt = u32 (c.tcb.rcv_nxt + 1) };
        flags = bit_or c.flags tcp_fin;
      }) in
      let s = send_ack_same c1 in
      let d = recv_notify (tcp_send_ack c1).0 in
      let state : d.sk.state ≡ c.sk.state = ap (λ (k : Sock). k.state) s.sk in
      let k = fin_switch-Closing d.sk.state d refl (omega (arith, ap phase state)) in
      let q = ap (λ (k : Sock). k.receive_queue) s.sk in
      let o = k.ofo ∙ s.ofo_queue in
      record {
        count = i.count;
        filled =
            Filled-queues sent base got i.count c _ (k.receive ∙ q)
              (subst IsCounted (sym o) i.filled.ofo)
              (subst (λ (q : SkBuffHead). All (Piece sent base) q.head) (sym o) i.filled.pieces)
              i.filled;
        synced = omega (arith, k.over);
        next = inl k.over;
        ended = λ x. elim (k.waiting x) [
          | inr y ↦ i.ended (omega (arith, ap phase state))
          | inl y ↦ elim i.next [
            | inl z ↦ absurd (omega (arith, ap phase state))
            | inr z ↦
                let two : phase c.sk.state ≡ 2 = omega (arith, ap phase state) in
                omega (arith, all two, i.filled.bound)
          ]
        ];
      }

  -- What is known of a segment: it is the sender's, and a FIN stands behind the sender's last byte.
  pub record Segment (th : Tcphdr) (skb : SkBuff) : Type 0 where
    pub piece : Piece sent base skb
    pub last : th.fin ≡ true → skb.seq + skb.dlen ≡ base + length sent

  Intact-if :
      (b : Bool) (got : List ℕ) (c d : Conn)
      → (b ≡ true → Intact sent base got c)
      → Intact sent base got d
      → Intact sent base got (if b then c else d)
  Intact-if true got c d h k = h refl
  Intact-if false got c d h k = k

  -- The text: what is expected behind it, and that the phase stays.
  record Texted (got : List ℕ) (skb : SkBuff) (c d : Conn) : Type 0 where
    intact : Intact sent base got d
    phase_same : phase d.sk.state ≡ phase c.sk.state
    behind : phase c.sk.state ≡ 2 → skb.seq ≡ c.tcb.rcv_nxt → skb.seq + skb.dlen ≤ d.tcb.rcv_nxt

  text_stage-Texted :
      (got : List ℕ) (c : Conn) (th : Tcphdr) (skb : SkBuff)
      → Intact sent base got c
      → Room c
      → base + length sent < 4294967295
      → 2 ≤ phase c.sk.state
      → Piece sent base skb
      → (skb.dlen ≡ 0) ⊎ (0 < c.tcb.rcv_wnd)
      → Texted got skb c (text_stage c th skb).0
  text_stage-Texted got c th skb i room w h p open_ = elim (receiving-cases c.sk.state h) [
    | inr (no_text, over) ↦
        let e : text_stage c th skb ≡ (c, skb) = unfold text_stage in rw no_text refl in
        rw e (record { intact = i; phase_same = refl; behind = λ x. absurd (omega arith) })
    | inl (text, two) ↦
        let nxt : c.tcb.rcv_nxt ≡ base + i.count = elim i.next [
          | inl x ↦ absurd (omega arith)
          | inr x ↦ x
        ] in
        let (m, f, le, x, at) =
          text_stage-Taken sent base got i.count c th skb i.filled room w text nxt p open_ in
        let same = state-text_stage c th skb in
        record {
          intact = record {
            count = m;
            filled = f;
            synced = omega (arith, ap phase same);
            next = inr x;
            ended = λ y. absurd (omega (arith, ap phase same));
          };
          phase_same = ap phase same;
          behind = λ _ y. omega (arith, at (y ∙ nxt));
        }
  ]

  pub text_and_fin-Intact :
      (got : List ℕ) (c : Conn) (th : Tcphdr) (skb : SkBuff)
      → Intact sent base got c
      → Room c
      → base + length sent < 4294967295
      → 2 ≤ phase c.sk.state
      → Segment th skb
      → (skb.dlen ≡ 0) ⊎ (0 < c.tcb.rcv_wnd)
      → Intact sent base got (text_and_fin c th skb)
  unfolding text_and_fin
  text_and_fin-Intact got c th skb i room w h s open_ =
      let expected = skb.seq == c.tcb.rcv_nxt in
      let (c1, skb1) = text_stage c th skb in
      let t = text_stage-Texted got c th skb i room w h s.piece open_ in
      let c2 = if th.fin && expected then fin_received c1 else c1 in
      let i2 : Intact sent base got c2 =
        Intact-if (th.fin && expected) got (fin_received c1) c1
          (λ b.
            let fin : th.fin ≡ true = ground arith in
            let at : skb.seq ≡ c.tcb.rcv_nxt = ground arith in
            fin_received-Intact got c1 t.intact (omega (arith, t.phase_same))
              (λ two. omega (arith, s.last fin, t.behind (omega (arith, t.phase_same)) at)))
          t.intact in
      let c3 = if is_receiving c2.sk.state && expected then ack_or_delay c2 th skb1 else c2 in
      let k : Calm c2 c3 =
        Calm-if (is_receiving c2.sk.state && expected) c2 (ack_or_delay c2 th skb1) c2
          (Calm-ack_or_delay c2 th skb1) (Calm-refl c2) in
      Calm-Intact sent base got c2 _ (Calm-trans c2 c3 _ k (Calm-freed c3 skb1)) i2
