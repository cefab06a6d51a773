-- ===== src/Tcp/Calm/Stages.antt =====
-- The checks of the acknowledgment in src/tcp_input.c leave the received bytes alone.
use hf_ip.Prelude.{
  Bool, ap, arith, bit_or, false, if◌then◌else◌, inl, leb, ltb, refl, true, ◌&&◌, ◌==◌, ◌||◌, ◌≡◌,
}
use hf_ip.Packet.{Tcphdr}
use hf_ip.SkBuff.{SkBuff, skb_queue_empty}
use hf_ip.Tcp.{
  Conn, TcpState, close, close_wait, closing, established, fin_wait_1, fin_wait_2, last_ack, listen,
  syn_received, syn_sent, tcp_fin, tcp_set_state, time_wait,
}
use hf_ip.Tcp.Output.{tcp_send_ack}
use hf_ip.Tcp.Rtt.{tcp_rtt}
use hf_ip.Tcp.Acks.{freed_skb, tcp_clean_rto_queue}
use hf_ip.Tcp.Input.{
  Stage, ack_established, ack_switch, empty_stage, fin_acked, fin_acked_switch, go_on, return,
}
use hf_ip.Tcp.Input.Arrows.{staged}
use hf_ip.Tcp.Calm.{Calm, Calm-if, Calm-refl, Calm-same, Calm-trans, Keeps-same, phase}
use hf_ip.Tcp.Calm.Segments.{Calm-ack, Calm-clean, Calm-done, Calm-end, Calm-freed, Calm-rtt}

staged-if :
    (b : Bool) (c : Conn) (s t : Stage)
    → Calm c (staged s)
    → Calm c (staged t)
    → Calm c (staged (if b then s else t))
staged-if true c s t h k = h
staged-if false c s t h k = k

pub established-Calm :
    (c : Conn) (th : Tcphdr) (skb : SkBuff) → Calm c (staged (ack_established c th skb))
unfolding ack_established
established-Calm c th skb =
    let c1 = record c { tcb = record c.tcb { snd_una = th.ack_seq } } in
    let cleaned = tcp_clean_rto_queue th.ack_seq (tcp_rtt c1) in
    let fresh = ltb c.tcb.snd_una th.ack_seq && leb th.ack_seq c.tcb.snd_nxt in
    let c2 = if fresh then cleaned else c in
    let k =
      Calm-if fresh c cleaned c
        (Calm-trans c c1 _ (Calm-same c c1 refl refl refl refl refl refl)
          (Calm-trans c1 (tcp_rtt c1) _ (Calm-rtt c1) (Calm-clean th.ack_seq (tcp_rtt c1))))
        (Calm-refl c) in
    staged-if (ltb th.ack_seq c2.tcb.snd_una || ltb c2.tcb.snd_nxt th.ack_seq) c
      (return (freed_skb skb c2)) (go_on c2) (Calm-trans c c2 _ k (Calm-freed c2 skb)) k

-- The fifth check.
pub ack_switch-Calm :
    (s : TcpState) (c : Conn) (th : Tcphdr) (skb : SkBuff)
    → c.sk.state ≡ s
    → Calm c (staged (ack_switch s c th skb))
unfolding ack_switch tcp_set_state
ack_switch-Calm syn_received c th skb e =
    let d = tcp_set_state established c in
    let k : Calm c d = record {
      receive = refl;
      ofo = λ _. inl refl;
      next = refl;
      wnd = refl;
      later = omega (arith, ap phase e);
      waiting = omega arith;
      keeps = Keeps-same c d refl;
    } in
    staged-if (leb c.tcb.snd_una th.ack_seq && ltb th.ack_seq c.tcb.snd_nxt) c
      (ack_established d th skb) (return (freed_skb skb c))
      (Calm-trans c d _ k (established-Calm d th skb)) (Calm-freed c skb)
ack_switch-Calm time_wait c th skb e = Calm-refl c
ack_switch-Calm close c th skb e = Calm-refl c
ack_switch-Calm listen c th skb e = Calm-refl c
ack_switch-Calm syn_sent c th skb e = Calm-refl c
ack_switch-Calm established c th skb e = established-Calm c th skb
ack_switch-Calm fin_wait_1 c th skb e = established-Calm c th skb
ack_switch-Calm fin_wait_2 c th skb e = established-Calm c th skb
ack_switch-Calm close_wait c th skb e = established-Calm c th skb
ack_switch-Calm closing c th skb e = established-Calm c th skb
ack_switch-Calm last_ack c th skb e = established-Calm c th skb

-- The empty write queue.
fin_acked-Calm :
    (s : TcpState) (c : Conn) (th : Tcphdr) (skb : SkBuff)
    → c.sk.state ≡ s
    → Calm c (staged (fin_acked_switch s c th skb))
unfolding fin_acked_switch tcp_set_state
fin_acked-Calm fin_wait_1 c th skb e = record {
  receive = refl;
  ofo = λ _. inl refl;
  next = refl;
  wnd = refl;
  later = omega (arith, ap phase e);
  waiting = omega arith;
  keeps = Keeps-same c _ refl;
}
fin_acked-Calm closing c th skb e =
    Calm-end c _ refl (λ _. inl refl) refl refl (Keeps-same c _ refl)
fin_acked-Calm last_ack c th skb e =
    Calm-trans c (freed_skb skb c) _ (Calm-freed c skb) (Calm-done (freed_skb skb c))
fin_acked-Calm time_wait c th skb e =
    let d = record c { flags = bit_or c.flags tcp_fin } in
    Calm-if (c.tcb.rcv_nxt == th.seq) c (tcp_send_ack d).0 c
      (Calm-trans c d _ (Calm-same c d refl refl refl refl refl refl) (Calm-ack d)) (Calm-refl c)
fin_acked-Calm close c th skb e = Calm-refl c
fin_acked-Calm listen c th skb e = Calm-refl c
fin_acked-Calm syn_sent c th skb e = Calm-refl c
fin_acked-Calm syn_received c th skb e = Calm-refl c
fin_acked-Calm established c th skb e = Calm-refl c
fin_acked-Calm fin_wait_2 c th skb e = Calm-refl c
fin_acked-Calm close_wait c th skb e = Calm-refl c

pub empty-Calm : (c : Conn) (th : Tcphdr) (skb : SkBuff) → Calm c (staged (empty_stage c th skb))
unfolding empty_stage fin_acked
empty-Calm c th skb =
    staged-if (skb_queue_empty c.sk.write_queue) c (fin_acked c th skb) (go_on c)
      (fin_acked-Calm c.sk.state c th skb refl) (Calm-refl c)
