-- ===== src/Tcp/Calm/Calls.antt =====
-- The calls of a program on a connection that leave the received bytes alone: src/tcp.c and
-- src/tcp_output.c.
use hf_ip.Prelude.{
  List, [], ap, arith, drop, if◌then◌else◌, inl, length, refl, suc, take, zero, ℕ, ◌==◌, ◌∷◌, ◌≡◌,
}
use hf_ip.Prelude.Int.{is_zero, pos}
use hf_ip.SkBuff.{SkBuff, skb_queue_empty}
use hf_ip.Tcp.{
  Conn, TcpState, close, close_wait, closing, ebadf, established, fin_wait_1, fin_wait_2, last_ack,
  listen, syn_received, syn_sent, tcp_set_state, time_wait,
}
use hf_ip.Tcp.Lifecycle.{is_time_wait, tcp_rearm_rto_timer, tcp_rearm_user_timeout}
use hf_ip.Tcp.Output.{
  queue_tail, tcp_queue_fin, tcp_queue_transmit_skb, tcp_send, tcp_transmit_skb, text_loop,
  text_skb, transmit_first, used_skb,
}
use hf_ip.Tcp.User.{close_switch, may_write, tcp_close, tcp_write}
use hf_ip.Tcp.Calm.{Calm, Calm-if, Calm-refl, Calm-same, Calm-trans, Keeps-same, first-Calm, phase}
use hf_ip.Tcp.Calm.Segments.{Calm-done}

pub Calm-queue_transmit : (c : Conn) (skb : SkBuff) → Calm c (tcp_queue_transmit_skb c skb).0
unfolding tcp_queue_transmit_skb transmit_first tcp_transmit_skb
Calm-queue_transmit c skb =
    let c1 = if skb_queue_empty c.sk.write_queue then tcp_rearm_rto_timer c else c in
    let k : Calm c c1 =
      unfold tcp_rearm_rto_timer in
      Calm-if (skb_queue_empty c.sk.write_queue) c (tcp_rearm_rto_timer c) c
        (Calm-same c _ refl refl refl refl refl refl) (Calm-refl c) in
    first-Calm (c1.inflight == 0) c
      (queue_tail (transmit_first c1 skb).0 (transmit_first c1 skb).1, (transmit_first c1 skb).2)
      (queue_tail c1 skb, pos 0)
      (Calm-trans c c1 _ k (Calm-same c1 _ refl refl refl refl refl refl))
      (Calm-trans c c1 _ k (Calm-same c1 _ refl refl refl refl refl refl))

Calm-text_loop : (rounds : ℕ) (c : Conn) (text : List ℕ) → Calm c (text_loop rounds c text)
unfolding text_loop
Calm-text_loop zero c text = Calm-refl c
Calm-text_loop (suc rounds) c [] = Calm-refl c
Calm-text_loop (suc rounds) c (b ∷ text) =
    let chunk = take c.smss (b ∷ text) in
    let rest = drop c.smss (b ∷ text) in
    let skb = text_skb c chunk (length rest == 0) in
    let d = used_skb c in
    let e = (tcp_queue_transmit_skb d skb).0 in
    Calm-trans c e _
      (Calm-trans c d e (Calm-same c d refl refl refl refl refl refl) (Calm-queue_transmit d skb))
      (Calm-text_loop rounds e rest)

pub Calm-rearm_user : (c : Conn) → Calm c (tcp_rearm_user_timeout c)
unfolding tcp_rearm_user_timeout
Calm-rearm_user c =
    Calm-if (is_time_wait c.sk.state) c c _ (Calm-refl c)
      (Calm-same c _ refl refl refl refl refl refl)

pub Calm-send : (c : Conn) (text : List ℕ) → Calm c (tcp_send c text).0
unfolding tcp_send
Calm-send c text =
    let d = text_loop (length text) c text in
    Calm-trans c d _ (Calm-text_loop (length text) c text) (Calm-rearm_user d)

pub Calm-write : (c : Conn) (buf : List ℕ) → Calm c (tcp_write buf c).0
unfolding tcp_write
Calm-write c buf =
    first-Calm (is_zero c.sk.err) c _ (c, c.sk.err)
      (first-Calm (may_write c.sk.state) c (tcp_send c buf) (c, ebadf) (Calm-send c buf)
        (Calm-refl c))
      (Calm-refl c)

close_switch-Calm : (s : TcpState) (c : Conn) → c.sk.state ≡ s → Calm c (close_switch s c).0
unfolding close_switch tcp_set_state tcp_queue_fin
close_switch-Calm listen c e = Calm-done c
close_switch-Calm syn_sent c e = Calm-done c
close_switch-Calm syn_received c e = Calm-done c
close_switch-Calm established c e =
    let d = tcp_set_state fin_wait_1 c in
    let k : Calm c d = record {
      receive = refl;
      ofo = λ _. inl refl;
      next = refl;
      wnd = refl;
      later = omega (arith, ap phase e);
      waiting = omega arith;
      keeps = Keeps-same c d refl;
    } in
    Calm-trans c d _ k (
      Calm-trans d (used_skb d) _ (Calm-same d _ refl refl refl refl refl refl)
        (Calm-queue_transmit (used_skb d) _))
close_switch-Calm close_wait c e =
    Calm-trans c (used_skb c) _ (Calm-same c _ refl refl refl refl refl refl)
      (Calm-queue_transmit (used_skb c) _)
close_switch-Calm fin_wait_1 c e = Calm-same c _ refl refl refl refl refl refl
close_switch-Calm fin_wait_2 c e = Calm-same c _ refl refl refl refl refl refl
close_switch-Calm close c e = Calm-same c _ refl refl refl refl refl refl
close_switch-Calm closing c e = Calm-same c _ refl refl refl refl refl refl
close_switch-Calm last_ack c e = Calm-same c _ refl refl refl refl refl refl
close_switch-Calm time_wait c e = Calm-same c _ refl refl refl refl refl refl

pub Calm-close : (c : Conn) → Calm c (tcp_close c).0
unfolding tcp_close
Calm-close c = close_switch-Calm c.sk.state c refl
