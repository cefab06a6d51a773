-- ===== src/Tcp/Calm/Expiry.antt =====
-- The handlers of the timers, in src/tcp_output.c and src/tcp.c, leave the received bytes alone.
use hf_ip.Prelude.{ap, arith, inl, ltb, refl, some, ◌*◌, ◌+◌, ◌≡◌}
use hf_ip.Word.{u32, u8}
use hf_ip.Packet.{Tcphdr}
use hf_ip.SkBuff.{SkBuff, skb_peek}
use hf_ip.Timer.{
  Handler, connect_rto, garbage_collect, linger, retransmission_timeout, send_delack, user_timeout,
}
use hf_ip.Tcp.{
  Conn, TcpState, close, close_wait, closing, established, fin_wait_1, fin_wait_2, last_ack, listen,
  syn_received, syn_sent, tcp_set_state, time_wait,
}
use hf_ip.Tcp.Lifecycle.{
  armed, fin_state_switch, is_syn_sent, tcp_done, tcp_handle_fin_state, tcp_rearm_rto_timer,
  tcp_release_delack_timer, tcp_release_rto_timer, wake_sleep,
}
use hf_ip.Tcp.Output.{tcp_send_reset, tcp_transmit_skb}
use hf_ip.Tcp.Expiry.{
  back_off, cancel_linger, handle, resend, resend_syn, tcp_abort, tcp_connect_rto, tcp_linger,
  tcp_notify_user, tcp_retransmission_timeout, tcp_send_delack, tcp_user_timeout, time_out,
}
use hf_ip.Tcp.Calm.{Calm, Calm-if, Calm-refl, Calm-same, Calm-trans, Keeps-same, phase}
use hf_ip.Tcp.Calm.Segments.{Calm-ack, Calm-done, Calm-end, Calm-peek, Calm-reset}

Calm-resend : (c : Conn) (skb : SkBuff) → Calm c (resend c skb)
unfolding resend tcp_transmit_skb
Calm-resend c skb = Calm-same c _ refl refl refl refl refl refl

Calm-resend_syn : (c : Conn) → Calm c (resend_syn c)
unfolding resend_syn tcp_rearm_rto_timer
Calm-resend_syn c = Calm-peek (skb_peek c.sk.write_queue) c c _ (Calm-refl c) (λ skb.
    let d = resend c skb in
    Calm-trans c d _ (Calm-resend c skb) (Calm-same d _ refl refl refl refl refl refl))

Calm-connect_rto : (c : Conn) → Calm c (tcp_connect_rto c)
unfolding tcp_connect_rto tcp_release_rto_timer
Calm-connect_rto c =
    let d = tcp_release_rto_timer c in
    let k = Calm-same c d refl refl refl refl refl refl in
    Calm-if (is_syn_sent c.sk.state) c _ d
      (Calm-if (ltb 3 d.backoff) c _ _
        (Calm-trans c (time_out d) _ (Calm-same c _ refl refl refl refl refl refl)
          (Calm-done (time_out d)))
        (Calm-trans c d _ k (Calm-resend_syn d)))
      k

fin_state-Calm : (s : TcpState) (c : Conn) → c.sk.state ≡ s → Calm c (fin_state_switch s c)
unfolding fin_state_switch tcp_set_state
fin_state-Calm close_wait c e = Calm-end c _ refl (λ _. inl refl) refl refl (Keeps-same c _ refl)
fin_state-Calm established c e = record {
  receive = refl;
  ofo = λ _. inl refl;
  next = refl;
  wnd = refl;
  later = omega (arith, ap phase e);
  waiting = omega arith;
  keeps = Keeps-same c _ refl;
}
fin_state-Calm listen c e = Calm-refl c
fin_state-Calm syn_sent c e = Calm-refl c
fin_state-Calm syn_received c e = Calm-refl c
fin_state-Calm fin_wait_1 c e = Calm-refl c
fin_state-Calm fin_wait_2 c e = Calm-refl c
fin_state-Calm close c e = Calm-refl c
fin_state-Calm closing c e = Calm-refl c
fin_state-Calm last_ack c e = Calm-refl c
fin_state-Calm time_wait c e = Calm-refl c

Calm-fin_state : (c : Conn) → Calm c (tcp_handle_fin_state c)
unfolding tcp_handle_fin_state
Calm-fin_state c = fin_state-Calm c.sk.state c refl

Calm-back_off : (c : Conn) (th : Tcphdr) → Calm c (back_off c th)
unfolding back_off
Calm-back_off c th =
    let d = tcp_done c in
    let (timers, t) = armed (u32 (c.rto * 2)) retransmission_timeout c in
    let c1 = record c {
      rto = u32 (c.rto * 2);
      backoff = u8 (c.backoff + 1);
      timers = timers;
      retransmit = some t;
    } in
    let k = Calm-same c c1 refl refl refl refl refl refl in
    Calm-if (ltb 60000 c.rto) c (time_out d) _
      (Calm-trans c d _ (Calm-done c) (Calm-same d _ refl refl refl refl refl refl))
      (Calm-if th.fin c (tcp_handle_fin_state c1) c1 (Calm-trans c c1 _ k (Calm-fin_state c1)) k)

notify-Calm :
    (s : TcpState) (c : Conn) → Calm c (elim s as (λ s. Conn) [ close_wait ↦ wake_sleep c | _ ↦ c ])
unfolding wake_sleep
notify-Calm close_wait c = record {
  receive = refl;
  ofo = λ _. inl refl;
  next = refl;
  wnd = refl;
  later = omega arith;
  waiting = λ h. h;
  keeps = record { fd = refl; pid = refl; refcnt = refl };
}
notify-Calm listen c = Calm-refl c
notify-Calm syn_sent c = Calm-refl c
notify-Calm syn_received c = Calm-refl c
notify-Calm established c = Calm-refl c
notify-Calm fin_wait_1 c = Calm-refl c
notify-Calm fin_wait_2 c = Calm-refl c
notify-Calm close c = Calm-refl c
notify-Calm closing c = Calm-refl c
notify-Calm last_ack c = Calm-refl c
notify-Calm time_wait c = Calm-refl c

Calm-retransmission : (c : Conn) → Calm c (tcp_retransmission_timeout c)
unfolding tcp_retransmission_timeout tcp_release_rto_timer tcp_notify_user
Calm-retransmission c =
    let c1 = tcp_release_rto_timer c in
    let k = Calm-same c c1 refl refl refl refl refl refl in
    let d = record c1 { backoff = 0 } in
    Calm-peek (skb_peek c.sk.write_queue) c _ _
      (Calm-trans c d _ (Calm-same c d refl refl refl refl refl refl) (notify-Calm d.sk.state d))
      (λ skb. Calm-trans c c1 _ k (
        Calm-trans c1 (resend c1 skb) _ (Calm-resend c1 skb)
          (Calm-back_off (resend c1 skb) skb.th)))

pub Calm-handle : (h : Handler) (c : Conn) → Calm c (handle h c)
unfolding handle tcp_send_delack tcp_release_delack_timer tcp_linger tcp_user_timeout tcp_abort
Calm-handle connect_rto c = Calm-connect_rto c
Calm-handle retransmission_timeout c = Calm-retransmission c
Calm-handle send_delack c =
    let d = tcp_release_delack_timer (record c { delacks = 0 }) in
    Calm-trans c d _ (Calm-same c d refl refl refl refl refl refl) (Calm-ack d)
Calm-handle linger c =
    let d = cancel_linger c in
    Calm-trans c d _ (Calm-same c d refl refl refl refl refl refl) (Calm-done d)
Calm-handle user_timeout c =
    let d = cancel_linger c in
    let e = (tcp_send_reset d).0 in
    Calm-trans c d _ (Calm-same c d refl refl refl refl refl refl)
      (Calm-trans d e _ (Calm-reset d) (Calm-done e))
Calm-handle garbage_collect c = Calm-refl c
