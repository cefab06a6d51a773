-- ===== src/Sockets/Steady/Input.antt =====
-- A segment leaves the number, the owner and the references of the socket it is for.
use hf_ip.Sockets.Steady.Checks.{Keeps-from, Keeps-if, after-Keeps, text_and_fin-Keeps}
use hf_ip.Prelude.{if◌then◌else◌, ltb, not, refl, ◌&&◌, ◌+◌, ◌≡◌}
use hf_ip.Word.{u32}
use hf_ip.Packet.{Tcphdr}
use hf_ip.SkBuff.{SkBuff}
use hf_ip.Tcp.{
  Conn, TcpState, close, close_wait, closing, econnrefused, econnreset, epipe, established,
  fin_wait_1, fin_wait_2, last_ack, listen, poll_reset, syn_received, syn_sent, tcp_set_state,
  time_wait,
}
use hf_ip.Tcp.Lifecycle.{recv_notify, tcp_enter_time_wait, tcp_rearm_user_timeout, wake_sleep}
use hf_ip.Tcp.Output.{tcp_send_ack, tcp_send_challenge_ack}
use hf_ip.Tcp.Sack.{tcp_parse_opts}
use hf_ip.Tcp.Acks.{freed_skb, tcp_clean_rto_queue, tcp_verify_segment}
use hf_ip.Tcp.Syn.{
  ack_unacceptable, enter_established, enter_syn_received, reset_switch, set_err, sock_connected,
  syn_taken, tcp_reset, tcp_synsent,
}
use hf_ip.Tcp.Input.{
  ack_and_rest, ack_stage, empty_stage, input_otherwise, input_switch, tcp_input_state,
}
use hf_ip.Tcp.Frame.{send_synack_same}
use hf_ip.Tcp.Calm.{Calm-if, Calm-refl, Calm-trans, Keeps, Keeps-same, Keeps-trans}
use hf_ip.Tcp.Calm.Segments.{Calm-ack, Calm-clean, Calm-closed, Calm-done, Calm-freed}
use hf_ip.Tcp.Calm.Stages.{ack_switch-Calm, empty-Calm}
use hf_ip.Tcp.Calm.Calls.{Calm-rearm_user}

rest-Keeps : (c : Conn) (th : Tcphdr) (skb : SkBuff) → Keeps c (ack_and_rest c th skb)
unfolding ack_and_rest ack_stage
rest-Keeps c th skb =
    after-Keeps c (ack_stage c th skb) _ (ack_switch-Calm c.sk.state c th skb refl).keeps (λ c1.
      after-Keeps c1 (empty_stage c1 th skb) _ (empty-Calm c1 th skb).keeps
        (λ c2. text_and_fin-Keeps c2 th skb))

otherwise-Keeps : (c : Conn) (th : Tcphdr) (skb : SkBuff) → Keeps c (input_otherwise c th skb)
unfolding input_otherwise tcp_send_challenge_ack recv_notify tcp_enter_time_wait
otherwise-Keeps c th skb =
    let stay = Keeps-same c c refl in
    let d = if th.rst then c else (tcp_send_ack c).0 in
    let acked =
      Calm-trans c d _ (Calm-if th.rst c c (tcp_send_ack c).0 (Calm-refl c) (Calm-ack c))
        (Calm-freed d skb) in
    Keeps-if (not (tcp_verify_segment c th skb)) c _ _ acked.keeps (
      Keeps-if th.rst c (recv_notify (tcp_enter_time_wait (freed_skb skb c))) _
        (Keeps-same c _ refl)
        (Keeps-if th.syn c (freed_skb skb (tcp_send_challenge_ack c).0) _ (Keeps-same c _ refl) (
          Keeps-if th.ack c (ack_and_rest c th skb) (freed_skb skb c) (rest-Keeps c th skb)
            (Keeps-same c _ refl))))

reset_switch-Keeps : (s : TcpState) (c : Conn) → Keeps c (reset_switch s c)
unfolding reset_switch
reset_switch-Keeps syn_sent c = Keeps-from c _ _ refl (Calm-done (set_err econnrefused c)).keeps
reset_switch-Keeps close_wait c = Keeps-from c _ _ refl (Calm-done (set_err epipe c)).keeps
reset_switch-Keeps close c = Keeps-same c _ refl
reset_switch-Keeps listen c = Keeps-from c _ _ refl (Calm-done (set_err econnreset c)).keeps
reset_switch-Keeps syn_received c = Keeps-from c _ _ refl (Calm-done (set_err econnreset c)).keeps
reset_switch-Keeps established c = Keeps-from c _ _ refl (Calm-done (set_err econnreset c)).keeps
reset_switch-Keeps fin_wait_1 c = Keeps-from c _ _ refl (Calm-done (set_err econnreset c)).keeps
reset_switch-Keeps fin_wait_2 c = Keeps-from c _ _ refl (Calm-done (set_err econnreset c)).keeps
reset_switch-Keeps closing c = Keeps-from c _ _ refl (Calm-done (set_err econnreset c)).keeps
reset_switch-Keeps last_ack c = Keeps-from c _ _ refl (Calm-done (set_err econnreset c)).keeps
reset_switch-Keeps time_wait c = Keeps-from c _ _ refl (Calm-done (set_err econnreset c)).keeps

tcp_reset-Keeps : (c : Conn) → Keeps c (tcp_reset c)
unfolding tcp_reset
tcp_reset-Keeps c =
    let d = record c { sk = record c.sk { poll_events = poll_reset } } in
    Keeps-from c d _ refl (reset_switch-Keeps c.sk.state d)

connected-Keeps : (c : Conn) → Keeps c (sock_connected c)
unfolding sock_connected wake_sleep
connected-Keeps c = record { fd = refl; pid = refl; refcnt = refl }

enter-Keeps : (c : Conn) (th : Tcphdr) → Keeps c (enter_established c th)
unfolding enter_established tcp_set_state tcp_parse_opts
enter-Keeps c th =
    let c1 = tcp_set_state established c in
    let c2 = record c1 {
      tcb = record c1.tcb { snd_una = c1.tcb.snd_nxt };
      backoff = 0;
      rto = 1000;
    } in
    let c3 = (tcp_send_ack c2).0 in
    let c4 = tcp_rearm_user_timeout c3 in
    let c5 = tcp_parse_opts c4 th in
    Keeps-from c c2 _ refl (
      Keeps-trans c2 c4 _ (Calm-trans c2 c3 c4 (Calm-ack c2) (Calm-rearm_user c3)).keeps
        (Keeps-from c4 c5 _ refl (connected-Keeps c5)))

sock-received : (c : Conn) → (enter_syn_received c).sock ≡ c.sock
unfolding enter_syn_received tcp_set_state
sock-received c =
    let c1 = tcp_set_state syn_received c in
    (send_synack_same (record c1 { tcb = record c1.tcb { snd_una = c1.tcb.iss } })).sock

taken-Keeps : (c : Conn) (th : Tcphdr) → Keeps c (syn_taken c th)
unfolding syn_taken
taken-Keeps c th =
    let c1 = record c { tcb = record c.tcb { rcv_nxt = u32 (th.seq + 1); irs = th.seq } } in
    let c2 = record c1 { tcb = record c1.tcb { snd_una = th.ack_seq } } in
    Keeps-if th.ack c (tcp_clean_rto_queue th.ack_seq c2) c1
      (Keeps-from c c2 _ refl (Calm-clean th.ack_seq c2).keeps) (Keeps-same c c1 refl)

synsent-Keeps : (c : Conn) (th : Tcphdr) (skb : SkBuff) → Keeps c (tcp_synsent c skb th)
unfolding tcp_synsent
synsent-Keeps c th skb =
    let c1 = syn_taken c th in
    let stay = Keeps-same c c refl in
    let taken =
      if ltb c1.tcb.iss c1.tcb.snd_una then enter_established c1 th else enter_syn_received c1 in
    let k : Keeps c taken = Keeps-trans c c1 taken (taken-Keeps c th) (
      Keeps-if (ltb c1.tcb.iss c1.tcb.snd_una) c1 _ _ (enter-Keeps c1 th)
        (Keeps-same c1 _ (sock-received c1))) in
    let all =
      Keeps-if (th.ack && ack_unacceptable c th) c c _ stay (
        Keeps-if th.rst c (tcp_reset c) _ (tcp_reset-Keeps c) (Keeps-if th.syn c taken c k stay)) in
    record { fd = all.fd; pid = all.pid; refcnt = all.refcnt }

input_switch-Keeps :
    (s : TcpState) (c : Conn) (th : Tcphdr) (skb : SkBuff) → Keeps c (input_switch s c th skb)
unfolding input_switch
input_switch-Keeps close c th skb = (Calm-closed c skb th).keeps
input_switch-Keeps listen c th skb = Keeps-same c _ refl
input_switch-Keeps syn_sent c th skb = synsent-Keeps c th skb
input_switch-Keeps syn_received c th skb = otherwise-Keeps c th skb
input_switch-Keeps established c th skb = otherwise-Keeps c th skb
input_switch-Keeps fin_wait_1 c th skb = otherwise-Keeps c th skb
input_switch-Keeps fin_wait_2 c th skb = otherwise-Keeps c th skb
input_switch-Keeps close_wait c th skb = otherwise-Keeps c th skb
input_switch-Keeps closing c th skb = otherwise-Keeps c th skb
input_switch-Keeps last_ack c th skb = otherwise-Keeps c th skb
input_switch-Keeps time_wait c th skb = otherwise-Keeps c th skb

pub input-Keeps : (c : Conn) (th : Tcphdr) (skb : SkBuff) → Keeps c (tcp_input_state c th skb)
unfolding tcp_input_state
input-Keeps c th skb = input_switch-Keeps c.sk.state c th skb
