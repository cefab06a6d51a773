-- ===== src/Sockets/Steady/Checks.antt =====
-- The text and the FIN of src/tcp_input.c leave the numbers of the connection's socket.
use hf_ip.Prelude.{
  Bool, bit_or, false, if◌then◌else◌, ltb, refl, true, ◌&&◌, ◌+◌, ◌==◌, ◌||◌, ◌∙◌, ◌≡◌,
}
use hf_ip.Word.{u32}
use hf_ip.Packet.{Tcphdr}
use hf_ip.SkBuff.{SkBuff, skb_queue_empty}
use hf_ip.Tcp.{
  Conn, TcpState, close, close_wait, closing, established, fin_wait_1, fin_wait_2, last_ack, listen,
  syn_received, syn_sent, tcp_fin, tcp_set_state, time_wait,
}
use hf_ip.Tcp.Lifecycle.{recv_notify, tcp_enter_time_wait}
use hf_ip.Tcp.Output.{tcp_send_ack}
use hf_ip.Tcp.Data.{set_readable, tcp_data_queue}
use hf_ip.Tcp.Input.{
  Stage, ack_or_delay, after, fin_received, fin_switch, fin_transition, go_on, is_receiving, return,
  text_and_fin, text_stage,
}
use hf_ip.Tcp.Frame.{send_ack_same}
use hf_ip.Tcp.Input.Arrows.{staged}
use hf_ip.Tcp.Calm.{Calm-if, Calm-refl, Calm-trans, Keeps, Keeps-same, Keeps-trans}
use hf_ip.Tcp.Calm.Segments.{Calm-ack_or_delay, Calm-freed}
use hf_ip.Sockets.Steady.{first-if, sock-if}
use hf_ip.Sockets.Steady.Stages.{sock-data_queue}

pub Keeps-if : (b : Bool) (c d e : Conn) → Keeps c d → Keeps c e → Keeps c (if b then d else e)
Keeps-if true c d e h k = h
Keeps-if false c d e h k = k

-- Behind a step that leaves the socket as it is.
pub Keeps-from : (c d e : Conn) → d.sock ≡ c.sock → Keeps d e → Keeps c e
Keeps-from c d e h k = Keeps-trans c d e (Keeps-same c d h) k

pub after-Keeps :
    (c : Conn) (s : Stage) (f : Conn → Conn)
    → Keeps c (staged s)
    → ((d : Conn) → Keeps d (f d))
    → Keeps c (after s f)
after-Keeps c (return d) f h k = h
after-Keeps c (go_on d) f h k = Keeps-trans c d (f d) h (k d)

pub sock-text_stage :
    (c : Conn) (th : Tcphdr) (skb : SkBuff) → (text_stage c th skb).0.sock ≡ c.sock
unfolding text_stage
sock-text_stage c th skb =
    first-if (is_receiving c.sk.state && (th.psh || ltb 0 skb.dlen)) c (tcp_data_queue c skb)
      (c, skb) (sock-data_queue c skb) refl

pub sock-fin_switch : (s : TcpState) (c : Conn) → (fin_switch s c).sock ≡ c.sock
unfolding fin_switch tcp_set_state tcp_enter_time_wait
sock-fin_switch fin_wait_1 c =
    sock-if (skb_queue_empty c.sk.write_queue) c (tcp_enter_time_wait c) (tcp_set_state closing c)
      refl refl
sock-fin_switch fin_wait_2 c = refl
sock-fin_switch syn_received c = refl
sock-fin_switch established c = refl
sock-fin_switch close c = refl
sock-fin_switch listen c = refl
sock-fin_switch syn_sent c = refl
sock-fin_switch close_wait c = refl
sock-fin_switch closing c = refl
sock-fin_switch last_ack c = refl
sock-fin_switch time_wait c = refl

pub sock-fin_received : (c : Conn) → (fin_received c).sock ≡ c.sock
unfolding fin_received fin_transition recv_notify
sock-fin_received c =
    let c1 = set_readable (record c {
      tcb = record c.tcb { rcv_nxt = u32 (c.tcb.rcv_nxt + 1) };
      flags = bit_or c.flags tcp_fin;
    }) in
    let d = recv_notify (tcp_send_ack c1).0 in
    sock-fin_switch d.sk.state d ∙ (send_ack_same c1).sock

pub text_and_fin-Keeps : (c : Conn) (th : Tcphdr) (skb : SkBuff) → Keeps c (text_and_fin c th skb)
unfolding text_and_fin
text_and_fin-Keeps c th skb =
    let expected = skb.seq == c.tcb.rcv_nxt in
    let (c1, skb1) = text_stage c th skb in
    let c2 = if th.fin && expected then fin_received c1 else c1 in
    let k1 = sock-text_stage c th skb in
    let k2 = sock-if (th.fin && expected) c1 (fin_received c1) c1 (sock-fin_received c1) refl in
    let c3 = if is_receiving c2.sk.state && expected then ack_or_delay c2 th skb1 else c2 in
    let k3 =
      Calm-if (is_receiving c2.sk.state && expected) c2 (ack_or_delay c2 th skb1) c2
        (Calm-ack_or_delay c2 th skb1) (Calm-refl c2) in
    Keeps-from c c2 _ (k2 ∙ k1) (Calm-trans c2 c3 _ k3 (Calm-freed c3 skb1)).keeps
