-- ===== src/Tcp/Input.antt =====
-- src/tcp_input.c: a segment arrives. The results, which `tcp_in` ignores, are left out.
pub mod Arrows
pub mod Acks
pub mod Handshake
pub mod States
pub mod Window
use hf_ip.Tcp.Syn.{tcp_closed, tcp_synsent}
use hf_ip.Tcp.Acks.{freed_skb, tcp_clean_rto_queue, tcp_listen, tcp_verify_segment}
use hf_ip.Prelude.{
  Bool, bit_or, false, if◌then◌else◌, leb, ltb, not, some, true, ℕ, ◌&&◌, ◌+◌, ◌==◌, ◌||◌,
}
use hf_ip.Word.{u32, u8}
use hf_ip.Packet.{Tcphdr}
use hf_ip.SkBuff.{SkBuff, skb_queue_empty, skb_queue_len}
use hf_ip.Checksum.{c_min}
use hf_ip.Timer.{send_delack}
use hf_ip.Tcp.{
  Conn, TcpState, close, close_wait, closing, established, fin_wait_1, fin_wait_2, last_ack, listen,
  syn_received, syn_sent, tcp_fin, tcp_set_state, time_wait,
}
use hf_ip.Tcp.Lifecycle.{
  armed, recv_notify, tcp_done, tcp_enter_time_wait, tcp_rearm_rto_timer, tcp_stop_delack_timer,
}
use hf_ip.Tcp.Output.{tcp_send_ack, tcp_send_challenge_ack, tcp_send_next}
use hf_ip.Tcp.Data.{set_readable, tcp_data_queue}
use hf_ip.Tcp.Rtt.{tcp_rtt}

-- A stage of `tcp_input_state` returns, or goes on with a state.
pub data Stage : Type 0 where
  return : Conn → Stage
  go_on : Conn → Stage

-- The acknowledgment in the states from ESTABLISHED to LAST_ACK.
unfoldable pub ack_established : Conn → Tcphdr → SkBuff → Stage
ack_established c th skb =
    let c1 = record c { tcb = record c.tcb { snd_una = th.ack_seq } } in
    let c2 =
      if ltb c.tcb.snd_una th.ack_seq && leb th.ack_seq c.tcb.snd_nxt
      then tcp_clean_rto_queue th.ack_seq (tcp_rtt c1)
      else c in
    if ltb th.ack_seq c2.tcb.snd_una || ltb c2.tcb.snd_nxt th.ack_seq
    then return (freed_skb skb c2)
    else go_on c2

-- The `switch` of the fifth check.
unfoldable pub ack_switch : TcpState → Conn → Tcphdr → SkBuff → Stage
unfolding tcp_set_state
ack_switch time_wait c th skb = go_on c
ack_switch close c th skb = go_on c
ack_switch listen c th skb = go_on c
ack_switch syn_sent c th skb = go_on c
ack_switch syn_received c th skb =
    if leb c.tcb.snd_una th.ack_seq && ltb th.ack_seq c.tcb.snd_nxt
    then ack_established (tcp_set_state established c) th skb
    else return (freed_skb skb c)
ack_switch _ c th skb = ack_established c th skb

unfoldable pub ack_stage : Conn → Tcphdr → SkBuff → Stage
unfolding ack_switch
ack_stage c th skb = ack_switch c.sk.state c th skb

-- The write queue is empty: our FIN is acknowledged.
unfoldable pub fin_acked_switch : TcpState → Conn → Tcphdr → SkBuff → Stage
unfolding tcp_set_state
fin_acked_switch fin_wait_1 c th skb = go_on (tcp_set_state fin_wait_2 c)
fin_acked_switch closing c th skb = go_on (tcp_set_state time_wait c)
fin_acked_switch last_ack c th skb = return (tcp_done (freed_skb skb c))
fin_acked_switch time_wait c th skb = go_on (
    if c.tcb.rcv_nxt == th.seq
    then (tcp_send_ack (record c { flags = bit_or c.flags tcp_fin })).0
    else c)
fin_acked_switch _ c th skb = go_on c

unfoldable pub fin_acked : Conn → Tcphdr → SkBuff → Stage
unfolding fin_acked_switch
fin_acked c th skb = fin_acked_switch c.sk.state c th skb

-- ESTABLISHED, FIN_WAIT_1 and FIN_WAIT_2.
abbrev pub is_receiving : TcpState → Bool
is_receiving established = true
is_receiving fin_wait_1 = true
is_receiving fin_wait_2 = true
is_receiving _ = false

-- The seventh step, the text.
unfoldable pub text_stage : Conn → Tcphdr → SkBuff → Conn × SkBuff
text_stage c th skb =
    if is_receiving c.sk.state && (th.psh || ltb 0 skb.dlen) then tcp_data_queue c skb else (c, skb)

-- The second `switch` of the eighth step.
unfoldable pub fin_switch : TcpState → Conn → Conn
unfolding tcp_set_state
fin_switch syn_received c = tcp_set_state close_wait c
fin_switch established c = tcp_set_state close_wait c
fin_switch fin_wait_1 c =
    if skb_queue_empty c.sk.write_queue then tcp_enter_time_wait c else tcp_set_state closing c
fin_switch fin_wait_2 c = tcp_enter_time_wait c
fin_switch _ c = c

unfoldable pub fin_transition : Conn → Conn
unfolding fin_switch
fin_transition c = fin_switch c.sk.state c

-- A FIN in sequence.
unfoldable pub fin_received : Conn → Conn
unfolding recv_notify
fin_received c =
    let c1 = set_readable (record c {
      tcb = record c.tcb { rcv_nxt = u32 (c.tcb.rcv_nxt + 1) };
      flags = bit_or c.flags tcp_fin;
    }) in
    fin_transition (recv_notify (tcp_send_ack c1).0)

-- The three branches of the last step: the queued buffers are sent, an acknowledgment is sent, or
-- one is delayed.
unfoldable pub burst : ℕ → Conn → Conn
burst pending c =
    let c1 = tcp_send_next c pending in
    tcp_rearm_rto_timer (record c1 { inflight = u32 (c1.inflight + pending) })

unfoldable pub ack_now : Conn → Conn
ack_now c = (tcp_send_ack (record c { delacks = 0 })).0

unfoldable pub delay_ack : Conn → Conn
delay_ack c =
    let (timers, t) = armed 200 send_delack c in record c { timers = timers; delack = some t }

-- `skb->dlen > 1000 && ++tsk->delacks > 1` behind `th->psh ||`: the test, and its side effect.
abbrev is_large : Tcphdr → SkBuff → Bool
is_large th skb = ltb 1000 skb.dlen && not th.psh

abbrev pub count_large : Tcphdr → SkBuff → Conn → Conn
count_large th skb c = record c {
  delacks = if is_large th skb then u8 (c.delacks + 1) else c.delacks;
}

-- Congestion control and delayed acknowledgments, for a segment in sequence.
unfoldable pub ack_or_delay : Conn → Tcphdr → SkBuff → Conn
ack_or_delay c th skb =
    let c1 = tcp_stop_delack_timer c in
    let pending = c_min (skb_queue_len c1.sk.write_queue) 3 in
    let c2 = count_large th skb c1 in
    if c1.inflight == 0 && ltb 0 pending
    then burst pending c1
    else (if th.psh || (is_large th skb && ltb 1 c2.delacks)
        then ack_now c2
        else (if ltb 0 skb.dlen then delay_ack c2 else c2))

-- From the text on.
unfoldable pub text_and_fin : Conn → Tcphdr → SkBuff → Conn
text_and_fin c th skb =
    let expected = skb.seq == c.tcb.rcv_nxt in
    let (c1, skb1) = text_stage c th skb in
    let c2 = if th.fin && expected then fin_received c1 else c1 in
    let c3 = if is_receiving c2.sk.state && expected then ack_or_delay c2 th skb1 else c2 in
    freed_skb skb1 c3

abbrev pub after : Stage → (Conn → Conn) → Conn
after (return c) rest = c
after (go_on c) rest = rest c

-- The test for an empty write queue behind the acknowledgment.
unfoldable pub empty_stage : Conn → Tcphdr → SkBuff → Stage
empty_stage c th skb = if skb_queue_empty c.sk.write_queue then fin_acked c th skb else go_on c

-- From the acknowledgment on.
unfoldable pub ack_and_rest : Conn → Tcphdr → SkBuff → Conn
ack_and_rest c th skb =
    after (ack_stage c th skb) (λ c1. after (empty_stage c1 th skb) (λ c2. text_and_fin c2 th skb))

-- Behind the `switch` on the states CLOSE, LISTEN and SYN_SENT.
unfoldable pub input_otherwise : Conn → Tcphdr → SkBuff → Conn
input_otherwise c th skb =
    if not (tcp_verify_segment c th skb)
    then freed_skb skb (if th.rst then c else (tcp_send_ack c).0)
    else (if th.rst
        then recv_notify (tcp_enter_time_wait (freed_skb skb c))
        else (if th.syn
            then freed_skb skb (tcp_send_challenge_ack c).0
            else (if th.ack then ack_and_rest c th skb else freed_skb skb c)))

unfoldable pub input_switch : TcpState → Conn → Tcphdr → SkBuff → Conn
input_switch close c th skb = tcp_closed c skb th
input_switch listen c th skb = tcp_listen skb c
input_switch syn_sent c th skb = tcp_synsent c skb th
input_switch _ c th skb = input_otherwise c th skb

unfoldable pub tcp_input_state : Conn → Tcphdr → SkBuff → Conn
unfolding input_switch
tcp_input_state c th skb = input_switch c.sk.state c th skb
