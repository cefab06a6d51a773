-- ===== src/Tcp/Syn.antt =====
-- src/tcp_input.c in the states SYN_SENT and CLOSE, and `sock_connected` of src/sock.c.
use hf_ip.Tcp.Acks.{freed_skb, tcp_clean_rto_queue, tcp_discard}
use hf_ip.Prelude.{Bool, if◌then◌else◌, leb, ltb, ◌&&◌, ◌+◌, ◌||◌}
use hf_ip.Prelude.Int.{pos, ℤ}
use hf_ip.Word.{u32}
use hf_ip.Packet.{Tcphdr}
use hf_ip.SkBuff.{SkBuff}
use hf_ip.Tcp.{
  Conn, TcpState, close, close_wait, econnrefused, econnreset, epipe, established, poll_connected,
  poll_reset, ss_connected, syn_received, syn_sent, tcp_set_state,
}
use hf_ip.Tcp.Lifecycle.{tcp_done, tcp_rearm_user_timeout, wake_sleep}
use hf_ip.Tcp.Output.{tcp_send_ack, tcp_send_reset, tcp_send_synack}
use hf_ip.Tcp.Sack.{tcp_parse_opts}

abbrev pub set_err : ℤ → Conn → Conn
set_err e c = record c { sk = record c.sk { err = e } }

unfoldable pub reset_switch : TcpState → Conn → Conn
reset_switch syn_sent c = tcp_done (set_err econnrefused c)
reset_switch close_wait c = tcp_done (set_err epipe c)
reset_switch close c = c
reset_switch _ c = tcp_done (set_err econnreset c)

unfoldable pub tcp_reset : Conn → Conn
unfolding reset_switch
tcp_reset c = reset_switch c.sk.state (record c { sk = record c.sk { poll_events = poll_reset } })

-- `sock_connected` of src/sock.c.
unfoldable pub sock_connected : Conn → Conn
unfolding wake_sleep
sock_connected c = wake_sleep (record c {
  sock = record c.sock { state = ss_connected };
  sk = record c.sk { err = pos 0; poll_events = poll_connected };
})

-- The SYN of `tcp_synsent` is taken: the sequence numbers.
unfoldable pub syn_taken : Conn → Tcphdr → Conn
syn_taken c th =
    let c1 = record c { tcb = record c.tcb { rcv_nxt = u32 (th.seq + 1); irs = th.seq } } in
    let c2 = record c1 { tcb = record c1.tcb { snd_una = th.ack_seq } } in
    if th.ack then tcp_clean_rto_queue th.ack_seq c2 else c1

-- Our SYN is acknowledged: the connection is established.
unfoldable pub enter_established : Conn → Tcphdr → Conn
unfolding tcp_set_state
enter_established c th =
    let c1 = tcp_set_state established c in
    let c2 = record c1 {
      tcb = record c1.tcb { snd_una = c1.tcb.snd_nxt };
      backoff = 0;
      rto = 1000;
    } in
    sock_connected (tcp_parse_opts (tcp_rearm_user_timeout (tcp_send_ack c2).0) th)

-- Both ends have sent a SYN.
unfoldable pub enter_syn_received : Conn → Conn
unfolding tcp_set_state
enter_syn_received c =
    let c1 = tcp_set_state syn_received c in
    (tcp_send_synack (record c1 { tcb = record c1.tcb { snd_una = c1.tcb.iss } })).0

-- The two tests of the acknowledgment in `tcp_synsent`.
abbrev pub ack_unacceptable : Conn → Tcphdr → Bool
ack_unacceptable c th =
    (leb th.ack_seq c.tcb.iss || ltb c.tcb.snd_nxt th.ack_seq)
    || (ltb th.ack_seq c.tcb.snd_una || ltb c.tcb.snd_nxt th.ack_seq)

unfoldable pub tcp_synsent : Conn → SkBuff → Tcphdr → Conn
tcp_synsent c skb th =
    let c1 = syn_taken c th in
    let taken =
      if ltb c1.tcb.iss c1.tcb.snd_una then enter_established c1 th else enter_syn_received c1 in
    freed_skb skb (
      if th.ack && ack_unacceptable c th
      then c
      else (if th.rst then tcp_reset c else (if th.syn then taken else c)))

unfoldable pub tcp_closed : Conn → SkBuff → Tcphdr → Conn
tcp_closed c skb th = if th.rst then tcp_discard skb c else freed_skb skb (tcp_send_reset c).0
