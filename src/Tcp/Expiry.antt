-- ===== src/Tcp/Expiry.antt =====
-- The handlers of the timers, in src/tcp_output.c and src/tcp.c. Each runs in a thread of its own
-- between `socket_wr_acquire` and `socket_release`, so it is one step here.
pub mod Backoff
use hf_ip.Prelude.{bit_or, drop, if◌then◌else◌, ltb, none, some, ◌*◌, ◌+◌, ◌∷◌}
use hf_ip.Word.{u32, u8}
use hf_ip.Packet.{Tcphdr}
use hf_ip.SkBuff.{SkBuff, SkBuffHead, skb_peek, skb_reset_header}
use hf_ip.Timer.{
  Handler, connect_rto, garbage_collect, linger, retransmission_timeout, send_delack, timer_cancel,
  user_timeout,
}
use hf_ip.Tcp.{Conn, close_wait, etimedout, poll_timeout}
use hf_ip.Tcp.Lifecycle.{
  armed, is_syn_sent, tcp_done, tcp_handle_fin_state, tcp_rearm_rto_timer, tcp_release_delack_timer,
  tcp_release_rto_timer, wake_sleep,
}
use hf_ip.Tcp.Output.{tcp_send_ack, tcp_send_reset, tcp_transmit_skb}

-- `tcp_send_delack`
unfoldable pub tcp_send_delack : Conn → Conn
tcp_send_delack c = (tcp_send_ack (tcp_release_delack_timer (record c { delacks = 0 }))).0

-- The first buffer of the write queue after its retransmission.
abbrev pub replace_first : SkBuff → SkBuffHead → SkBuffHead
replace_first skb q = record q { head = skb ∷ drop 1 q.head }

-- `skb_reset_header` and `tcp_transmit_skb` from the oldest sequence number that is not
-- acknowledged.
unfoldable pub resend : Conn → SkBuff → Conn
resend c skb =
    let (c1, skb', rc) = tcp_transmit_skb c (skb_reset_header skb) c.tcb.snd_una in
    record c1 { sk = record c1.sk { write_queue = replace_first skb' c1.sk.write_queue } }

abbrev pub time_out : Conn → Conn
time_out c = record c {
  sk = record c.sk { err = etimedout; poll_events = bit_or c.sk.poll_events poll_timeout };
}

-- The other branch of `tcp_connect_rto`: the SYN is sent again.
unfoldable pub resend_syn : Conn → Conn
resend_syn c = elim (skb_peek c.sk.write_queue) [
  | none ↦ c
  | some skb ↦
      let c1 = resend c skb in tcp_rearm_rto_timer (record c1 { backoff = u8 (c1.backoff + 1) })
]

-- TCP_CONN_RETRIES is 3.
unfoldable pub tcp_connect_rto : Conn → Conn
unfolding resend_syn
tcp_connect_rto c =
    let c1 = tcp_release_rto_timer c in
    if is_syn_sent c.sk.state
    then (if ltb 3 c1.backoff then tcp_done (time_out c1) else resend_syn c1)
    else c1

-- `tcp_notify_user`
unfoldable pub tcp_notify_user : Conn → Conn
tcp_notify_user c = elim c.sk.state [ close_wait ↦ wake_sleep c | _ ↦ c ]

-- Behind the resending in `tcp_retransmission_timeout`.
unfoldable pub back_off : Conn → Tcphdr → Conn
back_off c th =
    let rto = u32 (c.rto * 2) in
    let (timers, t) = armed rto retransmission_timeout c in
    let c1 = record c {
      rto = rto;
      backoff = u8 (c.backoff + 1);
      timers = timers;
      retransmit = some t;
    } in
    if ltb 60000 c.rto
    then time_out (tcp_done c)
    else (if th.fin then tcp_handle_fin_state c1 else c1)

unfoldable pub tcp_retransmission_timeout : Conn → Conn
tcp_retransmission_timeout c =
    let c1 = tcp_release_rto_timer c in
    elim (skb_peek c1.sk.write_queue) [
      | none ↦ tcp_notify_user (record c1 { backoff = 0 })
      | some skb ↦ back_off (resend c1 skb) skb.th
    ]

-- `tcp_abort`
unfoldable pub tcp_abort : Conn → Conn
tcp_abort c = tcp_done (tcp_send_reset c).0

abbrev pub cancel_linger : Conn → Conn
cancel_linger c = record c { timers = timer_cancel c.linger c.timers; linger = none }

unfoldable pub tcp_linger : Conn → Conn
tcp_linger c = tcp_done (cancel_linger c)

unfoldable pub tcp_user_timeout : Conn → Conn
tcp_user_timeout c = tcp_abort (cancel_linger c)

-- The handler that a timer starts; `socket_garbage_collect` is not one of the connection's.
unfoldable pub handle : Handler → Conn → Conn
handle connect_rto c = tcp_connect_rto c
handle retransmission_timeout c = tcp_retransmission_timeout c
handle send_delack c = tcp_send_delack c
handle linger c = tcp_linger c
handle user_timeout c = tcp_user_timeout c
handle garbage_collect c = c
