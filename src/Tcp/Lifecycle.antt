-- ===== src/Tcp/Lifecycle.antt =====
-- The timer functions of src/tcp.c and `tcp_rearm_rto_timer` of src/tcp_output.c; what ends a
-- connection: `tcp_free`, `tcp_done` and `socket_delete`; and `wait_wakeup` of include/wait.h. The
-- handlers' argument is the connection, here its descriptor.
use hf_ip.Prelude.{Bool, false, if◌then◌else◌, length, none, some, true, ℕ, ◌*◌, ◌^◌}
use hf_ip.Word.{u32}
use hf_ip.SkBuff.{skb_queue_free}
use hf_ip.Timer.{
  Handler, Timers, connect_rto, garbage_collect, linger, retransmission_timeout, timer_add,
  timer_cancel, timer_oneshot, timer_release, user_timeout,
}
use hf_ip.Tcp.{
  Conn, SocketState, TcpState, close, close_wait, closing, established, fin_wait_1, last_ack,
  ss_disconnecting, syn_sent, tcp_set_state, time_wait,
}

unfoldable pub tcp_stop_rto_timer : Conn → Conn
tcp_stop_rto_timer c = record c {
  timers = timer_cancel c.retransmit c.timers;
  retransmit = none;
  backoff = 0;
}

unfoldable pub tcp_release_rto_timer : Conn → Conn
tcp_release_rto_timer c = record c {
  timers = timer_release c.retransmit c.timers;
  retransmit = none;
}

unfoldable pub tcp_stop_delack_timer : Conn → Conn
tcp_stop_delack_timer c = record c { timers = timer_cancel c.delack c.timers; delack = none }

unfoldable pub tcp_release_delack_timer : Conn → Conn
tcp_release_delack_timer c = record c { timers = timer_release c.delack c.timers; delack = none }

unfoldable pub tcp_clear_timers : Conn → Conn
unfolding tcp_stop_rto_timer tcp_stop_delack_timer
tcp_clear_timers c =
    let c1 = tcp_stop_delack_timer (tcp_stop_rto_timer c) in
    record c1 {
      timers = timer_cancel c1.linger (timer_cancel c1.keepalive c1.timers);
      keepalive = none;
      linger = none;
    }

abbrev pub is_syn_sent : TcpState → Bool
is_syn_sent syn_sent = true
is_syn_sent _ = false

abbrev pub is_time_wait : TcpState → Bool
is_time_wait time_wait = true
is_time_wait _ = false

abbrev pub is_close : TcpState → Bool
is_close close = true
is_close _ = false

-- `timer_add`, with the timer's address for the caller's pointer.
abbrev pub armed : ℕ → Handler → Conn → Timers × ℕ
armed expire handler c = timer_add (u32 expire) handler c.sock.fd c.timers

-- TCP_SYN_BACKOFF << backoff in state SYN_SENT, and the RTO elsewhere.
unfoldable pub tcp_rearm_rto_timer : Conn → Conn
unfolding tcp_release_rto_timer
tcp_rearm_rto_timer c =
    let c1 = tcp_release_rto_timer c in
    let (timers, t) =
      if is_syn_sent c.sk.state
      then armed (500 * 2 ^ c1.backoff) connect_rto c1
      else armed c1.rto retransmission_timeout c1 in
    record c1 { timers = timers; retransmit = some t }

unfoldable pub tcp_enter_time_wait : Conn → Conn
unfolding tcp_set_state tcp_clear_timers
tcp_enter_time_wait c =
    let c1 = tcp_clear_timers (tcp_set_state time_wait c) in
    let (timers, t) = armed 60000 linger c1 in record c1 { timers = timers; linger = some t }

unfoldable pub tcp_rearm_user_timeout : Conn → Conn
tcp_rearm_user_timeout c =
    let c1 = record c { timers = timer_cancel c.linger c.timers } in
    let (timers, t) = armed 180000 user_timeout c1 in
    if is_time_wait c.sk.state then c else record c1 { timers = timers; linger = some t }

-- `wait_wakeup(&sk->recv_wait)`, which is `recv_notify`, and `wait_wakeup(&sk->sock->sleep)`.
unfoldable pub recv_notify : Conn → Conn
recv_notify c = record c { sk = record c.sk { recv_sleeping = false } }

unfoldable pub wake_sleep : Conn → Conn
wake_sleep c = record c { sock = record c.sock { sleeping = false } }

abbrev pub is_disconnecting : SocketState → Bool
is_disconnecting ss_disconnecting = true
is_disconnecting _ = false

unfoldable pub socket_delete : Conn → Conn
socket_delete c = if is_disconnecting c.sock.state then c else record c {
  sock = record c.sock { state = ss_disconnecting };
  timers = timer_oneshot 10000 garbage_collect c.sock.fd c.timers;
}

-- `tcp_clear_queues`; the rounds are as many as the queue has buffers.
unfoldable pub tcp_clear_queues : Conn → Conn
tcp_clear_queues c =
    let (q, freed) = skb_queue_free (length c.ofo_queue.head) c.ofo_queue c.freed in
    record c { ofo_queue = q; freed = freed }

unfoldable pub tcp_free : Conn → Conn
unfolding tcp_clear_timers tcp_clear_queues wake_sleep
tcp_free c = wake_sleep (tcp_clear_queues (tcp_clear_timers c))

unfoldable pub tcp_done : Conn → Conn
unfolding tcp_set_state tcp_free socket_delete
tcp_done c = socket_delete (tcp_free (tcp_set_state closing c))

unfoldable pub fin_state_switch : TcpState → Conn → Conn
unfolding tcp_set_state
fin_state_switch close_wait c = tcp_set_state last_ack c
fin_state_switch established c = tcp_set_state fin_wait_1 c
fin_state_switch _ c = c

unfoldable pub tcp_handle_fin_state : Conn → Conn
unfolding fin_state_switch
tcp_handle_fin_state c = fin_state_switch c.sk.state c
