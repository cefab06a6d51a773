-- ===== src/Tcp/Calm/Segments.antt =====
-- The stages of src/tcp_input.c that receive no text, and the functions of src/tcp_output.c and
-- src/tcp.c that they call, leave the received bytes alone.
use hf_ip.Prelude.{
  List, Option, [], ap, ap₂, arith, inl, inr, length, ltb, none, not, refl, some, suc, zero, ℕ,
  ◌&&◌, ◌==◌, ◌||◌, ◌∷◌, ◌≡◌, ◌≤◌, ◌⊎◌,
}
use hf_ip.Checksum.{c_min}
use hf_ip.Packet.{Tcphdr}
use hf_ip.SkBuff.{
  SkBuff, SkBuffHead, skb_peek, skb_queue_empty, skb_queue_free, skb_queue_init, skb_queue_len,
}
use hf_ip.SkBuff.Queue.{IsCounted, skb_queue_free-empty}
use hf_ip.Tcp.{
  Conn, Tcb, TcpState, close, close_wait, closing, established, fin_wait_1, fin_wait_2, last_ack,
  listen, syn_received, syn_sent, time_wait,
}
use hf_ip.Tcp.Lifecycle.{
  is_disconnecting, socket_delete, tcp_clear_queues, tcp_clear_timers, tcp_done,
  tcp_enter_time_wait, tcp_free, tcp_rearm_rto_timer, tcp_stop_delack_timer, tcp_stop_rto_timer,
}
use hf_ip.Tcp.Output.{
  send_loop, send_once, send_one, tcp_send_ack, tcp_send_next, tcp_send_reset, tcp_transmit_skb,
}
use hf_ip.Tcp.Rtt.{rtt_update, tcp_rtt}
use hf_ip.Tcp.Acks.{clean_loop, clean_one, freed_skb, is_acked, tcp_clean_rto_queue}
use hf_ip.Tcp.Syn.{tcp_closed}
use hf_ip.Tcp.Input.{ack_now, ack_or_delay, burst, count_large, delay_ack}
use hf_ip.Tcp.Frame.{send_ack_same}
use hf_ip.Tcp.Calm.{
  Calm, Calm-SameSocket, Calm-if, Calm-refl, Calm-same, Calm-trans, Keeps, Keeps-same, phase,
}

pub Calm-freed : (c : Conn) (skb : SkBuff) → Calm c (freed_skb skb c)
Calm-freed c skb = Calm-same c _ refl refl refl refl refl refl

-- A round that looks at the first buffer, if there is one.
pub Calm-peek :
    (o : Option SkBuff) (c d : Conn) (f : SkBuff → Conn)
    → Calm c d
    → ((skb : SkBuff) → Calm c (f skb))
    → Calm c (elim o as (λ o. Conn) [ none ↦ d | some skb ↦ f skb ])
Calm-peek none c d f h k = h
Calm-peek (some skb) c d f h k = k skb

Calm-clean_loop : (rounds una : ℕ) (c : Conn) → Calm c (clean_loop rounds una c)
unfolding clean_loop clean_one
Calm-clean_loop zero una c = Calm-refl c
Calm-clean_loop (suc rounds) una c =
    Calm-peek (skb_peek c.sk.write_queue) c c _ (Calm-refl c) (λ skb.
      let d = clean_one c skb in
      Calm-if (is_acked una skb) c (clean_loop rounds una d) c
        (Calm-trans c d _ (Calm-same c d refl refl refl refl refl refl)
          (Calm-clean_loop rounds una d))
        (Calm-refl c))

pub Calm-clean : (una : ℕ) (c : Conn) → Calm c (tcp_clean_rto_queue una c)
unfolding tcp_clean_rto_queue tcp_stop_rto_timer
Calm-clean una c =
    let d = clean_loop (length c.sk.write_queue.head) una c in
    let k = Calm-clean_loop (length c.sk.write_queue.head) una c in
    Calm-if (skb_queue_empty d.sk.write_queue || d.inflight == 0) c (tcp_stop_rto_timer d) d
      (Calm-trans c d _ k (Calm-same d _ refl refl refl refl refl refl)) k

pub Calm-rtt : (c : Conn) → Calm c (tcp_rtt c)
unfolding tcp_rtt rtt_update
Calm-rtt c = ground (arith, Calm-refl c)

phase_most : (s : TcpState) → phase s ≤ 4
phase_most listen = omega arith
phase_most syn_sent = omega arith
phase_most syn_received = omega arith
phase_most established = omega arith
phase_most fin_wait_1 = omega arith
phase_most fin_wait_2 = omega arith
phase_most close_wait = omega arith
phase_most closing = omega arith
phase_most last_ack = omega arith
phase_most time_wait = omega arith
phase_most close = omega arith

-- A step into one of the states in which a connection has ended.
pub Calm-end :
    (c d : Conn)
    → d.sk.receive_queue ≡ c.sk.receive_queue
    → (IsCounted c.ofo_queue → (d.ofo_queue ≡ c.ofo_queue) ⊎ (d.ofo_queue ≡ skb_queue_init))
    → d.tcb ≡ c.tcb
    → phase d.sk.state ≡ 4
    → Keeps c d
    → Calm c d
Calm-end c d q o t s k = record {
  receive = q;
  ofo = o;
  next = ap (λ (t : Tcb). t.rcv_nxt) t;
  wnd = ap (λ (t : Tcb). t.rcv_wnd) t;
  later = omega (arith, phase_most c.sk.state);
  waiting = omega arith;
  keeps = k;
}

pub Calm-wait : (c : Conn) → Calm c (tcp_enter_time_wait c)
unfolding tcp_enter_time_wait
Calm-wait c = Calm-end c _ refl (λ _. inl refl) refl refl (Keeps-same c _ refl)

cleared :
    (q : SkBuffHead) (freed : List ℕ)
    → IsCounted q
    → (skb_queue_free (length q.head) q freed).0 ≡ skb_queue_init
unfolding skb_queue_init
cleared q freed h =
    let (e, n) = skb_queue_free-empty (length q.head) q freed h (omega arith) in
    ap₂ (λ l n. record { head = l; qlen = n }) e n

pub Calm-done : (c : Conn) → Calm c (tcp_done c)
unfolding tcp_done tcp_free tcp_clear_queues tcp_clear_timers socket_delete
Calm-done c =
    let freed = cleared c.ofo_queue c.freed in
    Calm-if (is_disconnecting c.sock.state) c _ _
      (Calm-end c _ refl (λ h. inr (freed h)) refl refl
        (record { fd = refl; pid = refl; refcnt = refl }))
      (Calm-end c _ refl (λ h. inr (freed h)) refl refl
        (record { fd = refl; pid = refl; refcnt = refl }))

pub Calm-ack : (c : Conn) → Calm c (tcp_send_ack c).0
Calm-ack c = Calm-SameSocket c _ (send_ack_same c)

pub Calm-reset : (c : Conn) → Calm c (tcp_send_reset c).0
unfolding tcp_send_reset send_once tcp_transmit_skb
Calm-reset c = Calm-same c _ refl refl refl refl refl refl

Calm-send_loop : (amount : ℕ) (c : Conn) (l : List SkBuff) → Calm c (send_loop amount c l).0
unfolding send_loop send_one tcp_transmit_skb
Calm-send_loop zero c l = Calm-refl c
Calm-send_loop (suc amount) c [] = Calm-refl c
Calm-send_loop (suc amount) c (next ∷ rest) =
    let d = (send_one c next).0 in
    Calm-trans c d _ (Calm-same c d refl refl refl refl refl refl) (Calm-send_loop amount d rest)

Calm-burst : (n : ℕ) (c : Conn) → Calm c (burst n c)
unfolding burst tcp_rearm_rto_timer tcp_send_next
Calm-burst n c =
    let k = Calm-send_loop n c c.sk.write_queue.head in
    Calm-trans c (send_loop n c c.sk.write_queue.head).0 _ k
      (Calm-same _ _ refl refl refl refl refl refl)

pub Calm-ack_or_delay : (c : Conn) (th : Tcphdr) (skb : SkBuff) → Calm c (ack_or_delay c th skb)
unfolding ack_or_delay ack_now delay_ack tcp_stop_delack_timer
Calm-ack_or_delay c th skb =
    let c1 = tcp_stop_delack_timer c in
    let c2 = count_large th skb c1 in
    let c3 = record c2 { delacks = 0 } in
    let k1 = Calm-same c c1 refl refl refl refl refl refl in
    let k2 = Calm-same c c2 refl refl refl refl refl refl in
    let pending = c_min (skb_queue_len c1.sk.write_queue) 3 in
    Calm-if (c1.inflight == 0 && ltb 0 pending) c _ _ (Calm-trans c c1 _ k1 (Calm-burst pending c1))
      (Calm-if (th.psh || (ltb 1000 skb.dlen && not th.psh && ltb 1 c2.delacks)) c _ _
        (Calm-trans c c3 _ (Calm-same c c3 refl refl refl refl refl refl) (Calm-ack c3))
        (Calm-if (ltb 0 skb.dlen) c _ _ (Calm-same c _ refl refl refl refl refl refl) k2))

-- A segment in the state CLOSE.
pub Calm-closed : (c : Conn) (skb : SkBuff) (th : Tcphdr) → Calm c (tcp_closed c skb th)
unfolding tcp_closed
Calm-closed c skb th =
    let d = (tcp_send_reset c).0 in
    Calm-if th.rst c (freed_skb skb c) (freed_skb skb d) (Calm-freed c skb)
      (Calm-trans c d _ (Calm-reset c) (Calm-freed d skb))
