-- ===== src/Tcp/Frame.antt =====
-- What the functions of a connection leave as it was: the lemmas that the proofs about its
-- handlers share.
pub mod Later
use hf_ip.Prelude.{
  Bool, Bool-cases, List, Option-cases, [], arith, false, if◌then◌else◌, inl, inr, length, refl,
  suc, true, zero, ℕ, ◌++◌, ◌+◌, ◌/◌, ◌∷◌, ◌≡◌,
}
use hf_ip.Packet.{Tcphdr}
use hf_ip.SkBuff.{SkBuff, skb_peek}
use hf_ip.Tcp.{Conn, closing, time_wait}
use hf_ip.Tcp.Lifecycle.{
  is_close, is_syn_sent, tcp_clear_queues, tcp_clear_timers, tcp_done, tcp_enter_time_wait,
  tcp_free, tcp_rearm_rto_timer, tcp_rearm_user_timeout, tcp_stop_rto_timer,
}
use hf_ip.Tcp.Header.{segment_header, tcp_alloc_skb, write_options}
use hf_ip.Tcp.Output.{
  send_once, tcp_options_len, tcp_send_ack, tcp_send_reset, tcp_send_synack, tcp_transmit_skb,
  used_skb,
}
use hf_ip.Tcp.Rtt.{tcp_rtt}
use hf_ip.Tcp.Acks.{clean_loop, clean_one, tcp_clean_rto_queue}

-- Sending a segment that is not queued changes the layers below, the log, the heap and the
-- blocks that were reported.
pub record SameSocket (c d : Conn) : Type 0 where
  pub sk : d.sk ≡ c.sk
  pub sock : d.sock ≡ c.sock
  pub tcb : d.tcb ≡ c.tcb
  pub flags : d.flags ≡ c.flags
  pub inflight : d.inflight ≡ c.inflight
  pub ofo_queue : d.ofo_queue ≡ c.ofo_queue
  pub timers : d.timers ≡ c.timers
  pub rto : d.rto ≡ c.rto
  pub backoff : d.backoff ≡ c.backoff
  pub smss : d.smss ≡ c.smss

send_once_same : (c : Conn) (skb : SkBuff) (seq : ℕ) → SameSocket c (send_once c skb seq).0
unfolding send_once tcp_transmit_skb
send_once_same c skb seq = record {
  sk = refl;
  sock = refl;
  tcb = refl;
  flags = refl;
  inflight = refl;
  ofo_queue = refl;
  timers = refl;
  rto = refl;
  backoff = refl;
  smss = refl;
}

pub same_refl : (c : Conn) → SameSocket c c
same_refl c = record {
  sk = refl;
  sock = refl;
  tcb = refl;
  flags = refl;
  inflight = refl;
  ofo_queue = refl;
  timers = refl;
  rto = refl;
  backoff = refl;
  smss = refl;
}

pub send_ack_same : (c : Conn) → SameSocket c (tcp_send_ack c).0
unfolding tcp_send_ack
send_ack_same c = elim (Bool-cases (is_close c.sk.state)) [
  | inl closed ↦ rw closed (same_refl c)
  | inr opened ↦ rw opened (send_once_same c _ _)
]

-- An acknowledgment from the next sequence number, of all that is expected.
pub record Acknowledges (c : Conn) (out : List (Tcphdr × List ℕ)) : Type 0 where
  pub header : Tcphdr
  pub sent : out ≡ c.out ++ (header, []) ∷ []
  pub ack : header.ack ≡ true
  pub seq : header.seq ≡ c.tcb.snd_nxt
  pub ack_seq : header.ack_seq ≡ c.tcb.rcv_nxt
  pub flags : (header.syn ≡ false) × (header.fin ≡ false) × (header.rst ≡ false)

pub header-same :
    (c : Conn) (th : Tcphdr) (seq : ℕ)
    → let h = segment_header c th seq in
      (h.seq ≡ seq)
      × (h.ack_seq ≡ c.tcb.rcv_nxt)
      × (h.ack ≡ th.ack)
      × (h.syn ≡ th.syn)
      × (h.fin ≡ th.fin)
      × (h.rst ≡ th.rst)
unfolding segment_header write_options
header-same c th seq = ground arith

-- In every state but CLOSE, `tcp_send_ack` sends one such segment.
pub send_ack-Acknowledges :
    (c : Conn) → is_close c.sk.state ≡ false → Acknowledges c (tcp_send_ack c).0.out
unfolding tcp_send_ack send_once tcp_transmit_skb tcp_alloc_skb
send_ack-Acknowledges c h =
    let optlen = tcp_options_len c in
    let skb = tcp_alloc_skb optlen 0 c in
    let th = record skb.th { ack = true; hl = 5 + optlen / 4 } in
    let (seq, ack_seq, ack, syn, fin, rst) = header-same (used_skb c) th c.tcb.snd_nxt in
    rw h (record {
      header = segment_header (used_skb c) th c.tcb.snd_nxt;
      sent = refl;
      ack = ack;
      seq = seq;
      ack_seq = ack_seq;
      flags = (syn, fin, rst);
    })

pub send_synack_same : (c : Conn) → SameSocket c (tcp_send_synack c).0
unfolding tcp_send_synack
send_synack_same c = elim (Bool-cases (is_syn_sent c.sk.state)) [
  | inl sent ↦ rw sent (send_once_same c _ _)
  | inr not_ ↦ rw not_ (same_refl c)
]

pub state-send_reset : (c : Conn) → (tcp_send_reset c).0.sk ≡ c.sk
unfolding tcp_send_reset send_once tcp_transmit_skb
state-send_reset c = refl

pub state-tcp_done : (c : Conn) → (tcp_done c).sk ≡ record c.sk { state = closing }
unfolding tcp_done tcp_free tcp_clear_queues tcp_clear_timers
state-tcp_done c = ground arith

pub state-enter_time_wait :
    (c : Conn) → (tcp_enter_time_wait c).sk ≡ record c.sk { state = time_wait }
unfolding tcp_enter_time_wait
state-enter_time_wait c = refl

pub sk-rearm_if : (b : Bool) (c : Conn) → (if b then tcp_rearm_rto_timer c else c).sk ≡ c.sk
unfolding tcp_rearm_rto_timer
sk-rearm_if true c = refl
sk-rearm_if false c = refl

pub sk-rearm_user : (c : Conn) → (tcp_rearm_user_timeout c).sk ≡ c.sk
unfolding tcp_rearm_user_timeout
sk-rearm_user c = ground arith

pub sk-rtt : (c : Conn) → ((tcp_rtt c).sk ≡ c.sk) × ((tcp_rtt c).tcb ≡ c.tcb)
unfolding tcp_rtt
sk-rtt c = ground arith

tcb-clean_loop :
    (rounds una : ℕ) (c : Conn)
    → ((clean_loop rounds una c).tcb ≡ c.tcb) × ((clean_loop rounds una c).sk.state ≡ c.sk.state)
unfolding clean_loop clean_one
tcb-clean_loop zero una c = (refl, refl)
tcb-clean_loop (suc rounds) una c = elim (Option-cases (skb_peek c.sk.write_queue)) [
  | inl e ↦ ground arith
  | inr (skb, e) ↦ ground (arith, tcb-clean_loop rounds una (clean_one c skb))
]

pub tcb-clean :
    (una : ℕ) (c : Conn)
    → ((tcp_clean_rto_queue una c).tcb ≡ c.tcb)
      × ((tcp_clean_rto_queue una c).sk.state ≡ c.sk.state)
unfolding tcp_clean_rto_queue tcp_stop_rto_timer
tcb-clean una c = ground (arith, tcb-clean_loop (length c.sk.write_queue.head) una c)
