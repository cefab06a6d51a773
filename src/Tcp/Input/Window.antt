-- ===== src/Tcp/Input/Window.antt =====
-- The first check of `tcp_input_state` in src/tcp_input.c: segments outside the receive window.
use hf_ip.Prelude.{Bool, Bool-cases, false, inl, inr, refl, true, ◌≡◌, ◌⊎◌}
use hf_ip.Packet.{Tcphdr}
use hf_ip.SkBuff.{SkBuff}
use hf_ip.Tcp.{
  Conn, TcpState, close, close_wait, closing, established, fin_wait_1, fin_wait_2, last_ack, listen,
  syn_received, syn_sent, time_wait,
}
use hf_ip.Tcp.Lifecycle.{is_close}
use hf_ip.Tcp.Output.{tcp_send_ack}
use hf_ip.Tcp.Acks.{freed_skb, tcp_verify_segment}
use hf_ip.Tcp.Input.{input_otherwise, input_switch, tcp_input_state}
use hf_ip.Tcp.Frame.{Acknowledges, SameSocket, same_refl, send_ack-Acknowledges, send_ack_same}

-- The states in which sequence numbers are checked.
abbrev is_synchronized : TcpState → Bool
is_synchronized close = false
is_synchronized listen = false
is_synchronized syn_sent = false
is_synchronized _ = true

switch-otherwise :
    (s : TcpState) (c : Conn) (th : Tcphdr) (skb : SkBuff)
    → is_synchronized s ≡ true
    → input_switch s c th skb ≡ input_otherwise c th skb
unfolding input_switch
switch-otherwise close c th skb h = cc
switch-otherwise listen c th skb h = cc
switch-otherwise syn_sent c th skb h = cc
switch-otherwise syn_received c th skb h = refl
switch-otherwise established c th skb h = refl
switch-otherwise fin_wait_1 c th skb h = refl
switch-otherwise fin_wait_2 c th skb h = refl
switch-otherwise close_wait c th skb h = refl
switch-otherwise closing c th skb h = refl
switch-otherwise last_ack c th skb h = refl
switch-otherwise time_wait c th skb h = refl

input-otherwise :
    (c : Conn) (th : Tcphdr) (skb : SkBuff)
    → is_synchronized c.sk.state ≡ true
    → tcp_input_state c th skb ≡ input_otherwise c th skb
unfolding tcp_input_state
input-otherwise c th skb h = switch-otherwise c.sk.state c th skb h

freed_same : (c d : Conn) (skb : SkBuff) → SameSocket c d → SameSocket c (freed_skb skb d)
freed_same c d skb s = record {
  sk = s.sk;
  sock = s.sock;
  tcb = s.tcb;
  flags = s.flags;
  inflight = s.inflight;
  ofo_queue = s.ofo_queue;
  timers = s.timers;
  rto = s.rto;
  backoff = s.backoff;
  smss = s.smss;
}

not-closed : (s : TcpState) → is_synchronized s ≡ true → is_close s ≡ false
not-closed close h = cc
not-closed listen h = refl
not-closed syn_sent h = refl
not-closed syn_received h = refl
not-closed established h = refl
not-closed fin_wait_1 h = refl
not-closed fin_wait_2 h = refl
not-closed close_wait h = refl
not-closed closing h = refl
not-closed last_ack h = refl
not-closed time_wait h = refl

rejected_same :
    (c : Conn) (th : Tcphdr) (skb : SkBuff)
    → is_synchronized c.sk.state ≡ true
    → tcp_verify_segment c th skb ≡ false
    → let c' = input_otherwise c th skb in
      SameSocket c c'
      × ((th.rst ≡ true) × (c'.out ≡ c.out) ⊎ (th.rst ≡ false) × Acknowledges c c'.out)
unfolding input_otherwise
rejected_same c th skb h v = elim (Bool-cases th.rst) [
  | inl r ↦ rw (v, r) (freed_same c c skb (same_refl c), inl (refl, refl))
  | inr r ↦
      rw (v, r)
        (
          freed_same c (tcp_send_ack c).0 skb (send_ack_same c),
          inr (refl, send_ack-Acknowledges c (not-closed c.sk.state h)),
        )
]

-- In every state with a receive window, a segment outside of it, or with text when the window is
-- shut, changes neither the state nor a sequence number nor a queue of the connection. With a RST
-- nothing is sent; without one exactly one segment is sent, an acknowledgment of what was received
-- in sequence, from the next sequence number.
pub outside_window :
    (c : Conn) (th : Tcphdr) (skb : SkBuff)
    → is_synchronized c.sk.state ≡ true
    → tcp_verify_segment c th skb ≡ false
    → let c' = tcp_input_state c th skb in
      SameSocket c c'
      × ((th.rst ≡ true) × (c'.out ≡ c.out) ⊎ (th.rst ≡ false) × Acknowledges c c'.out)
outside_window c th skb h v = rw (input-otherwise c th skb h) (rejected_same c th skb h v)
