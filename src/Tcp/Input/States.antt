-- ===== src/Tcp/Input/States.antt =====
-- The states that an arriving segment can move a connection through.
use hf_ip.Tcp.Input.Arrows.{
  ack_switch-moves, both_closed, broken, close_wait_open, closing_acked, closing_open, ended,
  established_open, fin_1_open, fin_2_open, fin_acked_switch-moves, fin_and_ack, fin_confirmed,
  here, join, last_ack_open, last_fin, next, one, peer_closed, received_open, same, staged,
  syn_acked, syn_answered, syn_crossed, syn_refused, text_and_fin-moves, ◌⟶*◌, ◌⟶◌,
}
use hf_ip.Prelude.{
  Bool, Bool-cases, ap, arith, false, if◌then◌else◌, inl, inr, ltb, refl, sym, true, ◌∙◌, ◌≡◌,
}
use hf_ip.Packet.{Tcphdr}
use hf_ip.SkBuff.{SkBuff, skb_queue_empty}
use hf_ip.Tcp.{
  Conn, TcpState, close, close_wait, closing, econnrefused, established, fin_wait_1, fin_wait_2,
  last_ack, listen, poll_reset, syn_received, syn_sent, time_wait,
}
use hf_ip.Tcp.Lifecycle.{recv_notify, tcp_rearm_user_timeout}
use hf_ip.Tcp.Output.{tcp_send_ack, tcp_send_challenge_ack}
use hf_ip.Tcp.Sack.{tcp_parse_opts}
use hf_ip.Tcp.Acks.{freed_skb}
use hf_ip.Tcp.Syn.{
  enter_established, enter_syn_received, reset_switch, set_err, sock_connected, syn_taken,
  tcp_closed, tcp_reset, tcp_synsent,
}
use hf_ip.Tcp.Input.{
  Stage, ack_and_rest, ack_stage, ack_switch, after, empty_stage, fin_acked, go_on, input_otherwise,
  input_switch, return, tcp_input_state, text_and_fin,
}
use hf_ip.Tcp.Frame.{
  send_ack_same, send_synack_same, sk-rearm_user, state-enter_time_wait, state-send_reset,
  state-tcp_done,
}
use mathlib.Core.Path.{subst}

after-moves :
    (s : TcpState) (st : Stage) (rest : Conn → Conn)
    → s ⟶* (staged st).sk.state
    → ((c : Conn) → c.sk.state ⟶* (rest c).sk.state)
    → s ⟶* (after st rest).sk.state
after-moves s (return c) rest m r = m
after-moves s (go_on c) rest m r = join m (r c)

empty_stage-moves :
    (c : Conn) (th : Tcphdr) (skb : SkBuff) → c.sk.state ⟶* (staged (empty_stage c th skb)).sk.state
unfolding empty_stage fin_acked
empty_stage-moves c th skb = elim (Bool-cases (skb_queue_empty c.sk.write_queue)) [
  | inl empty ↦ rw empty (fin_acked_switch-moves c.sk.state c th skb refl)
  | inr left ↦ rw left here
]

ack_and_rest-moves :
    (c : Conn) (th : Tcphdr) (skb : SkBuff) → c.sk.state ⟶* (ack_and_rest c th skb).sk.state
unfolding ack_and_rest ack_stage
ack_and_rest-moves c th skb =
    after-moves c.sk.state (ack_switch c.sk.state c th skb)
      (λ c1. after (empty_stage c1 th skb) (λ c2. text_and_fin c2 th skb))
      (ack_switch-moves c.sk.state c th skb refl)
      (λ c1.
        after-moves c1.sk.state (empty_stage c1 th skb) (λ c2. text_and_fin c2 th skb)
          (empty_stage-moves c1 th skb) (λ c2. text_and_fin-moves c2 th skb))

if-moves :
    (s : TcpState) (b : Bool) (x y : Conn)
    → s ⟶* x.sk.state
    → s ⟶* y.sk.state
    → s ⟶* (if b then x else y).sk.state
if-moves s true x y p q = p
if-moves s false x y p q = q

-- In an open state and in TIME_WAIT.
otherwise-moves :
    (c : Conn) (th : Tcphdr) (skb : SkBuff)
    → c.sk.state ⟶* time_wait
    → c.sk.state ⟶* (input_otherwise c th skb).sk.state
unfolding input_otherwise tcp_send_challenge_ack recv_notify
otherwise-moves c th skb o =
    let s = c.sk.state in
    let ack : s ⟶* (tcp_send_ack c).0.sk.state =
      same _ _ (ap (λ k. k.state) (send_ack_same c).sk) in
    if-moves s _ _ _ (if-moves s th.rst c (tcp_send_ack c).0 here ack) (
      if-moves s th.rst _ _ (rw (state-enter_time_wait (freed_skb skb c)) o)
        (if-moves s th.syn _ _ here (if-moves s th.ack _ _ (ack_and_rest-moves c th skb) here)))

state-parse : (c : Conn) (th : Tcphdr) → (tcp_parse_opts c th).sk ≡ c.sk
unfolding tcp_parse_opts
state-parse c th = refl

established-moves : (c : Conn) (th : Tcphdr) → (enter_established c th).sk.state ≡ established
unfolding enter_established sock_connected
established-moves c th =
    let c2 = record c {
      sk = record c.sk { state = established };
      tcb = record c.tcb { snd_una = c.tcb.snd_nxt };
      backoff = 0;
      rto = 1000;
    } in
    let c3 = (tcp_send_ack c2).0 in
    ap (λ s. s.state)
      (state-parse (tcp_rearm_user_timeout c3) th ∙ sk-rearm_user c3 ∙ (send_ack_same c2).sk)

received-moves : (c : Conn) → (enter_syn_received c).sk.state ≡ syn_received
unfolding enter_syn_received
received-moves c =
    ap (λ s. s.state)
      (send_synack_same (record c {
        sk = record c.sk { state = syn_received };
        tcb = record c.tcb { snd_una = c.tcb.iss };
      })).sk

reset-moves : (c : Conn) → c.sk.state ≡ syn_sent → syn_sent ⟶* (tcp_reset c).sk.state
unfolding tcp_reset
reset-moves c e =
    let c1 = record c { sk = record c.sk { poll_events = poll_reset } } in
    subst (λ s. syn_sent ⟶* (reset_switch s c1).sk.state) (sym e)
      (rw (state-tcp_done (set_err econnrefused c1)) (one syn_refused))

opened :
    (s : TcpState) (c : Conn) (th : Tcphdr) (skb : SkBuff)
    → c.sk.state ≡ s
    → s ⟶* time_wait
    → s ⟶* (input_otherwise c th skb).sk.state
opened s c th skb e o =
    subst (λ t. t ⟶* (input_otherwise c th skb).sk.state) e
      (otherwise-moves c th skb (subst (λ t. t ⟶* time_wait) (sym e) o))

synsent-moves :
    (c : Conn) (th : Tcphdr) (skb : SkBuff)
    → c.sk.state ≡ syn_sent
    → syn_sent ⟶* (tcp_synsent c skb th).sk.state
unfolding tcp_synsent tcp_reset
synsent-moves c th skb e =
    let c1 = syn_taken c th in
    let stay : syn_sent ⟶* c.sk.state = same _ _ e in
    let reset : syn_sent ⟶* (tcp_reset c).sk.state = reset-moves c e in
    if-moves syn_sent _ _ _ stay (
      if-moves syn_sent th.rst _ _ reset (
        if-moves syn_sent th.syn _ _
          (if-moves syn_sent (ltb c1.tcb.iss c1.tcb.snd_una) (enter_established c1 th)
            (enter_syn_received c1) (rw (established-moves c1 th) (one syn_answered))
            (rw (received-moves c1) (one syn_crossed)))
          stay))

input_switch-moves :
    (s : TcpState) (c : Conn) (th : Tcphdr) (skb : SkBuff)
    → c.sk.state ≡ s
    → s ⟶* (input_switch s c th skb).sk.state
unfolding input_switch tcp_closed
input_switch-moves close c th skb e = same _ _ (ground (arith, state-send_reset c))
input_switch-moves listen c th skb e = rw e here
input_switch-moves syn_sent c th skb e = synsent-moves c th skb e
input_switch-moves time_wait c th skb e = opened time_wait c th skb e here
input_switch-moves syn_received c th skb e =
    opened syn_received c th skb e (one (broken received_open))
input_switch-moves established c th skb e =
    opened established c th skb e (one (broken established_open))
input_switch-moves fin_wait_1 c th skb e = opened fin_wait_1 c th skb e (one (broken fin_1_open))
input_switch-moves fin_wait_2 c th skb e = opened fin_wait_2 c th skb e (one (broken fin_2_open))
input_switch-moves close_wait c th skb e =
    opened close_wait c th skb e (one (broken close_wait_open))
input_switch-moves closing c th skb e = opened closing c th skb e (one (broken closing_open))
input_switch-moves last_ack c th skb e = opened last_ack c th skb e (one (broken last_ack_open))

-- Whatever segment arrives, the connection moves along arrows of the diagram, or stays.
pub tcp_input_state-moves :
    (c : Conn) (th : Tcphdr) (skb : SkBuff) → c.sk.state ⟶* (tcp_input_state c th skb).sk.state
unfolding tcp_input_state
tcp_input_state-moves c th skb = input_switch-moves c.sk.state c th skb refl

-- The states before ESTABLISHED.
abbrev pub is_before : TcpState → Bool
is_before syn_sent = true
is_before syn_received = true
is_before established = true
is_before _ = false

back-edge : {s t : TcpState} → s ⟶ t → is_before t ≡ true → is_before s ≡ true
back-edge syn_answered h = refl
back-edge syn_crossed h = refl
back-edge syn_refused h = refl
back-edge syn_acked h = refl
back-edge peer_closed h = refl
back-edge fin_confirmed h = cc
back-edge both_closed h = cc
back-edge fin_and_ack h = cc
back-edge last_fin h = cc
back-edge closing_acked h = cc
back-edge ended h = cc
back-edge (broken o) h = cc

back-path : {s t : TcpState} → s ⟶* t → is_before t ≡ true → is_before s ≡ true
back-path here h = h
back-path (next r e) h = back-path r (back-edge e h)

-- No segment opens a connection again: one that is established after a segment was established,
-- or was opening by a SYN, before it.
pub never_reopens :
    (c : Conn) (th : Tcphdr) (skb : SkBuff)
    → (tcp_input_state c th skb).sk.state ≡ established
    → is_before c.sk.state ≡ true
never_reopens c th skb e = back-path (tcp_input_state-moves c th skb) (rw e refl)
