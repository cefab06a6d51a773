-- ===== src/Tcp/Input/Arrows.antt =====
-- The diagram of states, and how the steps of src/tcp_input.c in the open states move along it.
use mathlib.Core.Path.{subst}
use hf_ip.Prelude.{
  Bool-cases, ap, arith, bit_or, if◌then◌else◌, inl, inr, leb, ltb, refl, ◌&&◌, ◌+◌, ◌==◌, ◌≡◌,
}
use hf_ip.Word.{u32}
use hf_ip.Packet.{Tcphdr}
use hf_ip.SkBuff.{SkBuff, skb_queue_empty}
use hf_ip.Tcp.{
  Conn, TcpState, close, close_wait, closing, established, fin_wait_1, fin_wait_2, last_ack, listen,
  syn_received, syn_sent, tcp_fin, tcp_set_state, time_wait,
}
use hf_ip.Tcp.Lifecycle.{recv_notify}
use hf_ip.Tcp.Output.{tcp_send_ack}
use hf_ip.Tcp.Data.{set_readable}
use hf_ip.Tcp.Rtt.{tcp_rtt}
use hf_ip.Tcp.Acks.{freed_skb}
use hf_ip.Tcp.Input.{
  Stage, ack_established, ack_or_delay, ack_switch, fin_acked_switch, fin_received, fin_switch,
  fin_transition, go_on, is_receiving, return, text_and_fin, text_stage,
}
use hf_ip.Tcp.Frame.Later.{state-ack_or_delay, state-data_queue}
use hf_ip.Tcp.Frame.{send_ack_same, sk-rtt, state-enter_time_wait, state-tcp_done, tcb-clean}

-- States in which sequence numbers are checked, and a RST leads to TIME_WAIT.
pub data IsOpen : TcpState → Type 0 where
  received_open : IsOpen syn_received
  established_open : IsOpen established
  fin_1_open : IsOpen fin_wait_1
  fin_2_open : IsOpen fin_wait_2
  close_wait_open : IsOpen close_wait
  closing_open : IsOpen closing
  last_ack_open : IsOpen last_ack

-- One arrow of the diagram. A connection that ends is in CLOSING.
infix 40 ◌⟶◌ ◌⟶*◌
pub data ◌⟶◌ : TcpState → TcpState → Type 0 where
  syn_answered : syn_sent ⟶ established
  syn_crossed : syn_sent ⟶ syn_received
  syn_refused : syn_sent ⟶ closing
  syn_acked : syn_received ⟶ established
  peer_closed : established ⟶ close_wait
  fin_confirmed : fin_wait_1 ⟶ fin_wait_2
  both_closed : fin_wait_1 ⟶ closing
  fin_and_ack : fin_wait_1 ⟶ time_wait
  last_fin : fin_wait_2 ⟶ time_wait
  closing_acked : closing ⟶ time_wait
  ended : last_ack ⟶ closing
  broken : {s : TcpState} → IsOpen s → s ⟶ time_wait

pub data ◌⟶*◌ : TcpState → TcpState → Type 0 where
  here : {s : TcpState} → s ⟶* s
  next : {s t u : TcpState} → s ⟶* t → t ⟶ u → s ⟶* u

pub join : {s t u : TcpState} → s ⟶* t → t ⟶* u → s ⟶* u
join r here = r
join r (next q e) = next (join r q) e

pub one : {s t : TcpState} → s ⟶ t → s ⟶* t
one e = next here e

pub same : (s t : TcpState) → t ≡ s → s ⟶* t
same s t e = rw e here

abbrev pub staged : Stage → Conn
staged (return c) = c
staged (go_on c) = c

state-ack_established :
    (c : Conn) (th : Tcphdr) (skb : SkBuff)
    → (staged (ack_established c th skb)).sk.state ≡ c.sk.state
unfolding ack_established
state-ack_established c th skb =
    let c1 = record c { tcb = record c.tcb { snd_una = th.ack_seq } } in
    ground (arith, tcb-clean th.ack_seq (tcp_rtt c1), sk-rtt c1)

pub ack_switch-moves :
    (s : TcpState) (c : Conn) (th : Tcphdr) (skb : SkBuff)
    → c.sk.state ≡ s
    → s ⟶* (staged (ack_switch s c th skb)).sk.state
unfolding ack_switch
ack_switch-moves time_wait c th skb e = rw e here
ack_switch-moves close c th skb e = rw e here
ack_switch-moves listen c th skb e = rw e here
ack_switch-moves syn_sent c th skb e = rw e here
ack_switch-moves syn_received c th skb e =
    elim (Bool-cases (leb c.tcb.snd_una th.ack_seq && ltb th.ack_seq c.tcb.snd_nxt)) [
      | inl fits ↦
          rw (fits, state-ack_established (tcp_set_state established c) th skb) (one syn_acked)
      | inr not_ ↦ rw (not_, e) here
    ]
ack_switch-moves s c th skb e = rw (state-ack_established c th skb, e) here

pub fin_acked_switch-moves :
    (s : TcpState) (c : Conn) (th : Tcphdr) (skb : SkBuff)
    → c.sk.state ≡ s
    → s ⟶* (staged (fin_acked_switch s c th skb)).sk.state
unfolding fin_acked_switch
fin_acked_switch-moves fin_wait_1 c th skb e = one fin_confirmed
fin_acked_switch-moves closing c th skb e = one closing_acked
fin_acked_switch-moves last_ack c th skb e = rw (state-tcp_done (freed_skb skb c)) (one ended)
fin_acked_switch-moves time_wait c th skb e =
    same time_wait _ (ground (arith, send_ack_same (record c { flags = bit_or c.flags tcp_fin })))
fin_acked_switch-moves s c th skb e = rw e here

fin_switch-moves : (s : TcpState) (c : Conn) → c.sk.state ≡ s → s ⟶* (fin_switch s c).sk.state
unfolding fin_switch
fin_switch-moves syn_received c e = join (one syn_acked) (one peer_closed)
fin_switch-moves established c e = one peer_closed
fin_switch-moves fin_wait_1 c e = elim (Bool-cases (skb_queue_empty c.sk.write_queue)) [
  | inl empty ↦ rw (empty, state-enter_time_wait c) (one fin_and_ack)
  | inr left ↦ rw left (one both_closed)
]
fin_switch-moves fin_wait_2 c e = rw (state-enter_time_wait c) (one last_fin)
fin_switch-moves s c e = rw e here

text-moves : (c : Conn) (th : Tcphdr) (skb : SkBuff) → (text_stage c th skb).0.sk.state ≡ c.sk.state
unfolding text_stage
text-moves c th skb = ground (arith, state-data_queue c skb)

fin_received-moves : (c : Conn) → c.sk.state ⟶* (fin_received c).sk.state
unfolding fin_received fin_transition recv_notify
fin_received-moves c =
    let c1 = set_readable (record c {
      tcb = record c.tcb { rcv_nxt = u32 (c.tcb.rcv_nxt + 1) };
      flags = bit_or c.flags tcp_fin;
    }) in
    let c2 = recv_notify (tcp_send_ack c1).0 in
    subst (λ s. s ⟶* (fin_switch c2.sk.state c2).sk.state) (ap (λ s. s.state) (send_ack_same c1).sk)
      (fin_switch-moves c2.sk.state c2 refl)

pub text_and_fin-moves :
    (c : Conn) (th : Tcphdr) (skb : SkBuff) → c.sk.state ⟶* (text_and_fin c th skb).sk.state
unfolding text_and_fin
text_and_fin-moves c th skb =
    let (c1, skb1) = text_stage c th skb in
    let expected = skb.seq == c.tcb.rcv_nxt in
    let c2 = if th.fin && expected then fin_received c1 else c1 in
    let last : c2.sk.state
        ⟶* (if is_receiving c2.sk.state && expected then ack_or_delay c2 th skb1 else c2).sk.state =
      same _ _ (ground (arith, state-ack_or_delay c2 th skb1)) in
    let fin : c1.sk.state ⟶* c2.sk.state = elim (Bool-cases (th.fin && expected)) [
      | inl yes_ ↦ rw yes_ (fin_received-moves c1)
      | inr no_ ↦ rw no_ here
    ] in
    join (same _ _ (text-moves c th skb)) (join fin last)
