-- ===== src/Tcp/Frame/Later.antt =====
-- What the functions of src/tcp_data.c and the last steps of src/tcp_input.c leave as it is.
use hf_ip.Prelude.{
  Bool-cases, List, Option-cases, [], ap, arith, if◌then◌else◌, inl, inr, length, refl, suc, zero,
  ℕ, ◌+◌, ◌==◌, ◌∷◌, ◌≡◌,
}
use hf_ip.Word.{u32}
use hf_ip.Packet.{Tcphdr}
use hf_ip.Checksum.{c_min}
use hf_ip.SkBuff.{SkBuff, skb_peek, skb_queue_len, skb_queue_tail}
use hf_ip.Tcp.{Conn}
use hf_ip.Tcp.Lifecycle.{tcp_rearm_rto_timer, tcp_stop_delack_timer}
use hf_ip.Tcp.Output.{send_loop, send_one, tcp_send_next, tcp_transmit_skb}
use hf_ip.Tcp.Sack.{tcp_calculate_sacks}
use hf_ip.Tcp.Data.{
  consume_loop, consume_one, data_in_order, data_out_of_order, held, tcp_consume_ofo_queue,
  tcp_data_insert_ordered, tcp_data_queue,
}
use hf_ip.Tcp.Input.{ack_now, ack_or_delay, burst, count_large, delay_ack}
use hf_ip.Tcp.Frame.{send_ack_same}

state-consume_loop : (rounds : ℕ) (c : Conn) → (consume_loop rounds c).sk.state ≡ c.sk.state
unfolding consume_loop consume_one
state-consume_loop zero c = refl
state-consume_loop (suc rounds) c = elim (Option-cases (skb_peek c.ofo_queue)) [
  | inl e ↦ ground arith
  | inr (skb, e) ↦ ground (arith, state-consume_loop rounds (consume_one c skb))
]

state-in_order : (c : Conn) (skb : SkBuff) → (data_in_order c skb).sk.state ≡ c.sk.state
unfolding data_in_order tcp_consume_ofo_queue
state-in_order c skb = state-consume_loop (length c.ofo_queue.head) (record c {
  tcb = record c.tcb { rcv_nxt = u32 (c.tcb.rcv_nxt + skb.dlen) };
  sk = record c.sk { receive_queue = skb_queue_tail c.sk.receive_queue (held skb) };
})

sacks_same :
    (c : Conn) → ((tcp_calculate_sacks c).sk ≡ c.sk) × ((tcp_calculate_sacks c).tcb ≡ c.tcb)
unfolding tcp_calculate_sacks
sacks_same c = (refl, refl)

sk-out_of_order :
    (c : Conn) (skb : SkBuff)
    → ((data_out_of_order c skb).0.sk ≡ c.sk) × ((data_out_of_order c skb).0.tcb ≡ c.tcb)
unfolding data_out_of_order
sk-out_of_order c skb =
    let c1 = record c { ofo_queue = (tcp_data_insert_ordered c.ofo_queue skb).0 } in
    let c2 = if c.sackok then tcp_calculate_sacks c1 else c1 in
    ground (arith, send_ack_same c2, sacks_same c1)

pub state-data_queue : (c : Conn) (skb : SkBuff) → (tcp_data_queue c skb).0.sk.state ≡ c.sk.state
unfolding tcp_data_queue
state-data_queue c skb = elim (Bool-cases (c.tcb.rcv_wnd == 0)) [
  | inl shut ↦ rw shut refl
  | inr open_ ↦ elim (Bool-cases (skb.seq == c.tcb.rcv_nxt)) [
    | inl next ↦ rw (open_, next) (state-in_order c skb)
    | inr later ↦ rw (open_, later) (ap (λ s. s.state) (sk-out_of_order c skb).0)
  ]
]

state-send_loop : (amount : ℕ) (c : Conn) (l : List SkBuff) → (send_loop amount c l).0.sk ≡ c.sk
unfolding send_loop send_one tcp_transmit_skb
state-send_loop zero c l = refl
state-send_loop (suc amount) c [] = refl
state-send_loop (suc amount) c (next ∷ rest) = state-send_loop amount (send_one c next).0 rest

state-send_next : (c : Conn) (amount : ℕ) → (tcp_send_next c amount).sk.state ≡ c.sk.state
unfolding tcp_send_next
state-send_next c amount = ap (λ s. s.state) (state-send_loop amount c c.sk.write_queue.head)

state-stop_delack : (c : Conn) → (tcp_stop_delack_timer c).sk ≡ c.sk
unfolding tcp_stop_delack_timer
state-stop_delack c = refl

state-burst : (n : ℕ) (c : Conn) → (burst n c).sk.state ≡ c.sk.state
unfolding burst tcp_rearm_rto_timer
state-burst n c = state-send_next c n

sk-ack_now : (c : Conn) → (ack_now c).sk ≡ c.sk
unfolding ack_now
sk-ack_now c = (send_ack_same (record c { delacks = 0 })).sk

sk-delay_ack : (c : Conn) → (delay_ack c).sk ≡ c.sk
unfolding delay_ack
sk-delay_ack c = refl

pub state-ack_or_delay :
    (c : Conn) (th : Tcphdr) (skb : SkBuff) → (ack_or_delay c th skb).sk.state ≡ c.sk.state
unfolding ack_or_delay
state-ack_or_delay c th skb =
    let c1 = tcp_stop_delack_timer c in
    let c2 = count_large th skb c1 in
    ground (
      arith,
      state-stop_delack c,
      state-burst (c_min (skb_queue_len c1.sk.write_queue) 3) c1,
      sk-ack_now c2,
      sk-delay_ack c2,
    )
