-- ===== src/Sockets/Steady/Stages.antt =====
-- `tcp_data_queue` of src/tcp_data.c leaves the socket of the connection as it is.
use hf_ip.Prelude.{
  Option-cases, arith, if◌then◌else◌, inl, inr, length, refl, suc, zero, ℕ, ◌+◌, ◌==◌, ◌∙◌, ◌≡◌,
}
use hf_ip.Word.{u32}
use hf_ip.SkBuff.{SkBuff, skb_peek, skb_queue_tail}
use hf_ip.Tcp.{Conn}
use hf_ip.Tcp.Sack.{tcp_calculate_sacks}
use hf_ip.Tcp.Acks.{freed_skb}
use hf_ip.Tcp.Data.{
  consume_loop, consume_one, data_in_order, data_out_of_order, held, tcp_consume_ofo_queue,
  tcp_data_insert_ordered, tcp_data_queue,
}
use hf_ip.Tcp.Frame.{send_ack_same}
use hf_ip.Sockets.Steady.{first-if, sock-if}

sock-consume_loop : (rounds : ℕ) (c : Conn) → (consume_loop rounds c).sock ≡ c.sock
unfolding consume_loop consume_one
sock-consume_loop zero c = refl
sock-consume_loop (suc rounds) c = elim (Option-cases (skb_peek c.ofo_queue)) [
  | inl e ↦ ground arith
  | inr (skb, e) ↦ ground (arith, sock-consume_loop rounds (consume_one c skb))
]

sock-in_order : (c : Conn) (skb : SkBuff) → (data_in_order c skb).sock ≡ c.sock
unfolding data_in_order tcp_consume_ofo_queue
sock-in_order c skb = sock-consume_loop (length c.ofo_queue.head) (record c {
  tcb = record c.tcb { rcv_nxt = u32 (c.tcb.rcv_nxt + skb.dlen) };
  sk = record c.sk { receive_queue = skb_queue_tail c.sk.receive_queue (held skb) };
})

sock-out_of_order : (c : Conn) (skb : SkBuff) → (data_out_of_order c skb).0.sock ≡ c.sock
unfolding data_out_of_order tcp_calculate_sacks
sock-out_of_order c skb =
    let c1 = record c { ofo_queue = (tcp_data_insert_ordered c.ofo_queue skb).0 } in
    let c2 = if c.sackok then tcp_calculate_sacks c1 else c1 in
    (send_ack_same c2).sock ∙ sock-if c.sackok c (tcp_calculate_sacks c1) c1 refl refl

pub sock-data_queue : (c : Conn) (skb : SkBuff) → (tcp_data_queue c skb).0.sock ≡ c.sock
unfolding tcp_data_queue
sock-data_queue c skb =
    first-if (c.tcb.rcv_wnd == 0) c (freed_skb skb c, skb) _ refl
      (first-if (skb.seq == c.tcb.rcv_nxt) c (data_in_order c skb, held skb)
        (data_out_of_order c skb) (sock-in_order c skb) (sock-out_of_order c skb))
