-- ===== src/Tcp/Flow/Tests.antt =====
-- A sender's five bytes from the number 500 on: the last two arrive first.
use hf_ip.Prelude.{List, [], arith, inl, inr, length, refl, some, take, true, ℕ, ◌+◌, ◌∷◌, ◌≡◌, ◌≤◌}
use hf_ip.Prelude.Int.{pos}
use hf_ip.Packet.{Tcphdr}
use hf_ip.SkBuff.{
  SkBuff, free_skb, skb_dequeue, skb_peek, skb_queue_empty, skb_queue_init, skb_queue_len,
  skb_queue_tail, zero_tcphdr,
}
use hf_ip.Tcp.{Conn, close_wait, tcp_set_state}
use hf_ip.Tcp.Lifecycle.{recv_notify, tcp_stop_delack_timer}
use hf_ip.Tcp.Acks.{tcp_verify_segment}
use hf_ip.Tcp.Data.{
  consume_loop, consume_one, data_in_order, data_out_of_order, has_fin, insert_loop, read_loop,
  read_one, tcp_consume_ofo_queue, tcp_data_dequeue, tcp_data_insert_ordered, tcp_data_queue,
}
use hf_ip.Tcp.Data.Round.{stream}
use hf_ip.Tcp.Input.{
  ack_and_rest, ack_established, ack_now, ack_or_delay, ack_stage, ack_switch, delay_ack,
  empty_stage, fin_acked, fin_acked_switch, fin_received, fin_switch, fin_transition,
  input_otherwise, input_switch, tcp_input_state, text_and_fin, text_stage,
}
use hf_ip.Tcp.User.{Received, tcp_read}
use hf_ip.Tcp.Output.{send_once, tcp_send_ack, tcp_transmit_skb}
use hf_ip.Tcp.Calm.{phase}
use hf_ip.Tcp.Flow.{Room}
use hf_ip.Tcp.Flow.Fin.{Segment}
use hf_ip.Tcp.Flow.History.{Fresh, Run, dequeue, here, run-in_order, segment}
use hf_ip.Tcp.Flow.Reads.{tcp_read-end}
use hf_ip.Tcp.Tests.{conn, first, no_buffers}

abbrev opened : Conn
opened = record conn {
  sk = record conn.sk { receive_queue = no_buffers; write_queue = no_buffers };
  ofo_queue = no_buffers;
  tcb = record conn.tcb { rcv_nxt = 500 };
}

abbrev sent : List ℕ
sent = 7 ∷ 8 ∷ 9 ∷ 10 ∷ 11 ∷ []

abbrev head_skb : SkBuff
head_skb = record first { seq = 500; end_seq = 503; dlen = 3; payload = 7 ∷ 8 ∷ 9 ∷ 0 ∷ [] }

abbrev tail_skb : SkBuff
tail_skb = record first { seq = 503; end_seq = 505; dlen = 2; payload = 10 ∷ 11 ∷ [] }

abbrev ack_header : Tcphdr
ack_header = record zero_tcphdr { ack = true; ack_seq = conn.tcb.snd_una }

abbrev tail_header : Tcphdr
tail_header = record ack_header { seq = 503 }

abbrev head_header : Tcphdr
head_header = record ack_header { seq = 500; psh = true }

abbrev fin_header : Tcphdr
fin_header = record ack_header { seq = 505; fin = true }

abbrev fin_skb : SkBuff
fin_skb = record first { seq = 505; end_seq = 505; dlen = 0; payload = [] }

abbrev got_tail : Conn
got_tail = tcp_input_state opened tail_header tail_skb

got_tail-Room : length got_tail.sk.receive_queue.head + length got_tail.ofo_queue.head ≡ 1
unfolding tcp_input_state input_switch input_otherwise ack_and_rest ack_stage ack_switch
    tcp_verify_segment ack_established empty_stage skb_queue_empty fin_acked text_and_fin text_stage
    tcp_data_queue data_out_of_order tcp_send_ack send_once tcp_transmit_skb tcp_data_insert_ordered
    insert_loop
got_tail-Room = refl

opened-Fresh : Fresh 500 opened
unfolding skb_queue_init
opened-Fresh = record { receive = refl; ofo = refl; next = refl; early = inr refl }

tail-Segment : Segment sent 500 tail_header tail_skb
tail-Segment = record {
  piece = record {
    whole = omega arith;
    place = inr (record { starts = omega arith; ends = omega arith; text = refl });
  };
  last = λ e. absurd (ground arith);
}

head-Segment : Segment sent 500 head_header head_skb
head-Segment = record {
  piece = record {
    whole = omega arith;
    place = inr (record { starts = omega arith; ends = omega arith; text = refl });
  };
  last = λ e. absurd (ground arith);
}

fin-Segment : Segment sent 500 fin_header fin_skb
fin-Segment = record { piece = record { whole = omega arith; place = inl refl }; last = λ e. refl }

abbrev got_all : Conn
got_all = tcp_input_state got_tail head_header head_skb

both : Run sent 500 opened [] got_all
both =
    segment head_header head_skb (omega (arith, got_tail-Room)) head-Segment
      (segment tail_header tail_skb (omega arith) tail-Segment here)

run-in_order_example :
    (n : ℕ) × (stream got_all.sk.receive_queue.head ≡ take n sent)
    × (n ≤ 5)
    × (phase got_all.sk.state ≤ 2 → got_all.tcb.rcv_nxt ≡ 500 + n)
run-in_order_example = run-in_order sent 500 opened opened-Fresh (omega arith) [] got_all both

abbrev got_end : Conn
got_end = tcp_input_state (tcp_data_dequeue 5 got_all).0 fin_header fin_skb

abbrev read_all : List ℕ
read_all = (tcp_data_dequeue 5 got_all).1

dequeued-length :
    let d = (tcp_data_dequeue 5 got_all).0 in
    length d.sk.receive_queue.head + length d.ofo_queue.head ≡ 0
unfolding tcp_input_state input_switch input_otherwise ack_and_rest ack_stage ack_switch
    tcp_verify_segment ack_established empty_stage skb_queue_empty fin_acked fin_acked_switch
    text_and_fin text_stage tcp_data_queue data_out_of_order tcp_send_ack send_once tcp_transmit_skb
    tcp_data_insert_ordered insert_loop data_in_order tcp_consume_ofo_queue consume_loop consume_one
    skb_peek skb_queue_tail skb_dequeue recv_notify ack_or_delay ack_now delay_ack
    tcp_stop_delack_timer skb_queue_len tcp_data_dequeue read_loop read_one free_skb fin_received
    fin_transition fin_switch tcp_set_state
dequeued-length = refl

dequeued-Room : Room (tcp_data_dequeue 5 got_all).0
dequeued-Room = omega (arith, dequeued-length)

ended : Run sent 500 opened read_all got_end
ended = segment fin_header fin_skb dequeued-Room fin-Segment (dequeue 5 both)

got_end-values :
    (got_end.sk.state ≡ close_wait)
    × (skb_queue_empty got_end.sk.receive_queue ≡ true)
    × (has_fin got_end.flags ≡ true)
unfolding tcp_input_state input_switch input_otherwise ack_and_rest ack_stage ack_switch
    tcp_verify_segment ack_established empty_stage skb_queue_empty fin_acked fin_acked_switch
    text_and_fin text_stage tcp_data_queue data_out_of_order tcp_send_ack send_once tcp_transmit_skb
    tcp_data_insert_ordered insert_loop data_in_order tcp_consume_ofo_queue consume_loop consume_one
    skb_peek skb_queue_tail skb_dequeue recv_notify ack_or_delay ack_now delay_ack
    tcp_stop_delack_timer skb_queue_len tcp_data_dequeue read_loop read_one free_skb fin_received
    fin_transition fin_switch tcp_set_state
got_end-values = (refl, refl, refl)

tcp_read-end_example :
    (r : Received) × (tcp_read 1 (λ k c. c) 4 got_end ≡ some r)
    × (r.rlen ≡ pos 0)
    × (r.bytes ≡ [])
    × (read_all ≡ sent)
tcp_read-end_example =
    tcp_read-end sent 500 opened opened-Fresh (omega arith) read_all got_end (λ k c. c) 1 4 ended
      got_end-values.0 got_end-values.1 got_end-values.2
