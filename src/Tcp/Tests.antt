-- ===== src/Tcp/Tests.antt =====
-- A connection with concrete queues, in the states that the theorems are about.
mod Calls
mod Input
use hf_ip.Packet.{Tcphdr}
use hf_ip.Prelude.{
  All, List, [], arith, false, if◌then◌else◌, inl, inr, length, none, replicate, true, ◌++◌, ◌-◌,
  ◌==◌, ◌||◌, ◌∷◌, ◌≡◌,
}
use hf_ip.Prelude.Int.{pos}
use hf_ip.SkBuff.{SkBuff, SkBuffHead, skb_queue_empty, zero_tcphdr}
use hf_ip.SkBuff.Queue.{IsCounted}
use hf_ip.Net.{Net, NetDev}
use hf_ip.Tcp.{Conn, TcpState, established, ss_connected}
use hf_ip.Tcp.Output.{tcp_send}
use hf_ip.Tcp.Output.Queued.{IsSegment, sent_text}
use hf_ip.Tcp.Output.Queue.{tcp_send-segments}
use hf_ip.Tcp.Data.{tcp_consume_ofo_queue, tcp_data_dequeue, tcp_data_insert_ordered}
use hf_ip.Tcp.Data.Round.{Whole, stream}
use hf_ip.Tcp.Data.Stream.{tcp_data_dequeue-stream}
use hf_ip.Tcp.Data.Order.{InOrder, has_seq, tcp_data_insert_ordered-InOrder}
use hf_ip.Tcp.Data.Deliver.{tcp_consume_ofo_queue-contiguous}
use hf_ip.Tcp.Acks.{tcp_clean_rto_queue}
use hf_ip.Tcp.Input.Acks.{Covered, StartsOpen, tcp_clean_rto_queue-unacked}

abbrev tap : NetDev
tap = record { addr = 0x0a000004; addr_len = 6; hwaddr = replicate 6 1; mtu = 1500 }

abbrev net : Net
net = record {
  routes = [];
  arp_cache = [];
  netdev = tap;
  loop = tap;
  tun_result = (λ len. pos len);
  sent = [];
}

abbrev pub no_buffers : SkBuffHead
no_buffers = record { head = []; qlen = 0 }

-- Buffers with the sequence numbers [100, 102), [102, 105) and [109, 110).
abbrev pub first : SkBuff
first = record {
  id = 1;
  refcnt = pos 1;
  protocol = 6;
  len = 2;
  dlen = 2;
  seq = 100;
  end_seq = 102;
  end = 56;
  offset = 54;
  iph_id = 0;
  th = zero_tcphdr;
  payload = 7 ∷ 8 ∷ [];
  text = 7 ∷ 8 ∷ [];
  bytes = [];
}

abbrev pub second : SkBuff
second = record first {
  id = 2;
  dlen = 3;
  seq = 102;
  end_seq = 105;
  payload = 9 ∷ 10 ∷ 11 ∷ [];
  text = 9 ∷ 10 ∷ 11 ∷ [];
}

abbrev pub third : SkBuff
third = record first {
  id = 3;
  dlen = 1;
  seq = 109;
  end_seq = 110;
  payload = 12 ∷ [];
  text = 12 ∷ [];
}

abbrev pub queue : SkBuffHead
queue = record { head = first ∷ second ∷ third ∷ []; qlen = 3 }

-- Established, with the three buffers in each of the queues.
abbrev pub conn : Conn
conn = record {
  sk = record {
    recv_sleeping = false;
    receive_queue = queue;
    write_queue = queue;
    protocol = 6;
    state = established;
    err = pos 0;
    poll_events = 0;
    sport = 40000;
    dport = 80;
    saddr = 0x0a000004;
    daddr = 0x0a000005;
  };
  sock = record {
    fd = 5;
    pid = 1;
    refcnt = pos 1;
    state = ss_connected;
    flags = 2048;
    sleeping = false;
  };
  tcp_header_len = 20;
  tcb = record {
    snd_una = 100;
    snd_nxt = 110;
    snd_wnd = 0;
    snd_up = 100;
    snd_wl1 = 0;
    snd_wl2 = 0;
    iss = 99;
    rcv_nxt = 100;
    rcv_wnd = 44477;
    rcv_up = 0;
    irs = 99;
  };
  flags = 0;
  backoff = 0;
  srtt = 100;
  rttvar = 50;
  rto = 300;
  retransmit = none;
  delack = none;
  keepalive = none;
  linger = none;
  delacks = 0;
  rmss = 1460;
  smss = 536;
  cwnd = 0;
  inflight = 3;
  sackok = false;
  sacks_allowed = 0;
  sacklen = 0;
  sacks = replicate 4 (record { left = 0; right = 0 });
  tsopt = false;
  ofo_queue = queue;
  timers = record { timers = []; tick = 1000; fresh = 1 };
  net = net;
  freed = [];
  next_skb = 4;
  out = [];
}

abbrev pub in_state : TcpState → Conn
in_state s = record conn { sk = record conn.sk { state = s } }

-- An acknowledgment of the first buffer.
abbrev ack_first : Tcphdr
ack_first = record zero_tcphdr { ack = true; seq = 100; ack_seq = 102; hl = 5 }

abbrev pub late_segment : Tcphdr
late_segment = record ack_first { seq = 99 }

pub queue-IsCounted : IsCounted queue
queue-IsCounted = omega arith

pub queue-Whole : Whole queue.head
queue-Whole = omega arith

-- A read of three bytes goes across two buffers.
tcp_data_dequeue-stream_example :
    let (c', bytes) = tcp_data_dequeue 3 conn in
    (bytes ≡ 7 ∷ 8 ∷ 9 ∷ [])
    × (stream c'.sk.receive_queue.head ≡ 10 ∷ 11 ∷ 12 ∷ [])
    × IsCounted c'.sk.receive_queue
    × Whole c'.sk.receive_queue.head
tcp_data_dequeue-stream_example = tcp_data_dequeue-stream 3 conn queue-IsCounted queue-Whole

-- Two bytes an MSS make two buffers of three bytes.
tcp_send-segments_example :
    let c = record conn { smss = 2 } in
    let (c', rc) = tcp_send c (20 ∷ 21 ∷ 22 ∷ []) in
    (new : List SkBuff) × (c'.sk.write_queue.head ≡ queue.head ++ new)
    × (sent_text new ≡ 20 ∷ 21 ∷ 22 ∷ [])
    × All (IsSegment 2) new
    × (rc ≡ pos 3)
tcp_send-segments_example =
    tcp_send-segments (record conn { smss = 2 }) (20 ∷ 21 ∷ 22 ∷ []) (omega arith)

tcp_clean_rto_queue-unacked_example :
    let c' = tcp_clean_rto_queue 105 conn in
    ((gone : List SkBuff) × (queue.head ≡ gone ++ c'.sk.write_queue.head)
      × All (Covered 105) gone
      × StartsOpen 105 c'.sk.write_queue.head
      × (c'.inflight ≡ conn.inflight - length gone))
    × IsCounted c'.sk.write_queue
    × (c'.retransmit
        ≡ (if skb_queue_empty c'.sk.write_queue || c'.inflight == 0 then none else none))
tcp_clean_rto_queue-unacked_example = tcp_clean_rto_queue-unacked 105 conn queue-IsCounted

tcp_consume_ofo_queue-contiguous_example :
    let c' = tcp_consume_ofo_queue conn in
    (c'.sk.receive_queue.head ≡ queue.head ++ first ∷ second ∷ [])
    × (c'.ofo_queue.head ≡ third ∷ [])
tcp_consume_ofo_queue-contiguous_example = tcp_consume_ofo_queue-contiguous conn queue-IsCounted

-- A segment for the gap.
abbrev gap : SkBuff
gap = record first { id = 4; dlen = 4; seq = 105; end_seq = 109 }

tcp_data_insert_ordered-InOrder_example :
    let l = (tcp_data_insert_ordered queue gap).0.head in
    InOrder l × (has_seq 105 l ≡ true) × (length l ≡ 4)
tcp_data_insert_ordered-InOrder_example =
    tcp_data_insert_ordered-InOrder queue gap (omega arith)
      (inr (inr (omega arith)), (inr (inr (omega arith)), (inr (inl (omega arith)), tt)))
      (omega arith)
