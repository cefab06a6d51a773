-- ===== src/Tcp/Acks.antt =====
-- The first checks of src/tcp_input.c: acknowledged buffers, and the receive window.
use hf_ip.Prelude.{
  Bool, false, if◌then◌else◌, leb, length, ltb, none, not, some, suc, zero, ℕ, ◌&&◌, ◌+◌, ◌-◌, ◌==◌,
  ◌||◌,
}
use hf_ip.Prelude.Int.{dec}
use hf_ip.Word.{u32}
use hf_ip.Packet.{Tcphdr}
use hf_ip.SkBuff.{SkBuff, free_skb, skb_dequeue, skb_peek, skb_queue_empty}
use hf_ip.Tcp.{Conn}
use hf_ip.Tcp.Lifecycle.{tcp_stop_rto_timer}

-- `free_skb(skb)`, which is also `__tcp_drop`.
abbrev pub freed_skb : SkBuff → Conn → Conn
freed_skb skb c = record c { freed = free_skb skb c.freed }

abbrev pub tcp_discard : SkBuff → Conn → Conn
tcp_discard skb c = freed_skb skb c

abbrev pub tcp_listen : SkBuff → Conn → Conn
tcp_listen skb c = freed_skb skb c

-- `skb->seq > 0 && skb->end_seq <= una`
abbrev pub is_acked : ℕ → SkBuff → Bool
is_acked una skb = ltb 0 skb.seq && leb skb.end_seq una

-- One round of `tcp_clean_rto_queue`.
unfoldable pub clean_one : Conn → SkBuff → Conn
clean_one c skb = record c {
  sk = record c.sk { write_queue = skb_dequeue c.sk.write_queue };
  freed = free_skb (record skb { refcnt = dec skb.refcnt }) c.freed;
  inflight = c.inflight - 1;
}

unfoldable pub clean_loop : ℕ → ℕ → Conn → Conn
clean_loop zero una c = c
clean_loop (suc rounds) una c = elim (skb_peek c.sk.write_queue) [
  | none ↦ c
  | some skb ↦
      let rest = clean_loop rounds una (clean_one c skb) in if is_acked una skb then rest else c
]

-- As many rounds as the queue has buffers are enough (`Acks`). The test behind the loop is that
-- of its last `skb_peek`.
unfoldable pub tcp_clean_rto_queue : ℕ → Conn → Conn
tcp_clean_rto_queue una c =
    let c1 = clean_loop (length c.sk.write_queue.head) una c in
    if skb_queue_empty c1.sk.write_queue || c1.inflight == 0 then tcp_stop_rto_timer c1 else c1

unfoldable pub tcp_verify_segment : Conn → Tcphdr → SkBuff → Bool
tcp_verify_segment c th skb =
    if ltb 0 skb.dlen && c.tcb.rcv_wnd == 0
    then false
    else not (ltb th.seq c.tcb.rcv_nxt || ltb (u32 (c.tcb.rcv_nxt + c.tcb.rcv_wnd)) th.seq)
