-- ===== src/Tcp/Data.antt =====
-- src/tcp_data.c: the receive queue and the out-of-order queue.
pub mod Round
pub mod Order
pub mod Stream
pub mod Deliver
use hf_ip.Prelude.{
  Bool, List, [], bit_and, bit_or, drop, false, if◌then◌else◌, length, ltb, min, none, not, some,
  suc, take, true, zero, ℕ, ◌&&◌, ◌++◌, ◌+◌, ◌-◌, ◌==◌, ◌||◌, ◌∷◌,
}
use hf_ip.Prelude.Int.{dec, inc}
use hf_ip.Word.{u32}
use hf_ip.Packet.{flag}
use hf_ip.SkBuff.{
  SkBuff, SkBuffHead, free_skb, skb_dequeue, skb_peek, skb_queue_empty, skb_queue_tail,
}
use hf_ip.Tcp.{Conn, poll_readable, tcp_psh}
use hf_ip.Tcp.Lifecycle.{recv_notify}
use hf_ip.Tcp.Output.{tcp_send_ack}
use hf_ip.Tcp.Sack.{tcp_calculate_sacks}

abbrev pub held : SkBuff → SkBuff
held skb = record skb { refcnt = inc skb.refcnt }

-- The loop of `tcp_data_insert_ordered`: the queue, and whether the buffer was put into it.
unfoldable pub insert_loop : SkBuff → List SkBuff → List SkBuff × Bool
insert_loop skb [] = (held skb ∷ [], true)
insert_loop skb (next ∷ rest) =
    let (rest', added) = insert_loop skb rest in
    if ltb skb.seq next.seq
    then (if ltb next.seq skb.end_seq
        then (next ∷ rest', added)
        else (held skb ∷ next ∷ rest, true))
    else (if skb.seq == next.seq then (next ∷ rest, false) else (next ∷ rest', added))

-- The queue and the buffer with its references.
unfoldable pub tcp_data_insert_ordered : SkBuffHead → SkBuff → SkBuffHead × SkBuff
tcp_data_insert_ordered q skb =
    let (l, added) = insert_loop skb q.head in
    if added then (record { head = l; qlen = u32 (q.qlen + 1) }, held skb) else (q, skb)

-- One round of `tcp_consume_ofo_queue`.
unfoldable pub consume_one : Conn → SkBuff → Conn
consume_one c skb = record c {
  tcb = record c.tcb { rcv_nxt = u32 (c.tcb.rcv_nxt + skb.dlen) };
  ofo_queue = skb_dequeue c.ofo_queue;
  sk = record c.sk { receive_queue = skb_queue_tail c.sk.receive_queue skb };
}

unfoldable pub consume_loop : ℕ → Conn → Conn
consume_loop zero c = c
consume_loop (suc rounds) c = elim (skb_peek c.ofo_queue) [
  | none ↦ c
  | some skb ↦
      let rest = consume_loop rounds (consume_one c skb) in
      if c.tcb.rcv_nxt == skb.seq then rest else c
]

-- As many rounds as the queue has buffers are enough (`Deliver`).
unfoldable pub tcp_consume_ofo_queue : Conn → Conn
tcp_consume_ofo_queue c = consume_loop (length c.ofo_queue.head) c

abbrev pub set_readable : Conn → Conn
set_readable c = record c {
  sk = record c.sk { poll_events = bit_or c.sk.poll_events poll_readable };
}

-- The branch of `tcp_data_queue` for a segment at the left edge of the window.
unfoldable pub data_in_order : Conn → SkBuff → Conn
unfolding recv_notify
data_in_order c skb =
    let c1 = record c {
      tcb = record c.tcb { rcv_nxt = u32 (c.tcb.rcv_nxt + skb.dlen) };
      sk = record c.sk { receive_queue = skb_queue_tail c.sk.receive_queue (held skb) };
    } in
    recv_notify (set_readable (tcp_consume_ofo_queue c1))

-- The branch for any other.
unfoldable pub data_out_of_order : Conn → SkBuff → Conn × SkBuff
data_out_of_order c skb =
    let (q, skb') = tcp_data_insert_ordered c.ofo_queue skb in
    let c1 = record c { ofo_queue = q } in
    let c2 = if c.sackok then tcp_calculate_sacks c1 else c1 in ((tcp_send_ack c2).0, skb')

-- The state, and the buffer with its references, as the caller's pointer sees it.
unfoldable pub tcp_data_queue : Conn → SkBuff → Conn × SkBuff
tcp_data_queue c skb =
    if c.tcb.rcv_wnd == 0
    then (record c { freed = free_skb skb c.freed }, skb)
    else (if skb.seq == c.tcb.rcv_nxt
        then (data_in_order c skb, held skb)
        else data_out_of_order c skb)

-- The variables of the loop of `tcp_data_dequeue`: what is copied so far stands in `got`.
pub record Reading : Type 0 where
  pub queue : SkBuffHead
  pub got : List ℕ
  pub psh : Bool
  pub freed : List ℕ

-- One round: `dlen` bytes of the first buffer are copied, and a buffer that is used up goes.
unfoldable pub read_one : ℕ → SkBuff → Reading → Reading
read_one userlen skb r =
    let dlen = min skb.dlen (userlen - length r.got) in
    let left = record skb { dlen = skb.dlen - dlen; payload = drop dlen skb.payload } in
    let got = r.got ++ take dlen skb.payload in
    if left.dlen == 0
    then record {
      queue = skb_dequeue r.queue;
      got = got;
      psh = r.psh || skb.th.psh;
      freed = free_skb (record left { refcnt = dec skb.refcnt }) r.freed;
    }
    else record r { queue = record r.queue { head = left ∷ drop 1 r.queue.head }; got = got }

unfoldable pub read_loop : ℕ → ℕ → Reading → Reading
read_loop zero userlen r = r
read_loop (suc rounds) userlen r = elim (skb_peek r.queue) [
  | none ↦ r
  | some skb ↦
      let rest = read_loop rounds userlen (read_one userlen skb r) in
      if ltb (length r.got) userlen then rest else r
]

-- `flags & TCP_FIN` and `flags & TCP_PSH`.
abbrev pub has_fin : ℕ → Bool
has_fin flags = flag flags 1

abbrev pub has_psh : ℕ → Bool
has_psh flags = flag flags 8

-- The bytes that are copied to the user's buffer, and the state. One round for each buffer, and
-- one more for the last test, are enough (`Stream`).
unfoldable pub tcp_data_dequeue : ℕ → Conn → Conn × List ℕ
tcp_data_dequeue userlen c =
    let r =
      read_loop (suc (length c.sk.receive_queue.head)) userlen
        (record { queue = c.sk.receive_queue; got = []; psh = false; freed = c.freed }) in
    let flags = if r.psh then bit_or c.flags tcp_psh else c.flags in
    let events =
      if skb_queue_empty r.queue && not (has_fin flags)
      then bit_and c.sk.poll_events 0xfffe
      else c.sk.poll_events in
    (
      record c {
        sk = record c.sk { receive_queue = r.queue; poll_events = events };
        flags = flags;
        freed = r.freed;
      },
      r.got,
    )
