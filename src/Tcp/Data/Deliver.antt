-- ===== src/Tcp/Data/Deliver.antt =====
-- `tcp_consume_ofo_queue` of src/tcp_data.c: what becomes deliverable is delivered.
use hf_ip.Prelude.{
  Bool-cases, List, List-cases, [], ap, append-nil, append_assoc, arith, false, if◌then◌else◌, inl,
  inr, length, refl, suc, sym, true, zero, ℕ, ◌++◌, ◌+◌, ◌==◌, ◌∙◌, ◌∷◌, ◌≡◌, ◌≤◌,
}
use hf_ip.Word.{u32}
use hf_ip.SkBuff.{SkBuff, skb_queue_tail}
use hf_ip.SkBuff.Queue.{IsCounted, skb_dequeue-IsCounted, skb_peek-IsCounted}
use hf_ip.Tcp.{Conn}
use hf_ip.Tcp.Data.{consume_loop, consume_one, tcp_consume_ofo_queue}

-- The buffers that continue the stream from the sequence number `next` without a gap, and those
-- behind the first gap.
abbrev contiguous : ℕ → List SkBuff → List SkBuff
contiguous next [] = []
contiguous next (skb ∷ rest) =
    let run = contiguous (u32 (next + skb.dlen)) rest in if next == skb.seq then skb ∷ run else []

abbrev behind_gap : ℕ → List SkBuff → List SkBuff
behind_gap next [] = []
behind_gap next (skb ∷ rest) =
    let more = behind_gap (u32 (next + skb.dlen)) rest in
    if next == skb.seq then more else skb ∷ rest

-- What the loop leaves.
record Delivered (c c' : Conn) : Type 0 where
  received :
      c'.sk.receive_queue.head
      ≡ c.sk.receive_queue.head ++ contiguous c.tcb.rcv_nxt c.ofo_queue.head
  kept : c'.ofo_queue.head ≡ behind_gap c.tcb.rcv_nxt c.ofo_queue.head
  counted : IsCounted c'.ofo_queue

pub consume_loop-stops :
    (rounds : ℕ) (c : Conn)
    → IsCounted c.ofo_queue
    → c.ofo_queue.head ≡ []
    → consume_loop rounds c ≡ c
unfolding consume_loop
consume_loop-stops zero c k e = refl
consume_loop-stops (suc rounds) c k e = ground (arith, skb_peek-IsCounted c.ofo_queue k)

pub consume_loop-gap :
    (rounds : ℕ) (c : Conn) (skb : SkBuff) (rest : List SkBuff)
    → IsCounted c.ofo_queue
    → c.ofo_queue.head ≡ skb ∷ rest
    → (c.tcb.rcv_nxt == skb.seq) ≡ false
    → consume_loop rounds c ≡ c
unfolding consume_loop
consume_loop-gap zero c skb rest k e h = refl
consume_loop-gap (suc rounds) c skb rest k e h = ground (arith, skb_peek-IsCounted c.ofo_queue k)

pub consume_loop-next :
    (rounds : ℕ) (c : Conn) (skb : SkBuff) (rest : List SkBuff)
    → IsCounted c.ofo_queue
    → c.ofo_queue.head ≡ skb ∷ rest
    → (c.tcb.rcv_nxt == skb.seq) ≡ true
    → consume_loop (suc rounds) c ≡ consume_loop rounds (consume_one c skb)
unfolding consume_loop
consume_loop-next rounds c skb rest k e h = ground (arith, skb_peek-IsCounted c.ofo_queue k)

pub consume_one-queues :
    (c : Conn) (skb : SkBuff) (rest : List SkBuff)
    → IsCounted c.ofo_queue
    → c.ofo_queue.head ≡ skb ∷ rest
    → let c1 = consume_one c skb in
      (c1.sk.receive_queue.head ≡ c.sk.receive_queue.head ++ skb ∷ [])
      × (c1.ofo_queue.head ≡ rest)
      × IsCounted c1.ofo_queue
      × (c1.tcb.rcv_nxt ≡ u32 (c.tcb.rcv_nxt + skb.dlen))
unfolding consume_one skb_queue_tail
consume_one-queues c skb rest k e =
    let (k1, e1) = skb_dequeue-IsCounted c.ofo_queue skb rest k e in (refl, e1, k1, refl)

then-Delivered :
    (c c1 c' : Conn) (skb : SkBuff) (rest : List SkBuff)
    → c.ofo_queue.head ≡ skb ∷ rest
    → (c.tcb.rcv_nxt == skb.seq) ≡ true
    → c1.sk.receive_queue.head ≡ c.sk.receive_queue.head ++ skb ∷ []
    → c1.ofo_queue.head ≡ rest
    → c1.tcb.rcv_nxt ≡ u32 (c.tcb.rcv_nxt + skb.dlen)
    → Delivered c1 c'
    → Delivered c c'
then-Delivered c c1 c' skb rest e h q e1 n d = record {
  received =
      d.received
      ∙ rw (e, q, e1, n, h)
          (append_assoc c.sk.receive_queue.head (skb ∷ [])
            (contiguous (u32 (c.tcb.rcv_nxt + skb.dlen)) rest));
  kept = d.kept ∙ rw (e, e1, n, h) refl;
  counted = d.counted;
}

Delivered-none : (c : Conn) → IsCounted c.ofo_queue → c.ofo_queue.head ≡ [] → Delivered c c
Delivered-none c k e = record {
  received = rw e (sym (append-nil c.sk.receive_queue.head));
  kept = rw e refl;
  counted = k;
}

Delivered-gap :
    (c : Conn) (skb : SkBuff) (rest : List SkBuff)
    → IsCounted c.ofo_queue
    → c.ofo_queue.head ≡ skb ∷ rest
    → (c.tcb.rcv_nxt == skb.seq) ≡ false
    → Delivered c c
Delivered-gap c skb rest k e h = record {
  received = rw (e, h) (sym (append-nil c.sk.receive_queue.head));
  kept = rw (e, h) refl;
  counted = k;
}

consume_loop-Delivered :
    (rounds : ℕ) (c : Conn)
    → IsCounted c.ofo_queue
    → length c.ofo_queue.head ≤ rounds
    → Delivered c (consume_loop rounds c)
consume_loop-Delivered zero c k h =
    let e : c.ofo_queue.head ≡ [] = ground arith in
    rw (consume_loop-stops 0 c k e) (Delivered-none c k e)
consume_loop-Delivered (suc rounds) c k h = elim (List-cases c.ofo_queue.head) [
  | inl e ↦ rw (consume_loop-stops (suc rounds) c k e) (Delivered-none c k e)
  | inr (skb, rest, e) ↦ elim (Bool-cases (c.tcb.rcv_nxt == skb.seq)) [
    | inr gap ↦
        rw (consume_loop-gap (suc rounds) c skb rest k e gap) (Delivered-gap c skb rest k e gap)
    | inl next ↦
        let (q, e1, k1, n) = consume_one-queues c skb rest k e in
        rw (consume_loop-next rounds c skb rest k e next) (
          then-Delivered c (consume_one c skb) _ skb rest e next q e1 n (
            consume_loop-Delivered rounds (consume_one c skb) k1
              (omega (arith, ap length e, ap length e1))))
  ]
]

-- If the out-of-order queue is counted, exactly its buffers that continue the stream from the next
-- expected number without a gap go to the end of the receive queue, in order, and exactly those
-- behind the first gap stay. So the loop over the queue has not stopped early.
pub tcp_consume_ofo_queue-contiguous :
    (c : Conn)
    → IsCounted c.ofo_queue
    → let c' = tcp_consume_ofo_queue c in
      (c'.sk.receive_queue.head
        ≡ c.sk.receive_queue.head ++ contiguous c.tcb.rcv_nxt c.ofo_queue.head)
      × (c'.ofo_queue.head ≡ behind_gap c.tcb.rcv_nxt c.ofo_queue.head)
unfolding tcp_consume_ofo_queue
tcp_consume_ofo_queue-contiguous c k =
    let d = consume_loop-Delivered (length c.ofo_queue.head) c k (omega arith) in
    (d.received, d.kept)
