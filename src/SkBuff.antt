-- ===== src/SkBuff.antt =====
-- src/skbuff.c and include/skbuff.h: the packet buffers and their queues.
-- `head` is offset 0 of the buffer, and `data` and `end` are offsets from it. `bytes` is the
-- memory [data, data + len) of an outgoing buffer from the last header on; `text` is the memory
-- [end - dlen, end) of an outgoing one, and `payload` the memory from that pointer on in a
-- received one. `iph_id` is the identification of the IP header in the buffer. A queue is a
-- sequence by the theorems of ListHead.
pub mod Bounds
pub mod Queue
use hf_ip.Prelude.{
  Bool, List, Option, [], drop, false, if◌then◌else◌, ltb, none, some, suc, zero, ℕ, ◌++◌, ◌+◌, ◌-◌,
  ◌∷◌,
}
use hf_ip.Prelude.Int.{dec, is_below_one, pos, ℤ}
use hf_ip.Word.{u32}
use hf_ip.Packet.{Tcphdr}

pub record SkBuff : Type 0 where
  pub id : ℕ
  pub refcnt : ℤ
  pub protocol : ℕ
  pub len : ℕ
  pub dlen : ℕ
  pub seq : ℕ
  pub end_seq : ℕ
  pub end : ℕ
  pub offset : ℕ
  pub iph_id : ℕ
  pub th : Tcphdr
  pub payload : List ℕ
  pub text : List ℕ
  pub bytes : List ℕ

abbrev pub zero_tcphdr : Tcphdr
zero_tcphdr = record {
  sport = 0;
  dport = 0;
  seq = 0;
  ack_seq = 0;
  rsvd = 0;
  hl = 0;
  fin = false;
  syn = false;
  rst = false;
  psh = false;
  ack = false;
  urg = false;
  ece = false;
  cwr = false;
  win = 0;
  csum = 0;
  urp = 0;
  body = [];
}

-- `alloc_skb`: everything is zero, `data` is `head`. The address is the next of `malloc`.
unfoldable pub alloc_skb : ℕ → ℕ → SkBuff
alloc_skb id size = record {
  id = id;
  refcnt = pos 0;
  protocol = 0;
  len = 0;
  dlen = 0;
  seq = 0;
  end_seq = 0;
  end = size;
  offset = 0;
  iph_id = 0;
  th = zero_tcphdr;
  payload = [];
  text = [];
  bytes = [];
}

abbrev pub skb_head : SkBuff → ℕ
skb_head skb = 0

-- `free_skb`: the log of freed addresses grows if no reference is left.
unfoldable pub free_skb : SkBuff → List ℕ → List ℕ
free_skb skb freed = if is_below_one skb.refcnt then skb.id ∷ freed else freed

unfoldable pub skb_reserve : ℕ → SkBuff → SkBuff
skb_reserve len skb = record skb { offset = skb.offset + len }

-- `data -= len` on a pointer, here an offset in the buffer (a push past its start, an error of the
-- caller, stops at 0).
unfoldable pub skb_push : ℕ → SkBuff → SkBuff
skb_push len skb = record skb { offset = skb.offset - len; len = u32 (skb.len + len) }

unfoldable pub skb_reset_header : SkBuff → SkBuff
skb_reset_header skb = record skb { offset = skb.end - skb.dlen; len = skb.dlen }

-- `struct sk_buff_head`
pub record SkBuffHead : Type 0 where
  pub head : List SkBuff
  pub qlen : ℕ

unfoldable pub skb_queue_init : SkBuffHead
skb_queue_init = record { head = []; qlen = 0 }

unfoldable pub skb_queue_len : SkBuffHead → ℕ
skb_queue_len q = q.qlen

unfoldable pub skb_queue_tail : SkBuffHead → SkBuff → SkBuffHead
skb_queue_tail q new = record { head = q.head ++ new ∷ []; qlen = u32 (q.qlen + 1) }

-- `skb_queue_add` on a queue of the buffers `xs` and `ys`; `next` is the first of `ys`, or the head.
abbrev pub skb_queue_add : List SkBuff → SkBuff → List SkBuff → ℕ → SkBuffHead
skb_queue_add xs new ys qlen = record { head = xs ++ new ∷ ys; qlen = u32 (qlen + 1) }

unfoldable pub skb_queue_empty : SkBuffHead → Bool
unfolding skb_queue_len
skb_queue_empty q = ltb (skb_queue_len q) 1

-- `list_first_entry`; `none` stands for what the macro reads from an empty list.
abbrev pub first_entry : List SkBuff → Option SkBuff
first_entry [] = none
first_entry (skb ∷ rest) = some skb

unfoldable pub skb_peek : SkBuffHead → Option SkBuff
unfolding skb_queue_empty
skb_peek q = if skb_queue_empty q then none else first_entry q.head

-- `skb_dequeue` is called on a queue that `skb_peek` has found not empty.
unfoldable pub skb_dequeue : SkBuffHead → SkBuffHead
skb_dequeue q = record { head = drop 1 q.head; qlen = u32 (q.qlen + 4294967295) }

-- The loop of `skb_queue_free`, with the rounds allowed; it returns the queue and the freed
-- addresses.
unfoldable pub skb_queue_free : ℕ → SkBuffHead → List ℕ → SkBuffHead × List ℕ
skb_queue_free zero q freed = (q, freed)
skb_queue_free (suc rounds) q freed = elim (skb_peek q) [
  | none ↦ (q, freed)
  | some skb ↦
      skb_queue_free rounds (skb_dequeue q)
        (free_skb (record skb { refcnt = dec skb.refcnt }) freed)
]
