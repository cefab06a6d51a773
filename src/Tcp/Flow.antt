-- ===== src/Tcp/Flow.antt =====
-- The bytes of one sender in the queues of a connection: what src/tcp_data.c keeps of them,

pub mod Fill
pub mod Text
pub mod Fin
pub mod Input
pub mod Arrive
pub mod Dequeue
pub mod History
pub mod Reads
pub mod Opening
mod Tests
use mathlib.Core.Path.{subst}
use hf_ip.Prelude.{
  All, List, ap, arith, drop, inl, inr, length, sym, take, ℕ, ◌++◌, ◌+◌, ◌-◌, ◌<◌, ◌∙◌, ◌≡◌, ◌≤◌,
  ◌⊎◌,
}
use hf_ip.SkBuff.{SkBuff, SkBuffHead, skb_queue_init}
use hf_ip.SkBuff.Queue.{IsCounted}
use hf_ip.Tcp.{Conn}
use hf_ip.Tcp.Calm.{Calm, Calm-IsCounted, Calm-pieces, phase}
use hf_ip.Tcp.Data.Round.{Whole, stream, text_of}

-- The text of a segment is that of the sender's bytes at its sequence number, where `base` is the
-- sequence number of the first byte.
pub record Located (sent : List ℕ) (base : ℕ) (skb : SkBuff) : Type 0 where
  pub starts : base ≤ skb.seq
  pub ends : skb.seq + skb.dlen ≤ base + length sent
  pub text : text_of skb ≡ take skb.dlen (drop (skb.seq - base) sent)

pub record Piece (sent : List ℕ) (base : ℕ) (skb : SkBuff) : Type 0 where
  pub whole : skb.dlen ≤ length skb.payload
  pub place : (skb.dlen ≡ 0) ⊎ Located sent base skb

-- The bytes that a reader has got and those queued for it are the first `count` of the sender's.
pub record Filled (sent : List ℕ) (base : ℕ) (got : List ℕ) (count : ℕ) (c : Conn) : Type 0 where
  pub text : got ++ stream c.sk.receive_queue.head ≡ take count sent
  pub bound : count ≤ length sent
  pub queue : IsCounted c.sk.receive_queue
  pub whole : Whole c.sk.receive_queue.head
  pub ofo : IsCounted c.ofo_queue
  pub pieces : All (Piece sent base) c.ofo_queue.head

-- Whether a connection has room for one more buffer in the counters of its queues.
abbrev pub Room : Conn → Type 0
Room c = length c.sk.receive_queue.head + length c.ofo_queue.head < 4294967295

-- The state of a connection that has lost and made up nothing: what it expects next is what is
-- behind the bytes it has, until it receives no more, and in CLOSE_WAIT it has all of them.
pub record Intact (sent : List ℕ) (base : ℕ) (got : List ℕ) (c : Conn) : Type 0 where
  pub count : ℕ
  pub filled : Filled sent base got count c
  pub synced : 1 ≤ phase c.sk.state
  pub next : (3 ≤ phase c.sk.state) ⊎ (c.tcb.rcv_nxt ≡ base + count)
  pub ended : phase c.sk.state ≡ 3 → count ≡ length sent

pub Filled-queues :
    (sent : List ℕ) (base : ℕ) (got : List ℕ) (n : ℕ) (c d : Conn)
    → d.sk.receive_queue ≡ c.sk.receive_queue
    → IsCounted d.ofo_queue
    → All (Piece sent base) d.ofo_queue.head
    → Filled sent base got n c
    → Filled sent base got n d
Filled-queues sent base got n c d q k p f = record {
  text = ap (λ (q : SkBuffHead). got ++ stream q.head) q ∙ f.text;
  bound = f.bound;
  queue = subst IsCounted (sym q) f.queue;
  whole = subst (λ (q : SkBuffHead). Whole q.head) (sym q) f.whole;
  ofo = k;
  pieces = p;
}

pub Calm-Filled :
    (sent : List ℕ) (base : ℕ) (got : List ℕ) (n : ℕ) (c d : Conn)
    → Calm c d
    → Filled sent base got n c
    → Filled sent base got n d
Calm-Filled sent base got n c d k f =
    Filled-queues sent base got n c d k.receive (Calm-IsCounted c d k f.ofo)
      (Calm-pieces (Piece sent base) c d k f.ofo f.pieces) f

pub Calm-Room : (c d : Conn) → Calm c d → IsCounted c.ofo_queue → Room c → Room d
unfolding skb_queue_init
Calm-Room c d k h room =
    let n = ap (λ (q : SkBuffHead). length q.head) k.receive in
    elim (k.ofo h) [
      | inl e ↦ omega (arith, n, ap (λ (q : SkBuffHead). length q.head) e)
      | inr e ↦ omega (arith, n, ap (λ (q : SkBuffHead). length q.head) e)
    ]

pub Calm-Intact :
    (sent : List ℕ) (base : ℕ) (got : List ℕ) (c d : Conn)
    → Calm c d
    → Intact sent base got c
    → Intact sent base got d
Calm-Intact sent base got c d k i = record {
  count = i.count;
  filled = Calm-Filled sent base got i.count c d k i.filled;
  synced = omega (arith, k.later, i.synced);
  next = elim i.next [ inl h ↦ inl (omega (arith, k.later)) | inr h ↦ inr (k.next ∙ h) ];
  ended = λ x. i.ended (k.waiting x);
}
