-- ===== src/SkBuff/Queue.antt =====
-- The queue's counter is its number of buffers.
use hf_ip.Prelude.{
  List, List-cases, [], arith, inl, inr, length, suc, true, zero, ℕ, ◌<◌, ◌↔◌, ◌∷◌, ◌≡◌, ◌≤◌,
}
use hf_ip.Prelude.Int.{dec}
use hf_ip.SkBuff.{
  SkBuff, SkBuffHead, first_entry, free_skb, skb_dequeue, skb_peek, skb_queue_empty, skb_queue_free,
}

-- `qlen` counts, and fewer than 2^32 buffers are queued.
pub record IsCounted (q : SkBuffHead) : Type 0 where
  pub counts : q.qlen ≡ length q.head
  pub small : q.qlen < 4294967296

pub skb_queue_empty-IsCounted :
    (q : SkBuffHead) → IsCounted q → (skb_queue_empty q ≡ true) ↔ (q.head ≡ [])
unfolding skb_queue_empty
skb_queue_empty-IsCounted q c = ground arith

-- Peeking sees the first buffer, and nothing exactly in an empty queue.
pub skb_peek-IsCounted : (q : SkBuffHead) → IsCounted q → skb_peek q ≡ first_entry q.head
unfolding skb_peek
skb_peek-IsCounted q c = ground arith

pub skb_dequeue-IsCounted :
    (q : SkBuffHead) (skb : SkBuff) (rest : List SkBuff)
    → IsCounted q
    → q.head ≡ skb ∷ rest
    → IsCounted (skb_dequeue q) × ((skb_dequeue q).head ≡ rest)
unfolding skb_dequeue
skb_dequeue-IsCounted q skb rest c e = ground arith

-- `skb_queue_free` empties a counted queue, and its loop has ended within as many rounds as the
-- queue is long.
pub skb_queue_free-empty :
    (rounds : ℕ) (q : SkBuffHead) (freed : List ℕ)
    → IsCounted q
    → length q.head ≤ rounds
    → let q' = (skb_queue_free rounds q freed).0 in (q'.head ≡ []) × (q'.qlen ≡ 0)
unfolding skb_queue_free
skb_queue_free-empty zero q freed c h = ground arith
skb_queue_free-empty (suc rounds) q freed c h = elim (List-cases q.head) [
  | inl e ↦ ground (arith, skb_peek-IsCounted q c)
  | inr (s, rest, e) ↦ ground (
    arith,
    skb_peek-IsCounted q c,
    skb_dequeue-IsCounted q s rest c e,
    skb_queue_free-empty rounds (skb_dequeue q)
        (free_skb (record s { refcnt = dec s.refcnt }) freed),
  )
]
