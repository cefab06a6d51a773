-- ===== src/Tcp/Data/Order.antt =====
-- The out-of-order queue is kept in the order of sequence numbers, with no overlap.
use mathlib.Core.Path.{subst}
use hf_ip.Prelude.{
  All, Bool, Bool-cases, List, [], ap, arith, false, if◌then◌else◌, inl, inr, length, ltb, not,
  refl, suc, sym, true, ℕ, ◌++◌, ◌+◌, ◌<◌, ◌==◌, ◌||◌, ◌∙◌, ◌∷◌, ◌≡◌, ◌≤◌, ◌⊎◌,
}
use hf_ip.Word.{u32}
use hf_ip.SkBuff.{SkBuff, SkBuffHead, skb_queue_add}
use hf_ip.Tcp.Data.{held, insert_loop, tcp_data_insert_ordered}

-- `a` ends where `b` starts, or before.
abbrev Before : SkBuff → SkBuff → Type 0
Before a b = (a.seq < b.seq) × (a.end_seq ≤ b.seq)

abbrev pub InOrder : List SkBuff → Type 0
InOrder [] = Unit
InOrder (a ∷ l) = All (Before a) l × InOrder l

-- The segment is one of the queue's, or overlaps none of them.
abbrev Fits : SkBuff → List SkBuff → Type 0
Fits skb l = All (λ b. (skb.seq ≡ b.seq) ⊎ Before skb b ⊎ Before b skb) l

-- A segment with this sequence number is queued.
abbrev pub has_seq : ℕ → List SkBuff → Bool
has_seq seq [] = false
has_seq seq (b ∷ l) = (seq == b.seq) || has_seq seq l

insert-All :
    (a skb : SkBuff) (l : List SkBuff)
    → Before a skb
    → All (Before a) l
    → All (Before a) (insert_loop skb l).0
unfolding insert_loop
insert-All a skb [] p h = (p, tt)
insert-All a skb (b ∷ l) p h = ground (arith, insert-All a skb l p h.1)

Before-All :
    (skb b : SkBuff) (l : List SkBuff)
    → Before skb b
    → b.seq ≤ b.end_seq
    → All (Before b) l
    → All (Before skb) l
Before-All skb b [] p v h = tt
Before-All skb b (d ∷ l) p v h = (omega arith, Before-All skb b l p v h.1)

-- Sequence numbers do not wrap within a segment.
abbrev NoWrap : List SkBuff → Type 0
NoWrap l = All (λ b. b.seq ≤ b.end_seq) l

insert-InOrder :
    (skb : SkBuff) (l : List SkBuff)
    → NoWrap l
    → Fits skb l
    → InOrder l
    → InOrder (insert_loop skb l).0
unfolding insert_loop
insert-InOrder skb [] v f o = (tt, tt)
insert-InOrder skb (b ∷ l) v (inl e, f) o = ground arith
insert-InOrder skb (b ∷ l) v (inr (inl p), f) o = ground (arith, Before-All skb b l p v.0 o.0)
insert-InOrder skb (b ∷ l) v (inr (inr p), f) o =
    ground (arith, insert-All b skb l p o.0, insert-InOrder skb l v.1 f o.1)

Before-has_seq : (skb : SkBuff) (l : List SkBuff) → All (Before skb) l → has_seq skb.seq l ≡ false
Before-has_seq skb [] h = refl
Before-has_seq skb (b ∷ l) h = ground (arith, Before-has_seq skb l h.1)

-- Whether the loop has put the buffer into the queue.
insert-added :
    (skb : SkBuff) (l : List SkBuff)
    → NoWrap l
    → Fits skb l
    → InOrder l
    → (insert_loop skb l).1 ≡ not (has_seq skb.seq l)
unfolding insert_loop
insert-added skb [] v f o = refl
insert-added skb (b ∷ l) v (inl e, f) o = ground arith
insert-added skb (b ∷ l) v (inr (inl p), f) o =
    ground (arith, Before-has_seq skb l (Before-All skb b l p v.0 o.0))
insert-added skb (b ∷ l) v (inr (inr p), f) o = ground (arith, insert-added skb l v.1 f o.1)

insert-length :
    (skb : SkBuff) (l : List SkBuff)
    → length (insert_loop skb l).0 ≡ (if (insert_loop skb l).1 then suc (length l) else length l)
unfolding insert_loop
insert-length skb [] = refl
insert-length skb (b ∷ l) = ground (arith, insert-length skb l)

insert-has_seq :
    (skb : SkBuff) (l : List SkBuff)
    → NoWrap l
    → Fits skb l
    → InOrder l
    → has_seq skb.seq (insert_loop skb l).0 ≡ true
unfolding insert_loop
insert-has_seq skb [] v f o = ground arith
insert-has_seq skb (b ∷ l) v (inl e, f) o = ground arith
insert-has_seq skb (b ∷ l) v (inr (inl p), f) o = ground arith
insert-has_seq skb (b ∷ l) v (inr (inr p), f) o = ground (arith, insert-has_seq skb l v.1 f o.1)

insert-kept :
    (skb : SkBuff) (l : List SkBuff) → (insert_loop skb l).1 ≡ false → (insert_loop skb l).0 ≡ l
unfolding insert_loop
insert-kept skb [] h = cc
insert-kept skb (b ∷ l) h = ground (arith, insert-kept skb l)

-- If the out-of-order queue is in the order of sequence numbers with no overlap, and an arriving
-- segment is a copy of a queued one or overlaps none, then the queue stays in that order, the
-- segment's sequence number is in it, and it has grown by one buffer exactly if the number was not
-- in it before: a duplicate is not queued twice.
pub tcp_data_insert_ordered-InOrder :
    (q : SkBuffHead) (skb : SkBuff)
    → NoWrap q.head
    → Fits skb q.head
    → InOrder q.head
    → let l = (tcp_data_insert_ordered q skb).0.head in
      InOrder l
      × (has_seq skb.seq l ≡ true)
      × (length l ≡ (if has_seq skb.seq q.head then length q.head else suc (length q.head)))
unfolding tcp_data_insert_ordered
tcp_data_insert_ordered-InOrder q skb v f o =
    let x = insert-InOrder skb q.head v f o in
    let y = insert-has_seq skb q.head v f o in
    let z = insert-length skb q.head in
    let w = insert-added skb q.head v f o in
    elim (Bool-cases (insert_loop skb q.head).1) [
      | inl added ↦ rw added (x, y, ground arith)
      | inr same ↦
          let k = insert-kept skb q.head same in
          rw same (o, subst (λ l. has_seq skb.seq l ≡ true) k y, ground arith)
    ]

insert-cases :
    (skb b : SkBuff) (l : List SkBuff)
    → (insert_loop skb (b ∷ l) ≡ (held skb ∷ b ∷ l, true))
      ⊎ (insert_loop skb (b ∷ l) ≡ (b ∷ l, false))
      ⊎ (insert_loop skb (b ∷ l) ≡ (b ∷ (insert_loop skb l).0, (insert_loop skb l).1))
unfolding insert_loop
insert-cases skb b l = elim (Bool-cases (ltb skb.seq b.seq)) [
  | inl lower ↦ elim (Bool-cases (ltb b.seq skb.end_seq)) [
    | inl over ↦ rw (lower, over) (inr (inr refl))
    | inr apart ↦ rw (lower, apart) (inl refl)
  ]
  | inr upper ↦ elim (Bool-cases (skb.seq == b.seq)) [
    | inl equal ↦ rw (upper, equal) (inr (inl refl))
    | inr later ↦ rw (upper, later) (inr (inr refl))
  ]
]

-- The loop puts the buffer at one place of the queue and leaves the others in their order.
insert-splits :
    (skb : SkBuff) (l : List SkBuff)
    → (insert_loop skb l).1 ≡ true
    → (xs ys : List SkBuff) × (l ≡ xs ++ ys) × ((insert_loop skb l).0 ≡ xs ++ held skb ∷ ys)
insert-splits skb [] h = unfold insert_loop in ([], [], refl, refl)
insert-splits skb (b ∷ l) h = elim (insert-cases skb b l) [
  | inl e ↦ ([], b ∷ l, refl, ap (λ (r : List SkBuff × Bool). r.0) e)
  | inr (inl e) ↦ absurd (ground (arith, ap (λ (r : List SkBuff × Bool). r.1) e))
  | inr (inr e) ↦
      let (xs, ys, split, put) =
        insert-splits skb l (sym (ap (λ (r : List SkBuff × Bool). r.1) e) ∙ h) in
      (
        b ∷ xs,
        ys,
        ap (λ r. b ∷ r) split,
        ap (λ (r : List SkBuff × Bool). r.0) e ∙ ap (λ r. b ∷ r) put,
      )
]

-- A buffer that `tcp_data_insert_ordered` takes goes to one place of the queue by `skb_queue_add`.
tcp_data_insert_ordered-adds :
    (q : SkBuffHead) (skb : SkBuff)
    → (insert_loop skb q.head).1 ≡ true
    → (xs ys : List SkBuff) × (q.head ≡ xs ++ ys)
      × ((tcp_data_insert_ordered q skb).0 ≡ skb_queue_add xs (held skb) ys q.qlen)
unfolding tcp_data_insert_ordered
tcp_data_insert_ordered-adds q skb h =
    let (xs, ys, split, put) = insert-splits skb q.head h in
    (xs, ys, split, rw h (ap (λ l. record { head = l; qlen = u32 (q.qlen + 1) }) put))
