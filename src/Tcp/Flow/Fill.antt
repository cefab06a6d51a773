-- ===== src/Tcp/Flow/Fill.antt =====
-- The queues of src/tcp_data.c filled with the bytes of one sender.
use mathlib.Core.Path.{subst}
use hf_ip.Prelude.{
  All, All-append, Bool-cases, List, List-cases, [], ap, append-nil, append_assoc, arith, drop, inl,
  inr, length, length-append, suc, sym, take, zero, ℕ, ◌++◌, ◌+◌, ◌-◌, ◌<◌, ◌==◌, ◌∙◌, ◌∷◌, ◌≡◌,
  ◌≤◌,
}
use hf_ip.SkBuff.{SkBuff, skb_queue_tail}
use hf_ip.SkBuff.Queue.{IsCounted}
use hf_ip.Tcp.{Conn}
use hf_ip.Tcp.Data.{consume_loop, consume_one}
use hf_ip.Tcp.Data.Round.{Whole, stream, take_none, text_of}
use hf_ip.Tcp.Data.Deliver.{
  consume_loop-gap, consume_loop-next, consume_loop-stops, consume_one-queues,
}
use hf_ip.Tcp.Flow.{Filled, Piece}

suc_add : (a b : ℕ) → suc a + b ≡ suc (a + b)
suc_add a b = omega arith

take_add : (a b : ℕ) (xs : List ℕ) → take (a + b) xs ≡ take a xs ++ take b (drop a xs)
take_add zero b xs = ap (λ n. take n xs) (omega arith)
take_add (suc a) b [] = rw (suc_add a b) (sym (take_none b))
take_add (suc a) b (x ∷ xs) = rw (suc_add a b) (ap (λ r. x ∷ r) (take_add a b xs))

stream-append : (l : List SkBuff) (skb : SkBuff) → stream (l ++ skb ∷ []) ≡ stream l ++ text_of skb
stream-append [] skb = append-nil (text_of skb)
stream-append (s ∷ l) skb =
    ap (λ r. text_of s ++ r) (stream-append l skb)
    ∙ sym (append_assoc (text_of s) (stream l) (text_of skb))

text_none : (skb : SkBuff) → skb.dlen ≡ 0 → text_of skb ≡ []
text_none skb h = ap (λ n. take n skb.payload) h

-- A segment at the next number, behind the bytes that are there.
module _ (sent : List ℕ) (base : ℕ) where
  pub text_next :
      (skb : SkBuff) (count : ℕ)
      → Piece sent base skb
      → skb.seq ≡ base + count
      → (take count sent ++ text_of skb ≡ take (count + skb.dlen) sent)
        × (count ≤ length sent → count + skb.dlen ≤ length sent)
  text_next skb count p e = elim p.place [
    | inl z ↦ (
      rw (text_none skb z, z, append-nil (take count sent)) (ap (λ n. take n sent) (omega arith)),
      omega arith,
    )
    | inr l ↦
        let s : skb.seq - base ≡ count = omega arith in
        (
          ap (λ r. take count sent ++ r) (l.text ∙ ap (λ n. take skb.dlen (drop n sent)) s)
              ∙ sym (take_add count skb.dlen sent),
          omega (arith, l.ends),
        )
  ]

  -- What the queues hold behind one such segment.
  pub fill_one :
      (got : List ℕ) (n : ℕ) (c : Conn) (skb : SkBuff)
      → Filled sent base got n c
      → suc (length c.sk.receive_queue.head) < 4294967296
      → Piece sent base skb
      → skb.seq ≡ base + n
      → let q = skb_queue_tail c.sk.receive_queue skb in
        (got ++ stream q.head ≡ take (n + skb.dlen) sent)
        × (n + skb.dlen ≤ length sent)
        × IsCounted q
        × Whole q.head
  unfolding skb_queue_tail
  fill_one got n c skb f room p e =
      let (text, bound) = text_next skb n p e in
      let l = c.sk.receive_queue.head in
      (
        ap (λ r. got ++ r) (stream-append l skb)
            ∙ sym (append_assoc got (stream l) (text_of skb))
            ∙ ap (λ r. r ++ text_of skb) f.text
            ∙ text,
        bound f.bound,
        omega (arith, f.queue.counts, f.queue.small, length-append l (skb ∷ [])),
        All-append (λ s. s.dlen ≤ length s.payload) l (skb ∷ []) f.whole (p.whole, tt),
      )

  -- `tcp_consume_ofo_queue` goes on with what has become next.
  pub consume_loop-Filled :
      (got : List ℕ) (rounds n : ℕ) (c : Conn)
      → Filled sent base got n c
      → length c.sk.receive_queue.head + length c.ofo_queue.head < 4294967296
      → base + length sent < 4294967296
      → c.tcb.rcv_nxt ≡ base + n
      → let d = consume_loop rounds c in
        (m : ℕ) × Filled sent base got m d × (n ≤ m) × (d.tcb.rcv_nxt ≡ base + m)
  unfolding consume_loop
  consume_loop-Filled got zero n c f room w e = (n, f, omega arith, e)
  consume_loop-Filled got (suc rounds) n c f room w e = elim (List-cases c.ofo_queue.head) [
    | inl none_ ↦ rw (consume_loop-stops (suc rounds) c f.ofo none_) (n, f, omega arith, e)
    | inr (skb, rest, h) ↦ elim (Bool-cases (c.tcb.rcv_nxt == skb.seq)) [
      | inr gap ↦ rw (consume_loop-gap (suc rounds) c skb rest f.ofo h gap) (n, f, omega arith, e)
      | inl next ↦
          let c1 = consume_one c skb in
          let (q, e1, k1, nxt) = consume_one-queues c skb rest f.ofo h in
          let p : All (Piece sent base) (skb ∷ rest) = subst (All (Piece sent base)) h f.pieces in
          let at : skb.seq ≡ base + n = ground arith in
          let (text, bound, counted, whole) =
            fill_one got n c skb f (omega (arith, ap length h)) p.0 at in
          let f1 : Filled sent base got (n + skb.dlen) c1 =
            unfold consume_one in
            record {
              text = text;
              bound = bound;
              queue = counted;
              whole = whole;
              ofo = k1;
              pieces = subst (All (Piece sent base)) (sym e1) p.1;
            } in
          let room1 : length c1.sk.receive_queue.head + length c1.ofo_queue.head < 4294967296 =
            omega (
              arith,
              ap length q,
              length-append c.sk.receive_queue.head (skb ∷ []),
              ap length e1,
              ap length h,
            ) in
          let (m, f2, le, x) =
            consume_loop-Filled got rounds (n + skb.dlen) c1 f1 room1 w (omega (arith, nxt)) in
          rw (consume_loop-next rounds c skb rest f.ofo h next) (m, f2, omega arith, x)
    ]
  ]
