-- ===== src/Tcp/Input/Acks.antt =====
-- `tcp_clean_rto_queue` of src/tcp_input.c: an acknowledgment empties the front of the write queue.
use mathlib.Core.Path.{subst}
use hf_ip.Prelude.{
  All, Bool-cases, List, List-cases, [], ap, arith, false, if◌then◌else◌, inl, inr, length, none,
  refl, sub_none, suc, sym, true, zero, ℕ, ◌++◌, ◌-◌, ◌<◌, ◌==◌, ◌||◌, ◌∙◌, ◌∷◌, ◌≡◌, ◌≤◌, ◌⊎◌,
}
use hf_ip.SkBuff.{SkBuff, SkBuffHead, skb_queue_empty}
use hf_ip.SkBuff.Queue.{IsCounted, skb_dequeue-IsCounted, skb_peek-IsCounted}
use hf_ip.Tcp.{Conn}
use hf_ip.Tcp.Lifecycle.{tcp_stop_rto_timer}
use hf_ip.Tcp.Acks.{clean_loop, clean_one, is_acked, tcp_clean_rto_queue}

-- The buffers from the first one on that `una` does not acknowledge.
abbrev unacked : ℕ → List SkBuff → List SkBuff
unacked una [] = []
unacked una (skb ∷ rest) =
    let more = unacked una rest in if is_acked una skb then more else skb ∷ rest

-- How many stand before them.
abbrev acked_count : ℕ → List SkBuff → ℕ
acked_count una [] = 0
acked_count una (skb ∷ rest) = let n = acked_count una rest in if is_acked una skb then suc n else 0

record Cleaned (una : ℕ) (c c' : Conn) : Type 0 where
  queue : c'.sk.write_queue.head ≡ unacked una c.sk.write_queue.head
  counted : IsCounted c'.sk.write_queue
  timer : c'.retransmit ≡ c.retransmit
  inflight : c'.inflight ≡ c.inflight - acked_count una c.sk.write_queue.head

clean_loop-stops :
    (rounds una : ℕ) (c : Conn)
    → IsCounted c.sk.write_queue
    → c.sk.write_queue.head ≡ []
    → clean_loop rounds una c ≡ c
unfolding clean_loop
clean_loop-stops zero una c k e = refl
clean_loop-stops (suc rounds) una c k e = ground (arith, skb_peek-IsCounted c.sk.write_queue k)

clean_loop-kept :
    (rounds una : ℕ) (c : Conn) (skb : SkBuff) (rest : List SkBuff)
    → IsCounted c.sk.write_queue
    → c.sk.write_queue.head ≡ skb ∷ rest
    → is_acked una skb ≡ false
    → clean_loop rounds una c ≡ c
unfolding clean_loop
clean_loop-kept zero una c skb rest k e h = refl
clean_loop-kept (suc rounds) una c skb rest k e h =
    ground (arith, skb_peek-IsCounted c.sk.write_queue k)

clean_loop-next :
    (rounds una : ℕ) (c : Conn) (skb : SkBuff) (rest : List SkBuff)
    → IsCounted c.sk.write_queue
    → c.sk.write_queue.head ≡ skb ∷ rest
    → is_acked una skb ≡ true
    → clean_loop (suc rounds) una c ≡ clean_loop rounds una (clean_one c skb)
unfolding clean_loop
clean_loop-next rounds una c skb rest k e h = ground (arith, skb_peek-IsCounted c.sk.write_queue k)

clean_one-queue :
    (c : Conn) (skb : SkBuff) (rest : List SkBuff)
    → IsCounted c.sk.write_queue
    → c.sk.write_queue.head ≡ skb ∷ rest
    → let c1 = clean_one c skb in
      IsCounted c1.sk.write_queue × (c1.sk.write_queue.head ≡ rest) × (c1.inflight ≡ c.inflight - 1)
unfolding clean_one
clean_one-queue c skb rest k e =
    let (k1, e1) = skb_dequeue-IsCounted c.sk.write_queue skb rest k e in (k1, e1, refl)

Cleaned-none :
    (una : ℕ) (c : Conn) → IsCounted c.sk.write_queue → c.sk.write_queue.head ≡ [] → Cleaned una c c
Cleaned-none una c k e = record {
  queue = rw e refl;
  counted = k;
  timer = refl;
  inflight = rw e (sub_none c.inflight);
}

Cleaned-kept :
    (una : ℕ) (c : Conn) (skb : SkBuff) (rest : List SkBuff)
    → IsCounted c.sk.write_queue
    → c.sk.write_queue.head ≡ skb ∷ rest
    → is_acked una skb ≡ false
    → Cleaned una c c
Cleaned-kept una c skb rest k e h = record {
  queue = rw (e, h) refl;
  counted = k;
  timer = refl;
  inflight = rw (e, h) (sub_none c.inflight);
}

then-Cleaned :
    (una : ℕ) (c c1 c' : Conn) (skb : SkBuff) (rest : List SkBuff)
    → c.sk.write_queue.head ≡ skb ∷ rest
    → is_acked una skb ≡ true
    → c1.sk.write_queue.head ≡ rest
    → c1.inflight ≡ c.inflight - 1
    → c1.retransmit ≡ c.retransmit
    → Cleaned una c1 c'
    → Cleaned una c c'
then-Cleaned una c c1 c' skb rest e h e1 i t d = record {
  queue = d.queue ∙ rw (e, e1, h) refl;
  counted = d.counted;
  timer = d.timer ∙ t;
  inflight = d.inflight ∙ rw (e, e1, h, i) (omega arith);
}

clean_loop-Cleaned :
    (rounds una : ℕ) (c : Conn)
    → IsCounted c.sk.write_queue
    → length c.sk.write_queue.head ≤ rounds
    → Cleaned una c (clean_loop rounds una c)
unfolding clean_one
clean_loop-Cleaned zero una c k h =
    let e : c.sk.write_queue.head ≡ [] = ground arith in
    rw (clean_loop-stops 0 una c k e) (Cleaned-none una c k e)
clean_loop-Cleaned (suc rounds) una c k h = elim (List-cases c.sk.write_queue.head) [
  | inl e ↦ rw (clean_loop-stops (suc rounds) una c k e) (Cleaned-none una c k e)
  | inr (skb, rest, e) ↦ elim (Bool-cases (is_acked una skb)) [
    | inr kept ↦
        rw (clean_loop-kept (suc rounds) una c skb rest k e kept)
          (Cleaned-kept una c skb rest k e kept)
    | inl acked ↦
        let (k1, e1, i) = clean_one-queue c skb rest k e in
        rw (clean_loop-next rounds una c skb rest k e acked) (
          then-Cleaned una c (clean_one c skb) _ skb rest e acked e1 i refl (
            clean_loop-Cleaned rounds una (clean_one c skb) k1
              (omega (arith, ap length e, ap length e1))))
  ]
]

-- The end of `tcp_clean_rto_queue`: whether the timer was stopped.
stop_or_not :
    (una : ℕ) (c c1 : Conn)
    → Cleaned una c c1
    → let done = skb_queue_empty c1.sk.write_queue || c1.inflight == 0 in
      let c' = if done then tcp_stop_rto_timer c1 else c1 in
      (c'.sk.write_queue ≡ c1.sk.write_queue)
      × (c'.inflight ≡ c1.inflight)
      × (c'.retransmit ≡ (if done then none else c.retransmit))
unfolding tcp_stop_rto_timer
stop_or_not una c c1 d = elim (Bool-cases (skb_queue_empty c1.sk.write_queue || c1.inflight == 0)) [
  | inl e ↦ rw e (refl, refl, refl)
  | inr e ↦ rw e (refl, refl, d.timer)
]

-- A buffer that has a number and ends at `una` or before.
abbrev pub Covered : ℕ → SkBuff → Type 0
Covered una skb = (0 < skb.seq) × (skb.end_seq ≤ una)

-- The list is empty, or its first buffer is not covered.
abbrev pub StartsOpen : ℕ → List SkBuff → Type 0
StartsOpen una [] = Unit
StartsOpen una (skb ∷ rest) = (skb.seq ≡ 0) ⊎ (una < skb.end_seq)

-- `gone` is what stood before the rest.
record Split (una : ℕ) (gone l : List SkBuff) : Type 0 where
  whole : l ≡ gone ++ unacked una l
  covered : All (Covered una) gone
  open_ : StartsOpen una (unacked una l)
  count : acked_count una l ≡ length gone

front_of : (una : ℕ) (l : List SkBuff) → (gone : List SkBuff) × Split una gone l
front_of una [] = ([], record { whole = refl; covered = tt; open_ = tt; count = refl })
front_of una (skb ∷ rest) = elim (Bool-cases (is_acked una skb)) [
  | inl acked ↦
      let (gone, s) = front_of una rest in
      (
        skb ∷ gone,
        record {
          whole = rw acked (ap (λ l. skb ∷ l) s.whole);
          covered = (ground arith, s.covered);
          open_ = rw acked s.open_;
          count = rw acked (ap suc s.count);
        },
      )
  | inr kept ↦ (
    [],
    record {
      whole = rw kept refl;
      covered = tt;
      open_ = rw kept (ground arith);
      count = rw kept refl;
    },
  )
]

-- For a counted write queue, an acknowledgment of `una` takes a beginning of it away: buffers whose
-- number is positive and whose end number, which for a FIN without text is its own number, is at
-- most `una`. The first buffer that is left, if any, has the number 0 or ends behind `una`. Each
-- buffer taken is counted out of flight, and the retransmission timer is stopped exactly if no
-- buffer is left or none is in flight.
pub tcp_clean_rto_queue-unacked :
    (una : ℕ) (c : Conn)
    → IsCounted c.sk.write_queue
    → let c' = tcp_clean_rto_queue una c in
      ((gone : List SkBuff) × (c.sk.write_queue.head ≡ gone ++ c'.sk.write_queue.head)
        × All (Covered una) gone
        × StartsOpen una c'.sk.write_queue.head
        × (c'.inflight ≡ c.inflight - length gone))
      × IsCounted c'.sk.write_queue
      × (c'.retransmit
          ≡ (if skb_queue_empty c'.sk.write_queue || c'.inflight == 0 then none else c.retransmit))
unfolding tcp_clean_rto_queue
tcp_clean_rto_queue-unacked una c k =
    let c1 = clean_loop (length c.sk.write_queue.head) una c in
    let d = clean_loop-Cleaned (length c.sk.write_queue.head) una c k (omega arith) in
    let (q, i, t) = stop_or_not una c c1 d in
    let (gone, s) = front_of una c.sk.write_queue.head in
    let left = ap (λ (q : SkBuffHead). q.head) q ∙ d.queue in
    (
      (
        gone,
        s.whole ∙ ap (λ l. gone ++ l) (sym left),
        s.covered,
        subst (StartsOpen una) (sym left) s.open_,
        i ∙ d.inflight ∙ ap (λ n. c.inflight - n) s.count,
      ),
      subst IsCounted (sym q) d.counted,
      rw (q, i) t,
    )
