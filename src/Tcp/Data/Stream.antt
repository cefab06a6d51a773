-- ===== src/Tcp/Data/Stream.antt =====
-- `tcp_data_dequeue` of src/tcp_data.c as an operation on the stream of received bytes.
use mathlib.Core.Path.{subst}
use hf_ip.Tcp.Data.Round.{
  Enough, Ready, Whole, drop_part, drop_whole, length-text_of, read_part, read_whole, stream,
  take_part, take_whole, text_of,
}
use hf_ip.Prelude.{
  Bool-cases, List, List-cases, Option-cases, [], ap, append-nil, arith, drop, false, inl, inr, leb,
  length, ltb, ltb-false→le, ltb→lt, refl, sub_none, sub_zero, suc, sym, take, zero, ℕ, ◌++◌, ◌-◌,
  ◌<◌, ◌∙◌, ◌∷◌, ◌≡◌, ◌≤◌,
}
use hf_ip.SkBuff.{SkBuff, skb_peek}
use hf_ip.SkBuff.Queue.{IsCounted, skb_peek-IsCounted}
use hf_ip.Tcp.{Conn}
use hf_ip.Tcp.Data.{Reading, read_loop, read_one, tcp_data_dequeue}

-- What a loop that has ended leaves.
record Read (userlen : ℕ) (r r' : Reading) : Type 0 where
  got : r'.got ≡ r.got ++ take (userlen - length r.got) (stream r.queue.head)
  left : stream r'.queue.head ≡ drop (userlen - length r.got) (stream r.queue.head)
  ready : Ready userlen r'

Read-full :
    (userlen : ℕ) (r : Reading) → Ready userlen r → length r.got ≡ userlen → Read userlen r r
Read-full userlen r ok e =
    let z = sub_zero userlen (length r.got) (omega arith) in
    record { got = rw z (sym (append-nil r.got)); left = rw z refl; ready = ok }

take_nil : (n : ℕ) → take {A = ℕ} n [] ≡ []
take_nil zero = refl
take_nil (suc n) = refl

drop_nil : (n : ℕ) → drop {A = ℕ} n [] ≡ []
drop_nil zero = refl
drop_nil (suc n) = refl

Read-empty : (userlen : ℕ) (r : Reading) → Ready userlen r → r.queue.head ≡ [] → Read userlen r r
Read-empty userlen r ok e = record {
  got = rw (e, take_nil (userlen - length r.got)) (sym (append-nil r.got));
  left = rw (e, drop_nil (userlen - length r.got)) refl;
  ready = ok;
}

read_loop-full :
    (rounds userlen : ℕ) (r : Reading) → length r.got ≡ userlen → read_loop rounds userlen r ≡ r
unfolding read_loop
read_loop-full zero userlen r e = refl
read_loop-full (suc rounds) userlen r e = elim (Option-cases (skb_peek r.queue)) [
  | inl none_ ↦ ground arith
  | inr (skb, some_) ↦ ground arith
]

read_loop-empty :
    (rounds userlen : ℕ) (r : Reading)
    → IsCounted r.queue
    → r.queue.head ≡ []
    → read_loop rounds userlen r ≡ r
unfolding read_loop
read_loop-empty zero userlen r c e = refl
read_loop-empty (suc rounds) userlen r c e = ground (arith, skb_peek-IsCounted r.queue c)

read_loop-next :
    (rounds userlen : ℕ) (skb : SkBuff) (rest : List SkBuff) (r : Reading)
    → IsCounted r.queue
    → r.queue.head ≡ skb ∷ rest
    → length r.got < userlen
    → read_loop (suc rounds) userlen r ≡ read_loop rounds userlen (read_one userlen skb r)
unfolding read_loop
read_loop-next rounds userlen skb rest r c e h = ground (arith, skb_peek-IsCounted r.queue c)

-- A read that goes on after a round that took a whole buffer, and one that ends with its round.
then_whole :
    (userlen : ℕ) (skb : SkBuff) (rest : List SkBuff) (r r1 r' : Reading)
    → length (text_of skb) ≤ userlen - length r.got
    → r.queue.head ≡ skb ∷ rest
    → r1.queue.head ≡ rest
    → r1.got ≡ r.got ++ take (length (text_of skb)) (text_of skb)
    → Read userlen r1 r'
    → Read userlen r r'
then_whole userlen skb rest r r1 r' h e e1 g x = record {
  got = x.got ∙ rw (e, e1, g) (take_whole r.got (text_of skb) (stream rest) userlen h);
  left = x.left ∙ rw (e, e1, g) (drop_whole r.got (text_of skb) (stream rest) userlen h);
  ready = x.ready;
}

then_part :
    (userlen : ℕ) (skb : SkBuff) (rest : List SkBuff) (r r1 : Reading)
    → userlen - length r.got ≤ length (text_of skb)
    → r.queue.head ≡ skb ∷ rest
    → stream r1.queue.head ≡ drop (userlen - length r.got) (text_of skb) ++ stream rest
    → r1.got ≡ r.got ++ take (userlen - length r.got) (text_of skb)
    → Ready userlen r1
    → Read userlen r r1
then_part userlen skb rest r r1 h e q g ok = record {
  got = g ∙ rw (e, take_part (text_of skb) (stream rest) (userlen - length r.got) h) refl;
  left = q ∙ rw (e, drop_part (text_of skb) (stream rest) (userlen - length r.got) h) refl;
  ready = ok;
}

first-Whole :
    (l : List SkBuff) (skb : SkBuff) (rest : List SkBuff)
    → Whole l
    → l ≡ skb ∷ rest
    → skb.dlen ≤ length skb.payload
first-Whole l skb rest w e = let w' : Whole (skb ∷ rest) = subst Whole e w in w'.0

read_loop-Read :
    (rounds userlen : ℕ) (r : Reading)
    → Ready userlen r
    → Enough rounds userlen r
    → Read userlen r (read_loop rounds userlen r)
read_loop-Read rounds userlen r ok (inr e) =
    rw (read_loop-full rounds userlen r e) (Read-full userlen r ok e)
read_loop-Read zero userlen r ok (inl h) = absurd (omega arith)
read_loop-Read (suc rounds) userlen r ok (inl h) = elim (Bool-cases (ltb (length r.got) userlen)) [
  | inr full ↦
      let e : length r.got ≡ userlen =
        omega (arith, ok.fits, ltb-false→le (length r.got) userlen full) in
      rw (read_loop-full (suc rounds) userlen r e) (Read-full userlen r ok e)
  | inl more ↦
      let lt = ltb→lt (length r.got) userlen more in
      elim (List-cases r.queue.head) [
        | inl e ↦
            rw (read_loop-empty (suc rounds) userlen r ok.counted e) (Read-empty userlen r ok e)
        | inr (skb, rest, e) ↦
            let w = length-text_of skb (first-Whole r.queue.head skb rest ok.whole e) in
            rw (read_loop-next rounds userlen skb rest r ok.counted e lt)
              (elim (Bool-cases (leb skb.dlen (userlen - length r.got))) [
                | inl fits ↦
                    let le : skb.dlen ≤ userlen - length r.got = ground arith in
                    let (ok1, e1, g) = read_whole userlen skb rest r ok e le in
                    then_whole userlen skb rest r (read_one userlen skb r) _ (omega arith) e e1 g (
                      read_loop-Read rounds userlen (read_one userlen skb r) ok1
                        (inl (omega (arith, ap length e, ap length e1))))
                | inr large ↦
                    let gt : userlen - length r.got < skb.dlen = ground arith in
                    let (ok1, full, q, g) = read_part userlen skb rest r ok e gt in
                    rw (read_loop-full rounds userlen (read_one userlen skb r) full) (
                      then_part userlen skb rest r (read_one userlen skb r) (omega arith) e q g ok1)
              ])
      ]
]

-- From a counted receive queue, whose buffers have their `dlen` bytes, a read of `userlen`
-- bytes returns the next bytes of the stream, as many as there are and at most `userlen`, across
-- buffers and parts of them, and leaves exactly the bytes behind them queued; the queue that it
-- leaves is well formed again. So its loop has not stopped early.
pub tcp_data_dequeue-stream :
    (userlen : ℕ) (c : Conn)
    → IsCounted c.sk.receive_queue
    → Whole c.sk.receive_queue.head
    → let (c', bytes) = tcp_data_dequeue userlen c in
      (bytes ≡ take userlen (stream c.sk.receive_queue.head))
      × (stream c'.sk.receive_queue.head ≡ drop userlen (stream c.sk.receive_queue.head))
      × IsCounted c'.sk.receive_queue
      × Whole c'.sk.receive_queue.head
unfolding tcp_data_dequeue
tcp_data_dequeue-stream userlen c counted whole =
    let r0 : Reading = record {
      queue = c.sk.receive_queue;
      got = [];
      psh = false;
      freed = c.freed;
    } in
    let x =
      read_loop-Read (suc (length c.sk.receive_queue.head)) userlen r0
        (record { whole = whole; counted = counted; fits = omega arith }) (inl (omega arith)) in
    let z = sub_none userlen in
    (
      x.got ∙ ap (λ k. take k (stream c.sk.receive_queue.head)) (sym z),
      x.left ∙ ap (λ k. drop k (stream c.sk.receive_queue.head)) (sym z),
      x.ready.counted,
      x.ready.whole,
    )
