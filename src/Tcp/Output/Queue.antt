-- ===== src/Tcp/Output/Queue.antt =====
-- `tcp_send` of src/tcp_output.c: how the text becomes segments of the write queue.
use mathlib.Core.Path.{subst}
use hf_ip.Tcp.Output.Queued.{
  IsSegment, Queued, Queued-none, Queued-then, queue_transmit-Queued, sent_text,
}
use hf_ip.Prelude.Int.{pos}
use hf_ip.Tcp.Frame.{sk-rearm_user}
use hf_ip.Prelude.{
  All, Bool, List, [], ap, arith, drop, length, length-drop, length-take_le, refl, suc, take,
  take-append-drop, zero, ℕ, ◌++◌, ◌<◌, ◌==◌, ◌∙◌, ◌∷◌, ◌≡◌, ◌≤◌,
}
use hf_ip.SkBuff.{SkBuff, skb_push}
use hf_ip.Tcp.{Conn, Sock}
use hf_ip.Tcp.Header.{tcp_alloc_skb}
use hf_ip.Tcp.Output.{tcp_queue_transmit_skb, tcp_send, text_loop, text_skb, used_skb}

text_skb-IsSegment :
    (c : Conn) (text : List ℕ) (last : Bool)
    → 0 < length text
    → length text ≤ c.smss
    → IsSegment c.smss (text_skb c text last)
unfolding text_skb tcp_alloc_skb skb_push
text_skb-IsSegment c text last p m = (p, m, refl)

text_skb-text : (c : Conn) (text : List ℕ) (last : Bool) → (text_skb c text last).text ≡ text
unfolding text_skb
text_skb-text c text last = refl

queue_text :
    (c : Conn) (text : List ℕ) (last : Bool)
    → 0 < length text
    → length text ≤ c.smss
    → Queued c.smss text c (tcp_queue_transmit_skb (used_skb c) (text_skb c text last)).0
queue_text c text last p m =
    let q =
      queue_transmit-Queued c.smss (used_skb c) (text_skb c text last)
        (text_skb-IsSegment c text last p m) in
    record {
      new = q.new;
      queue = q.queue;
      bytes = q.bytes ∙ text_skb-text c text last;
      segments = q.segments;
      smss = q.smss;
    }

text_loop-nil : (rounds : ℕ) (c : Conn) → text_loop rounds c [] ≡ c
unfolding text_loop
text_loop-nil zero c = refl
text_loop-nil (suc rounds) c = refl

length-chunk :
    (mss b : ℕ) (text : List ℕ)
    → 0 < mss
    → (0 < length (take mss (b ∷ text))) × (length (take mss (b ∷ text)) ≤ mss)
length-chunk zero b text p = absurd (omega arith)
length-chunk (suc mss) b text p = (omega arith, omega (arith, length-take_le mss text))

text_loop-Queued :
    (rounds : ℕ) (c : Conn) (text : List ℕ)
    → 0 < c.smss
    → length text ≤ rounds
    → Queued c.smss text c (text_loop rounds c text)
unfolding text_loop
text_loop-Queued rounds c [] p h = rw (text_loop-nil rounds c) (Queued-none c.smss c)
text_loop-Queued zero c (b ∷ text) p h = absurd (omega arith)
text_loop-Queued (suc rounds) c (b ∷ text) p h =
    let chunk = take c.smss (b ∷ text) in
    let rest = drop c.smss (b ∷ text) in
    let skb = text_skb c chunk (length rest == 0) in
    let c1 = (tcp_queue_transmit_skb (used_skb c) skb).0 in
    let size = length-chunk c.smss b text p in
    let q = queue_text c chunk (length rest == 0) size.0 size.1 in
    subst (λ t. Queued c.smss t c (text_loop rounds c1 rest)) (take-append-drop c.smss (b ∷ text))
      (Queued-then c.smss chunk rest c c1 _ q (
        subst (λ m. Queued m rest c1 (text_loop rounds c1 rest)) q.smss
          (text_loop-Queued rounds c1 rest (rw q.smss p)
            (omega (arith, length-drop c.smss (b ∷ text))))))

-- For an MSS that is not 0, the text of a `send` becomes buffers at the end of the write queue,
-- each with at least one and at most an MSS of bytes; put together they are the text, and the
-- result is its length: nothing is lost, repeated or reordered, and the loop has not stopped
-- early.
pub tcp_send-segments :
    (c : Conn) (text : List ℕ)
    → 0 < c.smss
    → let c' = (tcp_send c text).0 in
      (new : List SkBuff) × (c'.sk.write_queue.head ≡ c.sk.write_queue.head ++ new)
      × (sent_text new ≡ text)
      × All (IsSegment c.smss) new
      × ((tcp_send c text).1 ≡ pos (length text))
unfolding tcp_send
tcp_send-segments c text p =
    let q = text_loop-Queued (length text) c text p (omega arith) in
    (
      q.new,
      ap (λ (sk : Sock). sk.write_queue.head) (sk-rearm_user (text_loop (length text) c text))
          ∙ q.queue,
      q.bytes,
      q.segments,
      refl,
    )
