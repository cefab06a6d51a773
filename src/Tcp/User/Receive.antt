-- ===== src/Tcp/User/Receive.antt =====
-- `tcp_receive` of src/tcp_input.c on a socket that does not block.
use hf_ip.Prelude.{
  Bool-cases, List, Option, [], ap, arith, if◌then◌else◌, inl, inr, length, ltb, none, refl, some,
  sub_none, suc, sym, take, true, ℕ, ◌-◌, ◌<◌, ◌==◌, ◌||◌, ◌∙◌, ◌∷◌, ◌≡◌, ◌⊎◌,
}
use hf_ip.Prelude.Int.{negsuc, pos, ℤ}
use hf_ip.SkBuff.Queue.{IsCounted}
use hf_ip.Tcp.{Conn, eagain}
use hf_ip.Tcp.Data.{has_fin, has_psh, tcp_data_dequeue}
use hf_ip.Tcp.Data.Round.{Whole, stream}
use hf_ip.Tcp.Data.Stream.{tcp_data_dequeue-stream}
use hf_ip.Tcp.User.{Received, finish, is_nonblock, rearmed, receive_loop, tcp_receive}

dequeue-flags : (len : ℕ) (c : Conn) → (tcp_data_dequeue len c).0.sock ≡ c.sock
unfolding tcp_data_dequeue
dequeue-flags len c = refl

-- The result is the number of bytes that are handed over, or -EAGAIN if there are none.
abbrev pub Tells : Received → Type 0
Tells r = (r.rlen ≡ pos (length r.bytes)) ⊎ ((r.bytes ≡ []) × (r.rlen ≡ eagain))

-- What a read that does not block returns for what it got.
finish-Tells :
    (bytes : List ℕ) (c : Conn)
    → (r : Received) × (finish bytes c (if length bytes == 0 then eagain else pos (length bytes))
        ≡ some r)
      × (r.bytes ≡ bytes)
      × Tells r
finish-Tells [] c = (_, refl, refl, inr (refl, refl))
finish-Tells (b ∷ bytes) c = (_, refl, refl, inl (ground arith))

-- One round is enough, and the result is what `tcp_data_dequeue` has copied.
loop_nonblock :
    (wake : ℕ → Conn → Conn) (rounds len : ℕ) (c : Conn)
    → is_nonblock c ≡ true
    → 0 < len
    → (r : Received) × (receive_loop (suc rounds) wake len [] c ≡ some r)
      × (r.bytes ≡ (tcp_data_dequeue (len - 0) c).1)
      × Tells r
unfolding receive_loop
loop_nonblock wake rounds len c nb h =
    let (c1, bytes) = tcp_data_dequeue (len - 0) c in
    let nb1 : is_nonblock c1 ≡ true = rw (dequeue-flags (len - 0) c) nb in
    let more : ltb 0 len ≡ true = ground arith in
    elim (Bool-cases (has_psh c1.flags)) [
      | inl p ↦ rw (more, p) (_, refl, refl, inl refl)
      | inr p ↦ elim (Bool-cases (has_fin c1.flags || length bytes == len)) [
        | inl f ↦ rw (more, p, f) (_, refl, refl, inl refl)
        | inr f ↦ rw (more, p, f, nb1) (finish-Tells bytes c1)
      ]
    ]

rearmed-same : (r : Received) → ((rearmed r).bytes ≡ r.bytes) × ((rearmed r).rlen ≡ r.rlen)
rearmed-same r = elim (sign-cases r.rlen) [
  | inl (n, e) ↦ rw e (refl, refl)
  | inr (n, e) ↦ rw e (refl, refl)
]
  where
    sign-cases : (x : ℤ) → ((n : ℕ) × (x ≡ pos n)) ⊎ ((n : ℕ) × (x ≡ negsuc n))
    sign-cases (pos n) = inl (n, refl)
    sign-cases (negsuc n) = inr (n, refl)

-- A read of a positive length on a socket that does not block returns after one round, whatever
-- the other threads do, and hands over the next bytes of the received stream, at most as many as
-- asked for, if the receive queue is counted and its buffers have their `dlen` bytes. It returns
-- their number, or -EAGAIN if there are none.
pub tcp_receive_nonblock :
    (wake : ℕ → Conn → Conn) (rounds len : ℕ) (c : Conn)
    → is_nonblock c ≡ true
    → 0 < len
    → IsCounted c.sk.receive_queue
    → Whole c.sk.receive_queue.head
    → (r : Received) × (tcp_receive (suc rounds) wake len c ≡ some r)
      × (r.bytes ≡ take len (stream c.sk.receive_queue.head))
      × Tells r
unfolding tcp_receive
tcp_receive_nonblock wake rounds len c nb h k w =
    let (r, e, b, tells) = loop_nonblock wake rounds len c nb h in
    let z = sub_none len in
    let d = tcp_data_dequeue-stream (len - 0) c k w in
    (
      rearmed r,
      ap (λ (o : Option Received). elim o [ none ↦ none | some x ↦ some (rearmed x) ]) e,
      (rearmed-same r).0 ∙ b ∙ d.0 ∙ ap (λ n. take n (stream c.sk.receive_queue.head)) (sym z),
      elim tells [
        | inl full ↦
            inl ((rearmed-same r).1 ∙ full ∙ ap (λ l. pos (length l)) (sym (rearmed-same r).0))
        | inr (empty, again) ↦ inr ((rearmed-same r).0 ∙ empty, (rearmed-same r).1 ∙ again)
      ],
    )
