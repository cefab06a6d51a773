-- ===== src/Tcp/Data/Round.antt =====
-- One round of `tcp_data_dequeue` of src/tcp_data.c on the stream of received bytes.
use mathlib.Core.Path.{subst}
use hf_ip.Prelude.{
  All, List, [], ap, append-nil, append_assoc, arith, drop, drop-all, drop-append, false, length,
  length-append, length-drop, length-take, min, refl, sub_none, sub_sub, sub_suc, sub_zero, suc,
  sym, take, take-all, take-append, zero, ℕ, ◌++◌, ◌-◌, ◌<◌, ◌==◌, ◌∷◌, ◌≡◌, ◌≤◌, ◌⊎◌,
}
use hf_ip.SkBuff.{SkBuff}
use hf_ip.SkBuff.Queue.{IsCounted, skb_dequeue-IsCounted}
use hf_ip.Tcp.Data.{Reading, read_one}

-- The text of a received buffer: `dlen` bytes from `payload` on, behind which the memory goes on.
abbrev pub text_of : SkBuff → List ℕ
text_of skb = take skb.dlen skb.payload

-- The bytes of the queued buffers, one buffer after the other.
abbrev pub stream : List SkBuff → List ℕ
stream [] = []
stream (skb ∷ rest) = text_of skb ++ stream rest

-- The `dlen` bytes of each buffer are there.
abbrev pub Whole : List SkBuff → Type 0
Whole l = All (λ skb. skb.dlen ≤ length skb.payload) l

pub length-text_of :
    (skb : SkBuff) → skb.dlen ≤ length skb.payload → length (text_of skb) ≡ skb.dlen
length-text_of skb h = length-take skb.dlen skb.payload h

take-take : (k n : ℕ) (xs : List ℕ) → k ≤ n → take k (take n xs) ≡ take k xs
take-take zero n xs h = refl
take-take (suc k) zero xs h = absurd (omega arith)
take-take (suc k) (suc n) [] h = refl
take-take (suc k) (suc n) (x ∷ xs) h = ap (λ r. x ∷ r) (take-take k n xs (omega arith))

pub take_none : (m : ℕ) → take {A = ℕ} m [] ≡ []
take_none zero = refl
take_none (suc m) = refl

take-drop : (k n : ℕ) (xs : List ℕ) → take (n - k) (drop k xs) ≡ drop k (take n xs)
take-drop zero n xs = ap (λ m. take m xs) (sym (sub_none n))
take-drop (suc k) zero [] = take_none (0 - suc k)
take-drop (suc k) zero (x ∷ xs) = rw (sub_zero 0 (suc k) (omega arith)) refl
take-drop (suc k) (suc n) [] = take_none (suc n - suc k)
take-drop (suc k) (suc n) (x ∷ xs) = rw (sub_suc n k) (take-drop k n xs)

-- The loop has rounds enough: one for each buffer and one more, or its test is false.
abbrev pub Enough : ℕ → ℕ → Reading → Type 0
Enough rounds userlen r = (length r.queue.head < rounds) ⊎ (length r.got ≡ userlen)

pub record Ready (userlen : ℕ) (r : Reading) : Type 0 where
  pub whole : Whole r.queue.head
  pub counted : IsCounted r.queue
  pub fits : length r.got ≤ userlen

-- What a read of `k` bytes makes of a buffer and of those behind it.
pub take_whole :
    (got p rest : List ℕ) (u : ℕ)
    → length p ≤ u - length got
    → (got ++ take (length p) p) ++ take (u - length (got ++ take (length p) p)) rest
      ≡ got ++ take (u - length got) (p ++ rest)
take_whole got p rest u h =
    rw
      (
        take-all (length p) p (omega arith),
        append_assoc got p (take (u - length (got ++ p)) rest),
        take-append (u - length got) p rest,
        take-all (u - length got) p h,
        length-append got p,
        sub_sub u (length got) (length p),
      )
      refl

pub drop_whole :
    (got p rest : List ℕ) (u : ℕ)
    → length p ≤ u - length got
    → drop (u - length (got ++ take (length p) p)) rest ≡ drop (u - length got) (p ++ rest)
drop_whole got p rest u h =
    rw
      (
        take-all (length p) p (omega arith),
        drop-append (u - length got) p rest,
        drop-all (u - length got) p h,
        length-append got p,
        sub_sub u (length got) (length p),
      )
      refl

pub take_part : (p rest : List ℕ) (k : ℕ) → k ≤ length p → take k (p ++ rest) ≡ take k p
take_part p rest k h =
    rw (take-append k p rest, sub_zero k (length p) h, append-nil (take k p)) refl

pub drop_part : (p rest : List ℕ) (k : ℕ) → k ≤ length p → drop k (p ++ rest) ≡ drop k p ++ rest
drop_part p rest k h = rw (drop-append k p rest, sub_zero k (length p) h) refl

-- One round on a buffer that the read uses up, and on one that it does not.
pub read_whole :
    (userlen : ℕ) (skb : SkBuff) (rest : List SkBuff) (r : Reading)
    → Ready userlen r
    → r.queue.head ≡ skb ∷ rest
    → skb.dlen ≤ userlen - length r.got
    → let r' = read_one userlen skb r in
      Ready userlen r'
      × (r'.queue.head ≡ rest)
      × (r'.got ≡ r.got ++ take (length (text_of skb)) (text_of skb))
unfolding read_one
read_whole userlen skb rest r ok e h =
    let d = skb_dequeue-IsCounted r.queue skb rest ok.counted e in
    let w : Whole (skb ∷ rest) = subst Whole e ok.whole in
    let m : min skb.dlen (userlen - length r.got) ≡ skb.dlen = omega arith in
    let l = length-append r.got (take skb.dlen skb.payload) in
    let t = length-text_of skb w.0 in
    rw (m, sub_zero skb.dlen skb.dlen (omega arith))
      (
        record { whole = subst Whole (sym d.1) w.1; counted = d.0; fits = omega arith },
        d.1,
        ap (λ xs. r.got ++ xs) (sym (take-all (length (text_of skb)) (text_of skb) (omega arith))),
      )

pub read_part :
    (userlen : ℕ) (skb : SkBuff) (rest : List SkBuff) (r : Reading)
    → Ready userlen r
    → r.queue.head ≡ skb ∷ rest
    → userlen - length r.got < skb.dlen
    → let r' = read_one userlen skb r in
      Ready userlen r'
      × (length r'.got ≡ userlen)
      × (stream r'.queue.head ≡ drop (userlen - length r.got) (text_of skb) ++ stream rest)
      × (r'.got ≡ r.got ++ take (userlen - length r.got) (text_of skb))
unfolding read_one
read_part userlen skb rest r ok e h =
    let k = userlen - length r.got in
    let w : Whole (skb ∷ rest) = subst Whole e ok.whole in
    let m : min skb.dlen k ≡ k = omega arith in
    let b : (skb.dlen - k == 0) ≡ false = ground arith in
    let l = length-append r.got (take k skb.payload) in
    let t = length-take k skb.payload (omega arith) in
    rw (m, b, e)
      (
        record {
          whole = (omega (arith, length-drop k skb.payload), w.1);
          counted = record {
            counts = omega (arith, ok.counted.counts, ap length e);
            small = ok.counted.small;
          };
          fits = omega arith;
        },
        omega arith,
        ap (λ xs. xs ++ stream rest) (take-drop k skb.dlen skb.payload),
        ap (λ xs. r.got ++ xs) (sym (take-take k skb.dlen skb.payload (omega arith))),
      )
