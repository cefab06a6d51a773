-- ===== src/Tcp/Output/Parts.antt =====
-- `tcp_send_next` of src/tcp_output.c sends the bytes of the write queue in their order.
use mathlib.Core.Path.{subst}
use hf_ip.Prelude.{
  All, List, [], ap, append-nil, append_assoc, arith, drop, false, length, length-append, refl, suc,
  sym, take, zero, ℕ, ◌++◌, ◌+◌, ◌-◌, ◌<◌, ◌∙◌, ◌∷◌, ◌≡◌, ◌≤◌,
}
use hf_ip.Word.{u32}
use hf_ip.Packet.{Tcphdr, bit}
use hf_ip.SkBuff.{SkBuff, skb_reset_header}
use hf_ip.Tcp.{Conn}
use hf_ip.Tcp.Header.{segment_header}
use hf_ip.Tcp.Output.{send_loop, send_one, tcp_send_next, tcp_transmit_skb}
use hf_ip.Tcp.Frame.{header-same}
use hf_ip.Tcp.Output.Queued.{sent_text}

-- A header and a text that has the sender's bytes at the header's sequence number, where `base` is
-- the number of the first byte.
pub record IsPart (sent : List ℕ) (base : ℕ) (h : Tcphdr) (text : List ℕ) : Type 0 where
  pub starts : base ≤ h.seq
  pub ends : h.seq + length text ≤ base + length sent
  pub same : text ≡ take (length text) (drop (h.seq - base) sent)

abbrev pub texts : List (Tcphdr × List ℕ) → List ℕ
texts [] = []
texts ((h, text) ∷ l) = text ++ texts l

-- A queued buffer with text alone.
abbrev pub IsText : SkBuff → Type 0
IsText skb = (length skb.text ≡ skb.dlen) × (skb.th.fin ≡ false)

pub take-text : (text rest : List ℕ) → take (length text) (text ++ rest) ≡ text
take-text [] rest = refl
take-text (b ∷ text) rest = ap (λ r. b ∷ r) (take-text text rest)

drop-text : (text rest : List ℕ) → drop (length text) (text ++ rest) ≡ rest
drop-text [] rest = refl
drop-text (b ∷ text) rest = drop-text text rest

-- What one round sends, behind the bytes `pre`.
IsPart-next :
    (pre text rest : List ℕ) (base : ℕ) (h : Tcphdr)
    → h.seq ≡ base + length pre
    → IsPart (pre ++ (text ++ rest)) base h text
IsPart-next pre text rest base h e =
    let n = length-append pre (text ++ rest) in
    let m = length-append text rest in
    let at : h.seq - base ≡ length pre = omega arith in
    record {
      starts = omega arith;
      ends = omega (arith, n, m);
      same = sym (
          ap (λ k. take (length text) (drop k (pre ++ (text ++ rest)))) at
          ∙ ap (λ r. take (length text) r) (drop-text pre (text ++ rest))
          ∙ take-text text rest);
    }

-- The loop's segments, when the bytes `pre` have been sent.
record Sent (sent : List ℕ) (base : ℕ) (text : List ℕ) (c d : Conn) : Type 0 where
  new : List (Tcphdr × List ℕ)
  out : d.out ≡ c.out ++ new
  parts : All (λ s. IsPart sent base s.0 s.1) new
  bytes : texts new ≡ text
  next : d.tcb.snd_nxt ≡ base + length sent

send_one-values :
    (c : Conn) (next : SkBuff)
    → let c1 = (send_one c next).0 in
      (h : Tcphdr) × (c1.out ≡ c.out ++ (h, next.text) ∷ [])
      × (h.seq ≡ c.tcb.snd_nxt)
      × (c1.tcb.snd_nxt ≡ u32 (u32 (c.tcb.snd_nxt + next.dlen) + bit next.th.fin))
unfolding send_one tcp_transmit_skb skb_reset_header
send_one-values c next =
    let h = segment_header c next.th c.tcb.snd_nxt in
    (h, refl, (header-same c next.th c.tcb.snd_nxt).0, refl)

send_loop-Sent :
    (amount base : ℕ) (pre : List ℕ) (c : Conn) (l : List SkBuff)
    → All IsText l
    → c.tcb.snd_nxt ≡ base + length pre
    → let text = sent_text (take amount l) in
      base + length (pre ++ text) < 4294967296
      → Sent (pre ++ text) base text c (send_loop amount c l).0
unfolding send_loop
send_loop-Sent zero base pre c l a e w = record {
  new = [];
  out = sym (append-nil c.out);
  parts = tt;
  bytes = refl;
  next = omega (arith, ap length (append-nil pre));
}
send_loop-Sent (suc amount) base pre c [] a e w = record {
  new = [];
  out = sym (append-nil c.out);
  parts = tt;
  bytes = refl;
  next = omega (arith, ap length (append-nil pre));
}
send_loop-Sent (suc amount) base pre c (next ∷ rest) ((len, fin), a) e w =
    let more = sent_text (take amount rest) in
    let (h, out, seq, nxt) = send_one-values c next in
    let c1 = (send_one c next).0 in
    let assoc = append_assoc pre next.text more in
    let n = length-append (pre ++ next.text) more in
    let m = length-append pre next.text in
    let total = ap length assoc in
    let no_fin : bit next.th.fin ≡ 0 = ap bit fin in
    let e1 : c1.tcb.snd_nxt ≡ base + length (pre ++ next.text) = omega (arith, nxt, no_fin, len) in
    let r = send_loop-Sent amount base (pre ++ next.text) c1 rest a e1 (omega arith) in
    record {
      new = (h, next.text) ∷ r.new;
      out = r.out ∙ ap (λ o. o ++ r.new) out ∙ append_assoc c.out ((h, next.text) ∷ []) r.new;
      parts = (
        IsPart-next pre next.text more base h (seq ∙ e),
        subst (λ sent. All (λ s. IsPart sent base s.0 s.1) r.new) assoc r.parts,
      );
      bytes = ap (λ x. next.text ++ x) r.bytes;
      next = omega (arith, r.next);
    }

-- If the buffers of the write queue hold text alone, and the numbers of the first `amount` of them
-- do not wrap, `tcp_send_next` gives segments to the IP layer whose texts, put together, are those
-- of the first `amount` buffers; each holds the bytes that belong to its sequence number, and the
-- next number is behind the last of them.
pub tcp_send_next-parts :
    (c : Conn) (amount : ℕ)
    → All IsText c.sk.write_queue.head
    → let sent = sent_text (take amount c.sk.write_queue.head) in
      let d = tcp_send_next c amount in
      c.tcb.snd_nxt + length sent < 4294967296
      → (new : List (Tcphdr × List ℕ)) × (d.out ≡ c.out ++ new)
        × (texts new ≡ sent)
        × All (λ s. IsPart sent c.tcb.snd_nxt s.0 s.1) new
        × (d.tcb.snd_nxt ≡ c.tcb.snd_nxt + length sent)
unfolding tcp_send_next
tcp_send_next-parts c amount a w =
    let r = send_loop-Sent amount c.tcb.snd_nxt [] c c.sk.write_queue.head a (omega arith) w in
    (r.new, r.out, r.bytes, r.parts, r.next)
