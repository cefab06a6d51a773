-- ===== src/Tcp/Output/Queued.antt =====
-- One buffer at the end of the write queue of src/tcp_output.c.
use hf_ip.Prelude.{
  All, All-append, Bool, Bool-cases, List, Option-cases, [], ap, append-nil, append_assoc, arith,
  false, if◌then◌else◌, inl, inr, length, refl, sym, true, ℕ, ◌++◌, ◌<◌, ◌==◌, ◌∙◌, ◌∷◌, ◌≡◌, ◌≤◌,
}
use hf_ip.Packet.{Iphdr}
use hf_ip.SkBuff.{SkBuff, skb_push, skb_queue_empty, skb_queue_tail}
use hf_ip.Net.{Net, RtEntry}
use hf_ip.Net.Ip.{dst_neigh_output, ip_output, is_gateway}
use hf_ip.Net.Route.{route_lookup}
use hf_ip.Net.Device.{netdev_transmit}
use hf_ip.Net.Arp.{arp_get_hwaddr}
use hf_ip.Word.{swap32}
use hf_ip.Tcp.{Conn, Sock}
use hf_ip.Tcp.Lifecycle.{tcp_rearm_rto_timer}
use hf_ip.Tcp.Header.{segment_header, segment_skb}
use hf_ip.Tcp.Output.{queue_tail, tcp_queue_transmit_skb, tcp_transmit_skb, transmit_first}

-- The texts of queued buffers, one after the other.
abbrev pub sent_text : List SkBuff → List ℕ
sent_text [] = []
sent_text (skb ∷ rest) = skb.text ++ sent_text rest

-- Each buffer carries at least one byte and at most an MSS, and `dlen` is the length of its text.
abbrev pub IsSegment : ℕ → SkBuff → Type 0
IsSegment mss skb = (0 < skb.dlen) × (skb.dlen ≤ mss) × (length skb.text ≡ skb.dlen)

pub neigh-text :
    (rt : RtEntry) (ih : Iphdr) (skb : SkBuff) (n : Net)
    → let skb' = (dst_neigh_output rt ih skb n).1 in (skb'.text ≡ skb.text) × (skb'.dlen ≡ skb.dlen)
unfolding dst_neigh_output netdev_transmit skb_push
neigh-text rt ih skb n =
    elim (Option-cases (arp_get_hwaddr (if is_gateway rt then rt.gateway else swap32 ih.daddr) n)) [
      | inl e ↦ rw (dst_neigh_output, e) (refl, refl)
      | inr (mac, e) ↦ rw (dst_neigh_output, e) (refl, refl)
    ]

pub ip_output-text :
    (daddr : ℕ) (skb : SkBuff) (n : Net)
    → let skb' = (ip_output daddr skb n).1 in (skb'.text ≡ skb.text) × (skb'.dlen ≡ skb.dlen)
unfolding ip_output skb_push
ip_output-text daddr skb n = elim (Option-cases (route_lookup daddr n)) [
  | inl e ↦ rw (ip_output, e) (refl, refl)
  | inr (rt, e) ↦ rw (ip_output, e) (neigh-text rt _ _ n)
]

pub transmit-text :
    (c : Conn) (skb : SkBuff) (seq : ℕ)
    → let skb' = (tcp_transmit_skb c skb seq).1 in (skb'.text ≡ skb.text) × (skb'.dlen ≡ skb.dlen)
unfolding tcp_transmit_skb segment_skb skb_push
transmit-text c skb seq =
    ip_output-text c.sk.daddr (segment_skb c skb (segment_header c skb.th seq)) c.net

-- What one call appends to the write queue.
pub record Queued (mss : ℕ) (text : List ℕ) (c c' : Conn) : Type 0 where
  pub new : List SkBuff
  pub queue : c'.sk.write_queue.head ≡ c.sk.write_queue.head ++ new
  pub bytes : sent_text new ≡ text
  pub segments : All (IsSegment mss) new
  pub smss : c'.smss ≡ c.smss

pub IsSegment-same :
    (mss : ℕ) (a b : SkBuff)
    → (b.text ≡ a.text) × (b.dlen ≡ a.dlen)
    → IsSegment mss a
    → IsSegment mss b
IsSegment-same mss a b (t, d) (p, m, l) = (omega arith, omega arith, ap length t ∙ l ∙ sym d)

-- `c'` is `c` with one more buffer.
pub Queued-one :
    (mss : ℕ) (c c' : Conn) (skb skb' : SkBuff)
    → IsSegment mss skb
    → (skb'.text ≡ skb.text) × (skb'.dlen ≡ skb.dlen)
    → c'.sk.write_queue.head ≡ c.sk.write_queue.head ++ skb' ∷ []
    → c'.smss ≡ c.smss
    → Queued mss skb.text c c'
Queued-one mss c c' skb skb' s same q m = record {
  new = skb' ∷ [];
  queue = q;
  bytes = append-nil skb'.text ∙ same.0;
  segments = (IsSegment-same mss skb skb' same s, tt);
  smss = m;
}

pub rearm_if :
    (b : Bool) (c : Conn)
    → let c1 = if b then tcp_rearm_rto_timer c else c in (c1.sk ≡ c.sk) × (c1.smss ≡ c.smss)
unfolding tcp_rearm_rto_timer
rearm_if true c = (refl, refl)
rearm_if false c = (refl, refl)

pub queue_transmit-Queued :
    (mss : ℕ) (c : Conn) (skb : SkBuff)
    → IsSegment mss skb
    → Queued mss skb.text c (tcp_queue_transmit_skb c skb).0
unfolding tcp_queue_transmit_skb transmit_first tcp_transmit_skb skb_queue_tail
queue_transmit-Queued mss c skb s =
    let b = skb_queue_empty c.sk.write_queue in
    let c1 = if b then tcp_rearm_rto_timer c else c in
    let (sk_same, smss_same) = rearm_if b c in
    let skb' = (transmit_first c1 skb).1 in
    let q = ap (λ (sk : Sock). sk.write_queue.head ++ skb ∷ []) sk_same in
    elim (Bool-cases (c1.inflight == 0)) [
      | inl idle ↦ rw idle (
          Queued-one mss c (queue_tail (transmit_first c1 skb).0 skb') skb skb' s
            (transmit-text c1 skb c1.tcb.snd_nxt)
            (ap (λ (sk : Sock). sk.write_queue.head ++ skb' ∷ []) sk_same) smss_same)
      | inr busy ↦ rw busy (Queued-one mss c (queue_tail c1 skb) skb skb s (refl, refl) q smss_same)
    ]

pub Queued-none : (mss : ℕ) (c : Conn) → Queued mss [] c c
Queued-none mss c = record {
  new = [];
  queue = sym (append-nil c.sk.write_queue.head);
  bytes = refl;
  segments = tt;
  smss = refl;
}

pub sent_text-append : (xs ys : List SkBuff) → sent_text (xs ++ ys) ≡ sent_text xs ++ sent_text ys
sent_text-append [] ys = refl
sent_text-append (x ∷ xs) ys =
    rw (sent_text-append xs ys) (sym (append_assoc x.text (sent_text xs) (sent_text ys)))

pub Queued-then :
    (mss : ℕ) (t u : List ℕ) (c d e : Conn)
    → Queued mss t c d
    → Queued mss u d e
    → Queued mss (t ++ u) c e
Queued-then mss t u c d e a b = record {
  new = a.new ++ b.new;
  queue = b.queue ∙ rw (a.queue) (append_assoc c.sk.write_queue.head a.new b.new);
  bytes = sent_text-append a.new b.new ∙ rw (a.bytes, b.bytes) refl;
  segments = All-append (IsSegment mss) a.new b.new a.segments b.segments;
  smss = b.smss ∙ a.smss;
}
