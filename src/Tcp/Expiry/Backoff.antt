-- ===== src/Tcp/Expiry/Backoff.antt =====
-- `tcp_retransmission_timeout` of src/tcp_output.c: exponential backoff, and its end.
use mathlib.Core.Path.{subst}
use native.Mathlib.Nat.{pow-suc}
use hf_ip.Packet.{Iphdr, Tcphdr}
use hf_ip.Word.{swap32}
use hf_ip.Prelude.{
  Bool-cases, Option-cases, ap, arith, false, if◌then◌else◌, inl, inr, leb, ltb, refl, some, suc,
  true, zero, ℕ, ◌*◌, ◌<◌, ◌^◌, ◌∙◌, ◌≡◌, ◌≤◌,
}
use hf_ip.Net.{Net, RtEntry}
use hf_ip.Net.Route.{route_lookup}
use hf_ip.Net.Device.{netdev_transmit}
use hf_ip.Net.Arp.{arp_get_hwaddr}
use hf_ip.Net.Ip.{dst_neigh_output, ip_output, is_gateway}
use hf_ip.Tcp.Lifecycle.{tcp_release_rto_timer}
use hf_ip.SkBuff.{SkBuff, SkBuffHead, skb_peek, skb_push, skb_queue_empty, skb_reset_header}
use hf_ip.Tcp.{Conn, Sock, closing, etimedout}
use hf_ip.Tcp.Expiry.{back_off, replace_first, resend, tcp_retransmission_timeout}
use hf_ip.Tcp.Header.{segment_header, segment_skb, to_network, write_options}
use hf_ip.Tcp.Output.{tcp_transmit_skb}
use hf_ip.Tcp.Frame.{state-tcp_done}

-- Timeouts that follow each other with no segment between them.
abbrev pub timeouts : ℕ → Conn → Conn
timeouts zero c = c
timeouts (suc n) c = timeouts n (tcp_retransmission_timeout c)

-- The oldest buffer that is not acknowledged carries no FIN.
abbrev HasText : Conn → Type 0
HasText c = (skb : SkBuff) × (skb_peek c.sk.write_queue ≡ some skb) × (skb.th.fin ≡ false)

-- What a retransmission keeps, where there is a buffer to retransmit.
record Resent (c c' : Conn) (skb : SkBuff) : Type 0 where
  state : c'.sk.state ≡ c.sk.state
  rto : c'.rto ≡ c.rto
  first : SkBuff
  peek : skb_peek c'.sk.write_queue ≡ some first
  fin : first.th.fin ≡ skb.th.fin

neigh-fin :
    (rt : RtEntry) (ih : Iphdr) (skb : SkBuff) (n : Net)
    → (dst_neigh_output rt ih skb n).1.th ≡ skb.th
unfolding dst_neigh_output netdev_transmit skb_push
neigh-fin rt ih skb n =
    elim (Option-cases (arp_get_hwaddr (if is_gateway rt then rt.gateway else swap32 ih.daddr) n)) [
      | inl e ↦ rw (dst_neigh_output, e) refl
      | inr (mac, e) ↦ rw (dst_neigh_output, e) refl
    ]

output-fin : (daddr : ℕ) (skb : SkBuff) (n : Net) → (ip_output daddr skb n).1.th ≡ skb.th
unfolding ip_output skb_push
output-fin daddr skb n = elim (Option-cases (route_lookup daddr n)) [
  | inl e ↦ rw (ip_output, e) refl
  | inr (rt, e) ↦ rw (ip_output, e) (neigh-fin rt _ _ n)
]

header-fin : (c : Conn) (th : Tcphdr) (seq : ℕ) → (segment_header c th seq).fin ≡ th.fin
unfolding segment_header write_options
header-fin c th seq = ground arith

pub transmit-fin :
    (c : Conn) (skb : SkBuff) (seq : ℕ) → (tcp_transmit_skb c skb seq).1.th.fin ≡ skb.th.fin
unfolding tcp_transmit_skb segment_skb to_network skb_push
transmit-fin c skb seq =
    ap (λ (th : Tcphdr). th.fin)
      (output-fin c.sk.daddr (segment_skb c skb (segment_header c skb.th seq)) c.net)
    ∙ header-fin c skb.th seq

peek_replaced :
    (q : SkBuffHead) (skb first : SkBuff)
    → skb_peek q ≡ some skb
    → skb_peek (replace_first first q) ≡ some first
unfolding skb_peek skb_queue_empty
peek_replaced q skb first p = ground arith

resend-Resent :
    (c : Conn) (skb : SkBuff) → skb_peek c.sk.write_queue ≡ some skb → Resent c (resend c skb) skb
unfolding resend tcp_transmit_skb skb_reset_header
resend-Resent c skb p = record {
  state = refl;
  rto = refl;
  first = (tcp_transmit_skb c (skb_reset_header skb) c.tcb.snd_una).1;
  peek = peek_replaced c.sk.write_queue skb _ p;
  fin = transmit-fin c (skb_reset_header skb) c.tcb.snd_una;
}

back_off-ends :
    (c : Conn) (th : Tcphdr)
    → 60000 < c.rto
    → let c' = back_off c th in (c'.sk.state ≡ closing) × (c'.sk.err ≡ etimedout)
unfolding back_off
back_off-ends c th h =
    let e : ltb 60000 c.rto ≡ true = ground arith in
    rw e (ap (λ (sk : Sock). sk.state) (state-tcp_done c), refl)

back_off-doubles :
    (c : Conn) (th : Tcphdr)
    → c.rto ≤ 60000
    → th.fin ≡ false
    → let c' = back_off c th in (c'.sk ≡ c.sk) × (c'.rto ≡ c.rto * 2)
unfolding back_off
back_off-doubles c th h f =
    let e : ltb 60000 c.rto ≡ false = ground arith in rw (e, f) (refl, omega arith)

timeout_resends :
    (c : Conn) (skb : SkBuff)
    → skb_peek c.sk.write_queue ≡ some skb
    → (c1 : Conn) × Resent c c1 skb × (tcp_retransmission_timeout c ≡ back_off c1 skb.th)
unfolding tcp_retransmission_timeout tcp_release_rto_timer
timeout_resends c skb p =
    let c1 = tcp_release_rto_timer c in
    let r = resend-Resent c1 skb p in
    (
      resend c1 skb,
      record { state = r.state; rto = r.rto; first = r.first; peek = r.peek; fin = r.fin },
      rw (tcp_retransmission_timeout, p) refl,
    )

timeout_gives_up :
    (c : Conn)
    → HasText c
    → 60000 < c.rto
    → let c' = tcp_retransmission_timeout c in (c'.sk.state ≡ closing) × (c'.sk.err ≡ etimedout)
timeout_gives_up c (skb, p, f) h =
    let (c1, r, e) = timeout_resends c skb p in
    rw e (back_off-ends c1 skb.th (omega (arith, r.rto)))

-- A timeout with an RTO of at most 60 s keeps the state and doubles the RTO.
timeout_doubles :
    (c : Conn)
    → HasText c
    → c.rto ≤ 60000
    → let c' = tcp_retransmission_timeout c in
      (c'.sk.state ≡ c.sk.state) × (c'.rto ≡ c.rto * 2) × HasText c'
timeout_doubles c (skb, p, f) h =
    let (c1, r, e) = timeout_resends c skb p in
    let (k, d) = back_off-doubles c1 skb.th (omega (arith, r.rto)) f in
    rw e (
      ap (λ (sk : Sock). sk.state) k ∙ r.state,
      omega (arith, d, r.rto),
      (r.first, ap (λ (sk : Sock). skb_peek sk.write_queue) k ∙ r.peek, r.fin ∙ f),
    )

mul_two : (r p : ℕ) → r * (p * 2) ≡ r * 2 * p
mul_two r p = omega arith

doubled : (r r' n : ℕ) → r' ≡ r * 2 → 60000 < r * 2 ^ suc n → 60000 < r' * 2 ^ n
doubled r r' n e h =
    rw e (subst (λ x. 60000 < x) (ap (λ p. r * p) (pow-suc 2 n) ∙ mul_two r (2 ^ n)) h)

-- A peer that never acknowledges is given up, if the oldest buffer carries no FIN: if the RTO,
-- doubled `n` times, is above 60 s, then one of the first `n + 1` timeouts ends the connection
-- with ETIMEDOUT, and the timeouts before it leave the state as it is. From the smallest RTO that
-- a measurement sets, 200 ms, `n` is 9.
pub timeouts_end :
    (n : ℕ) (c : Conn)
    → HasText c
    → 60000 < c.rto * 2 ^ n
    → (m : ℕ) × (m ≤ n)
      × ((timeouts m c).sk.state ≡ c.sk.state)
      × ((timeouts (suc m) c).sk.state ≡ closing)
      × ((timeouts (suc m) c).sk.err ≡ etimedout)
timeouts_end zero c t h =
    let g = timeout_gives_up c t (omega arith) in (0, omega arith, refl, g.0, g.1)
timeouts_end (suc n) c t h = elim (Bool-cases (leb c.rto 60000)) [
  | inr large ↦ let g = timeout_gives_up c t (ground arith) in (0, omega arith, refl, g.0, g.1)
  | inl small ↦
      let (s, d, t1) = timeout_doubles c t (ground arith) in
      let c1 = tcp_retransmission_timeout c in
      let (m, le, k, g, err) = timeouts_end n c1 t1 (doubled c.rto c1.rto n d h) in
      (suc m, omega arith, k ∙ s, g, err)
]
