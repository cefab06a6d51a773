-- ===== src/Tcp/User/Close.antt =====
-- `tcp_close` of src/tcp.c: the FIN of a program that closes.
use hf_ip.Prelude.{
  Bool, Bool-cases, [], ap, false, if◌then◌else◌, inl, inr, refl, true, ◌++◌, ◌==◌, ◌||◌, ◌∙◌, ◌∷◌,
  ◌≡◌, ◌⊎◌,
}
use hf_ip.Prelude.Int.{neg, pos}
use hf_ip.SkBuff.{SkBuff, skb_queue_empty, skb_queue_tail}
use hf_ip.Tcp.{
  Conn, Sock, TcpState, close, close_wait, closing, established, fin_wait_1, fin_wait_2, last_ack,
  listen, syn_received, syn_sent, tcp_set_state, time_wait,
}
use hf_ip.Tcp.Lifecycle.{tcp_rearm_rto_timer}
use hf_ip.Tcp.Output.{
  tcp_queue_fin, tcp_queue_transmit_skb, tcp_transmit_skb, transmit_first, used_skb,
}
use hf_ip.Tcp.Frame.{sk-rearm_if, state-tcp_done}
use hf_ip.Tcp.Expiry.Backoff.{transmit-fin}
use hf_ip.Tcp.User.{close_switch, tcp_close}

-- The states in which a FIN is sent, and those that a close moves them to.
abbrev sends_fin : TcpState → Bool
sends_fin established = true
sends_fin close_wait = true
sends_fin _ = false

abbrev opening : TcpState → Bool
opening listen = true
opening syn_sent = true
opening syn_received = true
opening _ = false

abbrev after_close : TcpState → TcpState
after_close established = fin_wait_1
after_close close_wait = close_wait
after_close s = if opening s then closing else s

-- A FIN stands behind everything that was queued.
abbrev pub HasFin : Conn → Conn → Type 0
HasFin c c' =
    (skb : SkBuff) × (skb.th.fin ≡ true)
    × (c'.sk.write_queue.head ≡ c.sk.write_queue.head ++ skb ∷ [])

queue_transmit-fin :
    (c : Conn) (skb : SkBuff)
    → skb.th.fin ≡ true
    → let c' = (tcp_queue_transmit_skb c skb).0 in HasFin c c' × (c'.sk.state ≡ c.sk.state)
unfolding tcp_queue_transmit_skb transmit_first tcp_transmit_skb skb_queue_tail
queue_transmit-fin c skb f =
    let b = skb_queue_empty c.sk.write_queue in
    let c1 = if b then tcp_rearm_rto_timer c else c in
    let same = sk-rearm_if b c in
    let skb' = (transmit_first c1 skb).1 in
    elim (Bool-cases (c1.inflight == 0)) [
      | inl idle ↦ rw idle (
        (
          skb',
          transmit-fin c1 skb c1.tcb.snd_nxt ∙ f,
          ap (λ (sk : Sock). sk.write_queue.head ++ skb' ∷ []) same,
        ),
        ap (λ (sk : Sock). sk.state) same,
      )
      | inr busy ↦ rw busy (
        (skb, f, ap (λ (sk : Sock). sk.write_queue.head ++ skb ∷ []) same),
        ap (λ (sk : Sock). sk.state) same,
      )
    ]

queue_fin-fin :
    (c : Conn) → let c' = (tcp_queue_fin c).0 in HasFin c c' × (c'.sk.state ≡ c.sk.state)
unfolding tcp_queue_fin
queue_fin-fin c = queue_transmit-fin (used_skb c) _ refl

close_switch-state :
    (s : TcpState) (c : Conn)
    → c.sk.state ≡ s
    → let (c', rc) = close_switch s c in
      (c'.sk.state ≡ after_close s)
      × (rc ≡ (if sends_fin s || opening s then pos 0 else neg 1))
      × ((sends_fin s ≡ false) ⊎ HasFin c c')
unfolding close_switch tcp_set_state
close_switch-state listen c e = (ap (λ (sk : Sock). sk.state) (state-tcp_done c), refl, inl refl)
close_switch-state syn_sent c e = (ap (λ (sk : Sock). sk.state) (state-tcp_done c), refl, inl refl)
close_switch-state syn_received c e =
    (ap (λ (sk : Sock). sk.state) (state-tcp_done c), refl, inl refl)
close_switch-state established c e =
    let q = queue_fin-fin (tcp_set_state fin_wait_1 c) in (q.1, refl, inr q.0)
close_switch-state close_wait c e = let q = queue_fin-fin c in (q.1 ∙ e, refl, inr q.0)
close_switch-state fin_wait_1 c e = (e, refl, inl refl)
close_switch-state fin_wait_2 c e = (e, refl, inl refl)
close_switch-state close c e = (e, refl, inl refl)
close_switch-state closing c e = (e, refl, inl refl)
close_switch-state last_ack c e = (e, refl, inl refl)
close_switch-state time_wait c e = (e, refl, inl refl)

-- A close in ESTABLISHED enters FIN_WAIT_1, and one in CLOSE_WAIT leaves the state as it is; both put
-- one buffer with a FIN behind everything that was queued. A connection that is not yet established
-- ends. In every other state the close is refused with -1 and the state stays.
pub tcp_close-state :
    (c : Conn)
    → let (c', rc) = tcp_close c in
      (c'.sk.state ≡ after_close c.sk.state)
      × (rc ≡ (if sends_fin c.sk.state || opening c.sk.state then pos 0 else neg 1))
      × ((sends_fin c.sk.state ≡ false) ⊎ HasFin c c')
unfolding tcp_close
tcp_close-state c = close_switch-state c.sk.state c refl
