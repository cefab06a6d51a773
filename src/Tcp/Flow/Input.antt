-- ===== src/Tcp/Flow/Input.antt =====
-- `tcp_input_state` of src/tcp_input.c on a connection that has lost and made up nothing.
use hf_ip.Prelude.{
  Bool, List, ap, arith, false, if◌then◌else◌, inl, inr, leb, length, ltb, refl, true, ℕ, ◌&&◌, ◌+◌,
  ◌<◌, ◌≡◌, ◌≤◌, ◌⊎◌,
}
use hf_ip.Packet.{Tcphdr}
use hf_ip.SkBuff.{SkBuff}
use hf_ip.Tcp.{
  Conn, TcpState, close, close_wait, closing, established, fin_wait_1, fin_wait_2, last_ack, listen,
  syn_received, syn_sent, tcp_set_state, time_wait,
}
use hf_ip.Tcp.Acks.{freed_skb}
use hf_ip.Tcp.Input.{
  Stage, ack_and_rest, ack_established, ack_stage, ack_switch, after, empty_stage, go_on, return,
}
use hf_ip.Tcp.Input.Arrows.{staged}
use hf_ip.Tcp.Calm.{Calm, Calm-trans, phase}
use hf_ip.Tcp.Calm.Stages.{ack_switch-Calm, empty-Calm, established-Calm}
use hf_ip.Tcp.Flow.{Calm-Intact, Calm-Room, Intact, Room}
use hf_ip.Tcp.Flow.Fin.{Segment, text_and_fin-Intact}

-- A stage that goes on, goes on behind the handshake.
abbrev Open : Stage → Type 0
Open (return c) = Unit
Open (go_on c) = 2 ≤ phase c.sk.state

Open-Calm : (c : Conn) (s : Stage) → 2 ≤ phase c.sk.state → Calm c (staged s) → Open s
Open-Calm c (return d) h k = tt
Open-Calm c (go_on d) h k = omega (arith, k.later)

Open-if : (b : Bool) (s t : Stage) → Open s → Open t → Open (if b then s else t)
Open-if true s t h k = h
Open-if false s t h k = k

established-Open :
    (c : Conn) (th : Tcphdr) (skb : SkBuff) → 2 ≤ phase c.sk.state → Open (ack_established c th skb)
established-Open c th skb h = Open-Calm c (ack_established c th skb) h (established-Calm c th skb)

ack_switch-Open :
    (s : TcpState) (c : Conn) (th : Tcphdr) (skb : SkBuff)
    → c.sk.state ≡ s
    → 1 ≤ phase s
    → Open (ack_switch s c th skb)
unfolding ack_switch tcp_set_state
ack_switch-Open time_wait c th skb e h = omega (arith, ap phase e)
ack_switch-Open close c th skb e h = omega (arith, ap phase e)
ack_switch-Open listen c th skb e h = absurd (omega arith)
ack_switch-Open syn_sent c th skb e h = absurd (omega arith)
ack_switch-Open syn_received c th skb e h =
    Open-if (leb c.tcb.snd_una th.ack_seq && ltb th.ack_seq c.tcb.snd_nxt)
      (ack_established (tcp_set_state established c) th skb) (return (freed_skb skb c))
      (established-Open (tcp_set_state established c) th skb (omega arith)) tt
ack_switch-Open established c th skb e h = established-Open c th skb (omega (arith, ap phase e))
ack_switch-Open fin_wait_1 c th skb e h = established-Open c th skb (omega (arith, ap phase e))
ack_switch-Open fin_wait_2 c th skb e h = established-Open c th skb (omega (arith, ap phase e))
ack_switch-Open close_wait c th skb e h = established-Open c th skb (omega (arith, ap phase e))
ack_switch-Open closing c th skb e h = established-Open c th skb (omega (arith, ap phase e))
ack_switch-Open last_ack c th skb e h = established-Open c th skb (omega (arith, ap phase e))

module _ (sent : List ℕ) (base : ℕ) (got : List ℕ) where
  after-Intact :
      (c : Conn) (s : Stage) (f : Conn → Conn)
      → Intact sent base got c
      → Calm c (staged s)
      → Open s
      → ((d : Conn) → Calm c d → 2 ≤ phase d.sk.state → Intact sent base got (f d))
      → Intact sent base got (after s f)
  after-Intact c (return d) f i k o g = Calm-Intact sent base got c d k i
  after-Intact c (go_on d) f i k o g = g d k o

  pub ack_and_rest-Intact :
      (c : Conn) (th : Tcphdr) (skb : SkBuff)
      → Intact sent base got c
      → Room c
      → base + length sent < 4294967295
      → Segment sent base th skb
      → (skb.dlen ≡ 0) ⊎ (0 < c.tcb.rcv_wnd)
      → Intact sent base got (ack_and_rest c th skb)
  unfolding ack_and_rest ack_stage
  ack_and_rest-Intact c th skb i room w s open_ =
      let k = ack_switch-Calm c.sk.state c th skb refl in
      let o = ack_switch-Open c.sk.state c th skb refl i.synced in
      after-Intact c (ack_stage c th skb) _ i k o (λ d kd hd.
        let e = empty-Calm d th skb in
        let id = Calm-Intact sent base got c d kd i in
        after-Intact d (empty_stage d th skb) _ id e (Open-Calm d (empty_stage d th skb) hd e)
          (λ x kx hx.
            let all = Calm-trans c d x kd kx in
            let wnd : (skb.dlen ≡ 0) ⊎ (0 < x.tcb.rcv_wnd) = elim open_ [
              | inl z ↦ inl z
              | inr z ↦ inr (omega (arith, all.wnd))
            ] in
            text_and_fin-Intact sent base got x th skb (Calm-Intact sent base got c x all i)
              (Calm-Room c x all i.filled.ofo room) w hx s wnd))
