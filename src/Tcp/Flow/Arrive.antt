-- ===== src/Tcp/Flow/Arrive.antt =====
-- All branches of `tcp_input_state` of src/tcp_input.c behind the handshake, with the bytes of one
-- sender.
use hf_ip.Prelude.{
  Bool, List, ap, arith, false, if◌then◌else◌, length, not, refl, true, ℕ, ◌+◌, ◌<◌, ◌≡◌, ◌⊎◌,
}
use hf_ip.Packet.{Tcphdr}
use hf_ip.SkBuff.{SkBuff}
use hf_ip.Tcp.{
  Conn, TcpState, close, close_wait, closing, established, fin_wait_1, fin_wait_2, last_ack, listen,
  syn_received, syn_sent, time_wait,
}
use hf_ip.Tcp.Lifecycle.{recv_notify, tcp_enter_time_wait}
use hf_ip.Tcp.Output.{tcp_send_ack, tcp_send_challenge_ack}
use hf_ip.Tcp.Acks.{freed_skb, tcp_verify_segment}
use hf_ip.Tcp.Input.{ack_and_rest, input_otherwise, input_switch, tcp_input_state}
use hf_ip.Tcp.Calm.{Calm, Calm-if, Calm-refl, Calm-same, Calm-trans, phase}
use hf_ip.Tcp.Flow.{Calm-Intact, Intact, Room}
use hf_ip.Tcp.Calm.Segments.{Calm-ack, Calm-closed, Calm-freed, Calm-wait}
use hf_ip.Tcp.Flow.Fin.{Segment}
use hf_ip.Tcp.Flow.Input.{ack_and_rest-Intact}

verify-text :
    (c : Conn) (th : Tcphdr) (skb : SkBuff)
    → tcp_verify_segment c th skb ≡ true
    → (skb.dlen ≡ 0) ⊎ (0 < c.tcb.rcv_wnd)
unfolding tcp_verify_segment
verify-text c th skb h = ground arith

module _ (sent : List ℕ) (base : ℕ) (got : List ℕ) where
  Intact-cases :
      (b : Bool) (d e : Conn)
      → (b ≡ true → Intact sent base got d)
      → (b ≡ false → Intact sent base got e)
      → Intact sent base got (if b then d else e)
  Intact-cases true d e h k = h refl
  Intact-cases false d e h k = k refl

  otherwise-Intact :
      (c : Conn) (th : Tcphdr) (skb : SkBuff)
      → Intact sent base got c
      → Room c
      → base + length sent < 4294967295
      → Segment sent base th skb
      → Intact sent base got (input_otherwise c th skb)
  unfolding input_otherwise tcp_send_challenge_ack recv_notify
  otherwise-Intact c th skb i room w s =
      let stay : (d : Conn) → Calm c d → Intact sent base got d =
        λ d k. Calm-Intact sent base got c d k i in
      let acked = if th.rst then c else (tcp_send_ack c).0 in
      let ka = Calm-if th.rst c c (tcp_send_ack c).0 (Calm-refl c) (Calm-ack c) in
      let kf = Calm-freed c skb in
      let ended = tcp_enter_time_wait (freed_skb skb c) in
      Intact-cases (not (tcp_verify_segment c th skb)) (freed_skb skb acked) _
        (λ _. stay _ (Calm-trans c acked _ ka (Calm-freed acked skb)))
        (λ verified.
          Intact-cases th.rst (recv_notify ended) _
            (λ _. stay _ (
              Calm-trans c ended _
                (Calm-trans c (freed_skb skb c) ended kf (Calm-wait (freed_skb skb c)))
                (Calm-same ended _ refl refl refl refl refl refl)))
            (λ _.
              Intact-cases th.syn (freed_skb skb (tcp_send_challenge_ack c).0) _ (λ _. stay _ kf)
                (λ _.
                  Intact-cases th.ack (ack_and_rest c th skb) (freed_skb skb c)
                    (λ _.
                      ack_and_rest-Intact sent base got c th skb i room w s
                        (verify-text c th skb (ground arith)))
                    (λ _. stay _ kf))))

  input_switch-Intact :
      (s : TcpState) (c : Conn) (th : Tcphdr) (skb : SkBuff)
      → c.sk.state ≡ s
      → Intact sent base got c
      → Room c
      → base + length sent < 4294967295
      → Segment sent base th skb
      → Intact sent base got (input_switch s c th skb)
  unfolding input_switch
  input_switch-Intact close c th skb e i room w s =
      Calm-Intact sent base got c _ (Calm-closed c skb th) i
  input_switch-Intact listen c th skb e i room w s = absurd (omega (arith, i.synced, ap phase e))
  input_switch-Intact syn_sent c th skb e i room w s = absurd (omega (arith, i.synced, ap phase e))
  input_switch-Intact syn_received c th skb e i room w s = otherwise-Intact c th skb i room w s
  input_switch-Intact established c th skb e i room w s = otherwise-Intact c th skb i room w s
  input_switch-Intact fin_wait_1 c th skb e i room w s = otherwise-Intact c th skb i room w s
  input_switch-Intact fin_wait_2 c th skb e i room w s = otherwise-Intact c th skb i room w s
  input_switch-Intact close_wait c th skb e i room w s = otherwise-Intact c th skb i room w s
  input_switch-Intact closing c th skb e i room w s = otherwise-Intact c th skb i room w s
  input_switch-Intact last_ack c th skb e i room w s = otherwise-Intact c th skb i room w s
  input_switch-Intact time_wait c th skb e i room w s = otherwise-Intact c th skb i room w s

  -- A segment of the sender, whatever its place, leaves an intact connection intact.
  pub input-Intact :
      (c : Conn) (th : Tcphdr) (skb : SkBuff)
      → Intact sent base got c
      → Room c
      → base + length sent < 4294967295
      → Segment sent base th skb
      → Intact sent base got (tcp_input_state c th skb)
  unfolding tcp_input_state
  input-Intact c th skb i room w s = input_switch-Intact c.sk.state c th skb refl i room w s
