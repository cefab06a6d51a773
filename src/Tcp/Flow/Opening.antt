-- ===== src/Tcp/Flow/Opening.antt =====
-- The handshake of src/tcp_input.c begins the history of a connection with its peer.
use mathlib.Core.Path.{subst}
use hf_ip.Prelude.{Bool, ap, false, if◌then◌else◌, inl, inr, refl, sym, true, ◌+◌, ◌∙◌, ◌≡◌}
use hf_ip.Word.{u32}
use hf_ip.Packet.{Tcphdr}
use hf_ip.SkBuff.{SkBuff, skb_queue_init}
use hf_ip.SkBuff.Queue.{IsCounted}
use hf_ip.Tcp.{Conn, established, tcp_set_state}
use hf_ip.Tcp.Lifecycle.{tcp_rearm_user_timeout, wake_sleep}
use hf_ip.Tcp.Output.{tcp_send_ack}
use hf_ip.Tcp.Sack.{tcp_parse_opts}
use hf_ip.Tcp.Acks.{freed_skb, tcp_clean_rto_queue}
use hf_ip.Tcp.Syn.{enter_established, sock_connected, syn_taken}
use hf_ip.Tcp.Input.{tcp_input_state}
use hf_ip.Tcp.Input.Handshake.{Answered, synack_establishes, synsent-established, synsent-taken}
use hf_ip.Tcp.Calm.{Calm, Calm-trans, init-IsCounted, phase}
use hf_ip.Tcp.Calm.Segments.{Calm-ack, Calm-clean}
use hf_ip.Tcp.Calm.Calls.{Calm-rearm_user}
use hf_ip.Tcp.Flow.History.{Fresh}

-- No text has been received.
pub record Blank (c : Conn) : Type 0 where
  pub receive : c.sk.receive_queue ≡ skb_queue_init
  pub ofo : c.ofo_queue ≡ skb_queue_init

Blank-Calm : (c d : Conn) → Calm c d → Blank c → Blank d
Blank-Calm c d k b = record {
  receive = k.receive ∙ b.receive;
  ofo = elim (k.ofo (subst IsCounted (sym b.ofo) init-IsCounted)) [ inl e ↦ e ∙ b.ofo | inr e ↦ e ];
}

Blank-same :
    (c d : Conn)
    → d.sk.receive_queue ≡ c.sk.receive_queue
    → d.ofo_queue ≡ c.ofo_queue
    → Blank c
    → Blank d
Blank-same c d q o b = record { receive = q ∙ b.receive; ofo = o ∙ b.ofo }

Blank-if : (b : Bool) (c d : Conn) → Blank c → Blank d → Blank (if b then c else d)
Blank-if true c d h k = h
Blank-if false c d h k = k

taken-Blank : (c : Conn) (th : Tcphdr) → Blank c → Blank (syn_taken c th)
unfolding syn_taken
taken-Blank c th b =
    let c1 = record c { tcb = record c.tcb { rcv_nxt = u32 (th.seq + 1); irs = th.seq } } in
    let c2 = record c1 { tcb = record c1.tcb { snd_una = th.ack_seq } } in
    Blank-if th.ack (tcp_clean_rto_queue th.ack_seq c2) c1
      (Blank-Calm c2 _ (Calm-clean th.ack_seq c2) (Blank-same c c2 refl refl b))
      (Blank-same c c1 refl refl b)

established-Blank : (c : Conn) (th : Tcphdr) → Blank c → Blank (enter_established c th)
unfolding enter_established tcp_set_state sock_connected wake_sleep tcp_parse_opts
established-Blank c th b =
    let c1 = tcp_set_state established c in
    let c2 = record c1 {
      tcb = record c1.tcb { snd_una = c1.tcb.snd_nxt };
      backoff = 0;
      rto = 1000;
    } in
    let c3 = (tcp_send_ack c2).0 in
    let c4 = tcp_rearm_user_timeout c3 in
    Blank-same c4 _ refl refl (
      Blank-Calm c2 c4 (Calm-trans c2 c3 c4 (Calm-ack c2) (Calm-rearm_user c3))
        (Blank-same c c2 refl refl b))

-- In SYN_SENT, when no text has been received, a SYN without RST that acknowledges ours leaves a
-- connection at the beginning of its history with a sender whose first byte has the number behind
-- the SYN.
pub tcp_synsent-Fresh :
    (c : Conn) (th : Tcphdr) (skb : SkBuff)
    → Answered c th
    → Blank c
    → Fresh (u32 (th.seq + 1)) (tcp_input_state c th skb)
tcp_synsent-Fresh c th skb a b =
    let (state, sock, nxt, una, out) = synack_establishes c th skb a in
    let same = synsent-taken c th skb a.waiting ∙ synsent-established c th skb a in
    let d : Blank (enter_established (syn_taken c th) th) =
      established-Blank (syn_taken c th) th (taken-Blank c th b) in
    let e : Blank (tcp_input_state c th skb) =
      subst Blank (sym same) (Blank-same _ (freed_skb skb _) refl refl d) in
    record { receive = e.receive; ofo = e.ofo; next = nxt; early = inr (ap phase state) }
