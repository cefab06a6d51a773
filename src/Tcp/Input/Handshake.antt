-- ===== src/Tcp/Input/Handshake.antt =====
-- `tcp_synsent` of src/tcp_input.c: the end of an active open.
use hf_ip.Prelude.{
  Bool, Option-cases, [], ap, arith, drop, false, if◌then◌else◌, inl, inr, length, ltb, lt→ltb,
  refl, suc, true, zero, ℕ, ◌&&◌, ◌++◌, ◌+◌, ◌<◌, ◌∙◌, ◌∷◌, ◌≡◌, ◌≤◌,
}
use hf_ip.Word.{u32}
use hf_ip.Packet.{Tcphdr}
use hf_ip.SkBuff.{SkBuff, skb_peek}
use hf_ip.Tcp.{Conn, Sock, Tcb, established, ss_connected, syn_received, syn_sent, tcp_set_state}
use hf_ip.Tcp.Lifecycle.{tcp_rearm_user_timeout, tcp_stop_rto_timer}
use hf_ip.Tcp.Output.{tcp_send_ack, tcp_send_synack}
use hf_ip.Tcp.Sack.{tcp_parse_opts}
use hf_ip.Tcp.Acks.{clean_loop, clean_one, freed_skb, tcp_clean_rto_queue}
use hf_ip.Tcp.Syn.{
  ack_unacceptable, enter_established, enter_syn_received, sock_connected, syn_taken, tcp_synsent,
}
use hf_ip.Tcp.Input.{tcp_input_state}
use hf_ip.Tcp.Frame.{Acknowledges, send_ack-Acknowledges, send_ack_same, tcb-clean}

pub synsent-taken :
    (c : Conn) (th : Tcphdr) (skb : SkBuff)
    → c.sk.state ≡ syn_sent
    → tcp_input_state c th skb ≡ tcp_synsent c skb th
unfolding tcp_input_state
synsent-taken c th skb e = rw (tcp_input_state, e) refl

out-clean_loop : (rounds una : ℕ) (c : Conn) → (clean_loop rounds una c).out ≡ c.out
unfolding clean_loop clean_one
out-clean_loop zero una c = refl
out-clean_loop (suc rounds) una c = elim (Option-cases (skb_peek c.sk.write_queue)) [
  | inl e ↦ ground arith
  | inr (skb, e) ↦ ground (arith, out-clean_loop rounds una (clean_one c skb))
]

out-clean : (una : ℕ) (c : Conn) → (tcp_clean_rto_queue una c).out ≡ c.out
unfolding tcp_clean_rto_queue tcp_stop_rto_timer
out-clean una c = ground (arith, out-clean_loop (length c.sk.write_queue.head) una c)

-- The sequence numbers when a SYN that carries an acknowledgment is taken.
abbrev taken_tcb : Conn → Tcphdr → Tcb
taken_tcb c th = record c.tcb { rcv_nxt = u32 (th.seq + 1); irs = th.seq; snd_una = th.ack_seq }

syn_taken-ack :
    (c : Conn) (th : Tcphdr)
    → th.ack ≡ true
    → let c1 = syn_taken c th in (c1.tcb ≡ taken_tcb c th) × (c1.out ≡ c.out)
unfolding syn_taken
syn_taken-ack c th a =
    let c1 = record c { tcb = taken_tcb c th } in
    rw (syn_taken, a) ((tcb-clean th.ack_seq c1).0, out-clean th.ack_seq c1)

-- What a segment makes of a connection that becomes established.
record Established (c c' : Conn) : Type 0 where
  state : c'.sk.state ≡ established
  socket : c'.sock.state ≡ ss_connected
  tcb : c'.tcb ≡ record c.tcb { snd_una = c.tcb.snd_nxt }
  acked : Acknowledges c c'.out

rearm-kept :
    (c : Conn)
    → let c' = tcp_rearm_user_timeout c in (c'.sk ≡ c.sk) × (c'.tcb ≡ c.tcb) × (c'.out ≡ c.out)
unfolding tcp_rearm_user_timeout
rearm-kept c = ground arith

opts-kept :
    (c : Conn) (th : Tcphdr)
    → let c' = sock_connected (tcp_parse_opts c th) in
      (c'.sk.state ≡ c.sk.state)
      × (c'.sock.state ≡ ss_connected)
      × (c'.tcb ≡ c.tcb)
      × (c'.out ≡ c.out)
unfolding sock_connected tcp_parse_opts
opts-kept c th = (refl, refl, refl, refl)

enter_established-lem : (c : Conn) (th : Tcphdr) → Established c (enter_established c th)
unfolding enter_established tcp_set_state
enter_established-lem c th =
    let c1 = tcp_set_state established c in
    let c2 = record c1 {
      tcb = record c1.tcb { snd_una = c1.tcb.snd_nxt };
      backoff = 0;
      rto = 1000;
    } in
    let same = send_ack_same c2 in
    let ack = send_ack-Acknowledges c2 refl in
    let (sk_same, tcb_same, out_same) = rearm-kept (tcp_send_ack c2).0 in
    let (state, socket, tcb, out) = opts-kept (tcp_rearm_user_timeout (tcp_send_ack c2).0) th in
    record {
      state = state ∙ ap (λ (sk : Sock). sk.state) (sk_same ∙ same.sk);
      socket = socket;
      tcb = tcb ∙ tcb_same ∙ same.tcb;
      acked = record {
        header = ack.header;
        sent = out ∙ out_same ∙ ack.sent;
        ack = ack.ack;
        seq = ack.seq;
        ack_seq = ack.ack_seq;
        flags = ack.flags;
      };
    }

-- Our SYN is answered by a SYN that acknowledges it.
pub record Answered (c : Conn) (th : Tcphdr) : Type 0 where
  pub waiting : c.sk.state ≡ syn_sent
  pub syn : th.syn ≡ true
  pub ack : th.ack ≡ true
  pub no_rst : th.rst ≡ false
  pub acked : c.tcb.iss < th.ack_seq
  pub sent : th.ack_seq ≤ c.tcb.snd_nxt
  pub after_una : c.tcb.snd_una ≤ th.ack_seq

answered_branch :
    (ack bad rst syn newer : Bool) (drop reset old new keep : Conn)
    → ack ≡ true
    → bad ≡ false
    → rst ≡ false
    → syn ≡ true
    → newer ≡ true
    → (if ack && bad
        then drop
        else (if rst then reset else (if syn then (if newer then new else old) else keep)))
      ≡ new
answered_branch ack bad rst syn newer drop reset old new keep a b r s n = rw (a, b, r, s, n) refl

pub synsent-established :
    (c : Conn) (th : Tcphdr) (skb : SkBuff)
    → Answered c th
    → tcp_synsent c skb th ≡ freed_skb skb (enter_established (syn_taken c th) th)
unfolding tcp_synsent
synsent-established c th skb a =
    let (tcb, out) = syn_taken-ack c th a.ack in
    let ok : ack_unacceptable c th ≡ false = ground arith in
    let newer : ltb (syn_taken c th).tcb.iss (syn_taken c th).tcb.snd_una ≡ true =
      rw tcb (lt→ltb c.tcb.iss th.ack_seq a.acked) in
    ap (freed_skb skb) (
      answered_branch th.ack (ack_unacceptable c th) th.rst th.syn _ _ _ _ _ _ a.ack ok a.no_rst
        a.syn newer)

-- In SYN_SENT a SYN that acknowledges ours establishes the connection: the program's connect ends,
-- the next sequence number expected is the one behind the peer's SYN, nothing of ours is left
-- unacknowledged, and exactly one segment is sent, which acknowledges the peer's SYN.
pub synack_establishes :
    (c : Conn) (th : Tcphdr) (skb : SkBuff)
    → Answered c th
    → let c' = tcp_input_state c th skb in
      (c'.sk.state ≡ established)
      × (c'.sock.state ≡ ss_connected)
      × (c'.tcb.rcv_nxt ≡ u32 (th.seq + 1))
      × (c'.tcb.snd_una ≡ c.tcb.snd_nxt)
      × ((h : Tcphdr) × (c'.out ≡ c.out ++ (h, []) ∷ [])
          × (h.ack ≡ true)
          × (h.syn ≡ false)
          × (h.seq ≡ c.tcb.snd_nxt)
          × (h.ack_seq ≡ u32 (th.seq + 1)))
synack_establishes c th skb a =
    let (tcb, out) = syn_taken-ack c th a.ack in
    let x = enter_established-lem (syn_taken c th) th in
    rw (synsent-taken c th skb a.waiting, synsent-established c th skb a)
      (
        x.state,
        x.socket,
        ap (λ (t : Tcb). t.rcv_nxt) x.tcb ∙ ap (λ (t : Tcb). t.rcv_nxt) tcb,
        ap (λ (t : Tcb). t.snd_una) x.tcb ∙ ap (λ (t : Tcb). t.snd_nxt) tcb,
        (
          x.acked.header,
          x.acked.sent ∙ ap (λ o. o ++ (x.acked.header, []) ∷ []) out,
          x.acked.ack,
          x.acked.flags.0,
          x.acked.seq ∙ ap (λ (t : Tcb). t.snd_nxt) tcb,
          x.acked.ack_seq ∙ ap (λ (t : Tcb). t.rcv_nxt) tcb,
        ),
      )

crossed :
    (c : Conn) (th : Tcphdr) (skb : SkBuff)
    → th.syn ≡ true
    → th.ack ≡ false
    → th.rst ≡ false
    → c.tcb.snd_una ≡ c.tcb.iss
    → let c' = tcp_synsent c skb th in
      (c'.sk.state ≡ syn_received) × (c'.tcb.rcv_nxt ≡ u32 (th.seq + 1)) × (c'.out ≡ c.out)
unfolding tcp_synsent syn_taken enter_syn_received tcp_set_state tcp_send_synack
crossed c th skb s a r u =
    let old : ltb c.tcb.iss c.tcb.snd_una ≡ false = ground arith in
    rw (a, r, s, old) (refl, refl, refl)

-- A simultaneous open: a SYN without an acknowledgment arrives in SYN_SENT, before anything was
-- acknowledged. The connection enters SYN_RECEIVED and expects the number behind the peer's SYN,
-- but nothing is sent: `tcp_send_synack` sends only in SYN_SENT, which has been left.
pub simultaneous_open_silent :
    (c : Conn) (th : Tcphdr) (skb : SkBuff)
    → c.sk.state ≡ syn_sent
    → th.syn ≡ true
    → th.ack ≡ false
    → th.rst ≡ false
    → c.tcb.snd_una ≡ c.tcb.iss
    → let c' = tcp_input_state c th skb in
      (c'.sk.state ≡ syn_received) × (c'.tcb.rcv_nxt ≡ u32 (th.seq + 1)) × (c'.out ≡ c.out)
simultaneous_open_silent c th skb e s a r u =
    rw (synsent-taken c th skb e) (crossed c th skb s a r u)
