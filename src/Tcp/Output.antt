-- ===== src/Tcp/Output.antt =====
-- src/tcp_output.c: making and sending segments; the checksum functions of src/tcp.c.
pub mod Queued
pub mod Queue
pub mod Parts
use hf_ip.Tcp.Header.{
  clear_sacks, segment_header, segment_skb, tcp_alloc_skb, tcp_syn_options, tcp_write_syn_options,
  writes_sacks, zero_block,
}
use hf_ip.Prelude.{
  Bool, List, [], drop, false, get_or, if◌then◌else◌, length, ltb, suc, take, true, zero, ℕ, ◌&&◌,
  ◌*◌, ◌++◌, ◌+◌, ◌/◌, ◌==◌, ◌∷◌,
}
use hf_ip.Prelude.Int.{pos, ℤ}
use hf_ip.Word.{u32, u8}
use hf_ip.Packet.{bit}
use hf_ip.SkBuff.{SkBuff, free_skb, skb_push, skb_queue_empty, skb_queue_tail, skb_reset_header}
use hf_ip.Net.Ip.{ip_output}
use hf_ip.Tcp.{Conn, SackBlock, TcpState, close, listen, syn_sent, tcp_set_state}
use hf_ip.Tcp.Lifecycle.{is_close, is_syn_sent, tcp_rearm_rto_timer, tcp_rearm_user_timeout}

unfoldable pub tcp_transmit_skb : Conn → SkBuff → ℕ → Conn × SkBuff × ℤ
tcp_transmit_skb c skb seq =
    let host = segment_header c skb.th seq in
    let (net, skb', rc) = ip_output c.sk.daddr (segment_skb c skb host) c.net in
    let sent = ltb 5 host.hl && writes_sacks c in
    (
      record c {
        net = net;
        out = c.out ++ (host, skb.text) ∷ [];
        sacks = if sent then clear_sacks c.sacklen c.sacks else c.sacks;
        sacklen = if sent then 0 else c.sacklen;
      },
      skb',
      rc,
    )

-- `malloc` of a buffer's structure.
abbrev pub used_skb : Conn → Conn
used_skb c = record c { next_skb = suc c.next_skb }

-- A segment that is sent once and freed.
unfoldable pub send_once : Conn → SkBuff → ℕ → Conn × ℤ
unfolding free_skb
send_once c skb seq =
    let (c1, skb', rc) = tcp_transmit_skb (used_skb c) skb seq in
    (record c1 { freed = free_skb skb' c1.freed }, rc)

-- The first branch of `tcp_queue_transmit_skb`: nothing is in flight.
unfoldable pub transmit_first : Conn → SkBuff → Conn × SkBuff × ℤ
transmit_first c skb =
    let seq = c.tcb.snd_nxt in
    let (c1, skb1, rc) = tcp_transmit_skb c skb seq in
    let end_seq = u32 (seq + skb.dlen) in
    (
      record c1 {
        inflight = u32 (c1.inflight + 1);
        tcb = record c1.tcb { snd_nxt = u32 (end_seq + bit skb.th.fin) };
      },
      record skb1 { seq = seq; end_seq = end_seq },
      rc,
    )

abbrev pub queue_tail : Conn → SkBuff → Conn
queue_tail c skb = record c {
  sk = record c.sk { write_queue = skb_queue_tail c.sk.write_queue skb };
}

unfoldable pub tcp_queue_transmit_skb : Conn → SkBuff → Conn × ℤ
unfolding transmit_first
tcp_queue_transmit_skb c skb =
    let c1 = if skb_queue_empty c.sk.write_queue then tcp_rearm_rto_timer c else c in
    let (c2, skb2, rc) = transmit_first c1 skb in
    if c1.inflight == 0 then (queue_tail c2 skb2, rc) else (queue_tail c1 skb, pos 0)

unfoldable pub tcp_send_synack : Conn → Conn × ℤ
tcp_send_synack c =
    let skb = tcp_alloc_skb 0 0 c in
    let th = record skb.th { syn = true; ack = true } in
    if is_syn_sent c.sk.state
    then send_once c (record skb { th = th }) c.tcb.snd_nxt
    else (c, pos 1)

-- One round of the loop of `tcp_send_next`.
unfoldable pub send_one : Conn → SkBuff → Conn × SkBuff
send_one c next =
    let seq = c.tcb.snd_nxt in
    let (c1, skb, rc) = tcp_transmit_skb c (skb_reset_header next) seq in
    let end_seq = u32 (seq + next.dlen) in
    (
      record c1 { tcb = record c1.tcb { snd_nxt = u32 (end_seq + bit next.th.fin) } },
      record skb { seq = seq; end_seq = end_seq },
    )

-- Its loop over the write queue: what the buffers have become.
unfoldable pub send_loop : ℕ → Conn → List SkBuff → Conn × List SkBuff
send_loop zero c l = (c, l)
send_loop (suc amount) c [] = (c, [])
send_loop (suc amount) c (next ∷ rest) =
    let (c1, skb) = send_one c next in
    let (c2, rest') = send_loop amount c1 rest in (c2, skb ∷ rest')

unfoldable pub tcp_send_next : Conn → ℕ → Conn
tcp_send_next c amount =
    let (c1, l) = send_loop amount c c.sk.write_queue.head in
    record c1 { sk = record c1.sk { write_queue = record c1.sk.write_queue { head = l } } }

-- The loop of `tcp_options_len`: eight bytes for each block that is set.
unfoldable pub blocks_len : ℕ → List SackBlock → ℕ
blocks_len zero sacks = 0
blocks_len (suc i) sacks =
    (if (get_or sacks i zero_block).left == 0 then 0 else 8) + blocks_len i sacks

-- `while (optlen % 4 > 0) optlen++`
unfoldable pub tcp_options_len : Conn → ℕ
tcp_options_len c =
    let optlen = if c.sackok && ltb 0 c.sacklen then u8 (blocks_len c.sacklen c.sacks + 2) else 0 in
    (optlen + 3) / 4 * 4

unfoldable pub tcp_send_ack : Conn → Conn × ℤ
tcp_send_ack c =
    let optlen = tcp_options_len c in
    let skb = tcp_alloc_skb optlen 0 c in
    let th = record skb.th { ack = true; hl = 5 + optlen / 4 } in
    if is_close c.sk.state then (c, pos 0) else send_once c (record skb { th = th }) c.tcb.snd_nxt

abbrev pub may_connect : TcpState → Bool
may_connect syn_sent = true
may_connect close = true
may_connect listen = true
may_connect _ = false

unfoldable pub tcp_send_syn : Conn → Conn × ℤ
unfolding tcp_set_state
tcp_send_syn c =
    let optlen = tcp_syn_options c in
    let skb = tcp_alloc_skb optlen 0 c in
    let th = record (tcp_write_syn_options c skb.th optlen) { syn = true } in
    if may_connect c.sk.state
    then tcp_queue_transmit_skb (tcp_set_state syn_sent (used_skb c)) (record skb { th = th })
    else (c, pos 1)

-- `tcp_queue_fin`
unfoldable pub tcp_queue_fin : Conn → Conn × ℤ
tcp_queue_fin c =
    let skb = tcp_alloc_skb 0 0 c in
    tcp_queue_transmit_skb (used_skb c)
      (record skb { th = record skb.th { fin = true; ack = true } })

unfoldable tcp_send_fin : Conn → Conn × ℤ
tcp_send_fin c = if is_close c.sk.state then (c, pos 0) else tcp_queue_fin c

-- `iss` is what `generate_iss` returns, from the clock and `rand`.
unfoldable pub tcp_connect : ℕ → Conn → Conn × ℤ
tcp_connect iss c =
    let tcb = record c.tcb {
      iss = iss;
      snd_wnd = 0;
      snd_wl1 = 0;
      snd_una = iss;
      snd_up = iss;
      snd_nxt = iss;
      rcv_nxt = 0;
      rcv_wnd = 44477;
    } in
    let (c1, rc) = tcp_send_syn (record c { tcp_header_len = 20; tcb = tcb }) in
    (record c1 { tcb = record c1.tcb { snd_nxt = u32 (c1.tcb.snd_nxt + 1) } }, rc)

-- The buffer of one round of the loop of `tcp_send`.
unfoldable pub text_skb : Conn → List ℕ → Bool → SkBuff
text_skb c text last =
    let dlen = length text in
    let skb = skb_push dlen (tcp_alloc_skb 0 dlen c) in
    record skb { text = text; th = record skb.th { ack = true; psh = last } }

-- The loop of `tcp_send`, with the rounds allowed; the list is what is left of the text.
unfoldable pub text_loop : ℕ → Conn → List ℕ → Conn
text_loop zero c text = c
text_loop (suc rounds) c [] = c
text_loop (suc rounds) c (b ∷ text) =
    let chunk = take c.smss (b ∷ text) in
    let rest = drop c.smss (b ∷ text) in
    text_loop rounds (tcp_queue_transmit_skb (used_skb c) (text_skb c chunk (length rest == 0))).0
      rest

-- As many rounds as bytes are enough, for an MSS that is not 0 (`Queue`).
unfoldable pub tcp_send : Conn → List ℕ → Conn × ℤ
tcp_send c text = (tcp_rearm_user_timeout (text_loop (length text) c text), pos (length text))

unfoldable pub tcp_send_reset : Conn → Conn × ℤ
tcp_send_reset c =
    let skb = tcp_alloc_skb 0 0 c in
    let c1 = record c { tcb = record c.tcb { snd_una = c.tcb.snd_nxt } } in
    send_once c1 (record skb { th = record skb.th { rst = true } }) c.tcb.snd_nxt

-- `tcp_send_challenge_ack` is not implemented.
unfoldable pub tcp_send_challenge_ack : Conn → Conn × ℤ
tcp_send_challenge_ack c = (c, pos 0)
