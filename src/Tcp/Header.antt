-- ===== src/Tcp/Header.antt =====
-- The header of a segment that is sent, with its options and checksum: src/tcp_output.c and src/tcp.c.
use hf_ip.Prelude.{
  Bool, List, [], drop, get_or, if◌then◌else◌, length, ltb, not, replicate, set, suc, zero, ℕ, ◌&&◌,
  ◌*◌, ◌++◌, ◌+◌, ◌/◌, ◌==◌, ◌∷◌,
}
use hf_ip.Word.{bytes16, bytes32, swap16, swap32, u16, u32, u8}
use hf_ip.Packet.{Tcphdr, tcphdr_bytes}
use hf_ip.SkBuff.{SkBuff, alloc_skb, skb_push, skb_reserve, zero_tcphdr}
use hf_ip.Checksum.{checksum}
use hf_ip.Net.Ip.{ip_tcp}
use hf_ip.Tcp.{Conn, SackBlock}

abbrev pub zero_block : SackBlock
zero_block = record { left = 0; right = 0 }

-- `tcp_alloc_skb`: zeroed, with room for the headers and `optlen` bytes of options.
unfoldable pub tcp_alloc_skb : ℕ → ℕ → Conn → SkBuff
unfolding alloc_skb skb_reserve
tcp_alloc_skb optlen size c =
    let reserved = 54 + optlen + size in
    let skb = skb_reserve reserved (alloc_skb c.next_skb reserved) in
    record skb {
      protocol = ip_tcp;
      dlen = size;
      seq = 0;
      th = record zero_tcphdr { body = replicate optlen 0 };
      text = replicate size 0;
    }

-- Bytes written over the start of a memory region.
abbrev overwrite : List ℕ → List ℕ → List ℕ
overwrite new old = new ++ drop (length new) old

-- `tcp_syn_options`: the length of the options, with the MSS and SACK-permitted in them.
unfoldable pub tcp_syn_options : Conn → ℕ
tcp_syn_options c = if c.sackok then 8 else 4

-- `tcp_write_syn_options`
unfoldable pub tcp_write_syn_options : Conn → Tcphdr → ℕ → Tcphdr
tcp_write_syn_options c th optlen =
    let mss = 2 ∷ 4 ∷ bytes16 (swap16 (u16 c.rmss)) in
    let sack = if c.sackok then 1 ∷ 1 ∷ 4 ∷ 2 ∷ [] else [] in
    record th { body = overwrite (mss ++ sack) th.body; hl = 5 + optlen / 4 }

-- The loop of `tcp_write_options`, from the last block down.
unfoldable pub sack_bytes : ℕ → List SackBlock → List ℕ
sack_bytes zero sacks = []
sack_bytes (suc i) sacks =
    let b = get_or sacks i zero_block in
    bytes32 (swap32 b.left) ++ bytes32 (swap32 b.right) ++ sack_bytes i sacks

-- The blocks that the loop has set to zero.
unfoldable pub clear_sacks : ℕ → List SackBlock → List SackBlock
clear_sacks zero sacks = sacks
clear_sacks (suc i) sacks = clear_sacks i (set sacks i zero_block)

abbrev pub writes_sacks : Conn → Bool
writes_sacks c = c.sackok && not ((get_or c.sacks 0 zero_block).left == 0)

-- What `tcp_write_options` leaves in the header.
unfoldable pub write_options : Conn → Tcphdr → Tcphdr
write_options c th =
    if writes_sacks c
    then record th {
      body = overwrite (1 ∷ 1 ∷ 5 ∷ u8 (2 + c.sacklen * 8) ∷ sack_bytes c.sacklen c.sacks) th.body;
    }
    else th

unfoldable tcp_udp_checksum : ℕ → ℕ → ℕ → List ℕ → ℕ → ℕ
tcp_udp_checksum saddr daddr proto bytes len =
    checksum bytes len (u32 (u32 (u32 (u32 saddr + daddr) + swap16 proto) + swap16 len))

unfoldable pub tcp_v4_checksum : SkBuff → ℕ → ℕ → ℕ
unfolding tcp_udp_checksum
tcp_v4_checksum skb saddr daddr = tcp_udp_checksum saddr daddr ip_tcp skb.bytes (u16 skb.len)

-- The header that `tcp_transmit_skb` fills in, in host order.
unfoldable pub segment_header : Conn → Tcphdr → ℕ → Tcphdr
segment_header c th seq =
    let hl = if th.hl == 0 then 5 else th.hl in
    let filled = record th {
      hl = hl;
      sport = c.sk.sport;
      dport = c.sk.dport;
      seq = seq;
      ack_seq = c.tcb.rcv_nxt;
      rsvd = 0;
      win = u16 c.tcb.rcv_wnd;
      csum = 0;
      urp = 0;
    } in
    if ltb 5 hl then write_options c filled else filled

unfoldable pub to_network : Tcphdr → Tcphdr
to_network th = record th {
  sport = swap16 th.sport;
  dport = swap16 th.dport;
  seq = swap32 th.seq;
  ack_seq = swap32 th.ack_seq;
  win = swap16 th.win;
  csum = swap16 th.csum;
  urp = swap16 th.urp;
}

-- The buffer that goes to the IP layer: the header with its checksum, and the text.
unfoldable pub segment_skb : Conn → SkBuff → Tcphdr → SkBuff
segment_skb c skb host =
    let th = to_network host in
    let skb1 = record (skb_push (host.hl * 4) skb) { bytes = tcphdr_bytes th ++ skb.text } in
    let csum = u16 (tcp_v4_checksum skb1 (swap32 c.sk.saddr) (swap32 c.sk.daddr)) in
    let th' = record th { csum = csum } in
    record skb1 { th = th'; bytes = tcphdr_bytes th' ++ skb.text }
