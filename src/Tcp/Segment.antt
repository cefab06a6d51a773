-- ===== src/Tcp/Segment.antt =====
-- `tcp_init_segment` of src/tcp.c: a received segment in host order.
pub mod Wire
use hf_ip.Packet.{Iphdr, Tcphdr, bit}
use hf_ip.Prelude.{ℕ, ◌*◌, ◌+◌}
use hf_ip.Word.{sub32, swap16, swap32, u32}
use hf_ip.SkBuff.{SkBuff}

-- `ip_len(ih) - tcp_hlen(th)`, which is stored in a uint32_t.
abbrev pub text_len : Iphdr → Tcphdr → ℕ
text_len ih th = sub32 (sub32 ih.len (ih.ihl * 4)) (th.hl * 4)

abbrev pub to_host : Tcphdr → Tcphdr
to_host th = record th {
  sport = swap16 th.sport;
  dport = swap16 th.dport;
  seq = swap32 th.seq;
  ack_seq = swap32 th.ack_seq;
  win = swap16 th.win;
  csum = swap16 th.csum;
  urp = swap16 th.urp;
}

-- The header and the buffer; `payload` is the memory from the end of the fixed header on.
unfoldable pub tcp_init_segment : Tcphdr → Iphdr → SkBuff → Tcphdr × SkBuff
tcp_init_segment net ih skb =
    let th = to_host net in
    let dlen = text_len ih th in
    (
      th,
      record skb {
        seq = th.seq;
        dlen = dlen;
        len = u32 (u32 (dlen + bit th.syn) + bit th.fin);
        end_seq = u32 (th.seq + dlen);
        payload = th.body;
        th = th;
      },
    )
