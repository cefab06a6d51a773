-- ===== src/SkBuff/Bounds.antt =====
-- A transmission stays inside its buffer.
use hf_ip.Prelude.{arith, ℕ, ◌+◌, ◌-◌, ◌<◌, ◌≡◌}
use hf_ip.SkBuff.{SkBuff, skb_push, skb_reset_header}

-- `tcp_alloc_skb` reserves the headers, the options and the text, and `len` bytes were pushed.
pub record Reserved (optlen : ℕ) (skb : SkBuff) : Type 0 where
  pub size : skb.end ≡ 54 + optlen + skb.dlen
  pub small : skb.end < 4294967296
  pub text : (skb.offset ≡ skb.end - skb.dlen) × (skb.len ≡ skb.dlen)

-- The three headers that are pushed before the text end exactly at the start of the buffer, and
-- the frame that is written is the whole buffer; and `skb_reset_header` brings the buffer back to
-- where a retransmission pushes the same headers.
pub push_headers :
    (optlen : ℕ) (skb : SkBuff)
    → Reserved optlen skb
    → let sent = skb_push 14 (skb_push 20 (skb_push (20 + optlen) skb)) in
      (sent.offset ≡ 0) × (sent.len ≡ sent.end) × Reserved optlen (skb_reset_header sent)
unfolding skb_push skb_reset_header
push_headers optlen skb r = omega arith
