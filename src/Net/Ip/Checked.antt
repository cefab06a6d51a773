-- ===== src/Net/Ip/Checked.antt =====
-- The header checksum: what `ip_send_check` writes, `ip_rcv` accepts.
use native.Mathlib.Nat.{zero-add}
use hf_ip.Prelude.{List, ap, arith, take, ℕ, ◌%◌, ◌*◌, ◌++◌, ◌+◌, ◌-◌, ◌/◌, ◌<◌, ◌∙◌, ◌≡◌}
use hf_ip.Word.{u16, u8}
use hf_ip.Packet.{Iphdr, iphdr_bytes}
use hf_ip.Checksum.{checksum}
use hf_ip.Checksum.Fold.{ones}
use hf_ip.Checksum.Ones.{checksum-eq-ones, checksum-zero, ones-complement, words_sum}
use hf_ip.Net.Ip.{ip_send_check}

-- The words of a header, its checksum field apart.
abbrev plain_sum : Iphdr → ℕ
plain_sum h =
    u8 (h.ihl % 16 + h.version % 16 * 16)
    + u8 h.tos * 256
    + u16 h.len
    + u16 h.id
    + u16 h.frag_offset
    + (u8 h.ttl + u8 h.proto * 256)
    + u16 h.saddr
    + u16 (h.saddr / 65536)
    + u16 h.daddr
    + u16 (h.daddr / 65536)

header_sum :
    (h : Iphdr) (rest : List ℕ)
    → words_sum (take 20 (iphdr_bytes h ++ rest)) ≡ plain_sum h + u16 h.csum
unfolding iphdr_bytes
header_sum h rest = omega arith

header_sum_alone : (h : Iphdr) → words_sum (take 20 (iphdr_bytes h)) ≡ plain_sum h + u16 h.csum
unfolding iphdr_bytes
header_sum_alone h = omega arith

plain_sum-lt : (h : Iphdr) → plain_sum h < 700000
plain_sum-lt h = omega arith

sent_csum : (h : Iphdr) → h.csum ≡ 0 → checksum (iphdr_bytes h) 20 0 ≡ 65535 - ones (plain_sum h)
sent_csum h zero_csum =
    let sum : words_sum (take 20 (iphdr_bytes h)) ≡ plain_sum h =
      omega (arith, header_sum_alone h) in
    rw (checksum-eq-ones (iphdr_bytes h) 20 0 (omega (arith, plain_sum-lt h)), sum, zero-add)

-- A header of five words whose checksum field was zero gets a checksum with which it verifies,
-- whatever follows it in the buffer.
pub ip_send_check-verifies :
    (h : Iphdr) (rest : List ℕ)
    → h.ihl ≡ 5
    → h.csum ≡ 0
    → checksum (iphdr_bytes (ip_send_check h) ++ rest) 20 0 ≡ 0
unfolding ip_send_check
ip_send_check-verifies h rest five zero_csum =
    let c = u16 (checksum (iphdr_bytes h) (h.ihl * 4) 0) in
    let h' = record h { csum = c } in
    let len : h.ihl * 4 ≡ 20 = omega arith in
    let is : c ≡ 65535 - ones (plain_sum h) =
      ap u16 (ap (λ k. checksum (iphdr_bytes h) k 0) len ∙ sent_csum h zero_csum)
      ∙ omega (arith, ones-complement (plain_sum h)) in
    let sum = header_sum h' rest in
    (checksum-zero (iphdr_bytes h' ++ rest) 20 (omega (arith, plain_sum-lt h))).1
      (omega (arith, ones-complement (plain_sum h)))
