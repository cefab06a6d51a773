-- ===== src/Net/Ip/Output.antt =====
-- What `ip_output` puts on the wire, and what the receiving end of the same stack makes of it.
use hf_ip.Prelude.{List, ap, arith, if◌then◌else◌, refl, ℕ, ◌++◌, ◌<◌, ◌==◌, ◌∙◌, ◌≡◌}
use hf_ip.Word.{swap16}
use hf_ip.Packet.{Iphdr, iphdr_bytes, read_iphdr}
use hf_ip.Packet.Layout.{IphdrFits, read_iphdr-bytes}
use hf_ip.Checksum.{checksum}
use hf_ip.Net.Ip.{
  Verdict, drop_pkt, icmpv4, ip_init_pkt, ip_rcv, ip_send_check, ip_tcp, output_header, to_icmp,
  to_tcp,
}
use hf_ip.Net.Ip.Checked.{ip_send_check-verifies}

-- The header of a datagram as the receiver has it in host order.
abbrev pub received_header : ℕ → ℕ → ℕ → ℕ → ℕ → ℕ → Iphdr
received_header len id proto saddr daddr csum = record {
  ihl = 5;
  version = 4;
  tos = 0;
  len = len;
  id = id;
  frag_offset = swap16 0x4000;
  ttl = 64;
  proto = proto;
  csum = csum;
  saddr = saddr;
  daddr = daddr;
}

-- The words of a header fit their members.
pub record Fits (len id proto saddr daddr : ℕ) : Type 0 where
  pub len_fits : len < 65536
  pub id_fits : id < 65536
  pub proto_fits : proto < 256
  pub saddr_fits : saddr < 4294967296
  pub daddr_fits : daddr < 4294967296

abbrev checked : ℕ → ℕ → ℕ → ℕ → ℕ → Iphdr
checked len id proto saddr daddr = ip_send_check (output_header len id proto saddr daddr)

checked-Fits :
    (len id proto saddr daddr : ℕ)
    → Fits len id proto saddr daddr
    → IphdrFits (checked len id proto saddr daddr)
unfolding ip_send_check output_header
checked-Fits len id proto saddr daddr f = omega arith

read-checked :
    (len id proto saddr daddr : ℕ) (rest : List ℕ)
    → Fits len id proto saddr daddr
    → read_iphdr (iphdr_bytes (checked len id proto saddr daddr) ++ rest)
      ≡ checked len id proto saddr daddr
read-checked len id proto saddr daddr rest f =
    read_iphdr-bytes (checked len id proto saddr daddr) rest
      (checked-Fits len id proto saddr daddr f)

verifies :
    (len id proto saddr daddr : ℕ) (rest : List ℕ)
    → checksum (iphdr_bytes (checked len id proto saddr daddr) ++ rest) 20 0 ≡ 0
unfolding output_header
verifies len id proto saddr daddr rest =
    ip_send_check-verifies (output_header len id proto saddr daddr) rest refl refl

in_host_order :
    (len id proto saddr daddr : ℕ)
    → Fits len id proto saddr daddr
    → ip_init_pkt (checked len id proto saddr daddr)
      ≡ received_header len id proto saddr daddr (checked len id proto saddr daddr).csum
unfolding ip_init_pkt ip_send_check output_header
in_host_order len id proto saddr daddr f = ground arith

-- The branch of `ip_rcv` behind its checks.
abbrev upper : Iphdr → Verdict
upper ih =
    if ih.proto == icmpv4
    then to_icmp (ip_init_pkt ih)
    else (if ih.proto == ip_tcp then to_tcp (ip_init_pkt ih) else drop_pkt)

passes :
    (m : List ℕ) (ih : Iphdr)
    → read_iphdr m ≡ ih
    → ih.version ≡ 4
    → ih.ihl ≡ 5
    → ih.ttl ≡ 64
    → checksum m 20 0 ≡ 0
    → ip_rcv m ≡ upper ih
unfolding ip_rcv
passes m ih r v l t c = rw (r, v, l, t, c)

received :
    (len id proto saddr daddr : ℕ) (rest : List ℕ)
    → Fits len id proto saddr daddr
    → ip_rcv (iphdr_bytes (checked len id proto saddr daddr) ++ rest)
      ≡ upper (checked len id proto saddr daddr)
unfolding ip_send_check output_header
received len id proto saddr daddr rest f =
    passes (iphdr_bytes (checked len id proto saddr daddr) ++ rest)
      (checked len id proto saddr daddr) (read-checked len id proto saddr daddr rest f) refl refl
      refl (verifies len id proto saddr daddr rest)

-- A header that `ip_output` makes passes all the checks of `ip_rcv`, and reaches the layer that it
-- names, ICMP or TCP, with the length, identification and addresses that it was given, in host
-- order.
pub ip_rcv-output :
    (len id saddr daddr : ℕ) (rest : List ℕ)
    → Fits len id 0 saddr daddr
    → let sent = λ (proto : ℕ). ip_send_check (output_header len id proto saddr daddr) in
      (ip_rcv (iphdr_bytes (sent ip_tcp) ++ rest)
        ≡ to_tcp (received_header len id ip_tcp saddr daddr (sent ip_tcp).csum))
      × (ip_rcv (iphdr_bytes (sent icmpv4) ++ rest)
          ≡ to_icmp (received_header len id icmpv4 saddr daddr (sent icmpv4).csum))
unfolding ip_send_check output_header
ip_rcv-output len id saddr daddr rest f = (
  received len id ip_tcp saddr daddr rest (omega arith)
      ∙ ap to_tcp (in_host_order len id ip_tcp saddr daddr (omega arith)),
  received len id icmpv4 saddr daddr rest (omega arith)
      ∙ ap to_icmp (in_host_order len id icmpv4 saddr daddr (omega arith)),
)
