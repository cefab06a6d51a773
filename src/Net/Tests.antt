-- ===== src/Net/Tests.antt =====
-- The layers below TCP on a concrete configuration: the device 10.0.0.4 with a gateway 10.0.0.1.
use hf_ip.Packet.{iphdr_bytes, read_arp_hdr, read_arp_ipv4}
use hf_ip.Prelude.{List, [], arith, refl, replicate, some, ℕ, ◌++◌, ◌↔◌, ◌∷◌, ◌≡◌, ◌⊎◌}
use hf_ip.Prelude.Int.{pos}
use hf_ip.SkBuff.{SkBuff, zero_tcphdr}
use hf_ip.Net.{ArpEntry, Net, NetDev, RtEntry}
use hf_ip.Net.Route.{route_lookup}
use hf_ip.Net.Route.Lookup.{IsFirst, IsLast, route_lookup_iff}
use hf_ip.Net.Arp.{arp_ethernet, arp_get_hwaddr, arp_in, arp_rcv, arp_resolved, hwaddr_loop}
use hf_ip.Net.Arp.Entries.{IsTable}
use hf_ip.Net.Arp.Table.{arp_rcv-IsTable, arp_rcv_refines}
use hf_ip.Net.Ip.{icmpv4, ip_rcv, ip_send_check, ip_tcp, output_header, to_icmp, to_tcp}
use hf_ip.Net.Ip.Output.{ip_rcv-output, received_header}

abbrev tap : NetDev
tap = record {
  addr = 0x0a000004;
  addr_len = 6;
  hwaddr = 0 ∷ 12 ∷ 41 ∷ 109 ∷ 80 ∷ 37 ∷ [];
  mtu = 1500;
}

abbrev local_net : RtEntry
local_net = record {
  dst = 0x0a000000;
  gateway = 0;
  netmask = 0xffffff00;
  flags = 1;
  metric = 0;
  dev = tap;
}

abbrev default_route : RtEntry
default_route = record {
  dst = 0;
  gateway = 0x0a000001;
  netmask = 0;
  flags = 2;
  metric = 0;
  dev = tap;
}

abbrev peer_mac : List ℕ
peer_mac = 1 ∷ 2 ∷ 3 ∷ 4 ∷ 5 ∷ 6 ∷ []

abbrev peer : ArpEntry
peer = record { hwtype = arp_ethernet; sip = 0x0a000005; smac = peer_mac; state = arp_resolved }

abbrev net : Net
net = record {
  routes = local_net ∷ default_route ∷ [];
  arp_cache = peer ∷ [];
  netdev = tap;
  loop = record tap { addr = 0x7f000001 };
  tun_result = (λ len. pos len);
  sent = [];
}

route_lookup_iff_example :
    (route_lookup 0x08080808 net ≡ some default_route)
    ↔ (IsFirst 0x08080808 default_route net.routes ⊎ IsLast 0x08080808 default_route net.routes)
route_lookup_iff_example = route_lookup_iff 0x08080808 net default_route

net-IsTable : IsTable net.arp_cache
net-IsTable = (refl, refl, tt, tt)

-- Who has 10.0.0.4? 10.0.0.7 asks.
abbrev request : List ℕ
request =
    255 ∷ 255 ∷ 255 ∷ 255 ∷ 255 ∷ 255 ∷ 7 ∷ 7 ∷ 7 ∷ 7 ∷ 7 ∷ 7 ∷ 8 ∷ 6 ∷ 0 ∷ 1 ∷ 8 ∷ 0 ∷ 6 ∷ 4 ∷ 0
    ∷ 1 ∷ 7 ∷ 7 ∷ 7 ∷ 7 ∷ 7 ∷ 7 ∷ 10 ∷ 0 ∷ 0 ∷ 7 ∷ 0 ∷ 0 ∷ 0 ∷ 0 ∷ 0 ∷ 0 ∷ 10 ∷ 0 ∷ 0 ∷ 4 ∷ []

abbrev buffer : SkBuff
buffer = record {
  id = 1;
  refcnt = pos 0;
  protocol = 6;
  len = 3;
  dlen = 3;
  seq = 0;
  end_seq = 0;
  end = 57;
  offset = 34;
  iph_id = 0;
  th = zero_tcphdr;
  payload = [];
  text = [];
  bytes = 7 ∷ 8 ∷ 9 ∷ [];
}

arp_rcv-IsTable_example : IsTable (arp_rcv buffer request net).arp_cache
arp_rcv-IsTable_example = arp_rcv-IsTable buffer request net net-IsTable

-- The sender of the request becomes known.
arp_rcv_refines_example :
    arp_get_hwaddr 0x0a000007 (arp_rcv buffer request net) ≡ some (replicate 6 7)
unfolding arp_in arp_get_hwaddr hwaddr_loop read_arp_hdr read_arp_ipv4
arp_rcv_refines_example = arp_rcv_refines buffer request net 0x0a000007 net-IsTable

ip_rcv-output_example :
    let sent = λ (proto : ℕ). ip_send_check (output_header 40 1 proto 0x0a000004 0x0a000005) in
    (ip_rcv (iphdr_bytes (sent ip_tcp) ++ [])
      ≡ to_tcp (received_header 40 1 ip_tcp 0x0a000004 0x0a000005 (sent ip_tcp).csum))
    × (ip_rcv (iphdr_bytes (sent icmpv4) ++ [])
        ≡ to_icmp (received_header 40 1 icmpv4 0x0a000004 0x0a000005 (sent icmpv4).csum))
ip_rcv-output_example = ip_rcv-output 40 1 0x0a000004 0x0a000005 [] (omega arith)
