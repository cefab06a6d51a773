-- ===== src/Stack/Tests.antt =====
-- Two hosts on one wire: 10.0.0.4, and 10.0.0.5 with a connection from port 80 to port 40000.
use hf_ip.Prelude.{List, Option, [], arith, none, refl, some, true, ℕ, ◌++◌, ◌<◌, ◌∷◌, ◌≡◌}
use hf_ip.Prelude.Int.{pos}
use hf_ip.Packet.{Tcphdr}
use hf_ip.SkBuff.{SkBuff, skb_queue_init, zero_tcphdr}
use hf_ip.Net.{Net, NetDev, RtEntry}
use hf_ip.Net.Route.{lookup_loop, route_lookup}
use hf_ip.Net.Arp.{arp_get_hwaddr, hwaddr_loop}
use hf_ip.Net.Ip.{ip_output}
use hf_ip.Net.Ip.Echo.{next_hop}
use hf_ip.Tcp.{Conn, tcp_alloc_sock}
use hf_ip.Tcp.Header.{segment_header}
use hf_ip.Tcp.Output.{tcp_transmit_skb, text_skb}
use hf_ip.Sockets.{Entry, Sockets, socket_lookup}
use hf_ip.Sockets.Inet.{inet_lookup}
use hf_ip.Sockets.Table.{IsTable as IsSocketTable}
use hf_ip.Sockets.Refs.{Same}
use hf_ip.Sockets.Tests.{caller, no_sockets, world}
use hf_ip.Stack.{netdev_receive, netdev_rx_loop}
use hf_ip.Stack.Receive.{IsEthernet}
use hf_ip.Stack.Delivery.{Hop, Sendable, segment_delivered, taken}
use hf_ip.Tcp.Flow.{Room}
use hf_ip.Tcp.Flow.History.{here}
use hf_ip.Stack.Transfer.{Transferred, text_skb-Run}
use hf_ip.Stack.Neighbour.{arp_exchange}
use hf_ip.Stack.Frames.{netdev_rx_loop-Same}
use hf_ip.Stack.Start.{init_stack, init_stack-routes}

abbrev tap_a : NetDev
tap_a = record { addr = 0x0a000004; addr_len = 6; hwaddr = 1 ∷ 2 ∷ 3 ∷ 4 ∷ 5 ∷ 6 ∷ []; mtu = 1500 }

abbrev tap_b : NetDev
tap_b = record { addr = 0x0a000005; addr_len = 6; hwaddr = 7 ∷ 7 ∷ 7 ∷ 7 ∷ 7 ∷ 7 ∷ []; mtu = 1500 }

abbrev local_net : RtEntry
local_net = record {
  dst = 0x0a000000;
  gateway = 0;
  netmask = 0xffffff00;
  flags = 0;
  metric = 0;
  dev = tap_a;
}

abbrev net_a : Net
net_a = record {
  routes = local_net ∷ [];
  arp_cache = [];
  netdev = tap_a;
  loop = tap_a;
  tun_result = (λ len. pos len);
  sent = [];
}

abbrev knows_b : Net
knows_b = record net_a {
  arp_cache = record { hwtype = 1; sip = 0x0a000005; smac = tap_b.hwaddr; state = 2 } ∷ [];
}

abbrev host_a : Sockets
host_a = record no_sockets { world = record world { net = net_a } }

abbrev host_b : Sockets
host_b = record no_sockets { world = record world { net = record net_a { netdev = tap_b } } }

abbrev packet_buffer : SkBuff
packet_buffer = record {
  id = 1;
  refcnt = pos 0;
  protocol = 6;
  len = 3;
  dlen = 3;
  seq = 0;
  end_seq = 0;
  end = 57;
  offset = 54;
  iph_id = 0;
  th = zero_tcphdr;
  payload = [];
  text = 7 ∷ 8 ∷ 9 ∷ [];
  bytes = [];
}

found_b : route_lookup 0x0a000005 net_a ≡ some local_net
unfolding route_lookup lookup_loop
found_b = refl

b_unknown : arp_get_hwaddr (next_hop local_net 0x0a000005) net_a ≡ none
unfolding arp_get_hwaddr hwaddr_loop
b_unknown = refl

a-IsEthernet : IsEthernet tap_a
a-IsEthernet = record { size = refl; hwaddr = refl }

b-IsEthernet : IsEthernet tap_b
b-IsEthernet = record { size = refl; hwaddr = refl }

arp_exchange_example :
    (request answer : List ℕ) × ((ip_output 0x0a000005 packet_buffer net_a).0.sent ≡ request ∷ [])
    × ((netdev_receive packet_buffer (request ++ 0 ∷ []) host_b).world.net.sent ≡ answer ∷ [])
    × (arp_get_hwaddr 0x0a000005 (netdev_receive packet_buffer (answer ++ []) host_a).world.net
        ≡ some tap_b.hwaddr)
arp_exchange_example =
    arp_exchange 0x0a000005 packet_buffer packet_buffer packet_buffer net_a local_net [] (0 ∷ [])
      host_a host_b found_b (omega arith) (omega arith) b_unknown refl (omega arith) refl
      a-IsEthernet b-IsEthernet tt

-- The connection of 10.0.0.4 and the one of 10.0.0.5.
abbrev conn_a : Conn
conn_a = record caller {
  sk = record caller.sk { sport = 40000; dport = 80; saddr = 0x0a000004; daddr = 0x0a000005 };
  net = knows_b;
}

abbrev entry_b : Entry
entry_b = record {
  type = 1;
  created = true;
  conn = record caller {
    sock = record caller.sock { refcnt = pos 1 };
    sk = record caller.sk { sport = 80; dport = 40000 };
  };
}

abbrev served_b : Sockets
served_b = record host_b { sockets = entry_b ∷ []; sock_amount = pos 1; next_fd = 4098 }

b-Hop : Hop 0x0a000005 knows_b
unfolding route_lookup lookup_loop arp_get_hwaddr hwaddr_loop
b-Hop = record {
  rt = local_net;
  mac = tap_b.hwaddr;
  found = refl;
  known = refl;
  six = refl;
  dev_ok = a-IsEthernet;
  saddr_fits = omega arith;
  daddr_fits = omega arith;
}

buffer-Sendable : Sendable packet_buffer (segment_header conn_a zero_tcphdr 1000)
unfolding segment_header tcp_alloc_sock
buffer-Sendable = record {
  header = omega arith;
  options = record { least = omega arith; options = refl };
  text = refl;
  size = omega arith;
  protocol = refl;
  id = omega arith;
}

lookup_b :
    inet_lookup
      (segment_header conn_a zero_tcphdr 1000).sport
      (segment_header conn_a zero_tcphdr 1000).dport
      served_b.sockets
    ≡ some entry_b
unfolding segment_header inet_lookup socket_lookup
lookup_b = refl

segment_delivered_example :
    let h = segment_header conn_a zero_tcphdr 1000 in
    (frame : List ℕ) × (th : Tcphdr) × (got : SkBuff) × ((tcp_transmit_skb conn_a packet_buffer
        1000).0.net.sent
      ≡ frame ∷ [])
    × (netdev_receive packet_buffer (frame ++ 0 ∷ []) served_b ≡ taken entry_b th got served_b)
    × (th ≡ record h { csum = th.csum; body = 7 ∷ 8 ∷ 9 ∷ 0 ∷ [] })
    × (got.seq ≡ 1000)
    × (got.dlen ≡ 3)
    × (got.end_seq ≡ 1003)
    × (got.payload ≡ 7 ∷ 8 ∷ 9 ∷ 0 ∷ [])
unfolding segment_header
segment_delivered_example =
    segment_delivered conn_a packet_buffer 1000 b-Hop buffer-Sendable packet_buffer (0 ∷ [])
      served_b entry_b lookup_b

-- The last two of a sender's three bytes arrive first.
opened_b-Room : Room entry_b.conn
unfolding tcp_alloc_sock skb_queue_init
opened_b-Room = omega arith

ports_b : inet_lookup 40000 80 served_b.sockets ≡ some entry_b
unfolding inet_lookup socket_lookup
ports_b = refl

conn_a-words :
    (conn_a.sk.sport < 65536) × (conn_a.sk.dport < 65536) × (conn_a.tcb.rcv_nxt < 4294967296)
unfolding tcp_alloc_sock
conn_a-words = (omega arith, omega arith, omega arith)

text_skb-Run_example :
    Transferred
      (7 ∷ 8 ∷ 9 ∷ [])
      1000
      conn_a
      (text_skb conn_a (8 ∷ 9 ∷ []) true)
      1001
      1001
      entry_b.conn
      []
      packet_buffer
      (0 ∷ [])
      served_b
      entry_b
text_skb-Run_example =
    text_skb-Run conn_a conn_a (8 ∷ 9 ∷ []) true 1001 (7 ∷ 8 ∷ 9 ∷ []) 1000 b-Hop conn_a-words.0
      conn_a-words.1 conn_a-words.2 (omega arith) (omega arith) (omega arith) (omega arith) refl
      packet_buffer (0 ∷ []) served_b entry_b entry_b.conn [] ports_b opened_b-Room here

served_b-IsTable : IsSocketTable served_b
unfolding tcp_alloc_sock
served_b-IsTable = record {
  distinct = (tt, tt);
  passed = (omega arith, tt);
  live = ((refl, (0, refl)), tt);
  counted = refl;
}

abbrev sent_frames : List (List ℕ)
sent_frames = (tcp_transmit_skb conn_a (text_skb conn_a (8 ∷ 9 ∷ []) true) 1001).0.net.sent

abbrev first_of : List (List ℕ) → List ℕ
first_of [] = []
first_of (frame ∷ frames) = frame

-- The frame with a segment of text for the socket, a frame of three bytes, and then the device fails.
abbrev heard : List (Option (List ℕ))
heard = some (first_of sent_frames) ∷ some (1 ∷ 2 ∷ 3 ∷ []) ∷ none ∷ []

netdev_rx_loop-Same_example : Same served_b (netdev_rx_loop heard served_b)
netdev_rx_loop-Same_example = netdev_rx_loop-Same heard served_b served_b-IsTable

init_stack-routes_example :
    let started = init_stack (record net_a { routes = [] }) in
    (rt : RtEntry) × (route_lookup 0x08080808 started ≡ some rt)
    × (rt.dev ≡ started.netdev)
    × (next_hop rt 0x08080808 ≡ 0x0a000005)
init_stack-routes_example = init_stack-routes net_a 0x08080808
