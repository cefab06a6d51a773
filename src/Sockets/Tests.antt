-- ===== src/Sockets/Tests.antt =====
-- A table with two sockets, and the theorems about tables at it.
use hf_ip.Prelude.{List, Option, [], arith, false, none, refl, replicate, some, true, ℕ, ◌∷◌, ◌≡◌}
use hf_ip.Prelude.Int.{pos, ℤ}
use hf_ip.Net.{NetDev}
use hf_ip.Ipc.{IpcPollfd}
use hf_ip.Tcp.{Conn, ss_unconnected, tcp_alloc_sock}
use hf_ip.Tcp.Lifecycle.{tcp_rearm_rto_timer}
use hf_ip.SkBuff.{skb_queue_empty}
use hf_ip.Tcp.User.{tcp_v4_connect}
use hf_ip.Tcp.Output.{
  tcp_connect, tcp_queue_transmit_skb, tcp_send_syn, tcp_transmit_skb, transmit_first,
}
use hf_ip.Tcp.Syn.{sock_connected}
use hf_ip.Sockets.{
  Entry, Sockets, World, at, get_socket, socket_acquire, socket_free, socket_garbage_collect,
}
use hf_ip.Sockets.Inet.{Env, connect_switch, connect_wait, inet_stream_connect, start_connect}
use hf_ip.Sockets.Calls.{connect_end, sys_close, sys_connect, sys_fcntl, sys_socket}
use hf_ip.Sockets.Table.{IsTable}
use hf_ip.Sockets.Connect.{IsBalanced, connect-refcnt}
use hf_ip.Sockets.Reach.{
  after, close_call, collect_call, fcntl_call, here, reach-IsTable, socket_call, visit,
}
use hf_ip.Sockets.Ends.{StaysWith, socket_free-leaks}

abbrev device : NetDev
device = record { addr = 0x0a000004; addr_len = 6; hwaddr = replicate 6 1; mtu = 1500 }

abbrev pub world : World
world = record {
  timers = record { timers = []; tick = 0; fresh = 0 };
  net = record {
    routes = [];
    arp_cache = [];
    netdev = device;
    loop = device;
    tun_result = (λ len. pos len);
    sent = [];
  };
  freed = [];
  next_skb = 0;
  out = [];
  port = 40000;
}

abbrev pub no_sockets : Sockets
no_sockets = record {
  sockets = [];
  unlinked = [];
  freed_sockets = [];
  sock_amount = pos 0;
  next_fd = 4097;
  world = world;
}

no_sockets-IsTable : IsTable no_sockets
no_sockets-IsTable = record { distinct = tt; passed = tt; live = tt; counted = refl }

abbrev one : Sockets
one = (sys_socket 7 2 1 0 no_sockets).0

-- The other threads complete the connection.
abbrev pub env : Env
unfolding sock_connected
env = record { iss = 1000; wake = (λ k c. sock_connected c); rounds = 3 }

env-IsBalanced : IsBalanced env
unfolding env sock_connected
env-IsBalanced k c = record { fd = refl; pid = refl; refcnt = refl }

-- 10.0.0.5, port 80.
abbrev pub address : List ℕ
address = 2 ∷ 0 ∷ 0 ∷ 80 ∷ 10 ∷ 0 ∷ 0 ∷ 5 ∷ 0 ∷ 0 ∷ 0 ∷ 0 ∷ 0 ∷ 0 ∷ 0 ∷ 0 ∷ []

-- A blocking socket that is held by a call.
abbrev pub caller : Conn
caller =
    tcp_alloc_sock
      (record {
        fd = 4097;
        pid = 7;
        refcnt = pos 2;
        state = ss_unconnected;
        flags = 2;
        sleeping = false;
      })
      world.timers world.net

abbrev connected_of : Option (Conn × ℤ) → Conn
connected_of none = caller
connected_of (some (c, rc)) = c

abbrev answer : Conn
unfolding start_connect
answer = connected_of (start_connect env address 40000 caller).1

start_connects : (start_connect env address 40000 caller).1 ≡ some (answer, pos 0)
unfolding answer env tcp_alloc_sock start_connect tcp_v4_connect tcp_connect tcp_send_syn
    tcp_queue_transmit_skb transmit_first tcp_transmit_skb connect_wait sock_connected
    skb_queue_empty tcp_rearm_rto_timer
start_connects = refl

stream_connects : (inet_stream_connect env address 16 40000 caller).1 ≡ some (answer, pos 0)
unfolding tcp_alloc_sock inet_stream_connect connect_switch
stream_connects = start_connects

connect-refcnt_example : answer.sock.refcnt ≡ pos 3
unfolding tcp_alloc_sock
connect-refcnt_example =
    connect-refcnt env address 16 40000 caller answer (pos 0) env-IsBalanced refl refl (omega arith)
      refl refl stream_connects

-- The tables of a process that opens two sockets, makes one non-blocking and closes it.
abbrev flagged : Sockets
flagged = (sys_fcntl 7 4097 4 2050 (sys_socket 7 2 1 0 (sys_socket 7 2 1 6 no_sockets).0).0).0

abbrev closing : Sockets
closing = (sys_close 7 4097 flagged).0

abbrev collected : Sockets
collected = socket_garbage_collect 4097 closing

reach-IsTable_example : IsTable collected
reach-IsTable_example = reach-IsTable no_sockets collected no_sockets-IsTable (
    after
      (after
        (after (after (after here (socket_call 7 1 6 refl)) (socket_call 7 1 0 refl))
          (visit (fcntl_call 7 4097 4 2050)))
        (visit (close_call 7 4097)))
      (collect_call 4097))

abbrev asked : IpcPollfd
asked = record { fd = 4097; events = 1; revents = 0 }

-- The first socket.
abbrev pub entry : Entry
entry = record {
  type = 1;
  created = true;
  conn = record caller { sock = record caller.sock { refcnt = pos 1 } };
}

abbrev pub listed : Sockets
listed = record no_sockets { sockets = entry ∷ []; sock_amount = pos 1; next_fd = 4098 }

listed-get : get_socket 7 4097 listed.sockets ≡ some entry
unfolding get_socket tcp_alloc_sock
listed-get = refl

socket_free-leaks_example :
    StaysWith (at entry) entry.conn.sock.refcnt [] (socket_free entry listed)
unfolding tcp_alloc_sock
socket_free-leaks_example = socket_free-leaks entry listed 0 (tt, tt) refl

pub listed-connects : (t2 : Sockets) × (sys_connect env 7 4097 address 16 listed ≡ some (t2, pos 0))
unfolding sys_connect get_socket socket_acquire inet_stream_connect connect_switch start_connect
    tcp_v4_connect tcp_connect tcp_send_syn tcp_queue_transmit_skb transmit_first tcp_transmit_skb
    connect_wait sock_connected skb_queue_empty tcp_rearm_rto_timer tcp_alloc_sock env connect_end
listed-connects = (_, refl)
