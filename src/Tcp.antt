-- ===== src/Tcp.antt =====
-- The state of one TCP connection: include/tcp.h (`tcb`, `tcp_sock`), include/sock.h (`sock`) and
-- the part of include/socket.h (`socket`) that the handlers of a connection read and write, with
-- what they share with the rest of the stack: the timers, the layers below and the heap.
pub mod Header
pub mod Syn
pub mod Acks
pub mod Lifecycle
pub mod Output
pub mod Sack
pub mod Data
pub mod Rtt
pub mod Segment
pub mod Input
pub mod Expiry
pub mod User
pub mod Frame
pub mod Calm
pub mod Flow
mod Tests
use hf_ip.Prelude.{Bool, List, Option, [], false, none, replicate, true, ℕ, ◌+◌}
use hf_ip.Prelude.Int.{neg, pos, ℤ}
use hf_ip.Packet.{Tcphdr}
use hf_ip.SkBuff.{SkBuffHead, skb_queue_init}
use hf_ip.Timer.{Timers, linger}
use hf_ip.Net.{Net}

pub data TcpState : Type 0 where
  listen syn_sent syn_received established fin_wait_1 fin_wait_2 close close_wait closing last_ack
        time_wait :
      TcpState

pub data SocketState : Type 0 where
  ss_free ss_unconnected ss_connecting ss_connected ss_disconnecting : SocketState

pub record Tcb : Type 0 where
  pub snd_una : ℕ
  pub snd_nxt : ℕ
  pub snd_wnd : ℕ
  pub snd_up : ℕ
  pub snd_wl1 : ℕ
  pub snd_wl2 : ℕ
  pub iss : ℕ
  pub rcv_nxt : ℕ
  pub rcv_wnd : ℕ
  pub rcv_up : ℕ
  pub irs : ℕ

-- `struct tcp_sack_block`
pub record SackBlock : Type 0 where
  pub left : ℕ
  pub right : ℕ

-- `struct sock`; `recv_sleeping` is `recv_wait.sleeping`.
pub record Sock : Type 0 where
  pub recv_sleeping : Bool
  pub receive_queue : SkBuffHead
  pub write_queue : SkBuffHead
  pub protocol : ℕ
  pub state : TcpState
  pub err : ℤ
  pub poll_events : ℕ
  pub sport : ℕ
  pub dport : ℕ
  pub saddr : ℕ
  pub daddr : ℕ

-- `struct socket`; `sleeping` is `sleep.sleeping`.
pub record Socket : Type 0 where
  pub fd : ℕ
  pub pid : ℕ
  pub refcnt : ℤ
  pub state : SocketState
  pub flags : ℕ
  pub sleeping : Bool

-- `struct tcp_sock` and what it points to. `freed` logs the addresses of freed buffers and
-- `next_skb` is the next address of `malloc`. `out` is a record for the theorems alone: the header
-- in host order and the text of every segment that was given to the IP layer.
pub record Conn : Type 0 where
  pub sk : Sock
  pub sock : Socket
  pub tcp_header_len : ℕ
  pub tcb : Tcb
  pub flags : ℕ
  pub backoff : ℕ
  pub srtt : ℕ
  pub rttvar : ℕ
  pub rto : ℕ
  pub retransmit : Option ℕ
  pub delack : Option ℕ
  pub keepalive : Option ℕ
  pub linger : Option ℕ
  pub delacks : ℕ
  pub rmss : ℕ
  pub smss : ℕ
  pub cwnd : ℕ
  pub inflight : ℕ
  pub sackok : Bool
  pub sacks_allowed : ℕ
  pub sacklen : ℕ
  pub sacks : List SackBlock
  pub tsopt : Bool
  pub ofo_queue : SkBuffHead
  pub timers : Timers
  pub net : Net
  pub freed : List ℕ
  pub next_skb : ℕ
  pub out : List (Tcphdr × List ℕ)

abbrev pub tcp_fin : ℕ
tcp_fin = 0x01

abbrev pub tcp_psh : ℕ
tcp_psh = 0x08

-- The bits of `poll_events`: POLLIN | POLLPRI | POLLRDNORM | POLLRDBAND, POLLOUT | POLLWRNORM |
-- POLLERR | POLLHUP, POLLOUT | POLLERR | POLLHUP, and POLLOUT | POLLWRNORM | POLLWRBAND.
abbrev pub poll_readable : ℕ
poll_readable = 0x1 + 0x2 + 0x40 + 0x80

abbrev pub poll_reset : ℕ
poll_reset = 0x4 + 0x100 + 0x8 + 0x10

abbrev pub poll_timeout : ℕ
poll_timeout = 0x4 + 0x8 + 0x10

abbrev pub poll_connected : ℕ
poll_connected = 0x4 + 0x100 + 0x200

-- `-errno`
abbrev pub epipe : ℤ
epipe = neg 32

abbrev pub ebadf : ℤ
ebadf = neg 9

abbrev pub eagain : ℤ
eagain = neg 11

abbrev pub einval : ℤ
einval = neg 22

abbrev pub econnreset : ℤ
econnreset = neg 104

abbrev pub etimedout : ℤ
etimedout = neg 110

abbrev pub econnrefused : ℤ
econnrefused = neg 111

-- `tcp_set_state`
unfoldable pub tcp_set_state : TcpState → Conn → Conn
tcp_set_state s c = record c { sk = record c.sk { state = s } }

-- `skb_queue_init` and `memset` make every other member zero.
unfoldable pub tcp_alloc_sock : Socket → Timers → Net → Conn
unfolding skb_queue_init
tcp_alloc_sock sock timers net = record {
  sk = record {
    recv_sleeping = false;
    receive_queue = skb_queue_init;
    write_queue = skb_queue_init;
    protocol = 0;
    state = close;
    err = pos 0;
    poll_events = 0;
    sport = 0;
    dport = 0;
    saddr = 0;
    daddr = 0;
  };
  sock = sock;
  tcp_header_len = 0;
  tcb = record {
    snd_una = 0;
    snd_nxt = 0;
    snd_wnd = 0;
    snd_up = 0;
    snd_wl1 = 0;
    snd_wl2 = 0;
    iss = 0;
    rcv_nxt = 0;
    rcv_wnd = 0;
    rcv_up = 0;
    irs = 0;
  };
  flags = 0;
  backoff = 0;
  srtt = 0;
  rttvar = 0;
  rto = 0;
  retransmit = none;
  delack = none;
  keepalive = none;
  linger = none;
  delacks = 0;
  rmss = 1460;
  smss = 536;
  cwnd = 0;
  inflight = 0;
  sackok = true;
  sacks_allowed = 0;
  sacklen = 0;
  sacks = replicate 4 (record { left = 0; right = 0 });
  tsopt = false;
  ofo_queue = skb_queue_init;
  timers = timers;
  net = net;
  freed = [];
  next_skb = 0;
  out = [];
}

-- `tcp_v4_init_sock` and `tcp_init_sock`, and `tcp_disconnect`, do nothing.
abbrev pub tcp_v4_init_sock : Conn → Conn
tcp_v4_init_sock c = c

abbrev pub tcp_disconnect : Conn → Conn
tcp_disconnect c = c

-- `sk_alloc`: the `sk` of a socket and its members.
abbrev pub sk_alloc : Socket → Timers → Net → ℕ → Conn
sk_alloc sock timers net protocol = tcp_alloc_sock sock timers net

-- `sock_init_data`; `wait_init` makes nobody sleep.
abbrev pub sock_init_data : Conn → Conn
sock_init_data c = tcp_v4_init_sock (record c {
  sk = record c.sk {
    recv_sleeping = false;
    receive_queue = skb_queue_init;
    write_queue = skb_queue_init;
    poll_events = 0;
  };
})
