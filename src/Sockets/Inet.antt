-- ===== src/Sockets/Inet.antt =====
-- The socket operations of the internet family: src/inet.c over the connection of src/tcp.c.
use hf_ip.Prelude.{
  Bool, List, Option, bit_and, false, if◌then◌else◌, ltb, none, not, some, suc, true, zero, ℕ, ◌&&◌,
  ◌++◌, ◌==◌, ◌||◌,
}
use hf_ip.Prelude.Int.{int_eq, is_zero, neg, pos, ℤ}
use hf_ip.Word.{bytes16, bytes32, swap16, swap32}
use hf_ip.Packet.{at16, at32}
use hf_ip.Ipc.{IpcSockname, overlay}
use hf_ip.Tcp.{
  Conn, SocketState, TcpState, close, econnrefused, einval, etimedout, sk_alloc, sock_init_data,
  ss_connected, ss_connecting, ss_unconnected, tcp_disconnect,
}
use hf_ip.Tcp.User.{
  Received, generate_port, is_nonblock, tcp_close, tcp_read, tcp_v4_connect, tcp_write,
}
use hf_ip.Tcp.Expiry.{tcp_abort}
use hf_ip.Sockets.{Entry, World, acquired, released, socket_lookup}

abbrev pub eisconn : ℤ
eisconn = neg 106

abbrev ealready : ℤ
ealready = neg 114

abbrev pub einprogress : ℤ
einprogress = neg 115

abbrev pub eafnosupport : ℤ
eafnosupport = neg 97

-- `sk->err = err`
abbrev pub set_err : ℤ → Conn → Conn
set_err err c = record c { sk = record c.sk { err = err } }

abbrev pub set_state : SocketState → Conn → Conn
set_state s c = record c { sock = record c.sock { state = s } }

-- What the stack does not decide of a call that may sleep: the initial sequence number, what the
-- other threads do to the connection in its k-th sleep from the end, and how often it may sleep.
pub record Env : Type 0 where
  pub iss : ℕ
  pub wake : ℕ → Conn → Conn
  pub rounds : ℕ

-- The `sk` of a new socket is that of a closed connection.
abbrev pub with_sk : ℕ → World → Entry → Entry
with_sk protocol w e =
    let c = sk_alloc e.conn.sock w.timers w.net protocol in
    record e {
      created = true;
      conn = sock_init_data (record c { sk = record c.sk { protocol = protocol } });
    }

-- The test is `type & SOCK_STREAM`.
unfoldable pub inet_create : ℕ → World → Entry → Entry × ℤ
inet_create protocol w e =
    if bit_and e.type 1 == 0 then (e, pos 1) else (with_sk protocol w e, pos 0)

abbrev pub connecting : Conn → Bool
connecting c = is_connecting c.sock.state && int_eq c.sk.err einprogress
  where
    is_connecting : SocketState → Bool
    is_connecting ss_connecting = true
    is_connecting _ = false

-- The loop that waits for the connection. `none` is a call that still sleeps after its rounds.
unfoldable pub connect_wait : ℕ → (ℕ → Conn → Conn) → Conn → Option Conn
connect_wait zero wake c = none
connect_wait (suc rounds) wake c =
    let asleep = released c in
    let awake = wake rounds (record asleep { sock = record asleep.sock { sleeping = true } }) in
    let rest = connect_wait rounds wake (acquired awake) in if connecting c then rest else some c

-- What follows the loop: one more reference, and the result.
abbrev pub connect_done : Conn → Conn × ℤ
connect_done c =
    let c1 = acquired c in
    if int_eq c1.sk.err etimedout || int_eq c1.sk.err econnrefused || not (is_zero c1.sk.err)
    then (c1, c1.sk.err)
    else (set_state ss_connected c1, pos 0)

abbrev pub waited : Option Conn → Option (Conn × ℤ)
waited none = none
waited (some c) = some (connect_done c)

-- `connect` of an unconnected socket. The result has the counter of `generate_port`.
unfoldable pub start_connect : Env → List ℕ → ℕ → Conn → ℕ × Option (Conn × ℤ)
unfolding generate_port tcp_v4_connect connect_wait
start_connect env addr port c =
    let (port', sport) = generate_port port c.timers.tick in
    let c1 = (tcp_v4_connect (at16 addr 2) (at32 addr 4) sport env.iss (set_err eisconn c)).0 in
    let c2 = set_err einprogress (set_state ss_connecting c1) in
    (
      port',
      if is_nonblock c2
          then some (c2, einprogress)
          else waited (connect_wait env.rounds env.wake c2),
    )

abbrev pub is_closed : TcpState → Bool
is_closed close = true
is_closed _ = false

unfoldable pub connect_switch : SocketState → Env → List ℕ → ℕ → Conn → ℕ × Option (Conn × ℤ)
unfolding start_connect
connect_switch ss_unconnected env addr port c =
    if is_closed c.sk.state
    then start_connect env addr port c
    else (port, some (set_err eisconn c, eisconn))
connect_switch ss_connecting env addr port c = (port, some (set_err ealready c, ealready))
connect_switch ss_connected env addr port c = (port, some (set_err eisconn c, eisconn))
connect_switch _ env addr port c = (port, some (set_err einval c, einval))

unfoldable pub inet_stream_connect : Env → List ℕ → ℕ → ℕ → Conn → ℕ × Option (Conn × ℤ)
unfolding connect_switch
inet_stream_connect env addr addr_len port c =
    if ltb addr_len 2
    then (port, some (c, einval))
    else (if at16 addr 0 == 0
        then (port, some (tcp_disconnect c, eafnosupport))
        else connect_switch c.sock.state env addr port c)

unfoldable pub inet_write : List ℕ → Conn → Conn × ℤ
unfolding tcp_write
inet_write buf c = tcp_write buf c

unfoldable pub inet_read : Env → ℕ → Conn → Option Received
unfolding tcp_read
inet_read env len c = tcp_read env.rounds env.wake len c

unfoldable pub inet_close : Conn → Conn × ℤ
unfolding tcp_close
inet_close c = tcp_close c

unfoldable pub inet_abort : Conn → Conn
unfolding tcp_abort
inet_abort c = tcp_abort c

-- The first eight bytes of a `struct sockaddr_in` are written, and its length.
abbrev pub sockaddr_in : ℕ → ℕ → IpcSockname → IpcSockname
sockaddr_in port addr name = record name {
  address_len = 16;
  sa_data = overlay (bytes16 2 ++ bytes16 (swap16 port) ++ bytes32 (swap32 addr)) name.sa_data;
}

unfoldable pub inet_getpeername : Conn → IpcSockname → IpcSockname
inet_getpeername c name = sockaddr_in c.sk.dport c.sk.daddr name

unfoldable pub inet_getsockname : Conn → IpcSockname → IpcSockname
inet_getsockname c name = sockaddr_in c.sk.sport c.sk.saddr name

-- `inet_lookup`
unfoldable pub inet_lookup : ℕ → ℕ → List Entry → Option Entry
unfolding socket_lookup
inet_lookup sport dport es = socket_lookup sport dport es
