-- ===== src/Sockets.antt =====
-- The table of sockets: the first half of src/socket.c, with `sk_alloc`, `sock_init_data` and
-- `sock_free` of src/sock.c. A call that sleeps is one step of the table: what the other threads do
-- to the same connection meanwhile is an argument of the call, and the rest of the table stays.
pub mod Held
pub mod Refs
pub mod Listed
pub mod Connected
pub mod Inet
pub mod Calls
pub mod Poll
pub mod Table
pub mod Steady
pub mod Connect
pub mod Invariant
pub mod Segments
pub mod Reach
pub mod Flags
pub mod Ends
pub mod Refused
pub mod Tests
use hf_ip.Prelude.{
  Bool, List, Option, [], false, if◌then◌else◌, length, none, some, suc, ℕ, ◌&&◌, ◌++◌, ◌==◌, ◌∷◌,
}
use hf_ip.Prelude.Int.{dec, inc, is_zero, pos, ℤ}
use hf_ip.SkBuff.{skb_queue_free}
use hf_ip.Timer.{Timers}
use hf_ip.Net.{Net}
use hf_ip.Packet.{Tcphdr}
use hf_ip.Tcp.{Conn, Socket, ss_unconnected, tcp_alloc_sock}

-- A socket with what it points to: `conn.sock` has its members and the rest of `conn` is its `sk`.
-- The fd, which no other socket has, stands for its address. `created` tells that `ops` and `sk` are set, which happens together. What
-- `conn` has of the state outside the connection is put there at each call.
pub record Entry : Type 0 where
  pub type : ℕ
  pub created : Bool
  pub conn : Conn

-- What all connections share; `port` is the counter of `generate_port`.
pub record World : Type 0 where
  pub timers : Timers
  pub net : Net
  pub freed : List ℕ
  pub next_skb : ℕ
  pub out : List (Tcphdr × List ℕ)
  pub port : ℕ

-- `sockets` is the list of src/socket.c; `unlinked` has the sockets that have left it and are not
-- freed. `next_fd` is the counter of `alloc_socket`.
pub record Sockets : Type 0 where
  pub sockets : List Entry
  pub unlinked : List Entry
  pub freed_sockets : List ℕ
  pub sock_amount : ℤ
  pub next_fd : ℕ
  pub world : World

abbrev pub at : Entry → ℕ
at e = e.conn.sock.fd

-- `socket_rd_acquire`, which takes the write lock too, and `socket_wr_acquire`.
abbrev pub acquired : Conn → Conn
acquired c = record c { sock = record c.sock { refcnt = inc c.sock.refcnt } }

abbrev pub released : Conn → Conn
released c = record c { sock = record c.sock { refcnt = dec c.sock.refcnt } }

unfoldable pub socket_acquire : Entry → Entry
socket_acquire e = record e { conn = acquired e.conn }

-- The entry at an address changes.
abbrev pub put : Entry → List Entry → List Entry
put e [] = []
put e (x ∷ xs) = if at x == at e then e ∷ xs else x ∷ put e xs

abbrev pub remove : ℕ → List Entry → List Entry
remove fd [] = []
remove fd (x ∷ xs) = if at x == fd then xs else x ∷ remove fd xs

abbrev pub store : Entry → Sockets → Sockets
store e t = record t { sockets = put e t.sockets; unlinked = put e t.unlinked }

-- A socket without references is freed.
unfoldable pub socket_release : Entry → Sockets → Sockets
socket_release e t =
    let e' = record e { conn = released e.conn } in
    let t' = store e' t in
    if is_zero e'.conn.sock.refcnt
    then record t' {
      unlinked = remove (at e) t'.unlinked;
      freed_sockets = t'.freed_sockets ++ (at e ∷ []);
    }
    else t'

-- The connection with the state outside it, and that state after it.
abbrev pub load : World → Conn → Conn
load w c = record c {
  timers = w.timers;
  net = w.net;
  freed = w.freed;
  next_skb = w.next_skb;
  out = w.out;
}

abbrev pub save : Conn → World → World
save c w = record w {
  timers = c.timers;
  net = c.net;
  freed = c.freed;
  next_skb = c.next_skb;
  out = c.out;
}

unfoldable pub sock_free : Conn → Conn
sock_free c =
    let (rq, freed) = skb_queue_free (length c.sk.receive_queue.head) c.sk.receive_queue c.freed in
    let (wq, freed') = skb_queue_free (length c.sk.write_queue.head) c.sk.write_queue freed in
    record c { sk = record c.sk { receive_queue = rq; write_queue = wq }; freed = freed' }

-- A function of the connection on an entry of the table.
abbrev pub on_conn : (Conn → Conn) → Entry → Sockets → Entry × Sockets
on_conn f e t =
    let c = f (load t.world e.conn) in (record e { conn = c }, record t { world = save c t.world })

-- `sock->ops->free`, if there are `ops`: `inet_free`.
unfoldable pub ops_free : Entry → Sockets → Entry × Sockets
unfolding sock_free
ops_free e t = if e.created then on_conn sock_free e t else (e, t)

-- The socket leaves the list, if it is there.
unfoldable pub socket_free : Entry → Sockets → Sockets
unfolding ops_free socket_acquire socket_release
socket_free e t =
    let e1 = socket_acquire e in
    let t1 = record t {
      sockets = remove (at e) t.sockets;
      unlinked = e1 ∷ t.unlinked;
      sock_amount = dec t.sock_amount;
    } in
    let (e2, t2) = ops_free e1 t1 in socket_release e2 t2

unfoldable pub alloc_socket : ℕ → Sockets → Entry × Sockets
alloc_socket pid t =
    let sock : Socket = record {
      fd = t.next_fd;
      pid = pid;
      refcnt = pos 1;
      state = ss_unconnected;
      flags = 2;
      sleeping = false;
    } in
    (
      record { type = 0; created = false; conn = tcp_alloc_sock sock t.world.timers t.world.net },
      record t { next_fd = suc t.next_fd },
    )

unfoldable pub get_socket : ℕ → ℕ → List Entry → Option Entry
get_socket pid fd [] = none
get_socket pid fd (e ∷ es) =
    let rest = get_socket pid fd es in
    if e.conn.sock.pid == pid && e.conn.sock.fd == fd then some e else rest

unfoldable pub socket_lookup : ℕ → ℕ → List Entry → Option Entry
socket_lookup remoteport localport [] = none
socket_lookup remoteport localport (e ∷ es) =
    let rest = socket_lookup remoteport localport es in
    if e.created && e.conn.sk.sport == localport && e.conn.sk.dport == remoteport
    then some e
    else rest

unfoldable pub socket_find : ℕ → List Entry → Option Entry
socket_find find [] = none
socket_find find (e ∷ es) = let rest = socket_find find es in if at e == find then some e else rest

unfoldable pub socket_garbage_collect : ℕ → Sockets → Sockets
unfolding socket_find socket_free
socket_garbage_collect arg t = elim (socket_find arg t.sockets) [
  | none ↦ t
  | some e ↦ socket_free e t
]
