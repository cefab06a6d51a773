-- ===== src/Tcp/User.antt =====
-- The calls of a program on a connection: src/tcp.c, and `tcp_receive` of src/tcp_input.c.
pub mod Close
pub mod Receive
use hf_ip.Prelude.{
  Bool, List, Option, [], bit_and, false, if◌then◌else◌, length, ltb, none, some, suc, true, zero,
  ℕ, ◌%◌, ◌&&◌, ◌++◌, ◌+◌, ◌-◌, ◌==◌, ◌||◌,
}
use hf_ip.Prelude.Int.{is_zero, neg, negsuc, pos, ℤ}
use hf_ip.Word.{swap16, swap32, u16}
use hf_ip.Packet.{flag}
use hf_ip.Checksum.{parse_ipv4_string}
use hf_ip.SkBuff.{skb_queue_empty}
use hf_ip.Tcp.{
  Conn, TcpState, close, close_wait, closing, eagain, ebadf, established, fin_wait_1, last_ack,
  listen, syn_received, syn_sent, tcp_set_state, time_wait,
}
use hf_ip.Tcp.Lifecycle.{tcp_done, tcp_rearm_user_timeout}
use hf_ip.Tcp.Output.{tcp_connect, tcp_queue_fin, tcp_send}
use hf_ip.Tcp.Data.{has_fin, has_psh, tcp_data_dequeue}

-- `generate_port`: the static counter and the clock.
unfoldable pub generate_port : ℕ → ℕ → ℕ × ℕ
generate_port port tick = let port' = port + 1 in (port', u16 (port' + tick % 10000))

-- 10.0.0.4
abbrev local_addr : ℕ
local_addr = parse_ipv4_string 10 0 0 4

-- `tcp_v4_connect`; `dport` and `daddr` are the members of the address in network byte order, and
-- `sport` is what `generate_port` returns.
unfoldable pub tcp_v4_connect : ℕ → ℕ → ℕ → ℕ → Conn → Conn × ℤ
tcp_v4_connect dport daddr sport iss c = tcp_connect iss (record c {
  sk = record c.sk {
    dport = swap16 dport;
    sport = sport;
    daddr = swap32 daddr;
    saddr = local_addr;
  };
})

-- ESTABLISHED and CLOSE_WAIT.
abbrev pub may_write : TcpState → Bool
may_write established = true
may_write close_wait = true
may_write _ = false

unfoldable pub tcp_write : List ℕ → Conn → Conn × ℤ
tcp_write buf c =
    if is_zero c.sk.err
    then (if may_write c.sk.state then tcp_send c buf else (c, ebadf))
    else (c, c.sk.err)

-- What `tcp_receive` returns, and the bytes that it has put into the buffer.
pub record Received : Type 0 where
  pub conn : Conn
  pub rlen : ℤ
  pub bytes : List ℕ

-- `sock->flags & O_NONBLOCK`
abbrev pub is_nonblock : Conn → Bool
is_nonblock c = flag c.sock.flags 2048

-- The connection when the reader that sleeps on `recv_wait` runs again. `wake` is what the other
-- threads do meanwhile, in its k-th sleep.
unfoldable pub wait_sleep : (ℕ → Conn → Conn) → ℕ → Conn → Conn
wait_sleep wake k c = wake k (record c { sk = record c.sk { recv_sleeping = true } })

abbrev pub finish : List ℕ → Conn → ℤ → Option Received
finish got c rlen = some (record { conn = c; rlen = rlen; bytes = got })

-- The loop of `tcp_receive`, with the rounds allowed; `none` means that they have run out. `got`
-- is what is in the buffer.
unfoldable pub receive_loop : ℕ → (ℕ → Conn → Conn) → ℕ → List ℕ → Conn → Option Received
receive_loop zero wake len got c = none
receive_loop (suc rounds) wake len got c =
    let (c1, bytes) = tcp_data_dequeue (len - length got) c in
    let got' = got ++ bytes in
    let n = length got' in
    let c2 = record c1 { flags = bit_and c1.flags 0xf7 } in
    let sleep = receive_loop rounds wake len got' (wait_sleep wake rounds c1) in
    if ltb (length got) len
    then (if has_psh c1.flags
        then finish got' c2 (pos n)
        else (if has_fin c1.flags || n == len
            then finish got' c1 (pos n)
            else (if is_nonblock c1
                then finish got' c1 (if n == 0 then eagain else pos n)
                else sleep)))
    else finish got c (pos (length got))

-- `if (rlen >= 0) tcp_rearm_user_timeout(sk);`
abbrev pub rearmed : Received → Received
rearmed r = elim r.rlen [ pos n ↦ record r { conn = tcp_rearm_user_timeout r.conn } | negsuc n ↦ r ]

unfoldable pub tcp_receive : ℕ → (ℕ → Conn → Conn) → ℕ → Conn → Option Received
tcp_receive rounds wake len c = elim (receive_loop rounds wake len [] c) [
  | none ↦ none
  | some r ↦ some (rearmed r)
]

unfoldable pub read_switch : TcpState → ℕ → (ℕ → Conn → Conn) → ℕ → Conn → Option Received
read_switch close rounds wake len c = finish [] c ebadf
read_switch closing rounds wake len c = finish [] c c.sk.err
read_switch last_ack rounds wake len c = finish [] c c.sk.err
read_switch time_wait rounds wake len c = finish [] c c.sk.err
read_switch close_wait rounds wake len c =
    if skb_queue_empty c.sk.receive_queue && has_fin c.flags
    then finish [] (record c { flags = bit_and c.flags 0xfe }) (pos 0)
    else tcp_receive rounds wake len c
read_switch _ rounds wake len c = tcp_receive rounds wake len c

unfoldable pub tcp_read : ℕ → (ℕ → Conn → Conn) → ℕ → Conn → Option Received
unfolding read_switch
tcp_read rounds wake len c = read_switch c.sk.state rounds wake len c

unfoldable pub close_switch : TcpState → Conn → Conn × ℤ
unfolding tcp_set_state
close_switch listen c = (tcp_done c, pos 0)
close_switch syn_sent c = (tcp_done c, pos 0)
close_switch syn_received c = (tcp_done c, pos 0)
close_switch established c = ((tcp_queue_fin (tcp_set_state fin_wait_1 c)).0, pos 0)
close_switch close_wait c = ((tcp_queue_fin c).0, pos 0)
close_switch _ c = (record c { sk = record c.sk { err = ebadf } }, neg 1)

unfoldable pub tcp_close : Conn → Conn × ℤ
unfolding close_switch
tcp_close c = close_switch c.sk.state c
