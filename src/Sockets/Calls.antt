-- ===== src/Sockets/Calls.antt =====
-- The socket calls: the second half of src/socket.c, with `tcp_in` of src/tcp.c. The C functions
-- `_socket`, `_connect` and so on are `sys_socket`, `sys_connect` and so on.
use hf_ip.Prelude.{Bool, List, Option, [], if◌then◌else◌, none, some, ℕ, ◌++◌, ◌==◌, ◌||◌, ◌∷◌}
use hf_ip.Prelude.Int.{inc, int_eq, is_zero, neg, negsuc, pos, ℤ}
use hf_ip.Word.{bytes32}
use hf_ip.Packet.{Iphdr, read_tcphdr}
use hf_ip.SkBuff.{SkBuff, free_skb}
use hf_ip.Ipc.{IpcSockname, IpcSockopt, int_word, overlay}
use hf_ip.Tcp.{Conn, ebadf, econnrefused, einval, etimedout}
use hf_ip.Tcp.Segment.{tcp_init_segment}
use hf_ip.Tcp.Input.{tcp_input_state}
use hf_ip.Sockets.{
  Entry, Sockets, World, alloc_socket, at, get_socket, load, on_conn, released, save,
  socket_acquire, socket_free, socket_release, store,
}
use hf_ip.Sockets.Inet.{
  Env, eafnosupport, inet_abort, inet_close, inet_create, inet_getpeername, inet_getsockname,
  inet_lookup, inet_read, inet_stream_connect, inet_write,
}

abbrev enoprotoopt : ℤ
enoprotoopt = neg 92

-- `families`: the internet family is 2. A domain from 128 on is out of the array's bounds.
unfoldable pub family_create : ℕ → ℕ → World → Entry → Entry × ℤ
unfolding inet_create
family_create domain protocol w e = if domain == 2 then inet_create protocol w e else (e, pos 1)

abbrev pub add_tail : Entry → Sockets → Sockets
add_tail e t = record t { sockets = t.sockets ++ (e ∷ []); sock_amount = inc t.sock_amount }

-- The rest of `_socket`; a socket that was not created is freed without being in the list.
unfoldable pub socket_created : Sockets → Entry × ℤ → Sockets × ℤ
unfolding socket_free socket_acquire socket_release
socket_created t (e, rc) =
    if is_zero rc
    then (socket_release (socket_acquire e) (add_tail (socket_acquire e) t), pos (at e))
    else (socket_free e t, negsuc 0)

unfoldable pub sys_socket : ℕ → ℕ → ℕ → ℕ → Sockets → Sockets × ℤ
unfolding alloc_socket family_create socket_created
sys_socket pid domain type protocol t =
    let (blank, t1) = alloc_socket pid t in
    socket_created t1 (family_create domain protocol t1.world (record blank { type = type }))

-- A call on the connection of a socket: the socket is held during the call.
unfoldable pub held : (Conn → Conn × ℤ) → Entry → Sockets → Sockets × ℤ
unfolding socket_acquire socket_release
held f e t =
    let c = (socket_acquire e).conn in
    let (c2, rc) = f (load t.world c) in
    (socket_release (record e { conn = c2 }) (record t { world = save c2 t.world }), rc)

-- A call that looks its socket up: without one the result is -EBADF.
unfoldable pub on_socket : (Conn → Conn × ℤ) → ℕ → ℕ → Sockets → Sockets × ℤ
unfolding get_socket held
on_socket f pid fd t = elim (get_socket pid fd t.sockets) [
  | none ↦ (t, ebadf)
  | some e ↦ held f e t
]

-- The results that make `_connect` free the socket.
abbrev pub is_fatal : ℤ → Bool
is_fatal rc =
    int_eq rc einval || int_eq rc eafnosupport || int_eq rc econnrefused || int_eq rc etimedout

unfoldable pub connect_end : Entry → Sockets → Conn × ℤ → Sockets × ℤ
unfolding socket_release socket_free
connect_end e t (c, rc) =
    let t1 = record t { world = save c t.world } in
    let t2 = socket_release (record e { conn = c }) t1 in
    let left = record e { conn = released c } in
    (if is_fatal rc then socket_free left t2 else t2, rc)

unfoldable pub connect_result : Entry → Sockets → Option (Conn × ℤ) → Option (Sockets × ℤ)
unfolding connect_end
connect_result e t none = none
connect_result e t (some r) = some (connect_end e t r)

-- `none` is a call that sleeps on after its rounds.
unfoldable pub sys_connect : Env → ℕ → ℕ → List ℕ → ℕ → Sockets → Option (Sockets × ℤ)
unfolding get_socket socket_acquire inet_stream_connect connect_result
sys_connect env pid sockfd addr addrlen t = elim (get_socket pid sockfd t.sockets) [
  | none ↦ some (t, ebadf)
  | some e ↦
      let c = load t.world (socket_acquire e).conn in
      let (port, result) = inet_stream_connect env addr addrlen t.world.port c in
      let t1 = record t { world = record t.world { port = port } } in connect_result e t1 result
]

unfoldable pub sys_write : ℕ → ℕ → List ℕ → Sockets → Sockets × ℤ
unfolding on_socket inet_write
sys_write pid sockfd buf t = on_socket (inet_write buf) pid sockfd t

-- The bytes that the call stores, and its result.
unfoldable pub sys_read : Env → ℕ → ℕ → ℕ → Sockets → Option (Sockets × ℤ × List ℕ)
unfolding get_socket socket_acquire inet_read socket_release
sys_read env pid sockfd count t = elim (get_socket pid sockfd t.sockets) [
  | none ↦ some (t, ebadf, [])
  | some e ↦ elim (inet_read env count (load t.world (socket_acquire e).conn)) [
    | none ↦ none
    | some r ↦
        let t1 = record t { world = save r.conn t.world } in
        some (socket_release (record e { conn = r.conn }) t1, r.rlen, r.bytes)
  ]
]

unfoldable pub sys_close : ℕ → ℕ → Sockets → Sockets × ℤ
unfolding on_socket inet_close
sys_close pid sockfd t = on_socket inet_close pid sockfd t

-- `F_GETFL` gives the flags, `F_SETFL` sets them to `arg`.
abbrev pub fcntl_flags : ℕ → ℕ → Conn → Conn × ℤ
fcntl_flags cmd arg c =
    if cmd == 3
    then (c, pos c.sock.flags)
    else (if cmd == 4
        then (record c { sock = record c.sock { flags = arg } }, pos 0)
        else (c, negsuc 0))

unfoldable pub sys_fcntl : ℕ → ℕ → ℕ → ℕ → Sockets → Sockets × ℤ
unfolding on_socket
sys_fcntl pid fildes cmd arg t = on_socket (fcntl_flags cmd arg) pid fildes t

-- `SOL_SOCKET` is 1 and `SO_ERROR` is 4.
abbrev pub option_value : IpcSockopt → Conn → ℤ × IpcSockopt
option_value opts c =
    if opts.level == 1
    then (if opts.optname == 4
        then (
          pos 0,
          record opts { optlen = 4; optval = overlay (bytes32 (int_word c.sk.err)) opts.optval },
        )
        else (enoprotoopt, opts))
    else (einval, opts)

-- `opts` has the arguments, and `optval` and `optlen` after the call.
unfoldable pub sys_getsockopt : ℕ → IpcSockopt → Sockets → Sockets × ℤ × IpcSockopt
unfolding get_socket socket_acquire socket_release
sys_getsockopt pid opts t = elim (get_socket pid opts.fd t.sockets) [
  | none ↦ (t, ebadf, opts)
  | some e ↦
      let (rc, got) = option_value opts e.conn in (socket_release (socket_acquire e) t, rc, got)
]

unfoldable pub sys_getpeername : ℕ → ℕ → IpcSockname → Sockets → Sockets × ℤ × IpcSockname
unfolding get_socket socket_acquire inet_getpeername socket_release
sys_getpeername pid socket name t = elim (get_socket pid socket t.sockets) [
  | none ↦ (t, ebadf, name)
  | some e ↦ (socket_release (socket_acquire e) t, pos 0, inet_getpeername e.conn name)
]

unfoldable pub sys_getsockname : ℕ → ℕ → IpcSockname → Sockets → Sockets × ℤ × IpcSockname
unfolding get_socket socket_acquire inet_getsockname socket_release
sys_getsockname pid socket name t = elim (get_socket pid socket t.sockets) [
  | none ↦ (t, ebadf, name)
  | some e ↦ (socket_release (socket_acquire e) t, pos 0, inet_getsockname e.conn name)
]

unfoldable pub abort_each : List Entry → Sockets → Sockets
unfolding inet_abort
abort_each [] t = t
abort_each (e ∷ es) t = let (e2, t2) = on_conn inet_abort e t in abort_each es (store e2 t2)

unfoldable pub abort_sockets : Sockets → Sockets
unfolding abort_each
abort_sockets t = abort_each t.sockets t

-- `tcp_in` for the header and the buffer of a segment: the socket that the ports belong to gets
-- it, and a segment for no socket is freed.
unfoldable pub tcp_in : Iphdr → SkBuff → List ℕ → Sockets → Sockets
unfolding free_skb tcp_init_segment inet_lookup socket_acquire tcp_input_state socket_release
    read_tcphdr
tcp_in iph skb bytes t =
    let (th, segment) = tcp_init_segment (read_tcphdr bytes) iph skb in
    elim (inet_lookup th.sport th.dport t.sockets) [
      | none ↦ record t { world = record t.world { freed = free_skb segment t.world.freed } }
      | some e ↦
          let c = tcp_input_state (load t.world (socket_acquire e).conn) th segment in
          socket_release (record e { conn = c }) (record t { world = save c t.world })
    ]
