-- ===== src/Sockets/Flags.antt =====
-- `_fcntl` of src/socket.c, and what the calls do with a descriptor that no socket has.
use hf_ip.Prelude.{List, [], ap, none, refl, some, suc, ℕ, ◌∙◌, ◌≡◌}
use hf_ip.Prelude.Int.{dec, inc, pos, ℤ}
use hf_ip.Ipc.{IpcSockname, IpcSockopt}
use hf_ip.Tcp.{ebadf}
use hf_ip.Sockets.{Entry, Sockets, World, acquired, get_socket, load, save, socket_acquire, store}
use hf_ip.Sockets.Inet.{Env}
use hf_ip.Sockets.Calls.{
  held, on_socket, sys_close, sys_connect, sys_fcntl, sys_getpeername, sys_getsockname,
  sys_getsockopt, sys_read, sys_write,
}
use hf_ip.Sockets.Table.{IsLive, IsTable, get-All, get-put, get-same, release-put}

-- The socket after a call has its references again.
abbrev with_flags : ℕ → Entry → World → Entry
with_flags flags e w =
    let c = load w e.conn in
    record e {
      conn = record c { sock = record c.sock { refcnt = dec (inc c.sock.refcnt); flags = flags } };
    }

set_flags :
    (pid fd flags : ℕ) (e : Entry) (t : Sockets) (n : ℕ)
    → get_socket pid fd t.sockets ≡ some e
    → e.conn.sock.refcnt ≡ pos (suc n)
    → sys_fcntl pid fd 4 flags t ≡ (
      store (with_flags flags e t.world) (record t { world = save (load t.world e.conn) t.world }),
      pos 0,
    )
unfolding sys_fcntl on_socket held socket_acquire
set_flags pid fd flags e t n g r =
    let c = load t.world (acquired e.conn) in
    let d = record c { sock = record c.sock { flags = flags } } in
    rw (g, sys_fcntl, on_socket)
      (ap (λ (x : Sockets). (x, pos 0))
        (release-put (record e { conn = d }) (record t { world = save d t.world }) n (ap inc r)))

get_flags :
    (pid fd : ℕ) (e : Entry) (t : Sockets)
    → get_socket pid fd t.sockets ≡ some e
    → (sys_fcntl pid fd 3 0 t).1 ≡ pos e.conn.sock.flags
unfolding sys_fcntl on_socket held socket_acquire
get_flags pid fd e t g = rw (g, sys_fcntl, on_socket) refl

-- The flags that `F_SETFL` has set are those that `F_GETFL` gives, on any socket of a table.
pub fcntl_roundtrip :
    (pid fd flags : ℕ) (t : Sockets) (e : Entry)
    → IsTable t
    → get_socket pid fd t.sockets ≡ some e
    → ((sys_fcntl pid fd 4 flags t).1 ≡ pos 0)
      × ((sys_fcntl pid fd 3 0 (sys_fcntl pid fd 4 flags t).0).1 ≡ pos flags)
fcntl_roundtrip pid fd flags t e w g =
    let (made, (n, r)) = get-All IsLive pid fd t.sockets e g w.live in
    let e2 = with_flags flags e t.world in
    let t2 = store e2 (record t { world = save (load t.world e.conn) t.world }) in
    let stored = set_flags pid fd flags e t n g r in
    let (owner, number) = get-same pid fd t.sockets e g in
    let there = get-put pid fd t.sockets e e2 w.distinct g owner number in
    (
      ap (λ (x : Sockets × ℤ). x.1) stored,
      ap (λ (x : Sockets × ℤ). (sys_fcntl pid fd 3 0 x.0).1) stored ∙ get_flags pid fd e2 t2 there,
    )

-- On a descriptor that the process has no socket for, every call returns -EBADF, and the table and
-- the caller's memory stay as they were.
pub no_socket :
    (env : Env) (pid fd : ℕ) (t : Sockets) (buf : List ℕ) (n cmd arg : ℕ) (opts : IpcSockopt)
    (name : IpcSockname)
    → get_socket pid fd t.sockets ≡ none
    → let opts2 = record opts { fd = fd } in
      (sys_connect env pid fd buf n t ≡ some (t, ebadf))
      × (sys_write pid fd buf t ≡ (t, ebadf))
      × (sys_read env pid fd n t ≡ some (t, ebadf, []))
      × (sys_close pid fd t ≡ (t, ebadf))
      × (sys_fcntl pid fd cmd arg t ≡ (t, ebadf))
      × (sys_getsockopt pid opts2 t ≡ (t, ebadf, opts2))
      × (sys_getpeername pid fd name t ≡ (t, ebadf, name))
      × (sys_getsockname pid fd name t ≡ (t, ebadf, name))
unfolding sys_connect sys_write sys_read sys_close sys_fcntl sys_getsockopt sys_getpeername
    sys_getsockname on_socket
no_socket env pid fd t buf n cmd arg opts name g = (
  rw (g, sys_connect) refl,
  rw (g, sys_write, on_socket) refl,
  rw (g, sys_read) refl,
  rw (g, sys_close, on_socket) refl,
  rw (g, sys_fcntl, on_socket) refl,
  rw (g, sys_getsockopt) refl,
  rw (g, sys_getpeername) refl,
  rw (g, sys_getsockname) refl,
)
