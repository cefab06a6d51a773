-- ===== src/Sockets/Reach.antt =====
-- The tables that the calls of src/socket.c can make of an empty one.
use mathlib.Core.Path.{subst}
use hf_ip.Sockets.Connected.{connect-IsTable}
use hf_ip.Prelude.{
  ==_iff, Bool-cases, List, Option-cases, [], ap, bit_and, false, inl, inr, refl, some, some_inj, ℕ,
  ◌==◌, ◌∙◌, ◌∷◌, ◌≡◌,
}
use hf_ip.Prelude.Int.{ℤ}
use hf_ip.Sockets.{Entry, Sockets, at, get_socket, socket_find, socket_garbage_collect}
use hf_ip.Packet.{Iphdr}
use hf_ip.Ipc.{IpcPollfd, IpcSockname, IpcSockopt}
use hf_ip.Sockets.Poll.{sys_poll}
use hf_ip.Sockets.Refs.{Same}
use hf_ip.SkBuff.{SkBuff}
use hf_ip.Sockets.Segments.{read-Same, segment-Same}
use hf_ip.Sockets.Inet.{Env}
use hf_ip.Sockets.Calls.{
  sys_close, sys_connect, sys_fcntl, sys_getpeername, sys_getsockname, sys_getsockopt, sys_read,
  sys_socket, sys_write, tcp_in,
}
use hf_ip.Sockets.Table.{IsTable, get-head, get-skip}
use hf_ip.Sockets.Connect.{IsBalanced}
use hf_ip.Sockets.Listed.{free-IsTable}
use hf_ip.Sockets.Held.{get-IsListed}
use hf_ip.Sockets.Invariant.{
  Pauses, close-Same, fcntl-Same, getpeername-Same, getsockname-Same, getsockopt-Same, poll-Same,
  socket-IsTable, write-Same,
}

-- A call of a program on a socket, or a segment that arrives. The other threads of a `_read` and of a
-- `_poll` are balanced.
pub data Visit (t : Sockets) : Sockets → Type 0 where
  read_call :
      (env : Env) (pid fd count : ℕ) (t2 : Sockets) (rc : ℤ) (bytes : List ℕ)
      → IsBalanced env
      → sys_read env pid fd count t ≡ some (t2, rc, bytes)
      → Visit t t2
  poll_call :
      (fuel : ℕ) (pause : ℕ → Sockets → Sockets) (pid : ℕ) (fds : List IpcPollfd) (timeout : ℤ)
      (t2 : Sockets) (rc : ℤ) (got : List IpcPollfd)
      → Pauses pause
      → sys_poll fuel pause pid fds timeout t ≡ some (t2, rc, got)
      → Visit t t2
  segment_call : (ih : Iphdr) (skb : SkBuff) (bytes : List ℕ) → Visit t (tcp_in ih skb bytes t)
  write_call : (pid fd : ℕ) (buf : List ℕ) → Visit t (sys_write pid fd buf t).0
  close_call : (pid fd : ℕ) → Visit t (sys_close pid fd t).0
  fcntl_call : (pid fd cmd arg : ℕ) → Visit t (sys_fcntl pid fd cmd arg t).0
  getsockopt_call : (pid : ℕ) (opts : IpcSockopt) → Visit t (sys_getsockopt pid opts t).0
  getpeername_call : (pid fd : ℕ) (name : IpcSockname) → Visit t (sys_getpeername pid fd name t).0
  getsockname_call : (pid fd : ℕ) (name : IpcSockname) → Visit t (sys_getsockname pid fd name t).0

-- Also a `_socket` that succeeds, a `_connect` whose other threads are balanced, and the timer of a
-- socket that is to go.
pub data Call (t : Sockets) : Sockets → Type 0 where
  socket_call :
      (pid type protocol : ℕ)
      → (bit_and type 1 == 0) ≡ false
      → Call t (sys_socket pid 2 type protocol t).0
  connect_call :
      (env : Env) (pid fd : ℕ) (addr : List ℕ) (addrlen : ℕ) (t2 : Sockets) (rc : ℤ)
      → IsBalanced env
      → sys_connect env pid fd addr addrlen t ≡ some (t2, rc)
      → Call t t2
  visit : {t2 : Sockets} → Visit t t2 → Call t t2
  collect_call : (fd : ℕ) → Call t (socket_garbage_collect fd t)

pub data Reaches : Sockets → Sockets → Type 0 where
  here : {t : Sockets} → Reaches t t
  after : {t t2 t3 : Sockets} → Reaches t t2 → Call t2 t3 → Reaches t t3

-- A socket that is found by its address is found by its owner and its fd.
find-get :
    (fd : ℕ) (es : List Entry) (e : Entry)
    → socket_find fd es ≡ some e
    → (get_socket e.conn.sock.pid fd es ≡ some e) × (at e ≡ fd)
unfolding socket_find
find-get fd [] e h = cc
find-get fd (x ∷ xs) e h = elim (Bool-cases (at x == fd)) [
  | inl same ↦
      let here = some_inj (rw same at h) in
      let number = (==_iff (at x) fd).0 same in
      subst (λ (y : Entry). (get_socket y.conn.sock.pid fd (x ∷ xs) ≡ some y) × (at y ≡ fd)) here
        (get-head x.conn.sock.pid fd x xs refl number, number)
  | inr other ↦
      let (g, number) = find-get fd xs e (rw other at h) in
      (get-skip e.conn.sock.pid fd x xs other ∙ g, number)
]

collect-IsTable : (fd : ℕ) (t : Sockets) → IsTable t → IsTable (socket_garbage_collect fd t)
unfolding socket_garbage_collect
collect-IsTable fd t w = elim (Option-cases (socket_find fd t.sockets)) [
  | inl e ↦ rw (e, socket_garbage_collect) w
  | inr (e, f) ↦
      let (g, number) = find-get fd t.sockets e f in
      let owner = e.conn.sock.pid in
      let g2 = ap (λ n. get_socket owner n t.sockets) number ∙ g in
      rw (f, socket_garbage_collect) (free-IsTable owner t e e w g2 (get-IsListed owner fd t e w g))
]

pub Visit-Same : (t t2 : Sockets) → IsTable t → Visit t t2 → Same t t2
Visit-Same t t2 w (read_call env pid fd count _ rc bytes b h) =
    read-Same env pid fd count t t2 rc bytes b w h
Visit-Same t t2 w (poll_call fuel pause pid fds timeout _ rc got b h) =
    poll-Same fuel pause pid fds timeout t t2 rc got b w h
Visit-Same t _ w (segment_call ih skb bytes) = segment-Same ih skb bytes t w
Visit-Same t _ w (write_call pid fd buf) = write-Same pid fd buf t w
Visit-Same t _ w (close_call pid fd) = close-Same pid fd t w
Visit-Same t _ w (fcntl_call pid fd cmd arg) = fcntl-Same pid fd cmd arg t w
Visit-Same t _ w (getsockopt_call pid opts) = getsockopt-Same pid opts t w
Visit-Same t _ w (getpeername_call pid fd name) = getpeername-Same pid fd name t w
Visit-Same t _ w (getsockname_call pid fd name) = getsockname-Same pid fd name t w

call-IsTable : (t t2 : Sockets) → IsTable t → Call t t2 → IsTable t2
call-IsTable t _ w (socket_call pid type protocol h) = socket-IsTable pid type protocol t w h
call-IsTable t t2 w (connect_call env pid fd addr addrlen _ rc b h) =
    connect-IsTable env pid fd addr addrlen t t2 rc b w h
call-IsTable t t2 w (visit v) = (Visit-Same t t2 w v).table
call-IsTable t _ w (collect_call fd) = collect-IsTable fd t w

-- Any sequence of the calls `_socket`, `_connect`, `_read`, `_write`, `_close`, `_poll`, `_fcntl`,
-- `_getsockopt`, `_getpeername` and `_getsockname`, of arriving segments and of the timers that free
-- sockets keeps a table: the fds of its sockets are distinct and below the next one, every socket of
-- the list is created and has a positive count of references, and `sock_amount` is their number. The
-- conditions are that the calls of `_socket` succeed, and that the other threads give back the
-- references they take during a `_connect`, a `_read` or a `_poll`.
pub reach-IsTable : (t t2 : Sockets) → IsTable t → Reaches t t2 → IsTable t2
reach-IsTable t _ w here = w
reach-IsTable t t3 w (after {t2 = t2} r c) = call-IsTable t2 t3 (reach-IsTable t t2 w r) c
