-- ===== src/Sockets/Invariant.antt =====
-- Every call of src/socket.c keeps the table of sockets.
use mathlib.Core.Path.{subst}
use hf_ip.Sockets.Listed.{add_tail-IsTable}
use hf_ip.Sockets.Held.{release-IsTable}
use hf_ip.Prelude.{
  Bool-cases, List, Option-cases, [], ap, arith, bit_and, false, if◌then◌else◌, inl, inr, ltb, refl,
  some, some_inj, suc, sym, zero, ℕ, ◌==◌, ◌||◌, ◌∙◌, ◌∷◌, ◌≡◌,
}
use hf_ip.Prelude.Int.{is_zero, pos, ℤ}
use hf_ip.Tcp.{Conn, ebadf, tcp_alloc_sock}
use hf_ip.Sockets.{
  Entry, Sockets, alloc_socket, get_socket, load, save, socket_acquire, socket_release,
}
use hf_ip.Sockets.Inet.{inet_close, inet_create, inet_write, with_sk}
use hf_ip.Sockets.Calls.{
  add_tail, family_create, fcntl_flags, held, on_socket, socket_created, sys_close, sys_fcntl,
  sys_getpeername, sys_getsockname, sys_getsockopt, sys_socket, sys_write,
}
use hf_ip.Ipc.{IpcPollfd, IpcSockname, IpcSockopt}
use hf_ip.Sockets.Poll.{next_timeout, poll_pass, sys_poll}
use hf_ip.Sockets.Refs.{Has, Same, Same-trans, Same-world, get-Has, release-Same}
use hf_ip.Sockets.Table.{IsTable}
use hf_ip.Sockets.Steady.{IsSteady, inet_close-IsSteady, inet_write-IsSteady}

-- A call that holds its socket while it is on the connection.
held-Same :
    (f : Conn → Conn × ℤ) (e : Entry) (t : Sockets)
    → IsSteady f
    → IsTable t
    → Has e t.sockets
    → Same t (held f e t).0
unfolding held socket_acquire
held-Same f e t s w i =
    let c = load t.world (socket_acquire e).conn in
    let k = s c in
    release-Same e (record e { conn = (f c).0 }) t (save (f c).0 t.world) w i k.fd refl k.refcnt

found-Same :
    (f : Conn → Conn × ℤ) (pid fd : ℕ) (t : Sockets)
    → IsSteady f
    → IsTable t
    → Same t (on_socket f pid fd t).0
unfolding on_socket
found-Same f pid fd t s w = elim (Option-cases (get_socket pid fd t.sockets)) [
  | inl e ↦ rw (e, on_socket) (Same-world t t.world w)
  | inr (e, g) ↦ rw (g, on_socket) (held-Same f e t s w (get-Has pid fd t.sockets e g))
]

fcntl_flags-IsSteady : (cmd arg : ℕ) → IsSteady (fcntl_flags cmd arg)
fcntl_flags-IsSteady cmd arg c = record {
  fd = ground arith;
  pid = ground arith;
  refcnt = ground arith;
}

pub write-Same :
    (pid fd : ℕ) (buf : List ℕ) (t : Sockets) → IsTable t → Same t (sys_write pid fd buf t).0
unfolding sys_write
write-Same pid fd buf t w = found-Same (inet_write buf) pid fd t (inet_write-IsSteady buf) w

pub close-Same : (pid fd : ℕ) (t : Sockets) → IsTable t → Same t (sys_close pid fd t).0
unfolding sys_close
close-Same pid fd t w = found-Same inet_close pid fd t inet_close-IsSteady w

pub fcntl-Same :
    (pid fd cmd arg : ℕ) (t : Sockets) → IsTable t → Same t (sys_fcntl pid fd cmd arg t).0
unfolding sys_fcntl
fcntl-Same pid fd cmd arg t w =
    found-Same (fcntl_flags cmd arg) pid fd t (fcntl_flags-IsSteady cmd arg) w

-- A socket that is held while the call only reads it.
looked-Same :
    (e : Entry) (t : Sockets)
    → IsTable t
    → Has e t.sockets
    → Same t (socket_release (socket_acquire e) t)
unfolding socket_acquire
looked-Same e t w i = release-Same e (socket_acquire e) t t.world w i refl refl refl

pub getsockopt-Same :
    (pid : ℕ) (opts : IpcSockopt) (t : Sockets) → IsTable t → Same t (sys_getsockopt pid opts t).0
unfolding sys_getsockopt
getsockopt-Same pid opts t w = elim (Option-cases (get_socket pid opts.fd t.sockets)) [
  | inl e ↦ rw (e, sys_getsockopt) (Same-world t t.world w)
  | inr (e, g) ↦ rw (g, sys_getsockopt) (looked-Same e t w (get-Has pid opts.fd t.sockets e g))
]

pub getpeername-Same :
    (pid fd : ℕ) (name : IpcSockname) (t : Sockets)
    → IsTable t
    → Same t (sys_getpeername pid fd name t).0
unfolding sys_getpeername
getpeername-Same pid fd name t w = elim (Option-cases (get_socket pid fd t.sockets)) [
  | inl e ↦ rw (e, sys_getpeername) (Same-world t t.world w)
  | inr (e, g) ↦ rw (g, sys_getpeername) (looked-Same e t w (get-Has pid fd t.sockets e g))
]

pub getsockname-Same :
    (pid fd : ℕ) (name : IpcSockname) (t : Sockets)
    → IsTable t
    → Same t (sys_getsockname pid fd name t).0
unfolding sys_getsockname
getsockname-Same pid fd name t w = elim (Option-cases (get_socket pid fd t.sockets)) [
  | inl e ↦ rw (e, sys_getsockname) (Same-world t t.world w)
  | inr (e, g) ↦ rw (g, sys_getsockname) (looked-Same e t w (get-Has pid fd t.sockets e g))
]

-- One pass of `_poll` holds each socket and gives it back.
poll_pass-Same :
    (pid : ℕ) (fds : List IpcPollfd) (t : Sockets) → IsTable t → Same t (poll_pass pid fds t).table
unfolding poll_pass
poll_pass-Same pid [] t w = Same-world t t.world w
poll_pass-Same pid (p ∷ ps) t w = elim (Option-cases (get_socket pid p.fd t.sockets)) [
  | inl e ↦ rw (e, poll_pass) (Same-world t t.world w)
  | inr (e, g) ↦
      let t2 = socket_release (socket_acquire e) t in
      let one = looked-Same e t w (get-Has pid p.fd t.sockets e g) in
      rw (g, poll_pass) (Same-trans t t2 _ one (poll_pass-Same pid ps t2 one.table))
]

-- The other threads of a `_poll`: they keep the sockets, and give back the references they take.
abbrev pub Pauses : (ℕ → Sockets → Sockets) → Type 0
Pauses pause = (k : ℕ) (t : Sockets) → IsTable t → Same t (pause k t)

pub poll-Same :
    (fuel : ℕ) (pause : ℕ → Sockets → Sockets) (pid : ℕ) (fds : List IpcPollfd) (timeout : ℤ)
    (t t2 : Sockets) (rc : ℤ) (got : List IpcPollfd)
    → Pauses pause
    → IsTable t
    → sys_poll fuel pause pid fds timeout t ≡ some (t2, rc, got)
    → Same t t2
unfolding sys_poll
poll-Same zero pause pid fds timeout t t2 rc got b w h = cc
poll-Same (suc fuel) pause pid fds timeout t t2 rc got b w h =
    let p = poll_pass pid fds t in
    let kept = poll_pass-Same pid fds t w in
    let table : Sockets × ℤ × List IpcPollfd → Sockets = λ r. r.0 in
    let ended : (r : Sockets × ℤ × List IpcPollfd)
        → r.0 ≡ p.table
        → some r ≡ some (t2, rc, got)
        → Same t t2 =
      λ r e o. subst (Same t) (sym e ∙ ap table (some_inj o)) kept in
    elim (Option-cases p.polled) [
      | inl e ↦ ended (p.table, ebadf, p.fds) refl (rw (e, sys_poll) at h)
      | inr (n, e) ↦ elim (Bool-cases (ltb 0 n || is_zero timeout)) [
        | inl stop ↦ ended (p.table, pos n, p.fds) refl (rw (e, sys_poll, stop) at h)
        | inr go ↦
            let slept =
              Same-trans t p.table (pause fuel p.table) kept (b fuel p.table kept.table) in
            Same-trans t (pause fuel p.table) t2 slept (
              poll-Same fuel pause pid p.fds (next_timeout timeout) (pause fuel p.table) t2 rc got b
                slept.table (rw (e, sys_poll, go) at h))
      ]
    ]

-- The entry of a new socket.
abbrev pub new_entry : ℕ → ℕ → ℕ → Sockets → Entry
unfolding alloc_socket
new_entry pid type protocol t =
    with_sk protocol t.world (record (alloc_socket pid t).0 { type = type })

-- A socket of the internet family and a supported type.
pub socket-new :
    (pid type protocol : ℕ) (t : Sockets)
    → (bit_and type 1 == 0) ≡ false
    → sys_socket pid 2 type protocol t
      ≡ socket_created (record t { next_fd = suc t.next_fd }) (new_entry pid type protocol t, pos 0)
unfolding sys_socket family_create inet_create alloc_socket
socket-new pid type protocol t h =
    let e = record (alloc_socket pid t).0 { type = type } in
    ap
      (λ b.
        socket_created (record t { next_fd = suc t.next_fd })
          (if b then (e, pos 1) else (new_entry pid type protocol t, pos 0)))
      h

created-IsTable :
    (pid type protocol : ℕ) (t : Sockets)
    → IsTable t
    → IsTable
        (socket_created
          (record t { next_fd = suc t.next_fd })
          (new_entry pid type protocol t, pos 0)).0
unfolding socket_created socket_acquire alloc_socket new_entry tcp_alloc_sock
created-IsTable pid type protocol t w =
    let e = socket_acquire (new_entry pid type protocol t) in
    release-IsTable e (add_tail e (record t { next_fd = suc t.next_fd })) 0
      (add_tail-IsTable e t w refl (refl, (1, refl))) (omega arith) refl refl

pub socket-IsTable :
    (pid type protocol : ℕ) (t : Sockets)
    → IsTable t
    → (bit_and type 1 == 0) ≡ false
    → IsTable (sys_socket pid 2 type protocol t).0
socket-IsTable pid type protocol t w h =
    subst (λ (r : Sockets × ℤ). IsTable r.0) (sym (socket-new pid type protocol t h))
      (created-IsTable pid type protocol t w)
