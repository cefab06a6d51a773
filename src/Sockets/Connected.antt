-- ===== src/Sockets/Connected.antt =====
-- `_connect` of src/socket.c keeps the table of sockets.
use mathlib.Core.Path.{subst}
use hf_ip.Prelude.{
  Bool-cases, List, Option, Option-cases, ap, inl, inr, ltb, none, refl, some, some_inj, suc, sym,
  ℕ, ◌<◌, ◌==◌, ◌∙◌, ◌≡◌,
}
use hf_ip.Prelude.Int.{dec, inc, pos, ℤ}
use hf_ip.Packet.{at16}
use hf_ip.Tcp.{
  Conn, Socket, SocketState, ss_connected, ss_connecting, ss_disconnecting, ss_free, ss_unconnected,
}
use hf_ip.Sockets.{
  Entry, Sockets, World, at, get_socket, load, released, save, socket_acquire, socket_release,
}
use hf_ip.Sockets.Inet.{Env, connect_switch, inet_stream_connect, is_closed}
use hf_ip.Sockets.Calls.{connect_end, connect_result, is_fatal, sys_connect}
use hf_ip.Sockets.Table.{IsTable, get-put, get-same, release-put}
use hf_ip.Sockets.Connect.{Grows, IsBalanced, start-Grows}
use hf_ip.Sockets.Listed.{free-IsTable}
use hf_ip.Sockets.Held.{get-IsListed, release-IsTable, world-IsTable}

-- A result whose connection has the socket of before.
pub kept-Grows :
    (x : Conn × ℤ) (c d : Conn) (rc : ℤ) → x.0.sock ≡ c.sock → some x ≡ some (d, rc) → Grows c d
kept-Grows x c d rc e h =
    let same : d.sock ≡ c.sock = ap (λ (y : Conn × ℤ). y.0.sock) (sym (some_inj h)) ∙ e in
    record {
      fd = ap (λ (s : Socket). s.fd) same;
      pid = ap (λ (s : Socket). s.pid) same;
      refcnt = inl (ap (λ (s : Socket). s.refcnt) same);
    }

pub switch-Grows :
    (s : SocketState) (env : Env) (addr : List ℕ) (port : ℕ) (c d : Conn) (rc : ℤ)
    → IsBalanced env
    → (connect_switch s env addr port c).1 ≡ some (d, rc)
    → Grows c d
unfolding connect_switch
switch-Grows ss_unconnected env addr port c d rc b h = elim (Bool-cases (is_closed c.sk.state)) [
  | inl e ↦ start-Grows env addr port c d rc b (rw e at h)
  | inr e ↦ kept-Grows _ c d rc refl (rw e at h)
]
switch-Grows ss_connecting env addr port c d rc b h = kept-Grows _ c d rc refl h
switch-Grows ss_connected env addr port c d rc b h = kept-Grows _ c d rc refl h
switch-Grows ss_free env addr port c d rc b h = kept-Grows _ c d rc refl h
switch-Grows ss_disconnecting env addr port c d rc b h = kept-Grows _ c d rc refl h

pub inet-Grows :
    (env : Env) (addr : List ℕ) (addr_len port : ℕ) (c d : Conn) (rc : ℤ)
    → IsBalanced env
    → (inet_stream_connect env addr addr_len port c).1 ≡ some (d, rc)
    → Grows c d
unfolding inet_stream_connect
inet-Grows env addr addr_len port c d rc b h = elim (Bool-cases (ltb addr_len 2)) [
  | inl e ↦ kept-Grows _ c d rc refl (rw e at h)
  | inr e ↦ elim (Bool-cases (at16 addr 0 == 0)) [
    | inl u ↦ kept-Grows _ c d rc refl (rw (e, u) at h)
    | inr u ↦ switch-Grows c.sock.state env addr port c d rc b (rw (e, u) at h)
  ]
]

-- The references of the entry after a call that may take one.
pub more_refs :
    (e : Entry) (w : World) (d : Conn) (n : ℕ)
    → e.conn.sock.refcnt ≡ pos (suc n)
    → Grows (load w (socket_acquire e).conn) d
    → (m : ℕ) × (d.sock.refcnt ≡ pos (suc (suc m)))
unfolding socket_acquire
more_refs e w d n h g = elim g.refcnt [
  | inl r ↦ (n, r ∙ ap inc h)
  | inr r ↦ (suc n, r ∙ ap (λ z. inc (inc z)) h)
]

pub end-IsTable :
    (pid fd : ℕ) (e : Entry) (t : Sockets) (d : Conn) (rc : ℤ)
    → IsTable t
    → get_socket pid fd t.sockets ≡ some e
    → Grows (load t.world (socket_acquire e).conn) d
    → IsTable (connect_end e t (d, rc)).0
unfolding connect_end socket_acquire
end-IsTable pid fd e t d rc w g k =
    let (less, (made, (n, r))) = get-IsListed pid fd t e w g in
    let (m, r2) = more_refs e t.world d n r k in
    let t1 = record t { world = save d t.world } in
    let w1 = world-IsTable t (save d t.world) w in
    let e2 = record e { conn = d } in
    let left = record e { conn = released d } in
    let less2 : at e2 < t.next_fd = subst (λ x. x < t.next_fd) (sym k.fd) less in
    let w2 = release-IsTable e2 t1 m w1 less2 made r2 in
    let (owner, number) = get-same pid fd t.sockets e g in
    let there : get_socket pid fd (socket_release e2 t1).sockets ≡ some left =
      ap (λ (x : Sockets). get_socket pid fd x.sockets) (release-put e2 t1 m r2)
      ∙ get-put pid fd t.sockets e left w.distinct g (k.pid ∙ owner) (k.fd ∙ number) in
    let put_back = release-put e2 t1 m r2 in
    let less3 : at left < (socket_release e2 t1).next_fd =
      subst (λ (x : Sockets). at left < x.next_fd) (sym put_back) less2 in
    let there2 =
      ap (λ x. get_socket pid x (socket_release e2 t1).sockets) (k.fd ∙ number) ∙ there in
    elim (Bool-cases (is_fatal rc)) [
      | inl f ↦ rw f (
          free-IsTable pid (socket_release e2 t1) left left w2 there2
            (less3, (made, (m, ap dec r2))))
      | inr f ↦ rw f w2
    ]

pub result_end :
    (e : Entry) (t t2 : Sockets) (o : Option (Conn × ℤ)) (rc : ℤ)
    → connect_result e t o ≡ some (t2, rc)
    → (r : Conn × ℤ) × (o ≡ some r) × (t2 ≡ (connect_end e t r).0)
unfolding connect_result
result_end e t t2 none rc h = cc
result_end e t t2 (some r) rc h = (r, refl, ap (λ (x : Sockets × ℤ). x.0) (sym (some_inj h)))

pub connect-IsTable :
    (env : Env) (pid fd : ℕ) (addr : List ℕ) (addrlen : ℕ) (t t2 : Sockets) (rc : ℤ)
    → IsBalanced env
    → IsTable t
    → sys_connect env pid fd addr addrlen t ≡ some (t2, rc)
    → IsTable t2
unfolding sys_connect
connect-IsTable env pid fd addr addrlen t t2 rc b w h =
    elim (Option-cases (get_socket pid fd t.sockets)) [
      | inl e ↦ subst (λ (x : Sockets × ℤ). IsTable x.0) (some_inj (rw (e, sys_connect) at h)) w
      | inr (e, g) ↦
          let c = load t.world (socket_acquire e).conn in
          let x = inet_stream_connect env addr addrlen t.world.port c in
          let t1 = record t { world = record t.world { port = x.0 } } in
          let ((d, r), o, same) = result_end e t1 t2 x.1 rc (rw (g, sys_connect) at h) in
          subst IsTable (sym same) (
            end-IsTable pid fd e t1 d r (world-IsTable t t1.world w) g
              (inet-Grows env addr addrlen t.world.port c d r b o))
    ]
