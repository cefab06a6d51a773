-- ===== src/Sockets/Segments.antt =====
-- `tcp_in` and `_read` keep the table of sockets.
use mathlib.Core.Path.{subst}
use hf_ip.Prelude.{List, Option, Option-cases, inl, inr, none, refl, some, some_inj, ℕ, ◌≡◌}
use hf_ip.Prelude.Int.{ℤ}
use hf_ip.Packet.{Iphdr, read_tcphdr}
use hf_ip.SkBuff.{SkBuff}
use hf_ip.Tcp.{Conn}
use hf_ip.Tcp.User.{Received, tcp_read}
use hf_ip.Tcp.Segment.{tcp_init_segment}
use hf_ip.Sockets.{
  Entry, Sockets, get_socket, load, save, socket_acquire, socket_lookup, socket_release,
}
use hf_ip.Sockets.Inet.{Env, inet_lookup, inet_read}
use hf_ip.Sockets.Calls.{sys_read, tcp_in}
use hf_ip.Sockets.Table.{IsTable}
use hf_ip.Tcp.Calm.{Keeps}
use hf_ip.Sockets.Steady.Read.{Kept, read-Kept}
use hf_ip.Sockets.Steady.Input.{input-Keeps}
use hf_ip.Sockets.Connect.{IsBalanced}
use hf_ip.Sockets.Refs.{Has, Same, Same-world, get-Has, lookup-Has, release-Same}

-- The entry of the table behind a call that keeps its socket's numbers.
pub kept-Same :
    (e : Entry) (t : Sockets) (d : Conn)
    → IsTable t
    → Has e t.sockets
    → Keeps (load t.world (socket_acquire e).conn) d
    → Same t (socket_release (record e { conn = d }) (record t { world = save d t.world }))
unfolding socket_acquire
kept-Same e t d w i k =
    release-Same e (record e { conn = d }) t (save d t.world) w i k.fd refl k.refcnt

-- Whatever segment arrives, the table of the sockets stays one.
pub segment-Same :
    (ih : Iphdr) (skb : SkBuff) (bytes : List ℕ) (t : Sockets)
    → IsTable t
    → Same t (tcp_in ih skb bytes t)
unfolding tcp_in inet_lookup
segment-Same ih skb bytes t w =
    let (th, segment) = tcp_init_segment (read_tcphdr bytes) ih skb in
    elim (Option-cases (socket_lookup th.sport th.dport t.sockets)) [
      | inl e ↦ rw (tcp_in, e) (Same-world t _ w)
      | inr (e, f) ↦
          rw (tcp_in, f)
            (kept-Same e t _ w (lookup-Has th.sport th.dport t.sockets e f)
              (input-Keeps _ th segment))
    ]

read_end :
    (e : Entry) (t t2 : Sockets) (o : Option Received) (rc : ℤ) (bytes : List ℕ)
    → IsTable t
    → Has e t.sockets
    → Kept (load t.world (socket_acquire e).conn) o
    → (elim o as (λ o. Option (Sockets × ℤ × List ℕ)) [
      | none ↦ none
      | some r ↦
          let t1 = record t { world = save r.conn t.world } in
          some (socket_release (record e { conn = r.conn }) t1, r.rlen, r.bytes)
    ])
      ≡ some (t2, rc, bytes)
    → Same t t2
read_end e t t2 none rc bytes w l k h = cc
read_end e t t2 (some r) rc bytes w l k h =
    subst (λ (x : Sockets × ℤ × List ℕ). Same t x.0) (some_inj h) (kept-Same e t r.conn w l k)

-- A `_read` that returns, while which the other threads are balanced.
pub read-Same :
    (env : Env) (pid fd count : ℕ) (t t2 : Sockets) (rc : ℤ) (bytes : List ℕ)
    → IsBalanced env
    → IsTable t
    → sys_read env pid fd count t ≡ some (t2, rc, bytes)
    → Same t t2
unfolding sys_read inet_read
read-Same env pid fd count t t2 rc bytes b w h = elim (Option-cases (get_socket pid fd t.sockets)) [
  | inl e ↦
      subst (λ (x : Sockets × ℤ × List ℕ). Same t x.0) (some_inj (rw (e, sys_read) at h))
        (Same-world t t.world w)
  | inr (e, g) ↦
      let c = load t.world (socket_acquire e).conn in
      read_end e t t2 (tcp_read env.rounds env.wake count c) rc bytes w
        (get-Has pid fd t.sockets e g) (read-Kept env.wake b env.rounds count c)
        (rw (g, sys_read) at h)
]
