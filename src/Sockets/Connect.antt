-- ===== src/Sockets/Connect.antt =====
-- The references of a socket during `inet_stream_connect` of src/inet.c.
use hf_ip.Prelude.{
  Bool, Bool-cases, List, Option, ap, arith, false, if◌then◌else◌, inl, inr, ltb, none, not, refl,
  some, some_inj, suc, sym, true, zero, ℕ, ◌==◌, ◌||◌, ◌∙◌, ◌≡◌, ◌≤◌, ◌⊎◌,
}
use hf_ip.Prelude.Int.{inc, inc-dec, int_eq, is_zero, pos, ℤ}
use hf_ip.Packet.{at16, at32, flag}
use hf_ip.Tcp.{Conn, Socket, econnrefused, etimedout, ss_connecting, ss_unconnected, tcp_set_state}
use hf_ip.SkBuff.{SkBuff, skb_queue_empty}
use hf_ip.Tcp.Lifecycle.{tcp_rearm_rto_timer}
use hf_ip.Tcp.Output.{
  may_connect, queue_tail, tcp_connect, tcp_queue_transmit_skb, tcp_send_syn, tcp_transmit_skb,
  transmit_first,
}
use hf_ip.Tcp.User.{generate_port, is_nonblock, tcp_v4_connect}
use hf_ip.Sockets.{acquired, released}
use hf_ip.Sockets.Inet.{
  Env, connect_done, connect_switch, connect_wait, connecting, einprogress, eisconn,
  inet_stream_connect, is_closed, set_err, set_state, start_connect, waited,
}
use hf_ip.Sockets.Table.{if_some}
use hf_ip.Tcp.Calm.{Keeps, Keeps-same, Keeps-trans}
use hf_ip.Sockets.Steady.{first-if, sock-if}

-- The other threads give back the references that they take.
abbrev pub IsBalanced : Env → Type 0
IsBalanced env = (k : ℕ) (c : Conn) → Keeps c (env.wake k c)

-- A call that may take a reference.
pub record Grows (c d : Conn) : Type 0 where
  pub fd : d.sock.fd ≡ c.sock.fd
  pub pid : d.sock.pid ≡ c.sock.pid
  pub refcnt : (d.sock.refcnt ≡ c.sock.refcnt) ⊎ (d.sock.refcnt ≡ inc c.sock.refcnt)

Keeps-Grows : (c d : Conn) → Keeps c d → Grows c d
Keeps-Grows c d k = record { fd = k.fd; pid = k.pid; refcnt = inl k.refcnt }

sock-queue_transmit : (c : Conn) (skb : SkBuff) → (tcp_queue_transmit_skb c skb).0.sock ≡ c.sock
unfolding tcp_queue_transmit_skb transmit_first tcp_transmit_skb
sock-queue_transmit c skb =
    let c1 = if skb_queue_empty c.sk.write_queue then tcp_rearm_rto_timer c else c in
    let same : c1.sock ≡ c.sock =
      unfold tcp_rearm_rto_timer in
      sock-if (skb_queue_empty c.sk.write_queue) c (tcp_rearm_rto_timer c) c refl refl in
    first-if (c1.inflight == 0) c
      (queue_tail (transmit_first c1 skb).0 (transmit_first c1 skb).1, (transmit_first c1 skb).2)
      (queue_tail c1 skb, pos 0) same same

sock-send_syn : (c : Conn) → (tcp_send_syn c).0.sock ≡ c.sock
unfolding tcp_send_syn tcp_set_state
sock-send_syn c = elim (Bool-cases (may_connect c.sk.state)) [
  | inl e ↦ rw e (sock-queue_transmit _ _)
  | inr e ↦ rw e refl
]

sock-v4_connect :
    (dport daddr sport iss : ℕ) (c : Conn)
    → (tcp_v4_connect dport daddr sport iss c).0.sock ≡ c.sock
unfolding tcp_v4_connect tcp_connect
sock-v4_connect dport daddr sport iss c = sock-send_syn _

if_else {ℓ} :
    {A : Type ℓ} (b : Bool) (x e : A) (r : Option A)
    → (if b then r else some x) ≡ some e
    → (r ≡ some e) ⊎ (x ≡ e)
if_else true x e r h = inl h
if_else false x e r h = inr (some_inj h)

wait-Keeps :
    (env : Env) (rounds : ℕ) (c d : Conn)
    → IsBalanced env
    → connect_wait rounds env.wake c ≡ some d
    → Keeps c d
unfolding connect_wait
wait-Keeps env zero c d b h = cc
wait-Keeps env (suc rounds) c d b h =
    let asleep = record (released c) { sock = record (released c).sock { sleeping = true } } in
    let awake = env.wake rounds asleep in
    elim (if_else (connecting c) c d (connect_wait rounds env.wake (acquired awake)) h) [
      | inl slept ↦
          let k = b rounds asleep in
          let n = wait-Keeps env rounds (acquired awake) d b slept in
          record {
            fd = n.fd ∙ k.fd;
            pid = n.pid ∙ k.pid;
            refcnt = n.refcnt ∙ ap inc k.refcnt ∙ inc-dec c.sock.refcnt;
          }
      | inr e ↦ Keeps-same c d (ap (λ (x : Conn). x.sock) (sym e))
    ]

-- After its loop `inet_stream_connect` has one reference more than it came with.
pub done-refcnt :
    (c : Conn)
    → let d = (connect_done c).0 in
      (d.sock.fd ≡ c.sock.fd) × (d.sock.pid ≡ c.sock.pid) × (d.sock.refcnt ≡ inc c.sock.refcnt)
done-refcnt c =
    elim (Bool-cases
      (int_eq c.sk.err etimedout || int_eq c.sk.err econnrefused || not (is_zero c.sk.err))) [
        | inl e ↦ rw e (refl, refl, refl)
        | inr e ↦ rw e (refl, refl, refl)
      ]

waited-done :
    (o : Option Conn) (d : Conn) (rc : ℤ)
    → waited o ≡ some (d, rc)
    → (c : Conn) × (o ≡ some c) × (d ≡ (connect_done c).0)
waited-done none d rc h = cc
waited-done (some c) d rc h = (c, refl, ap (λ (r : Conn × ℤ). r.0) (sym (some_inj h)))

-- The connection before the loop.
abbrev before_wait : Env → List ℕ → ℕ → Conn → Conn
before_wait env addr sport c = set_err einprogress (
    set_state ss_connecting
      (tcp_v4_connect (at16 addr 2) (at32 addr 4) sport env.iss (set_err eisconn c)).0)

before-Keeps :
    (env : Env) (addr : List ℕ) (sport : ℕ) (c : Conn) → Keeps c (before_wait env addr sport c)
before-Keeps env addr sport c =
    let e = sock-v4_connect (at16 addr 2) (at32 addr 4) sport env.iss (set_err eisconn c) in
    record {
      fd = ap (λ (s : Socket). s.fd) e;
      pid = ap (λ (s : Socket). s.pid) e;
      refcnt = ap (λ (s : Socket). s.refcnt) e;
    }

before-flags :
    (env : Env) (addr : List ℕ) (sport : ℕ) (c : Conn)
    → is_nonblock (before_wait env addr sport c) ≡ is_nonblock c
before-flags env addr sport c =
    ap (λ (s : Socket). flag s.flags 2048)
      (sock-v4_connect (at16 addr 2) (at32 addr 4) sport env.iss (set_err eisconn c))

-- The reference that a call which waits keeps.
waited-refcnt :
    (env : Env) (c d : Conn) (rc : ℤ)
    → IsBalanced env
    → waited (connect_wait env.rounds env.wake c) ≡ some (d, rc)
    → (d.sock.fd ≡ c.sock.fd) × (d.sock.pid ≡ c.sock.pid) × (d.sock.refcnt ≡ inc c.sock.refcnt)
waited-refcnt env c d rc b h =
    let (c3, e, same) = waited-done (connect_wait env.rounds env.wake c) d rc h in
    let k = wait-Keeps env env.rounds c c3 b e in
    let (fd, pid, refcnt) = done-refcnt c3 in
    (
      ap (λ (x : Conn). x.sock.fd) same ∙ fd ∙ k.fd,
      ap (λ (x : Conn). x.sock.pid) same ∙ pid ∙ k.pid,
      ap (λ (x : Conn). x.sock.refcnt) same ∙ refcnt ∙ ap inc k.refcnt,
    )

-- The reference that a `connect` which has waited keeps.
start_connect-refcnt :
    (env : Env) (addr : List ℕ) (port : ℕ) (c d : Conn) (rc : ℤ)
    → IsBalanced env
    → is_nonblock c ≡ false
    → (start_connect env addr port c).1 ≡ some (d, rc)
    → d.sock.refcnt ≡ inc c.sock.refcnt
unfolding start_connect
start_connect-refcnt env addr port c d rc b n h =
    let sport = (generate_port port c.timers.tick).1 in
    let c2 = before_wait env addr sport c in
    let (fd, pid, refcnt) = waited-refcnt env c2 d rc b (
      sym (
        ap (λ x. if x then some (c2, einprogress) else waited (connect_wait env.rounds env.wake c2))
          (before-flags env addr sport c ∙ n))
      ∙ h) in
    refcnt ∙ ap inc (before-Keeps env addr sport c).refcnt

-- A blocking `connect` of a socket that is unconnected and whose connection is closed, to an address
-- of two bytes at least whose family is not 0, has taken one reference of the socket more than it
-- gives back when it returns, whatever its result is. The condition is that the other threads are
-- balanced.
pub connect-refcnt :
    (env : Env) (addr : List ℕ) (addr_len port : ℕ) (c d : Conn) (rc : ℤ)
    → IsBalanced env
    → c.sock.state ≡ ss_unconnected
    → is_closed c.sk.state ≡ true
    → 2 ≤ addr_len
    → (at16 addr 0 == 0) ≡ false
    → is_nonblock c ≡ false
    → (inet_stream_connect env addr addr_len port c).1 ≡ some (d, rc)
    → d.sock.refcnt ≡ inc c.sock.refcnt
unfolding inet_stream_connect connect_switch
connect-refcnt env addr addr_len port c d rc b free closed long family block h =
    let short : ltb addr_len 2 ≡ false = ground arith in
    let started : (inet_stream_connect env addr addr_len port c).1
        ≡ (start_connect env addr port c).1 =
      rw (short, family)
        (ap (λ s. (connect_switch s env addr port c).1) free
          ∙ ap
              (λ b.
                (if b
                  then start_connect env addr port c
                  else (port, some (set_err eisconn c, eisconn))).1)
              closed) in
    start_connect-refcnt env addr port c d rc b block (sym started ∙ h)

pub start-Grows :
    (env : Env) (addr : List ℕ) (port : ℕ) (c d : Conn) (rc : ℤ)
    → IsBalanced env
    → (start_connect env addr port c).1 ≡ some (d, rc)
    → Grows c d
unfolding start_connect
start-Grows env addr port c d rc b h =
    let sport = (generate_port port c.timers.tick).1 in
    let c2 = before_wait env addr sport c in
    let k = before-Keeps env addr sport c in
    elim (if_some (is_nonblock c2) (c2, einprogress) (d, rc)
      (waited (connect_wait env.rounds env.wake c2)) h) [
        | inl e ↦
            Keeps-Grows c d
              (Keeps-trans c c2 d k (Keeps-same c2 d (ap (λ (x : Conn × ℤ). x.0.sock) (sym e))))
        | inr e ↦
            let (fd, pid, refcnt) = waited-refcnt env c2 d rc b e in
            record { fd = fd ∙ k.fd; pid = pid ∙ k.pid; refcnt = inr (refcnt ∙ ap inc k.refcnt) }
      ]
