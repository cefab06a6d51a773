-- ===== src/Tcp/Calm.antt =====
-- Which functions of src/tcp.c, src/tcp_input.c and src/tcp_output.c leave alone what a connection
-- has received and the numbers of its socket.
pub mod Segments
pub mod Stages
pub mod Calls
pub mod Expiry
use mathlib.Core.Path.{subst}
use hf_ip.Prelude.{
  All, Bool, ap, arith, false, if◌then◌else◌, inl, inr, refl, sym, true, ℕ, ◌∙◌, ◌≡◌, ◌≤◌, ◌⊎◌,
}
use hf_ip.SkBuff.{SkBuff, skb_queue_init}
use hf_ip.SkBuff.Queue.{IsCounted}
use hf_ip.Tcp.{
  Conn, Sock, Socket, Tcb, TcpState, close, close_wait, closing, established, fin_wait_1,
  fin_wait_2, last_ack, listen, syn_received, syn_sent, time_wait,
}
use hf_ip.Tcp.Frame.{SameSocket}

-- How far a connection is: before the handshake, in SYN_RECEIVED, able to receive text, in
-- CLOSE_WAIT, and in the other states that receive none.
abbrev pub phase : TcpState → ℕ
phase listen = 0
phase syn_sent = 0
phase syn_received = 1
phase established = 2
phase fin_wait_1 = 2
phase fin_wait_2 = 2
phase close_wait = 3
phase closing = 4
phase last_ack = 4
phase time_wait = 4
phase close = 4

-- The number, the owner and the references of the connection's socket stay.
pub record Keeps (c d : Conn) : Type 0 where
  pub fd : d.sock.fd ≡ c.sock.fd
  pub pid : d.sock.pid ≡ c.sock.pid
  pub refcnt : d.sock.refcnt ≡ c.sock.refcnt

pub Keeps-same : (c d : Conn) → d.sock ≡ c.sock → Keeps c d
Keeps-same c d e = record {
  fd = ap (λ (s : Socket). s.fd) e;
  pid = ap (λ (s : Socket). s.pid) e;
  refcnt = ap (λ (s : Socket). s.refcnt) e;
}

pub Keeps-trans : (c d e : Conn) → Keeps c d → Keeps d e → Keeps c e
Keeps-trans c d e h k = record {
  fd = k.fd ∙ h.fd;
  pid = k.pid ∙ h.pid;
  refcnt = k.refcnt ∙ h.refcnt;
}

-- What a step that receives no text does.
pub record Calm (c d : Conn) : Type 0 where
  pub receive : d.sk.receive_queue ≡ c.sk.receive_queue
  pub ofo : IsCounted c.ofo_queue → (d.ofo_queue ≡ c.ofo_queue) ⊎ (d.ofo_queue ≡ skb_queue_init)
  pub next : d.tcb.rcv_nxt ≡ c.tcb.rcv_nxt
  pub wnd : d.tcb.rcv_wnd ≡ c.tcb.rcv_wnd
  pub later : phase c.sk.state ≤ phase d.sk.state
  pub waiting : phase d.sk.state ≡ 3 → phase c.sk.state ≡ 3
  pub keeps : Keeps c d

pub init-IsCounted : IsCounted skb_queue_init
unfolding skb_queue_init
init-IsCounted = omega arith

pub Calm-IsCounted : (c d : Conn) → Calm c d → IsCounted c.ofo_queue → IsCounted d.ofo_queue
Calm-IsCounted c d k h = elim (k.ofo h) [
  | inl e ↦ subst IsCounted (sym e) h
  | inr e ↦ subst IsCounted (sym e) init-IsCounted
]

pub Calm-pieces :
    (P : SkBuff → Type 0) (c d : Conn)
    → Calm c d
    → IsCounted c.ofo_queue
    → All P c.ofo_queue.head
    → All P d.ofo_queue.head
unfolding skb_queue_init
Calm-pieces P c d k h a = elim (k.ofo h) [
  | inl e ↦ subst (λ q. All P q.head) (sym e) a
  | inr e ↦ subst (λ q. All P q.head) (sym e) tt
]

pub Calm-trans : (c d e : Conn) → Calm c d → Calm d e → Calm c e
Calm-trans c d e h k = record {
  receive = k.receive ∙ h.receive;
  ofo = λ i. elim (k.ofo (Calm-IsCounted c d h i)) [
    | inr x ↦ inr x
    | inl x ↦ elim (h.ofo i) [ inl y ↦ inl (x ∙ y) | inr y ↦ inr (x ∙ y) ]
  ];
  next = k.next ∙ h.next;
  wnd = k.wnd ∙ h.wnd;
  later = omega (arith, h.later, k.later);
  waiting = λ x. h.waiting (k.waiting x);
  keeps = Keeps-trans c d e h.keeps k.keeps;
}

pub Calm-same :
    (c d : Conn)
    → d.sk.receive_queue ≡ c.sk.receive_queue
    → d.ofo_queue ≡ c.ofo_queue
    → d.tcb.rcv_nxt ≡ c.tcb.rcv_nxt
    → d.tcb.rcv_wnd ≡ c.tcb.rcv_wnd
    → d.sk.state ≡ c.sk.state
    → d.sock ≡ c.sock
    → Calm c d
Calm-same c d q o n w s k = record {
  receive = q;
  ofo = λ _. inl o;
  next = n;
  wnd = w;
  later = omega (arith, ap phase s);
  waiting = omega (arith, ap phase s);
  keeps = Keeps-same c d k;
}

pub Calm-refl : (c : Conn) → Calm c c
Calm-refl c = Calm-same c c refl refl refl refl refl refl

pub Calm-if : (b : Bool) (c d e : Conn) → Calm c d → Calm c e → Calm c (if b then d else e)
Calm-if true c d e h k = h
Calm-if false c d e h k = k

pub first-Calm :
    {A : Type 0} (b : Bool) (c : Conn) (d e : Conn × A)
    → Calm c d.0
    → Calm c e.0
    → Calm c (if b then d else e).0
first-Calm true c d e h k = h
first-Calm false c d e h k = k

-- Segments that are sent and not queued.
pub Calm-SameSocket : (c d : Conn) → SameSocket c d → Calm c d
Calm-SameSocket c d s =
    Calm-same c d (ap (λ (k : Sock). k.receive_queue) s.sk) s.ofo_queue
      (ap (λ (t : Tcb). t.rcv_nxt) s.tcb) (ap (λ (t : Tcb). t.rcv_wnd) s.tcb)
      (ap (λ (k : Sock). k.state) s.sk) s.sock
