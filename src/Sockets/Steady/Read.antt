-- ===== src/Sockets/Steady/Read.antt =====
-- `tcp_read` of src/tcp.c and `tcp_receive` leave the numbers of the socket, if the other threads do
-- while the reader sleeps.
use hf_ip.Prelude.{
  Bool, List, Option, [], false, if◌then◌else◌, length, ltb, none, refl, some, suc, true, zero, ℕ,
  ◌&&◌, ◌++◌, ◌-◌, ◌==◌, ◌||◌, ◌≡◌,
}
use hf_ip.Prelude.Int.{negsuc, pos, ℤ}
use hf_ip.SkBuff.{skb_queue_empty}
use hf_ip.Tcp.{
  Conn, TcpState, close, close_wait, closing, established, fin_wait_1, fin_wait_2, last_ack, listen,
  syn_received, syn_sent, time_wait,
}
use hf_ip.Tcp.Lifecycle.{tcp_rearm_user_timeout}
use hf_ip.Tcp.Data.{has_fin, has_psh, tcp_data_dequeue}
use hf_ip.Tcp.User.{
  Received, is_nonblock, read_switch, rearmed, receive_loop, tcp_read, tcp_receive, wait_sleep,
}
use hf_ip.Tcp.Calm.{Keeps, Keeps-same, Keeps-trans}
use hf_ip.Tcp.Calm.Calls.{Calm-rearm_user}

-- The connection that a read returns, if it returns.
abbrev pub Kept : Conn → Option Received → Type 0
Kept c none = Unit
Kept c (some r) = Keeps c r.conn

Kept-if :
    (b : Bool) (c : Conn) (x y : Option Received)
    → Kept c x
    → Kept c y
    → Kept c (if b then x else y)
Kept-if true c x y h k = h
Kept-if false c x y h k = k

Kept-trans : (c d : Conn) (o : Option Received) → Keeps c d → Kept d o → Kept c o
Kept-trans c d none h k = tt
Kept-trans c d (some r) h k = Keeps-trans c d r.conn h k

sock-dequeue : (n : ℕ) (c : Conn) → (tcp_data_dequeue n c).0.sock ≡ c.sock
unfolding tcp_data_dequeue
sock-dequeue n c = refl

rearmed_int :
    (c : Conn) (r : Received) (z : ℤ)
    → Keeps c r.conn
    → Keeps c
        (elim z as (λ z. Received) [
          | pos n ↦ record r { conn = tcp_rearm_user_timeout r.conn }
          | negsuc n ↦ r
        ]).conn
rearmed_int c r (pos n) h = Keeps-trans c r.conn _ h (Calm-rearm_user r.conn).keeps
rearmed_int c r (negsuc n) h = h

rearmed-Kept :
    (c : Conn) (o : Option Received)
    → Kept c o
    → Kept c (elim o as (λ o. Option Received) [ none ↦ none | some r ↦ some (rearmed r) ])
rearmed-Kept c none h = tt
rearmed-Kept c (some r) h = rearmed_int c r r.rlen h

module _ (wake : ℕ → Conn → Conn) (b : (k : ℕ) (c : Conn) → Keeps c (wake k c)) where
  asleep-Keeps : (rounds : ℕ) (c : Conn) → Keeps c (wait_sleep wake rounds c)
  unfolding wait_sleep
  asleep-Keeps rounds c =
      let d = record c { sk = record c.sk { recv_sleeping = true } } in
      Keeps-trans c d _ (Keeps-same c d refl) (b rounds d)

  receive_loop-Kept :
      (rounds len : ℕ) (got : List ℕ) (c : Conn) → Kept c (receive_loop rounds wake len got c)
  unfolding receive_loop
  receive_loop-Kept zero len got c = tt
  receive_loop-Kept (suc rounds) len got c =
      let (c1, bytes) = tcp_data_dequeue (len - length got) c in
      let got' = got ++ bytes in
      let n = length got' in
      let same = sock-dequeue (len - length got) c in
      let stay = Keeps-same c c1 same in
      let slept = wait_sleep wake rounds c1 in
      let later =
        Kept-trans c slept (receive_loop rounds wake len got' slept)
          (Keeps-trans c c1 slept stay (asleep-Keeps rounds c1))
          (receive_loop-Kept rounds len got' slept) in
      Kept-if (ltb (length got) len) c _ _
        (Kept-if (has_psh c1.flags) c _ _ (Keeps-same c _ same) (
          Kept-if (has_fin c1.flags || n == len) c _ _ stay
            (Kept-if (is_nonblock c1) c _ _ stay later)))
        (Keeps-same c c refl)

  receive-Kept : (rounds len : ℕ) (c : Conn) → Kept c (tcp_receive rounds wake len c)
  unfolding tcp_receive
  receive-Kept rounds len c = rearmed-Kept c _ (receive_loop-Kept rounds len [] c)

  read_switch-Kept :
      (s : TcpState) (rounds len : ℕ) (c : Conn) → Kept c (read_switch s rounds wake len c)
  unfolding read_switch
  read_switch-Kept close rounds len c = Keeps-same c c refl
  read_switch-Kept closing rounds len c = Keeps-same c c refl
  read_switch-Kept last_ack rounds len c = Keeps-same c c refl
  read_switch-Kept time_wait rounds len c = Keeps-same c c refl
  read_switch-Kept close_wait rounds len c =
      Kept-if (skb_queue_empty c.sk.receive_queue && has_fin c.flags) c _ _ (Keeps-same c _ refl)
        (receive-Kept rounds len c)
  read_switch-Kept listen rounds len c = receive-Kept rounds len c
  read_switch-Kept syn_sent rounds len c = receive-Kept rounds len c
  read_switch-Kept syn_received rounds len c = receive-Kept rounds len c
  read_switch-Kept established rounds len c = receive-Kept rounds len c
  read_switch-Kept fin_wait_1 rounds len c = receive-Kept rounds len c
  read_switch-Kept fin_wait_2 rounds len c = receive-Kept rounds len c

  pub read-Kept : (rounds len : ℕ) (c : Conn) → Kept c (tcp_read rounds wake len c)
  unfolding tcp_read
  read-Kept rounds len c = read_switch-Kept c.sk.state rounds len c
