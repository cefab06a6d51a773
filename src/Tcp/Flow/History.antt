-- ===== src/Tcp/Flow/History.antt =====
-- What a connection does from its handshake on: segments of one sender arrive in any order and any
-- number of times, a program reads, writes and closes, and timers expire. src/tcp_input.c,
-- src/tcp_data.c, src/tcp.c and src/tcp_output.c.
use hf_ip.Prelude.{
  List, [], arith, bit_and, inl, inr, length, refl, take, true, ℕ, ◌++◌, ◌+◌, ◌<◌, ◌≡◌, ◌≤◌, ◌⊎◌,
}
use hf_ip.Packet.{Tcphdr}
use hf_ip.SkBuff.{SkBuff, skb_queue_init}
use hf_ip.Timer.{Handler, Timers}
use hf_ip.Net.{Net}
use hf_ip.Tcp.{Conn, Socket}
use hf_ip.Tcp.Lifecycle.{tcp_rearm_user_timeout}
use hf_ip.Tcp.Data.{tcp_data_dequeue}
use hf_ip.Tcp.Data.Round.{stream}
use hf_ip.Tcp.User.{tcp_close, tcp_write}
use hf_ip.Tcp.Expiry.{handle}
use hf_ip.Tcp.Input.{tcp_input_state}
use hf_ip.Tcp.Calm.{Calm-same, init-IsCounted, phase}
use hf_ip.Tcp.Flow.{Calm-Intact, Filled-queues, Intact, Room}
use hf_ip.Tcp.Flow.Fin.{Segment}
use hf_ip.Tcp.Flow.Arrive.{input-Intact}
use hf_ip.Tcp.Calm.Calls.{Calm-close, Calm-rearm_user, Calm-write}
use hf_ip.Tcp.Flow.Dequeue.{dequeue-Intact}
use hf_ip.Tcp.Calm.Expiry.{Calm-handle}

-- Behind the handshake with a sender whose first byte has the number `base`.
pub record Fresh (base : ℕ) (c : Conn) : Type 0 where
  pub receive : c.sk.receive_queue ≡ skb_queue_init
  pub ofo : c.ofo_queue ≡ skb_queue_init
  pub next : c.tcb.rcv_nxt ≡ base
  pub early : (phase c.sk.state ≡ 1) ⊎ (phase c.sk.state ≡ 2)

-- The steps between two releases of the socket's lock, with the bytes that readers have got: a
-- round of `tcp_data_dequeue`, and what `tcp_receive` does behind one: it clears `TCP_PSH`, it
-- restarts the user's timer, or it sleeps. `elsewhere` is what other threads do to the socket's
-- references and flags, and to what the connection shares with the rest of the stack.
pub data Run (sent : List ℕ) (base : ℕ) (c : Conn) : List ℕ → Conn → Type 0 where
  here : Run sent base c [] c
  segment :
      {got : List ℕ} {d : Conn} (th : Tcphdr) (skb : SkBuff)
      → Room d
      → Segment sent base th skb
      → Run sent base c got d
      → Run sent base c got (tcp_input_state d th skb)
  dequeue :
      {got : List ℕ} {d : Conn} (len : ℕ)
      → Run sent base c got d
      → Run sent base c (got ++ (tcp_data_dequeue len d).1) (tcp_data_dequeue len d).0
  pushed :
      {got : List ℕ} {d : Conn}
      → Run sent base c got d
      → Run sent base c got (record d { flags = bit_and d.flags 0xf7 })
  rearm :
      {got : List ℕ} {d : Conn}
      → Run sent base c got d
      → Run sent base c got (tcp_rearm_user_timeout d)
  sleep :
      {got : List ℕ} {d : Conn}
      → Run sent base c got d
      → Run sent base c got (record d { sk = record d.sk { recv_sleeping = true } })
  write :
      {got : List ℕ} {d : Conn} (buf : List ℕ)
      → Run sent base c got d
      → Run sent base c got (tcp_write buf d).0
  shut : {got : List ℕ} {d : Conn} → Run sent base c got d → Run sent base c got (tcp_close d).0
  expire :
      {got : List ℕ} {d : Conn} (h : Handler)
      → Run sent base c got d
      → Run sent base c got (handle h d)
  elsewhere :
      {got : List ℕ} {d : Conn} (sock : Socket) (timers : Timers) (net : Net) (freed : List ℕ)
      (next_skb : ℕ) (out : List (Tcphdr × List ℕ))
      → Run sent base c got d
      → Run sent base c got (record d {
        sock = sock;
        timers = timers;
        net = net;
        freed = freed;
        next_skb = next_skb;
        out = out;
      })

module _ (sent : List ℕ) (base : ℕ) (c : Conn) (fresh : Fresh base c)
    (w : base + length sent < 4294967295) where
  Fresh-Intact : Intact sent base [] c
  unfolding skb_queue_init
  Fresh-Intact = record {
    count = 0;
    filled = record {
      text = rw fresh.receive refl;
      bound = omega arith;
      queue = rw fresh.receive init-IsCounted;
      whole = rw fresh.receive tt;
      ofo = rw fresh.ofo init-IsCounted;
      pieces = rw fresh.ofo tt;
    };
    synced = elim fresh.early [ inl h ↦ omega arith | inr h ↦ omega arith ];
    next = inr (omega (arith, fresh.next));
    ended = elim fresh.early [ inl h ↦ omega arith | inr h ↦ omega arith ];
  }

  pub run-Intact : (got : List ℕ) (d : Conn) → Run sent base c got d → Intact sent base got d
  run-Intact got d here = Fresh-Intact
  run-Intact _ _ (segment {got} {d} th skb room s r) =
      input-Intact sent base got d th skb (run-Intact got d r) room w s
  run-Intact _ _ (dequeue {got} {d} len r) = dequeue-Intact sent base got len d (run-Intact got d r)
  run-Intact _ _ (pushed {got} {d} r) =
      Calm-Intact sent base got d _ (Calm-same d _ refl refl refl refl refl refl)
        (run-Intact got d r)
  run-Intact _ _ (rearm {got} {d} r) =
      Calm-Intact sent base got d _ (Calm-rearm_user d) (run-Intact got d r)
  run-Intact _ _ (sleep {got} {d} r) =
      Calm-Intact sent base got d _ (Calm-same d _ refl refl refl refl refl refl)
        (run-Intact got d r)
  run-Intact _ _ (write {got} {d} buf r) =
      Calm-Intact sent base got d _ (Calm-write d buf) (run-Intact got d r)
  run-Intact _ _ (shut {got} {d} r) =
      Calm-Intact sent base got d _ (Calm-close d) (run-Intact got d r)
  run-Intact _ _ (expire {got} {d} h r) =
      Calm-Intact sent base got d _ (Calm-handle h d) (run-Intact got d r)
  run-Intact _ _ (elsewhere {got} {d} sock timers net freed next_skb out r) =
      let i = run-Intact got d r in
      let f = i.filled in
      record {
        count = i.count;
        filled = Filled-queues sent base got i.count d _ refl f.ofo f.pieces f;
        synced = i.synced;
        next = i.next;
        ended = i.ended;
      }

  -- From the handshake with a sender of `sent` on, when the segments arrive in any order, several
  -- times or not at all, between reads, writes, a close and timers: the bytes that readers have got
  -- and those queued for them are the first of the sender's, without a loss, a repetition or a
  -- change; and until the connection receives no more, the next expected number is the one behind
  -- them. The numbers of the sender's bytes do not wrap, a segment has the bytes of its numbers, and
  -- its arrival finds the counters of the queues below their limits.
  pub run-in_order :
      (got : List ℕ) (d : Conn)
      → Run sent base c got d
      → (n : ℕ) × (got ++ stream d.sk.receive_queue.head ≡ take n sent)
        × (n ≤ length sent)
        × (phase d.sk.state ≤ 2 → d.tcb.rcv_nxt ≡ base + n)
  run-in_order got d r =
      let i = run-Intact got d r in
      (
        i.count,
        i.filled.text,
        i.filled.bound,
        λ h. elim i.next [ inl x ↦ absurd (omega arith) | inr x ↦ x ],
      )
