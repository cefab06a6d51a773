-- ===== src/Tcp/Flow/Reads.antt =====
-- `tcp_read` of src/tcp.c in the history of a connection with one sender.
use hf_ip.Prelude.{
  List, [], ap, append-nil, arith, bit_and, length, refl, some, sym, take, take-all, true, ℕ, ◌++◌,
  ◌+◌, ◌<◌, ◌∙◌, ◌≡◌,
}
use hf_ip.Prelude.Int.{pos}
use hf_ip.SkBuff.{skb_queue_empty}
use hf_ip.SkBuff.Queue.{skb_queue_empty-IsCounted}
use hf_ip.Tcp.{Conn, close_wait}
use hf_ip.Tcp.Data.{has_fin}
use hf_ip.Tcp.Data.Round.{stream}
use hf_ip.Tcp.User.{Received, read_switch, tcp_read}
use hf_ip.Tcp.Calm.{phase}
use hf_ip.Tcp.Flow.History.{Fresh, Run, run-Intact}

module _ (sent : List ℕ) (base : ℕ) (c : Conn) (fresh : Fresh base c)
    (w : base + length sent < 4294967295) where
  -- Under the same conditions, if a read finds the end of the stream in CLOSE_WAIT, which is a 0 for
  -- the program, then readers have got all of the sender's bytes.
  pub tcp_read-end :
      (got : List ℕ) (d : Conn) (wake : ℕ → Conn → Conn) (rounds len : ℕ)
      → Run sent base c got d
      → d.sk.state ≡ close_wait
      → skb_queue_empty d.sk.receive_queue ≡ true
      → has_fin d.flags ≡ true
      → (r : Received) × (tcp_read rounds wake len d ≡ some r)
        × (r.rlen ≡ pos 0)
        × (r.bytes ≡ [])
        × (got ≡ sent)
  unfolding tcp_read
  tcp_read-end got d wake rounds len run at none_ fin =
      let i = run-Intact sent base c fresh w got d run in
      let all = i.ended (ap phase at) in
      let empty : d.sk.receive_queue.head ≡ [] =
        (skb_queue_empty-IsCounted d.sk.receive_queue i.filled.queue).0 none_ in
      let bytes : got ++ [] ≡ take (length sent) sent =
        ap (λ l. got ++ stream l) (sym empty) ∙ i.filled.text ∙ ap (λ n. take n sent) all in
      (
        record { conn = record d { flags = bit_and d.flags 0xfe }; rlen = pos 0; bytes = [] },
        ap (λ s. read_switch s rounds wake len d) at ∙ rw (none_, fin) refl,
        refl,
        refl,
        sym (append-nil got) ∙ bytes ∙ take-all (length sent) sent (omega arith),
      )
