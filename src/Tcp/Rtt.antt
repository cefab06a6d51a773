-- ===== src/Tcp/Rtt.antt =====
-- `tcp_rtt` of src/tcp.c: the estimate of the round trip time and the timeout that follows from
-- it. The two estimates are int32_t values that are never negative. The doubles of the source are
-- exact here: a multiple of 1/8 of a 32-bit number, cut to an integer.
pub mod Bounds
use hf_ip.Prelude.{List, [], if◌then◌else◌, ltb, none, some, ℕ, ◌*◌, ◌+◌, ◌-◌, ◌/◌, ◌==◌, ◌∷◌}
use hf_ip.Word.{sub32, u32}
use hf_ip.Timer.{Timer}
use hf_ip.Tcp.{Conn}

-- `tsk->retransmit->expires`
unfoldable pub expires_of : ℕ → List Timer → ℕ
expires_of i [] = 0
expires_of i (t ∷ ts) = if t.id == i then t.expires else expires_of i ts

abbrev abs_diff : ℕ → ℕ → ℕ
abs_diff a b = (a - b) + (b - a)

-- `r` is not negative.
unfoldable pub rtt_update : ℕ → Conn → Conn
rtt_update r c =
    let rttvar = if c.srtt == 0 then r / 2 else (3 * c.rttvar + abs_diff c.srtt r) / 4 in
    let srtt = if c.srtt == 0 then r else (7 * c.srtt + r) / 8 in
    let k = if ltb (4 * rttvar) 200 then 200 else 4 * rttvar in
    record c { srtt = srtt; rttvar = rttvar; rto = u32 (srtt + k) }

-- `int r = timer_get_tick() - (tsk->retransmit->expires - tsk->rto)`, as its bit pattern.
abbrev measured : ℕ → Conn → ℕ
measured expires c = sub32 (u32 c.timers.tick) (sub32 expires c.rto)

unfoldable pub tcp_rtt : Conn → Conn
unfolding rtt_update
tcp_rtt c = elim c.retransmit [
  | none ↦ c
  | some t ↦
      let r = measured (expires_of t c.timers.timers) c in
      if ltb 0 c.backoff then c else (if ltb r 2147483648 then rtt_update r c else c)
]
