-- ===== src/Tcp/Rtt/Bounds.antt =====
-- The retransmission timeout that `tcp_rtt` computes.
use hf_ip.Prelude.{arith, none, ℕ, ◌*◌, ◌+◌, ◌<◌, ◌^◌, ◌≡◌, ◌≤◌, ◌⊎◌}
use hf_ip.Tcp.{Conn}
use hf_ip.Tcp.Rtt.{rtt_update, tcp_rtt}

-- The estimates are bounded by the largest time that was measured.
pub record Estimates (bound : ℕ) (c : Conn) : Type 0 where
  pub srtt : c.srtt ≤ bound
  pub rttvar : c.rttvar ≤ bound

-- A measurement keeps both estimates within the largest measured time, and the timeout is at
-- least the estimate and 200 ms more, at most five times the bound and 200 ms: it does not wrap.
pub rtt_update_bounds :
    (bound r : ℕ) (c : Conn)
    → bound < 2 ^ 28
    → r ≤ bound
    → Estimates bound c
    → let c' = rtt_update r c in
      Estimates bound c' × (c'.srtt + 200 ≤ c'.rto) × (c'.rto ≤ 5 * bound + 200)
unfolding rtt_update
rtt_update_bounds bound r c b h e = ground arith

-- Karn's algorithm: after a retransmission, and with no timer running, nothing is measured.
rtt_karn : (c : Conn) → (0 < c.backoff) ⊎ (c.retransmit ≡ none) → tcp_rtt c ≡ c
unfolding tcp_rtt
rtt_karn c h = ground arith
