-- ===== src/Tcp/Tests/Calls.antt =====
-- Timeouts and calls of a program.
use hf_ip.Prelude.{All, List, [], arith, false, refl, suc, true, ℕ, ◌+◌, ◌∷◌, ◌≡◌, ◌≤◌, ◌⊎◌}
use hf_ip.Prelude.Int.{pos}
use hf_ip.SkBuff.{skb_peek}
use hf_ip.Tcp.{close_wait, closing, established, etimedout}
use hf_ip.Tcp.Rtt.{rtt_update}
use hf_ip.Tcp.Rtt.Bounds.{Estimates, rtt_update_bounds}
use hf_ip.Packet.{Tcphdr}
use hf_ip.Tcp.Output.{tcp_send_next}
use hf_ip.Tcp.Output.Parts.{IsPart, tcp_send_next-parts, texts}
use hf_ip.Tcp.Expiry.Backoff.{timeouts, timeouts_end}
use hf_ip.Tcp.User.{tcp_close}
use hf_ip.Tcp.User.Close.{HasFin, tcp_close-state}
use hf_ip.Tcp.Tests.{conn, first, in_state}

timeouts_end_example :
    (m : ℕ) × (m ≤ 8)
    × ((timeouts m conn).sk.state ≡ established)
    × ((timeouts (suc m) conn).sk.state ≡ closing)
    × ((timeouts (suc m) conn).sk.err ≡ etimedout)
unfolding skb_peek
timeouts_end_example = timeouts_end 8 conn (first, refl, refl) (omega arith)

tcp_close-state_example :
    let (c', rc) = tcp_close (in_state close_wait) in
    (c'.sk.state ≡ close_wait) × (rc ≡ pos 0) × ((true ≡ false) ⊎ HasFin (in_state close_wait) c')
tcp_close-state_example = tcp_close-state (in_state close_wait)

rtt_update_bounds_example :
    let c' = rtt_update 80 conn in Estimates 100 c' × (c'.srtt + 200 ≤ c'.rto) × (c'.rto ≤ 700)
rtt_update_bounds_example = rtt_update_bounds 100 80 conn (omega arith) (omega arith) (omega arith)

-- The first two of three queued buffers.
tcp_send_next-parts_example :
    let d = tcp_send_next conn 2 in
    (new : List (Tcphdr × List ℕ)) × (d.out ≡ new)
    × (texts new ≡ 7 ∷ 8 ∷ 9 ∷ 10 ∷ 11 ∷ [])
    × All (λ s. IsPart (7 ∷ 8 ∷ 9 ∷ 10 ∷ 11 ∷ []) 110 s.0 s.1) new
    × (d.tcb.snd_nxt ≡ 115)
tcp_send_next-parts_example =
    tcp_send_next-parts conn 2 ((refl, refl), ((refl, refl), ((refl, refl), tt))) (omega arith)
