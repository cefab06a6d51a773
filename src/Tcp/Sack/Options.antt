-- ===== src/Tcp/Sack/Options.antt =====
-- The loop over the options of a SYN ends, and the MSS stays in its range.
use hf_ip.Prelude.{Bool-cases, arith, false, inl, inr, ltb, suc, true, zero, ℕ, ◌<◌, ◌≡◌, ◌≤◌, ◌⊎◌}
use hf_ip.Packet.{Tcphdr}
use hf_ip.Tcp.{Conn}
use hf_ip.Tcp.Sack.{OptScan, opt_loop, opt_more, opt_step, tcp_parse_opts}

abbrev pub IsMss : ℕ → Type 0
IsMss mss = (536 ≤ mss) × (mss ≤ 1460)

opt_step_falls :
    (s : OptScan)
    → s.optlen < 20
    → 0 < s.optlen
    → ((opt_step s).optlen < s.optlen) ⊎ (20 ≤ (opt_step s).optlen)
unfolding opt_step
opt_step_falls s h p = ground arith

opt_step-IsMss : (s : OptScan) → IsMss s.smss → IsMss (opt_step s).smss
unfolding opt_step
opt_step-IsMss s h = ground arith

more_pos : (s : OptScan) → opt_more s ≡ true → 0 < s.optlen
more_pos s e = ground arith

opt_loop_stops : (rounds : ℕ) (s : OptScan) → 20 ≤ s.optlen → opt_more (opt_loop rounds s) ≡ false
unfolding opt_loop
opt_loop_stops zero s h = ground arith
opt_loop_stops (suc rounds) s h = ground arith

-- The loop has ended by its own test.
opt_loop_ends :
    (rounds : ℕ) (s : OptScan)
    → s.optlen < 20
    → s.optlen ≤ rounds
    → opt_more (opt_loop rounds s) ≡ false
unfolding opt_loop
opt_loop_ends zero s h b = ground arith
opt_loop_ends (suc rounds) s h b = elim (Bool-cases (opt_more s)) [
  | inl e ↦ elim (opt_step_falls s h (omega (arith, more_pos s e))) [
    | inl f ↦ ground (arith, opt_loop_ends rounds (opt_step s) (omega arith) (omega arith))
    | inr f ↦ ground (arith, opt_loop_stops rounds (opt_step s) f)
  ]
  | inr e ↦ ground arith
]

opt_loop-IsMss : (rounds : ℕ) (s : OptScan) → IsMss s.smss → IsMss (opt_loop rounds s).smss
unfolding opt_loop
opt_loop-IsMss zero s h = h
opt_loop-IsMss (suc rounds) s h =
    ground (arith, opt_loop-IsMss rounds (opt_step s), opt_step-IsMss s h)

-- An MSS between 536 and 1460 stays between them, whatever options a peer sends.
pub tcp_parse_opts-IsMss :
    (c : Conn) (th : Tcphdr) → IsMss c.smss → IsMss (tcp_parse_opts c th).smss
unfolding tcp_parse_opts
tcp_parse_opts-IsMss c th h = opt_loop-IsMss 20 _ h

-- Whatever the length of the options is, twenty rounds of the loop over them end by its own test.
pub opt_loop-ends : (s : OptScan) → opt_more (opt_loop 20 s) ≡ false
opt_loop-ends s = elim (Bool-cases (ltb s.optlen 20)) [
  | inl e ↦ opt_loop_ends 20 s (ground arith) (ground arith)
  | inr e ↦ opt_loop_stops 20 s (ground arith)
]
