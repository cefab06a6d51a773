-- ===== src/Tcp/Tests/Input.antt =====
-- Segments that arrive: outside the window, and the handshake.
use hf_ip.Packet.{Tcphdr}
use hf_ip.Prelude.{[], arith, false, refl, true, ◌∷◌, ◌≡◌, ◌⊎◌}
use hf_ip.SkBuff.{skb_queue_init, zero_tcphdr}
use hf_ip.Tcp.{Conn, established, ss_connected, syn_received, syn_sent}
use hf_ip.Tcp.Frame.{Acknowledges, SameSocket}
use hf_ip.Tcp.Acks.{tcp_verify_segment}
use hf_ip.Tcp.Input.States.{is_before, never_reopens}
use hf_ip.Tcp.Input.{tcp_input_state}
use hf_ip.Tcp.Input.Window.{outside_window}
use hf_ip.Tcp.Input.Handshake.{Answered, simultaneous_open_silent, synack_establishes}
use hf_ip.Tcp.Flow.History.{Fresh}
use hf_ip.Tcp.Flow.Opening.{tcp_synsent-Fresh}
use hf_ip.Tcp.Tests.{conn, first, in_state, late_segment, no_buffers, second}

outside_window_example :
    let c' = tcp_input_state conn late_segment second in
    SameSocket conn c'
    × ((late_segment.rst ≡ true) × (c'.out ≡ [])
        ⊎ (late_segment.rst ≡ false) × Acknowledges conn c'.out)
unfolding tcp_verify_segment
outside_window_example = outside_window conn late_segment second refl refl

-- Our SYN has the sequence number 99.
abbrev opening_conn : Conn
opening_conn = record (in_state syn_sent) {
  tcb = record conn.tcb { snd_una = 99; snd_nxt = 100; rcv_nxt = 0 };
}

abbrev pub syn_ack : Tcphdr
syn_ack = record zero_tcphdr { syn = true; ack = true; seq = 500; ack_seq = 100; hl = 5 }

answered : Answered opening_conn syn_ack
answered = record {
  waiting = refl;
  syn = refl;
  ack = refl;
  no_rst = refl;
  acked = omega arith;
  sent = omega arith;
  after_una = omega arith;
}

synack_establishes_example :
    let c' = tcp_input_state opening_conn syn_ack first in
    (c'.sk.state ≡ established)
    × (c'.sock.state ≡ ss_connected)
    × (c'.tcb.rcv_nxt ≡ 501)
    × (c'.tcb.snd_una ≡ 100)
    × ((h : Tcphdr) × (c'.out ≡ (h, []) ∷ [])
        × (h.ack ≡ true)
        × (h.syn ≡ false)
        × (h.seq ≡ 100)
        × (h.ack_seq ≡ 501))
synack_establishes_example = synack_establishes opening_conn syn_ack first answered

never_reopens_example : is_before syn_sent ≡ true
never_reopens_example =
    never_reopens opening_conn syn_ack first
      (synack_establishes opening_conn syn_ack first answered).0

-- The same connection before any text.
abbrev blank_conn : Conn
blank_conn = record opening_conn {
  sk = record opening_conn.sk { receive_queue = no_buffers };
  ofo_queue = no_buffers;
}

tcp_synsent-Fresh_example : Fresh 501 (tcp_input_state blank_conn syn_ack first)
unfolding skb_queue_init
tcp_synsent-Fresh_example =
    tcp_synsent-Fresh blank_conn syn_ack first
      (record {
        waiting = refl;
        syn = refl;
        ack = refl;
        no_rst = refl;
        acked = omega arith;
        sent = omega arith;
        after_una = omega arith;
      })
      (record { receive = refl; ofo = refl })

simultaneous_open_silent_example :
    let c' = tcp_input_state opening_conn (record syn_ack { ack = false }) first in
    (c'.sk.state ≡ syn_received) × (c'.tcb.rcv_nxt ≡ 501) × (c'.out ≡ [])
simultaneous_open_silent_example =
    simultaneous_open_silent opening_conn (record syn_ack { ack = false }) first refl refl refl refl
      refl
