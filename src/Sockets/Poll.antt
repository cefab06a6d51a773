-- ===== src/Sockets/Poll.antt =====
-- `_poll` of src/socket.c.
use hf_ip.Prelude.{
  List, Option, [], bit_and, bit_or, if◌then◌else◌, ltb, none, some, suc, zero, ℕ, ◌+◌, ◌-◌, ◌||◌,
  ◌∷◌,
}
use hf_ip.Prelude.Int.{is_zero, negsuc, pos, ℤ}
use hf_ip.Ipc.{IpcPollfd}
use hf_ip.Tcp.{ebadf}
use hf_ip.Sockets.{Entry, Sockets, get_socket, socket_acquire, socket_release}

-- POLLHUP | POLLERR | POLLNVAL
abbrev always_polled : ℕ
always_polled = 0x10 + 0x8 + 0x20

-- `sk->poll_events & (poll->events | ...)`
abbrev pub revents_of : Entry → IpcPollfd → ℕ
revents_of e p = bit_and e.conn.sk.poll_events (bit_or p.events always_polled)

-- The result of the inner loop: the array, and the number of descriptors with events. A
-- descriptor of no socket ends the call.
pub record Pass : Type 0 where
  pub table : Sockets
  pub fds : List IpcPollfd
  pub polled : Option ℕ

abbrev pub count_events : ℕ → Option ℕ → Option ℕ
count_events revents none = none
count_events revents (some n) = if ltb 0 revents then some (suc n) else some n

unfoldable pub poll_pass : ℕ → List IpcPollfd → Sockets → Pass
unfolding get_socket socket_acquire socket_release
poll_pass pid [] t = record { table = t; fds = []; polled = some 0 }
poll_pass pid (p ∷ ps) t = elim (get_socket pid p.fd t.sockets) [
  | none ↦ record { table = t; fds = p ∷ ps; polled = none }
  | some e ↦
      let revents = revents_of e p in
      let rest = poll_pass pid ps (socket_release (socket_acquire e) t) in
      record {
        table = rest.table;
        fds = record p { revents = revents } ∷ rest.fds;
        polled = count_events revents rest.polled;
      }
]

-- The timeout after a pass without events, which was not 0.
abbrev pub next_timeout : ℤ → ℤ
next_timeout (pos n) = if ltb 10 n then pos (n - 10) else pos 0
next_timeout (negsuc n) = negsuc n

-- `pause` is what the other threads do in the 10 ms between two passes, by the passes that are
-- left. `none` is a call that has not ended when the fuel is used up.
unfoldable pub sys_poll :
    ℕ
    → (ℕ → Sockets → Sockets)
    → ℕ
    → List IpcPollfd
    → ℤ
    → Sockets
    → Option (Sockets × ℤ × List IpcPollfd)
unfolding poll_pass
sys_poll zero pause pid fds timeout t = none
sys_poll (suc fuel) pause pid fds timeout t =
    let p = poll_pass pid fds t in
    let again = sys_poll fuel pause pid p.fds (next_timeout timeout) (pause fuel p.table) in
    elim p.polled [
      | none ↦ some (p.table, ebadf, p.fds)
      | some n ↦ if ltb 0 n || is_zero timeout then some (p.table, pos n, p.fds) else again
    ]
