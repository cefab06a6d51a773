-- ===== src/Sockets/Held.antt =====
-- A socket of the list during and after a call.
use mathlib.Core.Path.{subst}
use hf_ip.Prelude.{ap, some, suc, sym, true, ℕ, ◌<◌, ◌≡◌}
use hf_ip.Prelude.Int.{dec, pos}
use hf_ip.Sockets.{Entry, Sockets, World, at, get_socket, released, socket_release}
use hf_ip.Sockets.Table.{IsLive, IsTable, get-All, put-IsTable, release-put}

-- The state outside the connections is no part of the table.
pub world-IsTable : (t : Sockets) (w : World) → IsTable t → IsTable (record t { world = w })
world-IsTable t w h = record {
  distinct = h.distinct;
  passed = h.passed;
  live = h.live;
  counted = h.counted;
}

abbrev pub IsListed : Sockets → Entry → Type 0
IsListed t e = (at e < t.next_fd) × IsLive e

pub get-IsListed :
    (pid fd : ℕ) (t : Sockets) (e : Entry)
    → IsTable t
    → get_socket pid fd t.sockets ≡ some e
    → IsListed t e
get-IsListed pid fd t e w g = (
  get-All (λ x. at x < t.next_fd) pid fd t.sockets e g w.passed,
  get-All IsLive pid fd t.sockets e g w.live,
)

-- A socket that is released with one reference more than the table's is live.
pub release-IsTable :
    (e : Entry) (t : Sockets) (n : ℕ)
    → IsTable t
    → at e < t.next_fd
    → e.created ≡ true
    → e.conn.sock.refcnt ≡ pos (suc (suc n))
    → IsTable (socket_release e t)
release-IsTable e t n w f c h =
    subst IsTable (sym (release-put e t n h))
      (put-IsTable (record e { conn = released e.conn }) t w f (c, (n, ap dec h)))
