-- ===== src/Sockets/Ends.antt =====
-- The end of `_poll`, and the end of a socket in src/socket.c.
use mathlib.Core.Path.{subst}
use hf_ip.Prelude.{
  ==_iff, All, Bool, Bool-cases, List, Option, [], ap, arith, false, if◌then◌else◌, inl, inr, ltb,
  none, refl, some, suc, sym, true, ℕ, ◌==◌, ◌∙◌, ◌∷◌, ◌≡◌, ◌≢◌, ◌⊎◌,
}
use hf_ip.Prelude.Int.{dec, inc, pos, ℤ}
use hf_ip.Ipc.{IpcPollfd}
use hf_ip.Tcp.{ebadf}
use hf_ip.Sockets.{
  Entry, Sockets, at, get_socket, on_conn, ops_free, put, released, remove, sock_free,
  socket_acquire, socket_find, socket_free, socket_release,
}
use hf_ip.Sockets.Poll.{poll_pass}
use hf_ip.Sockets.Table.{Distinct, release-put}

-- The number of descriptors that have events.
abbrev pub ready : List IpcPollfd → ℕ
ready [] = 0
ready (p ∷ ps) = if ltb 0 p.revents then suc (ready ps) else ready ps

-- A pass over the descriptors comes to one without a socket of the process.
abbrev pub Unknown : ℕ → List IpcPollfd → Sockets → Type 0
Unknown pid [] t = ⊥
Unknown pid (p ∷ ps) t =
    (get_socket pid p.fd t.sockets ≡ none)
    ⊎ ((e : Entry) × (get_socket pid p.fd t.sockets ≡ some e)
        × Unknown pid ps (socket_release (socket_acquire e) t))

-- What `_poll` returns after its last pass, over a table `u`: -EBADF if the pass comes to an unknown
-- descriptor, else the number of descriptors with events.
abbrev pub IsPolled : ℕ → Sockets × ℤ × List IpcPollfd → Type 0
IsPolled pid (t, rc, fds) =
    (asked : List IpcPollfd) × (u : Sockets) × (t ≡ (poll_pass pid asked u).table)
    × (fds ≡ (poll_pass pid asked u).fds)
    × (((rc ≡ ebadf) × Unknown pid asked u) ⊎ (rc ≡ pos (ready fds)))

abbrev Ended : ℕ → Option (Sockets × ℤ × List IpcPollfd) → Type 0
Ended pid o = (r : Sockets × ℤ × List IpcPollfd) × (o ≡ some r) × IsPolled pid r

remove-Absent : (fd : ℕ) (es : List Entry) → Distinct es → All (λ x. at x ≢ fd) (remove fd es)
remove-Absent fd [] d = tt
remove-Absent fd (x ∷ xs) (fresh, d) = elim (Bool-cases (at x == fd)) [
  | inl same ↦ rw same (subst (λ n. All (λ y. at y ≢ n) xs) ((==_iff (at x) fd).0 same) fresh)
  | inr other ↦ rw other ((λ p. absurd (ground arith)), remove-Absent fd xs d)
]

put-Absent :
    (e : Entry) (es : List Entry) → All (λ x. at x ≢ at e) es → All (λ x. at x ≢ at e) (put e es)
put-Absent e [] h = tt
put-Absent e (x ∷ xs) (ne, h) = elim (Bool-cases (at x == at e)) [
  | inl same ↦ absurd (ne ((==_iff (at x) (at e)).0 same))
  | inr other ↦ rw other (ne, put-Absent e xs h)
]

-- The list without the socket, and the heap after the release of a socket that is the first of
-- `unlinked`.
abbrev pub StaysWith : ℕ → ℤ → List ℕ → Sockets → Type 0
StaysWith fd refcnt freed t =
    All (λ x. at x ≢ fd) t.sockets
    × (t.freed_sockets ≡ freed)
    × ((y : Entry) × (socket_find fd t.unlinked ≡ some y) × (y.conn.sock.refcnt ≡ refcnt))

release-StaysWith :
    (x e : Entry) (t : Sockets) (us : List Entry) (n : ℕ)
    → t.unlinked ≡ x ∷ us
    → at x ≡ at e
    → e.conn.sock.refcnt ≡ pos (suc (suc n))
    → All (λ y. at y ≢ at e) t.sockets
    → StaysWith (at e) (pos (suc n)) t.freed_sockets (socket_release e t)
unfolding socket_find
release-StaysWith x e t us n u same r a =
    let e2 = record e { conn = released e.conn } in
    subst (StaysWith (at e) (pos (suc n)) t.freed_sockets) (sym (release-put e t n r)) (
      put-Absent e2 t.sockets a,
      refl,
      (
        e2,
        ap (λ l. socket_find (at e) (put e2 l)) u
            ∙ rw ((==_iff (at x) (at e)).1 same, (==_iff (at e) (at e)).1 refl) refl,
        ap dec r,
      ),
    )

freed-StaysWith :
    (created : Bool) (e : Entry) (t : Sockets) (us : List Entry) (n : ℕ)
    → t.unlinked ≡ e ∷ us
    → e.conn.sock.refcnt ≡ pos (suc (suc n))
    → All (λ y. at y ≢ at e) t.sockets
    → let (e2, t2) = if created then on_conn sock_free e t else (e, t) in
      StaysWith (at e) (pos (suc n)) t.freed_sockets (socket_release e2 t2)
unfolding sock_free
freed-StaysWith true e t us n u r a =
    let (e2, t2) = on_conn sock_free e t in release-StaysWith e e2 t2 us n u refl r a
freed-StaysWith false e t us n u r a = release-StaysWith e e t us n u refl r a

-- `socket_free` does not free a socket that has references: it takes one more and gives that one
-- back. Where the fds of the list are distinct, no socket of the list has its fd any more, and the
-- socket stays in the heap with the references that it had.
pub socket_free-leaks :
    (e : Entry) (t : Sockets) (n : ℕ)
    → Distinct t.sockets
    → e.conn.sock.refcnt ≡ pos (suc n)
    → StaysWith (at e) e.conn.sock.refcnt t.freed_sockets (socket_free e t)
unfolding socket_free ops_free sock_free socket_acquire
socket_free-leaks e t n d h =
    let x = socket_acquire e in
    let t1 = record t {
      sockets = remove (at e) t.sockets;
      unlinked = x ∷ t.unlinked;
      sock_amount = dec t.sock_amount;
    } in
    subst (λ r. StaysWith (at e) r t.freed_sockets (socket_free e t)) (sym h)
      (freed-StaysWith e.created x t1 t.unlinked n refl (ap inc h)
        (remove-Absent (at e) t.sockets d))
