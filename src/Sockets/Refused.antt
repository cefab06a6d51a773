-- ===== src/Sockets/Refused.antt =====
-- A call of `_socket` in src/socket.c that fails.
use mathlib.Core.Path.{subst}
use hf_ip.Prelude.{
  All, Bool, List, [], ap, arith, bit_and, false, if◌then◌else◌, not, refl, suc, sym, true, ℕ, ◌&&◌,
  ◌<◌, ◌==◌, ◌∙◌, ◌∷◌, ◌≡◌,
}
use hf_ip.Prelude.Int.{dec, negsuc, pos, ℤ}
use hf_ip.Tcp.{tcp_alloc_sock}
use hf_ip.Sockets.{
  Entry, Sockets, alloc_socket, at, ops_free, put, released, remove, socket_acquire, socket_free,
}
use hf_ip.Sockets.Inet.{inet_create, with_sk}
use hf_ip.Sockets.Calls.{family_create, socket_created, sys_socket}
use hf_ip.Sockets.Table.{IsTable, release-put}

not_same : (a b : ℕ) → a < b → (a == b) ≡ false
not_same a b h = ground arith

-- A socket that is not in the list is not removed from it, nor put back.
remove-absent : (fd : ℕ) (es : List Entry) → All (λ x. at x < fd) es → remove fd es ≡ es
remove-absent fd [] h = refl
remove-absent fd (x ∷ xs) (less, h) =
    rw (not_same (at x) fd less) (ap (λ r. x ∷ r) (remove-absent fd xs h))

put-absent : (e : Entry) (es : List Entry) → All (λ x. at x < at e) es → put e es ≡ es
put-absent e [] h = refl
put-absent e (x ∷ xs) (less, h) =
    rw (not_same (at x) (at e) less) (ap (λ r. x ∷ r) (put-absent e xs h))

-- The entry that `_socket` gives up.
abbrev blank : ℕ → ℕ → Sockets → Entry
unfolding alloc_socket
blank pid type t = record (alloc_socket pid t).0 { type = type }

abbrev Refuses : Sockets → Sockets × ℤ → Type 0
Refuses t (t2, rc) =
    (rc ≡ negsuc 0) × (t2.sockets ≡ t.sockets) × (t2.sock_amount ≡ dec t.sock_amount)

give_up :
    (pid type : ℕ) (t : Sockets)
    → IsTable t
    → Refuses t (socket_created (record t { next_fd = suc t.next_fd }) (blank pid type t, pos 1))
unfolding socket_created socket_free ops_free socket_acquire blank alloc_socket tcp_alloc_sock
give_up pid type t w =
    let e = blank pid type t in
    let x = socket_acquire e in
    let t1 = record t {
      sockets = remove t.next_fd t.sockets;
      unlinked = x ∷ t.unlinked;
      sock_amount = dec t.sock_amount;
      next_fd = suc t.next_fd;
    } in
    let same = release-put x t1 0 refl in
    let less : All (λ y. at y < t.next_fd) t.sockets = w.passed in
    (
      refl,
      ap (λ (y : Sockets). y.sockets) same
          ∙ ap (put (record x { conn = released x.conn })) (remove-absent t.next_fd t.sockets less)
          ∙ put-absent (record x { conn = released x.conn }) t.sockets less,
      ap (λ (y : Sockets). y.sock_amount) same,
    )

abbrev refused : Entry → Entry × ℤ
refused e = (e, pos 1)

not_made :
    (family no_stream : Bool) (e made : Entry)
    → (family && not no_stream) ≡ false
    → (if family then (if no_stream then refused e else (made, pos 0)) else refused e) ≡ refused e
not_made true true e made h = refl
not_made true false e made h = cc
not_made false no_stream e made h = refl

-- `_socket` with a family that is not the internet's, or with a type that is no stream, returns
-- -1 and leaves the list as it was, but counts one socket less: `sock_amount` is no longer the
-- number of sockets.
pub sys_socket-Refuses :
    (pid domain type protocol : ℕ) (t : Sockets)
    → IsTable t
    → ((domain == 2) && not (bit_and type 1 == 0)) ≡ false
    → Refuses t (sys_socket pid domain type protocol t)
unfolding sys_socket family_create inet_create alloc_socket blank
sys_socket-Refuses pid domain type protocol t w h =
    let e = blank pid type t in
    let made = with_sk protocol t.world e in
    subst (λ x. Refuses t (socket_created (record t { next_fd = suc t.next_fd }) x))
      (sym (not_made (domain == 2) (bit_and type 1 == 0) e made h)) (give_up pid type t w)
