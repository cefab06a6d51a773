-- ===== src/Sockets/Listed.antt =====
-- What joining and leaving the list of sockets keeps of the table.
use mathlib.Core.Path.{subst}
use hf_ip.Prelude.{
  All, All-append, Bool, Bool-cases, List, [], ap, arith, if◌then◌else◌, inl, inr, length,
  length-append, refl, some, suc, sym, ℕ, ◌++◌, ◌<◌, ◌==◌, ◌∙◌, ◌∷◌, ◌≡◌, ◌≢◌,
}
use hf_ip.Prelude.Int.{dec, inc, pos}
use hf_ip.Sockets.{
  Entry, Sockets, at, get_socket, on_conn, ops_free, remove, sock_free, socket_acquire, socket_free,
  socket_release,
}
use hf_ip.Sockets.Calls.{add_tail}
use hf_ip.Sockets.Table.{All-remove, Distinct, IsLive, IsTable, get-skip}
use hf_ip.Sockets.Held.{IsListed, release-IsTable, world-IsTable}

pub Distinct-append :
    (es : List Entry) (e : Entry)
    → All (λ x. at x < at e) es
    → Distinct es
    → Distinct (es ++ (e ∷ []))
Distinct-append [] e h d = (tt, tt)
Distinct-append (x ∷ xs) e (hx, h) (fresh, d) = (
  All-append (λ y. at y ≢ at x) xs (e ∷ []) fresh ((λ p. absurd (omega arith)), tt),
  Distinct-append xs e h d,
)

pub All-map :
    (P Q : Entry → Type 0) → ((x : Entry) → P x → Q x) → (es : List Entry) → All P es → All Q es
All-map P Q f [] h = h
All-map P Q f (x ∷ xs) (px, h) = (f x px, All-map P Q f xs h)

pub length-append_one : (es : List Entry) (e : Entry) → suc (length es) ≡ length (es ++ (e ∷ []))
length-append_one es e = omega (arith, length-append es (e ∷ []))

pub add_tail-IsTable :
    (e : Entry) (t : Sockets)
    → IsTable t
    → at e ≡ t.next_fd
    → IsLive e
    → IsTable (add_tail e (record t { next_fd = suc t.next_fd }))
add_tail-IsTable e t w f l = record {
  distinct =
      Distinct-append t.sockets e (subst (λ n. All (λ x. at x < n) t.sockets) (sym f) w.passed)
        w.distinct;
  passed =
      All-append (λ x. at x < suc t.next_fd) t.sockets (e ∷ [])
        (All-map (λ x. at x < t.next_fd) (λ x. at x < suc t.next_fd) (λ x h. omega arith) t.sockets
          w.passed)
        (omega arith, tt);
  live = All-append IsLive t.sockets (e ∷ []) w.live (l, tt);
  counted = ap inc w.counted ∙ ap pos (length-append_one t.sockets e);
}

pub length-remove :
    (pid fd : ℕ) (es : List Entry) (e : Entry)
    → get_socket pid fd es ≡ some e
    → suc (length (remove fd es)) ≡ length es
unfolding get_socket
length-remove pid fd [] e g = cc
length-remove pid fd (x ∷ xs) e g = elim (Bool-cases (at x == fd)) [
  | inl same ↦ rw same refl
  | inr other ↦ rw other (ap suc (length-remove pid fd xs e (sym (get-skip pid fd x xs other) ∙ g)))
]

pub Distinct-remove : (fd : ℕ) (es : List Entry) → Distinct es → Distinct (remove fd es)
Distinct-remove fd [] h = h
Distinct-remove fd (x ∷ xs) (fresh, h) = elim (Bool-cases (at x == fd)) [
  | inl same ↦ rw same h
  | inr other ↦ rw other (All-remove (λ y. at y ≢ at x) fd xs fresh, Distinct-remove fd xs h)
]

-- The table after a socket has left the list.
pub remove-IsTable :
    (pid fd : ℕ) (t : Sockets) (e : Entry) (unlinked : List Entry)
    → IsTable t
    → get_socket pid fd t.sockets ≡ some e
    → IsTable (record t {
      sockets = remove fd t.sockets;
      unlinked = unlinked;
      sock_amount = dec t.sock_amount;
    })
remove-IsTable pid fd t e unlinked w g = record {
  distinct = Distinct-remove fd t.sockets w.distinct;
  passed = All-remove (λ x. at x < t.next_fd) fd t.sockets w.passed;
  live = All-remove IsLive fd t.sockets w.live;
  counted = ap dec (w.counted ∙ ap pos (sym (length-remove pid fd t.sockets e g)));
}

-- `socket_free` of a socket of the list.
pub free-IsTable :
    (pid : ℕ) (t : Sockets) (e e0 : Entry)
    → IsTable t
    → get_socket pid (at e) t.sockets ≡ some e0
    → IsListed t e
    → IsTable (socket_free e t)
unfolding socket_free ops_free sock_free socket_acquire
free-IsTable pid t e e0 w g (less, (made, (n, r))) =
    let t1 = record t {
      sockets = remove (at e) t.sockets;
      unlinked = socket_acquire e ∷ t.unlinked;
      sock_amount = dec t.sock_amount;
    } in
    let w1 = remove-IsTable pid (at e) t e0 (socket_acquire e ∷ t.unlinked) w g in
    let (e2, t2) = on_conn sock_free (socket_acquire e) t1 in
    let freed_if : Bool → Entry × Sockets =
      λ b. if b then on_conn sock_free (socket_acquire e) t1 else (socket_acquire e, t1) in
    subst (λ b. IsTable (socket_release (freed_if b).0 (freed_if b).1)) (sym made)
      (release-IsTable e2 t2 n (world-IsTable t1 t2.world w1) less made (ap inc r))
