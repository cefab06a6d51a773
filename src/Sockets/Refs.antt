-- ===== src/Sockets/Refs.antt =====
-- The references of the sockets of the list: a call that holds a socket gives its reference back.
use mathlib.Core.Path.{subst}
use hf_ip.Prelude.{
  ==_iff, All, Bool-cases, List, [], ap, ap₂, inl, inr, refl, some, suc, sym, ℕ, ◌<◌, ◌==◌, ◌∙◌,
  ◌∷◌, ◌≡◌, ◌≢◌, ◌⊎◌,
}
use hf_ip.Prelude.Int.{dec, inc, pos, ℤ}
use hf_ip.Sockets.{
  Entry, Sockets, World, at, get_socket, put, released, socket_lookup, socket_release,
}
use hf_ip.Sockets.Table.{Distinct, IsLive, IsTable, if_some, release-put}
use hf_ip.Sockets.Held.{release-IsTable, world-IsTable}

-- The fds of the sockets of a list, with their counts of references.
abbrev pub refs : List Entry → List (ℕ × ℤ)
refs [] = []
refs (e ∷ es) = (at e, e.conn.sock.refcnt) ∷ refs es

abbrev pub Has : Entry → List Entry → Type 0
Has e [] = ⊥
Has e (x ∷ xs) = (x ≡ e) ⊎ Has e xs

pub Has-All : (P : Entry → Type 0) (e : Entry) (es : List Entry) → Has e es → All P es → P e
Has-All P e [] h a = elim h [ ]
Has-All P e (x ∷ xs) (inl same) (px, a) = subst P same px
Has-All P e (x ∷ xs) (inr more) (px, a) = Has-All P e xs more a

pub get-Has : (pid fd : ℕ) (es : List Entry) (e : Entry) → get_socket pid fd es ≡ some e → Has e es
unfolding get_socket
get-Has pid fd [] e g = cc
get-Has pid fd (x ∷ xs) e g = elim (if_some _ x e (get_socket pid fd xs) g) [
  | inl same ↦ inl same
  | inr other ↦ inr (get-Has pid fd xs e other)
]

pub lookup-Has :
    (remote local : ℕ) (es : List Entry) (e : Entry)
    → socket_lookup remote local es ≡ some e
    → Has e es
unfolding socket_lookup
lookup-Has remote local [] e g = cc
lookup-Has remote local (x ∷ xs) e g = elim (if_some _ x e (socket_lookup remote local xs) g) [
  | inl same ↦ inl same
  | inr other ↦ inr (lookup-Has remote local xs e other)
]

refs-put :
    (es : List Entry) (e e2 : Entry)
    → Distinct es
    → Has e es
    → at e2 ≡ at e
    → e2.conn.sock.refcnt ≡ e.conn.sock.refcnt
    → refs (put e2 es) ≡ refs es
refs-put [] e e2 d h f r = refl
refs-put (x ∷ xs) e e2 (fresh, d) (inl same) f r =
    let number : at x ≡ at e2 = ap at same ∙ sym f in
    rw ((==_iff (at x) (at e2)).1 number) (
      ap₂ (λ n z. (n, z) ∷ refs xs) (sym number)
        (r ∙ ap (λ (y : Entry). y.conn.sock.refcnt) (sym same)))
refs-put (x ∷ xs) e e2 (fresh, d) (inr more) f r = elim (Bool-cases (at x == at e2)) [
  | inl same ↦
      absurd
        (Has-All (λ y. at y ≢ at x) e xs more fresh (sym f ∙ sym ((==_iff (at x) (at e2)).0 same)))
  | inr other ↦ rw other (ap (λ l. (at x, x.conn.sock.refcnt) ∷ l) (refs-put xs e e2 d more f r))
]

-- A table with the same sockets, and as many references of each.
pub record Same (t u : Sockets) : Type 0 where
  pub table : IsTable u
  pub counts : refs u.sockets ≡ refs t.sockets

pub Same-world : (t : Sockets) (w : World) → IsTable t → Same t (record t { world = w })
Same-world t w h = record { table = world-IsTable t w h; counts = refl }

pub Same-trans : (t u v : Sockets) → Same t u → Same u v → Same t v
Same-trans t u v p q = record { table = q.table; counts = q.counts ∙ p.counts }

-- A socket of the list that was held with one more reference is released.
pub release-Same :
    (e e2 : Entry) (t : Sockets) (w : World)
    → IsTable t
    → Has e t.sockets
    → at e2 ≡ at e
    → e2.created ≡ e.created
    → e2.conn.sock.refcnt ≡ inc e.conn.sock.refcnt
    → Same t (socket_release e2 (record t { world = w }))
release-Same e e2 t w h i f made r =
    let (live, (n, count)) = Has-All IsLive e t.sockets i h.live in
    let less = Has-All (λ x. at x < t.next_fd) e t.sockets i h.passed in
    let two : e2.conn.sock.refcnt ≡ pos (suc (suc n)) = r ∙ ap inc count in
    record {
      table =
          release-IsTable e2 (record t { world = w }) n (world-IsTable t w h)
            (subst (λ m. m < t.next_fd) (sym f) less) (made ∙ live) two;
      counts =
          ap (λ (u : Sockets). refs u.sockets) (release-put e2 (record t { world = w }) n two)
          ∙ refs-put t.sockets e (record e2 { conn = released e2.conn }) h.distinct i f
              (ap dec two ∙ sym count);
    }
