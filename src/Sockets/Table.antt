-- ===== src/Sockets/Table.antt =====
-- What holds of the table of sockets, and what the calls of src/socket.c keep of it.
use mathlib.Core.Path.{subst}
use hf_ip.Prelude.{
  ==_iff, All, Bool, Bool-cases, List, Option, [], ap, arith, false, if◌then◌else◌, inl, inr,
  length, refl, some, some_inj, suc, sym, true, ℕ, ◌&&◌, ◌<◌, ◌==◌, ◌∙◌, ◌∷◌, ◌≡◌, ◌≢◌, ◌⊎◌,
}
use hf_ip.Prelude.Int.{pos, ℤ}
use hf_ip.Sockets.{Entry, Sockets, at, get_socket, put, released, remove, socket_release, store}

abbrev pub Distinct : List Entry → Type 0
Distinct [] = Unit
Distinct (e ∷ es) = All (λ x. at x ≢ at e) es × Distinct es

-- A reference count of a socket that is not freed.
abbrev pub IsHeld : ℤ → Type 0
IsHeld z = (n : ℕ) × (z ≡ pos (suc n))

abbrev pub IsLive : Entry → Type 0
IsLive e = (e.created ≡ true) × IsHeld e.conn.sock.refcnt

-- The sockets of the list have their own fds, which the counter has passed; they are created and
-- not freed, and they are counted.
pub record IsTable (t : Sockets) : Type 0 where
  pub distinct : Distinct t.sockets
  pub passed : All (λ e. at e < t.next_fd) t.sockets
  pub live : All IsLive t.sockets
  pub counted : t.sock_amount ≡ pos (length t.sockets)

module _ (P : Entry → Type 0) where
  pub All-put : (e : Entry) (es : List Entry) → P e → All P es → All P (put e es)
  All-put e [] p h = h
  All-put e (x ∷ xs) p (px, h) = elim (Bool-cases (at x == at e)) [
    | inl same ↦ rw same (p, h)
    | inr other ↦ rw other (px, All-put e xs p h)
  ]

  pub All-remove : (fd : ℕ) (es : List Entry) → All P es → All P (remove fd es)
  All-remove fd [] h = h
  All-remove fd (x ∷ xs) (px, h) = elim (Bool-cases (at x == fd)) [
    | inl same ↦ rw same h
    | inr other ↦ rw other (px, All-remove fd xs h)
  ]

pub length-put : (e : Entry) (es : List Entry) → length (put e es) ≡ length es
length-put e [] = refl
length-put e (x ∷ xs) = elim (Bool-cases (at x == at e)) [
  | inl same ↦ rw same refl
  | inr other ↦ rw other (ap suc (length-put e xs))
]

Distinct-put : (e : Entry) (es : List Entry) → Distinct es → Distinct (put e es)
Distinct-put e [] h = h
Distinct-put e (x ∷ xs) (fresh, h) = elim (Bool-cases (at x == at e)) [
  | inl same ↦
      rw same (subst (λ n. All (λ y. at y ≢ n) xs) ((==_iff (at x) (at e)).0 same) fresh, h)
  | inr other ↦ rw other (
    All-put (λ y. at y ≢ at x) e xs (λ p. not_same (at x) (at e) other (sym p)) fresh,
    Distinct-put e xs h,
  )
]
  where
    not_same : (a b : ℕ) → (a == b) ≡ false → a ≢ b
    not_same a b h p = ground arith

pub if_some {ℓ} :
    {A : Type ℓ} (b : Bool) (x e : A) (r : Option A)
    → (if b then some x else r) ≡ some e
    → (x ≡ e) ⊎ (r ≡ some e)
if_some true x e r h = inl (some_inj h)
if_some false x e r h = inr h

-- A socket of the list is one of its entries.
pub get-All :
    (P : Entry → Type 0) (pid fd : ℕ) (es : List Entry) (e : Entry)
    → get_socket pid fd es ≡ some e
    → All P es
    → P e
unfolding get_socket
get-All P pid fd [] e g h = cc
get-All P pid fd (x ∷ xs) e g (px, h) = elim (if_some _ x e (get_socket pid fd xs) g) [
  | inl same ↦ subst P same px
  | inr other ↦ get-All P pid fd xs e other h
]

-- It has the pid and the fd that were asked for.
pub get-same :
    (pid fd : ℕ) (es : List Entry) (e : Entry)
    → get_socket pid fd es ≡ some e
    → (e.conn.sock.pid ≡ pid) × (at e ≡ fd)
unfolding get_socket
get-same pid fd [] e g = cc
get-same pid fd (x ∷ xs) e g = elim (Bool-cases (x.conn.sock.pid == pid && x.conn.sock.fd == fd)) [
  | inl same ↦ found x e (some_inj (rw same at g)) same
  | inr other ↦ get-same pid fd xs e (rw other at g)
]
  where
    found :
        (x e : Entry)
        → x ≡ e
        → (x.conn.sock.pid == pid && x.conn.sock.fd == fd) ≡ true
        → (e.conn.sock.pid ≡ pid) × (at e ≡ fd)
    found x e p h = subst (λ (y : Entry). (y.conn.sock.pid ≡ pid) × (at y ≡ fd)) p (ground arith)

pub get-head :
    (pid fd : ℕ) (x : Entry) (xs : List Entry)
    → x.conn.sock.pid ≡ pid
    → at x ≡ fd
    → get_socket pid fd (x ∷ xs) ≡ some x
unfolding get_socket
get-head pid fd x xs p f = rw ((==_iff x.conn.sock.pid pid).1 p, (==_iff (at x) fd).1 f) refl

pub get-skip :
    (pid fd : ℕ) (x : Entry) (xs : List Entry)
    → (at x == fd) ≡ false
    → get_socket pid fd (x ∷ xs) ≡ get_socket pid fd xs
unfolding get_socket
get-skip pid fd x xs h = elim (Bool-cases (x.conn.sock.pid == pid)) [
  | inl same ↦ rw (same, h) refl
  | inr other ↦ rw other refl
]

-- A socket that is put back is found in its place.
pub get-put :
    (pid fd : ℕ) (es : List Entry) (e e2 : Entry)
    → Distinct es
    → get_socket pid fd es ≡ some e
    → e2.conn.sock.pid ≡ pid
    → at e2 ≡ fd
    → get_socket pid fd (put e2 es) ≡ some e2
unfolding get_socket
get-put pid fd [] e e2 d g p f = cc
get-put pid fd (x ∷ xs) e e2 (fresh, d) g p f = elim (Bool-cases (at x == at e2)) [
  | inl same ↦ rw same (get-head pid fd e2 xs p f)
  | inr other ↦
      let skip = subst (λ n. (at x == n) ≡ false) f other in
      rw other (
        get-skip pid fd x (put e2 xs) skip
        ∙ get-put pid fd xs e e2 d (sym (get-skip pid fd x xs skip) ∙ g) p f)
]

get-next :
    (pid fd : ℕ) (x : Entry) (xs ys : List Entry)
    → get_socket pid fd xs ≡ get_socket pid fd ys
    → get_socket pid fd (x ∷ xs) ≡ get_socket pid fd (x ∷ ys)
unfolding get_socket
get-next pid fd x xs ys h =
    ap (λ r. if x.conn.sock.pid == pid && x.conn.sock.fd == fd then some x else r) h

-- A socket of another fd is found as before.
pub get-put_other :
    (pid fd : ℕ) (es : List Entry) (e2 : Entry)
    → (at e2 == fd) ≡ false
    → get_socket pid fd (put e2 es) ≡ get_socket pid fd es
get-put_other pid fd [] e2 h = refl
get-put_other pid fd (x ∷ xs) e2 h = elim (Bool-cases (at x == at e2)) [
  | inl same ↦ rw same (
      get-skip pid fd e2 xs h
      ∙ sym (
          get-skip pid fd x xs
            (subst (λ n. (n == fd) ≡ false) (sym ((==_iff (at x) (at e2)).0 same)) h)))
  | inr other ↦ rw other (get-next pid fd x (put e2 xs) xs (get-put_other pid fd xs e2 h))
]

-- A socket that is released with other references left is put back.
pub release-put :
    (e : Entry) (t : Sockets) (n : ℕ)
    → e.conn.sock.refcnt ≡ pos (suc (suc n))
    → socket_release e t ≡ store (record e { conn = released e.conn }) t
unfolding socket_release
release-put e t n h = rw h refl

-- A call that keeps a live socket's fd gives a table again.
pub put-IsTable :
    (e : Entry) (t : Sockets) → IsTable t → at e < t.next_fd → IsLive e → IsTable (store e t)
put-IsTable e t w f l = record {
  distinct = Distinct-put e t.sockets w.distinct;
  passed = All-put (λ x. at x < t.next_fd) e t.sockets f w.passed;
  live = All-put IsLive e t.sockets l w.live;
  counted = w.counted ∙ ap pos (sym (length-put e t.sockets));
}
