-- ===== src/ListHead/Update.antt =====
-- Insertion and deletion on well-formed lists.
use hf_ip.Prelude.{
  All, All-append, List, [], append-nil, arith, length, sym, true, ℕ, ◌++◌, ◌+◌, ◌↔◌, ◌∷◌, ◌≡◌, ◌≢◌,
}
use hf_ip.ListHead.{Links, for_each, list_add_tail, list_del, list_empty, write_next, write_prev}
use hf_ip.ListHead.Shape.{
  Distinct, IsList, NotIn, NotIn-append, Segment, Segment-append, Segment-split, Segment-write,
  for_each-Segment, next-ne, prev-ne,
}

-- The writes of `list_add_tail(new, b)` in the segment that ends in `b`.
add_tail-Segment :
    (h : Links) (a : ℕ) (xs : List ℕ) (b new : ℕ)
    → new ≢ a
    → NotIn new xs
    → new ≢ b
    → NotIn b xs
    → NotIn a xs
    → Distinct xs
    → Segment h a xs b
    → Segment (list_add_tail new b h) a (xs ++ new ∷ []) b
unfolding list_add_tail
add_tail-Segment h a [] b new na nx nb bx ax dx s = ground arith
add_tail-Segment h a (x ∷ xs) b new na nx nb bx ax dx s =
    let far : a ≢ h.prev b = prev-ne h x xs b a s.2 ax.0 ax.1 in
    let rest = add_tail-Segment h x xs b new nx.0 nx.1 nb bx.1 dx.0 dx.1 s.2 in
    (ground arith, ground arith, rest)

-- The node before `b` is `a` or one of the segment's.
prev-NotIn :
    (h : Links) (a : ℕ) (xs : List ℕ) (b : ℕ) (ys : List ℕ)
    → Segment h a xs b
    → NotIn a ys
    → All (λ x. NotIn x ys) xs
    → NotIn (h.prev b) ys
prev-NotIn h a [] b ys s n al = rw s.1 n
prev-NotIn h a (x ∷ xs) b ys s n al = prev-NotIn h x xs b ys s.2 al.0 al.1

Distinct-append :
    (xs ys : List ℕ) → Distinct (xs ++ ys) → Distinct xs × Distinct ys × All (λ x. NotIn x ys) xs
Distinct-append [] ys d = (tt, d, tt)
Distinct-append (x ∷ xs) ys d =
    let r = Distinct-append xs ys d.1 in
    let n = NotIn-append x xs ys d.0 in ((n.0, r.0), r.1, (n.1, r.2))

NotIn-flip : (y : ℕ) (ys xs : List ℕ) → All (λ x. NotIn x (y ∷ ys)) xs → NotIn y xs
NotIn-flip y ys [] h = tt
NotIn-flip y ys (x ∷ xs) h = ((λ e. h.0.0 (sym e)), NotIn-flip y ys xs h.1)

Distinct-insert :
    (new : ℕ) (xs ys : List ℕ)
    → NotIn new (xs ++ ys)
    → Distinct (xs ++ ys)
    → Distinct (xs ++ new ∷ ys)
Distinct-insert new [] ys n d = (n, d)
Distinct-insert new (x ∷ xs) ys n d =
    let p = NotIn-append x xs ys d.0 in
    (
      All-append (λ y. x ≢ y) xs (new ∷ ys) p.0 ((λ e. n.0 (sym e)), p.1),
      Distinct-insert new xs ys n.1 d.1,
    )

-- The node that an insertion before `ys` is given: the first of `ys`, or the head.
abbrev first_or : List ℕ → ℕ → ℕ
first_or [] head = head
first_or (y ∷ ys) head = y

-- `list_add_tail(new, pos)` puts a new node before `pos`, and nothing else changes: at the end of
-- the list where `pos` is its head, and in the middle where `pos` is one of its nodes.
pub list_add_tail-IsList :
    (h : Links) (head : ℕ) (xs ys : List ℕ) (new : ℕ)
    → NotIn new (head ∷ xs ++ ys)
    → IsList h head (xs ++ ys)
    → IsList (list_add_tail new (first_or ys head) h) head (xs ++ new ∷ ys)
unfolding list_add_tail
list_add_tail-IsList h head xs [] new n l =
    let e = append-nil xs in
    let n' : NotIn new xs = (NotIn-append new xs [] n.1).0 in
    let hx : NotIn head xs = (NotIn-append head xs [] l.1.0).0 in
    let dx : Distinct xs = (Distinct-append xs [] l.1.1).0 in
    (
      add_tail-Segment h head xs head new n.0 n' n.0 hx hx dx (rw e at l.0),
      Distinct-insert new (head ∷ xs) [] n l.1,
    )
list_add_tail-IsList h head xs (y ∷ ys) new n l =
    let s = Segment-split h head xs y ys head l.0 in
    let new_in = NotIn-append new xs (y ∷ ys) n.1 in
    let head_in = NotIn-append head xs (y ∷ ys) l.1.0 in
    let d = Distinct-append xs (y ∷ ys) l.1.1 in
    let ysx : NotIn y xs = NotIn-flip y ys xs d.2 in
    let before = add_tail-Segment h head xs y new n.0 new_in.0 new_in.1.0 ysx head_in.0 d.0 s.0 in
    let out : NotIn (h.prev y) (y ∷ ys) = prev-NotIn h head xs y (y ∷ ys) s.0 head_in.1 d.2 in
    let step =
      Segment-write h y ys head (h.prev y) new new (h.prev y) out.0 out.1 n.0 new_in.1.1 s.1 in
    let after =
      Segment-write (write_prev new (h.prev y) (write_next (h.prev y) new h)) y ys head new y y new
        new_in.1.0 new_in.1.1 (λ e. head_in.1.0 (sym e)) d.1.0 step in
    let joined = Segment-split (list_add_tail new y h) head xs new [] y before in
    (
      Segment-append (list_add_tail new y h) head xs new (y ∷ ys) head joined.0
          (joined.1.0, joined.1.1, after),
      Distinct-insert new (head ∷ xs) (y ∷ ys) n l.1,
    )

-- The writes of `list_del(e)`.
del-Segment :
    (h : Links) (a : ℕ) (xs : List ℕ) (e : ℕ) (ys : List ℕ) (b : ℕ)
    → Distinct (a ∷ xs ++ e ∷ ys)
    → NotIn b (xs ++ e ∷ ys)
    → Segment h a xs e
    → Segment h e ys b
    → Segment (list_del e h) a (xs ++ ys) b
unfolding list_del
del-Segment h a [] e [] b d nb s t = ground arith
del-Segment h a [] e (y ∷ ys) b d nb s t =
    let w =
      Segment-write h y ys b (h.prev e) (h.next e) (h.next e) (h.prev e) (rw s.1 d.0.1.0)
        (rw s.1 d.0.1.1) (rw t.0 (λ q. nb.1.0 (sym q))) (rw t.0 d.1.1.0) t.2 in
    (ground arith, ground arith, w)
del-Segment h a (x ∷ xs) e ys b d nb s t =
    let r = del-Segment h x xs e ys b d.1 nb.1 s.2 t in
    let split = NotIn-append a xs (e ∷ ys) d.0.1 in
    let far : a ≢ h.prev e = prev-ne h x xs e a s.2 d.0.0 split.0 in
    let xd = NotIn-append x xs (e ∷ ys) d.1.0 in
    let near : x ≢ h.next e = next-ne h e ys b x t (λ q. nb.0 (sym q)) xd.1.1 in
    (ground arith, ground arith, r)

Distinct-remove :
    (xs : List ℕ) (e : ℕ) (ys : List ℕ) → Distinct (xs ++ e ∷ ys) → Distinct (xs ++ ys)
Distinct-remove [] e ys d = d.1
Distinct-remove (x ∷ xs) e ys d =
    let p = NotIn-append x xs (e ∷ ys) d.0 in
    (All-append (λ y. x ≢ y) xs ys p.0 p.1.1, Distinct-remove xs e ys d.1)

-- Where the head's list holds exactly the given nodes, `list_del(e)` takes exactly the node `e`
-- out of it, and keeps the order of the others.
pub list_del-IsList :
    (h : Links) (head : ℕ) (xs : List ℕ) (e : ℕ) (ys : List ℕ)
    → IsList h head (xs ++ e ∷ ys)
    → IsList (list_del e h) head (xs ++ ys)
list_del-IsList h head xs e ys l =
    let s = Segment-split h head xs e ys head l.0 in
    (del-Segment h head xs e ys head l.1 l.1.0 s.0 s.1, Distinct-remove (head ∷ xs) e ys l.1)

-- `list_for_each` visits the nodes of a list in order, and `list_empty` is true of the empty one
-- alone.
pub list_for_each-IsList :
    (h : Links) (head : ℕ) (xs : List ℕ)
    → IsList h head xs
    → (for_each (length xs + 1) (h.next head) head h ≡ xs)
      × ((list_empty head h ≡ true) ↔ (xs ≡ []))
unfolding list_empty
list_for_each-IsList h head [] l =
    (for_each-Segment h head [] head 1 l.0 tt (omega arith), ground arith)
list_for_each-IsList h head (x ∷ xs) l = (
  for_each-Segment h head (x ∷ xs) head (length (x ∷ xs) + 1) l.0 l.1.0 (omega arith),
  ground arith,
)
