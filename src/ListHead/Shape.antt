-- ===== src/ListHead/Shape.antt =====
-- When the links make up a list: segments of nodes, linked both ways.
use hf_ip.Prelude.{All, List, [], arith, length, suc, zero, ℕ, ◌++◌, ◌<◌, ◌∙◌, ◌∷◌, ◌≡◌, ◌≢◌}
use hf_ip.ListHead.{Links, for_each, write_next, write_prev}

-- From `a` the links lead through `xs` to `b`, and back.
abbrev pub Segment : Links → ℕ → List ℕ → ℕ → Type 0
Segment h a [] b = (h.next a ≡ b) × (h.prev b ≡ a)
Segment h a (x ∷ xs) b = (h.next a ≡ x) × (h.prev x ≡ a) × Segment h x xs b

abbrev pub NotIn : ℕ → List ℕ → Type 0
NotIn a xs = All (λ x. a ≢ x) xs

abbrev pub Distinct : List ℕ → Type 0
Distinct [] = Unit
Distinct (x ∷ xs) = NotIn x xs × Distinct xs

-- The list with head node `head` holds exactly `xs`, in this order.
abbrev pub IsList : Links → ℕ → List ℕ → Type 0
IsList h head xs = Segment h head xs head × Distinct (head ∷ xs)

pub NotIn-append : (a : ℕ) (xs ys : List ℕ) → NotIn a (xs ++ ys) → NotIn a xs × NotIn a ys
NotIn-append a [] ys h = (tt, h)
NotIn-append a (x ∷ xs) ys h = let r = NotIn-append a xs ys h.1 in ((h.0, r.0), r.1)

-- The node before `b` is one of the segment's.
pub prev-ne :
    (h : Links) (a : ℕ) (xs : List ℕ) (b c : ℕ)
    → Segment h a xs b
    → c ≢ a
    → NotIn c xs
    → c ≢ h.prev b
prev-ne h a [] b c s ne n e = ne (e ∙ s.1)
prev-ne h a (x ∷ xs) b c s ne n e = prev-ne h x xs b c s.2 n.0 n.1 e

-- The node after `a` is one of the segment's, or its end.
pub next-ne :
    (h : Links) (a : ℕ) (xs : List ℕ) (b c : ℕ)
    → Segment h a xs b
    → c ≢ b
    → NotIn c xs
    → c ≢ h.next a
next-ne h a [] b c s ne n e = ne (e ∙ s.0)
next-ne h a (x ∷ xs) b c s ne n e = n.0 (e ∙ s.0)

pub Segment-append :
    (h : Links) (a : ℕ) (xs : List ℕ) (y : ℕ) (ys : List ℕ) (b : ℕ)
    → Segment h a xs y
    → Segment h y ys b
    → Segment h a (xs ++ y ∷ ys) b
Segment-append h a [] y ys b s t = (s.0, s.1, t)
Segment-append h a (x ∷ xs) y ys b s t = (s.0, s.1, Segment-append h x xs y ys b s.2 t)

pub Segment-split :
    (h : Links) (a : ℕ) (xs : List ℕ) (y : ℕ) (ys : List ℕ) (b : ℕ)
    → Segment h a (xs ++ y ∷ ys) b
    → Segment h a xs y × Segment h y ys b
Segment-split h a [] y ys b s = ((s.0, s.1), s.2)
Segment-split h a (x ∷ xs) y ys b s =
    let r = Segment-split h x xs y ys b s.2 in ((s.0, s.1, r.0), r.1)

-- Writes outside a segment leave it.
pub Segment-write :
    (h : Links) (a : ℕ) (xs : List ℕ) (b n v p w : ℕ)
    → n ≢ a
    → NotIn n xs
    → p ≢ b
    → NotIn p xs
    → Segment h a xs b
    → Segment (write_prev p w (write_next n v h)) a xs b
Segment-write h a [] b n v p w na nx pb px s = ground arith
Segment-write h a (x ∷ xs) b n v p w na nx pb px s =
    let r = Segment-write h x xs b n v p w nx.0 nx.1 pb px.1 s.2 in ground arith

-- `list_for_each` visits the list.
pub for_each-Segment :
    (h : Links) (a : ℕ) (xs : List ℕ) (head rounds : ℕ)
    → Segment h a xs head
    → NotIn head xs
    → length xs < rounds
    → for_each rounds (h.next a) head h ≡ xs
unfolding for_each
for_each-Segment h a xs head zero s n l = absurd (omega arith)
for_each-Segment h a [] head (suc rounds) s n l = ground arith
for_each-Segment h a (x ∷ xs) head (suc rounds) s n l =
    ground (arith, for_each-Segment h x xs head rounds s.2 n.1)
