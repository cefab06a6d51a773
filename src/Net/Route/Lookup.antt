-- ===== src/Net/Route/Lookup.antt =====
-- Which route a lookup finds.
use hf_ip.Prelude.{
  ==_iff, Bool-cases, List, Option, [], bit_and, false, inl, inr, none, refl, some, some_inj, true,
  ℕ, ◌↔◌, ◌∷◌, ◌≡◌, ◌⊎◌,
}
use hf_ip.Net.{Net, RtEntry}
use hf_ip.Net.Route.{lookup_loop, matches, route_lookup}

-- The address and the entry agree under the entry's mask.
abbrev pub Agrees : ℕ → RtEntry → Type 0
Agrees daddr r = bit_and daddr r.netmask ≡ bit_and r.dst r.netmask

-- `r` stands in the table, it matches, and no entry before it does.
abbrev pub IsFirst : ℕ → RtEntry → List RtEntry → Type 0
IsFirst daddr r [] = ⊥
IsFirst daddr r (s ∷ rest) =
    ((s ≡ r) × Agrees daddr s) ⊎ ((¬ Agrees daddr s) × IsFirst daddr r rest)

-- No entry matches, and `r` is the last one.
abbrev pub IsLast : ℕ → RtEntry → List RtEntry → Type 0
IsLast daddr r [] = ⊥
IsLast daddr r (s ∷ rest) = (¬ Agrees daddr s) × (((s ≡ r) × (rest ≡ [])) ⊎ IsLast daddr r rest)

matches-Agrees : (daddr : ℕ) (r : RtEntry) → matches daddr r ≡ true → Agrees daddr r
matches-Agrees daddr r h = (==_iff (bit_and daddr r.netmask) (bit_and r.dst r.netmask)).0 h

Agrees-matches : (daddr : ℕ) (r : RtEntry) → Agrees daddr r → matches daddr r ≡ true
Agrees-matches daddr r h = (==_iff (bit_and daddr r.netmask) (bit_and r.dst r.netmask)).1 h

misses : (daddr : ℕ) (r : RtEntry) → matches daddr r ≡ false → ¬ Agrees daddr r
misses daddr r h a = let e = Agrees-matches daddr r a in cc

missed : (daddr : ℕ) (r : RtEntry) → (¬ Agrees daddr r) → matches daddr r ≡ false
missed daddr r h = elim (Bool-cases (matches daddr r)) [
  | inl e ↦ absurd (h (matches-Agrees daddr r e))
  | inr e ↦ e
]

lookup_loop-found :
    (daddr : ℕ) (rt : Option RtEntry) (l : List RtEntry) (r : RtEntry)
    → lookup_loop daddr rt l ≡ some r
    → (IsFirst daddr r l ⊎ IsLast daddr r l) ⊎ ((l ≡ []) × (rt ≡ some r))
unfolding lookup_loop
lookup_loop-found daddr rt [] r h = inr (refl, h)
lookup_loop-found daddr rt (s ∷ rest) r h = elim (Bool-cases (matches daddr s)) [
  | inl hit ↦ inl (inl (inl (some_inj (rw hit at h), matches-Agrees daddr s hit)))
  | inr miss ↦ inl (pass s rest r miss (lookup_loop-found daddr (some s) rest r (rw miss at h)))
]
  where
    pass :
        (s : RtEntry) (rest : List RtEntry) (r : RtEntry)
        → matches daddr s ≡ false
        → (IsFirst daddr r rest ⊎ IsLast daddr r rest) ⊎ ((rest ≡ []) × (some s ≡ some r))
        → IsFirst daddr r (s ∷ rest) ⊎ IsLast daddr r (s ∷ rest)
    pass s rest r miss (inl (inl f)) = inl (inr (misses daddr s miss, f))
    pass s rest r miss (inl (inr l)) = inr (misses daddr s miss, inr l)
    pass s rest r miss (inr e) = inr (misses daddr s miss, inl (some_inj e.1, e.0))

lookup_loop-first :
    (daddr : ℕ) (rt : Option RtEntry) (l : List RtEntry) (r : RtEntry)
    → IsFirst daddr r l
    → lookup_loop daddr rt l ≡ some r
unfolding lookup_loop
lookup_loop-first daddr rt [] r h = elim h [ ]
lookup_loop-first daddr rt (s ∷ rest) r (inl e) = rw (Agrees-matches daddr s e.1, e.0)
lookup_loop-first daddr rt (s ∷ rest) r (inr e) =
    rw (missed daddr s e.0) (lookup_loop-first daddr (some s) rest r e.1)

lookup_loop-last :
    (daddr : ℕ) (rt : Option RtEntry) (l : List RtEntry) (r : RtEntry)
    → IsLast daddr r l
    → lookup_loop daddr rt l ≡ some r
unfolding lookup_loop
lookup_loop-last daddr rt [] r h = elim h [ ]
lookup_loop-last daddr rt (s ∷ rest) r (m, inl e) = rw (missed daddr s m, e.1, e.0)
lookup_loop-last daddr rt (s ∷ rest) r (m, inr e) =
    rw (missed daddr s m) (lookup_loop-last daddr (some s) rest r e)

-- A lookup finds `r` exactly if `r` is the first entry whose destination agrees with the address
-- under the entry's mask, or no entry does and `r` is the last one of the table.
pub route_lookup_iff :
    (daddr : ℕ) (n : Net) (r : RtEntry)
    → (route_lookup daddr n ≡ some r) ↔ (IsFirst daddr r n.routes ⊎ IsLast daddr r n.routes)
unfolding route_lookup
route_lookup_iff daddr n r = (forth, back)
  where
    forth :
        lookup_loop daddr none n.routes ≡ some r
        → IsFirst daddr r n.routes ⊎ IsLast daddr r n.routes
    forth h = elim (lookup_loop-found daddr none n.routes r h) [
      | inl found ↦ found
      | inr e ↦ cc (e.1)
    ]

    back :
        IsFirst daddr r n.routes ⊎ IsLast daddr r n.routes
        → lookup_loop daddr none n.routes ≡ some r
    back (inl f) = lookup_loop-first daddr none n.routes r f
    back (inr l) = lookup_loop-last daddr none n.routes r l
