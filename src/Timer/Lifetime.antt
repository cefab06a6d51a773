-- ===== src/Timer/Lifetime.antt =====
-- What one pass of `timers_tick` does to one timer.
use mathlib.Core.Path.{subst}
use native.Mathlib.Decide.{ℕ_discrete}
use hf_ip.Prelude.{
  All, Bool, Bool-cases, List, Option, [], arith, false, if◌then◌else◌, inl, inr, none, refl, some,
  true, ℕ, ◌%◌, ◌&&◌, ◌<◌, ◌==◌, ◌^◌, ◌∙◌, ◌∷◌, ◌≡◌, ◌≢◌, ◌⊎◌,
}
use hf_ip.Prelude.Int.{is_zero}
use hf_ip.Timer.{Fired, Timer, Timers, due, expire_timer, is_dead, tick_loop, timers_tick}
use hf_ip.Timer.Once.{count_fired}

-- The timer at an address.
abbrev pub find : ℕ → List Timer → Option Timer
find i [] = none
find i (t ∷ ts) = if t.id == i then some t else find i ts

abbrev Fresh : ℕ → List Timer → Type 0
Fresh i ts = All (λ t. i ≢ t.id) ts

-- No two timers share an address.
abbrev DistinctIds : List Timer → Type 0
DistinctIds [] = Unit
DistinctIds (t ∷ ts) = Fresh t.id ts × DistinctIds ts

tick_absent :
    (i tick : ℕ) (busy : ℕ → Bool) (ts : List Timer)
    → Fresh i ts
    → let (kept, fired) = tick_loop tick busy ts in (find i kept ≡ none) × (count_fired i fired ≡ 0)
unfolding tick_loop
tick_absent i tick busy [] h = (refl, refl)
tick_absent i tick busy (t ∷ ts) h = ground (arith, tick_absent i tick busy ts h.1)

-- The two results of the loop at a list that starts with the timer.
module _ (tick : ℕ) (busy : ℕ → Bool) (t : Timer) (ts : List Timer) (d : Fresh t.id ts) where
  count_here :
      count_fired t.id (tick_loop tick busy (t ∷ ts)).1
      ≡ (if busy t.id then 0 else (if due tick t then 1 else 0))
  unfolding tick_loop
  count_here = ground (arith, tick_absent t.id tick busy ts d)

  find_here : find t.id (tick_loop tick busy (t ∷ ts)).0 ≡ (
      if busy t.id
      then some t
      else (if is_dead (expire_timer tick t) then none else some (expire_timer tick t)))
  unfolding tick_loop
  find_here = ground (arith, tick_absent t.id tick busy ts d)

-- The two results of the loop at a list that starts with another timer.
module _ (i tick : ℕ) (busy : ℕ → Bool) (t : Timer) (ts : List Timer) (ne : t.id ≢ i) where
  count_there :
      count_fired i (tick_loop tick busy (t ∷ ts)).1 ≡ count_fired i (tick_loop tick busy ts).1
  unfolding tick_loop
  count_there = ground arith

  find_there : find i (tick_loop tick busy (t ∷ ts)).0 ≡ find i (tick_loop tick busy ts).0
  unfolding tick_loop
  find_there = ground arith

abbrev Outcome : ℕ → ℕ → (ℕ → Bool) → Timer → List Timer × List Fired → Type 0
Outcome i tick busy t out =
    (count_fired i out.1 ≡ (if busy i then 0 else (if due tick t then 1 else 0)))
    × (find i out.0 ≡ (
        if busy i
        then some t
        else (if is_dead (expire_timer tick t) then none else some (expire_timer tick t))))

find_head : (i : ℕ) (s t : Timer) (ts : List Timer) → s.id ≡ i → find i (s ∷ ts) ≡ some t → s ≡ t
find_head i s t ts e f = ground arith

find_tail :
    (i : ℕ) (s t : Timer) (ts : List Timer)
    → s.id ≢ i
    → find i (s ∷ ts) ≡ some t
    → find i ts ≡ some t
find_tail i s t ts e f = ground arith

tick_loop-one :
    (i tick : ℕ) (busy : ℕ → Bool) (ts : List Timer) (t : Timer)
    → DistinctIds ts
    → find i ts ≡ some t
    → Outcome i tick busy t (tick_loop tick busy ts)
tick_loop-one i tick busy [] t d f = cc
tick_loop-one i tick busy (s ∷ ts) t d f = elim (ℕ_discrete s.id i) [
  | yes e ↦
      subst (λ k. Outcome k tick busy t (tick_loop tick busy (s ∷ ts))) e
        (subst (λ r. Outcome s.id tick busy r (tick_loop tick busy (s ∷ ts)))
          (find_head i s t ts e f) (count_here tick busy s ts d.0, find_here tick busy s ts d.0))
  | no ne ↦
      let ih = tick_loop-one i tick busy ts t d.1 (find_tail i s t ts ne f) in
      (count_there i tick busy s ts ne ∙ ih.0, find_there i tick busy s ts ne ∙ ih.1)
]

-- A timer that is not cancelled and whose time is over, by the clock of 32 bits.
abbrev pub Passed : ℕ → Timer → Type 0
Passed tick t = (t.cancelled ≡ false) × (t.expires < tick % 2 ^ 32)

due-Passed : (tick : ℕ) (t : Timer) → due tick t ≡ true → Passed tick t
due-Passed tick t h = (ground arith, ground arith)

late : (tick : ℕ) (t : Timer) → due tick t ≡ false → ¬ Passed tick t
late tick t h p = absurd (ground (arith, p.0, p.1))

-- Where no two timers share an address, a pass does not touch a timer whose lock is taken. Of the
-- others it starts the handler of one that is not cancelled and whose time is before the clock's, once,
-- and cancels it; a cancelled one is not started, and one whose time is not before the clock's is left
-- as it is. A timer that is cancelled when the pass leaves it is freed if no reference is held, and
-- stays if one is.
pub timers_tick-one :
    (i : ℕ) (busy : ℕ → Bool) (w : Timers) (t : Timer)
    → DistinctIds w.timers
    → find i w.timers ≡ some t
    → let (w', fired) = timers_tick busy w in
      ((busy i ≡ true) × (count_fired i fired ≡ 0) × (find i w'.timers ≡ some t))
      ⊎ ((busy i ≡ false)
          × Passed w.tick t
          × (count_fired i fired ≡ 1)
          × (find i w'.timers
              ≡ (if is_zero t.refcnt then none else some (record t { cancelled = true }))))
      ⊎ ((busy i ≡ false)
          × (¬ Passed w.tick t)
          × (count_fired i fired ≡ 0)
          × (find i w'.timers ≡ (if t.cancelled && is_zero t.refcnt then none else some t)))
unfolding timers_tick
timers_tick-one i busy w t d f =
    let (count, kept) = tick_loop-one i w.tick busy w.timers t d f in
    elim (Bool-cases (busy i)) [
      | inl taken ↦ inl (taken, rw taken at count, rw taken at kept)
      | inr free ↦ elim (Bool-cases (due w.tick t)) [
        | inl yes_ ↦ inr (
            inl (
              free,
              due-Passed w.tick t yes_,
              count ∙ rw (free, yes_) refl,
              kept ∙ rw (free, yes_) refl,
            ))
        | inr no_ ↦
            inr (
              inr
                (free, late w.tick t no_, count ∙ rw (free, no_) refl, kept ∙ rw (free, no_) refl))
      ]
    ]
