-- ===== src/Timer/Once.antt =====
-- Over every schedule of calls and rounds, a timer's handler is started at most once.
use hf_ip.Prelude.{
  Bool, List, [], arith, if◌then◌else◌, leb, not, some, true, ℕ, ◌&&◌, ◌++◌, ◌+◌, ◌==◌, ◌∷◌, ◌≡◌,
  ◌≤◌,
}
use hf_ip.Prelude.Int.{dec, pos}
use hf_ip.Timer.{
  Fired, Handler, Timer, Timers, at_id, new_timer, tick_loop, timer_add, timer_cancel,
  timer_oneshot, timer_release, timers_round, timers_tick,
}

-- What the stack's threads do to the timers: the four operations, and rounds of the clock in
-- which other threads hold some timers' locks.
pub data Call : Type 0 where
  oneshot : ℕ → Handler → ℕ → Call
  add : ℕ → Handler → ℕ → Call
  release : ℕ → Call
  cancel : ℕ → Call
  round : (ℕ → Bool) → Call

abbrev step : Call → Timers → Timers × List Fired
step (oneshot e h a) w = (timer_oneshot e h a w, [])
step (add e h a) w = ((timer_add e h a w).0, [])
step (release i) w = (timer_release (some i) w, [])
step (cancel i) w = (timer_cancel (some i) w, [])
step (round busy) w = timers_round busy w

unfoldable pub run : List Call → Timers → Timers × List Fired
run [] w = (w, [])
run (c ∷ cs) w = let (w1, f1) = step c w in let (w2, f2) = run cs w1 in (w2, f1 ++ f2)

abbrev pub count_fired : ℕ → List Fired → ℕ
count_fired i [] = 0
count_fired i (f ∷ fs) = (if f.0 == i then 1 else 0) + count_fired i fs

-- Timers at address `i` that may still fire.
abbrev armed_one : ℕ → Timer → ℕ
armed_one i t = if t.id == i && not t.cancelled then 1 else 0

abbrev armed : ℕ → List Timer → ℕ
armed i [] = 0
armed i (t ∷ ts) = armed_one i t + armed i ts

armed-append : (i : ℕ) (xs ys : List Timer) → armed i (xs ++ ys) ≡ armed i xs + armed i ys
armed-append i [] ys = omega arith
armed-append i (x ∷ xs) ys = omega (arith, armed-append i xs ys)

armed-at_id :
    (i j : ℕ) (f : Timer → Timer) (ts : List Timer)
    → ((t : Timer) → armed_one i (f t) ≤ armed_one i t)
    → armed i (at_id j f ts) ≤ armed i ts
unfolding at_id
armed-at_id i j f [] h = omega arith
armed-at_id i j f (t ∷ ts) h = ground (arith, h t, armed-at_id i j f ts h)

armed-tick_loop :
    (i tick : ℕ) (busy : ℕ → Bool) (ts : List Timer)
    → let (kept, fired) = tick_loop tick busy ts in count_fired i fired + armed i kept ≤ armed i ts
unfolding tick_loop
armed-tick_loop i tick busy [] = omega arith
armed-tick_loop i tick busy (t ∷ ts) = ground (arith, armed-tick_loop i tick busy ts)

-- An address is used up by its allocation, and its timer by its firing.
abbrev budget : ℕ → Timers → ℕ
budget i w = armed i w.timers + (if leb w.fresh i then 1 else 0)

release_one : (i : ℕ) (t : Timer) → armed_one i (record t { refcnt = dec t.refcnt }) ≤ armed_one i t
release_one i t = omega arith

cancel_one :
    (i : ℕ) (t : Timer)
    → armed_one i (record t { refcnt = dec t.refcnt; cancelled = true }) ≤ armed_one i t
cancel_one i t = ground arith

budget-step :
    (i : ℕ) (c : Call) (w : Timers)
    → let (w', fired) = step c w in count_fired i fired + budget i w' ≤ budget i w
unfolding timer_oneshot timer_add timer_release timer_cancel timers_round timers_tick
budget-step i (oneshot e h a) w =
    ground (arith, armed-append i w.timers (new_timer (pos 0) e h a w ∷ []))
budget-step i (add e h a) w =
    ground (arith, armed-append i w.timers (new_timer (pos 1) e h a w ∷ []))
budget-step i (release j) w =
    omega
      (arith, armed-at_id i j (λ t. record t { refcnt = dec t.refcnt }) w.timers (release_one i))
budget-step i (cancel j) w = omega (
  arith,
  armed-at_id i j (λ t. record t { refcnt = dec t.refcnt; cancelled = true }) w.timers
      (cancel_one i),
)
budget-step i (round busy) w = omega (arith, armed-tick_loop i (w.tick + 10) busy w.timers)

count-append :
    (i : ℕ) (xs ys : List Fired) → count_fired i (xs ++ ys) ≡ count_fired i xs + count_fired i ys
count-append i [] ys = omega arith
count-append i (x ∷ xs) ys = omega (arith, count-append i xs ys)

budget-run :
    (i : ℕ) (cs : List Call) (w : Timers)
    → let (w', fired) = run cs w in count_fired i fired + budget i w' ≤ budget i w
unfolding run
budget-run i [] w = omega arith
budget-run i (c ∷ cs) w =
    let (w1, f1) = step c w in
    omega (arith, budget-step i c w, budget-run i cs w1, count-append i f1 (run cs w1).1)

-- From an empty list of timers, whatever is added, released, cancelled and ticked, in any order
-- and with any locks taken, the handler of each timer is started at most once.
pub fires_once :
    (i : ℕ) (cs : List Call) (w : Timers) → w.timers ≡ [] → count_fired i (run cs w).1 ≤ 1
fires_once i cs w e = ground (arith, budget-run i cs w)
