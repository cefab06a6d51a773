-- ===== src/Timer.antt =====
-- src/timer.c and include/timer.h: the timer wheel. Its handlers are the functions that
-- src/tcp.c, src/tcp_output.c and src/socket.c register. One pass of `timers_tick` returns the
-- handlers for which it starts a thread, in order.
pub mod Once
pub mod Lifetime
mod Tests
use hf_ip.Prelude.{
  Bool, List, Option, [], false, if◌then◌else◌, ltb, none, not, some, suc, true, ℕ, ◌&&◌, ◌++◌, ◌+◌,
  ◌==◌, ◌∷◌,
}
use hf_ip.Prelude.Int.{dec, is_zero, pos, ℤ}
use hf_ip.Word.{u32}

pub data Handler : Type 0 where
  connect_rto retransmission_timeout send_delack linger user_timeout garbage_collect : Handler

-- `id` is the timer's address, `arg` the address that its handler is given.
pub record Timer : Type 0 where
  pub id : ℕ
  pub refcnt : ℤ
  pub expires : ℕ
  pub cancelled : Bool
  pub handler : Handler
  pub arg : ℕ

-- The list `timers`, the clock `tick` in milliseconds, and the next address of `calloc`.
pub record Timers : Type 0 where
  pub timers : List Timer
  pub tick : ℕ
  pub fresh : ℕ

abbrev pub Fired : Type 0
Fired = ℕ × Handler × ℕ

unfoldable timer_get_tick : Timers → ℕ
timer_get_tick w = w.tick

-- `timer_oneshot` and `timer_add` differ in the reference that the caller keeps. The wrap of
-- `expires` is only reported.
unfoldable pub new_timer : ℤ → ℕ → Handler → ℕ → Timers → Timer
unfolding timer_get_tick
new_timer refcnt expire handler arg w = record {
  id = w.fresh;
  refcnt = refcnt;
  expires = u32 (timer_get_tick w + expire);
  cancelled = false;
  handler = handler;
  arg = arg;
}

abbrev add_tail : Timer → Timers → Timers
add_tail t w = record w { timers = w.timers ++ t ∷ []; fresh = suc w.fresh }

unfoldable pub timer_oneshot : ℕ → Handler → ℕ → Timers → Timers
unfolding new_timer
timer_oneshot expire handler arg w = add_tail (new_timer (pos 0) expire handler arg w) w

unfoldable pub timer_add : ℕ → Handler → ℕ → Timers → Timers × ℕ
unfolding new_timer
timer_add expire handler arg w = (add_tail (new_timer (pos 1) expire handler arg w) w, w.fresh)

-- Change the timer at an address. (A pointer to a freed timer would be an error of the caller;
-- here the change of a timer that is not in the list does nothing.)
unfoldable pub at_id : ℕ → (Timer → Timer) → List Timer → List Timer
at_id i f [] = []
at_id i f (t ∷ ts) = if t.id == i then f t ∷ ts else t ∷ at_id i f ts

unfoldable pub timer_release : Option ℕ → Timers → Timers
timer_release none w = w
timer_release (some i) w = record w {
  timers = at_id i (λ t. record t { refcnt = dec t.refcnt }) w.timers;
}

unfoldable pub timer_cancel : Option ℕ → Timers → Timers
timer_cancel none w = w
timer_cancel (some i) w = record w {
  timers = at_id i (λ t. record t { refcnt = dec t.refcnt; cancelled = true }) w.timers;
}

-- `!t->cancelled && t->expires < tick`: the clock is compared as an unsigned number.
abbrev pub due : ℕ → Timer → Bool
due tick t = not t.cancelled && ltb t.expires (u32 tick)

abbrev pub expire_timer : ℕ → Timer → Timer
expire_timer tick t = record t { cancelled = if due tick t then true else t.cancelled }

-- `t->cancelled && t->refcnt == 0`
abbrev pub is_dead : Timer → Bool
is_dead t = t.cancelled && is_zero t.refcnt

-- The loop of `timers_tick`; `busy` says whose lock `pthread_mutex_trylock` finds taken.
unfoldable pub tick_loop : ℕ → (ℕ → Bool) → List Timer → List Timer × List Fired
tick_loop tick busy [] = ([], [])
tick_loop tick busy (t ∷ ts) =
    let (kept, fired) = tick_loop tick busy ts in
    let t' = expire_timer tick t in
    if busy t.id then (t ∷ kept, fired) else (
      if is_dead t' then kept else t' ∷ kept,
      if due tick t then (t.id, t.handler, t.arg) ∷ fired else fired,
    )

unfoldable pub timers_tick : (ℕ → Bool) → Timers → Timers × List Fired
timers_tick busy w =
    let (kept, fired) = tick_loop w.tick busy w.timers in (record w { timers = kept }, fired)

-- One round of the loop of `timers_start`.
unfoldable pub timers_round : (ℕ → Bool) → Timers → Timers × List Fired
timers_round busy w = timers_tick busy (record w { tick = w.tick + 10 })
