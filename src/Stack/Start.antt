-- ===== src/Stack/Start.antt =====
-- How src/main.c starts and stops the stack, with `netdev_init` of src/netdev.c. The threads are
-- entries of a table; what `pthread_create` and `sigwait` return is an argument.
use mathlib.Core.Path.{subst}
use hf_ip.Prelude.{
  Bool, Bool-cases, List, Option, [], arith, bit_and, false, if◌then◌else◌, inl, inr, none, refl,
  some, ℕ, ◌++◌, ◌==◌, ◌||◌, ◌∷◌, ◌≡◌,
}
use hf_ip.Net.{Net, NetDev, RtEntry}
use hf_ip.Net.Route.{
  free_routes, lookup_loop, matches, route_add, route_alloc, route_init, route_lookup, rt_gateway,
  rt_host, rt_loopback,
}
use hf_ip.Net.Arp.{free_arp}
use hf_ip.Net.Ip.Echo.{next_hop}
use hf_ip.Sockets.Table.{if_some}
use hf_ip.Sockets.{Sockets}
use hf_ip.Sockets.Calls.{abort_sockets}
use hf_ip.Stack.{on_net}

-- What `ip_parse` returns for "127.0.0.1", "10.0.0.4" and "10.0.0.5".
abbrev pub loop_addr : ℕ
loop_addr = 0x7f000001

abbrev pub netdev_addr : ℕ
netdev_addr = 0x0a000004

abbrev pub tapaddr : ℕ
tapaddr = 0x0a000005

-- `addr` and `hwaddr` are what `ip_parse` and `sscanf` make of the texts.
unfoldable pub netdev_alloc : ℕ → List ℕ → ℕ → NetDev
netdev_alloc addr hwaddr mtu = record { addr = addr; addr_len = 6; hwaddr = hwaddr; mtu = mtu }

unfoldable pub netdev_init : Net → Net
unfolding netdev_alloc
netdev_init n = record n {
  loop = netdev_alloc loop_addr (0 ∷ 0 ∷ 0 ∷ 0 ∷ 0 ∷ 0 ∷ []) 1500;
  netdev = netdev_alloc netdev_addr (0x00 ∷ 0x0c ∷ 0x29 ∷ 0x6d ∷ 0x50 ∷ 0x25 ∷ []) 1500;
}

-- `init_stack`; `arp_init` and `tcp_init` are empty.
unfoldable pub init_stack : Net → Net
unfolding netdev_init route_init
init_stack n = route_init tapaddr (netdev_init n)

pub data Thread : Type 0 where
  thread_core : Thread
  thread_timers : Thread
  thread_ipc : Thread
  thread_signal : Thread

-- The process: `running`, the threads that were created and those that were cancelled.
pub record Process : Type 0 where
  pub running : Bool
  pub threads : List Thread
  pub cancelled : List Thread
  pub stack : Sockets

-- `pthread_create` returns 0, or the thread is not there.
abbrev create_thread : Thread → Bool → Process → Process
create_thread id created p = if created then record p { threads = p.threads ++ (id ∷ []) } else p

-- `created` tells for which threads `pthread_create` succeeds.
unfoldable pub run_threads : (Thread → Bool) → Process → Process
run_threads created p =
    let p1 = create_thread thread_core (created thread_core) p in
    let p2 = create_thread thread_timers (created thread_timers) p1 in
    let p3 = create_thread thread_ipc (created thread_ipc) p2 in
    create_thread thread_signal (created thread_signal) p3

-- SIGINT and SIGQUIT
abbrev is_stop : ℕ → Bool
is_stop signo = signo == 2 || signo == 3

-- `stop_stack_handler`, for the signals that `sigwait` returns; `none` if it waits on.
unfoldable pub stop_stack_handler : List ℕ → Process → Option Process
stop_stack_handler [] p = none
stop_stack_handler (signo ∷ rest) p =
    let next = stop_stack_handler rest p in
    if is_stop signo
    then some (record p {
      running = false;
      cancelled = p.cancelled ++ thread_ipc ∷ thread_core ∷ thread_timers ∷ [];
    })
    else next

-- `free_stack`; the devices are freed with it.
unfoldable pub free_stack : Sockets → Sockets
unfolding abort_sockets free_arp free_routes
free_stack t = on_net free_routes (on_net free_arp (abort_sockets t))

-- The networks of the loop and of the tap device.
abbrev pub is_loop : ℕ → Bool
is_loop daddr = bit_and daddr 0xff000000 == 0x7f000000

abbrev pub is_local : ℕ → Bool
is_local daddr = bit_and daddr 0xffffff00 == 0x0a000000

-- A lookup in a table of three routes.
lookup_three :
    (daddr : ℕ) (a b c : RtEntry)
    → lookup_loop daddr none (a ∷ b ∷ c ∷ [])
      ≡ some (if matches daddr a then a else (if matches daddr b then b else c))
unfolding lookup_loop
lookup_three daddr a b c = ground arith

-- After the start every address has a route: the loop's network over the loop device, the tap
-- device's network over that device, and every other address over the tap device to the gateway
-- 10.0.0.5.
pub init_stack-routes :
    (n : Net) (daddr : ℕ)
    → let started = init_stack (record n { routes = [] }) in
      (rt : RtEntry) × (route_lookup daddr started ≡ some rt)
      × (rt.dev ≡ (if is_loop daddr then started.loop else started.netdev))
      × (next_hop rt daddr ≡ (if is_loop daddr || is_local daddr then daddr else tapaddr))
unfolding init_stack netdev_init netdev_alloc route_init route_add route_alloc route_lookup
init_stack-routes n daddr =
    let started = init_stack (record n { routes = [] }) in
    let a = route_alloc loop_addr 0 0xff000000 rt_loopback 0 started.loop in
    let b = route_alloc netdev_addr 0 0xffffff00 rt_host 0 started.netdev in
    let c = route_alloc 0 tapaddr 0 rt_gateway 0 started.netdev in
    let chosen : Bool → Bool → RtEntry = λ x y. if x then a else (if y then b else c) in
    (
      chosen (is_loop daddr) (is_local daddr),
      lookup_three daddr a b c,
      elim (Bool-cases (is_loop daddr)) [
        | inl e ↦ rw e refl
        | inr e ↦
            rw e (elim (Bool-cases (is_local daddr)) [ inl f ↦ rw f refl | inr f ↦ rw f refl ])
      ],
      elim (Bool-cases (is_loop daddr)) [
        | inl e ↦ rw e refl
        | inr e ↦
            rw e (elim (Bool-cases (is_local daddr)) [ inl f ↦ rw f refl | inr f ↦ rw f refl ])
      ],
    )

-- The signal thread ends with the other threads cancelled, and with `running` cleared for a loop
-- that sees it before.
pub stop_stack_handler-lem :
    (signals : List ℕ) (p q : Process)
    → stop_stack_handler signals p ≡ some q
    → (q.running ≡ false)
      × (q.cancelled ≡ p.cancelled ++ thread_ipc ∷ thread_core ∷ thread_timers ∷ [])
      × (q.stack ≡ p.stack)
unfolding stop_stack_handler
stop_stack_handler-lem [] p q h = cc
stop_stack_handler-lem (signo ∷ rest) p q h =
    let stopped = record p {
      running = false;
      cancelled = p.cancelled ++ thread_ipc ∷ thread_core ∷ thread_timers ∷ [];
    } in
    elim (if_some (is_stop signo) stopped q (stop_stack_handler rest p) h) [
      | inl same ↦
          subst
            (λ (r : Process).
              (r.running ≡ false)
              × (r.cancelled ≡ p.cancelled ++ thread_ipc ∷ thread_core ∷ thread_timers ∷ [])
              × (r.stack ≡ p.stack))
            same (refl, refl, refl)
      | inr later ↦ stop_stack_handler-lem rest p q later
    ]
