-- ===== src/Stack/Main.antt =====
-- `main` of src/main.c and the command line of src/cli.c. What the operating system answers is an
-- argument, and so is what the threads do until they are joined.
use hf_ip.Prelude.{
  Bool, List, Option, [], false, if◌then◌else◌, none, some, true, ℕ, ◌&&◌, ◌==◌, ◌∷◌,
}
use hf_ip.Net.Tap.{Tap, TapAnswers, tun_init}
use hf_ip.Stack.{on_net}
use hf_ip.Stack.Start.{Process, Thread, free_stack, init_stack, run_threads}

-- The options that `getopt` returns; whether `pthread_sigmask`, the two calls of `prctl` and the
-- `pthread_create` and `pthread_join` of the threads succeed; and the tap device's answers.
pub record Answers : Type 0 where
  pub options : List ℕ
  pub masked : Bool
  pub net_admin : Bool
  pub setpcap : Bool
  pub created : Thread → Bool
  pub joined : ℕ → Bool
  pub tap : TapAnswers

-- The loop of `parse_opts` gives `debug`; `none` is the `exit` of `usage`.
unfoldable pub parse_opts : List ℕ → Bool → Option Bool
parse_opts [] debug = some debug
parse_opts (opt ∷ rest) debug = let more = parse_opts rest true in if opt == 100 then more else none

unfoldable pub init_signals : Answers → Bool
init_signals a = a.masked

unfoldable pub init_security : Answers → Bool
init_security a = a.net_admin && a.setpcap

-- The first three of the four threads.
unfoldable pub wait_for_threads : Answers → Bool
wait_for_threads a = a.joined 0 && a.joined 1 && a.joined 2

-- From the options and the device on.
abbrev started : Answers → (Process → Process) → Process → Option Bool → Option Tap → Option Process
started a life p none tap = none
started a life p (some debug) none = none
started a life p (some debug) (some tap) =
    let ran = life (run_threads a.created (record p { stack = on_net init_stack p.stack })) in
    if init_signals a && init_security a && wait_for_threads a
    then some (record ran { stack = free_stack ran.stack })
    else none

-- `none` is an `exit` with an error.
unfoldable pub main : Answers → (Process → Process) → Process → Option Process
unfolding parse_opts init_signals init_security wait_for_threads
main a life p = started a life p (parse_opts a.options false) (tun_init a.tap)
