-- ===== src/Ipc/Listen.antt =====
-- `start_ipc_listener` of src/ipc.c: the thread that accepts the programs' connections. The results
-- of the system's calls are arguments.
use hf_ip.Prelude.{
  Bool, List, [], append-nil, append_assoc, false, if◌then◌else◌, length, refl, suc, sym, true,
  zero, ℕ, ◌++◌, ◌∙◌, ◌∷◌, ◌≡◌,
}
use hf_ip.Prelude.Int.{inc, is_minus_one, is_negative, pos, ℤ}
use hf_ip.Ipc.Calls.{Server, ipc_alloc_thread}

-- The results of `socket`, `bind`, `listen` and `chmod`.
pub record Listening : Type 0 where
  pub socket_rc : ℤ
  pub bind_rc : ℤ
  pub listen_rc : ℤ
  pub chmod_rc : ℤ

-- How the thread ends: `exit` with this status, or it waits in `accept`.
pub data End : Type 0 where
  exits : ℤ → End
  waits : End

-- An `accept` that returns -1, or a descriptor and whether `pthread_create` succeeds for it.
pub data Accept : Type 0 where
  refused : Accept
  accepted : ℕ → Bool → Accept

module _ {S : Type 0} where
  -- The loop, for the coming results of `accept`, after which it waits.
  unfoldable pub accept_loop : List Accept → Server S → Server S × End
  unfolding ipc_alloc_thread
  accept_loop [] v = (v, waits)
  accept_loop (refused ∷ rest) v = (v, exits (pos 1))
  accept_loop (accepted datasock created ∷ rest) v =
      let w = ipc_alloc_thread datasock v in
      let more = accept_loop rest w in if created then more else (w, exits (pos 1))

  unfoldable pub start_ipc_listener : Listening → List Accept → Server S → Server S × End
  unfolding accept_loop
  start_ipc_listener r accepts v =
      let looped = accept_loop accepts v in
      if is_negative r.socket_rc
      then (v, exits (pos 1))
      else (if is_minus_one r.bind_rc
          then (v, exits (pos 1))
          else (if is_minus_one r.listen_rc
              then (v, exits (pos 1))
              else (if is_minus_one r.chmod_rc then (v, exits (pos 1)) else looped)))

-- The descriptors of the connections that were accepted before the loop ends.
abbrev pub served : List Accept → List ℕ
served [] = []
served (refused ∷ rest) = []
served (accepted datasock created ∷ rest) =
    let more = served rest in datasock ∷ (if created then more else [])

abbrev counted : ℕ → ℤ → ℤ
counted zero x = x
counted (suc n) x = counted n (inc x)

module _ {S : Type 0} where
  -- The connections that are accepted get a thread each, behind the others and in their order, and
  -- are counted; the thread changes nothing else, and it never closes one.
  accept_loop-serves :
      (accepts : List Accept) (v : Server S)
      → let (w, e) = accept_loop accepts v in
        (w.socks ≡ v.socks ++ served accepts)
        × (w.socket_count ≡ counted (length (served accepts)) v.socket_count)
        × (w.stack ≡ v.stack)
        × (w.closed ≡ v.closed)
  unfolding accept_loop ipc_alloc_thread
  accept_loop-serves [] v = (sym (append-nil v.socks), refl, refl, refl)
  accept_loop-serves (refused ∷ rest) v = (sym (append-nil v.socks), refl, refl, refl)
  accept_loop-serves (accepted d true ∷ rest) v =
      let r = accept_loop-serves rest (ipc_alloc_thread d v) in
      (r.0 ∙ append_assoc v.socks (d ∷ []) (served rest), r.1, r.2, r.3)
  accept_loop-serves (accepted d false ∷ rest) v = (refl, refl, refl, refl)
