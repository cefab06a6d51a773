-- ===== src/Ipc/Thread/Ahead.antt =====
-- The handlers of src/ipc.c before a failed `read`: only the one for a write reads on.
use hf_ip.Prelude.{
  Bool-cases, List, List-cases, Option, ap, arith, inl, inr, length, ltb, none, refl, some, ℕ, ◌++◌,
  ◌==◌, ◌∙◌, ◌∷◌, ◌≡◌, ◌≤◌, ◌⊎◌,
}
use hf_ip.Prelude.Int.{negsuc, pos, ℤ}
use hf_ip.Ipc.{
  IpcBuffer, IpcMsg, ipc_close_type, ipc_connect_type, ipc_fcntl_type, ipc_getpeername_type,
  ipc_getsockname_type, ipc_getsockopt_type, ipc_poll_type, ipc_read_type, ipc_socket_type,
  ipc_write_type, read_ipc_buffer,
}
use hf_ip.Ipc.Serve.{
  ipc_close, ipc_connect, ipc_fcntl, ipc_getpeername, ipc_getsockname, ipc_getsockopt, ipc_poll,
  ipc_read, ipc_socket, ipc_write, ipc_write_rc, write_got, write_head, write_payload,
}
use hf_ip.Ipc.Calls.{Server, SocketCalls, ipc_try_send, kernel_read}
use hf_ip.Ipc.Thread.{handle, on}

module _ {S : Type 0} where
  -- The results of `read` up to the first that fails, which are `n` at most, and what is behind it.
  abbrev pub Ahead : List (Option (List ℕ)) → ℕ → Server S → Type 0
  Ahead rest n v =
      (before : List (Option (List ℕ))) × (v.reads ≡ before ++ none ∷ rest) × (length before ≤ n)

  -- What a handler leaves: the failed `read` is still to come, or it is the last that was made and
  -- the result is -1.
  abbrev pub Leaves : List (Option (List ℕ)) → ℕ → Server S × ℤ → Type 0
  Leaves rest n x = ((x.1 ≡ negsuc 0) × (length rest ≤ length x.0.reads)) ⊎ Ahead rest n x.0

  same-Leaves :
      (rest : List (Option (List ℕ))) (n : ℕ) (v : Server S) (x : Server S × ℤ)
      → x.0.reads ≡ v.reads
      → Ahead rest n v
      → Leaves rest n x
  same-Leaves rest n v x e (before, r, h) = inr (before, e ∙ r, h)

  on-Leaves :
      (rest : List (Option (List ℕ))) (n type expected : ℕ) (x y : Server S × ℤ)
      → Leaves rest n x
      → Leaves rest n y
      → Leaves rest n (on type expected x y)
  on-Leaves rest n type expected x y a b = elim (Bool-cases (type == expected)) [
    | inl same ↦ rw same a
    | inr other ↦ rw other b
  ]

  got-Leaves :
      (calls : SocketCalls S) (rest : List (Option (List ℕ))) (n pid fd : ℕ) (v w : Server S)
      (got : Option (List ℕ))
      → ((got ≡ none) × (w.reads ≡ rest)) ⊎ Ahead rest n w
      → Leaves rest n (write_got calls pid fd (w, got))
  unfolding write_got ipc_write_rc ipc_try_send
  got-Leaves calls rest n pid fd v w none (inl (e, r)) = inl (refl, omega (arith, ap length r))
  got-Leaves calls rest n pid fd v w none (inr a) = inr a
  got-Leaves calls rest n pid fd v w (some buf) (inl (e, r)) = cc
  got-Leaves calls rest n pid fd v w (some buf) (inr a) = inr a

  payload-Ahead :
      (rest : List (Option (List ℕ))) (n : ℕ) (p : IpcBuffer) (v : Server S)
      → Ahead rest n v
      → (((write_payload p v).1 ≡ none) × ((write_payload p v).0.reads ≡ rest))
        ⊎ Ahead rest n (write_payload p v).0
  unfolding write_payload kernel_read
  payload-Ahead rest n p v (before, r, h) = elim (Bool-cases (ltb write_head p.len)) [
    | inr short ↦ rw (short, write_payload) (inr (before, r, h))
    | inl long ↦ elim (List-cases before) [
      | inl empty ↦
          let here : v.reads ≡ none ∷ rest = r ∙ ap (λ b. b ++ none ∷ rest) empty in
          rw (long, here, write_payload) (inl (refl, refl))
      | inr (x, xs, e) ↦
          let here : v.reads ≡ x ∷ (xs ++ none ∷ rest) = r ∙ ap (λ b. b ++ none ∷ rest) e in
          rw (long, here, write_payload) (inr (xs, refl, omega (arith, ap length e)))
    ]
  ]

  pub handle-Leaves :
      (calls : SocketCalls S) (rest : List (Option (List ℕ))) (n : ℕ) (msg : IpcMsg) (v : Server S)
      → Ahead rest n v
      → Leaves rest n (handle calls msg v)
  unfolding ipc_socket ipc_connect ipc_write ipc_read ipc_close ipc_poll ipc_fcntl ipc_getsockopt
      ipc_getpeername ipc_getsockname ipc_write_rc ipc_try_send
  handle-Leaves calls rest n msg v a =
      let t = msg.type in
      let p = read_ipc_buffer msg.body in
      let (w, got) = write_payload p v in
      let same : (x : Server S × ℤ) → x.0.reads ≡ v.reads → Leaves rest n x =
        λ x e. same-Leaves rest n v x e a in
      on-Leaves rest n t ipc_socket_type _ _ (same (ipc_socket calls msg v) refl) (
        on-Leaves rest n t ipc_connect_type _ _ (same (ipc_connect calls msg v) refl) (
          on-Leaves rest n t ipc_write_type _ _
            (got-Leaves calls rest n msg.pid p.sockfd v w got (payload-Ahead rest n p v a))
            (on-Leaves rest n t ipc_read_type _ _ (same (ipc_read calls msg v) refl) (
              on-Leaves rest n t ipc_close_type _ _ (same (ipc_close calls msg v) refl) (
                on-Leaves rest n t ipc_poll_type _ _ (same (ipc_poll calls msg v) refl) (
                  on-Leaves rest n t ipc_fcntl_type _ _ (same (ipc_fcntl calls msg v) refl) (
                    on-Leaves rest n t ipc_getsockopt_type _ _
                      (same (ipc_getsockopt calls msg v) refl)
                      (on-Leaves rest n t ipc_getpeername_type _ _
                        (same (ipc_getpeername calls msg v) refl)
                        (on-Leaves rest n t ipc_getsockname_type _ _
                          (same (ipc_getsockname calls msg v) refl) (same (v, pos 0) refl))))))))))
