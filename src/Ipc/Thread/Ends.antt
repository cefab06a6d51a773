-- ===== src/Ipc/Thread/Ends.antt =====
-- The end of a connection's thread in src/ipc.c.
use mathlib.Core.Path.{subst}
use hf_ip.Prelude.{
  Bool-cases, List, List-cases, Option, Option-cases, [], ap, arith, false, inl, inr, length,
  length-append, none, refl, some, suc, sym, zero, ℕ, ◌++◌, ◌<◌, ◌∙◌, ◌∷◌, ◌≡◌, ◌≤◌, ◌⊎◌,
}
use hf_ip.Prelude.Int.{is_minus_one, negsuc, ℤ}
use hf_ip.Ipc.{overlay, read_ipc_msg}
use hf_ip.Ipc.Calls.{
  Server, SocketCalls, ipc_free_thread, kernel_close, kernel_read, next_read, remove_sock,
}
use hf_ip.Ipc.Thread.Ahead.{Ahead, Leaves, handle-Leaves}
use hf_ip.Ipc.Thread.{demux_ipc_socket_call, handle, ipc_turn, socket_ipc_open}

after_fail : (before rest : List (Option (List ℕ))) → length rest ≤ length (before ++ none ∷ rest)
after_fail before rest = omega (arith, length-append before (none ∷ rest))

module _ {S : Type 0} where
  -- The loop has ended, and no `read` was made behind the failed one.
  abbrev Ended : List (Option (List ℕ)) → Option (Server S) → Type 0
  Ended rest o = (w : Server S) × (o ≡ some w) × (length rest ≤ length w.reads)

  free-reads : (sockfd : ℕ) (w : Server S) → (ipc_free_thread sockfd w).reads ≡ w.reads
  unfolding ipc_free_thread kernel_close
  free-reads sockfd w = elim (Option-cases (remove_sock sockfd w.socks)) [
    | inl e ↦ rw (e, ipc_free_thread) refl
    | inr (rest, e) ↦ rw (e, ipc_free_thread) refl
  ]

  -- A turn for a message ends the thread, or the failed `read` is still to come.
  turn-Leaves :
      (calls : SocketCalls S) (rest : List (Option (List ℕ))) (n sockfd : ℕ) (buf bytes : List ℕ)
      (b : ℕ) (v : Server S)
      → Ahead rest n v
      → ((w : Server S) × (ipc_turn calls sockfd buf (some (b ∷ bytes)) v ≡ inr w)
          × (length rest ≤ length w.reads))
        ⊎ ((next : List ℕ × Server S) × (ipc_turn calls sockfd buf (some (b ∷ bytes)) v ≡ inl next)
            × Ahead rest n next.1)
  unfolding ipc_turn demux_ipc_socket_call kernel_close
  turn-Leaves calls rest n sockfd buf bytes b v a =
      let cmdbuf = overlay (b ∷ bytes) buf in
      let (w, rc) = handle calls (read_ipc_msg cmdbuf) v in
      let l : Leaves rest n (w, rc) = handle-Leaves calls rest n (read_ipc_msg cmdbuf) v a in
      elim (Bool-cases (is_minus_one rc)) [
        | inl e ↦ inl (
          kernel_close sockfd w,
          rw (e, ipc_turn) refl,
          elim l [
            | inl (minus, less) ↦ less
            | inr (before, r, h) ↦ omega (arith, after_fail before rest, ap length r)
          ],
        )
        | inr e ↦ inr (
          (cmdbuf, w),
          rw (e, ipc_turn) refl,
          elim l [ inl (minus, less) ↦ absurd (not_minus rc minus e) | inr ahead ↦ ahead ],
        )
      ]
    where
      not_minus : (rc : ℤ) → rc ≡ negsuc 0 → is_minus_one rc ≡ false → ⊥
      not_minus rc p e = absurd (ground (arith, ap is_minus_one p))

  -- The rest of the loop after a turn.
  abbrev rest_of : SocketCalls S → ℕ → ℕ → (List ℕ × Server S) ⊎ Server S → Option (Server S)
  rest_of calls fuel sockfd (inl (cmdbuf, next)) = socket_ipc_open calls fuel sockfd cmdbuf next
  rest_of calls fuel sockfd (inr last) = some last

  loop-rest :
      (calls : SocketCalls S) (fuel sockfd : ℕ) (buf : List ℕ) (v : Server S)
      → let (w, r) = kernel_read v in
        socket_ipc_open calls (suc fuel) sockfd buf v
        ≡ rest_of calls fuel sockfd (ipc_turn calls sockfd buf r w)
  unfolding socket_ipc_open
  loop-rest calls fuel sockfd buf v =
      let (w, r) = kernel_read v in
      elim (turn_cases (ipc_turn calls sockfd buf r w)) [
        | inl ((cmdbuf, next), e) ↦ rw (e, socket_ipc_open) refl
        | inr (last, e) ↦ rw (e, socket_ipc_open) refl
      ]
    where
      turn_cases :
          (x : (List ℕ × Server S) ⊎ Server S)
          → ((n : List ℕ × Server S) × (x ≡ inl n)) ⊎ ((w : Server S) × (x ≡ inr w))
      turn_cases (inl n) = inl (n, refl)
      turn_cases (inr w) = inr (w, refl)

  read-some :
      (v : Server S) (r : Option (List ℕ)) (rs : List (Option (List ℕ)))
      → v.reads ≡ r ∷ rs
      → kernel_read v ≡ (record v { reads = rs }, r)
  unfolding kernel_read
  read-some v r rs e = ap (λ l. let (r, rs) = next_read l in (record v { reads = rs }, r)) e

  turn-Ended :
      (calls : SocketCalls S) (rest : List (Option (List ℕ))) (fuel n sockfd : ℕ) (buf : List ℕ)
      (r : Option (List ℕ)) (w : Server S)
      → Ahead rest n w
      → ((cmdbuf : List ℕ) (next : Server S)
          → Ahead rest n next
          → Ended rest (socket_ipc_open calls fuel sockfd cmdbuf next))
      → Ended rest (rest_of calls fuel sockfd (ipc_turn calls sockfd buf r w))
  unfolding ipc_turn ipc_free_thread
  turn-Ended calls rest fuel n sockfd buf none w (before, r, h) ih =
      (_, refl, omega (arith, after_fail before rest, ap length r, ap length (free-reads sockfd w)))
  turn-Ended calls rest fuel n sockfd buf (some []) w (before, r, h) ih =
      (_, refl, omega (arith, after_fail before rest, ap length r, ap length (free-reads sockfd w)))
  turn-Ended calls rest fuel n sockfd buf (some (b ∷ bytes)) w a ih =
      elim (turn-Leaves calls rest n sockfd buf bytes b w a) [
        | inl (last, e, less) ↦ (last, ap (rest_of calls fuel sockfd) e, less)
        | inr ((cmdbuf, next), e, ahead) ↦
            let (end, same, less) = ih cmdbuf next ahead in
            (end, ap (rest_of calls fuel sockfd) e ∙ same, less)
      ]

  failed-Ended :
      (calls : SocketCalls S) (rest : List (Option (List ℕ))) (fuel sockfd : ℕ) (buf : List ℕ)
      (w : Server S)
      → w.reads ≡ rest
      → Ended rest (rest_of calls fuel sockfd (ipc_turn calls sockfd buf none w))
  unfolding ipc_turn ipc_free_thread
  failed-Ended calls rest fuel sockfd buf w e =
      (_, refl, omega (arith, ap length e, ap length (free-reads sockfd w)))

  -- The thread of a connection ends when a `read` fails, if it has not ended before: it makes no
  -- `read` behind the failed one, and as many turns as there are results of `read` before it and one
  -- more are enough, whatever the messages are and the calls return.
  pub socket_ipc_open-ends :
      (calls : SocketCalls S) (fuel sockfd : ℕ) (buf : List ℕ) (v : Server S)
      (before rest : List (Option (List ℕ)))
      → v.reads ≡ before ++ none ∷ rest
      → length before < fuel
      → (w : Server S) × (socket_ipc_open calls fuel sockfd buf v ≡ some w)
        × (length rest ≤ length w.reads)
  socket_ipc_open-ends calls zero sockfd buf v before rest e h = absurd (omega arith)
  socket_ipc_open-ends calls (suc fuel) sockfd buf v before rest e h =
      let turn : Server S × Option (List ℕ) → Option (Server S) =
        λ x. rest_of calls fuel sockfd (ipc_turn calls sockfd buf x.1 x.0) in
      let step = loop-rest calls fuel sockfd buf v in
      elim (List-cases before) [
        | inl empty ↦
            let here : v.reads ≡ none ∷ rest = e ∙ ap (λ b. b ++ none ∷ rest) empty in
            subst (Ended rest) (sym (step ∙ ap turn (read-some v none rest here)))
              (failed-Ended calls rest fuel sockfd buf (record v { reads = rest }) refl)
        | inr (r, rs, more) ↦
            let here : v.reads ≡ r ∷ (rs ++ none ∷ rest) = e ∙ ap (λ b. b ++ none ∷ rest) more in
            subst (Ended rest) (sym (step ∙ ap turn (read-some v r (rs ++ none ∷ rest) here))) (
              turn-Ended calls rest fuel (length rs) sockfd buf r
                (record v { reads = rs ++ none ∷ rest }) (rs, refl, omega arith)
                (λ cmdbuf next (b2, r2, less).
                  socket_ipc_open-ends calls fuel sockfd cmdbuf next b2 rest r2
                    (omega (arith, ap length more))))
      ]
