-- ===== src/Ipc/Thread.antt =====
-- The loop of a connection in src/ipc.c: `demux_ipc_socket_call` and `socket_ipc_open`.
pub mod Answers
pub mod Ahead
pub mod Ends
use hf_ip.Prelude.{
  List, Option, [], if◌then◌else◌, inl, inr, none, some, suc, zero, ℕ, ◌==◌, ◌∷◌, ◌⊎◌,
}
use hf_ip.Prelude.Int.{is_minus_one, pos, ℤ}
use hf_ip.Ipc.{
  IpcMsg, ipc_close_type, ipc_connect_type, ipc_fcntl_type, ipc_getpeername_type,
  ipc_getsockname_type, ipc_getsockopt_type, ipc_poll_type, ipc_read_type, ipc_socket_type,
  ipc_write_type, overlay, read_ipc_msg,
}
use hf_ip.Ipc.Calls.{Server, SocketCalls, ipc_free_thread, kernel_close, kernel_read}
use hf_ip.Ipc.Serve.{
  ipc_close, ipc_connect, ipc_fcntl, ipc_getpeername, ipc_getsockname, ipc_getsockopt, ipc_poll,
  ipc_read, ipc_socket, ipc_write,
}

-- `case expected: return handled`, and the cases after it.
abbrev pub on {ℓ} : {A : Type ℓ} → ℕ → ℕ → A → A → A
on type expected handled others = if type == expected then handled else others

module _ {S : Type 0} (calls : SocketCalls S) where
  -- The switch of `demux_ipc_socket_call`, of which no case is on `IPC_SETSOCKOPT`.
  abbrev pub handle : IpcMsg → Server S → Server S × ℤ
  handle msg v = on msg.type ipc_socket_type (ipc_socket calls msg v) (
      on msg.type ipc_connect_type (ipc_connect calls msg v) (
        on msg.type ipc_write_type (ipc_write calls msg v) (
          on msg.type ipc_read_type (ipc_read calls msg v) (
            on msg.type ipc_close_type (ipc_close calls msg v) (
              on msg.type ipc_poll_type (ipc_poll calls msg v) (
                on msg.type ipc_fcntl_type (ipc_fcntl calls msg v) (
                  on msg.type ipc_getsockopt_type (ipc_getsockopt calls msg v) (
                    on msg.type ipc_getpeername_type (ipc_getpeername calls msg v) (
                      on msg.type ipc_getsockname_type (ipc_getsockname calls msg v)
                        ((v, pos 0)))))))))))

  unfoldable pub demux_ipc_socket_call : List ℕ → Server S → Server S × ℤ
  unfolding read_ipc_msg
  demux_ipc_socket_call cmdbuf v = handle (read_ipc_msg cmdbuf) v

  -- One turn of the loop for what `read` gave: the buffer and the connection of the next turn, or
  -- the connection at the end of the thread. A call that returned -1 closes the connection and
  -- leaves its entry in the list.
  unfoldable pub ipc_turn : ℕ → List ℕ → Option (List ℕ) → Server S → (List ℕ × Server S) ⊎ Server S
  unfolding ipc_free_thread demux_ipc_socket_call kernel_close
  ipc_turn sockfd buf none v = inr (ipc_free_thread sockfd v)
  ipc_turn sockfd buf (some []) v = inr (ipc_free_thread sockfd v)
  ipc_turn sockfd buf (some (b ∷ bytes)) v =
      let cmdbuf = overlay (b ∷ bytes) buf in
      let (w, rc) = demux_ipc_socket_call cmdbuf v in
      if is_minus_one rc then inr (kernel_close sockfd w) else inl (cmdbuf, w)

  -- `none` is a loop that has not ended when the fuel is used up.
  unfoldable pub socket_ipc_open : ℕ → ℕ → List ℕ → Server S → Option (Server S)
  unfolding kernel_read ipc_turn
  socket_ipc_open zero sockfd buf v = none
  socket_ipc_open (suc fuel) sockfd buf v =
      let (w, r) = kernel_read v in
      elim (ipc_turn sockfd buf r w) [
        | inl (cmdbuf, next) ↦ socket_ipc_open fuel sockfd cmdbuf next
        | inr last ↦ some last
      ]
