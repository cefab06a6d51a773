-- ===== src/Ipc/Calls.antt =====
-- What the handlers of src/ipc.c work with: the socket calls of include/socket.h, which are an
-- interface of theirs, and the connection to the program.
use hf_ip.Prelude.{List, Option, [], if◌then◌else◌, none, some, ℕ, ◌++◌, ◌==◌, ◌∷◌}
use hf_ip.Prelude.Int.{dec, inc, ℤ}
use hf_ip.Ipc.{IpcPollfd, IpcSockname, IpcSockopt}

-- `_socket` and its likes over a state `S` of the stack. The pid is the first argument. A call
-- that fills memory of its caller gives the bytes that it stores there, and `poll` gives the
-- array back.
pub record SocketCalls (S : Type 0) : Type 0 where
  pub call_socket : ℕ → ℕ → ℕ → ℕ → S → S × ℤ
  pub call_connect : ℕ → ℕ → List ℕ → ℕ → S → S × ℤ
  pub call_write : ℕ → ℕ → List ℕ → S → S × ℤ
  pub call_read : ℕ → ℕ → ℕ → S → S × ℤ × List ℕ
  pub call_close : ℕ → ℕ → S → S × ℤ
  pub call_poll : ℕ → List IpcPollfd → ℤ → S → S × ℤ × List IpcPollfd
  pub call_fcntl : ℕ → ℕ → ℕ → ℕ → S → S × ℤ
  pub call_getsockopt : ℕ → IpcSockopt → S → S × ℤ × IpcSockopt
  pub call_getpeername : ℕ → ℕ → IpcSockname → S → S × ℤ × IpcSockname
  pub call_getsockname : ℕ → ℕ → IpcSockname → S → S × ℤ × IpcSockname

-- `reads` has the results of the coming `read`s on the connection, and `none` is -1; after them
-- the other end is closed. `sends` has what was sent on it. `stale` is the memory of a response
-- before it is written. `socks` and `socket_count` are the list of `struct ipc_thread`.
pub record Server (S : Type 0) : Type 0 where
  pub stack : S
  pub reads : List (Option (List ℕ))
  pub sends : List (List ℕ)
  pub stale : IpcSockname
  pub closed : List ℕ
  pub socks : List ℕ
  pub socket_count : ℤ

abbrev pub next_read : List (Option (List ℕ)) → Option (List ℕ) × List (Option (List ℕ))
next_read [] = (some [], [])
next_read (r ∷ rs) = (r, rs)

abbrev behind : ℕ → Option (List ℕ) → Option (List ℕ)
behind x none = none
behind x (some xs) = some (x ∷ xs)

abbrev pub remove_sock : ℕ → List ℕ → Option (List ℕ)
remove_sock sock [] = none
remove_sock sock (x ∷ xs) =
    let rest = behind x (remove_sock sock xs) in if x == sock then some xs else rest

module _ {S : Type 0} where
  -- `read` on the connection.
  unfoldable pub kernel_read : Server S → Server S × Option (List ℕ)
  kernel_read v = let (r, rs) = next_read v.reads in (record v { reads = rs }, r)

  -- A failed `send` is only reported.
  unfoldable pub ipc_try_send : List ℕ → Server S → Server S
  ipc_try_send bytes v = record v { sends = v.sends ++ (bytes ∷ []) }

  unfoldable pub kernel_close : ℕ → Server S → Server S
  kernel_close sock v = record v { closed = v.closed ++ (sock ∷ []) }

  unfoldable pub ipc_alloc_thread : ℕ → Server S → Server S
  ipc_alloc_thread sock v = record v {
    socks = v.socks ++ (sock ∷ []);
    socket_count = inc v.socket_count;
  }

  -- The first thread of the socket leaves the list, and the socket is closed.
  unfoldable pub ipc_free_thread : ℕ → Server S → Server S
  unfolding kernel_close
  ipc_free_thread sock v = elim (remove_sock sock v.socks) [
    | none ↦ v
    | some rest ↦ record (kernel_close sock v) { socks = rest; socket_count = dec v.socket_count }
  ]
