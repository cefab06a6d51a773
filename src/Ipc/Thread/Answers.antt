-- ===== src/Ipc/Thread/Answers.antt =====
-- What the handlers of src/ipc.c send: one response to a request.
use hf_ip.Prelude.{Bool, List, [], false, length, none, ℕ, ◌++◌, ◌==◌, ◌||◌, ◌∷◌, ◌≡◌, ◌≤◌, ◌⊎◌}
use hf_ip.Prelude.Int.{negsuc, ℤ}
use hf_ip.Ipc.{
  ipc_close_type, ipc_connect_type, ipc_fcntl_type, ipc_getpeername_type, ipc_getsockname_type,
  ipc_getsockopt_type, ipc_poll_type, ipc_read_type, ipc_socket_type, ipc_write_type,
}
use hf_ip.Ipc.Calls.{Server, kernel_read}
use hf_ip.Ipc.Serve.{response}

-- The connection after a request of a type and a process: a response of the same type and process
-- is sent, or, for a write whose further `read` fails, the result is -1 and nothing is sent. Nothing
-- is put before what is still to read.
pub record Answers {S : Type 0} (type pid : ℕ) (v : Server S) (result : Server S × ℤ) : Type 0 where
  pub reads : length result.0.reads ≤ length v.reads
  pub sends :
      ((rc : ℤ) × (body : List ℕ) × (result.0.sends ≡ v.sends ++ (response type pid rc body ∷ [])))
      ⊎ ((type ≡ ipc_write_type)
          × ((kernel_read v).1 ≡ none)
          × (result.1 ≡ negsuc 0)
          × (result.0.sends ≡ v.sends))

-- The types of `demux_ipc_socket_call`.
abbrev pub is_request : ℕ → Bool
is_request t =
    t == ipc_socket_type
    || (t == ipc_connect_type
        || (t == ipc_write_type
            || (t == ipc_read_type
                || (t == ipc_close_type
                    || (t == ipc_poll_type
                        || (t == ipc_fcntl_type
                            || (t == ipc_getsockopt_type
                                || (t == ipc_getpeername_type
                                    || (t == ipc_getsockname_type || false)))))))))
