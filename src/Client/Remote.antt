-- ===== src/Client/Remote.antt =====
-- A call of the library and the stack's handler of it, together: a program gets what the socket
-- call of the stack returns.
pub mod Open
pub mod Exchange
pub mod Control
use hf_ip.Prelude.{List, [], drop, some, suc, take, ℕ, ◌++◌, ◌∷◌, ◌≡◌}
use hf_ip.Prelude.Int.{negsuc, pos, ℤ}
use hf_ip.Ipc.{IpcSockname, overlay}
use hf_ip.Ipc.Calls.{Server, SocketCalls}
use hf_ip.Ipc.Serve.{ipc_buflen}
use hf_ip.Ipc.Thread.{demux_ipc_socket_call}
use hf_ip.Client.{Client, Kernel}

-- A connection of the stack that has the rest of a message still to read, and its old buffer.
pub record Idle : Type 0 where
  pub stale : IpcSockname
  pub buffer : List ℕ

abbrev pub server_of : {S : Type 0} → Idle → List ℕ → S → Server S
server_of i rest s = record {
  stack = s;
  reads = some rest ∷ [];
  sends = [];
  stale = i.stale;
  closed = [];
  socks = [];
  socket_count = pos 0;
}

abbrev pub all_sent : List (List ℕ) → List ℕ
all_sent [] = []
all_sent (bytes ∷ []) = bytes
all_sent (bytes ∷ next ∷ more) = bytes ++ all_sent (next ∷ more)

-- What the thread of a connection makes of one message: its first `read` gives at most a buffer,
-- and the next one the rest.
unfoldable pub serve_message : {S : Type 0} → SocketCalls S → Idle → List ℕ → S → S × List ℕ
unfolding demux_ipc_socket_call
serve_message calls i bytes s =
    let (v, rc) =
      demux_ipc_socket_call calls (overlay (take ipc_buflen bytes) i.buffer)
        (server_of i (drop ipc_buflen bytes) s) in
    (v.stack, all_sent v.sends)

-- The kernel carries a message that is written to the socket `hffd` to the stack, and the next
-- `read` gives what the stack has sent back, as far as it fits.
pub record Serves {K S : Type 0} (calls : SocketCalls S) (k : Kernel K) (stack : K → S) (i : Idle)
    (hffd : ℕ) : Type 0 where
  pub got :
      (s : K) (bytes : List ℕ) (len : ℕ)
      → (k.k_read hffd len (k.k_write hffd bytes s).0).1
        ≡ some (take len (serve_message calls i bytes (stack s)).1)
  pub changed :
      (s : K) (bytes : List ℕ) (len : ℕ)
      → stack (k.k_read hffd len (k.k_write hffd bytes s).0).0
        ≡ (serve_message calls i bytes (stack s)).0

-- C's convention of a system call: -1 and an error number for a negative code.
abbrev pub returned : ℤ → ℤ
returned (pos n) = pos n
returned (negsuc n) = negsuc 0

abbrev pub errno_after : ℤ → ℕ → ℕ
errno_after (pos n) old = old
errno_after (negsuc n) old = suc n

-- What a program gets of a call of the stack: its return code, as C gives it, and its error
-- number. `s` and `rc` are the stack's state after the call and the call's return code, `d` and
-- `r` the library's state and its return code.
pub record Returned {K S : Type 0} (stack : K → S) (c : Client K) (call : S × ℤ)
    (result : Client K × ℤ) : Type 0 where
  pub rc : result.1 ≡ returned call.1
  pub errno : result.0.errno ≡ errno_after call.1 c.errno
  pub stack_after : stack result.0.kernel ≡ call.0
  pub socks : result.0.hfip_socks ≡ c.hfip_socks
