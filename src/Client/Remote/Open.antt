-- ===== src/Client/Remote/Open.antt =====
-- A program's `socket` on the stack.
use hf_ip.Prelude.{
  List, [], ap, arith, false, length, refl, some, true, ℕ, ◌++◌, ◌<◌, ◌∙◌, ◌∷◌, ◌≡◌, ◌≤◌,
}
use hf_ip.Prelude.Int.{negsuc, pos, ℤ}
use hf_ip.Ipc.{IpcMsg, IpcSocket, ipc_msg_bytes, ipc_socket_bytes, ipc_socket_type}
use hf_ip.Ipc.Wire.{IsInt, read_ipc_socket-bytes}
use hf_ip.Ipc.Calls.{SocketCalls, ipc_try_send}
use hf_ip.Client.{Client, HfipSock, Kernel, transmit_hfip}
use hf_ip.Client.Calls.{
  enlist, init_socket, ipc_msg, is_socket_supported, opened, set_fd, set_freed, socket,
}
use hf_ip.Client.Remote.Exchange.{behind, serve_short, transmit-Returned}
use hf_ip.Client.Remote.{Idle, Returned, Serves, errno_after, returned, serve_message}
use hf_ip.Ipc.Serve.{ipc_buflen, ipc_socket, ipc_write_rc, response}

module _ {S : Type 0} (calls : SocketCalls S) (i : Idle) (pid : ℕ)
    (pid_fits : pid < 4294967296) where
  socket_served :
      (p : IpcSocket) (s : S)
      → p.domain < 4294967296
      → p.type < 4294967296
      → p.protocol < 4294967296
      → let (s2, rc) = calls.call_socket pid p.domain p.type p.protocol s in
        serve_message calls i
          (ipc_msg_bytes (record { type = ipc_socket_type; pid = pid; body = ipc_socket_bytes p }))
          s
        ≡ (s2, response ipc_socket_type pid rc [])
  unfolding ipc_socket ipc_write_rc ipc_try_send
  socket_served p s f a l =
      let m : IpcMsg = record { type = ipc_socket_type; pid = pid; body = ipc_socket_bytes p } in
      let n : length (ipc_msg_bytes m) ≤ ipc_buflen =
        unfold ipc_msg_bytes ipc_socket_bytes in omega arith in
      serve_short calls i m s (omega arith) pid_fits n
      ∙ ap
          (λ (q : IpcSocket).
            let (s2, rc) = calls.call_socket pid q.domain q.type q.protocol s in
            (s2, response ipc_socket_type pid rc []))
          (read_ipc_socket-bytes p (behind i (ipc_msg_bytes m)) f a l)

-- The library's entry of a new socket: one whose call failed is freed and stays in the list.
abbrev pub entry_after : ℕ → ℤ → HfipSock
entry_after hffd (pos fd) = record { hffd = hffd; fd = fd; freed = false }
entry_after hffd (negsuc n) = record { hffd = hffd; fd = 0; freed = true }

pub set_fd-last :
    (fd hffd : ℕ) (socks : List HfipSock)
    → set_fd fd (socks ++ (record { hffd = hffd; fd = 0; freed = false } ∷ []))
      ≡ socks ++ (record { hffd = hffd; fd = fd; freed = false } ∷ [])
set_fd-last fd hffd [] = refl
set_fd-last fd hffd (x ∷ []) = refl
set_fd-last fd hffd (x ∷ y ∷ socks) = ap (λ r. x ∷ r) (set_fd-last fd hffd (y ∷ socks))

pub set_freed-last :
    (hffd : ℕ) (socks : List HfipSock)
    → set_freed (socks ++ (record { hffd = hffd; fd = 0; freed = false } ∷ []))
      ≡ socks ++ (record { hffd = hffd; fd = 0; freed = true } ∷ [])
set_freed-last hffd [] = refl
set_freed-last hffd (x ∷ []) = refl
set_freed-last hffd (x ∷ y ∷ socks) = ap (λ r. x ∷ r) (set_freed-last hffd (y ∷ socks))

-- What the library has after a call of `socket` that the stack was asked for.
pub record Opened {K S : Type 0} (stack : K → S) (c : Client K) (hffd : ℕ) (call : S × ℤ)
    (result : Client K × ℤ) : Type 0 where
  pub rc : result.1 ≡ returned call.1
  pub errno : result.0.errno ≡ errno_after call.1 c.errno
  pub stack_after : stack result.0.kernel ≡ call.0
  pub socks : result.0.hfip_socks ≡ c.hfip_socks ++ (entry_after hffd call.1 ∷ [])

pub opened-Opened :
    {K S : Type 0} (stack : K → S) (c : Client K) (hffd : ℕ) (s : S) (rc : ℤ) (d : Client K) (r : ℤ)
    → Returned stack (enlist hffd c) (s, rc) (d, r)
    → Opened stack c hffd (s, rc) (opened (d, returned rc))
opened-Opened stack c hffd s (pos fd) d r x = record {
  rc = refl;
  errno = x.errno;
  stack_after = x.stack_after;
  socks = ap (set_fd fd) x.socks ∙ set_fd-last fd hffd c.hfip_socks;
}
opened-Opened stack c hffd s (negsuc n) d r x = record {
  rc = refl;
  errno = x.errno;
  stack_after = x.stack_after;
  socks = ap set_freed x.socks ∙ set_freed-last hffd c.hfip_socks;
}

-- `socket` of a supported kind, once the library has a connection to the stack, gives what the
-- stack's `_socket` returns: a descriptor, which the new entry of the library's list has, or -1
-- and the error number. A call that fails leaves a freed entry in the list.
pub socket_remote :
    {K S : Type 0} (calls : SocketCalls S) (k : Kernel K) (stack : K → S) (i : Idle)
    (domain type protocol hffd : ℕ) (c d : Client K)
    → is_socket_supported domain type protocol ≡ true
    → init_socket k c ≡ some (d, hffd)
    → Serves calls k stack i hffd
    → d.pid < 4294967296
    → domain < 4294967296
    → type < 4294967296
    → protocol < 4294967296
    → IsInt (calls.call_socket d.pid domain type protocol (stack d.kernel)).1
    → (result : Client K × ℤ) × (socket k domain type protocol c ≡ some result)
      × Opened stack d hffd (calls.call_socket d.pid domain type protocol (stack d.kernel)) result
unfolding socket
socket_remote calls k stack i domain type protocol hffd c d sup e w p f1 f2 f3 h =
    let call = calls.call_socket d.pid domain type protocol (stack d.kernel) in
    let usersock : IpcSocket = record { domain = domain; type = type; protocol = protocol } in
    let m = ipc_msg ipc_socket_type d (ipc_socket_bytes usersock) in
    let t = transmit_hfip k hffd m (enlist hffd d) in
    let r =
      transmit-Returned calls k stack i hffd m (enlist hffd d) call.0 call.1 w
        (socket_served calls i d.pid p usersock (stack d.kernel) f1 f2 f3) (omega arith) p h in
    (
      opened (t.0, returned call.1),
      rw (sup, e) (ap (λ z. some (opened (t.0, z))) r.rc),
      opened-Opened stack d hffd call.0 call.1 t.0 t.1 r,
    )
