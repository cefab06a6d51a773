-- ===== src/Client/Remote/Control.antt =====
-- `connect` and `close` on a socket of the stack.
use hf_ip.Prelude.{List, [], ap, arith, length, length-append, some, ℕ, ◌<◌, ◌∙◌, ◌≡◌, ◌≤◌}
use hf_ip.Word.{bytes32}
use hf_ip.Ipc.{
  IpcConnect, IpcMsg, ipc_close_bytes, ipc_close_type, ipc_connect_bytes, ipc_connect_type,
  ipc_msg_bytes,
}
use hf_ip.Ipc.Wire.{IsInt, read_ipc_close-bytes, read_ipc_connect-bytes}
use hf_ip.Ipc.Calls.{SocketCalls, ipc_try_send}
use hf_ip.Ipc.Serve.{ipc_buflen, ipc_close, ipc_connect, ipc_write_rc, response}
use hf_ip.Client.{Client, HfipSock, Kernel, hfip_get_sock, transmit_hfip}
use hf_ip.Client.Calls.{close, connect, ipc_msg}
use hf_ip.Client.Remote.Exchange.{behind, serve_short, transmit-Returned}
use hf_ip.Client.Remote.{Idle, Returned, Serves, serve_message}

module _ {S : Type 0} (calls : SocketCalls S) (i : Idle) (pid : ℕ)
    (pid_fits : pid < 4294967296) where
  connect_served :
      (p : IpcConnect) (s : S)
      → p.sockfd < 4294967296
      → length p.addr ≡ 16
      → p.addrlen < 4294967296
      → let (s2, rc) = calls.call_connect pid p.sockfd p.addr p.addrlen s in
        serve_message calls i
          (ipc_msg_bytes
            (record { type = ipc_connect_type; pid = pid; body = ipc_connect_bytes p }))
          s
        ≡ (s2, response ipc_connect_type pid rc [])
  unfolding ipc_connect ipc_write_rc ipc_try_send
  connect_served p s f a l =
      let m : IpcMsg = record { type = ipc_connect_type; pid = pid; body = ipc_connect_bytes p } in
      let n : length (ipc_msg_bytes m) ≤ ipc_buflen =
        unfold ipc_msg_bytes ipc_connect_bytes in
        omega (arith, length-append p.addr (bytes32 p.addrlen)) in
      serve_short calls i m s (omega arith) pid_fits n
      ∙ ap
          (λ (q : IpcConnect).
            let (s2, rc) = calls.call_connect pid q.sockfd q.addr q.addrlen s in
            (s2, response ipc_connect_type pid rc []))
          (read_ipc_connect-bytes p (behind i (ipc_msg_bytes m)) f a l)

  close_served :
      (fd : ℕ) (s : S)
      → fd < 4294967296
      → let (s2, rc) = calls.call_close pid fd s in
        serve_message calls i
          (ipc_msg_bytes (record { type = ipc_close_type; pid = pid; body = ipc_close_bytes fd }))
          s
        ≡ (s2, response ipc_close_type pid rc [])
  unfolding ipc_close ipc_write_rc ipc_try_send
  close_served fd s f =
      let m : IpcMsg = record { type = ipc_close_type; pid = pid; body = ipc_close_bytes fd } in
      let n : length (ipc_msg_bytes m) ≤ ipc_buflen =
        unfold ipc_msg_bytes ipc_close_bytes in omega arith in
      serve_short calls i m s (omega arith) pid_fits n
      ∙ ap (λ q. let (s2, rc) = calls.call_close pid q s in (s2, response ipc_close_type pid rc []))
          (read_ipc_close-bytes fd (behind i (ipc_msg_bytes m)) f)

-- `connect` on a socket of the stack gives what the stack's `_connect` of the same process,
-- descriptor and address returns: its code, or -1 and the error number, and the stack is as that
-- call leaves it.
pub connect_remote :
    {K S : Type 0} (calls : SocketCalls S) (k : Kernel K) (stack : K → S) (i : Idle) (sockfd : ℕ)
    (addr : List ℕ) (addrlen : ℕ) (c : Client K) (sock : HfipSock)
    → hfip_get_sock sockfd c.hfip_socks ≡ some sock
    → Serves calls k stack i sock.hffd
    → c.pid < 4294967296
    → sockfd < 4294967296
    → length addr ≡ 16
    → addrlen < 4294967296
    → IsInt (calls.call_connect c.pid sockfd addr addrlen (stack c.kernel)).1
    → Returned stack c
        (calls.call_connect c.pid sockfd addr addrlen (stack c.kernel))
        (connect k sockfd addr addrlen c)
unfolding connect
connect_remote calls k stack i sockfd addr addrlen c sock e w p f a l h =
    let call = calls.call_connect c.pid sockfd addr addrlen (stack c.kernel) in
    let payload : IpcConnect = record { sockfd = sockfd; addr = addr; addrlen = addrlen } in
    rw (e, connect)
      (transmit-Returned calls k stack i sock.hffd
        (ipc_msg ipc_connect_type c (ipc_connect_bytes payload)) c call.0 call.1 w
        (connect_served calls i c.pid p payload (stack c.kernel) f a l) (omega arith) p h)

-- `close` on a socket of the stack gives what the stack's `_close` returns, and the library's list
-- still has the socket. The condition is that the kernel's `close` of the connection itself does
-- not change the stack.
pub close_remote :
    {K S : Type 0} (calls : SocketCalls S) (k : Kernel K) (stack : K → S) (i : Idle) (fd : ℕ)
    (c : Client K) (sock : HfipSock)
    → hfip_get_sock fd c.hfip_socks ≡ some sock
    → Serves calls k stack i sock.hffd
    → ((s : K) → stack (k.k_close sock.hffd s).0 ≡ stack s)
    → c.pid < 4294967296
    → fd < 4294967296
    → IsInt (calls.call_close c.pid fd (stack c.kernel)).1
    → Returned stack c (calls.call_close c.pid fd (stack c.kernel)) (close k fd c)
unfolding close
close_remote calls k stack i fd c sock e w gone p f h =
    let call = calls.call_close c.pid fd (stack c.kernel) in
    let m = ipc_msg ipc_close_type c (ipc_close_bytes fd) in
    let r =
      transmit-Returned calls k stack i sock.hffd m c call.0 call.1 w
        (close_served calls i c.pid p fd (stack c.kernel) f) (omega arith) p h in
    rw (e, close)
      (record {
        rc = r.rc;
        errno = r.errno;
        stack_after = gone (transmit_hfip k sock.hffd m c).0.kernel ∙ r.stack_after;
        socks = r.socks;
      })
