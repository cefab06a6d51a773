-- ===== src/Ipc/Serve.antt =====
-- The handlers of src/ipc.c: each reads its request from the buffer, makes the socket call and
-- sends a response. They return the C functions' return code.
use hf_ip.Prelude.{
  List, Option, [], if◌then◌else◌, ltb, min, none, replicate, some, suc, take, ℕ, ◌++◌, ◌-◌, ◌==◌,
}
use hf_ip.Prelude.Int.{neg, negsuc, pos, ℤ}
use hf_ip.Word.{u32}
use hf_ip.Packet.{at32}
use hf_ip.Ipc.{
  IpcBuffer, IpcErr, IpcFcntl, IpcMsg, IpcSockname, int_size, ipc_buffer_bytes, ipc_close_type,
  ipc_connect_type, ipc_err_bytes, ipc_fcntl_type, ipc_getpeername_type, ipc_getsockname_type,
  ipc_getsockopt_type, ipc_msg_bytes, ipc_poll_type, ipc_pollfds_bytes, ipc_read_type,
  ipc_socket_type, ipc_sockname_bytes, ipc_sockopt_bytes, ipc_write_type, overlay, read_ipc_buffer,
  read_ipc_close, read_ipc_connect, read_ipc_fcntl, read_ipc_poll, read_ipc_socket,
  read_ipc_sockname, read_ipc_sockopt,
}
use hf_ip.Ipc.Calls.{Server, SocketCalls, ipc_try_send, kernel_read}

abbrev pub ipc_buflen : ℕ
ipc_buflen = 8192

abbrev einval : ℤ
einval = neg 22

abbrev pub f_getfl : ℕ
f_getfl = 3

abbrev pub f_setfl : ℕ
f_setfl = 4

-- `struct ipc_err` of a return code: a negative code is -1 with the error number.
abbrev pub ipc_err : ℤ → IpcErr
ipc_err (pos n) = record { rc = pos n; err = 0; body = [] }
ipc_err (negsuc n) = record { rc = negsuc 0; err = suc n; body = [] }

-- A message whose body is a return code, and then `body`.
abbrev pub response : ℕ → ℕ → ℤ → List ℕ → List ℕ
response type pid rc body =
    ipc_msg_bytes (record {
      type = type;
      pid = pid;
      body = ipc_err_bytes (record (ipc_err rc) { body = body });
    })

-- `rlen > 0 ? rlen : 0`
abbrev pub filled : ℤ → ℕ
filled (pos n) = n
filled (negsuc n) = 0

-- The connection after a call, which has changed the stack.
abbrev pub after_call : {S : Type 0} → S × ℤ → Server S → Server S × ℤ
after_call (s, rc) v = (record v { stack = s }, rc)

-- What of the payload is in the buffer after the headers.
abbrev pub write_head : ℕ
write_head = ipc_buflen - 12 - 6

-- The payload of `len` bytes whose front is in the buffer, after one more `read`.
abbrev pub whole : ℕ → List ℕ → Option (List ℕ) → Option (List ℕ)
whole len front none = none
whole len front (some bytes) =
    some (overlay (front ++ take (len - write_head) bytes) (replicate len 0))

-- The guard for a payload that is longer than the buffer: its tail takes a `read` of its own.
unfoldable pub write_payload : {S : Type 0} → IpcBuffer → Server S → Server S × Option (List ℕ)
unfolding kernel_read
write_payload payload v =
    let front = take (min payload.len write_head) payload.buf in
    let (w, r) = kernel_read v in
    if ltb write_head payload.len then (w, whole payload.len front r) else (v, some front)

-- `ipc_getpeername` and `ipc_getsockname`, which differ in the call and the type alone.
abbrev pub sockname_response :
    {S : Type 0}
    → ℕ
    → (ℕ → ℕ → IpcSockname → S → S × ℤ × IpcSockname)
    → IpcMsg
    → Server S
    → Server S × ℤ
sockname_response type call msg v =
    let name = read_ipc_sockname msg.body in
    let (s, rc, filled) = call msg.pid name.socket v.stale v.stack in
    let nameres = record filled { socket = name.socket } in
    (
      ipc_try_send (response type msg.pid rc (ipc_sockname_bytes nameres)) (record v { stack = s }),
      rc,
    )

module _ {S : Type 0} (calls : SocketCalls S) where
  unfoldable pub ipc_write_rc : ℕ → ℕ → Server S × ℤ → Server S × ℤ
  unfolding ipc_msg_bytes ipc_err_bytes ipc_try_send
  ipc_write_rc pid type (v, rc) = (ipc_try_send (response type pid rc []) v, pos 0)

  unfoldable pub ipc_read : IpcMsg → Server S → Server S × ℤ
  unfolding read_ipc_buffer ipc_msg_bytes ipc_err_bytes ipc_buffer_bytes ipc_try_send
  ipc_read msg v =
      let requested = read_ipc_buffer msg.body in
      let n = requested.len in
      let (s, rlen, stored) = calls.call_read msg.pid requested.sockfd (u32 n) v.stack in
      let rbuf = overlay stored (replicate n 0) in
      let actual : IpcBuffer = record {
        sockfd = requested.sockfd;
        len = int_size rlen;
        buf = take (filled rlen) rbuf;
      } in
      (
        ipc_try_send (response ipc_read_type msg.pid rlen (ipc_buffer_bytes actual))
            (record v { stack = s }),
        pos 0,
      )

  unfoldable pub write_got : ℕ → ℕ → Server S × Option (List ℕ) → Server S × ℤ
  unfolding ipc_write_rc
  write_got pid sockfd (w, none) = (w, negsuc 0)
  write_got pid sockfd (w, some buf) =
      ipc_write_rc pid ipc_write_type (after_call (calls.call_write pid sockfd buf w.stack) w)

  unfoldable pub ipc_write : IpcMsg → Server S → Server S × ℤ
  unfolding read_ipc_buffer write_payload write_got
  ipc_write msg v =
      let payload = read_ipc_buffer msg.body in
      write_got msg.pid payload.sockfd (write_payload payload v)

  unfoldable pub ipc_connect : IpcMsg → Server S → Server S × ℤ
  unfolding read_ipc_connect ipc_write_rc
  ipc_connect msg v =
      let payload = read_ipc_connect msg.body in
      ipc_write_rc msg.pid ipc_connect_type (
        after_call (calls.call_connect msg.pid payload.sockfd payload.addr payload.addrlen v.stack)
          v)

  unfoldable pub ipc_socket : IpcMsg → Server S → Server S × ℤ
  unfolding read_ipc_socket ipc_write_rc
  ipc_socket msg v =
      let sock = read_ipc_socket msg.body in
      ipc_write_rc msg.pid ipc_socket_type
        (after_call (calls.call_socket msg.pid sock.domain sock.type sock.protocol v.stack) v)

  unfoldable pub ipc_close : IpcMsg → Server S → Server S × ℤ
  unfolding read_ipc_close ipc_write_rc
  ipc_close msg v =
      ipc_write_rc msg.pid ipc_close_type
        (after_call (calls.call_close msg.pid (read_ipc_close msg.body) v.stack) v)

  unfoldable pub ipc_poll : IpcMsg → Server S → Server S × ℤ
  unfolding read_ipc_poll ipc_msg_bytes ipc_err_bytes ipc_pollfds_bytes ipc_try_send
  ipc_poll msg v =
      let polled = read_ipc_poll msg.body in
      let (s, rc, fds) = calls.call_poll msg.pid polled.fds polled.timeout v.stack in
      (
        ipc_try_send (response ipc_poll_type msg.pid rc (ipc_pollfds_bytes fds))
            (record v { stack = s }),
        pos 0,
      )

  -- `F_GETFL` has no third argument; the 0 is not read.
  abbrev fcntl_switch : ℕ → IpcFcntl → S → S × ℤ
  fcntl_switch pid fc s =
      if fc.cmd == f_getfl
      then calls.call_fcntl pid fc.sockfd fc.cmd 0 s
      else (if fc.cmd == f_setfl
          then calls.call_fcntl pid fc.sockfd fc.cmd (at32 fc.body 0) s
          else (s, einval))

  unfoldable pub ipc_fcntl : IpcMsg → Server S → Server S × ℤ
  unfolding read_ipc_fcntl ipc_write_rc
  ipc_fcntl msg v =
      ipc_write_rc msg.pid ipc_fcntl_type
        (after_call (fcntl_switch msg.pid (read_ipc_fcntl msg.body) v.stack) v)

  unfoldable pub ipc_getsockopt : IpcMsg → Server S → Server S × ℤ
  unfolding read_ipc_sockopt ipc_msg_bytes ipc_err_bytes ipc_sockopt_bytes ipc_try_send
  ipc_getsockopt msg v =
      let asked = read_ipc_sockopt msg.body in
      let (s, rc, opts) = calls.call_getsockopt msg.pid asked v.stack in
      let optres = record opts { optval = take opts.optlen opts.optval } in
      (
        ipc_try_send (response ipc_getsockopt_type msg.pid rc (ipc_sockopt_bytes optres))
            (record v { stack = s }),
        rc,
      )

  unfoldable pub ipc_getpeername : IpcMsg → Server S → Server S × ℤ
  unfolding read_ipc_sockname ipc_msg_bytes ipc_err_bytes ipc_sockname_bytes ipc_try_send
  ipc_getpeername msg v = sockname_response ipc_getpeername_type calls.call_getpeername msg v

  unfoldable pub ipc_getsockname : IpcMsg → Server S → Server S × ℤ
  unfolding read_ipc_sockname ipc_msg_bytes ipc_err_bytes ipc_sockname_bytes ipc_try_send
  ipc_getsockname msg v = sockname_response ipc_getsockname_type calls.call_getsockname msg v
