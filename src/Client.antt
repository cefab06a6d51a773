-- ===== src/Client.antt =====
-- The library that a program is run with: tools/libhfip.c and tools/libhfip.h. It takes the place
-- of the C library's socket calls, and sends those on the stack's sockets to it. This file has the
-- library's state and the exchange of a message; the calls are in child modules.
pub mod Calls
pub mod Options
pub mod Poll
pub mod Remote
mod Tests
use hf_ip.Prelude.{Bool, List, Option, [], if◌then◌else◌, none, some, ℕ, ◌&&◌, ◌+◌, ◌==◌, ◌∷◌}
use hf_ip.Prelude.Int.{is_minus_one, negsuc, ℤ}
use hf_ip.Ipc.{
  IpcErr, IpcMsg, IpcPollfd, IpcSockname, IpcSockopt, ipc_msg_bytes, overlay, read_ipc_err,
  read_ipc_msg,
}

-- The C library's calls, which the library finds with `dlsym`, over a state `K` of the kernel and
-- of what is behind its sockets. `none` of `k_read` is -1. The calls with a buffer or an array of
-- their caller give it back.
pub record Kernel (K : Type 0) : Type 0 where
  pub k_socket : ℕ → ℕ → ℕ → K → K × ℤ
  pub k_connect : ℕ → List ℕ → ℕ → K → K × ℤ
  pub k_close : ℕ → K → K × ℤ
  pub k_write : ℕ → List ℕ → K → K × ℤ
  pub k_read : ℕ → ℕ → K → K × Option (List ℕ)
  pub k_sendto : ℕ → List ℕ → ℕ → K → K × ℤ
  pub k_recvfrom : ℕ → ℕ → ℕ → List ℕ → K → K × ℤ × List ℕ
  pub k_read_into : ℕ → ℕ → List ℕ → K → K × ℤ × List ℕ
  pub k_poll : List IpcPollfd → ℤ → K → K × ℤ × List IpcPollfd
  pub k_fcntl : ℕ → ℕ → ℕ → K → K × ℤ
  pub k_setsockopt : IpcSockopt → K → K × ℤ
  pub k_getsockopt : IpcSockopt → K → K × ℤ × IpcSockopt
  pub k_getpeername : IpcSockname → K → K × ℤ × IpcSockname
  pub k_getsockname : IpcSockname → K → K × ℤ × IpcSockname

-- `struct hfip_sock`; a freed one can still be in the list.
pub record HfipSock : Type 0 where
  pub hffd : ℕ
  pub fd : ℕ
  pub freed : Bool

-- `stale` is the memory of a message or a buffer before it is written.
pub record Client (K : Type 0) : Type 0 where
  pub kernel : K
  pub pid : ℕ
  pub hfip_socks : List HfipSock
  pub hfip_socks_count : ℤ
  pub errno : ℕ
  pub stale : List ℕ

abbrev pub rcbuf_len : ℕ
rcbuf_len = 512

-- The size of the members of `struct ipc_msg` and `struct ipc_err`.
abbrev pub headers_len : ℕ
headers_len = 6 + 8

unfoldable pub hfip_get_sock : ℕ → List HfipSock → Option HfipSock
hfip_get_sock fd [] = none
hfip_get_sock fd (sock ∷ socks) =
    let rest = hfip_get_sock fd socks in if sock.fd == fd then some sock else rest

-- The bytes that a `read` stored; a failure is only reported.
abbrev pub stored_bytes : Option (List ℕ) → List ℕ
stored_bytes none = []
stored_bytes (some bytes) = bytes

-- `errno = err->err` for a return code of -1.
abbrev pub set_errno : {K : Type 0} → IpcErr → Client K → Client K
set_errno e c = if is_minus_one e.rc then record c { errno = e.err } else c

-- The response is one to the message.
abbrev pub is_response : ℕ → ℕ → IpcMsg → Bool
is_response type pid response = response.type == type && response.pid == pid

-- `transmit_hfip` after its `_read`.
unfoldable pub transmitted : {K : Type 0} → IpcMsg → Client K × List ℕ → Client K × ℤ
unfolding read_ipc_msg read_ipc_err
transmitted msg (c, buf) =
    let response = read_ipc_msg buf in
    let error = read_ipc_err response.body in
    if is_response msg.type msg.pid response then (set_errno error c, error.rc) else (c, negsuc 0)

module _ {K : Type 0} (k : Kernel K) where
  -- `_write` of a message and `_read` of at most `len` bytes into a buffer.
  unfoldable pub exchange : ℕ → List ℕ → ℕ → List ℕ → Client K → Client K × List ℕ
  exchange hffd bytes len buf c =
      let (k1, sent) = k.k_write hffd bytes c.kernel in
      let (k2, got) = k.k_read hffd len k1 in
      (record c { kernel = k2 }, overlay (stored_bytes got) buf)

  unfoldable pub transmit_hfip : ℕ → IpcMsg → Client K → Client K × ℤ
  unfolding exchange ipc_msg_bytes transmitted
  transmit_hfip hffd msg c = transmitted msg (exchange hffd (ipc_msg_bytes msg) rcbuf_len c.stale c)
