-- ===== src/Client/Calls.antt =====
-- The calls of tools/libhfip.c on one socket: `socket`, `close`, `connect`, `write`, `read` and
-- their likes.
use hf_ip.Prelude.{
  Bool, List, Option, [], bit_and, false, if◌then◌else◌, length, ltb, none, not, replicate, some,
  suc, take, true, zero, ℕ, ◌&&◌, ◌++◌, ◌+◌, ◌==◌, ◌||◌, ◌∷◌,
}
use hf_ip.Prelude.Int.{inc, is_minus_one, negsuc, pos, ℤ}
use hf_ip.Word.{bytes16}
use hf_ip.Ipc.{
  IpcBuffer, IpcConnect, IpcErr, IpcMsg, IpcSocket, int_word, ipc_buffer_bytes, ipc_close_bytes,
  ipc_close_type, ipc_connect_bytes, ipc_connect_type, ipc_msg_bytes, ipc_read_type,
  ipc_socket_bytes, ipc_socket_type, ipc_write_type, overlay, read_ipc_buffer, read_ipc_err,
  read_ipc_msg,
}
use hf_ip.Client.{
  Client, HfipSock, Kernel, exchange, headers_len, hfip_get_sock, is_response, transmit_hfip,
}

abbrev af_unix : ℕ
af_unix = 1

abbrev pub af_inet : ℕ
af_inet = 2

abbrev pub sock_stream : ℕ
sock_stream = 1

abbrev ipproto_tcp : ℕ
ipproto_tcp = 6

unfoldable pub is_socket_supported : ℕ → ℕ → ℕ → Bool
is_socket_supported domain type protocol =
    domain == af_inet
    && not (bit_and type sock_stream == 0)
    && (protocol == 0 || protocol == ipproto_tcp)

-- `struct sockaddr_un` of "/tmp/hfip.socket".
abbrev hfip_path : List ℕ
hfip_path =
    47 ∷ 116 ∷ 109 ∷ 112 ∷ 47 ∷ 104 ∷ 102 ∷ 105 ∷ 112 ∷ 46 ∷ 115 ∷ 111 ∷ 99 ∷ 107 ∷ 101 ∷ 116 ∷ []

abbrev sockaddr_un : List ℕ
sockaddr_un = bytes16 af_unix ++ overlay hfip_path (replicate 108 0)

-- The list's entry of a socket, once its fd is known.
abbrev pub set_fd : ℕ → List HfipSock → List HfipSock
set_fd fd [] = []
set_fd fd (sock ∷ []) = record sock { fd = fd } ∷ []
set_fd fd (sock ∷ next ∷ socks) = sock ∷ set_fd fd (next ∷ socks)

abbrev pub set_freed : List HfipSock → List HfipSock
set_freed [] = []
set_freed (sock ∷ []) = record sock { freed = true } ∷ []
set_freed (sock ∷ next ∷ socks) = sock ∷ set_freed (next ∷ socks)

abbrev pub in_kernel : {K : Type 0} → K × ℤ → Client K → Client K × ℤ
in_kernel (s, rc) c = (record c { kernel = s }, rc)

abbrev pub in_kernel_with : {K : Type 0} → K × ℤ × List ℕ → Client K → Client K × ℤ × List ℕ
in_kernel_with (s, rc, a) c = (record c { kernel = s }, rc, a)

abbrev pub ipc_msg : {K : Type 0} → ℕ → Client K → List ℕ → IpcMsg
ipc_msg type c body = record { type = type; pid = c.pid; body = body }

-- What follows the response to `IPC_SOCKET`: a socket that failed is freed in its list.
abbrev pub opened : {K : Type 0} → Client K × ℤ → Client K × ℤ
opened (c, pos fd) = (record c { hfip_socks = set_fd fd c.hfip_socks }, pos fd)
opened (c, negsuc zero) = (record c { hfip_socks = set_freed c.hfip_socks }, negsuc 0)
opened (c, negsuc (suc n)) =
    (record c { hfip_socks = set_fd (int_word (negsuc (suc n))) c.hfip_socks }, negsuc (suc n))

abbrev pub enlist : {K : Type 0} → ℕ → Client K → Client K
enlist hffd c = record c {
  hfip_socks = c.hfip_socks ++ (record { hffd = hffd; fd = 0; freed = false } ∷ []);
  hfip_socks_count = inc c.hfip_socks_count;
}

-- The caller's buffer after a response to `IPC_READ`.
abbrev pub read_data : ℕ → List ℕ → IpcBuffer → ℤ × List ℕ
read_data len buf got =
    if ltb len got.len
    then (negsuc 0, buf)
    else (pos got.len, overlay (take got.len got.buf) (replicate len 0))

unfoldable pub read_result : {K : Type 0} → ℕ → List ℕ → IpcErr → Client K → Client K × ℤ × List ℕ
unfolding read_ipc_buffer
read_result len buf error c = elim error.rc [
  | negsuc n ↦ (record c { errno = error.err }, negsuc n, buf)
  | pos n ↦ let (rc, got) = read_data len buf (read_ipc_buffer error.body) in (c, rc, got)
]

unfoldable pub read_response : {K : Type 0} → ℕ → List ℕ → IpcMsg → Client K → Client K × ℤ × List ℕ
unfolding read_ipc_err read_result
read_response len buf response c = read_result len buf (read_ipc_err response.body) c

unfoldable pub read_answered :
    {K : Type 0} → ℕ → List ℕ → ℕ → Client K × List ℕ → Client K × ℤ × List ℕ
unfolding read_ipc_msg read_response
read_answered len buf pid (c, rbuf) =
    let response = read_ipc_msg rbuf in
    if is_response ipc_read_type pid response
    then read_response len buf response c
    else (c, negsuc 0, buf)

module _ {K : Type 0} (k : Kernel K) where
  -- `none` is the end of the program.
  unfoldable pub init_socket : Client K → Option (Client K × ℕ)
  init_socket c =
      let (k1, fd) = k.k_socket af_unix sock_stream 0 c.kernel in
      elim fd [
        | negsuc n ↦ none
        | pos hffd ↦
            let (k2, rc) = k.k_connect hffd sockaddr_un 110 k1 in
            if is_minus_one rc then none else some (record c { kernel = k2 }, hffd)
      ]

  unfoldable pub socket : ℕ → ℕ → ℕ → Client K → Option (Client K × ℤ)
  unfolding is_socket_supported init_socket transmit_hfip ipc_socket_bytes
  socket domain type protocol c =
      let usersock : IpcSocket = record { domain = domain; type = type; protocol = protocol } in
      if is_socket_supported domain type protocol
      then elim (init_socket c) [
        | none ↦ none
        | some (d, hffd) ↦
            let msg = ipc_msg ipc_socket_type d (ipc_socket_bytes usersock) in
            some (opened (transmit_hfip k hffd msg (enlist hffd d)))
      ]
      else some (in_kernel (k.k_socket domain type protocol c.kernel) c)

  -- The socket stays in the list.
  unfoldable pub close : ℕ → Client K → Client K × ℤ
  unfolding hfip_get_sock transmit_hfip ipc_close_bytes
  close fd c = elim (hfip_get_sock fd c.hfip_socks) [
    | none ↦ in_kernel (k.k_close fd c.kernel) c
    | some sock ↦
        let (d, rc) = transmit_hfip k sock.hffd (ipc_msg ipc_close_type c (ipc_close_bytes fd)) c in
        let (s, closed) = k.k_close sock.hffd d.kernel in (record d { kernel = s }, rc)
  ]

  unfoldable pub connect : ℕ → List ℕ → ℕ → Client K → Client K × ℤ
  unfolding hfip_get_sock transmit_hfip ipc_connect_bytes
  connect sockfd addr addrlen c = elim (hfip_get_sock sockfd c.hfip_socks) [
    | none ↦ in_kernel (k.k_connect sockfd addr addrlen c.kernel) c
    | some sock ↦
        let payload : IpcConnect = record { sockfd = sockfd; addr = addr; addrlen = addrlen } in
        transmit_hfip k sock.hffd (ipc_msg ipc_connect_type c (ipc_connect_bytes payload)) c
  ]

  unfoldable pub write : ℕ → List ℕ → Client K → Client K × ℤ
  unfolding hfip_get_sock transmit_hfip ipc_buffer_bytes
  write sockfd buf c = elim (hfip_get_sock sockfd c.hfip_socks) [
    | none ↦ in_kernel (k.k_write sockfd buf c.kernel) c
    | some sock ↦
        let payload : IpcBuffer = record { sockfd = sockfd; len = length buf; buf = buf } in
        transmit_hfip k sock.hffd (ipc_msg ipc_write_type c (ipc_buffer_bytes payload)) c
  ]

  unfoldable pub read : ℕ → ℕ → List ℕ → Client K → Client K × ℤ × List ℕ
  unfolding hfip_get_sock exchange ipc_msg_bytes ipc_buffer_bytes read_answered
  read sockfd len buf c = elim (hfip_get_sock sockfd c.hfip_socks) [
    | none ↦ in_kernel_with (k.k_read_into sockfd len buf c.kernel) c
    | some sock ↦
        let payload : IpcBuffer = record { sockfd = sockfd; len = len; buf = [] } in
        let msg = ipc_msg ipc_read_type c (ipc_buffer_bytes payload) in
        let rlen = headers_len + 12 + len in
        read_answered len buf c.pid
          (exchange k sock.hffd (ipc_msg_bytes msg) rlen (replicate rlen 0) c)
  ]

  -- `sendto` and `recvfrom` leave out the flags and the address.
  unfoldable pub sendto : ℕ → List ℕ → ℕ → Client K → Client K × ℤ
  unfolding hfip_get_sock write
  sendto fd buf flags c = elim (hfip_get_sock fd c.hfip_socks) [
    | none ↦ in_kernel (k.k_sendto fd buf flags c.kernel) c
    | some sock ↦ write fd buf c
  ]

  unfoldable pub send : ℕ → List ℕ → ℕ → Client K → Client K × ℤ
  unfolding sendto
  send fd buf flags c = sendto fd buf flags c

  unfoldable pub recvfrom : ℕ → ℕ → ℕ → List ℕ → Client K → Client K × ℤ × List ℕ
  unfolding hfip_get_sock read
  recvfrom fd len flags buf c = elim (hfip_get_sock fd c.hfip_socks) [
    | none ↦ in_kernel_with (k.k_recvfrom fd len flags buf c.kernel) c
    | some sock ↦ read fd len buf c
  ]

  unfoldable pub recv : ℕ → ℕ → ℕ → List ℕ → Client K → Client K × ℤ × List ℕ
  unfolding recvfrom
  recv fd len flags buf c = recvfrom fd len flags buf c
