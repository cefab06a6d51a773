-- ===== src/Client/Options.antt =====
-- The calls of tools/libhfip.c on a socket's options, names and flags.
use hf_ip.Prelude.{List, [], if◌then◌else◌, none, replicate, some, suc, take, ℕ, ◌+◌, ◌==◌}
use hf_ip.Prelude.Int.{is_zero, neg, negsuc, pos, ℤ}
use hf_ip.Word.{bytes32}
use hf_ip.Packet.{at32}
use hf_ip.Ipc.{
  IpcErr, IpcFcntl, IpcMsg, IpcSockname, IpcSockopt, int_word, ipc_fcntl_bytes, ipc_fcntl_type,
  ipc_getpeername_type, ipc_getsockname_type, ipc_getsockopt_type, ipc_msg_bytes,
  ipc_sockname_bytes, ipc_sockopt_bytes, overlay, read_ipc_err, read_ipc_msg, read_ipc_sockname,
  read_ipc_sockopt, word_int,
}
use hf_ip.Ipc.Serve.{f_getfl, f_setfl}
use hf_ip.Client.{
  Client, HfipSock, Kernel, exchange, headers_len, hfip_get_sock, is_response, transmit_hfip,
}
use hf_ip.Client.Calls.{in_kernel, ipc_msg}

-- `-n` of an `int`.
abbrev minus : ℤ → ℤ
minus (pos n) = neg n
minus (negsuc n) = pos (suc n)

-- `val *= -1`, and `*(int *)optval = val`.
abbrev store_negated : IpcSockopt → IpcSockopt → IpcSockopt
store_negated optres opts = record opts {
  optlen = optres.optlen;
  optval = overlay (bytes32 (int_word (minus (word_int (at32 optres.optval 0))))) opts.optval;
}

-- `error->rc != 0` is a failure.
abbrev option_response : {K : Type 0} → IpcSockopt → IpcErr → Client K → Client K × ℤ × IpcSockopt
unfolding read_ipc_sockopt
option_response opts error c =
    if is_zero error.rc
    then (c, pos 0, store_negated (read_ipc_sockopt error.body) opts)
    else (record c { errno = error.err }, error.rc, opts)

abbrev name_response : {K : Type 0} → IpcSockname → IpcErr → Client K → Client K × ℤ × IpcSockname
unfolding read_ipc_sockname
name_response name error c =
    let nameres = read_ipc_sockname error.body in
    let taken = overlay (take nameres.address_len nameres.sa_data) name.sa_data in
    if is_zero error.rc
    then (c, pos 0, record name { address_len = nameres.address_len; sa_data = taken })
    else (record c { errno = error.err }, error.rc, name)

-- The third argument of `fcntl` in the memory behind `struct ipc_fcntl`, which has room for a
-- `struct flock` and an `int`.
abbrev fcntl_data : {K : Type 0} → Client K → List ℕ → List ℕ
fcntl_data c flags = overlay flags (take 36 (overlay c.stale (replicate 36 0)))

module _ {K : Type 0} (k : Kernel K) where
  -- On the stack's sockets no option is set.
  unfoldable pub setsockopt : IpcSockopt → Client K → Client K × ℤ
  unfolding hfip_get_sock
  setsockopt opts c = elim (hfip_get_sock opts.fd c.hfip_socks) [
    | none ↦ in_kernel (k.k_setsockopt opts c.kernel) c
    | some sock ↦ (c, pos 0)
  ]

  -- `opts` has the arguments, and `optval` and `optlen` after the call.
  unfoldable pub getsockopt : IpcSockopt → Client K → Client K × ℤ × IpcSockopt
  unfolding hfip_get_sock exchange ipc_msg_bytes ipc_sockopt_bytes read_ipc_msg read_ipc_err
      read_ipc_sockopt
  getsockopt opts c = elim (hfip_get_sock opts.fd c.hfip_socks) [
    | none ↦ let (s, rc, got) = k.k_getsockopt opts c.kernel in (record c { kernel = s }, rc, got)
    | some sock ↦
        let asked = record opts { optval = take opts.optlen opts.optval } in
        let msg = ipc_msg ipc_getsockopt_type c (ipc_sockopt_bytes asked) in
        let rlen = headers_len + 16 + opts.optlen in
        let (d, rbuf) = exchange k sock.hffd (ipc_msg_bytes msg) rlen (replicate rlen 0) c in
        let answer = read_ipc_msg rbuf in
        if is_response ipc_getsockopt_type c.pid answer
        then option_response opts (read_ipc_err answer.body) d
        else (d, negsuc 0, opts)
  ]

  -- `getpeername` and `getsockname` once the socket is found, which differ in the type alone.
  -- `name` has the socket, and the address and its length after the call.
  unfoldable pub ask_name : ℕ → HfipSock → IpcSockname → Client K → Client K × ℤ × IpcSockname
  unfolding exchange ipc_msg_bytes ipc_sockname_bytes read_ipc_msg read_ipc_err read_ipc_sockname
  ask_name type sock name c =
      let sent = take 136 (overlay (bytes32 name.socket) (overlay c.stale (replicate 136 0))) in
      let rlen = headers_len + 136 in
      let (d, rbuf) =
        exchange k sock.hffd (ipc_msg_bytes (ipc_msg type c sent)) rlen (replicate rlen 0) c in
      let answer = read_ipc_msg rbuf in
      if is_response type c.pid answer
      then name_response name (read_ipc_err answer.body) d
      else (d, negsuc 0, name)

  unfoldable pub getpeername : IpcSockname → Client K → Client K × ℤ × IpcSockname
  unfolding hfip_get_sock ask_name
  getpeername name c = elim (hfip_get_sock name.socket c.hfip_socks) [
    | none ↦ let (s, rc, got) = k.k_getpeername name c.kernel in (record c { kernel = s }, rc, got)
    | some sock ↦ ask_name ipc_getpeername_type sock name c
  ]

  unfoldable pub getsockname : IpcSockname → Client K → Client K × ℤ × IpcSockname
  unfolding hfip_get_sock ask_name
  getsockname name c = elim (hfip_get_sock name.socket c.hfip_socks) [
    | none ↦ let (s, rc, got) = k.k_getsockname name c.kernel in (record c { kernel = s }, rc, got)
    | some sock ↦ ask_name ipc_getsockname_type sock name c
  ]

  abbrev pub fcntl_msg : ℕ → ℕ → List ℕ → Client K → IpcMsg
  unfolding ipc_fcntl_bytes
  fcntl_msg fildes cmd flags c =
      let fc : IpcFcntl = record { sockfd = fildes; cmd = cmd; body = fcntl_data c flags } in
      ipc_msg ipc_fcntl_type c (ipc_fcntl_bytes fc)

  -- `arg` is the third argument.
  unfoldable pub fcntl : ℕ → ℕ → ℕ → Client K → Client K × ℤ
  unfolding hfip_get_sock transmit_hfip ipc_fcntl_bytes
  fcntl fildes cmd arg c = elim (hfip_get_sock fildes c.hfip_socks) [
    | none ↦ in_kernel (k.k_fcntl fildes cmd arg c.kernel) c
    | some sock ↦
        if cmd == f_getfl
        then transmit_hfip k sock.hffd (fcntl_msg fildes cmd [] c) c
        else (if cmd == f_setfl
            then transmit_hfip k sock.hffd (fcntl_msg fildes cmd (bytes32 arg) c) c
            else (record c { errno = 22 }, negsuc 0))
  ]
