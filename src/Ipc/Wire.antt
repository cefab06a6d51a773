-- ===== src/Ipc/Wire.antt =====
-- Every message of include/ipc.h is read back as it was written, whatever follows it.
use hf_ip.Prelude.{
  All, List, [], ap, append-nil, append_assoc, ap₂, arith, drop, drop-all, drop-append, length,
  refl, sub_zero, take, take-all, take-append, ℕ, ◌%◌, ◌*◌, ◌++◌, ◌+◌, ◌/◌, ◌<◌, ◌∙◌, ◌∷◌, ◌≡◌,
}
use hf_ip.Prelude.Int.{negsuc, pos, ℤ}
use hf_ip.Word.{bytes32, u32}
use hf_ip.Packet.{at32}
use hf_ip.Ipc.{
  IpcBuffer, IpcConnect, IpcErr, IpcFcntl, IpcMsg, IpcPoll, IpcPollfd, IpcSocket, IpcSockname,
  IpcSockopt, bytes64, int_word, ipc_buffer_bytes, ipc_close_bytes, ipc_connect_bytes,
  ipc_err_bytes, ipc_fcntl_bytes, ipc_msg_bytes, ipc_poll_bytes, ipc_pollfds_bytes,
  ipc_socket_bytes, ipc_sockname_bytes, ipc_sockopt_bytes, read_ipc_buffer, read_ipc_close,
  read_ipc_connect, read_ipc_err, read_ipc_fcntl, read_ipc_msg, read_ipc_poll, read_ipc_pollfds,
  read_ipc_socket, read_ipc_sockname, read_ipc_sockopt, word_int,
}

pub read_ipc_msg-bytes :
    (m : IpcMsg) (rest : List ℕ)
    → m.type < 65536
    → m.pid < 4294967296
    → read_ipc_msg (ipc_msg_bytes m ++ rest) ≡ record m { body = m.body ++ rest }
unfolding read_ipc_msg ipc_msg_bytes
read_ipc_msg-bytes m rest t p = ground arith

-- An `int`.
abbrev pub IsInt : ℤ → Type 0
IsInt (pos n) = n < 2147483648
IsInt (negsuc n) = n < 2147483648

pub word_int-word : (z : ℤ) → IsInt z → word_int (int_word z) ≡ z
word_int-word (pos n) h = ground arith
word_int-word (negsuc n) h = ground arith

int_word-le : (z : ℤ) → int_word z < 4294967296
int_word-le (pos n) = omega arith
int_word-le (negsuc n) = omega arith

pub word_back :
    (x : ℕ)
    → x < 4294967296
    → x % 256 + x / 256 % 256 * 256 + (x / 65536 % 256 + x / 16777216 % 256 * 256) * 65536 ≡ x
word_back x h = omega arith

pub read_ipc_err-bytes :
    (e : IpcErr) (rest : List ℕ)
    → IsInt e.rc
    → e.err < 4294967296
    → read_ipc_err (ipc_err_bytes e ++ rest) ≡ record e { body = e.body ++ rest }
unfolding read_ipc_err ipc_err_bytes
read_ipc_err-bytes e rest r p =
    rw (word_back (int_word e.rc) (int_word-le e.rc), word_back e.err p, word_int-word e.rc r) refl

pub read_ipc_socket-bytes :
    (s : IpcSocket) (rest : List ℕ)
    → s.domain < 4294967296
    → s.type < 4294967296
    → s.protocol < 4294967296
    → read_ipc_socket (ipc_socket_bytes s ++ rest) ≡ s
unfolding read_ipc_socket ipc_socket_bytes
read_ipc_socket-bytes s rest d t p = ground arith

pub take-append_exact : {n : ℕ} (xs ys : List ℕ) → length xs ≡ n → take n (xs ++ ys) ≡ xs
take-append_exact {n} xs ys h =
    take-append n xs ys
    ∙ ap₂ (λ a b. a ++ b) (take-all n xs (omega arith))
        (ap (λ k. take k ys) (sub_zero n (length xs) (omega arith)))
    ∙ append-nil xs

pub drop-append_exact : {n : ℕ} (xs ys : List ℕ) → length xs ≡ n → drop n (xs ++ ys) ≡ ys
drop-append_exact {n} xs ys h =
    drop-append n xs ys
    ∙ ap₂ (λ a b. a ++ b) (drop-all n xs (omega arith))
        (ap (λ k. drop k ys) (sub_zero n (length xs) (omega arith)))

pub read_ipc_connect-bytes :
    (c : IpcConnect) (rest : List ℕ)
    → c.sockfd < 4294967296
    → length c.addr ≡ 16
    → c.addrlen < 4294967296
    → read_ipc_connect (ipc_connect_bytes c ++ rest) ≡ c
unfolding read_ipc_connect ipc_connect_bytes
read_ipc_connect-bytes c rest s a l =
    let tail = bytes32 c.addrlen ++ rest in
    rw
      (
        append_assoc,
        take-append_exact c.addr tail a,
        drop-append_exact c.addr tail a,
        word_back c.sockfd s,
        word_back c.addrlen l,
      )
      refl

pub size_back :
    (x : ℕ) → x < 18446744073709551616 → at32 (bytes64 x) 0 + at32 (bytes64 x) 4 * 4294967296 ≡ x
size_back x h =
    rw (word_back (u32 x) (omega arith), word_back (x / 4294967296) (omega arith)) (omega arith)

pub read_ipc_buffer-bytes :
    (w : IpcBuffer) (rest : List ℕ)
    → w.sockfd < 4294967296
    → w.len < 18446744073709551616
    → read_ipc_buffer (ipc_buffer_bytes w ++ rest) ≡ record w { buf = w.buf ++ rest }
unfolding read_ipc_buffer ipc_buffer_bytes
read_ipc_buffer-bytes w rest s l = rw (word_back w.sockfd s, size_back w.len l) refl

pub read_ipc_close-bytes :
    (sockfd : ℕ) (rest : List ℕ)
    → sockfd < 4294967296
    → read_ipc_close (ipc_close_bytes sockfd ++ rest) ≡ sockfd
unfolding read_ipc_close ipc_close_bytes
read_ipc_close-bytes sockfd rest h = omega arith

pub record IpcPollfdFits (p : IpcPollfd) : Type 0 where
  pub fd : p.fd < 4294967296
  pub events : p.events < 65536
  pub revents : p.revents < 65536

half_back : (x : ℕ) → x < 65536 → x % 256 + x / 256 % 256 * 256 ≡ x
half_back x h = omega arith

pub read_ipc_pollfds-bytes :
    (ps : List IpcPollfd) (rest : List ℕ)
    → All IpcPollfdFits ps
    → read_ipc_pollfds (length ps) (ipc_pollfds_bytes ps ++ rest) ≡ ps
unfolding read_ipc_pollfds ipc_pollfds_bytes
read_ipc_pollfds-bytes [] rest h = refl
read_ipc_pollfds-bytes (p ∷ ps) rest (f, fs) =
    rw (word_back p.fd f.fd, half_back p.events f.events, half_back p.revents f.revents)
      (ap (λ r. p ∷ r) (read_ipc_pollfds-bytes ps rest fs))

pub read_ipc_poll-bytes :
    (p : IpcPoll) (rest : List ℕ)
    → IsInt p.timeout
    → length p.fds < 18446744073709551616
    → All IpcPollfdFits p.fds
    → read_ipc_poll (ipc_poll_bytes p ++ rest) ≡ p
unfolding read_ipc_poll ipc_poll_bytes
read_ipc_poll-bytes p rest t n fs =
    rw
      (
        size_back (length p.fds) n,
        word_back (int_word p.timeout) (int_word-le p.timeout),
        word_int-word p.timeout t,
        read_ipc_pollfds-bytes p.fds rest fs,
      )
      refl

pub read_ipc_fcntl-bytes :
    (f : IpcFcntl) (rest : List ℕ)
    → f.sockfd < 4294967296
    → f.cmd < 4294967296
    → read_ipc_fcntl (ipc_fcntl_bytes f ++ rest) ≡ record f { body = f.body ++ rest }
unfolding read_ipc_fcntl ipc_fcntl_bytes
read_ipc_fcntl-bytes f rest s c = rw (word_back f.sockfd s, word_back f.cmd c) refl

pub read_ipc_sockopt-bytes :
    (o : IpcSockopt) (rest : List ℕ)
    → o.fd < 4294967296
    → o.level < 4294967296
    → o.optname < 4294967296
    → o.optlen < 4294967296
    → read_ipc_sockopt (ipc_sockopt_bytes o ++ rest) ≡ record o { optval = o.optval ++ rest }
unfolding read_ipc_sockopt ipc_sockopt_bytes
read_ipc_sockopt-bytes o rest f l n k =
    rw (word_back o.fd f, word_back o.level l, word_back o.optname n, word_back o.optlen k) refl

pub read_ipc_sockname-bytes :
    (n : IpcSockname) (rest : List ℕ)
    → n.socket < 4294967296
    → n.address_len < 4294967296
    → read_ipc_sockname (ipc_sockname_bytes n ++ rest) ≡ record n { sa_data = n.sa_data ++ rest }
unfolding read_ipc_sockname ipc_sockname_bytes
read_ipc_sockname-bytes n rest s a = rw (word_back n.socket s, word_back n.address_len a) refl
