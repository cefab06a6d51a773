-- ===== src/Ipc.antt =====
-- The messages between a program and the stack: include/ipc.h. A struct is a record, `..._bytes`
-- gives its bytes on a little-endian host with 64-bit pointers, and `read_...` reads it back from
-- an address. An `int` whose sign the code does not read is its 32-bit word; a return code is an
-- integer. `buf`, `body` (the C member `data`), `fds` and `optval` are the flexible arrays at the end.
pub mod Wire
pub mod Calls
pub mod Serve
pub mod Thread
pub mod Listen
use hf_ip.Prelude.{
  List, [], drop, if◌then◌else◌, length, ltb, suc, take, zero, ℕ, ◌*◌, ◌++◌, ◌+◌, ◌-◌, ◌/◌, ◌∷◌,
}
use hf_ip.Prelude.Int.{negsuc, pos, ℤ}
use hf_ip.Word.{bytes16, bytes32, u32}
use hf_ip.Packet.{at16, at32}

abbrev pub ipc_socket_type : ℕ
ipc_socket_type = 1

abbrev pub ipc_connect_type : ℕ
ipc_connect_type = 2

abbrev pub ipc_write_type : ℕ
ipc_write_type = 3

abbrev pub ipc_read_type : ℕ
ipc_read_type = 4

abbrev pub ipc_close_type : ℕ
ipc_close_type = 5

abbrev pub ipc_poll_type : ℕ
ipc_poll_type = 6

abbrev pub ipc_fcntl_type : ℕ
ipc_fcntl_type = 7

abbrev pub ipc_getsockopt_type : ℕ
ipc_getsockopt_type = 8

abbrev pub ipc_getpeername_type : ℕ
ipc_getpeername_type = 10

abbrev pub ipc_getsockname_type : ℕ
ipc_getsockname_type = 11

pub record IpcMsg : Type 0 where
  pub type : ℕ
  pub pid : ℕ
  pub body : List ℕ

pub record IpcErr : Type 0 where
  pub rc : ℤ
  pub err : ℕ
  pub body : List ℕ

pub record IpcSocket : Type 0 where
  pub domain : ℕ
  pub type : ℕ
  pub protocol : ℕ

-- `addr` is the 16 bytes of a `struct sockaddr`.
pub record IpcConnect : Type 0 where
  pub sockfd : ℕ
  pub addr : List ℕ
  pub addrlen : ℕ

-- `struct ipc_write` and `struct ipc_read`, which have the same members.
pub record IpcBuffer : Type 0 where
  pub sockfd : ℕ
  pub len : ℕ
  pub buf : List ℕ

pub record IpcPollfd : Type 0 where
  pub fd : ℕ
  pub events : ℕ
  pub revents : ℕ

pub record IpcPoll : Type 0 where
  pub timeout : ℤ
  pub fds : List IpcPollfd

pub record IpcFcntl : Type 0 where
  pub sockfd : ℕ
  pub cmd : ℕ
  pub body : List ℕ

pub record IpcSockopt : Type 0 where
  pub fd : ℕ
  pub level : ℕ
  pub optname : ℕ
  pub optlen : ℕ
  pub optval : List ℕ

-- `sa_data` has 128 bytes.
pub record IpcSockname : Type 0 where
  pub socket : ℕ
  pub address_len : ℕ
  pub sa_data : List ℕ

-- The word of an `int` and the `int` of a word.
abbrev pub int_word : ℤ → ℕ
int_word (pos n) = u32 n
int_word (negsuc n) = 4294967295 - u32 n

abbrev pub word_int : ℕ → ℤ
word_int w = if ltb w 2147483648 then pos w else negsuc (4294967295 - w)

-- The `size_t` of an `int`.
abbrev pub int_size : ℤ → ℕ
int_size (pos n) = n
int_size (negsuc n) = 18446744073709551615 - n

abbrev pub bytes64 : ℕ → List ℕ
bytes64 x = bytes32 (u32 x) ++ bytes32 (x / 4294967296)

abbrev at64 : List ℕ → ℕ → ℕ
at64 m i = at32 m i + at32 m (i + 4) * 4294967296

-- `memcpy` of some bytes to the front of a buffer.
abbrev pub overlay : List ℕ → List ℕ → List ℕ
overlay bytes buf = bytes ++ drop (length bytes) buf

unfoldable pub ipc_msg_bytes : IpcMsg → List ℕ
ipc_msg_bytes m = bytes16 m.type ++ bytes32 m.pid ++ m.body

unfoldable pub read_ipc_msg : List ℕ → IpcMsg
read_ipc_msg m = record { type = at16 m 0; pid = at32 m 2; body = drop 6 m }

unfoldable pub ipc_err_bytes : IpcErr → List ℕ
ipc_err_bytes e = bytes32 (int_word e.rc) ++ bytes32 e.err ++ e.body

unfoldable pub read_ipc_err : List ℕ → IpcErr
read_ipc_err m = record { rc = word_int (at32 m 0); err = at32 m 4; body = drop 8 m }

unfoldable pub ipc_socket_bytes : IpcSocket → List ℕ
ipc_socket_bytes s = bytes32 s.domain ++ bytes32 s.type ++ bytes32 s.protocol

unfoldable pub read_ipc_socket : List ℕ → IpcSocket
read_ipc_socket m = record { domain = at32 m 0; type = at32 m 4; protocol = at32 m 8 }

unfoldable pub ipc_connect_bytes : IpcConnect → List ℕ
ipc_connect_bytes c = bytes32 c.sockfd ++ c.addr ++ bytes32 c.addrlen

unfoldable pub read_ipc_connect : List ℕ → IpcConnect
read_ipc_connect m = record {
  sockfd = at32 m 0;
  addr = take 16 (drop 4 m);
  addrlen = at32 (drop 20 m) 0;
}

unfoldable pub ipc_buffer_bytes : IpcBuffer → List ℕ
ipc_buffer_bytes w = bytes32 w.sockfd ++ bytes64 w.len ++ w.buf

unfoldable pub read_ipc_buffer : List ℕ → IpcBuffer
read_ipc_buffer m = record { sockfd = at32 m 0; len = at64 m 4; buf = drop 12 m }

unfoldable pub ipc_close_bytes : ℕ → List ℕ
ipc_close_bytes sockfd = bytes32 sockfd

unfoldable pub read_ipc_close : List ℕ → ℕ
read_ipc_close m = at32 m 0

unfoldable pub ipc_pollfds_bytes : List IpcPollfd → List ℕ
ipc_pollfds_bytes [] = []
ipc_pollfds_bytes (p ∷ ps) =
    bytes32 p.fd ++ bytes16 p.events ++ bytes16 p.revents ++ ipc_pollfds_bytes ps

unfoldable pub read_ipc_pollfds : ℕ → List ℕ → List IpcPollfd
read_ipc_pollfds zero m = []
read_ipc_pollfds (suc n) m =
    record { fd = at32 m 0; events = at16 m 4; revents = at16 m 6 } ∷ read_ipc_pollfds n (drop 8 m)

unfoldable pub ipc_poll_bytes : IpcPoll → List ℕ
ipc_poll_bytes p = bytes64 (length p.fds) ++ bytes32 (int_word p.timeout) ++ ipc_pollfds_bytes p.fds

unfoldable pub read_ipc_poll : List ℕ → IpcPoll
read_ipc_poll m = record {
  timeout = word_int (at32 m 8);
  fds = read_ipc_pollfds (at64 m 0) (drop 12 m);
}

unfoldable pub ipc_fcntl_bytes : IpcFcntl → List ℕ
ipc_fcntl_bytes f = bytes32 f.sockfd ++ bytes32 f.cmd ++ f.body

unfoldable pub read_ipc_fcntl : List ℕ → IpcFcntl
read_ipc_fcntl m = record { sockfd = at32 m 0; cmd = at32 m 4; body = drop 8 m }

unfoldable pub ipc_sockopt_bytes : IpcSockopt → List ℕ
ipc_sockopt_bytes o =
    bytes32 o.fd ++ bytes32 o.level ++ bytes32 o.optname ++ bytes32 o.optlen ++ o.optval

unfoldable pub read_ipc_sockopt : List ℕ → IpcSockopt
read_ipc_sockopt m = record {
  fd = at32 m 0;
  level = at32 m 4;
  optname = at32 m 8;
  optlen = at32 m 12;
  optval = drop 16 m;
}

unfoldable pub ipc_sockname_bytes : IpcSockname → List ℕ
ipc_sockname_bytes n = bytes32 n.socket ++ bytes32 n.address_len ++ n.sa_data

unfoldable pub read_ipc_sockname : List ℕ → IpcSockname
read_ipc_sockname m = record { socket = at32 m 0; address_len = at32 m 4; sa_data = drop 8 m }
