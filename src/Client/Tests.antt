-- ===== src/Client/Tests.antt =====
-- The library and the stack over a kernel that carries a message at once, and the theorems of
-- `Remote` at it.
use mathlib.Core.Path.{subst}
use hf_ip.Prelude.{
  List, Option, [], ap, arith, false, length, none, refl, replicate, some, sym, take, true, ℕ, ◌∷◌,
  ◌≡◌, ◌≤◌,
}
use hf_ip.Prelude.Int.{negsuc, pos, ℤ}
use hf_ip.Ipc.Wire.{IsInt}
use hf_ip.Ipc.Calls.{Server, SocketCalls}
use hf_ip.Ipc.Thread.{socket_ipc_open}
use hf_ip.Ipc.Thread.Answers.{Answers}
use hf_ip.Ipc.Thread.Ends.{socket_ipc_open-ends}
use hf_ip.Tcp.{tcp_alloc_sock}
use hf_ip.Sockets.{Sockets, alloc_socket}
use hf_ip.Sockets.Inet.{inet_create}
use hf_ip.Sockets.Calls.{
  family_create, socket_created, sys_close, sys_connect, sys_fcntl, sys_getpeername,
  sys_getsockname, sys_getsockopt, sys_read, sys_socket, sys_write,
}
use hf_ip.Sockets.Poll.{sys_poll}
use hf_ip.Sockets.Tests.{address, env, listed, listed-connects}
use hf_ip.Client.{Client, HfipSock, Kernel, hfip_get_sock}
use hf_ip.Client.Remote.Control.{connect_remote}
use hf_ip.Client.Calls.{connect, init_socket, is_socket_supported, socket}
use hf_ip.Client.Remote.{Idle, Returned, Serves, serve_message, server_of}
use hf_ip.Client.Remote.Open.{Opened, socket_remote}

-- The calls of src/socket.c. In the tests no call sleeps for longer than its rounds.
abbrev or_failed {ℓ} : {A : Type ℓ} → A → Option A → A
or_failed a none = a
or_failed a (some b) = b

abbrev socket_calls : SocketCalls Sockets
socket_calls = record {
  call_socket = (λ pid domain type protocol t. sys_socket pid domain type protocol t);
  call_connect = (λ pid fd addr len t. or_failed (t, negsuc 0) (sys_connect env pid fd addr len t));
  call_write = (λ pid fd buf t. sys_write pid fd buf t);
  call_read = (λ pid fd len t. or_failed (t, negsuc 0, []) (sys_read env pid fd len t));
  call_close = (λ pid fd t. sys_close pid fd t);
  call_poll =
      (λ pid fds timeout t. or_failed (t, negsuc 0, fds) (sys_poll 9 (λ k u. u) pid fds timeout t));
  call_fcntl = (λ pid fd cmd arg t. sys_fcntl pid fd cmd arg t);
  call_getsockopt = (λ pid opts t. sys_getsockopt pid opts t);
  call_getpeername = (λ pid fd name t. sys_getpeername pid fd name t);
  call_getsockname = (λ pid fd name t. sys_getsockname pid fd name t);
}

abbrev idle : Idle
idle = record {
  stale = record { socket = 0; address_len = 0; sa_data = replicate 128 0 };
  buffer = replicate 8192 0;
}

-- The stack and what it has sent on the connections.
abbrev Wires : Type 0
Wires = Sockets × List ℕ

abbrev stack : Wires → Sockets
stack (t, sent) = t

-- A kernel whose next connection is 5; every socket of it leads to the stack.
abbrev kernel : Kernel Wires
kernel = record {
  k_socket = (λ domain type protocol s. (s, pos 5));
  k_connect = (λ fd addr len s. (s, pos 0));
  k_close = (λ fd s. (s, pos 0));
  k_write = (λ fd bytes s. (serve_message socket_calls idle bytes s.0, pos (length bytes)));
  k_read = (λ fd len s. ((s.0, []), some (take len s.1)));
  k_sendto = (λ fd bytes flags s. (s, negsuc 0));
  k_recvfrom = (λ fd len flags buf s. (s, negsuc 0, buf));
  k_read_into = (λ fd len buf s. (s, negsuc 0, buf));
  k_poll = (λ fds timeout s. (s, pos 0, fds));
  k_fcntl = (λ fd cmd arg s. (s, negsuc 0));
  k_setsockopt = (λ opts s. (s, negsuc 0));
  k_getsockopt = (λ opts s. (s, negsuc 0, opts));
  k_getpeername = (λ name s. (s, negsuc 0, name));
  k_getsockname = (λ name s. (s, negsuc 0, name));
}

kernel-Serves : (hffd : ℕ) → Serves socket_calls kernel stack idle hffd
kernel-Serves hffd = record { got = (λ s bytes len. refl); changed = (λ s bytes len. refl) }

-- A program with a socket of the stack, behind its connection 5.
abbrev sock : HfipSock
sock = record { hffd = 5; fd = 4097; freed = false }

abbrev client : Client Wires
client = record {
  kernel = (listed, []);
  pid = 7;
  hfip_socks = sock ∷ [];
  hfip_socks_count = pos 1;
  errno = 0;
  stale = [];
}

client-get : hfip_get_sock 4097 client.hfip_socks ≡ some sock
unfolding hfip_get_sock
client-get = refl

init : init_socket kernel client ≡ some (client, 5)
unfolding init_socket
init = refl

supported : is_socket_supported 2 1 0 ≡ true
unfolding is_socket_supported
supported = refl

socket-IsInt : IsInt (sys_socket 7 2 1 0 listed).1
unfolding sys_socket family_create inet_create alloc_socket socket_created tcp_alloc_sock
socket-IsInt = omega arith

socket_remote_example :
    (result : Client Wires × ℤ) × (socket kernel 2 1 0 client ≡ some result)
    × Opened stack client 5 (sys_socket 7 2 1 0 listed) result
socket_remote_example =
    socket_remote socket_calls kernel stack idle 2 1 0 5 client client supported init
      (kernel-Serves 5) (omega arith) (omega arith) (omega arith) (omega arith) socket-IsInt

connect-IsInt : IsInt (socket_calls.call_connect 7 4097 address 16 listed).1
connect-IsInt =
    subst IsInt
      (sym (ap (λ o. (or_failed {A = Sockets × ℤ} (listed, negsuc 0) o).1) listed-connects.1))
      (omega arith)

-- The stack connects the socket, and the program gets a 0.
connect_remote_example :
    Returned stack client
      (socket_calls.call_connect 7 4097 address 16 listed)
      (connect kernel 4097 address 16 client)
connect_remote_example =
    connect_remote socket_calls kernel stack idle 4097 address 16 client sock client-get
      (kernel-Serves 5) (omega arith) (omega arith) refl (omega arith) connect-IsInt

-- A connection of the stack that is asked to close the socket 4097 of the process 7.
abbrev served : Server Sockets
served = server_of idle [] listed

abbrev close_request : List ℕ
close_request = 5 ∷ 0 ∷ 7 ∷ 0 ∷ 0 ∷ 0 ∷ 1 ∷ 16 ∷ 0 ∷ 0 ∷ []

-- A message, a failed `read`, and a message that is not read any more.
abbrev last_reads : Server Sockets
last_reads = record served { reads = some close_request ∷ none ∷ some close_request ∷ [] }

socket_ipc_open-ends_example :
    (w : Server Sockets) × (socket_ipc_open socket_calls 2 5 [] last_reads ≡ some w)
    × (1 ≤ length w.reads)
socket_ipc_open-ends_example =
    socket_ipc_open-ends socket_calls 2 5 [] last_reads (some close_request ∷ [])
      (some close_request ∷ []) refl (omega arith)
