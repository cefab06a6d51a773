-- ===== src/Lib.antt =====
-- hf-ip, a TCP/IP stack in user space, written in C.
--
-- The stack is one process. A thread reads frames from a tap device (src/netdev.c) and hands them to
-- ARP (src/arp.c) or IPv4 (src/ip_input.c), which hands them to ICMP (src/icmpv4.c) or TCP
-- (src/tcp_input.c). What TCP sends goes down through src/ip_output.c, src/dst.c and src/netdev.c, as
-- packet buffers (src/skbuff.c) that hang on circular lists (include/list.h); a thread of the clock
-- starts the handlers of timers (src/timer.c). A program runs with a library (tools/libhfip.c) in
-- place of the C library's socket calls. The library sends a call on a socket of the stack over a
-- Unix socket, where a thread of the stack (src/ipc.c) reads it and makes the call in the table of
-- sockets (src/socket.c), which leads through src/inet.c to a connection of src/tcp.c.
--
-- Which module models what; a function has the name of the C function that it translates, and a
-- helper that is a part of one names that function in a comment:
--   Prelude    shared names, Boolean tests, lists and signed integers
--   Word       wrap-around of 16 and 32 bit integers and the byte order functions
--   Checksum   src/utils.c: the Internet checksum, and addresses as texts
--   ListHead   include/list.h: the linked lists, on a heap of pointers
--   Timer      src/timer.c: the timers
--   Packet     include/ip.h, include/arp.h, include/icmpv4.h, include/tcp.h: headers and their bytes
--   SkBuff     src/skbuff.c, include/skbuff.h: buffers and their queues
--   Net        src/route.c, src/netdev.c, src/arp.c, src/ip_input.c, src/ip_output.c, src/dst.c and
--              src/icmpv4.c: the layers below TCP, with their tables and the frames sent; below it Tap
--              (src/tuntap_if.c)
--   Tcp        include/tcp.h, include/sock.h, include/socket.h: the state of a connection; below it
--              Lifecycle (timers, src/tcp.c), Header and Output (src/tcp_output.c), Sack and Rtt
--              (src/tcp.c, src/tcp_input.c), Segment (src/tcp.c), Data (src/tcp_data.c), Acks, Syn and
--              Input (src/tcp_input.c), Expiry (the timers' handlers) and User (the calls of a
--              program); Calm (which of them leave the received bytes alone) and Flow (what becomes
--              of the bytes of one sender)
--   Ipc        include/ipc.h: the messages and their bytes; below it Calls (the socket calls as an
--              interface, and the state of an IPC connection), Serve, Thread and Listen (src/ipc.c)
--   Sockets    src/socket.c: the table of sockets; below it Inet (src/inet.c), Calls and Poll (the
--              socket calls `_socket`, `_poll` and so on, here `sys_socket`, `sys_poll` and so on)
--   Stack      src/netdev.c, src/ip_input.c: frames that arrive, with the header of
--              include/ethernet.h; below it Start and Main (src/main.c, src/cli.c, `netdev_init`), and
--              Receive, Delivery, Transfer, Neighbour and Frames, where the layers and two stacks meet
--   Client     tools/libhfip.c; below it Calls, Options and Poll, and Remote, where the library and
--              the handlers of Ipc meet
--
-- A state is a record that each operation takes and returns. Every handler of a connection runs
-- between `socket_wr_acquire` and `socket_release`, so it is one step. The malloc'ed buffers are
-- values with an address; the buffers that were freed are logged. Lists are sequences, which the
-- theorems on ListHead justify. The device's answer to a write, the initial sequence number, what
-- other threads do while a reader sleeps, and which timers' locks are taken are arguments.
--
-- A socket of the table has its connection; what connections share (timers, the layers below, the
-- log) is one state that is put into the connection for a call and taken out after it. A socket's
-- address is modelled by its fd. A call that sleeps is one step: the rest of the table stays as it is.
-- The C library's calls and the stack behind them are a record of functions over a state; the results
-- of `read` on an IPC connection are a list. Memory that C does not initialise is a member `stale`.
-- Buffers of 2 GB and more, whose lengths do not fit an `int`, are left out.
--
-- In Client/Remote the kernel gives a response, which is short there, to one `read`, and the stack gets a
-- message that fits its buffer by one `read`; the documents of `read` on a stream do not promise this.
--
-- The receiving thread takes the results of `tun_read` as a list, which ends when `running` is cleared;
-- a buffer of 1600 bytes is zero behind the frame. The signals that the process waits for are a list.
--
-- Loops that the code bounds by a list are recursions on the list. The others have fuel: three rounds
-- fold a checksum (32 bits leave at most two carries), twenty rounds read the options of a SYN (the
-- code stops at 20 bytes), a queue's length empties a queue, delivers the out-of-order queue and
-- cleans the write queue, one more than its length reads from it, and the length of a text cuts it
-- into segments. A blocking read or connect has as many rounds as its caller allows, `_poll` a tenth
-- of its timeout, rounded up, and one more, and an IPC thread one more than there are results of
-- `read` before one that fails. A `poll` without a timeout can sleep for ever; its fuel is an argument.
--
-- The history of a connection with one sender (Flow) is a relation whose steps stand between two
-- releases of the socket's lock. The sender's bytes have numbers that do not wrap, and fewer than
-- 2^32 - 1 buffers are queued when a segment arrives.
--
-- What the operating system returns to the start of the process, of the tap device and of the IPC
-- listener is an argument; `exit` ends a model with no result, or with a status.
--
-- Not modelled: the example programs, the locks of the sockets, the debug functions and macros, and
-- all printed messages.
pub mod Prelude
pub mod Word
pub mod Checksum
pub mod ListHead
pub mod Timer
pub mod Packet
pub mod SkBuff
pub mod Net
pub mod Tcp
pub mod Ipc
pub mod Sockets
pub mod Stack
pub mod Client
