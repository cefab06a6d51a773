-- ===== src/Client/Poll.antt =====
-- `poll` of tools/libhfip.c, which asks the kernel and the stack about the descriptors of each.
use hf_ip.Prelude.{
  Bool, List, Option, [], drop, false, if◌then◌else◌, length, ltb, none, not, replicate, some, suc,
  take, true, zero, ℕ, ◌&&◌, ◌*◌, ◌++◌, ◌+◌, ◌-◌, ◌==◌, ◌||◌, ◌∷◌,
}
use hf_ip.Prelude.Int.{is_minus_one, negsuc, pos, ℤ}
use hf_ip.Ipc.{
  IpcPollfd, ipc_msg_bytes, ipc_poll_bytes, ipc_poll_type, overlay, read_ipc_err, read_ipc_msg,
  read_ipc_pollfds,
}
use hf_ip.Client.{Client, HfipSock, Kernel, exchange, headers_len, hfip_get_sock, is_response}
use hf_ip.Client.Calls.{ipc_msg}

abbrev eagain : ℕ
eagain = 11

abbrev is_none {ℓ} : {A : Type ℓ} → Option A → Bool
is_none none = true
is_none (some a) = false

-- A descriptor of no socket of the stack.
abbrev pub of_kernel : List HfipSock → IpcPollfd → Bool
unfolding hfip_get_sock
of_kernel socks p = is_none (hfip_get_sock p.fd socks)

-- The descriptors that `hfip_fds` points to.
unfoldable pub hfip_fds : List HfipSock → List IpcPollfd → List IpcPollfd
unfolding hfip_get_sock
hfip_fds socks [] = []
hfip_fds socks (p ∷ ps) =
    let rest = hfip_fds socks ps in if of_kernel socks p then rest else p ∷ rest

unfoldable pub kernel_nfds : List HfipSock → List IpcPollfd → ℕ
unfolding hfip_get_sock
kernel_nfds socks [] = 0
kernel_nfds socks (p ∷ ps) =
    let rest = kernel_nfds socks ps in if of_kernel socks p then suc rest else rest

-- The index of the first descriptor that `kernel_fds` points to.
unfoldable pub kernel_first : List HfipSock → List IpcPollfd → ℕ
unfolding hfip_get_sock
kernel_first socks [] = 0
kernel_first socks (p ∷ ps) =
    let rest = kernel_first socks ps in if of_kernel socks p then 0 else suc rest

-- The connection of the last of the stack's descriptors, or 0.
abbrev last_hffd : Option HfipSock → ℕ → ℕ
last_hffd none old = old
last_hffd (some sock) old = sock.hffd

unfoldable pub hfip_sock : List HfipSock → List IpcPollfd → ℕ → ℕ
unfolding hfip_get_sock
hfip_sock socks [] old = old
hfip_sock socks (p ∷ ps) old = hfip_sock socks ps (last_hffd (hfip_get_sock p.fd socks) old)

-- The events that the stack has returned go to the descriptors of the stack, in their order.
unfoldable pub put_returned : List HfipSock → List IpcPollfd → List IpcPollfd → List IpcPollfd
unfolding hfip_get_sock
put_returned socks [] returned = []
put_returned socks (p ∷ ps) [] = p ∷ ps
put_returned socks (p ∷ ps) (r ∷ rs) =
    let passed = p ∷ put_returned socks ps (r ∷ rs) in
    let filled = record p { events = r.events; revents = r.revents } ∷ put_returned socks ps rs in
    if of_kernel socks p then passed else filled

-- `_poll(*kernel_fds, ...)`: as many descriptors as the kernel has, from the first of them on in
-- the caller's array.
abbrev pub poll_kernel :
    {K : Type 0} → Kernel K → List HfipSock → ℤ → List IpcPollfd → K → K × ℤ × List IpcPollfd
unfolding kernel_first kernel_nfds
poll_kernel k socks timeout fds s =
    let first = kernel_first socks fds in
    let n = kernel_nfds socks fds in
    let (t, events, polled) = k.k_poll (take n (drop first fds)) timeout s in
    (t, events, take first fds ++ polled ++ drop (first + n) fds)

-- `events + error->rc`, for two counts.
abbrev add : ℤ → ℕ → ℤ
add (pos n) m = pos (n + m)
add (negsuc n) m = if ltb n m then pos (m - suc n) else negsuc (n - m)

abbrev pub is_positive : ℤ → Bool
is_positive (pos zero) = false
is_positive (pos (suc n)) = true
is_positive (negsuc n) = false

-- The state of the loop: the library, the array and the return code, if there is one.
pub record Polling (K : Type 0) : Type 0 where
  pub client : Client K
  pub fds : List IpcPollfd
  pub result : ℤ
  pub failed : Bool

module _ {K : Type 0} (k : Kernel K) where
  -- The message to the stack, and its answer; `events` is the kernel's count.
  unfoldable pub poll_hfip : ℤ → ℤ → List IpcPollfd → Client K → Polling K
  unfolding hfip_fds hfip_sock put_returned exchange ipc_msg_bytes ipc_poll_bytes read_ipc_msg
      read_ipc_err read_ipc_pollfds
  poll_hfip events timeout fds c =
      let asked = hfip_fds c.hfip_socks fds in
      let hffd = hfip_sock c.hfip_socks fds 0 in
      let msg =
        ipc_msg ipc_poll_type c (ipc_poll_bytes (record { timeout = timeout; fds = asked })) in
      let rlen = headers_len + 8 * length asked in
      let (k1, sent) = k.k_write hffd (ipc_msg_bytes msg) c.kernel in
      let (k2, got) = k.k_read hffd rlen k1 in
      let unsent : Polling K = record {
        client = record c { kernel = k1; errno = eagain };
        fds = fds;
        result = negsuc 0;
        failed = true;
      } in
      let lost : Polling K = record unsent { client = record c { kernel = k2; errno = eagain } } in
      if is_minus_one sent then unsent else (elim got [
        | none ↦ lost
        | some bytes ↦
            let answer = read_ipc_msg (overlay bytes (replicate rlen 0)) in
            let error = read_ipc_err answer.body in
            let returned = read_ipc_pollfds (length asked) error.body in
            if is_response ipc_poll_type c.pid answer
            then (elim error.rc [
              | negsuc n ↦ record lost {
                client = record c { kernel = k2; errno = error.err };
                result = negsuc n;
              }
              | pos n ↦ record {
                client = record c { kernel = k2 };
                fds = put_returned c.hfip_socks fds returned;
                result = add events n;
                failed = false;
              }
            ])
            else lost
      ])

  -- The loop from its start on; `none` is a loop that has not ended when the fuel is used up.
  unfoldable pub poll_loop :
      ℕ → Bool → ℤ → List IpcPollfd → Client K → Option (Client K × ℤ × List IpcPollfd)
  unfolding hfip_fds kernel_nfds poll_hfip
  poll_loop zero blocking timeout fds c = none
  poll_loop (suc fuel) blocking timeout fds c =
      let asking = ltb 0 (kernel_nfds c.hfip_socks fds) in
      let (s, events, polled) =
        if asking
        then poll_kernel k c.hfip_socks timeout fds c.kernel
        else (c.kernel, pos 0, fds) in
      let d = record c { kernel = s } in
      let p = poll_hfip events timeout polled d in
      let again = poll_loop fuel blocking timeout p.fds p.client in
      if is_minus_one events
      then some (record d { errno = eagain }, negsuc 0, polled)
      else (if length (hfip_fds c.hfip_socks fds) == 0
          then some (d, events, polled)
          else (if p.failed || is_positive p.result || not blocking
              then some (p.client, p.result, p.fds)
              else again))

  -- A poll without a limit that has descriptors of both is a loop of polls of 100 ms.
  unfoldable pub poll : ℕ → ℤ → List IpcPollfd → Client K → Option (Client K × ℤ × List IpcPollfd)
  unfolding hfip_fds kernel_nfds poll_loop
  poll fuel timeout fds c =
      let both =
        ltb 0 (kernel_nfds c.hfip_socks fds) && ltb 0 (length (hfip_fds c.hfip_socks fds)) in
      let blocking = both && is_minus_one timeout in
      poll_loop fuel blocking (if blocking then pos 100 else timeout) fds c

  -- `__poll_chk`; the size of the array is not looked at.
  unfoldable pub poll_chk :
      ℕ → ℤ → List IpcPollfd → Client K → Option (Client K × ℤ × List IpcPollfd)
  unfolding poll
  poll_chk fuel timeout fds c = poll fuel timeout fds c
