-- ===== src/Client/Remote/Exchange.antt =====
-- The exchange of a message with the stack: what `transmit_hfip` makes of the response, and what
-- the stack reads of a message that fits its buffer.
use mathlib.Core.Path.{subst}
use hf_ip.Prelude.{
  ==_iff, List, [], ap, ap₂, arith, drop, drop-all, if◌then◌else◌, length, refl, some, sym, take,
  take-all, true, ℕ, ◌++◌, ◌+◌, ◌<◌, ◌==◌, ◌∙◌, ◌≡◌, ◌≤◌,
}
use hf_ip.Prelude.Int.{negsuc, pos, ℤ}
use hf_ip.Ipc.{IpcErr, IpcMsg, ipc_err_bytes, ipc_msg_bytes, overlay, read_ipc_err, read_ipc_msg}
use hf_ip.Ipc.Wire.{IsInt, read_ipc_err-bytes, read_ipc_msg-bytes}
use hf_ip.Ipc.Calls.{Server, SocketCalls}
use hf_ip.Ipc.Serve.{ipc_buflen, ipc_err, response}
use hf_ip.Ipc.Thread.{demux_ipc_socket_call, handle}
use hf_ip.Client.{
  Client, Kernel, exchange, is_response, rcbuf_len, set_errno, stored_bytes, transmit_hfip,
  transmitted,
}
use hf_ip.Client.Remote.{Idle, Returned, Serves, all_sent, serve_message, server_of}

pub response-read :
    (type pid : ℕ) (rc : ℤ) (body rest : List ℕ)
    → type < 65536
    → pid < 4294967296
    → read_ipc_msg (response type pid rc body ++ rest) ≡ record {
      type = type;
      pid = pid;
      body = ipc_err_bytes (record (ipc_err rc) { body = body }) ++ rest;
    }
response-read type pid rc body rest t p =
    read_ipc_msg-bytes
      (record {
        type = type;
        pid = pid;
        body = ipc_err_bytes (record (ipc_err rc) { body = body });
      })
      rest t p

err-IsInt : (rc : ℤ) → IsInt rc → IsInt (ipc_err rc).rc
err-IsInt (pos n) h = h
err-IsInt (negsuc n) h = omega arith

err-le : (rc : ℤ) → IsInt rc → (ipc_err rc).err < 4294967296
err-le (pos n) h = omega arith
err-le (negsuc n) h = omega arith

pub response-err :
    (rc : ℤ) (body rest : List ℕ)
    → IsInt rc
    → read_ipc_err (ipc_err_bytes (record (ipc_err rc) { body = body }) ++ rest)
      ≡ record (ipc_err rc) { body = body ++ rest }
response-err rc body rest h =
    read_ipc_err-bytes (record (ipc_err rc) { body = body }) rest (err-IsInt rc h) (err-le rc h)

pub ==_refl : (n : ℕ) → (n == n) ≡ true
==_refl n = (==_iff n n).1 refl

module _ {K S : Type 0} (calls : SocketCalls S) (k : Kernel K) (stack : K → S) (i : Idle) where
  pub exchange_lem :
      (hffd : ℕ) (bytes : List ℕ) (len : ℕ) (buf : List ℕ) (c : Client K) (s : S) (answer : List ℕ)
      → Serves calls k stack i hffd
      → serve_message calls i bytes (stack c.kernel) ≡ (s, answer)
      → length answer ≤ len
      → let (d, got) = exchange k hffd bytes len buf c in
        (got ≡ overlay answer buf) × (stack d.kernel ≡ s) × (d ≡ record c { kernel = d.kernel })
  unfolding exchange
  exchange_lem hffd bytes len buf c s answer w e n =
      let all : take len (serve_message calls i bytes (stack c.kernel)).1 ≡ answer =
        ap (λ (r : S × List ℕ). take len r.1) e ∙ take-all len answer n in
      (
        ap (λ o. overlay (stored_bytes o) buf) (w.got c.kernel bytes len ∙ ap some all),
        w.changed c.kernel bytes len ∙ ap (λ (r : S × List ℕ). r.0) e,
        refl,
      )

abbrev outcome : {K : Type 0} → Client K → IpcErr → Client K × ℤ
outcome c e = (set_errno e c, e.rc)

pub is_response_refl : (m : IpcMsg) → is_response m.type m.pid m ≡ true
is_response_refl m = rw (==_refl m.type, ==_refl m.pid) refl

transmitted_lem :
    {K : Type 0} (msg : IpcMsg) (c : Client K) (rc : ℤ) (junk : List ℕ)
    → msg.type < 65536
    → msg.pid < 4294967296
    → IsInt rc
    → transmitted msg (c, response msg.type msg.pid rc [] ++ junk)
      ≡ outcome c (record (ipc_err rc) { body = junk })
unfolding transmitted
transmitted_lem {K} msg c rc junk t p h =
    let answer : IpcMsg = record {
      type = msg.type;
      pid = msg.pid;
      body = ipc_err_bytes (record (ipc_err rc) { body = [] }) ++ junk;
    } in
    let outcome_of : IpcMsg → Client K × ℤ = λ m.
      if is_response msg.type msg.pid m then outcome c (read_ipc_err m.body) else (c, negsuc 0) in
    ap outcome_of (response-read msg.type msg.pid rc [] junk t p)
    ∙ ap (λ b. if b then outcome c (read_ipc_err answer.body) else (c, negsuc 0))
        (is_response_refl answer)
    ∙ ap (outcome c) (response-err rc [] junk h)

abbrev pub summary : {S : Type 0} → Server S × ℤ → S × List ℕ
summary (v, rc) = (v.stack, all_sent v.sends)

-- What the old buffer leaves behind a message.
abbrev pub behind : Idle → List ℕ → List ℕ
behind i bytes = drop (length bytes) i.buffer

module _ {S : Type 0} (calls : SocketCalls S) (i : Idle) where
  pub serve_short :
      (m : IpcMsg) (s : S)
      → m.type < 65536
      → m.pid < 4294967296
      → length (ipc_msg_bytes m) ≤ ipc_buflen
      → serve_message calls i (ipc_msg_bytes m) s
        ≡ summary (
            handle calls
              (record m { body = m.body ++ behind i (ipc_msg_bytes m) })
              (server_of i [] s))
  unfolding serve_message demux_ipc_socket_call
  serve_short m s t p n =
      ap₂
        (λ (front rest : List ℕ).
          summary (handle calls (read_ipc_msg (overlay front i.buffer)) (server_of i rest s)))
        (take-all ipc_buflen (ipc_msg_bytes m) n) (drop-all ipc_buflen (ipc_msg_bytes m) n)
      ∙ ap (λ m. summary (handle calls m (server_of i [] s)))
          (read_ipc_msg-bytes m (behind i (ipc_msg_bytes m)) t p)

outcome-Returned :
    {K S : Type 0} (stack : K → S) (c d : Client K) (s : S) (rc : ℤ) (junk : List ℕ)
    → stack d.kernel ≡ s
    → d ≡ record c { kernel = d.kernel }
    → Returned stack c (s, rc) (outcome d (record (ipc_err rc) { body = junk }))
outcome-Returned stack c d s (pos n) junk e f = record {
  rc = refl;
  errno = ap (λ (x : Client _). x.errno) f;
  stack_after = e;
  socks = ap (λ (x : Client _). x.hfip_socks) f;
}
outcome-Returned stack c d s (negsuc n) junk e f = record {
  rc = refl;
  errno = refl;
  stack_after = e;
  socks = ap (λ (x : Client _). x.hfip_socks) f;
}

pub length-response :
    (type pid : ℕ) (rc : ℤ) (body : List ℕ) → length (response type pid rc body) ≡ 14 + length body
unfolding ipc_msg_bytes ipc_err_bytes
length-response type pid rc body = omega arith

module _ {K S : Type 0} (calls : SocketCalls S) (k : Kernel K) (stack : K → S) (i : Idle) where
  pub transmit-Returned :
      (hffd : ℕ) (m : IpcMsg) (c : Client K) (s : S) (rc : ℤ)
      → Serves calls k stack i hffd
      → serve_message calls i (ipc_msg_bytes m) (stack c.kernel) ≡ (s, response m.type m.pid rc [])
      → m.type < 65536
      → m.pid < 4294967296
      → IsInt rc
      → Returned stack c (s, rc) (transmit_hfip k hffd m c)
  unfolding transmit_hfip
  transmit-Returned hffd m c s rc w e t p h =
      let answer = response m.type m.pid rc [] in
      let junk = drop (length answer) c.stale in
      let x = exchange k hffd (ipc_msg_bytes m) rcbuf_len c.stale c in
      let (got, after, kept) =
        exchange_lem calls k stack i hffd (ipc_msg_bytes m) rcbuf_len c.stale c s answer w e
          (omega (arith, length-response m.type m.pid rc [])) in
      let same : transmitted m x ≡ outcome x.0 (record (ipc_err rc) { body = junk }) =
        ap (λ buf. transmitted m (x.0, buf)) got ∙ transmitted_lem m x.0 rc junk t p h in
      subst (λ r. Returned stack c (s, rc) r) (sym same)
        (outcome-Returned stack c x.0 s rc junk after kept)
