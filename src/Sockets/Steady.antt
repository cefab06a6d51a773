-- ===== src/Sockets/Steady.antt =====
-- The functions of a connection leave the number, the owner and the references of its socket.
pub mod Checks
pub mod Stages
pub mod Input
pub mod Read
use hf_ip.Prelude.{Bool, List, false, if◌then◌else◌, true, ℕ, ◌≡◌}
use hf_ip.Prelude.Int.{ℤ}
use hf_ip.Tcp.{Conn}
use hf_ip.Tcp.Calm.{Keeps}
use hf_ip.Tcp.Calm.Calls.{Calm-close, Calm-write}
use hf_ip.Sockets.Inet.{inet_close, inet_write}

-- A call that leaves them in every case.
abbrev pub IsSteady : (Conn → Conn × ℤ) → Type 0
IsSteady f = (c : Conn) → Keeps c (f c).0

pub sock-if :
    (b : Bool) (c d e : Conn)
    → d.sock ≡ c.sock
    → e.sock ≡ c.sock
    → (if b then d else e).sock ≡ c.sock
sock-if true c d e h k = h
sock-if false c d e h k = k

pub first-if :
    {A : Type 0} (b : Bool) (c : Conn) (d e : Conn × A)
    → d.0.sock ≡ c.sock
    → e.0.sock ≡ c.sock
    → (if b then d else e).0.sock ≡ c.sock
first-if true c d e h k = h
first-if false c d e h k = k

pub inet_write-IsSteady : (buf : List ℕ) → IsSteady (inet_write buf)
unfolding inet_write
inet_write-IsSteady buf c = (Calm-write c buf).keeps

pub inet_close-IsSteady : IsSteady inet_close
unfolding inet_close
inet_close-IsSteady c = (Calm-close c).keeps
