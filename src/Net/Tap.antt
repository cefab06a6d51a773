-- ===== src/Net/Tap.antt =====
-- src/tuntap_if.c and `run_cmd` of src/utils.c: the tap device. What `open`, `ioctl` and `system`
-- return is an argument.
use hf_ip.Prelude.{
  Bool-cases, List, Option, [], false, if◌then◌else◌, inl, inr, none, refl, some, ℕ, ◌++◌, ◌∷◌, ◌≡◌,
}
use hf_ip.Prelude.Int.{is_negative, pos, ℤ}

-- The commands that `run_cmd` gives to the shell, with the name of the device.
pub data Command : Type 0 where
  ip_link_set_up : List ℕ → Command
  ip_route_add : List ℕ → List ℕ → Command
  ip_address_add : List ℕ → List ℕ → Command

-- `tun_fd` and `dev`, the descriptors that were closed and the commands that were run.
pub record Tap : Type 0 where
  pub tun_fd : ℤ
  pub dev : List ℕ
  pub closed : List ℤ
  pub commands : List Command

-- "10.0.0.5" and "10.0.0.0/24".
abbrev tapaddr_text : List ℕ
tapaddr_text = 49 ∷ 48 ∷ 46 ∷ 48 ∷ 46 ∷ 48 ∷ 46 ∷ 53 ∷ []

abbrev taproute : List ℕ
taproute = 49 ∷ 48 ∷ 46 ∷ 48 ∷ 46 ∷ 48 ∷ 46 ∷ 48 ∷ 47 ∷ 50 ∷ 52 ∷ []

-- What the system answers: `open`; `ioctl`, with the name that it stores; and the results of the
-- three commands.
pub record TapAnswers : Type 0 where
  pub opened : ℤ
  pub attached : ℤ
  pub ifr_name : List ℕ
  pub link : ℤ
  pub route : ℤ
  pub address : ℤ

-- The command is run whatever the others have returned.
unfoldable run_cmd : Command → ℤ → Tap → Tap × ℤ
run_cmd cmd rc t = (record t { commands = t.commands ++ (cmd ∷ []) }, rc)

unfoldable set_if_up : ℤ → Tap → Tap × ℤ
unfolding run_cmd
set_if_up rc t = run_cmd (ip_link_set_up t.dev) rc t

unfoldable set_if_route : List ℕ → ℤ → Tap → Tap × ℤ
unfolding run_cmd
set_if_route cidr rc t = run_cmd (ip_route_add t.dev cidr) rc t

unfoldable set_if_address : List ℕ → ℤ → Tap → Tap × ℤ
unfolding run_cmd
set_if_address cidr rc t = run_cmd (ip_address_add t.dev cidr) rc t

-- `none` is `exit`. The result is `tun_fd`; a failed `ioctl` closes the descriptor and returns the
-- error in its place.
unfoldable tun_alloc : TapAnswers → Tap → Option (Tap × ℤ)
tun_alloc a t =
    if is_negative a.opened
    then none
    else (if is_negative a.attached
        then some (record t { closed = t.closed ++ (a.opened ∷ []) }, a.attached)
        else some (record t { dev = a.ifr_name }, a.opened))

-- What follows `tun_alloc`.
abbrev set_up : TapAnswers → Option (Tap × ℤ) → Option Tap
set_up a none = none
set_up a (some (t, fd)) =
    let (t1, up) = set_if_up a.link (record t { tun_fd = fd }) in
    let (t2, routed) = set_if_route taproute a.route t1 in
    some (set_if_address tapaddr_text a.address t2).0

-- `tun_init`: a failure of a command is only reported, and one of `tun_alloc` not at all.
unfoldable pub tun_init : TapAnswers → Option Tap
unfolding tun_alloc set_if_up set_if_route set_if_address
tun_init a =
    set_up a (tun_alloc a (record { tun_fd = pos 0; dev = []; closed = []; commands = [] }))

-- If the device can be opened, the start gives the shell the three commands in their order, for
-- the name that the kernel has given, or for none if it has not; the descriptor that is kept is the
-- one that was opened, or the error of `ioctl`.
pub tun_init-commands :
    (a : TapAnswers)
    → is_negative a.opened ≡ false
    → let name = if is_negative a.attached then [] else a.ifr_name in
      (t : Tap) × (tun_init a ≡ some t)
      × (t.commands
          ≡ ip_link_set_up name
            ∷ ip_route_add name taproute
            ∷ ip_address_add name tapaddr_text
            ∷ [])
      × (t.tun_fd ≡ (if is_negative a.attached then a.attached else a.opened))
unfolding tun_init tun_alloc set_if_up set_if_route set_if_address run_cmd
tun_init-commands a h = elim (Bool-cases (is_negative a.attached)) [
  | inl e ↦ rw (h, e) (_, refl, refl, refl)
  | inr e ↦ rw (h, e) (_, refl, refl, refl)
]
