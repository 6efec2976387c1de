-- ===== src/Net/Settings.antt =====
-- The programs that change `eth0`. The kernel keeps the flags, the address and the netmask of the
-- interface; whether its calls succeed is a parameter.
use linux_app_samp.Base.{
  if◌then◌else◌, Bytes, codes, ℕ, ◌≡◌, refl, ◌↔◌, Bool, true, false, not, ◌&&◌, List, ◌∷◌, arith,
}

-- The flags of an interface: IFF_UP, IFF_RUNNING and all others.
pub record Flags : Type 0 where
  pub up : Bool
  pub running : Bool
  pub others : ℕ

pub record Interface : Type 0 where
  pub flags : Flags
  pub address : Bytes
  pub netmask : Bytes
  pub lines : List Bytes  -- what the program prints, the newest first

-- The result of `main`; the messages of `perror` go elsewhere.
pub data Exit : Type 0 where
  success failure : Exit

abbrev pub say : Bytes → Interface → Interface
say line i = record i { lines = line ∷ i.lines }

-- `ioctl` with `SIOCSIFFLAGS`, which sets the flags.
abbrev pub set_flags : (ok : Bool) → Flags → Interface → Interface
set_flags ok flags i = if ok then record i { flags = flags } else i

-- `ifr_flags &= ~(IFF_UP | IFF_RUNNING)`
abbrev pub cleared : Flags → Flags
cleared flags = record flags { up = false; running = false }

-- `main` of network_05ifdown.c. Both calls set the flags: the first sets what the structure holds on
-- the stack, and that is what the second clears.
unfoldable pub ifdown_main : (ok1 ok2 : Bool) → (stack : Flags) → Interface → Exit × Interface
ifdown_main ok1 ok2 stack i =
    let i1 = set_flags ok1 stack i in
    let i2 = set_flags ok2 (cleared stack) i1 in
    if not ok1
    then (failure, i1)
    else if not ok2
    then (failure, i2)
    else (success, say (codes "set eth0 to down\n") i2)

-- `main` of network_03setIpAddr.c
unfoldable pub set_address_main : (ok : Bool) → Interface → Exit × Interface
set_address_main ok i =
    if ok
    then (
      success,
      say (codes "set to 192.168.0.180\n") (record i { address = codes "192.168.0.180" }),
    )
    else (failure, i)

-- `main` of network_04changeNetmask.c
unfoldable pub set_netmask_main : (ok : Bool) → Interface → Exit × Interface
set_netmask_main ok i =
    if ok
    then (
      success,
      say (codes "set Netmask to 255.0.0.0\n") (record i { netmask = codes "255.0.0.0" }),
    )
    else (failure, i)

-- If the program that takes the interface down reports success, the interface is neither up nor
-- running; its other flags are those of the uninitialised structure, whatever they were before. If the
-- second call fails, the flags of the structure stay set; if the first fails, nothing changes.
pub ifdown_flags :
    (ok1 ok2 : Bool) (stack : Flags) (i : Interface)
    → let (exit, after) = ifdown_main ok1 ok2 stack i in
      ((exit ≡ success) ↔ (ok1 && ok2 ≡ true))
      × (after.flags ≡ (
          if ok1
          then if ok2 then record { up = false; running = false; others = stack.others } else stack
          else i.flags))
      × (after.address ≡ i.address)
      × (after.netmask ≡ i.netmask)
unfolding ifdown_main
ifdown_flags true true stack i = ((λ e. refl, λ e. refl), refl, refl, refl)
ifdown_flags true false stack i =
    ((λ e. ground (arith, e), λ e. ground (arith, e)), refl, refl, refl)
ifdown_flags false ok2 stack i =
    ((λ e. ground (arith, e), λ e. ground (arith, e)), refl, refl, refl)
