-- ===== src/Devices.antt =====
-- The choice of the network interfaces to watch (src/devices.h, src/devices.cpp). A list of
-- `device` is the list of their names; the names that are asked for are a list of `devc` texts.
pub mod Choice
use nethogs.Base.{
  ℕ, ◌/◌, ◌%◌, Bool, true, false, not, ◌&&◌, Option, none, some, List, [], ◌∷◌, ◌==◌, bytes_eq,
  if◌then◌else◌,
}
use nethogs.LocalAddr.{IfAddr}

-- The loop of already_seen, and that of selected.
unfoldable pub already_seen : List (List ℕ) → List ℕ → Bool
already_seen [] devicename = false
already_seen (name ∷ next) devicename =
    let rest = already_seen next devicename in if bytes_eq name devicename then true else rest

unfoldable pub selected : List (List ℕ) → List ℕ → Bool
unfolding already_seen
selected [] devicename = true
selected (name ∷ devicenames) devicename = already_seen (name ∷ devicenames) devicename

-- A flag of ifa_flags, by its place: IFF_UP is 1, IFF_LOOPBACK 8, IFF_RUNNING 64.
abbrev pub has_flag : ℕ → ℕ → Bool
has_flag mask flags = (flags / mask) % 2 == 1

-- The interface is up, not a loopback and running?
unfoldable pub up_running : ℕ → Bool
up_running ifa_flags = not (has_flag 8 ifa_flags) && (has_flag 1 ifa_flags && has_flag 64 ifa_flags)

-- One round of the loop of get_devices, for an entry with an address.
unfoldable pub add_device : List (List ℕ) → Bool → List (List ℕ) → IfAddr → List (List ℕ)
unfolding selected already_seen up_running
add_device devicenames all devices ifa =
    if not (selected devicenames ifa.ifa_name)
    then devices
    else (if already_seen devices ifa.ifa_name
        then devices
        else (if not all && not (up_running ifa.ifa_flags)
            then devices
            else ifa.ifa_name ∷ devices))

unfoldable pub get_devices_loop : List (List ℕ) → Bool → List (List ℕ) → List IfAddr → List (List ℕ)
unfolding add_device
get_devices_loop devicenames all devices [] = devices
get_devices_loop devicenames all devices (ifa ∷ ifa_next) = elim ifa.ifa_addr [
  | none ↦ get_devices_loop devicenames all devices ifa_next
  | some a ↦ get_devices_loop devicenames all (add_device devicenames all devices ifa) ifa_next
]

-- get_devices; `none` is a getifaddrs that fails.
unfoldable pub get_devices : List (List ℕ) → Bool → Option (List IfAddr) → List (List ℕ)
unfolding get_devices_loop
get_devices devicenames all none = []
get_devices devicenames all (some ifaddr) = get_devices_loop devicenames all [] ifaddr

unfoldable pub get_default_devices : Option (List IfAddr) → List (List ℕ)
unfolding get_devices
get_default_devices ifaddr = get_devices [] false ifaddr
