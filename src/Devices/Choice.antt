-- ===== src/Devices/Choice.antt =====
-- Which interfaces get_devices chooses (src/devices.cpp).
use nethogs.Base.{
  ℕ, ◌≡◌, refl, Bool, true, false, not, ◌&&◌, ◌||◌, Option, none, some, List, [], ◌∷◌, arith,
  bytes_eq, bytes_eq_sound, if◌then◌else◌, Bool-cases, Option-cases, inl, inr, sym, ap, ◌∙◌,
}
use nethogs.LocalAddr.{IfAddr, SockAddr}
use nethogs.Devices.{already_seen, selected, up_running, add_device, get_devices_loop, get_devices}

abbrev has_address : Option SockAddr → Bool
has_address none = false
has_address (some a) = true

-- An entry that may be watched: it has an address, its name is asked for (or none is), and it is up
-- and running and no loopback unless all are wanted.
abbrev pub is_wanted : List (List ℕ) → Bool → IfAddr → Bool
is_wanted devicenames all ifa =
    has_address ifa.ifa_addr
    && (selected devicenames ifa.ifa_name && (all || up_running ifa.ifa_flags))

-- Some entry that may be watched has the name.
pub offered : List (List ℕ) → Bool → List IfAddr → List ℕ → Bool
offered devicenames all [] name = false
offered devicenames all (ifa ∷ ifas) name =
    (is_wanted devicenames all ifa && bytes_eq ifa.ifa_name name)
    || offered devicenames all ifas name

-- No name stands twice.
abbrev pub NoRepeats : List (List ℕ) → Type 0
NoRepeats [] = Unit
NoRepeats (d ∷ ds) = (already_seen ds d ≡ false) × NoRepeats ds

pushed :
    (ds : List (List ℕ)) (d name : List ℕ)
    → already_seen (if already_seen ds d then ds else d ∷ ds) name
      ≡ (bytes_eq d name || already_seen ds name)
unfolding already_seen
pushed ds d name = elim (Bool-cases (already_seen ds d)) [
  | inr new ↦ elim (Bool-cases (bytes_eq d name)) [
    | inl same ↦ rw (new, same) refl
    | inr different ↦ rw (new, different) refl
  ]
  | inl old ↦ elim (Bool-cases (bytes_eq d name)) [
    | inl same ↦ rw (old, same) (rw (bytes_eq_sound d name same) at old)
    | inr different ↦ rw (old, different) refl
  ]
]

passed_by :
    (b : Bool) (ds : List (List ℕ)) (name : List ℕ)
    → already_seen (if b then ds else ds) name ≡ already_seen ds name
passed_by true ds name = refl
passed_by false ds name = refl

tests :
    (s a u : Bool) (ds : List (List ℕ)) (d name : List ℕ)
    → already_seen
        (if not s
          then ds
          else (if already_seen ds d then ds else (if not a && not u then ds else d ∷ ds)))
        name
      ≡ (((s && (a || u)) && bytes_eq d name) || already_seen ds name)
tests false a u ds d name = refl
tests true true u ds d name = pushed ds d name
tests true false true ds d name = pushed ds d name
tests true false false ds d name = passed_by (already_seen ds d) ds name

assoc : (a b c : Bool) → (a || (b || c)) ≡ ((b || a) || c)
assoc true true c = refl
assoc true false c = refl
assoc false true c = refl
assoc false false c = refl

module _ (devicenames : List (List ℕ)) (all : Bool) where
  add-seen :
      (ds : List (List ℕ)) (ifa : IfAddr) (name : List ℕ)
      → already_seen (add_device devicenames all ds ifa) name ≡ (
          ((selected devicenames ifa.ifa_name && (all || up_running ifa.ifa_flags))
            && bytes_eq ifa.ifa_name name)
          || already_seen ds name)
  unfolding add_device
  add-seen ds ifa name =
      tests (selected devicenames ifa.ifa_name) all (up_running ifa.ifa_flags) ds ifa.ifa_name name

  loop-seen :
      (ifas : List IfAddr) (ds : List (List ℕ)) (name : List ℕ)
      → already_seen (get_devices_loop devicenames all ds ifas) name
        ≡ (already_seen ds name || offered devicenames all ifas name)
  unfolding get_devices_loop offered
  loop-seen [] ds name = ground arith
  loop-seen (ifa ∷ ifas) ds name = elim (Option-cases ifa.ifa_addr) [
    | inl none_there ↦ rw none_there (loop-seen ifas ds name)
    | inr (a, there) ↦ rw there (
        loop-seen ifas (add_device devicenames all ds ifa) name
        ∙ ap (λ b. b || offered devicenames all ifas name) (add-seen ds ifa name)
        ∙ sym (assoc (already_seen ds name) _ _))
  ]

  add-NoRepeats :
      (ds : List (List ℕ)) (ifa : IfAddr)
      → NoRepeats ds
      → NoRepeats (add_device devicenames all ds ifa)
  unfolding add_device
  add-NoRepeats ds ifa n = elim (Bool-cases (selected devicenames ifa.ifa_name)) [
    | inr refused ↦ rw refused n
    | inl asked ↦ elim (Bool-cases (already_seen ds ifa.ifa_name)) [
      | inl old ↦ rw (asked, old) n
      | inr new ↦ elim (Bool-cases (not all && not (up_running ifa.ifa_flags))) [
        | inl off ↦ rw (asked, new, off) n
        | inr on ↦ rw (asked, new, on) (new, n)
      ]
    ]
  ]

  loop-NoRepeats :
      (ifas : List IfAddr) (ds : List (List ℕ))
      → NoRepeats ds
      → NoRepeats (get_devices_loop devicenames all ds ifas)
  unfolding get_devices_loop
  loop-NoRepeats [] ds n = n
  loop-NoRepeats (ifa ∷ ifas) ds n = elim (Option-cases ifa.ifa_addr) [
    | inl none_there ↦ rw none_there (loop-NoRepeats ifas ds n)
    | inr (a, there) ↦
        rw there (loop-NoRepeats ifas (add_device devicenames all ds ifa) (add-NoRepeats ds ifa n))
  ]

-- The devices that get_devices returns are those that some entry of the interface list offers: an
-- entry with an address and a name that is asked for (or none is), which is up and running and no
-- loopback, unless all are wanted. No device is returned twice.
pub get_devices-offered :
    (devicenames : List (List ℕ)) (all : Bool) (ifas : List IfAddr) (name : List ℕ)
    → let devices = get_devices devicenames all (some ifas) in
      (already_seen devices name ≡ offered devicenames all ifas name) × NoRepeats devices
unfolding get_devices
get_devices-offered devicenames all ifas name =
    (loop-seen devicenames all ifas [] name, loop-NoRepeats devicenames all ifas [] tt)
