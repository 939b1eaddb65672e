-- ===== src/Monitor/Starting.antt =====
-- The start of the monitor: nethogsmonitor_init (src/libnethogs.cpp).
use nethogs.Base.{
  ℕ, zero, suc, ◌+◌, ◌-◌, ◌≤◌, ◌<◌, ◌⊎◌, ◌≡◌, refl, ap, ◌∙◌, Bool, true, false, Option, none, some,
  List, [], ◌∷◌, arith, length, Option-cases, inl, inr,
}
use nethogs.LocalAddr.{IfAddr, get_local}
use nethogs.Devices.{get_devices}
use nethogs.Opening.{Watched, open_device}
use nethogs.Monitor.{
  Status, System, Monitor, Setup, init_loop, init_status, init_devices, nethogsmonitor_init, setup,
  started, located, count_failed, opened,
}

-- The n-th call of getifaddrs gives a list.
abbrev pub Answers : System → ℕ → Type 0
Answers sys n = (ifaddr : List IfAddr) × (sys.getifaddrs n ≡ some ifaddr)

le_cases : (a b : ℕ) → (a ≤ b) ⊎ (b < a)
le_cases a b = ground arith

-- A round at what getifaddrs gives.
abbrev round_at :
    ℕ
    → System
    → Option (List ℕ)
    → List ℕ
    → List (List ℕ)
    → Setup
    → Option (List IfAddr)
    → Option Setup
round_at fuel sys filter d next v ifaddr = elim (located sys d ifaddr v).0 [
  | false ↦ init_loop fuel sys filter (d ∷ next) (count_failed (located sys d ifaddr v).1)
  | true ↦
      init_loop fuel sys filter next
        (opened (open_device sys.pcap filter d v.watched) (located sys d ifaddr v).1)
]

-- A round at an answer of getifaddrs, and one without.
pub round_some :
    (fuel : ℕ) (sys : System) (filter : Option (List ℕ)) (d : List ℕ) (next : List (List ℕ))
    (v : Setup) (ifaddr : List IfAddr)
    → sys.getifaddrs v.called ≡ some ifaddr
    → init_loop (suc fuel) sys filter (d ∷ next) v
      ≡ init_loop fuel sys filter next
          (opened (open_device sys.pcap filter d v.watched) (located sys d (some ifaddr) v).1)
unfolding init_loop get_local
round_some fuel sys filter d next v ifaddr gives = ap (round_at fuel sys filter d next v) gives

round_none :
    (fuel : ℕ) (sys : System) (filter : Option (List ℕ)) (d : List ℕ) (next : List (List ℕ))
    (v : Setup)
    → sys.getifaddrs v.called ≡ none
    → init_loop (suc fuel) sys filter (d ∷ next) v
      ≡ init_loop fuel sys filter (d ∷ next) (count_failed (located sys d none v).1)
unfolding init_loop get_local
round_none fuel sys filter d next v fails = ap (round_at fuel sys filter d next v) fails

pub opened-called : (o : Option Watched) (v : Setup) → (opened o v).called ≡ v.called
opened-called none v = refl
opened-called (some w) v = refl

loop_ends :
    (sys : System) (filter : Option (List ℕ)) (devices : List (List ℕ)) (k fuel : ℕ) (v : Setup)
    → ((n : ℕ) → k ≤ n → Answers sys n)
    → (k - v.called) + length devices ≤ fuel
    → (v' : Setup) × (init_loop fuel sys filter devices v ≡ some v')
unfolding init_loop
loop_ends sys filter [] k fuel v h e = (v, refl)
loop_ends sys filter (d ∷ devices) k zero v h e = absurd (omega arith)
loop_ends sys filter (d ∷ devices) k (suc fuel) v h e =
    elim (Option-cases (sys.getifaddrs v.called)) [
      | inl fails ↦
          let early : v.called + 1 ≤ k = elim (le_cases k v.called) [
            | inl late ↦ let a = h v.called late in absurd (ground arith)
            | inr early ↦ omega arith
          ] in
          let (v', f) =
            loop_ends sys filter (d ∷ devices) k fuel (count_failed (located sys d none v).1) h
              (omega arith) in
          (v', round_none fuel sys filter d devices v fails ∙ f)
      | inr (ifaddr, gives) ↦
          let o = open_device sys.pcap filter d v.watched in
          let called = opened-called o (located sys d (some ifaddr) v).1 in
          let (v', f) =
            loop_ends sys filter devices k fuel (opened o (located sys d (some ifaddr) v).1) h
              (omega arith) in
          (v', round_some fuel sys filter d devices v ifaddr gives ∙ f)
    ]

loop_never :
    (sys : System) (filter : Option (List ℕ)) (d : List ℕ) (devices : List (List ℕ)) (fuel : ℕ)
    (v : Setup)
    → ((n : ℕ) → v.called ≤ n → sys.getifaddrs n ≡ none)
    → init_loop fuel sys filter (d ∷ devices) v ≡ none
unfolding init_loop
loop_never sys filter d devices zero v h = refl
loop_never sys filter d devices (suc fuel) v h =
    round_none fuel sys filter d devices v (h v.called (omega arith))
    ∙ loop_never sys filter d devices fuel (count_failed (located sys d none v).1)
        (λ n e. h n (omega arith))

devices_end :
    (sys : System) (filter : Option (List ℕ)) (devices : List (List ℕ)) (m : Monitor) (k fuel : ℕ)
    → ((n : ℕ) → k ≤ n → Answers sys n)
    → k + length devices ≤ fuel
    → (r : Status × Monitor) × (init_devices fuel sys filter devices m ≡ some r)
unfolding init_devices
devices_end sys filter [] m k fuel h e = (_, refl)
devices_end sys filter (d ∷ devices) m k fuel h e =
    let (v, f) = loop_ends sys filter (d ∷ devices) k fuel (setup m) h (omega arith) in
    (init_status sys m v, rw (f, init_devices) refl)

-- If getifaddrs gives a list from its k-th call on, nethogsmonitor_init ends, within as many rounds
-- of its loop as there are calls up to the k-th and devices.
pub nethogsmonitor_init-ends :
    (sys : System) (filter : Option (List ℕ)) (devicenames : List (List ℕ)) (all : Bool)
    (m : Monitor) (k fuel : ℕ)
    → ((n : ℕ) → k ≤ n → Answers sys n)
    → k + length (get_devices devicenames all (sys.getifaddrs 0)) ≤ fuel
    → (r : Status × Monitor) × (nethogsmonitor_init fuel sys filter devicenames all m ≡ some r)
unfolding nethogsmonitor_init
nethogsmonitor_init-ends sys filter devicenames all m k fuel h e =
    devices_end sys filter (get_devices devicenames all (sys.getifaddrs 0)) (started m) k fuel h e

-- If every call of getifaddrs after the first fails and a device was found, nethogsmonitor_init does
-- not end: it has no result, however many rounds of its loop are run.
pub nethogsmonitor_init-never :
    (sys : System) (filter : Option (List ℕ)) (devicenames : List (List ℕ)) (all : Bool)
    (m : Monitor) (d : List ℕ) (devices : List (List ℕ)) (fuel : ℕ)
    → get_devices devicenames all (sys.getifaddrs 0) ≡ d ∷ devices
    → ((n : ℕ) → 1 ≤ n → sys.getifaddrs n ≡ none)
    → nethogsmonitor_init fuel sys filter devicenames all m ≡ none
unfolding nethogsmonitor_init
nethogsmonitor_init-never sys filter devicenames all m d devices fuel e h =
    rw (e, loop_never sys filter d devices fuel (setup (started m)) h, init_devices) refl
