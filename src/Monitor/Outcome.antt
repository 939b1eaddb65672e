-- ===== src/Monitor/Outcome.antt =====
-- What comes of nethogsmonitor_init (src/libnethogs.cpp): its status and the handles.
use nethogs.Base.{
  ℕ, zero, suc, ◌+◌, ◌≤◌, ◌<◌, ◌≡◌, refl, sym, ap, ◌∙◌, Bool, true, false, Option, none, some, List,
  [], ◌∷◌, arith, length, ◌==◌, Option-cases, inl, inr, Bool-cases, if◌then◌else◌,
}
use nethogs.Decpcap.{LinkType}
use nethogs.Devices.{get_devices}
use nethogs.Opening.{
  Pcap, Handle, new_handle, Watched, dp_open_live, open_device, add_fd, create_self_pipe,
}
use nethogs.Monitor.{
  Status, status_ok, status_failure, status_no_device, System, Monitor, Setup, init_loop,
  init_status, init_devices, nethogsmonitor_init, setup, started, located, count_failed, opened,
  with_pipe, put_addrs,
}
use nethogs.Monitor.Starting.{Answers, round_some}

module _ (pcap : Pcap) (filter : Option (List ℕ)) where
  -- The handles of the devices that can be opened, each put before those that are there.
  unfoldable pub opened_onto : List (List ℕ) → List Handle → List Handle
  opened_onto [] handles = handles
  opened_onto (d ∷ devices) handles = elim (dp_open_live pcap d 0 filter) [
    | none ↦ opened_onto devices handles
    | some linktype ↦ opened_onto devices (new_handle d linktype ∷ handles)
  ]

  unfoldable pub can_open : List (List ℕ) → Bool
  can_open [] = false
  can_open (d ∷ devices) = elim (dp_open_live pcap d 0 filter) [
    | none ↦ can_open devices
    | some linktype ↦ true
  ]

  -- No device, none that can be opened, or one at least.
  unfoldable pub status_of : List (List ℕ) → Status
  status_of [] = status_no_device
  status_of (d ∷ devices) = if can_open (d ∷ devices) then status_ok else status_failure

  module _ (d : List ℕ) (devices : List (List ℕ)) (handles : List Handle) where
    shut_next :
        dp_open_live pcap d 0 filter ≡ none
        → (opened_onto (d ∷ devices) handles ≡ opened_onto devices handles)
          × (can_open (d ∷ devices) ≡ can_open devices)
    unfolding opened_onto can_open
    shut_next e = (rw (e, opened_onto) refl, rw (e, can_open) refl)

    open_next :
        (linktype : LinkType)
        → dp_open_live pcap d 0 filter ≡ some linktype
        → (opened_onto (d ∷ devices) handles
            ≡ opened_onto devices (new_handle d linktype ∷ handles))
          × (can_open (d ∷ devices) ≡ true)
    unfolding opened_onto can_open
    open_next linktype e = (rw (e, opened_onto) refl, rw (e, can_open) refl)

selected-handles :
    (b : Bool) (fd : Option ℕ) (w : Watched) → (if b then add_fd fd w else w).handles ≡ w.handles
selected-handles false fd w = refl
selected-handles true none w = refl
selected-handles true (some fd) w = refl

open_device-none :
    (pcap : Pcap) (filter : Option (List ℕ)) (d : List ℕ) (w : Watched)
    → dp_open_live pcap d 0 filter ≡ none
    → open_device pcap filter d w ≡ none
unfolding open_device
open_device-none pcap filter d w e = rw (e, open_device) refl

open_device-some :
    (pcap : Pcap) (filter : Option (List ℕ)) (d : List ℕ) (w : Watched) (linktype : LinkType)
    → dp_open_live pcap d 0 filter ≡ some linktype
    → (w' : Watched) × (open_device pcap filter d w ≡ some w')
      × (w'.handles ≡ new_handle d linktype ∷ w.handles)
unfolding open_device
open_device-some pcap filter d w linktype e =
    let w1 : Watched = record w { handles = new_handle d linktype ∷ w.handles } in
    (
      if w.use_select then add_fd (pcap.selectable_fd d) w1 else w1,
      rw (e, open_device) refl,
      selected-handles w.use_select (pcap.selectable_fd d) w1,
    )

-- Not all failed, or all.
abbrev Failed : Bool → ℕ → ℕ → Type 0
Failed true failed all = failed < all
Failed false failed all = failed ≡ all

Failed-same : (b : Bool) (failed x y : ℕ) → x ≡ y → Failed b failed x → Failed b failed y
Failed-same b failed x y e h = rw (← e) h

module _ (sys : System) (filter : Option (List ℕ)) where
  record Steady (devices : List (List ℕ)) (v v' : Setup) : Type 0 where
    handles : v'.watched.handles ≡ opened_onto sys.pcap filter devices v.watched.handles
    counted : v'.nb_devices ≡ v.nb_devices + length devices
    failed :
        Failed
          (can_open sys.pcap filter devices)
          v'.nb_failed_devices
          (v.nb_failed_devices + length devices)
    no_more : v'.nb_failed_devices ≤ v.nb_failed_devices + length devices

  loop-Steady :
      (devices : List (List ℕ)) (fuel : ℕ) (v : Setup)
      → ((n : ℕ) → 1 ≤ n → Answers sys n)
      → 1 ≤ v.called
      → length devices ≤ fuel
      → (v' : Setup) × (init_loop fuel sys filter devices v ≡ some v') × Steady devices v v'
  unfolding init_loop opened_onto can_open
  loop-Steady [] fuel v h c e = (
    v,
    refl,
    record { handles = refl; counted = omega arith; failed = omega arith; no_more = omega arith },
  )
  loop-Steady (d ∷ devices) zero v h c e = absurd (omega arith)
  loop-Steady (d ∷ devices) (suc fuel) v h c e =
      let (ifaddr, gives) = h v.called c in
      let start = round_some fuel sys filter d devices v ifaddr gives in
      let v1 = (located sys d (some ifaddr) v).1 in
      elim (Option-cases (dp_open_live sys.pcap d 0 filter)) [
        | inl shut ↦
            let (v', f, st) =
              loop-Steady devices fuel (count_failed v1) h (omega arith) (omega arith) in
            (
              v',
              start
                  ∙ ap (λ o. init_loop fuel sys filter devices (opened o v1))
                      (open_device-none sys.pcap filter d v.watched shut)
                  ∙ f,
              record {
                handles =
                    st.handles ∙ sym (shut_next sys.pcap filter d devices v.watched.handles shut).0;
                counted = omega (arith, st.counted);
                failed = rw (shut_next sys.pcap filter d devices [] shut).1 (
                    Failed-same (can_open sys.pcap filter devices) v'.nb_failed_devices _ _
                      (omega arith) st.failed);
                no_more = omega (arith, st.no_more);
              },
            )
        | inr (linktype, open') ↦
            let (w', o, hs) = open_device-some sys.pcap filter d v.watched linktype open' in
            let (v', f, st) =
              loop-Steady devices fuel (record v1 { watched = w' }) h (omega arith) (omega arith) in
            (
              v',
              start ∙ ap (λ o. init_loop fuel sys filter devices (opened o v1)) o ∙ f,
              record {
                handles =
                    st.handles
                    ∙ ap (opened_onto sys.pcap filter devices) hs
                    ∙ sym (open_next sys.pcap filter d devices v.watched.handles linktype open').0;
                counted = omega (arith, st.counted);
                failed =
                    rw (open_next sys.pcap filter d devices [] linktype open').1
                      (omega (arith, st.no_more));
                no_more = omega (arith, st.no_more);
              },
            )
      ]

pipe-handles :
    (pipe : Option (ℕ × ℕ)) (m : Monitor) → (with_pipe pipe m).watched.handles ≡ m.watched.handles
pipe-handles none m = refl
pipe-handles (some (read, write)) m = refl

pub piped-handles :
    (b : Bool) (pipe : Option (ℕ × ℕ)) (m : Monitor)
    → (if b then with_pipe pipe m else m).watched.handles ≡ m.watched.handles
piped-handles false pipe m = refl
piped-handles true pipe m = pipe-handles pipe m

init_status-Steady :
    (sys : System) (filter : Option (List ℕ)) (d : List ℕ) (devices : List (List ℕ)) (m : Monitor)
    (v : Setup)
    → Steady sys filter (d ∷ devices) (setup m) v
    → (m' : Monitor) × (init_status sys m v ≡ (status_of sys.pcap filter (d ∷ devices), m'))
      × (m'.watched.handles ≡ opened_onto sys.pcap filter (d ∷ devices) m.watched.handles)
unfolding init_status status_of
init_status-Steady sys filter d devices m v st =
    elim (Bool-cases (can_open sys.pcap filter (d ∷ devices))) [
      | inl some' ↦
          let less = rw some' at st.failed in
          let k = st.counted in
          let not_all : (v.nb_devices == v.nb_failed_devices) ≡ false = ground arith in
          (
            (init_status sys m v).1,
            rw (some', not_all, init_status) refl,
            rw (not_all, init_status)
                (piped-handles v.watched.use_select (create_self_pipe sys.pipe sys.nonblocking)
                    (put_addrs m v.local_addrs v.watched)
                  ∙ st.handles),
          )
      | inr none' ↦
          let same = rw none' at st.failed in
          let k = st.counted in
          let all_failed : (v.nb_devices == v.nb_failed_devices) ≡ true = ground arith in
          (
            (init_status sys m v).1,
            rw (none', all_failed, init_status) refl,
            rw (all_failed, init_status) st.handles,
          )
    ]

devices_status :
    (sys : System) (filter : Option (List ℕ)) (devices : List (List ℕ)) (m : Monitor) (fuel : ℕ)
    → ((n : ℕ) → 1 ≤ n → Answers sys n)
    → length devices ≤ fuel
    → (m' : Monitor) × (init_devices fuel sys filter devices m
        ≡ some (status_of sys.pcap filter devices, m'))
      × (m'.watched.handles ≡ opened_onto sys.pcap filter devices m.watched.handles)
unfolding init_devices status_of opened_onto
devices_status sys filter [] m fuel h e = (m, refl, refl)
devices_status sys filter (d ∷ devices) m fuel h e =
    let (v, f, st) = loop-Steady sys filter (d ∷ devices) fuel (setup m) h (omega arith) e in
    let (m', g, hs) = init_status-Steady sys filter d devices m v st in
    (m', rw (f, init_devices, g) refl, hs)

-- Where getifaddrs gives a list from its second call on, as many rounds as there are devices are
-- enough for nethogsmonitor_init. Its status is NETHOGS_STATUS_NO_DEVICE if there is no device,
-- NETHOGS_STATUS_FAILURE if none can be opened, and NETHOGS_STATUS_OK if one can; and the handles are
-- those of the devices that can be opened, before the handles that were there already.
pub nethogsmonitor_init-status_of :
    (sys : System) (filter : Option (List ℕ)) (devicenames : List (List ℕ)) (all : Bool)
    (m : Monitor) (fuel : ℕ)
    → ((n : ℕ) → 1 ≤ n → Answers sys n)
    → length (get_devices devicenames all (sys.getifaddrs 0)) ≤ fuel
    → let devices = get_devices devicenames all (sys.getifaddrs 0) in
      (m' : Monitor) × (nethogsmonitor_init fuel sys filter devicenames all m
        ≡ some (status_of sys.pcap filter devices, m'))
      × (m'.watched.handles ≡ opened_onto sys.pcap filter devices m.watched.handles)
unfolding nethogsmonitor_init started
nethogsmonitor_init-status_of sys filter devicenames all m fuel h e =
    devices_status sys filter (get_devices devicenames all (sys.getifaddrs 0)) (started m) fuel h e
