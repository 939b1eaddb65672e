-- ===== src/Monitor/Session.antt =====
-- A session of the library from its start: nethogsmonitor_loop_devices as a whole
-- (src/libnethogs.cpp).
use nethogs.Base.{
  ℕ, ◌≤◌, ◌<◌, ◌^◌, ◌≡◌, ◌≢◌, refl, sym, ap, ◌∙◌, Bool, true, false, Option, none, some, List, [],
  ◌∷◌, All, arith, length, Result, ok, Leaves-of_ok, inl, inr, Bool-cases, ◌==◌, if◌then◌else◌,
  Option-cases,
}
use nethogs.LocalAddr.{LocalAddr}
use nethogs.World.{initial_world}
use nethogs.Callbacks.{DpArgs}
use nethogs.Devices.{get_devices}
use nethogs.Timeouts.{process_init}
use nethogs.Opening.{Pcap, Handle, new_handle, dp_open_live, create_self_pipe}
use nethogs.Records.{Action}
use nethogs.Records.Client.{Client, Mirrors, listen_all}
use nethogs.Safety.{Safely, Safely-both}
use nethogs.Safety.Invariant.{IsSafe}
use nethogs.Safety.Refresh.{process_init-IsSafe}
use nethogs.Monitor.{
  Status, status_ok, Monitor, System, Setup, initial_monitor, setup, started, with_pipe, put_addrs,
  init_status, init_devices, nethogsmonitor_init,
}
use nethogs.Monitor.Starting.{Answers}
use nethogs.Monitor.Outcome.{opened_onto, status_of, nethogsmonitor_init-status_of}
use nethogs.Monitor.Rounds.{Round, main_loop, nethogsmonitor_loop_devices}
use nethogs.Monitor.Safe.{IsOpen, LoopSafe, main_loop-Safely}
use nethogs.Monitor.Mirroring.{Hears, main_loop-Mirrors}
use nethogs.Program.{setup_loop}
use nethogs.Program.Devices.{setup_loop-init_loop}
use nethogs.Program.Main.Outcome.{Addressed, HasAddress, setup_loop-HasAddress}

opened_onto-IsOpen :
    (pcap : Pcap) (filter : Option (List ℕ)) (devices : List (List ℕ)) (handles : List Handle)
    → All IsOpen handles
    → All IsOpen (opened_onto pcap filter devices handles)
unfolding opened_onto
opened_onto-IsOpen pcap filter [] handles h = h
opened_onto-IsOpen pcap filter (d ∷ devices) handles h =
    elim (Option-cases (dp_open_live pcap d 0 filter)) [
      | inl shut ↦ rw (shut, opened_onto) (opened_onto-IsOpen pcap filter devices handles h)
      | inr (linktype, open') ↦
          rw (open', opened_onto)
            (opened_onto-IsOpen pcap filter devices (new_handle d linktype ∷ handles) (refl, h))
    ]

-- A client that has heard nothing.
abbrev pub silent : Client
silent id = none

nothing-Mirrors : Mirrors (λ process. none) 0 silent
nothing-Mirrors = record {
  numbered = λ a e h. absurd (ground (arith, h));
  own = λ a b e f h. absurd (ground (arith, h));
  told = λ a e h. absurd (ground (arith, h));
  listed = λ i x h. absurd (ground (arith, h));
}

piped-library :
    (b : Bool) (pipe : Option (ℕ × ℕ)) (m : Monitor)
    → (if b then with_pipe pipe m else m).library ≡ m.library
piped-library false pipe m = refl
piped-library true none m = refl
piped-library true (some (read, write)) m = refl

-- Whatever its status, nethogsmonitor_init changes nothing more in the library than the addresses.
status-library :
    (sys : System) (m : Monitor) (v : Setup)
    → (init_status sys m v).1.library ≡ (put_addrs m v.local_addrs v.watched).library
unfolding init_status
status-library sys m v = elim (Bool-cases (v.nb_devices == v.nb_failed_devices)) [
  | inl all_failed ↦ rw all_failed refl
  | inr some_open ↦ rw some_open (
      piped-library v.watched.use_select (create_self_pipe sys.pipe sys.nonblocking)
        (put_addrs m v.local_addrs v.watched))
]

addressed-IsSafe :
    (addrs : List LocalAddr)
    → HasAddress addrs
    → IsSafe (record (process_init initial_world) { local_addrs = addrs })
unfolding process_init
addressed-IsSafe addrs (l, ls, e) =
    process_init-IsSafe false (record initial_world { local_addrs = addrs }) l ls e refl refl

Safely-of : {A : Type 0} (P : A → Type 0) (v : A) (m : Result A) → Safely P m → m ≡ ok v → P v
Safely-of P v m h e = rw e at h

module _ (sys : System) (filter : Option (List ℕ)) where
  -- What the devices leave in the library.
  init-library :
      (fuel : ℕ) (devices : List (List ℕ)) (st : Status) (m : Monitor)
      → ((n : ℕ) → 1 ≤ n → Answers sys n)
      → Addressed sys devices
      → length devices ≤ fuel
      → devices ≢ []
      → init_devices fuel sys filter devices (started initial_monitor) ≡ some (st, m)
      → (addrs : List LocalAddr) × HasAddress addrs
        × (m.library ≡ (put_addrs (started initial_monitor) addrs m.watched).library)
  unfolding init_devices
  init-library fuel [] st m answers h e some_device gives = absurd (some_device refl)
  init-library fuel (d ∷ devices) st m answers h e some_device gives =
      let v = setup (started initial_monitor) in
      let (v', f, g) =
        setup_loop-init_loop sys filter (d ∷ devices) fuel v answers (omega arith) e in
      let has =
        Safely-of (λ (u : Setup). HasAddress u.local_addrs) v'
          (setup_loop sys 0 filter (d ∷ devices) v)
          (setup_loop-HasAddress sys 0 filter (d ∷ devices) v (omega arith) h
            (λ k. absurd (ground (arith, k))))
          f in
      let both : some (init_status sys (started initial_monitor) v') ≡ some (st, m) =
        rw (g, init_devices) at gives in
      let same : init_status sys (started initial_monitor) v' ≡ (st, m) = cc in
      (
        v'.local_addrs,
        has,
        sym (ap (λ x. x.1.library) same) ∙ status-library sys (started initial_monitor) v',
      )

-- What a session leaves: a safe state, and the records of the library with the client, as long as the
-- ids do not overflow.
abbrev pub SessionSafe : Option Status × (Monitor × DpArgs) × List Action → Type 0
SessionSafe (st, x, calls) =
    IsSafe x.0.library.world × (length calls < 2 ^ 31 → Hears x.0.library (listen_all calls silent))

module _ (tokbps : ℕ → ℕ) (sys : System) (filter : Option (List ℕ)) where
  opens_some :
      (devices : List (List ℕ)) → status_of sys.pcap filter devices ≡ status_ok → devices ≢ []
  unfolding status_of
  opens_some [] well none' = ground (arith, well)
  opens_some (d ∷ devices) well none' = ground (arith, none')

  -- The main loop behind nethogsmonitor_init.
  opened-SessionSafe :
      (rounds : List Round) (m : Monitor) (args : DpArgs) (addrs : List LocalAddr)
      → HasAddress addrs
      → m.library ≡ (put_addrs (started initial_monitor) addrs m.watched).library
      → All IsOpen m.watched.handles
      → Safely SessionSafe (main_loop tokbps rounds (record m { run_flag = true }, args))
  unfolding started
  opened-SessionSafe rounds m args addrs has same unclosed =
      let x : Monitor × DpArgs = (record m { run_flag = true }, args) in
      let safe : IsSafe m.library.world = rw same (addressed-IsSafe addrs has) in
      let hears : Hears m.library silent = rw same nothing-Mirrors in
      let first : m.library.last_record_id ≡ 0 = rw same refl in
      Safely-both LoopSafe
        (λ (y : Option Status × (Monitor × DpArgs) × List Action).
          length y.2 < 2 ^ 31 → Hears y.1.0.library (listen_all y.2 silent))
        (main_loop tokbps rounds x) (main_loop-Safely tokbps rounds x safe unclosed)
        (Leaves-of_ok _ (main_loop tokbps rounds x) (λ y e below.
          main_loop-Mirrors tokbps rounds x y.1 y.0 y.2 silent (safe, unclosed) hears e
            (omega (arith, first, below))))

  -- From the start of the library, where getifaddrs gives a list from its second call on, with an
  -- address of each device, and one device at least can be opened: nethogsmonitor_loop_devices ends
  -- its setup, in as many rounds as there are devices, and runs its loop. Whatever the devices then
  -- deliver and whenever the client breaks the loop, no NULL and no deleted pointer is followed, no
  -- closed handle is used and no assertion fails. After any number of rounds the lists are safe, and a
  -- client that has heard all calls has the records of the library, but for the names of devices, if
  -- there were fewer than 2^31 calls; or the program has ended by exit or by the read past the end of
  -- a command line.
  pub nethogsmonitor_loop_devices-SessionSafe :
      (fuel : ℕ) (devicenames : List (List ℕ)) (all : Bool) (rounds : List Round) (args : DpArgs)
      → ((n : ℕ) → 1 ≤ n → Answers sys n)
      → Addressed sys (get_devices devicenames all (sys.getifaddrs 0))
      → length (get_devices devicenames all (sys.getifaddrs 0)) ≤ fuel
      → status_of sys.pcap filter (get_devices devicenames all (sys.getifaddrs 0)) ≡ status_ok
      → (r : Result (Option Status × (Monitor × DpArgs) × List Action))
        × (nethogsmonitor_loop_devices tokbps fuel sys filter devicenames all rounds
              (initial_monitor, args)
            ≡ some r)
        × Safely SessionSafe r
  unfolding nethogsmonitor_loop_devices nethogsmonitor_init opened_onto
  nethogsmonitor_loop_devices-SessionSafe fuel devicenames all rounds args answers h e well =
      let devices = get_devices devicenames all (sys.getifaddrs 0) in
      let (m, gives, handles) =
        nethogsmonitor_init-status_of sys filter devicenames all initial_monitor fuel answers e in
      let ends = gives ∙ ap (λ st. some (st, m)) well in
      let (addrs, has, same) =
        init-library sys filter fuel devices status_ok m answers h e (opens_some devices well)
          ends in
      (
        main_loop tokbps rounds (record m { run_flag = true }, args),
        rw (nethogsmonitor_loop_devices, ends) refl,
        opened-SessionSafe rounds m args addrs has same
            (rw handles (opened_onto-IsOpen sys.pcap filter devices [] tt)),
      )
