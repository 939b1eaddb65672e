-- ===== src/Program/Main/Outcome.antt =====
-- Nothing goes wrong in the command line program, from its options to its end (src/main.cpp).
use nethogs.Base.{
  ℕ, ℤ, ◌≡◌, ◌≢◌, ◌≤◌, ◌⊎◌, refl, Bool, true, false, Option, none, some, List, [], ◌∷◌, All, In,
  inl, inr, arith, exited, guard, ◌==◌, not, Option-cases,
}
use nethogs.LocalAddr.{
  LocalAddr, IfAddr, SockAddr, sin, sin6, other, contains, contains6, get_local,
}
use nethogs.LocalAddr.Contains.{Owns, IsInternet, is_local, get_local-is_local}
use nethogs.World.{World, initial_world}
use nethogs.Callbacks.{DpArgs}
use nethogs.Devices.{get_devices}
use nethogs.Timeouts.{process_init}
use nethogs.Opening.{Watched, create_self_pipe}
use nethogs.Monitor.{System, Setup, located}
use nethogs.Program.Devices.{main_device-called}
use nethogs.Safety.{Safely, Safely-bind, Anything, guard-Safely}
use nethogs.Safety.Refresh.{process_init-IsSafe}
use nethogs.Showing.Refresh.{process_init-IsShowable}
use nethogs.Program.{
  Options, initial, Parsed, ends, goes_on, parse_options, is_privileged, is_empty, or_exit,
  main_device, setup_loop, main_setup,
}
use nethogs.Program.Rounds.{Turn, Running, Drawn, program_loop}
use nethogs.Program.Safe.{IsSound, TurnFits, Looped, program_loop-Safely}
use nethogs.Program.Main.{begun, main}

-- From its second call on, getifaddrs finds an address of each of these devices.
abbrev pub Addressed : System → List (List ℕ) → Type 0
Addressed sys devices =
    (n : ℕ) (entries : List IfAddr) (device : List ℕ)
    → 1 ≤ n
    → sys.getifaddrs n ≡ some entries
    → In device devices
    → (a : SockAddr) × IsInternet a × Owns device a entries

abbrev pub HasAddress : List LocalAddr → Type 0
HasAddress addrs = (l : LocalAddr) × (ls : List LocalAddr) × (addrs ≡ l ∷ ls)

local-HasAddress :
    (a : SockAddr) (addrs : List LocalAddr) → is_local a addrs ≡ true → HasAddress addrs
unfolding contains contains6
local-HasAddress (sin b) [] e = absurd (ground (arith, e))
local-HasAddress (sin6 b) [] e = absurd (ground (arith, e))
local-HasAddress other [] e = absurd (ground (arith, e))
local-HasAddress a (l ∷ ls) e = (l, ls, refl)

module _ (sys : System) (promisc : ℕ) (filter : Option (List ℕ)) where
  -- The loop goes on only where getLocal has found an address.
  pub setup_loop-HasAddress :
      (devices : List (List ℕ)) (v : Setup)
      → 1 ≤ v.called
      → Addressed sys devices
      → (devices ≡ [] → HasAddress v.local_addrs)
      → Safely (λ (v' : Setup). HasAddress v'.local_addrs) (setup_loop sys promisc filter devices v)
  unfolding setup_loop get_local
  setup_loop-HasAddress [] v c h k = k refl
  setup_loop-HasAddress (d ∷ devices) v c h k = elim (Option-cases (sys.getifaddrs v.called)) [
    | inl failed ↦ rw (failed, setup_loop) tt
    | inr (entries, gives) ↦
        let (a, internet, owns) = h v.called entries d c gives (inl refl) in
        let v1 = (located sys d (some entries) v).1 in
        let has : HasAddress v1.local_addrs =
          local-HasAddress a v1.local_addrs (
            (get_local-is_local sys.net sys.raw d a entries v.local_addrs internet).1 (inl owns)) in
        let v2 = main_device sys.pcap promisc filter d v1 in
        let (called, addrs) = main_device-called sys.pcap promisc filter d v1 in
        let below : 1 ≤ v2.called = omega arith in
        rw (gives, setup_loop)
          (setup_loop-HasAddress devices v2 below (λ n es e m g i. h n es e m g (inr i))
            (λ _. rw addrs has))
  ]

-- What process_init and the devices leave is sound.
begun-IsSound :
    (catchall : Bool) (addrs : List LocalAddr)
    → HasAddress addrs
    → IsSound (record (process_init (record initial_world { catchall = catchall })) {
      local_addrs = addrs;
    })
unfolding process_init
begun-IsSound true addrs (l, ls, e) =
    let w = record initial_world { local_addrs = addrs } in
    (
      process_init-IsSafe true w l ls e refl refl,
      process_init-IsShowable true w (λ inode node h. absurd (ground (arith, h))),
    )
begun-IsSound false addrs (l, ls, e) =
    let w = record initial_world { local_addrs = addrs } in
    (
      process_init-IsSafe false w l ls e refl refl,
      process_init-IsShowable false w (λ inode node h. absurd (ground (arith, h))),
    )

nonempty : (devices : List (List ℕ)) → not (is_empty devices) ≡ true → devices ≢ []
nonempty [] h e = ground (arith, h)
nonempty (d ∷ devices) h e = ground (arith, e)

or_exit-Safely : {A : Type 0} (o : Option A) → Safely Anything (or_exit o)
or_exit-Safely none = tt
or_exit-Safely (some a) = tt

-- A test that ends the program, and what is known behind it.
guard-holds : (b : Bool) → Safely (λ u. b ≡ true) (guard b exited)
guard-holds true = refl
guard-holds false = tt

abbrev Begun : World × Watched × (ℕ × ℕ) → Type 0
Begun x = IsSound x.0

module _ (sys : System) (privileges : ℕ × Bool × ℕ) (devicenames : List (List ℕ))
    (o : Options) where
  main_setup-Safely :
      Addressed sys (get_devices devicenames o.all (sys.getifaddrs 0))
      → Safely Begun (main_setup sys privileges devicenames o initial_world)
  unfolding main_setup
  main_setup-Safely h =
      let devices = get_devices devicenames o.all (sys.getifaddrs 0) in
      let (euid, found, permitted) = privileges in
      Safely-bind _ Begun (guard (not (is_empty devices)) exited) _
        (guard-holds (not (is_empty devices)))
        (λ _ some_device.
          Safely-bind Anything Begun (guard (is_privileged euid found permitted) exited) _
            (guard-Safely (is_privileged euid found permitted))
            (λ _ _.
              Safely-bind Anything Begun (or_exit (create_self_pipe sys.pipe sys.nonblocking)) _
                (or_exit-Safely (create_self_pipe sys.pipe sys.nonblocking))
                (λ pipe _.
                  Safely-bind (λ (v : Setup). HasAddress v.local_addrs) Begun
                    (setup_loop sys o.promisc o.filter devices _) _
                    (setup_loop-HasAddress sys o.promisc o.filter devices _ (omega arith) h
                      (λ e. absurd (nonempty devices some_device e)))
                    (λ v has.
                      Safely-bind Anything Begun
                        (guard (not (v.nb_devices == v.nb_failed_devices)) exited) _
                        (guard-Safely (not (v.nb_devices == v.nb_failed_devices)))
                        (λ _ _. begun-IsSound o.catchall v.local_addrs has)))))

Parsed-cases :
    (p : Parsed) → ((success : Bool) × (p ≡ ends success)) ⊎ ((o : Options) × (p ≡ goes_on o))
Parsed-cases (ends success) = inl (success, refl)
Parsed-cases (goes_on o) = inr (o, refl)

abbrev pub Sound : Option (List ℕ) × Running × List Drawn → Type 0
Sound x = IsSound x.1.world

module _ (value : ℤ → ℕ → ℕ) (number : ℕ → List ℕ) (sys : System) (privileges : ℕ × Bool × ℕ)
    (userdata : DpArgs) where
  -- Whatever the options and whoever runs the program, where getifaddrs finds an address of each
  -- device that is watched, and /proc never has a process id above PID_MAX: main follows no NULL and
  -- no deleted pointer and fails no assertion, those of class Line included, however the turns of its
  -- loop go, with captured packets, keys, refreshes in whatever view mode, a trace with its
  -- unknown connections or a screen of whatever size. After any number of turns the state is safe and
  -- can be shown, or the program has ended by exit or by the read past the end of a command line.
  pub main-Safely :
      (opts : List (ℕ × List ℕ)) (devicenames : List (List ℕ)) (turns : List Turn)
      → ((o : Options)
          → parse_options opts initial ≡ goes_on o
          → Addressed sys (get_devices devicenames o.all (sys.getifaddrs 0)))
      → All TurnFits turns
      → Safely Sound (main value number sys privileges userdata opts devicenames turns)
  unfolding main begun
  main-Safely opts devicenames turns h fit = elim (Parsed-cases (parse_options opts initial)) [
    | inl (success, stops) ↦ rw (stops, main) tt
    | inr (o, goes) ↦
        let loop = λ (start : World × Watched × (ℕ × ℕ)).
          program_loop value number o turns (begun o userdata start) in
        rw (goes, main)
          (Safely-bind Begun Sound (main_setup sys privileges devicenames o initial_world) _
            (main_setup-Safely sys privileges devicenames o (h o goes))
            (λ start sound.
              Safely-bind Looped Sound (loop start) _
                (program_loop-Safely value number o turns (begun o userdata start) fit sound)
                (λ x k. k)))
  ]
