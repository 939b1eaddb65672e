-- ===== src/Tests/Start.antt =====
-- Trials: the command line program and the library as a whole, with one process in /proc.
use nethogs.Base.{
  Result, Option, none, arith, ℕ, ◌≡◌, refl, Bool, true, false, some, List, [], ◌∷◌, In, inl, inr,
  if◌then◌else◌,
}
use nethogs.LocalAddr.{sin}
use nethogs.World.{Host}
use nethogs.Callbacks.{Bytes, DpHeader, DpArgs}
use nethogs.Devices.{get_devices}
use nethogs.Inode2Prog.{PidEntry, is_number, str2int}
use nethogs.Opening.{dp_open_live}
use nethogs.Monitor.{Status, Monitor, initial_monitor}
use nethogs.Monitor.Outcome.{status_of, can_open}
use nethogs.Monitor.Rounds.{arrived, nethogsmonitor_loop_devices}
use nethogs.Monitor.Session.{SessionSafe, nethogsmonitor_loop_devices-SessionSafe}
use nethogs.Records.{Action}
use nethogs.Cui.Drawing.{no_entry}
use nethogs.Safety.{Safely}
use nethogs.Showing.{PidsFit}
use nethogs.Program.Rounds.{Turn}
use nethogs.Program.Main.{main}
use nethogs.Program.Main.Outcome.{Addressed, Sound, main-Safely}
use nethogs.Tests.Monitor.{host, header, frame, args}
use nethogs.Tests.Library.{entry, system, always, tokbps, course}

-- Process 7 has the socket with inode 42.
abbrev seven : PidEntry
seven = record {
  d_name = b'7' ∷ [];
  is_dir = true;
  fds = some (
      record {
        is_lnk = true;
        target =
            some (b's' ∷ b'o' ∷ b'c' ∷ b'k' ∷ b'e' ∷ b't' ∷ b':' ∷ b'[' ∷ b'4' ∷ b'2' ∷ b']' ∷ []);
      }
      ∷ []);
}

abbrev one_process : Host
one_process = record host {
  proc = record {
    entries = some (seven ∷ []);
    cmdline_file = λ pid. some (b's' ∷ b'h' ∷ 0 ∷ b'-' ∷ b'c' ∷ 0 ∷ []);
  };
}

one_process-PidsFit : PidsFit one_process.proc
unfolding is_number str2int
one_process-PidsFit entries e =
    let same : (seven ∷ []) ≡ entries = cc in rw (← same) (λ digits. refl, tt)

abbrev turn_with : List (DpHeader × Bytes) → Option ℕ → Turn
turn_with frames key = record {
  arrivals = λ device. arrived frames;
  now = 400;
  key = key;
  rows = 24;
  cols = 80;
  getpwuid = λ uid. no_entry;
  select = λ is_written nfds fds. some (if is_written then 6 ∷ [] else []);
  host = one_process;
}

abbrev turns : List Turn
turns = turn_with ((header, frame) ∷ []) (some b'm') ∷ turn_with [] (some b'q') ∷ []

-- Run by root with the option -C.
abbrev opts : List (ℕ × List ℕ)
opts = (b'C', []) ∷ []

only_device :
    (all : Bool) (d : List ℕ) → In d (get_devices [] all (some (entry ∷ []))) → entry.ifa_name ≡ d
unfolding get_devices
only_device true d (inl e) = e
only_device true d (inr e) = elim e [ ]
only_device false d (inl e) = e
only_device false d (inr e) = elim e [ ]

addressed : (all : Bool) → Addressed (system always) (get_devices [] all (some (entry ∷ [])))
addressed all n entries d from gives listed =
    let same : (entry ∷ []) ≡ entries = cc in
    (sin 1, tt, rw (← same) (inl (only_device all d listed, refl)))

main-Safely_example :
    Safely Sound
      (main (λ mode bytes. bytes) (λ n. []) (system always) (0, false, 0) args opts [] turns)
main-Safely_example =
    main-Safely (λ mode bytes. bytes) (λ n. []) (system always) (0, false, 0) args opts [] turns
      (λ o parsed. addressed o.all) (one_process-PidsFit, (one_process-PidsFit, tt))

-- The same device and two rounds of the library.
nethogsmonitor_loop_devices-SessionSafe_example :
    (r : Result (Option Status × (Monitor × DpArgs) × List Action)) × (nethogsmonitor_loop_devices
        tokbps 1
        (system always)
        none
        []
        false
        course
        (initial_monitor, args)
      ≡ some r)
    × Safely SessionSafe r
unfolding get_devices status_of can_open dp_open_live
nethogsmonitor_loop_devices-SessionSafe_example =
    nethogsmonitor_loop_devices-SessionSafe tokbps (system always) none 1 [] false course args
      (λ n e. (entry ∷ [], refl)) (addressed false) (omega arith) refl
