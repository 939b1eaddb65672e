-- ===== src/Tests/Library.antt =====
-- Trials: the library, with a client that knows one record and a machine with one device.
use nethogs.Base.{
  ℕ, pos, length, ◌≡◌, refl, sym, ◌∙◌, arith, true, false, Option, some, none, List, [], ◌∷◌, All,
  ok, inl, inr, ◌==◌, if◌then◌else◌,
}
use nethogs.LocalAddr.{IfAddr, sin}
use nethogs.Store.{Store}
use nethogs.Store.Live.{Distinct}
use nethogs.Process.{Process}
use nethogs.Decpcap.{dlt_en10mb}
use nethogs.Devices.{get_devices}
use nethogs.Cui.{viewmode_kbps}
use nethogs.Cui.Line.{Line}
use nethogs.Timeouts.{lines_loop}
use nethogs.Safety.Terminal.{AllFit}
use nethogs.Timeouts.Removal.{Drops, NoneSilent}
use nethogs.Safety.{Safely}
use nethogs.Safety.Invariant.{IsSafe}
use nethogs.Safety.Removed.{addresses}
use nethogs.Records.{Library, NethogsMonitorRecord, Action, put, handle_update}
use nethogs.Records.Refresh.{reread, handle_update-lines_loop}
use nethogs.Records.Contents.{Recorded, Listed, handle_update-Recorded}
use nethogs.Records.Client.{Client, Mirrors, put-some}
use nethogs.Opening.{Pcap, new_handle}
use nethogs.Monitor.{Status, System, Monitor, nethogsmonitor_init}
use nethogs.Monitor.Starting.{nethogsmonitor_init-ends, nethogsmonitor_init-never}
use nethogs.Monitor.Outcome.{status_of, opened_onto, nethogsmonitor_init-status_of}
use nethogs.Monitor.Rounds.{Round, arrived, main_loop}
use nethogs.Monitor.Safe.{LoopSafe, main_loop-Safely}
use nethogs.Tests.{at_second, net}
use nethogs.Tests.Monitor.{busy, busy-IsSafe, host, header, frame, args}
use nethogs.Tests.Course.{table_read}

-- The program with connection 1 has a record.
abbrev known : NethogsMonitorRecord
known = record {
  record_id = 1;
  name = none;
  pid = 0;
  uid = 0;
  device_name = [];
  sent_bytes = 101;
  recv_bytes = 62;
  sent_kbs = 0;
  recv_kbs = 0;
}

abbrev library : Library
library = record {
  world = busy;
  monitor_record_map = put (λ a. none) 2 (some known);
  last_record_id = 1;
}

abbrev pub client : Client
client = put (λ i. none) 1 (some known)

abbrev pub tokbps : ℕ → ℕ
tokbps bytes = bytes

only_known :
    (i a : ℕ) (e : NethogsMonitorRecord)
    → put (λ b. none) i (some known) a ≡ some e
    → (i ≡ a) × (e ≡ known)
only_known i a e h = elim (put-some (λ b. none) i a known e h) [
  | inl same ↦ same
  | inr (n, f) ↦ absurd (ground arith)
]

pub client-Mirrors : Mirrors library.monitor_record_map 1 client
client-Mirrors = record {
  numbered = λ a e h. let (x, s) = only_known 2 a e h in rw s (omega arith);
  own = λ a b e f h k q.
      let (x, s) = only_known 2 a e h in let (y, t) = only_known 2 b f k in sym x ∙ y;
  told = λ a e h. let (x, s) = only_known 2 a e h in (known, rw s refl, rw s refl);
  listed = λ i x h. let (y, s) = only_known 1 i x h in (2, known, refl, y);
}

busy-AllFit : AllFit busy.processes
busy-AllFit = (refl, (refl, (refl, tt)))

handle_update-lines_loop_example :
    (l' : Library) × (calls : List Action) × (kept ps : List Process) × (lines : List Line)
    × (store : Store) × (handle_update tokbps host library ≡ ok (l', calls))
    × Drops (reread library busy.conninode).world busy.processes kept
    × NoneSilent (reread library busy.conninode).world kept
    × (lines_loop (pos viewmode_kbps) (length kept) 0 busy.curtime busy.store kept
        ≡ ok (lines, ps, store))
    × (l'.world ≡ record busy { processes = ps; store = store })
    × IsSafe l'.world
handle_update-lines_loop_example =
    handle_update-lines_loop tokbps host library busy.conninode busy-IsSafe table_read busy-AllFit

handle_update-Recorded_example :
    (l' : Library) × (calls : List Action) × (handle_update tokbps host library ≡ ok (l', calls))
    × All (Recorded l'.world.store l'.monitor_record_map) l'.world.processes
    × Listed l'.monitor_record_map l'.world.processes
    × Distinct (addresses l'.world.processes)
handle_update-Recorded_example =
    handle_update-Recorded tokbps host library busy.conninode busy-IsSafe table_read
      ((ground arith, (ground arith, tt)), ((ground arith, tt), (tt, tt)))
      (λ a e h. inl (only_known 2 a e h).0)

-- One device, up and running, that can be opened.
abbrev pub entry : IfAddr
entry = record { ifa_name = b'e' ∷ []; ifa_addr = some (sin 1); ifa_flags = 65 }

abbrev pub pcap : Pcap
pcap = record {
  open_live = λ d promisc. some dlt_en10mb;
  compiles = λ d f. true;
  sets_filter = λ d f. true;
  selectable_fd = λ d. some 5;
}

-- The second call of getifaddrs fails, or all after the first, or none.
abbrev pub system : (ℕ → Option (List IfAddr)) → System
system getifaddrs = record {
  getifaddrs = getifaddrs;
  pcap = pcap;
  pipe = some (6, 7);
  nonblocking = λ fd. true;
  net = net;
  raw = record { raw_addr = 0; raw_addr6 = []; raw_string = []; raw_stack = [] };
}

abbrev once_failing : ℕ → Option (List IfAddr)
once_failing n = if n == 1 then none else some (entry ∷ [])

abbrev first_only : ℕ → Option (List IfAddr)
first_only n = if n == 0 then some (entry ∷ []) else none

abbrev pub always : ℕ → Option (List IfAddr)
always n = some (entry ∷ [])

abbrev monitor : Monitor
monitor = record {
  library = library;
  watched = record { handles = []; fd_list = []; use_select = true };
  run_flag = false;
  last_refresh_time = 0;
  self_pipe = none;
}

one_device : get_devices [] false (some (entry ∷ [])) ≡ (b'e' ∷ []) ∷ []
unfolding get_devices
one_device = refl

nethogsmonitor_init-ends_example :
    (r : Status × Monitor) × (nethogsmonitor_init 3 (system once_failing) none [] false monitor
      ≡ some r)
nethogsmonitor_init-ends_example =
    nethogsmonitor_init-ends (system once_failing) none [] false monitor 2 3
      (λ n e. (entry ∷ [], ground arith)) (rw one_device (omega arith))

nethogsmonitor_init-never_example :
    nethogsmonitor_init 9 (system first_only) none [] false monitor ≡ none
nethogsmonitor_init-never_example =
    nethogsmonitor_init-never (system first_only) none [] false monitor (b'e' ∷ []) [] 9 one_device
      (λ n e. ground arith)

nethogsmonitor_init-status_of_example :
    let devices = get_devices [] false (some (entry ∷ [])) in
    (m' : Monitor) × (nethogsmonitor_init 1 (system always) none [] false monitor
      ≡ some (status_of pcap none devices, m'))
    × (m'.watched.handles ≡ opened_onto pcap none devices [])
nethogsmonitor_init-status_of_example =
    nethogsmonitor_init-status_of (system always) none [] false monitor 1
      (λ n e. (entry ∷ [], refl)) (rw one_device (omega arith))

-- A packet and a refresh, then silence until the client breaks the loop.
abbrev a_round : Round
a_round = record {
  run_flag = true;
  arrivals = λ d. arrived ((header, frame) ∷ []);
  clock = at_second 320;
  now = 320;
  select = λ nfds fds. some [];
  host = host;
}

abbrev pub course : List Round
course = a_round ∷ record a_round { run_flag = false } ∷ []

abbrev pub open_monitor : Monitor
open_monitor = record monitor {
  watched = record monitor.watched { handles = new_handle (b'e' ∷ []) dlt_en10mb ∷ [] };
}

main_loop-Safely_example : Safely LoopSafe (main_loop tokbps course (open_monitor, args))
main_loop-Safely_example =
    main_loop-Safely tokbps course (open_monitor, args) busy-IsSafe (refl, tt)
