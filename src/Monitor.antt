-- ===== src/Monitor.antt =====
-- The monitor of the library (src/libnethogs.h, src/libnethogs.cpp): nethogsmonitor_init, the loop of
-- nethogsmonitor_loop_devices, and nethogsmonitor_breakloop.
pub mod Rounds
pub mod Starting
pub mod Outcome
pub mod Safe
pub mod Mirroring
pub mod Session
use nethogs.Base.{
  ℕ, zero, suc, ◌+◌, Bool, true, false, Option, none, some, List, [], ◌∷◌, ◌++◌, ◌==◌, leb,
  if◌then◌else◌, Result, ok, ◌>>=◌, ◌>>◌,
}
use nethogs.LocalAddr.{LocalAddr, AddressText, Raw, IfAddr, get_local}
use nethogs.Packet.{Timeval}
use nethogs.World.{World, Host, initial_world}
use nethogs.Callbacks.{Bytes, DpHeader, DpArgs}
use nethogs.Capture.{dp_dispatch, Monitored}
use nethogs.Devices.{get_devices}
use nethogs.Timeouts.{process_init}
use nethogs.Records.{Library, Action, handle_update}
use nethogs.Opening.{
  Pcap, Handle, Watched, open_device, create_self_pipe, Select, wait_for_next_trigger,
}

-- NETHOGS_STATUS_OK, NETHOGS_STATUS_FAILURE and NETHOGS_STATUS_NO_DEVICE
pub data Status : Type 0 where
  status_ok status_failure status_no_device : Status

-- The globals of the library; self_pipe is `none` while it is (-1, -1).
pub record Monitor : Type 0 where
  pub library : Library
  pub watched : Watched
  pub run_flag : Bool
  pub last_refresh_time : ℕ
  pub self_pipe : Option (ℕ × ℕ)

-- The globals before nethogsmonitor_init.
abbrev pub initial_monitor : Monitor
initial_monitor = record {
  library = record {
    world = initial_world;
    monitor_record_map = λ process. none;
    last_record_id = 0;
  };
  watched = record { handles = []; fd_list = []; use_select = true };
  run_flag = false;
  last_refresh_time = 0;
  self_pipe = none;
}

-- What nethogsmonitor_init finds: the answer of each call of getifaddrs, libpcap, the pipe and
-- whether its ends can be made non-blocking, the texts of addresses, and memory not yet written.
pub record System : Type 0 where
  pub getifaddrs : ℕ → Option (List IfAddr)
  pub pcap : Pcap
  pub pipe : Option (ℕ × ℕ)
  pub nonblocking : ℕ → Bool
  pub net : AddressText
  pub raw : Raw

-- The variables of the loop in nethogsmonitor_init, and the calls of getifaddrs so far.
pub record Setup : Type 0 where
  pub local_addrs : List LocalAddr
  pub watched : Watched
  pub nb_devices : ℕ
  pub nb_failed_devices : ℕ
  pub called : ℕ

-- getLocal for a device, at what getifaddrs gives, and the count.
abbrev pub located : System → List ℕ → Option (List IfAddr) → Setup → Bool × Setup
located sys current_dev ifaddr v =
    let (done, addrs) = get_local sys.net sys.raw current_dev ifaddr v.local_addrs in
    (done, record v { local_addrs = addrs; nb_devices = suc v.nb_devices; called = suc v.called })

abbrev pub count_failed : Setup → Setup
count_failed v = record v { nb_failed_devices = suc v.nb_failed_devices }

abbrev pub opened : Option Watched → Setup → Setup
opened none v = count_failed v
opened (some w) v = record v { watched = w }

-- The loop over the devices, on fuel. If getLocal fails the same device is tried again.
unfoldable pub init_loop : ℕ → System → Option (List ℕ) → List (List ℕ) → Setup → Option Setup
unfolding get_local open_device
init_loop fuel sys filter [] v = some v
init_loop zero sys filter (current_dev ∷ next) v = none
init_loop (suc fuel) sys filter (current_dev ∷ next) v =
    let (done, v') = located sys current_dev (sys.getifaddrs v.called) v in
    elim done [
      | false ↦ init_loop fuel sys filter (current_dev ∷ next) (count_failed v')
      | true ↦
          init_loop fuel sys filter next
            (opened (open_device sys.pcap filter current_dev v'.watched) v')
    ]

abbrev pub put_addrs : Monitor → List LocalAddr → Watched → Monitor
put_addrs m addrs w = record m {
  library = record m.library { world = record m.library.world { local_addrs = addrs } };
  watched = w;
}

-- The pipe is made last, if select is used.
abbrev pub with_pipe : Option (ℕ × ℕ) → Monitor → Monitor
with_pipe none m = record m { self_pipe = none; watched = record m.watched { use_select = false } }
with_pipe (some (read, write)) m = record m {
  self_pipe = some (read, write);
  watched = record m.watched { fd_list = m.watched.fd_list ++ (read ∷ []) };
}

-- After the loop over the devices.
unfoldable pub init_status : System → Monitor → Setup → Status × Monitor
unfolding create_self_pipe
init_status sys m v =
    let m' = put_addrs m v.local_addrs v.watched in
    if v.nb_devices == v.nb_failed_devices then (status_failure, m') else (
      status_ok,
      if v.watched.use_select then with_pipe (create_self_pipe sys.pipe sys.nonblocking) m' else m',
    )

-- Before it: one call of getifaddrs has been made.
abbrev pub setup : Monitor → Setup
setup m = record {
  local_addrs = m.library.world.local_addrs;
  watched = m.watched;
  nb_devices = 0;
  nb_failed_devices = 0;
  called = 1;
}

-- nethogsmonitor_init, after process_init and for the devices that were found.
unfoldable pub init_devices :
    ℕ → System → Option (List ℕ) → List (List ℕ) → Monitor → Option (Status × Monitor)
unfolding init_loop init_status
init_devices fuel sys filter [] m = some (status_no_device, m)
init_devices fuel sys filter (device ∷ devices) m =
    elim (init_loop fuel sys filter (device ∷ devices) (setup m)) [
      | none ↦ none
      | some v ↦ some (init_status sys m v)
    ]

unfoldable pub started : Monitor → Monitor
unfolding process_init
started m = record m { library = record m.library { world = process_init m.library.world } }

-- nethogsmonitor_init; the first call of getifaddrs is that of get_devices.
unfoldable pub nethogsmonitor_init :
    ℕ → System → Option (List ℕ) → List (List ℕ) → Bool → Monitor → Option (Status × Monitor)
unfolding started get_devices init_devices
nethogsmonitor_init fuel sys filter devicenames all m =
    init_devices fuel sys filter (get_devices devicenames all (sys.getifaddrs 0)) (started m)
