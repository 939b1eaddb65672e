-- ===== src/Monitor/Rounds.antt =====
-- The main loop of the library: nethogsmonitor_loop_devices and nethogsmonitor_loop
-- (src/libnethogs.cpp). The rounds of the loop are given by what each finds.
use nethogs.Base.{
  ℕ, ◌+◌, Bool, true, false, Option, none, some, List, [], ◌∷◌, ◌++◌, leb, if◌then◌else◌, Result,
  ok, ◌>>=◌, ◌>>◌, guard, dangling,
}
use nethogs.Packet.{Timeval}
use nethogs.World.{Host}
use nethogs.Callbacks.{Bytes, DpHeader, DpArgs}
use nethogs.Capture.{dp_dispatch, Monitored}
use nethogs.Records.{Action, handle_update}
use nethogs.Opening.{Handle, Select, wait_for_next_trigger}
use nethogs.Monitor.{Status, status_ok, status_failure, Monitor, System, nethogsmonitor_init}

-- What dp_dispatch does on a handle: it fails, or hands over the packets that have come.
pub data Arrival : Type 0 where
  failed : Arrival
  arrived : List (DpHeader × Bytes) → Arrival

-- What a round of the main loop finds: whether monitor_run_flag is set at its head, what has come
-- on each device, the clock as gettimeofday and as time give it, select, and the host.
pub record Round : Type 0 where
  pub run_flag : Bool
  pub arrivals : List ℕ → Arrival
  pub clock : Timeval
  pub now : ℕ
  pub select : Select
  pub host : Host

abbrev set_curtime : Timeval → Monitored → Monitored
set_curtime t (args, w) = (args, record w { curtime = t })

-- The body of the loop over the handles: whether packets were read, and the state. If none has come
-- the time is set by the clock.
unfoldable pub dispatch_handle : Round → Handle → Arrival → Monitored → Result (Bool × Monitored)
unfolding dp_dispatch
dispatch_handle r handle failed x = do guard handle.is_open dangling; ok (false, x)
dispatch_handle r handle (arrived []) x = do
  guard handle.is_open dangling
  x' ← dp_dispatch r.host handle.linktype handle.devicename [] x
  ok (false, set_curtime r.clock x')
dispatch_handle r handle (arrived (packet ∷ packets)) x = do
  guard handle.is_open dangling
  x' ← dp_dispatch r.host handle.linktype handle.devicename (packet ∷ packets) x
  ok (true, x')

-- The loop over the handles, and `packets_read` after it.
unfoldable pub dispatch_handles : Round → List Handle → Bool → Monitored → Result (Bool × Monitored)
unfolding dispatch_handle
dispatch_handles r [] packets_read x = ok (packets_read, x)
dispatch_handles r (handle ∷ next) packets_read x = do
  (read, x') ← dispatch_handle r handle (r.arrivals handle.devicename) x
  dispatch_handles r next (if read then true else packets_read) x'

abbrev pub monitor_refresh_delay : ℕ
monitor_refresh_delay = 1

-- The refresh of a round, if it is time for one.
unfoldable pub update_if_due : (ℕ → ℕ) → Round → Monitor → Result (Monitor × List Action)
unfolding handle_update
update_if_due tokbps r m =
    if leb (m.last_refresh_time + monitor_refresh_delay) r.now
    then (do
      (l, calls) ← handle_update tokbps r.host m.library
      ok (record m { library = l; last_refresh_time = r.now }, calls))
    else ok (m, [])

-- A round of the main loop: whether another follows, the state, and the calls of the client.
unfoldable pub round :
    (ℕ → ℕ) → Round → Monitor × DpArgs → Result (Bool × (Monitor × DpArgs) × List Action)
unfolding dispatch_handles update_if_due wait_for_next_trigger
round tokbps r (m, args) = do
  (packets_read, (args', w)) ← dispatch_handles r m.watched.handles false (args, m.library.world)
  (m', calls) ← update_if_due tokbps r (record m { library = record m.library { world = w } })
  let waited = wait_for_next_trigger r.select m'.self_pipe m'.watched
  ok (if packets_read then true else waited, (m', args'), calls)

-- nethogsmonitor_breakloop, but for the byte that it writes to the pipe.
abbrev pub nethogsmonitor_breakloop : Monitor → Monitor
nethogsmonitor_breakloop m = record m { run_flag = false }

unfoldable pub close_handles : List Handle → List Handle
close_handles [] = []
close_handles (handle ∷ next) = record handle { is_open = false } ∷ close_handles next

-- nethogsmonitor_clean_up: the handles are closed, and stay in their list. The descriptors are closed
-- too; procclean does nothing.
unfoldable pub nethogsmonitor_clean_up : Monitor → Monitor
unfolding close_handles
nethogsmonitor_clean_up m = record m {
  watched = record m.watched { handles = close_handles m.watched.handles };
}

abbrev finished :
    Monitor → DpArgs → List Action → Result (Option Status × (Monitor × DpArgs) × List Action)
finished m args calls =
    ok (some status_ok, (nethogsmonitor_clean_up (nethogsmonitor_breakloop m), args), calls)

abbrev after_calls :
    List Action
    → Result (Option Status × (Monitor × DpArgs) × List Action)
    → Result (Option Status × (Monitor × DpArgs) × List Action)
after_calls calls rest = do (st, x, more) ← rest; ok (st, x, calls ++ more)

-- The main loop over the rounds that are given; `none` is a loop that still runs after them. It ends
-- where monitor_run_flag is reset or the pipe was written to: nethogsmonitor_breakloop does both.
unfoldable pub main_loop :
    (ℕ → ℕ)
    → List Round
    → Monitor × DpArgs
    → Result (Option Status × (Monitor × DpArgs) × List Action)
unfolding round nethogsmonitor_clean_up
main_loop tokbps [] x = ok (none, x, [])
main_loop tokbps (r ∷ rounds) x = elim r.run_flag [
  | false ↦ finished x.0 x.1 []
  | true ↦ do
    (goes_on, x', calls) ← round tokbps r x
    elim goes_on [
      | true ↦ after_calls calls (main_loop tokbps rounds x')
      | false ↦ finished x'.0 x'.1 calls
    ]
]

abbrev run_if_ok :
    (ℕ → ℕ)
    → List Round
    → DpArgs
    → Option (Status × Monitor)
    → Option (Result (Option Status × (Monitor × DpArgs) × List Action))
run_if_ok tokbps rounds args none = none
run_if_ok tokbps rounds args (some (status_ok, m)) =
    some (main_loop tokbps rounds (record m { run_flag = true }, args))
run_if_ok tokbps rounds args (some (st, m)) = some (ok (some st, (m, args), []))

-- nethogsmonitor_loop_devices; `args` is the memory of `userdata`.
unfoldable pub nethogsmonitor_loop_devices :
    (ℕ → ℕ)
    → ℕ
    → System
    → Option (List ℕ)
    → List (List ℕ)
    → Bool
    → List Round
    → Monitor × DpArgs
    → Option (Result (Option Status × (Monitor × DpArgs) × List Action))
unfolding nethogsmonitor_init main_loop
nethogsmonitor_loop_devices tokbps fuel sys filter devicenames all rounds (m, args) =
    if m.run_flag
    then some (ok (some status_failure, (m, args), []))
    else run_if_ok tokbps rounds args (nethogsmonitor_init fuel sys filter devicenames all m)

-- nethogsmonitor_loop
unfoldable pub nethogsmonitor_loop :
    (ℕ → ℕ)
    → ℕ
    → System
    → Option (List ℕ)
    → List Round
    → Monitor × DpArgs
    → Option (Result (Option Status × (Monitor × DpArgs) × List Action))
unfolding nethogsmonitor_loop_devices
nethogsmonitor_loop tokbps fuel sys filter rounds x =
    nethogsmonitor_loop_devices tokbps fuel sys filter [] false rounds x
