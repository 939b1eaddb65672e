-- ===== src/Monitor/Safe.antt =====
-- The lists of connections and processes during the main loop of the library
-- (src/libnethogs.cpp).
use nethogs.Base.{
  ℕ, ◌+◌, ◌≡◌, Bool, true, false, Option, List, [], ◌∷◌, ok, Bool-cases, inl, inr, leb, length,
  arith, All, if◌then◌else◌,
}
use nethogs.Callbacks.{DpArgs}
use nethogs.ConnInode.{refreshconninode}
use nethogs.Capture.{Monitored, dp_dispatch}
use nethogs.Records.{Library, Action, handle_update}
use nethogs.Records.Walk.{update_loop-Walked}
use nethogs.Records.Refresh.{reread, size-length, walked-IsSafe}
use nethogs.Safety.{Safely, Safely-bind, Anything, refreshconninode-Safely}
use nethogs.Safety.Invariant.{IsSafe}
use nethogs.Safety.Refresh.{clock-IsSafe}
use nethogs.Safety.Run.{MonitorSafe, dp_dispatch-Safely}
use nethogs.Opening.{Handle}
use nethogs.Monitor.{Status, Monitor}
use nethogs.Monitor.Rounds.{
  Round, Arrival, failed, arrived, dispatch_handle, dispatch_handles, update_if_due,
  monitor_refresh_delay, round, main_loop, nethogsmonitor_clean_up,
}

abbrev pub ReadSafe : Bool × Monitored → Type 0
ReadSafe y = IsSafe y.1.1

abbrev pub IsOpen : Handle → Type 0
IsOpen handle = handle.is_open ≡ true

dispatch_handle-Safely :
    (r : Round) (handle : Handle) (a : Arrival) (x : Monitored)
    → IsOpen handle
    → IsSafe x.1
    → Safely ReadSafe (dispatch_handle r handle a x)
unfolding dispatch_handle
dispatch_handle-Safely r handle failed x o s = rw (o, dispatch_handle) s
dispatch_handle-Safely r handle (arrived []) x o s =
    rw (o, dispatch_handle)
      (Safely-bind MonitorSafe ReadSafe (dp_dispatch r.host handle.linktype handle.devicename [] x)
        (λ y. ok (false, (y.0, record y.1 { curtime = r.clock })))
        (dp_dispatch-Safely r.host handle.linktype handle.devicename [] x s)
        (λ y k. clock-IsSafe y.1 r.clock k))
dispatch_handle-Safely r handle (arrived (packet ∷ packets)) x o s =
    rw (o, dispatch_handle)
      (Safely-bind MonitorSafe ReadSafe
        (dp_dispatch r.host handle.linktype handle.devicename (packet ∷ packets) x) _
        (dp_dispatch-Safely r.host handle.linktype handle.devicename (packet ∷ packets) x s)
        (λ y k. k))

pub dispatch_handles-Safely :
    (r : Round) (handles : List Handle) (packets_read : Bool) (x : Monitored)
    → All IsOpen handles
    → IsSafe x.1
    → Safely ReadSafe (dispatch_handles r handles packets_read x)
unfolding dispatch_handles
dispatch_handles-Safely r [] packets_read x o s = s
dispatch_handles-Safely r (handle ∷ next) packets_read x o s =
    Safely-bind ReadSafe ReadSafe (dispatch_handle r handle (r.arrivals handle.devicename) x) _
      (dispatch_handle-Safely r handle (r.arrivals handle.devicename) x o.0 s)
      (λ (read, y) k. dispatch_handles-Safely r next (if read then true else packets_read) y o.1 k)

handle_update-Safely :
    (tokbps : ℕ → ℕ) (r : Round) (l : Library)
    → IsSafe l.world
    → Safely (λ (y : Library × List Action). IsSafe y.0.world) (handle_update tokbps r.host l)
unfolding handle_update
handle_update-Safely tokbps r l s =
    let h = r.host in
    Safely-bind Anything (λ (y : Library × List Action). IsSafe y.0.world)
      (refreshconninode h.net h.buf h.raw_words l.world.local_addrs h.files l.world.conninode) _
      (refreshconninode-Safely h.net h.buf h.raw_words l.world.local_addrs h.files
        l.world.conninode)
      (λ t _.
        let (x, e) =
          update_loop-Walked tokbps l.world.processes [] (reread l t) (length l.world.processes)
            (omega arith) s.owned_live s.owned_distinct in
        rw (size-length l.world.processes s.inhabited, e) (walked-IsSafe l t s x))

-- The lists are safe and no handle is closed.
abbrev pub MonitorOpen : Monitor → Type 0
MonitorOpen m = IsSafe m.library.world × All IsOpen m.watched.handles

abbrev UpdateSafe : Monitor × List Action → Type 0
UpdateSafe y = MonitorOpen y.0

update_if_due-Safely :
    (tokbps : ℕ → ℕ) (r : Round) (m : Monitor)
    → MonitorOpen m
    → Safely UpdateSafe (update_if_due tokbps r m)
unfolding update_if_due
update_if_due-Safely tokbps r m (s, o) =
    elim (Bool-cases (leb (m.last_refresh_time + monitor_refresh_delay) r.now)) [
      | inl due ↦
          rw (due, update_if_due)
            (Safely-bind (λ (y : Library × List Action). IsSafe y.0.world) UpdateSafe
              (handle_update tokbps r.host m.library) _ (handle_update-Safely tokbps r m.library s)
              (λ y k. (k, o)))
      | inr not_yet ↦ rw (not_yet, update_if_due) (s, o)
    ]

abbrev pub RoundSafe : Bool × (Monitor × DpArgs) × List Action → Type 0
RoundSafe (goes_on, (m, args), calls) = MonitorOpen m

abbrev pub LoopSafe : Option Status × (Monitor × DpArgs) × List Action → Type 0
LoopSafe (st, (m, args), calls) = IsSafe m.library.world

pub round-Safely :
    (tokbps : ℕ → ℕ) (r : Round) (x : Monitor × DpArgs)
    → MonitorOpen x.0
    → Safely RoundSafe (round tokbps r x)
unfolding round
round-Safely tokbps r (m, args) (s, o) =
    Safely-bind ReadSafe RoundSafe
      (dispatch_handles r m.watched.handles false (args, m.library.world)) _
      (dispatch_handles-Safely r m.watched.handles false (args, m.library.world) o s)
      (λ (read, (args', w)) k.
        Safely-bind UpdateSafe RoundSafe
          (update_if_due tokbps r (record m { library = record m.library { world = w } })) _
          (update_if_due-Safely tokbps r (record m { library = record m.library { world = w } })
            (k, o))
          (λ y k'. k'))

-- From a safe state on, in which no handle has been closed, whatever the devices deliver, whenever
-- the client breaks the loop and whatever the clock says, the main loop of the library follows no
-- NULL and no deleted pointer, uses no closed handle and fails no assertion, over any number of
-- rounds: it leaves a safe state, or the program has ended by exit or by the read past the end of a
-- command line.
pub main_loop-Safely :
    (tokbps : ℕ → ℕ) (rounds : List Round) (x : Monitor × DpArgs)
    → IsSafe x.0.library.world
    → All IsOpen x.0.watched.handles
    → Safely LoopSafe (main_loop tokbps rounds x)
unfolding main_loop nethogsmonitor_clean_up
main_loop-Safely tokbps [] x s o = s
main_loop-Safely tokbps (r ∷ rounds) x s o = elim (Bool-cases r.run_flag) [
  | inr halted ↦ rw (halted, main_loop) s
  | inl runs ↦
      rw (runs, main_loop)
        (Safely-bind RoundSafe LoopSafe (round tokbps r x) _ (round-Safely tokbps r x (s, o))
          (λ (goes_on, y, calls) k. elim (Bool-cases goes_on) [
            | inl on ↦ rw on (
                Safely-bind LoopSafe LoopSafe (main_loop tokbps rounds y) _
                  (main_loop-Safely tokbps rounds y k.0 k.1) (λ z k'. k'))
            | inr off ↦ rw off k.0
          ]))
]
