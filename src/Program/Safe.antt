-- ===== src/Program/Safe.antt =====
-- Nothing goes wrong in the command line program from its main loop on, drawing included
-- (src/main.cpp, src/cui.cpp).
use nethogs.Base.{
  Leaves, Leaves-bind, ℤ, ℕ, Bool, true, false, List, [], ◌∷◌, All, ok, if◌then◌else◌, Bool-cases,
  inl, inr, ◌>>=◌, ◌++◌, Result, map,
}
use nethogs.World.{World, Host}
use nethogs.Capture.{Monitored, dp_dispatch}
use nethogs.Capture.Keeping.{CallLogic, dp_dispatch-Keeps}
use nethogs.Timeouts.{do_refresh}
use nethogs.Opening.{Handle}
use nethogs.Cui.{Ui}
use nethogs.Cui.Drawing.{log}
use nethogs.Cui.Line.{Line}
use nethogs.Cui.Screen.{sort_lines, show_ncurses}
use nethogs.Process.{Process}
use nethogs.Store.{assign}
use nethogs.Store.Live.{IsLive, IsLive-assigned}
use nethogs.Packet.{gethashstring}
use nethogs.Safety.Searches.{owned_here, gethashstring-Safely}
use nethogs.Safety.Lists.{IsSafe-assign}
use nethogs.Safety.Terminal.{AllFit}
use nethogs.Safety.{Safely, Safely-bind, Safely-both, Anything}
use nethogs.Safety.Invariant.{IsSafe}
use nethogs.Safety.Modes.{After, do_refresh-Safely}
use nethogs.Safety.Run.{MonitorSafe, dp_dispatch-Safely}
use nethogs.Showing.{LineShowable, Showable, IsShowable, PidsFit}
use nethogs.Showing.Packets.{process_tcp-Kept, process_udp-Kept}
use nethogs.Showing.Refresh.{do_refresh-Kept}
use nethogs.Showing.Lines.{sort-All, log-Safely, show_ncurses-Safely}
use nethogs.Program.{Options}
use nethogs.Program.Rounds.{
  Turn, Running, Drawn, frames_of, has_read, capture_handles, after_key, is_due, log_lines,
  unknown_connections, divided, show_trace, draw, refresh_screen, refresh_if_due, turn,
  program_loop,
}

-- The lists are safe, and what is in them can be shown.
abbrev pub IsSound : World → Type 0
IsSound w = IsSafe w × IsShowable w

abbrev Captured : Bool × Monitored → Type 0
Captured x = IsSound x.1.1

-- In each turn /proc holds process ids up to PID_MAX.
abbrev pub TurnFits : Turn → Type 0
TurnFits r = PidsFit r.host.proc

Leaves-CallLogic : CallLogic (λ A P m. Leaves P m)
Leaves-CallLogic = record { value = λ P a k. k; bind = λ P Q m f k l. Leaves-bind P Q m f k l }

capture_handles-Safely :
    (r : Turn) (handles : List Handle) (packets_read : Bool) (x : Monitored)
    → TurnFits r
    → IsSound x.1
    → Safely Captured (capture_handles r handles packets_read x)
unfolding capture_handles
capture_handles-Safely r [] packets_read x fit s = s
capture_handles-Safely r (handle ∷ next) packets_read x fit s =
    let frames = frames_of (r.arrivals handle.devicename) in
    let call = dp_dispatch r.host handle.linktype handle.devicename frames x in
    Safely-bind (λ (y : Monitored). IsSound y.1) Captured call _
      (Safely-both MonitorSafe (λ (y : Monitored). IsShowable y.1) call
        (dp_dispatch-Safely r.host handle.linktype handle.devicename frames x s.0)
        (dp_dispatch-Keeps (λ A P m. Leaves P m) Leaves-CallLogic IsShowable r.host
          (process_tcp-Kept r.host fit)
          (λ args header m w e. process_udp-Kept r.host fit args header m w) handle.linktype
          handle.devicename frames x s.1))
      (λ y k.
        capture_handles-Safely r next (if has_read frames then true else packets_read) y fit k)

abbrev Traced : List (List ℕ) × World → Type 0
Traced x = IsSound x.1

abbrev DrawnSound : Drawn × World → Type 0
DrawnSound x = IsSound x.1

abbrev Lined : List Line × World → Type 0
Lined x = IsSafe x.1 × (All LineShowable x.0 × IsShowable x.1)

divided-All :
    (value : ℕ → ℕ) (lines : List Line)
    → All LineShowable lines
    → All LineShowable (map (divided value) lines)
divided-All value [] s = tt
divided-All value (line ∷ lines) s = (s.0, divided-All value lines s.1)

Showable-AllFit : (ps : List Process) → All Showable ps → AllFit ps
Showable-AllFit [] s = tt
Showable-AllFit (p ∷ ps) s = (s.0.2, Showable-AllFit ps s.1)

-- The walk over connections that may be used.
unknown-Safely :
    (h : Host) (is : List ℕ) (w : World)
    → All (IsLive w.store.heap) is
    → IsSound w
    → Safely Traced (unknown_connections h is w)
unfolding unknown_connections
unknown-Safely h [] w l k = k
unknown-Safely h (i ∷ next) w ((c, e), l) (safe, showable) = rw e (
    Safely-bind Anything Traced (gethashstring h.net h.buf w.local_addrs c.refpacket) _
      (gethashstring-Safely h.net h.buf w c.refpacket safe)
      (λ x _.
        let c' = record c { refpacket = x.1 } in
        let w' = record w { store = assign w.store i c' } in
        Safely-bind Traced Traced (unknown_connections h next w') _
          (unknown-Safely h next w' (IsLive-assigned w.store.heap i c' next l)
            (IsSafe-assign i c' w safe, showable))
          (λ y m. m)))

abbrev Refreshed : Running × Drawn → Type 0
Refreshed x = IsSound x.0.world

abbrev Turned : Running × List Drawn → Type 0
Turned x = IsSound x.0.world

abbrev pub Looped : Bool × Running × List Drawn → Type 0
Looped x = IsSound x.1.world

module _ (value : ℤ → ℕ → ℕ) (number : ℕ → List ℕ) (o : Options) where
  log_lines-Safely :
      (showcommandline : Bool) (lines : List Line)
      → All LineShowable lines
      → Safely Anything (log_lines value number o showcommandline lines)
  unfolding log_lines
  log_lines-Safely showcommandline [] s = tt
  log_lines-Safely showcommandline (line ∷ lines) s =
      Safely-bind Anything Anything (log number showcommandline line) _
        (log-Safely number showcommandline line s.0)
        (λ text _.
          Safely-bind Anything Anything (log_lines value number o showcommandline lines) _
            (log_lines-Safely showcommandline lines s.1) (λ texts _. tt))

  show_trace-Safely :
      (h : Host) (showcommandline : Bool) (lines : List Line) (w : World)
      → All LineShowable lines
      → IsSound w
      → Safely Traced (show_trace value number o h showcommandline lines w)
  unfolding show_trace
  show_trace-Safely h showcommandline lines w s (safe, showable) =
      let (p, f) = safe.tcp in
      Safely-bind Anything Traced (log_lines value number o showcommandline lines) _
        (log_lines-Safely showcommandline lines s)
        (λ logs _. rw f (
          Safely-bind Traced Traced (unknown_connections h p.connections w) _
            (unknown-Safely h p.connections w
              (owned_here (IsLive w.store.heap) w.unknowntcp w.processes p f safe.owned_live)
              (safe, showable))
            (λ x k. k)))

  draw-Safely :
      (r : Turn) (ui : Ui) (lines : List Line) (w : World)
      → All LineShowable lines
      → IsSound w
      → Safely DrawnSound (draw value number o r ui lines w)
  unfolding draw
  draw-Safely r ui lines w s k = elim (Bool-cases o.tracemode) [
    | inl traces ↦
        rw (traces, draw)
          (Safely-bind Traced DrawnSound
            (show_trace value number o r.host ui.showcommandline lines w) _
            (show_trace-Safely r.host ui.showcommandline lines w s k) (λ x l. l))
    | inr shows ↦
        rw (shows, draw)
          (Safely-bind Anything DrawnSound (show_ncurses number r.getpwuid ui r.rows r.cols lines) _
            (show_ncurses-Safely number r.getpwuid ui r.rows r.cols lines s) (λ screen _. k))
  ]

  refresh_screen-Safely :
      (r : Turn) (p : Running)
      → IsSound p.world
      → Safely Refreshed (refresh_screen value number o r p)
  unfolding refresh_screen
  refresh_screen-Safely r p (safe, showable) =
      let refresh = do_refresh r.host p.ui.view_mode p.world in
      Safely-bind Lined Refreshed refresh _
        (Safely-both After (λ (x : List Line × World). All LineShowable x.0 × IsShowable x.1)
          refresh
          (do_refresh-Safely r.host p.ui.view_mode p.world safe
            (Showable-AllFit p.world.processes showable.0))
          (do_refresh-Kept r.host p.ui.view_mode p.world showable))
        (λ (lines, w) (after, (l, shown)).
          let v = value p.ui.view_mode in
          let sorted = sort_lines p.ui.sort_recv (map (divided v) lines) in
          Safely-bind DrawnSound Refreshed (draw value number o r p.ui sorted w) _
            (draw-Safely r p.ui sorted w
              (sort-All LineShowable p.ui.sort_recv (map (divided v) lines) (divided-All v lines l))
              (after, shown))
            (λ x k. k))

  refresh_if_due-Safely :
      (r : Turn) (p : Running) → IsSound p.world → Safely Turned (refresh_if_due value number o r p)
  unfolding refresh_if_due
  refresh_if_due-Safely r p s =
      elim (Bool-cases (is_due p.last_refresh_time o.refreshdelay r.now)) [
        | inr not_yet ↦ rw (not_yet, refresh_if_due) s
        | inl due ↦
            let q = after_key o.tracemode r p in
            rw (due, refresh_if_due)
              (Safely-bind Refreshed Turned (refresh_screen value number o r q) _
                (refresh_screen-Safely r q s) (λ x k. k))
      ]

  turn-Safely :
      (r : Turn) (p : Running)
      → TurnFits r
      → IsSound p.world
      → Safely Looped (turn value number o r p)
  unfolding turn
  turn-Safely r p fit s =
      Safely-bind Captured Looped (capture_handles r p.watched.handles false (p.args, p.world)) _
        (capture_handles-Safely r p.watched.handles false (p.args, p.world) fit s)
        (λ (read, (args', w)) k.
          let q = record p { args = args'; world = w } in
          Safely-bind Turned Looped (refresh_if_due value number o r q) _
            (refresh_if_due-Safely r q k) (λ x l. l))

  -- The loop ends, or goes on.
  after_turn-Safely :
      (goes_on : Bool) (q : Running) (prints : List Drawn)
      (rest : Result (Bool × Running × List Drawn))
      → IsSound q.world
      → Safely Looped rest
      → Safely Looped (elim goes_on [
        | false ↦ ok (true, q, prints)
        | true ↦ rest >>= (λ x. ok (x.0, x.1, prints ++ x.2))
      ])
  after_turn-Safely false q prints rest s l = s
  after_turn-Safely true q prints rest s l = Safely-bind Looped Looped rest _ l (λ x k. k)

  pub program_loop-Safely :
      (turns : List Turn) (p : Running)
      → All TurnFits turns
      → IsSound p.world
      → Safely Looped (program_loop value number o turns p)
  unfolding program_loop
  program_loop-Safely [] p fit s = s
  program_loop-Safely (r ∷ turns) p fit s =
      Safely-bind Looped Looped (turn value number o r p) _ (turn-Safely r p fit.0 s)
        (λ (goes_on, q, prints) k.
          after_turn-Safely goes_on q prints (program_loop value number o turns q) k
            (program_loop-Safely turns q fit.1 k))
