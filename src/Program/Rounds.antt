-- ===== src/Program/Rounds.antt =====
-- The main loop of the command line program (src/main.cpp) with do_refresh and show_trace
-- (src/cui.cpp). The turns of the loop are given by what each finds. DEBUG is off.
use nethogs.Base.{
  ℕ, suc, ◌+◌, ◌%◌, ◌^◌, Bool, true, false, not, ◌&&◌, ◌||◌, Option, none, some, List, [], ◌∷◌,
  ◌++◌, leb, ◌==◌, if◌then◌else◌, ℤ, pos, negsuc, Result, ok, ◌>>=◌, map, or_fault, dangling,
}
use nethogs.World.{World, Host, find_address}
use nethogs.Store.{deref, assign}
use nethogs.Packet.{gethashstring}
use nethogs.Callbacks.{Bytes, DpHeader, DpArgs}
use nethogs.Capture.{Monitored, dp_dispatch}
use nethogs.Timeouts.{do_refresh}
use nethogs.Opening.{Handle, Watched, Select, wait_for_next_trigger}
use nethogs.Monitor.Rounds.{Arrival, failed, arrived}
use nethogs.Cui.{Ui, ui_tick}
use nethogs.Cui.Drawing.{Passwd, log}
use nethogs.Cui.Line.{Line}
use nethogs.Cui.Screen.{Screen, sort_lines, show_ncurses}
use nethogs.Program.{Options}

-- What a turn finds: what has come on each device, the clock, the key that getch gives, the rows and
-- columns of the terminal, the users, select by whether the pipe holds a byte, and the host.
pub record Turn : Type 0 where
  pub arrivals : List ℕ → Arrival
  pub now : ℕ
  pub key : Option ℕ
  pub rows : ℕ
  pub cols : ℕ
  pub getpwuid : ℕ → Passwd
  pub select : Bool → Select
  pub host : Host

-- The globals and locals of the loop. quit_cb writes a byte to the pipe: `is_written`.
pub record Running : Type 0 where
  pub world : World
  pub args : DpArgs
  pub watched : Watched
  pub self_pipe : ℕ × ℕ
  pub is_written : Bool
  pub ui : Ui
  pub refreshcount : ℕ
  pub last_refresh_time : ℕ

abbrev pub frames_of : Arrival → List (DpHeader × Bytes)
frames_of failed = []
frames_of (arrived frames) = frames

abbrev pub has_read : List (DpHeader × Bytes) → Bool
has_read [] = false
has_read (frame ∷ frames) = true

-- The loop over the handles, and `packets_read` after it.
unfoldable pub capture_handles : Turn → List Handle → Bool → Monitored → Result (Bool × Monitored)
unfolding dp_dispatch
capture_handles r [] packets_read x = ok (packets_read, x)
capture_handles r (handle ∷ next) packets_read x = do
  let frames = frames_of (r.arrivals handle.devicename)
  x' ← dp_dispatch r.host handle.linktype handle.devicename frames x
  capture_handles r next (if has_read frames then true else packets_read) x'

-- last_refresh_time + refreshdelay <= now
abbrev pub is_due : ℕ → ℤ → ℕ → Bool
is_due last_refresh_time (pos delay) now = leb (last_refresh_time + delay) now
is_due last_refresh_time (negsuc n) now = leb last_refresh_time (now + suc n)

abbrev or_quit : Ui → Bool → Option Ui → Ui × Bool
or_quit ui is_written none = (ui, true)
or_quit ui is_written (some ui') = (ui', is_written)

-- The key is looked at unless tracemode is on: the interface, and whether the pipe holds a byte.
unfoldable pub ticked : Bool → Option ℕ → Ui → Bool → Ui × Bool
unfolding ui_tick
ticked tracemode key ui is_written =
    if tracemode then (ui, is_written) else or_quit ui is_written (ui_tick key ui)

abbrev pub after_key : Bool → Turn → Running → Running
unfolding ticked
after_key tracemode r p =
    let (ui', quits) = ticked tracemode r.key p.ui p.is_written in
    record p { last_refresh_time = r.now; ui = ui'; is_written = quits }

-- The test of the number of refreshes at the end of do_refresh, which quits.
abbrev pub is_last : ℕ → ℕ → Bool
is_last refreshlimit refreshcount = not (refreshlimit == 0) && leb refreshlimit refreshcount

-- The state after a refresh that leaves the lists at `w`.
abbrev pub counted : ℕ → World → Running → Running
counted refreshlimit w p =
    let count = (p.refreshcount + 1) % 2 ^ 32 in
    record p {
      world = w;
      refreshcount = count;
      is_written = is_last refreshlimit count || p.is_written;
    }

-- What do_refresh prints.
pub data Drawn : Type 0 where
  traced : List (List ℕ) → Drawn
  drawn : Option Screen → Drawn

-- A line with the numbers that the mode shows for its bytes.
abbrev pub divided : (ℕ → ℕ) → Line → Line
divided value line = record line {
  sent_value = value line.sent_value;
  recv_value = value line.recv_value;
}

-- "Unknown connection: "
abbrev unknown_head : List ℕ
unknown_head =
    b'U' ∷ b'n' ∷ b'k' ∷ b'n' ∷ b'o' ∷ b'w' ∷ b'n' ∷ b' ' ∷ b'c' ∷ b'o' ∷ b'n' ∷ b'n' ∷ b'e' ∷ b'c'
    ∷ b't' ∷ b'i' ∷ b'o' ∷ b'n' ∷ b':' ∷ b' ' ∷ []

-- The loop of show_trace over the connections of `unknowntcp`. The key of a connection is written to
-- its refpacket.
unfoldable pub unknown_connections : Host → List ℕ → World → Result (List (List ℕ) × World)
unfolding deref gethashstring
unknown_connections h [] w = ok ([], w)
unknown_connections h (curr_unknownconn ∷ next) w = do
  c ← deref w.store curr_unknownconn
  (key, refpacket') ← gethashstring h.net h.buf w.local_addrs c.refpacket
  let c' = record c { refpacket = refpacket' }
  (texts, w') ← unknown_connections h next (record w { store = assign w.store curr_unknownconn c' })
  ok ((unknown_head ++ key) ∷ texts, w')

-- What each view mode shows for bytes, and the text of a number.
module _ (value : ℤ → ℕ → ℕ) (number : ℕ → List ℕ) (o : Options) where
  -- The loop of show_trace over the lines.
  unfoldable pub log_lines : Bool → List Line → Result (List (List ℕ))
  unfolding log
  log_lines showcommandline [] = ok []
  log_lines showcommandline (line ∷ lines) = do
    text ← log number showcommandline line
    texts ← log_lines showcommandline lines
    ok (text ∷ texts)

  -- show_trace: the lines, and then the connections of `unknowntcp`.
  unfoldable pub show_trace : Host → Bool → List Line → World → Result (List (List ℕ) × World)
  unfolding log_lines unknown_connections
  show_trace h showcommandline lines w = do
    logs ← log_lines showcommandline lines
    unknowntcp ← or_fault dangling (find_address w.unknowntcp w.processes)
    (texts, w') ← unknown_connections h unknowntcp.connections w
    ok (logs ++ texts, w')

  -- The lines are printed in tracemode and shown on the terminal otherwise.
  unfoldable pub draw : Turn → Ui → List Line → World → Result (Drawn × World)
  unfolding show_trace show_ncurses
  draw r ui lines w =
      if o.tracemode
      then show_trace r.host ui.showcommandline lines w >>= (λ (texts, w'). ok (traced texts, w'))
      else show_ncurses number r.getpwuid ui r.rows r.cols lines
        >>= (λ screen. ok (drawn screen, w))

  -- do_refresh as a whole.
  unfoldable pub refresh_screen : Turn → Running → Result (Running × Drawn)
  unfolding do_refresh sort_lines draw
  refresh_screen r p = do
    (lines, w) ← do_refresh r.host p.ui.view_mode p.world
    let shown = map (divided (value p.ui.view_mode)) lines
    (printed, w') ← draw r p.ui (sort_lines p.ui.sort_recv shown) w
    ok (counted o.refreshlimit w' p, printed)

  -- The refresh of a turn, if it is time for one.
  unfoldable pub refresh_if_due : Turn → Running → Result (Running × List Drawn)
  unfolding ticked
  refresh_if_due r p =
      if is_due p.last_refresh_time o.refreshdelay r.now
      then (do (p', printed) ← refresh_screen r (after_key o.tracemode r p); ok (p', printed ∷ []))
      else ok (p, [])

  -- A turn of the loop: whether another follows, the state, and what is printed.
  unfoldable pub turn : Turn → Running → Result (Bool × Running × List Drawn)
  unfolding capture_handles refresh_if_due wait_for_next_trigger
  turn r p = do
    (packets_read, (args', w)) ← capture_handles r p.watched.handles false (p.args, p.world)
    (p', prints) ← refresh_if_due r (record p { args = args'; world = w })
    let waited = wait_for_next_trigger (r.select p'.is_written) (some p'.self_pipe) p'.watched
    ok (if packets_read then true else waited, p', prints)

  -- The main loop over the turns that are given, and whether it has ended.
  unfoldable pub program_loop : List Turn → Running → Result (Bool × Running × List Drawn)
  unfolding turn
  program_loop [] p = ok (false, p, [])
  program_loop (r ∷ turns) p = do
    (goes_on, p', prints) ← turn r p
    elim goes_on [
      | false ↦ ok (true, p', prints)
      | true ↦ do
        (has_ended, p'', more) ← program_loop turns p'
        ok (has_ended, p'', prints ++ more)
    ]
