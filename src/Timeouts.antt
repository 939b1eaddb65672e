-- ===== src/Timeouts.antt =====
-- The list of processes: process_init, the removal of those that have been silent
-- (src/process.cpp), and the refresh of each process (src/cui.cpp).
pub mod Removal
pub mod Sweeps
use nethogs.Base.{
  assertion, ltb, guard, exited, ◌>>◌, ℕ, suc, ◌+◌, Bool, true, false, not, ◌&&◌, Option, none,
  some, List, [], ◌∷◌, ◌==◌, if◌then◌else◌, Result, ok, fault, null_pointer, ◌>>=◌, ℤ, pos, negsuc,
  ◌+ℤ◌, leb_ℤ,
}
use nethogs.Packet.{Timeval}
use nethogs.Store.{Store}
use nethogs.Process.{size, gettotal, Process, process, get_last_packet, getkbps}
use nethogs.ConnInode.{refreshconninode}
use nethogs.World.{Host, World}
use nethogs.Cui.{is_mode, is_total, viewmode_kbps}
use nethogs.Cui.Line.{Line, new_line}

-- "unknown TCP" and "unknown UDP"
abbrev pub unknown_tcp_name : List ℕ
unknown_tcp_name = b'u' ∷ b'n' ∷ b'k' ∷ b'n' ∷ b'o' ∷ b'w' ∷ b'n' ∷ b' ' ∷ b'T' ∷ b'C' ∷ b'P' ∷ []

abbrev pub unknown_udp_name : List ℕ
unknown_udp_name = b'u' ∷ b'n' ∷ b'k' ∷ b'n' ∷ b'o' ∷ b'w' ∷ b'n' ∷ b' ' ∷ b'U' ∷ b'D' ∷ b'P' ∷ []

-- process_init, over a state whose process list and pointers are still to be set.
unfoldable pub process_init : World → World
unfolding process
process_init w =
    let a = w.next_process in
    let tcp = process a 0 [] (some unknown_tcp_name) none in
    let udp = process (suc a) 0 [] (some unknown_udp_name) none in
    if w.catchall
    then record w {
      unknowntcp = a;
      unknownudp = some (suc a);
      processes = udp ∷ tcp ∷ [];
      next_process = suc (suc a);
    }
    else record w { unknowntcp = a; processes = tcp ∷ []; next_process = suc a }

-- PROCESSTIMEOUT
abbrev pub processtimeout : ℕ
processtimeout = 150

abbrev pub is_unknownudp : Option ℕ → ℕ → Bool
is_unknownudp none a = false
is_unknownudp (some b) a = a == b

-- The pointers that are never removed; unknownip is NULL.
abbrev pub is_unknown : World → Process → Bool
is_unknown w p = if p.address == w.unknowntcp then true else is_unknownudp w.unknownudp p.address

-- The condition of the removal.
unfoldable pub is_timed_out : World → Process → Result Bool
unfolding get_last_packet
is_timed_out w p = do
  lastpacket ← get_last_packet w.store p
  ok (leb_ℤ (lastpacket +ℤ pos processtimeout) (pos w.curtime.tv_sec) && not (is_unknown w p))

abbrev keep : Process → Result (List Process) → Result (List Process)
keep p r = do ps ← r; ok (p ∷ ps)

-- The loop of remove_timed_out_processes. A process that is removed leaves `curproc` on the one
-- behind it, and the step of the loop passes over that one; if there is none it follows NULL.
unfoldable pub remove_loop : World → List Process → Result (List Process)
unfolding is_timed_out
remove_loop w [] = ok []
remove_loop w (curproc ∷ []) = do
  out ← is_timed_out w curproc
  if out then fault null_pointer else ok (curproc ∷ [])
remove_loop w (curproc ∷ skipped ∷ next) = do
  out ← is_timed_out w curproc
  elim out [
    | true ↦ keep skipped (remove_loop w next)
    | false ↦ keep curproc (remove_loop w (skipped ∷ next))
  ]

unfoldable pub remove_timed_out_processes : World → Result World
unfolding remove_loop
remove_timed_out_processes w = do ps ← remove_loop w w.processes; ok (record w { processes = ps })

-- What a process received and sent, by the mode; a mode that does not exist ends the program.
unfoldable pub measure : ℤ → Timeval → Store → Process → Result ((ℕ × ℕ) × Process × Store)
unfolding getkbps gettotal
measure mode curtime s p =
    if is_mode viewmode_kbps mode
    then getkbps curtime s p
    else (do guard (is_total mode) exited; r ← gettotal s p; ok (r, p, s))

-- new Line for a process, with the bytes that are still to be divided.
abbrev pub line_of : ℕ × ℕ → Process → Result Line
line_of (recv, sent) p = new_line p.name p.cmdline recv sent p.pid p.uid p.devicename

abbrev pub add_line :
    Line
    → Process
    → Result (List Line × List Process × Store)
    → Result (List Line × List Process × Store)
add_line line p rest = do (lines, ps, s) ← rest; ok (line ∷ lines, p ∷ ps, s)

-- The loop of do_refresh, from the process on that has `n` before it; `nproc` is the size of the list
-- before the loop. A process id is never negative here.
unfoldable pub lines_loop :
    ℤ → ℕ → ℕ → Timeval → Store → List Process → Result (List Line × List Process × Store)
unfolding size measure new_line
lines_loop mode nproc n curtime s [] = ok ([], [], s)
lines_loop mode nproc n curtime s (curproc ∷ next) = do
  rest ← size (curproc ∷ next)
  guard (nproc == n + rest) assertion
  (r, p, s') ← measure mode curtime s curproc
  guard (ltb n nproc) assertion
  line ← line_of r p
  add_line line p (lines_loop mode nproc (suc n) curtime s' next)

-- do_refresh once the connection table has been read again, up to the sorting of the lines: in the
-- mode KBPS silent processes go.
unfoldable pub refresh_lines : ℤ → World → Result (List Line × World)
unfolding remove_timed_out_processes size lines_loop
refresh_lines mode w = do
  w' ← if is_mode viewmode_kbps mode then remove_timed_out_processes w else ok w
  nproc ← size w'.processes
  (lines, ps, s) ← lines_loop mode nproc 0 w'.curtime w'.store w'.processes
  ok (lines, record w' { processes = ps; store = s })

-- do_refresh up to the sorting of the lines.
unfoldable pub do_refresh : Host → ℤ → World → Result (List Line × World)
unfolding refreshconninode refresh_lines
do_refresh h mode w = do
  conninode' ← refreshconninode h.net h.buf h.raw_words w.local_addrs h.files w.conninode
  refresh_lines mode (record w { conninode = conninode' })
