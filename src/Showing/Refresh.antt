-- ===== src/Showing/Refresh.antt =====
-- The start, and a refresh, with names and process ids that can be shown: process_init, getkbps and
-- remove_timed_out_processes (src/process.cpp), do_refresh (src/cui.cpp).
use nethogs.Base.{
  ℤ, ℕ, refl, Bool, true, false, List, [], ◌∷◌, All, Leaves, Leaves-bind, Leaves-then, Bool-cases,
  inl, inr, if◌then◌else◌, Result, ok, fault, null_pointer, ◌>>=◌, guard, exited, assertion, ◌==◌,
  ◌+◌, suc, ltb,
}
use nethogs.Packet.{Timeval}
use nethogs.Store.{Store}
use nethogs.Process.{Process, process, size, getkbps, getkbps_loop, gettotal}
use nethogs.Cui.Line.{Line, new_line}
use nethogs.ConnInode.{refreshconninode}
use nethogs.World.{World, Host}
use nethogs.Timeouts.{
  process_init, unknown_tcp_name, unknown_udp_name, is_timed_out, remove_loop,
  remove_timed_out_processes, measure, line_of, lines_loop, refresh_lines, do_refresh,
}
use nethogs.Cui.{is_mode, is_total, viewmode_kbps}
use nethogs.Showing.{LineShowable, Showable, IsShowable, Numbered}

pub process_init-IsShowable :
    (catchall : Bool) (w : World)
    → Numbered w.inodeproc
    → IsShowable (process_init (record w { catchall = catchall }))
unfolding process_init process
process_init-IsShowable true w n =
    (((unknown_udp_name, refl, refl), ((unknown_tcp_name, refl, refl), tt)), n)
process_init-IsShowable false w n = (((unknown_tcp_name, refl, refl), tt), n)

-- A process that stays keeps what is shown of it.
last-Keeps :
    (P : Process → Type 0) (p : Process) (out : Bool)
    → P p
    → Leaves (All P) (if out then fault null_pointer else ok (p ∷ []))
last-Keeps P p true k = tt
last-Keeps P p false k = (k, tt)

-- The process behind a removed one stays, or the process itself.
step-Keeps :
    (P : Process → Type 0) (p q : Process) (out : Bool) (next rest : Result (List Process))
    → P p
    → P q
    → Leaves (All P) next
    → Leaves (All P) rest
    → Leaves
        (All P)
        (elim out [ true ↦ next >>= (λ ps. ok (q ∷ ps)) | false ↦ rest >>= (λ ps. ok (p ∷ ps)) ])
step-Keeps P p q true next rest k l n r = Leaves-bind (All P) (All P) next _ n (λ ps m. (l, m))
step-Keeps P p q false next rest k l n r = Leaves-bind (All P) (All P) rest _ r (λ ps m. (k, m))

remove_loop-Keeps :
    (P : Process → Type 0) (w : World) (ps : List Process)
    → All P ps
    → Leaves (All P) (remove_loop w ps)
unfolding remove_loop
remove_loop-Keeps P w [] k = tt
remove_loop-Keeps P w (p ∷ []) k =
    Leaves-then (All P) (is_timed_out w p) _ (λ out. last-Keeps P p out k.0)
remove_loop-Keeps P w (p ∷ q ∷ ps) k = Leaves-then (All P) (is_timed_out w p) _ (λ out.
    step-Keeps P p q out (remove_loop w ps) (remove_loop w (q ∷ ps)) k.0 k.1.0
      (remove_loop-Keeps P w ps k.1.1) (remove_loop-Keeps P w (q ∷ ps) k.1))

measure-Keeps :
    (mode : ℤ) (curtime : Timeval) (s : Store) (p : Process)
    → Showable p
    → Leaves (λ (x : (ℕ × ℕ) × Process × Store). Showable x.1) (measure mode curtime s p)
unfolding measure getkbps
measure-Keeps mode curtime s p k =
    let Kept = λ (x : (ℕ × ℕ) × Process × Store). Showable x.1 in
    elim (Bool-cases (is_mode viewmode_kbps mode)) [
      | inl kbps ↦
          rw (kbps, measure)
            (Leaves-then Kept
              (getkbps_loop curtime p.connections s p.sent_by_closed_bytes p.rcvd_by_closed_bytes 0
                0)
              _ (λ sweep. k))
      | inr other ↦
          rw (other, measure)
            (Leaves-then Kept (guard (is_total mode) exited) _
              (λ x. Leaves-then Kept (gettotal s p) _ (λ r. k)))
    ]

line_of-Leaves : (r : ℕ × ℕ) (p : Process) → Showable p → Leaves LineShowable (line_of r p)
unfolding new_line
line_of-Leaves (recv, sent) p (n, e, f) = rw (f, new_line) (n, e, f)

-- Lines that can be shown, of processes that can.
abbrev Kept : List Line × List Process × Store → Type 0
Kept x = All LineShowable x.0 × All Showable x.1

lines_loop-Keeps :
    (mode : ℤ) (nproc n : ℕ) (curtime : Timeval) (s : Store) (ps : List Process)
    → All Showable ps
    → Leaves Kept (lines_loop mode nproc n curtime s ps)
unfolding lines_loop
lines_loop-Keeps mode nproc n curtime s [] k = (tt, tt)
lines_loop-Keeps mode nproc n curtime s (p ∷ ps) k = Leaves-then Kept (size (p ∷ ps)) _ (λ rest.
    Leaves-then Kept (guard (nproc == n + rest) assertion) _ (λ x.
      Leaves-bind (λ (x : (ℕ × ℕ) × Process × Store). Showable x.1) Kept (measure mode curtime s p)
        _ (measure-Keeps mode curtime s p k.0)
        (λ (r, p', s') k'. Leaves-then Kept (guard (ltb n nproc) assertion) _ (λ y.
          Leaves-bind LineShowable Kept (line_of r p') _ (line_of-Leaves r p' k') (λ line l.
            Leaves-bind Kept Kept (lines_loop mode nproc (suc n) curtime s' ps) _
              (lines_loop-Keeps mode nproc (suc n) curtime s' ps k.1)
              (λ z m. ((l, m.0), (k', m.1))))))))

removal-Keeps :
    (mode : ℤ) (w : World)
    → IsShowable w
    → Leaves IsShowable (if is_mode viewmode_kbps mode then remove_timed_out_processes w else ok w)
unfolding remove_timed_out_processes
removal-Keeps mode w (s, n) = elim (Bool-cases (is_mode viewmode_kbps mode)) [
  | inl kbps ↦ rw kbps (
      Leaves-bind (All Showable) IsShowable (remove_loop w w.processes) _
        (remove_loop-Keeps Showable w w.processes s) (λ ps k. (k, n)))
  | inr other ↦ rw other (s, n)
]

pub do_refresh-Kept :
    (h : Host) (mode : ℤ) (w : World)
    → IsShowable w
    → Leaves
        (λ (x : List Line × World). All LineShowable x.0 × IsShowable x.1)
        (do_refresh h mode w)
unfolding do_refresh refresh_lines
do_refresh-Kept h mode w k =
    let Shown = λ (x : List Line × World). All LineShowable x.0 × IsShowable x.1 in
    Leaves-then Shown (refreshconninode h.net h.buf h.raw_words w.local_addrs h.files w.conninode) _
      (λ t.
        Leaves-bind IsShowable Shown _ _ (removal-Keeps mode (record w { conninode = t }) k)
          (λ w' (s, n). Leaves-then Shown (size w'.processes) _ (λ nproc.
            Leaves-bind Kept Shown (lines_loop mode nproc 0 w'.curtime w'.store w'.processes) _
              (lines_loop-Keeps mode nproc 0 w'.curtime w'.store w'.processes s)
              (λ x m. (m.0, (m.1, n))))))
