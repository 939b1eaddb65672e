-- ===== src/Safety/Terminal.antt =====
-- A refresh of the terminal in a safe state in which every process id can be shown: the loop of
-- do_refresh (src/cui.cpp).
use nethogs.Base.{
  ℕ, suc, ◌+◌, ℤ, ◌≡◌, ◌≢◌, refl, ap, ◌∙◌, sym, true, false, List, [], ◌∷◌, All, arith, length, ltb,
  ◌==◌, ok, fault, exited, >>=-eq-ok, ok-inj,
}
use nethogs.Packet.{Timeval}
use nethogs.Store.{Store}
use nethogs.Store.Live.{IsLive}
use nethogs.Process.{Process, size, getkbps, getkbps_loop, gettotal}
use nethogs.Process.Totals.{gettotal-total}
use nethogs.Cui.{is_mode, is_total, viewmode_kbps}
use nethogs.Cui.Line.{Line, Fits, new_line}
use nethogs.Timeouts.{measure, line_of, lines_loop}
use nethogs.Safety.Invariant.{owned, All-left}
use nethogs.Safety.Sums.{sum_up}

abbrev pub AllFit : List Process → Type 0
AllFit = All (λ p. Fits p.pid)

pub size-length : (p : Process) (ps : List Process) → size (p ∷ ps) ≡ ok (suc (length ps))
unfolding size
size-length p [] = refl
size-length p (q ∷ ps) = rw (size-length q ps) (ground arith)

pub size-inhabited : (ps : List Process) → ps ≢ [] → size ps ≡ ok (length ps)
size-inhabited [] n = absurd (n refl)
size-inhabited (p ∷ ps) n = size-length p ps

new_line-ok : (r : ℕ × ℕ) (p : Process) → Fits p.pid → (line : Line) × (line_of r p ≡ ok line)
unfolding new_line
new_line-ok (recv, sent) p f = (
  record {
    sent_value = sent;
    recv_value = recv;
    devicename = p.devicename;
    name = p.name;
    cmdline = p.cmdline;
    pid = p.pid;
    uid = p.uid;
  },
  rw (f, new_line) refl,
)

-- A round of the loop in which the process is measured.
lines_cons :
    (mode : ℤ) (nproc n : ℕ) (curtime : Timeval) (s s' s'' : Store) (p p' : Process)
    (ps ps' : List Process) (r : ℕ × ℕ) (lines : List Line)
    → nproc ≡ n + suc (length ps)
    → measure mode curtime s p ≡ ok (r, p', s')
    → Fits p'.pid
    → lines_loop mode nproc (suc n) curtime s' ps ≡ ok (lines, ps', s'')
    → (line : Line) × (lines_loop mode nproc n curtime s (p ∷ ps)
        ≡ ok (line ∷ lines, p' ∷ ps', s''))
unfolding lines_loop
lines_cons mode nproc n curtime s s' s'' p p' ps ps' r lines count e f g =
    let (line, made) = new_line-ok r p' f in
    let whole : (nproc == n + suc (length ps)) ≡ true = ground (arith, count) in
    let inside : ltb n nproc ≡ true = ground (arith, count) in
    (line, rw (size-length p ps, whole, e, inside, made, g) refl)

-- getkbps leaves the process id.
getkbps-pid :
    (curtime : Timeval) (s s' : Store) (p p' : Process) (r : ℕ × ℕ)
    → getkbps curtime s p ≡ ok (r, p', s')
    → p'.pid ≡ p.pid
unfolding getkbps
getkbps-pid curtime s s' p p' r e =
    let (w, f, g) =
      >>=-eq-ok
        (getkbps_loop curtime p.connections s p.sent_by_closed_bytes p.rcvd_by_closed_bytes 0 0) _
        e in
    ap (λ (x : (ℕ × ℕ) × Process × Store). x.1.pid) (sym (ok-inj g))

-- In the mode KBPS the loop sums up by getkbps.
pub lines-sum_up :
    (mode : ℤ) (nproc n : ℕ) (curtime : Timeval) (s s' : Store) (ps ps' : List Process)
    (rs : List (ℕ × ℕ))
    → is_mode viewmode_kbps mode ≡ true
    → nproc ≡ n + length ps
    → AllFit ps
    → sum_up curtime s ps ≡ ok (rs, ps', s')
    → (lines : List Line) × (lines_loop mode nproc n curtime s ps ≡ ok (lines, ps', s'))
      × (length lines ≡ length ps')
unfolding sum_up lines_loop measure
lines-sum_up mode nproc n curtime s s' [] ps' rs kbps count f e =
    let same = ok-inj e in
    let a : [] ≡ ps' = ap (λ (x : List (ℕ × ℕ) × List Process × Store). x.1) same in
    let b : s ≡ s' = ap (λ (x : List (ℕ × ℕ) × List Process × Store). x.2) same in
    ([], rw (← a, ← b) refl, rw (← a) refl)
lines-sum_up mode nproc n curtime s s' (p ∷ ps) ps' rs kbps count f e =
    let ((r, p1, s1), g, h) = >>=-eq-ok (getkbps curtime s p) _ e in
    let ((rs2, ps2, s2), g2, h2) = >>=-eq-ok (sum_up curtime s1 ps) _ h in
    let (lines, loop, k) =
      lines-sum_up mode nproc (suc n) curtime s1 s2 ps ps2 rs2 kbps (omega (arith, count)) f.1 g2 in
    let measured : measure mode curtime s p ≡ ok (r, p1, s1) = rw (kbps, measure) g in
    let fits : Fits p1.pid = rw (getkbps-pid curtime s s1 p p1 r g) f.0 in
    let (line, whole) =
      lines_cons mode nproc n curtime s s1 s2 p p1 ps ps2 r lines count measured fits loop in
    let same : (p1 ∷ ps2, s2) ≡ (ps', s') =
      ap (λ (x : List (ℕ × ℕ) × List Process × Store). (x.1, x.2)) (ok-inj h2) in
    let ends = ap (λ (x : List Process × Store). ok (line ∷ lines, x.0, x.1)) same in
    (line ∷ lines, whole ∙ ends, ap suc k ∙ ap (λ (x : List Process × Store). length x.0) same)

-- In the modes of the totals it changes nothing.
pub lines-totals :
    (mode : ℤ) (nproc n : ℕ) (curtime : Timeval) (s : Store) (ps : List Process)
    → is_mode viewmode_kbps mode ≡ false
    → is_total mode ≡ true
    → nproc ≡ n + length ps
    → AllFit ps
    → All (IsLive s.heap) (owned ps)
    → (lines : List Line) × (lines_loop mode nproc n curtime s ps ≡ ok (lines, ps, s))
      × (length lines ≡ length ps)
unfolding lines_loop measure owned
lines-totals mode nproc n curtime s [] other total count f l = ([], refl, refl)
lines-totals mode nproc n curtime s (p ∷ ps) other total count f l =
    let (x, y) = All-left (IsLive s.heap) p.connections (owned ps) l in
    let (lines, loop, k) =
      lines-totals mode nproc (suc n) curtime s ps other total (omega (arith, count)) f.1 y in
    let ends : (r : ℕ × ℕ) × (gettotal s p ≡ ok r) = (_, gettotal-total s p x) in
    let measured : measure mode curtime s p ≡ ok (ends.0, p, s) =
      rw (other, measure, total, ends.1) refl in
    let (line, whole) =
      lines_cons mode nproc n curtime s s s p p ps ps ends.0 lines count measured f.0 loop in
    (line ∷ lines, whole, omega (arith, k))

pub loop-exits :
    (mode : ℤ) (curtime : Timeval) (s : Store) (ps : List Process)
    → is_mode viewmode_kbps mode ≡ false
    → is_total mode ≡ false
    → ps ≢ []
    → lines_loop mode (length ps) 0 curtime s ps ≡ fault exited
unfolding lines_loop measure
loop-exits mode curtime s [] other unknown n = absurd (n refl)
loop-exits mode curtime s (p ∷ ps) other unknown n =
    let whole : (suc (length ps) == 0 + suc (length ps)) ≡ true = ground arith in
    rw (size-length p ps, whole, other, measure, unknown) refl
