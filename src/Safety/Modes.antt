-- ===== src/Safety/Modes.antt =====
-- The refreshes of the terminal by view mode: do_refresh (src/cui.cpp) up to the sorting of the lines,
-- and the modes in which it ends the program.
use nethogs.Base.{
  ℤ, ◌≡◌, ◌≢◌, refl, true, false, List, [], arith, length, Result, ok, fault, exited, Bool-cases,
  inl, inr,
}
use nethogs.World.{World, Host}
use nethogs.Cui.{is_mode, is_total, viewmode_kbps}
use nethogs.Cui.Line.{Line, Fits}
use nethogs.Cui.Modes.{Known}
use nethogs.Timeouts.{refresh_lines}
use nethogs.Safety.Invariant.{IsSafe}
use nethogs.Safety.Sums.{loop-Summed}
use nethogs.Safety.Removed.{Drops-All}
use nethogs.Timeouts.{do_refresh}
use nethogs.Safety.{Safely, Safely-bind, Anything, refreshconninode-Safely}
use nethogs.ConnInode.{ConnTable, refreshconninode}
use nethogs.Safety.Refresh.{removed-IsSafe, Summed-IsSafe, tables-IsSafe}
use nethogs.Safety.Terminal.{AllFit, size-inhabited, lines-sum_up, lines-totals, loop-exits}

-- What a refresh comes to: a line for each process that stays, in a safe state.
abbrev pub Refreshes : Result (List Line × World) → Type 0
Refreshes m =
    (lines : List Line) × (w' : World) × (m ≡ ok (lines, w'))
    × (length lines ≡ length w'.processes)
    × IsSafe w'

pub refresh_lines-kbps :
    (mode : ℤ) (w : World)
    → is_mode viewmode_kbps mode ≡ true
    → AllFit w.processes
    → IsSafe w
    → Refreshes (refresh_lines mode w)
unfolding refresh_lines
refresh_lines-kbps mode w kbps f s =
    let (r, e, safe, d) = removed-IsSafe w s in
    let w1 = record w { processes = r } in
    let (rs, ps, store, sums, m) =
      loop-Summed w.curtime r w.store safe.owned_live safe.owned_distinct in
    let fits = Drops-All (λ p. Fits p.pid) w w.processes r d f in
    let (lines, loop, k) =
      lines-sum_up mode (length r) 0 w.curtime w.store store r ps rs kbps (omega arith) fits sums in
    (
      lines,
      record w1 { processes = ps; store = store },
      rw (kbps, refresh_lines, e, size-inhabited r safe.inhabited, loop) refl,
      k,
      Summed-IsSafe w1 ps store rs safe m,
    )

pub refresh_lines-totals :
    (mode : ℤ) (w : World)
    → is_mode viewmode_kbps mode ≡ false
    → is_total mode ≡ true
    → AllFit w.processes
    → IsSafe w
    → Refreshes (refresh_lines mode w)
unfolding refresh_lines
refresh_lines-totals mode w other total f s =
    let (lines, loop, k) =
      lines-totals mode (length w.processes) 0 w.curtime w.store w.processes other total
        (omega arith) f s.owned_live in
    (lines, w, rw (other, refresh_lines, size-inhabited w.processes s.inhabited, loop) refl, k, s)

-- In another mode the first process ends the program.
pub refresh_lines-exits :
    (mode : ℤ) (w : World)
    → is_mode viewmode_kbps mode ≡ false
    → is_total mode ≡ false
    → w.processes ≢ []
    → refresh_lines mode w ≡ fault exited
unfolding refresh_lines
refresh_lines-exits mode w other unknown some_process =
    rw
      (
        other,
        refresh_lines,
        size-inhabited w.processes some_process,
        loop-exits mode w.curtime w.store w.processes other unknown some_process,
      )
      refl

abbrev pub After : List Line × World → Type 0
After x = IsSafe x.1

ends-Safely : (m : Result (List Line × World)) → Refreshes m → Safely After m
ends-Safely m (lines, w', e, k, s) = rw e s

lines-Safely :
    (mode : ℤ) (w : World) → IsSafe w → AllFit w.processes → Safely After (refresh_lines mode w)
lines-Safely mode w s f = elim (Bool-cases (is_mode viewmode_kbps mode)) [
  | inl kbps ↦ ends-Safely (refresh_lines mode w) (refresh_lines-kbps mode w kbps f s)
  | inr other ↦ elim (Bool-cases (is_total mode)) [
    | inl total ↦ ends-Safely (refresh_lines mode w) (refresh_lines-totals mode w other total f s)
    | inr unknown ↦ rw (refresh_lines-exits mode w other unknown s.inhabited) tt
  ]
]

module _ (h : Host) (mode : ℤ) (w : World) (t : ConnTable) where
  -- In a safe state that can read /proc/net/tcp and in which every process id can be shown (it is at
  -- most PID_MAX), do_refresh goes on to the sorting in the modes KBPS and those of the totals, with a
  -- line for each process that stays, and leaves a safe state; in every other mode, a negative one
  -- included, it ends the program.
  pub do_refresh-Known :
      IsSafe w
      → AllFit w.processes
      → refreshconninode h.net h.buf h.raw_words w.local_addrs h.files w.conninode ≡ ok t
      → (Known mode → Refreshes (do_refresh h mode w))
        × (¬ Known mode → do_refresh h mode w ≡ fault exited)
  unfolding do_refresh
  do_refresh-Known s f g =
      let w1 = record w { conninode = t } in
      let safe = tables-IsSafe w t s in
      elim (Bool-cases (is_mode viewmode_kbps mode)) [
        | inl kbps ↦
            ((λ _. rw g (refresh_lines-kbps mode w1 kbps f safe)), λ no. absurd (no (inl kbps)))
        | inr other ↦ elim (Bool-cases (is_total mode)) [
          | inl total ↦ (
            (λ _. rw g (refresh_lines-totals mode w1 other total f safe)),
            λ no. absurd (no (inr total)),
          )
          | inr unknown ↦ (
            (λ known. absurd (ground (arith, other, unknown, known))),
            λ no. rw g (refresh_lines-exits mode w1 other unknown s.inhabited),
          )
        ]
      ]

pub do_refresh-Safely :
    (h : Host) (mode : ℤ) (w : World)
    → IsSafe w
    → AllFit w.processes
    → Safely After (do_refresh h mode w)
unfolding do_refresh
do_refresh-Safely h mode w s f =
    Safely-bind Anything After
      (refreshconninode h.net h.buf h.raw_words w.local_addrs h.files w.conninode) _
      (refreshconninode-Safely h.net h.buf h.raw_words w.local_addrs h.files w.conninode)
      (λ t _. lines-Safely mode (record w { conninode = t }) (tables-IsSafe w t s) f)
