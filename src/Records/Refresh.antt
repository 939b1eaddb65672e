-- ===== src/Records/Refresh.antt =====
-- A refresh of the library in a safe state: nethogsmonitor_handle_update (src/libnethogs.cpp).
use nethogs.Base.{ℕ, pos, ◌≡◌, ◌≢◌, refl, List, [], ◌∷◌, arith, All, ok, length}
use nethogs.ConnInode.{ConnTable, refreshconninode}
use nethogs.Packet.{Timeval}
use nethogs.Store.{Store}
use nethogs.Store.Live.{IsLive, Distinct}
use nethogs.Process.{Process}
use nethogs.World.{Host}
use nethogs.Safety.Sums.{sum_up}
use nethogs.Timeouts.Removal.{Drops, NoneSilent}
use nethogs.Safety.Invariant.{IsSafe, owned}
use nethogs.Safety.Sums.{Summed, loop-Summed}
use nethogs.Safety.Refresh.{Drops-IsSafe, Summed-IsSafe, tables-IsSafe}
use nethogs.Cui.{viewmode_kbps}
use nethogs.Cui.Line.{Line, Fits}
use nethogs.Timeouts.{lines_loop}
use nethogs.Safety.Removed.{Drops-All}
use nethogs.Safety.Terminal.{AllFit, lines-sum_up}
use nethogs.Records.{Library, Action, handle_update}
use nethogs.Process.{size}
use nethogs.Records.Visits.{size-behind}
use nethogs.Records.Walk.{Walked, walked, update_loop-Walked}

pub size-length : (ps : List Process) → ps ≢ [] → size ps ≡ ok (length ps)
size-length [] n = absurd (n refl)
size-length (p ∷ ps) n = ground (arith, size-behind [] p ps)

Summed-ok :
    (curtime : Timeval) (ps : List Process) (s : Store) (rs : List (ℕ × ℕ)) (ps' : List Process)
    (s' : Store)
    → All (IsLive s.heap) (owned ps)
    → Distinct (owned ps)
    → sum_up curtime s ps ≡ ok (rs, ps', s')
    → Summed s ps s' ps' rs
Summed-ok curtime ps s rs ps' s' l d e =
    let (qs, rs', t, f, m) = loop-Summed curtime ps s l d in
    let same_r : rs ≡ qs = ground arith in
    let same_p : ps' ≡ rs' = ground arith in
    let same_s : s' ≡ t = ground arith in rw (same_r, same_p, same_s) m

-- The library once the connection table has been read again.
abbrev pub reread : Library → ConnTable → Library
reread l t = record l { world = record l.world { conninode = t } }

abbrev pub TableRead : Host → Library → ConnTable → Type 0
TableRead h l t =
    refreshconninode h.net h.buf h.raw_words l.world.local_addrs h.files l.world.conninode ≡ ok t

pub walked-IsSafe :
    (l : Library) (t : ConnTable)
    → IsSafe l.world
    → (x : Walked (reread l t) l.world.processes)
    → IsSafe (walked (reread l t) l.world.processes [] x).0.world
walked-IsSafe l t s x =
    let w = (reread l t).world in
    let safe = Drops-IsSafe w x.kept (tables-IsSafe l.world t s) x.drops in
    Summed-IsSafe (record w { processes = x.kept }) x.after x.store x.reports safe
      (Summed-ok w.curtime x.kept w.store x.reports x.after x.store safe.owned_live
        safe.owned_distinct x.summed)

module _ (tokbps : ℕ → ℕ) (h : Host) (l : Library) (t : ConnTable) (s : IsSafe l.world)
    (r : TableRead h l t) where
  pub handle_update-Walked :
      (x : Walked (reread l t) l.world.processes) × (handle_update tokbps h l
        ≡ ok (walked (reread l t) l.world.processes [] x))
  unfolding handle_update
  handle_update-Walked =
      let (x, e) =
        update_loop-Walked tokbps l.world.processes [] (reread l t) (length l.world.processes)
          (omega arith) s.owned_live s.owned_distinct in
      (x, rw (r, size-length l.world.processes s.inhabited, e) refl)

  -- A refresh of the library in a safe state that can read /proc/net/tcp, with process ids that the
  -- terminal could show, ends. Unlike the terminal it removes every silent process, and only those;
  -- then it does to the others what the loop of do_refresh does in the mode KBPS, so that connections
  -- without a packet for CONNTIMEOUT seconds go there too; and it leaves a safe state.
  pub handle_update-lines_loop :
      AllFit l.world.processes
      → (l' : Library) × (calls : List Action) × (kept ps : List Process) × (lines : List Line)
        × (store : Store) × (handle_update tokbps h l ≡ ok (l', calls))
        × Drops (reread l t).world l.world.processes kept
        × NoneSilent (reread l t).world kept
        × (lines_loop (pos viewmode_kbps) (length kept) 0 l.world.curtime l.world.store kept
            ≡ ok (lines, ps, store))
        × (l'.world ≡ record l.world { conninode = t; processes = ps; store = store })
        × IsSafe l'.world
  handle_update-lines_loop fit =
      let (x, e) = handle_update-Walked in
      let fits =
        Drops-All (λ p. Fits p.pid) (reread l t).world l.world.processes x.kept x.drops fit in
      let (lines, loop, _) =
        lines-sum_up (pos viewmode_kbps) (length x.kept) 0 l.world.curtime l.world.store x.store
          x.kept x.after x.reports refl (omega arith) fits x.summed in
      (
        _,
        _,
        x.kept,
        x.after,
        lines,
        x.store,
        e,
        x.drops,
        x.none_silent,
        loop,
        refl,
        walked-IsSafe l t s x,
      )
