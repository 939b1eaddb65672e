-- ===== src/Process/Closing.antt =====
-- What getkbps does to a process, to its connections and to those of others (src/process.cpp).
use nethogs.Base.{ℕ, ◌≡◌, ◌⊎◌, none, arith, All, ok}
use nethogs.Packet.{Timeval}
use nethogs.Store.{Store}
use nethogs.Store.Live.{IsLive, Apart, Distinct}
use nethogs.Process.{Process, after_sweep, getkbps, gettotal}
use nethogs.Process.Totals.{gettotal-total}
use nethogs.Process.Sweeping.{IsFresh, IsFresh-IsLive, getkbps-Swept}

module _ (curtime : Timeval) where
  pub getkbps_lem :
      (s : Store) (p : Process)
      → All (IsLive s.heap) p.connections
      → Distinct p.connections
      → All (IsLive s.heap) s.connections
      → (r : ℕ × ℕ) × (p' : Process) × (s' : Store) × (getkbps curtime s p ≡ ok (r, p', s'))
        × (gettotal s' p' ≡ gettotal s p)
        × All (IsFresh curtime s'.heap) p'.connections
        × Distinct p'.connections
        × All (λ j. IsFresh curtime s'.heap j ⊎ (s'.heap j ≡ none)) p.connections
        × ((j : ℕ) → Apart j p.connections → s'.heap j ≡ s.heap j)
        × All (IsLive s'.heap) s'.connections
  getkbps_lem s p l d g =
      let (w, e, sw) = getkbps-Swept curtime s p l d in
      let (r, p', s') = after_sweep p w in
      (
        r,
        p',
        s',
        e,
        ground (
          arith,
          sw.sent_same,
          sw.recv_same,
          gettotal-total s p l,
          gettotal-total s' p' (IsFresh-IsLive curtime s'.heap p'.connections sw.fresh),
        ),
        sw.fresh,
        sw.distinct,
        sw.gone,
        sw.frame,
        sw.links g,
      )

  -- On a process whose connections are live and distinct, getkbps never follows a deleted pointer.
  -- It leaves the totals of gettotal as they were; the process keeps only live connections that are
  -- not stalled; each of its connections is now one of those or is deleted; and the list of all
  -- connections still holds live ones only, if it did before.
  pub getkbps_closes :
      (s : Store) (p : Process)
      → All (IsLive s.heap) p.connections
      → Distinct p.connections
      → All (IsLive s.heap) s.connections
      → (r : ℕ × ℕ) × (p' : Process) × (s' : Store) × (getkbps curtime s p ≡ ok (r, p', s'))
        × (gettotal s' p' ≡ gettotal s p)
        × All (IsFresh curtime s'.heap) p'.connections
        × Distinct p'.connections
        × All (λ j. IsFresh curtime s'.heap j ⊎ (s'.heap j ≡ none)) p.connections
        × All (IsLive s'.heap) s'.connections
  getkbps_closes s p l d g =
      let (r, p', s', e, t, f, d', gone, frame, links) = getkbps_lem s p l d g in
      (r, p', s', e, t, f, d', gone, links)

  -- getkbps changes no connection of another process.
  pub getkbps_frame :
      (s s' : Store) (p p' : Process) (r : ℕ × ℕ) (j : ℕ)
      → All (IsLive s.heap) p.connections
      → Distinct p.connections
      → All (IsLive s.heap) s.connections
      → Apart j p.connections
      → getkbps curtime s p ≡ ok (r, p', s')
      → s'.heap j ≡ s.heap j
  getkbps_frame s s' p p' r j l d g a h =
      let (_, _, t, e, _, _, _, _, frame, _) = getkbps_lem s p l d g in
      let same : t ≡ s' = ground arith in rw (← same) (frame j a)
