-- ===== src/Monitor/Mirroring.antt =====
-- What a client hears during the main loop of the library (src/libnethogs.cpp).
use nethogs.Base.{
  ℕ, ◌+◌, ◌≤◌, ◌<◌, ◌^◌, ◌≡◌, Bool, false, Option, List, [], ◌∷◌, arith, Result, ok, fault, refl,
  Leaves, Leaves-bind, Leaves-both, Leaves-ok, length, length-append, leb, Bool-cases, inl, inr,
}
use nethogs.Callbacks.{DpArgs}
use nethogs.World.{Host}
use nethogs.ConnInode.{ConnTable, refreshconninode}
use nethogs.Safety.{Safely-Leaves}
use nethogs.Safety.Invariant.{IsSafe}
use nethogs.Records.{Library, Action, handle_update}
use nethogs.Records.Refresh.{handle_update-Walked}
use nethogs.Records.Client.{Client, listen_all, Mirrors}
use nethogs.Records.Calls.{listen_all-append, visits-Mirrors}
use nethogs.Monitor.{Status, Monitor}
use nethogs.Monitor.Rounds.{
  Round, dispatch_handles, update_if_due, monitor_refresh_delay, round, main_loop,
  nethogsmonitor_clean_up,
}
use nethogs.Monitor.Safe.{MonitorOpen, ReadSafe, RoundSafe, dispatch_handles-Safely, round-Safely}

-- The client has the records of the library.
abbrev pub Hears : Library → Client → Type 0
Hears l c = Mirrors l.monitor_record_map l.last_record_id c

-- The client has them if so many ids do not overflow, and no more have been given.
abbrev Told : ℕ → Client → Library → Type 0
Told n c l = n < 2 ^ 31 → Hears l c × (l.last_record_id ≤ n)

-- Each call brings one id at most.
abbrev Keeps : ℕ → Client → Library → List Action → Type 0
Keeps n c l calls = Told (n + length calls) (listen_all calls c) l

abbrev UpdateKeeps : ℕ → Client → Monitor × List Action → Type 0
UpdateKeeps n c (m, calls) = Keeps n c m.library calls

abbrev RoundKeeps : ℕ → Client → Bool × (Monitor × DpArgs) × List Action → Type 0
RoundKeeps n c (goes_on, x, calls) = Keeps n c x.0.library calls

abbrev LoopKeeps : ℕ → Client → Option Status × (Monitor × DpArgs) × List Action → Type 0
LoopKeeps n c (st, x, calls) = Keeps n c x.0.library calls

-- Without a call nothing changes.
none_called : (n : ℕ) (c : Client) (l : Library) → Told n c l → Keeps n c l []
unfolding listen_all
none_called n c l told below = let (h, near) = told (omega arith) in (h, omega arith)

module _ (tokbps : ℕ → ℕ) (n : ℕ) (c : Client) where
  read-Keeps :
      (h : Host) (l : Library) (table : Result ConnTable)
      → IsSafe l.world
      → Told n c l
      → refreshconninode h.net h.buf h.raw_words l.world.local_addrs h.files l.world.conninode
        ≡ table
      → Leaves (λ (y : Library × List Action). Keeps n c y.0 y.1) (handle_update tokbps h l)
  read-Keeps h l (fault stop) s told e = unfold handle_update in rw e tt
  read-Keeps h l (ok t) s told e =
      let (x, f) = handle_update-Walked tokbps h l t s e in
      rw f (λ below.
        let (hears, near) = told (omega arith) in
        let (r, near') =
          visits-Mirrors x.rounds l.monitor_record_map l.last_record_id c hears (omega arith) in
        (r, omega arith))

  update_if_due-Keeps :
      (r : Round) (m : Monitor)
      → IsSafe m.library.world
      → Told n c m.library
      → Leaves (UpdateKeeps n c) (update_if_due tokbps r m)
  unfolding update_if_due
  update_if_due-Keeps r m s told =
      elim (Bool-cases (leb (m.last_refresh_time + monitor_refresh_delay) r.now)) [
        | inl due ↦
            rw (due, update_if_due)
              (Leaves-bind (λ (y : Library × List Action). Keeps n c y.0 y.1) (UpdateKeeps n c)
                (handle_update tokbps r.host m.library) _
                (read-Keeps r.host m.library _ s told refl) (λ y k. k))
        | inr not_yet ↦ rw (not_yet, update_if_due) (none_called n c m.library told)
      ]

  round-Keeps :
      (r : Round) (x : Monitor × DpArgs)
      → MonitorOpen x.0
      → Told n c x.0.library
      → Leaves (RoundKeeps n c) (round tokbps r x)
  unfolding round
  round-Keeps r (m, args) (s, o) told =
      let handles = dispatch_handles r m.watched.handles false (args, m.library.world) in
      Leaves-bind ReadSafe (RoundKeeps n c) handles _
        (Safely-Leaves ReadSafe handles
          (dispatch_handles-Safely r m.watched.handles false (args, m.library.world) o s))
        (λ (read, (args', w)) k.
          let m' = record m { library = record m.library { world = w } } in
          Leaves-bind (UpdateKeeps n c) (RoundKeeps n c) (update_if_due tokbps r m') _
            (update_if_due-Keeps r m' k told) (λ y k'. k'))

module _ (tokbps : ℕ → ℕ) where
  main_loop-Keeps :
      (rounds : List Round) (x : Monitor × DpArgs) (n : ℕ) (c : Client)
      → MonitorOpen x.0
      → Told n c x.0.library
      → Leaves (LoopKeeps n c) (main_loop tokbps rounds x)
  unfolding main_loop nethogsmonitor_clean_up
  main_loop-Keeps [] x n c s told = none_called n c x.0.library told
  main_loop-Keeps (r ∷ rounds) x n c s told = elim (Bool-cases r.run_flag) [
    | inr halted ↦ rw (halted, main_loop) (none_called n c x.0.library told)
    | inl runs ↦
        rw (runs, main_loop)
          (Leaves-bind _ (LoopKeeps n c) (round tokbps r x) _
            (Leaves-both RoundSafe (RoundKeeps n c) (round tokbps r x)
              (Safely-Leaves RoundSafe (round tokbps r x) (round-Safely tokbps r x s))
              (round-Keeps tokbps n c r x s told))
            (λ (goes_on, y, calls) (safe, k). elim (Bool-cases goes_on) [
              | inl on ↦ rw on (
                  Leaves-bind (LoopKeeps (n + length calls) (listen_all calls c)) (LoopKeeps n c)
                    (main_loop tokbps rounds y) _
                    (main_loop-Keeps rounds y (n + length calls) (listen_all calls c) safe k)
                    (λ (st, z, more) k' below.
                      let total = length-append calls more in
                      let (hears, near) = k' (omega arith) in
                      (rw (listen_all-append calls more c) hears, omega arith)))
              | inr off ↦ rw off k
            ]))
  ]

  -- From a safe state on, in which no handle has been closed: a client that has the records of the
  -- library, each under an id of its own, and no others, and then only listens to the calls, has
  -- them behind the main loop, but for the names of devices, which are not reported. This is so
  -- whatever the devices deliver and over however many rounds, as long as the program goes on and the
  -- client is not called so often that the ids could overflow.
  pub main_loop-Mirrors :
      (rounds : List Round) (x x' : Monitor × DpArgs) (st : Option Status) (calls : List Action)
      (c : Client)
      → MonitorOpen x.0
      → Hears x.0.library c
      → main_loop tokbps rounds x ≡ ok (st, x', calls)
      → x.0.library.last_record_id + length calls < 2 ^ 31
      → Hears x'.0.library (listen_all calls c)
  main_loop-Mirrors rounds x x' st calls c s hears e below =
      let n = x.0.library.last_record_id in
      let k =
        Leaves-ok (LoopKeeps n c) (main_loop tokbps rounds x)
          (main_loop-Keeps rounds x n c s (λ _. (hears, omega arith))) e in
      (k below).0
