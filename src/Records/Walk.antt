-- ===== src/Records/Walk.antt =====
-- The loop of nethogsmonitor_handle_update (src/libnethogs.cpp): the processes it removes, and the
-- order in which it sums up and reports the others.
use nethogs.Base.{
  ℕ, ◌+◌, ◌≡◌, ◌≢◌, ◌-◌, none, refl, ◌∙◌, List, [], ◌∷◌, arith, All, All-mono, ok, length, ◌==◌,
  true, suc, ◌%◌, ◌^◌, inl, inr, Bool-cases,
}
use nethogs.Store.{Store}
use nethogs.Store.Live.{IsLive, Apart, Distinct}
use nethogs.Process.{Process, Sweep, after_sweep, getkbps, gettotal}
use nethogs.Process.Totals.{gettotal-total, total, recv_of, sent_of}
use nethogs.Process.Sweeping.{Swept, getkbps-Swept, IsFresh-IsLive}
use nethogs.World.{World}
use nethogs.Safety.Sums.{sum_up}
use nethogs.Timeouts.Removal.{IsSilent, Quiet, Drops, NoneSilent, timed_out-IsSilent}
use nethogs.Safety.Invariant.{owned, All-left, Distinct-split, Disjoint}
use nethogs.Safety.Sums.{Disjoint-sym, moved}
use nethogs.Records.{Library, Action, put, behind, update_loop}
use nethogs.Records.Visits.{
  Visit, gone, seen, visit, visits, Covers, Agree, size-behind, gettotal-Agree,
}

Quiet-Agree :
    (w : World) (s : Store) (is : List ℕ)
    → Agree w.store s is
    → Quiet (record w { store = s }) is
    → Quiet w is
Quiet-Agree w s [] a q = tt
Quiet-Agree w s (i ∷ is) a ((c, e, past), q) = ((c, rw (← a.0) e, past), Quiet-Agree w s is a.1 q)

Agree-Quiet :
    (w : World) (s : Store) (is : List ℕ)
    → Agree w.store s is
    → Quiet w is
    → Quiet (record w { store = s }) is
Agree-Quiet w s [] a q = tt
Agree-Quiet w s (i ∷ is) a ((c, e, past), q) = ((c, rw a.0 e, past), Agree-Quiet w s is a.1 q)

Drops-Agree :
    (w : World) (s : Store) (ps r : List Process)
    → Agree w.store s (owned ps)
    → Drops (record w { store = s }) ps r
    → Drops w ps r
unfolding owned
Drops-Agree w s [] r a d = d
Drops-Agree w s (p ∷ ps) r a (inl (r', e, d)) =
    inl (r', e, Drops-Agree w s ps r' (All-left _ p.connections (owned ps) a).1 d)
Drops-Agree w s (p ∷ ps) r a (inr ((known, past, q), d)) =
    let (x, y) = All-left (λ i. s.heap i ≡ w.store.heap i) p.connections (owned ps) a in
    inr ((known, past, Quiet-Agree w s p.connections x q), Drops-Agree w s ps r y d)

NoneSilent-Agree :
    (w : World) (s : Store) (ps r : List Process)
    → Agree w.store s (owned ps)
    → Drops w ps r
    → NoneSilent (record w { store = s }) r
    → NoneSilent w r
unfolding owned
NoneSilent-Agree w s [] r a d n = rw d tt
NoneSilent-Agree w s (p ∷ ps) r a (inl (r', e, d)) n =
    let (x, y) = All-left (λ i. s.heap i ≡ w.store.heap i) p.connections (owned ps) a in
    let n' = rw e at n in
    rw e (
      λ (known, past, q). n'.0 (known, past, Agree-Quiet w s p.connections x q),
      NoneSilent-Agree w s ps r' y d n'.1,
    )
NoneSilent-Agree w s (p ∷ ps) r a (inr (q, d)) n =
    NoneSilent-Agree w s ps r (All-left _ p.connections (owned ps) a).1 d n

-- What the loop makes of the processes `ps`, from the map and the last record_id on.
pub record Walked (l : Library) (ps : List Process) : Type 0 where
  pub kept : List Process
  pub reports : List (ℕ × ℕ)
  pub after : List Process
  pub store : Store
  pub rounds : List Visit
  pub drops : Drops l.world ps kept
  pub none_silent : NoneSilent l.world kept
  pub summed : sum_up l.world.curtime l.world.store kept ≡ ok (reports, after, store)
  pub frame : (j : ℕ) → Apart j (owned ps) → store.heap j ≡ l.world.store.heap j
  pub covers : Covers store ps after rounds

-- The library and the calls at the end of the loop.
abbrev pub walked :
    (l : Library) → (ps previous : List Process) → Walked l ps → Library × List Action
walked l ps previous x =
    let (m, id, calls) = visits x.rounds l.monitor_record_map l.last_record_id in
    (
      record {
        world = record l.world { processes = behind previous x.after; store = x.store };
        monitor_record_map = m;
        last_record_id = id;
      },
      calls,
    )

abbrev Live : Library → List Process → Type 0
Live l ps = All (IsLive l.world.store.heap) (owned ps)

gone_next :
    (l : Library) (p : Process) (ps : List Process)
    → IsSilent l.world p
    → Walked (record l { monitor_record_map = put l.monitor_record_map p.address none }) ps
    → Walked l (p ∷ ps)
unfolding owned
gone_next l p ps silent x = record {
  kept = x.kept;
  reports = x.reports;
  after = x.after;
  store = x.store;
  rounds = gone p.address ∷ x.rounds;
  drops = inr (silent, x.drops);
  none_silent = x.none_silent;
  summed = x.summed;
  frame = λ j a. x.frame j (All-left (λ k. j ≢ k) p.connections (owned ps) a).1;
  covers = inl (x.rounds, refl, x.covers);
}

seen_next :
    (l : Library) (p : Process) (ps : List Process) (w : Sweep) (sums kbs : ℕ × ℕ)
    (x : Walked
      (record l {
        world = record l.world { store = w.store };
        monitor_record_map =
            (visit (seen (after_sweep p w).1 sums kbs) l.monitor_record_map l.last_record_id).0;
        last_record_id =
            (visit (seen (after_sweep p w).1 sums kbs) l.monitor_record_map l.last_record_id).1;
      })
      ps)
    → ¬ IsSilent l.world p
    → Disjoint p.connections (owned ps)
    → Swept l.world.curtime p.connections l.world.store p.sent_by_closed_bytes
        p.rcvd_by_closed_bytes w
    → getkbps l.world.curtime l.world.store p ≡ ok (after_sweep p w)
    → gettotal w.store (after_sweep p w).1 ≡ ok sums
    → Walked l (p ∷ ps)
unfolding owned sum_up
seen_next l p ps w sums kbs x loud disjoint sw e g =
    let elsewhere = Disjoint-sym p.connections (owned ps) disjoint in
    let same : Agree l.world.store w.store (owned ps) =
      All-mono (λ j. Apart j p.connections) _ (owned ps) sw.frame elsewhere in
    let kept_apart : Disjoint w.kept (owned ps) =
      Disjoint-sym (owned ps) w.kept (
        All-mono (λ j. Apart j p.connections) (λ j. Apart j w.kept) (owned ps) sw.apart
          elsewhere) in
    let p' = (after_sweep p w).1 in
    record {
      kept = p ∷ x.kept;
      reports = (after_sweep p w).0 ∷ x.reports;
      after = p' ∷ x.after;
      store = x.store;
      rounds = seen p' sums kbs ∷ x.rounds;
      drops = inl (x.kept, refl, Drops-Agree l.world w.store ps x.kept same x.drops);
      none_silent = (
        loud,
        NoneSilent-Agree l.world w.store ps x.kept same
            (Drops-Agree l.world w.store ps x.kept same x.drops) x.none_silent,
      );
      summed = rw (e, x.summed) refl;
      frame = λ j a.
          let (y, z) = All-left (λ k. j ≢ k) p.connections (owned ps) a in
          x.frame j z ∙ sw.frame j y;
      covers = inr (
        p',
        x.after,
        x.rounds,
        sums,
        kbs,
        refl,
        refl,
        refl,
        gettotal-Agree w.store x.store p'
              (All-mono (λ j. Apart j (owned ps)) _ w.kept x.frame kept_apart)
            ∙ g,
        x.covers,
      );
    }

pub update_loop-Walked :
    (tokbps : ℕ → ℕ) (ps previous : List Process) (l : Library) (nproc : ℕ)
    → nproc ≡ length previous + length ps
    → Live l ps
    → Distinct (owned ps)
    → (x : Walked l ps) × (update_loop tokbps previous nproc l ps ≡ ok (walked l ps previous x))
unfolding update_loop visits owned sum_up gone_next seen_next
update_loop-Walked tokbps [] previous l nproc n live d = (
  record {
    kept = [];
    reports = [];
    after = [];
    store = l.world.store;
    rounds = [];
    drops = refl;
    none_silent = tt;
    summed = refl;
    frame = λ j a. refl;
    covers = (refl, refl);
  },
  refl,
)
update_loop-Walked tokbps (p ∷ ps) previous l nproc n live d =
    let (lp, lr) = All-left (IsLive l.world.store.heap) p.connections (owned ps) live in
    let (dp, dr, disjoint) = Distinct-split p.connections (owned ps) d in
    let here : (nproc == (length previous + suc (length ps))) ≡ true = ground arith in
    let (out, t, silent) = timed_out-IsSilent l.world p lp in
    elim (Bool-cases out) [
      | inl yes' ↦
          let l' = record l { monitor_record_map = put l.monitor_record_map p.address none } in
          let (x, e) = update_loop-Walked tokbps ps previous l' (nproc - 1) (omega arith) lr dr in
          (
            gone_next l p ps (silent.0 yes') x,
            rw (size-behind previous p ps, here, t, yes', e) refl,
          )
      | inr no' ↦
          let loud : ¬ IsSilent l.world p = λ q. let k = silent.1 q in ground arith in
          let (w, e, sw) = getkbps-Swept l.world.curtime l.world.store p lp dp in
          let recv = w.sum_recv in
          let sent = w.sum_sent in
          let p' = (after_sweep p w).1 in
          let s = w.store in
          let g =
            gettotal-total s p' (IsFresh-IsLive l.world.curtime s.heap p'.connections sw.fresh) in
          let sums : ℕ × ℕ = (
            (p'.rcvd_by_closed_bytes + total recv_of s.heap p'.connections) % 2 ^ 64,
            (p'.sent_by_closed_bytes + total sent_of s.heap p'.connections) % 2 ^ 64,
          ) in
          let kbs : ℕ × ℕ = (tokbps recv, tokbps sent) in
          let v = visit (seen p' sums kbs) l.monitor_record_map l.last_record_id in
          let l' = record l {
            world = record l.world { store = s };
            monitor_record_map = v.0;
            last_record_id = v.1;
          } in
          let (x, f) =
            update_loop-Walked tokbps ps (p' ∷ previous) l' nproc (omega arith)
              (moved l.world.store.heap s.heap (owned ps) p.connections sw.frame
                (Disjoint-sym p.connections (owned ps) disjoint) lr)
              dr in
          (
            seen_next l p ps w sums kbs x loud disjoint sw e g,
            rw (size-behind previous p ps, here, t, no', e, g, f) refl,
          )
    ]
