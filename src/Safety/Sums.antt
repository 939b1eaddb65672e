-- ===== src/Safety/Sums.antt =====
-- The lists while the processes are summed up by Process::getkbps (src/process.cpp).
use nethogs.Base.{
  Result, ◌>>=◌, ℕ, ◌<◌, ◌≡◌, ◌≢◌, refl, sym, ◌∙◌, ap, List, [], ◌∷◌, map, All, All-mono,
  All-append, length, suc, ok, Option,
}
use nethogs.Packet.{Timeval}
use nethogs.Connection.{Connection}
use nethogs.Store.{Store}
use nethogs.Store.Live.{IsLive, Apart, Distinct}
use nethogs.Process.{Process, after_sweep, getkbps}
use nethogs.Process.Sweeping.{getkbps-Swept, IsFresh-IsLive}
use nethogs.Safety.Invariant.{owned, Below, All-left, Distinct-split, Distinct-join, Disjoint}

abbrev pub report :
    (ℕ × ℕ)
    → Process
    → Result (List (ℕ × ℕ) × List Process × Store)
    → Result (List (ℕ × ℕ) × List Process × Store)
report r p rest = do (rs, ps, s) ← rest; ok (r ∷ rs, p ∷ ps, s)

-- What the processes received and sent, one after the other.
unfoldable pub sum_up :
    Timeval → Store → List Process → Result (List (ℕ × ℕ) × List Process × Store)
unfolding getkbps
sum_up curtime s [] = ok ([], [], s)
sum_up curtime s (p ∷ ps) = do (r, p', s') ← getkbps curtime s p; report r p' (sum_up curtime s' ps)

Apart-head : (y : ℕ) (xs ys : List ℕ) → Disjoint xs (y ∷ ys) → Apart y xs
Apart-head y [] ys d = tt
Apart-head y (x ∷ xs) ys d = (λ e. d.0.0 (sym e), Apart-head y xs ys d.1)

Disjoint-tail : (y : ℕ) (xs ys : List ℕ) → Disjoint xs (y ∷ ys) → Disjoint xs ys
Disjoint-tail y xs ys = All-mono (λ i. Apart i (y ∷ ys)) (λ i. Apart i ys) xs (λ i a. a.1)

-- Of two disjoint lists, each is apart from the elements of the other.
pub Disjoint-sym : (xs ys : List ℕ) → Disjoint xs ys → Disjoint ys xs
Disjoint-sym xs [] d = tt
Disjoint-sym xs (y ∷ ys) d = (Apart-head y xs ys d, Disjoint-sym xs ys (Disjoint-tail y xs ys d))

-- What the loop makes of the processes `ps` and the store `s`.
pub record Summed (s : Store) (ps : List Process) (s' : Store) (ps' : List Process)
    (rs : List (ℕ × ℕ)) : Type 0 where
  pub live : All (IsLive s'.heap) (owned ps')
  pub distinct : Distinct (owned ps')
  pub apart : (j : ℕ) → Apart j (owned ps) → Apart j (owned ps')
  pub frame : (j : ℕ) → Apart j (owned ps) → s'.heap j ≡ s.heap j
  pub links : All (IsLive s.heap) s.connections → All (IsLive s'.heap) s'.connections
  pub owned_below : (n : ℕ) → Below n (owned ps) → Below n (owned ps')
  pub linked_below : (n : ℕ) → Below n s.connections → Below n s'.connections
  pub next_same : s'.next_object ≡ s.next_object
  pub addresses : map (λ p. p.address) ps' ≡ map (λ p. p.address) ps
  pub reports : length rs ≡ length ps'

pub moved :
    (heap heap' : ℕ → Option Connection) (is xs : List ℕ)
    → ((j : ℕ) → Apart j xs → heap' j ≡ heap j)
    → Disjoint is xs
    → All (IsLive heap) is
    → All (IsLive heap') is
moved heap heap' [] xs f d l = tt
moved heap heap' (i ∷ is) xs f d l = ((l.0.0, f i d.0 ∙ l.0.1), moved heap heap' is xs f d.1 l.1)

pub loop-Summed :
    (curtime : Timeval) (ps : List Process) (s : Store)
    → All (IsLive s.heap) (owned ps)
    → Distinct (owned ps)
    → (rs : List (ℕ × ℕ)) × (ps' : List Process) × (s' : Store) × (sum_up curtime s ps
        ≡ ok (rs, ps', s'))
      × Summed s ps s' ps' rs
unfolding sum_up owned
loop-Summed curtime [] s l d = (
  [],
  [],
  s,
  refl,
  record {
    live = tt;
    distinct = tt;
    apart = λ j a. tt;
    frame = λ j a. refl;
    links = λ h. h;
    owned_below = λ n h. tt;
    linked_below = λ n h. h;
    next_same = refl;
    addresses = refl;
    reports = refl;
  },
)
loop-Summed curtime (p ∷ ps) s l d =
    let (lp, lr) = All-left (IsLive s.heap) p.connections (owned ps) l in
    let (dp, dr, disjoint) = Distinct-split p.connections (owned ps) d in
    let (w, e, sw) = getkbps-Swept curtime s p lp dp in
    let elsewhere = Disjoint-sym p.connections (owned ps) disjoint in
    let (rs, ps', s', f, sm) =
      loop-Summed curtime ps w.store
        (moved s.heap w.store.heap (owned ps) p.connections sw.frame elsewhere lr) dr in
    let kept_apart =
      Disjoint-sym (owned ps) w.kept (
        All-mono (λ j. Apart j p.connections) (λ j. Apart j w.kept) (owned ps) sw.apart
          elsewhere) in
    (
      (after_sweep p w).0 ∷ rs,
      (after_sweep p w).1 ∷ ps',
      s',
      rw (e, f) refl,
      record {
        live =
            All-append (IsLive s'.heap) w.kept (owned ps')
              (moved w.store.heap s'.heap w.kept (owned ps) sm.frame kept_apart
                (IsFresh-IsLive curtime w.store.heap w.kept sw.fresh))
              sm.live;
        distinct = Distinct-join w.kept (owned ps') sw.distinct sm.distinct (
            All-mono (λ j. Apart j (owned ps)) (λ j. Apart j (owned ps')) w.kept sm.apart
              kept_apart);
        apart = λ j a.
            let (x, y) = All-left (λ k. j ≢ k) p.connections (owned ps) a in
            All-append (λ k. j ≢ k) w.kept (owned ps') (sw.apart j x) (sm.apart j y);
        frame = λ j a.
            let (x, y) = All-left (λ k. j ≢ k) p.connections (owned ps) a in
            sm.frame j y ∙ sw.frame j x;
        links = λ h. sm.links (sw.links h);
        owned_below = λ n h.
            let (x, y) = All-left (λ k. k < n) p.connections (owned ps) h in
            All-append (λ k. k < n) w.kept (owned ps') (sw.kept_below n x) (sm.owned_below n y);
        linked_below = λ n h. sm.linked_below n (sw.linked_below n h);
        next_same = sm.next_same ∙ sw.next_same;
        addresses = ap (◌∷◌ p.address) sm.addresses;
        reports = ap suc sm.reports;
      },
    )
