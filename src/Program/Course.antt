-- ===== src/Program/Course.antt =====
-- The course of the main loop of the command line program (src/main.cpp): what a turn keeps, and when
-- another follows.
use nethogs.Base.{
  map, ℤ, ok-inj, ℕ, ◌≡◌, refl, ap, ◌∙◌, sym, Bool, true, false, ◌||◌, Option, some, List, [], ◌∷◌,
  if◌then◌else◌, Result, ok, >>=-eq-ok, arith, Bool-cases, ◌⊎◌, inl, inr,
}
use nethogs.Capture.{Monitored, dp_dispatch}
use nethogs.Timeouts.{do_refresh}
use nethogs.Opening.{Handle, wait_for_next_trigger}
use nethogs.Cui.{Ui}
use nethogs.Cui.Screen.{sort_lines}
use nethogs.Program.{Options}
use nethogs.Program.Rounds.{
  Turn, Running, Drawn, frames_of, has_read, capture_handles, after_key, is_due, ticked, is_last,
  divided, draw, refresh_screen, refresh_if_due, turn, program_loop,
}

-- Some handle has a packet in the turn.
abbrev pub has_packets : Turn → List Handle → Bool
has_packets r [] = false
has_packets r (handle ∷ next) =
    has_read (frames_of (r.arrivals handle.devicename)) || has_packets r next

or_then : (a b c : Bool) → (b || (if a then true else c)) ≡ ((a || b) || c)
or_then true true c = refl
or_then true false c = refl
or_then false true c = refl
or_then false false c = refl

capture_handles-inv :
    (r : Turn) (handles : List Handle) (b b' : Bool) (x y : Monitored)
    → capture_handles r handles b x ≡ ok (b', y)
    → b' ≡ (has_packets r handles || b)
unfolding capture_handles
capture_handles-inv r [] b b' x y e = let read : b' ≡ b = ground arith in read
capture_handles-inv r (handle ∷ next) b b' x y e =
    let frames = frames_of (r.arrivals handle.devicename) in
    let (z, f, g) = >>=-eq-ok (dp_dispatch r.host handle.linktype handle.devicename frames x) _ e in
    capture_handles-inv r next (if has_read frames then true else b) b' z y g
    ∙ or_then (has_read frames) (has_packets r next) b

-- What a refresh keeps.
pub record Refreshed (p p' : Running) : Type 0 where
  pub watched : p'.watched ≡ p.watched
  pub self_pipe : p'.self_pipe ≡ p.self_pipe
  pub is_written : p.is_written ≡ true → p'.is_written ≡ true

written_or : (b c : Bool) → c ≡ true → (b || c) ≡ true
written_or true c e = refl
written_or false c e = e

ticked_keeps :
    (tracemode : Bool) (key : Option ℕ) (ui : Ui) (is_written : Bool)
    → is_written ≡ true
    → (ticked tracemode key ui is_written).1 ≡ true
unfolding ticked
ticked_keeps tracemode key ui is_written e = ground arith

ok-fst : {A B : Type 0} {x y : A × B} → ok x ≡ ok y → x.0 ≡ y.0
ok-fst e = ap (λ z. z.0) (ok-inj e)

pub or_false : (a : Bool) → (a || false) ≡ a
or_false true = refl
or_false false = refl

or_if : (a b : Bool) → (if (a || false) then true else b) ≡ (a || b)
or_if true b = refl
or_if false b = refl

which :
    {A : Type 0} (b : Bool) (first second : Result A) (y : A)
    → (elim b [ false ↦ first | true ↦ second ]) ≡ ok y
    → ((b ≡ false) × (first ≡ ok y)) ⊎ ((b ≡ true) × (second ≡ ok y))
which false first second y e = inl (refl, e)
which true first second y e = inr (refl, e)

module _ (value : ℤ → ℕ → ℕ) (number : ℕ → List ℕ) (o : Options) where
  refresh_screen-Refreshed :
      (r : Turn) (p p' : Running) (printed : Drawn)
      → refresh_screen value number o r p ≡ ok (p', printed)
      → Refreshed p p'
  unfolding refresh_screen
  refresh_screen-Refreshed r p p' printed e =
      let ((lines, w), f, g) = >>=-eq-ok (do_refresh r.host p.ui.view_mode p.world) _ e in
      let shown = map (divided (value p.ui.view_mode)) lines in
      let (d, f1, g1) =
        >>=-eq-ok (draw value number o r p.ui (sort_lines p.ui.sort_recv shown) w) _ g in
      rw (← ok-fst g1) (record {
        watched = refl;
        self_pipe = refl;
        is_written = written_or (is_last o.refreshlimit _) p.is_written;
      })

  refresh_if_due-Refreshed :
      (r : Turn) (p p' : Running) (prints : List Drawn)
      → refresh_if_due value number o r p ≡ ok (p', prints)
      → Refreshed p p'
  unfolding refresh_if_due
  refresh_if_due-Refreshed r p p' prints e =
      elim (Bool-cases (is_due p.last_refresh_time o.refreshdelay r.now)) [
        | inl due ↦
            let q = after_key o.tracemode r p in
            let ((q', printed), f, g) =
              >>=-eq-ok (refresh_screen value number o r q) _ (rw (due, refresh_if_due) at e) in
            let k = refresh_screen-Refreshed r q q' printed f in
            rw (← ok-fst g) (record {
              watched = k.watched;
              self_pipe = k.self_pipe;
              is_written = λ h. k.is_written (ticked_keeps o.tracemode r.key p.ui p.is_written h);
            })
        | inr not_yet ↦
            rw (← ok-fst (rw (not_yet, refresh_if_due) at e))
              (record { watched = refl; self_pipe = refl; is_written = λ h. h })
      ]

  -- What a turn keeps, and whether another follows.
  pub turn-inv :
      (r : Turn) (p p' : Running) (goes_on : Bool) (prints : List Drawn)
      → turn value number o r p ≡ ok (goes_on, p', prints)
      → Refreshed p p'
        × (goes_on ≡ (
            has_packets r p.watched.handles
            || wait_for_next_trigger (r.select p'.is_written) (some p'.self_pipe) p'.watched))
  unfolding turn
  turn-inv r p p' goes_on prints e =
      let ((read, (args', w)), f, g) =
        >>=-eq-ok (capture_handles r p.watched.handles false (p.args, p.world)) _ e in
      let q = record p { args = args'; world = w } in
      let ((q', ds), f1, g1) = >>=-eq-ok (refresh_if_due value number o r q) _ g in
      let reads =
        capture_handles-inv r p.watched.handles false read (p.args, p.world) (args', w) f in
      let k = refresh_if_due-Refreshed r q q' ds f1 in
      let same = ok-inj g1 in
      let waited = wait_for_next_trigger (r.select q'.is_written) (some q'.self_pipe) q'.watched in
      rw (← ap (λ z. z.1) same) (
        record { watched = k.watched; self_pipe = k.self_pipe; is_written = k.is_written },
        sym (ap (λ z. z.0) same)
            ∙ (ap (λ b. if b then true else waited) reads
                ∙ or_if (has_packets r p.watched.handles) waited),
      )

  -- The loop ends with its first turn, or goes on behind it.
  pub loop-inv :
      (r : Turn) (turns : List Turn) (p p' : Running) (has_ended : Bool) (prints : List Drawn)
      → program_loop value number o (r ∷ turns) p ≡ ok (has_ended, p', prints)
      → (goes_on : Bool) × (q : Running) × (ds : List Drawn) × (turn value number o r p
          ≡ ok (goes_on, q, ds))
        × (((goes_on ≡ false) × (has_ended ≡ true) × (q ≡ p'))
            ⊎ ((goes_on ≡ true)
                × (more : List Drawn) × (program_loop value number o turns q
                    ≡ ok (has_ended, p', more))))
  unfolding program_loop
  loop-inv r turns p p' has_ended prints e =
      let ((goes_on, q, ds), f, g) = >>=-eq-ok (turn value number o r p) _ e in
      elim (which goes_on _ _ (has_ended, p', prints) g) [
        | inl (off, h) ↦
            let same = ok-inj h in
            (goes_on, q, ds, f, inl (off, sym (ap (λ z. z.0) same), ap (λ z. z.1) same))
        | inr (on, h) ↦
            let ((e', q', more), f', g') = >>=-eq-ok (program_loop value number o turns q) _ h in
            let same = ok-inj g' in
            (goes_on, q, ds, f, inr (on, more, rw (← ap (λ z. z.0) same, ← ap (λ z. z.1) same) f'))
      ]
