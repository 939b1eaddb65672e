-- ===== src/Timeouts/Sweeps.antt =====
-- Removal of silent processes, once and again and again (src/process.cpp).
use nethogs.Base.{
  ℕ, zero, suc, ◌<◌, ◌≤◌, ◌≡◌, ◌⊎◌, inl, inr, refl, List, [], ◌∷◌, arith, All, ok, Result, ◌>>=◌,
  length,
}
use nethogs.Store.Live.{IsLive}
use nethogs.Process.{Process}
use nethogs.World.{World}
use nethogs.Timeouts.{remove_timed_out_processes}
use nethogs.Timeouts.Removal.{
  AllLive, IsSilent, Drops, EndsUnknown, NoneSilent, Ends_cons, Ends_tail, remove_loop-Drops,
}

pub Drops-EndsUnknown :
    (w : World) (ps r : List Process) → EndsUnknown w ps → Drops w ps r → EndsUnknown w r
Drops-EndsUnknown w [] r e d = rw d tt
Drops-EndsUnknown w (p ∷ ps) r e (inl (r', f, d)) = rw f (Ends_cons w p ps r' e d)
Drops-EndsUnknown w (p ∷ ps) r e (inr (s, d)) = Drops-EndsUnknown w ps r (Ends_tail w p ps e) d

pub Drops-All :
    (P : Process → Type 0) (w : World) (ps r : List Process) → All P ps → Drops w ps r → All P r
Drops-All P w [] r h d = rw d tt
Drops-All P w (p ∷ ps) r h (inl (r', f, d)) = rw f (h.0, Drops-All P w ps r' h.1 d)
Drops-All P w (p ∷ ps) r h (inr (s, d)) = Drops-All P w ps r h.1 d

-- Where the connections of all processes are live and the last process is an unknown one, a removal
-- does not fail. It takes only silent processes, and none of the unknown ones; it changes nothing
-- but the list of processes; the last process is still an unknown one; and it takes one process at
-- least, unless none is silent.
pub remove_timed_out_lem :
    (w : World)
    → AllLive w w.processes
    → EndsUnknown w w.processes
    → (r : List Process) × (remove_timed_out_processes w ≡ ok (record w { processes = r }))
      × Drops w w.processes r
      × AllLive w r
      × EndsUnknown w r
      × (NoneSilent w w.processes ⊎ (length r < length w.processes))
unfolding remove_timed_out_processes
remove_timed_out_lem w l e =
    let (r, f, d, o) = remove_loop-Drops w w.processes l e in
    (
      r,
      rw f,
      d,
      Drops-All (λ p. All (IsLive w.store.heap) p.connections) w w.processes r l d,
      Drops-EndsUnknown w w.processes r e d,
      o,
    )

-- Removals with nothing in between.
pub removals : ℕ → World → Result World
removals zero w = ok w
removals (suc n) w = do w' ← remove_timed_out_processes w; removals n w'

none_of_empty : (w : World) (ps : List Process) → length ps ≤ 0 → NoneSilent w ps
none_of_empty w [] h = tt
none_of_empty w (p ∷ ps) h = absurd (omega arith)

removals_lem :
    (n : ℕ) (w : World)
    → AllLive w w.processes
    → EndsUnknown w w.processes
    → NoneSilent w w.processes ⊎ (length w.processes ≤ n)
    → (r : List Process) × (removals n w ≡ ok (record w { processes = r })) × NoneSilent w r
unfolding removals
removals_lem zero w l e (inl h) = (w.processes, refl, h)
removals_lem zero w l e (inr h) = (w.processes, refl, none_of_empty w w.processes h)
removals_lem (suc n) w l e h =
    let (r, f, d, l', e', o) = remove_timed_out_lem w l e in
    let less : NoneSilent w r ⊎ (length r ≤ n) = elim h [
      | inl now ↦ inl (Drops-All (λ p. ¬ IsSilent w p) w w.processes r now d)
      | inr short ↦ elim o [
        | inl now ↦ inl (Drops-All (λ p. ¬ IsSilent w p) w w.processes r now d)
        | inr fewer ↦ inr (omega arith)
      ]
    ] in
    let (r', f', g) = removals_lem n (record w { processes = r }) l' e' less in (r', rw (f, f'), g)

-- A removal may pass over a silent process, but as many removals as there are processes leave none
-- that is silent, while the clock stands still.
pub removals-NoneSilent :
    (n : ℕ) (w : World)
    → AllLive w w.processes
    → EndsUnknown w w.processes
    → length w.processes ≤ n
    → (r : List Process) × (removals n w ≡ ok (record w { processes = r })) × NoneSilent w r
removals-NoneSilent n w l e h = removals_lem n w l e (inr h)
