-- ===== src/Safety/Removed.antt =====
-- The lists after the removal of silent processes (remove_timed_out_processes, src/process.cpp) and
-- after a loop that leaves each process at its address.
use nethogs.Base.{
  true, ℕ, ◌≡◌, ◌≢◌, refl, Option, none, some, List, [], ◌∷◌, map, arith, All, All-mono, All-append,
  inl, inr, Bool-cases, ◌==◌,
}
use nethogs.Store.Live.{IsLive, Apart, Distinct}
use nethogs.Process.{Process}
use nethogs.World.{World, find_address}
use nethogs.Timeouts.{is_unknown}
use nethogs.Timeouts.Removal.{AllLive, Drops, EndsUnknown}
use nethogs.Safety.Invariant.{owned, Listed, All-left, Distinct-split, Distinct-join}

pub owned-AllLive :
    (w : World) (ps : List Process) → All (IsLive w.store.heap) (owned ps) → AllLive w ps
unfolding owned
owned-AllLive w [] h = tt
owned-AllLive w (p ∷ ps) h =
    let (l, r) = All-left (IsLive w.store.heap) p.connections (owned ps) h in
    (l, owned-AllLive w ps r)

pub Drops-owned :
    (P : ℕ → Type 0) (w : World) (ps r : List Process)
    → Drops w ps r
    → All P (owned ps)
    → All P (owned r)
unfolding owned
Drops-owned P w [] r d h = rw d tt
Drops-owned P w (p ∷ ps) r (inl (r', e, d)) h =
    let (x, y) = All-left P p.connections (owned ps) h in
    rw e (All-append P p.connections (owned r') x (Drops-owned P w ps r' d y))
Drops-owned P w (p ∷ ps) r (inr (s, d)) h =
    Drops-owned P w ps r d (All-left P p.connections (owned ps) h).1

pub Drops-Distinct :
    (w : World) (ps r : List Process) → Drops w ps r → Distinct (owned ps) → Distinct (owned r)
unfolding owned
Drops-Distinct w [] r d h = rw d tt
Drops-Distinct w (p ∷ ps) r (inl (r', e, d)) h =
    let (dp, dr, a) = Distinct-split p.connections (owned ps) h in
    rw e (
      Distinct-join p.connections (owned r') dp (Drops-Distinct w ps r' d dr) (
        All-mono (λ i. Apart i (owned ps)) (λ i. Apart i (owned r')) p.connections
          (λ i. Drops-owned (λ j. i ≢ j) w ps r' d) a))
Drops-Distinct w (p ∷ ps) r (inr (s, d)) h =
    Drops-Distinct w ps r d (Distinct-split p.connections (owned ps) h).1

-- An unknown process is not silent.
listed :
    (a : ℕ) (w : World) (ps r : List Process)
    → ((p : Process) → p.address ≡ a → is_unknown w p ≡ true)
    → Drops w ps r
    → (p : Process) × (find_address a ps ≡ some p)
    → (p : Process) × (find_address a r ≡ some p)
unfolding find_address
listed a w [] r u d h = let f = h.1 in absurd (ground arith)
listed a w (p ∷ ps) r u (inl (r', e, d)) h = elim (Bool-cases (p.address == a)) [
  | inl here ↦ (p, rw (e, here) refl)
  | inr there ↦ let (q, f) = listed a w ps r' u d (h.0, rw there at h.1) in (q, rw (e, there) f)
]
listed a w (p ∷ ps) r u (inr (s, d)) h = elim (Bool-cases (p.address == a)) [
  | inl here ↦
      let same : p.address ≡ a = ground (arith, here) in
      let known = s.0 in absurd (ground (arith, u p same, known))
  | inr there ↦ listed a w ps r u d (h.0, rw there at h.1)
]

-- Every process at the pointer is an unknown one.
abbrev IsUnknownAt : World → Option ℕ → Type 0
IsUnknownAt w none = Unit
IsUnknownAt w (some a) = (p : Process) → p.address ≡ a → is_unknown w p ≡ true

pub tcp-unknown : (w : World) → IsUnknownAt w (some w.unknowntcp)
tcp-unknown w p e = ground (arith, e)

pub udp-unknown : (w : World) (o : Option ℕ) → w.unknownudp ≡ o → IsUnknownAt w o
udp-unknown w none e = tt
udp-unknown w (some a) e = λ p same. rw (same, e) (ground arith)

pub Drops-Listed :
    (o : Option ℕ) (w : World) (ps r : List Process)
    → IsUnknownAt w o
    → Drops w ps r
    → Listed o ps
    → Listed o r
Drops-Listed none w ps r u d h = tt
Drops-Listed (some a) w ps r u d h = listed a w ps r u d h

pub Drops-All :
    (P : Process → Type 0) (w : World) (ps r : List Process) → Drops w ps r → All P ps → All P r
Drops-All P w [] r d h = rw d tt
Drops-All P w (p ∷ ps) r (inl (r', e, d)) h = rw e (h.0, Drops-All P w ps r' d h.1)
Drops-All P w (p ∷ ps) r (inr (s, d)) h = Drops-All P w ps r d h.1

pub Drops-inhabited :
    (w : World) (ps r : List Process) → Drops w ps r → EndsUnknown w ps → ps ≢ [] → r ≢ []
Drops-inhabited w [] r d e n = absurd (n refl)
Drops-inhabited w (p ∷ ps) r (inl (r', f, d)) e n = λ k. ground arith
Drops-inhabited w (p ∷ []) r (inr (s, d)) e n = let k = s.0 in absurd (ground arith)
Drops-inhabited w (p ∷ q ∷ ps) r (inr (s, d)) e n =
    Drops-inhabited w (q ∷ ps) r d e (λ k. ground arith)

abbrev pub addresses : List Process → List ℕ
addresses = map (λ p. p.address)

found_again :
    (a : ℕ) (ps qs : List Process)
    → addresses qs ≡ addresses ps
    → (p : Process) × (find_address a ps ≡ some p)
    → (p : Process) × (find_address a qs ≡ some p)
unfolding find_address
found_again a [] qs e h = let f = h.1 in absurd (ground arith)
found_again a (p ∷ ps) [] e h = absurd (ground arith)
found_again a (p ∷ ps) (q ∷ qs) e h = elim (Bool-cases (p.address == a)) [
  | inl here ↦ let same : q.address ≡ p.address = ground arith in (q, rw same (rw here refl))
  | inr there ↦
      let same : q.address ≡ p.address = ground arith in
      let rest : addresses qs ≡ addresses ps = ground arith in
      let (x, f) = found_again a ps qs rest (h.0, rw there at h.1) in (x, rw same (rw there f))
]

pub again-Listed :
    (o : Option ℕ) (ps qs : List Process) → addresses qs ≡ addresses ps → Listed o ps → Listed o qs
again-Listed none ps qs e h = tt
again-Listed (some a) ps qs e h = found_again a ps qs e h

pub again-EndsUnknown :
    (w : World) (ps qs : List Process)
    → addresses qs ≡ addresses ps
    → EndsUnknown w ps
    → EndsUnknown w qs
again-EndsUnknown w ps [] e h = tt
again-EndsUnknown w [] (q ∷ qs) e h = absurd (ground arith)
again-EndsUnknown w (p ∷ []) (q ∷ []) e h =
    let same : q.address ≡ p.address = ground arith in rw same h
again-EndsUnknown w (p ∷ x ∷ ps) (q ∷ []) e h = absurd (ground arith)
again-EndsUnknown w (p ∷ []) (q ∷ y ∷ qs) e h = absurd (ground arith)
again-EndsUnknown w (p ∷ x ∷ ps) (q ∷ y ∷ qs) e h =
    let rest : addresses (y ∷ qs) ≡ addresses (x ∷ ps) = ground arith in
    again-EndsUnknown w (x ∷ ps) (y ∷ qs) rest h

pub again-inhabited : (ps qs : List Process) → addresses qs ≡ addresses ps → ps ≢ [] → qs ≢ []
again-inhabited [] qs e n = absurd (n refl)
again-inhabited (p ∷ ps) [] e n = absurd (ground arith)
again-inhabited (p ∷ ps) (q ∷ qs) e n = λ k. ground arith
