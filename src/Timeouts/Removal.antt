-- ===== src/Timeouts/Removal.antt =====
-- Which processes a removal takes (src/process.cpp).
use nethogs.Base.{
  ℕ, ◌<◌, ◌≤◌, ◌≡◌, ◌↔◌, ◌⊎◌, inl, inr, refl, Bool, true, false, some, List, [], ◌∷◌, arith, All,
  ok, length, Bool-cases, if◌then◌else◌, ℤ, pos, ◌≤ℤ◌, not, ◌&&◌, leb_ℤ, ltb_ℤ, ◌+ℤ◌,
}
use nethogs.Connection.{Connection}
use nethogs.Store.Live.{IsLive}
use nethogs.Process.{Process, last_packet_loop}
use nethogs.World.{World}
use nethogs.Timeouts.{is_timed_out, is_unknown, remove_loop, processtimeout}

-- All connections of all processes may be followed.
abbrev pub AllLive : World → List Process → Type 0
AllLive w = All (λ p. All (IsLive w.store.heap) p.connections)

-- The last packet lies PROCESSTIMEOUT seconds or more before the present time.
abbrev pub IsPast : World → ℤ → Type 0
IsPast w z = z +ℤ pos processtimeout ≤ℤ pos w.curtime.tv_sec

-- Each connection has had no packet lately.
abbrev pub Quiet : World → List ℕ → Type 0
Quiet w = All (λ i. (c : Connection) × (w.store.heap i ≡ some c) × IsPast w c.lastpacket)

-- A process that is not one of the unknown ones, none of whose connections has had a packet lately.
abbrev pub IsSilent : World → Process → Type 0
IsSilent w p = (is_unknown w p ≡ false) × IsPast w (pos 0) × Quiet w p.connections

later : ℤ → ℤ → ℤ
later z c = if ltb_ℤ z c then c else z

IsPast-later : (w : World) (z c : ℤ) → IsPast w (later z c) ↔ (IsPast w z × IsPast w c)
unfolding later
IsPast-later w z c = ground arith

last_packet-IsPast :
    (w : World) (is : List ℕ) (z : ℤ)
    → All (IsLive w.store.heap) is
    → (r : ℤ) × (last_packet_loop w.store is z ≡ ok r) × (IsPast w r ↔ (IsPast w z × Quiet w is))
unfolding last_packet_loop later
last_packet-IsPast w [] z h = (z, refl, ground arith)
last_packet-IsPast w (i ∷ is) z h =
    let c = h.0.0 in
    let (r, e, both) = last_packet-IsPast w is (later z c.lastpacket) h.1 in
    let (down, up) = IsPast-later w z c.lastpacket in
    (
      r,
      ground arith,
      (
        λ past. let (zc, quiet) = both.0 past in ((down zc).0, ((c, h.0.1, (down zc).1), quiet)),
        λ (start, ((c', e', past), quiet)).
            let same : c' ≡ c = ground arith in both.1 (up (start, rw same at past), quiet),
      ),
    )

-- The test answers for a process with live connections, and says yes exactly if it is silent.
pub timed_out-IsSilent :
    (w : World) (p : Process)
    → All (IsLive w.store.heap) p.connections
    → (b : Bool) × (is_timed_out w p ≡ ok b) × ((b ≡ true) ↔ IsSilent w p)
unfolding is_timed_out
timed_out-IsSilent w p h =
    let (r, e, past) = last_packet-IsPast w p.connections (pos 0) h in
    (
      leb_ℤ (r +ℤ pos processtimeout) (pos w.curtime.tv_sec) && not (is_unknown w p),
      ground arith,
      (
        λ yes'. let both = past.0 (ground arith) in (ground arith, both.0, both.1),
        λ s. let ends = past.1 (s.1, s.2) in let k = s.0 in ground arith,
      ),
    )

-- The second list is the first without some silent processes.
abbrev pub Drops : World → List Process → List Process → Type 0
Drops w [] r = r ≡ []
Drops w (p ∷ ps) r =
    ((r' : List Process) × (r ≡ p ∷ r') × Drops w ps r') ⊎ (IsSilent w p × Drops w ps r)

-- The last process of the list is one of the unknown ones.
abbrev pub EndsUnknown : World → List Process → Type 0
EndsUnknown w [] = Unit
EndsUnknown w (p ∷ []) = is_unknown w p ≡ true
EndsUnknown w (p ∷ q ∷ ps) = EndsUnknown w (q ∷ ps)

abbrev pub NoneSilent : World → List Process → Type 0
NoneSilent w = All (λ p. ¬ IsSilent w p)

pub Ends_cons :
    (w : World) (p : Process) (ps r : List Process)
    → EndsUnknown w (p ∷ ps)
    → Drops w ps r
    → EndsUnknown w (p ∷ r)
Ends_cons w p [] r e d = rw d e
Ends_cons w p (q ∷ ps) r e (inl (r', f, d)) = rw f (Ends_cons w q ps r' e d)
Ends_cons w p (q ∷ []) r e (inr (s, d)) = let k = s.0 in absurd (ground arith)
Ends_cons w p (q ∷ x ∷ ps) r e (inr (s, d)) = Ends_cons w p (x ∷ ps) r e d

pub Ends_tail :
    (w : World) (p : Process) (ps : List Process) → EndsUnknown w (p ∷ ps) → EndsUnknown w ps
Ends_tail w p [] e = tt
Ends_tail w p (q ∷ ps) e = e

length-Drops : (w : World) (ps r : List Process) → Drops w ps r → length r ≤ length ps
length-Drops w [] r d = rw d (omega arith)
length-Drops w (p ∷ ps) r (inl (r', e, d)) = rw e (omega (arith, length-Drops w ps r' d))
length-Drops w (p ∷ ps) r (inr (s, d)) = omega (arith, length-Drops w ps r d)

unknown_not-IsSilent : (w : World) (p : Process) → is_unknown w p ≡ true → ¬ IsSilent w p
unknown_not-IsSilent w p e s = let k = s.0 in ground arith

not_out : (b : Bool) {P : Type 0} → (b ≡ true → P) → ¬ P → b ≡ false
not_out true f n = absurd (n (f refl))
not_out false f n = refl

pub remove_loop-Drops :
    (w : World) (ps : List Process)
    → AllLive w ps
    → EndsUnknown w ps
    → (r : List Process) × (remove_loop w ps ≡ ok r)
      × Drops w ps r
      × (NoneSilent w ps ⊎ (length r < length ps))
unfolding remove_loop
remove_loop-Drops w [] l e = ([], refl, refl, inl tt)
remove_loop-Drops w (p ∷ []) l e =
    let (b, t, s) = timed_out-IsSilent w p l.0 in
    let stays : b ≡ false = not_out b s.0 (unknown_not-IsSilent w p e) in
    (p ∷ [], rw (t, stays), inl ([], refl, refl), inl (unknown_not-IsSilent w p e, tt))
remove_loop-Drops w (p ∷ q ∷ next) l e =
    let (b, t, s) = timed_out-IsSilent w p l.0 in
    elim (Bool-cases b) [
      | inl out ↦
          let (r, f, d, _) = remove_loop-Drops w next l.1.1 (Ends_tail w q next e) in
          (
            q ∷ r,
            rw (t, out, f),
            inr (s.0 out, inl (r, refl, d)),
            inr (omega (arith, length-Drops w next r d)),
          )
      | inr stays ↦
          let (r, f, d, o) = remove_loop-Drops w (q ∷ next) l.1 e in
          let loud : ¬ IsSilent w p = λ q'. let k = s.1 q' in ground arith in
          (
            p ∷ r,
            rw (t, stays, f),
            inl (r, refl, d),
            elim o [ inl none' ↦ inl (loud, none') | inr less ↦ inr (omega arith) ],
          )
    ]
