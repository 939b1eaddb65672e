-- ===== src/PackList/Window.antt =====
-- What PackList promises: a sliding window over the packets seen (src/connection.cpp).
use nethogs.Base.{
  ℕ, suc, ◌+◌, ◌%◌, ◌^◌, ◌≤◌, ◌<◌, ◌≡◌, refl, ◌∙◌, List, [], ◌∷◌, arith, ◌==◌, Bool-cases, inl, inr,
}
use mathlib.Core.Path.{ap₂}
use nethogs.Packet.{Packet, Timeval}
use nethogs.PackList.{add, sumanddel_loop, sumanddel}
use nethogs.PackList.History.{
  window, second, Descending, window_old, loop-window, loop_keeps, Descending-mono, loop-Descending,
}

-- What happens to a list, and when.
pub data Event : Type 0 where
  adds : Packet → Event
  sums : Timeval → Event

-- The sums that a list reports in the course of some events.
pub reports : List Event → List Packet → List ℕ
reports [] l = []
reports (adds p ∷ es) l = reports es (add l p)
reports (sums t ∷ es) l = let (sum, l') = sumanddel t l in sum ∷ reports es l'

-- The sums that an observer with the whole history reports: it keeps every packet and adds up
-- those in the window, in a u_int64_t.
pub window_reports : List Event → List Packet → List ℕ
window_reports [] h = []
window_reports (adds p ∷ es) h = window_reports es (p ∷ h)
window_reports (sums t ∷ es) h = (window t.tv_sec h % 2 ^ 64) ∷ window_reports es h

-- The clock does not run backwards.
abbrev pub InOrder : ℕ → List Event → Type 0
InOrder now [] = Unit
InOrder now (adds p ∷ es) = (now ≤ p.time.tv_sec) × InOrder p.time.tv_sec es
InOrder now (sums t ∷ es) = (now ≤ t.tv_sec) × InOrder t.tv_sec es

-- No second carries 4 GiB or more in this direction of the connection.
abbrev pub Fits : List Event → List Packet → Type 0
Fits [] h = Unit
Fits (adds p ∷ es) h = (second p.time.tv_sec (p ∷ h) < 2 ^ 32) × Fits es (p ∷ h)
Fits (sums t ∷ es) h = Fits es h

-- Each node has all the bytes of its second.
abbrev Whole : List Packet → List Packet → Type 0
Whole [] h = Unit
Whole (q ∷ l) h = (q.len ≡ second q.time.tv_sec h) × Whole l h

-- The list stands for the history, as seen from any time that is still to come.
record Tracks (now : ℕ) (l h : List Packet) : Type 0 where
  descending : Descending (suc now) l
  whole : Whole l h
  agree : (t : ℕ) → now ≤ t → window t l ≡ window t h

window-add :
    (t now : ℕ) (l h : List Packet) (p : Packet)
    → Descending (suc now) l
    → Whole l h
    → now ≤ p.time.tv_sec
    → second p.time.tv_sec (p ∷ h) < 2 ^ 32
    → window t (add l p) ≡ window t (p ∷ l)
unfolding window second add
window-add t now [] h p d w le fits = ground arith
window-add t now (q ∷ l) h p d w le fits = ground arith

add-Descending :
    (now : ℕ) (l : List Packet) (p : Packet)
    → Descending (suc now) l
    → now ≤ p.time.tv_sec
    → Descending (suc p.time.tv_sec) (add l p)
unfolding add
add-Descending now [] p d le = ground arith
add-Descending now (q ∷ l) p d le = ground arith

-- The nodes below the bound do not change with a packet of a later second.
Whole-later :
    (bound : ℕ) (l h : List Packet) (p : Packet)
    → Descending bound l
    → bound ≤ p.time.tv_sec
    → Whole l h
    → Whole l (p ∷ h)
unfolding second
Whole-later bound [] h p d le w = tt
Whole-later bound (q ∷ l) h p d le w = ground (arith, Whole-later q.time.tv_sec l h p)

second-le-window : (s : ℕ) (h : List Packet) → second s h ≤ window (s + 4) h
unfolding second window
second-le-window s [] = omega arith
second-le-window s (p ∷ h) = ground (arith, second-le-window s h)

-- A second that has no node yet has no packet either.
second_fresh :
    (now s : ℕ) (l h : List Packet)
    → Descending s l
    → now ≤ s
    → ((t : ℕ) → now ≤ t → window t l ≡ window t h)
    → second s h ≡ 0
second_fresh now s l h d le agree = omega (
  arith,
  second-le-window s h,
  window_old (s + 4) s l d (omega arith),
  agree (s + 4) (omega arith),
)

add-Whole :
    (now : ℕ) (l h : List Packet) (p : Packet)
    → Tracks now l h
    → now ≤ p.time.tv_sec
    → second p.time.tv_sec (p ∷ h) < 2 ^ 32
    → Whole (add l p) (p ∷ h)
unfolding add second
add-Whole now [] h p tr le fits = ground (arith, second_fresh now p.time.tv_sec [] h tt le tr.agree)
add-Whole now (q ∷ l) h p tr le fits = elim (Bool-cases (q.time.tv_sec == p.time.tv_sec)) [
  | inl same ↦
      rw same
        (ground arith, Whole-later q.time.tv_sec l h p tr.descending.1 (ground arith) tr.whole.1)
  | inr apart ↦
      let before : q.time.tv_sec < p.time.tv_sec = ground arith in
      rw apart (
        ground
            (arith, second_fresh now p.time.tv_sec (q ∷ l) h (before, tr.descending.1) le tr.agree),
        Whole-later p.time.tv_sec (q ∷ l) h p (before, tr.descending.1) (omega arith) tr.whole,
      )
]

add-Tracks :
    (now : ℕ) (l h : List Packet) (p : Packet)
    → Tracks now l h
    → now ≤ p.time.tv_sec
    → second p.time.tv_sec (p ∷ h) < 2 ^ 32
    → Tracks p.time.tv_sec (add l p) (p ∷ h)
unfolding window
add-Tracks now l h p tr le fits = record {
  descending = add-Descending now l p tr.descending le;
  whole = add-Whole now l h p tr le fits;
  agree = λ t ht.
      ground
        (arith, window-add t now l h p tr.descending tr.whole le fits, tr.agree t (omega arith));
}

loop-Whole :
    (t : Timeval) (r : ℕ) (l h : List Packet) → Whole l h → Whole (sumanddel_loop t r l).1 h
unfolding sumanddel_loop
loop-Whole t r [] h w = tt
loop-Whole t r (p ∷ l) h w = ground (arith, loop-Whole t ((r + p.len) % 2 ^ 64) l h)

sumanddel-Tracks :
    (now : ℕ) (t : Timeval) (l h : List Packet)
    → Tracks now l h
    → now ≤ t.tv_sec
    → ((sumanddel t l).0 ≡ window t.tv_sec h % 2 ^ 64) × Tracks t.tv_sec (sumanddel t l).1 h
unfolding sumanddel
sumanddel-Tracks now t l h tr le = (
  omega (arith, loop-window t 0 (suc now) l tr.descending (omega arith), tr.agree t.tv_sec le),
  record {
    descending =
        Descending-mono (suc now) (suc t.tv_sec) _ (loop-Descending t 0 (suc now) l tr.descending)
          (omega arith);
    whole = loop-Whole t 0 l h tr.whole;
    agree = λ t' ht. loop_keeps t 0 (suc now) t' l tr.descending ht ∙ tr.agree t' (omega arith);
  },
)

reports_track :
    (now : ℕ) (es : List Event) (l h : List Packet)
    → Tracks now l h
    → InOrder now es
    → Fits es h
    → reports es l ≡ window_reports es h
unfolding reports window_reports
reports_track now [] l h tr o f = refl
reports_track now (adds p ∷ es) l h tr o f =
    reports_track p.time.tv_sec es (add l p) (p ∷ h) (add-Tracks now l h p tr o.0 f.0) o.1 f.1
reports_track now (sums t ∷ es) l h tr o f =
    let (sum, tr') = sumanddel-Tracks now t l h tr o.0 in
    ap₂ ◌∷◌ sum (reports_track t.tv_sec es (sumanddel t l).1 h tr' o.1 f)

-- Over any sequence of additions and sums in the order of time, in which no second carries 2^32
-- bytes, the sums that a new list reports are exactly the bytes of all packets added in the last
-- five seconds, modulo 2^64: merging and deleting lose nothing that a later sum would count.
pub reports-window_reports :
    (es : List Event) → InOrder 0 es → Fits es [] → reports es [] ≡ window_reports es []
reports-window_reports es o f =
    reports_track 0 es [] [] (record { descending = tt; whole = tt; agree = λ t h. refl }) o f
