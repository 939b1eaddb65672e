-- ===== src/PackList/History.antt =====
-- The bytes that a list of packets has in a window of time, and what the loop of sumanddel makes of
-- them (src/connection.cpp).
use nethogs.Base.{
  ℕ, ◌+◌, ◌%◌, ◌^◌, ◌≤◌, ◌<◌, ◌≡◌, refl, List, [], ◌∷◌, arith, ◌==◌, ltb, if◌then◌else◌,
}
use nethogs.Packet.{Packet, Timeval}
use nethogs.PackList.{period, sumanddel_loop}

-- The bytes of the packets of the last `period` seconds before `t`.
unfoldable pub window : ℕ → List Packet → ℕ
window t [] = 0
window t (p ∷ h) = (if ltb t (p.time.tv_sec + period) then p.len else 0) + window t h

-- The bytes of one second.
unfoldable pub second : ℕ → List Packet → ℕ
second s [] = 0
second s (p ∷ h) = (if p.time.tv_sec == s then p.len else 0) + second s h

-- Strictly descending seconds, all below the bound.
abbrev pub Descending : ℕ → List Packet → Type 0
Descending bound [] = Unit
Descending bound (p ∷ l) = (p.time.tv_sec < bound) × Descending p.time.tv_sec l

pub window_old :
    (t bound : ℕ) (l : List Packet) → Descending bound l → bound + period ≤ t + 1 → window t l ≡ 0
unfolding window
window_old t bound [] d h = refl
window_old t bound (p ∷ l) d h = ground (arith, window_old t p.time.tv_sec l)

pub loop-window :
    (t : Timeval) (r bound : ℕ) (l : List Packet)
    → Descending bound l
    → r < 2 ^ 64
    → (sumanddel_loop t r l).0 ≡ (r + window t.tv_sec l) % 2 ^ 64
unfolding sumanddel_loop window
loop-window t r bound [] d h = ground arith
loop-window t r bound (p ∷ l) d h = ground (
  arith,
  window_old t.tv_sec p.time.tv_sec l,
  loop-window t ((r + p.len) % 2 ^ 64) p.time.tv_sec l,
)

pub loop_keeps :
    (t : Timeval) (r bound t' : ℕ) (l : List Packet)
    → Descending bound l
    → t.tv_sec ≤ t'
    → window t' (sumanddel_loop t r l).1 ≡ window t' l
unfolding sumanddel_loop window
loop_keeps t r bound t' [] d h = refl
loop_keeps t r bound t' (p ∷ l) d h =
    ground
      (arith, window_old t' p.time.tv_sec l, loop_keeps t ((r + p.len) % 2 ^ 64) p.time.tv_sec t' l)

pub Descending-mono : (b c : ℕ) (l : List Packet) → Descending b l → b ≤ c → Descending c l
Descending-mono b c [] d h = tt
Descending-mono b c (p ∷ l) d h = (omega arith, d.1)

pub loop-Descending :
    (t : Timeval) (r bound : ℕ) (l : List Packet)
    → Descending bound l
    → Descending bound (sumanddel_loop t r l).1
unfolding sumanddel_loop
loop-Descending t r bound [] d = tt
loop-Descending t r bound (p ∷ l) d =
    ground (arith, loop-Descending t ((r + p.len) % 2 ^ 64) p.time.tv_sec l)
