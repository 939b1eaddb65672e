-- ===== src/Cui/Modes.antt =====
-- View modes and column widths that occur (src/cui.cpp).
use nethogs.Base.{
  ℕ, zero, suc, not, ◌+◌, ◌≡◌, ◌⊎◌, inl, inr, refl, true, false, Option, none, some, List, [], ◌∷◌,
  arith, ltb, ℤ, pos, negsuc, ◌+ℤ◌, rem_int, ◌==◌, Bool-cases,
}
use nethogs.Cui.{is_total, is_mode, viewmode_kbps}
use nethogs.Cui.{Ui, ui_tick, viewmode_count, get_devlen, devlen_loop}

none-some : {ui : Ui} → none ≡ some ui → ⊥
none-some h = cc

-- The keys one after the other, up to the one that quits.
unfoldable pub keys : List (Option ℕ) → Ui → Option Ui
keys [] ui = some ui
keys (k ∷ ks) ui = elim (ui_tick k ui) [ none ↦ none | some ui' ↦ keys ks ui' ]

-- A mode that do_refresh knows: KBPS or one of the totals.
abbrev pub Known : ℤ → Type 0
Known mode = (is_mode viewmode_kbps mode ≡ true) ⊎ (is_total mode ≡ true)

next-Known : (mode : ℤ) → Known mode → Known (rem_int (mode +ℤ pos 1) viewmode_count)
next-Known (pos zero) h = inr refl
next-Known (pos (suc zero)) h = inr refl
next-Known (pos (suc (suc zero))) h = inr refl
next-Known (pos (suc (suc (suc zero)))) h = inl refl
next-Known (pos (suc (suc (suc (suc n))))) h = absurd (ground arith)
next-Known (negsuc n) h = absurd (ground arith)

tick_keeps :
    (k : Option ℕ) (ui : Ui)
    → Known ui.view_mode
    → (ui_tick k ui ≡ none) ⊎ ((ui' : Ui) × (ui_tick k ui ≡ some ui') × Known ui'.view_mode)
unfolding ui_tick
tick_keeps none ui h = inr (ui, refl, h)
tick_keeps (some key) ui h = elim (Bool-cases (key == b'q')) [
  | inl quits ↦ inl (rw quits refl)
  | inr q ↦ elim (Bool-cases (key == b's')) [
    | inl sent ↦ inr (record ui { sort_recv = false }, rw (q, sent) refl, h)
    | inr s ↦ elim (Bool-cases (key == b'r')) [
      | inl received ↦ inr (record ui { sort_recv = true }, rw (q, s, received) refl, h)
      | inr r ↦ elim (Bool-cases (key == b'l')) [
        | inl line ↦
            inr (record ui { showcommandline = not ui.showcommandline }, rw (q, s, r, line) refl, h)
        | inr l ↦ elim (Bool-cases (key == b'm')) [
          | inl mode ↦ inr (
            record ui { view_mode = rem_int (ui.view_mode +ℤ pos 1) viewmode_count },
            rw (q, s, r, l, mode) refl,
            next-Known ui.view_mode h,
          )
          | inr m ↦ inr (ui, rw (q, s, r, l, m) refl, h)
        ]
      ]
    ]
  ]
]

-- Whatever keys are pressed, from a view mode that exists on: the mode is then one that do_refresh
-- knows, KBPS or one of the totals, so that it does not end the program for the mode.
pub keys-Known :
    (ks : List (Option ℕ)) (ui ui' : Ui)
    → Known ui.view_mode
    → keys ks ui ≡ some ui'
    → Known ui'.view_mode
unfolding keys
keys-Known [] ui ui' h e = let same : ui ≡ ui' = ground arith in rw (← same) h
keys-Known (k ∷ ks) ui ui' h e = elim (tick_keeps k ui h) [
  | inl quits ↦ absurd (none-some (rw (quits, keys) at e))
  | inr (u, t, g) ↦ keys-Known ks u ui' g (rw (t, keys) at e)
]

loop_keeps :
    (i : ℕ) (lines : List (List ℕ)) (rows devlen curlen : ℕ)
    → (devlen_loop i lines rows devlen curlen).0 ≡ devlen
unfolding devlen_loop
loop_keeps i [] rows devlen curlen = refl
loop_keeps i (d ∷ lines) rows devlen curlen = elim (Bool-cases (ltb (i + 3) rows)) [
  | inl shown ↦ rw shown (loop_keeps (suc i) lines rows devlen _)
  | inr hidden ↦ rw hidden (loop_keeps (suc i) lines rows devlen curlen)
]

-- Whatever devices the lines name, the device column is 5 wide: it never grows with the names.
pub get_devlen_fixed : (lines : List (List ℕ)) (rows : ℕ) → get_devlen lines rows ≡ 5
unfolding get_devlen
get_devlen_fixed lines rows = rw (loop_keeps 0 lines rows 5 0) refl
