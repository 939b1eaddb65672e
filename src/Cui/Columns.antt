-- ===== src/Cui/Columns.antt =====
-- What is written stays within its column (src/cui.cpp).
use nethogs.Base.{
  ℕ, zero, suc, ◌+◌, ◌-◌, ◌%◌, ◌^◌, ◌≤◌, ◌<◌, ◌≡◌, ◌≢◌, ◌⊎◌, inl, inr, refl, Bool, true, false,
  Option, none, some, List, [], ◌∷◌, arith, All, All-mono, In, length, take, ltb, leb,
  if◌then◌else◌, to_int-small, Bool-cases, leb→le,
}
use nethogs.Cui.Cutting.{
  Write, write_at, sub64, cut_at, mvaddstr_truncate_trailing, truncate_rest,
  mvaddstr_truncate_cmdline,
}

-- Each text begins at `low` or behind it, and ends at `high` or before it.
abbrev pub Within : ℕ → ℕ → List Write → Type 0
Within low high = All (λ w. (low ≤ w.column) × (w.column + length w.text ≤ high))

length-take : (n : ℕ) (s : List ℕ) → length (take n s) ≤ n
length-take zero s = omega arith
length-take (suc n) [] = omega arith
length-take (suc n) (c ∷ s) = omega (arith, length-take n s)

cut_at-Within :
    (low high col : ℕ) (str : List ℕ) (n : ℕ)
    → low ≤ col
    → n < 2 ^ 31
    → col + n + 2 ≤ high
    → Within low high (cut_at col str n)
cut_at-Within low high col str n l small h =
    let k = length-take n str in
    rw (to_int-small n (omega arith)) ((l, omega arith), ((omega arith, omega arith), tt))

pub trailing-Within :
    (col : ℕ) (str : List ℕ) (max_len : ℕ)
    → 2 ≤ max_len
    → max_len < 2 ^ 31
    → Within col (col + max_len) (mvaddstr_truncate_trailing col str (length str) max_len)
unfolding mvaddstr_truncate_trailing
trailing-Within col str max_len l h = elim (Bool-cases (ltb (length str) max_len)) [
  | inl fits ↦ rw fits ((omega arith, ground arith), tt)
  | inr cut ↦ rw cut (
      cut_at-Within col (col + max_len) col str (sub64 max_len 2) (omega arith) (omega arith)
        (omega arith))
]

-- The length of a text, if there is one, fits a size_t with room for its null.
abbrev pub Short : Option (List ℕ) → Type 0
Short none = Unit
Short (some text) = length text + 1 < 2 ^ 64

rest-Within :
    (col proglen : ℕ) (cmdline : Option (List ℕ)) (max_cmdlen : ℕ)
    → Short cmdline
    → max_cmdlen < 2 ^ 31
    → Within col (col + proglen + max_cmdlen) (truncate_rest col proglen cmdline max_cmdlen)
unfolding truncate_rest
rest-Within col proglen none max_cmdlen s h = tt
rest-Within col proglen (some cmdline) max_cmdlen s h =
    let whole : (length cmdline + 1) % 2 ^ 64 ≡ length cmdline + 1 = omega arith in
    elim (Bool-cases (ltb max_cmdlen (length cmdline + 1))) [
      | inr fits ↦ rw (truncate_rest, whole, fits) ((omega arith, ground arith), tt)
      | inl cut ↦ elim (Bool-cases (leb 3 max_cmdlen)) [
        | inr small ↦ rw (truncate_rest, whole, cut, small) tt
        | inl wide ↦
            let three : 3 ≤ max_cmdlen = leb→le 3 max_cmdlen wide in
            rw (truncate_rest, whole, cut, wide)
              (cut_at-Within col (col + proglen + max_cmdlen) (col + proglen + 1) cmdline
                (sub64 max_cmdlen 3) (omega arith) (omega arith) (omega arith))
      ]
    ]

rest-zero :
    (col proglen : ℕ) (cmdline : Option (List ℕ))
    → Short cmdline
    → truncate_rest col proglen cmdline 0 ≡ []
unfolding truncate_rest
rest-zero col proglen none s = refl
rest-zero col proglen (some cmdline) s =
    let whole : (length cmdline + 1) % 2 ^ 64 ≡ length cmdline + 1 = omega arith in
    let cut : ltb 0 (length cmdline + 1) ≡ true = ground arith in
    rw (truncate_rest, whole, cut) refl

-- The command line behind a name that fits.
behind-Within :
    (col proglen : ℕ) (cmdline : Option (List ℕ)) (max_len : ℕ)
    → proglen ≤ max_len
    → max_len < 2 ^ 31
    → Short cmdline
    → (proglen ≢ max_len) ⊎ (cmdline ≡ none)
    → Within col
        (col + max_len)
        (truncate_rest col proglen cmdline (sub64 (sub64 max_len proglen) 1))
unfolding truncate_rest
behind-Within col proglen cmdline max_len f h s (inr nothing) = rw (truncate_rest, nothing) tt
behind-Within col proglen cmdline max_len f h s (inl differs) =
    let less : proglen < max_len = ground arith in
    let left : sub64 (sub64 max_len proglen) 1 ≡ max_len - proglen - 1 = omega arith in
    rw left (
      All-mono _ _ (truncate_rest col proglen cmdline (max_len - proglen - 1))
        (λ w (a, b). (a, omega arith))
        (rest-Within col proglen cmdline (max_len - proglen - 1) s (omega arith)))

-- The program and its command line keep to their column, unless the name is exactly as wide as the
-- column and a command line is shown.
pub cmdline-Within :
    (showcommandline : Bool) (col : ℕ) (progname : List ℕ) (cmdline : Option (List ℕ)) (max_len : ℕ)
    → 2 ≤ max_len
    → max_len < 2 ^ 31
    → Short (if showcommandline then cmdline else none)
    → (length progname ≢ max_len) ⊎ ((if showcommandline then cmdline else none) ≡ none)
    → Within col
        (col + max_len)
        (mvaddstr_truncate_cmdline showcommandline col progname cmdline max_len)
unfolding mvaddstr_truncate_cmdline
cmdline-Within showcommandline col progname cmdline max_len l h s c =
    let shown = if showcommandline then cmdline else none in
    elim (Bool-cases (ltb max_len (length progname))) [
      | inl cut ↦
          rw (cut, rest-zero col (length progname) shown s)
            (cut_at-Within col (col + max_len) col progname (sub64 max_len 2) (omega arith)
              (omega arith) (omega arith))
      | inr fits ↦
          let f : length progname ≤ max_len = ground arith in
          rw fits
            ((omega arith, omega arith), behind-Within col (length progname) shown max_len f h s c)
    ]

-- A name that is exactly as wide as its column has the whole command line behind it, outside the
-- column: the room that is left for it, max_len - proglen - 1, wraps round.
pub mvaddstr_truncate_cmdline-overflow :
    (col : ℕ) (progname cmdline : List ℕ) (max_len : ℕ)
    → length progname ≡ max_len
    → max_len < 2 ^ 31
    → length cmdline + 1 < 2 ^ 64
    → In
        (write_at (col + max_len + 1) cmdline)
        (mvaddstr_truncate_cmdline true col progname (some cmdline) max_len)
unfolding mvaddstr_truncate_cmdline truncate_rest
mvaddstr_truncate_cmdline-overflow col progname cmdline max_len e h s =
    let fits : ltb max_len (length progname) ≡ false = ground arith in
    let whole : (length cmdline + 1) % 2 ^ 64 ≡ length cmdline + 1 = omega arith in
    let wraps : sub64 (sub64 max_len (length progname)) 1 ≡ 2 ^ 64 - 1 = omega arith in
    let all' : ltb (2 ^ 64 - 1) (length cmdline + 1) ≡ false = ground arith in
    rw (fits, wraps, truncate_rest, whole, all', e) (inr (inl refl))
