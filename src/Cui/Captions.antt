-- ===== src/Cui/Captions.antt =====
-- The row of captions and the row of totals that show_ncurses writes (src/cui.cpp).
use nethogs.Base.{
  ℕ, zero, suc, ◌+◌, ◌-◌, ◌≡◌, refl, Option, none, some, List, [], ◌∷◌, ◌++◌, length, take, arith,
  length-append, if◌then◌else◌, ℤ,
}
use nethogs.Cui.{viewmode_kbps, is_mode}

unfoldable pub blanks : ℕ → List ℕ
blanks zero = []
blanks (suc n) = b' ' ∷ blanks n

-- %-*.*s with one number for the width and the precision.
unfoldable pub field : ℕ → List ℕ → List ℕ
unfolding blanks
field width text = take width text ++ blanks (width - length text)

abbrev program_caption : List ℕ
program_caption = b'P' ∷ b'R' ∷ b'O' ∷ b'G' ∷ b'R' ∷ b'A' ∷ b'M' ∷ []

abbrev dev_caption : List ℕ
dev_caption = b'D' ∷ b'E' ∷ b'V' ∷ []

-- "       SENT      RECEIVED       "
unfoldable pub last_captions : List ℕ
unfolding blanks
last_captions =
    blanks 7
    ++ (b'S' ∷ b'E' ∷ b'N' ∷ b'T' ∷ blanks 6
        ++ (b'R' ∷ b'E' ∷ b'C' ∷ b'E' ∷ b'I' ∷ b'V' ∷ b'E' ∷ b'D' ∷ blanks 7))

-- "    PID USER     %-*.*s  %-*.*s" and the last captions.
unfoldable pub header : ℕ → ℕ → List ℕ
unfolding field blanks last_captions
header proglen devlen =
    blanks 4
    ++ (b'P' ∷ b'I' ∷ b'D' ∷ b' ' ∷ b'U' ∷ b'S' ∷ b'E' ∷ b'R' ∷ blanks 5
        ++ (field proglen program_caption
            ++ (blanks 2 ++ (field devlen dev_caption ++ last_captions))))

-- "  TOTAL        %-*.*s %-*.*s    ", the start of the row of totals.
unfoldable pub total_head : ℕ → ℕ → List ℕ
unfolding field blanks
total_head proglen devlen =
    blanks 2
    ++ (b'T' ∷ b'O' ∷ b'T' ∷ b'A' ∷ b'L' ∷ blanks 8
        ++ (field proglen [] ++ (blanks 1 ++ (field devlen [] ++ blanks 4))))

-- The unit behind the totals; a mode that is none of these has none.
unfoldable pub total_unit : ℤ → Option (List ℕ)
unfolding blanks
total_unit mode =
    if is_mode viewmode_kbps mode
    then some (b'K' ∷ b'B' ∷ b'/' ∷ b's' ∷ b'e' ∷ b'c' ∷ b' ' ∷ [])
    else (if is_mode 2 mode
        then some (b'B' ∷ blanks 6)
        else (if is_mode 1 mode
            then some (b'K' ∷ b'B' ∷ blanks 5)
            else (if is_mode 3 mode then some (b'M' ∷ b'B' ∷ blanks 5) else none)))

length-blanks : (n : ℕ) → length (blanks n) ≡ n
unfolding blanks
length-blanks zero = refl
length-blanks (suc n) = omega (arith, length-blanks n)

length-cut : (n : ℕ) (text : List ℕ) → length (take n text) + (n - length text) ≡ n
length-cut zero text = omega arith
length-cut (suc n) [] = omega arith
length-cut (suc n) (c ∷ text) = omega (arith, length-cut n text)

length-field : (n : ℕ) (text : List ℕ) → length (field n text) ≡ n
unfolding field
length-field n text = omega (
  arith,
  length-append (take n text) (blanks (n - length text)),
  length-blanks (n - length text),
  length-cut n text,
)

-- The captions and their gaps.
pub length-header : (proglen devlen : ℕ) → length (header proglen devlen) ≡ 51 + proglen + devlen
unfolding header blanks last_captions
length-header proglen devlen = omega (
  arith,
  length-append (field proglen program_caption)
      (blanks 2 ++ (field devlen dev_caption ++ last_captions)),
  length-field proglen program_caption,
  length-append (field devlen dev_caption) last_captions,
  length-field devlen dev_caption,
)
