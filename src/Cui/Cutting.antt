-- ===== src/Cui/Cutting.antt =====
-- Texts that are cut to their columns: mvaddstr_truncate_trailing and mvaddstr_truncate_cmdline
-- (src/cui.cpp). What is written to a row is a list of texts with the columns at which they begin.
use nethogs.Base.{
  ℕ, zero, suc, ◌+◌, ◌-◌, ◌%◌, ◌^◌, Bool, Option, none, some, List, [], ◌∷◌, ◌++◌, length, take,
  ltb, leb, if◌then◌else◌, ℤ, pos, negsuc, to_int,
}

-- A text from a column on.
pub record Write : Type 0 where
  pub column : ℕ
  pub text : List ℕ

abbrev pub write_at : ℕ → List ℕ → Write
write_at column text = record { column = column; text = text }

-- mvaddnstr at a size_t, which it takes as an `int`: a negative one means the whole text.
abbrev whole_if_negative : ℤ → List ℕ → List ℕ
whole_if_negative (pos n) str = take n str
whole_if_negative (negsuc n) str = str

abbrev pub mvaddnstr : ℕ → List ℕ → ℕ → Write
mvaddnstr col str n = write_at col (whole_if_negative (to_int n) str)

-- addstr goes on where the last text ended.
abbrev pub addstr : Write → List ℕ → Write
addstr w str = write_at (w.column + length w.text) str

abbrev pub dots : List ℕ
dots = b'.' ∷ b'.' ∷ []

-- A difference of two size_t.
abbrev pub sub64 : ℕ → ℕ → ℕ
sub64 a b = (a + 2 ^ 64 - b) % 2 ^ 64

abbrev pub cut_at : ℕ → List ℕ → ℕ → List Write
cut_at col str n = let w = mvaddnstr col str n in w ∷ addstr w dots ∷ []

unfoldable pub mvaddstr_truncate_trailing : ℕ → List ℕ → ℕ → ℕ → List Write
mvaddstr_truncate_trailing col str str_len max_len =
    if ltb str_len max_len then write_at col str ∷ [] else cut_at col str (sub64 max_len 2)

-- The second part of mvaddstr_truncate_cmdline, once max_cmdlen is known.
unfoldable pub truncate_rest : ℕ → ℕ → Option (List ℕ) → ℕ → List Write
truncate_rest col proglen none max_cmdlen = []
truncate_rest col proglen (some cmdline) max_cmdlen =
    if ltb max_cmdlen ((length cmdline + 1) % 2 ^ 64)
    then (if leb 3 max_cmdlen then cut_at (col + proglen + 1) cmdline (sub64 max_cmdlen 3) else [])
    else write_at (col + proglen + 1) cmdline ∷ []

unfoldable pub mvaddstr_truncate_cmdline : Bool → ℕ → List ℕ → Option (List ℕ) → ℕ → List Write
unfolding truncate_rest
mvaddstr_truncate_cmdline showcommandline col progname cmdline max_len =
    let proglen = length progname in
    let shown = if showcommandline then cmdline else none in
    if ltb max_len proglen
    then cut_at col progname (sub64 max_len 2) ++ truncate_rest col proglen shown 0
    else write_at col progname ∷ truncate_rest col proglen shown (sub64 (sub64 max_len proglen) 1)

-- The spaces before a text that fill a width.
unfoldable pub pad : ℕ → List ℕ → List ℕ
pad zero text = text
pad (suc n) text = let rest = b' ' ∷ pad n text in if ltb (length text) (suc n) then rest else text
