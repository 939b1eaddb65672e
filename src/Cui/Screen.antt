-- ===== src/Cui/Screen.antt =====
-- What do_refresh shows: the lines of the processes, their order, and where show_ncurses puts them
-- (src/cui.cpp). The sums of the floating-point values are given by what
-- is summed up, and the name of the program in the first row is left out.
use nethogs.Base.{
  ℕ, suc, ◌+◌, ◌-◌, ◌%◌, ◌^◌, Bool, Option, none, some, List, [], ◌∷◌, map, length, ltb,
  if◌then◌else◌, Result, ok, ◌>>=◌, ℤ, pos, leb_ℤ,
}
use nethogs.Cui.{get_devlen, Ui}
use nethogs.Cui.Captions.{header, total_head, total_unit}
use nethogs.Cui.Drawing.{Shown, Passwd, show, greatest_first, column_width_unit}
use nethogs.Cui.Line.{Line}

-- qsort with GreatestFirst; equal lines keep their order, as with the merge sort of the C library.
unfoldable pub insert_line : Bool → Line → List Line → List Line
unfolding greatest_first
insert_line sort_recv line [] = line ∷ []
insert_line sort_recv line (first ∷ lines) =
    let rest = first ∷ insert_line sort_recv line lines in
    if leb_ℤ (greatest_first sort_recv line first) (pos 0) then line ∷ first ∷ lines else rest

unfoldable pub sort_lines : Bool → List Line → List Line
unfolding insert_line
sort_lines sort_recv [] = []
sort_lines sort_recv (line ∷ lines) = insert_line sort_recv line (sort_lines sort_recv lines)

-- PROGNAME_WIDTH
abbrev pub progname_width : ℕ
progname_width = 512

-- What is drawn: the widths, the captions of row 2, each line with its row, the row of the totals
-- with its text up to the two sums and with what these add up, in this order, and the row, the column
-- and the text of their unit.
pub record Screen : Type 0 where
  pub proglen : ℕ
  pub devlen : ℕ
  pub captions : List ℕ
  pub lines : List (ℕ × Shown)
  pub total_row : ℕ
  pub total_text : List ℕ
  pub sent_values : List ℕ
  pub recv_values : List ℕ
  pub unit_row : ℕ
  pub unit_column : ℕ
  pub unit_text : Option (List ℕ)

-- At most PROGNAME_WIDTH columns are used.
abbrev pub shown_cols : ℕ → ℕ
shown_cols cols = if ltb progname_width cols then progname_width else cols

abbrev smaller : ℕ → ℕ → ℕ
smaller a b = if ltb b a then b else a

-- What is drawn for these lines in a view mode, on a screen of these rows and columns. All lines are
-- summed up, also those that are not shown.
unfoldable pub screen_of : ℤ → ℕ → ℕ → List Line → ℕ → ℕ → List (ℕ × Shown) → Screen
unfolding header total_head total_unit
screen_of view_mode rows cols lines proglen devlen shown = record {
  proglen = proglen;
  devlen = devlen;
  captions = header proglen devlen;
  lines = shown;
  total_row = smaller (rows - 1) (3 + 1 + length lines);
  total_text = total_head proglen devlen;
  sent_values = map (λ line. line.sent_value) lines;
  recv_values = map (λ line. line.recv_value) lines;
  unit_row = 3 + 1 + length lines;
  unit_column = shown_cols cols - column_width_unit;
  unit_text = total_unit view_mode;
}

module _ (number : ℕ → List ℕ) (getpwuid : ℕ → Passwd) (ui : Ui) where
  -- The loop over the lines from `i` on, of which only those are shown that fit.
  unfoldable pub show_lines : ℕ → ℕ → ℕ → ℕ → List Line → Result (List (ℕ × Shown))
  unfolding show
  show_lines i rows proglen devlen [] = ok []
  show_lines i rows proglen devlen (line ∷ lines) =
      let rest = show_lines (suc i) rows proglen devlen lines in
      if ltb (i + 3) rows
      then (do
        s ← show number getpwuid ui.showcommandline ui.view_mode line proglen devlen
        more ← rest
        ok ((i + 3, s) ∷ more))
      else rest

  -- show_ncurses on a terminal with these rows and columns; `none` is the text that it is too narrow.
  unfoldable pub show_ncurses : ℕ → ℕ → List Line → Result (Option Screen)
  unfolding get_devlen show_lines screen_of
  show_ncurses rows cols lines =
      let devlen = get_devlen (map (λ l. l.devicename) lines) rows in
      let proglen = (shown_cols cols + 2 ^ 32 - 50 - devlen) % 2 ^ 32 in
      if ltb cols 62 then ok none else (do
        shown ← show_lines 0 rows proglen devlen lines
        ok (some (screen_of ui.view_mode rows cols lines proglen devlen shown)))
