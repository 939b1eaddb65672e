-- ===== src/Cui/Fitting.antt =====
-- The screen that show_ncurses draws on (src/cui.cpp).
use nethogs.Base.{
  ℕ, suc, ◌+◌, ◌-◌, ◌%◌, ◌^◌, ◌≤◌, ◌<◌, ◌≡◌, ◌≢◌, ◌⊎◌, refl, false, none, some, List, [], ◌∷◌, map,
  arith, All, All-mono, length, ltb, ltb→lt, Bool-cases, inl, inr, ok, if◌then◌else◌,
}
use nethogs.Cui.{Ui, get_devlen}
use nethogs.Cui.Modes.{get_devlen_fixed}
use nethogs.Cui.Captions.{length-header}
use nethogs.Cui.Columns.{Short}
use nethogs.Cui.Drawing.{Shown, Passwd, uid2username, column_offset_unit, column_width_unit}
use nethogs.Cui.Line.{Line, pid_max}
use nethogs.Cui.Screen.{Screen, show_lines, show_ncurses, shown_cols, screen_of}
use nethogs.Cui.Widths.{Keeps, show-Keeps}

module _ (number : ℕ → List ℕ) (getpwuid : ℕ → Passwd) (ui : Ui) where
  -- A line that can be shown: its process id is in range, its user can be named, its program has a
  -- name, and a command line that is shown with it is short.
  pub record Showable (line : Line) : Type 0 where
    pub in_range : line.pid ≤ pid_max
    pub named : (username : List ℕ) × (uid2username getpwuid line.uid ≡ ok username)
    pub program : (name : List ℕ) × (line.name ≡ some name)
    pub short : Short (if ui.showcommandline then line.cmdline else none)

  -- The name of the program is not exactly as wide as its column, or no command line is shown with it.
  abbrev pub IsOffEdge : ℕ → Line → Type 0
  IsOffEdge proglen line =
      (name : List ℕ)
      → line.name ≡ some name
      → (length name ≢ proglen) ⊎ ((if ui.showcommandline then line.cmdline else none) ≡ none)

  -- A row below the captions and on the screen, with a line that keeps to its columns.
  abbrev pub InPlace : ℕ → ℕ → ℕ → ℕ × Shown → Type 0
  InPlace first rows proglen (row, s) = (first ≤ row) × (row < rows) × Keeps proglen s

  lines-InPlace :
      (i rows proglen devlen : ℕ) (lines : List Line)
      → 2 ≤ proglen
      → proglen < 2 ^ 31
      → All Showable lines
      → All (IsOffEdge proglen) lines
      → (shown : List (ℕ × Shown)) × (show_lines number getpwuid ui i rows proglen devlen lines
          ≡ ok shown)
        × All (InPlace (i + 3) rows proglen) shown
        × ((length shown ≡ length lines) ⊎ (rows ≤ i + 3 + length shown))
  unfolding show_lines
  lines-InPlace i rows proglen devlen [] l h sh off = ([], refl, tt, inl refl)
  lines-InPlace i rows proglen devlen (line ∷ lines) l h sh off =
      let (more, e, places, count) =
        lines-InPlace (suc i) rows proglen devlen lines l h sh.1 off.1 in
      let below : All (InPlace (i + 3) rows proglen) more =
        All-mono _ _ more (λ s (a, b, c). (omega arith, b, c)) places in
      elim (Bool-cases (ltb (i + 3) rows)) [
        | inr out ↦ (more, rw (show_lines, out, e) refl, below, inr (ground arith))
        | inl fits ↦
            let k = sh.0 in
            let (s, f, keeps) =
              show-Keeps number getpwuid ui.showcommandline ui.view_mode line proglen devlen
                k.named.0 k.program.0 k.in_range k.named.1 k.program.1 l h k.short
                (off.0 k.program.0 k.program.1) in
            (
              (i + 3, s) ∷ more,
              rw (show_lines, fits, f, e) refl,
              ((omega arith, ltb→lt (i + 3) rows fits, keeps), below),
              elim count [ inl all' ↦ inl (omega arith) | inr full ↦ inr (omega arith) ],
            )
      ]

  drawn :
      (rows cols devlen proglen : ℕ) (lines : List Line) (shown : List (ℕ × Shown))
      → ltb cols 62 ≡ false
      → get_devlen (map (λ l. l.devicename) lines) rows ≡ devlen
      → (shown_cols cols + 2 ^ 32 - 50 - devlen) % 2 ^ 32 ≡ proglen
      → show_lines number getpwuid ui 0 rows proglen devlen lines ≡ ok shown
      → show_ncurses number getpwuid ui rows cols lines
        ≡ ok (some (screen_of ui.view_mode rows cols lines proglen devlen shown))
  unfolding show_ncurses
  drawn rows cols devlen proglen lines shown narrow d p e = rw (show_ncurses, narrow, d, p, e) refl

  -- On a terminal of 62 columns or more, show_ncurses draws if each line has a process id up to
  -- PID_MAX, a user that can be named and a program with a name, and its command line is short; and if
  -- no name exactly as wide as the column of the program is shown with a command line, since that line
  -- would leave its column. The columns of a line with their gaps end where the screen does, or at the 512th column of a wider
  -- one, but the captions above them take one column more; each line is on a row below the captions
  -- and above the end of the screen, and keeps to the columns of its process id, its user and its
  -- program; and all lines are shown, or as many as the rows can hold.
  pub show_ncurses-InPlace :
      (rows cols : ℕ) (lines : List Line)
      → 62 ≤ cols
      → All Showable lines
      → All (IsOffEdge (shown_cols cols - 55)) lines
      → (s : Screen) × (show_ncurses number getpwuid ui rows cols lines ≡ ok (some s))
        × (column_offset_unit s.proglen s.devlen + column_width_unit ≡ shown_cols cols)
        × (column_offset_unit s.proglen s.devlen + column_width_unit ≤ cols)
        × (length s.captions ≡ shown_cols cols + 1)
        × All (InPlace 3 rows s.proglen) s.lines
        × ((length s.lines ≡ length lines) ⊎ (rows ≤ 3 + length s.lines))
  unfolding screen_of
  show_ncurses-InPlace rows cols lines wide sh off =
      let c = shown_cols cols in
      let bounds : (62 ≤ c) × (c ≤ 512) × (c ≤ cols) = ground arith in
      let narrow : ltb cols 62 ≡ false = ground arith in
      let five = get_devlen_fixed (map (λ l. l.devicename) lines) rows in
      let prog : (c + 2 ^ 32 - 50 - 5) % 2 ^ 32 ≡ c - 55 = omega arith in
      let (shown, e, places, count) =
        lines-InPlace 0 rows (c - 55) 5 lines (omega arith) (omega arith) sh off in
      (
        screen_of ui.view_mode rows cols lines (c - 55) 5 shown,
        drawn rows cols 5 (c - 55) lines shown narrow five prog e,
        omega arith,
        omega arith,
        omega (arith, length-header (c - 55) 5),
        places,
        count,
      )
