-- ===== src/Showing/Lines.antt =====
-- The lines of processes that can be shown: nothing goes wrong in class Line, show_trace and
-- show_ncurses (src/cui.cpp).
use nethogs.Base.{
  ℤ, ℕ, suc, ◌+◌, ◌-◌, ◌%◌, ◌^◌, Bool, List, [], ◌∷◌, All, map, ltb, pos, leb_ℤ, ok, fault, exited,
  Bool-cases, inl, inr,
}
use nethogs.Packet.{decimal_int}
use nethogs.Cui.{Ui, get_devlen}
use nethogs.Cui.Drawing.{
  Passwd, pw_name, no_entry, pw_error, uid2username, show, log, greatest_first,
}
use nethogs.Cui.Line.{Line}
use nethogs.Cui.Screen.{insert_line, sort_lines, shown_cols, show_lines, show_ncurses}
use nethogs.Safety.{Safely, Safely-bind, Anything}
use nethogs.Showing.{LineShowable}

insert-All :
    (P : Line → Type 0) (sort_recv : Bool) (line : Line) (lines : List Line)
    → P line
    → All P lines
    → All P (insert_line sort_recv line lines)
unfolding insert_line
insert-All P sort_recv line [] k ks = (k, tt)
insert-All P sort_recv line (first ∷ lines) k ks =
    elim (Bool-cases (leb_ℤ (greatest_first sort_recv line first) (pos 0))) [
      | inl before ↦ rw before (k, ks)
      | inr behind ↦ rw behind (ks.0, insert-All P sort_recv line lines k ks.1)
    ]

pub sort-All :
    (P : Line → Type 0) (sort_recv : Bool) (lines : List Line)
    → All P lines
    → All P (sort_lines sort_recv lines)
unfolding sort_lines
sort-All P sort_recv [] k = tt
sort-All P sort_recv (line ∷ lines) k =
    insert-All P sort_recv line (sort_lines sort_recv lines) k.0 (sort-All P sort_recv lines k.1)

module _ (number : ℕ → List ℕ) where
  pub log-Safely :
      (showcommandline : Bool) (line : Line)
      → LineShowable line
      → Safely Anything (log number showcommandline line)
  unfolding log
  log-Safely showcommandline line (n, e, f) = rw e tt

  named-Safely : (getpwuid : ℕ → Passwd) (uid : ℕ) → Safely Anything (uid2username getpwuid uid)
  unfolding uid2username
  named-Safely getpwuid uid =
      elim (getpwuid uid)
        as (λ o. Safely Anything (elim o [
          | pw_name name ↦ ok name
          | no_entry ↦ ok (decimal_int uid)
          | pw_error ↦ fault exited
        ])) [ pw_name name ↦ tt | no_entry ↦ tt | pw_error ↦ tt ]

  show-Safely :
      (getpwuid : ℕ → Passwd) (showcommandline : Bool) (mode : ℤ) (line : Line) (proglen devlen : ℕ)
      → LineShowable line
      → Safely Anything (show number getpwuid showcommandline mode line proglen devlen)
  unfolding show
  show-Safely getpwuid showcommandline mode line proglen devlen (n, e, f) =
      rw (f, show)
        (Safely-bind Anything Anything (uid2username getpwuid line.uid) _
          (named-Safely getpwuid line.uid) (λ username _. rw e tt))

  module _ (getpwuid : ℕ → Passwd) (ui : Ui) where
    show_lines-Safely :
        (i rows proglen devlen : ℕ) (lines : List Line)
        → All LineShowable lines
        → Safely Anything (show_lines number getpwuid ui i rows proglen devlen lines)
    unfolding show_lines
    show_lines-Safely i rows proglen devlen [] s = tt
    show_lines-Safely i rows proglen devlen (line ∷ lines) s =
        let more = show_lines-Safely (suc i) rows proglen devlen lines s.1 in
        elim (Bool-cases (ltb (i + 3) rows)) [
          | inr out ↦ rw (out, show_lines) more
          | inl fits ↦
              rw (fits, show_lines)
                (Safely-bind Anything Anything
                  (show number getpwuid ui.showcommandline ui.view_mode line proglen devlen) _
                  (show-Safely getpwuid ui.showcommandline ui.view_mode line proglen devlen s.0)
                  (λ shown _.
                    Safely-bind Anything Anything
                      (show_lines number getpwuid ui (suc i) rows proglen devlen lines) _ more
                      (λ rest _. tt)))
        ]

    pub show_ncurses-Safely :
        (rows cols : ℕ) (lines : List Line)
        → All LineShowable lines
        → Safely Anything (show_ncurses number getpwuid ui rows cols lines)
    unfolding show_ncurses
    show_ncurses-Safely rows cols lines s = elim (Bool-cases (ltb cols 62)) [
      | inl narrow ↦ rw (narrow, show_ncurses) tt
      | inr wide ↦
          let devlen = get_devlen (map (λ l. l.devicename) lines) rows in
          let proglen = (shown_cols cols + 2 ^ 32 - 50 - devlen) % 2 ^ 32 in
          rw (wide, show_ncurses)
            (Safely-bind Anything Anything
              (show_lines number getpwuid ui 0 rows proglen devlen lines) _
              (show_lines-Safely 0 rows proglen devlen lines s) (λ shown _. tt))
    ]
