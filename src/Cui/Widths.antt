-- ===== src/Cui/Widths.antt =====
-- Where a line of the terminal is written: Line::show and show_ncurses (src/cui.cpp).
use nethogs.Base.{
  ℤ, ℕ, zero, suc, ◌+◌, ◌*◌, ◌/◌, ◌%◌, ◌-◌, ◌^◌, ◌≤◌, ◌<◌, ◌≡◌, ◌≢◌, ◌⊎◌, inl, inr, refl, Bool,
  true, none, some, List, [], ◌∷◌, arith, length, ltb, ltb→lt, leb, ◌==◌, if◌then◌else◌, ok,
  Bool-cases,
}
use nethogs.Packet.{digits_of, decimal}
use nethogs.Cui.Cutting.{write_at, pad}
use nethogs.Cui.Columns.{Within, Short, trailing-Within, cmdline-Within}
use nethogs.Cui.Drawing.{
  Shown, Passwd, column_width_pid, column_width_user, column_offset_user, column_offset_program,
  uid2username, shown, show,
}
use nethogs.Cui.Line.{Line, pid_max}

abbrev pow10 : ℕ → ℕ
pow10 zero = 1
pow10 (suc k) = 10 * pow10 k

length-digits_of :
    (f k n : ℕ) (rest : List ℕ)
    → n < pow10 (suc k)
    → length (digits_of f n rest) ≤ suc k + length rest
unfolding digits_of
length-digits_of zero k n rest h = omega arith
length-digits_of (suc f) zero n rest h = ground arith
length-digits_of (suc f) (suc k) n rest h =
    ground (arith, length-digits_of f k (n / 10) ((b'0' + n % 10) ∷ rest) (omega arith))

length-pad : (n : ℕ) (text : List ℕ) → length text ≤ n → length (pad n text) ≤ n
unfolding pad
length-pad zero text h = h
length-pad (suc n) text h = elim (Bool-cases (ltb (length text) (suc n))) [
  | inl short ↦
      let less = ltb→lt (length text) (suc n) short in
      rw short (omega (arith, length-pad n text (omega arith)))
  | inr exact ↦ rw exact h
]

-- A line keeps to the columns of its process id, its user and its program.
pub record Keeps (proglen : ℕ) (s : Shown) : Type 0 where
  pub pid : Within 0 column_width_pid (s.pid ∷ [])
  pub user : Within column_offset_user (column_offset_user + column_width_user) s.user
  pub program : Within column_offset_program (column_offset_program + proglen) s.program

pid-Within :
    (pid : ℕ)
    → pid ≤ pid_max
    → Within 0 column_width_pid (
        (if pid == 0
          then write_at (column_width_pid - 1) (b'?' ∷ [])
          else write_at 0 (pad 7 (decimal pid)))
        ∷ [])
unfolding decimal
pid-Within pid h = elim (Bool-cases (pid == 0)) [
  | inl none' ↦ rw none' ((omega arith, omega arith), tt)
  | inr some' ↦ rw some' (
    (
      omega arith,
      omega (arith, length-pad 7 (decimal pid) (length-digits_of 20 6 pid [] (omega arith))),
    ),
    tt,
  )
]

-- For a process id up to PID_MAX, a user that can be named and a program with a name, Line::show
-- writes the process id, the user and the program each within its column, whatever their lengths,
-- unless the name is exactly as wide as its column and a command line is shown with it.
pub show-Keeps :
    (number : ℕ → List ℕ) (getpwuid : ℕ → Passwd) (showcommandline : Bool) (view_mode : ℤ)
    (line : Line) (proglen devlen : ℕ) (username name : List ℕ)
    → line.pid ≤ pid_max
    → uid2username getpwuid line.uid ≡ ok username
    → line.name ≡ some name
    → 2 ≤ proglen
    → proglen < 2 ^ 31
    → Short (if showcommandline then line.cmdline else none)
    → (length name ≢ proglen) ⊎ ((if showcommandline then line.cmdline else none) ≡ none)
    → (s : Shown) × (show number getpwuid showcommandline view_mode line proglen devlen ≡ ok s)
      × Keeps proglen s
unfolding show shown
show-Keeps number getpwuid showcommandline view_mode line proglen devlen username name p u n l h sh
      c =
    let fits : leb line.pid pid_max ≡ true = ground arith in
    (
      shown number showcommandline view_mode line proglen devlen username name,
      rw (fits, u, n, show) refl,
      record {
        pid = pid-Within line.pid p;
        user =
            trailing-Within column_offset_user username column_width_user (omega arith)
              (omega arith);
        program =
            cmdline-Within showcommandline column_offset_program name line.cmdline proglen l h sh c;
      },
    )
