-- ===== src/Cui/Drawing.antt =====
-- A line of the terminal interface: class Line, uid2username and GreatestFirst (src/cui.cpp).
-- What is written to a row is a list of texts, each with the column at which it begins. A value is the
-- bits of a number that is not negative, which `%11.3f` prints by a parameter.
use nethogs.Base.{
  ℕ, ◌+◌, ◌-◌, Bool, Option, none, some, List, [], ◌∷◌, ◌++◌, length, ltb, leb, ◌==◌, if◌then◌else◌,
  ℤ, pos, negsuc, Result, ok, fault, exited, assertion, null_pointer, guard, or_fault, ◌>>◌, ◌>>=◌,
}
use nethogs.Packet.{decimal, decimal_int}
use nethogs.Cui.{viewmode_kbps, is_mode}
use nethogs.Cui.Line.{Line, pid_max}
use nethogs.Cui.Cutting.{
  Write, write_at, mvaddstr_truncate_trailing, mvaddstr_truncate_cmdline, pad,
}

-- The widths of the columns
abbrev pub column_width_pid : ℕ
column_width_pid = 7

abbrev pub column_width_user : ℕ
column_width_user = 8

abbrev pub column_width_sent : ℕ
column_width_sent = 11

abbrev pub column_width_received : ℕ
column_width_received = 11

abbrev pub column_width_unit : ℕ
column_width_unit = 6

-- What getpwuid gives: a name, no entry, or an error.
pub data Passwd : Type 0 where
  pw_name : List ℕ → Passwd
  no_entry pw_error : Passwd

unfoldable pub uid2username : (ℕ → Passwd) → ℕ → Result (List ℕ)
unfolding decimal_int
uid2username getpwuid uid = elim (getpwuid uid) [
  | pw_name name ↦ ok name
  | no_entry ↦ ok (decimal_int uid)
  | pw_error ↦ fault exited
]

-- What Line::show writes, column by column.
pub record Shown : Type 0 where
  pub pid : Write
  pub user : List Write
  pub program : List Write
  pub dev : Write
  pub sent : Write
  pub received : Write
  pub unit : List Write

-- The unit of a view mode: 1 is kilobytes, 2 bytes, 3 megabytes.
abbrev pub unit_text : ℤ → Option (List ℕ)
unit_text mode =
    if is_mode viewmode_kbps mode
    then some (b'K' ∷ b'B' ∷ b'/' ∷ b's' ∷ b'e' ∷ b'c' ∷ [])
    else (if is_mode 3 mode
        then some (b'M' ∷ b'B' ∷ b' ' ∷ b' ' ∷ b' ' ∷ b' ' ∷ [])
        else (if is_mode 1 mode
            then some (b'K' ∷ b'B' ∷ b' ' ∷ b' ' ∷ b' ' ∷ b' ' ∷ [])
            else (if is_mode 2 mode
                then some (b'B' ∷ b' ' ∷ b' ' ∷ b' ' ∷ b' ' ∷ b' ' ∷ [])
                else none)))

abbrev unit_at : ℕ → Option (List ℕ) → List Write
unit_at col none = []
unit_at col (some text) = write_at col text ∷ []

-- The offsets of the columns.
abbrev pub column_offset_user : ℕ
column_offset_user = column_width_pid + 1

abbrev pub column_offset_program : ℕ
column_offset_program = column_offset_user + column_width_user + 1

abbrev pub column_offset_dev : ℕ → ℕ
column_offset_dev proglen = column_offset_program + proglen + 2

abbrev pub column_offset_sent : ℕ → ℕ → ℕ
column_offset_sent proglen devlen = column_offset_dev proglen + devlen + 1

abbrev pub column_offset_received : ℕ → ℕ → ℕ
column_offset_received proglen devlen = column_offset_sent proglen devlen + column_width_sent + 1

abbrev pub column_offset_unit : ℕ → ℕ → ℕ
column_offset_unit proglen devlen =
    column_offset_received proglen devlen + column_width_received + 1

-- The texts of a line, once its user and its name are known.
unfoldable pub shown : (ℕ → List ℕ) → Bool → ℤ → Line → ℕ → ℕ → List ℕ → List ℕ → Shown
unfolding decimal mvaddstr_truncate_trailing mvaddstr_truncate_cmdline pad
shown number showcommandline view_mode line proglen devlen username name = record {
  pid =
      if line.pid == 0
      then write_at (column_width_pid - 1) (b'?' ∷ [])
      else write_at 0 (pad 7 (decimal line.pid));
  user = mvaddstr_truncate_trailing column_offset_user username (length username) column_width_user;
  program =
      mvaddstr_truncate_cmdline showcommandline column_offset_program name line.cmdline proglen;
  dev = write_at (column_offset_dev proglen) line.devicename;
  sent = write_at (column_offset_sent proglen devlen) (pad 11 (number line.sent_value));
  received = write_at (column_offset_received proglen devlen) (pad 11 (number line.recv_value));
  unit = unit_at (column_offset_unit proglen devlen) (unit_text view_mode);
}

-- Line::show on a row, for the texts of numbers, the users, showcommandline and viewMode.
unfoldable pub show : (ℕ → List ℕ) → (ℕ → Passwd) → Bool → ℤ → Line → ℕ → ℕ → Result Shown
unfolding uid2username shown
show number getpwuid showcommandline view_mode line proglen devlen = do
  guard (leb line.pid pid_max) assertion
  username ← uid2username getpwuid line.uid
  name ← or_fault null_pointer line.name
  ok (shown number showcommandline view_mode line proglen devlen username name)

-- Line::log
unfoldable pub log : (ℕ → List ℕ) → Bool → Line → Result (List ℕ)
unfolding decimal
log number showcommandline line = do
  name ← or_fault null_pointer line.name
  let more = if showcommandline then line.cmdline else none
  let tail =
      b'/' ∷ decimal line.pid
      ++ (b'/' ∷ decimal line.uid
          ++ (9 ∷ number line.sent_value ++ (9 ∷ number line.recv_value ++ (10 ∷ []))))
  ok (elim more [ none ↦ name ++ tail | some cmdline ↦ name ++ (b' ' ∷ cmdline ++ tail) ])

-- GreatestFirst, by sortRecv. The bits of numbers that are not negative are in their order.
unfoldable pub greatest_first : Bool → Line → Line → ℤ
greatest_first sort_recv a b =
    let a_value = if sort_recv then a.recv_value else a.sent_value in
    let b_value = if sort_recv then b.recv_value else b.sent_value in
    if ltb b_value a_value then negsuc 0 else (if a_value == b_value then pos 0 else pos 1)
