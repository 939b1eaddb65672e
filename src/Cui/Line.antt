-- ===== src/Cui/Line.antt =====
-- A line of the terminal interface: class Line and its constructor (src/cui.cpp).
use nethogs.Base.{ℕ, ◌≡◌, true, Option, List, leb, Result, ok, assertion, guard, ◌>>◌}

-- PID_MAX
abbrev pub pid_max : ℕ
pid_max = 4194303

-- A process id that a line can have.
abbrev pub Fits : ℕ → Type 0
Fits pid = leb pid pid_max ≡ true

pub record Line : Type 0 where
  pub sent_value : ℕ
  pub recv_value : ℕ
  pub devicename : List ℕ
  pub name : Option (List ℕ)
  pub cmdline : Option (List ℕ)
  pub pid : ℕ
  pub uid : ℕ

-- Line::Line
unfoldable pub new_line : Option (List ℕ) → Option (List ℕ) → ℕ → ℕ → ℕ → ℕ → List ℕ → Result Line
new_line name cmdline n_recv_value n_sent_value pid uid n_devicename = do
  guard (leb pid pid_max) assertion
  ok (record {
    sent_value = n_sent_value;
    recv_value = n_recv_value;
    devicename = n_devicename;
    name = name;
    cmdline = cmdline;
    pid = pid;
    uid = uid;
  })
