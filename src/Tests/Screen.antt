-- ===== src/Tests/Screen.antt =====
-- Trials: the options, the devices of the command line program and what the terminal shows.
use nethogs.Base.{
  pos, ℕ, ◌+◌, ◌≤◌, ◌≡◌, ◌⊎◌, inl, inr, refl, arith, true, false, some, none, List, [], ◌∷◌, All,
  In, ok, length, bytes_eq,
}
use mathlib.Core.List.{Perm}
use nethogs.LocalAddr.{local_addr, get_local, get_local_step}
use nethogs.Decpcap.{dlt_en10mb}
use nethogs.Opening.{new_handle, dp_open_live, wait_for_next_trigger}
use nethogs.Monitor.{System, Setup, init_loop}
use nethogs.Program.{initial, parse_options, main_device, setup_loop}
use nethogs.Program.Choices.{chosen, first_end, outcome, parse_options-chosen}
use nethogs.Program.Devices.{setup_loop-init_loop, setup_loop-never_quits}
use nethogs.Cui.{Ui}
use nethogs.Cui.Cutting.{write_at, mvaddstr_truncate_cmdline}
use nethogs.Cui.Columns.{mvaddstr_truncate_cmdline-overflow}
use nethogs.Cui.Drawing.{Passwd, pw_name, uid2username, column_offset_unit, column_width_unit}
use nethogs.Cui.Line.{Line}
use nethogs.Cui.Screen.{Screen, sort_lines, shown_cols, show_ncurses}
use nethogs.Cui.Order.{GreatestFirst, sort_lines-GreatestFirst}
use nethogs.Cui.Fitting.{InPlace, IsOffEdge, Showable, show_ncurses-InPlace}
use nethogs.Tests.Library.{system, always, pcap}

-- -v 5 -t -v -3 -C
abbrev options : List (ℕ × List ℕ)
options = (b'v', b'5' ∷ []) ∷ (b't', []) ∷ (b'v', b'-' ∷ b'3' ∷ []) ∷ (b'C', []) ∷ []

parse_options-chosen_example :
    parse_options options initial ≡ outcome (first_end options) (chosen options initial)
parse_options-chosen_example = parse_options-chosen options initial

-- Before the loop over the devices.
abbrev before : Setup
before = record {
  local_addrs = [];
  watched = record { handles = []; fd_list = 6 ∷ []; use_select = true };
  nb_devices = 0;
  nb_failed_devices = 0;
  called = 1;
}

abbrev devices : List (List ℕ)
devices = (b'e' ∷ []) ∷ (b'w' ∷ []) ∷ []

setup_loop-init_loop_example :
    (v' : Setup) × (setup_loop (system always) 0 none devices before ≡ ok v')
    × (init_loop 2 (system always) none devices before ≡ some v')
setup_loop-init_loop_example =
    setup_loop-init_loop (system always) none devices 2 before (λ n e. (_, refl)) (omega arith)
      (omega arith)

-- No device has a descriptor.
abbrev blind : System
blind = record (system always) { pcap = record pcap { selectable_fd = λ d. none } }

abbrev after : Setup
after = record {
  local_addrs = local_addr blind.net blind.raw 1 ∷ [];
  watched = record {
    handles = new_handle (b'w' ∷ []) dlt_en10mb ∷ new_handle (b'e' ∷ []) dlt_en10mb ∷ [];
    fd_list = [];
    use_select = false;
  };
  nb_devices = 2;
  nb_failed_devices = 0;
  called = 3;
}

setup_done : setup_loop blind 1 none devices before ≡ ok after
unfolding setup_loop main_device get_local get_local_step bytes_eq
setup_done = refl

w_opens : dp_open_live blind.pcap (b'w' ∷ []) 1 none ≡ some dlt_en10mb
unfolding dp_open_live
w_opens = refl

setup_loop-never_quits_example :
    wait_for_next_trigger (λ nfds fds. some fds) (some (6, 7)) after.watched ≡ true
setup_loop-never_quits_example =
    setup_loop-never_quits blind 1 none devices (b'w' ∷ []) dlt_en10mb before after
      (λ nfds fds. some fds) (some (6, 7)) (inr (inl refl)) w_opens refl setup_done

abbrev shown_line : ℕ → ℕ → Line
shown_line sent received = record {
  sent_value = sent;
  recv_value = received;
  devicename = b'e' ∷ [];
  name = some (b's' ∷ b's' ∷ b'h' ∷ []);
  cmdline = some (b'-' ∷ b'N' ∷ []);
  pid = 77;
  uid = 0;
}

abbrev lines : List Line
lines = shown_line 1 4 ∷ shown_line 3 2 ∷ shown_line 2 9 ∷ []

sort_lines-GreatestFirst_example :
    GreatestFirst true (sort_lines true lines) × Perm lines (sort_lines true lines)
sort_lines-GreatestFirst_example = sort_lines-GreatestFirst true lines

abbrev number : ℕ → List ℕ
number n = b'1' ∷ []

abbrev getpwuid : ℕ → Passwd
getpwuid uid = pw_name (b'r' ∷ b'o' ∷ b'o' ∷ b't' ∷ [])

abbrev ui : Ui
ui = record { sort_recv = true; showcommandline = true; view_mode = pos 0 }

line-Showable : (sent received : ℕ) → Showable number getpwuid ui (shown_line sent received)
unfolding uid2username
line-Showable sent received = record {
  in_range = omega arith;
  named = (_, refl);
  program = (_, refl);
  short = omega arith;
}

line-IsOffEdge : (sent received : ℕ) → IsOffEdge number getpwuid ui 25 (shown_line sent received)
line-IsOffEdge sent received name e = inl (λ k. ground (arith, e, k))

-- On 5 rows and 80 columns two of three lines are shown.
show_ncurses-InPlace_example :
    (s : Screen) × (show_ncurses number getpwuid ui 5 80 lines ≡ ok (some s))
    × (column_offset_unit s.proglen s.devlen + column_width_unit ≡ shown_cols 80)
    × (column_offset_unit s.proglen s.devlen + column_width_unit ≤ 80)
    × (length s.captions ≡ shown_cols 80 + 1)
    × All (InPlace number getpwuid ui 3 5 s.proglen) s.lines
    × ((length s.lines ≡ length lines) ⊎ (5 ≤ 3 + length s.lines))
show_ncurses-InPlace_example =
    show_ncurses-InPlace number getpwuid ui 5 80 lines (omega arith)
      (line-Showable 1 4, (line-Showable 3 2, (line-Showable 2 9, tt)))
      (line-IsOffEdge 1 4, (line-IsOffEdge 3 2, (line-IsOffEdge 2 9, tt)))

-- A name of three letters in a column that is three wide.
mvaddstr_truncate_cmdline-overflow_example :
    In
      (write_at (17 + 3 + 1) (b'-' ∷ b'N' ∷ []))
      (mvaddstr_truncate_cmdline true 17 (b's' ∷ b's' ∷ b'h' ∷ []) (some (b'-' ∷ b'N' ∷ [])) 3)
mvaddstr_truncate_cmdline-overflow_example =
    mvaddstr_truncate_cmdline-overflow 17 (b's' ∷ b's' ∷ b'h' ∷ []) (b'-' ∷ b'N' ∷ []) 3 refl
      (omega arith) (omega arith)
