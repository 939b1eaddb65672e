-- ===== src/Tests/Tables.antt =====
-- Trials: the tables of connections and inodes.
use nethogs.Base.{
  ℕ, ◌≡◌, ◌≢◌, inl, inr, map, refl, true, List, [], ◌∷◌, ◌++◌, some, none, ok, arith, ◌==◌,
  if◌then◌else◌, bytes_eq,
}
use nethogs.Packet.{decimal}
use nethogs.Inode2Prog.{
  ProcFs, PidEntry, FdEntry, PrgNode, InodeProc, getcmdline, reread_mapping, find_pid,
}
use nethogs.Inode2Prog.Cmdline.{command_line, nulled}
use nethogs.Inode2Prog.Reading.{Answers, proc_of, getcmdline-pieces}
use nethogs.Inode2Prog.Coverage.{socket_link, Opens, reread_mapping_has}
use nethogs.Sscanf.{dec, lit, space, hex_set, hex}
use nethogs.ConnInode.{
  scan_row, scan_end, scan_queues, scan_inode, ConnTable, Words, Row, ProcNet, add_row,
  refreshconninode,
}
use nethogs.ConnInode.Errors.{readable, Ends, refreshconninode-Ends}
use nethogs.ConnInode.Keys.{refresh_keeps}
use nethogs.Tests.{home, net}

abbrev sh : List ℕ
sh = b's' ∷ b'h' ∷ []

abbrev dash_c : List ℕ
dash_c = b'-' ∷ b'c' ∷ []

abbrev descriptor : FdEntry
descriptor = record { is_lnk = true; target = some (socket_link 42) }

abbrev shell : PidEntry
shell = record { d_name = decimal 7; is_dir = true; fds = some (descriptor ∷ []) }

abbrev sh_dash_c : List ℕ
sh_dash_c = b's' ∷ b'h' ∷ 0 ∷ b'-' ∷ b'c' ∷ 0 ∷ []

-- Process 7 runs `sh -c` and has the socket 42 open.
abbrev proc : ProcFs
proc = record {
  entries = some (shell ∷ []);
  cmdline_file = λ pid. if pid == 7 then some sh_dash_c else none;
}

abbrev no_nodes : InodeProc
no_nodes inode = none

-- The file of process 7 comes in two pieces.
abbrev two_pieces : List (List ℕ)
two_pieces = (b's' ∷ b'h' ∷ 0 ∷ b'-' ∷ []) ∷ (b'c' ∷ 0 ∷ []) ∷ []

abbrev answers : ℕ → Answers
answers pid = record { opens = true; reads = map some two_pieces ++ (some [] ∷ []); closes = true }

getcmdline-pieces_example :
    getcmdline (proc_of (some []) answers) 7 ≡ ok (command_line sh (dash_c ∷ []))
unfolding nulled
getcmdline-pieces_example =
    getcmdline-pieces (some []) answers 7 sh (dash_c ∷ []) two_pieces (some []) []
      ((λ e. ground arith), ((λ e. ground arith), tt))
      (((λ e. ground arith), ((λ e. ground arith), tt)), tt) refl ((_, _, refl), ((_, _, refl), tt))
      (inr refl) refl

opens : Opens 7 42 shell (descriptor ∷ []) descriptor
opens = record {
  named = refl;
  directory = refl;
  opened = refl;
  listed = inl refl;
  link = refl;
  leads = refl;
  inode_fits = omega arith;
  pid_fits = omega arith;
}

-- The table after the walk.
abbrev shell_node : PrgNode
shell_node = record { inode = 42; pid = 7; cmdline = sh_dash_c }

abbrev after : InodeProc
after inode = if 42 == inode then some shell_node else none

walk : reread_mapping proc no_nodes ≡ ok after
unfolding reread_mapping decimal bytes_eq
walk = refl

-- A second walk leaves the table as it is.
walk_again : reread_mapping proc after ≡ ok after
unfolding reread_mapping decimal bytes_eq
walk_again = refl

found : find_pid proc no_nodes 42 ≡ ok (some shell_node, after)
unfolding find_pid reread_mapping decimal bytes_eq
found = refl

reread_mapping_has_example : after 42 ≢ none
reread_mapping_has_example =
    reread_mapping_has proc (shell ∷ []) 7 42 shell (descriptor ∷ []) descriptor no_nodes after refl
      (inl refl) opens walk

-- The row of the connection of the request: its addresses are 1 and 2, its inode is 42.
abbrev pub raw_words : Words
raw_words = record { word0 = 0; word1 = 0; word2 = 0; word3 = 0 }

abbrev row : Row
row = record {
  local_addr = b'0' ∷ b'1' ∷ [];
  local_port = 1000;
  rem_addr = b'0' ∷ b'2' ∷ [];
  rem_port = 80;
  inode = 42;
}

abbrev no_rows : ConnTable
no_rows key = 0

abbrev key : List ℕ
key = b'1' ∷ b':' ∷ b'1' ∷ b'0' ∷ b'0' ∷ b'0' ∷ b'-' ∷ b'2' ∷ b':' ∷ b'8' ∷ b'0' ∷ []

-- /proc/net/tcp has its first line and "0: 01:03E8 02:0050 01 00000000:00000000 00:00000000 00000000     0        0 42 1 0000000000000000 100".
abbrev line : List ℕ
line =
    32 ∷ 32 ∷ 32 ∷ b'0' ∷ b':' ∷ 32 ∷ b'0' ∷ b'1' ∷ b':' ∷ b'0' ∷ b'3' ∷ b'E' ∷ b'8' ∷ 32 ∷ b'0'
    ∷ b'2' ∷ b':' ∷ b'0' ∷ b'0' ∷ b'5' ∷ b'0' ∷ 32 ∷ b'0' ∷ b'1' ∷ 32 ∷ b'0' ∷ b'0' ∷ b'0' ∷ b'0'
    ∷ b'0' ∷ b'0' ∷ b'0' ∷ b'0' ∷ b':' ∷ b'0' ∷ b'0' ∷ b'0' ∷ b'0' ∷ b'0' ∷ b'0' ∷ b'0' ∷ b'0' ∷ 32
    ∷ b'0' ∷ b'0' ∷ b':' ∷ b'0' ∷ b'0' ∷ b'0' ∷ b'0' ∷ b'0' ∷ b'0' ∷ b'0' ∷ b'0' ∷ 32 ∷ b'0' ∷ b'0'
    ∷ b'0' ∷ b'0' ∷ b'0' ∷ b'0' ∷ b'0' ∷ b'0' ∷ 32 ∷ 32 ∷ 32 ∷ 32 ∷ 32 ∷ b'0' ∷ 32 ∷ 32 ∷ 32 ∷ 32
    ∷ 32 ∷ 32 ∷ 32 ∷ 32 ∷ b'0' ∷ 32 ∷ b'4' ∷ b'2' ∷ 32 ∷ b'1' ∷ 32 ∷ b'0' ∷ b'0' ∷ b'0' ∷ b'0'
    ∷ b'0' ∷ b'0' ∷ b'0' ∷ b'0' ∷ b'0' ∷ b'0' ∷ b'0' ∷ b'0' ∷ b'0' ∷ b'0' ∷ b'0' ∷ b'0' ∷ 32 ∷ b'1'
    ∷ b'0' ∷ b'0' ∷ 10 ∷ []

abbrev files : ProcNet
files = record { tcp = some ([] ∷ line ∷ []); tcp6 = none }

abbrev one_row : ConnTable
one_row k = 7

row_read :
    refreshconninode net [] raw_words (home ∷ []) files one_row
    ≡ ok (add_row net [] raw_words (home ∷ []) one_row row)
unfolding refreshconninode scan_row scan_end scan_queues scan_inode dec lit space hex_set hex
row_read = refl

refresh_keeps_example : add_row net [] raw_words (home ∷ []) one_row row key ≢ 0
refresh_keeps_example =
    refresh_keeps net [] raw_words (home ∷ []) files one_row
      (add_row net [] raw_words (home ∷ []) one_row row) key row_read (λ e. ground arith)

refreshconninode-Ends_example :
    Ends (readable files) (refreshconninode net [] raw_words (home ∷ []) files one_row)
refreshconninode-Ends_example = refreshconninode-Ends net [] raw_words (home ∷ []) files one_row
