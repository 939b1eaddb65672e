-- ===== src/Inode2Prog.antt =====
-- The table from socket inodes to programs, read from /proc (src/inode2prog.h, src/inode2prog.cpp).
-- A snapshot of /proc is an argument of each call that reads it.
pub mod Reading
pub mod Text
pub mod Cmdline
pub mod Table
pub mod Coverage
use nethogs.Base.{
  ℕ, ◌+◌, ◌-◌, ◌*◌, ◌%◌, ◌^◌, ◌≡◌, Bool, true, false, not, ◌&&◌, ◌||◌, Option, none, some, List, [],
  ◌∷◌, ◌==◌, leb, bytes_eq, take, drop, if◌then◌else◌, Result, ok, fault, exited, out_of_bounds,
  ◌>>=◌, or_fault,
}

abbrev pub is_digit : ℕ → Bool
is_digit c = leb b'0' c && leb c b'9'

unfoldable pub is_number : List ℕ → Bool
is_number [] = true
is_number (c ∷ string) = if not (is_digit c) then false else is_number string

-- The loop of str2ulong, in an unsigned long.
unfoldable pub str2ulong_loop : ℕ → List ℕ → ℕ
str2ulong_loop retval [] = retval
str2ulong_loop retval (c ∷ ptr) =
    let more = str2ulong_loop ((retval * 10 + (c - b'0')) % 2 ^ 64) ptr in
    if is_digit c then more else retval

unfoldable pub str2ulong : List ℕ → ℕ
unfolding str2ulong_loop
str2ulong ptr = str2ulong_loop 0 ptr

-- The loop of str2int. A number above INT_MAX is undefined in the source, and exact here.
unfoldable pub str2int_loop : ℕ → List ℕ → ℕ
str2int_loop retval [] = retval
str2int_loop retval (c ∷ ptr) =
    let more = str2int_loop (retval * 10 + (c - b'0')) ptr in if is_digit c then more else retval

unfoldable pub str2int : List ℕ → ℕ
unfolding str2int_loop
str2int ptr = str2int_loop 0 ptr

-- An entry of /proc/<pid>/fd: whether it is a link, and what readlink gives (`none` for -1).
pub record FdEntry : Type 0 where
  pub is_lnk : Bool
  pub target : Option (List ℕ)

-- An entry of /proc: its name, whether it is a directory, and its fd directory if that opens.
pub record PidEntry : Type 0 where
  pub d_name : List ℕ
  pub is_dir : Bool
  pub fds : Option (List FdEntry)

-- /proc, if it opens, and the content of /proc/<pid>/cmdline, if that opens.
pub record ProcFs : Type 0 where
  pub entries : Option (List PidEntry)
  pub cmdline_file : ℕ → Option (List ℕ)

pub record PrgNode : Type 0 where
  pub inode : ℕ
  pub pid : ℕ
  pub cmdline : List ℕ

-- The loop of getcmdline over all but the last byte.
unfoldable pub join_parameters : Bool → List ℕ → List ℕ
join_parameters replace_null [] = []
join_parameters replace_null (c ∷ []) = c ∷ []
join_parameters replace_null (c ∷ d ∷ cmdline) =
    (if c == 0 then (if replace_null then b' ' else c) else c)
    ∷ join_parameters (replace_null || c == 0) (d ∷ cmdline)

-- On an empty file `length() - 1` wraps and the loop runs past the string. Appending "\0" appends
-- the empty string.
unfoldable pub getcmdline : ProcFs → ℕ → Result (List ℕ)
unfolding join_parameters
getcmdline proc pid = do
  cmdline ← or_fault exited (proc.cmdline_file pid)
  elim cmdline [ [] ↦ fault out_of_bounds | c ∷ rest ↦ ok (join_parameters false (c ∷ rest)) ]

-- std::map<unsigned long, prg_node *>: an entry that operator[] makes holds NULL, as a missing one.
abbrev pub InodeProc : Type 0
InodeProc = ℕ → Option PrgNode

abbrev pub set_inode : InodeProc → ℕ → PrgNode → InodeProc
set_inode t inode node i = if inode == i then some node else t i

abbrev pub needs_node : Option PrgNode → ℕ → Bool
needs_node none pid = true
needs_node (some current_value) pid = not (current_value.pid == pid)

unfoldable pub setnode : ProcFs → InodeProc → ℕ → ℕ → Result InodeProc
unfolding getcmdline
setnode proc inodeproc inode pid =
    if needs_node (inodeproc inode) pid
    then (do
      cmdline ← getcmdline proc pid
      ok (set_inode inodeproc inode (record { inode = inode; pid = pid; cmdline = cmdline })))
    else ok inodeproc

-- "socket:["
abbrev pub socket_prefix : List ℕ
socket_prefix = b's' ∷ b'o' ∷ b'c' ∷ b'k' ∷ b'e' ∷ b't' ∷ b':' ∷ b'[' ∷ []

unfoldable pub get_info_by_linkname : ProcFs → InodeProc → List ℕ → List ℕ → Result InodeProc
unfolding setnode str2ulong str2int
get_info_by_linkname proc inodeproc pid linkname =
    if bytes_eq (take 8 linkname) socket_prefix
    then setnode proc inodeproc (str2ulong (drop 8 linkname)) (str2int pid)
    else ok inodeproc

-- One round of the loop of get_info_for_pid: readlink writes at most 79 bytes.
unfoldable pub read_fd : ProcFs → InodeProc → List ℕ → FdEntry → Result InodeProc
unfolding get_info_by_linkname
read_fd proc inodeproc pid entry = if not entry.is_lnk then ok inodeproc else elim entry.target [
  | none ↦ ok inodeproc
  | some linkname ↦ get_info_by_linkname proc inodeproc pid (take 79 linkname)
]

unfoldable pub read_fds : ProcFs → InodeProc → List ℕ → List FdEntry → Result InodeProc
unfolding read_fd
read_fds proc inodeproc pid [] = ok inodeproc
read_fds proc inodeproc pid (entry ∷ dir) = do
  inodeproc' ← read_fd proc inodeproc pid entry
  read_fds proc inodeproc' pid dir

unfoldable pub get_info_for_pid : ProcFs → InodeProc → PidEntry → Result InodeProc
unfolding read_fds
get_info_for_pid proc inodeproc entry = elim entry.fds [
  | none ↦ ok inodeproc
  | some dir ↦ read_fds proc inodeproc entry.d_name dir
]

-- The loop of reread_mapping.
unfoldable pub read_pids : ProcFs → InodeProc → List PidEntry → Result InodeProc
unfolding get_info_for_pid is_number
read_pids proc inodeproc [] = ok inodeproc
read_pids proc inodeproc (entry ∷ rest) = do
  inodeproc' ←
      if entry.is_dir && is_number entry.d_name
      then get_info_for_pid proc inodeproc entry
      else ok inodeproc
  read_pids proc inodeproc' rest

unfoldable pub reread_mapping : ProcFs → InodeProc → Result InodeProc
unfolding read_pids
reread_mapping proc inodeproc = do
  entries ← or_fault exited proc.entries
  read_pids proc inodeproc entries

unfoldable pub find_pid : ProcFs → InodeProc → ℕ → Result (Option PrgNode × InodeProc)
unfolding reread_mapping
find_pid proc inodeproc inode = elim (inodeproc inode) [
  | some node ↦ ok (some node, inodeproc)
  | none ↦ do inodeproc' ← reread_mapping proc inodeproc; ok (inodeproc' inode, inodeproc')
]
