-- ===== src/Safety.antt =====
-- What a call may come to, and the calls that read /proc (src/inode2prog.cpp, src/conninode.cpp).
pub mod Invariant
pub mod Lists
pub mod Searches
pub mod Processes
pub mod Packets
pub mod Sums
pub mod Removed
pub mod Refresh
pub mod Run
pub mod Terminal
pub mod Modes
use nethogs.Base.{
  Leaves, ℕ, ◌≡◌, Bool, true, false, Option, none, some, List, [], ◌∷◌, Result, ok, fault, Fault,
  assertion, null_pointer, dangling, out_of_bounds, exited, ◌>>=◌, ◌>>◌, or_fault, Bool-cases,
  Option-cases, drop, take, ◌&&◌, inl, inr, arith, guard,
}
use nethogs.LocalAddr.{LocalAddr, AddressText}
use nethogs.Inode2Prog.{
  ProcFs, PidEntry, FdEntry, InodeProc, getcmdline, setnode, get_info_by_linkname, read_fd,
  read_fds, get_info_for_pid, read_pids, reread_mapping, find_pid, is_number, str2ulong, str2int,
}
use nethogs.ConnInode.{
  ConnTable, Words, ProcNet, addtoconninode, add_lines, addprocinfo, refreshconninode, scan_row,
}

-- A call ends with a result of which P holds, or it ends the program: by `exit`, or by the read past
-- the end of a command line that the code leaves open.
abbrev pub Safely : {A : Type 0} → (A → Type 0) → Result A → Type 0
Safely P (ok a) = P a
Safely P (fault exited) = Unit
Safely P (fault out_of_bounds) = Unit
Safely P (fault assertion) = ⊥
Safely P (fault null_pointer) = ⊥
Safely P (fault dangling) = ⊥

pub Safely-bind :
    {A B : Type 0} (P : A → Type 0) (Q : B → Type 0) (m : Result A) (f : A → Result B)
    → Safely P m
    → ((a : A) → P a → Safely Q (f a))
    → Safely Q (m >>= f)
Safely-bind P Q (ok a) f h k = k a h
Safely-bind P Q (fault exited) f h k = tt
Safely-bind P Q (fault out_of_bounds) f h k = tt
Safely-bind P Q (fault assertion) f h k = h
Safely-bind P Q (fault null_pointer) f h k = h
Safely-bind P Q (fault dangling) f h k = h

pub Safely-Leaves : {A : Type 0} (P : A → Type 0) (m : Result A) → Safely P m → Leaves P m
Safely-Leaves P (ok a) h = h
Safely-Leaves P (fault e) h = tt

-- A call in which nothing goes wrong, and what it leaves besides.
pub Safely-both :
    {A : Type 0} (P Q : A → Type 0) (m : Result A)
    → Safely P m
    → Leaves Q m
    → Safely (λ a. P a × Q a) m
Safely-both P Q (ok a) h k = (h, k)
Safely-both P Q (fault exited) h k = tt
Safely-both P Q (fault out_of_bounds) h k = tt
Safely-both P Q (fault assertion) h k = h
Safely-both P Q (fault null_pointer) h k = h
Safely-both P Q (fault dangling) h k = h

abbrev pub Anything : {A : Type 0} → A → Type 0
Anything a = Unit

exits : {A : Type 0} (o : Option A) → Safely Anything (or_fault exited o)
exits none = tt
exits (some a) = tt

pub guard-Safely : (b : Bool) → Safely Anything (guard b exited)
guard-Safely true = tt
guard-Safely false = tt

module _ (proc : ProcFs) where
  getcmdline-Safely : (pid : ℕ) → Safely Anything (getcmdline proc pid)
  unfolding getcmdline
  getcmdline-Safely pid = ground arith

  setnode-Safely : (t : InodeProc) (inode pid : ℕ) → Safely Anything (setnode proc t inode pid)
  unfolding setnode
  setnode-Safely t inode pid = ground (arith, getcmdline-Safely pid)

  linkname-Safely :
      (t : InodeProc) (pid l : List ℕ) → Safely Anything (get_info_by_linkname proc t pid l)
  unfolding get_info_by_linkname
  linkname-Safely t pid l = ground (arith, setnode-Safely t (str2ulong (drop 8 l)) (str2int pid))

  read_fd-Safely :
      (t : InodeProc) (pid : List ℕ) (b : Bool) (o : Option (List ℕ))
      → Safely Anything (read_fd proc t pid (record { is_lnk = b; target = o }))
  unfolding read_fd
  read_fd-Safely t pid false o = tt
  read_fd-Safely t pid true none = tt
  read_fd-Safely t pid true (some l) = linkname-Safely t pid (take 79 l)

  read_fds-Safely :
      (dir : List FdEntry) (t : InodeProc) (pid : List ℕ)
      → Safely Anything (read_fds proc t pid dir)
  unfolding read_fds
  read_fds-Safely [] t pid = tt
  read_fds-Safely (f ∷ dir) t pid =
      Safely-bind Anything Anything (read_fd proc t pid f) _
        (read_fd-Safely t pid f.is_lnk f.target) (λ u _. read_fds-Safely dir u pid)

  pid-Safely :
      (t : InodeProc) (name : List ℕ) (d : Bool) (o : Option (List FdEntry))
      → Safely Anything (get_info_for_pid proc t (record { d_name = name; is_dir = d; fds = o }))
  unfolding get_info_for_pid
  pid-Safely t name d none = tt
  pid-Safely t name d (some dir) = read_fds-Safely dir t name

  read_pids-Safely : (es : List PidEntry) (t : InodeProc) → Safely Anything (read_pids proc t es)
  unfolding read_pids
  read_pids-Safely [] t = tt
  read_pids-Safely (e ∷ es) t =
      Safely-bind Anything Anything _ _
        (elim (Bool-cases (e.is_dir && is_number e.d_name)) [
          | inl visit ↦ rw visit (pid-Safely t e.d_name e.is_dir e.fds)
          | inr pass ↦ rw pass tt
        ])
        (λ u _. read_pids-Safely es u)

  pub reread_mapping-Safely : (t : InodeProc) → Safely Anything (reread_mapping proc t)
  unfolding reread_mapping
  reread_mapping-Safely t =
      Safely-bind Anything Anything (or_fault exited proc.entries) _ (exits proc.entries)
        (λ es _. read_pids-Safely es t)

  pub find_pid-Safely : (t : InodeProc) (inode : ℕ) → Safely Anything (find_pid proc t inode)
  unfolding find_pid
  find_pid-Safely t inode = elim (Option-cases (t inode)) [
    | inl new ↦
        rw (new, find_pid)
          (Safely-bind Anything Anything (reread_mapping proc t) _ (reread_mapping-Safely t)
            (λ u _. tt))
    | inr (n, old) ↦ rw (old, find_pid) tt
  ]

module _ (net : AddressText) (buf : List ℕ) (raw : Words) (local_addrs : List LocalAddr) where
  lines-Safely :
      (lines : List (List ℕ)) (t : ConnTable)
      → Safely Anything (add_lines net buf raw local_addrs t lines)
  unfolding add_lines addtoconninode
  lines-Safely [] t = tt
  lines-Safely (line ∷ lines) t =
      Safely-bind Anything Anything (addtoconninode net buf raw local_addrs t line) _
        (Safely-bind Anything Anything (or_fault exited (scan_row line)) _ (exits (scan_row line))
          (λ r _. tt))
        (λ u _. lines-Safely lines u)

  file-Safely :
      (file : Option (List (List ℕ))) (t : ConnTable)
      → Safely Anything (addprocinfo net buf raw local_addrs t file)
  unfolding addprocinfo
  file-Safely none t = tt
  file-Safely (some lines) t =
      Safely-bind Anything Anything (add_lines net buf raw local_addrs t (drop 1 lines)) _
        (lines-Safely (drop 1 lines) t) (λ u _. tt)

  pub refreshconninode-Safely :
      (files : ProcNet) (t : ConnTable)
      → Safely Anything (refreshconninode net buf raw local_addrs files t)
  unfolding refreshconninode
  refreshconninode-Safely files t =
      Safely-bind Anything Anything (addprocinfo net buf raw local_addrs t files.tcp) _
        (file-Safely files.tcp t)
        (λ u _. Safely-bind Anything Anything (guard u.0 exited) _ (guard-Safely u.0) (λ x _.
          Safely-bind Anything Anything (addprocinfo net buf raw local_addrs u.1 files.tcp6) _
            (file-Safely files.tcp6 u.1) (λ v _. tt)))
