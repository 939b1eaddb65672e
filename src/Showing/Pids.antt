-- ===== src/Showing/Pids.antt =====
-- The process ids of the nodes that a walk through /proc makes (src/inode2prog.cpp).
use nethogs.Base.{
  ℕ, ◌≡◌, ◌∙◌, refl, Bool, true, false, ◌&&◌, Option, none, some, List, [], ◌∷◌, All, ◌==◌, take,
  drop, bytes_eq, exited, or_fault, Leaves, Leaves-bind, Leaves-then, Bool-cases, Option-cases, inl,
  inr, arith,
}
use nethogs.Inode2Prog.{
  InodeProc, PidEntry, FdEntry, PrgNode, ProcFs, getcmdline, set_inode, needs_node, setnode,
  socket_prefix, get_info_by_linkname, read_fd, read_fds, get_info_for_pid, read_pids,
  reread_mapping, find_pid, is_number, str2ulong, str2int,
}
use nethogs.Cui.Line.{Fits}
use nethogs.Showing.{PidsFit, Numbered}

set_inode-Numbered :
    (t : InodeProc) (inode : ℕ) (node : PrgNode)
    → Fits node.pid
    → Numbered t
    → Numbered (set_inode t inode node)
set_inode-Numbered t inode node f n i other e = elim (Bool-cases (inode == i)) [
  | inl here ↦ let same : node ≡ other = ground (arith, here) in rw (← same) f
  | inr there ↦ n i other (rw there at e)
]

abbrev EntriesFit : List PidEntry → Type 0
EntriesFit = All (λ e. is_number e.d_name ≡ true → Fits (str2int e.d_name))

opened-Leaves :
    {A : Type 0} (P : A → Type 0) (o : Option A)
    → ((a : A) → o ≡ some a → P a)
    → Leaves P (or_fault exited o)
opened-Leaves P none all = tt
opened-Leaves P (some a) all = all a refl

module _ (proc : ProcFs) where
  setnode-Numbered :
      (t : InodeProc) (inode pid : ℕ)
      → Fits pid
      → Numbered t
      → Leaves Numbered (setnode proc t inode pid)
  unfolding setnode
  setnode-Numbered t inode pid f n = elim (Bool-cases (needs_node (t inode) pid)) [
    | inl new ↦
        rw (new, setnode)
          (Leaves-then Numbered (getcmdline proc pid) _ (λ cmdline.
            set_inode-Numbered t inode (record { inode = inode; pid = pid; cmdline = cmdline }) f
              n))
    | inr old ↦ rw (old, setnode) n
  ]

  linkname-Numbered :
      (t : InodeProc) (pid l : List ℕ)
      → Fits (str2int pid)
      → Numbered t
      → Leaves Numbered (get_info_by_linkname proc t pid l)
  unfolding get_info_by_linkname
  linkname-Numbered t pid l f n = elim (Bool-cases (bytes_eq (take 8 l) socket_prefix)) [
    | inl socket ↦ rw socket (setnode-Numbered t (str2ulong (drop 8 l)) (str2int pid) f n)
    | inr other ↦ rw other n
  ]

  read_fd-Numbered :
      (t : InodeProc) (pid : List ℕ) (b : Bool) (o : Option (List ℕ))
      → Fits (str2int pid)
      → Numbered t
      → Leaves Numbered (read_fd proc t pid (record { is_lnk = b; target = o }))
  unfolding read_fd
  read_fd-Numbered t pid false o f n = n
  read_fd-Numbered t pid true none f n = n
  read_fd-Numbered t pid true (some l) f n = linkname-Numbered t pid (take 79 l) f n

  read_fds-Numbered :
      (dir : List FdEntry) (t : InodeProc) (pid : List ℕ)
      → Fits (str2int pid)
      → Numbered t
      → Leaves Numbered (read_fds proc t pid dir)
  unfolding read_fds
  read_fds-Numbered [] t pid f n = n
  read_fds-Numbered (d ∷ dir) t pid f n =
      Leaves-bind Numbered Numbered (read_fd proc t pid d) _
        (read_fd-Numbered t pid d.is_lnk d.target f n) (λ u k. read_fds-Numbered dir u pid f k)

  pid-Numbered :
      (t : InodeProc) (name : List ℕ) (d : Bool) (o : Option (List FdEntry))
      → Fits (str2int name)
      → Numbered t
      → Leaves Numbered (get_info_for_pid proc t (record { d_name = name; is_dir = d; fds = o }))
  unfolding get_info_for_pid
  pid-Numbered t name d none f n = n
  pid-Numbered t name d (some dir) f n = read_fds-Numbered dir t name f n

  read_pids-Numbered :
      (es : List PidEntry) (t : InodeProc)
      → EntriesFit es
      → Numbered t
      → Leaves Numbered (read_pids proc t es)
  unfolding read_pids
  read_pids-Numbered [] t f n = n
  read_pids-Numbered (e ∷ es) t f n =
      Leaves-bind Numbered Numbered _ _
        (elim (Bool-cases (e.is_dir && is_number e.d_name)) [
          | inl visit ↦
              let digits : is_number e.d_name ≡ true = ground (arith, visit) in
              rw visit (pid-Numbered t e.d_name e.is_dir e.fds (f.0 digits) n)
          | inr pass ↦ rw pass n
        ])
        (λ u k. read_pids-Numbered es u f.1 k)

  pub reread_mapping-Numbered :
      (t : InodeProc) → PidsFit proc → Numbered t → Leaves Numbered (reread_mapping proc t)
  unfolding reread_mapping
  reread_mapping-Numbered t fit n =
      Leaves-bind EntriesFit Numbered (or_fault exited proc.entries) _
        (opened-Leaves EntriesFit proc.entries fit) (λ es f. read_pids-Numbered es t f n)

  -- The node that is found is one of the table.
  pub find_pid-Numbered :
      (t : InodeProc) (inode : ℕ)
      → PidsFit proc
      → Numbered t
      → Leaves
          (λ (x : Option PrgNode × InodeProc).
            Numbered x.1 × ((node : PrgNode) → x.0 ≡ some node → Fits node.pid))
          (find_pid proc t inode)
  unfolding find_pid
  find_pid-Numbered t inode fit n = elim (Option-cases (t inode)) [
    | inl new ↦
        rw (new, find_pid)
          (Leaves-bind Numbered _ (reread_mapping proc t) _ (reread_mapping-Numbered t fit n)
            (λ u k. (k, k inode)))
    | inr (found, old) ↦ rw (old, find_pid) (n, λ node e. n inode node (old ∙ e))
  ]
