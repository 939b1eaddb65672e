-- ===== src/Inode2Prog/Table.antt =====
-- What a walk through /proc makes of the inode table (src/inode2prog.cpp).
use nethogs.Base.{
  ℕ, ◌≡◌, ◌≢◌, ◌⊎◌, inl, inr, refl, Bool, true, false, ◌&&◌, none, some, Option, List, [], ◌∷◌,
  arith, ok, Result, >>=-eq-ok, if◌then◌else◌, bytes_eq, Bool-cases, Option-cases, exited, or_fault,
  take,
}
use nethogs.Inode2Prog.{
  ProcFs, PidEntry, FdEntry, PrgNode, InodeProc, setnode, getcmdline, socket_prefix, is_number,
  get_info_by_linkname, read_fd, read_fds, get_info_for_pid, read_pids, reread_mapping, find_pid,
  set_inode, needs_node,
}

-- Each node stands under its own inode.
abbrev pub WellKeyed : InodeProc → Type 0
WellKeyed t = (i : ℕ) (n : PrgNode) → t i ≡ some n → n.inode ≡ i

-- The table keeps its form and loses no inode.
pub record Extends (t t' : InodeProc) : Type 0 where
  pub keyed : WellKeyed t → WellKeyed t'
  pub grows : (i : ℕ) → t i ≢ none → t' i ≢ none

Extends-refl : (t : InodeProc) → Extends t t
Extends-refl t = record { keyed = λ k. k; grows = λ i h. h }

Extends-trans : {t u v : InodeProc} → Extends t u → Extends u v → Extends t v
Extends-trans a b = record {
  keyed = λ k. b.keyed (a.keyed k);
  grows = λ i h. b.grows i (a.grows i h);
}

set_inode-Extends :
    (t : InodeProc) (inode : ℕ) (n : PrgNode) → n.inode ≡ inode → Extends t (set_inode t inode n)
set_inode-Extends t inode n e = record {
  keyed = λ k i m h. ground (arith, k i m);
  grows = λ i h. ground (arith, h);
}

ok_eq : {t t' : InodeProc} → ok t ≡ ok t' → Extends t t'
ok_eq {t} {t'} h = let g : t ≡ t' = ground arith in rw (← g) (Extends-refl t)

module _ (proc : ProcFs) where
  pub setnode-Extends :
      (t : InodeProc) (inode pid : ℕ) (t' : InodeProc)
      → setnode proc t inode pid ≡ ok t'
      → Extends t t' × (t' inode ≢ none)
  unfolding setnode
  setnode-Extends t inode pid t' h = elim (Bool-cases (needs_node (t inode) pid)) [
    | inl stale ↦
        let (c, e, f) = >>=-eq-ok (getcmdline proc pid) _ (rw stale at h) in
        let n : PrgNode = record { inode = inode; pid = pid; cmdline = c } in
        let g : set_inode t inode n ≡ t' = ground (arith) in
        (rw (← g) (set_inode-Extends t inode n refl), rw (← g) (ground arith))
    | inr current ↦
        let g : t ≡ t' = ground arith in (rw (← g) (Extends-refl t), rw (← g) (ground arith))
  ]

  pub linkname-Extends :
      (t : InodeProc) (pid l : List ℕ) (t' : InodeProc)
      → get_info_by_linkname proc t pid l ≡ ok t'
      → Extends t t'
  unfolding get_info_by_linkname
  linkname-Extends t pid l t' h = elim (Bool-cases (bytes_eq (take 8 l) socket_prefix)) [
    | inl socket ↦ (setnode-Extends t _ _ t' (rw socket at h)).0
    | inr other ↦ ok_eq (rw other at h)
  ]

  pub target-Extends :
      (t : InodeProc) (pid : List ℕ) (b : Bool) (o : Option (List ℕ)) (t' : InodeProc)
      → read_fd proc t pid (record { is_lnk = b; target = o }) ≡ ok t'
      → Extends t t'
  unfolding read_fd
  target-Extends t pid false o t' h = ok_eq h
  target-Extends t pid true none t' h = ok_eq h
  target-Extends t pid true (some l) t' h = linkname-Extends t pid (take 79 l) t' h

  pub read_fds-Extends :
      (dir : List FdEntry) (t : InodeProc) (pid : List ℕ) (t' : InodeProc)
      → read_fds proc t pid dir ≡ ok t'
      → Extends t t'
  unfolding read_fds
  read_fds-Extends [] t pid t' h = ok_eq h
  read_fds-Extends (f ∷ dir) t pid t' h =
      let (u, e, r) = >>=-eq-ok (read_fd proc t pid f) _ h in
      Extends-trans (target-Extends t pid f.is_lnk f.target u e) (read_fds-Extends dir u pid t' r)

  pid-Extends :
      (t : InodeProc) (name : List ℕ) (d : Bool) (o : Option (List FdEntry)) (t' : InodeProc)
      → get_info_for_pid proc t (record { d_name = name; is_dir = d; fds = o }) ≡ ok t'
      → Extends t t'
  unfolding get_info_for_pid
  pid-Extends t name d none t' h = ok_eq h
  pid-Extends t name d (some dir) t' h = read_fds-Extends dir t name t' h

  -- One round of the loop of reread_mapping.
  abbrev pub visit : InodeProc → PidEntry → Result InodeProc
  visit t e = if e.is_dir && is_number e.d_name then get_info_for_pid proc t e else ok t

  pub visit-Extends :
      (t : InodeProc) (e : PidEntry) (t' : InodeProc) → visit t e ≡ ok t' → Extends t t'
  visit-Extends t e t' h = elim (Bool-cases (e.is_dir && is_number e.d_name)) [
    | inl pid ↦ pid-Extends t e.d_name e.is_dir e.fds t' (rw pid at h)
    | inr other ↦ ok_eq (rw other at h)
  ]

  pub read_pids-Extends :
      (es : List PidEntry) (t : InodeProc) (t' : InodeProc)
      → read_pids proc t es ≡ ok t'
      → Extends t t'
  unfolding read_pids
  read_pids-Extends [] t t' h = ok_eq h
  read_pids-Extends (e ∷ es) t t' h =
      let (u, v, r) = >>=-eq-ok (visit t e) _ h in
      Extends-trans (visit-Extends t e u v) (read_pids-Extends es u t' r)

  pub reread_mapping-Extends : (t t' : InodeProc) → reread_mapping proc t ≡ ok t' → Extends t t'
  unfolding reread_mapping
  reread_mapping-Extends t t' h =
      let (es, e, r) = >>=-eq-ok (or_fault exited proc.entries) _ h in read_pids-Extends es t t' r

  -- A walk through /proc that ends well leaves each node under its own inode, if each was before.
  pub reread_mapping_keyed :
      (t t' : InodeProc) (i : ℕ) (n : PrgNode)
      → WellKeyed t
      → reread_mapping proc t ≡ ok t'
      → t' i ≡ some n
      → n.inode ≡ i
  reread_mapping_keyed t t' i n k h = (reread_mapping-Extends t t' h).keyed k i n

  -- A walk through /proc that ends well loses no inode.
  pub reread_mapping_grows :
      (t t' : InodeProc) (i : ℕ) → reread_mapping proc t ≡ ok t' → t i ≢ none → t' i ≢ none
  reread_mapping_grows t t' i h = (reread_mapping-Extends t t' h).grows i

  -- findPID answers with the node under the inode in the table that it leaves. A node that is
  -- already there is given with no walk; otherwise the table is the one after a walk.
  pub find_pid_cases :
      (t : InodeProc) (inode : ℕ) (o : Option PrgNode) (t' : InodeProc)
      → find_pid proc t inode ≡ ok (o, t')
      → (o ≡ t' inode)
        × (((t inode ≢ none) × (t' ≡ t)) ⊎ ((t inode ≡ none) × (reread_mapping proc t ≡ ok t')))
  unfolding find_pid
  find_pid_cases t inode o t' h = elim (Option-cases (t inode)) [
    | inl new ↦
        let (u, e, f) = >>=-eq-ok (reread_mapping proc t) _ (rw (new, find_pid) at h) in
        let g : u ≡ t' = ground arith in (ground arith, inr (new, rw (← g) e))
    | inr (n, old) ↦
        let e : ok (some n, t) ≡ ok (o, t') = rw (old, find_pid) at h in
        (ground arith, inl (ground arith, ground arith))
  ]
