-- ===== src/Inode2Prog/Coverage.antt =====
-- The sockets that a walk through /proc finds (src/inode2prog.cpp).
use nethogs.Base.{
  ℕ, ◌<◌, ◌^◌, ◌≡◌, ◌≢◌, inl, inr, ◌∙◌, sym, ap, Bool, true, none, some, Option, List, [], ◌∷◌,
  ◌++◌, arith, In, ok, >>=-eq-ok, take, length-append, take_of_length-le,
}
use nethogs.Packet.{decimal}
use nethogs.Inode2Prog.{
  ProcFs, PidEntry, FdEntry, InodeProc, socket_prefix, get_info_by_linkname, read_fd, read_fds,
  get_info_for_pid, read_pids, reread_mapping,
}
use nethogs.Inode2Prog.Text.{length-decimal, socket_link-setnode, is_number-decimal}
use nethogs.Inode2Prog.Table.{setnode-Extends, read_fds-Extends, read_pids-Extends, visit}

-- "socket:[<inode>]"
abbrev pub socket_link : ℕ → List ℕ
socket_link inode = socket_prefix ++ (decimal inode ++ b']' ∷ [])

-- The process `pid` has this entry in /proc, and its directory of descriptors this link.
pub record Opens (pid inode : ℕ) (e : PidEntry) (dir : List FdEntry) (f : FdEntry) : Type 0 where
  pub named : e.d_name ≡ decimal pid
  pub directory : e.is_dir ≡ true
  pub opened : e.fds ≡ some dir
  pub listed : In f dir
  pub link : f.is_lnk ≡ true
  pub leads : f.target ≡ some (socket_link inode)
  pub inode_fits : inode < 2 ^ 64
  pub pid_fits : pid < 2 ^ 31

module _ (proc : ProcFs) where
  socket_fits : (inode : ℕ) → take 79 (socket_link inode) ≡ socket_link inode
  socket_fits inode =
      take_of_length-le 79 (socket_link inode)
        (omega (arith, length-decimal inode, length-append (decimal inode) (b']' ∷ [])))

  read_link :
      (t : InodeProc) (pid l : List ℕ) (b : Bool) (o : Option (List ℕ))
      → b ≡ true
      → o ≡ some l
      → take 79 l ≡ l
      → read_fd proc t pid (record { is_lnk = b; target = o }) ≡ get_info_by_linkname proc t pid l
  unfolding read_fd
  read_link t pid l b o e f g = rw (e, f, read_fd) (ap (get_info_by_linkname proc t pid) g)

  read_fd_has :
      (f : FdEntry) (inode : ℕ) (t : InodeProc) (pid : ℕ) (t' : InodeProc)
      → f.is_lnk ≡ true
      → f.target ≡ some (socket_link inode)
      → inode < 2 ^ 64
      → pid < 2 ^ 31
      → read_fd proc t (decimal pid) f ≡ ok t'
      → t' inode ≢ none
  read_fd_has f inode t pid t' lnk tgt h k r =
      let e =
        read_link t (decimal pid) (socket_link inode) f.is_lnk f.target lnk tgt
          (socket_fits inode) in
      (setnode-Extends proc t inode pid t'
        (sym (socket_link-setnode proc t pid inode h k) ∙ sym e ∙ r)).1

  -- A link of the directory that is a socket has its inode in the table afterwards.
  read_fds_has :
      (dir : List FdEntry) (f : FdEntry) (inode : ℕ) (t : InodeProc) (pid : ℕ) (t' : InodeProc)
      → In f dir
      → f.is_lnk ≡ true
      → f.target ≡ some (socket_link inode)
      → inode < 2 ^ 64
      → pid < 2 ^ 31
      → read_fds proc t (decimal pid) dir ≡ ok t'
      → t' inode ≢ none
  unfolding read_fds
  read_fds_has [] f inode t pid t' m lnk tgt h k r = absurd m
  read_fds_has (g ∷ dir) f inode t pid t' (inl here) lnk tgt h k r =
      let (u, e, r') = >>=-eq-ok (read_fd proc t (decimal pid) g) _ r in
      (read_fds-Extends proc dir u (decimal pid) t' r').grows inode
        (read_fd_has g inode t pid u (rw here lnk) (rw here tgt) h k e)
  read_fds_has (g ∷ dir) f inode t pid t' (inr later) lnk tgt h k r =
      let (u, e, r') = >>=-eq-ok (read_fd proc t (decimal pid) g) _ r in
      read_fds_has dir f inode u pid t' later lnk tgt h k r'

  visit_has :
      (pid inode : ℕ) (e : PidEntry) (dir : List FdEntry) (f : FdEntry) (t t' : InodeProc)
      → Opens pid inode e dir f
      → visit proc t e ≡ ok t'
      → t' inode ≢ none
  unfolding get_info_for_pid
  visit_has pid inode e dir f t t' o h =
      read_fds_has dir f inode t pid t' o.listed o.link o.leads o.inode_fits o.pid_fits
        (rw o.named at (rw (o.directory, o.named, is_number-decimal pid, o.opened) at h))

  read_pids_has :
      (es : List PidEntry) (pid inode : ℕ) (e : PidEntry) (dir : List FdEntry) (f : FdEntry)
      (t t' : InodeProc)
      → In e es
      → Opens pid inode e dir f
      → read_pids proc t es ≡ ok t'
      → t' inode ≢ none
  unfolding read_pids
  read_pids_has [] pid inode e dir f t t' m o h = absurd m
  read_pids_has (d ∷ es) pid inode e dir f t t' (inl here) o h =
      let (u, v, r) = >>=-eq-ok (visit proc t d) _ h in
      (read_pids-Extends proc es u t' r).grows inode
        (visit_has pid inode e dir f t u o (rw here at v))
  read_pids_has (d ∷ es) pid inode e dir f t t' (inr later) o h =
      let (u, v, r) = >>=-eq-ok (visit proc t d) _ h in
      read_pids_has es pid inode e dir f u t' later o r

  -- After such a walk every socket that a process in the snapshot has open has a node: a process
  -- directory with a decimal name, whose fd directory lists a link "socket:[<inode>]".
  pub reread_mapping_has :
      (es : List PidEntry) (pid inode : ℕ) (e : PidEntry) (dir : List FdEntry) (f : FdEntry)
      (t t' : InodeProc)
      → proc.entries ≡ some es
      → In e es
      → Opens pid inode e dir f
      → reread_mapping proc t ≡ ok t'
      → t' inode ≢ none
  unfolding reread_mapping
  reread_mapping_has es pid inode e dir f t t' a m o h =
      read_pids_has es pid inode e dir f t t' m o (rw (a, reread_mapping) at h)
