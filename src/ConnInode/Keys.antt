-- ===== src/ConnInode/Keys.antt =====
-- What a refresh writes into the connection table (src/conninode.cpp).
use nethogs.Base.{
  ℕ, ◌≡◌, ◌≢◌, refl, Bool, false, ◌||◌, Option, none, some, List, [], ◌∷◌, map, arith, ok, ◌==◌,
  bytes_eq, if◌then◌else◌, >>=-eq-ok, or_fault, exited, drop, guard,
}
use nethogs.LocalAddr.{AddressText, LocalAddr, Family, af_unspec, af_inet, af_inet6}
use nethogs.Packet.{Packet, hashkey}
use nethogs.ConnInode.{
  ConnTable, Row, Words, Addr, addr4, addr6, ProcNet, decode, addr_text, add_local_keys, add_row,
  addtoconninode, add_lines, addprocinfo, refreshconninode, scan_row, set_conn,
}

pub elem : List ℕ → List (List ℕ) → Bool
elem k [] = false
elem k (x ∷ xs) = bytes_eq x k || elem k xs

module _ (net : AddressText) (buf : List ℕ) (raw : Words) (local_addrs : List LocalAddr) where
  -- The local ends under which a row is put down: its own and every address of the machine.
  unfoldable pub local_ends : Row → List (List ℕ)
  local_ends row = addr_text net buf (decode raw row).0 ∷ map (λ l. l.string) local_addrs

  unfoldable pub row_keys : Row → List (List ℕ)
  unfolding local_ends
  row_keys row =
      map (λ s. hashkey s row.local_port (addr_text net buf (decode raw row).1) row.rem_port)
        (local_ends row)

  local_keys-lookup :
      (lp rp inode : ℕ) (remote : List ℕ) (ls : List LocalAddr) (t : ConnTable) (k : List ℕ)
      → add_local_keys lp rp remote inode ls t k ≡ (
          if elem k (map (λ s. hashkey s lp remote rp) (map (λ l. l.string) ls))
          then inode
          else t k)
  unfolding add_local_keys elem
  local_keys-lookup lp rp inode remote [] t k = refl
  local_keys-lookup lp rp inode remote (l ∷ ls) t k = ground (
    arith,
    local_keys-lookup lp rp inode remote ls (set_conn t (hashkey l.string lp remote rp) inode) k,
  )

  -- A row of a socket with an inode is put down under exactly its keys, those of its own address
  -- and of every address of the machine; one without (TIME_WAIT) changes nothing.
  pub add_row-lookup :
      (t : ConnTable) (row : Row) (k : List ℕ)
      → add_row net buf raw local_addrs t row k
        ≡ (if row.inode == 0 then t k else (if elem k (row_keys row) then row.inode else t k))
  unfolding add_row elem row_keys local_ends
  add_row-lookup t row k = ground (
    arith,
    local_keys-lookup row.local_port row.rem_port row.inode (addr_text net buf (decode raw row).1)
        local_addrs
        (set_conn t
          (hashkey (addr_text net buf (decode raw row).0) row.local_port
            (addr_text net buf (decode raw row).1) row.rem_port)
          row.inode)
        k,
  )

  row_keeps :
      (t : ConnTable) (row : Row) (k : List ℕ)
      → t k ≢ 0
      → add_row net buf raw local_addrs t row k ≢ 0
  row_keeps t row k h = ground (arith, add_row-lookup t row k)

  lines_keep :
      (lines : List (List ℕ)) (t t' : ConnTable) (k : List ℕ)
      → add_lines net buf raw local_addrs t lines ≡ ok t'
      → t k ≢ 0
      → t' k ≢ 0
  unfolding add_lines addtoconninode
  lines_keep [] t t' k e h = let f : t ≡ t' = ground arith in rw (← f) h
  lines_keep (line ∷ lines) t t' k e h =
      let (u, f, g) = >>=-eq-ok (addtoconninode net buf raw local_addrs t line) _ e in
      let (r, p, q) = >>=-eq-ok (or_fault exited (scan_row line)) _ f in
      let v : add_row net buf raw local_addrs t r.0 ≡ u = ground arith in
      lines_keep lines u t' k g (rw (← v) (row_keeps t r.0 k h))

  file_keeps :
      (file : Option (List (List ℕ))) (t : ConnTable) (b : Bool) (t' : ConnTable) (k : List ℕ)
      → addprocinfo net buf raw local_addrs t file ≡ ok (b, t')
      → t k ≢ 0
      → t' k ≢ 0
  unfolding addprocinfo
  file_keeps none t b t' k e h = let f : t ≡ t' = ground arith in rw (← f) h
  file_keeps (some lines) t b t' k e h =
      let (u, f, g) = >>=-eq-ok (add_lines net buf raw local_addrs t (drop 1 lines)) _ e in
      let v : u ≡ t' = ground arith in rw (← v) (lines_keep (drop 1 lines) t u k f h)

  -- A refresh that ends well forgets no connection: a key that had an inode has one afterwards.
  pub refresh_keeps :
      (files : ProcNet) (t t' : ConnTable) (k : List ℕ)
      → refreshconninode net buf raw local_addrs files t ≡ ok t'
      → t k ≢ 0
      → t' k ≢ 0
  unfolding refreshconninode
  refresh_keeps files t t' k e h =
      let (u, f, g) = >>=-eq-ok (addprocinfo net buf raw local_addrs t files.tcp) _ e in
      let (x, o, g') = >>=-eq-ok (guard u.0 exited) _ g in
      let (v, f', g'') = >>=-eq-ok (addprocinfo net buf raw local_addrs u.1 files.tcp6) _ g' in
      let w : v.1 ≡ t' = ground arith in
      rw (← w) (file_keeps files.tcp6 u.1 v.0 v.1 k f' (file_keeps files.tcp t u.0 u.1 k f h))

  -- The addresses of the row are those of the packet, in its family.
  abbrev pub HasEnds : Family → Addr × Addr → Packet → Type 0
  HasEnds af_inet (a, b) p = (a ≡ addr4 p.sip) × (b ≡ addr4 p.dip)
  HasEnds af_inet6 (a, b) p = (a ≡ addr6 p.sip6) × (b ≡ addr6 p.dip6)
  HasEnds af_unspec (a, b) p = ⊥

  abbrev plain_text : Addr → List ℕ
  plain_text (addr4 a) = net.text a
  plain_text (addr6 a) = net.text6 a
