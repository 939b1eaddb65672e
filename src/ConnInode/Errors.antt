-- ===== src/ConnInode/Errors.antt =====
-- When a reading of the connections ends the program (refreshconninode, src/conninode.cpp).
use nethogs.Base.{
  ℕ, ◌≡◌, refl, Bool, true, false, ◌&&◌, Option, none, some, List, [], ◌∷◌, drop, Result, ok, fault,
  exited, or_fault, ◌>>=◌, Bool-cases, inl, inr,
}
use nethogs.LocalAddr.{AddressText, LocalAddr}
use nethogs.ConnInode.{
  ConnTable, Words, ProcNet, addtoconninode, add_lines, addprocinfo, refreshconninode, scan_row,
}

abbrev is_there {ℓ} : {A : Type ℓ} → Option A → Bool
is_there none = false
is_there (some a) = true

-- Each line has a row.
abbrev all_scan : List (List ℕ) → Bool
all_scan [] = true
all_scan (line ∷ lines) = is_there (scan_row line) && all_scan lines

-- The file cannot be opened, or each line but the first has a row.
abbrev fine : Option (List (List ℕ)) → Bool
fine none = true
fine (some lines) = all_scan (drop 1 lines)

-- /proc/net/tcp can be opened, and both files are fine.
abbrev pub readable : ProcNet → Bool
readable files = is_there files.tcp && (fine files.tcp && fine files.tcp6)

-- A result, or the end of the program.
abbrev pub Ends {ℓ} : {A : Type ℓ} → Bool → Result A → Type ℓ
Ends true r = (a : _) × (r ≡ ok a)
Ends false r = r ≡ fault exited

Ends-bind :
    {A B : Type 0} (b c : Bool) (m : Result A) (f : A → Result B)
    → Ends b m
    → ((a : A) → Ends c (f a))
    → Ends (b && c) (m >>= f)
Ends-bind true c m f (a, e) k = rw e (k a)
Ends-bind false c m f e k = rw e refl

Ends-then :
    {A B : Type 0} (b : Bool) (m : Result A) (f : A → B) → Ends b m → Ends b (m >>= λ a. ok (f a))
Ends-then true m f (a, e) = (f a, rw e refl)
Ends-then false m f e = rw e refl

or_fault-Ends : {A : Type 0} (o : Option A) → Ends (is_there o) (or_fault exited o)
or_fault-Ends none = refl
or_fault-Ends (some a) = (a, refl)

module _ (net : AddressText) (buf : List ℕ) (raw : Words) (local_addrs : List LocalAddr) where
  line-Ends :
      (t : ConnTable) (line : List ℕ)
      → Ends (is_there (scan_row line)) (addtoconninode net buf raw local_addrs t line)
  unfolding addtoconninode
  line-Ends t line =
      Ends-then (is_there (scan_row line)) (or_fault exited (scan_row line)) _
        (or_fault-Ends (scan_row line))

  lines-Ends :
      (lines : List (List ℕ)) (t : ConnTable)
      → Ends (all_scan lines) (add_lines net buf raw local_addrs t lines)
  unfolding add_lines
  lines-Ends [] t = (t, refl)
  lines-Ends (line ∷ lines) t =
      Ends-bind (is_there (scan_row line)) (all_scan lines)
        (addtoconninode net buf raw local_addrs t line) _ (line-Ends t line) (lines-Ends lines)

  file-Ends :
      (file : Option (List (List ℕ))) (t : ConnTable)
      → Ends (fine file) (addprocinfo net buf raw local_addrs t file)
  unfolding addprocinfo
  file-Ends none t = (_, refl)
  file-Ends (some lines) t =
      Ends-then (all_scan (drop 1 lines)) (add_lines net buf raw local_addrs t (drop 1 lines)) _
        (lines-Ends (drop 1 lines) t)

  files-Ends :
      (tcp tcp6 : Option (List (List ℕ))) (t : ConnTable)
      → Ends
          (is_there tcp && (fine tcp && fine tcp6))
          (refreshconninode net buf raw local_addrs (record { tcp = tcp; tcp6 = tcp6 }) t)
  unfolding refreshconninode addprocinfo
  files-Ends none tcp6 t = refl
  files-Ends (some lines) tcp6 t = elim (Bool-cases (all_scan (drop 1 lines))) [
    | inl good ↦
        let (t', e) = rw good at (lines-Ends (drop 1 lines) t) in
        rw (good, e)
          (Ends-then (fine tcp6) (addprocinfo net buf raw local_addrs t' tcp6) _
            (file-Ends tcp6 t'))
    | inr bad ↦ let e = rw bad at (lines-Ends (drop 1 lines) t) in rw (bad, e) refl
  ]

  -- A reading of the connections ends the program exactly if /proc/net/tcp cannot be opened, or a
  -- line of it or of /proc/net/tcp6, behind the first, has no row; otherwise it gives a table.
  pub refreshconninode-Ends :
      (files : ProcNet) (t : ConnTable)
      → Ends (readable files) (refreshconninode net buf raw local_addrs files t)
  refreshconninode-Ends files t = files-Ends files.tcp files.tcp6 t
