-- ===== src/Inode2Prog/Reading.antt =====
-- The reading of a file (both read_file of src/inode2prog.cpp), by what open, read and close answer.
use nethogs.Base.{
  ℕ, ◌≡◌, refl, ap, ◌∙◌, Bool, true, not, Option, none, some, List, [], ◌∷◌, ◌++◌, map, All, ◌⊎◌,
  inl, inr, ok, if◌then◌else◌,
}
use nethogs.Inode2Prog.{PidEntry, ProcFs, getcmdline}
use nethogs.Inode2Prog.Cmdline.{NoNull, nulled, command_line, getcmdline-command_line}

-- What the calls answer for a path: whether open and close succeed, and the answers of read, of
-- which `none` is an error and an empty one the end of the file.
pub record Answers : Type 0 where
  pub opens : Bool
  pub reads : List (Option (List ℕ))
  pub closes : Bool

-- The loop of read_file over a descriptor. An error ends it like the end of the file: the test for
-- one stands in its body.
unfoldable pub read_loop : List (Option (List ℕ)) → List ℕ
read_loop [] = []
read_loop (none ∷ reads) = []
read_loop (some [] ∷ reads) = []
read_loop (some (c ∷ buf) ∷ reads) = (c ∷ buf) ++ read_loop reads

-- read_file of a path; `none` ends the program.
unfoldable pub read_file : Answers → Option (List ℕ)
unfolding read_loop
read_file file =
    if not file.opens then none else if not file.closes then none else some (read_loop file.reads)

-- /proc, where /proc/<pid>/cmdline is read by these answers.
abbrev pub proc_of : Option (List PidEntry) → (ℕ → Answers) → ProcFs
unfolding read_file
proc_of entries files = record { entries = entries; cmdline_file = λ pid. read_file (files pid) }

abbrev pub IsPiece : List ℕ → Type 0
IsPiece piece = (c : ℕ) × (buf : List ℕ) × (piece ≡ c ∷ buf)

abbrev pub joined : List (List ℕ) → List ℕ
joined [] = []
joined (piece ∷ pieces) = piece ++ joined pieces

-- The text is what was read up to the end of the file or up to an error alike.
read_loop-joined :
    (pieces : List (List ℕ)) (last : Option (List ℕ)) (reads : List (Option (List ℕ)))
    → All IsPiece pieces
    → (last ≡ none) ⊎ (last ≡ some [])
    → read_loop (map some pieces ++ (last ∷ reads)) ≡ joined pieces
unfolding read_loop
read_loop-joined [] last reads h (inl error) = rw error refl
read_loop-joined [] last reads h (inr end) = rw end refl
read_loop-joined (piece ∷ pieces) last reads ((c, buf, e), h) stop =
    rw e (ap (λ s. (c ∷ buf) ++ s) (read_loop-joined pieces last reads h stop))

-- In whatever pieces the file is read that the kernel writes for a program and its parameters: it
-- becomes the program's name, a null, and the parameters joined by spaces with a null behind the
-- last. It is the same if read fails where the file should end.
pub getcmdline-pieces :
    (entries : Option (List PidEntry)) (files : ℕ → Answers) (pid : ℕ) (a : List ℕ)
    (args pieces : List (List ℕ)) (last : Option (List ℕ)) (reads : List (Option (List ℕ)))
    → NoNull a
    → All NoNull args
    → joined pieces ≡ nulled (a ∷ args)
    → All IsPiece pieces
    → (last ≡ none) ⊎ (last ≡ some [])
    → files pid ≡ record { opens = true; reads = map some pieces ++ (last ∷ reads); closes = true }
    → getcmdline (proc_of entries files) pid ≡ ok (command_line a args)
unfolding read_file
getcmdline-pieces entries files pid a args pieces last reads h k whole p stop answers =
    getcmdline-command_line (proc_of entries files) pid a args h k
      (rw (answers, read_file) (ap some (read_loop-joined pieces last reads p stop ∙ whole)))
