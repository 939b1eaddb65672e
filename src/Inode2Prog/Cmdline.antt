-- ===== src/Inode2Prog/Cmdline.antt =====
-- The command line of a process: getcmdline (src/inode2prog.cpp) and what getProcess reads from it
-- (src/process.cpp).
use nethogs.Base.{ℕ, ◌≡◌, ◌≢◌, refl, Bool, true, false, some, List, [], ◌∷◌, ◌++◌, arith, All, ok}
use nethogs.Inode2Prog.{join_parameters, getcmdline, ProcFs}

-- The bytes of one argument.
abbrev pub NoNull : List ℕ → Type 0
NoNull = All (λ c. c ≢ 0)

-- The kernel's form: each argument with its null.
unfoldable pub nulled : List (List ℕ) → List ℕ
nulled [] = []
nulled (a ∷ args) = a ++ (0 ∷ nulled args)

-- Arguments joined by spaces, with one null behind the last.
unfoldable pub spaced : List ℕ → List (List ℕ) → List ℕ
spaced a [] = a ++ (0 ∷ [])
spaced a (b ∷ args) = a ++ (b' ' ∷ spaced b args)

unfoldable pub command_line : List ℕ → List (List ℕ) → List ℕ
command_line a [] = a ++ (0 ∷ [])
command_line a (b ∷ args) = a ++ (0 ∷ spaced b args)

join_argument :
    (a rest : List ℕ) (c : ℕ)
    → NoNull a
    → join_parameters true (a ++ (0 ∷ c ∷ rest)) ≡ a ++ (b' ' ∷ join_parameters true (c ∷ rest))
unfolding join_parameters
join_argument [] rest c h = refl
join_argument (x ∷ []) rest c h = ground arith
join_argument (x ∷ y ∷ a) rest c h = ground (arith, join_argument (y ∷ a) rest c h.1)

join_program :
    (a rest : List ℕ) (c : ℕ)
    → NoNull a
    → join_parameters false (a ++ (0 ∷ c ∷ rest)) ≡ a ++ (0 ∷ join_parameters true (c ∷ rest))
unfolding join_parameters
join_program [] rest c h = refl
join_program (x ∷ []) rest c h = ground arith
join_program (x ∷ y ∷ a) rest c h = ground (arith, join_program (y ∷ a) rest c h.1)

join_last : (b : Bool) (a : List ℕ) → NoNull a → join_parameters b (a ++ (0 ∷ [])) ≡ a ++ (0 ∷ [])
unfolding join_parameters
join_last b [] h = refl
join_last b (x ∷ []) h = ground arith
join_last b (x ∷ y ∷ a) h = ground (arith, join_last b (y ∷ a) h.1)

append_cons : (a l : List ℕ) (c : ℕ) → (d : ℕ) × (r : List ℕ) × (a ++ (c ∷ l) ≡ d ∷ r)
append_cons [] l c = (c, l, refl)
append_cons (x ∷ a) l c = (x, a ++ (c ∷ l), refl)

join-spaced :
    (b : List ℕ) (args : List (List ℕ))
    → NoNull b
    → All NoNull args
    → join_parameters true (nulled (b ∷ args)) ≡ spaced b args
unfolding nulled spaced
join-spaced b [] h k = join_last true b h
join-spaced b (d ∷ args) h k =
    let (c, rest, e) = append_cons d (nulled args) 0 in
    rw (e, join_argument b rest c h, ← e, join-spaced d args k.0 k.1)

-- The file that the kernel writes for a program and its parameters becomes the program's name, a
-- null, and the parameters joined by spaces with a null behind the last.
pub getcmdline-command_line :
    (proc : ProcFs) (pid : ℕ) (a : List ℕ) (args : List (List ℕ))
    → NoNull a
    → All NoNull args
    → proc.cmdline_file pid ≡ some (nulled (a ∷ args))
    → getcmdline proc pid ≡ ok (command_line a args)
unfolding getcmdline nulled command_line
getcmdline-command_line proc pid a [] h k e =
    let (d, r, f) = append_cons a [] 0 in ground (arith, join_last false a h)
getcmdline-command_line proc pid a (b ∷ args) h k e =
    let (d, r, f) = append_cons a (nulled (b ∷ args)) 0 in
    let (c, rest, g) = append_cons b (nulled args) 0 in
    ground (arith, join_program a rest c h, join-spaced b args k.0 k.1)
