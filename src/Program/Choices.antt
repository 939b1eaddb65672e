-- ===== src/Program/Choices.antt =====
-- What the options come to (src/main.cpp).
use nethogs.Base.{
  ℕ, ◌≡◌, refl, ap, ◌∙◌, Bool, true, false, ◌||◌, Option, none, some, List, [], ◌∷◌, arith, ◌==◌,
  if◌then◌else◌, Option-cases, inl, inr,
}
use nethogs.Cui.{viewmode_count}
use nethogs.Program.{
  Options, Parsed, ends, goes_on, atoi, rem_int, to_unsigned, set_option, parse_options,
}

-- Was the option given?
abbrev pub given : ℕ → List (ℕ × List ℕ) → Bool
given c [] = false
given c ((opt, optarg) ∷ rest) = if opt == c then true else given c rest

-- What the argument of the last such option means, or the old value.
abbrev pub last_of : {A : Type 0} → ℕ → (List ℕ → A) → List (ℕ × List ℕ) → A → A
last_of c meaning [] old = old
last_of c meaning ((opt, optarg) ∷ rest) old =
    last_of c meaning rest (if opt == c then meaning optarg else old)

abbrev is_choice : ℕ → Bool
is_choice opt =
    (opt == b'b')
    || ((opt == b't')
        || ((opt == b'p')
            || ((opt == b's')
                || ((opt == b'd')
                    || ((opt == b'v')
                        || ((opt == b'c')
                            || ((opt == b'l')
                                || ((opt == b'a') || ((opt == b'f') || (opt == b'C'))))))))))

-- The option ends the program, as a success (-V, -h) or a failure (none that exists).
abbrev end_of : ℕ → Option Bool
end_of opt =
    if (opt == b'V') || (opt == b'h')
    then some true
    else (if is_choice opt then none else some false)

-- The first option that ends the program.
abbrev pub first_end : List (ℕ × List ℕ) → Option Bool
first_end [] = none
first_end ((opt, optarg) ∷ rest) = elim (end_of opt) [ none ↦ first_end rest | some b ↦ some b ]

-- Each global by its own options, whatever the others are.
abbrev pub chosen : List (ℕ × List ℕ) → Options → Options
chosen opts o = record {
  bughuntmode = if given b'b' opts then true else o.bughuntmode;
  tracemode = if given b'b' opts || given b't' opts then true else o.tracemode;
  promisc = if given b'p' opts then 1 else o.promisc;
  sort_recv = if given b's' opts then false else o.sort_recv;
  refreshdelay = last_of b'd' atoi opts o.refreshdelay;
  view_mode = last_of b'v' (λ s. rem_int (atoi s) viewmode_count) opts o.view_mode;
  refreshlimit = last_of b'c' (λ s. to_unsigned (atoi s)) opts o.refreshlimit;
  showcommandline = if given b'l' opts then true else o.showcommandline;
  all = if given b'a' opts then true else o.all;
  filter = last_of b'f' (λ s. some s) opts o.filter;
  catchall = if given b'C' opts then true else o.catchall;
}

abbrev pub outcome : Option Bool → Options → Parsed
outcome none o = goes_on o
outcome (some b) o = ends b

one_option :
    (opt : ℕ) (optarg : List ℕ) (o : Options)
    → set_option opt optarg o ≡ outcome (end_of opt) (chosen ((opt, optarg) ∷ []) o)
unfolding set_option
one_option opt optarg o = ground arith

chosen-cons :
    (opt : ℕ) (optarg : List ℕ) (rest : List (ℕ × List ℕ)) (o : Options)
    → chosen rest (chosen ((opt, optarg) ∷ []) o) ≡ chosen ((opt, optarg) ∷ rest) o
chosen-cons opt optarg rest o = ground arith

first_goes :
    (opt : ℕ) (optarg : List ℕ) (rest : List (ℕ × List ℕ))
    → end_of opt ≡ none
    → first_end ((opt, optarg) ∷ rest) ≡ first_end rest
first_goes opt optarg rest e = rw (first_end, e) refl

first_stops :
    (opt : ℕ) (optarg : List ℕ) (rest : List (ℕ × List ℕ)) (b : Bool)
    → end_of opt ≡ some b
    → first_end ((opt, optarg) ∷ rest) ≡ some b
first_stops opt optarg rest b e = rw (first_end, e) refl

-- Whatever options are given: the program ends if one of them is -V or -h, as a success, or one that
-- does not exist, as a failure, whichever is the first of these. Otherwise each global is set by its
-- own options alone, whatever their order among the others, and to what the last of them says.
pub parse_options-chosen :
    (opts : List (ℕ × List ℕ)) (o : Options)
    → parse_options opts o ≡ outcome (first_end opts) (chosen opts o)
unfolding parse_options
parse_options-chosen [] o = refl
parse_options-chosen ((opt, optarg) ∷ rest) o = elim (Option-cases (end_of opt)) [
  | inl goes ↦
      rw (parse_options, one_option opt optarg o, goes, first_goes opt optarg rest goes)
        (parse_options-chosen rest (chosen ((opt, optarg) ∷ []) o)
          ∙ ap (outcome (first_end rest)) (chosen-cons opt optarg rest o))
  | inr (b, stops) ↦
      rw (parse_options, one_option opt optarg o, stops, first_stops opt optarg rest b stops) refl
]
