-- ===== src/Program/Quitting.antt =====
-- How the main loop of the command line program comes to its end (src/main.cpp).
use nethogs.Base.{
  ℤ, ok-inj, ℕ, ◌≡◌, refl, ap, ◌∙◌, sym, Bool, true, false, not, ◌||◌, some, List, [], ◌∷◌, ok,
  arith, Bool-cases, inl, inr, In, All, ==_refl, ltb, ltb→lt, ◌<◌, ◌≤◌, ◌&&◌, suc,
}
use nethogs.Opening.{count_fds, is_set, Handle, Watched, Select, wait_for_next_trigger}
use nethogs.Program.{Options}
use nethogs.Program.Rounds.{Turn, Running, Drawn, program_loop}
use nethogs.Program.Course.{has_packets, or_false, turn-inv, loop-inv}

-- select reports the pipe, which holds a byte, if it is asked about it.
abbrev pub SeesPipe : ℕ → Turn → Type 0
SeesPipe read r =
    (nfds : ℕ) (fds : List ℕ)
    → In read fds
    → read < nfds
    → (ready : List ℕ) × (r.select true nfds fds ≡ some ready) × In read ready

-- In each of the turns some handle has a packet.
abbrev pub all_busy : List Handle → List Turn → Bool
all_busy handles [] = true
all_busy handles (r ∷ turns) = has_packets r handles && all_busy handles turns

is_set-In : (fd : ℕ) (fds : List ℕ) → In fd fds → is_set fd fds ≡ true
is_set-In fd [] i = absurd i
is_set-In fd (x ∷ fds) (inl same) = rw (same, ==_refl fd) refl
is_set-In fd (x ∷ fds) (inr i) = rw (is_set-In fd fds i) (ground arith)

count_fds-≤ : (fds : List ℕ) (nfds : ℕ) → nfds ≤ count_fds fds nfds
unfolding count_fds
count_fds-≤ [] nfds = ground arith
count_fds-≤ (fd ∷ fds) nfds = elim (Bool-cases (ltb nfds (suc fd))) [
  | inl less ↦
      let h = ltb→lt nfds (suc fd) less in rw less (omega (arith, count_fds-≤ fds (suc fd)))
  | inr more ↦ rw more (count_fds-≤ fds nfds)
]

count_fds-In : (fd : ℕ) (fds : List ℕ) (nfds : ℕ) → In fd fds → fd < count_fds fds nfds
unfolding count_fds
count_fds-In fd [] nfds i = absurd i
count_fds-In fd (x ∷ fds) nfds (inl same) =
    ground (arith, same, count_fds-≤ fds (suc x), count_fds-≤ fds nfds)
count_fds-In fd (x ∷ fds) nfds (inr i) = count_fds-In fd fds _ i

-- The wait sees the byte in the pipe.
wait-ends :
    (select : Select) (pipe : ℕ × ℕ) (w : Watched) (ready : List ℕ)
    → w.use_select ≡ true
    → select (count_fds w.fd_list 0) w.fd_list ≡ some ready
    → In pipe.0 ready
    → wait_for_next_trigger select (some pipe) w ≡ false
unfolding wait_for_next_trigger
wait-ends select pipe w ready u e i = rw (u, e, is_set-In pipe.0 ready i) refl

module _ (value : ℤ → ℕ → ℕ) (number : ℕ → List ℕ) (o : Options) where
  -- Once quitting is asked for, if select is used with the pipe among its descriptors, and if in every
  -- turn select, when it is asked about the pipe, succeeds and reports it, which then holds a byte: as
  -- long as nothing stops the program, the main loop ends exactly with the first turn in which no
  -- handle has a packet.
  pub program_loop-quits :
      (turns : List Turn) (p p' : Running) (has_ended : Bool) (prints : List Drawn)
      → p.is_written ≡ true
      → p.watched.use_select ≡ true
      → In p.self_pipe.0 p.watched.fd_list
      → All (SeesPipe p.self_pipe.0) turns
      → program_loop value number o turns p ≡ ok (has_ended, p', prints)
      → has_ended ≡ not (all_busy p.watched.handles turns)
  unfolding program_loop
  program_loop-quits [] p p' has_ended prints w u i sees e = ap (λ z. z.0) (sym (ok-inj e))
  program_loop-quits (r ∷ turns) p p' has_ended prints w u i sees e =
      let (goes_on, q, ds, f, cases) = loop-inv value number o r turns p p' has_ended prints e in
      let (k, goes) = turn-inv value number o r p q goes_on ds f in
      let fds = p.watched.fd_list in
      let (ready, selects, set) =
        sees.0 (count_fds fds 0) fds i (count_fds-In p.self_pipe.0 fds 0 i) in
      let waited : wait_for_next_trigger (r.select q.is_written) (some q.self_pipe) q.watched
          ≡ false =
        rw (k.is_written w, k.self_pipe, k.watched)
          (wait-ends (r.select true) p.self_pipe p.watched ready u selects set) in
      let busy : goes_on ≡ has_packets r p.watched.handles =
        goes
        ∙ (ap (λ b. has_packets r p.watched.handles || b) waited
            ∙ or_false (has_packets r p.watched.handles)) in
      elim cases [
        | inl (off, ends, same) ↦ rw (ends, sym busy ∙ off) refl
        | inr (on, more, g) ↦ rw (sym busy ∙ on) (
            rw k.watched at (
              program_loop-quits turns q p' has_ended more (k.is_written w) (rw k.watched u)
                (rw (k.self_pipe, k.watched) i) (rw k.self_pipe sees.1) g))
      ]
