-- ===== src/Cui/Order.antt =====
-- The order of the lines (src/cui.cpp).
use nethogs.Base.{
  ℕ, ◌≤◌, ◌≡◌, Bool, true, false, List, [], ◌∷◌, arith, All, All-mono, if◌then◌else◌, Bool-cases,
  inl, inr, leb_ℤ, pos,
}
use mathlib.Core.List.{Perm}
use mathlib.Core.List.Perm
use nethogs.Cui.Drawing.{greatest_first}
use nethogs.Cui.Line.{Line}
use nethogs.Cui.Screen.{insert_line, sort_lines}

-- The value by which the lines are ordered.
abbrev pub value_of : Bool → Line → ℕ
value_of sort_recv l = if sort_recv then l.recv_value else l.sent_value

-- No line has a greater value than one before it.
abbrev pub GreatestFirst : Bool → List Line → Type 0
GreatestFirst sort_recv [] = Unit
GreatestFirst sort_recv (l ∷ ls) =
    All (λ m. value_of sort_recv m ≤ value_of sort_recv l) ls × GreatestFirst sort_recv ls

goes_before :
    (sort_recv : Bool) (a b : Line)
    → leb_ℤ (greatest_first sort_recv a b) (pos 0) ≡ true
    → value_of sort_recv b ≤ value_of sort_recv a
unfolding greatest_first
goes_before sort_recv a b h = ground arith

goes_behind :
    (sort_recv : Bool) (a b : Line)
    → leb_ℤ (greatest_first sort_recv a b) (pos 0) ≡ false
    → value_of sort_recv a ≤ value_of sort_recv b
unfolding greatest_first
goes_behind sort_recv a b h = ground arith

insert-All :
    (P : Line → Type 0) (sort_recv : Bool) (l : Line) (ls : List Line)
    → P l
    → All P ls
    → All P (insert_line sort_recv l ls)
unfolding insert_line
insert-All P sort_recv l [] p h = (p, tt)
insert-All P sort_recv l (m ∷ ls) p h =
    elim (Bool-cases (leb_ℤ (greatest_first sort_recv l m) (pos 0))) [
      | inl before ↦ rw (insert_line, before) (p, h)
      | inr behind ↦ rw (insert_line, behind) (h.0, insert-All P sort_recv l ls p h.1)
    ]

insert-GreatestFirst :
    (sort_recv : Bool) (l : Line) (ls : List Line)
    → GreatestFirst sort_recv ls
    → GreatestFirst sort_recv (insert_line sort_recv l ls)
unfolding insert_line
insert-GreatestFirst sort_recv l [] g = (tt, tt)
insert-GreatestFirst sort_recv l (m ∷ ls) g =
    elim (Bool-cases (leb_ℤ (greatest_first sort_recv l m) (pos 0))) [
      | inl before ↦
          let k = goes_before sort_recv l m before in
          rw (insert_line, before) ((k, All-mono _ _ ls (λ x h. omega arith) g.0), g)
      | inr behind ↦
          rw (insert_line, behind)
            (
              insert-All (λ x. value_of sort_recv x ≤ value_of sort_recv m) sort_recv l ls
                  (goes_behind sort_recv l m behind) g.0,
              insert-GreatestFirst sort_recv l ls g.1,
            )
    ]

insert-Perm :
    (sort_recv : Bool) (l : Line) (ls : List Line) → Perm (l ∷ ls) (insert_line sort_recv l ls)
unfolding insert_line
insert-Perm sort_recv l [] = Perm.refl (l ∷ [])
insert-Perm sort_recv l (m ∷ ls) =
    elim (Bool-cases (leb_ℤ (greatest_first sort_recv l m) (pos 0))) [
      | inl before ↦ rw (insert_line, before) (Perm.refl (l ∷ m ∷ ls))
      | inr behind ↦
          rw (insert_line, behind)
            (Perm.trans (Perm.swap m l ls) (Perm.cons m (insert-Perm sort_recv l ls)))
    ]

-- The lines are shown greatest first, by what was received or by what was sent, and none is lost or
-- shown twice.
pub sort_lines-GreatestFirst :
    (sort_recv : Bool) (ls : List Line)
    → GreatestFirst sort_recv (sort_lines sort_recv ls) × Perm ls (sort_lines sort_recv ls)
unfolding sort_lines
sort_lines-GreatestFirst sort_recv [] = (tt, Perm.refl [])
sort_lines-GreatestFirst sort_recv (l ∷ ls) =
    let (g, p) = sort_lines-GreatestFirst sort_recv ls in
    (
      insert-GreatestFirst sort_recv l (sort_lines sort_recv ls) g,
      Perm.trans (Perm.cons l p) (insert-Perm sort_recv l (sort_lines sort_recv ls)),
    )
