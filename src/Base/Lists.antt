-- ===== src/Base/Lists.antt =====
-- Lists measured by native numbers, and lists of pointers.
use Prim.Native.Nat.{ℕ, zero, suc, ◌+◌, ◌≤◌}
use mathlib.Core.Path.{◌≡◌, refl, ap}
use mathlib.Core.Logic.{◌⊎◌}
use mathlib.Core.List.{List, [], ◌∷◌, ◌++◌}
use native.Mathlib.Omega.{arith}

module _ {ℓ} {A : Type ℓ} where
  -- All but the first `n` elements.
  abbrev pub drop : ℕ → List A → List A
  drop (suc n) (y ∷ rest) = drop n rest
  drop (suc n) [] = []
  drop zero l = l

  abbrev pub length : List A → ℕ
  length (y ∷ rest) = suc (length rest)
  length [] = 0

  -- The first `n` elements.
  abbrev pub take : ℕ → List A → List A
  take (suc n) (y ∷ rest) = y ∷ take n rest
  take (suc n) [] = []
  take zero l = []

  pub length-append : (l m : List A) → length (l ++ m) ≡ length l + length m
  length-append [] m = omega arith
  length-append (y ∷ rest) m = omega (arith, length-append rest m)

-- A predicate of every element, by recursion.
abbrev pub All {ℓ κ} : {A : Type ℓ} → (A → Type κ) → List A → Type κ
All P [] = Unit
All P (x ∷ xs) = P x × All P xs

pub All-mono {ℓ κ μ} :
    {A : Type ℓ} (P : A → Type κ) (Q : A → Type μ) (xs : List A)
    → ((x : A) → P x → Q x)
    → All P xs
    → All Q xs
All-mono P Q [] f h = tt
All-mono P Q (x ∷ xs) f h = (f x h.0, All-mono P Q xs f h.1)

pub All-append {ℓ κ} :
    {A : Type ℓ} (P : A → Type κ) (xs ys : List A) → All P xs → All P ys → All P (xs ++ ys)
All-append P [] ys hx hy = hy
All-append P (x ∷ xs) ys hx hy = (hx.0, All-append P xs ys hx.1 hy)

pub take_of_length-le {ℓ} : {A : Type ℓ} (n : ℕ) (l : List A) → length l ≤ n → take n l ≡ l
take_of_length-le (suc n) (y ∷ rest) fits = ap (◌∷◌ y) (take_of_length-le n rest (omega arith))
take_of_length-le zero (y ∷ rest) fits = absurd (omega arith)
take_of_length-le (suc n) [] fits = refl
take_of_length-le zero [] fits = refl

-- The element stands in the list.
abbrev pub In : {A : Type 0} → A → List A → Type 0
In x [] = ⊥
In x (y ∷ ys) = (y ≡ x) ⊎ In x ys
