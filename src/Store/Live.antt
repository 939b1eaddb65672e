-- ===== src/Store/Live.antt =====
-- Pointers that may be followed, and lists of them without repetition (src/connection.cpp).
use nethogs.Base.{
  ℕ, ◌≡◌, ◌≢◌, Option, none, some, List, [], ◌∷◌, arith, All, ◌==◌, Bool-cases, inl, inr,
}
use nethogs.Connection.{Connection}
use nethogs.Store.{unlink, update}

abbrev pub IsLive : (ℕ → Option Connection) → ℕ → Type 0
IsLive heap i = (c : Connection) × (heap i ≡ some c)

abbrev pub Apart : ℕ → List ℕ → Type 0
Apart i = All (λ j. i ≢ j)

abbrev pub Distinct : List ℕ → Type 0
Distinct [] = Unit
Distinct (i ∷ is) = Apart i is × Distinct is

-- An object that is left alone stays live.
pub IsLive-elsewhere :
    (heap : ℕ → Option Connection) (i : ℕ) (v : Option Connection) (is : List ℕ)
    → Apart i is
    → All (IsLive heap) is
    → All (IsLive (update heap i v)) is
IsLive-elsewhere heap i v [] a h = tt
IsLive-elsewhere heap i v (j ∷ is) a h =
    ((h.0.0, ground arith), IsLive-elsewhere heap i v is a.1 h.1)

pub IsLive-assigned :
    (heap : ℕ → Option Connection) (i : ℕ) (c : Connection) (is : List ℕ)
    → All (IsLive heap) is
    → All (IsLive (update heap i (some c))) is
IsLive-assigned heap i c [] h = tt
IsLive-assigned heap i c (j ∷ is) h = elim (Bool-cases (i == j)) [
  | inl here ↦ ((c, rw here), IsLive-assigned heap i c is h.1)
  | inr apart ↦ ((h.0.0, rw apart h.0.1), IsLive-assigned heap i c is h.1)
]

-- What ~Connection leaves of a list of live pointers is live once the object is gone.
pub IsLive-unlinked :
    (heap : ℕ → Option Connection) (i : ℕ) (is : List ℕ)
    → All (IsLive heap) is
    → All (IsLive (update heap i none)) (unlink i is)
unfolding unlink
IsLive-unlinked heap i [] h = tt
IsLive-unlinked heap i (j ∷ is) h = elim (Bool-cases (j == i)) [
  | inl here ↦ rw here (IsLive-unlinked heap i is h.1)
  | inr apart ↦ rw apart ((h.0.0, ground arith), IsLive-unlinked heap i is h.1)
]

-- ~Connection leaves a part of the list.
pub All-unlink : (P : ℕ → Type 0) (i : ℕ) (is : List ℕ) → All P is → All P (unlink i is)
unfolding unlink
All-unlink P i [] h = tt
All-unlink P i (j ∷ is) h = elim (Bool-cases (j == i)) [
  | inl here ↦ rw here (All-unlink P i is h.1)
  | inr apart ↦ rw apart (h.0, All-unlink P i is h.1)
]
