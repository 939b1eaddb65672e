-- ===== src/Sscanf/Decimal.antt =====
-- What %d and %ld make of printed numbers (the rows of /proc/net/tcp, src/conninode.cpp).
use nethogs.Base.{
  ℕ, zero, suc, ◌+◌, ◌*◌, ◌/◌, ◌%◌, ◌^◌, ◌<◌, ◌≡◌, refl, sym, ap, Bool-cases, inl, inr, ◌∙◌, true,
  false, some, List, [], ◌∷◌, ◌++◌, arith, ltb, ◌==◌,
}
use nethogs.Packet.{digits_of, decimal}
use nethogs.Inode2Prog.Text.{digits_of-append}
use nethogs.Sscanf.Hex.{spaces, drop_space-spaces, space-spaces}
use nethogs.Sscanf.{is_space, is_digit, space, dec_loop, dec}

abbrev pow10 : ℕ → ℕ
pow10 zero = 1
pow10 (suc k) = 10 * pow10 k

digits_of-more :
    (f n c : ℕ) (s : List ℕ)
    → is_digit c ≡ true
    → (c' : ℕ) × (s' : List ℕ) × (digits_of f n (c ∷ s) ≡ c' ∷ s') × (is_digit c' ≡ true)
unfolding digits_of
digits_of-more zero n c s h = (c, s, refl, h)
digits_of-more (suc f) n c s h = elim (Bool-cases (ltb n 10)) [
  | inl last ↦ (b'0' + n, c ∷ s, rw last refl, ground arith)
  | inr not_last ↦ rw not_last (digits_of-more f (n / 10) (b'0' + n % 10) (c ∷ s) (ground arith))
]

-- The digits of a number begin with a digit.
digits_of-cons :
    (f n : ℕ) (rest : List ℕ)
    → (c : ℕ) × (s : List ℕ) × (digits_of (suc f) n rest ≡ c ∷ s) × (is_digit c ≡ true)
unfolding digits_of
digits_of-cons f n rest = elim (Bool-cases (ltb n 10)) [
  | inl last ↦ (b'0' + n, rest, rw last refl, ground arith)
  | inr not_last ↦ rw not_last (digits_of-more f (n / 10) (b'0' + n % 10) rest (ground arith))
]

dec_loop-digits_of :
    (f n : ℕ) (rest : List ℕ)
    → n < pow10 f
    → n < 2 ^ 64
    → dec_loop 0 (digits_of f n rest) ≡ dec_loop n rest
unfolding digits_of dec_loop
dec_loop-digits_of zero n rest h k = ap (λ m. dec_loop m rest) (omega arith)
dec_loop-digits_of (suc f) n rest h k =
    ground (arith, dec_loop-digits_of f (n / 10) ((b'0' + n % 10) ∷ rest))

is_digit_plain :
    (c : ℕ) → is_digit c ≡ true → (is_space c ≡ false) × (c == b'-' ≡ false) × (c == b'+' ≡ false)
is_digit_plain c h = (ground arith, ground arith, ground arith)

dec_loop_stop :
    (n d : ℕ) (rest : List ℕ) → is_digit d ≡ false → dec_loop n (d ∷ rest) ≡ (n, d ∷ rest)
unfolding dec_loop
dec_loop_stop n d rest e = rw e refl

-- A decimal number behind any padding, up to a character that is no digit.
pub dec-digits_of :
    (k n d : ℕ) (rest : List ℕ)
    → n < 2 ^ 64
    → is_digit d ≡ false
    → dec (spaces k (digits_of 20 n (d ∷ rest))) ≡ some (n, d ∷ rest)
unfolding dec
dec-digits_of k n d rest h e =
    let (c, s, f, g) = digits_of-cons 19 n (d ∷ rest) in
    let (blank, minus, plus) = is_digit_plain c g in
    let read : dec_loop 0 (c ∷ s) ≡ (n, d ∷ rest) =
      ap (dec_loop 0) (sym f)
      ∙ dec_loop-digits_of 20 n (d ∷ rest) (omega arith) h
      ∙ dec_loop_stop n d rest e in
    rw (f, drop_space-spaces k c s blank, minus, plus, g, rw g at read) refl

pub dec-decimal :
    (k n d : ℕ) (rest : List ℕ)
    → n < 2 ^ 64
    → is_digit d ≡ false
    → dec (spaces k (decimal n ++ (d ∷ rest))) ≡ some (n, d ∷ rest)
unfolding decimal
dec-decimal k n d rest h e =
    ap (λ s. dec (spaces k s)) (digits_of-append 20 n [] (d ∷ rest)) ∙ dec-digits_of k n d rest h e

pub space-decimal :
    (k n : ℕ) (rest : List ℕ) → space (spaces k (decimal n ++ rest)) ≡ some (tt, decimal n ++ rest)
unfolding decimal
space-decimal k n rest =
    let (c, s, f, g) = digits_of-cons 19 n [] in
    rw f (space-spaces k c (s ++ rest) (is_digit_plain c g).0)
