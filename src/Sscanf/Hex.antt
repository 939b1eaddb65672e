-- ===== src/Sscanf/Hex.antt =====
-- What %X and the set of hexadecimal digits make of printed numbers (the rows of /proc/net/tcp,
-- src/conninode.cpp).
use nethogs.Base.{
  ℕ, zero, suc, ◌+◌, ◌*◌, ◌/◌, ◌%◌, ◌^◌, ◌≤◌, ◌<◌, ◌≡◌, refl, ap, ==_refl, ◌∙◌, Bool, true, false,
  ◌&&◌, some, List, [], ◌∷◌, ◌++◌, All, length, arith, ltb, ◌==◌, if◌then◌else◌,
}
use nethogs.Sscanf.{
  is_space, is_hex, hex_digit, drop_space, space, lit, span_hex, hex_set, hex_value, hex,
}

-- A text that goes on with the digits of a number in base 16, as many as said: %08X, %04X, %02X.
unfoldable pub hex_digits : ℕ → ℕ → List ℕ → List ℕ
hex_digits zero n rest = rest
hex_digits (suc width) n rest =
    let digit = n % 16 in
    hex_digits width (n / 16) ((if ltb digit 10 then b'0' + digit else 55 + digit) ∷ rest)

-- Padding on the left.
unfoldable pub spaces : ℕ → List ℕ → List ℕ
spaces zero text = text
spaces (suc n) text = b' ' ∷ spaces n text

abbrev pub pow16 : ℕ → ℕ
pow16 zero = 1
pow16 (suc k) = 16 * pow16 k

abbrev pub AllHex : List ℕ → Type 0
AllHex = All (λ c. is_hex c ≡ true)

-- A character that ends a number.
abbrev pub Closes : ℕ → Type 0
Closes d = (is_hex d ≡ false) × (d == b'x' ≡ false) × (d == b'X' ≡ false)

hex_digit-digit : (k : ℕ) → k < 16 → hex_digit (if ltb k 10 then b'0' + k else 55 + k) ≡ k
hex_digit-digit k h = ground arith

is_hex-digit : (k : ℕ) → k < 16 → is_hex (if ltb k 10 then b'0' + k else 55 + k) ≡ true
is_hex-digit k h = ground arith

pub hex_value-hex_digits :
    (w n : ℕ) (rest : List ℕ)
    → n < pow16 w
    → n < 2 ^ 32
    → hex_value 0 (hex_digits w n rest) ≡ hex_value n rest
unfolding hex_digits hex_value
hex_value-hex_digits zero n rest h k = ap (λ m. hex_value m rest) (omega arith)
hex_value-hex_digits (suc w) n rest h k =
    hex_value-hex_digits w (n / 16) _ (omega arith) (omega arith)
    ∙ ap (λ m. hex_value m rest) (omega (arith, hex_digit-digit (n % 16) (omega arith)))

pub AllHex-hex_digits : (w n : ℕ) (rest : List ℕ) → AllHex rest → AllHex (hex_digits w n rest)
unfolding hex_digits
AllHex-hex_digits zero n rest h = h
AllHex-hex_digits (suc w) n rest h =
    AllHex-hex_digits w (n / 16) _ (is_hex-digit (n % 16) (omega arith), h)

pub length-hex_digits : (w n : ℕ) (rest : List ℕ) → length (hex_digits w n rest) ≡ w + length rest
unfolding hex_digits
length-hex_digits zero n rest = omega arith
length-hex_digits (suc w) n rest = omega (arith, length-hex_digits w (n / 16) _)

pub hex_digits-append :
    (w n : ℕ) (xs rest : List ℕ) → hex_digits w n xs ++ rest ≡ hex_digits w n (xs ++ rest)
unfolding hex_digits
hex_digits-append zero n xs rest = refl
hex_digits-append (suc w) n xs rest = hex_digits-append w (n / 16) _ rest

span_hex-append :
    (w : ℕ) (xs : List ℕ) (d : ℕ) (rest : List ℕ)
    → AllHex xs
    → length xs ≤ w
    → is_hex d ≡ false
    → span_hex w (xs ++ (d ∷ rest)) ≡ (xs, d ∷ rest)
unfolding span_hex
span_hex-append zero [] d rest h k e = refl
span_hex-append zero (x ∷ xs) d rest h k e = absurd (omega arith)
span_hex-append (suc w) [] d rest h k e = rw e refl
span_hex-append (suc w) (x ∷ xs) d rest h k e =
    rw (h.0, span_hex-append w xs d rest h.1 (omega arith) e) refl

-- A nonempty text of hexadecimal digits.
pub hex_set-append :
    (c : ℕ) (cs : List ℕ) (d : ℕ) (rest : List ℕ)
    → AllHex (c ∷ cs)
    → length (c ∷ cs) ≤ 64
    → is_hex d ≡ false
    → hex_set ((c ∷ cs) ++ (d ∷ rest)) ≡ some (c ∷ cs, d ∷ rest)
unfolding hex_set
hex_set-append c cs d rest h k e = rw (span_hex-append 64 (c ∷ cs) d rest h k e) refl

-- What a hexadecimal digit is not.
abbrev Plain : ℕ → Type 0
Plain c =
    (is_space c ≡ false)
    × (c == b'-' ≡ false)
    × (c == b'+' ≡ false)
    × (c == b'x' ≡ false)
    × (c == b'X' ≡ false)

is_hex-Plain : (c : ℕ) → is_hex c ≡ true → Plain c
is_hex-Plain c h = (ground arith, ground arith, ground arith, ground arith, ground arith)

pub drop_space-spaces :
    (k c : ℕ) (s : List ℕ) → is_space c ≡ false → drop_space (spaces k (c ∷ s)) ≡ c ∷ s
unfolding spaces drop_space
drop_space-spaces zero c s h = rw h refl
drop_space-spaces (suc k) c s h = drop_space-spaces k c s h

pub space-spaces :
    (k c : ℕ) (s : List ℕ) → is_space c ≡ false → space (spaces k (c ∷ s)) ≡ some (tt, c ∷ s)
unfolding space
space-spaces k c s h = rw (drop_space-spaces k c s h) refl

and_false : (b : Bool) → (b && false) ≡ false
and_false true = refl
and_false false = refl

pub hex-append :
    (c : ℕ) (cs : List ℕ) (d : ℕ) (rest : List ℕ)
    → AllHex (c ∷ cs)
    → length (c ∷ cs) ≤ 8192
    → Closes d
    → hex ((c ∷ cs) ++ (d ∷ rest)) ≡ some (hex_value 0 (c ∷ cs), d ∷ rest)
unfolding hex drop_space
hex-append c [] d rest h k (e, x, y) =
    let (a, b, f, _, _) = is_hex-Plain c h.0 in
    rw (a, b, f, x, y, and_false (c == b'0'), span_hex-append 8192 (c ∷ []) d rest h k e) refl
hex-append c (c2 ∷ cs) d rest h k (e, x, y) =
    let (a, b, f, _, _) = is_hex-Plain c h.0 in
    let (_, _, _, x2, y2) = is_hex-Plain c2 h.1.0 in
    rw (a, b, f, x2, y2, and_false (c == b'0'), span_hex-append 8192 (c ∷ c2 ∷ cs) d rest h k e)
      refl

-- A text of at least one hexadecimal digit and no more than so many.
pub record HexText (most : ℕ) (xs : List ℕ) : Type 0 where
  pub all_hex : AllHex xs
  pub some_hex : 1 ≤ length xs
  pub fits : length xs ≤ most

pub hex_set-HexText :
    (xs : List ℕ) (d : ℕ) (rest : List ℕ)
    → HexText 64 xs
    → is_hex d ≡ false
    → hex_set (xs ++ (d ∷ rest)) ≡ some (xs, d ∷ rest)
hex_set-HexText [] d rest h e = absurd (omega (arith, h.some_hex))
hex_set-HexText (c ∷ cs) d rest h e = hex_set-append c cs d rest h.all_hex h.fits e

pub hex-HexText :
    (xs : List ℕ) (d : ℕ) (rest : List ℕ)
    → HexText 64 xs
    → Closes d
    → hex (xs ++ (d ∷ rest)) ≡ some (hex_value 0 xs, d ∷ rest)
hex-HexText [] d rest h e = absurd (omega (arith, h.some_hex))
hex-HexText (c ∷ cs) d rest h e = hex-append c cs d rest h.all_hex (omega (arith, h.fits)) e

pub space-HexText :
    (xs rest : List ℕ) → HexText 64 xs → space (b' ' ∷ (xs ++ rest)) ≡ some (tt, xs ++ rest)
unfolding spaces
space-HexText [] rest h = absurd (omega (arith, h.some_hex))
space-HexText (c ∷ cs) rest h = space-spaces 1 c (cs ++ rest) (is_hex-Plain c h.all_hex.0).0

pub HexText-hex_digits : (w n : ℕ) → 1 ≤ w → w ≤ 64 → HexText 64 (hex_digits w n [])
HexText-hex_digits w n h k = record {
  all_hex = AllHex-hex_digits w n [] tt;
  some_hex = omega (arith, length-hex_digits w n []);
  fits = omega (arith, length-hex_digits w n []);
}

pub lit-same : (c : ℕ) (s : List ℕ) → lit c (c ∷ s) ≡ some (tt, s)
unfolding lit
lit-same c s = rw (==_refl c) refl
