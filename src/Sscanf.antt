-- ===== src/Sscanf.antt =====
-- sscanf, as far as the reading of /proc/net/tcp uses it (src/conninode.cpp): white space,
-- literals, `%d`, `%ld`, `%X` and `%64[0-9A-Fa-f]`. A conversion that does not match ends the scan.
-- What overflows a conversion is undefined in C, and wraps here.
pub mod Hex
pub mod Decimal
use nethogs.Base.{
  ℕ, zero, suc, ◌+◌, ◌-◌, ◌*◌, ◌%◌, ◌^◌, Bool, true, false, ◌&&◌, ◌||◌, Option, none, some, List,
  [], ◌∷◌, ◌==◌, leb, if◌then◌else◌,
}

abbrev pub Scan : Type 0 → Type 0
Scan A = List ℕ → Option (A × List ℕ)

infixl 5 ◌>>=◌ ◌>>◌
abbrev pub ◌>>=◌ : {A B : Type 0} → Scan A → (A → Scan B) → Scan B
◌>>=◌ m f s = elim (m s) [ none ↦ none | some (a, rest) ↦ f a rest ]

abbrev pub ◌>>◌ : {A B : Type 0} → Scan A → Scan B → Scan B
m >> k = m >>= λ _. k

abbrev pub pure : {A : Type 0} → A → Scan A
pure a s = some (a, s)

abbrev pub is_space : ℕ → Bool
is_space c = c == 32 || leb 9 c && leb c 13

abbrev pub is_digit : ℕ → Bool
is_digit c = leb b'0' c && leb c b'9'

abbrev is_upper_hex : ℕ → Bool
is_upper_hex c = leb b'A' c && leb c b'F'

abbrev is_lower_hex : ℕ → Bool
is_lower_hex c = leb b'a' c && leb c b'f'

abbrev pub is_hex : ℕ → Bool
is_hex c = is_digit c || (is_upper_hex c || is_lower_hex c)

abbrev pub hex_digit : ℕ → ℕ
hex_digit c = if is_digit c then c - b'0' else if is_upper_hex c then c - 55 else c - 87

unfoldable pub drop_space : List ℕ → List ℕ
drop_space [] = []
drop_space (c ∷ s) = let rest = drop_space s in if is_space c then rest else c ∷ s

unfoldable pub space : Scan (Unit {0})
unfolding drop_space
space s = some (tt, drop_space s)

unfoldable pub lit : ℕ → Scan (Unit {0})
lit c [] = none
lit c (d ∷ s) = if d == c then some (tt, s) else none

-- At most `width` characters of the set, and the rest.
unfoldable pub span_hex : ℕ → List ℕ → List ℕ × List ℕ
span_hex zero s = ([], s)
span_hex (suc width) [] = ([], [])
span_hex (suc width) (c ∷ s) =
    let (xs, rest) = span_hex width s in if is_hex c then (c ∷ xs, rest) else ([], c ∷ s)

abbrev some_hex : List ℕ × List ℕ → Option (List ℕ × List ℕ)
some_hex ([], rest) = none
some_hex (c ∷ xs, rest) = some (c ∷ xs, rest)

-- %64[0-9A-Fa-f]
unfoldable pub hex_set : Scan (List ℕ)
unfolding span_hex
hex_set s = some_hex (span_hex 64 s)

-- The value of hexadecimal digits in an unsigned int.
unfoldable pub hex_value : ℕ → List ℕ → ℕ
hex_value acc [] = acc
hex_value acc (c ∷ xs) = hex_value ((acc * 16 + hex_digit c) % 2 ^ 32) xs

abbrev drop_prefix : List ℕ → List ℕ
drop_prefix (z ∷ x ∷ s) = if z == b'0' && (x == b'x' || x == b'X') then s else z ∷ x ∷ s
drop_prefix s = s

abbrev drop_sign : List ℕ → Bool × List ℕ
drop_sign [] = (false, [])
drop_sign (c ∷ s) =
    if c == b'-' then (true, s) else if c == b'+' then (false, s) else (false, c ∷ s)

abbrev signed : ℕ → Bool → ℕ → ℕ
signed modulus negative n = if negative then (modulus - n) % modulus else n

abbrev hex_of : Bool → Option (List ℕ × List ℕ) → Option (ℕ × List ℕ)
hex_of negative none = none
hex_of negative (some (xs, rest)) = some (signed (2 ^ 32) negative (hex_value 0 xs), rest)

-- %X: white space, a sign, a prefix 0x and one digit or more. No number is longer than the buffer.
unfoldable pub hex : Scan ℕ
unfolding drop_space span_hex hex_value
hex s =
    let (negative, digits) = drop_sign (drop_space s) in
    hex_of negative (some_hex (span_hex 8192 (drop_prefix digits)))

unfoldable pub dec_loop : ℕ → List ℕ → ℕ × List ℕ
dec_loop acc [] = (acc, [])
dec_loop acc (c ∷ s) =
    let r = dec_loop ((acc * 10 + (c - b'0')) % 2 ^ 64) s in if is_digit c then r else (acc, c ∷ s)

abbrev dec_of : Bool → List ℕ → Option (ℕ × List ℕ)
dec_of negative [] = none
dec_of negative (c ∷ s) =
    let (n, rest) = dec_loop 0 (c ∷ s) in
    if is_digit c then some (signed (2 ^ 64) negative n, rest) else none

-- %d and %ld, as an unsigned long: white space, a sign and one digit or more.
unfoldable pub dec : Scan ℕ
unfolding drop_space dec_loop
dec s = let (negative, digits) = drop_sign (drop_space s) in dec_of negative digits
