-- ===== src/Inode2Prog/Text.antt =====
-- Numbers in the names and links of /proc: str2ulong, str2int and is_number against the decimal
-- print (src/inode2prog.cpp).
use nethogs.Base.{
  ℕ, zero, suc, ◌+◌, ◌*◌, ◌/◌, ◌%◌, ◌^◌, ◌≤◌, ◌<◌, ◌≡◌, refl, ◌∙◌, ap, length, true, false, List,
  [], ◌∷◌, ◌++◌, arith, bytes_eq_refl,
}
use mathlib.Core.List.{append-nil}
use mathlib.Core.Path.{ap₂}
use nethogs.Packet.{digits_of, decimal}
use nethogs.Inode2Prog.{
  str2ulong, str2ulong_loop, str2int, str2int_loop, is_number, is_digit, get_info_by_linkname,
  setnode, socket_prefix, ProcFs, InodeProc,
}

abbrev pow10 : ℕ → ℕ
pow10 zero = 1
pow10 (suc k) = 10 * pow10 k

-- A text at which both loops stop.
abbrev pub Stops : List ℕ → Type 0
Stops [] = Unit
Stops (c ∷ rest) = is_digit c ≡ false

ulong_digits :
    (f n : ℕ) (rest : List ℕ)
    → n < pow10 f
    → n < 2 ^ 64
    → str2ulong_loop 0 (digits_of f n rest) ≡ str2ulong_loop n rest
unfolding digits_of str2ulong_loop
ulong_digits zero n rest h k = ap (λ m. str2ulong_loop m rest) (omega arith)
ulong_digits (suc f) n rest h k = ground (arith, ulong_digits f (n / 10) ((b'0' + n % 10) ∷ rest))

int_digits :
    (f n : ℕ) (rest : List ℕ)
    → n < pow10 f
    → str2int_loop 0 (digits_of f n rest) ≡ str2int_loop n rest
unfolding digits_of str2int_loop
int_digits zero n rest h = ap (λ m. str2int_loop m rest) (omega arith)
int_digits (suc f) n rest h = ground (arith, int_digits f (n / 10) ((b'0' + n % 10) ∷ rest))

pub digits_of-append :
    (f n : ℕ) (xs rest : List ℕ) → digits_of f n xs ++ rest ≡ digits_of f n (xs ++ rest)
unfolding digits_of
digits_of-append zero n xs rest = refl
digits_of-append (suc f) n xs rest =
    ground (arith, digits_of-append f (n / 10) ((b'0' + n % 10) ∷ xs) rest)

ulong_stop : (n : ℕ) (rest : List ℕ) → Stops rest → str2ulong_loop n rest ≡ n
unfolding str2ulong_loop
ulong_stop n [] h = refl
ulong_stop n (c ∷ rest) h = rw h

int_stop : (n : ℕ) (rest : List ℕ) → Stops rest → str2int_loop n rest ≡ n
unfolding str2int_loop
int_stop n [] h = refl
int_stop n (c ∷ rest) h = rw h

-- A decimal number that is followed by no digit is read back, if it fits an unsigned long.
pub str2ulong-decimal :
    (n : ℕ) (rest : List ℕ) → n < 2 ^ 64 → Stops rest → str2ulong (decimal n ++ rest) ≡ n
unfolding str2ulong decimal
str2ulong-decimal n rest h k =
    ap (str2ulong_loop 0) (digits_of-append 20 n [] rest)
    ∙ ulong_digits 20 n rest (omega arith) h
    ∙ ulong_stop n rest k

pub str2int-decimal :
    (n : ℕ) (rest : List ℕ) → n < 2 ^ 31 → Stops rest → str2int (decimal n ++ rest) ≡ n
unfolding str2int decimal
str2int-decimal n rest h k =
    ap (str2int_loop 0) (digits_of-append 20 n [] rest)
    ∙ int_digits 20 n rest (omega arith)
    ∙ int_stop n rest k

is_number-digits :
    (f n : ℕ) (rest : List ℕ) → is_number rest ≡ true → is_number (digits_of f n rest) ≡ true
unfolding digits_of is_number
is_number-digits zero n rest h = h
is_number-digits (suc f) n rest h =
    ground (arith, is_number-digits f (n / 10) ((b'0' + n % 10) ∷ rest))

-- The directories of processes pass the test.
pub is_number-decimal : (n : ℕ) → is_number (decimal n) ≡ true
unfolding decimal is_number
is_number-decimal n = is_number-digits 20 n [] refl

-- A link "socket:[<inode>]" in the directory of a process is put down for that inode and process.
pub socket_link-setnode :
    (proc : ProcFs) (t : InodeProc) (pid inode : ℕ)
    → inode < 2 ^ 64
    → pid < 2 ^ 31
    → get_info_by_linkname proc t (decimal pid) (socket_prefix ++ (decimal inode ++ b']' ∷ []))
      ≡ setnode proc t inode pid
unfolding get_info_by_linkname
socket_link-setnode proc t pid inode h k = rw (bytes_eq_refl socket_prefix) (
    ap₂ (setnode proc t) (str2ulong-decimal inode (b']' ∷ []) h refl)
      (rw (append-nil (decimal pid)) at (str2int-decimal pid [] k tt)))

length-digits : (f n : ℕ) (rest : List ℕ) → length (digits_of f n rest) ≤ f + length rest
unfolding digits_of
length-digits zero n rest = omega arith
length-digits (suc f) n rest = ground (arith, length-digits f (n / 10) ((b'0' + n % 10) ∷ rest))

pub length-decimal : (n : ℕ) → length (decimal n) ≤ 20
unfolding decimal
length-decimal n = omega (arith, length-digits 20 n [])
