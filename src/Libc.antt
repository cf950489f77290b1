-- ===== src/Libc.antt =====
-- What the runtime uses of the C library's string functions, in the C locale. A string is its bytes up
-- to the NUL; a pointer into a string is an offset.
pub mod Decimal
pub mod Search
use vader_langue.Prelude.{
  ℕ, suc, zero, ◌+◌, ◌-◌, ◌*◌, ◌/◌, ◌%◌, Bool, true, false, ◌&&◌, ◌||◌, Option, none, some, List,
  [], ◌∷◌, ◌++◌, Bytes, ℤ, pos, negsuc, ltb, leb, ◌==◌, if◌then◌else◌, length, get_elem?,
}

abbrev pub is_space : ℕ → Bool
is_space c = (c == 32) || (leb 9 c && leb c 13)

abbrev pub is_digit : ℕ → Bool
is_digit c = leb b'0' c && leb c b'9'

unfoldable pub to_upper : ℕ → ℕ
to_upper c = if leb b'a' c && leb c b'z' then c - 32 else c

unfoldable pub to_lower : ℕ → ℕ
to_lower c = if leb b'A' c && leb c b'Z' then c + 32 else c

-- `strncmp(s, pre, strlen(pre)) == 0`
unfoldable pub is_prefix : Bytes → Bytes → Bool
is_prefix [] s = true
is_prefix (p ∷ pre) [] = false
is_prefix (p ∷ pre) (c ∷ s) = (p == c) && is_prefix pre s

-- `strstr(s, sub)`: the offset of the first occurrence.
unfoldable pub strstr : Bytes → Bytes → Option ℕ
strstr [] sub = if is_prefix sub [] then some 0 else none
strstr (c ∷ s) sub =
    let rest = strstr s sub in
    if is_prefix sub (c ∷ s) then some 0 else elim rest [ none ↦ none | some k ↦ some (suc k) ]

-- `strchr(s, c)` for a byte that is not NUL: the offset of the first one.
unfoldable pub strchr : Bytes → ℕ → Option ℕ
strchr [] c = none
strchr (x ∷ s) c =
    let rest = strchr s c in
    if x == c then some 0 else elim rest [ none ↦ none | some k ↦ some (suc k) ]

-- `strrchr(s, c)`: the offset of the last one.
unfoldable pub strrchr : Bytes → ℕ → Option ℕ
strrchr [] c = none
strrchr (x ∷ s) c = elim (strrchr s c) [
  | none ↦ if x == c then some 0 else none
  | some k ↦ some (suc k)
]

-- The decimal digits of a number, most significant first; `n` rounds are enough.
unfoldable pub digits_fuel : ℕ → ℕ → Bytes
digits_fuel zero n = (b'0' + n % 10) ∷ []
digits_fuel (suc f) n =
    let rest = digits_fuel f (n / 10) in
    if ltb n 10 then (b'0' + n) ∷ [] else rest ++ (b'0' + n % 10) ∷ []

unfoldable pub digits : ℕ → Bytes
unfolding digits_fuel
digits n = digits_fuel n n

-- `snprintf("%lld")`
unfoldable pub print_int : ℤ → Bytes
unfolding digits
print_int (pos n) = digits n
print_int (negsuc n) = b'-' ∷ digits (suc n)

-- The digits that are read after `acc`.
unfoldable pub scan_digits : ℕ → Bytes → ℕ
scan_digits acc [] = acc
scan_digits acc (c ∷ s) =
    let rest = scan_digits (acc * 10 + (c - b'0')) s in if is_digit c then rest else acc

abbrev pub negate : ℕ → ℤ
negate zero = pos 0
negate (suc n) = negsuc n

unfoldable pub skip_space : Bytes → Bytes
skip_space [] = []
skip_space (c ∷ s) = let rest = skip_space s in if is_space c then rest else c ∷ s

abbrev pub read_signed : Bytes → ℤ
read_signed [] = pos 0
read_signed (c ∷ s) =
    if c == b'-'
    then negate (scan_digits 0 s)
    else if c == b'+'
    then pos (scan_digits 0 s)
    else pos (scan_digits 0 (c ∷ s))

-- `atoll` and `atoi` where the number fits the result's type; elsewhere C leaves it undefined.
unfoldable pub atoll : Bytes → ℤ
unfolding skip_space scan_digits
atoll s = read_signed (skip_space s)
