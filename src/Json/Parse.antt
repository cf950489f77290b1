-- ===== src/Json/Parse.antt =====
-- runtime/vader_json.c, parsing. The cursor `*p` is the rest of the text up to the NUL, or lies past the
-- NUL, where a read is out of bounds.
pub mod Strings
pub mod Plain
pub mod Values
pub mod Prints
pub mod Depth
pub mod RoundTrip
pub mod Progress
pub mod Total
pub mod Faults
mod Tests
use Prim.Native.Nat.{bit_or}
use vader_langue.Prelude.{
  ℕ, suc, zero, ◌+◌, ◌-◌, ◌*◌, ◌/◌, ◌%◌, ◌^◌, Bool, true, false, ◌&&◌, ◌||◌, Option, none, some,
  List, [], ◌∷◌, ◌++◌, Bytes, codes, ◌==◌, ltb, leb, if◌then◌else◌, length, take, drop, ℤ,
}
use vader_langue.Libc.{is_space, is_digit, skip_space}
use vader_langue.Json.{
  JVal, Items, Fields, Doubles, j_null, j_bool, j_int, j_dbl, j_str, j_arr, j_obj, nil, cons, end,
  field,
}

-- `none` is past the NUL.
abbrev pub Cursor : Type 0
Cursor = Option Bytes

-- A result with the cursor after it, a read out of bounds, or fuel that ran out.
pub data Parsed {ℓ} (A : Type ℓ) : Type ℓ where
  parsed : A → Cursor → Parsed A
  fault : Parsed A
  starved : Parsed A

abbrev pub bind {ℓ κ} : {A : Type ℓ} {B : Type κ} → Parsed A → (A → Cursor → Parsed B) → Parsed B
bind (parsed a c) f = f a c
bind fault f = fault
bind starved f = starved

-- `*p += n`
abbrev pub advance : ℕ → Bytes → Cursor
advance n s = if leb n (length s) then some (drop n s) else none

-- `jskip`
unfoldable pub jskip : Bytes → Bytes
jskip [] = []
jskip (c ∷ s) =
    let rest = jskip s in
    if (c == b' ') || ((c == 9) || ((c == 10) || (c == 13))) then rest else c ∷ s

-- The `char *` that ends at the first NUL.
unfoldable pub until_nul : Bytes → Bytes
until_nul [] = []
until_nul (c ∷ s) = let rest = until_nul s in if c == 0 then [] else c ∷ rest

-- `strtol(hex, 0, 16)` as an `unsigned int`; four digits cannot overflow.
abbrev pub hex_digit : ℕ → Option ℕ
hex_digit c =
    if is_digit c
    then some (c - 48)
    else if leb b'a' c && leb c b'f'
    then some (c - 87)
    else if leb b'A' c && leb c b'F'
    then some (c - 55)
    else none

unfoldable pub scan_hex : ℕ → Bytes → ℕ
scan_hex acc [] = acc
scan_hex acc (c ∷ s) = elim (hex_digit c) [ none ↦ acc | some v ↦ scan_hex (acc * 16 + v) s ]

-- An optional `0x` counts only before a hexadecimal digit; otherwise the 0 is the number, which
-- scanning from the start gives too.
abbrev pub skip_0x : Bytes → Bytes
skip_0x (z ∷ x ∷ d ∷ s) =
    if (z == b'0') && ((x == b'x') || (x == b'X'))
    then elim (hex_digit d) [ none ↦ z ∷ x ∷ d ∷ s | some v ↦ d ∷ s ]
    else z ∷ x ∷ d ∷ s
skip_0x s = s

abbrev pub signed_hex : Bytes → ℕ
signed_hex [] = 0
signed_hex (c ∷ s) =
    if c == b'-'
    then (2 ^ 32 - scan_hex 0 (skip_0x s)) % 2 ^ 32
    else if c == b'+'
    then scan_hex 0 (skip_0x s)
    else scan_hex 0 (skip_0x (c ∷ s))

unfoldable pub strtol_16 : Bytes → ℕ
unfolding scan_hex skip_space
strtol_16 s = signed_hex (skip_space s)

-- The bytes of a code point, each cut to a `char`. `0xC0 | (cp >> 6)` and the like have no common bits
-- for a `cp` below 2^16; a greater one, from a sign, is cut as the code does.
unfoldable pub utf8 : ℕ → Bytes
utf8 cp =
    if ltb cp 0x80
    then cp ∷ []
    else if ltb cp 0x800
    then bit_or 0xC0 (cp / 2 ^ 6) % 256 ∷ bit_or 0x80 (cp % 64) % 256 ∷ []
    else bit_or 0xE0 (cp / 2 ^ 12) % 256
      ∷ bit_or 0x80 (cp / 2 ^ 6 % 64) % 256
      ∷ bit_or 0x80 (cp % 64) % 256
      ∷ []

-- The simple escapes; any other byte stands for itself.
unfoldable pub simple_escape : ℕ → ℕ
simple_escape e =
    if e == b'n'
    then 10
    else if e == b't'
    then 9
    else if e == b'r'
    then 13
    else if e == b'b'
    then 8
    else if e == b'f'
    then 12
    else e

-- The switch behind a backslash: the bytes put out, and the cursor. `none` is a read out of bounds;
-- the four bytes of `\u` may include the NUL.
unfoldable pub escaped : Bytes → Option (Bytes × Cursor)
unfolding simple_escape
escaped [] = some (0 ∷ [], none)
escaped (e ∷ s) =
    if e == b'u'
    then (if ltb (length s) 3 then none else some (utf8 (strtol_16 (take 4 s)), advance 4 s))
    else some (simple_escape e ∷ [], some s)

-- The loop of `jparse_str`, with the bytes put out so far.
unfoldable pub str_loop : ℕ → Bytes → Cursor → Parsed Bytes
str_loop zero out c = starved
str_loop (suc f) out none = fault
str_loop (suc f) out (some []) = parsed (until_nul out) (some [])
str_loop (suc f) out (some (c ∷ s)) =
    let behind : Parsed Bytes = elim (escaped s) [
      | none ↦ fault
      | some (o, c') ↦ str_loop f (out ++ o) c'
    ] in
    let plain = str_loop f (out ++ c ∷ []) (some s) in
    if c == b'"' then parsed (until_nul out) (some s) else if c == b'\\' then behind else plain

-- `jparse_str`: the first byte, whatever it is, is passed over.
unfoldable pub jparse_str : Cursor → Parsed Bytes
unfolding str_loop
jparse_str none = fault
jparse_str (some []) = fault
jparse_str (some (c ∷ s)) = str_loop (suc (length s)) [] (some s)

-- Twice the length.
abbrev pub twice : Bytes → ℕ
twice [] = 0
twice (c ∷ s) = suc (suc (twice s))

-- `**p`, the NUL at the end.
abbrev pub peek : Bytes → ℕ
peek [] = 0
peek (c ∷ s) = c

abbrev pub jskip_cursor : Cursor → Cursor
jskip_cursor none = none
jskip_cursor (some s) = some (jskip s)

-- `if (**p == c) (*p)++`
abbrev pub pass : ℕ → Cursor → Cursor
pass c none = none
pass c (some s) = if peek s == c then some (drop 1 s) else some s

-- `integer if there's no . nor e/E in the consumed span`
unfoldable pub is_int_span : Bytes → Bool
is_int_span [] = true
is_int_span (c ∷ s) =
    let rest = is_int_span s in if (c == b'.') || ((c == b'e') || (c == b'E')) then false else rest

module _ (d : Doubles) where
  open d use {Double, strtod, to_ll}

  -- The end of `jparse_val`.
  unfoldable pub number : Bytes → Parsed (JVal Double)
  number s =
      let (x, n) = strtod s in
      parsed (if is_int_span (take n s) then j_int (to_ll x) else j_dbl x) (some (drop n s))

  -- What follows an element: a comma and the rest, or the closing bracket, which may be missing.
  abbrev pub follow {ℓ} : {A : Type ℓ} → ℕ → (Cursor → Parsed A) → A → Cursor → Parsed A
  follow close more last none = fault
  follow close more last (some s) =
      let t = jskip s in
      if peek t == b',' then more (some (drop 1 t)) else parsed last (pass close (some t))

  unfoldable mutual
    pub jparse_val : ℕ → Cursor → Parsed (JVal Double)
    jparse_val zero c = starved
    jparse_val (suc f) none = fault
    jparse_val (suc f) (some s) =
        let t = jskip s in
        let inside = jskip (drop 1 t) in
        let obj = bind (jparse_fields f (some inside)) (λ fs c. parsed (j_obj fs) c) in
        let arr = bind (jparse_items f (some inside)) (λ xs c. parsed (j_arr xs) c) in
        if peek t == b'{'
        then (if peek inside == b'}' then parsed (j_obj end) (some (drop 1 inside)) else obj)
        else if peek t == b'['
        then (if peek inside == b']' then parsed (j_arr nil) (some (drop 1 inside)) else arr)
        else if peek t == b'"'
        then bind (jparse_str (some t)) (λ x c. parsed (j_str x) c)
        else if peek t == b't'
        then parsed (j_bool 1) (advance 4 t)
        else if peek t == b'f'
        then parsed (j_bool 0) (advance 5 t)
        else if peek t == b'n'
        then parsed j_null (advance 4 t)
        else number t

    pub jparse_items : ℕ → Cursor → Parsed (Items Double)
    jparse_items zero c = starved
    jparse_items (suc f) c = bind (jparse_val f c) (λ v c1.
        follow b']' (λ c2. bind (jparse_items f c2) (λ xs c3. parsed (cons v xs) c3)) (cons v nil)
          c1)

    pub jparse_fields : ℕ → Cursor → Parsed (Fields Double)
    jparse_fields zero c = starved
    jparse_fields (suc f) c = bind (jparse_str (jskip_cursor c)) (λ k c1.
        bind (jparse_val f (pass b':' (jskip_cursor c1))) (λ v c2.
          follow b'}' (λ c3. bind (jparse_fields f c3) (λ fs c4. parsed (field k v fs) c4))
            (field k v end) c2))

  -- A bracket takes a call for the value and one for each element behind it, so two calls for each byte
  -- are enough, and one more for the end.
  unfoldable pub json_parse : Bytes → Parsed (JVal Double)
  unfolding jparse_val
  json_parse s = jparse_val (suc (twice s)) (some s)
