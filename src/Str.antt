-- ===== src/Str.antt =====
-- runtime/vader_str.c: the string library. A string is its bytes up to the NUL; the copies in the arena
-- are new strings. Strings are shorter than 2^31 bytes, so that the casts to `int` are exact.
pub mod Trim
pub mod Sums
pub mod Scan
pub mod Parts
pub mod Slices
mod Tests
use vader_langue.Prelude.{
  ℕ, suc, zero, ◌+◌, ◌-◌, ◌*◌, ◌^◌, Bool, true, false, ◌&&◌, not, Option, none, some, List, [], ◌∷◌,
  ◌++◌, map, Bytes, ℤ, pos, negsuc, ltb, leb, ◌==◌, if◌then◌else◌, bytes_eq, length, take, drop,
  get_or,
}
use vader_langue.Libc.{is_space, to_upper, to_lower, is_prefix, strstr, atoll, skip_space}

unfoldable pub str_length : Bytes → ℤ
str_length s = pos (length s)

unfoldable pub upper : Bytes → Bytes
upper s = map to_upper s

unfoldable pub lower : Bytes → Bytes
lower s = map to_lower s

-- `while (n > 0 && isspace(s[n - 1])) n--;`
unfoldable pub trim_end : Bytes → ℕ → ℕ
trim_end s zero = 0
trim_end s (suc n) = let rest = trim_end s n in if is_space (get_or s n 0) then rest else suc n

unfoldable pub trim : Bytes → Bytes
unfolding trim_end
trim s = let t = skip_space s in take (trim_end t (length t)) t

unfoldable pub contains : Bytes → Bytes → Bool
contains s sub = elim (strstr s sub) [ none ↦ false | some k ↦ true ]

unfoldable pub index_of : Bytes → Bytes → ℤ
index_of s sub = elim (strstr s sub) [ none ↦ negsuc 0 | some k ↦ pos k ]

unfoldable pub starts_with : Bytes → Bytes → Bool
starts_with s pre = is_prefix pre s

unfoldable pub ends_with : Bytes → Bytes → Bool
ends_with s suf = leb (length suf) (length s) && bytes_eq (drop (length s - length suf) s) suf

-- `if (start < 0) start = 0`
abbrev pub clamp_start : ℤ → ℕ
clamp_start (pos n) = n
clamp_start (negsuc n) = 0

-- `if (end > n) end = n; if (end < start) end = start;` for a `start` that is not negative.
abbrev pub clamp_end : ℕ → ℕ → ℤ → ℕ
clamp_end n start (pos e) =
    let cut = if ltb n e then n else e in if ltb cut start then start else cut
clamp_end n start (negsuc e) = start

unfoldable pub substring : Bytes → ℤ → ℤ → Bytes
substring s start end =
    let st = clamp_start start in take (clamp_end (length s) st end - st) (drop st s)

-- The copies of `vader_str_repeat`, `times` of them.
unfoldable pub copies : Bytes → ℕ → Bytes
copies s zero = []
copies s (suc t) = s ++ copies s t

unfoldable pub repeat : Bytes → ℤ → Bytes
unfolding copies
repeat s (pos t) = copies s t
repeat s (negsuc t) = []

-- `while ((p = strstr(p, sep))) { cnt++; p += lsep; }` from `p`, at most `fuel` rounds.
unfoldable pub count_from : ℕ → Bytes → Bytes → ℕ
count_from zero sep p = 0
count_from (suc fuel) sep p = elim (strstr p sep) [
  | none ↦ 0
  | some k ↦ suc (count_from fuel sep (drop (k + length sep) p))
]

-- The copying loop of `vader_str_replace`.
unfoldable pub replace_from : ℕ → Bytes → Bytes → Bytes → Bytes
replace_from zero old new p = []
replace_from (suc fuel) old new [] = []
replace_from (suc fuel) old new (c ∷ p) =
    let hit = new ++ replace_from fuel old new (drop (length old) (c ∷ p)) in
    let miss = c ∷ replace_from fuel old new p in if is_prefix old (c ∷ p) then hit else miss

-- A round of either loop passes at least one byte, so one round for each byte is enough.
unfoldable pub replace : Bytes → Bytes → Bytes → Bytes
unfolding replace_from
replace s old new = if length old == 0 then s else replace_from (length s) old new s

-- `a - b` on `int`.
abbrev pub int_sub : ℕ → ℕ → ℤ
int_sub a b = if leb b a then pos (a - b) else negsuc (b - a - 1)

-- `n + cnt * (ln - lo)` on `int`; `none` where the product or the sum overflows, which C leaves undefined.
unfoldable pub sum_len : ℕ → ℕ → ℕ → ℕ → Option ℤ
sum_len n cnt ln lo =
    if leb lo ln
    then (if ltb (n + cnt * (ln - lo)) (2 ^ 31) then some (pos (n + cnt * (ln - lo))) else none)
    else if leb (cnt * (lo - ln)) (2 ^ 31)
    then some (int_sub n (cnt * (lo - ln)))
    else none

-- `outlen`, for which `vader_str_replace` allocates one byte more.
unfoldable pub replace_len : Bytes → Bytes → Bytes → Option ℤ
unfolding count_from
replace_len s old new = sum_len (length s) (count_from (length s) old s) (length new) (length old)

-- The loop of `vader_str_split`; the last round has no hit.
unfoldable pub split_from : ℕ → Bytes → Bytes → List Bytes
split_from zero sep start = start ∷ []
split_from (suc fuel) sep start = elim (strstr start sep) [
  | none ↦ start ∷ []
  | some k ↦ take k start ∷ split_from fuel sep (drop (k + length sep) start)
]

unfoldable pub split : Bytes → Bytes → List Bytes
unfolding split_from
split s sep = if length sep == 0 then s ∷ [] else split_from (length s) sep s

-- The pieces that `vader_str_split` allocates for.
unfoldable pub split_count : Bytes → Bytes → ℕ
unfolding count_from
split_count s sep = if length sep == 0 then 1 else suc (count_from (length s) sep s)

-- The loop of `vader_str_join`; the flag is `i != 0`.
unfoldable pub join_from : Bool → List Bytes → Bytes → Bytes
join_from more [] sep = []
join_from more (p ∷ ps) sep = (if more then sep else []) ++ (p ++ join_from true ps sep)

unfoldable pub join : List Bytes → Bytes → Bytes
unfolding join_from
join parts sep = join_from false parts sep

-- `total`, for which `vader_str_join` allocates one byte more.
unfoldable pub join_len : Bool → List Bytes → Bytes → ℕ
join_len more [] sep = 0
join_len more (p ∷ ps) sep = length p + (if more then length sep else 0) + join_len true ps sep

unfoldable pub to_int : Bytes → ℤ
to_int s = atoll s

-- `vader_str_to_float`; `strtod` gives a double and the number of bytes that it takes.
unfoldable pub to_float : {D : Type 0} → (Bytes → D × ℕ) → Bytes → D
to_float strtod s = (strtod s).0
