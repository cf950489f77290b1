-- ===== src/Scram/Base64.antt =====
-- runtime/vader_scram.c: base64.
pub mod RoundTrip
mod Tests
use vader_langue.Prelude.{
  ℕ, suc, zero, ◌+◌, ◌-◌, ◌*◌, ◌/◌, ◌%◌, ◌^◌, Bool, true, false, ◌&&◌, Option, none, some, List, [],
  ◌∷◌, ◌++◌, Bytes, codes, ◌==◌, ltb, leb, if◌then◌else◌, length, get_or,
}

-- `B64`
abbrev pub b64 : Bytes
b64 = codes "ABCDEFGHIJKLMNOPQRSTUVWXYZabcdefghijklmnopqrstuvwxyz0123456789+/"

-- `B64[(n >> k) & 63]`
abbrev pub digit : ℕ → ℕ → ℕ
digit n k = get_or b64 (n / 2 ^ k % 64) 0

-- `vader_scram_b64encode`. The bytes of a group have no common bits, so `|=` is a sum.
unfoldable pub b64encode : Bytes → Bytes
b64encode [] = []
b64encode (x ∷ []) = let n = x * 2 ^ 16 in digit n 18 ∷ digit n 12 ∷ b'=' ∷ b'=' ∷ []
b64encode (x ∷ y ∷ []) =
    let n = x * 2 ^ 16 + y * 2 ^ 8 in digit n 18 ∷ digit n 12 ∷ digit n 6 ∷ b'=' ∷ []
b64encode (x ∷ y ∷ z ∷ s) =
    let n = x * 2 ^ 16 + y * 2 ^ 8 + z in
    digit n 18 ∷ digit n 12 ∷ digit n 6 ∷ digit n 0 ∷ b64encode s

-- `b64_val`, `none` for -1.
unfoldable pub b64_val : ℕ → Option ℕ
b64_val c =
    if leb b'A' c && leb c b'Z'
    then some (c - 65)
    else if leb b'a' c && leb c b'z'
    then some (c - 97 + 26)
    else if leb b'0' c && leb c b'9'
    then some (c - 48 + 52)
    else if c == b'+'
    then some 62
    else if c == b'/'
    then some 63
    else none

-- The loop of `vader_scram_b64decode`. `acc << 6` leaves the 6 low bits free, so `|` is a sum; `acc` is
-- 32 bits wide.
unfoldable pub decode_from : ℕ → ℕ → Bytes → Bytes
decode_from bits acc [] = []
decode_from bits acc (c ∷ s) = elim (b64_val c) [
  | none ↦ decode_from bits acc s
  | some v ↦
      let acc1 = (acc * 2 ^ 6 + v) % 2 ^ 32 in
      let out = decode_from (bits + 6 - 8) acc1 s in
      let more = decode_from (bits + 6) acc1 s in
      if leb 8 (bits + 6) then acc1 / 2 ^ (bits + 6 - 8) % 256 ∷ out else more
]

unfoldable pub b64decode : Bytes → Bytes
unfolding decode_from
b64decode s = decode_from 0 0 s
