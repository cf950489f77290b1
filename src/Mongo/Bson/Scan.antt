-- ===== src/Mongo/Bson/Scan.antt =====
-- runtime/vader_mongo.c: the search for a field in a BSON document, and the documents of the login.
use vader_langue.Prelude.{
  ℕ, suc, zero, ◌+◌, ◌-◌, ◌%◌, ◌^◌, Bool, Option, none, some, [], ◌∷◌, ◌++◌, Bytes, codes, bytes_eq,
  ◌==◌, ltb, if◌then◌else◌, length, take, drop,
}
use vader_langue.Libc.{strchr}
use vader_langue.Net.{low_bytes, little}
use vader_langue.Mongo.Bson.{enclosed, counted_str, elem_head}

-- The size of a value, that it is below 0, or that it is read outside the buffer.
pub data Size : Type 0 where
  known : ℕ → Size
  unknown : Size
  astray : Size

-- `n + rd_i32(p)`
abbrev pub plus_i32 : ℕ → Bytes → Size
plus_i32 n p =
    let sum = (n + little (take 4 p)) % 2 ^ 32 in
    if ltb (length p) 4 then astray else if ltb sum (2 ^ 31) then known sum else unknown

unfoldable pub bson_value_size : ℕ → Bytes → Size
bson_value_size type p =
    if type == 0x01
    then known 8
    else if type == 0x02
    then plus_i32 4 p
    else if type == 0x03
    then plus_i32 0 p
    else if type == 0x04
    then plus_i32 0 p
    else if type == 0x05
    then plus_i32 5 p
    else if type == 0x07
    then known 12
    else if type == 0x08
    then known 1
    else if type == 0x09
    then known 8
    else if type == 0x10
    then known 4
    else if type == 0x11
    then known 8
    else if type == 0x12
    then known 8
    else if type == 0x0a
    then known 0
    else unknown

-- What `bson_scan` returns: a null pointer, or the type and the bytes from the value on; `none` where it goes
-- astray.
abbrev pub Hit : Type 0
Hit = Option (Option (ℕ × Bytes))

-- A round behind the key, for the size of the value.
abbrev pub passed : (ℕ → Bytes → Hit) → Bool → ℕ → ℕ → Bytes → Size → Hit
passed again same left type p astray = none
passed again same left type p unknown = some none
passed again same left type p (known n) =
    let rest = again (left - n) (drop n p) in if same then some (some (type, p)) else rest

-- A round behind the type, for the place of the key's NUL.
abbrev pub at_key : (ℕ → Bytes → Hit) → Bytes → ℕ → ℕ → Bytes → Option ℕ → Hit
at_key again key left type q none = none
at_key again key left type q (some k) =
    let p = drop (suc k) q in
    passed again (bytes_eq (take k q) key) (left - suc k) type p (bson_value_size type p)

-- The loop of `bson_scan`, with `left` bytes before `end - 1`, for at most `fuel` elements.
unfoldable pub scan : ℕ → Bytes → ℕ → Bytes → Hit
scan zero key left q = none
scan (suc fuel) key zero q = some none
scan (suc fuel) key (suc left) [] = none
scan (suc fuel) key (suc left) (zero ∷ q) = some none
scan (suc fuel) key (suc left) (suc t ∷ q) = at_key (scan fuel key) key left (suc t) q (strchr q 0)

-- `bson_scan`. A negative length leaves no element.
unfoldable pub bson_scan : Bytes → Bytes → Hit
bson_scan doc key =
    let len = little (take 4 doc) in
    if ltb (length doc) 4
    then none
    else if ltb len (2 ^ 31)
    then scan (suc (length doc)) key (len - 5) (drop 4 doc)
    else some none

-- The number of the conversation, `none` for one below 0: then the mechanism is named.
abbrev pub conversation : Option ℕ → Bytes
conversation (some n) = elem_head 0x10 (codes "conversationId") ++ low_bytes 4 n
conversation none = elem_head 0x02 (codes "mechanism") ++ counted_str (codes "SCRAM-SHA-256")

-- `build_sasl`
unfoldable pub build_sasl : Bytes → Option ℕ → Bytes → Bytes → Bytes
build_sasl name convid payload db = enclosed (
    elem_head 0x10 name
    ++ (low_bytes 4 1
        ++ (conversation convid
            ++ (elem_head 0x05 (codes "payload")
                ++ (low_bytes 4 (length payload)
                    ++ (0 ∷ payload ++ (elem_head 0x02 (codes "$db") ++ counted_str db)))))))
