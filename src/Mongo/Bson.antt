-- ===== src/Mongo/Bson.antt =====
-- runtime/vader_mongo.c: JSON trees as BSON documents. A byte buffer is its bytes.
pub mod Scan
pub mod Steps
pub mod Values
pub mod Stored
pub mod RoundTrip
use vader_langue.Prelude.{
  ℕ, suc, zero, ◌+◌, ◌-◌, ◌*◌, ◌^◌, Bool, true, false, Option, none, some, [], ◌∷◌, ◌++◌, Bytes,
  ◌==◌, ltb, if◌then◌else◌, ◌>>=◌, length, take, drop, ℤ, pos, negsuc, to_u64,
}
use vader_langue.Libc.{strchr, digits}
use vader_langue.Net.{low_bytes, little}
use vader_langue.Pg.Md5.{md5_hex}
use vader_langue.Json.{
  JVal, j_null, j_bool, j_int, j_dbl, j_str, j_arr, j_obj, Items, nil, cons, Fields, end, field,
}
use vader_langue.Json.Tree.{obj_set, arr_add, flag}

-- How a `double` lies in memory, and the tests `x < 0.5` and `x > 0.5`.
pub record Codec (D : Type 0) : Type 0 where
  pub bits : D → Bytes
  pub of_bits : Bytes → D
  pub below_half : D → Bool
  pub above_half : D → Bool

-- `rd_i32` and `rd_i64` of enough bytes, for 4 and 8 bytes.
abbrev pub signed : ℕ → ℕ → ℤ
signed w n = if ltb n (2 ^ (w - 1)) then pos n else negsuc (2 ^ w - 1 - n)

-- The length is put in where its place was kept.
abbrev pub enclosed : Bytes → Bytes
enclosed s = low_bytes 4 (4 + length s + 1) ++ (s ++ 0 ∷ [])

-- A string with its NUL, behind its length.
abbrev pub counted_str : Bytes → Bytes
counted_str s = low_bytes 4 (length s + 1) ++ (s ++ 0 ∷ [])

-- The type and the key of an element.
abbrev pub elem_head : ℕ → Bytes → Bytes
elem_head type key = type ∷ (key ++ 0 ∷ [])

module _ {D : Type 0} (x : Codec D) where
  unfoldable mutual
    pub bson_elem : Bytes → JVal D → Bytes
    bson_elem key (j_dbl d) = elem_head 0x01 key ++ x.bits d
    bson_elem key (j_str s) = elem_head 0x02 key ++ counted_str s
    bson_elem key (j_obj fs) = elem_head 0x03 key ++ enclosed (bson_fields fs)
    bson_elem key (j_arr items) = elem_head 0x04 key ++ enclosed (bson_items 0 items)
    bson_elem key (j_bool b) = elem_head 0x08 key ++ (if b == 0 then 0 else 1) ∷ []
    bson_elem key (j_int i) = elem_head 0x12 key ++ low_bytes 8 (to_u64 i)
    bson_elem key j_null = elem_head 0x0a key

    -- The elements of `bson_doc`, from number `i` on.
    pub bson_items : ℕ → Items D → Bytes
    bson_items i nil = []
    bson_items i (cons v items) = bson_elem (digits i) v ++ bson_items (suc i) items

    pub bson_fields : Fields D → Bytes
    bson_fields end = []
    bson_fields (field key v fs) = bson_elem key v ++ bson_fields fs

  -- A value that is neither an array nor an object counts no keys.
  unfoldable pub bson_doc : JVal D → Bytes
  bson_doc (j_arr items) = enclosed (bson_items 0 items)
  bson_doc (j_obj fs) = enclosed (bson_fields fs)
  bson_doc v = enclosed []

-- What `decode_elem` finds: a value and the bytes that it takes, an array or an object of some length, or
-- that it would read outside the buffer or go back in it.
pub data Found (D : Type 0) : Type 0 where
  leaf : JVal D → ℕ → Found D
  nested : Bool → ℕ → Found D
  astray : Found D

module _ {D : Type 0} where
  -- A value for which `n` bytes are read.
  abbrev pub sized : ℕ → Bytes → JVal D → Found D
  sized n p v = if ltb (length p) n then astray else leaf v n

  -- A string of length `l`, for the place of the first NUL behind the length.
  abbrev pub found_str : Bytes → ℕ → Option ℕ → Found D
  found_str p l none = astray
  found_str p l (some n) =
      if ltb l (2 ^ 31) then leaf (j_str (take n (drop 4 p))) (4 + l) else astray

  abbrev pub found_doc : Bytes → Bool → Found D
  found_doc p as_arr =
      let len = little (take 4 p) in
      if ltb (length p) 4 then astray else if ltb len (2 ^ 31) then nested as_arr len else astray

  -- `as_arr` is about the document that the value goes into: a Boolean of an array is kept as its byte.
  unfoldable pub found : Codec D → Bool → ℕ → Bytes → Found D
  found x as_arr type p =
      if type == 0x01
      then sized 8 p (j_dbl (x.of_bits (take 8 p)))
      else if type == 0x02
      then (if ltb (length p) 4
          then astray
          else found_str p (little (take 4 p)) (strchr (drop 4 p) 0))
      else if type == 0x03
      then found_doc p false
      else if type == 0x04
      then found_doc p true
      else if type == 0x07
      then sized 12 p (j_str (md5_hex (take 12 p)))
      else if type == 0x08
      then sized 1 p (if as_arr then j_bool (little (take 1 p)) else flag (pos (little (take 1 p))))
      else if type == 0x09
      then sized 8 p (j_int (signed 64 (little (take 8 p))))
      else if type == 0x10
      then sized 4 p (j_int (signed 32 (little (take 4 p))))
      else if type == 0x12
      then sized 8 p (j_int (signed 64 (little (take 8 p))))
      else leaf (j_str []) 0

  -- `vader_json_add…` or `vader_json_set…`
  abbrev pub attach : Bool → JVal D → Bytes → JVal D → JVal D
  attach as_arr parent key v = if as_arr then arr_add parent v else obj_set parent key v

  abbrev pub empty : Bool → JVal D
  empty as_arr = if as_arr then j_arr nil else j_obj end

  -- `decode_elem` on the bytes `p` behind the key, and the rounds that follow it.
  abbrev pub placed :
      (Bool → JVal D → ℕ → Bytes → Option (JVal D))
      → Bool
      → JVal D
      → ℕ
      → Bytes
      → Bytes
      → Found D
      → Option (JVal D)
  placed again as_arr parent left key p astray = none
  placed again as_arr parent left key p (leaf v n) =
      again as_arr (attach as_arr parent key v) (left - n) (drop n p)
  placed again as_arr parent left key p (nested arr len) =
      again arr (empty arr) (len - 5) (drop 4 p)
      >>= (λ child. again as_arr (attach as_arr parent key child) (left - len) (drop len p))

  -- One round, behind the type, for the place of the key's NUL.
  abbrev pub keyed :
      Codec D
      → (Bool → JVal D → ℕ → Bytes → Option (JVal D))
      → Bool
      → JVal D
      → ℕ
      → ℕ
      → Bytes
      → Option ℕ
      → Option (JVal D)
  keyed x again as_arr parent left type q none = none
  keyed x again as_arr parent left type q (some k) =
      placed again as_arr parent (left - suc k) (take k q) (drop (suc k) q)
        (found x as_arr type (drop (suc k) q))

  -- The loop of `bson_decode`, with `left` bytes before `end - 1`, for at most `fuel` elements in each
  -- document; `none` where it goes astray.
  unfoldable pub decode : Codec D → ℕ → Bool → JVal D → ℕ → Bytes → Option (JVal D)
  decode x zero as_arr parent left q = none
  decode x (suc fuel) as_arr parent zero q = some parent
  decode x (suc fuel) as_arr parent (suc left) [] = none
  decode x (suc fuel) as_arr parent (suc left) (zero ∷ q) = some parent
  decode x (suc fuel) as_arr parent (suc left) (suc t ∷ q) =
      keyed x (decode x fuel) as_arr parent left (suc t) q (strchr q 0)

  -- `bson_decode` of a buffer. A negative length leaves no element.
  unfoldable pub bson_decode : Codec D → Bytes → Bool → Option (JVal D)
  bson_decode x p as_arr =
      let len = little (take 4 p) in
      if ltb (length p) 4
      then none
      else if ltb len (2 ^ 31)
      then decode x (suc (length p)) as_arr (empty as_arr) (len - 5) (drop 4 p)
      else some (empty as_arr)
