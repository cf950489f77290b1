-- ===== src/Mongo/Bson/Values.antt =====
-- The values of BSON elements, as the encoder writes them, and what the decoder finds.
use vader_langue.Prelude.{
  ◌+◌, ◌-◌, ◌%◌, ◌^◌, ◌≡◌, ◌<◌, refl, ap, sym, ◌∙◌, arith, Bool, some, [], ◌∷◌, ◌++◌, append_assoc,
  true, false, Bytes, if◌then◌else◌, lt→ltb, le→ltb, length, length-append, take,
  take-length-append, ℤ, pos, negsuc, to_u64,
}
use vader_langue.Libc.{strchr}
use vader_langue.Net.{low_bytes, little}
use vader_langue.Net.Transfer.{little-low_bytes}
use vader_langue.Net.Dsn.Parts.{Without, strchr-append}
use vader_langue.Json.{j_bool, j_int, j_dbl, j_str}
use vader_langue.Json.Tree.{flag}
use vader_langue.Mongo.Bson.{
  Codec, signed, enclosed, counted_str, leaf, nested, found_doc, sized, found,
}

-- The numbers of a `long long`.
abbrev pub Fits : ℤ → Type 0
Fits (pos n) = n < 2 ^ 63
Fits (negsuc n) = n < 2 ^ 63

signed-to_u64 : (i : ℤ) → Fits i → signed 64 (to_u64 i) ≡ i
signed-to_u64 (pos n) h =
    let same : n % 2 ^ 64 ≡ n = omega arith in rw (same, lt→ltb n (2 ^ 63) h) refl
signed-to_u64 (negsuc n) h =
    let same : n % 2 ^ 64 ≡ n = omega arith in
    let back : 2 ^ 64 - 1 - (2 ^ 64 - 1 - n) ≡ n = omega arith in
    rw (same, le→ltb (2 ^ 64 - 1 - n) (2 ^ 63) (omega arith), back) refl

to_u64_bound : (i : ℤ) → to_u64 i < 2 ^ 64
to_u64_bound (pos n) = omega arith
to_u64_bound (negsuc n) = omega arith

pub length-enclosed : (s : Bytes) → length (enclosed s) ≡ length s + 5
length-enclosed s = omega (arith, length-append s (0 ∷ []))

pub length-counted_str : (s : Bytes) → length (counted_str s) ≡ length s + 5
length-counted_str s = omega (arith, length-append s (0 ∷ []))

-- Of 0 and 1 both sides of the decoder keep the byte.
flag_byte :
    {D : Type 0} (as_arr b : Bool) (q : Bytes)
    → sized {D = D} 1 ((if b then 0 else 1) ∷ q) (
        if as_arr
        then j_bool (little ((if b then 0 else 1) ∷ []))
        else flag (pos (little ((if b then 0 else 1) ∷ []))))
      ≡ leaf (flag (pos (if b then 0 else 1))) 1
flag_byte true true q = rw (le→ltb (length (0 ∷ q)) 1 (omega arith)) refl
flag_byte true false q = rw (le→ltb (length (1 ∷ q)) 1 (omega arith)) refl
flag_byte false true q = rw (le→ltb (length (0 ∷ q)) 1 (omega arith)) refl
flag_byte false false q = rw (le→ltb (length (1 ∷ q)) 1 (omega arith)) refl

module _ {D : Type 0} (x : Codec D) (as_arr : Bool) where
  pub found-dbl :
      (d : D) (q : Bytes)
      → length (x.bits d) ≡ 8
      → x.of_bits (x.bits d) ≡ d
      → found x as_arr 0x01 (x.bits d ++ q) ≡ leaf (j_dbl d) (length (x.bits d))
  unfolding found
  found-dbl d q h e =
      let front : take 8 (x.bits d ++ q) ≡ x.bits d =
        ap (λ n. take n (x.bits d ++ q)) (sym h) ∙ take-length-append (x.bits d) q in
      rw
        (le→ltb (length (x.bits d ++ q)) 8 (omega (arith, length-append (x.bits d) q, h)), front, e)
        (ap (leaf (j_dbl d)) (sym h))

  pub found-str :
      (s q : Bytes)
      → Without 0 s
      → length s + 5 < 2 ^ 31
      → found x as_arr 0x02 (counted_str s ++ q) ≡ leaf (j_str s) (length (counted_str s))
  unfolding found
  found-str s q h l =
      let n : little (low_bytes 4 (length s + 1)) ≡ length s + 1 =
        little-low_bytes 4 (length s + 1) (omega arith) in
      let behind = append_assoc s (0 ∷ []) q in
      let place : strchr ((s ++ 0 ∷ []) ++ q) 0 ≡ some (length s) =
        ap (λ t. strchr t 0) behind ∙ strchr-append 0 s q h in
      let front : take (length s) ((s ++ 0 ∷ []) ++ q) ≡ s =
        ap (take (length s)) behind ∙ take-length-append s (0 ∷ q) in
      rw
        (
          le→ltb (length (counted_str s ++ q)) 4 (omega arith),
          place,
          n,
          lt→ltb (length s + 1) (2 ^ 31) (omega arith),
          front,
        )
        (ap (leaf (j_str s)) (omega (arith, length-counted_str s)))

  pub found_doc-enclosed :
      (s q : Bytes) (arr : Bool)
      → length s + 5 < 2 ^ 31
      → found_doc {D = D} (enclosed s ++ q) arr ≡ nested arr (length (enclosed s))
  found_doc-enclosed s q arr h =
      let n : little (low_bytes 4 (4 + length s + 1)) ≡ 4 + length s + 1 =
        little-low_bytes 4 (4 + length s + 1) (omega arith) in
      rw
        (
          le→ltb (length (enclosed s ++ q)) 4 (omega arith),
          n,
          lt→ltb (4 + length s + 1) (2 ^ 31) (omega arith),
        )
        (ap (nested arr) (omega (arith, length-enclosed s)))

  pub found-int :
      (i : ℤ) (q : Bytes)
      → Fits i
      → found x as_arr 0x12 (low_bytes 8 (to_u64 i) ++ q)
        ≡ leaf (j_int i) (length (low_bytes 8 (to_u64 i)))
  unfolding found
  found-int i q h =
      rw
        (
          le→ltb (length (low_bytes 8 (to_u64 i) ++ q)) 8 (omega arith),
          little-low_bytes 8 (to_u64 i) (to_u64_bound i),
          signed-to_u64 i h,
        )
        refl

  pub found-bool :
      (b : Bool) (q : Bytes)
      → found x as_arr 0x08 ((if b then 0 else 1) ∷ q) ≡ leaf (flag (pos (if b then 0 else 1))) 1
  unfolding found
  found-bool b q = flag_byte as_arr b q

  pub found-null : (q : Bytes) → found x as_arr 0x0a q ≡ leaf (j_str []) 0
  unfolding found
  found-null q = refl
