-- ===== src/Mysql/Packet/Lengths.antt =====
-- Length-encoded integers as the protocol writes them.
use vader_langue.Prelude.{
  ℕ, ◌^◌, ◌≡◌, ◌<◌, ◌≤◌, refl, ap, sym, ◌∙◌, arith, some, [], ◌∷◌, ◌++◌, Bytes, ltb, ltb→lt, le→ltb,
  Bool-cases, inl, inr, if◌then◌else◌, length, length-append, take, drop, take-length-append,
  drop-length-append,
}
use vader_langue.Net.{low_bytes}
use vader_langue.Net.Transfer.{range, length-low_bytes, little-low_bytes}
use vader_langue.Mysql.Packet.{fixed, lenenc_int}

-- A number as the protocol's documentation has it.
unfoldable pub lenenc : ℕ → Bytes
lenenc n =
    if ltb n 0xfb
    then n ∷ []
    else if ltb n (2 ^ 16)
    then 0xfc ∷ low_bytes 2 n
    else if ltb n (2 ^ 24)
    then 0xfd ∷ low_bytes 3 n
    else 0xfe ∷ low_bytes 8 n

fixed-low_bytes :
    (k n : ℕ) (rest : Bytes) → n < range k → fixed k (low_bytes k n ++ rest) ≡ some (n, rest)
unfolding fixed
fixed-low_bytes k n rest h =
    let d = low_bytes k n in
    let front =
      ap (λ j. take j (d ++ rest)) (sym (length-low_bytes k n)) ∙ take-length-append d rest in
    let behind =
      ap (λ j. drop j (d ++ rest)) (sym (length-low_bytes k n)) ∙ drop-length-append d rest in
    rw
      (
        le→ltb (length (d ++ rest)) k (omega (arith, length-append d rest, length-low_bytes k n)),
        front,
        behind,
        little-low_bytes k n h,
      )
      refl

-- The client reads back every number that the protocol can write, and is left with what follows it.
pub lenenc_int-lenenc :
    (n : ℕ) (rest : Bytes) → n < 2 ^ 64 → lenenc_int (lenenc n ++ rest) ≡ some (n, rest)
unfolding lenenc lenenc_int
lenenc_int-lenenc n rest h = elim (Bool-cases (ltb n 0xfb)) [
  | inl small ↦ rw (small, small) refl
  | inr a ↦ elim (Bool-cases (ltb n (2 ^ 16))) [
    | inl two ↦ rw (a, two) (fixed-low_bytes 2 n rest (omega (arith, ltb→lt n (2 ^ 16) two)))
    | inr b ↦ elim (Bool-cases (ltb n (2 ^ 24))) [
      | inl three ↦
          rw (a, b, three) (fixed-low_bytes 3 n rest (omega (arith, ltb→lt n (2 ^ 24) three)))
      | inr c ↦ rw (a, b, c) (fixed-low_bytes 8 n rest (omega arith))
    ]
  ]
]

pub length-lenenc : (n : ℕ) → length (lenenc n) ≤ 9
unfolding lenenc
length-lenenc n = ground arith
