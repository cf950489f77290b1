-- ===== src/Json/Parse/Depth.antt =====
-- runtime/vader_json.c: the depth of calls that parsing a print takes is at most the print's length.
use vader_langue.Prelude.{
  ℕ, suc, ◌+◌, ◌≤◌, true, [], ◌∷◌, ◌++◌, Bytes, ℤ, arith, length, length-append,
}
use vader_langue.Json.{
  JVal, Items, Fields, Doubles, j_null, j_bool, j_int, j_dbl, j_str, j_arr, j_obj, nil, cons, end,
  field,
}
use vader_langue.Json.Encode.{json_str, encode, encode_items, encode_fields}
use vader_langue.Json.Parse.Plain.{
  Plain, PlainItems, PlainFields, need, need_items, need_fields, print_int_first,
}

module _ (d : Doubles) where
  open d use {Double}

  bool_length : (b : ℕ) → 1 ≤ length (encode d (j_bool b))
  unfolding encode
  bool_length b = ground arith

  int_length : (i : ℤ) → 1 ≤ length (encode d (j_int i))
  unfolding encode
  int_length i = let (c, s, h, e) = print_int_first i in rw e (omega arith)

  str_length : (s : Bytes) → 1 ≤ length (encode d (j_str s))
  unfolding encode json_str
  str_length s = omega arith

  null_length : 1 ≤ length (encode d j_null)
  unfolding encode
  null_length = omega arith

  nil_length : 1 ≤ length (encode d (j_arr nil))
  unfolding encode
  nil_length = omega arith

  end_length : 1 ≤ length (encode d (j_obj end))
  unfolding encode
  end_length = omega arith

  arr_length :
      (v : JVal Double) (xs : Items Double)
      → suc (suc (length (encode d v) + length (encode_items d true xs)))
        ≤ length (encode d (j_arr (cons v xs)))
  arr_length v xs =
      unfold encode in
      omega (
        arith,
        length-append (encode d v) (encode_items d true xs),
        length-append (encode d v ++ encode_items d true xs) (b']' ∷ []),
      )

  cons_length :
      (v : JVal Double) (xs : Items Double)
      → suc (length (encode d v) + length (encode_items d true xs))
        ≤ length (encode_items d true (cons v xs))
  cons_length v xs =
      unfold encode in omega (arith, length-append (encode d v) (encode_items d true xs))

  field_length :
      (k : Bytes) (v : JVal Double) (fs : Fields Double)
      → suc (length (encode d v) + length (encode_fields d true fs))
        ≤ length (json_str k ++ b':' ∷ (encode d v ++ encode_fields d true fs))
  field_length k v fs = omega (
    arith,
    length-append (encode d v) (encode_fields d true fs),
    length-append (json_str k) (b':' ∷ (encode d v ++ encode_fields d true fs)),
  )

  obj_length :
      (k : Bytes) (v : JVal Double) (fs : Fields Double)
      → suc (suc (length (encode d v) + length (encode_fields d true fs)))
        ≤ length (encode d (j_obj (field k v fs)))
  obj_length k v fs =
      unfold encode in
      omega (
        arith,
        field_length k v fs,
        length-append (json_str k ++ b':' ∷ (encode d v ++ encode_fields d true fs)) (b'}' ∷ []),
      )

  more_length :
      (k : Bytes) (v : JVal Double) (fs : Fields Double)
      → suc (length (encode d v) + length (encode_fields d true fs))
        ≤ length (encode_fields d true (field k v fs))
  more_length k v fs = unfold encode in omega (arith, field_length k v fs)

  mutual
    pub need-length : (v : JVal Double) → Plain v → need v ≤ length (encode d v)
    need-length j_null p = null_length
    need-length (j_bool b) p = bool_length b
    need-length (j_int i) p = int_length i
    need-length (j_dbl x) p = absurd p
    need-length (j_str s) p = str_length s
    need-length (j_arr nil) p = nil_length
    need-length (j_arr (cons v xs)) p =
        omega (arith, need-length v p.0, items-length xs p.1, arr_length v xs)
    need-length (j_obj end) p = end_length
    need-length (j_obj (field k v fs)) p =
        omega (arith, need-length v p.1, fields-length fs p.2, obj_length k v fs)

    items-length :
        (xs : Items Double) → PlainItems xs → need_items xs ≤ length (encode_items d true xs)
    items-length nil p = omega arith
    items-length (cons v xs) p =
        omega (arith, need-length v p.0, items-length xs p.1, cons_length v xs)

    fields-length :
        (fs : Fields Double) → PlainFields fs → need_fields fs ≤ length (encode_fields d true fs)
    fields-length end p = omega arith
    fields-length (field k v fs) p =
        omega (arith, need-length v p.1, fields-length fs p.2, more_length k v fs)
