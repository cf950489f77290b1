-- ===== src/Json/Parse/RoundTrip.antt =====
-- What vader_json_encode prints, vader_json_parse reads back.
use vader_langue.Prelude.{
  ℕ, suc, zero, ◌≡◌, ◌≤◌, refl, sym, true, [], ◌∷◌, ◌++◌, append-nil, some, Bytes, arith, inl, inr,
  length, length-append,
}
use vader_langue.Json.{
  JVal, Items, Fields, Doubles, j_null, j_bool, j_int, j_dbl, j_str, j_arr, j_obj, nil, cons, end,
  field,
}
use vader_langue.Json.Encode.{encode, encode_items, encode_fields}
use vader_langue.Json.Parse.{parsed, follow, jparse_val, json_parse, twice}
use vader_langue.Json.Parse.Plain.{
  Ends, Exact, Plain, PlainItems, PlainFields, need, need_items, need_fields, need_pos,
}
use vader_langue.Json.Parse.Values.{
  val_obj_text, Opens-encode, val_int_text, val_str_text, val_bool, val_null, val_arr, more_items,
  more_fields, items_step, fields_step, follow_comma_items, follow_comma_fields, follow_close,
  empty_arr, empty_obj, Ends-items, Ends-fields,
}
use vader_langue.Json.Parse.Prints.{
  arr_text, items_text, field_text, obj_text, fields_text, items_close, fields_close,
}
use vader_langue.Json.Parse.Depth.{need-length}

length-twice : (s : Bytes) → length s ≤ twice s
length-twice [] = omega arith
length-twice (c ∷ s) = omega (arith, length-twice s)

module _ (d : Doubles) (exact : Exact d) where
  open d use {Double}

  mutual
    unfolding field_text

    val-encode :
        (v : JVal Double) (f : ℕ) (rest : Bytes)
        → need v ≤ f
        → Plain v
        → Ends rest
        → jparse_val d f (some (encode d v ++ rest)) ≡ parsed v (some rest)
    val-encode v zero rest h p n = absurd (omega (arith, need_pos v))
    val-encode j_null (suc f) rest h p n = val_null d f rest
    val-encode (j_bool b) (suc f) rest h p n = val_bool d f b rest p
    val-encode (j_int i) (suc f) rest h p n = val_int_text d exact f i rest p n
    val-encode (j_dbl x) (suc f) rest h p n = absurd p
    val-encode (j_str s) (suc f) rest h p n = val_str_text d f s rest p
    val-encode (j_arr nil) (suc f) rest h p n = empty_arr d f rest
    val-encode (j_arr (cons v xs)) (suc zero) rest h p n = absurd (omega arith)
    val-encode (j_arr (cons v xs)) (suc (suc f)) rest h p n =
        let t = encode_items d true xs ++ b']' ∷ rest in
        rw (
          arr_text d v xs rest,
          val_arr d (suc f) (encode d v ++ t) (Opens-encode d v t p.0),
          items_step d f v (encode d v ++ t) t
              (val-encode v f t (omega arith) p.0 (Ends-items d xs rest)),
          items-follow xs v f rest (omega arith) p.1,
        )
    val-encode (j_obj end) (suc f) rest h p n = empty_obj d f rest
    val-encode (j_obj (field k v fs)) (suc zero) rest h p n = absurd (omega arith)
    val-encode (j_obj (field k v fs)) (suc (suc f)) rest h p n =
        let t = encode_fields d true fs ++ b'}' ∷ rest in
        rw (
          obj_text d k v fs rest,
          val_obj_text d (suc f) k v fs (b'}' ∷ rest),
          fields_step d f k v (encode d v ++ t) t p.0
              (val-encode v f t (omega arith) p.1 (Ends-fields d fs rest)),
          fields-follow fs k v f rest (omega arith) p.2,
        )

    -- The rest of an array behind one of its elements.
    items-follow :
        (xs : Items Double) (v : JVal Double) (f : ℕ) (rest : Bytes)
        → need_items xs ≤ f
        → PlainItems xs
        → follow d b']'
            (more_items d f v)
            (cons v nil)
            (some (encode_items d true xs ++ b']' ∷ rest))
          ≡ parsed (cons v xs) (some rest)
    items-follow nil v f rest h p =
        rw (items_close d rest)
          (follow_close d b']' (more_items d f v) (cons v nil) rest (inl refl))
    items-follow (cons w xs) v zero rest h p = absurd (omega arith)
    items-follow (cons w xs) v (suc f) rest h p =
        let t = encode_items d true xs ++ b']' ∷ rest in
        rw (
          items_text d w xs (b']' ∷ rest),
          follow_comma_items d (suc f) v (encode d w ++ t),
          items_step d f w (encode d w ++ t) t
              (val-encode w f t (omega arith) p.0 (Ends-items d xs rest)),
          items-follow xs w f rest (omega arith) p.1,
        )

    fields-follow :
        (fs : Fields Double) (k : Bytes) (v : JVal Double) (f : ℕ) (rest : Bytes)
        → need_fields fs ≤ f
        → PlainFields fs
        → follow d b'}'
            (more_fields d f k v)
            (field k v end)
            (some (encode_fields d true fs ++ b'}' ∷ rest))
          ≡ parsed (field k v fs) (some rest)
    fields-follow end k v f rest h p =
        rw (fields_close d rest)
          (follow_close d b'}' (more_fields d f k v) (field k v end) rest (inr refl))
    fields-follow (field j w fs) k v zero rest h p = absurd (omega arith)
    fields-follow (field j w fs) k v (suc f) rest h p =
        let t = encode_fields d true fs ++ b'}' ∷ rest in
        rw (
          fields_text d j w fs (b'}' ∷ rest),
          follow_comma_fields d (suc f) k v (field_text d j w fs (b'}' ∷ rest)),
          fields_step d f j w (encode d w ++ t) t p.0
              (val-encode w f t (omega arith) p.1 (Ends-fields d fs rest)),
          fields-follow fs j w f rest (omega arith) p.2,
        )

  -- Parsing the text that encoding prints gives the value back and stands at the text's end, for a value
  -- without doubles whose integers are at most 2^53 in size, whose booleans are 0 or 1 and whose strings
  -- hold no NUL.
  pub json_parse-encode :
      (v : JVal Double) → Plain v → json_parse d (encode d v) ≡ parsed v (some [])
  json_parse-encode v p =
      unfold json_parse in
      rw (sym (append-nil (encode d v))) (
        val-encode v (suc (twice (encode d v ++ []))) []
          (omega (
            arith,
            need-length d v p,
            length-append (encode d v) [],
            length-twice (encode d v ++ []),
          ))
          p _)
