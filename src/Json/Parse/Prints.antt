-- ===== src/Json/Parse/Prints.antt =====
-- runtime/vader_json.c: what json_encode prints, regrouped so that what a loop of jparse_val reads first
-- stands in front.
use vader_langue.Prelude.{◌≡◌, refl, ap, ◌∙◌, true, [], ◌∷◌, ◌++◌, append_assoc, Bytes}
use vader_langue.Json.{JVal, Items, Fields, Doubles, j_arr, j_obj, nil, cons, end, field}
use vader_langue.Json.Encode.{json_str, encode, encode_items, encode_fields}

module _ (d : Doubles) where
  open d use {Double}

  -- The prints, regrouped so that what a loop reads first stands in front.
  pub arr_text :
      (v : JVal Double) (xs : Items Double) (rest : Bytes)
      → encode d (j_arr (cons v xs)) ++ rest
        ≡ b'[' ∷ (encode d v ++ (encode_items d true xs ++ b']' ∷ rest))
  unfolding encode
  arr_text v xs rest =
      ap (λ l. b'[' ∷ l)
        (append_assoc (encode d v ++ encode_items d true xs) (b']' ∷ []) rest
          ∙ append_assoc (encode d v) (encode_items d true xs) (b']' ∷ rest))

  pub items_text :
      (v : JVal Double) (xs : Items Double) (rest : Bytes)
      → encode_items d true (cons v xs) ++ rest
        ≡ b',' ∷ (encode d v ++ (encode_items d true xs ++ rest))
  unfolding encode
  items_text v xs rest =
      ap (λ l. b',' ∷ l) (append_assoc (encode d v) (encode_items d true xs) rest)

  unfoldable pub field_text : Bytes → JVal Double → Fields Double → Bytes → Bytes
  field_text k v fs rest = json_str k ++ b':' ∷ (encode d v ++ (encode_fields d true fs ++ rest))

  pub field_assoc :
      (k : Bytes) (v : JVal Double) (fs : Fields Double) (rest : Bytes)
      → (json_str k ++ b':' ∷ (encode d v ++ encode_fields d true fs)) ++ rest
        ≡ field_text k v fs rest
  unfolding field_text
  field_assoc k v fs rest =
      append_assoc (json_str k) (b':' ∷ (encode d v ++ encode_fields d true fs)) rest
      ∙ ap (λ l. json_str k ++ b':' ∷ l) (append_assoc (encode d v) (encode_fields d true fs) rest)

  pub obj_text :
      (k : Bytes) (v : JVal Double) (fs : Fields Double) (rest : Bytes)
      → encode d (j_obj (field k v fs)) ++ rest ≡ b'{' ∷ field_text k v fs (b'}' ∷ rest)
  obj_text k v fs rest =
      unfold encode in
      ap (λ l. b'{' ∷ l)
        (append_assoc (json_str k ++ b':' ∷ (encode d v ++ encode_fields d true fs)) (b'}' ∷ [])
            rest
          ∙ field_assoc k v fs (b'}' ∷ rest))

  pub fields_text :
      (k : Bytes) (v : JVal Double) (fs : Fields Double) (rest : Bytes)
      → encode_fields d true (field k v fs) ++ rest ≡ b',' ∷ field_text k v fs rest
  fields_text k v fs rest = unfold encode in ap (λ l. b',' ∷ l) (field_assoc k v fs rest)

  pub items_close : (rest : Bytes) → encode_items d true nil ++ b']' ∷ rest ≡ b']' ∷ rest
  unfolding encode
  items_close rest = refl

  pub fields_close : (rest : Bytes) → encode_fields d true end ++ b'}' ∷ rest ≡ b'}' ∷ rest
  unfolding encode
  fields_close rest = refl
