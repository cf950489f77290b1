-- ===== src/Json/Parse/Values.antt =====
-- runtime/vader_json.c: jparse_val on the print of one value, and one round of each of its loops.
use vader_langue.Prelude.{
  ℕ, suc, zero, ◌≡◌, ◌≤◌, refl, ap, ◌∙◌, true, ◌∷◌, ◌++◌, some, Bytes, ℤ, codes, arith, ◌⊎◌, inl,
  inr, take-length-append, drop-length-append,
}
use vader_langue.Libc.{print_int}
use vader_langue.Json.{
  JVal, Items, Fields, Doubles, j_null, j_bool, j_int, j_dbl, j_str, j_arr, j_obj, nil, cons, end,
  field,
}
use vader_langue.Json.Encode.{json_str, encode, encode_items, encode_fields}
use vader_langue.Json.Parse.{
  Cursor, Parsed, parsed, bind, follow, jskip, number, jparse_val, jparse_items, jparse_fields,
  jparse_str,
}
use vader_langue.Json.Parse.Strings.{NoNul, jparse_str-json_str}
use vader_langue.Json.Parse.Plain.{
  Small, Ends, Exact, Plain, advance-append, StartsNumber, print_int_first, is_int_span-print_int,
  Opens, jskip_bracket, jskip_str, jskip_colon, jskip-Opens,
}
use vader_langue.Json.Parse.Prints.{field_text}

module _ (d : Doubles) where
  open d use {Double}

  pub val_number :
      (f c : ℕ) (s : Bytes)
      → StartsNumber c
      → jparse_val d (suc f) (some (c ∷ s)) ≡ number d (c ∷ s)
  unfolding jparse_val jskip
  val_number f c s h = ground arith

  pub Opens-number : (c : ℕ) (s : Bytes) → StartsNumber c → Opens (c ∷ s)
  Opens-number c s h = ground arith

  pub Opens-encode : (v : JVal Double) (rest : Bytes) → Plain v → Opens (encode d v ++ rest)
  unfolding encode json_str
  Opens-encode j_null rest p = refl
  Opens-encode (j_bool b) rest p = ground arith
  Opens-encode (j_int i) rest p =
      let (c, s, h, e) = print_int_first i in rw e (Opens-number c (s ++ rest) h)
  Opens-encode (j_dbl x) rest p = absurd p
  Opens-encode (j_str s) rest p = refl
  Opens-encode (j_arr xs) rest p = refl
  Opens-encode (j_obj fs) rest p = refl

  pub val_int :
      (exact : Exact d) (f : ℕ) (i : ℤ) (rest : Bytes)
      → Small i
      → Ends rest
      → jparse_val d (suc f) (some (print_int i ++ rest)) ≡ parsed (j_int i) (some rest)
  val_int exact f i rest h n = step ∙ value
    where
      step : jparse_val d (suc f) (some (print_int i ++ rest)) ≡ number d (print_int i ++ rest)
      step = let (c, s, k, e) = print_int_first i in rw e (val_number f c (s ++ rest) k)

      value : number d (print_int i ++ rest) ≡ parsed (j_int i) (some rest)
      value =
          unfold number in
          rw (
            exact.reads i rest h n,
            take-length-append (print_int i) rest,
            is_int_span-print_int i,
            drop-length-append (print_int i) rest,
            exact.back i h,
          )

  pub Ends-items : (xs : Items Double) (rest : Bytes) → Ends (encode_items d true xs ++ b']' ∷ rest)
  unfolding encode_items
  Ends-items nil rest = refl
  Ends-items (cons v xs) rest = refl

  pub Ends-fields :
      (fs : Fields Double) (rest : Bytes) → Ends (encode_fields d true fs ++ b'}' ∷ rest)
  unfolding encode_fields
  Ends-fields end rest = refl
  Ends-fields (field k v fs) rest = refl

  pub val_bool :
      (f b : ℕ) (rest : Bytes)
      → b ≤ 1
      → jparse_val d (suc f) (some (encode d (j_bool b) ++ rest)) ≡ parsed (j_bool b) (some rest)
  unfolding jparse_val encode jskip
  val_bool f zero rest h = ap (λ c. parsed (j_bool 0) c) (advance-append (codes "false") rest)
  val_bool f (suc zero) rest h = ap (λ c. parsed (j_bool 1) c) (advance-append (codes "true") rest)
  val_bool f (suc (suc b)) rest h = absurd (omega arith)

  pub val_null :
      (f : ℕ) (rest : Bytes)
      → jparse_val d (suc f) (some (encode d j_null ++ rest)) ≡ parsed j_null (some rest)
  unfolding jparse_val encode jskip
  val_null f rest = ap (λ c. parsed j_null c) (advance-append (codes "null") rest)

  pub val_str :
      (f : ℕ) (s rest : Bytes)
      → NoNul s
      → jparse_val d (suc f) (some (json_str s ++ rest)) ≡ parsed (j_str s) (some rest)
  val_str f s rest h =
      step ∙ ap (λ r. bind r (λ x c. parsed (j_str x) c)) (jparse_str-json_str s rest h)
    where
      step :
          jparse_val d (suc f) (some (json_str s ++ rest))
          ≡ bind (jparse_str (some (json_str s ++ rest))) (λ x c. parsed (j_str x) c)
      step = unfold jparse_val json_str jskip in refl

  -- Stepping into an array whose first element follows the bracket.
  pub val_arr :
      (f : ℕ) (t : Bytes)
      → Opens t
      → jparse_val d (suc f) (some (b'[' ∷ t))
        ≡ bind (jparse_items d f (some t)) (λ xs c. parsed (j_arr xs) c)
  unfolding jparse_val
  val_arr f t h = rw (jskip_bracket t, (jskip-Opens t h).0, (jskip-Opens t h).1)

  pub val_obj :
      (f : ℕ) (t : Bytes)
      → jparse_val d (suc f) (some (b'{' ∷ (b'"' ∷ t)))
        ≡ bind (jparse_fields d f (some (b'"' ∷ t))) (λ fs c. parsed (j_obj fs) c)
  unfolding jparse_val jskip
  val_obj f t = refl

  pub more_items : ℕ → JVal Double → Cursor → Parsed (Items Double)
  more_items f v c = bind (jparse_items d f c) (λ xs c3. parsed (cons v xs) c3)

  pub more_fields : ℕ → Bytes → JVal Double → Cursor → Parsed (Fields Double)
  more_fields f k v c = bind (jparse_fields d f c) (λ fs c4. parsed (field k v fs) c4)

  -- One round of each loop, once its parts are read.
  pub items_step :
      (f : ℕ) (v : JVal Double) (t u : Bytes)
      → jparse_val d f (some t) ≡ parsed v (some u)
      → jparse_items d (suc f) (some t) ≡ follow d b']' (more_items f v) (cons v nil) (some u)
  unfolding jparse_items more_items
  items_step f v t u e = rw e

  pub fields_step :
      (f : ℕ) (k : Bytes) (v : JVal Double) (t u : Bytes)
      → NoNul k
      → jparse_val d f (some t) ≡ parsed v (some u)
      → jparse_fields d (suc f) (some (json_str k ++ b':' ∷ t))
        ≡ follow d b'}' (more_fields f k v) (field k v end) (some u)
  unfolding jparse_fields more_fields
  fields_step f k v t u n e =
      rw (jskip_str k (b':' ∷ t), jparse_str-json_str k (b':' ∷ t) n, jskip_colon t, e)

  pub follow_comma_items :
      (f : ℕ) (v : JVal Double) (t : Bytes)
      → follow d b']' (more_items f v) (cons v nil) (some (b',' ∷ t))
        ≡ bind (jparse_items d f (some t)) (λ xs c3. parsed (cons v xs) c3)
  unfolding more_items jskip
  follow_comma_items f v t = refl

  pub follow_comma_fields :
      (f : ℕ) (k : Bytes) (v : JVal Double) (t : Bytes)
      → follow d b'}' (more_fields f k v) (field k v end) (some (b',' ∷ t))
        ≡ bind (jparse_fields d f (some t)) (λ fs c4. parsed (field k v fs) c4)
  unfolding more_fields jskip
  follow_comma_fields f k v t = refl

  pub follow_close {ℓ} :
      {A : Type ℓ} (c : ℕ) (more : Cursor → Parsed A) (last : A) (t : Bytes)
      → (c ≡ b']') ⊎ (c ≡ b'}')
      → follow d c more last (some (c ∷ t)) ≡ parsed last (some t)
  unfolding jskip
  follow_close c more last t (inl e) = rw e
  follow_close c more last t (inr e) = rw e

  pub val_obj_text :
      (f : ℕ) (k : Bytes) (v : JVal Double) (fs : Fields Double) (rest : Bytes)
      → jparse_val d (suc f) (some (b'{' ∷ field_text d k v fs rest))
        ≡ bind (jparse_fields d f (some (field_text d k v fs rest))) (λ fs c. parsed (j_obj fs) c)
  unfolding field_text json_str
  val_obj_text f k v fs rest = val_obj f _

  pub empty_arr :
      (f : ℕ) (rest : Bytes)
      → jparse_val d (suc f) (some (encode d (j_arr nil) ++ rest)) ≡ parsed (j_arr nil) (some rest)
  unfolding jparse_val encode jskip
  empty_arr f rest = refl

  pub empty_obj :
      (f : ℕ) (rest : Bytes)
      → jparse_val d (suc f) (some (encode d (j_obj end) ++ rest)) ≡ parsed (j_obj end) (some rest)
  unfolding jparse_val encode jskip
  empty_obj f rest = refl

  pub val_int_text :
      (exact : Exact d) (f : ℕ) (i : ℤ) (rest : Bytes)
      → Small i
      → Ends rest
      → jparse_val d (suc f) (some (encode d (j_int i) ++ rest)) ≡ parsed (j_int i) (some rest)
  val_int_text exact f i rest h n = unfold encode in val_int exact f i rest h n

  pub val_str_text :
      (f : ℕ) (s rest : Bytes)
      → NoNul s
      → jparse_val d (suc f) (some (encode d (j_str s) ++ rest)) ≡ parsed (j_str s) (some rest)
  val_str_text f s rest h = unfold encode in val_str f s rest h
