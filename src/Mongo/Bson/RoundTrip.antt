-- ===== src/Mongo/Bson/RoundTrip.antt =====
-- A tree that was encoded as a document and decoded again.
use vader_langue.Prelude.{
  ℕ, suc, zero, ◌+◌, ◌-◌, ◌^◌, ◌≡◌, ◌<◌, ◌≤◌, refl, ap, sym, ◌∙◌, arith, Bool, true, false, Option,
  some, [], ◌∷◌, ◌++◌, append_assoc, append-nil, Bytes, ◌==◌, if◌then◌else◌, lt→ltb, le→ltb, length,
  length-append, drop, to_u64,
}
use vader_langue.Libc.{digits}
use vader_langue.Net.{low_bytes, little}
use vader_langue.Net.Transfer.{little-low_bytes}
use vader_langue.Net.Dsn.Parts.{Without, digits-Without}
use vader_langue.Json.{
  JVal, j_null, j_bool, j_int, j_dbl, j_str, j_arr, j_obj, Items, nil, cons, Fields, end, field,
}
use vader_langue.Json.Tree.{obj_set, put_field, arr_add, add_item}
use vader_langue.Mongo.Bson.{
  Codec, enclosed, counted_str, elem_head, bson_elem, bson_items, bson_fields, bson_doc, nested,
  found, attach, decode, bson_decode,
}
use vader_langue.Mongo.Bson.Steps.{decode-leaf, decode-nested}
use vader_langue.Mongo.Bson.Values.{
  length-enclosed, length-counted_str, found-dbl, found-str, found_doc-enclosed, found-int,
  found-bool, found-null,
}
use vader_langue.Mongo.Bson.Stored.{
  Lawful, stored, store_items, store_fields, Sound, SoundItems, SoundFields,
}

module _ {D : Type 0} (x : Codec D) (lawful : Lawful x) where
  -- The bytes of an element are at least its type and the NUL of its key.
  length-elem_head : (t : ℕ) (key body : Bytes) → length body + 2 ≤ length (elem_head t key ++ body)
  length-elem_head t key body =
      omega (arith, length-append (key ++ 0 ∷ []) body, length-append key (0 ∷ []))

  null_elem : (key : Bytes) → bson_elem x key j_null ≡ elem_head 0x0a key ++ []
  unfolding bson_elem
  null_elem key = sym (append-nil (elem_head 0x0a key))

  length-bson_elem : (key : Bytes) (v : JVal D) → 2 ≤ length (bson_elem x key v)
  unfolding bson_elem
  length-bson_elem key (j_dbl d) = omega (arith, length-elem_head 0x01 key (x.bits d))
  length-bson_elem key (j_str s) = omega (arith, length-elem_head 0x02 key (counted_str s))
  length-bson_elem key (j_obj fs) =
      omega (arith, length-elem_head 0x03 key (enclosed (bson_fields x fs)))
  length-bson_elem key (j_arr items) =
      omega (arith, length-elem_head 0x04 key (enclosed (bson_items x 0 items)))
  length-bson_elem key (j_bool b) =
      omega (arith, length-elem_head 0x08 key ((if b == 0 then 0 else 1) ∷ []))
  length-bson_elem key (j_int i) = omega (arith, length-elem_head 0x12 key (low_bytes 8 (to_u64 i)))
  length-bson_elem key j_null =
      omega (arith, length-elem_head 0x0a key [], ap length (null_elem key))

  found-obj :
      (as_arr : Bool) (s q : Bytes)
      → length s + 5 < 2 ^ 31
      → found x as_arr 0x03 (enclosed s ++ q) ≡ nested false (length (enclosed s))
  unfolding found
  found-obj as_arr s q h = found_doc-enclosed x as_arr s q false h

  found-arr :
      (as_arr : Bool) (s q : Bytes)
      → length s + 5 < 2 ^ 31
      → found x as_arr 0x04 (enclosed s ++ q) ≡ nested true (length (enclosed s))
  unfolding found
  found-arr as_arr s q h = found_doc-enclosed x as_arr s q true h

  -- The content of a document, behind its length.
  content :
      (fuel : ℕ) (arr : Bool) (parent : JVal D) (s q : Bytes) (o : Option (JVal D))
      → decode x fuel arr parent (length s) (s ++ 0 ∷ q) ≡ o
      → decode x fuel arr parent (length (enclosed s) - 5) (drop 4 (enclosed s ++ q)) ≡ o
  content fuel arr parent s q o h =
      let few : length (enclosed s) - 5 ≡ length s = omega (arith, length-enclosed s) in
      ap (λ n. decode x fuel arr parent n ((s ++ 0 ∷ []) ++ q)) few
      ∙ ap (decode x fuel arr parent (length s)) (append_assoc s (0 ∷ []) q)
      ∙ h

  -- One element, and the others of the document.
  first_elem :
      (fuel : ℕ) (arr : Bool) (parent after : JVal D) (e s q : Bytes) (o : Option (JVal D))
      → decode x (suc fuel) arr parent (length e + length s) (e ++ (s ++ q))
        ≡ decode x fuel arr after (length s) (s ++ q)
      → decode x fuel arr after (length s) (s ++ q) ≡ o
      → decode x (suc fuel) arr parent (length (e ++ s)) ((e ++ s) ++ q) ≡ o
  first_elem fuel arr parent after e s q o h1 h2 =
      ap (λ n. decode x (suc fuel) arr parent n ((e ++ s) ++ q)) (length-append e s)
      ∙ ap (decode x (suc fuel) arr parent (length e + length s)) (append_assoc e s q)
      ∙ h1
      ∙ h2

  at_end :
      (fuel : ℕ) (arr : Bool) (parent : JVal D) (q : Bytes)
      → decode x (suc fuel) arr parent 0 q ≡ some parent
  unfolding decode
  at_end fuel arr parent q = refl

  number_key : (i : ℕ) → Without 0 (digits i)
  number_key i = digits-Without 0 i (λ d l e. omega arith)

  mutual
    unfolding bson_elem obj_set arr_add

    decode-bson_elem :
        (v : JVal D) (key : Bytes) (fuel : ℕ) (as_arr : Bool) (parent : JVal D) (left : ℕ)
        (q : Bytes)
        → Without 0 key
        → Sound v
        → length (bson_elem x key v) ≤ fuel
        → length (bson_elem x key v) < 2 ^ 31
        → decode x
            (suc fuel)
            as_arr
            parent
            (length (bson_elem x key v) + left)
            (bson_elem x key v ++ q)
          ≡ decode x fuel as_arr (attach as_arr parent key (stored v)) left q
    decode-bson_elem (j_dbl d) key fuel as_arr parent left q hk hv hf hl =
        decode-leaf x fuel as_arr parent left 0 key (x.bits d) q (j_dbl d) hk
          (found-dbl x as_arr d q (lawful.size d) (lawful.back d))
    decode-bson_elem (j_str s) key fuel as_arr parent left q hk hv hf hl =
        decode-leaf x fuel as_arr parent left 1 key (counted_str s) q (j_str s) hk (
          found-str x as_arr s q hv
            (omega (arith, length-elem_head 0x02 key (counted_str s), length-counted_str s)))
    decode-bson_elem (j_obj fs) key fuel as_arr parent left q hk hv hf hl =
        let s = bson_fields x fs in
        let long = length-elem_head 0x03 key (enclosed s) in
        let more = length-enclosed s in
        decode-nested x fuel as_arr parent left 2 key (enclosed s) q false (stored (j_obj fs)) hk
          (found-obj as_arr s q (omega arith))
          (content fuel false (j_obj end) s q (some (stored (j_obj fs)))
            (decode-bson_fields fs end fuel (0 ∷ q) hv (omega arith) (omega arith)))
    decode-bson_elem (j_arr items) key fuel as_arr parent left q hk hv hf hl =
        let s = bson_items x 0 items in
        let long = length-elem_head 0x04 key (enclosed s) in
        let more = length-enclosed s in
        decode-nested x fuel as_arr parent left 3 key (enclosed s) q true (stored (j_arr items)) hk
          (found-arr as_arr s q (omega arith))
          (content fuel true (j_arr nil) s q (some (stored (j_arr items)))
            (decode-bson_items items 0 nil fuel (0 ∷ q) hv (omega arith) (omega arith)))
    decode-bson_elem (j_bool b) key fuel as_arr parent left q hk hv hf hl =
        decode-leaf x fuel as_arr parent left 7 key ((if b == 0 then 0 else 1) ∷ []) q
          (stored (j_bool b)) hk (found-bool x as_arr (b == 0) q)
    decode-bson_elem (j_int i) key fuel as_arr parent left q hk hv hf hl =
        decode-leaf x fuel as_arr parent left 17 key (low_bytes 8 (to_u64 i)) q (j_int i) hk
          (found-int x as_arr i q hv)
    decode-bson_elem j_null key fuel as_arr parent left q hk hv hf hl =
        ap (λ e. decode x (suc fuel) as_arr parent (length e + left) (e ++ q)) (null_elem key)
        ∙ decode-leaf x fuel as_arr parent left 9 key [] q (j_str []) hk (found-null x as_arr q)

    decode-bson_items :
        (items : Items D) (i : ℕ) (acc : Items D) (fuel : ℕ) (q : Bytes)
        → SoundItems items
        → length (bson_items x i items) < fuel
        → length (bson_items x i items) < 2 ^ 31
        → decode x fuel true (j_arr acc) (length (bson_items x i items)) (bson_items x i items ++ q)
          ≡ some (j_arr (store_items acc items))
    decode-bson_items nil i acc zero q hs hf hl = absurd (omega arith)
    decode-bson_items nil i acc (suc fuel) q hs hf hl = at_end fuel true (j_arr acc) q
    decode-bson_items (cons v items) i acc zero q hs hf hl = absurd (omega arith)
    decode-bson_items (cons v items) i acc (suc fuel) q hs hf hl =
        let e = bson_elem x (digits i) v in
        let s = bson_items x (suc i) items in
        let long = length-bson_elem (digits i) v in
        let both = length-append e s in
        first_elem fuel true (j_arr acc) (j_arr (add_item acc (stored v))) e s q
          (some (j_arr (store_items acc (cons v items))))
          (decode-bson_elem v (digits i) fuel true (j_arr acc) (length s) (s ++ q) (number_key i)
            hs.0 (omega arith) (omega arith))
          (decode-bson_items items (suc i) (add_item acc (stored v)) fuel q hs.1 (omega arith)
            (omega arith))

    decode-bson_fields :
        (fs acc : Fields D) (fuel : ℕ) (q : Bytes)
        → SoundFields fs
        → length (bson_fields x fs) < fuel
        → length (bson_fields x fs) < 2 ^ 31
        → decode x fuel false (j_obj acc) (length (bson_fields x fs)) (bson_fields x fs ++ q)
          ≡ some (j_obj (store_fields acc fs))
    decode-bson_fields end acc zero q hs hf hl = absurd (omega arith)
    decode-bson_fields end acc (suc fuel) q hs hf hl = at_end fuel false (j_obj acc) q
    decode-bson_fields (field k v fs) acc zero q hs hf hl = absurd (omega arith)
    decode-bson_fields (field k v fs) acc (suc fuel) q hs hf hl =
        let e = bson_elem x k v in
        let s = bson_fields x fs in
        let long = length-bson_elem k v in
        let both = length-append e s in
        first_elem fuel false (j_obj acc) (j_obj (put_field acc k (stored v))) e s q
          (some (j_obj (store_fields acc (field k v fs))))
          (decode-bson_elem v k fuel false (j_obj acc) (length s) (s ++ q) hs.0 hs.1 (omega arith)
            (omega arith))
          (decode-bson_fields fs (put_field acc k (stored v)) fuel q hs.2 (omega arith)
            (omega arith))

  -- Where a double lies in memory as 8 bytes that give it back: an object of C strings and 64-bit
  -- numbers, whose document is shorter than 2^31 bytes, is decoded to the tree that it was made of,
  -- but for null, which comes back as an empty string, for a Boolean other than 0, which comes back
  -- as 1, and for keys that an object has twice, of which the later value stays. What stands behind
  -- the document does not matter.
  pub bson_decode-bson_doc :
      (fs : Fields D) (rest : Bytes)
      → SoundFields fs
      → length (bson_doc x (j_obj fs)) < 2 ^ 31
      → bson_decode x (bson_doc x (j_obj fs) ++ rest) false ≡ some (stored (j_obj fs))
  unfolding bson_decode bson_doc
  bson_decode-bson_doc fs rest hs hl =
      let s = bson_fields x fs in
      let size = length-enclosed s in
      let n : little (low_bytes 4 (4 + length s + 1)) ≡ length (enclosed s) =
        little-low_bytes 4 (4 + length s + 1) (omega arith) ∙ omega arith in
      let fuel = length (enclosed s ++ rest) in
      let long = length-append (enclosed s) rest in
      rw
        (
          le→ltb (length (enclosed s ++ rest)) 4 (omega arith),
          n,
          lt→ltb (length (enclosed s)) (2 ^ 31) hl,
        )
        (content (suc fuel) false (j_obj end) s rest (some (stored (j_obj fs)))
          (decode-bson_fields fs end (suc fuel) (0 ∷ rest) hs (omega arith) (omega arith)))
