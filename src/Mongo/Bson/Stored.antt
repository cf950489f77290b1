-- ===== src/Mongo/Bson/Stored.antt =====
-- Trees that BSON can hold, and what comes back of them.
use vader_langue.Prelude.{◌≡◌, [], ◌==◌, if◌then◌else◌, length, pos}
use vader_langue.Net.Dsn.Parts.{Without}
use vader_langue.Json.{
  JVal, j_null, j_bool, j_int, j_dbl, j_str, j_arr, j_obj, Items, nil, cons, Fields, end, field,
}
use vader_langue.Json.Tree.{put_field, add_item, flag}
use vader_langue.Mongo.Bson.{Codec}
use vader_langue.Mongo.Bson.Values.{Fits}

-- A `double` takes 8 bytes, and is what they say.
pub record Lawful {D : Type 0} (x : Codec D) : Type 0 where
  pub size : (d : D) → length (x.bits d) ≡ 8
  pub back : (d : D) → x.of_bits (x.bits d) ≡ d

-- What comes back: an empty string for null, 1 for any true, and of a key that an object has twice the later
-- value.
abbrev mutual
  pub stored : {D : Type 0} → JVal D → JVal D
  stored j_null = j_str []
  stored (j_bool b) = flag (pos (if b == 0 then 0 else 1))
  stored (j_int i) = j_int i
  stored (j_dbl d) = j_dbl d
  stored (j_str s) = j_str s
  stored (j_arr items) = j_arr (store_items nil items)
  stored (j_obj fs) = j_obj (store_fields end fs)

  pub store_items : {D : Type 0} → Items D → Items D → Items D
  store_items acc nil = acc
  store_items acc (cons v items) = store_items (add_item acc (stored v)) items

  pub store_fields : {D : Type 0} → Fields D → Fields D → Fields D
  store_fields acc end = acc
  store_fields acc (field k v fs) = store_fields (put_field acc k (stored v)) fs

-- C strings, and numbers of 64 bits.
abbrev mutual
  pub Sound : {D : Type 0} → JVal D → Type 0
  Sound j_null = Unit
  Sound (j_bool b) = Unit
  Sound (j_int i) = Fits i
  Sound (j_dbl d) = Unit
  Sound (j_str s) = Without 0 s
  Sound (j_arr items) = SoundItems items
  Sound (j_obj fs) = SoundFields fs

  pub SoundItems : {D : Type 0} → Items D → Type 0
  SoundItems nil = Unit
  SoundItems (cons v items) = Sound v × SoundItems items

  pub SoundFields : {D : Type 0} → Fields D → Type 0
  SoundFields end = Unit
  SoundFields (field k v fs) = Without 0 k × Sound v × SoundFields fs
