-- ===== src/Rt/Map/Keys.antt =====
-- The two kinds of key of a map of runtime/vader_rt.c under one type, with the calls for each.
use vader_langue.Prelude.{
  ℕ, ◌%◌, ◌<◌, ◌≡◌, ◌↔◌, refl, Bool, true, false, none, some, Bytes, ℤ, pos, arith, int_eq,
  int_eq_iff, bytes_eq, bytes_eq_iff, take,
}
use vader_langue.Rt.Map.{
  Map, Entry, num_buckets, hash_int, hash_str, is_int, is_str, set_int, set_str, get_int, get_str,
  overwrite, find, chain, store, reply,
}

pub data Key : Type 0 where
  int_key : ℤ → Key
  str_key : Bytes → Key

abbrev pub key_eq : Key → Key → Bool
key_eq (int_key a) (int_key b) = int_eq a b
key_eq (int_key a) (str_key b) = false
key_eq (str_key a) (int_key b) = false
key_eq (str_key a) (str_key b) = bytes_eq a b

pub key_eq_iff : (a b : Key) → (key_eq a b ≡ true) ↔ (a ≡ b)
key_eq_iff (int_key a) (int_key b) = ground (arith, int_eq_iff a b)
key_eq_iff (int_key a) (str_key b) = ground arith
key_eq_iff (str_key a) (int_key b) = ground arith
key_eq_iff (str_key a) (str_key b) = ground (arith, bytes_eq_iff a b)

abbrev pub key_of : Entry → Key
key_of e = elim e.skey [ none ↦ int_key e.ikey | some s ↦ str_key s ]

unfoldable pub passes : Key → Entry → Bool
unfolding is_int is_str
passes (int_key k) = is_int k
passes (str_key k) = is_str k

unfoldable pub bucket : Key → ℕ
bucket (int_key k) = hash_int k % num_buckets
bucket (str_key k) = hash_str k % num_buckets

pub bucket-lt : (k : Key) → bucket k < 64
unfolding bucket
bucket-lt (int_key k) = omega arith
bucket-lt (str_key k) = omega arith

abbrev pub entry : Key → Bytes → Entry
entry (int_key k) v = record { ikey = k; skey = none; val = v }
entry (str_key k) v = record { ikey = pos 0; skey = some k; val = v }

-- `vader_map_set_int` or `vader_map_set_str`, and `vader_map_get_int` or `vader_map_get_str`.
unfoldable pub put : Map → Key → Bytes → Map
put m (int_key k) v = set_int m k v
put m (str_key k) v = set_str m k v

unfoldable pub get : Map → Key → Bool × Bytes
get m (int_key k) = get_int m k
get m (str_key k) = get_str m k

pub put_lem :
    (m : Map) (k : Key) (v : Bytes)
    → put m k v
      ≡ store m
          (bucket k)
          (entry k (take m.valsize v))
          (overwrite (passes k) (take m.valsize v) (chain m (bucket k)))
unfolding put set_int set_str bucket passes
put_lem m (int_key k) v = refl
put_lem m (str_key k) v = refl

pub get_lem : (m : Map) (k : Key) → get m k ≡ reply m (find (passes k) (chain m (bucket k)))
unfolding get get_int get_str bucket passes
get_lem m (int_key k) = refl
get_lem m (str_key k) = refl

pub passes_lem : (k : Key) (e : Entry) → passes k e ≡ key_eq (key_of e) k
unfolding passes
passes_lem (int_key k) e = ground arith
passes_lem (str_key k) e = ground arith

pub passes-entry : (j k : Key) (v : Bytes) → passes j (entry k v) ≡ key_eq k j
unfolding passes
passes-entry (int_key j) (int_key k) v = refl
passes-entry (int_key j) (str_key k) v = refl
passes-entry (str_key j) (int_key k) v = refl
passes-entry (str_key j) (str_key k) v = refl
