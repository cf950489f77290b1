-- ===== src/Rt/Map.antt =====
-- runtime/vader_rt.c, maps: a hash table of 64 chains with integer or string keys. Values are the
-- `valsize` bytes that memcpy moves.
pub mod Keys
pub mod Lookup
pub mod History
use vader_langue.Prelude.{
  ℕ, ◌+◌, ◌*◌, ◌%◌, ◌^◌, Bool, true, false, not, ◌&&◌, Option, none, some, List, [], ◌∷◌, Bytes, ℤ,
  pos, ◌==◌, if◌then◌else◌, get_or, set, replicate, take, int_eq, to_u64, bytes_eq,
}

abbrev pub num_buckets : ℕ
num_buckets = 64

-- `VEntry`; `skey` is none for NULL. The chain is the list.
pub record Entry : Type 0 where
  pub ikey : ℤ
  pub skey : Option Bytes
  pub val : Bytes

-- `VaderMap`
pub record Map : Type 0 where
  pub valsize : ℕ
  pub keyisstr : Bool
  pub count : ℕ
  pub buckets : List (List Entry)

-- Products and sums of `unsigned long` wrap at 2^64.
unfoldable pub hash_int : ℤ → ℕ
hash_int k = to_u64 k * 2654435761 % 2 ^ 64

unfoldable pub hash_from : ℕ → Bytes → ℕ
hash_from h [] = h
hash_from h (c ∷ s) = hash_from ((h * 33 + c) % 2 ^ 64) s

unfoldable pub hash_str : Bytes → ℕ
unfolding hash_from
hash_str s = hash_from 5381 s

unfoldable pub make : ℕ → Bool → Map
make valsize keyisstr = record {
  valsize = valsize;
  keyisstr = keyisstr;
  count = 0;
  buckets = replicate num_buckets [];
}

-- The tests of the chain loops: `!e->skey && e->ikey == key`, and
-- `e->skey && strcmp(e->skey, key) == 0`.
unfoldable pub is_int : ℤ → Entry → Bool
is_int key e = elim e.skey [ none ↦ int_eq e.ikey key | some _ ↦ false ]

unfoldable pub is_str : Bytes → Entry → Bool
is_str key e = elim e.skey [ none ↦ false | some s ↦ bytes_eq s key ]

-- The loop of a set: the first entry that passes the test is overwritten; none if there is none.
unfoldable pub overwrite : (Entry → Bool) → Bytes → List Entry → Option (List Entry)
overwrite test val [] = none
overwrite test val (e ∷ es) =
    let rest = overwrite test val es in
    if test e
    then some (record e { val = val } ∷ es)
    else elim rest [ none ↦ none | some es' ↦ some (e ∷ es') ]

-- The loop of a get.
unfoldable pub find : (Entry → Bool) → List Entry → Option Bytes
find test [] = none
find test (e ∷ es) = let rest = find test es in if test e then some e.val else rest

abbrev pub chain : Map → ℕ → List Entry
chain m b = get_or m.buckets b []

abbrev pub store : Map → ℕ → Entry → Option (List Entry) → Map
store m b e (some es) = record m { buckets = set m.buckets b es }
store m b e none = record m { buckets = set m.buckets b (e ∷ chain m b); count = m.count + 1 }

unfoldable pub set_int : Map → ℤ → Bytes → Map
set_int m key val =
    let b = hash_int key % num_buckets in
    let v = take m.valsize val in
    store m b (record { ikey = key; skey = none; val = v }) (overwrite (is_int key) v (chain m b))

unfoldable pub set_str : Map → Bytes → Bytes → Map
set_str m key val =
    let b = hash_str key % num_buckets in
    let v = take m.valsize val in
    store m b (record { ikey = pos 0; skey = some key; val = v })
      (overwrite (is_str key) v (chain m b))

-- The answer of a get: 1 and the value, or 0 and zero bytes.
abbrev pub reply : Map → Option Bytes → Bool × Bytes
reply m (some v) = (true, v)
reply m none = (false, replicate m.valsize 0)

unfoldable pub get_int : Map → ℤ → Bool × Bytes
get_int m key = reply m (find (is_int key) (chain m (hash_int key % num_buckets)))

unfoldable pub get_str : Map → Bytes → Bool × Bytes
get_str m key = reply m (find (is_str key) (chain m (hash_str key % num_buckets)))

unfoldable pub len : Map → ℕ
len m = m.count
