-- ===== src/Rt/Map/Lookup.antt =====
-- What a get of runtime/vader_rt.c's maps sees after a set.
use vader_langue.Prelude.{
  ℕ, ◌+◌, ◌<◌, ◌≡◌, ◌≢◌, refl, ap, sym, ◌∙◌, Bool, true, false, Option, none, some, List, [], ◌∷◌,
  inl, inr, Bytes, arith, Bool-cases, Option-cases, if◌then◌else◌, length, get_or, set, length-set,
  get_or-set_self, get_or-set_ne, take, ◌==◌, ==_iff,
}
use vader_langue.Rt.Map.{Map, Entry, num_buckets, overwrite, find, chain, store, reply, make, len}
use vader_langue.Rt.Map.Keys.{
  Key, int_key, str_key, key_eq, key_eq_iff, key_of, passes, bucket, bucket-lt, entry, put, get,
  put_lem, get_lem, passes_lem, passes-entry,
}

-- Overwriting keeps the keys of a chain.
passes_val : (k : Key) (e : Entry) (v : Bytes) → passes k (record e { val = v }) ≡ passes k e
passes_val k e v = passes_lem k (record e { val = v }) ∙ sym (passes_lem k e)

-- The tests of two keys on one entry.
passes_same : (j k : Key) (e : Entry) → passes k e ≡ true → passes j e ≡ key_eq k j
passes_same j k e h =
    passes_lem j e ∙ ap (λ a. key_eq a j) ((key_eq_iff (key_of e) k).0 (sym (passes_lem k e) ∙ h))

key_eq_refl : (k : Key) → key_eq k k ≡ true
key_eq_refl k = (key_eq_iff k k).1 refl

passes_other : (j k : Key) (e : Entry) → passes k e ≡ false → passes j e ≡ true → key_eq k j ≡ false
passes_other j k e hk hj = elim (Bool-cases (key_eq k j)) [
  | inl e1 ↦ cc (hk, hj, (key_eq_iff k j).0 e1)
  | inr e1 ↦ e1
]

keys_differ : (k j : Key) → bucket k ≢ bucket j → key_eq k j ≡ false
keys_differ k j h = elim (Bool-cases (key_eq k j)) [
  | inl e ↦ absurd (h (ap bucket ((key_eq_iff k j).0 e)))
  | inr e ↦ e
]

find-overwrite :
    (j k : Key) (v : Bytes) (es es' : List Entry)
    → overwrite (passes k) v es ≡ some es'
    → find (passes j) es' ≡ (if key_eq k j then some v else find (passes j) es)
unfolding overwrite find
find-overwrite j k v [] es' h = cc
find-overwrite j k v (e ∷ es) es' h = elim (Bool-cases (passes k e)) [
  | inl p ↦ ground (arith, passes_same j k e p, passes_val j e v)
  | inr p ↦ elim (Option-cases (overwrite (passes k) v es)) [
    | inl q ↦ ground arith
    | inr (es2, q) ↦ ground (arith, passes_other j k e p, find-overwrite j k v es es2 q)
  ]
]

overwrite-none :
    (k : Key) (v : Bytes) (es : List Entry)
    → overwrite (passes k) v es ≡ none
    → find (passes k) es ≡ none
unfolding overwrite find
overwrite-none k v [] h = refl
overwrite-none k v (e ∷ es) h = ground (arith, overwrite-none k v es)

overwrite-some :
    (k : Key) (v : Bytes) (es es' : List Entry)
    → overwrite (passes k) v es ≡ some es'
    → find (passes k) es ≢ none
unfolding overwrite find
overwrite-some k v [] es' h = cc
overwrite-some k v (e ∷ es) es' h = elim (Option-cases (overwrite (passes k) v es)) [
  | inl q ↦ ground arith
  | inr (es2, q) ↦ ground (arith, overwrite-some k v es es2 q)
]

-- The table has its 64 chains.
abbrev pub HasBuckets : Map → Type 0
HasBuckets m = length m.buckets ≡ num_buckets

pub make-HasBuckets : (n : ℕ) (s : Bool) → HasBuckets (make n s)
unfolding make
make-HasBuckets n s = refl

store-HasBuckets :
    (m : Map) (b : ℕ) (e : Entry) (o : Option (List Entry))
    → HasBuckets m
    → HasBuckets (store m b e o) × ((store m b e o).valsize ≡ m.valsize)
store-HasBuckets m b e none h = (length-set m.buckets b (e ∷ chain m b) ∙ h, refl)
store-HasBuckets m b e (some es) h = (length-set m.buckets b es ∙ h, refl)

-- A set keeps the number of chains and the size of values.
pub put-HasBuckets :
    (m : Map) (k : Key) (v : Bytes)
    → HasBuckets m
    → HasBuckets (put m k v) × ((put m k v).valsize ≡ m.valsize)
put-HasBuckets m k v h = rw (put_lem m k v) (store-HasBuckets m _ _ _ h)

-- The value that a key finds in the table.
abbrev pub lookup : Map → Key → Option Bytes
lookup m k = find (passes k) (chain m (bucket k))

find-entry :
    (j k : Key) (v : Bytes) (es : List Entry)
    → find (passes j) (entry k v ∷ es) ≡ (if key_eq k j then some v else find (passes j) es)
unfolding find
find-entry j (int_key k) v es = rw (passes-entry j (int_key k) v)
find-entry j (str_key k) v es = rw (passes-entry j (str_key k) v)

-- Replacing the chain of `k` by one that differs in what `k` finds.
find-set :
    (m : Map) (j k : Key) (v : Bytes) (es : List Entry)
    → HasBuckets m
    → find (passes j) es ≡ (if key_eq k j then some v else find (passes j) (chain m (bucket k)))
    → find (passes j) (get_or (set m.buckets (bucket k) es) (bucket j) [])
      ≡ (if key_eq k j then some v else lookup m j)
find-set m j k v es h e = elim (Bool-cases (bucket k == bucket j)) [
  | inl p ↦
      let same : bucket k ≡ bucket j = (==_iff (bucket k) (bucket j)).0 p in
      let inside : bucket j < length m.buckets = omega (arith, h, bucket-lt j) in
      rw (same, get_or-set_self m.buckets (bucket j) es [] inside) (rw same at e)
  | inr p ↦
      let differ : bucket k ≢ bucket j = λ q. cc (p, (==_iff (bucket k) (bucket j)).1 q) in
      let keys : key_eq k j ≡ false = keys_differ k j differ in
      rw (keys, get_or-set_ne m.buckets (bucket k) (bucket j) es [] differ)
]

lookup-store :
    (m : Map) (j k : Key) (v : Bytes) (o : Option (List Entry))
    → HasBuckets m
    → overwrite (passes k) v (chain m (bucket k)) ≡ o
    → lookup (store m (bucket k) (entry k v) o) j ≡ (if key_eq k j then some v else lookup m j)
lookup-store m j k v none h q =
    find-set m j k v (entry k v ∷ chain m (bucket k)) h (find-entry j k v (chain m (bucket k)))
lookup-store m j k v (some es) h q =
    find-set m j k v es h (find-overwrite j k v (chain m (bucket k)) es q)

valsize-store :
    (m : Map) (b : ℕ) (e : Entry) (o : Option (List Entry)) → (store m b e o).valsize ≡ m.valsize
valsize-store m b e none = refl
valsize-store m b e (some es) = refl

lookup-put :
    (m : Map) (j k : Key) (v : Bytes)
    → HasBuckets m
    → lookup (put m k v) j ≡ (if key_eq k j then some (take m.valsize v) else lookup m j)
lookup-put m j k v h = rw (put_lem m k v) (lookup-store m j k (take m.valsize v) _ h refl)

reply_if :
    (m n : Map) (b : Bool) (v : Bytes) (o : Option Bytes)
    → n.valsize ≡ m.valsize
    → reply n (if b then some v else o) ≡ (if b then (true, v) else reply m o)
reply_if m n true v o e = refl
reply_if m n false v none e = rw e
reply_if m n false v (some w) e = refl

-- A get after a set: the key that was set finds the first `valsize` bytes that were given, and every
-- other key, of either kind, finds what it found before.
pub get-put :
    (m : Map) (j k : Key) (v : Bytes)
    → HasBuckets m
    → get (put m k v) j ≡ (if key_eq k j then (true, take m.valsize v) else get m j)
get-put m j k v h =
    rw (get_lem (put m k v) j, get_lem m j, lookup-put m j k v h)
      (reply_if m (put m k v) (key_eq k j) (take m.valsize v) (lookup m j)
        (put-HasBuckets m k v h).1)

-- The first component of a reply says whether the key was found.
found-reply : (m : Map) (o : Option Bytes) → o ≢ none → (reply m o).0 ≡ true
found-reply m none h = absurd (h refl)
found-reply m (some v) h = refl

count-store :
    (m : Map) (k : Key) (v : Bytes) (e : Entry) (b : ℕ) (o : Option (List Entry))
    → overwrite (passes k) v (chain m (bucket k)) ≡ o
    → (store m b e o).count ≡ (if (get m k).0 then m.count else m.count + 1)
count-store m k v e b none q = rw (get_lem m k, overwrite-none k v _ q)
count-store m k v e b (some es) q = rw (get_lem m k, found-reply m _ (overwrite-some k v _ es q))

-- The length grows by one exactly when the key that is set was absent.
pub len-put :
    (m : Map) (k : Key) (v : Bytes) → len (put m k v) ≡ (if (get m k).0 then len m else len m + 1)
unfolding len
len-put m k v = rw (put_lem m k v) (count-store m k (take m.valsize v) _ _ _ refl)
