-- ===== src/Rt/Map/History.antt =====
-- A map of runtime/vader_rt.c against the history of what was set.
use vader_langue.Prelude.{
  ℕ, ◌+◌, ◌≡◌, refl, ap, sym, ◌∙◌, Bool, true, false, Option, none, some, List, [], ◌∷◌, Bytes,
  if◌then◌else◌, take, replicate, get_or-replicate,
}
use vader_langue.Rt.Map.{num_buckets, Map, make, len, find, reply}
use vader_langue.Rt.Map.Keys.{Key, key_eq, put, get, get_lem, bucket, passes}
use vader_langue.Rt.Map.Lookup.{HasBuckets, put-HasBuckets, get-put, len-put}

abbrev pub History : Type 0
History = List (Key × Bytes)

-- The map after the sets of a history, the latest first.
unfoldable pub build : ℕ → Bool → History → Map
build n s [] = make n s
build n s ((k, v) ∷ past) = put (build n s past) k v

-- The last value that was set for a key.
unfoldable pub last_value : Key → History → Option Bytes
last_value j [] = none
last_value j ((k, v) ∷ past) = if key_eq k j then some v else last_value j past

abbrev pub is_some : Option Bytes → Bool
is_some none = false
is_some (some v) = true

-- How many different keys were set.
unfoldable pub distinct : History → ℕ
distinct [] = 0
distinct ((k, v) ∷ past) = if is_some (last_value k past) then distinct past else distinct past + 1

-- What the calls promise of the last value: 1 and its first `n` bytes, or 0 and `n` zero bytes.
abbrev pub answer : ℕ → Option Bytes → Bool × Bytes
answer n none = (false, replicate n 0)
answer n (some v) = (true, take n v)

build-HasBuckets :
    (n : ℕ) (s : Bool) (past : History)
    → HasBuckets (build n s past) × ((build n s past).valsize ≡ n)
unfolding build
build-HasBuckets n s [] = unfold make in (refl, refl)
build-HasBuckets n s ((k, v) ∷ past) =
    let (h, e) = build-HasBuckets n s past in
    ((put-HasBuckets (build n s past) k v h).0, (put-HasBuckets (build n s past) k v h).1 ∙ e)

get-make : (n : ℕ) (s : Bool) (k : Key) → get (make n s) k ≡ (false, replicate n 0)
unfolding make find
get-make n s k =
    rw (get_lem (make n s) k) (
      ap (λ es. reply (make n s) (find (passes k) es)) (get_or-replicate num_buckets (bucket k) []))

answer_if :
    (n : ℕ) (b : Bool) (v : Bytes) (o : Option Bytes)
    → answer n (if b then some v else o) ≡ (if b then (true, take n v) else answer n o)
answer_if n true v o = refl
answer_if n false v o = refl

-- After any sets, of integer and string keys in any order, a get answers with the last value that was
-- set for its key, cut to the map's value size, or with 0 and zero bytes when there is none.
pub get-build :
    (n : ℕ) (s : Bool) (past : History) (j : Key)
    → get (build n s past) j ≡ answer n (last_value j past)
unfolding build last_value
get-build n s [] j = get-make n s j
get-build n s ((k, v) ∷ past) j =
    let (h, e) = build-HasBuckets n s past in
    rw (get-put (build n s past) j k v h, e, get-build n s past j)
      (sym (answer_if n (key_eq k j) v (last_value j past)))

answer_found : (n : ℕ) (o : Option Bytes) → (answer n o).0 ≡ is_some o
answer_found n none = refl
answer_found n (some v) = refl

-- `vader_map_len` is the number of different keys that were set.
pub len-build : (n : ℕ) (s : Bool) (past : History) → len (build n s past) ≡ distinct past
unfolding build distinct
len-build n s [] = unfold len make in refl
len-build n s ((k, v) ∷ past) = rw (
  len-put (build n s past) k v,
  get-build n s past k,
  answer_found n (last_value k past),
  len-build n s past,
)
