-- ===== src/Json/Tree.antt =====
-- runtime/vader_json.c: reading and building JSON trees. `JNULL` is `j_null`; a null pointer is not
-- modelled, since no function here returns one.
pub mod Laws
mod Tests
use vader_langue.Prelude.{
  ℕ, suc, zero, Bool, true, false, Option, none, some, Option-cases, [], Bytes, codes, bytes_eq,
  ◌==◌, if◌then◌else◌, ℤ, pos, negsuc,
}
use vader_langue.Libc.{atoll, print_int}
use vader_langue.Json.{
  JVal, Items, Fields, Doubles, j_null, j_bool, j_int, j_dbl, j_str, j_arr, j_obj, nil, cons, end,
  field,
}

unfoldable pub count_items : {D : Type 0} → Items D → ℕ
count_items nil = 0
count_items (cons v xs) = suc (count_items xs)

unfoldable pub count_fields : {D : Type 0} → Fields D → ℕ
count_fields end = 0
count_fields (field k v fs) = suc (count_fields fs)

-- `v->items[i]` of an array, `JNULL` from the count on.
unfoldable pub item : {D : Type 0} → Items D → ℕ → JVal D
item nil i = j_null
item (cons v xs) zero = v
item (cons v xs) (suc i) = item xs i

-- The loop of `vader_json_field`.
unfoldable pub find_field : {D : Type 0} → Fields D → Bytes → JVal D
find_field end key = j_null
find_field (field k v fs) key = let rest = find_field fs key in if bytes_eq k key then v else rest

unfoldable pub get_field : {D : Type 0} → JVal D → Bytes → JVal D
unfolding find_field
get_field (j_obj fs) key = find_field fs key
get_field v key = j_null

unfoldable pub elem : {D : Type 0} → JVal D → ℤ → JVal D
unfolding item
elem (j_arr xs) (pos i) = item xs i
elem v i = j_null

unfoldable pub count : {D : Type 0} → JVal D → ℕ
unfolding count_items count_fields
count (j_arr xs) = count_items xs
count (j_obj fs) = count_fields fs
count v = 0

-- The loop and the end of `obj_set`.
unfoldable pub put_field : {D : Type 0} → Fields D → Bytes → JVal D → Fields D
put_field end key val = field key val end
put_field (field k v fs) key val =
    let rest = put_field fs key val in if bytes_eq k key then field k val fs else field k v rest

unfoldable pub obj_set : {D : Type 0} → JVal D → Bytes → JVal D → JVal D
unfolding put_field
obj_set (j_obj fs) key val = j_obj (put_field fs key val)
obj_set v key val = v

unfoldable pub add_item : {D : Type 0} → Items D → JVal D → Items D
add_item nil val = cons val nil
add_item (cons v xs) val = cons v (add_item xs val)

unfoldable pub arr_add : {D : Type 0} → JVal D → JVal D → JVal D
unfolding add_item
arr_add (j_arr xs) val = j_arr (add_item xs val)
arr_add v val = v

-- `vader_json_set_bool` keeps 1 for any value but 0.
abbrev pub flag : {D : Type 0} → ℤ → JVal D
flag (pos zero) = j_bool 0
flag v = j_bool 1

abbrev pub set_str : {D : Type 0} → JVal D → Bytes → Bytes → JVal D
set_str o key val = obj_set o key (j_str val)

abbrev pub set_int : {D : Type 0} → JVal D → Bytes → ℤ → JVal D
set_int o key val = obj_set o key (j_int val)

abbrev pub set_float : {D : Type 0} → JVal D → Bytes → D → JVal D
set_float o key val = obj_set o key (j_dbl val)

abbrev pub set_bool : {D : Type 0} → JVal D → Bytes → ℤ → JVal D
set_bool o key val = obj_set o key (flag val)

abbrev pub add_str : {D : Type 0} → JVal D → Bytes → JVal D
add_str a val = arr_add a (j_str val)

abbrev pub add_int : {D : Type 0} → JVal D → ℤ → JVal D
add_int a val = arr_add a (j_int val)

abbrev pub add_float : {D : Type 0} → JVal D → D → JVal D
add_float a val = arr_add a (j_dbl val)

-- The value is kept as it is. It is not negative: a `bool` of the language, or a byte of a document.
abbrev pub add_bool : {D : Type 0} → JVal D → ℕ → JVal D
add_bool a val = arr_add a (j_bool val)

-- `keys[i]` and `items[i]` of an object, out of range an empty string and `JNULL`.
unfoldable pub nth_key : {D : Type 0} → Fields D → ℕ → Bytes
nth_key end i = []
nth_key (field k v fs) zero = k
nth_key (field k v fs) (suc i) = nth_key fs i

unfoldable pub nth_value : {D : Type 0} → Fields D → ℕ → JVal D
nth_value end i = j_null
nth_value (field k v fs) zero = v
nth_value (field k v fs) (suc i) = nth_value fs i

unfoldable pub key_at : {D : Type 0} → JVal D → ℤ → Bytes
unfolding nth_key
key_at (j_obj fs) (pos i) = nth_key fs i
key_at v i = []

unfoldable pub value_at : {D : Type 0} → JVal D → ℤ → JVal D
unfolding nth_value item
value_at (j_obj fs) (pos i) = nth_value fs i
value_at (j_arr xs) (pos i) = item xs i
value_at v i = j_null

module _ (d : Doubles) where
  open d use {Double, strtod, to_ll, of_ll, print_g}

  unfoldable pub as_str : JVal Double → Bytes
  as_str (j_str s) = s
  as_str (j_int i) = print_int i
  as_str (j_dbl x) = print_g x
  as_str (j_bool b) = if b == 0 then codes "false" else codes "true"
  as_str v = []

  unfoldable pub as_int : JVal Double → ℤ
  as_int (j_int i) = i
  as_int (j_dbl x) = to_ll x
  as_int (j_bool b) = pos b
  as_int (j_str s) = atoll s
  as_int v = pos 0

  -- `atof` is `strtod` without its end.
  unfoldable pub as_float : JVal Double → Double
  as_float (j_dbl x) = x
  as_float (j_int i) = of_ll i
  as_float (j_str s) = (strtod s).0
  as_float v = of_ll (pos 0)

  unfoldable pub as_bool : JVal Double → ℕ
  as_bool (j_bool b) = b
  as_bool (j_int (pos zero)) = 0
  as_bool (j_int i) = 1
  as_bool v = 0
