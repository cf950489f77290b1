-- ===== src/Json/Tree/Tests.antt =====
-- runtime/vader_json.c: building and reading a small tree.
use vader_langue.Prelude.{◌≡◌, refl, codes, ℤ, pos, negsuc, if◌then◌else◌, bytes_eq}
use vader_langue.Json.{Items, Fields, j_int, j_bool, j_obj, nil, cons, end, field}
use vader_langue.Json.Tree.{
  get_field, obj_set, arr_add, set_int, add_bool, key_at, nth_key, put_field,
}
use vader_langue.Json.Tree.Laws.{get_field-obj_set}

abbrev pair : Fields ℤ
pair = field (codes "a") (j_int (pos 1)) (field (codes "b") (j_int (pos 2)) end)

abbrev ones : Items ℤ
ones = cons (j_int (pos 1)) (cons (j_bool 1) nil)

get_field-obj_set_example :
    get_field (obj_set (j_obj pair) (codes "b") (j_bool 0)) (codes "b")
    ≡ (if bytes_eq (codes "b") (codes "b") then j_bool 0 else get_field (j_obj pair) (codes "b"))
get_field-obj_set_example = get_field-obj_set pair (codes "b") (j_bool 0) (codes "b")

set_keeps_order : key_at (set_int (j_obj pair) (codes "a") (negsuc 0)) (pos 0) ≡ codes "a"
unfolding key_at obj_set nth_key put_field
set_keeps_order = refl

add_to_object : add_bool (j_obj pair) 7 ≡ j_obj pair
unfolding arr_add
add_to_object = refl
