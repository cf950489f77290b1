-- ===== src/Json/Tree/Laws.antt =====
-- runtime/vader_json.c: what a builder puts into a tree is what an accessor reads from it.
use vader_langue.Prelude.{
  ℕ, suc, zero, ◌≡◌, refl, true, false, inl, inr, Bool-cases, Bytes, arith, bytes_eq, bytes_eq_iff,
  ◌==◌, if◌then◌else◌, pos,
}
use vader_langue.Json.{JVal, Items, Fields, j_arr, j_obj, nil, cons, end, field}
use vader_langue.Json.Tree.{
  count_items, item, find_field, get_field, elem, count, put_field, obj_set, add_item, arr_add,
}

bytes_eq-other : (a b c : Bytes) → bytes_eq a b ≡ false → bytes_eq a c ≡ true → bytes_eq b c ≡ false
bytes_eq-other a b c h k = elim (Bool-cases (bytes_eq b c)) [
  | inl e ↦ cc (h, k, (bytes_eq_iff b c).0 e)
  | inr e ↦ e
]

module _ {D : Type 0} where
  find_one :
      (k : Bytes) (v : JVal D) (fs : Fields D) (j : Bytes)
      → find_field (field k v fs) j ≡ (if bytes_eq k j then v else find_field fs j)
  unfolding find_field
  find_one k v fs j = refl

  put_one :
      (k0 : Bytes) (v0 : JVal D) (fs : Fields D) (k : Bytes) (v : JVal D)
      → put_field (field k0 v0 fs) k v
        ≡ (if bytes_eq k0 k then field k0 v fs else field k0 v0 (put_field fs k v))
  unfolding put_field
  put_one k0 v0 fs k v = refl

  put_end : (k : Bytes) (v : JVal D) → put_field end k v ≡ field k v end
  unfolding put_field
  put_end k v = refl

  same_key :
      (k0 k j : Bytes) (v v0 w : JVal D)
      → k0 ≡ k
      → (if bytes_eq k0 j then v else w)
        ≡ (if bytes_eq k j then v else (if bytes_eq k0 j then v0 else w))
  same_key k0 k j v v0 w e = elim (Bool-cases (bytes_eq k j)) [
    | inl h ↦ rw (e, h)
    | inr h ↦ rw (e, h)
  ]

  find_field-put_field :
      (fs : Fields D) (k : Bytes) (v : JVal D) (j : Bytes)
      → find_field (put_field fs k v) j ≡ (if bytes_eq k j then v else find_field fs j)
  find_field-put_field end k v j = rw (put_end k v) (find_one k v end j)
  find_field-put_field (field k0 v0 fs) k v j = elim (Bool-cases (bytes_eq k0 k)) [
    | inl e ↦
        rw (put_one k0 v0 fs k v, e, find_one k0 v fs j, find_one k0 v0 fs j)
          (same_key k0 k j v v0 (find_field fs j) ((bytes_eq_iff k0 k).0 e))
    | inr e ↦ elim (Bool-cases (bytes_eq k0 j)) [
      | inl h ↦ rw (
        put_one k0 v0 fs k v,
        e,
        find_one k0 v0 (put_field fs k v) j,
        find_one k0 v0 fs j,
        h,
        bytes_eq-other k0 k j e h,
      )
      | inr h ↦ rw (
        put_one k0 v0 fs k v,
        e,
        find_one k0 v0 (put_field fs k v) j,
        find_one k0 v0 fs j,
        h,
        find_field-put_field fs k v j,
      )
    ]
  ]

  -- A member of an object that was set reads the value set under its key, and what it read before
  -- under every other.
  pub get_field-obj_set :
      (fs : Fields D) (k : Bytes) (v : JVal D) (j : Bytes)
      → get_field (obj_set (j_obj fs) k v) j ≡ (if bytes_eq k j then v else get_field (j_obj fs) j)
  get_field-obj_set fs k v j = unfold get_field obj_set in find_field-put_field fs k v j

  item-add_item :
      (xs : Items D) (v : JVal D) (i : ℕ)
      → item (add_item xs v) i ≡ (if i == count_items xs then v else item xs i)
  unfolding item add_item count_items
  item-add_item nil v zero = refl
  item-add_item nil v (suc i) = ground arith
  item-add_item (cons w xs) v zero = ground arith
  item-add_item (cons w xs) v (suc i) = ground (arith, item-add_item xs v i)

  -- Adding to an array puts the value at the index that was its count, and leaves every other index
  -- what it was.
  pub elem-arr_add :
      (xs : Items D) (v : JVal D) (i : ℕ)
      → elem (arr_add (j_arr xs) v) (pos i)
        ≡ (if i == count (j_arr xs) then v else elem (j_arr xs) (pos i))
  elem-arr_add xs v i = unfold elem arr_add count in item-add_item xs v i
