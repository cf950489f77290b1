-- ===== src/Json/Encode.antt =====
-- runtime/vader_json.c, encoding. The growing buffer is the list of its bytes.
use vader_langue.Prelude.{ℕ, Bool, true, false, [], ◌∷◌, ◌++◌, Bytes, codes, ◌==◌, if◌then◌else◌}
use vader_langue.Libc.{print_int}
use vader_langue.Json.{
  JVal, Items, Fields, Doubles, j_null, j_bool, j_int, j_dbl, j_str, j_arr, j_obj, nil, cons, end,
  field,
}

-- The switch of `sb_json_str`.
unfoldable pub esc : ℕ → Bytes
esc c =
    if c == b'"'
    then b'\\' ∷ b'"' ∷ []
    else if c == b'\\'
    then b'\\' ∷ b'\\' ∷ []
    else if c == 10
    then b'\\' ∷ b'n' ∷ []
    else if c == 13
    then b'\\' ∷ b'r' ∷ []
    else if c == 9
    then b'\\' ∷ b't' ∷ []
    else c ∷ []

unfoldable pub esc_all : Bytes → Bytes
esc_all [] = []
esc_all (c ∷ s) = esc c ++ esc_all s

unfoldable pub json_str : Bytes → Bytes
json_str s = b'"' ∷ (esc_all s ++ b'"' ∷ [])

module _ (d : Doubles) where
  unfoldable mutual
    pub encode : JVal d.Double → Bytes
    encode j_null = codes "null"
    encode (j_bool b) = if b == 0 then codes "false" else codes "true"
    encode (j_int i) = print_int i
    encode (j_dbl x) = d.print_g x
    encode (j_str s) = json_str s
    encode (j_arr xs) = b'[' ∷ (encode_items false xs ++ b']' ∷ [])
    encode (j_obj fs) = b'{' ∷ (encode_fields false fs ++ b'}' ∷ [])

    -- The flag is `i != 0`.
    pub encode_items : Bool → Items d.Double → Bytes
    encode_items more nil = []
    encode_items more (cons v xs) =
        (if more then b',' ∷ [] else []) ++ (encode v ++ encode_items true xs)

    pub encode_fields : Bool → Fields d.Double → Bytes
    encode_fields more end = []
    encode_fields more (field k v fs) =
        (if more then b',' ∷ [] else [])
        ++ (json_str k ++ b':' ∷ (encode v ++ encode_fields true fs))
