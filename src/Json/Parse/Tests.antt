-- ===== src/Json/Parse/Tests.antt =====
-- runtime/vader_json.c: parsing of concrete texts.
use vader_langue.Prelude.{
  ◌≡◌, ◌≢◌, refl, arith, ap, length, [], ◌∷◌, codes, Bytes, ℤ, pos, negsuc, some,
}
use vader_langue.Libc.{atoll, print_int}
use vader_langue.Libc.Decimal.{atoll-print_int, NoDigit}
use vader_langue.Json.{JVal, Doubles, j_null, j_bool, j_int, j_arr, j_obj, nil, cons, end, field}
use vader_langue.Json.Encode.{encode}
use vader_langue.Json.Parse.{parsed, fault, starved, json_parse, jskip, jparse_val}
use vader_langue.Json.Parse.Plain.{Exact, Ends}
use vader_langue.Json.Parse.RoundTrip.{json_parse-encode}
use vader_langue.Json.Parse.Total.{json_parse-ends}
use vader_langue.Json.Parse.Faults.{json_parse_brace}

-- Doubles that hold integers alone.
abbrev whole : Doubles
whole = record {
  Double = ℤ;
  strtod = λ s. (atoll s, length (print_int (atoll s)));
  to_ll = λ x. x;
  of_ll = λ i. i;
  print_g = print_int;
}

Ends-NoDigit : (s : Bytes) → Ends s → NoDigit s
Ends-NoDigit [] h = _
Ends-NoDigit (c ∷ s) h = ground arith

whole-Exact : Exact whole
whole-Exact = record {
  reads = λ i rest h n.
      ap (λ v. (v, length (print_int v))) (atoll-print_int i rest (Ends-NoDigit rest n));
  back = λ i h. refl;
}

-- {"a": [1, -20, true], "b\"": null}
abbrev tree : JVal ℤ
tree = j_obj (
    field (codes "a")
      (j_arr (cons (j_int (pos 1)) (cons (j_int (negsuc 19)) (cons (j_bool 1) nil))))
      (field (b'b' ∷ b'"' ∷ []) j_null end))

json_parse-encode_example : json_parse whole (encode whole tree) ≡ parsed tree (some [])
json_parse-encode_example = json_parse-encode whole whole-Exact tree (
  (ground arith, _),
  (omega arith, (omega arith, (omega arith, _))),
  ((ground arith, (ground arith, _)), _, _),
)

json_parse_brace_example : json_parse whole (codes "{ \n") ≡ fault
json_parse_brace_example = json_parse_brace whole (codes " \n") (refl, (refl, _))

-- A list that is cut off inside a literal: the cursor jumps over the end.
parse_cut_literal : json_parse whole (codes "[t") ≡ fault
unfolding json_parse jskip jparse_val
parse_cut_literal = refl

json_parse-ends_example : json_parse whole (codes "[[[{") ≢ starved
json_parse-ends_example = json_parse-ends whole (codes "[[[{")
