-- ===== src/Str/Tests.antt =====
-- Runs of the models of runtime/vader_str.c, and its theorems at concrete inputs.
use vader_langue.Prelude.{◌≡◌, refl, [], ◌∷◌, ◌++◌, Bytes, negsuc, codes, arith, All}
use vader_langue.Libc.{print_int, atoll, strstr, is_prefix, skip_space}
use vader_langue.Libc.Decimal.{atoll-print_int}
use vader_langue.Str.{trim, replace, split, join}
use vader_langue.Str.Trim.{trim_lem, IsSpace, FirstSolid, LastSolid}
use vader_langue.Str.Scan.{replace_lem}
use vader_langue.Str.Parts.{join-split}

split_commas : split (codes "a,,b") (codes ",") ≡ codes "a" ∷ [] ∷ codes "b" ∷ []
unfolding split strstr is_prefix
split_commas = refl

replace_longer : replace (codes "aXbX") (codes "X") (codes "--") ≡ codes "a--b--"
unfolding replace is_prefix
replace_longer = refl

trim_both : trim (codes "  a b ") ≡ codes "a b"
unfolding trim skip_space
trim_both = refl

atoll_minus : atoll (codes " -42x") ≡ negsuc 41
unfolding atoll
atoll_minus = refl

trim_lem_example :
    (a : Bytes) × (b : Bytes) × (codes " x " ≡ a ++ (trim (codes " x ") ++ b))
    × All IsSpace a
    × All IsSpace b
    × FirstSolid (trim (codes " x "))
    × LastSolid (trim (codes " x "))
trim_lem_example = trim_lem (codes " x ")

replace_lem_example :
    replace (codes "aXbX") (codes "X") (codes "--")
    ≡ join (split (codes "aXbX") (codes "X")) (codes "--")
replace_lem_example = replace_lem (codes "aXbX") (codes "X") (codes "--") (omega arith)

join-split_example : join (split (codes "a--b") (codes "--")) (codes "--") ≡ codes "a--b"
join-split_example = join-split (codes "a--b") (codes "--")

atoll-print_int_example : atoll (print_int (negsuc 6) ++ codes ",") ≡ negsuc 6
atoll-print_int_example = atoll-print_int (negsuc 6) (codes ",") refl
