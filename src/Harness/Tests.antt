-- ===== src/Harness/Tests.antt =====
-- runtime/vader_test.c: two tests of three functions.
use vader_langue.Prelude.{
  ◌≡◌, ◌≤◌, refl, arith, Bool, true, false, ◌&&◌, List, [], ◌∷◌, codes, Bytes, ltb, if◌then◌else◌,
  length,
}
use vader_langue.Harness.{cov_max, known, cov_add, Tally, run_all, summary}
use vader_langue.Harness.Coverage.{
  add_all, known-add_all, Distinct, cov_add-Distinct, failures, summary-run_all,
}

abbrev names : List Bytes
names = codes "f" ∷ codes "g" ∷ codes "f" ∷ []

abbrev fresh : Tally
fresh = record { all = codes "f" ∷ codes "g" ∷ codes "h" ∷ []; hit = []; passed = 0; failed = 0 }

abbrev tests : List (Bool × List Bytes)
tests = (false, names) ∷ (true, []) ∷ []

known-add_all_example : known (add_all [] names) (codes "g") ≡ known names (codes "g")
known-add_all_example =
    known-add_all names (codes "g") (unfold add_all cov_add known in omega arith)

cov_add-Distinct_example :
    Distinct (cov_add fresh.all (codes "f")) × (length (cov_add fresh.all (codes "f")) ≤ cov_max)
cov_add-Distinct_example =
    cov_add-Distinct fresh.all (codes "f") (unfold known in (refl, (refl, (refl, _)))) (omega arith)

summary-run_all_example : summary true (λ n k. ltb n k) (run_all fresh tests) ≡ (
    if ltb 0 (failures tests)
    then 1
    else (if true && ltb (length (run_all fresh tests).hit) (length (run_all fresh tests).all)
        then 2
        else 0))
summary-run_all_example = summary-run_all true (λ n k. ltb n k) fresh tests refl
