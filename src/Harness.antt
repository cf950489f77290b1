-- ===== src/Harness.antt =====
-- runtime/vader_test.c: the harness of `vader test`. The printed lines are not modelled.
pub mod Coverage
mod Tests
use vader_langue.Prelude.{
  ℕ, suc, zero, ◌+◌, Bool, true, false, ◌&&◌, ◌||◌, not, List, [], ◌∷◌, ◌++◌, Bytes, bytes_eq, ◌==◌,
  ltb, if◌then◌else◌, length,
}

-- `VADER_COV_MAX`
abbrev pub cov_max : ℕ
cov_max = 8192

-- The loop over the names of a table.
unfoldable pub known : List Bytes → Bytes → Bool
known [] fn = false
known (x ∷ table) fn = bytes_eq x fn || known table fn

-- What `vader_cov_register` does with `g_all`, and `vader_cov` with `g_hit`.
unfoldable pub cov_add : List Bytes → Bytes → List Bytes
cov_add table fn =
    if known table fn then table else if ltb (length table) cov_max then table ++ fn ∷ [] else table

-- The variables of the file.
pub record Tally : Type 0 where
  pub all : List Bytes
  pub hit : List Bytes
  pub passed : ℕ
  pub failed : ℕ

abbrev pub cov_register : Tally → Bytes → Tally
cov_register t fn = record t { all = cov_add t.all fn }

abbrev pub cov : Tally → Bytes → Tally
cov t fn = record t { hit = cov_add t.hit fn }

-- `vader_test_run`, for a test that returns or jumps back by an assert or a panic.
abbrev pub test_run : Bool → Bool
test_run jumped = not jumped

-- `vader_test_report_one`
unfoldable pub report_one : Tally → Bool → Tally
report_one t ok =
    if ok then record t { passed = t.passed + 1 } else record t { failed = t.failed + 1 }

-- `vader_test_summary`. `below hits all` is the comparison of the percentage with the minimum.
unfoldable pub summary : Bool → (ℕ → ℕ → Bool) → Tally → ℕ
summary gate below t =
    if ltb 0 t.failed then 1 else if gate && below (length t.hit) (length t.all) then 2 else 0

-- A test's calls of `vader_cov`, one after another.
unfoldable pub cov_calls : Tally → List Bytes → Tally
cov_calls t [] = t
cov_calls t (fn ∷ calls) = cov_calls (cov t fn) calls

-- The tests of a program, one after another: whether each jumped back, and what it called before.
unfoldable pub run_all : Tally → List (Bool × List Bytes) → Tally
run_all t [] = t
run_all t ((jumped, calls) ∷ tests) =
    run_all (report_one (cov_calls t calls) (test_run jumped)) tests
