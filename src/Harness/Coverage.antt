-- ===== src/Harness/Coverage.antt =====
-- runtime/vader_test.c: the tables of functions and the exit code.
use vader_langue.Prelude.{
  ℕ, suc, ◌+◌, ◌≡◌, ◌≤◌, ◌<◌, refl, ap, ◌∙◌, arith, Bool, true, false, ◌&&◌, ◌||◌, List, [], ◌∷◌,
  ◌++◌, Bytes, bytes_eq, ltb, if◌then◌else◌, length, lt→ltb, ltb→lt, sym, bytes_eq_iff,
  length-append, Bool-cases, inl, inr,
}
use vader_langue.Harness.{
  cov_max, known, cov_add, Tally, cov, cov_calls, report_one, test_run, summary, run_all,
}

-- A table after the calls with these names.
unfoldable pub add_all : List Bytes → List Bytes → List Bytes
add_all table [] = table
add_all table (fn ∷ calls) = add_all (cov_add table fn) calls

-- No name stands twice.
abbrev pub Distinct : List Bytes → Type 0
Distinct [] = Unit
Distinct (x ∷ table) = (known table x ≡ false) × Distinct table

known-append : (s t : List Bytes) (n : Bytes) → known (s ++ t) n ≡ (known s n || known t n)
unfolding known
known-append [] t n = refl
known-append (x ∷ s) t n = ground (arith, known-append s t n)

known_one : (fn n : Bytes) → known (fn ∷ []) n ≡ bytes_eq fn n
unfolding known
known_one fn n = ground arith

-- A name that is known already adds nothing.
absorb :
    (table : List Bytes) (fn n : Bytes)
    → known table fn ≡ true
    → known table n ≡ (known table n || bytes_eq fn n)
absorb table fn n h = elim (Bool-cases (bytes_eq fn n)) [
  | inl e ↦ same (bytes_eq fn n) (ap (known table) (sym ((bytes_eq_iff fn n).0 e)) ∙ h)
  | inr e ↦ rw e (or_false (known table n))
]
  where
    or_false : (b : Bool) → b ≡ (b || false)
    or_false b = ground arith

    same : (b : Bool) → known table n ≡ true → known table n ≡ (known table n || b)
    same b k = rw k

known-cov_add :
    (table : List Bytes) (fn n : Bytes)
    → length table < cov_max
    → known (cov_add table fn) n ≡ (known table n || bytes_eq fn n)
unfolding cov_add
known-cov_add table fn n h = elim (Bool-cases (known table fn)) [
  | inl e ↦ rw e (absorb table fn n e)
  | inr e ↦
      rw (e, lt→ltb (length table) cov_max h)
        (known-append table (fn ∷ []) n ∙ ap (λ b. known table n || b) (known_one fn n))
]

length-cov_add : (table : List Bytes) (fn : Bytes) → length table ≤ length (cov_add table fn)
unfolding cov_add
length-cov_add table fn = elim (Bool-cases (known table fn)) [
  | inl e ↦ rw e (omega arith)
  | inr e ↦ elim (Bool-cases (ltb (length table) cov_max)) [
    | inl h ↦ rw (e, h) (omega (arith, length-append table (fn ∷ [])))
    | inr h ↦ rw (e, h) (omega arith)
  ]
]

length-add_all : (table calls : List Bytes) → length table ≤ length (add_all table calls)
unfolding add_all
length-add_all table [] = omega arith
length-add_all table (fn ∷ calls) =
    omega (arith, length-cov_add table fn, length-add_all (cov_add table fn) calls)

or_nil : (b : Bool) (n : Bytes) → b ≡ (b || known [] n)
unfolding known
or_nil b n = ground arith

or_cons :
    (b : Bool) (fn : Bytes) (calls : List Bytes) (n : Bytes)
    → ((b || bytes_eq fn n) || known calls n) ≡ (b || known (fn ∷ calls) n)
unfolding known
or_cons b fn calls n = ground arith

known-add_all_from :
    (table calls : List Bytes) (n : Bytes)
    → length (add_all table calls) < cov_max
    → known (add_all table calls) n ≡ (known table n || known calls n)
unfolding add_all
known-add_all_from table [] n h = or_nil (known table n) n
known-add_all_from table (fn ∷ calls) n h =
    known-add_all_from (cov_add table fn) calls n h
    ∙ ap (λ b. b || known calls n)
        (known-cov_add table fn n
          (omega (arith, length-cov_add table fn, length-add_all (cov_add table fn) calls)))
    ∙ or_cons (known table n) fn calls n

-- While a table is not full, it holds exactly the names that were called.
pub known-add_all :
    (calls : List Bytes) (n : Bytes)
    → length (add_all [] calls) < cov_max
    → known (add_all [] calls) n ≡ known calls n
known-add_all calls n h = unfold known in known-add_all_from [] calls n h

bytes_eq-sym : (a b : Bytes) → bytes_eq a b ≡ false → bytes_eq b a ≡ false
bytes_eq-sym a b h = elim (Bool-cases (bytes_eq b a)) [
  | inl e ↦ cc (h, (bytes_eq_iff b a).0 e)
  | inr e ↦ e
]

or-false : (a b : Bool) → (a || b) ≡ false → (a ≡ false) × (b ≡ false)
or-false a b h = ground arith

Distinct-append :
    (table : List Bytes) (fn : Bytes)
    → Distinct table
    → known table fn ≡ false
    → Distinct (table ++ fn ∷ [])
Distinct-append [] fn d h = (unfold known in refl, _)
Distinct-append (x ∷ table) fn d h =
    let split = or-false (bytes_eq x fn) (known table fn) (unfold known in h) in
    (
      known-append table (fn ∷ []) x
          ∙ ap (λ b. known table x || b) (known_one fn x)
          ∙ rw (d.0, bytes_eq-sym x fn split.0),
      Distinct-append table fn d.1 split.1,
    )

-- A table of at most 8192 different names stays one at every call.
pub cov_add-Distinct :
    (table : List Bytes) (fn : Bytes)
    → Distinct table
    → length table ≤ cov_max
    → Distinct (cov_add table fn) × (length (cov_add table fn) ≤ cov_max)
unfolding cov_add
cov_add-Distinct table fn d h = elim (Bool-cases (known table fn)) [
  | inl e ↦ rw e (d, h)
  | inr e ↦ elim (Bool-cases (ltb (length table) cov_max)) [
    | inl l ↦
        rw (e, l)
          (
            Distinct-append table fn d e,
            omega (arith, ltb→lt (length table) cov_max l, length-append table (fn ∷ [])),
          )
    | inr l ↦ rw (e, l) (d, h)
  ]
]

-- The number of tests that jumped back.
unfoldable pub failures : List (Bool × List Bytes) → ℕ
failures [] = 0
failures ((jumped, calls) ∷ tests) = let rest = failures tests in if jumped then suc rest else rest

failed-cov_calls : (t : Tally) (calls : List Bytes) → (cov_calls t calls).failed ≡ t.failed
unfolding cov_calls
failed-cov_calls t [] = refl
failed-cov_calls t (fn ∷ calls) = failed-cov_calls (cov t fn) calls

failed-report :
    (t : Tally) (jumped : Bool)
    → (report_one t (test_run jumped)).failed ≡ (if jumped then suc t.failed else t.failed)
unfolding report_one
failed-report t true = omega arith
failed-report t false = refl

failed_all :
    (t : Tally) (tests : List (Bool × List Bytes))
    → (run_all t tests).failed ≡ t.failed + failures tests
unfolding run_all failures
failed_all t [] = omega arith
failed_all t ((true, calls) ∷ tests) = omega (
  arith,
  failed_all (report_one (cov_calls t calls) false) tests,
  failed-report (cov_calls t calls) true,
  failed-cov_calls t calls,
)
failed_all t ((false, calls) ∷ tests) = omega (
  arith,
  failed_all (report_one (cov_calls t calls) true) tests,
  failed-report (cov_calls t calls) false,
  failed-cov_calls t calls,
)

-- From a tally without failures, the exit code after a list of tests is 1 if and only if one of them
-- failed; otherwise it is 2 if the gate is set and the coverage is below its minimum, and 0 if not.
pub summary-run_all :
    (gate : Bool) (below : ℕ → ℕ → Bool) (t : Tally) (tests : List (Bool × List Bytes))
    → t.failed ≡ 0
    → let u = run_all t tests in
      summary gate below u ≡ (
        if ltb 0 (failures tests)
        then 1
        else (if gate && below (length u.hit) (length u.all) then 2 else 0))
unfolding summary
summary-run_all gate below t tests h =
    let e : (run_all t tests).failed ≡ failures tests = failed_all t tests ∙ omega (arith, h) in
    rw e
