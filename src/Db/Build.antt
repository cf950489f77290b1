-- ===== src/Db/Build.antt =====
-- runtime/vader_db.c: stmt_build writes at most the bytes that it allocated, and puts each value in its
-- place.
use vader_langue.Prelude.{
  ℕ, suc, ◌^◌, ◌<◌, some, lt→ltb, ◌+◌, ◌≡◌, ◌≤◌, refl, ap, ◌∙◌, arith, false, List, [], ◌∷◌, ◌++◌,
  All, Bytes, ◌==◌, length, length-append, Bool-cases, inl, inr,
}
use vader_langue.Db.{substitute, total_bytes, build_total}

total_pos : (sql : Bytes) (vals : List Bytes) → 1 ≤ total_bytes sql vals
unfolding total_bytes
total_pos sql [] = omega arith
total_pos sql (v ∷ vals) = omega (arith, total_pos sql vals)

total_suc :
    (c : ℕ) (s : Bytes) (vals : List Bytes) → total_bytes (c ∷ s) vals ≡ suc (total_bytes s vals)
unfolding total_bytes
total_suc c s [] = omega arith
total_suc c s (v ∷ vals) = omega (arith, total_suc c s vals)

total_more :
    (v s : Bytes) (vals : List Bytes) → total_bytes s (v ∷ vals) ≡ length v + total_bytes s vals
unfolding total_bytes
total_more v s vals = refl

-- The text and the NUL behind it fit the sum, however many values there are for the question marks.
length-substitute :
    (sql : Bytes) (vals : List Bytes) → length (substitute sql vals) + 1 ≤ total_bytes sql vals
unfolding substitute
length-substitute [] vals = total_pos [] vals
length-substitute (c ∷ s) [] = omega (arith, total_suc c s [], length-substitute s [])
length-substitute (c ∷ s) (v ∷ vals) = elim (Bool-cases (c == b'?')) [
  | inl e ↦ rw e (
      omega (
        arith,
        total_suc c s (v ∷ vals),
        total_more v s vals,
        length-append v (substitute s vals),
        length-substitute s vals,
      ))
  | inr e ↦ rw e (omega (arith, total_suc c s (v ∷ vals), length-substitute s (v ∷ vals)))
]

-- Where the sum fits an `int`, the text and the NUL behind it fit the bytes that `stmt_build` allocates.
pub build_total_lem :
    (sql : Bytes) (vals : List Bytes)
    → total_bytes sql vals < 2 ^ 31
    → (n : ℕ) × (build_total sql vals ≡ some n) × (length (substitute sql vals) + 1 ≤ n)
unfolding build_total
build_total_lem sql vals h =
    (total_bytes sql vals, rw (lt→ltb _ _ h) refl, length-substitute sql vals)

-- A piece of a statement's text without a question mark.
abbrev pub Plain : Bytes → Type 0
Plain = All (λ c. (c == b'?') ≡ false)

-- A statement with question marks between its pieces, and the same with the values there.
abbrev pub marked : Bytes → List (Bytes × Bytes) → Bytes
marked p [] = p
marked p ((v, q) ∷ ps) = p ++ b'?' ∷ marked q ps

abbrev pub given : Bytes → List (Bytes × Bytes) → Bytes
given p [] = p
given p ((v, q) ∷ ps) = p ++ (v ++ given q ps)

abbrev pub values : List (Bytes × Bytes) → List Bytes
values [] = []
values ((v, q) ∷ ps) = v ∷ values ps

abbrev pub PlainPieces : Bytes → List (Bytes × Bytes) → Type 0
PlainPieces p [] = Plain p
PlainPieces p ((v, q) ∷ ps) = Plain p × PlainPieces q ps

substitute-Plain :
    (p s : Bytes) (vals : List Bytes) → Plain p → substitute (p ++ s) vals ≡ p ++ substitute s vals
unfolding substitute
substitute-Plain [] s vals h = refl
substitute-Plain (c ∷ p) s [] h = ap (λ l. c ∷ l) (substitute-Plain p s [] h.1)
substitute-Plain (c ∷ p) s (v ∷ vals) h =
    rw h.0 (ap (λ l. c ∷ l) (substitute-Plain p s (v ∷ vals) h.1))

substitute_nil : (s : Bytes) → substitute s [] ≡ s
unfolding substitute
substitute_nil [] = refl
substitute_nil (c ∷ s) = ap (λ l. c ∷ l) (substitute_nil s)

substitute_mark :
    (s v : Bytes) (vals : List Bytes) → substitute (b'?' ∷ s) (v ∷ vals) ≡ v ++ substitute s vals
unfolding substitute
substitute_mark s v vals = refl

-- With as many values as question marks, each value stands in the place of its mark, also a value that
-- holds question marks itself, and the pieces between them are unchanged.
pub substitute-marked :
    (p : Bytes) (ps : List (Bytes × Bytes))
    → PlainPieces p ps
    → substitute (marked p ps) (values ps) ≡ given p ps
substitute-marked p [] h = substitute_nil p
substitute-marked p ((v, q) ∷ ps) h =
    substitute-Plain p (b'?' ∷ marked q ps) (v ∷ values ps) h.0
    ∙ ap (λ l. p ++ l)
        (substitute_mark (marked q ps) v (values ps)
          ∙ ap (λ l. v ++ l) (substitute-marked q ps h.1))
