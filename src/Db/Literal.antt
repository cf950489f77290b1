-- ===== src/Db/Literal.antt =====
-- runtime/vader_db.c: a bound string is one SQL literal.
use vader_langue.Prelude.{
  ℕ, ◌+◌, ◌*◌, ◌≡◌, ◌≤◌, refl, ap, arith, false, Option, none, some, [], ◌∷◌, ◌++◌, Bytes, ◌==◌,
  if◌then◌else◌, length, append_assoc, ==_iff, length-append, Bool-cases, inl, inr,
}
use vader_langue.Db.{quoted, literal}

-- A byte in front of the string that was read.
abbrev pub before : ℕ → Option (Bytes × Bytes) → Option (Bytes × Bytes)
before c none = none
before c (some (x, r)) = some (c ∷ x, r)

-- How standard SQL reads on behind the opening quote of a literal: two quotes are a quote, and one quote
-- ends it. The answer is the string and the text behind the literal.
unfoldable pub read_quoted : Bytes → Option (Bytes × Bytes)
read_quoted [] = none
read_quoted (c ∷ []) = if c == b'\'' then some ([], []) else none
read_quoted (c ∷ d ∷ s) =
    let escaped = before c (read_quoted s) in
    let plain = before c (read_quoted (d ∷ s)) in
    if c == b'\'' then (if d == b'\'' then escaped else some ([], d ∷ s)) else plain

-- The text goes on with something else than a quote.
abbrev pub NoQuote : Bytes → Type 0
NoQuote [] = Unit
NoQuote (c ∷ s) = (c == b'\'') ≡ false

read_end : (rest : Bytes) → NoQuote rest → read_quoted (b'\'' ∷ rest) ≡ some ([], rest)
unfolding read_quoted
read_end [] h = refl
read_end (c ∷ s) h = rw h

read_two :
    (t x r : Bytes)
    → read_quoted t ≡ some (x, r)
    → read_quoted (b'\'' ∷ b'\'' ∷ t) ≡ some (b'\'' ∷ x, r)
unfolding read_quoted
read_two t x r e = ap (before b'\'') e

none-some : {A : Type 0} {a : A} → none ≡ some a → ⊥
none-some e = cc e

read_plain :
    (c : ℕ) (t x r : Bytes)
    → (c == b'\'') ≡ false
    → read_quoted t ≡ some (x, r)
    → read_quoted (c ∷ t) ≡ some (c ∷ x, r)
unfolding read_quoted
read_plain c [] x r h e = absurd (none-some e)
read_plain c (d ∷ t) x r h e = rw h (ap (before c) e)

read_quoted-quoted :
    (s rest : Bytes) → NoQuote rest → read_quoted (quoted s ++ b'\'' ∷ rest) ≡ some (s, rest)
unfolding quoted
read_quoted-quoted [] rest h = read_end rest h
read_quoted-quoted (c ∷ s) rest h = elim (Bool-cases (c == b'\'')) [
  | inl e ↦
      rw (e, (==_iff c b'\'').0 e)
        (read_two (quoted s ++ b'\'' ∷ rest) s rest (read_quoted-quoted s rest h))
  | inr e ↦ rw e (read_plain c (quoted s ++ b'\'' ∷ rest) s rest e (read_quoted-quoted s rest h))
]

-- A bound string is one literal for standard SQL, where a backslash is no escape: behind its opening
-- quote it is read back as the string, whatever bytes the string holds, and reading stops where the
-- literal ends, if no quote follows it.
pub read_quoted-literal :
    (s rest : Bytes)
    → NoQuote rest
    → (t : Bytes) × (literal s ++ rest ≡ b'\'' ∷ t) × (read_quoted t ≡ some (s, rest))
unfolding literal
read_quoted-literal s rest h = (
  quoted s ++ b'\'' ∷ rest,
  ap (λ l. b'\'' ∷ l) (append_assoc (quoted s) (b'\'' ∷ []) rest),
  read_quoted-quoted s rest h,
)

length-quoted : (s : Bytes) → length (quoted s) ≤ length s * 2
unfolding quoted
length-quoted [] = omega arith
length-quoted (c ∷ s) = ground (arith, length-quoted s)

-- A literal and the NUL behind it fit the bytes that are allocated for it.
pub length-literal : (s : Bytes) → length (literal s) + 1 ≤ length s * 2 + 3
length-literal s =
    unfold literal in omega (arith, length-quoted s, length-append (quoted s) (b'\'' ∷ []))
