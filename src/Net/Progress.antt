-- ===== src/Net/Progress.antt =====
-- A read takes what it gives off what is to arrive, which is why the loops over packets end.
use vader_langue.Prelude.{
  ℕ, suc, zero, ◌+◌, ◌-◌, ◌≤◌, arith, Bool-cases, inl, inr, Option, none, some, List, [], ◌∷◌, ◌++◌,
  Bytes, ltb, ltb→lt, ltb→le, length, length-append, length-drop, drop,
}
use vader_langue.Net.{Wire, read_n}
use vader_langue.Net.Transfer.{flat}

-- Of `total` bytes that are to arrive, `n` have been taken, if any have.
abbrev pub Taken : ℕ → ℕ → Option (Bytes × List Bytes) → Type 0
Taken n total none = Unit
Taken n total (some (s, rest)) = n + length (flat rest) ≤ total

Taken-piece :
    (n k total : ℕ) (c : Bytes) (o : Option (Bytes × List Bytes))
    → Taken (n - k) total o
    → k ≤ n
    → Taken n (k + total) (elim o [ none ↦ none | some (s, p) ↦ some (c ++ s, p) ])
Taken-piece n k total c none h hk = tt
Taken-piece n k total c (some (s, rest)) h hk = omega arith

pub read_n-Taken : (n : ℕ) (pieces : List Bytes) → Taken n (length (flat pieces)) (read_n n pieces)
unfolding read_n flat
read_n-Taken zero pieces = omega arith
read_n-Taken (suc n) [] = tt
read_n-Taken (suc n) ([] ∷ pieces) = tt
read_n-Taken (suc n) ((x ∷ c) ∷ pieces) = elim (Bool-cases (ltb (suc n) (length (x ∷ c)))) [
  | inl part ↦ rw part (
      omega (
        arith,
        ltb→lt (suc n) (length (x ∷ c)) part,
        length-drop n c,
        length-append (drop n c) (flat pieces),
        length-append (x ∷ c) (flat pieces),
      ))
  | inr whole ↦
      rw (whole, length-append (x ∷ c) (flat pieces))
        (Taken-piece (suc n) (length (x ∷ c)) (length (flat pieces)) (x ∷ c)
          (read_n (suc n - length (x ∷ c)) pieces) (read_n-Taken (suc n - length (x ∷ c)) pieces)
          (ltb→le (suc n) (length (x ∷ c)) whole))
]

-- What is still to arrive on a connection.
abbrev pub pending : Wire → ℕ
pending w = length (flat w.incoming)
