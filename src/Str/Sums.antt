-- ===== src/Str/Sums.antt =====
-- The size that vader_str_replace of runtime/vader_str.c computes for its buffer.
use native.Mathlib.Nat.{mul-add}
use vader_langue.Prelude.{
  ℕ, ◌+◌, ◌-◌, ◌*◌, ◌^◌, pos, leb, Bool-cases, lt→ltb, ◌∙◌, true, false, ◌≡◌, ◌≤◌, ◌<◌, refl, ap,
  some, arith, inl, inr,
}
use vader_langue.Str.{sum_len}

leb-true : (a b : ℕ) → leb a b ≡ true → a ≤ b
leb-true a b h = ground arith

leb-false : (a b : ℕ) → leb a b ≡ false → b < a
leb-false a b h = ground arith

module _ (n cnt ln lo out : ℕ) (e : out + cnt * lo ≡ n + cnt * ln) where
  grown_sum : lo ≤ ln → n + cnt * (ln - lo) ≡ out
  grown_sum h =
      let d = ln - lo in
      let split : cnt * ln ≡ cnt * lo + cnt * d =
        ap (λ k. cnt * k) (omega (arith, h)) ∙ mul-add cnt lo d in
      omega (arith, split, e)

  shrunk_sum : ln ≤ lo → n ≡ out + cnt * (lo - ln)
  shrunk_sum h =
      let d = lo - ln in
      let split : cnt * lo ≡ cnt * ln + cnt * d =
        ap (λ k. cnt * k) (omega (arith, h)) ∙ mul-add cnt ln d in
      omega (arith, split, e)

  -- Where text and result are shorter than 2^31 bytes, nothing overflows.
  pub sum_len_lem : n < 2 ^ 31 → out < 2 ^ 31 → sum_len n cnt ln lo ≡ some (pos out)
  unfolding sum_len
  sum_len_lem hn ho = elim (Bool-cases (leb lo ln)) [
    | inl t ↦ let g = grown_sum (leb-true lo ln t) in rw (t, g, lt→ltb out (2 ^ 31) ho) refl
    | inr f ↦
        let g = shrunk_sum (omega (arith, leb-false lo ln f)) in
        let d = cnt * (lo - ln) in
        let fits : leb d (2 ^ 31) ≡ true = ground arith in
        let below : leb d n ≡ true = ground arith in
        let rest : n - d ≡ out = omega arith in rw (f, fits, below, rest) refl
  ]
