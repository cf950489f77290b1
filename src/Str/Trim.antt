-- ===== src/Str/Trim.antt =====
-- Trimming, and the case of letters, in runtime/vader_str.c.
use vader_langue.Prelude.{
  ℕ, suc, zero, ◌-◌, ◌≡◌, ◌≤◌, refl, ap, sym, ◌∙◌, true, false, [], ◌∷◌, ◌++◌, append_assoc,
  append-nil, Bytes, arith, ◌⊎◌, inl, inr, Bool-cases, take, length, length-take, All, All-append,
  get_or, take-suc, take-all, get_or-take,
}
use vader_langue.Libc.{is_space, skip_space, to_upper, to_lower}
use vader_langue.Str.{trim, trim_end, upper, lower}

abbrev pub IsSpace : ℕ → Type 0
IsSpace c = is_space c ≡ true

-- The text does not begin (end) with white space.
abbrev pub FirstSolid : Bytes → Type 0
FirstSolid [] = Unit
FirstSolid (c ∷ s) = is_space c ≡ false

abbrev pub LastSolid : Bytes → Type 0
LastSolid s = (length s ≡ 0) ⊎ (is_space (get_or s (length s - 1) 0) ≡ false)

skip_space_lem :
    (s : Bytes) → (a : Bytes) × (s ≡ a ++ skip_space s) × All IsSpace a × FirstSolid (skip_space s)
unfolding skip_space
skip_space_lem [] = ([], refl, tt, tt)
skip_space_lem (c ∷ s) = elim (Bool-cases (is_space c)) [
  | inl e ↦ let (a, p, q, r) = skip_space_lem s in rw e (c ∷ a, ap (λ l. c ∷ l) p, (e, q), r)
  | inr e ↦ rw e ([], refl, tt, e)
]

trim_end-le : (t : Bytes) (n : ℕ) → trim_end t n ≤ n
unfolding trim_end
trim_end-le t zero = omega arith
trim_end-le t (suc n) = ground (arith, trim_end-le t n)

trim_end_split :
    (t : Bytes) (n : ℕ)
    → n ≤ length t
    → (b : Bytes) × (take n t ≡ take (trim_end t n) t ++ b) × All IsSpace b
unfolding trim_end
trim_end_split t zero h = ([], refl, tt)
trim_end_split t (suc n) h = elim (Bool-cases (is_space (get_or t n 0))) [
  | inl e ↦
      let (b, p, q) = trim_end_split t n (omega arith) in
      rw e (
        b ++ get_or t n 0 ∷ [],
        take-suc n t 0 h
            ∙ ap (λ l. l ++ get_or t n 0 ∷ []) p
            ∙ append_assoc (take (trim_end t n) t) b (get_or t n 0 ∷ []),
        All-append IsSpace b (get_or t n 0 ∷ []) q (e, tt),
      )
  | inr e ↦ rw e ([], sym (append-nil (take (suc n) t)), tt)
]

trim_end_solid :
    (t : Bytes) (n : ℕ) → (trim_end t n ≡ 0) ⊎ (is_space (get_or t (trim_end t n - 1) 0) ≡ false)
unfolding trim_end
trim_end_solid t zero = inl refl
trim_end_solid t (suc n) = elim (Bool-cases (is_space (get_or t n 0))) [
  | inl e ↦ rw e (trim_end_solid t n)
  | inr e ↦ rw e (inr (ap (λ i. is_space (get_or t i 0)) (omega arith) ∙ e))
]

FirstSolid-take : (n : ℕ) (t : Bytes) → FirstSolid t → FirstSolid (take n t)
FirstSolid-take zero t h = tt
FirstSolid-take (suc n) [] h = tt
FirstSolid-take (suc n) (c ∷ t) h = h

LastSolid-take :
    (m : ℕ) (t : Bytes)
    → m ≤ length t
    → (m ≡ 0) ⊎ (is_space (get_or t (m - 1) 0) ≡ false)
    → LastSolid (take m t)
LastSolid-take m t h (inl z) = inl (omega (arith, length-take m t))
LastSolid-take zero t h (inr e) = inl refl
LastSolid-take (suc m) t h (inr e) =
    let l : length (take (suc m) t) - 1 ≡ suc m - 1 = omega (arith, length-take (suc m) t) in
    inr (rw l (ap is_space (get_or-take (suc m) (suc m - 1) t 0 (omega arith)) ∙ e))

-- Trimming takes white space off both ends and nothing else: the string is the result with only white
-- space around it, and the result neither begins nor ends with white space.
pub trim_lem :
    (s : Bytes)
    → (a : Bytes) × (b : Bytes) × (s ≡ a ++ (trim s ++ b))
      × All IsSpace a
      × All IsSpace b
      × FirstSolid (trim s)
      × LastSolid (trim s)
unfolding trim
trim_lem s =
    let t = skip_space s in
    let (a, p, q, r) = skip_space_lem s in
    let (b, u, v) = trim_end_split t (length t) (omega arith) in
    let le = trim_end-le t (length t) in
    (
      a,
      b,
      p ∙ ap (λ l. a ++ l) (sym (take-all (length t) t (omega arith)) ∙ u),
      q,
      v,
      FirstSolid-take (trim_end t (length t)) t r,
      LastSolid-take (trim_end t (length t)) t le (trim_end_solid t (length t)),
    )

to_upper-to_lower : (c : ℕ) → to_upper (to_lower c) ≡ to_upper c
unfolding to_upper to_lower
to_upper-to_lower c = ground arith

to_lower-to_upper : (c : ℕ) → to_lower (to_upper c) ≡ to_lower c
unfolding to_upper to_lower
to_lower-to_upper c = ground arith

-- Each of `upper` and `lower` forgets exactly what the other did before it: the last call decides.
pub upper-lower : (s : Bytes) → (upper (lower s) ≡ upper s) × (lower (upper s) ≡ lower s)
unfolding upper lower
upper-lower [] = (refl, refl)
upper-lower (c ∷ s) =
    let (h, k) = upper-lower s in (cc (to_upper-to_lower c, h), cc (to_lower-to_upper c, k))
