-- ===== src/Libc/Search.antt =====
-- What a substring search finds.
use native.Mathlib.Nat.{zero-add, suc-add}
use vader_langue.Prelude.{
  ℕ, suc, zero, ◌+◌, ◌≡◌, ◌≢◌, ◌≤◌, refl, ap, true, false, [], ◌∷◌, ◌++◌, none, some, Bytes, arith,
  ◌⊎◌, inl, inr, Bool-cases, Option-cases, take, drop, length,
}
use vader_langue.Libc.{is_prefix, strstr}

-- A prefix test that passes splits the text.
pub is_prefix_sound : (p s : Bytes) → is_prefix p s ≡ true → p ++ drop (length p) s ≡ s
unfolding is_prefix
is_prefix_sound [] s h = refl
is_prefix_sound (x ∷ p) [] h = cc
is_prefix_sound (x ∷ p) (c ∷ s) h = ground (arith, is_prefix_sound p s)

pub is_prefix-append : (p s : Bytes) → is_prefix p (p ++ s) ≡ true
unfolding is_prefix
is_prefix-append [] s = refl
is_prefix-append (x ∷ p) s = ground (arith, is_prefix-append p s)

-- A prefix of the start of a text is a prefix of the text.
is_prefix-take : (p s : Bytes) (k : ℕ) → is_prefix p (take k s) ≡ true → is_prefix p s ≡ true
unfolding is_prefix
is_prefix-take [] s k h = refl
is_prefix-take (x ∷ p) s zero h = cc
is_prefix-take (x ∷ p) [] (suc k) h = cc
is_prefix-take (x ∷ p) (c ∷ s) (suc k) h = ground (arith, is_prefix-take p s k)

pub is_prefix-length : (p s : Bytes) → is_prefix p s ≡ true → length p ≤ length s
unfolding is_prefix
is_prefix-length [] s h = omega arith
is_prefix-length (x ∷ p) [] h = cc
is_prefix-length (x ∷ p) (c ∷ s) h = ground (arith, is_prefix-length p s)

prefix_nil : (p : Bytes) → is_prefix p [] ≡ true → p ≡ []
unfolding is_prefix
prefix_nil [] h = refl
prefix_nil (x ∷ p) h = cc

pub empty_none : (sub : Bytes) → sub ≢ [] → strstr [] sub ≡ none
unfolding strstr is_prefix
empty_none [] h = absurd (h refl)
empty_none (x ∷ sub) h = refl

pub strstr-none_cons :
    (c : ℕ) (s sub : Bytes)
    → is_prefix sub (c ∷ s) ≡ false
    → strstr s sub ≡ none
    → strstr (c ∷ s) sub ≡ none
unfolding strstr
strstr-none_cons c s sub e q = rw (e, q)

pub strstr_later :
    (c : ℕ) (s sub : Bytes) (k : ℕ)
    → is_prefix sub (c ∷ s) ≡ false
    → strstr s sub ≡ some k
    → strstr (c ∷ s) sub ≡ some (suc k)
unfolding strstr
strstr_later c s sub k h e = rw (h, e) refl

pub not_prefix :
    (c : ℕ) (s sub : Bytes) (j : ℕ)
    → is_prefix sub (c ∷ s) ≡ false
    → is_prefix sub (c ∷ take j s) ≡ false
not_prefix c s sub j e = elim (Bool-cases (is_prefix sub (c ∷ take j s))) [
  | inl h ↦ cc (e, is_prefix-take sub (c ∷ s) (suc j) h)
  | inr h ↦ h
]

prefix_found : (s sub : Bytes) → is_prefix sub s ≡ true → strstr s sub ≢ none
unfolding strstr
prefix_found [] sub h = ground arith
prefix_found (c ∷ s) sub h = ground arith

-- How a search ends at an offset.
pub strstr_nil : (sub : Bytes) (k : ℕ) → strstr [] sub ≡ some k → (sub ≡ []) × (k ≡ 0)
unfolding strstr
strstr_nil sub k h = elim (Bool-cases (is_prefix sub [])) [
  | inl e ↦ (prefix_nil sub e, ground arith)
  | inr e ↦ ground arith
]

unfoldable pub Later : ℕ → Bytes → Bytes → ℕ → Type 0
Later c s sub k = (j : ℕ) × (is_prefix sub (c ∷ s) ≡ false) × (strstr s sub ≡ some j) × (k ≡ suc j)

pub strstr_cons :
    (c : ℕ) (s sub : Bytes) (k : ℕ)
    → strstr (c ∷ s) sub ≡ some k
    → ((is_prefix sub (c ∷ s) ≡ true) × (k ≡ 0)) ⊎ Later c s sub k
unfolding strstr Later
strstr_cons c s sub k h = elim (Bool-cases (is_prefix sub (c ∷ s))) [
  | inl e ↦ inl (e, ground arith)
  | inr e ↦ elim (Option-cases (strstr s sub)) [
    | inl q ↦ ground arith
    | inr (j, q) ↦ inr (j, e, q, ground arith)
  ]
]

pub strstr-none :
    (c : ℕ) (s sub : Bytes)
    → strstr (c ∷ s) sub ≡ none
    → (is_prefix sub (c ∷ s) ≡ false) × (strstr s sub ≡ none)
unfolding strstr
strstr-none c s sub h = elim (Option-cases (strstr s sub)) [
  | inl q ↦ ground arith
  | inr (j, q) ↦ ground arith
]

-- An occurrence that `strstr` reports is one.
pub strstr_sound :
    (s sub : Bytes) (k : ℕ)
    → strstr s sub ≡ some k
    → take k s ++ (sub ++ drop (k + length sub) s) ≡ s
unfolding Later
strstr_sound [] sub k h = let (e, z) = strstr_nil sub k h in rw (e, z)
strstr_sound (c ∷ s) sub k h = elim (strstr_cons c s sub k h) [
  | inl (e, z) ↦ rw (z, zero-add) (is_prefix_sound sub (c ∷ s) e)
  | inr (j, e, q, z) ↦ rw (z, suc-add) (ap (λ l. c ∷ l) (strstr_sound s sub j q))
]

-- It is the first: before it there is none.
pub strstr_first :
    (s sub : Bytes) (k : ℕ) → sub ≢ [] → strstr s sub ≡ some k → strstr (take k s) sub ≡ none
unfolding Later
strstr_first [] sub k n h = absurd (n (strstr_nil sub k h).0)
strstr_first (c ∷ s) sub k n h = elim (strstr_cons c s sub k h) [
  | inl (e, z) ↦ rw z (empty_none sub n)
  | inr (j, e, q, z) ↦ rw z (go j e (strstr_first s sub j n q))
]
  where
    go :
        (j : ℕ)
        → is_prefix sub (c ∷ s) ≡ false
        → strstr (take j s) sub ≡ none
        → strstr (c ∷ take j s) sub ≡ none
    go j e q = strstr-none_cons c (take j s) sub (not_prefix c s sub j e) q

-- Where the substring stands, a search does not fail.
pub strstr_complete : (a b sub : Bytes) → strstr (a ++ (sub ++ b)) sub ≢ none
unfolding strstr
strstr_complete [] b sub = prefix_found (sub ++ b) sub (is_prefix-append sub b)
strstr_complete (c ∷ a) b sub = ground (arith, strstr_complete a b sub)
