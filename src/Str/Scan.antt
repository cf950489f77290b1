-- ===== src/Str/Scan.antt =====
-- Replacing in runtime/vader_str.c: the copying loop against the counting loop that sizes its buffer.
use native.Mathlib.Nat.{zero-add, suc-add}
use vader_langue.Prelude.{
  ℕ, suc, zero, ◌+◌, ◌≡◌, ◌≢◌, ◌≤◌, ◌<◌, refl, ap, sym, false, List, [], ◌∷◌, ◌++◌, append-nil,
  none, some, Bytes, arith, inl, inr, Option-cases, take, drop, length, length-append, length-drop,
  ne→==,
}
use vader_langue.Libc.{strstr}
use vader_langue.Libc.Search.{strstr_sound, strstr-none, Later, strstr_nil, strstr_cons}
use vader_langue.Str.{replace_from, count_from, split_from, join_from, replace, split, join}

-- A text at an occurrence: what stands before, the occurrence, and the rest.
pub length_at_hit :
    (p old : Bytes) (k : ℕ)
    → strstr p old ≡ some k
    → length p ≡ length (take k p) + (length old + length (drop (k + length old) p))
length_at_hit p old k e =
    let rest = drop (k + length old) p in
    omega (
      arith,
      ap length (strstr_sound p old k e),
      length-append (take k p) (old ++ rest),
      length-append old rest,
    )

-- One round of the counting loop and of the splitting loop.
pub count_from-none : (f : ℕ) (sep p : Bytes) → strstr p sep ≡ none → count_from (suc f) sep p ≡ 0
unfolding count_from
count_from-none f sep p e = rw (e, count_from)

pub count_from-some :
    (f : ℕ) (sep p : Bytes) (k : ℕ)
    → strstr p sep ≡ some k
    → count_from (suc f) sep p ≡ suc (count_from f sep (drop (k + length sep) p))
unfolding count_from
count_from-some f sep p k e = rw (e, count_from)

pub split_from-none :
    (f : ℕ) (sep p : Bytes) → strstr p sep ≡ none → split_from (suc f) sep p ≡ p ∷ []
unfolding split_from
split_from-none f sep p e = rw (e, split_from)

pub split_from-some :
    (f : ℕ) (sep p : Bytes) (k : ℕ)
    → strstr p sep ≡ some k
    → split_from (suc f) sep p ≡ take k p ∷ split_from f sep (drop (k + length sep) p)
unfolding split_from
split_from-some f sep p k e = rw (e, split_from)

module _ (old new : Bytes) (solid : 0 < length old) where
  -- More rounds than bytes change nothing.
  replace_from-fuel :
      (f g : ℕ) (p : Bytes)
      → length p ≤ f
      → length p ≤ g
      → replace_from f old new p ≡ replace_from g old new p
  unfolding replace_from
  replace_from-fuel zero zero p h k = refl
  replace_from-fuel zero (suc g) [] h k = refl
  replace_from-fuel zero (suc g) (c ∷ p) h k = absurd (omega arith)
  replace_from-fuel (suc f) zero [] h k = refl
  replace_from-fuel (suc f) zero (c ∷ p) h k = absurd (omega arith)
  replace_from-fuel (suc f) (suc g) [] h k = refl
  replace_from-fuel (suc f) (suc g) (c ∷ p) h k =
      let rest = drop (length old) (c ∷ p) in
      let short : length rest ≤ length p = omega (arith, length-drop (length old) (c ∷ p)) in
      rw (
        replace_from-fuel f g rest (omega arith) (omega arith),
        replace_from-fuel f g p (omega arith) (omega arith),
      )

  -- With no occurrence left the rest is copied.
  replace_from-none :
      (f : ℕ) (p : Bytes) → length p ≤ f → strstr p old ≡ none → replace_from f old new p ≡ p
  unfolding replace_from
  replace_from-none zero [] h e = refl
  replace_from-none zero (c ∷ p) h e = absurd (omega arith)
  replace_from-none (suc f) [] h e = refl
  replace_from-none (suc f) (c ∷ p) h e =
      let (miss, rest) = strstr-none c p old e in
      rw miss (ap (λ l. c ∷ l) (replace_from-none f p (omega arith) rest))

  -- Up to the next occurrence bytes are copied; then the replacement follows.
  replace_from-some :
      (f g k : ℕ) (p : Bytes)
      → length p ≤ f
      → length p ≤ g
      → strstr p old ≡ some k
      → replace_from f old new p
        ≡ take k p ++ (new ++ replace_from g old new (drop (k + length old) p))
  unfolding replace_from Later
  replace_from-some f g k [] h h' e =
      let (n, z) = strstr_nil old k e in absurd (omega (arith, ap length n))
  replace_from-some zero g k (c ∷ p) h h' e = absurd (omega arith)
  replace_from-some (suc f) g k (c ∷ p) h h' e = elim (strstr_cons c p old k e) [
    | inl (hit, z) ↦
        let rest = drop (length old) (c ∷ p) in
        let short : length rest ≤ length p = omega (arith, length-drop (length old) (c ∷ p)) in
        rw (hit, z, zero-add)
          (ap (λ l. new ++ l) (replace_from-fuel f g rest (omega arith) (omega arith)))
    | inr (j, miss, q, z) ↦
        rw (miss, z, suc-add)
          (ap (λ l. c ∷ l) (replace_from-some f g j p (omega arith) (omega arith) q))
  ]

-- Every further piece is joined with the separator in front.
pub join_more :
    (p : Bytes) (ps : List Bytes) (sep : Bytes)
    → ps ≢ []
    → join_from false (p ∷ ps) sep ≡ p ++ (sep ++ join_from false ps sep)
unfolding join_from
join_more p [] sep h = absurd (h refl)
join_more p (q ∷ ps) sep h = refl

pub join_one : (p sep : Bytes) → join_from false (p ∷ []) sep ≡ p
unfolding join_from
join_one p sep = append-nil p

pub split_from-ne-nil : (f : ℕ) (sep s : Bytes) → split_from f sep s ≢ []
unfolding split_from
split_from-ne-nil zero sep s = cc
split_from-ne-nil (suc f) sep s = ground arith

join-split_from :
    (old new : Bytes)
    → 0 < length old
    → (f : ℕ) (s : Bytes) → length s ≤ f
    → join_from false (split_from f old s) new ≡ replace_from f old new s
join-split_from old new h zero [] l = unfold replace_from split_from in join_one [] new
join-split_from old new h zero (c ∷ s) l = absurd (omega arith)
join-split_from old new h (suc f) s l = elim (Option-cases (strstr s old)) [
  | inl e ↦
      rw (split_from-none f old s e, replace_from-none old new h (suc f) s l e) (join_one s new)
  | inr (k, e) ↦
      let rest = drop (k + length old) s in
      let short : length rest ≤ f = omega (arith, length_at_hit s old k e) in
      rw (
        split_from-some f old s k e,
        replace_from-some old new h (suc f) (suc f) k s l l e,
        replace_from-fuel old new h (suc f) f rest (omega arith) short,
        join_more (take k s) (split_from f old rest) new (split_from-ne-nil f old rest),
        join-split_from old new h f rest short,
      )
]

-- Replacing is splitting at the old text and joining with the new one, when the old text is not empty.
pub replace_lem : (s old new : Bytes) → 0 < length old → replace s old new ≡ join (split s old) new
unfolding replace join split
replace_lem s old new h =
    rw (ne→== (length old) 0 (λ e. omega arith))
      (sym (join-split_from old new h (length s) s (omega arith)))
