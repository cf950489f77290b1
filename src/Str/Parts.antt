-- ===== src/Str/Parts.antt =====
-- Splitting and joining in runtime/vader_str.c.
use vader_langue.Prelude.{
  ℕ, suc, zero, ◌+◌, ◌≡◌, ◌≢◌, ◌≤◌, ◌<◌, refl, ap, Bool, true, false, List, [], ◌∷◌, ◌++◌, none,
  Bytes, arith, inl, inr, Bool-cases, Option-cases, take, drop, length, length-append, ◌==◌, All,
  ne→==,
}
use vader_langue.Libc.{strstr}
use vader_langue.Libc.Search.{empty_none, strstr_sound, strstr_first}
use vader_langue.Str.{count_from, split_from, join_from, split, split_count, join, join_len}
use vader_langue.Str.Scan.{
  length_at_hit, count_from-none, count_from-some, split_from-none, split_from-some, join_more,
  join_one, split_from-ne-nil,
}

join_from-split_from :
    (sep : Bytes)
    → 0 < length sep
    → (f : ℕ) (s : Bytes) → length s ≤ f
    → join_from false (split_from f sep s) sep ≡ s
join_from-split_from sep h zero s l = unfold split_from in join_one s sep
join_from-split_from sep h (suc f) s l = elim (Option-cases (strstr s sep)) [
  | inl e ↦ rw (split_from-none f sep s e) (join_one s sep)
  | inr (k, e) ↦
      let rest = drop (k + length sep) s in
      let short : length rest ≤ f = omega (arith, length_at_hit s sep k e) in
      rw
        (
          split_from-some f sep s k e,
          join_more (take k s) (split_from f sep rest) sep (split_from-ne-nil f sep rest),
          join_from-split_from sep h f rest short,
        )
        (strstr_sound s sep k e)
]

-- Joining the pieces of a split with its separator gives the string back, for every string and
-- separator, the empty ones included.
pub join-split : (s sep : Bytes) → join (split s sep) sep ≡ s
unfolding join split
join-split s sep = elim (Bool-cases (length sep == 0)) [
  | inl e ↦ rw e (join_one s sep)
  | inr e ↦ rw e (join_from-split_from sep (ground arith) (length s) s (omega arith))
]

abbrev pub Lacks : Bytes → Bytes → Type 0
Lacks sep p = strstr p sep ≡ none

nonempty_ne : (s : Bytes) → 0 < length s → s ≢ []
nonempty_ne s h e = omega (arith, h, ap length e)

short-Lacks : (sep p : Bytes) → 0 < length sep → length p ≤ 0 → Lacks sep p
short-Lacks sep [] h l = empty_none sep (nonempty_ne sep h)
short-Lacks sep (c ∷ p) h l = absurd (omega arith)

split_from-Lacks :
    (sep : Bytes)
    → 0 < length sep
    → (f : ℕ) (s : Bytes) → length s ≤ f
    → All (Lacks sep) (split_from f sep s)
split_from-Lacks sep h zero s l = unfold split_from in (short-Lacks sep s h l, tt)
split_from-Lacks sep h (suc f) s l = elim (Option-cases (strstr s sep)) [
  | inl e ↦ rw (split_from-none f sep s e) (e, tt)
  | inr (k, e) ↦
      let rest = drop (k + length sep) s in
      let short : length rest ≤ f = omega (arith, length_at_hit s sep k e) in
      rw (split_from-some f sep s k e)
        (strstr_first s sep k (nonempty_ne sep h) e, split_from-Lacks sep h f rest short)
]

length-split_from :
    (sep : Bytes) (f : ℕ) (s : Bytes) → length (split_from f sep s) ≡ suc (count_from f sep s)
length-split_from sep zero s = unfold split_from count_from in refl
length-split_from sep (suc f) s = elim (Option-cases (strstr s sep)) [
  | inl e ↦ rw (split_from-none f sep s e, count_from-none f sep s e)
  | inr (k, e) ↦
      rw (split_from-some f sep s k e, count_from-some f sep s k e)
        (ap suc (length-split_from sep f (drop (k + length sep) s)))
]

-- A split at a separator that is not empty makes exactly as many pieces as were counted for the array,
-- and no piece holds the separator.
pub split_pieces :
    (s sep : Bytes)
    → 0 < length sep
    → (length (split s sep) ≡ split_count s sep) × All (Lacks sep) (split s sep)
unfolding split split_count
split_pieces s sep h =
    rw (ne→== (length sep) 0 (λ e. omega arith))
      (length-split_from sep (length s) s, split_from-Lacks sep h (length s) s (omega arith))

length-join_from :
    (more : Bool) (ps : List Bytes) (sep : Bytes)
    → length (join_from more ps sep) ≡ join_len more ps sep
unfolding join_from join_len
length-join_from more [] sep = refl
length-join_from true (p ∷ ps) sep = omega (
  arith,
  length-append sep (p ++ join_from true ps sep),
  length-append p (join_from true ps sep),
  length-join_from true ps sep,
)
length-join_from false (p ∷ ps) sep =
    omega (arith, length-append p (join_from true ps sep), length-join_from true ps sep)

-- `vader_str_join` writes exactly the `total` bytes that it computed, for which it allocated one more.
pub length-join : (ps : List Bytes) (sep : Bytes) → length (join ps sep) ≡ join_len false ps sep
unfolding join
length-join ps sep = length-join_from false ps sep
