-- ===== src/Str/Slices.antt =====
-- Substrings, prefixes, suffixes and repetition in runtime/vader_str.c.
use native.Mathlib.Nat.{zero-add, suc-add}
use vader_langue.Prelude.{
  ℕ, suc, zero, ◌+◌, ◌-◌, ◌*◌, ◌≡◌, ◌≢◌, ◌≤◌, ◌↔◌, refl, ap, sym, ◌∙◌, true, false, [], ◌++◌,
  append_assoc, none, Bytes, ℤ, pos, negsuc, arith, ◌⊎◌, inl, inr, Option-cases, take, drop, length,
  length-append, length-take, length-drop, leb, bytes_eq_iff, bytes_eq_refl, take-append-drop,
  take-length-append, drop-length-append,
}
use vader_langue.Libc.{strstr}
use vader_langue.Libc.Search.{strstr_sound, is_prefix_sound, is_prefix-append, strstr_complete}
use vader_langue.Str.{
  substring, clamp_start, clamp_end, starts_with, ends_with, contains, index_of, repeat, copies,
}

-- The bytes that `vader_str_substring` copies are inside the string: for every start and end, however
-- far outside, either nothing is copied or the copied range ends within the string.
pub substring_inside :
    (s : Bytes) (start end : ℤ)
    → let st = clamp_start start in
      let en = clamp_end (length s) st end in
      (st ≤ en) × ((en - st ≡ 0) ⊎ (en ≤ length s)) × (length (substring s start end) ≡ en - st)
unfolding substring
substring_inside s (pos a) (pos b) =
    ground (arith, length-take (clamp_end (length s) a (pos b) - a) (drop a s), length-drop a s)
substring_inside s (pos a) (negsuc b) =
    ground (arith, length-take (clamp_end (length s) a (negsuc b) - a) (drop a s), length-drop a s)
substring_inside s (negsuc a) (pos b) =
    ground (arith, length-take (clamp_end (length s) 0 (pos b) - 0) (drop 0 s), length-drop 0 s)
substring_inside s (negsuc a) (negsuc b) =
    ground (arith, length-take (clamp_end (length s) 0 (negsuc b) - 0) (drop 0 s), length-drop 0 s)

-- A substring between the borders of a middle part is that part.
pub substring_middle :
    (a b c : Bytes) → substring (a ++ (b ++ c)) (pos (length a)) (pos (length a + length b)) ≡ b
unfolding substring
substring_middle a b c =
    let e : clamp_end (length (a ++ (b ++ c))) (length a) (pos (length a + length b)) - length a
        ≡ length b =
      ground (arith, length-append a (b ++ c), length-append b c) in
    rw (e, drop-length-append a (b ++ c)) (take-length-append b c)

contains-none : (s sub : Bytes) → strstr s sub ≡ none → contains s sub ≢ true
unfolding contains
contains-none s sub e h = ground arith

-- A string contains another exactly when it is that string with text before and after.
pub contains_iff :
    (s sub : Bytes) → (contains s sub ≡ true) ↔ ((a : Bytes) × (b : Bytes) × (s ≡ a ++ (sub ++ b)))
unfolding contains
contains_iff s sub = (
  (λ h. elim (Option-cases (strstr s sub)) [
    | inl e ↦ absurd (contains-none s sub e h)
    | inr (k, e) ↦ (take k s, drop (k + length sub) s, sym (strstr_sound s sub k e))
  ]),
  (λ w. elim (Option-cases (strstr s sub)) [
    | inl e ↦ absurd (strstr_complete w.0 w.1 sub (rw w.2 at e))
    | inr (k, e) ↦ rw (e, contains)
  ]),
)

-- The index of a substring is -1 when it does not occur; otherwise the string is split there by its
-- first occurrence.
pub index_of_lem :
    (s sub : Bytes)
    → ((index_of s sub ≡ negsuc 0) × (contains s sub ≡ false))
      ⊎ ((k : ℕ) × (index_of s sub ≡ pos k) × (take k s ++ (sub ++ drop (k + length sub) s) ≡ s))
unfolding contains index_of
index_of_lem s sub = elim (Option-cases (strstr s sub)) [
  | inl e ↦ inl (rw (e, index_of), rw (e, contains))
  | inr (k, e) ↦ inr (k, rw (e, index_of), strstr_sound s sub k e)
]

starts_with_iff : (s pre : Bytes) → (starts_with s pre ≡ true) ↔ ((b : Bytes) × (s ≡ pre ++ b))
unfolding starts_with
starts_with_iff s pre = (
  (λ h. (drop (length pre) s, sym (is_prefix_sound pre s h))),
  (λ w. rw w.1 (is_prefix-append pre w.0)),
)

ends_with_back : (a x : Bytes) → ends_with (a ++ x) x ≡ true
unfolding ends_with
ends_with_back a x =
    let e : length (a ++ x) - length x ≡ length a = omega (arith, length-append a x) in
    let l : leb (length x) (length (a ++ x)) ≡ true = ground (arith, length-append a x) in
    rw (l, e, drop-length-append a x) (bytes_eq_refl x)

ends_with_sound : (s x : Bytes) → ends_with s x ≡ true → take (length s - length x) s ++ x ≡ s
unfolding ends_with
ends_with_sound s x h =
    let n = length s - length x in
    let e : drop n s ≡ x = (bytes_eq_iff (drop n s) x).0 (ground arith) in
    ap (λ l. take n s ++ l) (sym e) ∙ take-append-drop n s

-- A string starts (ends) with another exactly when it is that string followed (preceded) by some text.
pub starts_ends_iff :
    (s x : Bytes)
    → ((starts_with s x ≡ true) ↔ ((b : Bytes) × (s ≡ x ++ b)))
      × ((ends_with s x ≡ true) ↔ ((a : Bytes) × (s ≡ a ++ x)))
starts_ends_iff s x = (
  starts_with_iff s x,
  (
    (λ h. (take (length s - length x) s, sym (ends_with_sound s x h))),
    (λ w. rw w.1 (ends_with_back w.0 x)),
  ),
)

length-copies : (s : Bytes) (t : ℕ) → length (copies s t) ≡ length s * t
unfolding copies
length-copies s zero = omega arith
length-copies s (suc t) = omega (arith, length-append s (copies s t), length-copies s t)

copies-add : (s : Bytes) (t u : ℕ) → copies s (t + u) ≡ copies s t ++ copies s u
unfolding copies
copies-add s zero u = rw zero-add
copies-add s (suc t) u = rw (suc-add, append_assoc) (ap (λ l. s ++ l) (copies-add s t u))

-- Repeating a string makes `times` copies, none for a negative number: the result is exactly as long as
-- its buffer, and repeating in two parts is repeating the sum.
pub repeat_lem :
    (s : Bytes) (t u : ℕ)
    → (length (repeat s (pos t)) ≡ length s * t)
      × (repeat s (pos (t + u)) ≡ repeat s (pos t) ++ repeat s (pos u))
      × (repeat s (negsuc t) ≡ [])
unfolding repeat
repeat_lem s t u = (length-copies s t, copies-add s t u, refl)
