-- ===== src/Http/Requests/Fields.antt =====
-- runtime/vader_http.c: where `strcasestr` finds the length of the body in the head of a request.
use native.Mathlib.Nat.{suc-add}
use vader_langue.Prelude.{
  ℕ, ◌≡◌, ◌≢◌, refl, ap, sym, ◌∙◌, arith, true, false, Bool-cases, inl, inr, Option-cases, [], ◌∷◌,
  ◌++◌, All-append, Bytes, codes, length, length-append, length-map, drop, map, ℤ,
}
use vader_langue.Libc.Search.{strstr-none_cons, strstr_later}
use vader_langue.Libc.{is_prefix, strstr, to_lower, atoll}
use vader_langue.Net.Dsn.Parts.{Without}
use vader_langue.Http.{strcasestr, length_at}

abbrev length_name : Bytes
length_name = codes "content-length"

-- `clen` of a text.
abbrev pub body_length : Bytes → ℤ
body_length text = length_at text (strcasestr text (codes "content-length:"))

-- Where the colons of two texts come first, a prefix test compares what stands before them.
is_prefix_colon :
    (w b r : Bytes)
    → Without b':' w
    → Without b':' b
    → is_prefix (w ++ b':' ∷ []) (b ++ b':' ∷ r) ≡ true
    → b ≡ w
unfolding is_prefix
is_prefix_colon [] [] r hw hb h = refl
is_prefix_colon [] (x ∷ b) r hw hb h = absurd (hb.0 (ground arith))
is_prefix_colon (y ∷ w) [] r hw hb h = absurd (hw.0 (ground arith))
is_prefix_colon (y ∷ w) (x ∷ b) r hw hb h = ground (arith, is_prefix_colon w b r hw.1 hb.1)

skip_byte :
    (c : ℕ) (s : Bytes)
    → is_prefix (codes "content-length:") (to_lower c ∷ map to_lower s) ≡ false
    → body_length (c ∷ s) ≡ body_length s
unfolding to_lower
skip_byte c s h = elim (Option-cases (strcasestr s (codes "content-length:"))) [
  | inl e ↦
      ap (length_at (c ∷ s)) (strstr-none_cons (to_lower c) (map to_lower s) _ h e)
      ∙ sym (ap (length_at s) e)
  | inr (k, e) ↦
      ap (length_at (c ∷ s)) (strstr_later (to_lower c) (map to_lower s) _ k h e)
      ∙ ap (λ n. atoll (drop n (c ∷ s))) (suc-add k 15)
      ∙ sym (ap (length_at s) e)
]

to_lower_colon : (x : ℕ) → x ≢ b':' → to_lower x ≢ b':'
unfolding to_lower
to_lower_colon x h = ground arith

Without-map : (a : Bytes) → Without b':' a → Without b':' (map to_lower a)
Without-map [] h = tt
Without-map (x ∷ a) h = (to_lower_colon x h.0, Without-map a h.1)

map_field : (a r : Bytes) → map to_lower (a ++ b':' ∷ r) ≡ map to_lower a ++ b':' ∷ map to_lower r
unfolding to_lower
map_field [] r = refl
map_field (x ∷ a) r = ap (λ l. to_lower x ∷ l) (map_field a r)

-- A name that is not `content-length` is no place that the search stops at.
skip_first :
    (x : ℕ) (a r : Bytes)
    → Without b':' (x ∷ a)
    → map to_lower (x ∷ a) ≢ length_name
    → body_length (x ∷ (a ++ b':' ∷ r)) ≡ body_length (a ++ b':' ∷ r)
skip_first x a r h n =
    skip_byte x (a ++ b':' ∷ r)
      (elim (Bool-cases
        (is_prefix (codes "content-length:") (map to_lower (x ∷ (a ++ b':' ∷ r))))) [
          | inl e ↦ absurd (
              n (
                is_prefix_colon length_name (map to_lower (x ∷ a)) (map to_lower r) (ground arith)
                  (Without-map (x ∷ a) h)
                  (sym (ap (λ l. is_prefix (codes "content-length:") l) (map_field (x ∷ a) r))
                    ∙ e)))
          | inr e ↦ e
        ])

last : Bytes → ℕ
last [] = 0
last (x ∷ []) = x
last (x ∷ y ∷ s) = last (y ∷ s)

last-map : (a : Bytes) (c : ℕ) → last (map to_lower (a ++ c ∷ [])) ≡ to_lower c
unfolding last
last-map [] c = refl
last-map (x ∷ []) c = refl
last-map (x ∷ y ∷ a) c = last-map (y ∷ a) c

last-length_name : last length_name ≡ b'h'
unfolding last
last-length_name = refl

skip_colon : (r : Bytes) → body_length (b':' ∷ r) ≡ body_length r
unfolding is_prefix to_lower
skip_colon r = skip_byte b':' r refl

-- The search passes a field whose name does not end with an h.
pub skip_field :
    (a : Bytes) (c : ℕ) (r : Bytes)
    → Without b':' a
    → c ≢ b':'
    → to_lower c ≢ b'h'
    → body_length ((a ++ c ∷ []) ++ b':' ∷ r) ≡ body_length r
skip_field [] c r ha hc hh =
    skip_first c [] r (hc, tt) (λ e. hh (sym (last-map [] c) ∙ ap last e ∙ last-length_name))
    ∙ skip_colon r
skip_field (x ∷ a) c r ha hc hh =
    skip_first x (a ++ c ∷ []) r (ha.0, All-append (λ z. z ≢ b':') a (c ∷ []) ha.1 (hc, tt))
      (λ e. hh (sym (last-map (x ∷ a) c) ∙ ap last e ∙ last-length_name))
    ∙ skip_field a c r ha.1 hc hh

-- It finds the number behind `Content-Length:` when no field name stands before.
pub find_length :
    (a r : Bytes)
    → Without b':' a
    → body_length ((a ++ codes "Content-Length") ++ b':' ∷ r) ≡ atoll r
find_length [] r h = unfold strstr is_prefix to_lower in refl
find_length (x ∷ a) r h =
    skip_first x (a ++ codes "Content-Length") r
      (h.0, All-append (λ z. z ≢ b':') a (codes "Content-Length") h.1 (ground arith))
      (λ e. absurd (
        omega (
          arith,
          ap length e,
          length-map to_lower (a ++ codes "Content-Length"),
          length-append a (codes "Content-Length"),
        )))
    ∙ find_length a r h.1
