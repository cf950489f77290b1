-- ===== src/Sys/Lines.antt =====
-- runtime/vader_fs.c: reading a line from stdin into a buffer that doubles.
use mathlib.Core.Path.{subst}
use vader_langue.Prelude.{
  some, length-drop, take-length-append, ℕ, suc, zero, ◌+◌, ◌*◌, ◌≡◌, ◌<◌, ◌≤◌, refl, ap, sym, ◌∙◌,
  arith, Bool-cases, inl, inr, [], ◌∷◌, ◌++◌, append_assoc, append-nil, Bytes, ◌==◌, ltb, ltb→lt,
  if◌then◌else◌, length, length-set, length-append, length-replicate, take, drop, set, replicate,
  get_elem?,
}

-- `buf`, `len` and `cap`.
pub record Buffer : Type 0 where
  pub bytes : Bytes
  pub len : ℕ
  pub cap : ℕ

-- `memcpy` of the first `n` bytes.
abbrev pub copied : ℕ → Bytes → Bytes → Bytes
copied n source target = take n source ++ drop n target

module _ (junk : ℕ) where
  -- The buffer with room for another byte and the NUL; `junk` is what `vader_alloc` leaves.
  unfoldable pub with_room : Buffer → Buffer
  with_room b = if ltb (b.len + 1) b.cap then b else record {
    bytes = copied b.len b.bytes (replicate (b.cap * 2) junk);
    len = b.len;
    cap = b.cap * 2;
  }

  unfoldable pub put_byte : ℕ → Buffer → Buffer
  unfolding with_room
  put_byte ch b = record (with_room b) { bytes = set (with_room b).bytes b.len ch; len = b.len + 1 }

  -- The loop, until the text ends or a newline comes: the buffer, and what is left on stdin.
  unfoldable pub line_loop : Bytes → Buffer → Buffer × Bytes
  line_loop [] b = (b, [])
  line_loop (ch ∷ input) b =
      let rest = line_loop input (put_byte ch b) in if ch == 10 then (b, input) else rest

  abbrev pub ended_line : Buffer × Bytes → Bytes × Bytes
  ended_line (b, rest) = (set b.bytes b.len 0, rest)

  -- `vader_fs_read_line`: the memory that the result points to, and what is left on stdin.
  unfoldable pub fs_read_line : Bytes → Bytes × Bytes
  fs_read_line input =
      ended_line (line_loop input (record { bytes = replicate 256 junk; len = 0; cap = 256 }))

-- The text before a newline, and the text behind it.
abbrev pub line_of : Bytes → Bytes
line_of [] = []
line_of (c ∷ s) = if c == 10 then [] else c ∷ line_of s

abbrev pub behind_line : Bytes → Bytes
behind_line [] = []
behind_line (c ∷ s) = if c == 10 then s else behind_line s

-- The buffer holds `text`, and has room for a NUL behind it.
record Holds (text : Bytes) (b : Buffer) : Type 0 where
  sized : length b.bytes ≡ b.cap
  long : length text ≡ b.len
  room : b.len < b.cap
  content : take b.len b.bytes ≡ text

take-set_below : (n : ℕ) (s : Bytes) (c : ℕ) → take n (set s n c) ≡ take n s
take-set_below n [] c = refl
take-set_below zero (x ∷ s) c = refl
take-set_below (suc n) (x ∷ s) c = ap (λ l. x ∷ l) (take-set_below n s c)

get_elem?-set_self : (s : Bytes) (n c : ℕ) → n < length s → get_elem? (set s n c) n ≡ some c
get_elem?-set_self [] n c h = absurd (omega arith)
get_elem?-set_self (x ∷ s) zero c h = refl
get_elem?-set_self (x ∷ s) (suc n) c h = get_elem?-set_self s n c (omega arith)

take-set :
    (n : ℕ) (s : Bytes) (c : ℕ) → n < length s → take (suc n) (set s n c) ≡ take n s ++ c ∷ []
take-set n [] c h = absurd (omega arith)
take-set zero (x ∷ s) c h = refl
take-set (suc n) (x ∷ s) c h = ap (λ l. x ∷ l) (take-set n s c (omega arith))

copied-Holds :
    (text : Bytes) (b : Buffer) (target : Bytes)
    → Holds text b
    → b.cap ≤ length target
    → Holds text (record { bytes = copied b.len b.bytes target; len = b.len; cap = length target })
copied-Holds text b target h l =
    let same : copied b.len b.bytes target ≡ text ++ drop b.len target =
      ap (λ t. t ++ drop b.len target) h.content in
    record {
      sized = omega (
        arith,
        ap length same,
        length-append text (drop b.len target),
        length-drop b.len target,
        h.long,
        h.room,
      );
      long = h.long;
      room = omega (arith, h.room);
      content =
          ap (take b.len) same
          ∙ ap (λ n. take n (text ++ drop b.len target)) (sym h.long)
          ∙ take-length-append text (drop b.len target);
    }

-- The buffer is never full.
with_room-Holds :
    (junk : ℕ) (text : Bytes) (b : Buffer)
    → 2 ≤ b.cap
    → Holds text b
    → Holds text (with_room junk b)
      × (b.len + 1 < (with_room junk b).cap)
      × ((with_room junk b).len ≡ b.len)
unfolding with_room
with_room-Holds junk text b c h = elim (Bool-cases (ltb (b.len + 1) b.cap)) [
  | inl e ↦ rw e (h, ltb→lt (b.len + 1) b.cap e, refl)
  | inr e ↦
      let long = length-replicate (b.cap * 2) junk in
      let grown = copied-Holds text b (replicate (b.cap * 2) junk) h (omega (arith, long)) in
      rw e (
        subst
            (λ n. Holds text (record {
              bytes = copied b.len b.bytes (replicate (b.cap * 2) junk);
              len = b.len;
              cap = n;
            }))
            long grown,
        omega (arith, h.room),
        refl,
      )
]

put_byte-Holds :
    (junk : ℕ) (text : Bytes) (ch : ℕ) (b : Buffer)
    → 2 ≤ b.cap
    → Holds text b
    → Holds (text ++ ch ∷ []) (put_byte junk ch b) × (2 ≤ (put_byte junk ch b).cap)
unfolding put_byte
put_byte-Holds junk text ch b c h =
    let next : b.len + 1 ≡ suc b.len = omega arith in
    let (r, room, same) = with_room-Holds junk text b c h in
    (
      record {
        sized = length-set (with_room junk b).bytes b.len ch ∙ r.sized;
        long = omega (arith, length-append text (ch ∷ []), h.long);
        room = room;
        content =
            ap (λ n. take n (set (with_room junk b).bytes b.len ch)) next
            ∙ take-set b.len (with_room junk b).bytes ch (omega (arith, r.sized))
            ∙ ap (λ n. take n (with_room junk b).bytes ++ ch ∷ []) (sym same)
            ∙ ap (λ t. t ++ ch ∷ []) r.content;
      },
      omega (arith, room),
    )

line_loop-Holds :
    (junk : ℕ) (text input : Bytes) (b : Buffer)
    → 2 ≤ b.cap
    → Holds text b
    → Holds (text ++ line_of input) (line_loop junk input b).0
      × ((line_loop junk input b).1 ≡ behind_line input)
unfolding line_loop
line_loop-Holds junk text [] b c h = (rw append-nil h, refl)
line_loop-Holds junk text (ch ∷ input) b c h = elim (Bool-cases (ch == 10)) [
  | inl e ↦ rw (e, append-nil) (h, refl)
  | inr e ↦
      let (p, q) = put_byte-Holds junk text ch b c h in
      let (r, s) = line_loop-Holds junk (text ++ ch ∷ []) input (put_byte junk ch b) q p in
      rw e (rw (← append_assoc text (ch ∷ []) (line_of input)) r, s)
]

abbrev fresh_line : ℕ → Buffer
fresh_line junk = record { bytes = replicate 256 junk; len = 0; cap = 256 }

fresh-Holds : (junk : ℕ) → Holds [] (fresh_line junk)
fresh-Holds junk = record {
  sized = length-replicate 256 junk;
  long = refl;
  room = omega arith;
  content = refl;
}

-- Reading a line gives the text before the first newline, or all of it, with a NUL behind it, and
-- leaves what stands behind the newline; however long the line is, no byte of it is lost to a write
-- outside the buffer.
pub fs_read_line_lem :
    (junk : ℕ) (input : Bytes)
    → (take (length (line_of input)) (fs_read_line junk input).0 ≡ line_of input)
      × (get_elem? (fs_read_line junk input).0 (length (line_of input)) ≡ some 0)
      × ((fs_read_line junk input).1 ≡ behind_line input)
unfolding fs_read_line
fs_read_line_lem junk input =
    let fresh = fresh_line junk in
    let (h, rest) = line_loop-Holds junk [] input fresh (omega arith) (fresh-Holds junk) in
    let b = (line_loop junk input fresh).0 in
    (
      ap (λ n. take n (set b.bytes b.len 0)) h.long ∙ take-set_below b.len b.bytes 0 ∙ h.content,
      ap (get_elem? (set b.bytes b.len 0)) h.long
          ∙ get_elem?-set_self b.bytes b.len 0 (omega (arith, h.sized, h.room)),
      rest,
    )
