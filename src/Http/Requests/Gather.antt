-- ===== src/Http/Requests/Gather.antt =====
-- runtime/vader_http.c: the loops of the server that read a request, in whatever pieces it arrives.
use mathlib.Core.Path.{subst}
use vader_langue.Prelude.{
  ℕ, suc, zero, ◌+◌, ◌-◌, ◌≡◌, ◌<◌, ◌≤◌, refl, ap, sym, ◌∙◌, arith, Bool-cases, inl, inr, none,
  some, List, [], ◌∷◌, ◌++◌, append_assoc, append-nil, Bytes, ne→==, ltb, ltb→lt, ltb→le, lt→ltb,
  le→ltb, length, length-append, length-drop, take, drop, take-append-drop, take-length-append,
}
use vader_langue.Libc.{strstr}
use vader_langue.Net.{to_nul}
use vader_langue.Net.Transfer.{flat, flat-∷, Flows, split_append}
use vader_langue.Net.Dsn.Parts.{Without}
use vader_langue.Http.{gather, Gathered, read_some, more_read, line_seen, head_end, read_upto}
use vader_langue.Http.Responses.{blank_line}
use vader_langue.Http.Requests.Heads.{IsWhole}

-- What one `read` leaves of what is to arrive.
record Reads (k : ℕ) (pieces : List Bytes) : Type 0 where
  piece : Bytes
  rest : List Bytes
  reads : read_some k pieces ≡ some (piece, rest)
  some_byte : 1 ≤ length piece
  flows : Flows rest
  whole : piece ++ flat rest ≡ flat pieces

read_some-Reads :
    (k : ℕ) (x : ℕ) (c : Bytes) (pieces : List Bytes)
    → 0 < k
    → Flows pieces
    → Reads k ((x ∷ c) ∷ pieces)
read_some-Reads zero x c pieces p h = elim p [ ]
read_some-Reads (suc k) x c pieces p h = elim (Bool-cases (ltb (suc k) (length (x ∷ c)))) [
  | inl e ↦ record {
    piece = take (suc k) (x ∷ c);
    rest = drop (suc k) (x ∷ c) ∷ pieces;
    reads = rw e refl;
    some_byte = omega arith;
    flows = (omega (arith, ltb→lt (suc k) (length (x ∷ c)) e, length-drop k c), h);
    whole =
        ap (λ l. take (suc k) (x ∷ c) ++ l) (flat-∷ (drop (suc k) (x ∷ c)) pieces)
        ∙ sym (append_assoc (take (suc k) (x ∷ c)) (drop (suc k) (x ∷ c)) (flat pieces))
        ∙ ap (λ l. l ++ flat pieces) (take-append-drop (suc k) (x ∷ c))
        ∙ sym (flat-∷ (x ∷ c) pieces);
  }
  | inr e ↦ record {
    piece = x ∷ c;
    rest = pieces;
    reads = rw e refl;
    some_byte = omega arith;
    flows = h;
    whole = sym (flat-∷ (x ∷ c) pieces);
  }
]

pub to_nul-append : (a s : Bytes) → Without 0 a → to_nul (a ++ s) ≡ a ++ to_nul s
to_nul-append [] s h = refl
to_nul-append (c ∷ a) s h = rw (ne→== c 0 h.0) (ap (λ l. c ∷ l) (to_nul-append a s h.1))

to_nul-take : (n : ℕ) (a : Bytes) → Without 0 a → to_nul (take n a) ≡ take n a
to_nul-take zero a h = refl
to_nul-take (suc n) [] h = refl
to_nul-take (suc n) (c ∷ a) h = rw (ne→== c 0 h.0) (ap (λ l. c ∷ l) (to_nul-take n a h.1))

-- The buffer before and behind the end of the head.
head_end-short :
    (h buf d body : Bytes)
    → IsWhole h
    → buf ++ d ≡ h ++ body
    → length buf < length h
    → head_end buf ≡ none
head_end-short h buf d body w e l =
    let cut = split_append buf d h body e (omega arith) in
    let start : take (length buf) h ≡ buf =
      ap (take (length buf)) cut.0 ∙ take-length-append buf _ in
    ap head_end (sym start)
    ∙ ap (λ t. strstr t blank_line) (to_nul-take (length buf) h w.no_nul)
    ∙ w.unfinished (length buf) l

head_end-whole : (h begun : Bytes) (w : IsWhole h) → head_end (h ++ begun) ≡ some w.size
head_end-whole h begun w =
    ap (λ t. strstr t blank_line) (to_nul-append h begun w.no_nul) ∙ w.found (to_nul begun)

-- The buffer when the head is in it, with what came of the body, and what is still to arrive.
pub record Has (h body : Bytes) (size : ℕ) (g : Gathered) : Type 0 where
  pub begun : Bytes
  pub rest : List Bytes
  pub gathered : g ≡ (h ++ begun, some size, rest)
  pub flows : Flows rest
  pub joined : begun ++ flat rest ≡ body

gather-step :
    (fuel : ℕ) (buf : Bytes) (pieces : List Bytes)
    → length buf < 65535
    → gather (suc fuel) buf pieces
      ≡ more_read (gather fuel) buf pieces (read_some (65535 - length buf) pieces)
unfolding gather
gather-step fuel buf pieces h = rw (lt→ltb (length buf) 65535 h) refl

-- The loop reads on until the head is whole.
pub gather-Has :
    (h body : Bytes) (w : IsWhole h)
    → length h ≤ 65535
    → (fuel : ℕ) (buf : Bytes) (pieces : List Bytes) → Flows pieces
    → buf ++ flat pieces ≡ h ++ body
    → length buf < length h
    → length h ≤ fuel + length buf
    → Has h body w.size (gather fuel buf pieces)
gather-Has h body w small zero buf pieces f e l r = absurd (omega arith)
gather-Has h body w small (suc fuel) buf [] f e l r =
    let no_more : flat [] ≡ [] = unfold flat in refl in
    absurd (
      omega (
        arith,
        ap length (sym (append-nil buf) ∙ ap (λ t. buf ++ t) (sym no_more) ∙ e),
        length-append h body,
      ))
gather-Has h body w small (suc fuel) buf ([] ∷ pieces) f e l r = absurd (omega arith)
gather-Has h body w small (suc fuel) buf ((x ∷ c) ∷ pieces) f e l r =
    let k = 65535 - length buf in
    let rd = read_some-Reads k x c pieces (omega arith) f.1 in
    let bigger = length-append buf rd.piece in
    let on : (buf ++ rd.piece) ++ flat rd.rest ≡ h ++ body =
      append_assoc buf rd.piece (flat rd.rest) ∙ ap (λ t. buf ++ t) rd.whole ∙ e in
    let start : gather (suc fuel) buf ((x ∷ c) ∷ pieces)
        ≡ line_seen (gather fuel) (buf ++ rd.piece) rd.rest (head_end (buf ++ rd.piece)) =
      gather-step fuel buf ((x ∷ c) ∷ pieces) (omega arith)
      ∙ ap (more_read (gather fuel) buf ((x ∷ c) ∷ pieces)) rd.reads in
    elim (Bool-cases (ltb (length (buf ++ rd.piece)) (length h))) [
      | inl short ↦
          let less = ltb→lt (length (buf ++ rd.piece)) (length h) short in
          let again =
            gather-Has h body w small fuel (buf ++ rd.piece) rd.rest rd.flows on less
              (omega (arith, rd.some_byte)) in
          subst (λ g. Has h body w.size g)
            (sym (
              start
              ∙ ap (line_seen (gather fuel) (buf ++ rd.piece) rd.rest)
                  (head_end-short h (buf ++ rd.piece) (flat rd.rest) body w on less)))
            again
      | inr full ↦
          let cut =
            split_append h body (buf ++ rd.piece) (flat rd.rest) (sym on)
              (ltb→le (length (buf ++ rd.piece)) (length h) full) in
          let begun = drop (length h) (buf ++ rd.piece) in
          record {
            begun = begun;
            rest = rd.rest;
            gathered =
                start
                ∙ ap (λ b. line_seen (gather fuel) b rd.rest (head_end b)) cut.0
                ∙ ap (line_seen (gather fuel) (h ++ begun) rd.rest) (head_end-whole h begun w);
            flows = rd.flows;
            joined = sym cut.1;
          }
    ]

-- The loop for the body takes all that arrives, if it is as long as the head says.
pub read_upto-flat :
    (pieces : List Bytes) (n : ℕ)
    → Flows pieces
    → n ≡ length (flat pieces)
    → (read_upto n pieces).0 ≡ flat pieces
unfolding read_upto flat
read_upto-flat [] zero f e = refl
read_upto-flat [] (suc n) f e = absurd (omega arith)
read_upto-flat ([] ∷ pieces) n f e = absurd (omega arith)
read_upto-flat ((x ∷ c) ∷ pieces) zero f e = absurd (omega arith)
read_upto-flat ((x ∷ c) ∷ pieces) (suc n) f e =
    let long = length-append (x ∷ c) (flat pieces) in
    rw (le→ltb (suc n) (length (x ∷ c)) (omega arith))
      (ap (λ l. (x ∷ c) ++ l) (read_upto-flat pieces (suc n - length (x ∷ c)) f.1 (omega arith)))
