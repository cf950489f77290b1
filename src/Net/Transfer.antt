-- ===== src/Net/Transfer.antt =====
-- How the bytes are cut into reads and writes makes no difference.
use vader_langue.Prelude.{
  ℕ, suc, zero, ◌-◌, ◌*◌, ◌/◌, ◌^◌, ◌≡◌, ◌≤◌, ◌<◌, refl, ap, sym, ◌∙◌, arith, true, false, inl, inr,
  Bool-cases, none, some, List, [], ◌∷◌, ◌++◌, Bytes, ltb, ltb→lt, ltb→le, take-length-append,
  length, take, drop, take-append-drop, length-drop, All,
}
use vader_langue.Net.{Wire, read_n, write_all, recv, received, send, low_bytes, little}

-- All that is to arrive.
unfoldable pub flat : List Bytes → Bytes
flat [] = []
flat (c ∷ pieces) = c ++ flat pieces

-- No read ends the connection early.
abbrev pub Flows : List Bytes → Type 0
Flows = All (λ c. 1 ≤ length c)

pub record Delivers (w : Wire) (s more : Bytes) : Type 0 where
  pub after : Wire
  pub got : recv (length s) w ≡ some (s, after)
  pub flows : Flows after.incoming
  pub left : flat after.incoming ≡ more
  pub same_sent : after.sent ≡ w.sent
  pub same_accepts : after.accepts ≡ w.accepts

-- Of two cuts of one text, the later one goes on behind the earlier one.
pub split_append :
    (a b c d : Bytes)
    → a ++ b ≡ c ++ d
    → length a ≤ length c
    → (c ≡ a ++ drop (length a) c) × (b ≡ drop (length a) c ++ d)
split_append [] b c d e h = (refl, e)
split_append (x ∷ a) b [] d e h = absurd (omega arith)
split_append (x ∷ a) b (y ∷ c) d e h =
    let tails : a ++ b ≡ c ++ d = cc e in
    let heads : y ≡ x = cc e in
    let r = split_append a b c d tails (omega arith) in
    (ap (λ l. y ∷ l) r.0 ∙ ap (λ z. z ∷ (a ++ drop (length a) c)) heads, r.1)

read_part :
    (n y : ℕ) (c : Bytes) (pieces : List Bytes)
    → ltb (suc n) (length (y ∷ c)) ≡ true
    → read_n (suc n) ((y ∷ c) ∷ pieces) ≡ some (take (suc n) (y ∷ c), drop (suc n) (y ∷ c) ∷ pieces)
unfolding read_n
read_part n y c pieces h = rw h

read_whole :
    (n y : ℕ) (c : Bytes) (pieces : List Bytes) (s : Bytes) (rest : List Bytes)
    → ltb (suc n) (length (y ∷ c)) ≡ false
    → read_n (suc n - length (y ∷ c)) pieces ≡ some (s, rest)
    → read_n (suc n) ((y ∷ c) ∷ pieces) ≡ some ((y ∷ c) ++ s, rest)
unfolding read_n
read_whole n y c pieces s rest h e =
    rw h (ap (λ o. elim o [ none ↦ none | some (t, p) ↦ some ((y ∷ c) ++ t, p) ]) e)

pub flat-∷ : (c : Bytes) (pieces : List Bytes) → flat (c ∷ pieces) ≡ c ++ flat pieces
unfolding flat
flat-∷ c pieces = refl

-- The bytes of a message are read whatever pieces they arrive in, and what follows is left.
read_n-flat :
    (pieces : List Bytes) (s more : Bytes)
    → Flows pieces
    → flat pieces ≡ s ++ more
    → (rest : List Bytes) × (read_n (length s) pieces ≡ some (s, rest))
      × Flows rest
      × (flat rest ≡ more)
unfolding flat
read_n-flat pieces [] more h e = (pieces, unfold read_n in refl, h, e)
read_n-flat [] (x ∷ s) more h e = absurd (cc e)
read_n-flat ([] ∷ pieces) (x ∷ s) more h e = absurd (omega arith)
read_n-flat ((y ∷ c) ∷ pieces) (x ∷ s) more h e =
    elim (Bool-cases (ltb (length (x ∷ s)) (length (y ∷ c)))) [
      | inl part ↦
          let cut =
            split_append (x ∷ s) more (y ∷ c) (flat pieces) (sym (sym (flat-∷ (y ∷ c) pieces) ∙ e))
              (omega (arith, ltb→lt (length (x ∷ s)) (length (y ∷ c)) part)) in
          let left = drop (length (x ∷ s)) (y ∷ c) in
          (
            left ∷ pieces,
            read_part (length s) y c pieces part
                ∙ ap (λ t. some (t, left ∷ pieces))
                    (ap (take (length (x ∷ s))) cut.0 ∙ take-length-append (x ∷ s) left),
            (
              omega (
                arith,
                ltb→lt (length (x ∷ s)) (length (y ∷ c)) part,
                length-drop (length (x ∷ s)) (y ∷ c),
              ),
              h.1,
            ),
            flat-∷ left pieces ∙ sym cut.1,
          )
      | inr whole ↦
          let cut =
            split_append (y ∷ c) (flat pieces) (x ∷ s) more (sym (flat-∷ (y ∷ c) pieces) ∙ e)
              (ltb→le (length (x ∷ s)) (length (y ∷ c)) whole) in
          let tail = drop (length (y ∷ c)) (x ∷ s) in
          let r = read_n-flat pieces tail more h.1 cut.1 in
          (
            r.0,
            read_whole (length s) y c pieces tail r.0 whole
                  (ap (λ k. read_n k pieces) (sym (length-drop (length (y ∷ c)) (x ∷ s))) ∙ r.1)
                ∙ ap (λ t. some (t, r.0)) (sym cut.0),
            r.2,
            r.3,
          )
    ]

-- The connection after a read, when `s ++ more` is still to arrive.
pub recv-Delivers :
    (w : Wire) (s more : Bytes) → Flows w.incoming → flat w.incoming ≡ s ++ more → Delivers w s more
unfolding recv
recv-Delivers w s more h e =
    let r = read_n-flat w.incoming s more h e in
    record {
      after = record w { incoming = r.0 };
      got = ap (received w) r.1;
      flows = r.2;
      left = r.3;
      same_sent = refl;
      same_accepts = refl;
    }

-- What `write_all` reports as done has been sent whole, in however many writes.
write_all-true :
    (accepts : List ℕ) (s : Bytes) → (write_all accepts s).0 ≡ true → (write_all accepts s).1 ≡ s
unfolding write_all
write_all-true accepts [] h = refl
write_all-true [] (x ∷ s) h = absurd (cc h)
write_all-true (zero ∷ accepts) (x ∷ s) h = absurd (cc h)
write_all-true (suc w ∷ accepts) (x ∷ s) h =
    ap (λ t. take (suc w) (x ∷ s) ++ t) (write_all-true accepts (drop w s) h)
    ∙ take-append-drop (suc w) (x ∷ s)

-- When every write takes a byte and there are as many as bytes, `write_all` sends everything.
write_all-enough :
    (accepts : List ℕ) (s : Bytes)
    → All (λ a. 1 ≤ a) accepts
    → length s ≤ length accepts
    → (write_all accepts s).0 ≡ true
unfolding write_all
write_all-enough accepts [] h e = refl
write_all-enough [] (x ∷ s) h e = absurd (omega arith)
write_all-enough (zero ∷ accepts) (x ∷ s) h e = absurd (omega (arith, h.0))
write_all-enough (suc w ∷ accepts) (x ∷ s) h e =
    write_all-enough accepts (drop w s) h.1 (omega (arith, length-drop w s))

-- A connection that takes whatever is sent; `send` then hands it over whole, and nothing else changes but
-- the writes that are left.
abbrev pub Sends : Bytes → Wire → Type 0
Sends s w =
    (after : Wire) × (send s w ≡ (true, after))
    × (after.sent ≡ w.sent ++ s)
    × (after.incoming ≡ w.incoming)

pub send-Sends :
    (s : Bytes) (w : Wire) → All (λ a. 1 ≤ a) w.accepts → length s ≤ length w.accepts → Sends s w
unfolding send
send-Sends s w h e =
    let ok = write_all-enough w.accepts s h e in
    (
      (send s w).1,
      ap (λ b. (b, (send s w).1)) ok,
      ap (λ t. w.sent ++ t) (write_all-true w.accepts s ok),
      refl,
    )

-- Where `send` reports success, what it was given is what was sent.
pub send-true : (s : Bytes) (w : Wire) → (send s w).0 ≡ true → (send s w).1.sent ≡ w.sent ++ s
unfolding send
send-true s w h = ap (λ t. w.sent ++ t) (write_all-true w.accepts s h)

pub length-low_bytes : (k n : ℕ) → length (low_bytes k n) ≡ k
length-low_bytes zero n = refl
length-low_bytes (suc k) n = ap suc (length-low_bytes k (n / 2 ^ 8))

-- How many numbers fit into `k` bytes.
abbrev pub range : ℕ → ℕ
range zero = 1
range (suc k) = 2 ^ 8 * range k

pub little-low_bytes : (k n : ℕ) → n < range k → little (low_bytes k n) ≡ n
little-low_bytes zero n h = omega arith
little-low_bytes (suc k) n h = let e = little-low_bytes k (n / 2 ^ 8) (omega arith) in omega arith
