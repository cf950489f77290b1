-- ===== src/Json/Parse/Total.antt =====
-- runtime/vader_json.c: the parser ends on every text.
use vader_langue.Prelude.{
  ℕ, suc, zero, ◌+◌, ◌*◌, ◌≡◌, ◌≢◌, ◌≤◌, refl, true, none, some, [], ◌∷◌, Bytes, length, drop,
  arith, ◌==◌,
}
use vader_langue.Json.{Doubles, j_arr, j_obj, nil, cons, end, field}
use vader_langue.Json.Parse.{
  Cursor, Parsed, parsed, fault, starved, bind, jskip, jparse_str, peek, jskip_cursor, pass, number,
  follow, jparse_val, jparse_items, jparse_fields, json_parse, twice,
}
use vader_langue.Json.Parse.Progress.{
  Near, Ends, jskip-length, advance-Near, drop_less, Ends-bind, Ends-weaken, if-Ends,
  jparse_str-Ends, pass-Near, jskip-Near, drop_one, near_zero,
}

module _ (d : Doubles) where
  open d use {Double, strtod}

  follow-Ends :
      {A : Type 0} (n close : ℕ) (more : Cursor → Parsed A) (last : A) (c : Cursor)
      → Near n c
      → ((m : ℕ) → n ≡ suc m → (t : Bytes) → length t ≤ m → Ends m (more (some t)))
      → Ends n (follow d close more last c)
  follow-Ends n close more last none h k = _
  follow-Ends zero close more last (some s) h k =
      if-Ends 0 (peek (jskip s) == b',') _ _
        (λ e. absurd (near_zero (jskip s) 43 e (omega (arith, jskip-length s))))
        (λ e. pass-Near close (some (jskip s)) 0 (omega (arith, jskip-length s)))
  follow-Ends (suc n) close more last (some s) h k =
      if-Ends (suc n) (peek (jskip s) == b',') _ _
        (λ e.
          Ends-weaken n (suc n) (more (some (drop 1 (jskip s)))) (omega arith) (
            k n refl (drop 1 (jskip s))
              (drop_one (jskip s) 43 n e (omega (arith, jskip-length s)))))
        (λ e. pass-Near close (some (jskip s)) (suc n) (omega (arith, jskip-length s)))

  number-Ends : (s : Bytes) (n : ℕ) → length s ≤ n → Ends n (number d s)
  unfolding number
  number-Ends s n h = drop_less (strtod s).1 s n h

  str-Ends : (c : Cursor) (n : ℕ) → Near n c → Ends n (jparse_str c)
  unfolding jparse_str
  str-Ends none n h = _
  str-Ends (some []) n h = _
  str-Ends (some (c ∷ s)) zero h = absurd (omega arith)
  str-Ends (some (c ∷ s)) (suc n) h =
      Ends-weaken n (suc n) (jparse_str (some (c ∷ s))) (omega arith)
        (jparse_str-Ends (some (c ∷ s)) n h)

  -- What a round of a loop needs of the rounds behind a comma or a bracket.
  abbrev Later : {A : Type 0} → ℕ → (Cursor → Parsed A) → Type 0
  Later n g = (m : ℕ) → n ≡ suc m → (t : Bytes) → length t ≤ m → Ends m (g (some t))

  items-round :
      (f n : ℕ) (c : Cursor)
      → Ends n (jparse_val d f c)
      → Later n (jparse_items d f)
      → Ends n (jparse_items d (suc f) c)
  unfolding jparse_items
  items-round f n c h k = Ends-bind n (jparse_val d f c) _ h (λ v c1 near.
      follow-Ends n b']' (λ x. bind (jparse_items d f x) (λ xs c3. parsed (cons v xs) c3))
        (cons v nil) c1 near
        (λ m e t l.
          Ends-bind m (jparse_items d f (some t)) (λ xs c3. parsed (cons v xs) c3) (k m e t l)
            (λ xs c3 q. q)))

  fields-round :
      (f n : ℕ) (c : Cursor)
      → Near n c
      → ((x : Cursor) → Near n x → Ends n (jparse_val d f x))
      → Later n (jparse_fields d f)
      → Ends n (jparse_fields d (suc f) c)
  unfolding jparse_fields
  fields-round f n c h v k =
      Ends-bind n (jparse_str (jskip_cursor c)) _ (str-Ends (jskip_cursor c) n (jskip-Near c n h))
        (λ key c1 near.
          Ends-bind n (jparse_val d f (pass b':' (jskip_cursor c1))) _
            (v (pass b':' (jskip_cursor c1))
              (pass-Near b':' (jskip_cursor c1) n (jskip-Near c1 n near)))
            (λ x c2 q.
              follow-Ends n b'}'
                (λ y. bind (jparse_fields d f y) (λ fs c4. parsed (field key x fs) c4))
                (field key x end) c2 q
                (λ m e t l.
                  Ends-bind m (jparse_fields d f (some t)) (λ fs c4. parsed (field key x fs) c4)
                    (k m e t l) (λ fs c4 r. r))))

  -- The text behind an opening bracket.
  inside-length :
      (s : Bytes) (c n : ℕ)
      → (peek (jskip s) == suc c) ≡ true
      → length s ≤ suc n
      → length (jskip (drop 1 (jskip s))) ≤ n
  inside-length s c n e h = omega (
    arith,
    jskip-length (drop 1 (jskip s)),
    drop_one (jskip s) c n e (omega (arith, jskip-length s)),
  )

  list-Ends :
      {A B : Type 0} (n c : ℕ) (s : Bytes) (g : Cursor → Parsed A) (wrap : A → B)
      → (peek (jskip s) == suc c) ≡ true
      → length s ≤ n
      → Later n g
      → Ends n (bind (g (some (jskip (drop 1 (jskip s))))) (λ a x. parsed (wrap a) x))
  list-Ends zero c s g wrap e h k = absurd (near_zero (jskip s) c e (omega (arith, jskip-length s)))
  list-Ends (suc n) c s g wrap e h k =
      Ends-bind (suc n) (g (some (jskip (drop 1 (jskip s))))) _
        (Ends-weaken n (suc n) _ (omega arith)
          (k n refl (jskip (drop 1 (jskip s))) (inside-length s c n e h)))
        (λ a x q. q)

  closed-length :
      (s : Bytes) (n : ℕ) → length s ≤ n → length (drop 1 (jskip (drop 1 (jskip s)))) ≤ n
  closed-length s n h = drop_less 1 (jskip (drop 1 (jskip s))) n (
      omega (
        arith,
        jskip-length (drop 1 (jskip s)),
        drop_less 1 (jskip s) n (omega (arith, jskip-length s)),
      ))

  val-round :
      (f n : ℕ) (s : Bytes)
      → length s ≤ n
      → Later n (jparse_items d f)
      → Later n (jparse_fields d f)
      → Ends n (jparse_val d (suc f) (some s))
  unfolding jparse_val
  val-round f n s h ki kf =
      let l : length (jskip s) ≤ n = omega (arith, jskip-length s) in
      if-Ends n (peek (jskip s) == b'{') _ _
        (λ e.
          if-Ends n (peek (jskip (drop 1 (jskip s))) == b'}') _ _ (λ q. closed-length s n h)
            (λ q. list-Ends n 122 s (jparse_fields d f) j_obj e h kf))
        (λ e1.
          if-Ends n (peek (jskip s) == b'[') _ _
            (λ e.
              if-Ends n (peek (jskip (drop 1 (jskip s))) == b']') _ _ (λ q. closed-length s n h)
                (λ q. list-Ends n 90 s (jparse_items d f) j_arr e h ki))
            (λ e2.
              if-Ends n (peek (jskip s) == b'"') _ _
                (λ e.
                  Ends-bind n (jparse_str (some (jskip s))) _ (str-Ends (some (jskip s)) n l)
                    (λ x c q. q))
                (λ e3.
                  if-Ends n (peek (jskip s) == b't') _ _ (λ e. advance-Near 4 (jskip s) n l)
                    (λ e4.
                      if-Ends n (peek (jskip s) == b'f') _ _ (λ e. advance-Near 5 (jskip s) n l)
                        (λ e5.
                          if-Ends n (peek (jskip s) == b'n') _ _ (λ e. advance-Near 4 (jskip s) n l)
                            (λ e6. number-Ends (jskip s) n l))))))

  val_none : (f n : ℕ) → Ends n (jparse_val d (suc f) none)
  unfolding jparse_val
  val_none f n = _

  mutual
    -- Two calls for each byte are enough.
    val-Ends : (f : ℕ) (c : Cursor) (n : ℕ) → Near n c → n * 2 + 1 ≤ f → Ends n (jparse_val d f c)
    val-Ends zero c n h l = absurd (omega arith)
    val-Ends (suc f) none n h l = val_none f n
    val-Ends (suc f) (some s) n h l =
        val-round f n s h (λ m e t k. items-Ends f (some t) m k (omega arith))
          (λ m e t k. fields-Ends f (some t) m k (omega arith))

    items-Ends :
        (f : ℕ) (c : Cursor) (n : ℕ) → Near n c → n * 2 + 2 ≤ f → Ends n (jparse_items d f c)
    items-Ends zero c n h l = absurd (omega arith)
    items-Ends (suc f) c n h l =
        items-round f n c (val-Ends f c n h (omega arith))
          (λ m e t k. items-Ends f (some t) m k (omega arith))

    fields-Ends :
        (f : ℕ) (c : Cursor) (n : ℕ) → Near n c → n * 2 + 2 ≤ f → Ends n (jparse_fields d f c)
    fields-Ends zero c n h l = absurd (omega arith)
    fields-Ends (suc f) c n h l =
        fields-round f n c h (λ x k. val-Ends f x n k (omega arith))
          (λ m e t k. fields-Ends f (some t) m k (omega arith))

  not-starved : {A : Type 0} (n : ℕ) (r : Parsed A) → Ends n r → r ≢ starved
  not-starved n (parsed a c) h e = absurd (cc e)
  not-starved n fault h e = absurd (cc e)
  not-starved n starved h e = h

  twice_lem : (s : Bytes) → twice s ≡ length s * 2
  twice_lem [] = refl
  twice_lem (c ∷ s) = omega (arith, twice_lem s)

  -- Parsing ends on every text, well formed or not: the calls that the parser is given are enough.
  pub json_parse-ends : (s : Bytes) → json_parse d s ≢ starved
  json_parse-ends s = not-starved (length s) (json_parse d s) (
      unfold json_parse in
      val-Ends (suc (twice s)) (some s) (length s) (omega arith) (omega (arith, twice_lem s)))
