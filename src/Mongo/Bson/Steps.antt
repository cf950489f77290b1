-- ===== src/Mongo/Bson/Steps.antt =====
-- One element of a BSON document, as the encoder writes it, and what the decoder does with it.
use vader_langue.Prelude.{
  ℕ, suc, ◌+◌, ◌-◌, ◌≡◌, refl, ap, ◌∙◌, arith, Bool, some, [], ◌∷◌, ◌++◌, append_assoc, Bytes,
  ◌>>=◌, length, length-append, take, drop, take-length-append, drop-length-append,
}
use vader_langue.Libc.{strchr}
use vader_langue.Net.Dsn.Parts.{Without, strchr-append, behind}
use vader_langue.Json.{JVal}
use vader_langue.Mongo.Bson.{
  Codec, elem_head, Found, leaf, nested, found, attach, empty, placed, keyed, decode,
}

module _ {D : Type 0} (x : Codec D) where
  -- The bytes of an element and what follows.
  head-append :
      (t : ℕ) (key body q : Bytes) → (elem_head t key ++ body) ++ q ≡ t ∷ (key ++ 0 ∷ (body ++ q))
  head-append t key body q =
      ap (λ l. t ∷ (l ++ q)) (append_assoc key (0 ∷ []) body)
      ∙ ap (λ l. t ∷ l) (append_assoc key (0 ∷ body) q)

  length-elem :
      (t : ℕ) (key body : Bytes)
      → length (elem_head t key ++ body) ≡ suc (suc (length key) + length body)
  length-elem t key body =
      omega (arith, ap length (append_assoc key (0 ∷ []) body), length-append key (0 ∷ body))

  decode_step :
      (fuel : ℕ) (as_arr : Bool) (parent : JVal D) (left t : ℕ) (q : Bytes)
      → decode x (suc fuel) as_arr parent (suc left) (suc t ∷ q)
        ≡ keyed x (decode x fuel) as_arr parent left (suc t) q (strchr q 0)
  unfolding decode
  decode_step fuel as_arr parent left t q = refl

  -- A round on an element is what its value makes of it.
  decode-elem :
      (fuel : ℕ) (as_arr : Bool) (parent : JVal D) (left t : ℕ) (key body q : Bytes) (f : Found D)
      → Without 0 key
      → found x as_arr (suc t) (body ++ q) ≡ f
      → decode x
          (suc fuel)
          as_arr
          parent
          (length (elem_head (suc t) key ++ body) + left)
          ((elem_head (suc t) key ++ body) ++ q)
        ≡ placed (decode x fuel) as_arr parent (length body + left) key (body ++ q) f
  decode-elem fuel as_arr parent left t key body q f hk hf =
      let rest = key ++ 0 ∷ (body ++ q) in
      let many = suc (length key) + length body + left in
      let loop = decode x fuel in
      let few : many - suc (length key) ≡ length body + left = omega arith in
      let back : drop (suc (length key)) rest ≡ body ++ q = behind 0 key (body ++ q) in
      ap (λ n. decode x (suc fuel) as_arr parent n ((elem_head (suc t) key ++ body) ++ q))
        (omega (arith, length-elem (suc t) key body))
      ∙ ap (decode x (suc fuel) as_arr parent (suc many)) (head-append (suc t) key body q)
      ∙ decode_step fuel as_arr parent many t rest
      ∙ ap (keyed x loop as_arr parent many (suc t) rest) (strchr-append 0 key (body ++ q) hk)
      ∙ ap
          (λ n.
            placed loop as_arr parent n (take (length key) rest) (drop (suc (length key)) rest)
              (found x as_arr (suc t) (drop (suc (length key)) rest)))
          few
      ∙ ap
          (λ l.
            placed loop as_arr parent (length body + left) l (drop (suc (length key)) rest)
              (found x as_arr (suc t) (drop (suc (length key)) rest)))
          (take-length-append key (0 ∷ (body ++ q)))
      ∙ ap (λ l. placed loop as_arr parent (length body + left) key l (found x as_arr (suc t) l))
          back
      ∙ ap (placed loop as_arr parent (length body + left) key (body ++ q)) hf

  -- What is left behind a value.
  left_over :
      (fuel : ℕ) (as_arr : Bool) (parent : JVal D) (left : ℕ) (body q : Bytes)
      → decode x fuel as_arr parent
          (length body + left - length body)
          (drop (length body) (body ++ q))
        ≡ decode x fuel as_arr parent left q
  left_over fuel as_arr parent left body q =
      let few : length body + left - length body ≡ left = omega arith in
      ap (λ n. decode x fuel as_arr parent n (drop (length body) (body ++ q))) few
      ∙ ap (decode x fuel as_arr parent left) (drop-length-append body q)

  -- An element whose value the decoder finds as a leaf.
  pub decode-leaf :
      (fuel : ℕ) (as_arr : Bool) (parent : JVal D) (left t : ℕ) (key body q : Bytes) (v : JVal D)
      → Without 0 key
      → found x as_arr (suc t) (body ++ q) ≡ leaf v (length body)
      → decode x
          (suc fuel)
          as_arr
          parent
          (length (elem_head (suc t) key ++ body) + left)
          ((elem_head (suc t) key ++ body) ++ q)
        ≡ decode x fuel as_arr (attach as_arr parent key v) left q
  decode-leaf fuel as_arr parent left t key body q v hk hf =
      decode-elem fuel as_arr parent left t key body q (leaf v (length body)) hk hf
      ∙ left_over fuel as_arr (attach as_arr parent key v) left body q

  -- An element whose value the decoder finds as a document, and decodes.
  pub decode-nested :
      (fuel : ℕ) (as_arr : Bool) (parent : JVal D) (left t : ℕ) (key body q : Bytes) (arr : Bool)
      (child : JVal D)
      → Without 0 key
      → found x as_arr (suc t) (body ++ q) ≡ nested arr (length body)
      → decode x fuel arr (empty arr) (length body - 5) (drop 4 (body ++ q)) ≡ some child
      → decode x
          (suc fuel)
          as_arr
          parent
          (length (elem_head (suc t) key ++ body) + left)
          ((elem_head (suc t) key ++ body) ++ q)
        ≡ decode x fuel as_arr (attach as_arr parent key child) left q
  decode-nested fuel as_arr parent left t key body q arr child hk hf hc =
      decode-elem fuel as_arr parent left t key body q (nested arr (length body)) hk hf
      ∙ ap
          (λ o. o >>= (λ c.
            decode x fuel as_arr (attach as_arr parent key c) (length body + left - length body)
              (drop (length body) (body ++ q))))
          hc
      ∙ left_over fuel as_arr (attach as_arr parent key child) left body q
