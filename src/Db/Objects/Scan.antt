-- ===== src/Db/Objects/Scan.antt =====
-- Reading a result row by row through runtime/vader_db.c.
use vader_langue.Prelude.{
  ℕ, suc, leb, zero, map, ◌≡◌, ◌<◌, refl, ap, ◌∙◌, arith, true, false, some, List, [], ◌∷◌, ◌++◌,
  Bytes, ℤ, pos, length, get_or, get_elem?, get_elem?-concat, set, get_elem?-set-some,
}
use vader_langue.Db.{Kind}
use vader_langue.Db.Driver.{
  Remote, Sqlite, Handle, db_query, db_next, col_text, query_as, next_as, text_as, rows_of,
}
use vader_langue.Db.Objects.{
  Library, Objects, Pointer, State, query_at, query_done, next_at, next_done, text_at,
}

pub lt→leb : (a b : ℕ) → a < b → leb b a ≡ false
lt→leb a b h = ground arith

pub get_or-middle :
    {A : Type 0} (before rows : List A) (row d : A)
    → get_or (before ++ row ∷ rows) (length before) d ≡ row
get_or-middle [] rows row d = refl
get_or-middle (x ∷ before) rows row d = get_or-middle before rows row d

pub get_or-map :
    {A B : Type 0} (f : A → B) (xs : List A) (i : ℕ) (d : A)
    → get_or (map f xs) i (f d) ≡ f (get_or xs i d)
get_or-map f [] i d = refl
get_or-map f (x ∷ xs) zero d = refl
get_or-map f (x ∷ xs) (suc i) d = get_or-map f xs i d

-- A result of the driver gives these rows, from where it stands.
abbrev pub Walks : {A B : Type 0} → Library A B → B → List (List Bytes) → Type 0
Walks lib b [] = (lib.next (some b)).0 ≡ false
Walks {B = B} lib b (row ∷ rows) =
    (b' : B) × (lib.next (some b) ≡ (true, some b'))
    × ((col : ℕ) → col < length row → lib.text (some b') col ≡ get_or row col [])
    × Walks lib b' rows

-- So do the calls of `vader_db.c`: each `next` but the last one gives true, and then the texts
-- of the row's columns.
module _ {W C R : Type 0} (pg_driver my_driver : Remote W C R) (lite : Sqlite W C R) where
  abbrev pub Scans : Handle R → W → List (List Bytes) → Type 0
  Scans h w [] = (db_next pg_driver my_driver lite (some h) w).0 ≡ false
  Scans h w (row ∷ rows) =
      (v : W) × (db_next pg_driver my_driver lite (some h) w ≡ (true, v))
      × ((col : ℕ)
          → col < length row
          → col_text pg_driver my_driver lite (some h) (pos col) v ≡ (get_or row col [], v))
      × Scans h v rows

module _ {A B : Type 0} (lib : Library A B) where
  next_at-end :
      (o : Objects A B) (i : ℕ) (b : B)
      → get_elem? o.tables i ≡ some b
      → (lib.next (some b)).0 ≡ false
      → (next_at lib (some i) (some o)).0 ≡ false
  next_at-end o i b e h = ap (λ r. (lib.next r).0) e ∙ h

  next_at-row :
      (o : Objects A B) (i : ℕ) (b b' : B)
      → get_elem? o.tables i ≡ some b
      → lib.next (some b) ≡ (true, some b')
      → next_at lib (some i) (some o) ≡ (true, some (record o { tables = set o.tables i b' }))
  next_at-row o i b b' e h = ap (next_done lib o (some i)) (ap lib.next e ∙ h)

  query_at-rows :
      (o : Objects A B) (i : ℕ) (a a' : A) (b : B) (sql : Bytes)
      → get_elem? o.conns i ≡ some a
      → lib.query (some a) sql ≡ some (some b, some a')
      → query_at lib (some i) sql (some o) ≡ (
        some (length o.tables),
        some (record { conns = set o.conns i a'; tables = o.tables ++ b ∷ [] }),
      )
  query_at-rows o i a a' b sql e h =
      ap (query_done lib o (some i)) (ap (λ c. lib.query c sql) e ∙ h)

  -- A kind whose calls are those of the driver.
  module _ (pg_driver my_driver : Remote (State lib) Pointer Pointer)
      (lite : Sqlite (State lib) Pointer Pointer) (k : Kind)
      (asks : (p : Pointer) (sql : Bytes) (w : State lib)
        → query_as pg_driver my_driver lite k p sql w
          ≡ rows_of pg_driver my_driver lite k (query_at lib p sql w))
      (steps : (p : Pointer) (w : State lib)
        → next_as pg_driver my_driver lite k p w ≡ next_at lib p w)
      (reads : (p : Pointer) (col : ℤ) (w : State lib)
        → text_as pg_driver my_driver lite k p col w ≡ text_at lib p col w) where
    Walks-Scans :
        (rows : List (List Bytes)) (b : B) (i : ℕ) (o : Objects A B)
        → get_elem? o.tables i ≡ some b
        → Walks lib b rows
        → Scans pg_driver my_driver lite (record { kind = k; h = some i }) (some o) rows
    unfolding db_next col_text
    Walks-Scans [] b i o e h = ap (λ r. r.0) (steps (some i) (some o)) ∙ next_at-end o i b e h
    Walks-Scans (row ∷ rows) b i o e (b', n, t, h) =
        let o' = record o { tables = set o.tables i b' } in
        let e' = get_elem?-set-some o.tables i b b' e in
        (
          some o',
          steps (some i) (some o) ∙ next_at-row o i b b' e n,
          λ col l.
              reads (some i) (pos col) (some o')
              ∙ ap (λ s. (s, some o')) (ap (λ r. lib.text r col) e' ∙ t col l),
          Walks-Scans rows b' i o' e' h,
        )

    pub db_query-Scans :
        (rows : List (List Bytes)) (o : Objects A B) (i : ℕ) (a a' : A) (b : B) (sql : Bytes)
        → get_elem? o.conns i ≡ some a
        → lib.query (some a) sql ≡ some (some b, some a')
        → Walks lib b rows
        → (r : Handle Pointer) × (v : State lib) × (db_query pg_driver my_driver lite
              (some (record { kind = k; h = some i }))
              sql
              (some o)
            ≡ (some r, v))
          × Scans pg_driver my_driver lite r v rows
    unfolding db_query
    db_query-Scans rows o i a a' b sql e q h = (
      record { kind = k; h = some (length o.tables) },
      some (record { conns = set o.conns i a'; tables = o.tables ++ b ∷ [] }),
      asks (some i) sql (some o)
          ∙ ap (rows_of pg_driver my_driver lite k) (query_at-rows o i a a' b sql e q),
      Walks-Scans rows b (length o.tables) _ (get_elem?-concat o.tables b) h,
    )
