-- ===== src/Db/Driver/Kinds.antt =====
-- runtime/vader_db.c: a handle keeps the kind of the address that it was opened with.
use vader_langue.Prelude.{
  ◌≡◌, refl, sym, Bool, true, false, Option, none, some, Bytes, ◌⊎◌, inl, inr,
}
use vader_langue.Db.{Kind, pg, mysql, sqlite, kind_of}
use vader_langue.Db.Driver.{
  Remote, Sqlite, Handle, db_open, db_query, open_as, query_as, opened, prepared,
}

-- A handle, if there is one, has this kind.
abbrev pub Has : {H : Type 0} → Kind → Option (Handle H) → Type 0
Has k none = Unit
Has k (some d) = d.kind ≡ k

module _ {W C R : Type 0} (pg_driver my_driver : Remote W C R) (lite : Sqlite W C R) where
  opened-Has : (r : (C ⊎ Option C) × W) → Has sqlite (opened pg_driver my_driver lite r).0
  opened-Has (inl c, w) = refl
  opened-Has (inr left, w) = _

  open_as-Has :
      (k : Kind) (dsn : Bytes) (w : W) → Has k (open_as pg_driver my_driver lite k dsn w).0
  open_as-Has pg dsn w = refl
  open_as-Has mysql dsn w = refl
  open_as-Has sqlite dsn w = opened-Has (lite.open_db dsn w)

  prepared-Has : (r : Bool × R × W) → Has sqlite (prepared pg_driver my_driver lite r).0
  prepared-Has (true, r, w) = refl
  prepared-Has (false, r, w) = _

  query_as-Has :
      (k : Kind) (c : C) (sql : Bytes) (w : W)
      → Has k (query_as pg_driver my_driver lite k c sql w).0
  query_as-Has pg c sql w = refl
  query_as-Has mysql c sql w = refl
  query_as-Has sqlite c sql w = prepared-Has (lite.prepare c sql w)

  query-Has :
      (k : Kind) (d : Option (Handle C)) (sql : Bytes) (w : W)
      → Has k d
      → Has k (db_query pg_driver my_driver lite d sql w).0
  unfolding db_query
  query-Has k none sql w h = _
  query-Has k (some d) sql w h = rw (sym h) (query_as-Has d.kind d.h sql w)

  -- The rows of a query on an opened connection, if there are any, are of the kind of driver that the
  -- connection's address names.
  pub db_query-Has :
      (dsn sql : Bytes) (w v : W)
      → Has
          (kind_of dsn)
          (db_query pg_driver my_driver lite (db_open pg_driver my_driver lite dsn w).0 sql v).0
  db_query-Has dsn sql w v =
      query-Has (kind_of dsn) (db_open pg_driver my_driver lite dsn w).0 sql v
        (unfold db_open in open_as-Has (kind_of dsn) dsn w)
