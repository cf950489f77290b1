-- ===== src/Json.antt =====
-- runtime/vader_json.c: JSON values. A value is used in one place: a child is not changed after it was
-- put into its parent.
pub mod Tree
pub mod Parse
pub mod Encode
use vader_langue.Prelude.{ℕ, ℤ, Bytes}

-- `JVal`, its fields by `type`; `b` is an int. `D` is the type of doubles.
mutual
  pub data JVal (D : Type 0) : Type 0 where
    j_null : JVal D
    j_bool : ℕ → JVal D
    j_int : ℤ → JVal D
    j_dbl : D → JVal D
    j_str : Bytes → JVal D
    j_arr : Items D → JVal D
    j_obj : Fields D → JVal D

  pub data Items (D : Type 0) : Type 0 where
    nil : Items D
    cons : JVal D → Items D → Items D

  pub data Fields (D : Type 0) : Type 0 where
    end : Fields D
    field : Bytes → JVal D → Fields D → Fields D

-- What the runtime uses of doubles: `strtod` with the number of bytes that it consumes, the conversions
-- to and from `long long`, and printing by `%g`.
pub record Doubles : Type 1 where
  pub Double : Type 0
  pub strtod : Bytes → Double × ℕ
  pub to_ll : Double → ℤ
  pub of_ll : ℤ → Double
  pub print_g : Double → Bytes
