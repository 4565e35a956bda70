-- ===== src/Double.antt =====
-- C++ `double`, as far as the order book uses it: the comparison and the conversions. The type and
-- its operations are parameters; so is what the theorems rely on. The conversion to uint32_t is
-- undefined for a value that is negative or too large: `in_range` says which ones are not, and the
-- code that converts another one has no result.
use system_k_dev.Base.{ℕ, ◌^◌, ◌<◌, ◌≡◌, Bool, true, ltb}
use system_k_dev.Base.Int.{ℤ}

pub record DoubleOps (F : Type 0) : Type 0 where
  -- operator<
  pub lt : F → F → Bool
  -- the conversions to uint32_t, where it is defined, from int32_t and from uint32_t
  pub in_range : F → Bool
  pub to_u32 : F → ℕ
  pub of_int : ℤ → F
  pub of_u32 : ℕ → F

-- The doubles in use have no NaN among them: they compare as some ranks do. A conversion to
-- uint32_t that is defined yields a value of that type.
pub record DoubleLaws {F : Type 0} (d : DoubleOps F) : Type 0 where
  pub rank : F → ℕ
  pub lt_rank : (x y : F) → d.lt x y ≡ ltb (rank x) (rank y)
  pub to_u32_lt : (x : F) → d.in_range x ≡ true → d.to_u32 x < 2 ^ 32
