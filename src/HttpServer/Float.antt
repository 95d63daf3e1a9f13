-- ===== src/HttpServer/Float.antt =====
-- `float`, which the program does not implement, as an interface: what the source uses of it.
use semantic_search_engine.Base.{ℕ, Bool, Bytes}

pub record Float : Type 1 where
  pub Carrier : Type 0
  -- `static_cast<float>`
  pub of_nat : ℕ → Carrier
  pub plus : Carrier → Carrier → Carrier
  pub divide : Carrier → Carrier → Carrier
  -- `a > b`
  pub above : Carrier → Carrier → Bool
  -- `operator<<` into an `std::ostringstream`
  pub show : Carrier → Bytes
  -- the same under `std::fixed` and `std::setprecision(n)`
  pub fixed : ℕ → Carrier → Bytes

-- `Fmt2f`
unfoldable pub fmt2f : (float : Float) → float.Carrier → Bytes
fmt2f float v = float.fixed 4 v
