-- ===== src/Floats.antt =====
-- What the program uses of Go's float64, with the functions of `math` and `strconv` on it. No law is
-- assumed of it.
pub mod Naturals
use new_yokosuka_server.Base.{Bool, String, Option}
use new_yokosuka_server.Base.Int.{ℤ}

pub record Floats : Type 1 where
  pub Float : Type 0
  pub zero_float : Float
  pub is_nan : Float → Bool
  pub is_inf : Float → Bool
  pub le_float : Float → Float → Bool
  pub lt_float : Float → Float → Bool
  pub eq_float : Float → Float → Bool
  pub add_float : Float → Float → Float
  pub sub_float : Float → Float → Float
  pub mul_float : Float → Float → Float
  pub trunc : Float → Float
  -- strconv.ParseFloat, `none` for an error, and strconv.FormatFloat.
  pub parse_float : String → Option Float
  pub format_float : Float → String
  -- The conversions from and to int64.
  pub of_int : ℤ → Float
  pub to_int : Float → ℤ
