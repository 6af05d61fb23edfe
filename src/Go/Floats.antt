-- ===== src/Go/Floats.antt =====
-- The operations of float64 that the code uses, with the texts that packages fmt and strconv give
-- them: their arithmetic is the machine's.
use chaosblade_exec_os.Prelude.{String, Bool}
use chaosblade_exec_os.Go.Strconv.{ℤ}

pub record Floats : Type 1 where
  pub Float : Type 0
  -- float64(n)
  pub of_int : ℤ → Float
  pub plus : Float → Float → Float
  pub minus : Float → Float → Float
  pub times : Float → Float → Float
  pub divided_by : Float → Float → Float
  -- a < b, a <= b
  pub less : Float → Float → Bool
  pub at_most : Float → Float → Bool
  -- math.Floor, int64(x)
  pub floor : Float → Float
  pub to_int64 : Float → ℤ
  -- %.2f and %.f, strconv.ParseFloat with bit size 64: the value, and whether there is no error
  pub two_decimals : Float → String
  pub no_decimals : Float → String
  pub parse_float : String → Float × Bool
