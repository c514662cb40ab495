-- ===== src/Model/Values.antt =====
-- The values that attributes and payloads hold.
use cross_format_documment.Base.{ℕ, String, Bool, true, false, not, ◌==◌, eqb}
use cross_format_documment.Base.Int.{ℤ, pos, negsuc}

-- A value that the code passes on and never reads (a float, a list, a box) is `opaque`: whether
-- Python holds it for true, and a number that tells it from others.
pub data Value : Type 0 where
  null : Value
  flag : Bool → Value
  int : ℤ → Value
  str : String → Value
  opaque : Bool → ℕ → Value

-- Python's truth of a value.
unfoldable pub truthy : Value → Bool
truthy null = false
truthy (flag b) = b
truthy (int (pos n)) = not (eqb n 0)
truthy (int (negsuc n)) = true
truthy (str s) = not (s == "")
truthy (opaque b k) = b
