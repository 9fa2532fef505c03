-- ===== src/Core/Json/Numbers.antt =====
-- Python's comparison of `int` and `float` values, which is exact.
use foliqant.Prelude.{ℕ, ◌^◌, Bool, true, false, not}
use foliqant.Prelude.Int.{ℤ, scaled_ltb, scaled_leb, scaled_eq}
use foliqant.Core.Json.Values.{Float, finite, infinity}

-- units of a finite float in 1
unfoldable pub scale : ℕ
scale = 2 ^ 1074

pub data Number : Type 0 where
  whole : ℤ → Number
  real : Float → Number

-- `left == right`
unfoldable pub number_eq : Number → Number → Bool
number_eq (Number.whole a) (Number.whole b) = scaled_eq 1 a 1 b
number_eq (Number.whole a) (Number.real (finite b)) = scaled_eq scale a 1 b
number_eq (Number.real (finite a)) (Number.whole b) = scaled_eq 1 a scale b
number_eq (Number.real (finite a)) (Number.real (finite b)) = scaled_eq 1 a 1 b
number_eq (Number.real (infinity true)) (Number.real (infinity true)) = true
number_eq (Number.real (infinity false)) (Number.real (infinity false)) = true
number_eq _ _ = false

-- `left < right`; `infinity true` is the negative one
unfoldable pub number_lt : Number → Number → Bool
number_lt (Number.whole a) (Number.whole b) = scaled_ltb 1 a 1 b
number_lt (Number.whole a) (Number.real (finite b)) = scaled_ltb scale a 1 b
number_lt (Number.whole _) (Number.real (infinity negative)) = not negative
number_lt (Number.real (finite a)) (Number.whole b) = scaled_ltb 1 a scale b
number_lt (Number.real (finite a)) (Number.real (finite b)) = scaled_ltb 1 a 1 b
number_lt (Number.real (finite _)) (Number.real (infinity negative)) = not negative
number_lt (Number.real (infinity negative)) (Number.whole _) = negative
number_lt (Number.real (infinity negative)) (Number.real (finite _)) = negative
number_lt (Number.real (infinity true)) (Number.real (infinity false)) = true
number_lt _ _ = false

-- `left <= right`
unfoldable pub number_le : Number → Number → Bool
number_le (Number.whole a) (Number.whole b) = scaled_leb 1 a 1 b
number_le (Number.whole a) (Number.real (finite b)) = scaled_leb scale a 1 b
number_le (Number.whole _) (Number.real (infinity negative)) = not negative
number_le (Number.real (finite a)) (Number.whole b) = scaled_leb 1 a scale b
number_le (Number.real (finite a)) (Number.real (finite b)) = scaled_leb 1 a 1 b
number_le (Number.real (finite _)) (Number.real (infinity negative)) = not negative
number_le (Number.real (infinity negative)) (Number.whole _) = negative
number_le (Number.real (infinity negative)) (Number.real (finite _)) = negative
number_le (Number.real (infinity true)) (Number.real (infinity _)) = true
number_le (Number.real (infinity false)) (Number.real (infinity false)) = true
number_le _ _ = false
