-- ===== src/Prelude/Double.antt =====
-- A double as its IEEE 754 bit pattern, below 2 ^ 64, and the comparisons of doubles that the
-- program makes. Minus zero equals zero, and a NaN equals nothing.
use Prim.Native.Nat.{ℕ, ◌-◌, ◌/◌, ◌%◌, ◌^◌, ◌+◌}
use mathlib.Core.Bool.{Bool, not, ◌&&◌, ◌||◌}
use osmpgsqlimport.Prelude.Tests.{leb, ltb, ◌==◌, if◌then◌else◌}

abbrev pub Double : Type 0
Double = ℕ

abbrev pub Point : Type 0
Point = Double × Double

unfoldable pub is_nan : Double → Bool
is_nan x = (x / 2 ^ 52) % 2 ^ 11 == 2047 && not (x % 2 ^ 52 == 0)

unfoldable pub is_zero : Double → Bool
is_zero x = x % 2 ^ 63 == 0

-- `a == b`
unfoldable pub double_eq : Double → Double → Bool
unfolding is_nan is_zero
double_eq a b = not (is_nan a) && not (is_nan b) && (a == b || (is_zero a && is_zero b))

-- A key that orders the patterns of the doubles that are no NaN as the doubles are ordered.
unfoldable pub order_key : Double → ℕ
order_key x = if ltb x (2 ^ 63) then 2 ^ 63 + x else 2 ^ 64 - x

-- `a <= b`
unfoldable pub double_le : Double → Double → Bool
unfolding is_nan order_key
double_le a b = not (is_nan a) && not (is_nan b) && leb (order_key a) (order_key b)

-- `a < b`
unfoldable pub double_lt : Double → Double → Bool
unfolding is_nan order_key
double_lt a b = not (is_nan a) && not (is_nan b) && ltb (order_key a) (order_key b)

-- `std::min(a, b)` is `b < a ? b : a`, and `std::max(a, b)` is `a < b ? b : a`.
unfoldable pub double_min : Double → Double → Double
unfolding double_lt
double_min a b = if double_lt b a then b else a

unfoldable pub double_max : Double → Double → Double
unfolding double_lt
double_max a b = if double_lt a b then b else a

-- The tests `a.first == b.first && a.second == b.second` on two points.
unfoldable pub same_point : Point → Point → Bool
unfolding double_eq
same_point p q = double_eq p.0 q.0 && double_eq p.1 q.1
