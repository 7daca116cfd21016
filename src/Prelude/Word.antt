-- ===== src/Prelude/Word.antt =====
-- Machine words as their bit patterns. An int64_t is its two's complement pattern, below 2 ^ 64, so
-- a cast between int64_t and size_t or uint64_t is the identity.
use Prim.Native.Nat.{ℕ, zero, suc, ◌+◌, ◌-◌, ◌*◌, ◌/◌, ◌%◌, ◌^◌, ◌<◌}
use mathlib.Core.Path.{◌≡◌, refl, ap}
use mathlib.Core.List.{List, [], ◌∷◌}
use native.Mathlib.Nat.{pow-zero, pow-suc, div-add-mod}
use osmpgsqlimport.Prelude.Lists.{length}
use mathlib.Core.Bool.{Bool}
use native.Mathlib.Omega.{arith}
use osmpgsqlimport.Prelude.Tests.{leb}

abbrev pub w32 : ℕ
w32 = 2 ^ 32

abbrev pub w64 : ℕ
w64 = 2 ^ 64

-- `x < 0` of an int64_t.
abbrev pub is_neg : ℕ → Bool
is_neg x = leb (2 ^ 63) x

-- `a + b` and `-a` of int64_t, on the patterns.
unfoldable pub add64 : ℕ → ℕ → ℕ
add64 a b = (a + b) % 2 ^ 64

unfoldable pub neg64 : ℕ → ℕ
neg64 a = (2 ^ 64 - a) % 2 ^ 64

unfoldable pub sub64 : ℕ → ℕ → ℕ
sub64 a b = (a + 2 ^ 64 - b) % 2 ^ 64

pub sub64-add64 : (a b : ℕ) → a < 2 ^ 64 → b < 2 ^ 64 → add64 b (sub64 a b) ≡ a
unfolding add64 sub64
sub64-add64 a b ha hb = omega arith

pub neg64-neg64 : (a : ℕ) → a < 2 ^ 64 → neg64 (neg64 a) ≡ a
unfolding neg64
neg64-neg64 a h = omega arith

pub add64-lt : (a b : ℕ) → add64 a b < 2 ^ 64
unfolding add64
add64-lt a b = omega arith

-- `memcpy` of the low bytes of a word, on a little-endian machine.
unfoldable pub le_bytes : ℕ → ℕ → List ℕ
le_bytes zero v = []
le_bytes (suc n) v = (v % 256) ∷ le_bytes n (v / 256)

-- `memcpy` back into a word.
unfoldable pub from_le : List ℕ → ℕ
from_le [] = 0
from_le (b ∷ bs) = b + 256 * from_le bs

pub length-le_bytes : (n v : ℕ) → length (le_bytes n v) ≡ n
unfolding le_bytes
length-le_bytes zero v = refl
length-le_bytes (suc n) v = ap suc (length-le_bytes n (v / 256))

pub from_le-le_bytes : (n v : ℕ) → v < 256 ^ n → from_le (le_bytes n v) ≡ v
unfolding le_bytes from_le
from_le-le_bytes zero v h = omega (arith, pow-zero 256)
from_le-le_bytes (suc n) v h =
    omega (arith, from_le-le_bytes n (v / 256) (omega (arith, pow-suc 256 n)), div-add-mod v 256)
