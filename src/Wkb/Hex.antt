-- ===== src/Wkb/Hex.antt =====
-- Hexadecimal text: `toHex` of src/OSMReader.cpp and src/main.cpp, and `fromHex` of `mergeWayGeoms`.
use osmpgsqlimport.Prelude.{
  ℕ, ◌-◌, ◌+◌, ◌*◌, ◌/◌, ◌%◌, bit_or, ◌≡◌, refl, ap₂, true, ◌&&◌, [], ◌∷◌, leb, ◌==◌, if◌then◌else◌,
  get_or, all_below, all_below_sound, ==_iff, Bytes, codes,
}
use osmpgsqlimport.Store.Bitmap.{AllBytes}

-- `static const char hex[]`
abbrev pub hex_digits : Bytes
hex_digits = codes "0123456789ABCDEF"

unfoldable pub to_hex : Bytes → Bytes
to_hex [] = []
to_hex (b ∷ bs) = get_or hex_digits (b / 16) 0 ∷ get_or hex_digits (b % 16) 0 ∷ to_hex bs

-- The lambda `n`: any other character counts as 0.
unfoldable pub nibble : ℕ → ℕ
nibble c =
    if leb b'0' c && leb c b'9'
    then c - b'0'
    else if leb b'A' c && leb c b'F'
    then c - b'A' + 10
    else if leb b'a' c && leb c b'f'
    then c - b'a' + 10
    else 0

-- `(n(hi) << 4) | n(lo)`, as a byte.
unfoldable pub hex_byte : ℕ → ℕ → ℕ
unfolding nibble
hex_byte hi lo = bit_or (nibble hi * 16) (nibble lo) % 256

-- An odd character at the end is dropped.
unfoldable pub from_hex : Bytes → Bytes
unfolding hex_byte
from_hex [] = []
from_hex (a ∷ []) = []
from_hex (a ∷ b ∷ cs) = hex_byte a b ∷ from_hex cs

hex_table :
    all_below 256 (λ b. hex_byte (get_or hex_digits (b / 16) 0) (get_or hex_digits (b % 16) 0) == b)
    ≡ true
unfolding all_below hex_byte
hex_table = refl

-- Decoding the text of any bytes gives the bytes back.
pub from_hex-to_hex : (bs : Bytes) → AllBytes bs → from_hex (to_hex bs) ≡ bs
unfolding from_hex to_hex
from_hex-to_hex [] h = refl
from_hex-to_hex (b ∷ bs) h =
    ap₂ ◌∷◌ ((==_iff _ b).0 (all_below_sound 256 _ b hex_table h.0)) (from_hex-to_hex bs h.1)
