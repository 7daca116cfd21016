-- ===== src/Wkb.antt =====
-- The EWKB writers that src/main.cpp and src/OSMReader.cpp share, and their hexadecimal text.
pub mod Hex
pub mod Decode
pub mod Way
pub mod Lines
use osmpgsqlimport.Prelude.{ℕ, ◌/◌, ◌%◌, ◌^◌, ◌*◌, List, [], ◌∷◌, ◌++◌, length, Bytes, zero, suc}
use osmpgsqlimport.Prelude.Word.{le_bytes}
use osmpgsqlimport.Prelude.Double.{Double, Point}

-- The bytes that `writeUint32`, `wu32` and `writeLE32` push.
unfoldable pub u32_bytes : ℕ → Bytes
u32_bytes v = (v % 256) ∷ (v / 2 ^ 8 % 256) ∷ (v / 2 ^ 16 % 256) ∷ (v / 2 ^ 24 % 256) ∷ []

unfoldable pub write_uint32 : Bytes → ℕ → Bytes
write_uint32 buf v = buf ++ u32_bytes v

-- `writeDouble`: eight bytes copied from memory, low byte first.
unfoldable pub write_double : Bytes → Double → Bytes
write_double buf v = buf ++ le_bytes 8 v

-- `for (auto& [x, y] : coords) { wd(buf, x); wd(buf, y); }`
unfoldable pub write_points : Bytes → List Point → Bytes
write_points buf [] = buf
write_points buf ((x, y) ∷ ps) = write_points (write_double (write_double buf x) y) ps

-- `static_cast<uint32_t>(v.size())`
abbrev pub size32 {ℓ} : {A : Type ℓ} → List A → ℕ
size32 xs = length xs % 2 ^ 32
