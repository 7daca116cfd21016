-- ===== src/Store/Bitmap.antt =====
-- The bitmap helpers of src/OSMMMap.cpp. A mapped bitmap is the list of its bytes, so `bm_size` is
-- its length, and an id is the pattern of an int64_t.
use osmpgsqlimport.Prelude.{
  replicate, ℕ, zero, suc, ◌-◌, ◌/◌, ◌%◌, ◌^◌, ◌≤◌, ◌<◌, bit_and, bit_or, ◌≡◌, refl, sym, Bool,
  true, false, ◌&&◌, [], ◌∷◌, arith, ltb, leb, ◌==◌, if◌then◌else◌, length, get_or, set, length-set,
  all_below, all_below_sound, Bytes,
}

-- `static_cast<uint8_t*>(bm)[byte] |= (1u << (id % 8))`
unfoldable pub set_bit : ℕ → ℕ → ℕ
set_bit b k = bit_or b (2 ^ k)

-- `&= ~(1u << (id % 8))`, on a byte
unfoldable pub clear_bit : ℕ → ℕ → ℕ
clear_bit b k = bit_and b (255 - 2 ^ k)

unfoldable pub test_bit : ℕ → ℕ → Bool
test_bit b k = (b / 2 ^ k) % 2 == 1

unfoldable pub bitmap_set : Bytes → ℕ → Bytes
bitmap_set bm id =
    let byte = id / 8 in
    if leb (length bm) byte then bm else set bm byte (set_bit (get_or bm byte 0) (id % 8))

unfoldable pub bitmap_get : Bytes → ℕ → Bool
bitmap_get bm id =
    let byte = id / 8 in
    if leb (length bm) byte then false else test_bit (get_or bm byte 0) (id % 8)

-- The end of `OSMMMap::remove`.
unfoldable pub bitmap_clear : Bytes → ℕ → Bytes
bitmap_clear bm id =
    let byte = id / 8 in
    if ltb byte (length bm) then set bm byte (clear_bit (get_or bm byte 0) (id % 8)) else bm

-- Every byte of a bitmap is a byte.
abbrev pub AllBytes : Bytes → Type 0
AllBytes [] = Unit {0}
AllBytes (b ∷ bs) = (b < 256) × AllBytes bs

same : Bool → Bool → Bool
same true b = b
same false b = if b then false else true

same→eq : (a b : Bool) → same a b ≡ true → a ≡ b
unfolding same
same→eq true b h = sym h
same→eq false true h = h
same→eq false false h = refl

-- What one test sees of one update, over all bytes and all pairs of bits.
bit_row : ℕ → ℕ → ℕ → Bool
unfolding set_bit clear_bit test_bit same
bit_row b k j =
    same (test_bit (set_bit b k) j) (if k == j then true else test_bit b j)
    && same (test_bit (clear_bit b k) j) (if k == j then false else test_bit b j)
    && ltb (set_bit b k) 256
    && ltb (clear_bit b k) 256

bit_table : all_below 256 (λ b. all_below 8 (λ k. all_below 8 (bit_row b k))) ≡ true
unfolding all_below bit_row
bit_table = refl

bit_row-true : (b k j : ℕ) → b < 256 → k < 8 → j < 8 → bit_row b k j ≡ true
bit_row-true b k j hb hk hj =
    all_below_sound 8 _ j
      (all_below_sound 8 (λ k. all_below 8 (bit_row b k)) k (all_below_sound 256 _ b bit_table hb)
        hk)
      hj

test_bit-set_bit :
    (b k j : ℕ)
    → b < 256
    → k < 8
    → j < 8
    → (test_bit (set_bit b k) j ≡ (if k == j then true else test_bit b j))
      × (test_bit (clear_bit b k) j ≡ (if k == j then false else test_bit b j))
      × (set_bit b k < 256)
      × (clear_bit b k < 256)
unfolding bit_row
test_bit-set_bit b k j hb hk hj = ground (
  arith,
  bit_row-true b k j hb hk hj,
  same→eq (test_bit (set_bit b k) j) (if k == j then true else test_bit b j),
  same→eq (test_bit (clear_bit b k) j) (if k == j then false else test_bit b j),
)

get_or-lt : (bm : Bytes) (i : ℕ) → AllBytes bm → get_or bm i 0 < 256
get_or-lt [] i h = omega arith
get_or-lt (b ∷ bs) zero h = h.0
get_or-lt (b ∷ bs) (suc i) h = get_or-lt bs i h.1

set-AllBytes : (bm : Bytes) (i v : ℕ) → AllBytes bm → v < 256 → AllBytes (set bm i v)
set-AllBytes [] i v h k = tt
set-AllBytes (b ∷ bs) zero v h k = (k, h.1)
set-AllBytes (b ∷ bs) (suc i) v h k = (h.0, set-AllBytes bs i v h.1 k)

get_or-set :
    (bm : Bytes) (i j v : ℕ)
    → i < length bm
    → get_or (set bm i v) j 0 ≡ (if i == j then v else get_or bm j 0)
get_or-set [] i j v h = elim h [ ]
get_or-set (b ∷ bs) zero zero v h = refl
get_or-set (b ∷ bs) zero (suc j) v h = ground arith
get_or-set (b ∷ bs) (suc i) zero v h = ground arith
get_or-set (b ∷ bs) (suc i) (suc j) v h = ground (arith, get_or-set bs i j v)

pub length-bitmap_set : (bm : Bytes) (id : ℕ) → length (bitmap_set bm id) ≡ length bm
unfolding bitmap_set
length-bitmap_set bm id =
    ground (arith, length-set bm (id / 8) (set_bit (get_or bm (id / 8) 0) (id % 8)))

pub length-bitmap_clear : (bm : Bytes) (id : ℕ) → length (bitmap_clear bm id) ≡ length bm
unfolding bitmap_clear
length-bitmap_clear bm id =
    ground (arith, length-set bm (id / 8) (clear_bit (get_or bm (id / 8) 0) (id % 8)))

-- Setting one bit sets it and leaves every other bit as it was, whatever byte they stand in.
pub bitmap_get-set :
    (bm : Bytes) (i j : ℕ)
    → AllBytes bm
    → i / 8 < length bm
    → bitmap_get (bitmap_set bm i) j ≡ (if i == j then true else bitmap_get bm j)
unfolding bitmap_get bitmap_set
bitmap_get-set bm i j h lt = ground (
  arith,
  get_or-lt bm (i / 8) h,
  length-set bm (i / 8) (set_bit (get_or bm (i / 8) 0) (i % 8)),
  get_or-set bm (i / 8) (j / 8) (set_bit (get_or bm (i / 8) 0) (i % 8)) lt,
  test_bit-set_bit (get_or bm (i / 8) 0) (i % 8) (j % 8),
)

pub bitmap_get-clear :
    (bm : Bytes) (i j : ℕ)
    → AllBytes bm
    → i / 8 < length bm
    → bitmap_get (bitmap_clear bm i) j ≡ (if i == j then false else bitmap_get bm j)
unfolding bitmap_get bitmap_clear
bitmap_get-clear bm i j h lt = ground (
  arith,
  get_or-lt bm (i / 8) h,
  length-set bm (i / 8) (clear_bit (get_or bm (i / 8) 0) (i % 8)),
  get_or-set bm (i / 8) (j / 8) (clear_bit (get_or bm (i / 8) 0) (i % 8)) lt,
  test_bit-set_bit (get_or bm (i / 8) 0) (i % 8) (j % 8),
)

pub bitmap_set-AllBytes : (bm : Bytes) (i : ℕ) → AllBytes bm → AllBytes (bitmap_set bm i)
unfolding bitmap_set
bitmap_set-AllBytes bm i h = ground (
  arith,
  get_or-lt bm (i / 8) h,
  test_bit-set_bit (get_or bm (i / 8) 0) (i % 8) 0,
  set-AllBytes bm (i / 8) (set_bit (get_or bm (i / 8) 0) (i % 8)) h,
)

pub bitmap_clear-AllBytes : (bm : Bytes) (i : ℕ) → AllBytes bm → AllBytes (bitmap_clear bm i)
unfolding bitmap_clear
bitmap_clear-AllBytes bm i h = ground (
  arith,
  get_or-lt bm (i / 8) h,
  test_bit-set_bit (get_or bm (i / 8) 0) (i % 8) 0,
  set-AllBytes bm (i / 8) (clear_bit (get_or bm (i / 8) 0) (i % 8)) h,
)

-- A bit outside the bitmap is never set.
pub bitmap_get_outside : (bm : Bytes) (i : ℕ) → length bm ≤ i / 8 → bitmap_get bm i ≡ false
unfolding bitmap_get
bitmap_get_outside bm i h = ground arith

get_or-replicate : (n i : ℕ) → get_or {A = ℕ} (replicate n 0) i 0 ≡ 0
get_or-replicate zero i = refl
get_or-replicate (suc n) zero = refl
get_or-replicate (suc n) (suc i) = get_or-replicate n i

zero_bits : all_below 8 (λ k. same (test_bit 0 k) false) ≡ true
unfolding all_below test_bit same
zero_bits = refl

pub bitmap_get_blank : (n i : ℕ) → bitmap_get (replicate n 0) i ≡ false
unfolding bitmap_get
bitmap_get_blank n i = ground (
  arith,
  get_or-replicate n (i / 8),
  same→eq (test_bit 0 (i % 8)) false (all_below_sound 8 _ (i % 8) zero_bits (omega arith)),
)
