-- ===== src/Pmm/Bits.antt =====
-- The bitmap of kernel/memory/pmm.c: setting, clearing and testing a page's bit.
use Prim.Native.Nat.{bit_and, bit_or}
use acorn_os.Common.{
  ℕ, ◌-◌, ◌/◌, ◌%◌, ◌^◌, ◌<◌, ◌≡◌, refl, Bool, true, false, not, ◌&&◌, arith, ◌==◌, ltb,
  if◌then◌else◌, every, every_at, ltb→lt,
}
use acorn_os.Pmm.{Pmm, bitmap_set, bitmap_clear, bitmap_test}

abbrev bool_eq : Bool → Bool → Bool
bool_eq true b = b
bool_eq false b = not b

bool_eq_sound : (a b : Bool) → bool_eq a b ≡ true → a ≡ b
bool_eq_sound a b h = ground arith

and_parts : (a b : Bool) → (a && b) ≡ true → (a ≡ true) × (b ≡ true)
and_parts a b h = ground arith

-- Bit `j` of a byte after bit `k` was set, as `bitmap_test` reads it.
abbrev set_ok : ℕ → ℕ → ℕ → Bool
set_ok b k j =
    bool_eq (bit_and (bit_or b (2 ^ k)) (2 ^ j) == 0)
      (if k == j then false else bit_and b (2 ^ j) == 0)
    && ltb (bit_or b (2 ^ k)) 256

abbrev clear_ok : ℕ → ℕ → ℕ → Bool
clear_ok b k j =
    bool_eq (bit_and (bit_and b (255 - 2 ^ k)) (2 ^ j) == 0)
      (if k == j then true else bit_and b (2 ^ j) == 0)
    && ltb (bit_and b (255 - 2 ^ k)) 256

abbrev set_row : ℕ → ℕ → Bool
set_row b k = every (set_ok b k) 8

abbrev set_byte : ℕ → Bool
set_byte b = every (set_row b) 8

set_table : every set_byte 256 ≡ true
unfolding every
set_table = refl

abbrev clear_row : ℕ → ℕ → Bool
clear_row b k = every (clear_ok b k) 8

abbrev clear_byte : ℕ → Bool
clear_byte b = every (clear_row b) 8

clear_table : every clear_byte 256 ≡ true
unfolding every
clear_table = refl

set_at : (b k j : ℕ) → b < 256 → k < 8 → j < 8 → set_ok b k j ≡ true
set_at b k j hb hk hj =
    every_at (set_ok b k) 8 j hj
      (every_at (set_row b) 8 k hk (every_at set_byte 256 b hb set_table))

clear_at : (b k j : ℕ) → b < 256 → k < 8 → j < 8 → clear_ok b k j ≡ true
clear_at b k j hb hk hj =
    every_at (clear_ok b k) 8 j hj
      (every_at (clear_row b) 8 k hk (every_at clear_byte 256 b hb clear_table))

bits_set :
    (b k j : ℕ)
    → b < 256
    → k < 8
    → j < 8
    → ((bit_and (bit_or b (2 ^ k)) (2 ^ j) == 0)
        ≡ (if k == j then false else bit_and b (2 ^ j) == 0))
      × (bit_or b (2 ^ k) < 256)
bits_set b k j hb hk hj = (bool_eq_sound _ _ (and_parts _ _ e).0, ltb→lt _ _ (and_parts _ _ e).1)
  where
    e : set_ok b k j ≡ true
    e = set_at b k j hb hk hj

bits_clear :
    (b k j : ℕ)
    → b < 256
    → k < 8
    → j < 8
    → ((bit_and (bit_and b (255 - 2 ^ k)) (2 ^ j) == 0)
        ≡ (if k == j then true else bit_and b (2 ^ j) == 0))
      × (bit_and b (255 - 2 ^ k) < 256)
bits_clear b k j hb hk hj = (bool_eq_sound _ _ (and_parts _ _ e).0, ltb→lt _ _ (and_parts _ _ e).1)
  where
    e : clear_ok b k j ≡ true
    e = clear_at b k j hb hk hj

-- Every cell of the bitmap is a byte.
abbrev pub HasBytes : Pmm → Type 0
HasBytes m = (i : ℕ) → m.bitmap i < 256

-- Marking a page as used changes what `bitmap_test` says of that page, and of no other.
pub bitmap_test-set :
    (m : Pmm) (p q : ℕ)
    → HasBytes m
    → bitmap_test (bitmap_set m p) q ≡ (if p == q then false else bitmap_test m q)
unfolding bitmap_test bitmap_set
bitmap_test-set m p q h =
    ground
      (arith, bits_set (m.bitmap (p / 8)) (p % 8) (q % 8) (h (p / 8)) (omega arith) (omega arith))

pub bitmap_test-clear :
    (m : Pmm) (p q : ℕ)
    → HasBytes m
    → bitmap_test (bitmap_clear m p) q ≡ (if p == q then true else bitmap_test m q)
unfolding bitmap_test bitmap_clear
bitmap_test-clear m p q h =
    ground
      (arith, bits_clear (m.bitmap (p / 8)) (p % 8) (q % 8) (h (p / 8)) (omega arith) (omega arith))

pub bitmap_set-HasBytes : (m : Pmm) (p : ℕ) → HasBytes m → HasBytes (bitmap_set m p)
unfolding bitmap_set
bitmap_set-HasBytes m p h i =
    ground
      (arith, h i, bits_set (m.bitmap (p / 8)) (p % 8) 0 (h (p / 8)) (omega arith) (omega arith))

pub bitmap_clear-HasBytes : (m : Pmm) (p : ℕ) → HasBytes m → HasBytes (bitmap_clear m p)
unfolding bitmap_clear
bitmap_clear-HasBytes m p h i =
    ground
      (arith, h i, bits_clear (m.bitmap (p / 8)) (p % 8) 0 (h (p / 8)) (omega arith) (omega arith))
