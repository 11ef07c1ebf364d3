-- ===== src/Strings.antt =====
-- include/kernel/core/string.h: the kernel's string helpers.
-- A C string is a list of bytes. It ends at its first 0, or at the end of the list.
mod Tests
pub mod Copy
pub mod Compare
use acorn_os.Common.{
  ℕ, suc, ◌+◌, ◌-◌, Bool, true, false, List, [], ◌∷◌, ◌||◌, not, ltb, ◌==◌, if◌then◌else◌, set,
}
use acorn_os.Common.Int.{ℤ, pos, negsuc, ◌-ℤ◌, signed8}

-- The text that a buffer holds: its bytes before the first 0.
abbrev pub c_string : List ℕ → List ℕ
c_string [] = []
c_string (c ∷ cs) = if c == 0 then [] else c ∷ c_string cs

-- The loop of `kstrcpy`, at index `i`.
pub kstrcpy_from : List ℕ → List ℕ → ℕ → ℕ → List ℕ
kstrcpy_from dst [] max i = set dst i 0
kstrcpy_from dst (c ∷ cs) max i =
    let rest = kstrcpy_from (set dst i c) cs max (i + 1) in
    if c == 0 then set dst i 0 else if ltb i (max - 1) then rest else set dst i 0

unfoldable pub kstrcpy : List ℕ → List ℕ → ℕ → List ℕ
unfolding kstrcpy_from
kstrcpy dst src max = kstrcpy_from dst src max 0

-- `*a - *b`, the bytes read as signed `char`
unfoldable pub char_diff : ℕ → ℕ → ℤ
unfolding ◌-ℤ◌
char_diff a b = signed8 a -ℤ signed8 b

unfoldable pub kstrcmp : List ℕ → List ℕ → ℤ
unfolding char_diff
kstrcmp [] [] = char_diff 0 0
kstrcmp [] (b ∷ bs) = char_diff 0 b
kstrcmp (a ∷ as') [] = char_diff a 0
kstrcmp (a ∷ as') (b ∷ bs) =
    let rest = kstrcmp as' bs in
    if a == 0 || b == 0 then char_diff a b else if a == b then rest else char_diff a b

abbrev pub is_zero : ℤ → Bool
is_zero (pos n) = n == 0
is_zero (negsuc n) = false

unfoldable pub kstreq : List ℕ → List ℕ → Bool
unfolding kstrcmp
kstreq a b = is_zero (kstrcmp a b)

unfoldable pub kstrlen : List ℕ → ℕ
kstrlen [] = 0
kstrlen (c ∷ cs) = if c == 0 then 0 else suc (kstrlen cs)
