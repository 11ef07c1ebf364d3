-- ===== src/Kprintf/Tests.antt =====
-- A format of the kernel, and the theorems on the formatter at it.
use acorn_os.Kprintf.{
  int_to_dec, last_digits, uint_to_dec, reversed, carriage, done, overflow, past_format, kvsnprintf,
  kprintf, kserial_printf,
}
use acorn_os.Kprintf.Pieces.{
  Piece, literal, percent_sign, signed, string, are_pieces, format_of, args_of, text_of,
}
use acorn_os.Kprintf.Cut.{passes}
use acorn_os.Kprintf.Digits.{IsDecimal, int_to_dec_lem}
use acorn_os.Kprintf.Format.{Holds, kvsnprintf_lem, kvsnprintf-overflow, kvsnprintf-past_format}
use acorn_os.Kprintf.Print.{upto_zero, kprintf_lem}
use acorn_os.Common.{
  ℕ, ◌-◌, ◌^◌, ◌≤◌, ◌<◌, ◌≡◌, refl, true, false, List, [], ◌∷◌, ◌++◌, arith, ◌==◌, if◌then◌else◌,
  length, take,
}

abbrev strings : ℕ → List ℕ
strings a = if a == 7 then 104 ∷ 105 ∷ [] else []

-- "A%d%s%%", of -5 and "hi"
abbrev pieces : List Piece
pieces = literal 65 ∷ signed (2 ^ 32 - 5) ∷ string 7 ∷ percent_sign ∷ []

-- "A%d%%", of -5: the text has one character more than a buffer of 4 bytes holds.
abbrev counted_pieces : List Piece
counted_pieces = literal 65 ∷ signed (2 ^ 32 - 5) ∷ percent_sign ∷ []

abbrev empty : ℕ → ℕ
empty i = 0

abbrev none_left : List ℕ
none_left = []

abbrev least : ℕ
least = 2 ^ 31

int_to_dec_lem_example :
    (least < 2 ^ 31 → IsDecimal (int_to_dec least) least)
    × (2 ^ 31 ≤ least
        → (text : List ℕ) × (int_to_dec least ≡ 45 ∷ text) × IsDecimal text (2 ^ 32 - least))
    × (length (int_to_dec least) ≤ 11)
int_to_dec_lem_example = int_to_dec_lem least (omega arith)

counted_pieces-passes : passes strings 4 0 counted_pieces ≡ true
unfolding passes int_to_dec uint_to_dec last_digits reversed
counted_pieces-passes = refl

pieces_stuck : passes strings 4 0 pieces ≡ false
unfolding passes int_to_dec uint_to_dec last_digits reversed
pieces_stuck = refl

kvsnprintf_lem_example :
    (after : ℕ → ℕ) × (kvsnprintf strings empty 4
        (format_of counted_pieces)
        (args_of counted_pieces ++ none_left)
      ≡ done (after, length (text_of strings counted_pieces)))
    × Holds 4 (text_of strings counted_pieces) empty after
unfolding are_pieces passes text_of int_to_dec uint_to_dec last_digits reversed
kvsnprintf_lem_example =
    kvsnprintf_lem strings empty 4 counted_pieces none_left refl (omega arith) (omega arith)
      counted_pieces-passes

kvsnprintf-past_format_example :
    (kvsnprintf strings empty 4
        (format_of counted_pieces ++ 37 ∷ [])
        (args_of counted_pieces ++ none_left)
      ≡ past_format)
    × (kvsnprintf strings empty 4
          (format_of counted_pieces ++ 37 ∷ 108 ∷ [])
          (args_of counted_pieces ++ none_left)
        ≡ past_format)
unfolding are_pieces passes text_of int_to_dec uint_to_dec last_digits reversed
kvsnprintf-past_format_example =
    kvsnprintf-past_format strings empty 4 counted_pieces none_left refl (omega arith) (omega arith)
      counted_pieces-passes

kvsnprintf-overflow_example :
    kvsnprintf strings empty 4 (format_of pieces) (args_of pieces ++ none_left) ≡ overflow
unfolding are_pieces passes text_of int_to_dec uint_to_dec last_digits reversed
kvsnprintf-overflow_example =
    kvsnprintf-overflow strings empty 4 pieces none_left refl (omega arith) pieces_stuck

kprintf_lem_example :
    (kprintf strings empty (format_of pieces) (args_of pieces ++ none_left)
      ≡ done (upto_zero (take 1023 (text_of strings pieces))))
    × (kserial_printf strings empty (format_of pieces) (args_of pieces ++ none_left)
        ≡ done (carriage (upto_zero (take 1023 (text_of strings pieces)))))
unfolding are_pieces passes text_of int_to_dec uint_to_dec last_digits reversed
kprintf_lem_example = kprintf_lem strings empty pieces none_left refl (omega arith) refl
