-- ===== src/Kprintf/Pieces.antt =====
-- Formats of kernel/core/kprintf.c as their pieces, and what the loop of `kvsnprintf` does with one.
use acorn_os.Kprintf.{
  uint_to_dec, uint64_to_dec, int_to_dec, int64_to_dec, uint_to_hex, uint64_to_hex, null_text, Out,
  Result, done, overflow, past_format, past_args, ◌>>=◌, put_next, put_string, int_limit, puts,
  plain, argument_text, directive, consume, format,
}
use acorn_os.Common.{
  ℕ, ◌%◌, ◌^◌, ◌≡◌, refl, sym, ◌∙◌, Bool, true, false, ◌&&◌, not, List, [], ◌∷◌, ◌++◌, append_assoc,
  arith, ◌==◌, if◌then◌else◌,
}

-- The bind of results
module _ {ℓ κ μ} {A : Type ℓ} {B : Type κ} {C : Type μ} where
  pub bind_assoc :
      (m : Result A) (f : A → Result B) (g : B → Result C)
      → ((m >>= f) >>= g) ≡ (m >>= λ a. f a >>= g)
  bind_assoc (done a) f g = refl
  bind_assoc past_format f g = refl
  bind_assoc past_args f g = refl
  bind_assoc overflow f g = refl

  bind_assoc_twice :
      {D : Type 0} (m : Result A) (f : A → Result B) (g : B → Result C) (h : C → Result D)
      → (((m >>= f) >>= g) >>= h) ≡ (m >>= λ a. (f a >>= g) >>= h)
  bind_assoc_twice (done a) f g h = refl
  bind_assoc_twice past_format f g h = refl
  bind_assoc_twice past_args f g h = refl
  bind_assoc_twice overflow f g h = refl

module _ {ℓ κ} {A : Type ℓ} {B : Type κ} where
  bind_eq : (m : Result A) (f g : A → Result B) → ((a : A) → f a ≡ g a) → (m >>= f) ≡ (m >>= g)
  bind_eq (done a) f g h = h a
  bind_eq past_format f g h = refl
  bind_eq past_args f g h = refl
  bind_eq overflow f g h = refl

-- A piece of a format, with the argument that it takes
pub data Piece : Type 0 where
  literal : ℕ → Piece
  percent_sign : Piece
  signed unsigned hex signed_long unsigned_long hex_long string character : ℕ → Piece

-- The text of the piece in the format
abbrev pub piece_format : Piece → List ℕ
piece_format (literal c) = c ∷ []
piece_format percent_sign = 37 ∷ 37 ∷ []
piece_format (signed a) = 37 ∷ 100 ∷ []
piece_format (unsigned a) = 37 ∷ 117 ∷ []
piece_format (hex a) = 37 ∷ 120 ∷ []
piece_format (signed_long a) = 37 ∷ 108 ∷ 100 ∷ []
piece_format (unsigned_long a) = 37 ∷ 108 ∷ 117 ∷ []
piece_format (hex_long a) = 37 ∷ 108 ∷ 120 ∷ []
piece_format (string a) = 37 ∷ 115 ∷ []
piece_format (character a) = 37 ∷ 99 ∷ []

abbrev pub piece_args : Piece → List ℕ
piece_args (literal c) = []
piece_args percent_sign = []
piece_args (signed a) = a ∷ []
piece_args (unsigned a) = a ∷ []
piece_args (hex a) = a ∷ []
piece_args (signed_long a) = a ∷ []
piece_args (unsigned_long a) = a ∷ []
piece_args (hex_long a) = a ∷ []
piece_args (string a) = a ∷ []
piece_args (character a) = a ∷ []

-- A literal is neither the terminator nor a percent sign.
abbrev pub is_piece : Piece → Bool
is_piece (literal c) = not (c == 37) && not (c == 0)
is_piece percent_sign = true
is_piece (signed a) = true
is_piece (unsigned a) = true
is_piece (hex a) = true
is_piece (signed_long a) = true
is_piece (unsigned_long a) = true
is_piece (hex_long a) = true
is_piece (string a) = true
is_piece (character a) = true

unfoldable pub are_pieces : List Piece → Bool
are_pieces [] = true
are_pieces (p ∷ ps) = is_piece p && are_pieces ps

unfoldable pub format_of : List Piece → List ℕ
format_of [] = []
format_of (p ∷ ps) = piece_format p ++ format_of ps

unfoldable pub args_of : List Piece → List ℕ
args_of [] = []
args_of (p ∷ ps) = piece_args p ++ args_of ps

-- A piece is printed by a loop of `PUTC(*p++)`, or by counting.
abbrev pub is_pointed : Piece → Bool
is_pointed (literal c) = true
is_pointed (string a) = true
is_pointed percent_sign = false
is_pointed (signed a) = false
is_pointed (unsigned a) = false
is_pointed (hex a) = false
is_pointed (signed_long a) = false
is_pointed (unsigned_long a) = false
is_pointed (hex_long a) = false
is_pointed (character a) = false

module _ (strings : ℕ → List ℕ) where
  -- What the piece is to print
  abbrev pub piece_text : Piece → List ℕ
  piece_text (literal c) = c ∷ []
  piece_text percent_sign = 37 ∷ []
  piece_text (signed a) = int_to_dec (a % 2 ^ 32)
  piece_text (unsigned a) = uint_to_dec (a % 2 ^ 32)
  piece_text (hex a) = uint_to_hex (a % 2 ^ 32)
  piece_text (signed_long a) = int64_to_dec a
  piece_text (unsigned_long a) = uint64_to_dec a
  piece_text (hex_long a) = uint64_to_hex a
  piece_text (string a) = if a == 0 then null_text else strings a
  piece_text (character a) = (a % 2 ^ 8) ∷ []

  unfoldable pub text_of : List Piece → List ℕ
  text_of [] = []
  text_of (p ∷ ps) = piece_text p ++ text_of ps

  not_percent : (c : ℕ) → is_piece (literal c) ≡ true → (c == 37) ≡ false
  not_percent c h = ground arith

  abbrev pub emit : ℕ → Piece → Out → Result Out
  emit size p o =
      if is_pointed p then put_string size o (piece_text p) else puts size o (piece_text p)

  unfoldable pub emits : ℕ → List Piece → Out → Result Out
  emits size [] o = done o
  emits size (p ∷ ps) o = emit size p o >>= emits size ps

  -- A piece at the head of the loop is printed, and the loop goes on behind it.
  format_piece :
      (size : ℕ) (p : Piece) (fmt args : List ℕ) (o : Out)
      → is_piece p ≡ true
      → format strings size (piece_format p ++ fmt) plain o (piece_args p ++ args)
        ≡ (emit size p o >>= λ o'. format strings size fmt plain o' args)
  unfolding format consume directive argument_text put_string
  format_piece size (literal c) fmt args o h =
      let e = not_percent c h in
      rw (e, format, consume)
        (bind_assoc (put_next int_limit size o c) _ _
          ∙ sym (bind_assoc (put_next int_limit size o c) _ _))
  format_piece size percent_sign fmt args o h = bind_assoc_twice (puts size o (37 ∷ [])) _ _ _
  format_piece size (signed a) fmt args o h =
      bind_assoc_twice (puts size o (int_to_dec (a % 2 ^ 32))) _ _ _
  format_piece size (unsigned a) fmt args o h =
      bind_assoc_twice (puts size o (uint_to_dec (a % 2 ^ 32))) _ _ _
  format_piece size (hex a) fmt args o h =
      bind_assoc_twice (puts size o (uint_to_hex (a % 2 ^ 32))) _ _ _
  format_piece size (signed_long a) fmt args o h =
      bind_assoc_twice (puts size o (int64_to_dec a)) _ _ _
  format_piece size (unsigned_long a) fmt args o h =
      bind_assoc_twice (puts size o (uint64_to_dec a)) _ _ _
  format_piece size (hex_long a) fmt args o h =
      bind_assoc_twice (puts size o (uint64_to_hex a)) _ _ _
  format_piece size (string a) fmt args o h =
      bind_assoc_twice (put_string size o (if a == 0 then null_text else strings a)) _ _ _
  format_piece size (character a) fmt args o h =
      bind_assoc_twice (puts size o ((a % 2 ^ 8) ∷ [])) _ _ _

  -- The pieces are printed one after the other; `rest` is what the format holds behind them.
  pub format_pieces :
      (size : ℕ) (ps : List Piece) (rest args : List ℕ) (o : Out)
      → are_pieces ps ≡ true
      → format strings size (format_of ps ++ rest) plain o (args_of ps ++ args)
        ≡ (emits size ps o >>= λ o'. format strings size rest plain o' args)
  unfolding format_of args_of are_pieces emits
  format_pieces size [] rest args o h = refl
  format_pieces size (p ∷ ps) rest args o h =
      rw (append_assoc (piece_format p), append_assoc (piece_args p))
        (format_piece size p (format_of ps ++ rest) (args_of ps ++ args) o (ground arith)
          ∙ bind_eq (emit size p o) _ _ (λ o'. format_pieces size ps rest args o' (ground arith))
          ∙ sym (bind_assoc (emit size p o) (emits size ps) _))
