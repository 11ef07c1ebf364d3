-- ===== src/Kprintf/Print.antt =====
-- `kprintf` and `kserial_printf` of kernel/core/kprintf.c: their buffer has 1024 bytes.
use acorn_os.Kprintf.{done, until_zero, carriage, kprintf, kserial_printf}
use acorn_os.Kprintf.Pieces.{Piece, are_pieces, format_of, args_of, text_of}
use acorn_os.Kprintf.Cut.{passes}
use acorn_os.Kprintf.Format.{Holds, kvsnprintf_lem}
use acorn_os.Common.{
  ◌^◌, ℕ, zero, suc, ◌+◌, ◌<◌, min, ◌≡◌, refl, sym, ap, ◌∙◌, true, List, [], ◌∷◌, ◌++◌, arith, ◌==◌,
  if◌then◌else◌, length, get_or, take, length-take,
}

-- The text up to its first zero.
unfoldable pub upto_zero : List ℕ → List ℕ
upto_zero [] = []
upto_zero (c ∷ cs) = if c == 0 then [] else c ∷ upto_zero cs

-- A buffer that holds `text` from `p` on and is terminated behind it prints `text`.
until_zero-upto_zero :
    (n : ℕ) (buf : ℕ → ℕ) (p : ℕ) (text : List ℕ)
    → length text < n
    → ((i : ℕ) → i < length text → buf (p + i) ≡ get_or text i 0)
    → buf (p + length text) ≡ 0
    → until_zero n buf p ≡ upto_zero text
unfolding until_zero upto_zero
until_zero-upto_zero zero buf p text l h e = absurd (omega arith)
until_zero-upto_zero (suc n) buf p [] l h e =
    rw (sym (ap buf {x = p + 0} {y = p} (omega arith)), e) refl
until_zero-upto_zero (suc n) buf p (c ∷ cs) l h e =
    let here : buf p ≡ c = ap buf {x = p} {y = p + 0} (omega arith) ∙ h 0 (omega arith) in
    let rest : until_zero n buf (suc p) ≡ upto_zero cs =
      until_zero-upto_zero n buf (suc p) cs (omega arith)
        (λ i k. ap buf {x = suc p + i} {y = p + suc i} (omega arith) ∙ h (suc i) (omega arith))
        (ap buf {x = suc p + length cs} {y = p + suc (length cs)} (omega arith) ∙ e) in
    rw (here, rest) refl

get_or-take : (n : ℕ) (xs : List ℕ) (i : ℕ) → i < n → get_or (take n xs) i 0 ≡ get_or xs i 0
get_or-take zero xs i h = absurd (omega arith)
get_or-take (suc n) [] i h = refl
get_or-take (suc n) (x ∷ xs) zero h = refl
get_or-take (suc n) (x ∷ xs) (suc i) h = get_or-take n xs i (omega arith)

until_zero-Holds :
    (text : List ℕ) (before after : ℕ → ℕ)
    → Holds 1024 text before after
    → until_zero 1024 after 0 ≡ upto_zero (take 1023 text)
until_zero-Holds text before after (chars, end, _) =
    until_zero-upto_zero 1024 after 0 (take 1023 text) (omega (arith, length-take 1023 text))
      (λ i k.
        ap after {x = 0 + i} {y = i} (omega arith)
        ∙ chars i (omega (arith, length-take 1023 text)) (omega (arith, length-take 1023 text))
        ∙ sym (get_or-take 1023 text i (omega (arith, length-take 1023 text))))
      (ap after {x = 0 + length (take 1023 text)} {y = min (length text) 1023}
          (omega (arith, length-take 1023 text))
        ∙ end (omega arith))

module _ (strings : ℕ → List ℕ) (buf : ℕ → ℕ) where
  -- For pieces with a text of less than `2 ^ 31` characters, each of which gets through a buffer of
  -- 1024 bytes, `kprintf` shows the text up to its first zero character, and at most 1023 of its
  -- characters; `kserial_printf` sends the same with a carriage return before each line feed.
  pub kprintf_lem :
      (ps : List Piece) (args : List ℕ)
      → are_pieces ps ≡ true
      → length (text_of strings ps) < 2 ^ 31
      → passes strings 1024 0 ps ≡ true
      → (kprintf strings buf (format_of ps) (args_of ps ++ args)
          ≡ done (upto_zero (take 1023 (text_of strings ps))))
        × (kserial_printf strings buf (format_of ps) (args_of ps ++ args)
            ≡ done (carriage (upto_zero (take 1023 (text_of strings ps)))))
  unfolding kprintf kserial_printf
  kprintf_lem ps args h l through =
      let (after, e, holds) = kvsnprintf_lem strings buf 1024 ps args h (omega arith) l through in
      rw (e, until_zero-Holds (text_of strings ps) buf after holds) (refl, refl)
