-- ===== src/Kprintf/Format.antt =====
-- `kvsnprintf` of kernel/core/kprintf.c against a format that is given as its pieces.
use acorn_os.Kprintf.{
  Out, done, overflow, past_format, int_limit, written, consume, format, terminate, kvsnprintf,
}
use acorn_os.Kprintf.Pieces.{Piece, are_pieces, format_of, args_of, text_of, emits, format_pieces}
use acorn_os.Kprintf.Cut.{printed, printed-pos, passes, emits-done, emits_stuck}
use acorn_os.Common.{
  ℕ, zero, suc, ◌+◌, ◌-◌, ◌^◌, ◌≤◌, ◌<◌, min, ◌≡◌, refl, sym, ap, ◌∙◌, subst, ◌≢◌, ◌⊎◌, inl, inr,
  true, false, List, [], ◌∷◌, ◌++◌, append-nil, arith, length, get_or,
}

-- Bytes in front of the position and from the last of the buffer on stay.
printed_keeps :
    (size : ℕ) (o : Out) (xs : List ℕ) (i : ℕ)
    → (i < o.pos) ⊎ (size ≤ suc i)
    → (printed size o xs).buf i ≡ o.buf i
unfolding printed
printed_keeps size o [] i h = refl
printed_keeps size o (x ∷ xs) i h =
    printed_keeps size (written size o x) xs i
      (elim h [ inl a ↦ inl (omega arith) | inr b ↦ inr b ])
    ∙ elim h [ inl a ↦ ground arith | inr b ↦ ground arith ]

printed_writes :
    (size : ℕ) (o : Out) (xs : List ℕ) (i : ℕ)
    → i < length xs
    → suc (o.pos + i) < size
    → (printed size o xs).buf (o.pos + i) ≡ get_or xs i 0
unfolding printed
printed_writes size o [] i h l = absurd (omega arith)
printed_writes size o (x ∷ xs) zero h l =
    printed_keeps size (written size o x) xs (o.pos + 0) (inl (omega arith)) ∙ ground arith
printed_writes size o (x ∷ xs) (suc i) h l =
    ap (printed size (written size o x) xs).buf {x = o.pos + suc i} {y = suc o.pos + i}
      (omega arith)
    ∙ printed_writes size (written size o x) xs i (omega arith) (omega arith)

-- The buffer afterwards, for a text: its first characters up to `size - 1`, a terminator, and nothing
-- at `size` or behind.
abbrev pub Holds : ℕ → List ℕ → (ℕ → ℕ) → (ℕ → ℕ) → Type 0
Holds size text before after =
    ((i : ℕ) → i < length text → suc i < size → after i ≡ get_or text i 0)
    × (0 < size → after (min (length text) (size - 1)) ≡ 0)
    × ((i : ℕ) → size ≤ i → after i ≡ before i)

terminate_end : (size : ℕ) (o : Out) → 0 < size → terminate size o (min o.pos (size - 1)) ≡ 0
unfolding terminate
terminate_end size o h = ground arith

terminate_else :
    (size j : ℕ) (o : Out) → (0 < size → j ≢ min o.pos (size - 1)) → terminate size o j ≡ o.buf j
unfolding terminate
terminate_else size j o h = ground arith

abbrev start : (ℕ → ℕ) → Out
start buf = record { buf = buf; pos = 0 }

printed-pos_start :
    (size : ℕ) (buf : ℕ → ℕ) (text : List ℕ) → (printed size (start buf) text).pos ≡ length text
printed-pos_start size buf text = printed-pos size (start buf) text ∙ omega arith

Holds-terminate :
    (size : ℕ) (text : List ℕ) (buf : ℕ → ℕ)
    → Holds size text buf (terminate size (printed size (start buf) text))
Holds-terminate size text buf =
    let o : Out = printed size (start buf) text in
    let e : o.pos ≡ length text = printed-pos_start size buf text in
    (
      λ i l m.
          terminate_else size i o (λ _. omega arith)
          ∙ ap o.buf {x = i} {y = 0 + i} (omega arith)
          ∙ printed_writes size (start buf) text i l (omega arith),
      λ l. subst (λ k. terminate size o (min k (size - 1)) ≡ 0) e (terminate_end size o l),
      λ i l.
          terminate_else size i o (λ s. omega arith)
          ∙ printed_keeps size (start buf) text i (inr (omega arith)),
    )

module _ (strings : ℕ → List ℕ) where
  emits-start :
      (size : ℕ) (ps : List Piece) (buf : ℕ → ℕ)
      → size < 2 ^ 31
      → length (text_of strings ps) < 2 ^ 31
      → passes strings size 0 ps ≡ true
      → emits strings size ps (start buf) ≡ done (printed size (start buf) (text_of strings ps))
  unfolding int_limit
  emits-start size ps buf s l through =
      emits-done strings size ps (start buf) (omega arith) (omega arith) through

  -- For a format made of pieces each of which gets through, in a buffer of less than `2 ^ 31` bytes and
  -- with a text of less than `2 ^ 31` characters, `kvsnprintf` takes the arguments of the pieces,
  -- leaves the text of the pieces in the buffer, cut off at `size - 1` and terminated, writes nothing
  -- at `size` or behind, and returns the length of the whole text. A literal or a string gets through
  -- if it is empty or ends in front of the last byte of the buffer, and numbers, characters and
  -- percent signs always do.
  pub kvsnprintf_lem :
      (buf : ℕ → ℕ) (size : ℕ) (ps : List Piece) (args : List ℕ)
      → are_pieces ps ≡ true
      → size < 2 ^ 31
      → length (text_of strings ps) < 2 ^ 31
      → passes strings size 0 ps ≡ true
      → (after : ℕ → ℕ) × (kvsnprintf strings buf size (format_of ps) (args_of ps ++ args)
          ≡ done (after, length (text_of strings ps)))
        × Holds size (text_of strings ps) buf after
  unfolding kvsnprintf format
  kvsnprintf_lem buf size ps args h s l through = (
    terminate size (printed size (start buf) (text_of strings ps)),
    rw
        (
          sym (append-nil (format_of ps)),
          format_pieces strings size ps [] args,
          emits-start size ps buf s l through,
          printed-pos_start size buf (text_of strings ps),
        )
        refl,
    Holds-terminate size (text_of strings ps) buf,
  )

  -- For a format made of pieces of which one does not get through, `kvsnprintf` does not return: at
  -- the first character without room its loop goes on in place until `pos` overflows.
  pub kvsnprintf-overflow :
      (buf : ℕ → ℕ) (size : ℕ) (ps : List Piece) (args : List ℕ)
      → are_pieces ps ≡ true
      → size < 2 ^ 31
      → passes strings size 0 ps ≡ false
      → kvsnprintf strings buf size (format_of ps) (args_of ps ++ args) ≡ overflow
  unfolding kvsnprintf int_limit
  kvsnprintf-overflow buf size ps args h s stuck =
      let never : emits strings size ps (start buf) ≡ overflow =
        emits_stuck strings size ps (start buf) (omega arith) stuck in
      rw (sym (append-nil (format_of ps)), format_pieces strings size ps [] args, never) refl

  -- A format that ends behind a `%` or `%l`, after any pieces that get through in a buffer of less
  -- than `2 ^ 31` bytes with a text of less than `2 ^ 31` characters, is read past its terminator.
  pub kvsnprintf-past_format :
      (buf : ℕ → ℕ) (size : ℕ) (ps : List Piece) (args : List ℕ)
      → are_pieces ps ≡ true
      → size < 2 ^ 31
      → length (text_of strings ps) < 2 ^ 31
      → passes strings size 0 ps ≡ true
      → (kvsnprintf strings buf size (format_of ps ++ 37 ∷ []) (args_of ps ++ args) ≡ past_format)
        × (kvsnprintf strings buf size (format_of ps ++ 37 ∷ 108 ∷ []) (args_of ps ++ args)
            ≡ past_format)
  unfolding kvsnprintf format consume
  kvsnprintf-past_format buf size ps args h s l through =
      rw
        (
          format_pieces strings size ps (37 ∷ []) args,
          format_pieces strings size ps (37 ∷ 108 ∷ []) args,
          emits-start size ps buf s l through,
        )
        (refl, refl)
